-- ===== src/Packs/Zabbix.antt =====
-- packs/zabbix/__init__.py: the runbooks that the pack seeds.
use silicon_valet.Prelude.{List, [], ◌∷◌, codes, some}
use silicon_valet.Risk.Classifier.{green, yellow}
use silicon_valet.Memory.Runbook.{Runbook, step, texts}

zabbix_server_not_starting : Runbook
zabbix_server_not_starting = record {
  title = codes "Zabbix server not starting";
  problem_pattern = codes "Zabbix server service fails to start or crashes immediately";
  symptoms = texts (
      "systemctl status zabbix-server shows failed" ∷ "Zabbix web UI unreachable"
      ∷ "Port 10051 not listening" ∷ []);
  steps =
      step "check" "systemctl status zabbix-server" "Check service status" green
      ∷ step "check" "journalctl -u zabbix-server --since '10 min ago'" "Check recent logs" green
      ∷ step "check" "cat /etc/zabbix/zabbix_server.conf | grep -v '^#' | grep -v '^$'"
          "Review active config" green
      ∷ step "check" "ss -tlnp | grep 10051" "Check if port is in use" green
      ∷ step "fix" "systemctl restart zabbix-server" "Restart Zabbix server" yellow
      ∷ [];
  root_cause = some (codes "Database connection failure, config error, or port conflict");
  verification =
      some (codes "systemctl is-active zabbix-server returns active AND port 10051 is listening");
  tags = texts ("zabbix" ∷ "server" ∷ "startup" ∷ []);
  pack_source = some (codes "zabbix");
}

zabbix_agent_unreachable : Runbook
zabbix_agent_unreachable = record {
  title = codes "Zabbix agent unreachable";
  problem_pattern = codes "Zabbix server cannot communicate with agent on monitored host";
  symptoms = texts (
      "Host shows as unreachable in Zabbix dashboard"
      ∷ "Get value from agent failed: cannot connect" ∷ "Port 10050 not responding" ∷ []);
  steps =
      step "check" "systemctl status zabbix-agent2" "Check agent status on target" green
      ∷ step "check" "ss -tlnp | grep 10050" "Check if agent port is listening" green
      ∷ step "check" "cat /etc/zabbix/zabbix_agent2.conf | grep Server" "Verify allowed server IPs"
          green
      ∷ step "check" "ping -c 3 {agent_host}" "Test network connectivity" green
      ∷ step "fix" "systemctl restart zabbix-agent2" "Restart the agent" yellow
      ∷ [];
  root_cause =
      some (codes "Agent not running, firewall blocking port 10050, or Server= config mismatch");
  verification = some (codes "Zabbix server can query the agent and host shows as available");
  tags = texts ("zabbix" ∷ "agent" ∷ "connectivity" ∷ []);
  pack_source = some (codes "zabbix");
}

unfoldable pub zabbix_seeds : List Runbook
unfolding zabbix_server_not_starting zabbix_agent_unreachable
zabbix_seeds = zabbix_server_not_starting ∷ zabbix_agent_unreachable ∷ []
