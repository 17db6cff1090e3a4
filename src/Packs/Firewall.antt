-- ===== src/Packs/Firewall.antt =====
-- packs/firewall/__init__.py: the runbooks that the pack seeds.
use silicon_valet.Prelude.{List, [], ◌∷◌, codes, some}
use silicon_valet.Risk.Classifier.{green, yellow}
use silicon_valet.Memory.Runbook.{Runbook, step, texts}

locked_out_of_ssh : Runbook
locked_out_of_ssh = record {
  title = codes "Locked out of SSH";
  problem_pattern = codes "Cannot SSH into server due to firewall or fail2ban";
  symptoms = texts (
      "SSH connection timeout or refused" ∷ "fail2ban has banned your IP"
      ∷ "Firewall rule blocking port 22" ∷ []);
  steps =
      step "check" "systemctl status sshd" "Check SSH service status" green
      ∷ step "check" "ss -tlnp | grep :22" "Check if SSH is listening" green
      ∷ step "check" "fail2ban-client status sshd 2>/dev/null" "Check fail2ban SSH jail status"
          green
      ∷ step "check"
          "ufw status 2>/dev/null || firewall-cmd --list-all 2>/dev/null || iptables -L -n | head -30"
          "Check firewall rules" green
      ∷ step "fix" "fail2ban-client set sshd unbanip {ip_address}" "Unban IP from fail2ban" yellow
      ∷ step "fix"
          "ufw allow 22/tcp 2>/dev/null || firewall-cmd --add-service=ssh --permanent 2>/dev/null"
          "Allow SSH through firewall" yellow
      ∷ [];
  root_cause = some (codes "IP banned by fail2ban, firewall misconfigured, or SSH service down");
  verification = some (codes "SSH connection succeeds from the affected IP");
  tags = texts ("ssh" ∷ "firewall" ∷ "fail2ban" ∷ "lockout" ∷ "security" ∷ []);
  pack_source = some (codes "firewall");
}

port_unreachable_despite_service_running : Runbook
port_unreachable_despite_service_running = record {
  title = codes "Port unreachable despite service running";
  problem_pattern =
      codes "Service is running and listening but clients cannot connect from outside";
  symptoms = texts (
      "Service shows as running in systemctl" ∷ "ss shows service listening on the port"
      ∷ "External clients get 'connection refused' or timeout" ∷ []);
  steps =
      step "check" "ss -tlnp | grep {port}" "Verify service is listening on the port" green
      ∷ step "check" "ufw status verbose 2>/dev/null || firewall-cmd --list-all 2>/dev/null"
          "Check firewall rules for the port" green
      ∷ step "check" "iptables -L -n -v | grep {port} 2>/dev/null" "Check iptables for the port"
          green
      ∷ step "check" "curl -v localhost:{port} 2>&1 | head -10" "Test local connectivity" green
      ∷ step "fix"
          "ufw allow {port}/tcp 2>/dev/null || firewall-cmd --add-port={port}/tcp --permanent && firewall-cmd --reload 2>/dev/null"
          "Allow port through firewall" yellow
      ∷ [];
  root_cause = some (
      codes "Firewall blocking the port, service bound to localhost only, or cloud security group");
  verification = some (codes "External client can connect to the service");
  tags = texts ("firewall" ∷ "port" ∷ "networking" ∷ "access" ∷ []);
  pack_source = some (codes "firewall");
}

fail2ban_blocking_legitimate_users : Runbook
fail2ban_blocking_legitimate_users = record {
  title = codes "Fail2ban blocking legitimate users";
  problem_pattern = codes "Fail2ban banning legitimate IPs due to aggressive rules";
  symptoms = texts (
      "Users reporting intermittent connection failures"
      ∷ "fail2ban-client status shows many banned IPs"
      ∷ "Legitimate login attempts being counted as failures" ∷ []);
  steps =
      step "check" "fail2ban-client status" "List all fail2ban jails" green
      ∷ step "check" "fail2ban-client status sshd 2>/dev/null"
          "Check SSH jail details and banned IPs" green
      ∷ step "check"
          "cat /etc/fail2ban/jail.local 2>/dev/null || cat /etc/fail2ban/jail.conf | grep -A5 '\\[sshd\\]'"
          "Check fail2ban configuration" green
      ∷ step "check" "tail -50 /var/log/fail2ban.log" "Check recent fail2ban actions" green
      ∷ [];
  root_cause =
      some (
        codes "Ban threshold too low, ban time too long, or ignoreip not configured for known IPs");
  verification = some (codes "Legitimate users can connect without being banned");
  tags = texts ("fail2ban" ∷ "security" ∷ "banning" ∷ "ssh" ∷ []);
  pack_source = some (codes "firewall");
}

unfoldable pub firewall_seeds : List Runbook
unfolding locked_out_of_ssh port_unreachable_despite_service_running
    fail2ban_blocking_legitimate_users
firewall_seeds =
    locked_out_of_ssh ∷ port_unreachable_despite_service_running
    ∷ fail2ban_blocking_legitimate_users ∷ []
