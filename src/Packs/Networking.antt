-- ===== src/Packs/Networking.antt =====
-- packs/networking/__init__.py: the runbooks that the pack seeds.
use silicon_valet.Prelude.{List, [], ◌∷◌, codes, some}
use silicon_valet.Risk.Classifier.{green, yellow}
use silicon_valet.Memory.Runbook.{Runbook, step, texts}

dns_resolution_failure : Runbook
dns_resolution_failure = record {
  title = codes "DNS resolution failure";
  problem_pattern = codes "DNS queries failing or returning wrong results";
  symptoms = texts (
      "Services cannot resolve hostnames" ∷ "dig or nslookup returns SERVFAIL or NXDOMAIN"
      ∷ "Applications report connection timeout to named hosts" ∷ []);
  steps =
      step "check" "dig @127.0.0.1 example.com" "Test local DNS resolver" green
      ∷ step "check" "cat /etc/resolv.conf" "Verify DNS configuration" green
      ∷ step "check" "systemctl status systemd-resolved" "Check DNS service status" green
      ∷ step "check" "kubectl get pods -n kube-system -l k8s-app=kube-dns" "Check CoreDNS pods"
          green
      ∷ step "fix" "systemctl restart systemd-resolved" "Restart DNS resolver" yellow
      ∷ [];
  root_cause = some (codes "DNS resolver service is down or misconfigured");
  verification = some (codes "dig example.com returns correct IP");
  tags = texts ("dns" ∷ "networking" ∷ "resolution" ∷ []);
  pack_source = some (codes "networking");
}

network_connectivity_loss_between_nodes : Runbook
network_connectivity_loss_between_nodes = record {
  title = codes "Network connectivity loss between nodes";
  problem_pattern = codes "Nodes cannot reach each other over the network";
  symptoms = texts (
      "ping between nodes fails" ∷ "kubectl reports NotReady nodes"
      ∷ "Services on remote nodes unreachable" ∷ []);
  steps =
      step "check" "ping -c 3 {target_ip}" "Test basic connectivity" green
      ∷ step "check" "ip route show" "Check routing table" green
      ∷ step "check" "ip link show" "Check network interfaces" green
      ∷ step "check" "ss -tlnp" "Check listening ports" green
      ∷ step "check" "traceroute {target_ip}" "Trace network path" green
      ∷ [];
  root_cause = some (codes "Network interface down, route misconfiguration, or firewall blocking");
  verification = some (codes "ping between nodes succeeds with <10ms latency");
  tags = texts ("networking" ∷ "connectivity" ∷ "nodes" ∷ []);
  pack_source = some (codes "networking");
}

unfoldable pub networking_seeds : List Runbook
unfolding dns_resolution_failure network_connectivity_loss_between_nodes
networking_seeds = dns_resolution_failure ∷ network_connectivity_loss_between_nodes ∷ []
