-- ===== src/Packs/Nokia.antt =====
-- packs/nokia/__init__.py: the runbooks that the pack seeds.
use silicon_valet.Prelude.{List, [], ◌∷◌, codes, some}
use silicon_valet.Risk.Classifier.{green, yellow}
use silicon_valet.Memory.Runbook.{Runbook, step, texts}

nokia_sr_os_port_admin_down : Runbook
nokia_sr_os_port_admin_down = record {
  title = codes "Nokia SR OS port admin-down";
  problem_pattern = codes "Nokia SR OS port appears down; subscribers on that port offline";
  symptoms =
      texts (
        "show port reports 'down/down'" ∷ "No LLDP neighbor" ∷ "Subscriber sessions dropping" ∷ []);
  steps =
      step "check" "show port" "Summary of every port" green
      ∷ step "check" "show port {port} detail" "Full status + counters for the port" green
      ∷ step "check" "show log log-id 99" "Check system event log for link events" green
      ∷ step "fix" "configure port {port} no shutdown" "Bring the port up administratively" yellow
      ∷ [];
  root_cause = some (codes "Port administratively shut, SFP fault, or peer-side down");
  verification = some (codes "show port {port} shows 'up/up'");
  tags = texts ("nokia" ∷ "sros" ∷ "port" ∷ "layer1" ∷ []);
  pack_source = some (codes "nokia");
}

nokia_sr_os_service_vpls_vprn_not_forwarding : Runbook
nokia_sr_os_service_vpls_vprn_not_forwarding = record {
  title = codes "Nokia SR OS service (VPLS/VPRN) not forwarding";
  problem_pattern = codes "L2 or L3 VPN service built but customer traffic not passing";
  symptoms = texts (
      "SAP shows oper-state down" ∷ "MAC table empty on VPLS"
      ∷ "VPRN route-table missing expected prefixes" ∷ []);
  steps =
      step "check" "show service service-using" "List services on this node" green
      ∷ step "check" "show service id {svc_id} base" "Base service state" green
      ∷ step "check" "show service id {svc_id} sap" "SAP admin/oper state" green
      ∷ step "check" "show service id {svc_id} sdp" "SDP bindings (for mesh services)" green
      ∷ step "check" "show service id {svc_id} fdb detail" "VPLS MAC table" green
      ∷ [];
  root_cause = some (codes "SAP admin-down, SDP down, MTU mismatch, or encap-value mismatch");
  verification = some (
      codes
        "show service id {svc_id} base reports oper-state up and traffic counters incrementing");
  tags = texts ("nokia" ∷ "sros" ∷ "vpls" ∷ "vprn" ∷ "service" ∷ []);
  pack_source = some (codes "nokia");
}

nokia_sr_os_is_is_adjacency_down : Runbook
nokia_sr_os_is_is_adjacency_down = record {
  title = codes "Nokia SR OS IS-IS adjacency down";
  problem_pattern = codes "IS-IS neighbor not forming or stuck in INIT";
  symptoms =
      texts
        ("show router isis adjacency reports neighbor missing or in INIT" ∷ "LSDB incomplete" ∷ []);
  steps =
      step "check" "show router isis adjacency" "Neighbor states" green
      ∷ step "check" "show router isis interface" "Interface level/authentication" green
      ∷ step "check" "show router interface" "Verify IP + system IP reachability" green
      ∷ [];
  root_cause =
      some
        (codes "MTU mismatch, area/level mismatch, authentication mismatch, or interface passive");
  verification = some (codes "show router isis adjacency reports 'Up' for the neighbor");
  tags = texts ("nokia" ∷ "sros" ∷ "isis" ∷ "routing" ∷ []);
  pack_source = some (codes "nokia");
}

nokia_sr_os_high_cpu_control_plane : Runbook
nokia_sr_os_high_cpu_control_plane = record {
  title = codes "Nokia SR OS high CPU / control-plane";
  problem_pattern = codes "SR OS CPM / control-plane reporting high CPU utilization";
  symptoms = texts (
      "show system cpu reports elevated values" ∷ "Slow CLI response"
      ∷ "BGP or IS-IS flaps without clear L1 cause" ∷ []);
  steps =
      step "check" "show system cpu" "CPU summary" green
      ∷ step "check" "show system memory-pools" "Memory health" green
      ∷ step "check" "show system cpu-usage" "Per-process breakdown" green
      ∷ step "check" "show log log-id 99 | match CRITICAL" "Critical events in syslog" green
      ∷ [];
  root_cause = some (codes "Control-plane flood, CPM filter missing, or route churn");
  verification =
      some (codes "show system cpu drops back to baseline; BGP/IS-IS stable for 10 minutes");
  tags = texts ("nokia" ∷ "sros" ∷ "cpu" ∷ "performance" ∷ []);
  pack_source = some (codes "nokia");
}

nokia_sr_linux_interface_diagnostic : Runbook
nokia_sr_linux_interface_diagnostic = record {
  title = codes "Nokia SR Linux interface diagnostic";
  problem_pattern = codes "SR Linux interface not forwarding expected traffic";
  symptoms = texts (
      "info from state interface {name} shows admin-state enable but oper-state down"
      ∷ "Peers unreachable via that interface" ∷ []);
  steps =
      step "check" "info from state interface {name}" "Full interface state (YANG)" green
      ∷ step "check" "info from state interface {name} statistics" "Counter deltas" green
      ∷ step "check" "show network-instance default route-table ipv4-unicast"
          "Route table for default NI" green
      ∷ [];
  root_cause = some (codes "Admin disable on subinterface, wrong encapsulation, MTU mismatch");
  verification = some (codes "oper-state reports 'up' and counters increment");
  tags = texts ("nokia" ∷ "srlinux" ∷ "interface" ∷ []);
  pack_source = some (codes "nokia");
}

unfoldable pub nokia_seeds : List Runbook
unfolding nokia_sr_os_port_admin_down nokia_sr_os_service_vpls_vprn_not_forwarding
    nokia_sr_os_is_is_adjacency_down nokia_sr_os_high_cpu_control_plane
    nokia_sr_linux_interface_diagnostic
nokia_seeds =
    nokia_sr_os_port_admin_down ∷ nokia_sr_os_service_vpls_vprn_not_forwarding
    ∷ nokia_sr_os_is_is_adjacency_down ∷ nokia_sr_os_high_cpu_control_plane
    ∷ nokia_sr_linux_interface_diagnostic ∷ []
