-- ===== src/Packs/Cisco.antt =====
-- packs/cisco/__init__.py: the runbooks that the pack seeds.
use silicon_valet.Prelude.{List, [], ◌∷◌, codes, some}
use silicon_valet.Risk.Classifier.{green, yellow}
use silicon_valet.Memory.Runbook.{Runbook, step, texts}

cisco_interface_down : Runbook
cisco_interface_down = record {
  title = codes "Cisco interface down";
  problem_pattern = codes "A Cisco switch/router interface is reported down or not passing traffic";
  symptoms = texts (
      "show interface status shows 'notconnect' or 'disabled'"
      ∷ "show interface <if> line protocol is down" ∷ "Neighbors not appearing in CDP/LLDP" ∷ []);
  steps =
      step "check" "show interface status" "List all interface states" green
      ∷ step "check" "show interface {interface}" "Detailed status for the specific interface" green
      ∷ step "check" "show interface {interface} counters errors" "Check for CRC / input errors"
          green
      ∷ step "check" "show logging | include {interface}" "Look for link-flap log entries" green
      ∷ step "fix" "interface {interface}\nno shutdown" "Bring the interface up" yellow
      ∷ [];
  root_cause =
      some
        (codes "Interface administratively down, cable/SFP issue, duplex mismatch, or err-disable");
  verification =
      some (codes "show interface {interface} reports 'up/up' and CDP neighbor reappears");
  tags = texts ("cisco" ∷ "ios" ∷ "interface" ∷ "layer1" ∷ []);
  pack_source = some (codes "cisco");
}

cisco_ospf_neighbor_not_forming : Runbook
cisco_ospf_neighbor_not_forming = record {
  title = codes "Cisco OSPF neighbor not forming";
  problem_pattern = codes "OSPF neighbor stuck in INIT/EXSTART/2WAY, not reaching FULL";
  symptoms = texts (
      "show ip ospf neighbor shows state < FULL" ∷ "LSAs not propagating"
      ∷ "Adjacency flaps repeatedly" ∷ []);
  steps =
      step "check" "show ip ospf neighbor" "Current OSPF neighbor states" green
      ∷ step "check" "show ip ospf interface {interface}" "Verify timers, area, network type, MTU"
          green
      ∷ step "check" "show ip interface {interface}" "Check IP, MTU, secondary addresses" green
      ∷ step "check" "debug ip ospf adj"
          "Watch adjacency negotiation (noisy — remember to 'undebug all')" yellow
      ∷ [];
  root_cause = some (
      codes
        "MTU mismatch, area mismatch, timer mismatch, authentication mismatch, or network-type mismatch");
  verification = some (codes "show ip ospf neighbor reports FULL on both ends");
  tags = texts ("cisco" ∷ "ios" ∷ "ospf" ∷ "routing" ∷ []);
  pack_source = some (codes "cisco");
}

cisco_high_cpu : Runbook
cisco_high_cpu = record {
  title = codes "Cisco high CPU";
  problem_pattern = codes "Cisco device reporting sustained high CPU";
  symptoms = texts (
      "show processes cpu shows >80% sustained" ∷ "Control plane packets dropped"
      ∷ "SSH sessions sluggish" ∷ []);
  steps =
      step "check" "show processes cpu sorted | exclude 0.00" "Top CPU-consuming processes" green
      ∷ step "check" "show processes cpu history" "CPU trend over the last hour" green
      ∷ step "check" "show ip traffic" "Punt traffic volume" green
      ∷ step "check"
          "show platform punt-policer 2>/dev/null || show platform software infrastructure punt"
          "Punt policer stats (IOS-XE)" green
      ∷ [];
  root_cause = some (
      codes
        "Control-plane flood (ARP, BPDU, routing), process-switching instead of CEF, or buggy feature");
  verification = some (codes "show processes cpu returns to baseline (<30%)");
  tags = texts ("cisco" ∷ "cpu" ∷ "performance" ∷ []);
  pack_source = some (codes "cisco");
}

cisco_vlan_trunk_mismatch : Runbook
cisco_vlan_trunk_mismatch = record {
  title = codes "Cisco VLAN / trunk mismatch";
  problem_pattern = codes "Devices on same VLAN cannot reach each other across switches";
  symptoms = texts (
      "Hosts in VLAN X reachable on one switch but not another"
      ∷ "show interface trunk missing the VLAN" ∷ "Spanning tree blocking unexpectedly" ∷ []);
  steps =
      step "check" "show vlan brief" "List VLANs on this switch" green
      ∷ step "check" "show interface trunk" "VLANs allowed on each trunk" green
      ∷ step "check" "show spanning-tree vlan {vlan}" "STP state for the VLAN" green
      ∷ step "check" "show mac address-table vlan {vlan}" "MAC table for the VLAN" green
      ∷ step "fix" "interface {trunk}\nswitchport trunk allowed vlan add {vlan}"
          "Add VLAN to the trunk's allowed list" yellow
      ∷ [];
  root_cause = some (codes "VLAN pruned on a trunk, VTP mismatch, or STP blocking");
  verification = some (codes "show interface trunk shows the VLAN as allowed and forwarding");
  tags = texts ("cisco" ∷ "vlan" ∷ "trunk" ∷ "l2" ∷ []);
  pack_source = some (codes "cisco");
}

cisco_bgp_neighbor_not_established : Runbook
cisco_bgp_neighbor_not_established = record {
  title = codes "Cisco BGP neighbor not established";
  problem_pattern = codes "BGP session not reaching Established state";
  symptoms =
      texts
        ("show bgp summary shows Idle/Active/OpenSent" ∷ "No routes received from neighbor" ∷ []);
  steps =
      step "check" "show bgp summary" "BGP session states" green
      ∷ step "check" "show bgp neighbors {neighbor}" "Detailed neighbor state and capabilities"
          green
      ∷ step "check" "show ip route {neighbor}" "Make sure the neighbor is reachable" green
      ∷ step "check" "ping {neighbor} source {loopback}" "TCP 179 reachability check via source"
          green
      ∷ [];
  root_cause = some (
      codes
        "TCP unreachable, AS mismatch, wrong update-source, MD5 auth mismatch, or eBGP multihop");
  verification = some (codes "show bgp summary reports Established with non-zero prefixes");
  tags = texts ("cisco" ∷ "bgp" ∷ "routing" ∷ []);
  pack_source = some (codes "cisco");
}

unfoldable pub cisco_seeds : List Runbook
unfolding cisco_interface_down cisco_ospf_neighbor_not_forming cisco_high_cpu
    cisco_vlan_trunk_mismatch cisco_bgp_neighbor_not_established
cisco_seeds =
    cisco_interface_down ∷ cisco_ospf_neighbor_not_forming ∷ cisco_high_cpu
    ∷ cisco_vlan_trunk_mismatch ∷ cisco_bgp_neighbor_not_established ∷ []
