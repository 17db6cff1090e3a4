-- ===== src/Packs/Adtran.antt =====
-- packs/adtran/__init__.py: the runbooks that the pack seeds.
use silicon_valet.Prelude.{List, [], ◌∷◌, codes, some}
use silicon_valet.Risk.Classifier.{green, yellow}
use silicon_valet.Memory.Runbook.{Runbook, step, texts}

adtran_aos_interface_down : Runbook
adtran_aos_interface_down = record {
  title = codes "Adtran AOS interface down";
  problem_pattern = codes "Adtran NetVanta/TA interface in a down state";
  symptoms = texts (
      "show interfaces reports administratively down or line protocol down"
      ∷ "No traffic on customer port" ∷ []);
  steps =
      step "check" "show interfaces" "Overview of all interfaces" green
      ∷ step "check" "show interfaces {interface}" "Interface detail" green
      ∷ step "check" "show logging" "Recent events" green
      ∷ step "fix" "interface {interface}\nno shutdown" "Enable the interface" yellow
      ∷ [];
  root_cause = some (codes "Admin shut, cable/SFP issue, or far-end down");
  verification = some (codes "show interfaces {interface} reports 'up/up'");
  tags = texts ("adtran" ∷ "aos" ∷ "interface" ∷ []);
  pack_source = some (codes "adtran");
}

adtran_aos_save_config_after_change : Runbook
adtran_aos_save_config_after_change = record {
  title = codes "Adtran AOS save config after change";
  problem_pattern = codes "Config changes lost after reload on Adtran device";
  symptoms = texts ("Changes applied in running-config but missing after reboot" ∷ []);
  steps =
      step "check" "show running-config" "View current config" green
      ∷ step "check" "show startup-config" "View saved config" green
      ∷ step "fix" "write" "Persist running-config to startup-config" yellow
      ∷ [];
  root_cause = some (codes "Config not saved before reload");
  verification = some (codes "show startup-config matches show running-config");
  tags = texts ("adtran" ∷ "aos" ∷ "config" ∷ "save" ∷ []);
  pack_source = some (codes "adtran");
}

adtran_dsl_gpon_subscriber_offline : Runbook
adtran_dsl_gpon_subscriber_offline = record {
  title = codes "Adtran DSL/GPON subscriber offline";
  problem_pattern = codes "Customer on an Adtran access device reporting offline";
  symptoms =
      texts
        ("Subscriber session not present on the BNG" ∷ "ONT/modem reporting loss-of-signal" ∷ []);
  steps =
      step "check" "show interfaces {interface}" "Port layer-1 status" green
      ∷ step "check" "show gpon onu info all 2>/dev/null" "ONU registration state (GPON)" green
      ∷ step "check" "show pppoe sessions 2>/dev/null" "PPPoE sessions if applicable" green
      ∷ step "check" "show logging | include {subscriber}" "Log entries for this subscriber" green
      ∷ [];
  root_cause =
      some (codes "Physical fiber/copper issue, ONU not provisioned, or auth failure upstream");
  verification = some (codes "Subscriber session re-established and traffic flowing");
  tags = texts ("adtran" ∷ "gpon" ∷ "subscriber" ∷ "access" ∷ []);
  pack_source = some (codes "adtran");
}

adtran_ospf_neighbor_flapping : Runbook
adtran_ospf_neighbor_flapping = record {
  title = codes "Adtran OSPF neighbor flapping";
  problem_pattern = codes "OSPF neighbor on an Adtran router keeps cycling INIT/FULL";
  symptoms = texts (
      "show ip ospf neighbor shows frequent state transitions"
      ∷ "Routing convergence events in syslog" ∷ []);
  steps =
      step "check" "show ip ospf neighbor" "Neighbor states" green
      ∷ step "check" "show ip ospf interface {interface}" "Hello/dead timers, MTU" green
      ∷ step "check" "show ip interface {interface}" "Interface IP/MTU" green
      ∷ [];
  root_cause = some (codes "MTU mismatch, timer mismatch, authentication mismatch");
  verification = some (codes "show ip ospf neighbor stable at FULL for at least 5 minutes");
  tags = texts ("adtran" ∷ "ospf" ∷ "routing" ∷ []);
  pack_source = some (codes "adtran");
}

unfoldable pub adtran_seeds : List Runbook
unfolding adtran_aos_interface_down adtran_aos_save_config_after_change
    adtran_dsl_gpon_subscriber_offline adtran_ospf_neighbor_flapping
adtran_seeds =
    adtran_aos_interface_down ∷ adtran_aos_save_config_after_change
    ∷ adtran_dsl_gpon_subscriber_offline ∷ adtran_ospf_neighbor_flapping ∷ []
