-- ===== src/Dna/Scanner/Tests.antt =====
-- Scans of a small machine.
use silicon_valet.Prelude.{
  ℕ, ◌≡◌, ◌↔◌, is_space, refl, false, Option, none, some, List, [], ◌∷◌, Text, codes, text_eq, join,
  if◌then◌else◌, map,
}
use silicon_valet.Dna.Models.{Port}
use silicon_valet.Dna.Tables.{empty_table}
use silicon_valet.Prelude.Int.{decimal}
use silicon_valet.Json
use silicon_valet.Json.{loads, skip, chars, natural}
use silicon_valet.Json.Lookup.{find_field}
use silicon_valet.Dna.Tables.{upsert}
use silicon_valet.Dna.Store.{
  Store, upsert_node, commit, upsert_service, service_scheme, upsert_network_interface,
  add_dependency,
}
use silicon_valet.Dna.Scanner.Machine.{ScanTarget}
use silicon_valet.Dna.Scanner.Plain.{scan_ports, parse_systemctl_plain, systemd_service}
use silicon_valet.Dna.Scanner.Known.{known_deps}
use silicon_valet.Dna.Scanner.Update.{scan_once, infer_dependencies, inferred}
use silicon_valet.Dna.Scanner.Update.Ports.{Portless, scan_once-Portless}
use silicon_valet.Dna.Scanner.Objects
use silicon_valet.Dna.Scanner.Objects.{Reading, caught, fault, Found, discover}
use silicon_valet.Dna.Scanner.Update.Steps.{Grows}
use silicon_valet.Dna.Scanner.Update.Completes.{scan_once-Completes}
use silicon_valet.Dna.Scanner.Update.Rules.{In, Follows, infer_dependencies_iff}

abbrev answer : Text → Option Text
answer command =
    if text_eq command (codes "ss -tlnp")
    then some (
        codes
          "State Recv-Q Send-Q Local Peer\nLISTEN 0 128 0.0.0.0:22 0.0.0.0:*\nLISTEN 0 511 [::]:80 [::]:*")
    else if text_eq command
        (codes "systemctl list-units --type=service --all --no-pager --output=json")
    then some (
        codes
          "[{\"unit\": \"nginx.service\", \"active\": \"active\"}, {\"unit\": \"php-fpm.service\", \"active\": \"failed\"}]")
    else if text_eq command (codes "ip -j addr show")
    then some (
        codes
          "[{\"ifname\": \"lo\"}, {\"ifname\": \"eth0\", \"operstate\": \"UP\", \"address\": \"aa\", \"addr_info\": [{\"family\": \"inet\", \"local\": \"10.0.0.5\", \"prefixlen\": 24}]}]")
    else if text_eq command (codes "nproc")
    then some (codes "4")
    else none

abbrev web : ScanTarget
web = record {
  run_cmd = λ command. answer (join (codes " ") command);
  hostname = codes "web1";
  meminfo = some (codes "MemTotal:       2048000 kB\nMemFree: 1 kB\n");
  os_release = some (codes "NAME=x\nPRETTY_NAME=\"Debian 12\"\n");
  has_kubectl = false;
  has_docker = false;
  now = codes "t1";
}

abbrev empty_store : Store
empty_store = record {
  nodes = empty_table;
  services = empty_table;
  ports = empty_table;
  config_files = empty_table;
  dependencies = empty_table;
  network_interfaces = empty_table;
  changes_log = [];
}

abbrev listening : ℕ → Text → Port
listening n address = record {
  port = n;
  service_id = none;
  protocol = codes "tcp";
  bind_address = address;
  state = codes "LISTEN";
}

ports_found : scan_ports web ≡ listening 22 (codes "0.0.0.0") ∷ listening 80 (codes "::") ∷ []
unfolding scan_ports join is_space
ports_found = refl

units_found :
    parse_systemctl_plain
      (codes "t")
      (codes "ssh.service loaded active running SSH\nx.socket a b c")
    ≡ systemd_service (codes "t") (codes "ssh") (codes "running") ∷ []
unfolding parse_systemctl_plain is_space
units_found = refl

unfoldable opens_scan : Unit {0}
unfolding join is_space loads Json.value skip chars find_field natural decimal upsert_node commit
    upsert upsert_service service_scheme upsert_network_interface add_dependency
opens_scan = tt

-- Two services on one node, one dependency, one interface, and no port.
abbrev after_scan : Store
after_scan = (scan_once web empty_store).1

names_stored :
    map {B = Text × Option Text} (λ r. (r.body.name, r.body.status)) after_scan.services.rows
    ≡ (codes "nginx", some (codes "running")) ∷ (codes "php-fpm", some (codes "failed")) ∷ []
unfolding scan_once opens_scan
names_stored = refl

addresses_stored :
    map {B = ℕ × Option Text}
      (λ r. (r.body.node_id, r.body.subnet))
      after_scan.network_interfaces.rows
    ≡ (1, some (codes "10.0.0.5/24")) ∷ []
unfolding scan_once opens_scan
addresses_stored = refl

dependencies_stored :
    map {B = ℕ × ℕ}
      (λ r. (r.body.source_service_id, r.body.target_service_id))
      after_scan.dependencies.rows
    ≡ (1, 2) ∷ []
unfolding scan_once opens_scan
dependencies_stored = refl

-- The machine listens on two ports.
scan_once-Portless_example : Portless after_scan
scan_once-Portless_example = scan_once-Portless web empty_store refl

abbrev two_names : List (Text × ℕ)
two_names = (codes "nginx", 1) ∷ (codes "php-fpm", 2) ∷ []

infer_dependencies_iff_example :
    let d =
      inferred
        (record {
          source_pattern = codes "nginx";
          target_pattern = codes "php-fpm";
          dep_type = codes "network";
          detail = codes "PHP processing";
        })
        1
        2 in
    In d (infer_dependencies known_deps two_names) ↔ Follows d known_deps two_names
infer_dependencies_iff_example = infer_dependencies_iff _ known_deps two_names

abbrev found_in : Reading Found → Found
found_in (Objects.value d) = d
found_in caught = record { nodes = []; services = []; network_interfaces = [] }
found_in fault = record { nodes = []; services = []; network_interfaces = [] }

scan_once-Completes_example :
    ((scan_once web empty_store).0 ≡ some tt) × Grows empty_store after_scan
unfolding discover opens_scan
scan_once-Completes_example = scan_once-Completes web (found_in (discover web)) empty_store refl
