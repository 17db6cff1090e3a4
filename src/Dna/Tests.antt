-- ===== src/Dna/Tests.antt =====
-- Runs of dna/store.py, and the theorems at concrete inputs.
use silicon_valet.Prelude.{ℕ, ◌≡◌, refl, Option, none, some, [], codes, length}
use silicon_valet.Dna.Models.{Node, Service, Port}
use silicon_valet.Dna.Tables.{empty_table, upsert, find_where, update_id, insert_row, modifications}
use silicon_valet.Dna.Store.{
  Store, commit, refers, same_id, same_node, text_or_empty, str_of, field_change, digits_of,
  coalesce, node_scheme, service_scheme, port_scheme, upsert_node, upsert_service, upsert_port,
  mark_services_removed, remove_inactive, delete_service, removal,
}
use silicon_valet.Dna.Store.Again.{upsert_node-again, upsert_service-again, upsert_port-again}
use silicon_valet.Dna.Store.Validity.{IsValid}
use silicon_valet.Dna.Store.Reachable.{start, node, service, port, removals, Reachable-IsValid}

abbrev empty_store : Store
empty_store = record {
  nodes = empty_table;
  services = empty_table;
  ports = empty_table;
  config_files = empty_table;
  dependencies = empty_table;
  network_interfaces = empty_table;
  changes_log = [];
}

abbrev web1 : Node
web1 = record {
  hostname = codes "web1";
  ip = some (codes "10.0.0.5");
  role = none;
  os_version = none;
  ram_total_mb = some 2048;
  cpu_cores = none;
  last_seen = codes "t1";
}

abbrev nginx : Service
nginx = record {
  name = codes "nginx";
  kind = codes "systemd";
  node_id = some 1;
  namespace = none;
  status = some (codes "running");
  pid = some 7;
  image = none;
  last_seen = codes "t1";
}

abbrev http : Port
http = record {
  port = 80;
  service_id = some 1;
  protocol = codes "tcp";
  bind_address = codes "0.0.0.0";
  state = codes "LISTEN";
}

-- The stores after the node, the service and the port, with their ids.
abbrev stores : Option (ℕ × Store) → ℕ × Store
stores none = (0, empty_store)
stores (some x) = x

unfoldable with_node : ℕ × Store
with_node = stores (upsert_node (codes "t1") web1 empty_store)

unfoldable with_service : ℕ × Store
with_service = stores (upsert_service (codes "t1") nginx with_node.1)

unfoldable with_port : ℕ × Store
with_port = stores (upsert_port (codes "t1") http with_service.1)

unfoldable opens_store : Unit {0}
unfolding with_node with_service with_port commit refers same_id same_node text_or_empty str_of
    field_change digits_of coalesce node_scheme service_scheme port_scheme upsert_node
    upsert_service upsert_port upsert find_where update_id insert_row modifications
    mark_services_removed remove_inactive delete_service removal
opens_store = tt

node_run : upsert_node (codes "t1") web1 empty_store ≡ some with_node
unfolding opens_store
node_run = refl

service_run : upsert_service (codes "t1") nginx with_node.1 ≡ some with_service
unfolding opens_store
service_run = refl

port_run : upsert_port (codes "t1") http with_service.1 ≡ some with_port
unfolding opens_store
port_run = refl

-- A service on a node that the store does not know is refused.
service_refused : upsert_service (codes "t1") nginx empty_store ≡ none
unfolding opens_store
service_refused = refl

-- A new status is one entry in the log.
status_logged :
    length
      (stores (
        upsert_service
          (codes "t2")
          (record nginx { status = some (codes "failed"); pid = none })
          with_service.1)).1.changes_log
    ≡ 3
unfolding opens_store
status_logged = refl

upsert_node-again_example : upsert_node (codes "t2") web1 with_node.1 ≡ some with_node
upsert_node-again_example =
    upsert_node-again (codes "t1") (codes "t2") web1 empty_store with_node (tt, tt) node_run

upsert_service-again_example : upsert_service (codes "t2") nginx with_service.1 ≡ some with_service
unfolding opens_store
upsert_service-again_example =
    upsert_service-again (codes "t1") (codes "t2") nginx with_node.1 with_service (tt, tt)
      service_run

upsert_port-again_example : upsert_port (codes "t2") http with_port.1 ≡ some with_port
unfolding opens_store
upsert_port-again_example =
    upsert_port-again (codes "t1") (codes "t2") http with_service.1 with_port 1 (tt, tt) refl
      port_run

Reachable-IsValid_example : IsValid (mark_services_removed (codes "t3") [] with_port.1)
Reachable-IsValid_example = Reachable-IsValid (mark_services_removed (codes "t3") [] with_port.1) (
    removals with_port.1 (codes "t3") [] (
      port with_service.1 (codes "t1") http with_port
        (service with_node.1 (codes "t1") nginx with_service
          (node empty_store (codes "t1") web1 with_node start node_run) service_run)
        port_run))
