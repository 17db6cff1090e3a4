-- ===== src/Dna/Store.antt =====
-- dna/store.py: the store of nodes, services, ports, configuration files, dependencies and network
-- interfaces, with the log of changes. The time that a call reads is its argument `now`.
pub mod Settled
pub mod Again
pub mod Reachable
pub mod Validity
use silicon_valet.Prelude.{
  ℕ, Bool, true, false, not, Option, none, some, List, [], ◌∷◌, ◌++◌, Text, codes, text_eq,
  if◌then◌else◌, ◌==◌, ◌&&◌, ◌||◌, any, keep, map,
}
use silicon_valet.Prelude.Int.{decimal}
use silicon_valet.Dna.Models.{
  Node, Service, Port, ConfigFile, Dependency, NetworkInterface, ChangeEntry, removed,
}
use silicon_valet.Dna.Tables.{Row, Table, FieldChange, Scheme, find_where, has_row, upsert}

pub record Store : Type 0 where
  pub nodes : Table Node
  pub services : Table Service
  pub ports : Table Port
  pub config_files : Table ConfigFile
  pub dependencies : Table Dependency
  pub network_interfaces : Table NetworkInterface
  pub changes_log : List ChangeEntry

-- `str(v)` and the value that `_record_change` keeps
unfoldable pub str_of : Option Text → Text
str_of none = codes "None"
str_of (some v) = v

unfoldable pub digits_of : Option ℕ → Option Text
digits_of none = none
digits_of (some n) = some (decimal n)

-- `if new_val is not None and str(old_val) != str(new_val)`
unfoldable pub field_change : Text → Option Text → Option Text → List FieldChange
unfolding str_of
field_change field old none = []
field_change field old (some v) =
    if text_eq (str_of old) v
    then []
    else record { field = field; old_value = old; new_value = some v } ∷ []

-- `COALESCE(?,column)` in an UPDATE
unfoldable pub coalesce {ℓ} : {A : Type ℓ} → Option A → Option A → Option A
coalesce none old = old
coalesce (some v) old = some v

-- `column = ?`, which is not true of NULL
unfoldable pub same_id : Option ℕ → Option ℕ → Bool
same_id (some m) (some n) = m == n
same_id _ _ = false

-- `COALESCE(node_id,'')=COALESCE(?,'')`
unfoldable pub same_node : Option ℕ → Option ℕ → Bool
same_node none none = true
same_node (some m) (some n) = m == n
same_node _ _ = false

-- `COALESCE(namespace,'')`
unfoldable pub text_or_empty : Option Text → Text
text_or_empty none = []
text_or_empty (some v) = v

unfoldable pub node_scheme : Scheme Node
unfolding field_change digits_of coalesce
node_scheme = record {
  entity_type = codes "node";
  matches = λ old new. text_eq old.hostname new.hostname;
  diff = λ old new.
      field_change (codes "ip") old.ip new.ip
      ++ (field_change (codes "role") old.role new.role
          ++ (field_change (codes "os_version") old.os_version new.os_version
              ++ (field_change (codes "ram_total_mb") (digits_of old.ram_total_mb)
                    (digits_of new.ram_total_mb)
                  ++ field_change (codes "cpu_cores") (digits_of old.cpu_cores)
                      (digits_of new.cpu_cores))));
  merge = λ old new. record old {
    ip = coalesce new.ip old.ip;
    role = coalesce new.role old.role;
    os_version = coalesce new.os_version old.os_version;
    ram_total_mb = coalesce new.ram_total_mb old.ram_total_mb;
    cpu_cores = coalesce new.cpu_cores old.cpu_cores;
    last_seen = new.last_seen;
  };
}

unfoldable pub service_scheme : Scheme Service
unfolding field_change digits_of coalesce same_node text_or_empty
service_scheme = record {
  entity_type = codes "service";
  matches = λ old new.
      text_eq old.name new.name
      && text_eq old.kind new.kind
      && same_node old.node_id new.node_id
      && text_eq (text_or_empty old.namespace) (text_or_empty new.namespace);
  diff = λ old new.
      field_change (codes "status") old.status new.status
      ++ (field_change (codes "pid") (digits_of old.pid) (digits_of new.pid)
          ++ field_change (codes "image") old.image new.image);
  merge = λ old new. record old {
    status = coalesce new.status old.status;
    pid = coalesce new.pid old.pid;
    image = coalesce new.image old.image;
    last_seen = new.last_seen;
  };
}

unfoldable pub port_scheme : Scheme Port
unfolding same_id
port_scheme = record {
  entity_type = codes "port";
  matches = λ old new.
      same_id old.service_id new.service_id
      && old.port == new.port
      && text_eq old.protocol new.protocol;
  diff = λ old new.
      if text_eq old.state new.state
      then []
      else record { field = codes "state"; old_value = some old.state; new_value = some new.state }
        ∷ [];
  merge = λ old new. record old { bind_address = new.bind_address; state = new.state };
}

-- `existing["hash_sha256"] != cf.hash_sha256 and cf.hash_sha256 is not None`
unfoldable pub hash_change : Option Text → Option Text → List FieldChange
hash_change old none = []
hash_change none (some v) =
    record { field = codes "hash_sha256"; old_value = none; new_value = some v } ∷ []
hash_change (some u) (some v) =
    if text_eq u v
    then []
    else record { field = codes "hash_sha256"; old_value = some u; new_value = some v } ∷ []

unfoldable pub config_scheme : Scheme ConfigFile
unfolding same_id hash_change coalesce
config_scheme = record {
  entity_type = codes "config_file";
  matches = λ old new. same_id old.service_id new.service_id && text_eq old.path new.path;
  diff = λ old new. hash_change old.hash_sha256 new.hash_sha256;
  merge = λ old new. record old {
    hash_sha256 = coalesce new.hash_sha256 old.hash_sha256;
    last_modified = coalesce new.last_modified old.last_modified;
    last_scanned = new.last_scanned;
  };
}

unfoldable pub dependency_scheme : Scheme Dependency
dependency_scheme = record {
  entity_type = codes "dependency";
  matches = λ old new.
      old.source_service_id == new.source_service_id
      && old.target_service_id == new.target_service_id
      && text_eq old.dep_type new.dep_type;
  diff = λ old new. [];
  merge = λ old new. old;
}

unfoldable pub interface_scheme : Scheme NetworkInterface
unfolding field_change coalesce
interface_scheme = record {
  entity_type = codes "network_interface";
  matches = λ old new. old.node_id == new.node_id && text_eq old.name new.name;
  diff = λ old new.
      field_change (codes "ip") old.ip new.ip
      ++ (field_change (codes "subnet") old.subnet new.subnet
          ++ (field_change (codes "mac") old.mac new.mac
              ++ field_change (codes "state") (some old.state) (some new.state)));
  merge = λ old new. record old {
    ip = coalesce new.ip old.ip;
    subnet = coalesce new.subnet old.subnet;
    mac = coalesce new.mac old.mac;
    state = new.state;
  };
}

-- A foreign key that may be NULL, for the rows it refers to.
unfoldable pub refers {ℓ} : {E : Type ℓ} → Option ℕ → Table E → Bool
refers none t = true
refers (some i) t = has_row i t.rows

-- The id that the entity is given and the store, or none for an IntegrityError.
unfoldable pub commit {ℓ} :
    {E : Type ℓ}
    → (Table E → List ChangeEntry → Store)
    → Option (ℕ × Table E × List ChangeEntry)
    → Option (ℕ × Store)
commit put none = none
commit put (some (i, t, log)) = some (i, put t log)

unfoldable pub upsert_node : Text → Node → Store → Option (ℕ × Store)
upsert_node now e s =
    commit (λ t log. record s { nodes = t; changes_log = s.changes_log ++ log })
      (upsert node_scheme true now e s.nodes)

unfoldable pub upsert_service : Text → Service → Store → Option (ℕ × Store)
unfolding refers
upsert_service now e s =
    commit (λ t log. record s { services = t; changes_log = s.changes_log ++ log })
      (upsert service_scheme (refers e.node_id s.nodes) now e s.services)

unfoldable pub upsert_port : Text → Port → Store → Option (ℕ × Store)
unfolding refers
upsert_port now e s =
    commit (λ t log. record s { ports = t; changes_log = s.changes_log ++ log })
      (upsert port_scheme (refers e.service_id s.services) now e s.ports)

unfoldable pub upsert_config_file : Text → ConfigFile → Store → Option (ℕ × Store)
unfolding refers
upsert_config_file now e s =
    commit (λ t log. record s { config_files = t; changes_log = s.changes_log ++ log })
      (upsert config_scheme (refers e.service_id s.services) now e s.config_files)

unfoldable pub add_dependency : Text → Dependency → Store → Option (ℕ × Store)
add_dependency now e s =
    commit (λ t log. record s { dependencies = t; changes_log = s.changes_log ++ log })
      (upsert dependency_scheme
        (has_row e.source_service_id s.services.rows && has_row e.target_service_id s.services.rows)
        now e s.dependencies)

unfoldable pub upsert_network_interface : Text → NetworkInterface → Store → Option (ℕ × Store)
upsert_network_interface now e s =
    commit (λ t log. record s { network_interfaces = t; changes_log = s.changes_log ++ log })
      (upsert interface_scheme (has_row e.node_id s.nodes.rows) now e s.network_interfaces)

-- `DELETE FROM services WHERE id=?`, whose foreign keys cascade
unfoldable pub delete_service : ℕ → Store → Store
delete_service i s = record s {
  services = record s.services { rows = keep (λ r. not (r.id == i)) s.services.rows };
  ports = record s.ports {
    rows = keep (λ r. not (same_id r.body.service_id (some i))) s.ports.rows;
  };
  config_files = record s.config_files {
    rows = keep (λ r. not (same_id r.body.service_id (some i))) s.config_files.rows;
  };
  dependencies = record s.dependencies {
    rows =
        keep (λ r. not (r.body.source_service_id == i || r.body.target_service_id == i))
          s.dependencies.rows;
  };
}

unfoldable pub removal : Text → ℕ → ChangeEntry
removal now i = record {
  entity_type = codes "service";
  entity_id = i;
  change_type = removed;
  timestamp = now;
  field = none;
  old_value = none;
  new_value = none;
}

-- the loop of `mark_services_removed` over the rows that it has fetched
unfoldable pub remove_inactive : Text → List ℕ → List (Row Service) → Store → Store
unfolding delete_service removal
remove_inactive now active [] s = s
remove_inactive now active (r ∷ rs) s =
    if any (λ i. i == r.id) active
    then remove_inactive now active rs s
    else remove_inactive now active rs
        (record (delete_service r.id s) { changes_log = s.changes_log ++ removal now r.id ∷ [] })

unfoldable pub mark_services_removed : Text → List ℕ → Store → Store
unfolding remove_inactive
mark_services_removed now active s = remove_inactive now active s.services.rows s
