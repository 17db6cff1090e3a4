-- ===== src/Dna/Store/Settled.antt =====
-- What each upsert of dna/store.py has written has nothing to change when it is written again.
use silicon_valet.Prelude.{
  ℕ, ◌≡◌, refl, true, Option, none, some, [], Text, text_eq_refl, ◌==◌, ==_iff, codes,
}
use silicon_valet.Prelude.Int.{decimal}
use silicon_valet.Dna.Models.{Node, Service, Port, ConfigFile, Dependency, NetworkInterface}
use silicon_valet.Dna.Tables.Again.{Settled}
use silicon_valet.Dna.Store.{
  field_change, digits_of, coalesce, same_id, same_node, text_or_empty, node_scheme, service_scheme,
  port_scheme, config_scheme, dependency_scheme, interface_scheme, hash_change,
}

coalesce_again {ℓ} : {A : Type ℓ} (v old : Option A) → coalesce v (coalesce v old) ≡ coalesce v old
unfolding coalesce
coalesce_again none old = refl
coalesce_again (some v) old = refl

coalesce_same {ℓ} : {A : Type ℓ} (v : Option A) → coalesce v v ≡ v
unfolding coalesce
coalesce_same none = refl
coalesce_same (some v) = refl

field_change-coalesce : (f : Text) (v old : Option Text) → field_change f (coalesce v old) v ≡ []
unfolding field_change coalesce
field_change-coalesce f none old = refl
field_change-coalesce f (some v) old = rw (text_eq_refl v) refl

field_change-digits_of :
    (f : Text) (v old : Option ℕ) → field_change f (digits_of (coalesce v old)) (digits_of v) ≡ []
unfolding field_change coalesce digits_of
field_change-digits_of f none old = refl
field_change-digits_of f (some v) old = rw (text_eq_refl (decimal v)) refl

field_change_same : (f : Text) (v : Option Text) → field_change f v v ≡ []
unfolding field_change
field_change_same f none = refl
field_change_same f (some v) = rw (text_eq_refl v) refl

pub node-Settled :
    (e old : Node)
    → node_scheme.matches old e ≡ true
    → Settled node_scheme e (node_scheme.merge old e)
unfolding node_scheme
node-Settled e old h = (
  h,
  rw
      (
        coalesce_again e.ip old.ip,
        coalesce_again e.role old.role,
        coalesce_again e.os_version old.os_version,
        coalesce_again e.ram_total_mb old.ram_total_mb,
        coalesce_again e.cpu_cores old.cpu_cores,
      )
      refl,
  rw
      (
        field_change-coalesce (codes "ip") e.ip old.ip,
        field_change-coalesce (codes "role") e.role old.role,
        field_change-coalesce (codes "os_version") e.os_version old.os_version,
        field_change-digits_of (codes "ram_total_mb") e.ram_total_mb old.ram_total_mb,
        field_change-digits_of (codes "cpu_cores") e.cpu_cores old.cpu_cores,
      )
      refl,
)

pub node_self-Settled : (e : Node) → Settled node_scheme e e
unfolding node_scheme
node_self-Settled e = (
  text_eq_refl e.hostname,
  rw
      (
        coalesce_same e.ip,
        coalesce_same e.role,
        coalesce_same e.os_version,
        coalesce_same e.ram_total_mb,
        coalesce_same e.cpu_cores,
      )
      refl,
  rw
      (
        field_change_same (codes "ip") e.ip,
        field_change_same (codes "role") e.role,
        field_change_same (codes "os_version") e.os_version,
        field_change_same (codes "ram_total_mb") (digits_of e.ram_total_mb),
        field_change_same (codes "cpu_cores") (digits_of e.cpu_cores),
      )
      refl,
)

hash_change-coalesce : (v old : Option Text) → hash_change (coalesce v old) v ≡ []
unfolding hash_change coalesce
hash_change-coalesce none old = refl
hash_change-coalesce (some v) old = rw (text_eq_refl v) refl

==_refl : (n : ℕ) → (n == n) ≡ true
==_refl n = (==_iff n n).1 refl

same_node_refl : (n : Option ℕ) → same_node n n ≡ true
unfolding same_node
same_node_refl none = refl
same_node_refl (some n) = ==_refl n

pub service-Settled :
    (e old : Service)
    → service_scheme.matches old e ≡ true
    → Settled service_scheme e (service_scheme.merge old e)
unfolding service_scheme
service-Settled e old h = (
  h,
  rw
      (
        coalesce_again e.status old.status,
        coalesce_again e.pid old.pid,
        coalesce_again e.image old.image,
      )
      refl,
  rw
      (
        field_change-coalesce (codes "status") e.status old.status,
        field_change-digits_of (codes "pid") e.pid old.pid,
        field_change-coalesce (codes "image") e.image old.image,
      )
      refl,
)

pub service_self-Settled : (e : Service) → Settled service_scheme e e
unfolding service_scheme
service_self-Settled e = (
  rw
      (
        text_eq_refl e.name,
        text_eq_refl e.kind,
        same_node_refl e.node_id,
        text_eq_refl (text_or_empty e.namespace),
      )
      refl,
  rw (coalesce_same e.status, coalesce_same e.pid, coalesce_same e.image) refl,
  rw
      (
        field_change_same (codes "status") e.status,
        field_change_same (codes "pid") (digits_of e.pid),
        field_change_same (codes "image") e.image,
      )
      refl,
)

pub port-Settled :
    (e old : Port)
    → port_scheme.matches old e ≡ true
    → Settled port_scheme e (port_scheme.merge old e)
unfolding port_scheme
port-Settled e old h = (h, refl, rw (text_eq_refl e.state) refl)

pub port_self-Settled : (e : Port) (i : ℕ) → e.service_id ≡ some i → Settled port_scheme e e
unfolding port_scheme same_id
port_self-Settled e i h = (
  rw (h, ==_refl i, ==_refl e.port, text_eq_refl e.protocol) refl,
  refl,
  rw (text_eq_refl e.state) refl,
)

pub config-Settled :
    (e old : ConfigFile)
    → config_scheme.matches old e ≡ true
    → Settled config_scheme e (config_scheme.merge old e)
unfolding config_scheme
config-Settled e old h = (
  h,
  rw
      (
        coalesce_again e.hash_sha256 old.hash_sha256,
        coalesce_again e.last_modified old.last_modified,
      )
      refl,
  hash_change-coalesce e.hash_sha256 old.hash_sha256,
)

hash_change_same : (v : Option Text) → hash_change v v ≡ []
unfolding hash_change
hash_change_same none = refl
hash_change_same (some v) = rw (text_eq_refl v) refl

pub config_self-Settled :
    (e : ConfigFile) (i : ℕ) → e.service_id ≡ some i → Settled config_scheme e e
unfolding config_scheme same_id
config_self-Settled e i h = (
  rw (h, ==_refl i, text_eq_refl e.path) refl,
  rw (coalesce_same e.hash_sha256, coalesce_same e.last_modified) refl,
  hash_change_same e.hash_sha256,
)

pub dependency-Settled :
    (e old : Dependency)
    → dependency_scheme.matches old e ≡ true
    → Settled dependency_scheme e (dependency_scheme.merge old e)
unfolding dependency_scheme
dependency-Settled e old h = (h, refl, refl)

pub dependency_self-Settled : (e : Dependency) → Settled dependency_scheme e e
unfolding dependency_scheme
dependency_self-Settled e = (
  rw (==_refl e.source_service_id, ==_refl e.target_service_id, text_eq_refl e.dep_type) refl,
  refl,
  refl,
)

pub interface-Settled :
    (e old : NetworkInterface)
    → interface_scheme.matches old e ≡ true
    → Settled interface_scheme e (interface_scheme.merge old e)
unfolding interface_scheme
interface-Settled e old h = (
  h,
  rw (coalesce_again e.ip old.ip, coalesce_again e.subnet old.subnet, coalesce_again e.mac old.mac)
      refl,
  rw
      (
        field_change-coalesce (codes "ip") e.ip old.ip,
        field_change-coalesce (codes "subnet") e.subnet old.subnet,
        field_change-coalesce (codes "mac") e.mac old.mac,
        field_change_same (codes "state") (some e.state),
      )
      refl,
)

pub interface_self-Settled : (e : NetworkInterface) → Settled interface_scheme e e
unfolding interface_scheme
interface_self-Settled e = (
  rw (==_refl e.node_id, text_eq_refl e.name) refl,
  rw (coalesce_same e.ip, coalesce_same e.subnet, coalesce_same e.mac) refl,
  rw
      (
        field_change_same (codes "ip") e.ip,
        field_change_same (codes "subnet") e.subnet,
        field_change_same (codes "mac") e.mac,
        field_change_same (codes "state") (some e.state),
      )
      refl,
)
