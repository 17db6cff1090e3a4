-- ===== src/Dna/Models.antt =====
-- dna/models.py: the entities, without their row ids, which the tables give. A field that may be
-- NULL is an Option.
use silicon_valet.Prelude.{ℕ, Option, Text}

pub record Node : Type 0 where
  pub hostname : Text
  pub ip : Option Text
  pub role : Option Text
  pub os_version : Option Text
  pub ram_total_mb : Option ℕ
  pub cpu_cores : Option ℕ
  pub last_seen : Text

pub record Service : Type 0 where
  pub name : Text
  pub kind : Text
  pub node_id : Option ℕ
  pub namespace : Option Text
  pub status : Option Text
  pub pid : Option ℕ
  pub image : Option Text
  pub last_seen : Text

pub record Port : Type 0 where
  pub port : ℕ
  pub service_id : Option ℕ
  pub protocol : Text
  pub bind_address : Text
  pub state : Text

pub record ConfigFile : Type 0 where
  pub path : Text
  pub service_id : Option ℕ
  pub hash_sha256 : Option Text
  pub last_modified : Option Text
  pub last_scanned : Text

pub record Dependency : Type 0 where
  pub source_service_id : ℕ
  pub target_service_id : ℕ
  pub dep_type : Text
  pub detail : Option Text

pub record NetworkInterface : Type 0 where
  pub node_id : ℕ
  pub name : Text
  pub ip : Option Text
  pub subnet : Option Text
  pub mac : Option Text
  pub state : Text

pub data ChangeType : Type 0 where
  added : ChangeType
  modified : ChangeType
  removed : ChangeType

pub record ChangeEntry : Type 0 where
  pub entity_type : Text
  pub entity_id : ℕ
  pub change_type : ChangeType
  pub timestamp : Text
  pub field : Option Text
  pub old_value : Option Text
  pub new_value : Option Text
