-- ===== src/Dna/Scanner/Plain.antt =====
-- dna/scanner.py: the answers that are plain text (systemctl, ss, /proc/meminfo, free, nproc,
-- /etc/os-release, hostname, find and sha256sum).
pub mod Unowned
use silicon_valet.Prelude.{
  ℕ, Bool, true, false, not, Option, none, some, List, [], ◌∷◌, ◌++◌, ◌&&◌, Text, codes, text_eq,
  leb, if◌then◌else◌, words, strip, split_on, drop, length, all, is_digit, nonempty, is_empty,
  starts_with, partition, splitlines, ends_with, erase, strip_of, rpartition, int_of,
}
use Prim.Native.Nat.{◌/◌}
use silicon_valet.Dna.Models.{Node, Service, Port, ConfigFile}
use silicon_valet.Dna.Scanner.Machine.{ScanTarget, text_of}

abbrev pub systemd_service : Text → Text → Text → Service
systemd_service now name status = record {
  name = name;
  kind = codes "systemd";
  node_id = none;
  namespace = none;
  status = some status;
  pid = none;
  image = none;
  last_seen = now;
}

-- `"running" if active == "active" else active`
unfoldable pub status_of : Text → Text
status_of active = if text_eq active (codes "active") then codes "running" else active

unfoldable pub unit_of : Text → List Text → List Service
unfolding ends_with erase status_of
unit_of now (unit ∷ load ∷ active ∷ sub ∷ rest) =
    if ends_with unit (codes ".service")
    then systemd_service now (erase (codes ".service") unit) (status_of active) ∷ []
    else []
unit_of now _ = []

unfoldable pub units_of : Text → List Text → List Service
unfolding unit_of words
units_of now [] = []
units_of now (line ∷ lines) = unit_of now (words line) ++ units_of now lines

-- `_parse_systemctl_plain`
unfoldable pub parse_systemctl_plain : Text → Text → List Service
unfolding units_of strip split_on
parse_systemctl_plain now output = units_of now (split_on b'\n' (strip output))

abbrev pub address_of : Text → Text
address_of bind = if text_eq bind (codes "*") then codes "0.0.0.0" else bind

abbrev pub listener : Text → Text → Option ℕ → List Port
listener proto address none = []
listener proto address (some n) =
    record {
      port = n;
      service_id = none;
      protocol = proto;
      bind_address = address_of address;
      state = codes "LISTEN";
    }
    ∷ []

unfoldable pub port_of : Text → Option (Text × Text) → List Port
unfolding strip_of int_of
port_of proto none = []
port_of proto (some (bind, digits)) =
    if nonempty bind && all is_digit digits
    then listener proto (strip_of (codes "[]") bind) (int_of digits)
    else []

-- the fourth of at least five columns, matched with `(.+):(\d+)$`
unfoldable pub listener_of : Text → List Text → List Port
unfolding port_of rpartition
listener_of proto (a ∷ b ∷ c ∷ local_addr ∷ e ∷ rest) = port_of proto (rpartition b':' local_addr)
listener_of proto _ = []

unfoldable pub listeners : Text → List Text → List Port
unfolding listener_of words
listeners proto [] = []
listeners proto (line ∷ lines) = listener_of proto (words line) ++ listeners proto lines

unfoldable pub ports_in : Text → Text → List Port
unfolding listeners strip split_on
ports_in proto output =
    if is_empty output then [] else listeners proto (drop 1 (split_on b'\n' (strip output)))

-- `_scan_ports`
unfoldable pub scan_ports : ScanTarget → List Port
unfolding ports_in text_of
scan_ports m =
    ports_in (codes "tcp") (text_of (m.run_cmd (codes "ss" ∷ codes "-tlnp" ∷ [])))
    ++ ports_in (codes "udp") (text_of (m.run_cmd (codes "ss" ∷ codes "-ulnp" ∷ [])))

unfoldable pub second : List Text → Option Text
second (a ∷ b ∷ rest) = some b
second _ = none

-- the first line with a prefix
unfoldable pub line_with : Text → List Text → Option Text
unfolding starts_with
line_with prefix [] = none
line_with prefix (line ∷ lines) =
    let later = line_with prefix lines in if starts_with line prefix then some line else later

-- `int(...)` of the second word of the first line with the prefix. The inner option is the number,
-- or none if there is no such line; the outer none is an exception.
unfoldable pub number_on : Text → List Text → Option (Option ℕ)
unfolding line_with second words int_of
number_on prefix lines = elim (line_with prefix lines) [
  | none ↦ some none
  | some line ↦ elim (second (words line)) [
    | none ↦ none
    | some w ↦ elim (int_of w) [ none ↦ none | some n ↦ some (some n) ]
  ]
]

-- the first try for the RAM, whose exceptions are passed over
unfoldable pub meminfo_ram : Option Text → Option ℕ
unfolding number_on splitlines
meminfo_ram none = none
meminfo_ram (some text) = elim (number_on (codes "MemTotal:") (splitlines text)) [
  | none ↦ none
  | some none ↦ none
  | some (some kb) ↦ some (kb / 1024)
]

-- `free -m`: a line with too few words gives None, a word that is no number is a ValueError
unfoldable pub free_ram : Text → Option (Option ℕ)
unfolding line_with second words int_of splitlines
free_ram output = elim (line_with (codes "Mem:") (splitlines output)) [
  | none ↦ some none
  | some line ↦ elim (second (words line)) [
    | none ↦ some none
    | some w ↦ elim (int_of w) [ none ↦ none | some n ↦ some (some n) ]
  ]
]

unfoldable pub local_ram : ScanTarget → Option (Option ℕ)
unfolding meminfo_ram free_ram text_of
local_ram m = elim (meminfo_ram m.meminfo) [
  | some mb ↦ some (some mb)
  | none ↦ free_ram (text_of (m.run_cmd (codes "free" ∷ codes "-m" ∷ [])))
]

unfoldable pub os_version : Option Text → Option Text
unfolding line_with splitlines partition strip strip_of
os_version none = none
os_version (some text) = elim (line_with (codes "PRETTY_NAME=") (splitlines text)) [
  | none ↦ none
  | some line ↦ some (strip_of (b'"' ∷ []) (strip (partition b'=' line).1))
]

unfoldable pub first : List Text → Option Text
first [] = none
first (w ∷ ws) = some w

-- `_scan_local_node`; none is the ValueError of `free -m`
unfoldable pub scan_local_node : ScanTarget → Option (List Node)
unfolding local_ram text_of os_version first words int_of
scan_local_node m = elim (local_ram m) [
  | none ↦ none
  | some ram ↦ some (
      record {
        hostname = m.hostname;
        ip = first (words (text_of (m.run_cmd (codes "hostname" ∷ codes "-I" ∷ []))));
        role = some (codes "standalone");
        os_version = os_version m.os_release;
        ram_total_mb = ram;
        cpu_cores = int_of (text_of (m.run_cmd (codes "nproc" ∷ [])));
        last_seen = m.now;
      }
      ∷ [])
]

-- the configuration files among the answer of `find`; an empty hash is a fault of `sha256sum`'s
-- answer, which then has no first word
unfoldable pub config_files : ScanTarget → ℕ → List Text → List ConfigFile
unfolding strip first words text_of
config_files m service_id [] = []
config_files m service_id (line ∷ lines) =
    let rest = config_files m service_id lines in
    let path = strip line in
    if is_empty path
    then rest
    else record {
      path = path;
      service_id = some service_id;
      hash_sha256 = first (words (text_of (m.run_cmd (codes "sha256sum" ∷ path ∷ []))));
      last_modified = none;
      last_scanned = m.now;
    }
      ∷ rest
