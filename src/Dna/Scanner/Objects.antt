-- ===== src/Dna/Scanner/Objects.antt =====
-- dna/scanner.py: the answers that are JSON (kubectl, docker, systemctl and ip). The texts of these
-- answers are taken to be texts: where the source would store a number or an object in their place,
-- the model has a fault.
pub mod Unplaced
use silicon_valet.Prelude.{
  ℕ, Bool, true, false, not, Option, none, some, List, [], ◌∷◌, ◌++◌, ◌&&◌, Text, codes, text_eq,
  ltb, ◌==◌, if◌then◌else◌, strip, split_on, take, keep, ◌||◌, ◌-◌, length, lower, contains,
  is_empty, ends_with, rstrip_of, int_of,
}
use Prim.Native.Nat.{◌/◌}
use silicon_valet.Prelude.Int.{pos, is_zero}
use silicon_valet.Json.{
  Json, Items, Fields, null, bool, num, str, array, object, no_items, item, no_fields, field, loads,
  dump_int,
}
use silicon_valet.Json.Lookup.{find_field}
use silicon_valet.Dna.Models.{Node, Service, NetworkInterface}
use silicon_valet.Dna.Scanner.Machine.{ScanTarget, text_of}
use silicon_valet.Dna.Scanner.Plain.{
  scan_local_node, systemd_service, status_of, parse_systemctl_plain,
}
pub use silicon_valet.Dna.Scanner.Reading.{Reading, value, caught, fault, ◌>>=◌, prepend}
unfoldable pub use silicon_valet.Dna.Scanner.Reading.{
  get, index, text, optional_text, items_in, keys_in, characters, iterate, collect, parsed,
}

-- `data.get("items", [])`, and a loop over it
unfoldable pub kubectl_items : Json → Reading (List Json)
unfolding get iterate
kubectl_items v = get (codes "items") (array no_items) v >>= iterate

abbrev pub empty_object : Json
empty_object = object no_fields

-- the InternalIP of a node, as the last of its addresses of this type says
unfoldable pub internal_ip : Option Text → List Json → Reading (Option Text)
unfolding index text optional_text
internal_ip ip [] = value ip
internal_ip ip (a ∷ rest) = do
  kind ← index (codes "type") a >>= text
  address ← index (codes "address") a >>= optional_text
  internal_ip (if text_eq kind (codes "InternalIP") then address else ip) rest

abbrev number : Option ℕ → Reading ℕ
number none = caught
number (some n) = value n

-- the memory of a node in MB
unfoldable pub capacity_ram : Text → Reading (Option ℕ)
unfolding ends_with rstrip_of int_of
capacity_ram ram =
    if ends_with ram (codes "Ki")
    then (number (int_of (rstrip_of (codes "Ki") ram)) >>= λ kb. value (some (kb / 1024)))
    else if ends_with ram (codes "Mi")
    then (number (int_of (rstrip_of (codes "Mi") ram)) >>= λ mb. value (some mb))
    else value none

abbrev positive : ℕ → Option ℕ
positive n = if n == 0 then none else some n

-- `int(v) or None`
unfoldable pub capacity_cpu : Json → Reading (Option ℕ)
unfolding int_of
capacity_cpu (str s) = number (int_of s) >>= λ n. value (positive n)
capacity_cpu (num (pos n)) = value (positive n)
capacity_cpu _ = fault

abbrev has_key : Option Json → Bool
has_key none = false
has_key (some v) = true

-- `key in labels`
unfoldable pub has_label : Text → Json → Reading Bool
has_label key (object fields) = value (has_key (find_field key fields))
has_label key _ = fault

unfoldable pub k8s_node : Text → Json → Reading Node
unfolding get text optional_text iterate internal_ip capacity_ram capacity_cpu has_label
k8s_node now v = do
  metadata ← get (codes "metadata") empty_object v
  status ← get (codes "status") empty_object v
  addresses ← get (codes "addresses") (array no_items) status >>= iterate
  ip ← internal_ip none addresses
  capacity ← get (codes "capacity") empty_object status
  memory ← get (codes "memory") (str []) capacity >>= text
  ram ← capacity_ram memory
  labels ← get (codes "labels") empty_object metadata
  control ← has_label (codes "node-role.kubernetes.io/control-plane") labels
  hostname ← get (codes "name") (str []) metadata >>= text
  info ← get (codes "nodeInfo") empty_object status
  os ← get (codes "osImage") null info >>= optional_text
  cpu ← get (codes "cpu") (num (pos 0)) capacity >>= capacity_cpu
  value (record {
    hostname = hostname;
    ip = ip;
    role = some (if control then codes "control-plane" else codes "worker");
    os_version = os;
    ram_total_mb = ram;
    cpu_cores = cpu;
    last_seen = now;
  })

-- `_scan_k8s_nodes`
unfoldable pub scan_k8s_nodes : ScanTarget → Reading (List Node)
unfolding parsed kubectl_items k8s_node text_of
scan_k8s_nodes m =
    let output = text_of (
      m.run_cmd (codes "kubectl" ∷ codes "get" ∷ codes "nodes" ∷ codes "-o" ∷ codes "json" ∷ [])) in
    if is_empty output then value [] else parsed output kubectl_items (k8s_node m.now)

abbrev discovered : Text → Text → Text → Option Text → Text → Option Text → Service
discovered now name kind namespace status image = record {
  name = name;
  kind = kind;
  node_id = none;
  namespace = namespace;
  status = some status;
  pid = none;
  image = image;
  last_seen = now;
}

-- `containers[0]["image"] if containers else None`
unfoldable pub first_image : Json → Reading (Option Text)
unfolding index optional_text
first_image (array (item c cs)) = index (codes "image") c >>= optional_text
first_image (array no_items) = value none
first_image (str []) = value none
first_image null = value none
first_image _ = fault

unfoldable pub pod : Text → Json → Reading Service
unfolding get text optional_text first_image lower
pod now v = do
  metadata ← get (codes "metadata") empty_object v
  status ← get (codes "status") empty_object v
  spec ← get (codes "spec") empty_object v
  image ← get (codes "containers") (array no_items) spec >>= first_image
  phase ← get (codes "phase") (str (codes "Unknown")) status >>= text
  name ← get (codes "name") (str []) metadata >>= text
  namespace ← get (codes "namespace") null metadata >>= optional_text
  value (
      discovered now name (codes "k8s_pod") namespace
        (if text_eq phase (codes "Running") then codes "running" else lower phase) image)

unfoldable pub replica_count : Json → Reading ℕ
replica_count (num (pos n)) = value n
replica_count _ = fault

unfoldable pub deployment : Text → Json → Reading Service
unfolding get text optional_text replica_count
deployment now v = do
  metadata ← get (codes "metadata") empty_object v
  status ← get (codes "status") empty_object v
  ready ← get (codes "readyReplicas") (num (pos 0)) status >>= replica_count
  desired ← get (codes "replicas") (num (pos 0)) status >>= replica_count
  name ← get (codes "name") (str []) metadata >>= text
  namespace ← get (codes "namespace") null metadata >>= optional_text
  value (
      discovered now name (codes "k8s_deploy") namespace
        (if ready == desired && ltb 0 ready then codes "running" else codes "degraded") none)

unfoldable pub kubectl_services :
    ScanTarget → Text → (Json → Reading Service) → Reading (List Service)
unfolding parsed kubectl_items text_of
kubectl_services m kind f =
    let output = text_of (
      m.run_cmd
        (codes "kubectl" ∷ codes "get" ∷ kind ∷ codes "-A" ∷ codes "-o" ∷ codes "json" ∷ [])) in
    if is_empty output then value [] else parsed output kubectl_items f

-- `_scan_k8s_services`
unfoldable pub scan_k8s_services : ScanTarget → Reading (List Service)
unfolding kubectl_services pod deployment
scan_k8s_services m = do
  pods ← kubectl_services m (codes "pods") (pod m.now)
  deployments ← kubectl_services m (codes "deployments") (deployment m.now)
  value (pods ++ deployments)

-- `data.get("Names", data.get("ID", "unknown"))` and the rest of a container
unfoldable pub container : Text → Json → Reading Service
unfolding get text optional_text contains
container now v = do
  id ← get (codes "ID") (str (codes "unknown")) v
  name ← get (codes "Names") id v >>= text
  image ← get (codes "Image") (str []) v >>= optional_text
  status ← get (codes "Status") (str []) v >>= text
  value (
      discovered now name (codes "container") none
        (if contains status (codes "Up") then codes "running" else codes "stopped") image)

-- one line of `docker ps`; a line that is no JSON is passed over
unfoldable pub container_line : Text → Text → Reading (List Service)
unfolding container
container_line now line = elim (loads line) [
  | none ↦ value []
  | some v ↦ elim (container now v) [ value s ↦ value (s ∷ []) | caught ↦ value [] | fault ↦ fault ]
]

unfoldable pub container_lines : Text → List Text → Reading (List Service)
unfolding container_line strip
container_lines now [] = value []
container_lines now (line ∷ lines) = do
  here ← if is_empty (strip line) then value [] else container_line now (strip line)
  rest ← container_lines now lines
  value (here ++ rest)

-- `_scan_docker_containers`
unfoldable pub scan_docker_containers : ScanTarget → Reading (List Service)
unfolding container_lines text_of strip split_on
scan_docker_containers m =
    let output =
      text_of
        (m.run_cmd (codes "docker" ∷ codes "ps" ∷ codes "--format" ∷ codes "{{json .}}" ∷ [])) in
    if is_empty output then value [] else container_lines m.now (split_on b'\n' (strip output))

unfoldable pub unit : Text → Json → Reading Service
unfolding get text ends_with status_of
unit now v = do
  name ← get (codes "unit") (str []) v >>= text
  active ← get (codes "active") (str (codes "unknown")) v >>= text
  value (
      systemd_service now
        (if ends_with name (codes ".service") then take (length name - 8) name else name)
        (status_of active))

abbrev pub list_units : Text → List Text
list_units last =
    codes "systemctl"
    ∷ codes "list-units"
    ∷ codes "--type=service"
    ∷ codes "--all"
    ∷ codes "--no-pager"
    ∷ last
    ∷ []

-- `_scan_systemd_units`, with the fallback to plain text
unfoldable pub scan_systemd_units : ScanTarget → Reading (List Service)
unfolding parsed iterate unit text_of parse_systemctl_plain
scan_systemd_units m =
    let output = text_of (m.run_cmd (list_units (codes "--output=json"))) in
    let plain = text_of (m.run_cmd (list_units (codes "--plain"))) in
    if is_empty output
    then if is_empty plain then value [] else value (parse_systemctl_plain m.now plain)
    else parsed output iterate (unit m.now)

-- the prefix as the f-string prints it, and nothing where it counts as false; a list or an object
-- that is not empty, whose text is Python's `repr`, is a fault
unfoldable pub prefix_text : Json → Reading (Option Text)
unfolding dump_int
prefix_text null = value none
prefix_text (bool false) = value none
prefix_text (bool true) = value (some (codes "True"))
prefix_text (num n) = if is_zero n then value none else value (some (dump_int n))
prefix_text (str s) = if is_empty s then value none else value (some s)
prefix_text (array no_items) = value none
prefix_text (object no_fields) = value none
prefix_text _ = fault

abbrev joined : Text → Option Text → Option Text
joined ip none = none
joined ip (some prefix) = some (ip ++ (b'/' ∷ prefix))

-- `f"{ip_addr}/{prefix}"` if both are given
unfoldable pub subnet_of : Option Text → Json → Reading (Option Text)
unfolding prefix_text
subnet_of none prefix = value none
subnet_of (some ip) prefix =
    if is_empty ip then value none else (prefix_text prefix >>= λ p. value (joined ip p))

abbrev is_inet : Option Text → Bool
is_inet none = false
is_inet (some family) = text_eq family (codes "inet")

unfoldable pub inet_of : Json → Reading (Option Text × Option Text)
unfolding get optional_text subnet_of
inet_of a = do
  ip ← get (codes "local") null a >>= optional_text
  prefix ← get (codes "prefixlen") null a
  subnet ← subnet_of ip prefix
  value (ip, subnet)

-- the first IPv4 address of an interface, and its subnet
unfoldable pub inet : List Json → Reading (Option Text × Option Text)
unfolding get optional_text inet_of
inet [] = value (none, none)
inet (a ∷ rest) = do
  family ← get (codes "family") null a >>= optional_text
  if is_inet family then inet_of a else inet rest

unfoldable pub interface : Json → Reading NetworkInterface
unfolding get text optional_text iterate inet
interface v = do
  name ← get (codes "ifname") (str []) v >>= text
  state ← get (codes "operstate") (str (codes "UNKNOWN")) v >>= text
  mac ← get (codes "address") (str []) v >>= optional_text
  (ip, subnet) ← get (codes "addr_info") (array no_items) v >>= iterate >>= inet
  value (record { node_id = 0; name = name; ip = ip; subnet = subnet; mac = mac; state = state })

abbrev pub outward : Reading (List NetworkInterface) → Reading (List NetworkInterface)
outward (value is) = value (keep (λ i. not (text_eq i.name (codes "lo"))) is)
outward caught = caught
outward fault = fault

-- `_scan_network_interfaces`; the loopback is left out
unfoldable pub scan_network_interfaces : ScanTarget → Reading (List NetworkInterface)
unfolding parsed iterate interface text_of
scan_network_interfaces m =
    let output = text_of (m.run_cmd (codes "ip" ∷ codes "-j" ∷ codes "addr" ∷ codes "show" ∷ [])) in
    if is_empty output then value [] else outward (parsed output iterate interface)

abbrev of_local : Option (List Node) → Reading (List Node)
of_local none = fault
of_local (some ns) = value ns

-- `_scan_nodes`
unfoldable pub scan_nodes : ScanTarget → Reading (List Node)
unfolding scan_k8s_nodes scan_local_node
scan_nodes m = do
  found ← if m.has_kubectl then scan_k8s_nodes m else value []
  if is_empty found then of_local (scan_local_node m) else value found

-- What a scan has found before it writes, but for the ports, which cannot fail.
pub record Found : Type 0 where
  pub nodes : List Node
  pub services : List Service
  pub network_interfaces : List NetworkInterface

unfoldable pub scan_if : Bool → Reading (List Service) → Reading (List Service)
scan_if true services = services
scan_if false services = value []

-- the tasks of `scan_once`, with the services in the order in which it joins them
unfoldable pub discover : ScanTarget → Reading Found
unfolding scan_nodes scan_systemd_units scan_network_interfaces scan_k8s_services
    scan_docker_containers scan_if
discover m = do
  nodes ← scan_nodes m
  systemd ← scan_systemd_units m
  interfaces ← scan_network_interfaces m
  k8s ← scan_if m.has_kubectl (scan_k8s_services m)
  docker ← scan_if m.has_docker (scan_docker_containers m)
  value (record {
    nodes = nodes;
    services = k8s ++ (systemd ++ docker);
    network_interfaces = interfaces;
  })
