-- ===== src/Dna/Scanner/Objects/Unplaced.antt =====
-- The services and interfaces that a scan finds name no node.
use silicon_valet.Prelude.{
  ◌≡◌, refl, Option, none, some, List, [], ◌∷◌, ◌++◌, Bool, true, false, not, keep, subst, text_eq,
  Text, codes, All, if_cases, is_empty, strip, split_on, words, if◌then◌else◌, ends_with, erase,
}
use silicon_valet.Prelude.Int.{pos}
use silicon_valet.Json.{Json, null, num, str, array, no_items, loads}
use silicon_valet.Dna.Models.{Service, NetworkInterface}
use silicon_valet.Dna.Scanner.Machine.{ScanTarget, text_of}
use silicon_valet.Dna.Scanner.Plain.{
  unit_of, units_of, parse_systemctl_plain, systemd_service, status_of,
}
use silicon_valet.Dna.Scanner.Objects.{
  Reading, value, caught, fault, ◌>>=◌, get, text, optional_text, parsed, pod, deployment,
  container, unit, interface, discover, Found, empty_object, first_image, replica_count, iterate,
  inet, container_line, container_lines, scan_docker_containers, scan_systemd_units,
  scan_k8s_services, kubectl_services, scan_if, scan_network_interfaces, outward, kubectl_items,
  scan_nodes, list_units,
}
use silicon_valet.Dna.Scanner.Yields.{Yields, bind-Yields, with-Yields, parsed-Yields}

abbrev Unplaced : Service → Type 0
Unplaced e = e.node_id ≡ none

unit-Unplaced : (now : Text) (v : Json) → Yields Unplaced (unit now v)
unfolding unit
unit-Unplaced now v =
    bind-Yields Unplaced _ (get (codes "unit") _ v >>= text)
      λ name. bind-Yields Unplaced _ (get (codes "active") _ v >>= text) λ active. refl

pod-Unplaced : (now : Text) (v : Json) → Yields Unplaced (pod now v)
unfolding pod
pod-Unplaced now v = bind-Yields Unplaced _ (get (codes "metadata") empty_object v) λ metadata.
    bind-Yields Unplaced _ (get (codes "status") empty_object v) λ status.
      bind-Yields Unplaced _ (get (codes "spec") empty_object v) λ spec.
        bind-Yields Unplaced _ (get (codes "containers") (array no_items) spec >>= first_image)
          λ image.
            bind-Yields Unplaced _ (get (codes "phase") (str (codes "Unknown")) status >>= text)
              λ phase.
                bind-Yields Unplaced _ (get (codes "name") (str []) metadata >>= text) λ name.
                  bind-Yields Unplaced _ (get (codes "namespace") null metadata >>= optional_text)
                    λ namespace. refl

deployment-Unplaced : (now : Text) (v : Json) → Yields Unplaced (deployment now v)
unfolding deployment
deployment-Unplaced now v =
    bind-Yields Unplaced _ (get (codes "metadata") empty_object v) λ metadata.
      bind-Yields Unplaced _ (get (codes "status") empty_object v) λ status.
        bind-Yields Unplaced _ (get (codes "readyReplicas") (num (pos 0)) status >>= replica_count)
          λ ready.
            bind-Yields Unplaced _ (get (codes "replicas") (num (pos 0)) status >>= replica_count)
              λ desired.
                bind-Yields Unplaced _ (get (codes "name") (str []) metadata >>= text) λ name.
                  bind-Yields Unplaced _ (get (codes "namespace") null metadata >>= optional_text)
                    λ namespace. refl

container-Unplaced : (now : Text) (v : Json) → Yields Unplaced (container now v)
unfolding container
container-Unplaced now v = bind-Yields Unplaced _ (get (codes "ID") (str (codes "unknown")) v) λ id.
    bind-Yields Unplaced _ (get (codes "Names") id v >>= text) λ name.
      bind-Yields Unplaced _ (get (codes "Image") (str []) v >>= optional_text)
        λ image. bind-Yields Unplaced _ (get (codes "Status") (str []) v >>= text) λ status. refl

interface-Unplaced : (v : Json) → Yields (λ e. e.node_id ≡ 0) (interface v)
unfolding interface
interface-Unplaced v =
    let P = λ (e : NetworkInterface). e.node_id ≡ 0 in
    bind-Yields P _ (get (codes "ifname") (str []) v >>= text) λ name.
      bind-Yields P _ (get (codes "operstate") (str (codes "UNKNOWN")) v >>= text) λ state.
        bind-Yields P _ (get (codes "address") (str []) v >>= optional_text) λ mac.
          bind-Yields P _ (get (codes "addr_info") (array no_items) v >>= iterate >>= inet)
            λ address. refl

abbrev Services : Reading (List Service) → Type 0
Services r = Yields (All Unplaced) r

append-Unplaced :
    (xs ys : List Service) → All Unplaced xs → All Unplaced ys → All Unplaced (xs ++ ys)
append-Unplaced [] ys h k = k
append-Unplaced (x ∷ xs) ys (h, hs) k = (h, append-Unplaced xs ys hs k)

joined :
    (q r : Reading (List Service))
    → Services q
    → Services r
    → Services (q >>= λ xs. r >>= λ ys. value (xs ++ ys))
joined q r h k =
    with-Yields (All Unplaced) (All Unplaced) (λ xs. r >>= λ ys. value (xs ++ ys)) q h
      λ xs hx.
        with-Yields (All Unplaced) (All Unplaced) (λ ys. value (xs ++ ys)) r k
          λ ys hy. append-Unplaced xs ys hx hy

line_cases :
    (now line : Text) (r : Reading Service) (v : Json)
    → loads line ≡ some v
    → container now v ≡ r
    → Yields Unplaced r
    → Services (container_line now line)
unfolding container_line
line_cases now line (value s) v h k u = rw (container_line, h, k) (u, tt)
line_cases now line caught v h k u = rw (container_line, h, k) tt
line_cases now line fault v h k u = rw (container_line, h, k) tt

container_line_cases :
    (now line : Text) (o : Option Json) → loads line ≡ o → Services (container_line now line)
unfolding container_line
container_line_cases now line none h = rw (container_line, h) tt
container_line_cases now line (some v) h =
    line_cases now line (container now v) v h refl (container-Unplaced now v)

container_lines-Services : (now : Text) (lines : List Text) → Services (container_lines now lines)
unfolding container_lines
container_lines-Services now [] = tt
container_lines-Services now (line ∷ lines) =
    joined (if is_empty (strip line) then value [] else container_line now (strip line))
      (container_lines now lines)
      (if_cases Services (is_empty (strip line)) (value []) (container_line now (strip line))
        (λ e. tt) (λ e. container_line_cases now (strip line) (loads (strip line)) refl))
      (container_lines-Services now lines)

unit_of-Unplaced : (now : Text) (ws : List Text) → All Unplaced (unit_of now ws)
unfolding unit_of
unit_of-Unplaced now [] = tt
unit_of-Unplaced now (a ∷ []) = tt
unit_of-Unplaced now (a ∷ b ∷ []) = tt
unit_of-Unplaced now (a ∷ b ∷ c ∷ []) = tt
unit_of-Unplaced now (a ∷ b ∷ c ∷ d ∷ rest) =
    if_cases (All Unplaced) (ends_with a (codes ".service"))
      (systemd_service now (erase (codes ".service") a) (status_of c) ∷ []) [] (λ e. (refl, tt))
      (λ e. tt)

units_of-Unplaced : (now : Text) (lines : List Text) → All Unplaced (units_of now lines)
unfolding units_of
units_of-Unplaced now [] = tt
units_of-Unplaced now (line ∷ lines) =
    append-Unplaced (unit_of now (words line)) (units_of now lines)
      (unit_of-Unplaced now (words line)) (units_of-Unplaced now lines)

module _ (m : ScanTarget) where
  docker-Services : Services (scan_docker_containers m)
  unfolding scan_docker_containers
  docker-Services =
      let command = codes "docker" ∷ codes "ps" ∷ codes "--format" ∷ codes "{{json .}}" ∷ [] in
      let output = text_of (m.run_cmd command) in
      let lines = split_on b'\n' (strip output) in
      if_cases Services (is_empty output) (value []) (container_lines m.now lines) (λ e. tt)
        (λ e. container_lines-Services m.now lines)

  kubectl-Services :
      (kind : Text) (f : Json → Reading Service)
      → ((v : Json) → Yields Unplaced (f v))
      → Services (kubectl_services m kind f)
  unfolding kubectl_services
  kubectl-Services kind f each =
      let command =
        codes "kubectl" ∷ codes "get" ∷ kind ∷ codes "-A" ∷ codes "-o" ∷ codes "json" ∷ [] in
      let output = text_of (m.run_cmd command) in
      if_cases Services (is_empty output) (value []) (parsed output kubectl_items f) (λ e. tt)
        (λ e. parsed-Yields Unplaced f each output kubectl_items)

  k8s-Services : Services (scan_k8s_services m)
  unfolding scan_k8s_services
  k8s-Services =
      joined (kubectl_services m (codes "pods") (pod m.now))
        (kubectl_services m (codes "deployments") (deployment m.now))
        (kubectl-Services (codes "pods") (pod m.now) (pod-Unplaced m.now))
        (kubectl-Services (codes "deployments") (deployment m.now) (deployment-Unplaced m.now))

  systemd-Services : Services (scan_systemd_units m)
  unfolding scan_systemd_units parse_systemctl_plain
  systemd-Services =
      let output = text_of (m.run_cmd (list_units (codes "--output=json"))) in
      let plain = text_of (m.run_cmd (list_units (codes "--plain"))) in
      if_cases Services (is_empty output)
        (if is_empty plain then value [] else value (parse_systemctl_plain m.now plain))
        (parsed output iterate (unit m.now))
        (λ e.
          if_cases Services (is_empty plain) (value []) (value (parse_systemctl_plain m.now plain))
            (λ _. tt) (λ _. units_of-Unplaced m.now (split_on b'\n' (strip plain))))
        (λ e. parsed-Yields Unplaced (unit m.now) (unit-Unplaced m.now) output iterate)

abbrev AtZero : NetworkInterface → Type 0
AtZero e = e.node_id ≡ 0

keep-AtZero :
    (p : NetworkInterface → Bool) (es : List NetworkInterface)
    → All AtZero es
    → All AtZero (keep p es)
keep-AtZero p [] h = tt
keep-AtZero p (e ∷ es) (h, hs) =
    if_cases (All AtZero) (p e) (e ∷ keep p es) (keep p es) (λ k. (h, keep-AtZero p es hs))
      (λ k. keep-AtZero p es hs)

outward-AtZero :
    (r : Reading (List NetworkInterface)) → Yields (All AtZero) r → Yields (All AtZero) (outward r)
outward-AtZero (value es) h = keep-AtZero (λ e. not (text_eq e.name (codes "lo"))) es h
outward-AtZero caught h = tt
outward-AtZero fault h = tt

scan_if-Services : (b : Bool) (r : Reading (List Service)) → Services r → Services (scan_if b r)
unfolding scan_if
scan_if-Services true r h = h
scan_if-Services false r h = tt

-- What was found names no node: services have none, and interfaces the id 0.
abbrev pub IsUnplaced : Found → Type 0
IsUnplaced d =
    All (λ e. e.node_id ≡ none) d.services × All (λ e. e.node_id ≡ 0) d.network_interfaces

module _ (m : ScanTarget) where
  interfaces-AtZero : Yields (All AtZero) (scan_network_interfaces m)
  unfolding scan_network_interfaces
  interfaces-AtZero =
      let command = codes "ip" ∷ codes "-j" ∷ codes "addr" ∷ codes "show" ∷ [] in
      let output = text_of (m.run_cmd command) in
      if_cases (Yields (All AtZero)) (is_empty output) (value [])
        (outward (parsed output iterate interface)) (λ e. tt)
        (λ e.
          outward-AtZero (parsed output iterate interface)
            (parsed-Yields AtZero interface interface-Unplaced output iterate))

  discover-Yields : Yields IsUnplaced (discover m)
  unfolding discover
  discover-Yields = bind-Yields IsUnplaced _ (scan_nodes m) λ nodes.
      with-Yields (All Unplaced) IsUnplaced _ (scan_systemd_units m) (systemd-Services m)
        λ systemd hs.
          with-Yields (All AtZero) IsUnplaced _ (scan_network_interfaces m) interfaces-AtZero
            λ is hi.
              with-Yields (All Unplaced) IsUnplaced _ (scan_if m.has_kubectl (scan_k8s_services m))
                (scan_if-Services m.has_kubectl (scan_k8s_services m) (k8s-Services m))
                λ k8s hk.
                  with-Yields (All Unplaced) IsUnplaced _
                    (scan_if m.has_docker (scan_docker_containers m))
                    (scan_if-Services m.has_docker (scan_docker_containers m) (docker-Services m))
                    λ docker hd. (
                      append-Unplaced k8s (systemd ++ docker) hk
                          (append-Unplaced systemd docker hs hd),
                      hi,
                    )

  pub discover-IsUnplaced : (d : Found) → discover m ≡ value d → IsUnplaced d
  discover-IsUnplaced d h = subst (Yields IsUnplaced) h discover-Yields
