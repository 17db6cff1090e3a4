-- ===== src/Dna/Scanner/Update/Completes.antt =====
-- A scan that has found something writes all of it.
use silicon_valet.Prelude.{
  ℕ, ◌≡◌, refl, true, not, ◌&&◌, none, some, List, [], ◌∷◌, ◌++◌, Text, All, contains, is_empty,
  strip, codes, split_on, if_cases, ◌==◌,
}
use silicon_valet.Dna.Models.{Port}
use silicon_valet.Dna.Tables.{has_row}
use silicon_valet.Dna.Store.{Store}
use silicon_valet.Dna.Scanner.Machine.{ScanTarget, text_of}
use silicon_valet.Dna.Scanner.Plain.{config_files, scan_ports}
use silicon_valet.Dna.Scanner.Plain.Unowned.{scan_ports-Unowned}
use silicon_valet.Dna.Scanner.Objects.{Found, value, discover}
use silicon_valet.Dna.Scanner.Objects.Unplaced.{discover-IsUnplaced}
use silicon_valet.Dna.Scanner.Known.{KnownDependency, known_deps, paths_of, service_config_paths}
use silicon_valet.Dna.Scanner.Update.{
  Names, update_nodes, update_services, update_ports, update_interfaces, scan_config_files,
  update_configs, update_all_configs, infer_dependencies, targets_of, sources_of, inferred,
  reconcile, configs_under, scan_once,
}
use silicon_valet.Dna.Scanner.Update.Steps.{Grows, Runs, bind-Runs, Any}
use silicon_valet.Dna.Scanner.Update.Loops.{
  Linked, NodeIds, ServiceIds, NodeIds-Grows, ServiceIds-Grows, Grows-refl, update_nodes-Runs,
  update_services-Runs, update_ports-Runs, update_interfaces-Runs, update_configs-Runs,
  update_dependencies-Runs,
}

All-append {ℓ} :
    {A : Type ℓ} (P : A → Type 0) (xs ys : List A) → All P xs → All P ys → All P (xs ++ ys)
All-append P [] ys h k = k
All-append P (x ∷ xs) ys (h, hs) k = (h, All-append P xs ys hs k)

module _ (s : Store) where
  targets_of-Linked :
      (k : KnownDependency) (i : ℕ) (names : Names)
      → has_row i s.services.rows ≡ true
      → ServiceIds names s
      → All (Linked s) (targets_of k i names)
  unfolding targets_of
  targets_of-Linked k i [] r h = tt
  targets_of-Linked k i ((name, j) ∷ rest) r (h, hs) =
      if_cases (All (Linked s)) (contains name k.target_pattern && not (i == j))
        (inferred k i j ∷ targets_of k i rest) (targets_of k i rest)
        (λ e. ((r, h), targets_of-Linked k i rest r hs)) (λ e. targets_of-Linked k i rest r hs)

  sources_of-Linked :
      (k : KnownDependency) (all names : Names)
      → ServiceIds all s
      → ServiceIds names s
      → All (Linked s) (sources_of k all names)
  unfolding sources_of
  sources_of-Linked k all [] a h = tt
  sources_of-Linked k all ((name, i) ∷ rest) a (h, hs) =
      if_cases (All (Linked s)) (contains name k.source_pattern)
        (targets_of k i all ++ sources_of k all rest) (sources_of k all rest)
        (λ e.
          All-append (Linked s) (targets_of k i all) (sources_of k all rest)
            (targets_of-Linked k i all h a) (sources_of-Linked k all rest a hs))
        (λ e. sources_of-Linked k all rest a hs)

  infer_dependencies-Linked :
      (rules : List KnownDependency) (names : Names)
      → ServiceIds names s
      → All (Linked s) (infer_dependencies rules names)
  unfolding infer_dependencies
  infer_dependencies-Linked [] names h = tt
  infer_dependencies-Linked (k ∷ ks) names h =
      All-append (Linked s) (sources_of k names names) (infer_dependencies ks names)
        (sources_of-Linked k names names h h) (infer_dependencies-Linked ks names h)

module _ (m : ScanTarget) where
  config_files_owned :
      (i : ℕ) (lines : List Text) → All (λ e. e.service_id ≡ some i) (config_files m i lines)
  unfolding config_files
  config_files_owned i [] = tt
  config_files_owned i (line ∷ lines) =
      if_cases (All (λ e. e.service_id ≡ some i)) (is_empty (strip line)) (config_files m i lines) _
        (λ e. config_files_owned i lines) (λ e. (refl, config_files_owned i lines))

  configs_under_owned :
      (i : ℕ) (bases : List Text) → All (λ e. e.service_id ≡ some i) (configs_under m i bases)
  unfolding configs_under
  configs_under_owned i [] = tt
  configs_under_owned i (base ∷ bases) =
      let command =
        codes "find" ∷ base ∷ codes "-type" ∷ codes "f" ∷ codes "-name" ∷ codes "*.conf" ∷ [] in
      let output = text_of (m.run_cmd command) in
      let lines = split_on b'\n' (strip output) in
      if_cases (All (λ e. e.service_id ≡ some i)) (is_empty output) (configs_under m i bases)
        (config_files m i lines ++ configs_under m i bases) (λ e. configs_under_owned i bases)
        (λ e.
          All-append (λ e. e.service_id ≡ some i) (config_files m i lines) (configs_under m i bases)
            (config_files_owned i lines) (configs_under_owned i bases))

  update_all_configs-Runs :
      (names : Names) (s : Store) → ServiceIds names s → Runs (update_all_configs m names) s Any
  unfolding update_all_configs scan_config_files
  update_all_configs-Runs [] s h = (tt, s, refl, Grows-refl s, tt)
  update_all_configs-Runs ((name, i) ∷ rest) s (h, hs) =
      bind-Runs (update_configs m.now (scan_config_files m name i)) (λ u. update_all_configs m rest)
        s Any Any
        (update_configs-Runs m.now i (scan_config_files m name i) s h
          (configs_under_owned i (paths_of name service_config_paths)))
        (λ _ u g q. update_all_configs-Runs rest u (ServiceIds-Grows rest s u g hs))

  reconcile-Runs :
      (ports : List Port) (d : Found) (s : Store)
      → All (λ e. e.service_id ≡ none) ports
      → All (λ e. e.node_id ≡ none) d.services
      → All (λ e. e.node_id ≡ 0) d.network_interfaces
      → Runs (reconcile m ports d) s Any
  unfolding reconcile
  reconcile-Runs ports d s hp hs hi =
      bind-Runs (update_nodes m.now d.nodes []) _ s NodeIds Any
        (update_nodes-Runs m.now d.nodes [] s tt)
        λ nodes s1 g1 n1.
          bind-Runs (update_services m.now nodes d.services []) _ s1 ServiceIds Any
            (update_services-Runs m.now nodes d.services [] s1 n1 hs tt)
            λ names s2 g2 v2.
              bind-Runs (update_ports m.now ports) _ s2 Any Any
                (update_ports-Runs m.now ports s2 hp)
                λ _ s3 g3 _.
                  bind-Runs (update_interfaces m.now nodes d.network_interfaces) _ s3 Any Any
                    (update_interfaces-Runs m.now nodes d.network_interfaces s3
                      (NodeIds-Grows nodes s2 s3 g3 (NodeIds-Grows nodes s1 s2 g2 n1)) hi)
                    λ _ s4 g4 _.
                      let v4 =
                        ServiceIds-Grows names s3 s4 g4 (ServiceIds-Grows names s2 s3 g3 v2) in
                      bind-Runs (update_all_configs m names) _ s4 Any Any
                        (update_all_configs-Runs names s4 v4)
                        λ _ s5 g5 _.
                          update_dependencies-Runs m.now (infer_dependencies known_deps names) s5 (
                            infer_dependencies-Linked s5 known_deps names
                              (ServiceIds-Grows names s4 s5 g5 v4))

  -- What a scan has found without faults it writes without an exception, whatever the store holds:
  -- no foreign key is ever missing. And no node and no service that was in the store is lost.
  pub scan_once-Completes :
      (d : Found) (s : Store)
      → discover m ≡ value d
      → ((scan_once m s).0 ≡ some tt) × Grows s (scan_once m s).1
  unfolding scan_once
  scan_once-Completes d s found =
      let (hs, hi) = discover-IsUnplaced m d found in
      let (a, u, run, g, _) = reconcile-Runs (scan_ports m) d s (scan_ports-Unowned m) hs hi in
      rw (found, run) (refl, g)
