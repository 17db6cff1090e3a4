-- ===== src/Dna/Scanner/Update/Ports.antt =====
-- Ports are never learnt.
use silicon_valet.Prelude.{ℕ, ◌≡◌, refl, sym, subst, Option, none, some, Text, List, []}
use silicon_valet.Dna.Models.{Port, ChangeEntry}
use silicon_valet.Dna.Tables.{Table}
use silicon_valet.Dna.Store.{
  Store, commit, upsert_node, upsert_service, upsert_config_file, add_dependency,
  upsert_network_interface,
}
use silicon_valet.Dna.Scanner.Machine.{ScanTarget}
use silicon_valet.Dna.Scanner.Update.{
  settled, with_service, upsert_owned, update_port, service_by_port, scan_once,
}
use silicon_valet.Dna.Scanner.Update.Keeps.{IsKept, scan_once-Keeps}

abbrev pub Portless : Store → Type 0
Portless s = s.ports.rows ≡ []

commit-Portless :
    {E : Type 0} (put : Table E → List ChangeEntry → Store) (s : Store)
    (o : Option (ℕ × Table E × List ChangeEntry))
    → ((t : Table E) (log : List ChangeEntry) → Portless (put t log))
    → Portless s
    → Portless (settled s (commit put o)).1
unfolding commit
commit-Portless put s none k h = h
commit-Portless put s (some (i, t, log)) k h = k t log

none-left :
    (now : Text) (e : Port) (o : Option ℕ) (s : Store) → o ≡ none → (upsert_owned now e o s).1 ≡ s
none-left now e o s h = rw h refl

update_port-left :
    (now : Text) (e : Port) (s : Store)
    → e.service_id ≡ none
    → Portless s
    → (update_port now e s).1 ≡ s
unfolding update_port with_service service_by_port
update_port-left now e s n h = none-left now (with_service e s) _ s (rw (n, h) refl)

Portless-IsKept : IsKept Portless
unfolding upsert_node upsert_service upsert_config_file add_dependency upsert_network_interface
Portless-IsKept = record {
  node = λ now e s h. commit-Portless _ s _ (λ t log. h) h;
  service = λ now e s h. commit-Portless _ s _ (λ t log. h) h;
  port = λ now e n s h. subst Portless (sym (update_port-left now e s n h)) h;
  config_file = λ now e s h. commit-Portless _ s _ (λ t log. h) h;
  dependency = λ now e s h. commit-Portless _ s _ (λ t log. h) h;
  network_interface = λ now e s h. commit-Portless _ s _ (λ t log. h) h;
}

-- A store with no port has none after a scan, whatever listens on the machine.
pub scan_once-Portless : (m : ScanTarget) (s : Store) → Portless s → Portless (scan_once m s).1
scan_once-Portless m = scan_once-Keeps Portless Portless-IsKept m
