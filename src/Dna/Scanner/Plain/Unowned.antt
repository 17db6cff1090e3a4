-- ===== src/Dna/Scanner/Plain/Unowned.antt =====
-- The ports that a scan finds name no service.
use silicon_valet.Prelude.{
  ℕ, ◌≡◌, refl, Option, none, some, List, [], ◌∷◌, ◌++◌, ◌&&◌, Text, codes, All, if_cases, all,
  is_digit, nonempty, rpartition, words, split_on, strip, drop, is_empty, int_of, strip_of,
}
use silicon_valet.Dna.Models.{Port}
use silicon_valet.Dna.Scanner.Machine.{ScanTarget, text_of}
use silicon_valet.Dna.Scanner.Plain.{
  listener, port_of, listener_of, listeners, ports_in, scan_ports,
}

abbrev pub Unowned : List Port → Type 0
Unowned es = All (λ e. e.service_id ≡ none) es

append-Unowned : (es fs : List Port) → Unowned es → Unowned fs → Unowned (es ++ fs)
append-Unowned [] fs h k = k
append-Unowned (e ∷ es) fs (n, h) k = (n, append-Unowned es fs h k)

listener-Unowned : (proto address : Text) (o : Option ℕ) → Unowned (listener proto address o)
listener-Unowned proto address none = tt
listener-Unowned proto address (some n) = (refl, tt)

port_of-Unowned : (proto : Text) (o : Option (Text × Text)) → Unowned (port_of proto o)
unfolding port_of
port_of-Unowned proto none = tt
port_of-Unowned proto (some (bind, digits)) =
    if_cases Unowned (nonempty bind && all is_digit digits)
      (listener proto (strip_of (codes "[]") bind) (int_of digits)) []
      (λ h. listener-Unowned proto (strip_of (codes "[]") bind) (int_of digits)) (λ h. tt)

listener_of-Unowned : (proto : Text) (ws : List Text) → Unowned (listener_of proto ws)
unfolding listener_of
listener_of-Unowned proto [] = tt
listener_of-Unowned proto (a ∷ []) = tt
listener_of-Unowned proto (a ∷ b ∷ []) = tt
listener_of-Unowned proto (a ∷ b ∷ c ∷ []) = tt
listener_of-Unowned proto (a ∷ b ∷ c ∷ d ∷ []) = tt
listener_of-Unowned proto (a ∷ b ∷ c ∷ d ∷ e ∷ rest) = port_of-Unowned proto (rpartition b':' d)

listeners-Unowned : (proto : Text) (lines : List Text) → Unowned (listeners proto lines)
unfolding listeners
listeners-Unowned proto [] = tt
listeners-Unowned proto (line ∷ lines) =
    append-Unowned (listener_of proto (words line)) (listeners proto lines)
      (listener_of-Unowned proto (words line)) (listeners-Unowned proto lines)

ports_in-Unowned : (proto output : Text) → Unowned (ports_in proto output)
unfolding ports_in
ports_in-Unowned proto output =
    if_cases Unowned (is_empty output) [] (listeners proto (drop 1 (split_on b'\n' (strip output))))
      (λ h. tt) (λ h. listeners-Unowned proto (drop 1 (split_on b'\n' (strip output))))

pub scan_ports-Unowned : (m : ScanTarget) → Unowned (scan_ports m)
unfolding scan_ports
scan_ports-Unowned m =
    let tcp = text_of (m.run_cmd (codes "ss" ∷ codes "-tlnp" ∷ [])) in
    let udp = text_of (m.run_cmd (codes "ss" ∷ codes "-ulnp" ∷ [])) in
    append-Unowned (ports_in (codes "tcp") tcp) (ports_in (codes "udp") udp)
      (ports_in-Unowned (codes "tcp") tcp) (ports_in-Unowned (codes "udp") udp)
