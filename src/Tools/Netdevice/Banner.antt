-- ===== src/Tools/Netdevice/Banner.antt =====
-- `_fingerprint_from_banner`: two of its tests look for a dash in a text without dashes. And the
-- device string `a@b`, as `_get_connection_kwargs` reads it.
use silicon_valet.Prelude.{
  ℕ, ◌≡◌, ◌≢◌, refl, inl, inr, true, false, none, some, [], ◌∷◌, ◌++◌, Text, codes, starts_with,
  contains, replace, lower, partition, ◌==◌, ==_iff, arith, Bool-cases,
}
use silicon_valet.Prelude.Strip.{lacks, lacks-append}
use silicon_valet.Tools.Netdevice.{
  Environ, normal_banner, fingerprint_normal, fingerprint_from_banner, get, find_device, ad_hoc,
  connection_kwargs, Inventory,
}

lacks-replace : (c : ℕ) (new s : Text) → lacks c new ≡ true → lacks c (replace c new s) ≡ true
unfolding replace
lacks-replace c new [] h = refl
lacks-replace c new (x ∷ s) h = elim (Bool-cases (x == c)) [
  | inl e ↦ rw e (lacks-append c new (replace c new s) h (lacks-replace c new s h))
  | inr e ↦ ground (arith, lacks-replace c new s h)
]

starts_with-lacks : (c : ℕ) (s u v : Text) → lacks c s ≡ true → starts_with s (u ++ c ∷ v) ≡ false
unfolding starts_with
starts_with-lacks c [] [] v h = refl
starts_with-lacks c [] (d ∷ u) v h = refl
starts_with-lacks c (x ∷ s) [] v h = ground arith
starts_with-lacks c (x ∷ s) (d ∷ u) v h = ground (arith, starts_with-lacks c s u v)

contains-lacks : (c : ℕ) (s u v : Text) → lacks c s ≡ true → contains s (u ++ c ∷ v) ≡ false
unfolding contains
contains-lacks c [] [] v h = refl
contains-lacks c [] (d ∷ u) v h = refl
contains-lacks c (x ∷ s) u v h =
    ground (arith, starts_with-lacks c (x ∷ s) u v, contains-lacks c s u v)

normal_banner-lacks : (banner : Text) → lacks b'-' (normal_banner banner) ≡ true
unfolding normal_banner
normal_banner-lacks banner =
    lacks-replace b'-' (codes " ") (replace b'_' (codes " ") (lower banner)) refl

-- What is found depends on the tests other than those for `ios-xe` and `nx-os`: a banner that says
-- neither `nexus` nor `cisco ios xe`, up to case, dashes and underscores, is never taken for NX-OS
-- or for IOS XE.
pub fingerprint-dashes :
    (banner : Text)
    → contains (normal_banner banner) (codes "nexus") ≡ false
    → contains (normal_banner banner) (codes "cisco ios xe") ≡ false
    → (fingerprint_from_banner banner ≢ some (codes "cisco_nxos"))
      × (fingerprint_from_banner banner ≢ some (codes "cisco_xe"))
unfolding fingerprint_from_banner fingerprint_normal
fingerprint-dashes banner n x =
    let b = normal_banner banner in
    let d = normal_banner-lacks banner in
    let a = contains-lacks b'-' b (codes "nx") (codes "os") d in
    let e = contains-lacks b'-' b (codes "ios") (codes "xe") d in
    rw (x, e, a, n) ((λ h. ground arith), (λ h. ground arith))

partition-append :
    (sep : ℕ) (h u : Text) → lacks sep h ≡ true → partition sep (h ++ sep ∷ u) ≡ (h, u)
unfolding partition
partition-append sep [] u k = rw ((==_iff sep sep).1 refl)
partition-append sep (c ∷ h) u k = elim (Bool-cases (c == sep)) [
  | inl e ↦ ground arith
  | inr e ↦ rw (e, partition-append sep h u (ground arith))
]

contains-append : (c : ℕ) (h u : Text) → contains (h ++ c ∷ u) (c ∷ []) ≡ true
unfolding contains starts_with
contains-append c [] u = rw ((==_iff c c).1 refl)
contains-append c (x ∷ h) u = ground (arith, contains-append c h u)

connection_kwargs-unlisted :
    (env : Environ) (inv : Inventory) (device : Text)
    → find_device device inv ≡ none
    → connection_kwargs env inv device ≡ ad_hoc env device
unfolding connection_kwargs
connection_kwargs-unlisted env inv device n = rw (connection_kwargs, n) refl

ad_hoc-at :
    (env : Environ) (h u : Text)
    → lacks b'@' h ≡ true
    → lacks b':' u ≡ true
    → (get (codes "username") (ad_hoc env (h ++ b'@' ∷ u)) ≡ some h)
      × (get (codes "host") (ad_hoc env (h ++ b'@' ∷ u)) ≡ some u)
unfolding ad_hoc get
ad_hoc-at env h u a b =
    rw (contains-append b'@' h u, partition-append b'@' h u a, contains-lacks b':' u [] [] b)
      (refl, refl)

-- A string `h@u` with no `@` in `h` and no `:` in `u`, for which the inventory has no device, is
-- read as user `h` at host `u`.
pub connection_kwargs-ad_hoc :
    (env : Environ) (inv : Inventory) (h u : Text)
    → lacks b'@' h ≡ true
    → lacks b':' u ≡ true
    → find_device (h ++ b'@' ∷ u) inv ≡ none
    → (get (codes "username") (connection_kwargs env inv (h ++ b'@' ∷ u)) ≡ some h)
      × (get (codes "host") (connection_kwargs env inv (h ++ b'@' ∷ u)) ≡ some u)
connection_kwargs-ad_hoc env inv h u a b n =
    rw (connection_kwargs-unlisted env inv (h ++ b'@' ∷ u) n) (ad_hoc-at env h u a b)
