-- ===== src/Tools/Netdevice/Gate.antt =====
-- What reaches a device: `NetDeviceShowTool` and `NetDeviceConfigTool`.
use silicon_valet.Prelude.{
  ◌≡◌, ◌≢◌, refl, ◌⊎◌, inl, inr, ◌↔◌, Bool, true, false, none, some, List, [], ◌∷◌, ◌++◌, Text,
  lower, strip, starts_with, arith, ◌==◌, if◌then◌else◌, Bool-cases, All, ltb,
}
use silicon_valet.Risk.Classifier.{RiskTier, green, tier_order}
use silicon_valet.Risk.Engine.{Result, ok, raised, is_green}
use silicon_valet.Tools.Netdevice.{
  Environ, Inventory, Dict, Netmiko, Ask, has_prefix, device_green_prefixes, device_red_prefixes,
  classify_device_command, highest_device_tier, show_tool, config_tool, after_answer,
  connection_kwargs, run_on_device,
}

-- The text begins with one of the prefixes.
abbrev pub Prefixed : List Text → Text → Type 0
Prefixed [] c = ⊥
Prefixed (p ∷ ps) c = ((x : Text) × (c ≡ p ++ x)) ⊎ Prefixed ps c

starts_with_sound : (c p : Text) → starts_with c p ≡ true → (x : Text) × (c ≡ p ++ x)
unfolding starts_with
starts_with_sound c [] h = (c, refl)
starts_with_sound [] (d ∷ p) h = cc
starts_with_sound (e ∷ c) (d ∷ p) h = elim (Bool-cases (e == d)) [
  | inl same ↦ let (x, q) = starts_with_sound c p (rw same at h) in (x, ground arith)
  | inr other ↦ ground arith
]

starts_with_complete : (p x : Text) → starts_with (p ++ x) p ≡ true
unfolding starts_with
starts_with_complete [] x = refl
starts_with_complete (d ∷ p) x = ground (arith, starts_with_complete p x)

has_prefix_sound : (ps : List Text) (c : Text) → has_prefix ps c ≡ true → Prefixed ps c
unfolding has_prefix
has_prefix_sound [] c h = cc
has_prefix_sound (p ∷ ps) c h = elim (Bool-cases (starts_with c p)) [
  | inl e ↦ inl (starts_with_sound c p e)
  | inr e ↦ inr (has_prefix_sound ps c (rw e at h))
]

has_prefix_complete : (ps : List Text) (c : Text) → Prefixed ps c → has_prefix ps c ≡ true
unfolding has_prefix
has_prefix_complete [] c h = absurd h
has_prefix_complete (p ∷ ps) c (inl (x, e)) = rw (e, starts_with_complete p x)
has_prefix_complete (p ∷ ps) c (inr h) = let rest = has_prefix_complete ps c h in ground arith

-- A command that only reads: it begins with a GREEN prefix, and with no RED one.
abbrev pub ReadsOnly : Text → Type 0
ReadsOnly command =
    let c = lower (strip command) in
    Prefixed device_green_prefixes c × ¬ Prefixed device_red_prefixes c

pub classify_device_command-green :
    (command : Text) → classify_device_command command ≡ green → ReadsOnly command
unfolding classify_device_command
classify_device_command-green command h =
    let c = lower (strip command) in
    (
      has_prefix_sound device_green_prefixes c (ground arith),
      λ p. let e = has_prefix_complete device_red_prefixes c p in ground arith,
    )

is_green_iff : (t : RiskTier) → (is_green t ≡ true) ↔ (t ≡ green)
is_green_iff t = (λ h. ground arith, λ h. ground arith)

worse_green :
    (t u : RiskTier)
    → (if ltb (tier_order t) (tier_order u) then u else t) ≡ green
    → (t ≡ green) × (u ≡ green)
worse_green t u h = (ground arith, ground arith)

highest_device_tier-green :
    (t : RiskTier) (cs : List Text)
    → highest_device_tier t cs ≡ green
    → (t ≡ green) × All (λ c. classify_device_command c ≡ green) cs
unfolding highest_device_tier
highest_device_tier-green t [] h = (h, tt)
highest_device_tier-green t (c ∷ cs) h =
    let (first, rest) =
      highest_device_tier-green
        (if ltb (tier_order t) (tier_order (classify_device_command c))
          then classify_device_command c
          else t)
        cs h in
    let (a, b) = worse_green t (classify_device_command c) first in (a, (b, rest))

All-ReadsOnly :
    (cs : List Text) → All (λ c. classify_device_command c ≡ green) cs → All ReadsOnly cs
All-ReadsOnly [] h = tt
All-ReadsOnly (c ∷ cs) (h, hs) = (classify_device_command-green c h, All-ReadsOnly cs hs)

answer_cases : (r : Result Bool) → (r ≡ ok true) ⊎ ¬ (r ≡ ok true)
answer_cases (ok true) = inl refl
answer_cases (ok false) = inr (λ h. cc)
answer_cases (raised e) = inr (λ h. cc)

module _ {W : Type 0} (netmiko : Netmiko W) (env : Environ) (inv : Inventory) (device : Text) where
  -- The show tool leaves the world as it was and reports an error, or else its command, stripped
  -- and in lower case, begins with a GREEN prefix and with no RED one, and the world is that after
  -- this one command outside configuration mode.
  pub show_tool-ReadsOnly :
      (command : Text) (w : W)
      → let out = show_tool netmiko env inv device command w in
        ((out.1 ≡ w) × (out.0.failure ≢ none))
        ⊎ (ReadsOnly (strip command)
            × (out.1 ≡ (netmiko (connection_kwargs env inv device) (strip command ∷ []) false w).1))
  unfolding show_tool run_on_device
  show_tool-ReadsOnly command w =
      elim (Bool-cases (is_green (classify_device_command (strip command)))) [
        | inl e ↦ inr (
          classify_device_command-green (strip command)
              ((is_green_iff (classify_device_command (strip command))).0 e),
          rw e,
        )
        | inr e ↦ inl (rw e, rw e (λ h. cc))
      ]

  -- Whether the user agreed to the tier of the commands.
  abbrev pub Agreed : Ask W → Text → RiskTier → W → Type 0
  Agreed ask preview tier w = (ask preview tier w).0 ≡ ok true

  after_answer-refused :
      (tier : RiskTier) (save : Bool) (kwargs : Dict) (commands : List Text) (answer : Result Bool)
      (w : W)
      → ¬ (answer ≡ ok true)
      → ((after_answer netmiko tier save kwargs commands (answer, w)).1 ≡ w)
        × ((after_answer netmiko tier save kwargs commands (answer, w)).0.success ≡ false)
  unfolding after_answer
  after_answer-refused tier save kwargs commands (ok true) w n = absurd (n refl)
  after_answer-refused tier save kwargs commands (ok false) w n = (refl, refl)
  after_answer-refused tier save kwargs commands (raised e) w n = (refl, refl)

  -- With someone to ask, the config tool touches the device only if the user agreed, or if every
  -- command begins with a GREEN prefix and with no RED one: otherwise the world has seen the
  -- question alone, and the reply is no success. A callback that raises counts as a denial.
  pub config_tool-asks :
      (ask : Ask W) (preview : Dict → List Text → Text) (commands : List Text) (save : Bool) (w : W)
      → let tier = highest_device_tier green commands in
        let text = preview (connection_kwargs env inv device) commands in
        let out = config_tool netmiko env inv (some ask) preview device commands save w in
        Agreed ask text tier w
        ⊎ All ReadsOnly commands
        ⊎ ((out.1 ≡ (ask text tier w).1) × (out.0.success ≡ false))
  unfolding config_tool
  config_tool-asks ask preview commands save w =
      let tier = highest_device_tier green commands in
      let kwargs = connection_kwargs env inv device in
      let (answer, w') = ask (preview kwargs commands) tier w in
      elim (Bool-cases (is_green tier)) [
        | inl e ↦ inr (
            inl (
              All-ReadsOnly commands
                (highest_device_tier-green green commands ((is_green_iff tier).0 e)).1))
        | inr e ↦ elim (answer_cases answer) [
          | inl agreed ↦ inl agreed
          | inr n ↦ inr (inr (rw e (after_answer-refused tier save kwargs commands answer w' n)))
        ]
      ]

  -- Without someone to ask, the config tool does what it does after a yes, for commands of every
  -- tier: a missing callback is taken for an approval.
  pub config_tool-none :
      (preview : Dict → List Text → Text) (commands : List Text) (save : Bool) (w : W)
      → config_tool netmiko env inv none preview device commands save w
        ≡ config_tool netmiko env inv
            (some (λ text tier w'. (ok true, w')))
            preview
            device
            commands
            save
            w
  unfolding config_tool after_answer
  config_tool-none preview commands save w = ground arith
