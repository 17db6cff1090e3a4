-- ===== src/Tools/Netdevice.antt =====
-- tools/netdevice.py: tiers of device commands, platforms, connections and the device tools.
pub mod Gate
pub mod Banner
mod Tests
use silicon_valet.Prelude.{
  ℕ, Bool, true, false, not, ◌&&◌, Option, none, some, List, [], ◌∷◌, ◌++◌, Text, codes, text_eq,
  nonempty, lower, strip, is_space, starts_with, contains, replace, partition, any, ltb,
  if◌then◌else◌, map,
}
use silicon_valet.Risk.Classifier.{RiskTier, green, yellow, red, tier_order}
use silicon_valet.Risk.Engine.{Result, ok, raised, tier_value, is_green}
use silicon_valet.Memory.Runbook.{texts}

-- A Python dict with text keys, in insertion order. Values are texts.
abbrev pub Dict : Type 0
Dict = List (Text × Text)

unfoldable pub get : Text → Dict → Option Text
get k [] = none
get k ((j, v) ∷ d) = let rest = get k d in if text_eq j k then some v else rest

-- `d.pop(k, ...)`, what is left
unfoldable pub without : Text → Dict → Dict
without k [] = []
without k ((j, v) ∷ d) = let rest = without k d in if text_eq j k then rest else (j, v) ∷ rest

-- `d[k] = v`
unfoldable pub put : Text → Text → Dict → Dict
put k v [] = (k, v) ∷ []
put k v ((j, w) ∷ d) = let rest = put k v d in if text_eq j k then (j, v) ∷ d else (j, w) ∷ rest

abbrev pub or_else : Option Text → Text → Text
or_else none d = d
or_else (some v) d = v

abbrev same_name : List Text → Dict
same_name [] = []
same_name (t ∷ ts) = (t, t) ∷ same_name ts

platform_map : Dict
platform_map = same_name (
    texts (
      "cisco_ios" ∷ "cisco_xe" ∷ "cisco_nxos" ∷ "cisco_asa" ∷ "cisco_xr" ∷ "nokia_sros"
      ∷ "nokia_srl" ∷ "adtran_os" ∷ "juniper_junos" ∷ "arista_eos" ∷ "linux" ∷ []))

-- `PLATFORM_MAP.get(platform, "cisco_ios")`
unfoldable pub device_type_of : Text → Text
unfolding platform_map get
device_type_of platform = or_else (get platform platform_map) (codes "cisco_ios")

-- `banner.lower().replace("_", " ").replace("-", " ")`
unfoldable pub normal_banner : Text → Text
normal_banner banner = replace b'-' (codes " ") (replace b'_' (codes " ") (lower banner))

-- The tests of `_fingerprint_from_banner`, in order, on the normalised banner.
unfoldable pub fingerprint_normal : Text → Option Text
fingerprint_normal b =
    if (if contains b (codes "cisco ios xe") then true else contains b (codes "ios-xe"))
    then some (codes "cisco_xe")
    else if (if contains b (codes "nx-os") then true else contains b (codes "nexus"))
    then some (codes "cisco_nxos")
    else if contains b (codes "ios xr")
    then some (codes "cisco_xr")
    else if (if contains b (codes "cisco ios") then true else contains b (codes "cisco systems"))
    then some (codes "cisco_ios")
    else if (if contains b (codes "nokia") then contains b (codes "sr os") else false)
    then some (codes "nokia_sros")
    else if (if contains b (codes "nokia") then contains b (codes "srlinux") else false)
    then some (codes "nokia_srl")
    else if (if contains b (codes "adtran")
        then true
        else if contains b (codes "netvanta")
        then true
        else contains b (codes "total access"))
    then some (codes "adtran_os")
    else if (if contains b (codes "junos") then true else contains b (codes "juniper"))
    then some (codes "juniper_junos")
    else if (if contains b (codes "arista") then true else contains b (codes "eos"))
    then some (codes "arista_eos")
    else none

unfoldable pub fingerprint_from_banner : Text → Option Text
fingerprint_from_banner banner = fingerprint_normal (normal_banner banner)

unfoldable pub device_green_prefixes : List Text
device_green_prefixes = texts (
    "show " ∷ "display " ∷ "dir" ∷ "ping " ∷ "traceroute " ∷ "monitor " ∷ "admin show" ∷ "file show"
    ∷ "info" ∷ [])

unfoldable pub device_yellow_prefixes : List Text
device_yellow_prefixes = texts (
    "configure" ∷ "conf t" ∷ "config t" ∷ "no " ∷ "interface " ∷ "commit" ∷ "save" ∷ "copy running"
    ∷ "write memory" ∷ "wr " ∷ "clear counters" ∷ "clear logging" ∷ "clear arp" ∷ "shutdown"
    ∷ "no shutdown" ∷ "reset " ∷ [])

unfoldable pub device_red_prefixes : List Text
device_red_prefixes = texts (
    "reload" ∷ "reboot" ∷ "admin reboot" ∷ "admin reload" ∷ "erase " ∷ "format " ∷ "delete " ∷ "rm "
    ∷ "factory-reset" ∷ "factory default" ∷ "clear running-config" ∷ "shutdown system" ∷ "power off"
    ∷ [])

-- a loop `for prefix in prefixes: if c.startswith(prefix)`
unfoldable pub has_prefix : List Text → Text → Bool
has_prefix prefixes c = any (λ p. starts_with c p) prefixes

unfoldable pub classify_device_command : Text → RiskTier
classify_device_command cmd =
    let c = lower (strip cmd) in
    if has_prefix device_red_prefixes c
    then red
    else if has_prefix device_green_prefixes c
    then green
    else if has_prefix device_yellow_prefixes c
    then yellow
    else yellow

-- All that `classify_device_command` computes with.
unfoldable pub opens_device : Unit {0}
unfolding classify_device_command has_prefix device_red_prefixes device_green_prefixes
    device_yellow_prefixes starts_with lower strip is_space
opens_device = tt

-- An inventory, as `load_inventory` returns it, and the environment variables.
abbrev pub Inventory : Type 0
Inventory = List (Text × Dict)

abbrev pub Environ : Type 0
Environ = Text → Option Text

unfoldable pub find_device : Text → Inventory → Option Dict
find_device k [] = none
find_device k ((j, d) ∷ inv) = let rest = find_device k inv in if text_eq j k then some d else rest

-- `setdefault("device_type", PLATFORM_MAP.get(entry.pop("platform", ""), "cisco_ios"))`
with_device_type : Dict → Dict
with_device_type entry =
    let platform = or_else (get (codes "platform") entry) [] in
    let rest = without (codes "platform") entry in
    elim (get (codes "device_type") rest) [
      | some _ ↦ rest
      | none ↦ put (codes "device_type") (device_type_of platform) rest
    ]

with_password : Environ → Dict → Dict
with_password env entry = elim (get (codes "password_env") entry) [
  | none ↦ entry
  | some var ↦ put (codes "password") (or_else (env var) []) (without (codes "password_env") entry)
]

-- `host`, or `host:platform@user` read from the left: `user@host:platform`
unfoldable ad_hoc : Environ → Text → Dict
ad_hoc env device =
    let default_user = or_else (env (codes "SV_DEVICE_USERNAME")) (codes "admin") in
    let (user, host) =
      if contains device (codes "@") then partition b'@' device else (default_user, device) in
    let (host', platform) =
      if contains host (codes ":") then partition b':' host else (host, codes "cisco_ios") in
    (codes "host", host')
    ∷ (codes "device_type", device_type_of platform)
    ∷ (codes "username", user)
    ∷ (codes "password", or_else (env (codes "SV_DEVICE_PASSWORD")) [])
    ∷ []

unfoldable pub connection_kwargs : Environ → Inventory → Text → Dict
unfolding find_device with_device_type with_password ad_hoc
connection_kwargs env inv device = elim (find_device device inv) [
  | some entry ↦ with_password env (with_device_type entry)
  | none ↦ ad_hoc env device
]

-- What netmiko does with commands, in configuration mode or not: output, or an exception's text.
-- `none` is a missing netmiko.
abbrev pub Netmiko : Type 0 → Type 0
Netmiko W = Dict → List Text → Bool → W → Option (Result Text) × W

-- The dict that `_run_on_device` returns, with the keys that the tools add.
pub record DeviceReply : Type 0 where
  pub output : Option Text
  pub failure : Option Text
  pub host : Option Text
  pub platform : Option Text
  pub success : Bool
  pub saved : Bool
  pub tier : Option RiskTier

abbrev pub error_reply : Text → Option RiskTier → DeviceReply
error_reply message tier = record {
  output = none;
  failure = some message;
  host = none;
  platform = none;
  success = false;
  saved = false;
  tier = tier;
}

abbrev pub reply_of : Dict → Option (Result Text) → DeviceReply
reply_of kwargs none = error_reply (codes "netmiko is not installed. Run: pip install netmiko") none
reply_of kwargs (some (raised e)) = record (error_reply e none) { host = get (codes "host") kwargs }
reply_of kwargs (some (ok text)) = record {
  output = some text;
  failure = none;
  host = get (codes "host") kwargs;
  platform = get (codes "device_type") kwargs;
  success = true;
  saved = false;
  tier = none;
}

unfoldable pub save_command_for : Text → Option Text
unfolding starts_with
save_command_for platform =
    if starts_with platform (codes "cisco")
    then some (codes "write memory")
    else if starts_with platform (codes "nokia_sros")
    then some (codes "admin save")
    else if starts_with platform (codes "nokia_srl")
    then some (codes "commit save")
    else if starts_with platform (codes "adtran")
    then some (codes "write")
    else if starts_with platform (codes "juniper")
    then some (codes "commit")
    else if starts_with platform (codes "arista")
    then some (codes "write memory")
    else none

-- the loop over the commands, from the tier found so far
unfoldable pub highest_device_tier : RiskTier → List Text → RiskTier
highest_device_tier tier [] = tier
highest_device_tier tier (c ∷ cs) =
    highest_device_tier
      (if ltb (tier_order tier) (tier_order (classify_device_command c))
        then classify_device_command c
        else tier)
      cs

-- The approval callback of a tool, for a preview and a tier.
abbrev pub Ask : Type 0 → Type 0
Ask W = Text → RiskTier → W → Result Bool × W

module _ {W : Type 0} (netmiko : Netmiko W) where
  unfoldable pub run_on_device : Dict → List Text → Bool → W → DeviceReply × W
  run_on_device kwargs commands config_mode w =
      let (r, w') = netmiko kwargs commands config_mode w in (reply_of kwargs r, w')

  -- `NetDeviceShowTool.call`, on a command as given
  unfoldable pub show_tool : Environ → Inventory → Text → Text → W → DeviceReply × W
  show_tool env inv device command w =
      let c = strip command in
      let tier = classify_device_command c in
      if is_green tier then run_on_device (connection_kwargs env inv device) (c ∷ []) false w else (
        error_reply
            (codes "Command '"
              ++ c
              ++ codes "' is not read-only (tier="
              ++ tier_value tier
              ++ codes "). Use netdevice_config instead.")
            (some tier),
        w,
      )

  -- `if save and result.get("success")`: the save command's own outcome is not looked at
  save_if : Bool → Dict → DeviceReply × W → DeviceReply × W
  save_if save kwargs (reply, w) =
      if save && reply.success
      then elim (save_command_for (or_else (get (codes "device_type") kwargs) [])) [
        | none ↦ (reply, w)
        | some command ↦
            let (_, w') = run_on_device kwargs (command ∷ []) false w in
            (record reply { saved = true }, w')
      ]
      else (reply, w)

  unfoldable pub apply_config : RiskTier → Bool → Dict → List Text → W → DeviceReply × W
  unfolding save_if
  apply_config tier save kwargs commands w =
      let (reply, w') = save_if save kwargs (run_on_device kwargs commands true w) in
      (record reply { tier = some tier }, w')

  unfoldable pub after_answer :
      RiskTier → Bool → Dict → List Text → Result Bool × W → DeviceReply × W
  after_answer tier save kwargs commands (ok true, w) = apply_config tier save kwargs commands w
  after_answer tier save kwargs commands (_, w) =
      (error_reply (codes "User denied config change") (some tier), w)

  -- `NetDeviceConfigTool.call`; `preview` is the text of the first three commands
  unfoldable pub config_tool :
      Environ
      → Inventory
      → Option (Ask W)
      → (Dict → List Text → Text)
      → Text
      → List Text
      → Bool
      → W
      → DeviceReply × W
  config_tool env inv none preview device commands save w =
      apply_config (highest_device_tier green commands) save (connection_kwargs env inv device)
        commands w
  config_tool env inv (some ask) preview device commands save w =
      let tier = highest_device_tier green commands in
      let kwargs = connection_kwargs env inv device in
      if is_green tier
      then apply_config tier save kwargs commands w
      else after_answer tier save kwargs commands (ask (preview kwargs commands) tier w)
