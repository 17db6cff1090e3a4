-- ===== src/Tools/Netdevice/Tests.antt =====
-- Runs of tools/netdevice.py, and the theorems at concrete inputs.
use silicon_valet.Prelude.{
  ◌≡◌, ◌≢◌, refl, ◌⊎◌, true, false, none, some, List, [], ◌∷◌, ◌++◌, Text, codes, strip, All,
  contains, replace,
}
use silicon_valet.Risk.Classifier.{green, red}
use silicon_valet.Risk.Engine.{ok}
use silicon_valet.Tools.Netdevice.{
  Environ, Inventory, Netmiko, Ask, classify_device_command, highest_device_tier,
  fingerprint_from_banner, normal_banner, connection_kwargs, show_tool, config_tool, get,
  opens_device, find_device,
}
use silicon_valet.Tools.Netdevice.Gate.{
  ReadsOnly, Agreed, show_tool-ReadsOnly, config_tool-asks, config_tool-none,
}
use silicon_valet.Tools.Netdevice.Banner.{fingerprint-dashes, connection_kwargs-ad_hoc}

device_shown : classify_device_command (codes "  Show running-config ") ≡ green
unfolding opens_device
device_shown = refl

device_reload :
    highest_device_tier green (codes "show clock" ∷ codes "reload" ∷ codes "write memory" ∷ [])
    ≡ red
unfolding opens_device highest_device_tier
device_reload = refl

-- A world that keeps the commands that devices were given.
abbrev wire : Netmiko (List Text)
wire kwargs commands config_mode w = (some (ok (codes "done")), w ++ commands)

abbrev deny : Ask (List Text)
deny text tier w = (ok false, w ++ codes "asked" ∷ [])

abbrev no_environ : Environ
no_environ name = none

abbrev sw1 : Inventory
sw1 =
    (codes "sw1", (codes "host", codes "10.0.0.2") ∷ (codes "platform", codes "nokia_srl") ∷ [])
    ∷ []

show_tool-ReadsOnly_example :
    let out = show_tool wire no_environ sw1 (codes "sw1") (codes "show version") [] in
    ((out.1 ≡ []) × (out.0.failure ≢ none))
    ⊎ (ReadsOnly (strip (codes "show version"))
        × (out.1
            ≡ (wire
                (connection_kwargs no_environ sw1 (codes "sw1"))
                (strip (codes "show version") ∷ [])
                false
                []).1))
show_tool-ReadsOnly_example =
    show_tool-ReadsOnly wire no_environ sw1 (codes "sw1") (codes "show version") []

config_tool-asks_example :
    let commands = codes "interface eth0" ∷ codes "shutdown" ∷ [] in
    let tier = highest_device_tier green commands in
    let out =
      config_tool wire no_environ sw1
        (some deny)
        (λ kwargs cs. [])
        (codes "sw1")
        commands
        true
        [] in
    Agreed wire no_environ sw1 (codes "sw1") deny [] tier []
    ⊎ All ReadsOnly commands
    ⊎ ((out.1 ≡ (deny [] tier []).1) × (out.0.success ≡ false))
config_tool-asks_example =
    config_tool-asks wire no_environ sw1 (codes "sw1") deny (λ kwargs cs. [])
      (codes "interface eth0" ∷ codes "shutdown" ∷ []) true []

config_tool-none_example :
    config_tool wire no_environ sw1 none
      (λ kwargs cs. [])
      (codes "sw1")
      (codes "reload" ∷ [])
      false
      []
    ≡ config_tool wire no_environ sw1
        (some (λ text tier w. (ok true, w)))
        (λ kwargs cs. [])
        (codes "sw1")
        (codes "reload" ∷ [])
        false
        []
config_tool-none_example =
    config_tool-none wire no_environ sw1 (codes "sw1") (λ kwargs cs. []) (codes "reload" ∷ []) false
      []

fingerprint-dashes_example :
    (fingerprint_from_banner (codes "Cisco NX-OS Software") ≢ some (codes "cisco_nxos"))
    × (fingerprint_from_banner (codes "Cisco NX-OS Software") ≢ some (codes "cisco_xe"))
unfolding opens_device normal_banner contains replace
fingerprint-dashes_example = fingerprint-dashes (codes "Cisco NX-OS Software") refl refl

connection_kwargs-ad_hoc_example :
    (get
        (codes "username")
        (connection_kwargs no_environ [] (codes "10.0.0.1" ++ b'@' ∷ codes "admin"))
      ≡ some (codes "10.0.0.1"))
    × (get
          (codes "host")
          (connection_kwargs no_environ [] (codes "10.0.0.1" ++ b'@' ∷ codes "admin"))
        ≡ some (codes "admin"))
unfolding find_device
connection_kwargs-ad_hoc_example =
    connection_kwargs-ad_hoc no_environ [] (codes "10.0.0.1") (codes "admin") refl refl refl
