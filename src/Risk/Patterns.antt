-- ===== src/Risk/Patterns.antt =====
-- risk/patterns.py: the three tables of patterns, in the order of the source.
use silicon_valet.Prelude.{List, [], ◌∷◌, codes}
use silicon_valet.Regex.{
  Regex, one, many, start, finish, word_edge, ◌▸◌, opt, never, among, non_space, any_char, lit,
  one_of, names, sp, sps, sps?,
}

unfoldable pub green_patterns : List Regex
green_patterns =
    -- File reading
    (start ▸ names "cat" ("head" ∷ "tail" ∷ "less" ∷ "more" ∷ "bat" ∷ []) ▸ sp)
    ∷ (start ▸ names "ls" ("ll" ∷ "dir" ∷ []) ▸ word_edge)
    ∷ (start ▸ names "find" ("locate" ∷ []) ▸ sp)
    ∷ (start ▸ names "stat" ("file" ∷ "wc" ∷ "md5sum" ∷ "sha256sum" ∷ []) ▸ sp)
    ∷ (start ▸ names "diff" ("cmp" ∷ []) ▸ sp)
    ∷ (start ▸ names "grep" ("egrep" ∷ "fgrep" ∷ "rg" ∷ "ag" ∷ []) ▸ sp)
    ∷
        -- System info
        (start
        ▸ names "ps" ("top" ∷ "htop" ∷ "uptime" ∷ "free" ∷ "vmstat" ∷ "iostat" ∷ [])
        ▸ word_edge)
    ∷ (start ▸ names "df" ("du" ∷ []) ▸ sp)
    ∷ (start ▸ names "who" ("w" ∷ "id" ∷ "whoami" ∷ "hostname" ∷ "uname" ∷ []) ▸ word_edge)
    ∷ (start ▸ names "lscpu" ("lsblk" ∷ "lspci" ∷ "lsusb" ∷ "lsmod" ∷ []) ▸ word_edge)
    ∷ (start ▸ names "env" ("printenv" ∷ "set" ∷ []) ▸ word_edge)
    ∷ (start ▸ lit "date" ▸ word_edge)
    ∷
        -- Network read
        (start ▸ names "ss" ("netstat" ∷ []) ▸ sp)
    ∷ (start
        ▸ one_of
            (lit "ip" ▸ sps ▸ names "addr" ("route" ∷ "link" ∷ "neigh" ∷ []) ▸ sps ▸ lit "show")
            ((lit "ip" ▸ sps ▸ lit "a") ∷ [])
        ▸ word_edge)
    ∷ (start ▸ (lit "ip" ▸ sps ▸ lit "-j" ▸ sps ▸ lit "addr") ▸ word_edge)
    ∷ (start ▸ names "dig" ("nslookup" ∷ "host" ∷ []) ▸ sp)
    ∷ (start ▸ lit "ping" ▸ sp)
    ∷ (start ▸ names "traceroute" ("tracepath" ∷ "mtr" ∷ []) ▸ sp)
    ∷ (start
        ▸ lit "curl"
        ▸ sps
        ▸ opt (lit "-s" ▸ sps)
        ▸ opt (lit "-o" ▸ sps ▸ lit "/dev/null" ▸ sps)
        ▸ opt (lit "-w" ▸ sps)
        ▸ many any_char
        ▸ opt (
            one_of (lit "-X" ▸ sps ▸ lit "GET" ▸ sps)
              ((lit "--request" ▸ sps ▸ lit "GET" ▸ sps) ∷ []))
        ▸ lit "http"
        ▸ opt (lit "s")
        ▸ lit "://")
    ∷ (start
        ▸ lit "curl"
        ▸ sps
        ▸ never (
            many any_char
            ▸ one_of (lit "-X" ▸ sps ▸ names "POST" ("PUT" ∷ "DELETE" ∷ "PATCH" ∷ []))
                (lit "--data" ∷ lit "--upload" ∷ (lit "-d" ▸ sp) ∷ [])))
    ∷ (start ▸ lit "wget" ▸ sps ▸ lit "--spider" ▸ sp)
    ∷
        -- Kubernetes read
        (start ▸ lit "kubectl" ▸ sps ▸ lit "get" ▸ sp)
    ∷ (start ▸ lit "kubectl" ▸ sps ▸ lit "describe" ▸ sp)
    ∷ (start ▸ lit "kubectl" ▸ sps ▸ lit "log" ▸ opt (lit "s") ▸ sp)
    ∷ (start ▸ lit "kubectl" ▸ sps ▸ lit "top" ▸ sp)
    ∷ (start ▸ lit "kubectl" ▸ sps ▸ lit "api-resources" ▸ word_edge)
    ∷ (start ▸ lit "kubectl" ▸ sps ▸ lit "cluster-info" ▸ word_edge)
    ∷ (start
        ▸ lit "kubectl"
        ▸ sps
        ▸ lit "config"
        ▸ sps
        ▸ names "view" ("get" ∷ "current" ∷ [])
        ▸ word_edge)
    ∷ (start ▸ lit "kubectl" ▸ sps ▸ lit "explain" ▸ sp)
    ∷ (start ▸ lit "kubectl" ▸ sps ▸ lit "version" ▸ word_edge)
    ∷ (start ▸ lit "k9s" ▸ word_edge)
    ∷
        -- Systemd read
        (start
        ▸ lit "systemctl"
        ▸ sps
        ▸ names "status" (
            "is-active" ∷ "is-enabled" ∷ "is-failed" ∷ "show" ∷ "list-units" ∷ "list-unit-files"
            ∷ [])
        ▸ word_edge)
    ∷
        -- Logs
        (start ▸ lit "journalctl" ▸ sp)
    ∷ (start ▸ lit "dmesg" ▸ word_edge)
    ∷
        -- Container read
        (start
        ▸ names "docker" ("podman" ∷ "crictl" ∷ [])
        ▸ sps
        ▸ names "ps" ("images" ∷ "inspect" ∷ "logs" ∷ "stats" ∷ "info" ∷ "version" ∷ [])
        ▸ word_edge)
    ∷ (start
        ▸ names "docker" ("podman" ∷ [])
        ▸ sps
        ▸ lit "network"
        ▸ sps
        ▸ names "ls" ("inspect" ∷ [])
        ▸ word_edge)
    ∷ (start
        ▸ names "docker" ("podman" ∷ [])
        ▸ sps
        ▸ lit "volume"
        ▸ sps
        ▸ names "ls" ("inspect" ∷ [])
        ▸ word_edge)
    ∷
        -- Package info
        (start
        ▸ one_of (lit "dpkg" ▸ sps ▸ lit "-l")
            ((lit "apt" ▸ sps ▸ lit "list") ∷ (lit "rpm" ▸ sps ▸ lit "-qa") ∷ [])
        ▸ word_edge)
    ∷ (start ▸ lit "pip" ▸ sps ▸ names "list" ("show" ∷ "freeze" ∷ []) ▸ word_edge)
    ∷ []

unfoldable pub yellow_patterns : List Regex
yellow_patterns =
    -- Service management
    (start
      ▸ lit "systemctl"
      ▸ sps
      ▸ names "start" ("stop" ∷ "restart" ∷ "reload" ∷ "enable" ∷ "disable" ∷ [])
      ▸ sp)
    ∷
        -- Kubernetes modify
        (start ▸ lit "kubectl" ▸ sps ▸ lit "apply" ▸ sp)
    ∷ (start ▸ lit "kubectl" ▸ sps ▸ lit "scale" ▸ sp)
    ∷ (start ▸ lit "kubectl" ▸ sps ▸ lit "rollout" ▸ sp)
    ∷ (start ▸ lit "kubectl" ▸ sps ▸ lit "edit" ▸ sp)
    ∷ (start ▸ lit "kubectl" ▸ sps ▸ lit "patch" ▸ sp)
    ∷ (start ▸ lit "kubectl" ▸ sps ▸ lit "label" ▸ sp)
    ∷ (start ▸ lit "kubectl" ▸ sps ▸ lit "annotate" ▸ sp)
    ∷ (start ▸ lit "kubectl" ▸ sps ▸ lit "cordon" ▸ sp)
    ∷ (start ▸ lit "kubectl" ▸ sps ▸ lit "uncordon" ▸ sp)
    ∷ (start ▸ lit "kubectl" ▸ sps ▸ lit "taint" ▸ sp)
    ∷ (start ▸ lit "kubectl" ▸ sps ▸ lit "delete" ▸ sps ▸ lit "pod" ▸ sp)
    ∷
        -- File modification
        (start ▸ names "cp" ("mv" ∷ "install" ∷ []) ▸ sp)
    ∷ (start ▸ lit "mkdir" ▸ sp)
    ∷ (start ▸ names "touch" ("truncate" ∷ []) ▸ sp)
    ∷ (start ▸ names "chmod" ("chown" ∷ "chgrp" ∷ []) ▸ sp)
    ∷ (start ▸ one_of (lit "sed" ▸ sps ▸ lit "-i") ((lit "perl" ▸ sps ▸ lit "-i") ∷ []) ▸ sp)
    ∷ (start ▸ one_of (lit "tee") ((lit "tee" ▸ sps ▸ lit "-a") ∷ []) ▸ sp)
    ∷ (many any_char ▸ lit ">>")
    ∷
        -- Network modify
        (start
        ▸ lit "curl"
        ▸ sps
        ▸ many any_char
        ▸ one_of (lit "-X" ▸ sps ▸ names "POST" ("PUT" ∷ "PATCH" ∷ []))
            (lit "--data" ∷ (lit "-d" ▸ sp) ∷ []))
    ∷
        -- Container modify
        (start
        ▸ names "docker" ("podman" ∷ [])
        ▸ sps
        ▸ names "start" ("stop" ∷ "restart" ∷ "pause" ∷ "unpause" ∷ "exec" ∷ [])
        ▸ sp)
    ∷ (start
        ▸ names "docker" ("podman" ∷ [])
        ▸ sps
        ▸ lit "network"
        ▸ sps
        ▸ names "create" ("connect" ∷ "disconnect" ∷ [])
        ▸ sp)
    ∷
        -- Package management
        (start
        ▸ names "apt" ("apt-get" ∷ "yum" ∷ "dnf" ∷ [])
        ▸ sps
        ▸ names "install" ("update" ∷ "upgrade" ∷ [])
        ▸ sp)
    ∷ (start ▸ lit "pip" ▸ sps ▸ lit "install" ▸ sp)
    ∷ []

unfoldable pub red_patterns : List Regex
red_patterns =
    -- File destruction
    (start ▸ lit "rm" ▸ one_of sp (finish ∷ []))
    ∷ (start ▸ lit "rmdir" ▸ one_of sp (finish ∷ []))
    ∷ (start ▸ lit "shred" ▸ one_of sp (finish ∷ []))
    ∷
        -- Kubernetes destroy
        (start
        ▸ lit "kubectl"
        ▸ sps
        ▸ lit "delete"
        ▸ sps
        ▸ names "namespace" (
            "ns" ∷ "deployment" ∷ "deploy" ∷ "service" ∷ "svc" ∷ "pvc" ∷ "pv" ∷ "node" ∷ "ingress"
            ∷ "configmap" ∷ "secret" ∷ "daemonset" ∷ "statefulset" ∷ "job" ∷ "cronjob" ∷ [])
        ▸ sp)
    ∷ (start ▸ lit "kubectl" ▸ sps ▸ lit "drain" ▸ sp)
    ∷
        -- Systemd destructive
        (start ▸ lit "systemctl" ▸ sps ▸ names "mask" ("unmask" ∷ []) ▸ sp)
    ∷ (start ▸ lit "systemctl" ▸ sps ▸ lit "daemon-reload" ▸ word_edge)
    ∷
        -- Disk/filesystem destructive
        (start
        ▸ one_of (lit "mkfs" ▸ many non_space) (lit "fdisk" ∷ lit "parted" ∷ lit "gdisk" ∷ [])
        ▸ sp)
    ∷ (start ▸ lit "dd" ▸ sp)
    ∷ (start ▸ names "wipefs" ("blkdiscard" ∷ []) ▸ sp)
    ∷
        -- Network destructive
        (start ▸ names "iptables" ("ip6tables" ∷ "nft" ∷ "nftables" ∷ []) ▸ sp)
    ∷ (start
        ▸ lit "ip"
        ▸ sps
        ▸ names "addr" ("route" ∷ "link" ∷ [])
        ▸ sps
        ▸ names "add" ("del" ∷ "set" ∷ "flush" ∷ [])
        ▸ sp)
    ∷
        -- System control
        (start
        ▸ one_of (lit "reboot") (
            lit "shutdown"
            ∷ lit "halt"
            ∷ lit "poweroff"
            ∷ (lit "init" ▸ sps ▸ one (among (codes "06")))
            ∷ [])
        ▸ word_edge)
    ∷
        -- Container destructive
        (start ▸ names "docker" ("podman" ∷ []) ▸ sps ▸ names "rm" ("rmi" ∷ []) ▸ sp)
    ∷ (start
        ▸ names "docker" ("podman" ∷ [])
        ▸ sps
        ▸ lit "volume"
        ▸ sps
        ▸ names "rm" ("prune" ∷ [])
        ▸ sp)
    ∷ (start ▸ names "docker" ("podman" ∷ []) ▸ sps ▸ lit "system" ▸ sps ▸ lit "prune" ▸ word_edge)
    ∷ (start ▸ names "docker" ("podman" ∷ []) ▸ sps ▸ lit "network" ▸ sps ▸ lit "rm" ▸ sp)
    ∷
        -- Package removal
        (start
        ▸ names "apt" ("apt-get" ∷ "yum" ∷ "dnf" ∷ [])
        ▸ sps
        ▸ names "remove" ("purge" ∷ "autoremove" ∷ [])
        ▸ sp)
    ∷ (start ▸ lit "pip" ▸ sps ▸ lit "uninstall" ▸ sp)
    ∷
        -- Dangerous pipes
        (lit "|"
        ▸ sps?
        ▸ one_of (lit "rm") (lit "dd" ∷ (lit "mkfs" ▸ many non_space) ∷ lit "shred" ∷ [])
        ▸ word_edge)
    ∷ (lit ">" ▸ sps? ▸ lit "/dev/sd")
    ∷ []
