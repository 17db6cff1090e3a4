-- ===== src/Dna/Scanner/Known.antt =====
-- dna/scanner.py: the configuration directories and the dependencies that are known in advance.
use silicon_valet.Prelude.{List, [], ◌∷◌, Text, codes, text_eq, if◌then◌else◌}

abbrev pub service_config_paths : List (Text × List Text)
service_config_paths =
    (codes "nginx", codes "/etc/nginx/" ∷ [])
    ∷ (codes "apache2", codes "/etc/apache2/" ∷ codes "/etc/httpd/" ∷ [])
    ∷ (codes "postgresql", codes "/etc/postgresql/" ∷ [])
    ∷ (codes "mysql", codes "/etc/mysql/" ∷ [])
    ∷ (codes "zabbix-server", codes "/etc/zabbix/" ∷ [])
    ∷ (codes "zabbix-agent", codes "/etc/zabbix/" ∷ [])
    ∷ (codes "zabbix-agent2", codes "/etc/zabbix/" ∷ [])
    ∷ (codes "rabbitmq-server", codes "/etc/rabbitmq/" ∷ [])
    ∷ (codes "redis-server", codes "/etc/redis/" ∷ [])
    ∷ (codes "sshd", codes "/etc/ssh/" ∷ [])
    ∷ (codes "docker", codes "/etc/docker/" ∷ [])
    ∷ (codes "containerd", codes "/etc/containerd/" ∷ [])
    ∷ (codes "k3s", codes "/etc/rancher/k3s/" ∷ [])
    ∷ (codes "ollama", codes "/etc/systemd/system/ollama.service" ∷ codes "/etc/ollama/" ∷ [])
    ∷ (codes "prometheus", codes "/etc/prometheus/" ∷ [])
    ∷ (codes "grafana", codes "/etc/grafana/" ∷ [])
    ∷ (codes "haproxy", codes "/etc/haproxy/" ∷ [])
    ∷ (codes "fail2ban", codes "/etc/fail2ban/" ∷ [])
    ∷ (codes "ufw", codes "/etc/ufw/" ∷ [])
    ∷ (codes "certbot", codes "/etc/letsencrypt/" ∷ [])
    ∷ (codes "mongod", codes "/etc/mongod.conf" ∷ [])
    ∷ []

-- `SERVICE_CONFIG_PATHS.get(name, [])`
unfoldable pub paths_of : Text → List (Text × List Text) → List Text
paths_of name [] = []
paths_of name ((k, paths) ∷ rest) = if text_eq k name then paths else paths_of name rest

pub record KnownDependency : Type 0 where
  pub source_pattern : Text
  pub target_pattern : Text
  pub dep_type : Text
  pub detail : Text

abbrev known : Text → Text → Text → Text → KnownDependency
known source target kind detail = record {
  source_pattern = source;
  target_pattern = target;
  dep_type = kind;
  detail = detail;
}

abbrev pub known_deps : List KnownDependency
known_deps =
    known (codes "zabbix-server") (codes "postgresql") (codes "network") (codes "database backend")
    ∷ known (codes "zabbix-server") (codes "mysql") (codes "network") (codes "database backend")
    ∷ known (codes "rabbitmq-server") (codes "erlang") (codes "config") (codes "runtime dependency")
    ∷ known (codes "nginx") (codes "php-fpm") (codes "network") (codes "PHP processing")
    ∷ known (codes "grafana") (codes "prometheus") (codes "network") (codes "metrics source")
    ∷ []
