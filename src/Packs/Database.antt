-- ===== src/Packs/Database.antt =====
-- packs/database/__init__.py: the runbooks that the pack seeds.
use silicon_valet.Prelude.{List, [], ◌∷◌, codes, some}
use silicon_valet.Risk.Classifier.{green, yellow}
use silicon_valet.Memory.Runbook.{Runbook, step, texts}

database_connection_refused : Runbook
database_connection_refused = record {
  title = codes "Database connection refused";
  problem_pattern = codes "Applications cannot connect to the database server";
  symptoms = texts (
      "Connection refused errors in application logs" ∷ "Database port not listening"
      ∷ "Database service not running" ∷ []);
  steps =
      step "check"
        "systemctl status postgresql 2>/dev/null || systemctl status mysql 2>/dev/null || systemctl status redis"
        "Check database service status" green
      ∷ step "check" "ss -tlnp | grep -E ':(5432|3306|6379|27017)'"
          "Check if database ports are listening" green
      ∷ step "check"
          "journalctl -u postgresql --no-pager -n 30 2>/dev/null || journalctl -u mysql --no-pager -n 30"
          "Check database logs" green
      ∷ step "check"
          "cat /var/log/postgresql/postgresql-*-main.log 2>/dev/null | tail -30 || tail -30 /var/log/mysql/error.log 2>/dev/null"
          "Check database log files" green
      ∷ step "fix"
          "systemctl restart postgresql 2>/dev/null || systemctl restart mysql 2>/dev/null || systemctl restart redis"
          "Restart database service" yellow
      ∷ [];
  root_cause = some (codes "Service crashed, configuration error, disk full, or permission issue");
  verification =
      some (codes "Database service is running and accepting connections on expected port");
  tags = texts ("database" ∷ "connection" ∷ "postgresql" ∷ "mysql" ∷ "redis" ∷ []);
  pack_source = some (codes "database");
}

slow_database_queries : Runbook
slow_database_queries = record {
  title = codes "Slow database queries";
  problem_pattern = codes "Database queries taking too long, causing application slowness";
  symptoms = texts (
      "Application response times increased" ∷ "Database CPU or I/O usage spiking"
      ∷ "Slow query log filling up" ∷ []);
  steps =
      step "check"
        "cat /var/log/postgresql/postgresql-*-main.log 2>/dev/null | grep -i 'duration:' | tail -20"
        "Check PostgreSQL slow queries" green
      ∷ step "check" "mysqladmin processlist 2>/dev/null || redis-cli info stats 2>/dev/null"
          "Check active queries/connections" green
      ∷ step "check" "iostat -x 1 3 2>/dev/null || cat /proc/diskstats"
          "Check disk I/O (database bottleneck)" green
      ∷ step "check" "free -h" "Check available memory for caching" green
      ∷ [];
  root_cause = some (
      codes
        "Missing indexes, insufficient memory for caching, disk I/O bottleneck, or long-running transactions");
  verification = some (codes "Query response times return to normal levels");
  tags = texts ("database" ∷ "performance" ∷ "slow" ∷ "queries" ∷ []);
  pack_source = some (codes "database");
}

database_disk_usage_growing : Runbook
database_disk_usage_growing = record {
  title = codes "Database disk usage growing";
  problem_pattern = codes "Database data directory consuming excessive disk space";
  symptoms = texts (
      "df -h shows database partition filling up" ∷ "WAL/binlog files accumulating"
      ∷ "Database backups failing due to space" ∷ []);
  steps =
      step "check" "du -sh /var/lib/postgresql/ 2>/dev/null || du -sh /var/lib/mysql/ 2>/dev/null"
        "Check database data directory size" green
      ∷ step "check" "ls -lah /var/lib/postgresql/*/main/pg_wal/ 2>/dev/null | tail -20"
          "Check PostgreSQL WAL size" green
      ∷ step "check" "ls -lah /var/log/mysql/ 2>/dev/null" "Check MySQL binary logs" green
      ∷ step "check" "df -h" "Overall disk usage" green
      ∷ [];
  root_cause =
      some
        (codes "WAL/binlog retention too long, missing VACUUM, table bloat, or forgotten backups");
  verification = some (codes "Database disk usage stabilized or reduced");
  tags = texts ("database" ∷ "disk" ∷ "storage" ∷ "wal" ∷ []);
  pack_source = some (codes "database");
}

unfoldable pub database_seeds : List Runbook
unfolding database_connection_refused slow_database_queries database_disk_usage_growing
database_seeds =
    database_connection_refused ∷ slow_database_queries ∷ database_disk_usage_growing ∷ []
