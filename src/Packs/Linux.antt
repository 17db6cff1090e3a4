-- ===== src/Packs/Linux.antt =====
-- packs/linux/__init__.py: the runbooks that the pack seeds.
use silicon_valet.Prelude.{List, [], ◌∷◌, codes, some}
use silicon_valet.Risk.Classifier.{green, yellow}
use silicon_valet.Memory.Runbook.{Runbook, step, texts}

disk_space_full : Runbook
disk_space_full = record {
  title = codes "Disk space full";
  problem_pattern = codes "Root filesystem or data partition running out of disk space";
  symptoms = texts (
      "df -h shows 90%+ usage on a partition"
      ∷ "Applications failing with 'No space left on device'" ∷ "System becoming unresponsive"
      ∷ []);
  steps =
      step "check" "df -h" "Check disk usage on all partitions" green
      ∷ step "check" "du -sh /var/log/* | sort -rh | head -20" "Find largest items in /var/log"
          green
      ∷ step "check" "du -sh /tmp/* 2>/dev/null | sort -rh | head -10" "Check /tmp for large files"
          green
      ∷ step "check" "journalctl --disk-usage" "Check systemd journal size" green
      ∷ step "fix" "journalctl --vacuum-size=500M" "Trim journal to 500MB" yellow
      ∷ step "fix" "apt-get autoremove -y" "Remove unused packages (Debian/Ubuntu)" yellow
      ∷ [];
  root_cause =
      some (codes "Log accumulation, old packages, temporary files, or undersized partition");
  verification = some (codes "df -h shows usage below 85% on all partitions");
  tags = texts ("disk" ∷ "storage" ∷ "space" ∷ "linux" ∷ []);
  pack_source = some (codes "linux");
}

high_cpu_usage : Runbook
high_cpu_usage = record {
  title = codes "High CPU usage";
  problem_pattern = codes "System running slow due to high CPU utilization";
  symptoms = texts (
      "top/htop shows CPU near 100%" ∷ "System feels sluggish or unresponsive"
      ∷ "Load average exceeds CPU core count" ∷ []);
  steps =
      step "check" "uptime" "Check load averages" green
      ∷ step "check" "ps aux --sort=-%cpu | head -15" "Find top CPU consumers" green
      ∷ step "check" "top -bn1 | head -20" "Snapshot of current resource usage" green
      ∷ step "check" "dmesg | tail -30" "Check for kernel-level issues" green
      ∷ [];
  root_cause = some (codes "Runaway process, insufficient resources, or misconfigured service");
  verification = some (codes "Load average drops below CPU core count");
  tags = texts ("cpu" ∷ "performance" ∷ "load" ∷ "linux" ∷ []);
  pack_source = some (codes "linux");
}

oom_killer_triggered : Runbook
oom_killer_triggered = record {
  title = codes "OOM killer triggered";
  problem_pattern = codes "Linux OOM killer terminates processes due to memory exhaustion";
  symptoms = texts (
      "Processes disappearing without explanation" ∷ "dmesg shows 'Out of memory: Killed process'"
      ∷ "Application restarts unexpectedly" ∷ []);
  steps =
      step "check" "dmesg | grep -i 'oom\\|out of memory' | tail -20" "Check for OOM events" green
      ∷ step "check" "free -h" "Check current memory usage" green
      ∷ step "check" "ps aux --sort=-%mem | head -15" "Find top memory consumers" green
      ∷ step "check" "cat /proc/sys/vm/overcommit_memory" "Check memory overcommit setting" green
      ∷ step "check" "swapon --show" "Check swap space" green
      ∷ [];
  root_cause = some (codes "Memory leak, insufficient RAM, or no swap configured");
  verification = some (codes "free -h shows adequate available memory, no new OOM events in dmesg");
  tags = texts ("memory" ∷ "oom" ∷ "ram" ∷ "linux" ∷ []);
  pack_source = some (codes "linux");
}

systemd_service_won_t_start : Runbook
systemd_service_won_t_start = record {
  title = codes "Systemd service won't start";
  problem_pattern = codes "A systemd service fails to start or keeps failing";
  symptoms = texts (
      "systemctl status shows 'failed' or 'activating'" ∷ "Service not responding on expected port"
      ∷ "journalctl shows repeated start/fail cycles" ∷ []);
  steps =
      step "check" "systemctl status {service_name}" "Check service status and recent logs" green
      ∷ step "check" "journalctl -u {service_name} --no-pager -n 50" "View service logs" green
      ∷ step "check" "systemctl cat {service_name}" "View service unit file" green
      ∷ step "check" "systemctl list-dependencies {service_name}" "Check service dependencies" green
      ∷ step "fix" "systemctl restart {service_name}" "Attempt service restart" yellow
      ∷ [];
  root_cause =
      some (codes "Configuration error, missing dependency, permission issue, or port conflict");
  verification = some (codes "systemctl status shows 'active (running)'");
  tags = texts ("systemd" ∷ "service" ∷ "startup" ∷ "linux" ∷ []);
  pack_source = some (codes "linux");
}

cron_job_not_running : Runbook
cron_job_not_running = record {
  title = codes "Cron job not running";
  problem_pattern = codes "Scheduled cron job is not executing as expected";
  symptoms = texts (
      "Expected output or side effects not occurring" ∷ "No log entries from the cron job"
      ∷ "crontab -l shows the job is configured" ∷ []);
  steps =
      step "check" "crontab -l" "List current user's cron jobs" green
      ∷ step "check" "ls -la /etc/cron.d/ /etc/cron.daily/ /etc/cron.hourly/"
          "Check system cron directories" green
      ∷ step "check"
          "grep -i cron /var/log/syslog 2>/dev/null | tail -20 || journalctl -u cron --no-pager -n 20"
          "Check cron execution logs" green
      ∷ step "check" "systemctl status cron 2>/dev/null || systemctl status crond"
          "Verify cron service is running" green
      ∷ [];
  root_cause =
      some (codes "Wrong cron syntax, PATH issues, permission denied, or cron service not running");
  verification = some (codes "Cron job appears in execution logs at expected time");
  tags = texts ("cron" ∷ "scheduling" ∷ "automation" ∷ "linux" ∷ []);
  pack_source = some (codes "linux");
}

log_rotation_not_working : Runbook
log_rotation_not_working = record {
  title = codes "Log rotation not working";
  problem_pattern = codes "Log files growing unbounded, logrotate not functioning";
  symptoms = texts (
      "Log files in /var/log growing very large" ∷ "Disk space filling up from log accumulation"
      ∷ "No rotated log files (.1, .gz) present" ∷ []);
  steps =
      step "check" "ls -lh /var/log/*.log | sort -k5 -rh | head -10" "Find largest log files" green
      ∷ step "check" "cat /etc/logrotate.conf" "Check main logrotate config" green
      ∷ step "check" "ls /etc/logrotate.d/" "List per-service logrotate configs" green
      ∷ step "check" "logrotate -d /etc/logrotate.conf 2>&1 | tail -30"
          "Dry-run logrotate to find errors" green
      ∷ step "fix" "logrotate -f /etc/logrotate.conf" "Force logrotate run" yellow
      ∷ [];
  root_cause =
      some (codes "Missing logrotate config, permission issue, or logrotate not installed");
  verification = some (codes "Rotated log files (.1, .gz) appear, large log files shrink");
  tags = texts ("logs" ∷ "logrotate" ∷ "disk" ∷ "linux" ∷ []);
  pack_source = some (codes "linux");
}

unfoldable pub linux_seeds : List Runbook
unfolding disk_space_full high_cpu_usage oom_killer_triggered systemd_service_won_t_start
    cron_job_not_running log_rotation_not_working
linux_seeds =
    disk_space_full ∷ high_cpu_usage ∷ oom_killer_triggered ∷ systemd_service_won_t_start
    ∷ cron_job_not_running ∷ log_rotation_not_working ∷ []
