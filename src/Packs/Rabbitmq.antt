-- ===== src/Packs/Rabbitmq.antt =====
-- packs/rabbitmq/__init__.py: the runbooks that the pack seeds.
use silicon_valet.Prelude.{List, [], ◌∷◌, codes, some}
use silicon_valet.Risk.Classifier.{green, yellow}
use silicon_valet.Memory.Runbook.{Runbook, step, texts}

rabbitmq_queue_backlog_growing : Runbook
rabbitmq_queue_backlog_growing = record {
  title = codes "RabbitMQ queue backlog growing";
  problem_pattern = codes "Messages accumulating in queue faster than consumers process them";
  symptoms = texts (
      "Queue depth increasing over time" ∷ "Consumer processing latency increasing"
      ∷ "Memory usage on RabbitMQ node rising" ∷ []);
  steps =
      step "check" "rabbitmqctl list_queues name messages consumers"
        "List queues with message count and consumer count" green
      ∷ step "check" "rabbitmqctl list_connections" "Check active connections" green
      ∷ step "check" "rabbitmqctl status" "Check RabbitMQ node health" green
      ∷ step "check" "free -h" "Check available memory" green
      ∷ [];
  root_cause =
      some (
        codes
          "Consumer is down, slow, or disconnected; or producer rate exceeds consumer capacity");
  verification = some (codes "Queue depth is stable or decreasing");
  tags = texts ("rabbitmq" ∷ "queues" ∷ "backlog" ∷ []);
  pack_source = some (codes "rabbitmq");
}

rabbitmq_node_not_starting : Runbook
rabbitmq_node_not_starting = record {
  title = codes "RabbitMQ node not starting";
  problem_pattern = codes "RabbitMQ server fails to start";
  symptoms = texts (
      "systemctl status rabbitmq-server shows failed" ∷ "Port 5672 not listening"
      ∷ "AMQP connections refused" ∷ []);
  steps =
      step "check" "systemctl status rabbitmq-server" "Check service status" green
      ∷ step "check" "journalctl -u rabbitmq-server --since '10 min ago'" "Check recent logs" green
      ∷ step "check" "cat /etc/rabbitmq/rabbitmq.conf 2>/dev/null || echo 'No config file'"
          "Check configuration" green
      ∷ step "check" "ls -la /var/lib/rabbitmq/mnesia/" "Check database directory" green
      ∷ step "fix" "systemctl restart rabbitmq-server" "Restart RabbitMQ" yellow
      ∷ [];
  root_cause = some (codes "Erlang cookie mismatch, Mnesia database corruption, or config error");
  verification = some (codes "rabbitmqctl status returns healthy node status");
  tags = texts ("rabbitmq" ∷ "startup" ∷ "server" ∷ []);
  pack_source = some (codes "rabbitmq");
}

unfoldable pub rabbitmq_seeds : List Runbook
unfolding rabbitmq_queue_backlog_growing rabbitmq_node_not_starting
rabbitmq_seeds = rabbitmq_queue_backlog_growing ∷ rabbitmq_node_not_starting ∷ []
