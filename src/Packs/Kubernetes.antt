-- ===== src/Packs/Kubernetes.antt =====
-- packs/kubernetes/__init__.py: the runbooks that the pack seeds.
use silicon_valet.Prelude.{List, [], ◌∷◌, codes, some}
use silicon_valet.Risk.Classifier.{green}
use silicon_valet.Memory.Runbook.{Runbook, step, texts}

pod_stuck_in_crashloopbackoff : Runbook
pod_stuck_in_crashloopbackoff = record {
  title = codes "Pod stuck in CrashLoopBackOff";
  problem_pattern = codes "Pod keeps crashing and restarting in CrashLoopBackOff state";
  symptoms = texts (
      "kubectl get pods shows CrashLoopBackOff status" ∷ "Pod restart count increasing"
      ∷ "Application not accessible" ∷ []);
  steps =
      step "check" "kubectl get pods -A | grep -i crash" "Find crashing pods" green
      ∷ step "check" "kubectl describe pod {pod_name} -n {namespace}" "Get pod events and details"
          green
      ∷ step "check" "kubectl logs {pod_name} -n {namespace} --previous"
          "Check previous container logs" green
      ∷ step "check" "kubectl get events -n {namespace} --sort-by=.lastTimestamp"
          "Check recent events" green
      ∷ [];
  root_cause =
      some
        (codes "Application crash, missing config/secrets, resource limits, or image pull failure");
  verification = some (codes "Pod reaches Running state and stays running for >5 minutes");
  tags = texts ("kubernetes" ∷ "pods" ∷ "crashloop" ∷ []);
  pack_source = some (codes "kubernetes");
}

node_resource_pressure : Runbook
node_resource_pressure = record {
  title = codes "Node resource pressure";
  problem_pattern = codes "Node showing memory or disk pressure, pods being evicted";
  symptoms = texts (
      "kubectl describe node shows MemoryPressure or DiskPressure"
      ∷ "Pods being evicted from the node" ∷ "New pods stuck in Pending state" ∷ []);
  steps =
      step "check" "kubectl top nodes" "Check node resource usage" green
      ∷ step "check" "kubectl describe node {node_name} | grep -A5 Conditions"
          "Check node conditions" green
      ∷ step "check" "kubectl top pods -A --sort-by=memory" "Find memory-hungry pods" green
      ∷ step "check" "df -h" "Check disk usage" green
      ∷ [];
  root_cause = some (codes "Insufficient resources on the node for running workloads");
  verification = some (codes "Node conditions show no pressure warnings");
  tags = texts ("kubernetes" ∷ "resources" ∷ "pressure" ∷ "eviction" ∷ []);
  pack_source = some (codes "kubernetes");
}

unfoldable pub kubernetes_seeds : List Runbook
unfolding pod_stuck_in_crashloopbackoff node_resource_pressure
kubernetes_seeds = pod_stuck_in_crashloopbackoff ∷ node_resource_pressure ∷ []
