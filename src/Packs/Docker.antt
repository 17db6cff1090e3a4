-- ===== src/Packs/Docker.antt =====
-- packs/docker/__init__.py: the runbooks that the pack seeds.
use silicon_valet.Prelude.{List, [], ◌∷◌, codes, some}
use silicon_valet.Risk.Classifier.{green, yellow}
use silicon_valet.Memory.Runbook.{Runbook, step, texts}

docker_container_won_t_start : Runbook
docker_container_won_t_start = record {
  title = codes "Docker container won't start";
  problem_pattern = codes "Docker container fails to start or keeps restarting";
  symptoms = texts (
      "docker ps shows container in 'Restarting' or 'Exited' state"
      ∷ "docker logs shows errors on startup" ∷ "Application not accessible on expected port" ∷ []);
  steps =
      step "check" "docker ps -a --format 'table {{.Names}}\t{{.Status}}\t{{.Ports}}'"
        "List all containers with status" green
      ∷ step "check" "docker logs --tail 50 {container_name}" "Check container logs" green
      ∷ step "check" "docker inspect {container_name} | head -80" "Inspect container configuration"
          green
      ∷ step "check"
          "docker events --since 10m --filter container={container_name} 2>/dev/null | tail -20"
          "Check recent Docker events" green
      ∷ step "fix" "docker restart {container_name}" "Restart the container" yellow
      ∷ [];
  root_cause = some (
      codes "Missing environment variables, wrong image tag, port conflict, or volume mount issue");
  verification = some (codes "docker ps shows container in 'Up' state");
  tags = texts ("docker" ∷ "container" ∷ "startup" ∷ "restart" ∷ []);
  pack_source = some (codes "docker");
}

docker_disk_space_from_images : Runbook
docker_disk_space_from_images = record {
  title = codes "Docker disk space from images";
  problem_pattern = codes "Docker images and build cache consuming excessive disk space";
  symptoms = texts (
      "df -h shows /var/lib/docker using significant space"
      ∷ "docker pull fails with 'no space left'" ∷ "Build cache growing unbounded" ∷ []);
  steps =
      step "check" "docker system df" "Show Docker disk usage breakdown" green
      ∷ step "check"
          "docker images --format 'table {{.Repository}}\t{{.Tag}}\t{{.Size}}' | sort -k3 -rh | head -20"
          "List largest images" green
      ∷ step "check" "docker volume ls -q | wc -l" "Count Docker volumes" green
      ∷ step "fix" "docker image prune -f" "Remove dangling images" yellow
      ∷ step "fix" "docker system prune -f"
          "Clean up unused containers, networks, and dangling images" yellow
      ∷ [];
  root_cause = some (codes "Accumulated old images, unused containers, or build cache not cleaned");
  verification = some (codes "docker system df shows reduced space usage");
  tags = texts ("docker" ∷ "disk" ∷ "images" ∷ "cleanup" ∷ []);
  pack_source = some (codes "docker");
}

docker_container_networking_issue : Runbook
docker_container_networking_issue = record {
  title = codes "Docker container networking issue";
  problem_pattern = codes "Containers cannot communicate with each other or the host";
  symptoms = texts (
      "Container cannot reach another container by name" ∷ "Port forwarding not working"
      ∷ "DNS resolution failing inside container" ∷ []);
  steps =
      step "check" "docker network ls" "List Docker networks" green
      ∷ step "check" "docker network inspect bridge" "Inspect default bridge network" green
      ∷ step "check" "docker exec {container_name} cat /etc/resolv.conf 2>/dev/null"
          "Check DNS config inside container" green
      ∷ step "check" "iptables -L -n | head -30 2>/dev/null" "Check iptables rules affecting Docker"
          green
      ∷ [];
  root_cause =
      some (
        codes "Containers on different networks, DNS resolver misconfigured, or iptables blocking");
  verification = some (codes "Containers can resolve and reach each other by name");
  tags = texts ("docker" ∷ "networking" ∷ "dns" ∷ "bridge" ∷ []);
  pack_source = some (codes "docker");
}

unfoldable pub docker_seeds : List Runbook
unfolding docker_container_won_t_start docker_disk_space_from_images
    docker_container_networking_issue
docker_seeds =
    docker_container_won_t_start ∷ docker_disk_space_from_images ∷ docker_container_networking_issue
    ∷ []
