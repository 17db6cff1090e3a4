-- ===== src/Packs/Webserver.antt =====
-- packs/webserver/__init__.py: the runbooks that the pack seeds.
use silicon_valet.Prelude.{List, [], ◌∷◌, codes, some}
use silicon_valet.Risk.Classifier.{green, yellow}
use silicon_valet.Memory.Runbook.{Runbook, step, texts}

http_502_bad_gateway : Runbook
http_502_bad_gateway = record {
  title = codes "502 Bad Gateway";
  problem_pattern = codes "Web server returning 502 Bad Gateway errors";
  symptoms = texts (
      "Users see 502 Bad Gateway in browser" ∷ "Upstream backend is unreachable from the web server"
      ∷ "Error logs show 'upstream prematurely closed connection'" ∷ []);
  steps =
      step "check" "systemctl status nginx 2>/dev/null || systemctl status apache2"
        "Check web server status" green
      ∷ step "check"
          "tail -50 /var/log/nginx/error.log 2>/dev/null || tail -50 /var/log/apache2/error.log"
          "Check web server error logs" green
      ∷ step "check" "ss -tlnp | grep -E ':(80|443|8080|3000|8000)'"
          "Check if backend ports are listening" green
      ∷ step "check" "nginx -t 2>&1 || apachectl configtest 2>&1" "Test web server configuration"
          green
      ∷ step "fix" "systemctl restart nginx 2>/dev/null || systemctl restart apache2"
          "Restart web server" yellow
      ∷ [];
  root_cause =
      some (codes "Backend service crashed, port mismatch, or web server misconfiguration");
  verification = some (codes "curl -I http://localhost returns 200 OK");
  tags = texts ("webserver" ∷ "nginx" ∷ "apache" ∷ "502" ∷ "gateway" ∷ []);
  pack_source = some (codes "webserver");
}

ssl_certificate_expiring_or_expired : Runbook
ssl_certificate_expiring_or_expired = record {
  title = codes "SSL certificate expiring or expired";
  problem_pattern = codes "HTTPS not working due to expired or about-to-expire SSL certificate";
  symptoms = texts (
      "Browser shows certificate warning or error" ∷ "curl reports SSL certificate problem"
      ∷ "Certbot renewal failed" ∷ []);
  steps =
      step "check"
        "echo | openssl s_client -connect localhost:443 2>/dev/null | openssl x509 -noout -dates"
        "Check certificate expiry dates" green
      ∷ step "check" "ls -la /etc/letsencrypt/live/ 2>/dev/null" "List Let's Encrypt certificates"
          green
      ∷ step "check" "certbot certificates 2>/dev/null" "Check certbot certificate status" green
      ∷ step "check" "systemctl status certbot.timer 2>/dev/null" "Check auto-renewal timer" green
      ∷ step "fix" "certbot renew --dry-run" "Test certificate renewal" yellow
      ∷ [];
  root_cause = some (codes "Auto-renewal failed, certbot misconfigured, or DNS validation issue");
  verification = some (codes "openssl shows valid certificate with future expiry date");
  tags = texts ("ssl" ∷ "tls" ∷ "certificate" ∷ "https" ∷ "certbot" ∷ []);
  pack_source = some (codes "webserver");
}

web_server_config_test_failure : Runbook
web_server_config_test_failure = record {
  title = codes "Web server config test failure";
  problem_pattern = codes "Web server refuses to start or reload due to configuration error";
  symptoms = texts (
      "nginx -t or apachectl configtest reports errors"
      ∷ "Web server won't start after config change" ∷ "systemctl status shows 'failed'" ∷ []);
  steps =
      step "check" "nginx -t 2>&1 || apachectl configtest 2>&1" "Run config test to see exact error"
        green
      ∷ step "check"
          "ls -la /etc/nginx/sites-enabled/ 2>/dev/null || ls -la /etc/apache2/sites-enabled/"
          "List enabled sites" green
      ∷ step "check"
          "journalctl -u nginx --no-pager -n 30 2>/dev/null || journalctl -u apache2 --no-pager -n 30"
          "Check recent logs" green
      ∷ [];
  root_cause =
      some (codes "Syntax error in config file, missing included file, or duplicate server_name");
  verification = some (codes "nginx -t returns 'syntax is ok' and 'test is successful'");
  tags = texts ("webserver" ∷ "nginx" ∷ "apache" ∷ "config" ∷ []);
  pack_source = some (codes "webserver");
}

unfoldable pub webserver_seeds : List Runbook
unfolding http_502_bad_gateway ssl_certificate_expiring_or_expired web_server_config_test_failure
webserver_seeds =
    http_502_bad_gateway ∷ ssl_certificate_expiring_or_expired ∷ web_server_config_test_failure ∷ []
