-- ===== src/Tools/Kubernetes.antt =====
-- tools/kubernetes.py and tools/network.py: tools that build a command and hand it to the risk
-- engine. A tool's parameters are taken as parsed; its reply is the dict that it prints as JSON.
pub mod Asked
use silicon_valet.Prelude.{
  ℕ, Bool, Option, none, some, ◌++◌, Text, codes, strip, nonempty, map, to_upper, is_empty, not,
  ◌&&◌, if◌then◌else◌,
}
use silicon_valet.Prelude.Int.{ℤ, is_zero, decimal}
use silicon_valet.Risk.Engine.{Result, Host, Callback, ExecutionResult, Machine, execute}
use silicon_valet.Tools.Filesystem.{OutputReply, output_reply, map_result, exec_via_risk}

-- ` {flag} {value}`, if the value is given
unfoldable pub option_of : Text → Option Text → Text
option_of flag none = codes ""
option_of flag (some v) = if nonempty v then codes " " ++ (flag ++ (codes " " ++ v)) else codes ""

abbrev name_part : Option Text → Text
name_part none = codes ""
name_part (some v) = if nonempty v then codes " " ++ v else codes ""

abbrev scope : Option Text → Text
scope none = codes " -A"
scope (some v) = if nonempty v then codes " -n " ++ v else codes " -A"

unfoldable pub get_command : Text → Option Text → Option Text → Text
get_command resource name namespace =
    codes "kubectl get " ++ (resource ++ (name_part name ++ scope namespace))

unfoldable pub describe_command : Text → Text → Option Text → Text
unfolding option_of
describe_command resource name namespace =
    codes "kubectl describe "
    ++ (resource ++ (codes " " ++ (name ++ option_of (codes "-n") namespace)))

unfoldable pub logs_command : Text → Option Text → ℕ → Option Text → Text
unfolding option_of
logs_command pod namespace lines container =
    codes "kubectl logs "
    ++ (pod
        ++ (codes " --tail="
            ++ (decimal lines
                ++ (option_of (codes "-n") namespace ++ option_of (codes "-c") container))))

unfoldable pub apply_command : Text → Text
apply_command path = codes "kubectl apply -f " ++ path

unfoldable pub delete_command : Text → Text → Option Text → Text
unfolding option_of
delete_command resource name namespace =
    codes "kubectl delete "
    ++ (resource ++ (codes " " ++ (name ++ option_of (codes "-n") namespace)))

unfoldable pub scale_command : Text → ℕ → Option Text → Text
unfolding option_of
scale_command deployment replicas namespace =
    codes "kubectl scale deployment "
    ++ (deployment
        ++ (codes " --replicas=" ++ (decimal replicas ++ option_of (codes "-n") namespace)))

pub record ChangeReply : Type 0 where
  pub output : Text
  pub stderr : Text
  pub return_code : ℤ

abbrev change_reply : ExecutionResult → ChangeReply
change_reply r = record { output = r.stdout; stderr = r.stderr; return_code = r.return_code }

unfoldable pub ping_command : ℕ → Text → Text
ping_command count host = codes "ping -c " ++ (decimal count ++ (codes " " ++ host))

-- The host is not looked at: the command asks the own machine.
unfoldable pub port_command : Text → ℕ → Text
port_command host port = codes "ss -tlnp | grep :" ++ decimal port

unfoldable pub dns_command : Text → Text → Text
dns_command domain record_type =
    codes "dig " ++ (domain ++ (codes " " ++ (record_type ++ codes " +short")))

unfoldable pub curl_command : Text → Text → Text
unfolding to_upper
curl_command method url =
    codes "curl -s -o /dev/null -w '%{http_code}' -X "
    ++ (map to_upper method ++ (codes " " ++ url))

unfoldable pub trace_command : Text → Text
trace_command host = codes "traceroute -m 15 " ++ host

pub record NetworkReply : Type 0 where
  pub output : Text
  pub success : Bool

abbrev network_reply : ExecutionResult → NetworkReply
network_reply r = record { output = r.stdout; success = is_zero r.return_code }

abbrev port_reply : ExecutionResult → NetworkReply
port_reply r = record {
  output = strip r.stdout;
  success = is_zero r.return_code && not (is_empty (strip r.stdout));
}

abbrev curl_reply : ExecutionResult → NetworkReply
curl_reply r = record { output = strip r.stdout; success = is_zero r.return_code }

abbrev dns_reply : ExecutionResult → Text
dns_reply r = strip r.stdout

module _ {W : Type 0} (host : Host W) (callback : Option (Callback W)) where
  -- a command through the engine, and a reply made of its result
  abbrev through : {R : Type 0} → (ExecutionResult → R) → Text → Machine W → Result R × Machine W
  through reply command m =
      let (r, m') = exec_via_risk host callback command m in (map_result reply r, m')

  unfoldable pub kubectl_get :
      Text → Option Text → Option Text → Machine W → Result OutputReply × Machine W
  unfolding get_command
  kubectl_get resource name namespace = through output_reply (get_command resource name namespace)

  unfoldable pub kubectl_describe :
      Text → Text → Option Text → Machine W → Result OutputReply × Machine W
  unfolding describe_command
  kubectl_describe resource name namespace =
      through output_reply (describe_command resource name namespace)

  unfoldable pub kubectl_logs :
      Text → Option Text → ℕ → Option Text → Machine W → Result OutputReply × Machine W
  unfolding logs_command
  kubectl_logs pod namespace lines container =
      through output_reply (logs_command pod namespace lines container)

  unfoldable pub kubectl_apply : Text → Machine W → Result ChangeReply × Machine W
  unfolding apply_command
  kubectl_apply path = through change_reply (apply_command path)

  unfoldable pub kubectl_delete :
      Text → Text → Option Text → Machine W → Result ChangeReply × Machine W
  unfolding delete_command
  kubectl_delete resource name namespace =
      through change_reply (delete_command resource name namespace)

  unfoldable pub kubectl_scale : Text → ℕ → Option Text → Machine W → Result OutputReply × Machine W
  unfolding scale_command
  kubectl_scale deployment replicas namespace =
      through output_reply (scale_command deployment replicas namespace)

  unfoldable pub ping_host : ℕ → Text → Machine W → Result NetworkReply × Machine W
  unfolding ping_command
  ping_host count target = through network_reply (ping_command count target)

  unfoldable pub check_port : Text → ℕ → Machine W → Result NetworkReply × Machine W
  unfolding port_command strip
  check_port target port = through port_reply (port_command target port)

  unfoldable pub dns_lookup : Text → Text → Machine W → Result Text × Machine W
  unfolding dns_command strip
  dns_lookup domain record_type = through dns_reply (dns_command domain record_type)

  unfoldable pub curl_request : Text → Text → Machine W → Result NetworkReply × Machine W
  unfolding curl_command strip
  curl_request method url = through curl_reply (curl_command method url)

  unfoldable pub trace_route : Text → Machine W → Result NetworkReply × Machine W
  unfolding trace_command
  trace_route target = through network_reply (trace_command target)
