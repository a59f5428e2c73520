-- ===== src/Listener/Validate/Workloads/Probes.antt =====
-- The probes of a workload against the active listeners of its service.
use clavenar_charts.Base.{
  String, ◌<>◌, Bool, false, not, Option, none, some, List, [], ◌∷◌, if◌then◌else◌,
}
use clavenar_charts.Base.Lists.{is_empty}
use clavenar_charts.Base.Result.{Result, ok, ◌>>=◌, keep_if, gather, any_of}
use clavenar_charts.Value.{Value, bool, int, str, dict, end, list}
use clavenar_charts.Value.Equality.{py_eq}
use clavenar_charts.Value.Access.{truthy, get, get_or, item, each, or_else, is_in, hashed}
use clavenar_charts.Value.Number.{to_int, is_digits}
use clavenar_charts.Value.Print.{text_of, repr}
use clavenar_charts.Value.Table.{Table, at}
use clavenar_charts.Listener.Errors.{refuse}

-- `container.get("ports", []) or []`
unfoldable pub ports_of : Value → Result (List Value)
ports_of container = get_or container "ports" (list []) >>= λ raw. each (or_else raw (list []))

-- The entry of a port that has a name and a number.
unfoldable pub named_port : Value → Result (Table Value)
named_port port = do
  raw_name ← get port "name"
  if not (truthy raw_name) then ok [] else do
    numbered ← is_in (str "containerPort") port
    if not numbered then ok [] else do
      raw ← item port "containerPort"
      number ← to_int raw
      name ← hashed raw_name
      ok ((name, int number) ∷ [])

-- `named_ports.get(port)`
unfoldable pub named_at : Table Value → Value → Result (Option Value)
named_at named port = hashed port >>= λ key. ok (at key named)

-- The number of the port that a probe names; `none` is `None`. A `bool` is an `int`.
unfoldable pub resolved_port : Table Value → Value → Result (Option Value)
resolved_port named (int n) = ok (some (int n))
resolved_port named (bool b) = ok (some (bool b))
resolved_port named (str s) =
    if is_digits s then (to_int (str s) >>= λ n. ok (some (int n))) else named_at named (str s)
resolved_port named port = named_at named port

-- The listener is one of the service at the port.
unfoldable pub is_listening : Value → Value → Value → Result Bool
is_listening service port listener = do
  s ← item listener "service"
  if not (py_eq s service)
      then ok false
      else do raw ← item listener "containerPort"; number ← to_int raw; ok (py_eq (int number) port)

-- `"kubelet" in (listener.get("authorizedCallers") or [])`
unfoldable pub admits_kubelet : Value → Result Bool
admits_kubelet listener = do
  raw ← get listener "authorizedCallers"
  is_in (str "kubelet") (or_else raw (list []))

-- The listeners at the port of a probe: there is one, and one admits the kubelet.
unfoldable pub listening_errors : String → Value → List Value → Result (List String)
listening_errors what port listeners =
    if is_empty listeners
    then ok ((what <> " port " <> text_of port <> " has no active listener") ∷ [])
    else (any_of admits_kubelet listeners >>= λ admitted.
        refuse (not admitted)
          (what <> " port " <> text_of port <> " is not authorized for kubelet"))

-- The errors about one probe of a container, if it is an HTTP probe.
unfoldable pub probe_target_errors :
    String → List Value → Value → Value → Table Value → String → Result (List String)
probe_target_errors who active service container named probe = do
  raw ← get container probe
  http ← get (or_else raw (dict end)) "httpGet"
  if not (truthy http) then ok [] else do
    port ← get http "port"
    resolved ← resolved_port named port
    elim resolved [
      | none ↦ ok ((who <> " " <> probe <> " has unresolved HTTP port " <> repr port) ∷ [])
      | some number ↦ keep_if (is_listening service number) active >>= λ listeners.
          listening_errors (who <> " " <> probe) number listeners
    ]

unfoldable pub container_probe_errors : String → List Value → Value → Value → Result (List String)
container_probe_errors who active service container = do
  ports ← ports_of container
  named ← gather named_port ports
  gather (probe_target_errors who active service container named)
      ("startupProbe" ∷ "livenessProbe" ∷ "readinessProbe" ∷ [])

-- The errors about the probes of a workload, for one service that it matches.
unfoldable pub probe_errors_of : String → List Value → Value → Value → Result (List String)
probe_errors_of who active pod_spec service = do
  raw ← get_or pod_spec "containers" (list [])
  containers ← each (or_else raw (list []))
  gather (container_probe_errors who active service) containers
