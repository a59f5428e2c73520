-- ===== src/Readiness/Application.antt =====
-- The round of `verify_case` for one application: its probes, its annotations and its startup gate.
pub mod Gate
pub mod Probes
use clavenar_charts.Base.{Option, none, some, ℕ, ◌+◌, String, ◌<>◌, false, not}
use clavenar_charts.Base.{List, [], ◌∷◌, ◌==◌, if◌then◌else◌}
use clavenar_charts.Base.Lists.{length, is_empty}
use clavenar_charts.Base.Result.{Result, ok, raise, ◌>>=◌, ◌>>◌, readiness_error, find_of}
use clavenar_charts.Value.{Value, str, dict, Fields, end, list, num, ◌▸◌}
use clavenar_charts.Value.Equality.{py_eq}
use clavenar_charts.Value.Access.{get_or, item, item_path, first, each, is_in}
use clavenar_charts.Value.Print.{text_of}
use clavenar_charts.Value.Table.{Table, item_in}
use clavenar_charts.Readiness.Endpoint.{require, endpoint_port_path}
use clavenar_charts.Readiness.Contract.{helm_dependencies}
use clavenar_charts.Readiness.Target.{target_url}

abbrev http_get : ℕ → String → Value
http_get port path = dict (("path", str path) ▸ ("port", num port) ▸ end)

-- Each edge of the startup order is in the script of the gate. `scope` is `case/name`.
unfoldable pub verify_edges : String → Value → Table Value → Value → List Value → Result (Unit {0})
verify_edges scope script services values [] = ok tt
verify_edges scope script services values (dependency ∷ dependencies) = do
  url ← target_url dependency services values
  present ← is_in url script
  require present (scope <> ": startup edge " <> text_of dependency <> " is missing")
  verify_edges scope script services values dependencies

-- `next((… for item in initContainers if …), None)`
abbrev pub gate_of : List Value → Result (Option Value)
gate_of containers =
    find_of
      (λ container. item container "name" >>= λ n. ok (py_eq n (str "dependency-readiness-gate")))
      containers

abbrev pub gate_or_fail : String → Option Value → Result Value
gate_or_fail scope none = raise (readiness_error (scope <> ": startup gate is missing"))
gate_or_fail scope (some container) = ok container

-- The init container that waits for the dependencies.
unfoldable pub verify_gate : String → Value → Table Value → Value → List Value → Result (Unit {0})
verify_gate scope pod services values dependencies = do
  spec ← item pod "spec"
  raw ← get_or spec "initContainers" (list [])
  containers ← each raw
  found ← gate_of containers
  gate ← gate_or_fail scope found
  arguments ← item gate "args"
  script ← first arguments
  bounded ← is_in (str "wget -q -T 2 -O /dev/null") script
  require bounded (scope <> ": probe timeout drift")
  limited ← is_in (str "\"$attempt\" -ge 30") script
  require limited (scope <> ": failure threshold drift")
  verify_edges scope script services values dependencies

-- The probes of the container are the targets of the contract, on two paths.
unfoldable pub verify_probes : String → Value → Value → Result (Unit {0})
verify_probes scope contract container = do
  live_target ← item_path contract ("liveness" ∷ "target" ∷ [])
  (live_port, live_path) ← endpoint_port_path live_target
  ready_target ← item_path contract ("readiness" ∷ "target" ∷ [])
  (ready_port, ready_path) ← endpoint_port_path ready_target
  live_probe ← item_path container ("livenessProbe" ∷ "httpGet" ∷ [])
  require (py_eq live_probe (http_get live_port live_path)) (scope <> ": liveness probe drift")
  ready_probe ← item_path container ("readinessProbe" ∷ "httpGet" ∷ [])
  require (py_eq ready_probe (http_get ready_port ready_path)) (scope <> ": readiness probe drift")
  require (not (live_path == ready_path)) (scope <> ": liveness aliases readiness")

unfoldable pub verify_annotations : String → Value → Result (Unit {0})
verify_annotations scope pod = do
  annotations ← item_path pod ("metadata" ∷ "annotations" ∷ [])
  with_schema ← is_in (str "checksum/dependency-readiness-schema") annotations
  with_both ←
      (if with_schema
        then is_in (str "checksum/dependency-readiness-fixture") annotations
        else ok false)
  require with_both (scope <> ": readiness contract checksum is missing")

-- The number of checks made for the application.
unfoldable pub verify_application : String → Table Value → Value → Fields → String → Result ℕ
verify_application case services values deployments name = do
  let scope = case <> "/" <> name
  contract ← item_in (str name) services
  deployment ← item (dict deployments) name
  pod ← item_path deployment ("spec" ∷ "template" ∷ [])
  containers ← item_path pod ("spec" ∷ "containers" ∷ [])
  container ← first containers
  verify_probes scope contract container
  verify_annotations scope pod
  dependencies ← helm_dependencies contract
  if is_empty dependencies
      then ok 5
      else do verify_gate scope pod services values dependencies; ok (5 + length dependencies)

-- The applications in order.
unfoldable pub verify_applications : String → Table Value → Value → Fields → List String → Result ℕ
verify_applications case services values deployments [] = ok 0
verify_applications case services values deployments (name ∷ names) = do
  here ← verify_application case services values deployments name
  later ← verify_applications case services values deployments names
  ok (here + later)
