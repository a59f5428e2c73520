-- ===== src/Listener/Console.antt =====
-- `validate_console_contract`: listeners, environment, probes and Secrets of the rendered console.
pub mod Environment
pub mod Trust
pub mod Governed
pub mod Accepted
use clavenar_charts.Base.{String, ◌<>◌, Bool, not, List, [], ◌∷◌, ◌++◌, if◌then◌else◌}
use clavenar_charts.Base.Lists.{length, is_empty}
use clavenar_charts.Base.Result.{Result, ok, ◌>>=◌, keep_if}
use clavenar_charts.Value.{Value, str, dict, Fields, end, field, num, ◌▸◌}
use clavenar_charts.Value.Equality.{py_eq}
use clavenar_charts.Value.Access.{truthy, get, hashed}
use clavenar_charts.Value.Print.{text_of, decimal}
use clavenar_charts.Value.Table.{Table}
use clavenar_charts.Listener.Values.{value_at}
use clavenar_charts.Listener.Errors.{refuse, ◌<+>◌}
use clavenar_charts.Listener.Rendered.{is_document, get_path}
use clavenar_charts.Listener.Workload.{containers_named, ports_errors, probes_errors}
use clavenar_charts.Listener.Console.Environment.{console_env_errors}
use clavenar_charts.Listener.Console.Trust.{secret_errors}

-- The name of the port 8085 in each authentication mode.
unfoldable pub primary_port_name : Value → String
primary_port_name mode =
    if py_eq mode (str "operator-mtls")
    then "operator-mtls"
    else if py_eq mode (str "webauthn")
    then "passkey"
    else if py_eq mode (str "demo-only")
    then "demo"
    else "invalid"

-- `expected_ports`
unfoldable pub console_ports : Value → Value → Table Value
console_ports values mode =
    (str (primary_port_name mode), num 8085)
    ∷ (str "diagnostics", num 9185)
    ∷ (if truthy (value_at values "services.console.demo.enabled")
        then (str "demo", num 9085) ∷ []
        else [])

unfoldable pub console_ports_errors : Value → Value → Result (List String)
console_ports_errors values container = do
  mode ← hashed (value_at values "services.console.auth.mode")
  ports_errors "console" (console_ports values mode) container

abbrev pub expected_scrape : Fields
expected_scrape =
    ("prometheus.io/scrape", str "true")
    ▸ ("prometheus.io/path", str "/metrics")
    ▸ ("prometheus.io/port", str "9185")
    ▸ end

-- `{key: annotations.get(key) for key in expected_scrape}`
unfoldable pub chosen_annotations : Fields → Value → Result Fields
chosen_annotations end annotations = ok end
chosen_annotations (field key _ wanted) annotations = do
  value ← get annotations key
  rest ← chosen_annotations wanted annotations
  ok (field key value rest)

unfoldable pub scrape_errors : Value → Result (List String)
scrape_errors deployment = do
  annotations ← get_path deployment ("spec" ∷ "template" ∷ "metadata" ∷ "annotations" ∷ [])
  actual ← chosen_annotations expected_scrape annotations
  refuse (not (py_eq (dict actual) (dict expected_scrape))) (
      "console Prometheus annotations "
      <> text_of (dict actual)
      <> " != "
      <> text_of (dict expected_scrape))

-- The errors about the console's containers, of which there must be one.
unfoldable pub console_container_errors :
    Value → String → Value → Value → Value → List Value → Result (List String)
console_container_errors values release app_version deployment pod_spec (container ∷ []) =
    console_ports_errors values container
    <+> console_env_errors values release app_version container
    <+> probes_errors "console" " must use diagnostics " 9185 container
    <+> scrape_errors deployment
    <+> secret_errors values pod_spec container
console_container_errors values release app_version deployment pod_spec containers = ok (
    ("console Deployment must contain exactly one console container; found "
      <> decimal (length containers))
    ∷ [])

-- The errors about the console's Deployments, of which there must be one.
unfoldable pub console_errors : Value → String → Value → List Value → Result (List String)
console_errors values release app_version (deployment ∷ []) = do
  pod_spec ← get_path deployment ("spec" ∷ "template" ∷ "spec" ∷ [])
  containers ← containers_named "console" pod_spec
  console_container_errors values release app_version deployment pod_spec containers
console_errors values release app_version deployments =
    ok (("console must render exactly one Deployment; found " <> decimal (length deployments)) ∷ [])

-- `app_version` is `None` where no chart version is given.
unfoldable pub validate_console_contract :
    Value → List Value → String → Value → Result (List String)
validate_console_contract values docs release app_version = do
  deployments ← keep_if (is_document "Deployment" (release <> "-console")) docs
  if not (truthy (value_at values "services.console.enabled"))
      then refuse (not (is_empty deployments))
          "console Deployment rendered while services.console.enabled=false"
      else console_errors values release app_version deployments
