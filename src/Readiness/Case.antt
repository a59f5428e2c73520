-- ===== src/Readiness/Case.antt =====
-- `verify_case`: one render of the chart against the contract.
pub mod Callers
use clavenar_charts.Base.{ℕ, ◌+◌, String, ◌<>◌, true, false, none, some}
use clavenar_charts.Base.{List, [], ◌∷◌, ◌==◌, if◌then◌else◌}
use clavenar_charts.Base.Lists.{subset}
use clavenar_charts.Base.Result.{Result, ok, ◌>>=◌, ◌>>◌, traverse}
use clavenar_charts.Value.{Value, null, str, dict, Fields, end, num}
use clavenar_charts.Value.Dict.{keys}
use clavenar_charts.Value.Equality.{py_eq, member}
use clavenar_charts.Value.Access.{item, item_path, each, hashed}
use clavenar_charts.Value.Print.{decimal}
use clavenar_charts.Value.Table.{Table, at, item_in}
use clavenar_charts.Readiness.Endpoint.{require, endpoint_port_path}
use clavenar_charts.Readiness.Contract.{applications}
use clavenar_charts.Readiness.Documents.{
  Render, render, env_map, deployment_map, service_map, network_policy_allows, verify_configmap,
}
use clavenar_charts.Readiness.Target.{target_url}
use clavenar_charts.Readiness.Application.{verify_applications}

-- `env.get(variable) == target_url(dependency, services, values)` for each pair, in order; `who` is
-- `case/name` and `words` what the error says of the URL.
unfoldable pub verify_urls :
    String → Table Value → Table Value → Value → List (String × String) → Result (Unit {0})
verify_urls who env services values [] = ok tt
verify_urls who env services values ((dependency, variable) ∷ rest) = do
  url ← target_url (str dependency) services values
  let actual : Value = elim (at (str variable) env) [ none ↦ null | some v ↦ v ]
  require (py_eq actual url) (who <> ": runtime readiness URL drift for " <> dependency)
  verify_urls who env services values rest

abbrev pub proxy_names : List (String × String)
proxy_names =
    ("brain", "CLAVENAR_BRAIN_READINESS_URL")
    ∷ ("policy-engine", "CLAVENAR_POLICY_READINESS_URL")
    ∷ ("hil", "CLAVENAR_HIL_READINESS_URL")
    ∷ ("ledger", "CLAVENAR_LEDGER_READINESS_URL")
    ∷ ("identity", "CLAVENAR_IDENTITY_READINESS_URL")
    ∷ ("upstream-stub", "CLAVENAR_UPSTREAM_READINESS_URL")
    ∷ []

-- The variables that the code spells from the dependency's name.
abbrev pub console_names : List (String × String)
console_names =
    ("brain", "CLAVENAR_CONSOLE_BRAIN_READINESS_URL")
    ∷ ("policy-engine", "CLAVENAR_CONSOLE_POLICY_READINESS_URL")
    ∷ ("ledger", "CLAVENAR_CONSOLE_LEDGER_READINESS_URL")
    ∷ ("hil", "CLAVENAR_CONSOLE_HIL_READINESS_URL")
    ∷ ("identity", "CLAVENAR_CONSOLE_IDENTITY_READINESS_URL")
    ∷ ("assurance", "CLAVENAR_CONSOLE_ASSURANCE_READINESS_URL")
    ∷ []

-- The runtime URLs in the environments of proxy, console and assurance.
unfoldable pub verify_runtime : String → Table Value → Value → Fields → Result (Unit {0})
verify_runtime case services values deployments = do
  proxy ← item (dict deployments) "proxy"
  proxy_env ← env_map proxy
  verify_urls (case <> "/proxy") proxy_env services values proxy_names
  console ← item (dict deployments) "console"
  console_env ← env_map console
  verify_urls (case <> "/console") console_env services values console_names
  require
      (elim (at (str "CLAVENAR_CONSOLE_SIMULATOR_READINESS_URL") console_env) [
        | none ↦ true
        | some _ ↦ false
      ])
      (case <> "/console: Compose-only Simulator must be omitted")
  assurance ← item (dict deployments) "assurance"
  assurance_env ← env_map assurance
  url ← target_url (str "proxy") services values
  let actual : Value = elim (at (str "CLAVENAR_ASSURANCE_PROXY_READINESS_URL") assurance_env) [
    | none ↦ null
    | some v ↦ v
  ]
  require (py_eq actual url) (case <> "/assurance: Proxy readiness URL drift")

-- `{item["port"] for item in service["spec"]["ports"]}`
unfoldable pub published_ports : Value → Result (List Value)
published_ports service = do
  raw ← item_path service ("spec" ∷ "ports" ∷ [])
  specs ← each raw
  traverse (λ spec. item spec "port" >>= λ p. hashed p) specs

-- The port of the readiness target of a service of the contract.
unfoldable pub ready_port : Table Value → String → Result ℕ
ready_port services name = do
  service ← item_in (str name) services
  target ← item_path service ("readiness" ∷ "target" ∷ [])
  (port, _) ← endpoint_port_path target
  ok port

unfoldable pub verify_ports : String → Table Value → Table Value → List String → Result (Unit {0})
verify_ports case services rendered_services [] = ok tt
verify_ports case services rendered_services (destination ∷ destinations) = do
  port ← ready_port services destination
  service ← item_in (str ("readiness-" <> destination)) rendered_services
  ports ← published_ports service
  require (member ports (num port))
      (case <> "/" <> destination <> ": readiness Service port " <> decimal port <> " is missing")
  verify_ports case services rendered_services destinations

abbrev pub bundled_callers : List (String × String)
bundled_callers =
    ("nats", "identity")
    ∷ ("vault", "identity")
    ∷ ("identity", "brain")
    ∷ ("brain", "proxy")
    ∷ ("policy-engine", "proxy")
    ∷ ("ledger", "proxy")
    ∷ ("hil", "proxy")
    ∷ ("proxy", "assurance")
    ∷ ("assurance", "console")
    ∷ ("upstream-stub", "proxy")
    ∷ []

unfoldable pub verify_callers :
    List Value → Table Value → List (String × String) → Result (Unit {0})
verify_callers documents services [] = ok tt
verify_callers documents services ((destination, caller) ∷ rest) = do
  port ←
      (if destination == "nats"
        then ok 8222
        else if destination == "vault"
        then ok 8200
        else ready_port services destination)
  allowed ← network_policy_allows documents destination port caller
  require allowed ("bundled/" <> destination <> ": readiness caller " <> caller <> " is denied")
  verify_callers documents services rest

-- The checks that only the bundled render has.
unfoldable pub verify_bundled : List Value → Table Value → Table Value → Result ℕ
verify_bundled documents services rendered_services = do
  nats ← item_in (str "readiness-nats") rendered_services
  ports ← published_ports nats
  require (member ports (num 8222)) "bundled/NATS: monitoring Service port is missing"
  verify_callers documents services bundled_callers
  ok 11

-- The number of checks of a case, from its render and its values.
unfoldable pub verify_case :
    String → Render → Value → Table Value → List (String × String) → Result ℕ
verify_case case output values services files = do
  documents ← render output
  deployments ← deployment_map end documents
  rendered_services ← service_map documents
  configmap_checks ← verify_configmap documents files
  require (subset applications (keys deployments)) (case <> ": missing application Deployment")
  application_checks ← verify_applications case services values deployments applications
  verify_runtime case services values deployments
  verify_ports case services rendered_services
      ("brain" ∷ "policy-engine" ∷ "ledger" ∷ "hil" ∷ "identity" ∷ "proxy" ∷ "assurance" ∷ [])
  let checks = configmap_checks + application_checks + 14 + 7
  if case == "bundled"
      then (verify_bundled documents services rendered_services >>= λ more. ok (checks + more))
      else ok checks
