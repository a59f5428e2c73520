-- ===== src/Listener/Brain.antt =====
-- `validate_brain_auxiliary_contract`: the rendered brain and the clients that call it.
pub mod Accepted
use clavenar_charts.Base.{String, ◌<>◌, Bool, false, not, ◌&&◌, List, [], ◌∷◌, if◌then◌else◌}
use clavenar_charts.Base.Lists.{length, is_empty, filter}
use clavenar_charts.Base.Result.{Result, ok, ◌>>=◌, keep_if, traverse}
use clavenar_charts.Value.{Value, str, dict, Fields, end, list, num, ◌▸◌, texts}
use clavenar_charts.Value.Dict.{keys, insert}
use clavenar_charts.Value.Equality.{py_eq, member}
use clavenar_charts.Value.Access.{truthy, get, get_or, item_path, first, each, hashed}
use clavenar_charts.Value.Print.{text_of, decimal}
use clavenar_charts.Value.Sort.{sort_texts}
use clavenar_charts.Value.Table.{Table}
use clavenar_charts.Listener.Values.{value_at}
use clavenar_charts.Listener.Errors.{refuse, refuse_if, ◌<+>◌}
use clavenar_charts.Listener.Rendered.{is_document, get_path}
use clavenar_charts.Listener.Workload.{
  containers_named, ports_errors, env_entries, env_names, governed_env, not_once, once_errors,
  drift_errors, probes_errors,
}
use clavenar_charts.Listener.Assurance.{value_text}

abbrev pub brain_ports : Table Value
brain_ports = (str "http", num 8081) ∷ (str "health", num 9081) ∷ []

-- `governed_env`
unfoldable pub brain_env : Value → Fields
unfolding insert
brain_env values =
    let base =
      ("CLAVENAR_BRAIN_REQUIRE_AUX_CONTROLS", str "true")
      ▸ (
        "CLAVENAR_BRAIN_EXPLAIN_CALLER_SPIFFE",
        value_text values "services.brain.explainCallerSpiffe",
      )
      ▸ (
        "CLAVENAR_BRAIN_NARRATE_CALLER_SPIFFE",
        value_text values "services.brain.narrateCallerSpiffe",
      )
      ▸ (
        "CLAVENAR_BRAIN_EXPLAIN_RATE_LIMIT_PER_MINUTE",
        value_text values "services.brain.explainRateLimitPerMinute",
      )
      ▸ (
        "CLAVENAR_BRAIN_NARRATE_RATE_LIMIT_PER_MINUTE",
        value_text values "services.brain.narrateRateLimitPerMinute",
      )
      ▸ (
        "CLAVENAR_BRAIN_AUX_SPEND_BUDGET_MICRO_USD_PER_HOUR",
        value_text values "services.brain.auxSpendBudgetMicroUsdPerHour",
      )
      ▸ ("CLAVENAR_BRAIN_AUX_TIMEOUT_MILLIS", value_text values "services.brain.auxTimeoutMillis")
      ▸ (
        "CLAVENAR_BRAIN_AUX_BODY_LIMIT_BYTES",
        value_text values "services.brain.auxBodyLimitBytes",
      )
      ▸ ("CLAVENAR_BRAIN_HEALTH_ADDR", str "0.0.0.0:9081")
      ▸ end in
    if truthy (value_at values "tlsBundle.secretName")
    then insert "CLAVENAR_BRAIN_ALLOWED_CALLERS" (str "spiffe://clavenar.local/service/proxy")
        (insert "CLAVENAR_BRAIN_TLS_DIR" (value_text values "tlsBundle.mountPath") base)
    else base

-- `workload_brain_host`
unfoldable pub brain_host : Value → String → String
brain_host values release =
    if truthy (value_at values "tlsBundle.secretName")
      && truthy (value_at values "workloadIdentity.enabled")
    then "brain"
    else release <> "-brain"

-- The transport variables among the names: sorted, as the set is written.
unfoldable pub transport_names : List Value → List String
transport_names names =
    filter (λ name. member names (str name))
      ("CLAVENAR_BRAIN_ALLOWED_CALLERS" ∷ "CLAVENAR_BRAIN_TLS_DIR" ∷ [])

-- The errors about the transport variables. The names are put into a set.
unfoldable pub transport_errors : Value → List Value → Result (List String)
transport_errors values names = do
  hashable ← traverse hashed names
  refuse
      (not (truthy (value_at values "tlsBundle.secretName"))
        && not (is_empty (transport_names hashable)))
      ("brain renders network TLS/health env without tlsBundle.secretName: "
        <> text_of (list (texts (transport_names hashable))))

unfoldable pub plain_errors : List Value → Result (List String)
plain_errors names =
    refuse (member names (str "CLAVENAR_BRAIN_PLAIN_ADDR"))
      "brain chart must not override the binary's loopback-only plain bind"

unfoldable pub brain_env_errors : Value → Value → Result (List String)
brain_env_errors values container = do
  entries ← env_entries container
  names ← env_names entries
  once_errors "brain must carry each governed auxiliary env exactly once: "
        (keys (brain_env values)) names
      <+> drift_errors "brain governed auxiliary env does not match exact callers and bounds: "
          (keys (brain_env values)) (brain_env values) entries
      <+> transport_errors values names
      <+> plain_errors names

-- Prometheus is not sent to the diagnostics port.
unfoldable pub scrape_drifts : Value → Result Bool
scrape_drifts deployment = do
  annotations ← get_path deployment ("spec" ∷ "template" ∷ "metadata" ∷ "annotations" ∷ [])
  port ← get annotations "prometheus.io/port"
  ok (not (py_eq port (str "9081")))

-- What the clients of the brain must carry, by their Deployments.
unfoldable pub brain_clients : Value → String → List (String × Fields)
brain_clients values release =
    let url = str ("https://" <> brain_host values release <> ":8081") in
    (
      (release <> "-policy-engine"),
      (("CLAVENAR_POLICY_ENGINE_BRAIN_URL", url)
          ▸ (
            "CLAVENAR_POLICY_EXPECTED_PEER_SPIFFE",
            str "spiffe://clavenar.local/service/identity,spiffe://clavenar.local/service/brain",
          )
          ▸ end),
    )
    ∷ ((release <> "-console"), (("CLAVENAR_CONSOLE_BRAIN_URL", url) ▸ end))
    ∷ []

-- The environment of the first container of a client.
unfoldable pub client_entries : Value → Result (List Value)
client_entries deployment = do
  containers ← item_path deployment ("spec" ∷ "template" ∷ "spec" ∷ "containers" ∷ [])
  container ← first containers
  raw ← get_or container "env" (list [])
  each raw

unfoldable pub client_drift : String → Fields → List Value → Result (List String)
client_drift who expected entries = do
  actual ← governed_env (keys expected) end entries
  refuse (not (py_eq (dict actual) (dict expected)))
      (who <> " Brain client env " <> text_of (dict actual) <> " != " <> text_of (dict expected))

-- The errors about a client, by its Deployments: the first counts, and none is no error.
unfoldable pub client_errors : String → Fields → List Value → Result (List String)
client_errors who expected [] = ok []
client_errors who expected (deployment ∷ _) = do
  entries ← client_entries deployment
  names ← env_names entries
  once_errors (who <> " must carry each Brain client env exactly once: ") (keys expected) names
      <+> client_drift who expected entries

unfoldable pub clients_errors : List Value → List (String × Fields) → Result (List String)
clients_errors docs [] = ok []
clients_errors docs ((who, expected) ∷ clients) =
    (keep_if (is_document "Deployment" who) docs >>= λ found. client_errors who expected found)
    <+> clients_errors docs clients

-- The errors about the brain's containers, of which there must be one.
unfoldable pub brain_container_errors :
    Value → List Value → String → Value → List Value → Result (List String)
brain_container_errors values docs release deployment (container ∷ []) =
    ports_errors "brain" brain_ports container
    <+> brain_env_errors values container
    <+> probes_errors "brain" " must use " 9081 container
    <+> refuse_if (scrape_drifts deployment) "brain Prometheus must use diagnostics port 9081"
    <+> clients_errors docs (brain_clients values release)
brain_container_errors values docs release deployment containers = ok (
    ("brain Deployment must contain exactly one brain container; found "
      <> decimal (length containers))
    ∷ [])

-- The errors about the brain's Deployments, of which there must be one.
unfoldable pub brain_errors : Value → List Value → String → List Value → Result (List String)
brain_errors values docs release (deployment ∷ []) = do
  pod_spec ← get_path deployment ("spec" ∷ "template" ∷ "spec" ∷ [])
  containers ← containers_named "brain" pod_spec
  brain_container_errors values docs release deployment containers
brain_errors values docs release deployments =
    ok (("brain must render exactly one Deployment; found " <> decimal (length deployments)) ∷ [])

unfoldable pub validate_brain_auxiliary_contract :
    Value → List Value → String → Result (List String)
validate_brain_auxiliary_contract values docs release = do
  deployments ← keep_if (is_document "Deployment" (release <> "-brain")) docs
  if not (truthy (value_at values "services.brain.enabled"))
      then refuse (not (is_empty deployments))
          "brain Deployment rendered while services.brain.enabled=false"
      else brain_errors values docs release deployments
