-- ===== src/Listener/Assurance.antt =====
-- `validate_assurance_contract`: the rendered assurance service against the values.
pub mod Accepted
use clavenar_charts.Base.{String, ◌<>◌, Bool, not, List, [], ◌∷◌, if◌then◌else◌}
use clavenar_charts.Base.Lists.{length, is_empty}
use clavenar_charts.Base.Text.{has_prefix}
use clavenar_charts.Base.Result.{Result, ok, ◌>>=◌, keep_if, any_of}
use clavenar_charts.Value.{Value, str, dict, Fields, end, num, ◌▸◌}
use clavenar_charts.Value.Dict.{keys}
use clavenar_charts.Value.Access.{truthy, get, each, or_else, as_text}
use clavenar_charts.Value.Print.{text_of, decimal}
use clavenar_charts.Value.Table.{Table}
use clavenar_charts.Listener.Values.{value_at}
use clavenar_charts.Listener.Errors.{refuse, refuse_if, ◌<+>◌}
use clavenar_charts.Listener.Rendered.{is_document, get_path}
use clavenar_charts.Listener.Workload.{
  containers_named, ports_errors, env_entries, env_names, once_errors, drift_errors, probes_errors,
}
use clavenar_charts.Listener.Workload.Tls.{named_in, tls_errors}

abbrev pub assurance_ports : Table Value
assurance_ports = (str "control-mtls", num 8088) ∷ (str "diagnostics", num 9088) ∷ []

-- `str(value_at(values, path))`
abbrev pub value_text : Value → String → Value
value_text values path = str (text_of (value_at values path))

-- `governed_env`
abbrev pub assurance_env : Value → Fields
assurance_env values =
    ("CLAVENAR_ASSURANCE_ADMIN_PORT", str "8088")
    ▸ ("CLAVENAR_ASSURANCE_DIAGNOSTICS_PORT", str "9088")
    ▸ ("CLAVENAR_ASSURANCE_TLS_DIR", value_text values "tlsBundle.mountPath")
    ▸ ("CLAVENAR_ASSURANCE_ALLOWED_CALLERS", str "spiffe://clavenar.local/service/console")
    ▸ (
      "CLAVENAR_ASSURANCE_FORENSIC_SUBJECT",
      value_text values "services.assurance.forensicSubject",
    )
    ▸ ("CLAVENAR_ASSURANCE_FORENSIC_STREAM", value_text values "services.assurance.forensicStream")
    ▸ (
      "CLAVENAR_ASSURANCE_REQUEST_TIMEOUT_SECS",
      value_text values "services.assurance.requestTimeoutSecs",
    )
    ▸ ("CLAVENAR_ASSURANCE_RUN_TIMEOUT_SECS", value_text values "services.assurance.runTimeoutSecs")
    ▸ (
      "CLAVENAR_ASSURANCE_PUBLISH_TIMEOUT_SECS",
      value_text values "services.assurance.publishTimeoutSecs",
    )
    ▸ end

unfoldable pub assurance_env_errors : Value → Value → Result (List String)
assurance_env_errors values container = do
  entries ← env_entries container
  names ← env_names entries
  once_errors "assurance must carry each governed control env exactly once: "
        (keys (assurance_env values)) names
      <+> drift_errors "assurance governed control env does not match exact-console mTLS: "
          (keys (assurance_env values)) (assurance_env values) entries

-- The Pods carry an annotation of Prometheus.
unfoldable pub advertises_metrics : Value → Result Bool
advertises_metrics deployment = do
  metadata ← get_path deployment ("spec" ∷ "template" ∷ "metadata" ∷ [])
  raw ← get metadata "annotations"
  annotations ← each (or_else raw (dict end))
  any_of (λ key. as_text key >>= λ k. ok (has_prefix k "prometheus.io/")) annotations

unfoldable pub assurance_tls_errors : Value → Value → Value → Result (List String)
assurance_tls_errors values pod_spec container = do
  volumes ← named_in "volumes" pod_spec
  mounts ← named_in "volumeMounts" container
  tls_errors "assurance"
      "assurance workload Secret must project only public CA and service-assurance cert/key" values
      pod_spec volumes mounts

-- The errors about the service's containers, of which there must be one.
unfoldable pub assurance_container_errors :
    Value → Value → Value → List Value → Result (List String)
assurance_container_errors values deployment pod_spec (container ∷ []) =
    ports_errors "assurance" assurance_ports container
    <+> assurance_env_errors values container
    <+> probes_errors "assurance" " must use diagnostics " 9088 container
    <+> refuse_if (advertises_metrics deployment)
        "assurance must not advertise Prometheus until /metrics is governed"
    <+> assurance_tls_errors values pod_spec container
assurance_container_errors values deployment pod_spec containers = ok (
    ("assurance Deployment must contain exactly one assurance container; found "
      <> decimal (length containers))
    ∷ [])

-- The errors about the service's Deployments, of which there must be one.
unfoldable pub assurance_errors : Value → List Value → Result (List String)
assurance_errors values (deployment ∷ []) = do
  pod_spec ← get_path deployment ("spec" ∷ "template" ∷ "spec" ∷ [])
  containers ← containers_named "assurance" pod_spec
  assurance_container_errors values deployment pod_spec containers
assurance_errors values deployments =
    ok (
      ("assurance must render exactly one Deployment; found " <> decimal (length deployments)) ∷ [])

unfoldable pub validate_assurance_contract : Value → List Value → String → Result (List String)
validate_assurance_contract values docs release = do
  deployments ← keep_if (is_document "Deployment" (release <> "-assurance")) docs
  if not (truthy (value_at values "services.assurance.enabled"))
      then refuse (not (is_empty deployments))
          "assurance Deployment rendered while services.assurance.enabled=false"
      else assurance_errors values deployments
