-- ===== src/Listener/Console/Trust.antt =====
-- The Secrets of the console: its workload certificate and the trust in operators.
use clavenar_charts.Base.{String, Bool, not, ◌||◌, List, [], ◌∷◌, if◌then◌else◌}
use clavenar_charts.Base.Result.{Result, ok, ◌>>=◌}
use clavenar_charts.Value.{Value, str, dict, end}
use clavenar_charts.Value.Equality.{py_eq}
use clavenar_charts.Value.Access.{truthy, get, get_or}
use clavenar_charts.Value.Table.{Table}
use clavenar_charts.Listener.Values.{value_at}
use clavenar_charts.Listener.Errors.{refuse, refuse_if, ◌<+>◌}
use clavenar_charts.Listener.Workload.Tls.{
  named_in, at_or_empty, has_entry, projected_items, same_pairs, same_names, mount_drifts,
  tls_errors,
}

abbrev pub trust_files : List (Value × Value)
trust_files = same_names ("ca.crt" ∷ "operators.json" ∷ [])

-- The volume `operator-trust` does not project exactly the public files of the trust Secret.
unfoldable pub trust_drifts : Value → Table Value → Result Bool
trust_drifts values volumes = do
  secret ← get_or (at_or_empty "operator-trust" volumes) "secret" (dict end)
  items ← projected_items secret
  name ← get secret "secretName"
  let wanted = value_at values "services.console.operatorMtls.publicTrustSecretName"
  ok (not (py_eq name wanted) || not (same_pairs items trust_files))

-- The errors about the trust in operators; without operator mTLS nothing of it may be mounted.
unfoldable pub trust_errors : Value → Table Value → Table Value → Result (List String)
trust_errors values volumes mounts =
    if truthy (value_at values "services.console.operatorMtls.enabled")
    then refuse_if (trust_drifts values volumes)
        "console operator trust Secret must project only ca.crt + operators.json"
      <+> refuse_if (mount_drifts "operator-trust" (str "/operator-trust") mounts)
          "console operator trust mount must be read-only at /operator-trust"
    else refuse (has_entry "operator-trust" volumes || has_entry "operator-trust" mounts)
        "console mounts operator trust while operatorMtls.enabled=false"

unfoldable pub secret_errors : Value → Value → Value → Result (List String)
secret_errors values pod_spec container = do
  volumes ← named_in "volumes" pod_spec
  mounts ← named_in "volumeMounts" container
  tls_errors "console"
        "console workload Secret must project only public CA + service-console cert/key" values
        pod_spec volumes mounts
      <+> trust_errors values volumes mounts
