-- ===== src/Listener/Capabilities/Target.antt =====
-- A service that mounts the capability bundle.
use clavenar_charts.Base.{
  String, ◌<>◌, Bool, true, not, ◌&&◌, ◌||◌, List, [], ◌∷◌, nat_eq, if◌then◌else◌,
}
use clavenar_charts.Base.Lists.{length, is_empty}
use clavenar_charts.Base.Result.{Result, ok, ◌>>=◌, keep_if}
use clavenar_charts.Value.{Value, str, dict, Fields, end, list, ◌▸◌, texts}
use clavenar_charts.Value.Equality.{py_eq, member}
use clavenar_charts.Value.Access.{truthy, get, get_or, each, is_true, hashed}
use clavenar_charts.Value.Table.{Table, table_of}
use clavenar_charts.Listener.Values.{value_at}
use clavenar_charts.Listener.Errors.{refuse, refuse_if, ◌<+>◌}
use clavenar_charts.Listener.Rendered.{is_document, get_path}
use clavenar_charts.Listener.Workload.{containers_named, governed_env}
use clavenar_charts.Listener.Workload.Tls.{at_or_empty, has_entry}

-- The bundle as it was parsed, its digest, and the name of its ConfigMap.
pub record Bundle : Type 0 where
  pub content : Value
  pub digest : String
  pub map_name : String

-- `governed_names`
abbrev pub capability_names : List String
capability_names =
    "CLAVENAR_WORKLOAD_CAPABILITY_BUNDLE" ∷ "CLAVENAR_WORKLOAD_CAPABILITY_BUNDLE_SHA256"
    ∷ "CLAVENAR_ENDPOINT_CAPABILITY_MATRIX_SHA256" ∷ []

abbrev pub bundle_path : Value
bundle_path = str "/etc/clavenar/workload-capability-bundle.json"

-- The variables that the service must carry under workload TLS.
unfoldable pub capability_env : Bundle → Result Fields
capability_env b = do
  matrix_digest ← get b.content "matrixSha256"
  ok (
      ("CLAVENAR_WORKLOAD_CAPABILITY_BUNDLE", bundle_path)
      ▸ ("CLAVENAR_WORKLOAD_CAPABILITY_BUNDLE_SHA256", str b.digest)
      ▸ ("CLAVENAR_ENDPOINT_CAPABILITY_MATRIX_SHA256", matrix_digest)
      ▸ end)

-- An entry of the environment with a governed name.
unfoldable pub is_governed_entry : Value → Result Bool
is_governed_entry entry = do
  raw ← get entry "name"
  name ← hashed raw
  ok (member (texts capability_names) name)

-- `{x.get("name"): x for x in parent.get(field, [])}`
unfoldable pub named_all : String → Value → Result (Table Value)
named_all field parent = do raw ← get_or parent field (list []); xs ← each raw; table_of "name" xs

-- The mount or its volume is not the one of the bundle; the volume is read last.
unfoldable pub bundle_mount_drifts : Bundle → Table Value → Table Value → Result Bool
bundle_mount_drifts b volumes mounts = do
  volume ← get_or (at_or_empty "workload-capabilities" volumes) "configMap" (dict end)
  path ← get (at_or_empty "workload-capabilities" mounts) "mountPath"
  sub_path ← get (at_or_empty "workload-capabilities" mounts) "subPath"
  read_only ← get (at_or_empty "workload-capabilities" mounts) "readOnly"
  if not (
        py_eq path bundle_path
        && py_eq sub_path (str "workload-capability-bundle.json")
        && is_true read_only)
      then ok true
      else (get volume "name" >>= λ name. ok (not (py_eq name (str b.map_name))))

-- The errors about a service under workload TLS.
unfoldable pub mounted_errors :
    String → Bundle → List Value → Table Value → Table Value → Result (List String)
mounted_errors who b entries mounts volumes = do
  expected ← capability_env b
  actual ← governed_env capability_names end entries
  refuse (not (nat_eq (length entries) 3) || not (py_eq (dict actual) (dict expected)))
        (who <> " generated capability environment drifted")
      <+> refuse_if (bundle_mount_drifts b volumes mounts)
          (who <> " generated capability mount drifted")

-- The errors about the service's containers, of which there must be one.
unfoldable pub target_container_errors :
    Value → String → Bundle → Value → List Value → Result (List String)
target_container_errors values who b pod (container ∷ []) = do
  raw ← get_or container "env" (list [])
  all_entries ← each raw
  entries ← keep_if is_governed_entry all_entries
  mounts ← named_all "volumeMounts" container
  volumes ← named_all "volumes" pod
  if truthy (value_at values "tlsBundle.secretName")
      then mounted_errors who b entries mounts volumes
      else refuse
          (not (is_empty entries)
            || has_entry "workload-capabilities" mounts
            || has_entry "workload-capabilities" volumes)
          (who <> " mounts generated capabilities without workload TLS")
target_container_errors values who b pod _ =
    ok ((who <> " capability container is not unique") ∷ [])

-- The errors about the service's Deployments, of which there must be one.
unfoldable pub target_errors : Value → String → Bundle → List Value → Result (List String)
target_errors values who b (deployment ∷ []) = do
  pod ← get_path deployment ("spec" ∷ "template" ∷ "spec" ∷ [])
  containers ← containers_named who pod
  target_container_errors values who b pod containers
target_errors values who b _ = ok ((who <> " capability deployment is not unique") ∷ [])

-- The services that mount the bundle: the name in the values and the name of the workload.
abbrev pub targets : List (String × String)
targets =
    ("ledger", "ledger")
    ∷ ("policyEngine", "policy-engine")
    ∷ ("hil", "hil")
    ∷ ("identity", "identity")
    ∷ []

-- The errors about one service, if the values enable it.
unfoldable pub enabled_errors :
    Value → List Value → String → Bundle → String × String → Result (List String)
enabled_errors values docs release b (values_name, who) =
    if truthy (value_at values ("services." <> values_name <> ".enabled"))
    then (keep_if (is_document "Deployment" (release <> "-" <> who)) docs >>= λ deployments.
        target_errors values who b deployments)
    else ok []

unfoldable pub targets_errors :
    Value → List Value → String → Bundle → List (String × String) → Result (List String)
targets_errors values docs release b [] = ok []
targets_errors values docs release b (target ∷ rest) =
    enabled_errors values docs release b target <+> targets_errors values docs release b rest
