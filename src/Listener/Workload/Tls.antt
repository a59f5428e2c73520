-- ===== src/Listener/Workload/Tls.antt =====
-- The workload certificate of a Pod: the volume that projects it and its mount.
use clavenar_charts.Base.{
  String, ◌<>◌, Bool, true, false, not, ◌&&◌, ◌||◌, none, some, List, [], ◌∷◌, if◌then◌else◌,
}
use clavenar_charts.Base.Lists.{all, any}
use clavenar_charts.Base.Text.{has_infix, join}
use clavenar_charts.Base.Result.{Result, ok, raise, type_error, ◌>>=◌, keep_if, traverse}
use clavenar_charts.Value.{Value, null, str, dict, end, list, num, ◌▸◌}
use clavenar_charts.Value.Equality.{py_eq}
use clavenar_charts.Value.Access.{truthy, get, get_or, each, or_else, hashed}
use clavenar_charts.Value.Table.{Table, at, table_of}
use clavenar_charts.Listener.Values.{value_at}
use clavenar_charts.Listener.Errors.{refuse, refuse_if, ◌<+>◌}
use clavenar_charts.Listener.Rendered.{has_name}

-- `{x.get("name"): x for x in parent.get(field, []) or []}`
unfoldable pub named_in : String → Value → Result (Table Value)
named_in field parent = do
  raw ← get_or parent field (list [])
  xs ← each (or_else raw (list []))
  table_of "name" xs

-- `table.get(name) or {}`
unfoldable pub at_or_empty : String → Table Value → Value
at_or_empty name table =
    or_else (elim (at (str name) table) [ none ↦ null | some v ↦ v ]) (dict end)

unfoldable pub has_entry : String → Table Value → Bool
has_entry name table = elim (at (str name) table) [ none ↦ false | some _ ↦ true ]

-- `{(item.get("key"), item.get("path")) for item in secret.get("items", [])}`
unfoldable pub projected_items : Value → Result (List (Value × Value))
projected_items secret = do
  raw ← get_or secret "items" (list [])
  items ← each raw
  traverse
      (λ item. do
        key ← get item "key"
        path ← get item "path"
        hashed_key ← hashed key
        hashed_path ← hashed path
        ok (hashed_key, hashed_path))
      items

abbrev pub pair_member : List (Value × Value) → Value × Value → Bool
pair_member pairs (k, p) = any (λ q. py_eq q.0 k && py_eq q.1 p) pairs

-- The equality of two sets of pairs.
unfoldable pub same_pairs : List (Value × Value) → List (Value × Value) → Bool
same_pairs ps qs = all (pair_member qs) ps && all (pair_member ps) qs

-- Files that are projected under their own names.
abbrev pub same_names : List String → List (Value × Value)
same_names [] = []
same_names (s ∷ ss) = (str s, str s) ∷ same_names ss

abbrev pub certificate_files : String → List (Value × Value)
certificate_files who =
    same_names ("ca.crt" ∷ ("service-" <> who <> ".crt") ∷ ("service-" <> who <> ".key") ∷ [])

-- The volume `certs-source` does not project exactly the files of the Secret, at mode 0440.
unfoldable pub projection_drifts : String → Value → Table Value → Result Bool
projection_drifts who tls_secret volumes = do
  secret ← get_or (at_or_empty "certs-source" volumes) "secret" (dict end)
  items ← projected_items secret
  name ← get secret "secretName"
  mode ← get secret "defaultMode"
  ok (
      not (py_eq name tls_secret)
      || not (py_eq mode (num 288))
      || not (same_pairs items (certificate_files who)))

abbrev pub memory_volume : Value
memory_volume = dict (("medium", str "Memory") ▸ ("sizeLimit", str "1Mi") ▸ end)

-- The volume `certs` is not the bounded memory volume.
unfoldable pub destination_drifts : Table Value → Result Bool
destination_drifts volumes = do
  destination ← get_or (at_or_empty "certs" volumes) "emptyDir" (dict end)
  ok (not (py_eq destination memory_volume))

-- An argument of `str.join`.
unfoldable pub joinable : Value → Result String
joinable (str s) = ok s
joinable _ = raise type_error

-- There is not one projector, or its script does not bind the keys to mode 0600.
unfoldable pub script_drifts : List Value → Result Bool
script_drifts (projector ∷ []) = do
  raw ← get_or projector "args" (list [])
  arguments ← each raw
  lines ← traverse joinable arguments
  ok (not (has_infix (join "\n" lines) "chmod 0600 /projected/*.key"))
script_drifts _ = ok true

unfoldable pub projector_drifts : Value → Result Bool
projector_drifts pod_spec = do
  raw ← get_or pod_spec "initContainers" (list [])
  containers ← each raw
  projectors ← keep_if (has_name "workload-tls-projector") containers
  script_drifts projectors

-- The mount is elsewhere or can be written to.
unfoldable pub mount_drifts : String → Value → Table Value → Result Bool
mount_drifts name expected_path mounts = do
  path ← get (at_or_empty name mounts) "mountPath"
  read_only ← get (at_or_empty name mounts) "readOnly"
  ok (not (py_eq path expected_path) || not (truthy read_only))

-- The errors about the certificate where the values name its Secret.
unfoldable pub certificate_errors :
    String → String → Value → Value → Table Value → Table Value → Result (List String)
certificate_errors who projection values pod_spec volumes mounts =
    refuse_if (projection_drifts who (value_at values "tlsBundle.secretName") volumes) projection
    <+> refuse_if (destination_drifts volumes)
        (who <> " workload TLS destination must be a bounded memory volume")
    <+> refuse_if (projector_drifts pod_spec)
        (who <> " workload TLS projector must owner-bind private keys at mode 0600")
    <+> refuse_if (mount_drifts "certs" (value_at values "tlsBundle.mountPath") mounts)
        (who <> " workload Secret mount path/readOnly contract drifted")

-- The errors about workload TLS; without a Secret nothing of it may be mounted.
unfoldable pub tls_errors :
    String → String → Value → Value → Table Value → Table Value → Result (List String)
tls_errors who projection values pod_spec volumes mounts =
    if truthy (value_at values "tlsBundle.secretName")
    then certificate_errors who projection values pod_spec volumes mounts
    else refuse
        (has_entry "certs" volumes || has_entry "certs-source" volumes || has_entry "certs" mounts)
        (who <> " mounts workload TLS material while tlsBundle.secretName is empty")
