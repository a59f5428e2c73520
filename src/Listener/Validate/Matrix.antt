-- ===== src/Listener/Validate/Matrix.antt =====
-- The first part of `validate`: the metadata of the matrix, its digest, its listeners and its Service
-- objects.
pub mod Governed
pub mod Objects
use clavenar_charts.Base.{
  ℕ, ◌+◌, String, ◌<>◌, Bool, not, ◌||◌, List, [], ◌∷◌, ◌++◌, nat_eq, if◌then◌else◌,
}
use clavenar_charts.Base.Lists.{length, is_empty, filter, any}
use clavenar_charts.Base.Text.{has_infix, has_suffix, rstrip}
use clavenar_charts.Base.Result.{
  Result, ok, raise, attribute_error, type_error, ◌>>=◌, gather, traverse, any_of,
}
use clavenar_charts.Value.{Value, str, array, dict, list, texts, elements}
use clavenar_charts.Value.Dict.{has_key}
use clavenar_charts.Value.Equality.{py_eq, member, set_of}
use clavenar_charts.Value.Access.{
  truthy, get, get_or, item, each, or_else, is_in, is_list, is_null, hashed,
}
use clavenar_charts.Value.Print.{text_of, repr, decimal}
use clavenar_charts.Value.Sort.{sort_texts}
use clavenar_charts.Listener.Errors.{refuse, ◌<+>◌}
use clavenar_charts.Listener.Digest.{reviewed_key}
use clavenar_charts.Listener.Workload.Tls.{pair_member}

-- `REQUIRED_LISTENER_FIELDS`
abbrev pub required_listener_fields : List String
required_listener_fields =
    "service" ∷ "listenerId" ∷ "owner" ∷ "enabledWhen" ∷ "bind" ∷ "containerPort" ∷ "servicePort"
    ∷ "servicePublished" ∷ "ingressPaths" ∷ "transportProtocol" ∷ "applicationProtocol"
    ∷ "authentication" ∷ "authorizedCallers" ∷ "allowedPeers" ∷ "bodyLimit" ∷ "rateLimit"
    ∷ "hostPublication" ∷ "externalPublication" ∷ []

-- `required`
abbrev pub required_object_fields : List String
required_object_fields = "id" ∷ "selectorOwner" ∷ "enabledWhen" ∷ "name" ∷ "type" ∷ "ports" ∷ []

-- `sorted(required - d.keys())`
unfoldable pub missing_keys : List String → Value → Result (List String)
missing_keys required (dict fs) = ok (sort_texts (filter (λ k. not (has_key k fs)) required))
missing_keys required _ = raise attribute_error

-- `str((service, listener_id))`
unfoldable pub pair_text : Value × Value → String
pair_text (service, id) = "(" <> repr service <> ", " <> repr id <> ")"

-- `(listener.get("service"), listener.get("listenerId"))`, as an element of a set.
unfoldable pub ident_of : Value → Result (Value × Value)
ident_of listener = do
  service ← get listener "service"
  id ← get listener "listenerId"
  service_key ← hashed service
  id_key ← hashed id
  ok (service_key, id_key)

-- `matrix.get(field, [])`
unfoldable pub entries_of : Value → String → Result (List Value)
entries_of matrix name = get_or matrix name (list []) >>= λ raw. each raw

unfoldable pub version_errors : Value → Result (List String)
version_errors matrix = get matrix "schemaVersion" >>= λ version.
    refuse (not (py_eq version (str "1.0"))) "listeners.yaml schemaVersion must be the string '1.0'"

unfoldable pub digest_errors : Value → String → Result (List String)
digest_errors matrix digest = do
  reviewed ← get matrix reviewed_key
  refuse (not (py_eq reviewed (str digest)))
      ("listeners.yaml reviewedContractSha256 " <> repr reviewed <> " != " <> repr (str digest))

-- The paths of a listener: a list that is not empty and names no path twice.
unfoldable pub paths_errors : String → Value → Result (List String)
paths_errors who paths =
    if not (is_list paths) || not (truthy paths)
    then ok ((who <> " must inventory at least one exact route or protocol surface") ∷ [])
    else (do
      raw ← each paths
      names ← traverse hashed raw
      refuse (not (nat_eq (length names) (length (set_of names))))
          (who <> " contains duplicate ingress paths"))

unfoldable pub is_wildcard : Value → Bool
is_wildcard path = has_infix (text_of path) "/*" || has_suffix (rstrip (text_of path)) "*"

-- The listeners of the core have exact routes.
unfoldable pub wildcard_errors : String → Value → Value → Result (List String)
wildcard_errors who owner paths = if not (py_eq owner (str "core")) then ok [] else do
  routes ← each (or_else paths (list []))
  refuse (any is_wildcard routes) (who <> " uses a wildcard instead of exact core routes")

-- The errors about the listener at `index`; `seen` are the listeners before it.
unfoldable pub listener_errors : Value → ℕ → List (Value × Value) → Value → Result (List String)
listener_errors ownership index seen listener = do
  missing ← missing_keys required_listener_fields listener
  ident ← ident_of listener
  implicit ← any_of (λ name. get listener name >>= λ v. ok (is_null v)) required_listener_fields
  owner ← get listener "owner"
  known ← is_in owner ownership
  paths ← get listener "ingressPaths"
  let who = "listener " <> pair_text ident
  refuse (not (is_empty missing))
        ("listener[" <> decimal index <> "] missing metadata: " <> text_of (list (texts missing)))
      <+> refuse (pair_member seen ident) ("duplicate listener id " <> pair_text ident)
      <+> refuse implicit (who <> " contains implicit null metadata")
      <+> refuse (not known) (who <> " has unknown owner " <> text_of owner)
      <+> paths_errors who paths
      <+> wildcard_errors who owner paths

-- The errors about the listeners, from `index` on.
unfoldable pub listeners_errors :
    Value → ℕ → List (Value × Value) → List Value → Result (List String)
listeners_errors ownership index seen [] = ok []
listeners_errors ownership index seen (listener ∷ rest) = do
  here ← listener_errors ownership index seen listener
  ident ← ident_of listener
  ok here <+> listeners_errors ownership (index + 1) (ident ∷ seen) rest

-- `set(port_spec)` has a key that is not allowed, or misses one.
unfoldable pub is_inexact_port : Value → Result Bool
is_inexact_port port = do
  raw ← each port
  names ← traverse hashed raw
  let required = texts ("name" ∷ "port" ∷ "targetPort" ∷ "protocol" ∷ [])
  let optional = texts ("appProtocol" ∷ "enabledWhen" ∷ "disabledWhen" ∷ [])
  ok (
      any (λ name. not (member required name || member optional name)) names
      || any (λ name. not (member names name)) required)

-- `a + b`, gone through.
unfoldable pub each_of_sum : Value → Value → Result (List Value)
each_of_sum (array xs) (array ys) = ok (elements xs ++ elements ys)
each_of_sum (str s) (str t) = each (str (s <> t))
each_of_sum _ _ = raise type_error

unfoldable pub port_contract_errors : String → Value → Result (List String)
port_contract_errors who port = do
  inexact ← is_inexact_port port
  refuse inexact (who <> " has an inexact port contract " <> text_of port)

-- The errors about a Service object that has every required field; `ids` are those before it.
unfoldable pub complete_object_errors : List Value → Value → Result (List String)
complete_object_errors ids object = do
  raw_id ← item object "id"
  id ← hashed raw_id
  raw_owner ← item object "selectorOwner"
  owner ← hashed raw_owner
  raw_type ← item object "type"
  type_name ← hashed raw_type
  plain ← get_or object "ports" (list [])
  extra ← get_or object "tlsPorts" (list [])
  ports ← each_of_sum plain extra
  let who = "Service object " <> text_of id
  refuse (member ids id) ("duplicate Service object id " <> text_of id)
      <+> refuse (not (member (texts ("core" ∷ "none" ∷ "nats" ∷ "vault" ∷ [])) owner))
          (who <> " has unknown selectorOwner")
      <+> refuse (not (member (texts ("ClusterIP" ∷ "ExternalName" ∷ [])) type_name))
          (who <> " has unsafe type " <> text_of type_name)
      <+> gather (port_contract_errors who) ports

-- The errors about a Service object, with its id, which one that misses a field does not add.
unfoldable pub object_errors : ℕ → List Value → Value → Result (List String × List Value)
object_errors index ids object = do
  missing ← missing_keys required_object_fields object
  if not (is_empty missing)
      then ok (
        ("serviceObjects["
              <> decimal index
              <> "] missing metadata: "
              <> text_of (list (texts missing)))
            ∷ [],
        ids,
      )
      else (do
        errors ← complete_object_errors ids object
        id ← item object "id"
        ok (errors, id ∷ ids))

-- The errors about the Service objects, from `index` on.
unfoldable pub objects_errors : ℕ → List Value → List Value → Result (List String)
objects_errors index ids [] = ok []
objects_errors index ids (object ∷ rest) = do
  (here, next) ← object_errors index ids object
  ok here <+> objects_errors (index + 1) next rest
