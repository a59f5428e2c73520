-- ===== src/Readiness/Documents.antt =====
-- `render`, `env_map`, `deployment_map`, `service_map`, `network_policy_allows` and
-- `verify_configmap`: reads of the rendered documents.
use clavenar_charts.Base.{ℕ, String, ◌<>◌, Bool, false, ◌&&◌, none, some}
use clavenar_charts.Base.{List, [], ◌∷◌, ◌==◌, if◌then◌else◌}
use clavenar_charts.Base.Lists.{filter}
use clavenar_charts.Base.Text.{has_prefix, remove_prefix, strip}
use clavenar_charts.Base.Result.{
  Result, ok, raise, ◌>>=◌, ◌>>◌, readiness_error, stop_iteration, traverse, any_of, keep_if,
  find_of,
}
use clavenar_charts.Value.{Value, str, dict, Fields, end, list, num}
use clavenar_charts.Value.Dict.{insert}
use clavenar_charts.Value.Equality.{py_eq, member}
use clavenar_charts.Value.Access.{
  get, get_or, item, item_path, first, each, is_dict, is_true, hashed, as_text,
}
use clavenar_charts.Value.Table.{Table}
use clavenar_charts.Readiness.Endpoint.{require}

-- What `helm template` gave: its error text, or the documents of its output.
pub data Render : Type 0 where
  failed : String → Render
  rendered : List Value → Render

unfoldable pub render : Render → Result (List Value)
render (failed stderr) = raise (readiness_error ("Helm render failed: " <> strip stderr))
render (rendered documents) = ok (filter is_dict documents)

-- The values of the environment of the first container.
unfoldable pub env_map : Value → Result (Table Value)
env_map deployment = do
  containers ← item_path deployment ("spec" ∷ "template" ∷ "spec" ∷ "containers" ∷ [])
  container ← first containers
  raw ← get_or container "env" (list [])
  entries ← each raw
  traverse
      (λ entry.
        item entry "name" >>= λ name. (hashed name >>= λ k. (get entry "value" >>= λ v. ok (k, v))))
      entries

-- The Deployments of the release, by their names without its prefix.
unfoldable pub deployment_map : Fields → List Value → Result Fields
unfolding insert
deployment_map acc [] = ok acc
deployment_map acc (document ∷ documents) = do
  kind ← get document "kind"
  chosen ←
      (if py_eq kind (str "Deployment")
        then (do
          name ← item_path document ("metadata" ∷ "name" ∷ [])
          text ← as_text name
          ok (
              if has_prefix text "readiness-"
              then some (remove_prefix text "readiness-")
              else none))
        else ok none)
  deployment_map (elim chosen [ none ↦ acc | some name ↦ insert name document acc ]) documents

unfoldable pub is_kind : String → Value → Result Bool
is_kind kind document = get document "kind" >>= λ actual. ok (py_eq actual (str kind))

unfoldable pub service_map : List Value → Result (Table Value)
service_map documents = do
  services ← keep_if (is_kind "Service") documents
  traverse
      (λ document. item_path document ("metadata" ∷ "name" ∷ []) >>= λ name.
        (hashed name >>= λ k. ok (k, document)))
      services

-- `item.get("kind") == kind and item["metadata"]["name"] == name`
unfoldable pub is_named : String → String → Value → Result Bool
is_named kind name document = do
  actual_kind ← get document "kind"
  if py_eq actual_kind (str kind)
      then (item_path document ("metadata" ∷ "name" ∷ []) >>= λ actual.
          ok (py_eq actual (str name)))
      else ok false

-- The component label that a peer selects.
unfoldable pub peer_component : Value → Result Value
peer_component peer = do
  pod_selector ← get_or peer "podSelector" (dict end)
  labels ← get_or pod_selector "matchLabels" (dict end)
  component ← get labels "app.kubernetes.io/component"
  hashed component

-- A rule that lists the port and the caller.
unfoldable pub rule_allows : ℕ → String → Value → Result Bool
rule_allows port caller rule = do
  raw_ports ← get_or rule "ports" (list [])
  port_specs ← each raw_ports
  ports ← traverse (λ spec. get spec "port" >>= λ p. hashed p) port_specs
  raw_peers ← get_or rule "from" (list [])
  peers ← each raw_peers
  callers ← traverse peer_component peers
  ok (member ports (num port) && member callers (str caller))

unfoldable pub network_policy_allows : List Value → String → ℕ → String → Result Bool
network_policy_allows documents destination port caller = do
  policy ← find_of (is_named "NetworkPolicy" ("readiness-" <> destination)) documents
  elim policy [
    | none ↦ ok false
    | some document ↦ do
      spec ← item document "spec"
      raw ← get_or spec "ingress" (list [])
      rules ← each raw
      any_of (rule_allows port caller) rules
  ]

-- Each contract file is in the data of the ConfigMap, byte for byte.
unfoldable pub verify_files : Value → List (String × String) → Result (Unit {0})
verify_files config [] = ok tt
verify_files config ((file, content) ∷ files) = do
  raw ← item_path config ("data" ∷ file ∷ [])
  text ← as_text raw
  require (text == content) ("ConfigMap byte drift: " <> file)
  verify_files config files

unfoldable pub verify_configmap : List Value → List (String × String) → Result ℕ
verify_configmap documents files = do
  found ← find_of (is_named "ConfigMap" "readiness-dependency-readiness-contract") documents
  config ← elim found [ none ↦ raise stop_iteration | some document ↦ ok document ]
  immutable ← get config "immutable"
  require (is_true immutable) "readiness ConfigMap must be immutable"
  verify_files config files
  ok 3
