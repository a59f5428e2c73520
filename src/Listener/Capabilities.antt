-- ===== src/Listener/Capabilities.antt =====
-- `validate_workload_capability_contract`: the generated capability bundle and the four services
-- that mount it. The JSON parser (`none` is a `JSONDecodeError`) and the hexadecimal SHA-256 of the
-- UTF-8 text are parameters.
pub mod Target
pub mod Accepted
use clavenar_charts.Base.{
  ℕ, ◌+◌, String, ◌<>◌, Bool, true, false, not, ◌&&◌, Option, none, some, List, [], ◌∷◌, nat_eq,
  ◌==◌, if◌then◌else◌,
}
use clavenar_charts.Base.Lists.{length, same_set, any}
use clavenar_charts.Base.Text.{take, drop}
use clavenar_charts.Base.Result.{
  Result, ok, raise, attribute_error, ◌>>=◌, keep_if, gather, traverse,
}
use clavenar_charts.Value.{Value, str, dict, Fields, end, field, list, num}
use clavenar_charts.Value.Dict.{keys}
use clavenar_charts.Value.Equality.{py_eq, member, set_of}
use clavenar_charts.Value.Access.{get, get_or, item, item_path, each, or_else, len, is_true, hashed}
use clavenar_charts.Listener.Errors.{refuse, ◌<+>◌}
use clavenar_charts.Listener.Capabilities.Target.{Bundle, targets_errors, targets}

-- A ConfigMap with the component label of the bundle.
unfoldable pub is_bundle_map : Value → Result Bool
is_bundle_map doc = do
  kind ← get doc "kind"
  if not (py_eq kind (str "ConfigMap")) then ok false else do
    metadata ← get_or doc "metadata" (dict end)
    labels ← get_or metadata "labels" (dict end)
    component ← get labels "app.kubernetes.io/component"
    ok (py_eq component (str "workload-capabilities"))

-- `s.rstrip("-")`
abbrev pub rstrip_dashes : String → String
rstrip_dashes String.[] = ""
rstrip_dashes (String.◌∷◌ c s) =
    let rest = rstrip_dashes s in
    if rest == "" && (String.◌∷◌ c "" == "-") then "" else String.◌∷◌ c rest

-- The name of the ConfigMap, which carries the head of the bundle's digest.
unfoldable pub bundle_map_name : String → String → String
bundle_map_name release bundle_sha =
    rstrip_dashes (take 28 release) <> "-workload-capabilities-" <> take 12 (drop 7 bundle_sha)

abbrev field_values : Fields → List Value
field_values end = []
field_values (field k v rest) = v ∷ field_values rest

-- `d.values()`
unfoldable pub values_of : Value → Result (List Value)
values_of (dict fs) = ok (field_values fs)
values_of _ = raise attribute_error

-- The families of the routes of one service.
unfoldable pub policy_families : Value → Result (List Value)
policy_families policy = do
  raw ← get_or policy "routes" (list [])
  routes ← each raw
  traverse (λ route. get route "family" >>= λ family. hashed family) routes

-- The families of the routes, as a set.
unfoldable pub families_of : List Value → Result (List Value)
families_of policies = do families ← gather policy_families policies; ok (set_of families)

-- `sum(len(policy.get("routes", [])) for policy in …)`
unfoldable pub route_count : List Value → Result ℕ
route_count [] = ok 0
route_count (policy ∷ policies) = do
  raw ← get_or policy "routes" (list [])
  count ← len raw
  rest ← route_count policies
  ok (count + rest)

abbrev pub capability_services : List String
capability_services = "ledger" ∷ "policy-engine" ∷ "hil" ∷ "identity" ∷ []

-- `set(services) == {…}`
unfoldable pub names_services : Value → Bool
names_services (dict fs) = same_set (keys fs) capability_services
names_services _ = false

-- The inventory of the bundle is not the canonical one; the tests stop at the first difference.
unfoldable pub inventory_drifts : Value → Value → Value → Result Bool
inventory_drifts bundle identities services = do
  policies ← values_of services
  families ← families_of policies
  routes ← route_count policies
  version ← get bundle "schemaVersion"
  feature ← get bundle "feature"
  if not (py_eq version (num 1))
      then ok true
      else if not (py_eq feature (str "WP-02.9"))
      then ok true
      else (do
        count ← len identities
        ok (
            not (
              nat_eq count 11
              && names_services services
              && nat_eq (length families) 71
              && nat_eq routes 141)))

-- A route of the ledger admits the website.
unfoldable pub admits_website : Value → Result Bool
admits_website services = do
  raw ← item_path services ("ledger" ∷ "routes" ∷ [])
  routes ← each raw
  callers ←
      gather
        (λ route. get_or route "allowedCallerIds" (list []) >>= λ ids.
          (each ids >>= λ callers. traverse hashed callers))
        routes
  ok (member callers (str "service-website"))

-- The errors about a bundle that can be read, and about the services that mount it.
unfoldable pub bundle_errors : Value → List Value → String → Bundle → Result (List String)
bundle_errors values docs release b = do
  identities ← get b.content "workloadIdentities"
  services ← get b.content "services"
  drifts ← inventory_drifts b.content (or_else identities (list [])) (or_else services (dict end))
  if drifts
      then ok ("generated workload capability inventory is not canonical" ∷ [])
      else (admits_website (or_else services (dict end)) >>= λ website.
          refuse website "website identity entered generated ledger application routes")
        <+> targets_errors values docs release b targets

module _ (sha256 : String → String) (json_loads : String → Option Value) where
  -- The errors about the ConfigMap of a bundle and about the bundle.
  unfoldable pub content_errors :
      Value → List Value → String → Value → String → Value → Result (List String)
  content_errors values docs release configmap raw content = do
    let bundle_sha = "sha256:" <> sha256 raw
    let expected = bundle_map_name release bundle_sha
    immutable ← get configmap "immutable"
    metadata ← get_or configmap "metadata" (dict end)
    name ← get metadata "name"
    refuse (not (is_true immutable)) "generated workload capability ConfigMap must be immutable"
        <+> refuse (not (py_eq name (str expected)))
            "generated workload capability ConfigMap is not content-addressed"
        <+> bundle_errors values docs release
            (record { content = content; digest = bundle_sha; map_name = expected })

  -- The text of the bundle must be there and be JSON.
  unfoldable pub raw_errors : Value → List Value → String → Value → Value → Result (List String)
  unfolding content_errors
  raw_errors values docs release configmap (str raw) = elim (json_loads raw) [
    | none ↦ ok ("generated workload capability ConfigMap is not valid JSON" ∷ [])
    | some content ↦ content_errors values docs release configmap raw content
  ]
  raw_errors values docs release configmap _ =
      ok ("generated workload capability ConfigMap is missing its bundle" ∷ [])

  -- The errors about the ConfigMaps of the bundle, of which there must be one.
  unfoldable pub configmap_errors : Value → List Value → String → List Value → Result (List String)
  unfolding raw_errors
  configmap_errors values docs release (configmap ∷ []) = do
    raw_contents ← get configmap "data"
    raw ← get (or_else raw_contents (dict end)) "workload-capability-bundle.json"
    raw_errors values docs release configmap raw
  configmap_errors values docs release _ =
      ok ("generated workload capabilities must render exactly one ConfigMap" ∷ [])

  unfoldable pub validate_workload_capability_contract :
      Value → List Value → String → Result (List String)
  unfolding configmap_errors
  validate_workload_capability_contract values docs release =
      keep_if is_bundle_map docs >>= λ configmaps. configmap_errors values docs release configmaps
