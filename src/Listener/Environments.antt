-- ===== src/Listener/Environments.antt =====
-- `validate_service_env_uniqueness`: each variable of a service container is set once.
pub mod Unique
use clavenar_charts.Base.{ℕ, suc, String, ◌<>◌, Bool, not, List, [], ◌∷◌, ltb, if◌then◌else◌}
use clavenar_charts.Base.Lists.{filter, is_empty}
use clavenar_charts.Base.Text.{has_prefix}
use clavenar_charts.Base.Result.{Result, ok, ◌>>=◌, traverse, gather}
use clavenar_charts.Value.{Value, str, dict, end, list, texts}
use clavenar_charts.Value.Dict.{lookup, or_null}
use clavenar_charts.Value.Equality.{py_eq, member, set_of}
use clavenar_charts.Value.Access.{get, get_or, each, or_else, hashed, as_text}
use clavenar_charts.Value.Print.{text_of}
use clavenar_charts.Value.Sort.{sort_by, value_leb}
use clavenar_charts.Listener.Peers.{complain}

abbrev pub service_containers : List Value
service_containers = texts (
    "proxy" ∷ "brain" ∷ "policy-engine" ∷ "ledger" ∷ "hil" ∷ "identity" ∷ "deep-review"
    ∷ "assurance" ∷ "console" ∷ [])

-- The names of the entries that are mappings.
unfoldable pub entry_names : List Value → List Value
entry_names [] = []
entry_names (dict fs ∷ entries) = or_null (lookup "name" fs) ∷ entry_names entries
entry_names (_ ∷ entries) = entry_names entries

-- `names.count(name)`
unfoldable pub occurrences : List Value → Value → ℕ
occurrences [] name = 0
occurrences (x ∷ xs) name =
    let rest = occurrences xs name in if py_eq x name then suc rest else rest

-- `sorted({name for name in names if names.count(name) > 1})`
unfoldable pub duplicates_of : List Value → Result (List Value)
duplicates_of names = do
  repeated ← traverse hashed (filter (λ name. ltb 1 (occurrences names name)) names)
  sort_by value_leb (set_of repeated)

-- The round of the inner loop. A container that is not a service's is passed over.
unfoldable pub container_errors : String → Value → Result (List String)
container_errors deployment_name container = do
  raw_name ← get container "name"
  name ← hashed raw_name
  if not (member service_containers name) then ok [] else do
    raw ← get_or container "env" (list [])
    entries ← each (or_else raw (list []))
    duplicates ← duplicates_of (entry_names entries)
    ok (
        complain (not (is_empty duplicates)) (
          "Deployment "
          <> deployment_name
          <> " container "
          <> text_of name
          <> " has duplicate environment variables "
          <> text_of (list duplicates)))

-- The containers of a Deployment, of none if it says nothing.
unfoldable pub containers_of : Value → Result (List Value)
containers_of deployment = do
  spec ← get_or deployment "spec" (dict end)
  template ← get_or spec "template" (dict end)
  pod ← get_or template "spec" (dict end)
  raw ← get_or pod "containers" (list [])
  each (or_else raw (list []))

-- The round of the outer loop: only the Deployments of the release are read.
unfoldable pub deployment_errors : String → Value → Result (List String)
deployment_errors release deployment = do
  kind ← get deployment "kind"
  if not (py_eq kind (str "Deployment")) then ok [] else do
    metadata ← get_or deployment "metadata" (dict end)
    raw_name ← get_or metadata "name" (str "")
    name ← as_text raw_name
    if not (has_prefix name (release <> "-"))
        then ok []
        else do containers ← containers_of deployment; gather (container_errors name) containers

unfoldable pub validate_service_env_uniqueness : List Value → String → Result (List String)
validate_service_env_uniqueness docs release = gather (deployment_errors release) docs
