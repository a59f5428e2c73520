-- ===== src/Readiness/Contract.antt =====
-- `deep_merge`, `contract_documents`, `verify_source_mirror`, `contract_services` and
-- `helm_dependencies`: the contract's documents.
pub mod Merge
pub mod Mirror
use clavenar_charts.Base.{ℕ, suc, String, ◌<>◌, Bool, true, not, ◌&&◌}
use clavenar_charts.Base.{Option, none, some, List, [], ◌∷◌, ◌==◌, if◌then◌else◌}
use clavenar_charts.Base.Lists.{all}
use clavenar_charts.Base.Result.{Result, ok, raise, ◌>>=◌, ◌>>◌, readiness_error, traverse, gather}
use clavenar_charts.Value.{Value, str, dict, Fields, end, field, list, num, texts}
use clavenar_charts.Value.Dict.{lookup, insert}
use clavenar_charts.Value.Equality.{py_eq, member}
use clavenar_charts.Value.Access.{get, get_or, item, is_in, each, is_list, hashed}
use clavenar_charts.Value.Print.{text_of}
use clavenar_charts.Value.Sort.{sort_by, value_leb}
use clavenar_charts.Value.Table.{Table}
use clavenar_charts.Readiness.Endpoint.{require}

-- The names of the nine applications, sorted.
abbrev pub applications : List String
applications =
    "assurance" ∷ "brain" ∷ "console" ∷ "deep-review" ∷ "hil" ∷ "identity" ∷ "ledger"
    ∷ "policy-engine" ∷ "proxy" ∷ []

abbrev pub helm_inventory : List Value
helm_inventory = str "nats" ∷ str "vault" ∷ str "upstream-stub" ∷ texts applications

unfoldable mutual
  unfolding insert

  -- `deep_merge`, on the entries of the two dicts.
  pub deep_merge : Fields → Fields → Fields
  deep_merge base end = base
  deep_merge base (field k v rest) = deep_merge (insert k (deep_value (lookup k base) v) base) rest

  -- The value of a key: merged where both are dicts.
  pub deep_value : Option Value → Value → Value
  deep_value old (dict fs) = elim old [
    | some w ↦ elim w [ dict gs ↦ dict (deep_merge gs fs) | _ ↦ dict fs ]
    | none ↦ dict fs
  ]
  deep_value old v = v

-- `"helm" in x.get("topologies", [])`
unfoldable pub in_helm : Value → Result Bool
in_helm x = get_or x "topologies" (list []) >>= λ topologies. is_in (str "helm") topologies

-- Every value once, as `len(ids) == len(set(ids))` says.
unfoldable pub is_nodup : List Value → Bool
is_nodup [] = true
is_nodup (v ∷ vs) = not (member vs v) && is_nodup vs

unfoldable pub same_values : List Value → List Value → Bool
same_values xs ys = all (member ys) xs && all (member xs) ys

-- The services of the Helm topology, by id.
unfoldable pub helm_services : List Value → Result (Table Value)
helm_services = gather (λ service. do
  chosen ← in_helm service
  if not chosen
      then ok []
      else do id ← item service "id"; key ← hashed id; ok ((key, service) ∷ []))

abbrev pub keys_of {ℓ} : {V : Type ℓ} → Table V → List Value
keys_of [] = []
keys_of ((k, v) ∷ rest) = k ∷ keys_of rest

-- The checks of the two loaded documents.
unfoldable pub contract_documents : Value → Value → Result (Unit {0})
contract_documents schema fixture = do
  root ← get schema "type"
  require (py_eq root (str "object")) "readiness schema root must be an object"
  contract ← get fixture "contract"
  require (py_eq contract (str "clavenar.dependency-readiness/v1"))
      "unexpected readiness contract identifier"
  version ← get fixture "schemaVersion"
  require (py_eq version (num 1)) "unexpected readiness schema version"
  services ← get fixture "services"
  require (is_list services) "readiness services must be an array"
  entries ← each services
  ids ← traverse (λ entry. get entry "id") entries
  hashable ← traverse hashed ids
  require (is_nodup hashable) "readiness service IDs must be unique"
  helm ← helm_services entries
  sorted ← sort_by value_leb (keys_of helm)
  require (same_values (keys_of helm) helm_inventory)
      ("unexpected Helm readiness inventory: " <> text_of (list sorted))

-- A directory with the checked-out sources: its name, and its files by relative path.
pub record SourceRoot : Type 0 where
  pub name : String
  pub file_at : String → Option String

abbrev pub mirror_path : SourceRoot → String → String
mirror_path root file =
    if root.name == "clavenar-specs"
    then "contracts/" <> file
    else "clavenar-specs/contracts/" <> file

-- The local contract files by name, each compared with its mirror: the number of checks.
unfoldable pub verify_mirrors : SourceRoot → List (String × String) → Result ℕ
verify_mirrors root [] = ok 0
verify_mirrors root ((file, content) ∷ files) = do
  source ← elim (root.file_at (mirror_path root file)) [
    | none ↦ raise (readiness_error ("missing public source mirror " <> mirror_path root file))
    | some text ↦ ok text
  ]
  require (content == source) ("public mirror drift: " <> file)
  checks ← verify_mirrors root files
  ok (suc checks)

unfoldable pub verify_source_mirror : Option SourceRoot → Bool → List (String × String) → Result ℕ
verify_source_mirror none required files = do
  require (not required) "--require-source needs --source-root"
  ok 0
verify_source_mirror (some root) required files = verify_mirrors root files

unfoldable pub contract_services : Value → Result (Table Value)
contract_services fixture = do
  raw ← item fixture "services"
  services ← each raw
  helm_services services

-- The services that must be ready before this one, in the Helm topology.
unfoldable pub helm_dependencies : Value → Result (List Value)
helm_dependencies service = do
  raw ← item service "startupAfter"
  edges ← each raw
  gather
      (λ edge. do
        chosen ← in_helm edge
        if not chosen then ok [] else do name ← item edge "service"; ok (name ∷ []))
      edges
