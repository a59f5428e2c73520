-- ===== src/Nats/Documents.antt =====
-- Searches through the rendered documents and through the text of the NATS configuration.
use clavenar_charts.Base.{String, ◌<>◌, Bool, false, Option, none, some, List}
use clavenar_charts.Base.{if◌then◌else◌}
use clavenar_charts.Base.Text.{has_infix, partition}
use clavenar_charts.Base.Result.{Result, ok, raise, ◌>>=◌, contract_error, stop_iteration, find_of}
use clavenar_charts.Value.{Value, str, dict, end}
use clavenar_charts.Value.Equality.{py_eq}
use clavenar_charts.Value.Access.{get, get_or, is_dict}

-- `_fail(scope, reason)`
unfoldable pub fail {ℓ} : {A : Type ℓ} → String → String → Result A
fail scope reason = raise (contract_error (scope <> ": " <> reason))

-- `if bad: _fail(scope, reason)`
unfoldable pub fail_if : Bool → String → String → Result (Unit {0})
unfolding fail
fail_if bad scope reason = if bad then fail scope reason else ok tt

-- `item.get("kind") == kind and item.get("metadata", {}).get("name") == name`
unfoldable pub is_named : String → String → Value → Result Bool
is_named kind name document = do
  actual_kind ← get document "kind"
  if py_eq actual_kind (str kind)
      then (do
        metadata ← get_or document "metadata" (dict end)
        actual_name ← get metadata "name"
        ok (py_eq actual_name (str name)))
      else ok false

-- `next((… for item in documents if …), None)`
unfoldable pub document_named : String → String → List Value → Result (Option Value)
document_named kind name documents = find_of (is_named kind name) documents

-- `next(… for item in documents if …)`
unfoldable pub require_document : String → String → List Value → Result Value
require_document kind name documents = do
  found ← document_named kind name documents
  elim found [ none ↦ raise stop_iteration | some document ↦ ok document ]

abbrev pub marker : String
marker = "\"authorization\": "

-- `_authorization_from_nats_config`, where `raw_decode` reads the JSON value at the head of a text.
unfoldable pub authorization_from_nats_config : (String → Result Value) → String → Result Value
unfolding fail
authorization_from_nats_config raw_decode text =
    if has_infix text marker
    then (do
      value ← raw_decode (partition text marker).1
      if is_dict value
          then ok value
          else fail "rendered NATS config" "authorization must be an object")
    else fail "rendered NATS config" "authorization block is missing"
