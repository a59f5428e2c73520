-- ===== src/Listener/Rendered.antt =====
-- Reads of the rendered documents that several validators share.
use clavenar_charts.Base.{String, Bool, not, false, List, [], ◌∷◌, if◌then◌else◌}
use clavenar_charts.Base.Result.{Result, ok, ◌>>=◌}
use clavenar_charts.Value.{Value, str, dict, end}
use clavenar_charts.Value.Equality.{py_eq}
use clavenar_charts.Value.Access.{get, get_or}

-- `doc.get("kind") == kind and doc.get("metadata", {}).get("name") == name`
unfoldable pub is_document : String → String → Value → Result Bool
is_document kind name doc = do
  actual_kind ← get doc "kind"
  if not (py_eq actual_kind (str kind)) then ok false else do
    metadata ← get_or doc "metadata" (dict end)
    actual_name ← get metadata "name"
    ok (py_eq actual_name (str name))

-- `item.get("name") == name`
unfoldable pub has_name : String → Value → Result Bool
has_name name x = get x "name" >>= λ n. ok (py_eq n (str name))

-- `d.get(k, {})…`, along a path.
unfoldable pub get_path : Value → List String → Result Value
get_path v [] = ok v
get_path v (k ∷ ks) = get_or v k (dict end) >>= λ w. get_path w ks
