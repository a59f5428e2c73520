-- ===== src/Listener/Selectors.antt =====
-- `selector`, `peer`, `workload_selector`, `rule`, `pod_selector_matches`: label selectors.
use clavenar_charts.Base.{String, Bool, true, false, not, ◌&&◌, Option, none, some, List, [], ◌∷◌}
use clavenar_charts.Base.{if◌then◌else◌}
use clavenar_charts.Base.Result.{Result, ok, ◌>>=◌, raise, attribute_error, all_of}
use clavenar_charts.Value.{Value, str, dict, Fields, end, field, list, int, ◌▸◌}
use clavenar_charts.Value.Dict.{lookup, or_null}
use clavenar_charts.Value.Equality.{py_eq}
use clavenar_charts.Value.Access.{get, get_or, each, is_in, hashed}
use clavenar_charts.Value.Number.{to_int}

abbrev pub component_label : String
component_label = "app.kubernetes.io/component"

abbrev pub name_label : String
name_label = "app.kubernetes.io/name"

abbrev pub namespace_label : String
namespace_label = "kubernetes.io/metadata.name"

unfoldable pub selector : String → Value → Value
selector release component = dict (
    (name_label, str "clavenar")
    ▸ ("app.kubernetes.io/instance", str release)
    ▸ (component_label, component)
    ▸ end)

abbrev pub match_labels : Value → Value
match_labels labels = dict (("podSelector", dict (("matchLabels", labels) ▸ end)) ▸ end)

unfoldable pub peer : String → Value → Value
unfolding selector
peer release component = match_labels (selector release component)

unfoldable pub workload_selector : String → Value → Value
unfolding selector
workload_selector release service =
    if py_eq service (str "nats")
    then dict (
        (name_label, str "nats")
        ▸ ("app.kubernetes.io/instance", str release)
        ▸ (component_label, str "nats")
        ▸ end)
    else if py_eq service (str "vault")
    then dict (
        (name_label, str "vault")
        ▸ ("app.kubernetes.io/instance", str release)
        ▸ ("component", str "server")
        ▸ end)
    else selector release service

-- `peers` is `none` where the rule admits every source.
unfoldable pub rule : Value → Option (List Value) → Result Value
rule port peers = do
  number ← to_int port
  let ports = list (dict (("protocol", str "TCP") ▸ ("port", int number) ▸ end) ∷ [])
  ok (elim peers [
    | none ↦ dict (("ports", ports) ▸ end)
    | some sources ↦ dict (("ports", ports) ▸ ("from", list sources) ▸ end)
  ])

-- `all(labels.get(k) == v for k, v in …)`
unfoldable pub labels_match : Fields → Fields → Bool
labels_match end labels = true
labels_match (field k v wanted) labels =
    py_eq (or_null (lookup k labels)) v && labels_match wanted labels

-- One of the `matchExpressions`: only the two existence operators are understood.
unfoldable pub expression_matches : Fields → Value → Result Bool
expression_matches labels expression = do
  key ← get expression "key"
  operator ← get expression "operator"
  if py_eq operator (str "DoesNotExist")
      then (is_in key (dict labels) >>= λ present. ok (not present))
      else if py_eq operator (str "Exists")
      then is_in key (dict labels)
      else hashed operator >>= λ _. ok false

-- `d.items()`
abbrev pub items_of_dict : Value → Result Fields
items_of_dict (dict fs) = ok fs
items_of_dict _ = raise attribute_error

unfoldable pub pod_selector_matches : Value → Fields → Result Bool
pod_selector_matches selector_spec labels = do
  wanted ← get_or selector_spec "matchLabels" (dict end)
  wanted_fields ← items_of_dict wanted
  if not (labels_match wanted_fields labels) then ok false else do
    expressions ← get_or selector_spec "matchExpressions" (list [])
    conditions ← each expressions
    all_of (expression_matches labels) conditions
