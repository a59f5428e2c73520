-- ===== src/Listener/Workload.antt =====
-- The checks of a rendered workload that the validators of console, brain and assurance share:
-- container ports, governed environment and probes.
pub mod Accepted
pub mod Tls
pub mod Certificate
use clavenar_charts.Base.{
  ℕ, String, ◌<>◌, Bool, true, not, Option, none, some, List, [], ◌∷◌, ◌++◌, nat_eq, if◌then◌else◌,
}
use clavenar_charts.Base.Lists.{filter, is_empty, contains}
use clavenar_charts.Base.Result.{Result, ok, ◌>>=◌, keep_if, gather, traverse}
use clavenar_charts.Value.{Value, str, dict, int, negsuc, Fields, end, list, num, texts}
use clavenar_charts.Value.Dict.{insert, keys}
use clavenar_charts.Value.Equality.{py_eq}
use clavenar_charts.Value.Access.{get, get_or, item, each, or_else, is_in, hashed}
use clavenar_charts.Value.Number.{to_int}
use clavenar_charts.Value.Print.{text_of, decimal}
use clavenar_charts.Value.Sort.{sort_texts}
use clavenar_charts.Value.Table.{Table, table_eq, table_text}
use clavenar_charts.Value.Json.{Style, dumps}
use clavenar_charts.Listener.Environments.{occurrences}
use clavenar_charts.Listener.Errors.{refuse, refuse_if, ◌<+>◌}
use clavenar_charts.Listener.Rendered.{has_name}

-- `[c for c in pod_spec.get("containers", []) if c.get("name") == name]`
unfoldable pub containers_named : String → Value → Result (List Value)
containers_named name pod_spec = do
  raw ← get_or pod_spec "containers" (list [])
  containers ← each raw
  keep_if (has_name name) containers

-- The entry of one port that has a number.
unfoldable pub port_entry : Value → Result (Table Value)
port_entry port = do
  numbered ← is_in (str "containerPort") port
  if not numbered then ok [] else do
    raw_name ← get port "name"
    raw ← item port "containerPort"
    number ← to_int raw
    name ← hashed raw_name
    ok ((name, int number) ∷ [])

-- The numbers of the container's ports by name.
unfoldable pub container_ports : Value → Result (Table Value)
container_ports container = do
  raw ← get_or container "ports" (list [])
  ports ← each raw
  gather port_entry ports

unfoldable pub ports_errors : String → Table Value → Value → Result (List String)
ports_errors who expected container = do
  actual ← container_ports container
  refuse (not (table_eq actual expected)) (
      who
      <> " named container ports "
      <> table_text actual
      <> " != governed ports "
      <> table_text expected)

-- `container.get("env", []) or []`
unfoldable pub env_entries : Value → Result (List Value)
env_entries container = get_or container "env" (list []) >>= λ raw. each (or_else raw (list []))

-- `[entry.get("name") for entry in entries]`
unfoldable pub env_names : List Value → Result (List Value)
env_names entries = traverse (λ entry. get entry "name") entries

-- The name, if it is governed.
unfoldable pub governed_name : List String → Value → Option String
governed_name names (str s) = if contains names s then some s else none
governed_name names _ = none

-- `{entry.get("name"): entry.get("value") for entry in entries if entry.get("name") in names}`,
-- after the entries of `acc`.
unfoldable pub governed_env : List String → Fields → List Value → Result Fields
governed_env names acc [] = ok acc
governed_env names acc (entry ∷ entries) = do
  raw_name ← get entry "name"
  name ← hashed raw_name
  next ← elim (governed_name names name) [
    | none ↦ ok acc
    | some key ↦ get entry "value" >>= λ value. ok (insert key value acc)
  ]
  governed_env names next entries

-- The names that do not occur once.
unfoldable pub not_once : List Value → List String → List String
not_once counted names = filter (λ name. not (nat_eq (occurrences counted (str name)) 1)) names

-- `json.dumps(d, sort_keys=True)`
abbrev pub sorted_style : Style
sorted_style = record {
  item_separator = ", ";
  key_separator = ": ";
  sort_keys = true;
  ensure_ascii = true;
}

unfoldable pub once_errors : String → List String → List Value → Result (List String)
once_errors message names counted =
    let missing = sort_texts (not_once counted names) in
    refuse (not (is_empty missing)) (message <> text_of (list (texts missing)))

-- The variables with the governed names are exactly the expected ones.
unfoldable pub drift_errors : String → List String → Fields → List Value → Result (List String)
drift_errors message names expected entries = do
  actual ← governed_env names end entries
  refuse (not (py_eq (dict actual) (dict expected))) (
      message
      <> "actual="
      <> dumps sorted_style (dict actual)
      <> " expected="
      <> dumps sorted_style (dict expected))

-- `(container.get(probe) or {}).get("httpGet") or {}`
unfoldable pub probe_http : String → Value → Result Value
probe_http probe container = do
  raw ← get container probe
  http ← get (or_else raw (dict end)) "httpGet"
  ok (or_else http (dict end))

-- The probe does not go to the path and port. The port is read only if the path is right.
unfoldable pub probe_drifts : String → String → ℕ → Value → Result Bool
probe_drifts probe path port container = do
  http ← probe_http probe container
  actual ← get http "path"
  if not (py_eq actual (str path)) then ok true else do
    raw ← get_or http "port" (int (negsuc 0))
    number ← to_int raw
    ok (not (py_eq (int number) (num port)))

unfoldable pub probe_errors : String → String → ℕ → String → String → Value → Result (List String)
probe_errors who must port probe path container =
    refuse_if (probe_drifts probe path port container)
      (who <> " " <> probe <> must <> path <> " on port " <> decimal port)

-- The two probes that the services have.
unfoldable pub probes_errors : String → String → ℕ → Value → Result (List String)
probes_errors who must port container =
    probe_errors who must port "livenessProbe" "/health" container
    <+> probe_errors who must port "readinessProbe" "/readyz" container
