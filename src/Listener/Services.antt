-- ===== src/Listener/Services.antt =====
-- `expected_services` and `normalized_service_spec`: the Service specs that the matrix governs.
pub mod Inventory
pub mod Ports
use clavenar_charts.Base.{String, ◌<>◌, Bool, true, false, not, ◌||◌, Option, none, some}
use clavenar_charts.Base.{List, [], ◌∷◌, ◌++◌, if◌then◌else◌}
use clavenar_charts.Base.Result.{Result, ok, raise, ◌>>=◌, value_error, keep_if, traverse}
use clavenar_charts.Value.{Value, bool, str, dict, Fields, end, list, ℤ, ◌▸◌}
use clavenar_charts.Value.Dict.{lookup, has_key, insert, erase}
use clavenar_charts.Value.Equality.{py_eq}
use clavenar_charts.Value.Access.{truthy, get, get_or, item, each, as_text, or_else, hashed}
use clavenar_charts.Value.Number.{to_int}
use clavenar_charts.Value.Print.{text_of}
use clavenar_charts.Value.Sort.{sort_by, port_key_leb}
use clavenar_charts.Listener.Values.{value_at}
use clavenar_charts.Listener.Condition.{condition_enabled, contract_enabled}
use clavenar_charts.Listener.Selectors.{selector, workload_selector, items_of_dict}
use clavenar_charts.Listener.Format.{format}

-- `d.setdefault(k, v)`
abbrev pub set_default : String → Value → Fields → Fields
set_default k v fs = if has_key k fs then fs else insert k v fs

-- `bool(value_at(values, "tlsBundle.secretName"))`
unfoldable pub tls_enabled : Value → Bool
tls_enabled values = truthy (value_at values "tlsBundle.secretName")

-- The application protocol of a port that follows TLS.
unfoldable pub with_app_protocol : Bool → Fields → Fields
with_app_protocol tls port = elim (lookup "appProtocol" port) [
  | none ↦ port
  | some protocol ↦
      if py_eq protocol (str "tlsWhenTlsElseTcp")
      then insert "appProtocol" (str (if tls then "tls" else "tcp")) port
      else port
]

-- A port of the matrix without its conditions, with the protocols written out.
unfoldable pub governed_port : Bool → Fields → Fields
governed_port tls port =
    set_default "protocol" (str "TCP")
      (with_app_protocol tls (erase "disabledWhen" (erase "enabledWhen" port)))

-- The sort key of a port, with the port.
unfoldable pub keyed_port : Value → Result ((ℤ × Value) × Value)
keyed_port port = do
  raw ← item port "port"
  number ← to_int raw
  name ← item port "name"
  ok ((number, name), port)

unfoldable pub drop_keys {ℓ} : {K : Type ℓ} → List (K × Value) → List Value
drop_keys [] = []
drop_keys ((k, v) ∷ rest) = v ∷ drop_keys rest

-- `sorted(ports, key=lambda port: (int(port["port"]), port["name"]))`
unfoldable pub sort_ports : List Value → Result (List Value)
sort_ports ports = do
  keyed ← traverse keyed_port ports
  sorted ← sort_by (λ a b. port_key_leb a.0 b.0) keyed
  ok (drop_keys sorted)

-- The ports of a Service object that are enabled, those for TLS only under TLS.
unfoldable pub service_ports : Value → Value → Bool → Result (List Value)
service_ports object values tls = do
  raw ← item object "ports"
  declared ← each raw
  plain ← keep_if (λ port. contract_enabled port values) declared
  extra ←
      (if tls
        then (do
          raw_tls ← get_or object "tlsPorts" (list [])
          declared_tls ← each raw_tls
          keep_if (λ port. contract_enabled port values) declared_tls)
        else ok [])
  traverse (λ port. items_of_dict port >>= λ fs. ok (dict (governed_port tls fs))) (plain ++ extra)

-- `none` for an object whose Service selects no Pods.
unfoldable pub service_selector : Value → String → Result (Option Value)
service_selector object release = do
  owner ← item object "selectorOwner"
  if py_eq owner (str "none") then ok none else (do
    key ← hashed owner
    if py_eq key (str "nats") || py_eq key (str "vault")
        then ok (some (workload_selector release owner))
        else (do id ← item object "id"; ok (some (selector release id))))

-- Whether the Service also publishes addresses that are not ready.
unfoldable pub publishes_not_ready : Value → Value → Result Bool
publishes_not_ready object values = do
  always ← get object "publishNotReadyAddresses"
  if truthy always then ok true else do
    condition ← get object "publishNotReadyAddressesWhen"
    if truthy condition then condition_enabled condition values else ok false

unfoldable pub service_spec :
    Value → Value → String → String → List Value → Option Value → Result Value
service_spec object values release namespace ports owner_selector = do
  type_name ← item object "type"
  sorted ← sort_ports ports
  let base = ("type", type_name) ▸ ("ports", list sorted) ▸ end
  let selected : Fields = elim owner_selector [ none ↦ base | some s ↦ insert "selector" s base ]
  headless ← get object "headless"
  let addressed = if truthy headless then insert "clusterIP" (str "None") selected else selected
  early ← publishes_not_ready object values
  let published =
      if early then insert "publishNotReadyAddresses" (bool true) addressed else addressed
  external ← get object "externalName"
  if truthy external
      then (do
        template ← as_text external
        name ← format template (("release", release) ∷ ("namespace", namespace) ∷ [])
        ok (dict (insert "externalName" (str name) published)))
      else ok (dict published)

-- One round of the loop over the Service objects.
unfoldable pub add_service : Value → String → String → Fields → Value → Result Fields
add_service values release namespace result object = do
  condition ← item object "enabledWhen"
  enabled ← condition_enabled condition values
  if not enabled then ok result else do
    ports ← service_ports object values (tls_enabled values)
    owner_selector ← service_selector object release
    raw_name ← item object "name"
    template ← as_text raw_name
    name ← format template (("release", release) ∷ [])
    if has_key name result
        then raise (value_error ("duplicate Service object name " <> name))
        else (do
          spec ← service_spec object values release namespace ports owner_selector
          ok (insert name spec result))

unfoldable pub add_services : Value → String → String → Fields → List Value → Result Fields
add_services values release namespace result [] = ok result
add_services values release namespace result (object ∷ objects) =
    add_service values release namespace result object >>= λ next.
    add_services values release namespace next objects

-- The governed specs by Service name.
unfoldable pub expected_services : Value → Value → String → String → Result Fields
expected_services matrix values release namespace = do
  raw ← item matrix "serviceObjects"
  objects ← each raw
  add_services values release namespace end objects

-- A rendered port with the protocol that Kubernetes assumes.
unfoldable pub normalized_port : Value → Result Value
normalized_port port =
    items_of_dict port >>= λ fs. ok (dict (set_default "protocol" (str "TCP") fs))

-- The sort key of a rendered port: its number and its name as a text.
unfoldable pub keyed_rendered_port : Value → Result ((ℤ × Value) × Value)
keyed_rendered_port port = do
  raw ← item port "port"
  number ← to_int raw
  name ← get_or port "name" (str "")
  ok ((number, str (text_of name)), port)

-- A rendered spec with the defaults of Kubernetes and its ports in order.
unfoldable pub normalized_service_spec : Value → Result Value
normalized_service_spec spec = do
  fields ← items_of_dict spec
  let typed = set_default "type" (str "ClusterIP") fields
  raw ← get (dict typed) "ports"
  declared ← each (or_else raw (list []))
  ports ← traverse normalized_port declared
  keyed ← traverse keyed_rendered_port ports
  sorted ← sort_by (λ a b. port_key_leb a.0 b.0) keyed
  ok (dict (insert "ports" (list (drop_keys sorted)) typed))
