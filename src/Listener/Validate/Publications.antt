-- ===== src/Listener/Validate/Publications.antt =====
-- The part of `validate` that compares the published listeners with the ports of the Service objects.
pub mod Matched
pub mod Added
use clavenar_charts.Base.{
  String, ◌<>◌, Bool, not, ◌&&◌, none, some, List, [], ◌∷◌, ◌++◌, if◌then◌else◌,
}
use clavenar_charts.Base.Lists.{any}
use clavenar_charts.Base.Result.{Result, ok, ◌>>=◌, keep_if, gather, traverse}
use clavenar_charts.Value.{Value, str, list, ℤ}
use clavenar_charts.Value.Equality.{py_eq, int_eq}
use clavenar_charts.Value.Access.{truthy, get_or, item, each, hashed}
use clavenar_charts.Value.Number.{to_int}
use clavenar_charts.Value.Print.{text_of, int_text}
use clavenar_charts.Value.Table.{Table, at}
use clavenar_charts.Listener.Condition.{condition_enabled, contract_enabled}
use clavenar_charts.Listener.Errors.{refuse, ◌<+>◌}
use clavenar_charts.Listener.Services.{tls_enabled}
use clavenar_charts.Listener.Validate.Contracts.{report}
use clavenar_charts.Listener.Validate.Matrix.{entries_of}

-- A port of a service.
abbrev pub Publication : Type 0
Publication = Value × ℤ

abbrev pub is_published : List Publication → Value → ℤ → Bool
is_published pubs service port = any (λ p. py_eq p.0 service && int_eq p.1 port) pubs

-- `publications.setdefault(service, set()).add(port)`: the ports of a service stand together.
abbrev add_publication : Value → ℤ → List Publication → List Publication
add_publication service port [] = (service, port) ∷ []
add_publication service port (p ∷ pubs) =
    let later = add_publication service port pubs in
    if py_eq p.0 service && not (any (λ q. py_eq q.0 service) pubs)
    then p ∷ (service, port) ∷ pubs
    else p ∷ later

-- The services and ports that the active listeners publish, by services in the order of their first
-- publication.
unfoldable pub publications : List Value → List Publication → Result (List Publication)
publications [] pubs = ok pubs
publications (listener ∷ rest) pubs = do
  published ← item listener "servicePublished"
  next ←
      (if not (truthy published) then ok pubs else do
        raw_service ← item listener "service"
        service ← hashed raw_service
        raw ← item listener "servicePort"
        port ← to_int raw
        ok (if is_published pubs service port then pubs else add_publication service port pubs))
  publications rest next

abbrev pub aliases : Table String
aliases =
    (str "proxy-alias", "proxy")
    ∷ (str "identity-alias", "identity")
    ∷ (str "brain-alias", "brain")
    ∷ (str "policy-engine-alias", "policy-engine")
    ∷ (str "ledger-alias", "ledger")
    ∷ (str "hil-alias", "hil")
    ∷ (str "assurance-alias", "assurance")
    ∷ (str "nats-headless", "nats")
    ∷ (str "vault-internal", "vault")
    ∷ []

-- `aliases.get(id, id)`
unfoldable pub aliased : Value → Value
aliased id = elim (at id aliases) [ none ↦ id | some service ↦ str service ]

-- The ports of a Service object that are enabled, those for TLS only under TLS.
unfoldable pub enabled_ports : Value → Value → Result (List Value)
enabled_ports values object = do
  raw ← item object "ports"
  plain ← each raw
  extra ←
      (if tls_enabled values then (get_or object "tlsPorts" (list []) >>= λ t. each t) else ok [])
  keep_if (λ port. contract_enabled port values) (plain ++ extra)

unfoldable pub port_errors :
    List Publication → Value → Value → Value → Result (List String × List Publication)
port_errors pubs id service port_spec = do
  raw ← item port_spec "port"
  port ← to_int raw
  errors ← refuse (not (is_published pubs service port)) (
      "Service object "
      <> text_of id
      <> " port "
      <> int_text port
      <> " has no active published listener")
  ok (errors, (service, port) ∷ [])

-- The errors about one Service object, with the ports that it publishes.
unfoldable pub object_publications :
    Value → List Publication → Value → Result (List String × List Publication)
object_publications values pubs object = do
  condition ← item object "enabledWhen"
  enabled ← condition_enabled condition values
  if not enabled then ok ([], []) else do
    raw_id ← item object "id"
    id ← hashed raw_id
    ports ← enabled_ports values object
    report (port_errors pubs id (aliased id)) ports

-- The published listener has no Service object.
unfoldable pub ungoverned_errors : List Publication → Publication → Result (List String)
ungoverned_errors objects (service, port) = refuse (not (is_published objects service port)) (
    "published listener "
    <> text_of service
    <> ":"
    <> int_text port
    <> " has no governed Service object")

unfoldable pub publication_errors : Value → Value → List Value → Result (List String)
publication_errors matrix values active = do
  pubs ← publications active []
  raw ← item matrix "serviceObjects"
  objects ← each raw
  (errors, published) ← report (object_publications values pubs) objects
  ok errors <+> gather (ungoverned_errors published) pubs
