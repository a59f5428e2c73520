-- ===== src/Listener/Ledger.antt =====
-- `validate_ledger_trusted_proxy_contract`: the rendered ledger against the values.
pub mod Rules
pub mod Governed
use clavenar_charts.Base.{
  String, ◌<>◌, Bool, not, List, [], ◌∷◌, ◌++◌, nat_eq, if◌then◌else◌, false,
}
use clavenar_charts.Base.Lists.{length}
use clavenar_charts.Base.Result.{Result, ok, ◌>>=◌, keep_if, gather, any_of}
use clavenar_charts.Value.{Value, str, dict, end, list, num, ◌▸◌}
use clavenar_charts.Value.Equality.{py_eq, member}
use clavenar_charts.Value.Access.{truthy, get, get_or, each, or_else, is_in}
use clavenar_charts.Value.Print.{decimal}
use clavenar_charts.Listener.Values.{value_at}
use clavenar_charts.Listener.Rendered.{is_document, has_name}
use clavenar_charts.Listener.Peers.{complain}
use clavenar_charts.Listener.Profile.{trusted_spiffe, require_trusted, trusted_peers}

-- `[entry.get("value") for entry in entries if entry.get("name") == name]`
unfoldable pub values_named : String → List Value → Result (List Value)
values_named name entries = keep_if (has_name name) entries >>= λ chosen.
    gather (λ entry. get entry "value" >>= λ v. ok (v ∷ [])) chosen

abbrev pub mtls_ports : Value
mtls_ports = list (dict (("protocol", str "TCP") ▸ ("port", num 8183) ▸ end) ∷ [])

-- The rule of the configured peers, on the mTLS port alone.
unfoldable pub is_exact_rule : Value → Value → Result Bool
is_exact_rule peers entry = do
  sources ← get entry "from"
  if not (py_eq sources peers)
      then ok false
      else do ports ← get entry "ports"; ok (py_eq ports mtls_ports)

-- A configured peer is among the sources of a rule.
unfoldable pub admits_any : Value → Value → Result Bool
admits_any peers entry = do
  configured ← each peers
  any_of (λ p. get entry "from" >>= λ sources. is_in p (or_else sources (list []))) configured

unfoldable pub leak_errors : Value → List Value → Value → Result (List String)
leak_errors peers exact entry = if member exact entry then ok [] else (do
  leaked ← admits_any peers entry
  ok (complain leaked "configured website peer leaked onto a non-governed ledger rule"))

-- The errors about the rules of the ledger's policies, of which there must be one.
unfoldable pub rule_errors : Value → List Value → Result (List String)
rule_errors peers (policy ∷ []) = do
  spec ← get_or policy "spec" (dict end)
  raw ← get_or spec "ingress" (list [])
  ingress ← each (or_else raw (list []))
  exact ← keep_if (is_exact_rule peers) ingress
  leaks ← gather (leak_errors peers exact) ingress
  ok (
      complain (not (nat_eq (length exact) 1))
        "configured website peer must have exactly one ledger mTLS-only rule"
      ++ leaks)
rule_errors peers _ = ok ("configured ledger trusted proxy has no single ledger NetworkPolicy" ∷ [])

-- The errors about the configured peers, where there are any.
unfoldable pub peer_errors : Value → List Value → String → Result (List String)
peer_errors values docs release = if not (truthy (trusted_peers values)) then ok [] else (do
  policies ← keep_if (is_document "NetworkPolicy" (release <> "-ledger")) docs
  rule_errors (trusted_peers values) policies)

-- `"true" if value_at(…) else "false"`
unfoldable pub expected_require : Value → Value
expected_require values = str (if require_trusted values then "true" else "false")

unfoldable pub expected_spiffe : Value → List Value
expected_spiffe values = if truthy (trusted_spiffe values) then trusted_spiffe values ∷ [] else []

-- The errors about the environment of the ledger's containers, of which there must be one.
unfoldable pub ledger_container_errors : Value → List Value → Result (List String)
ledger_container_errors values (container ∷ []) = do
  raw ← get_or container "env" (list [])
  entries ← each (or_else raw (list []))
  required ← values_named "CLAVENAR_LEDGER_REQUIRE_TRUSTED_PROXY" entries
  spiffe ← values_named "CLAVENAR_LEDGER_TRUSTED_PROXY_SPIFFE" entries
  ok (
      complain (not (py_eq (list required) (list (expected_require values ∷ []))))
        "ledger must carry exactly one governed trusted-proxy enforcement boolean"
      ++ complain (not (py_eq (list spiffe) (list (expected_spiffe values))))
          "ledger governed trusted-proxy SPIFFE does not match values")
ledger_container_errors values containers = ok (
    ("ledger Deployment must contain exactly one ledger container; found "
      <> decimal (length containers))
    ∷ [])

-- The containers named `ledger` of a Deployment.
unfoldable pub ledger_containers_of : Value → Result (List Value)
ledger_containers_of deployment = do
  spec ← get_or deployment "spec" (dict end)
  template ← get_or spec "template" (dict end)
  pod ← get_or template "spec" (dict end)
  raw ← get_or pod "containers" (list [])
  containers ← each raw
  keep_if (has_name "ledger") containers

-- The errors about the ledger's Deployments, of which there must be one; the peers are read only if
-- its container is single.
unfoldable pub ledger_errors : Value → List Value → String → List Value → Result (List String)
ledger_errors values docs release (deployment ∷ []) = do
  containers ← ledger_containers_of deployment
  environment ← ledger_container_errors values containers
  peers ← (if nat_eq (length containers) 1 then peer_errors values docs release else ok [])
  ok (environment ++ peers)
ledger_errors values docs release deployments =
    ok (("ledger must render exactly one Deployment; found " <> decimal (length deployments)) ∷ [])

unfoldable pub validate_ledger_trusted_proxy_contract :
    Value → List Value → String → Result (List String)
validate_ledger_trusted_proxy_contract values docs release =
    if not (truthy (value_at values "services.ledger.enabled")) then ok [] else (do
      deployments ← keep_if (is_document "Deployment" (release <> "-ledger")) docs
      ledger_errors values docs release deployments)
