-- ===== src/Listener/Policies.antt =====
-- `expected_policies`: the NetworkPolicy specs that the matrix governs.
pub mod Sources
pub mod Ingress
use clavenar_charts.Base.{String, ◌<>◌, not, ◌&&◌, Option, none, some}
use clavenar_charts.Base.{List, [], ◌∷◌, if◌then◌else◌}
use clavenar_charts.Base.Lists.{is_empty}
use clavenar_charts.Base.Result.{Result, ok, raise, ◌>>=◌, value_error, traverse, gather}
use clavenar_charts.Value.{Value, str, dict, Fields, end, list, ◌▸◌}
use clavenar_charts.Value.Dict.{insert}
use clavenar_charts.Value.Equality.{py_eq}
use clavenar_charts.Value.Access.{truthy, get_or, item, item_at, is_in, each, or_else, hashed}
use clavenar_charts.Value.Print.{text_of}
use clavenar_charts.Listener.Values.{value_at}
use clavenar_charts.Listener.Condition.{contract_enabled}
use clavenar_charts.Listener.Selectors.{
  peer, workload_selector, rule, match_labels, namespace_label,
}

-- The token of a peer list that the values configure, with the path of its peers.
unfoldable pub configured_path : Value → Option String
configured_path token =
    if py_eq token (str "configured-console-operator-peers")
    then some "networkPolicy.console.operatorMtls.allowedPeers"
    else if py_eq token (str "configured-console-passkey-peers")
    then some "networkPolicy.console.passkey.allowedPeers"
    else if py_eq token (str "configured-console-demo-peers")
    then some "networkPolicy.console.demo.allowedPeers"
    else if py_eq token (str "configured-ledger-trusted-proxy-peers")
    then some "networkPolicy.ledger.trustedProxy.allowedPeers"
    else if py_eq token (str "configured-nats-demo-mint-peers")
    then some "networkPolicy.nats.demoMint.allowedPeers"
    else if py_eq token (str "configured-demo-reset-peers")
    then some "networkPolicy.demoReset.allowedPeers"
    else none

abbrev pub namespace_peer : Value → Value
namespace_peer namespace = dict (
    ("namespaceSelector", dict (("matchLabels", dict ((namespace_label, namespace) ▸ end)) ▸ end))
    ▸ end)

-- `value_at(values, path) or []`, as the code extends a list by it.
unfoldable pub configured_peers : Value → String → Result (List Value)
configured_peers values path = each (or_else (value_at values path) (list []))

-- The peers that one token stands for.
unfoldable pub token_peers : Value → Value → String → Value → Value → Result (List Value)
token_peers matrix values release service token =
    let prometheus = value_at values "networkPolicy.prometheusNamespaceLabel" in
    let simulator = value_at values "networkPolicy.simulator.allowedPeers" in
    let from_path = λ (path : String). configured_peers values path in
    if py_eq token (str "prometheus")
    then (if truthy prometheus
        then ok (namespace_peer prometheus ∷ [])
        else raise (
            value_error (
              "NetworkPolicy contract "
              <> text_of service
              <> " enabled Prometheus without a namespace")))
    else elim (configured_path token) [
      | some path ↦ from_path path
      | none ↦
          if py_eq token (str "simulator") && truthy simulator
          then each simulator
          else if py_eq token (str "vault")
          then ok (match_labels (workload_selector release service) ∷ [])
          else do
            selectors ← get_or matrix "peerSelectors" (dict end)
            known ← is_in token selectors
            if known
                then (do
                  table ← item matrix "peerSelectors"
                  chosen ← item_at table token
                  ok (chosen ∷ []))
                else ok (peer release token ∷ [])
    ]

-- `none` for a rule that admits any peer, which it must name alone.
unfoldable pub rule_sources : Value → Value → String → Value → Value → Result (Option (List Value))
rule_sources matrix values release service tokens = do
  open_to_any ← is_in (str "any") tokens
  if open_to_any
      then (if py_eq tokens (list (str "any" ∷ []))
          then ok none
          else raise (
              value_error (
                "NetworkPolicy contract "
                <> text_of service
                <> " mixes 'any' with selected peers")))
      else (do
        named ← each tokens
        sources ← gather (token_peers matrix values release service) named
        ok (some sources))

-- A listener under its key `(service, listenerId)`.
unfoldable pub keyed_listener : Value → Result ((Value × Value) × Value)
keyed_listener listener = do
  service ← item listener "service"
  id ← item listener "listenerId"
  service_key ← hashed service
  id_key ← hashed id
  ok ((service_key, id_key), listener)

-- `listener_by_id.get(key)`: the last listener of the key, as a dict keeps it.
unfoldable pub listener_at : Value → Value → List ((Value × Value) × Value) → Option Value
listener_at service id [] = none
listener_at service id (((s, i), listener) ∷ rest) = elim (listener_at service id rest) [
  | some later ↦ some later
  | none ↦ if py_eq s service && py_eq i id then some listener else none
]

-- One governed ingress rule; a rule that is not enabled gives none.
unfoldable pub ingress_rule :
    Value → Value → String → Value → List ((Value × Value) × Value) → Value → Result (List Value)
ingress_rule matrix values release service by_id governed = do
  enabled ← contract_enabled governed values
  if not enabled then ok [] else do
    raw_id ← item governed "listenerId"
    service_key ← hashed service
    id ← hashed raw_id
    elim (listener_at service_key id by_id) [
      | none ↦ raise (
          value_error (
            "NetworkPolicy contract "
            <> text_of service
            <> "/"
            <> text_of id
            <> " references a missing listener"))
      | some listener ↦ do
        tokens ← item governed "peers"
        sources ← rule_sources matrix values release service tokens
        port ← item listener "containerPort"
        built ← rule port sources
        ok (built ∷ [])
    ]

abbrev pub egress_destination : String → Value → Value
egress_destination release token =
    if py_eq token (str "cluster-dns")
    then namespace_peer (str "kube-system")
    else peer release token

unfoldable pub egress_rule : String → Value → Result Value
egress_rule release governed = do
  raw ← item governed "peers"
  tokens ← each raw
  destinations ← traverse (λ token. ok (egress_destination release token)) tokens
  ports ← item governed "ports"
  ok (dict (("to", list destinations) ▸ ("ports", ports) ▸ end))

-- The spec of one enabled contract, under the name of its policy.
unfoldable pub policy_of :
    Value → Value → String → List ((Value × Value) × Value) → Value → Result (String × Value)
policy_of matrix values release by_id contract = do
  service ← item contract "service"
  owner ← item contract "owner"
  raw_rules ← get_or contract "rules" (list [])
  governed ← each raw_rules
  rules ← gather (ingress_rule matrix values release service by_id) governed
  raw_egress ← get_or contract "egressRules" (list [])
  governed_egress ← each raw_egress
  egress ← traverse (egress_rule release) governed_egress
  let base =
      ("podSelector", dict (("matchLabels", workload_selector release service) ▸ end))
      ▸ ("policyTypes", list (str "Ingress" ∷ (if is_empty egress then [] else str "Egress" ∷ [])))
      ▸ ("ingress", list rules)
      ▸ end
  let spec = if is_empty egress then base else insert "egress" (list egress) base
  ok (release <> "-" <> text_of service, dict spec)

unfoldable pub add_policies :
    Value → Value → String → List ((Value × Value) × Value) → Fields → List Value → Result Fields
add_policies matrix values release by_id policies [] = ok policies
add_policies matrix values release by_id policies (contract ∷ contracts) = do
  enabled ← contract_enabled contract values
  next ←
      (if not enabled then ok policies else do
        (name, spec) ← policy_of matrix values release by_id contract
        ok (insert name spec policies))
  add_policies matrix values release by_id next contracts

unfoldable pub expected_policies : Value → Value → String → Result Fields
expected_policies matrix values release =
    if not (truthy (value_at values "networkPolicy.enabled")) then ok end else do
      raw_listeners ← get_or matrix "listeners" (list [])
      listeners ← each raw_listeners
      by_id ← traverse keyed_listener listeners
      raw_contracts ← get_or matrix "networkPolicies" (list [])
      contracts ← each raw_contracts
      add_policies matrix values release by_id end contracts
