-- ===== src/Listener/Validate/Contracts.antt =====
-- The second part of `validate`: the NetworkPolicy contracts of the matrix and the peers that its
-- listeners allow.
pub mod Report
pub mod Authorized
use clavenar_charts.Base.{String, ◌<>◌, Bool, not, ◌&&◌, List, [], ◌∷◌, ◌++◌, map, if◌then◌else◌}
use clavenar_charts.Base.Lists.{filter}
use clavenar_charts.Base.Text.{has_lower_infix}
use clavenar_charts.Base.Result.{Result, ok, ◌>>=◌, gather, traverse}
use clavenar_charts.Value.{Value, str, list}
use clavenar_charts.Value.Equality.{py_eq, member, set_of, same_members}
use clavenar_charts.Value.Access.{get, get_or, each, or_else, is_in, hashed}
use clavenar_charts.Value.Print.{text_of}
use clavenar_charts.Value.Sort.{sort_by, value_leb}
use clavenar_charts.Listener.Errors.{refuse, ◌<+>◌}
use clavenar_charts.Listener.Workload.Tls.{pair_member}
use clavenar_charts.Listener.Validate.Matrix.{pair_text, ident_of}

-- The peers that one rule grants to a listener.
abbrev pub Grant : Type 0
Grant = (Value × Value) × List Value

-- A loop that appends errors and collects entries.
abbrev pub report {ℓ κ} :
    {A : Type ℓ} {B : Type κ}
    → (A → Result (List String × List B))
    → List A
    → Result (List String × List B)
report f [] = ok ([], [])
report f (x ∷ xs) =
    let rest = report f xs in
    f x >>= λ here. (rest >>= λ later. ok (here.0 ++ later.0, here.1 ++ later.1))

-- The token of the peers that may reset the demo stands for the console.
abbrev pub normalized_peer : Value → Value
normalized_peer peer =
    if py_eq peer (str "configured-demo-reset-peers") then str "console" else peer

unfoldable pub rule_grant : List (Value × Value) → Value → Value → Result (List String × List Grant)
rule_grant idents service governed_rule = do
  raw_id ← get governed_rule "listenerId"
  id ← hashed raw_id
  raw ← get_or governed_rule "peers" (list [])
  tokens ← each raw
  peers ← traverse (λ token. hashed (normalized_peer token)) tokens
  errors ←
      refuse (not (pair_member idents (service, id)))
        ("NetworkPolicy contract " <> pair_text (service, id) <> " references a missing listener")
  ok (errors, ((service, id), peers) ∷ [])

-- The errors about one contract, with what its rules grant; `services` are those before it.
unfoldable pub contract_grants :
    Value → List (Value × Value) → List Value → Value → Result (List String × List Grant)
contract_grants ownership idents services contract = do
  raw_service ← get contract "service"
  service ← hashed raw_service
  owner ← get contract "owner"
  known ← is_in owner ownership
  raw ← get_or contract "rules" (list [])
  rules ← each raw
  (rule_errors, grants) ← report (rule_grant idents service) rules
  errors ←
      refuse (member services service) ("duplicate NetworkPolicy contract for " <> text_of service)
      <+> refuse (not known) ("NetworkPolicy contract " <> text_of service <> " has unknown owner")
      <+> ok rule_errors
  ok (errors, grants)

unfoldable pub contracts_grants :
    Value → List (Value × Value) → List Value → List Value → Result (List String × List Grant)
contracts_grants ownership idents services [] = ok ([], [])
contracts_grants ownership idents services (contract ∷ rest) = do
  (errors, grants) ← contract_grants ownership idents services contract
  service ← get contract "service"
  (later_errors, later) ← contracts_grants ownership idents (service ∷ services) rest
  ok (errors ++ later_errors, grants ++ later)

-- `contract_peers.get(reference, set())`
unfoldable pub granted_peers : Value × Value → List Grant → List Value
granted_peers reference [] = []
granted_peers (service, id) (((s, i), peers) ∷ grants) =
    let rest = granted_peers (service, id) grants in
    if py_eq s service && py_eq i id then peers ++ rest else rest

-- `set(listener.get(field) or [])`
unfoldable pub set_at : Value → String → Result (List Value)
set_at listener name = do
  raw ← get listener name
  xs ← each (or_else raw (list []))
  ys ← traverse hashed xs
  ok (set_of ys)

-- The listener does not allow exactly the peers of the policies.
unfoldable pub allowed_errors : String → List Value → List Value → Result (List String)
allowed_errors who allowed governed = if same_members allowed governed then ok [] else do
  xs ← sort_by value_leb allowed
  ys ← sort_by value_leb governed
  ok (
      (who <> " allowedPeers " <> text_of (list xs) <> " != policy tokens " <> text_of (list ys))
      ∷ [])

-- The errors about peers that are allowed and not authorized, in the order of the set.
unfoldable pub authorized_errors : String → List Value → List Value → List String
authorized_errors who authorized allowed =
    map (λ token. who <> " allows " <> text_of token <> " but does not authorize it")
      (filter (λ token. not (member authorized token))
        (filter (λ token. not (py_eq token (str "any"))) allowed))

unfoldable pub listener_grant_errors : List Grant → Value → Result (List String)
listener_grant_errors grants listener = do
  reference ← ident_of listener
  allowed ← set_at listener "allowedPeers"
  let governed = set_of (granted_peers reference grants)
  let who = "listener " <> pair_text reference
  authorized ← set_at listener "authorizedCallers"
  authentication ← get_or listener "authentication" (str "")
  allowed_errors who allowed governed
      <+> ok (authorized_errors who authorized allowed)
      <+> refuse (member allowed (str "any") && has_lower_infix (text_of authentication) "none")
          (who <> " allows any peer without authentication")

-- The errors about the contracts, then those about the listeners.
unfoldable pub peer_contract_errors : Value → List Value → List Value → Result (List String)
peer_contract_errors ownership listeners contracts = do
  idents ← traverse ident_of listeners
  (errors, grants) ← contracts_grants ownership idents [] contracts
  ok errors <+> gather (listener_grant_errors grants) listeners
