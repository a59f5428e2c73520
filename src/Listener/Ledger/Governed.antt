-- ===== src/Listener/Ledger/Governed.antt =====
-- What the render of an accepted ledger satisfies: its environment and its mTLS rule.
use clavenar_charts.Base.{
  String, ◌<>◌, ◌≡◌, refl, ap, ◌∙◌, ◌⊎◌, inl, inr, true, List, [], ◌∷◌, nat_eq, if◌then◌else◌,
  Bool-cases, not-eq-false,
}
use clavenar_charts.Base.Lists.{length, append-eq-nil}
use clavenar_charts.Base.Result.{ok, keep_if, gather, >>=-eq-ok, ok-injective}
use clavenar_charts.Value.{Value, dict, end, list}
use clavenar_charts.Value.Equality.{py_eq, member}
use clavenar_charts.Value.Access.{truthy, get_or, each, or_else}
use clavenar_charts.Listener.Values.{value_at}
use clavenar_charts.Listener.Profile.{trusted_peers}
use clavenar_charts.Listener.Profile.Production.{complain-nil}
use clavenar_charts.Listener.Environments.Unique.{Every, gather-nil}
use clavenar_charts.Listener.Rendered.{is_document}
use clavenar_charts.Listener.Ledger.Rules.{IsExact, IsUnlisted, exact_lem, admits_any-IsUnlisted}
use mathlib.Core.Path.{subst}
use clavenar_charts.Listener.Ledger.{
  values_named, is_exact_rule, admits_any, leak_errors, rule_errors, peer_errors, expected_require,
  expected_spiffe, ledger_container_errors, ledger_containers_of, ledger_errors,
  validate_ledger_trusted_proxy_contract,
}

-- There is one container; its two variables have the governed values, and no other.
pub record HasEnvironment (values : Value) (containers : List Value) : Type 0 where
  pub container : Value
  pub one : containers ≡ container ∷ []
  pub raw : Value
  pub entries : List Value
  pub required : List Value
  pub spiffe : List Value
  pub raw_lem : get_or container "env" (list []) ≡ ok raw
  pub entries_lem : each (or_else raw (list [])) ≡ ok entries
  pub required_lem : values_named "CLAVENAR_LEDGER_REQUIRE_TRUSTED_PROXY" entries ≡ ok required
  pub spiffe_lem : values_named "CLAVENAR_LEDGER_TRUSTED_PROXY_SPIFFE" entries ≡ ok spiffe
  pub required_exact : py_eq (list required) (list (expected_require values ∷ [])) ≡ true
  pub spiffe_exact : py_eq (list spiffe) (list (expected_spiffe values)) ≡ true

ledger_container_errors_lem :
    (values : Value) (containers : List Value)
    → ledger_container_errors values containers ≡ ok []
    → HasEnvironment values containers
unfolding ledger_container_errors
ledger_container_errors_lem values [] h = cc (ok-injective h)
ledger_container_errors_lem values (c ∷ d ∷ cs) h = cc (ok-injective h)
ledger_container_errors_lem values (container ∷ []) h =
    let (raw, h1', h1) = >>=-eq-ok (get_or container "env" (list [])) _ h in
    let (entries, h2', h2) = >>=-eq-ok (each (or_else raw (list []))) _ h1 in
    let (required, h3', h3) =
      >>=-eq-ok (values_named "CLAVENAR_LEDGER_REQUIRE_TRUSTED_PROXY" entries) _ h2 in
    let (spiffe, h4', h4) =
      >>=-eq-ok (values_named "CLAVENAR_LEDGER_TRUSTED_PROXY_SPIFFE" entries) _ h3 in
    let (e1, e2) = append-eq-nil _ _ (ok-injective h4) in
    record {
      container = container;
      one = refl;
      raw = raw;
      entries = entries;
      required = required;
      spiffe = spiffe;
      raw_lem = h1';
      entries_lem = h2';
      required_lem = h3';
      spiffe_lem = h4';
      required_exact = not-eq-false (complain-nil _ _ e1);
      spiffe_exact = not-eq-false (complain-nil _ _ e2);
    }

-- There is one policy, with one rule that lists exactly the peers as its sources and the mTLS port
-- alone as its port; no rule that differs from it lists one of the peers among its sources. A rule
-- without sources, or with another selector that the peers meet, is not excluded.
pub record HasRule (peers : Value) (policies : List Value) : Type 0 where
  pub policy : Value
  pub one : policies ≡ policy ∷ []
  pub spec : Value
  pub raw : Value
  pub ingress : List Value
  pub rule : Value
  pub spec_lem : get_or policy "spec" (dict end) ≡ ok spec
  pub raw_lem : get_or spec "ingress" (list []) ≡ ok raw
  pub ingress_lem : each (or_else raw (list [])) ≡ ok ingress
  pub one_rule : keep_if (is_exact_rule peers) ingress ≡ ok (rule ∷ [])
  pub is_exact : IsExact peers rule
  pub no_leak : Every (λ entry. (member (rule ∷ []) entry ≡ true) ⊎ IsUnlisted peers entry) ingress

leak_errors_lem :
    (peers : Value) (exact : List Value) (entry : Value)
    → leak_errors peers exact entry ≡ ok []
    → (member exact entry ≡ true) ⊎ IsUnlisted peers entry
unfolding leak_errors
leak_errors_lem peers exact entry h = elim (Bool-cases (member exact entry)) [
  | inl e ↦ inl e
  | inr e ↦
      let (leaked, hl, h1) = >>=-eq-ok (admits_any peers entry) _ (rw e at h) in
      inr (admits_any-IsUnlisted peers entry (hl ∙ ap ok (complain-nil leaked _ (ok-injective h1))))
]

rule_errors_lem :
    (peers : Value) (policies : List Value)
    → rule_errors peers policies ≡ ok []
    → HasRule peers policies
unfolding rule_errors
rule_errors_lem peers [] h = cc (ok-injective h)
rule_errors_lem peers (p ∷ q ∷ ps) h = cc (ok-injective h)
rule_errors_lem peers (policy ∷ []) h =
    let (spec, h1', h1) = >>=-eq-ok (get_or policy "spec" (dict end)) _ h in
    let (raw, h2', h2) = >>=-eq-ok (get_or spec "ingress" (list [])) _ h1 in
    let (ingress, h3', h3) = >>=-eq-ok (each (or_else raw (list []))) _ h2 in
    let (exact, h4', h4) = >>=-eq-ok (keep_if (is_exact_rule peers) ingress) _ h3 in
    let (leaks, h5', h5) = >>=-eq-ok (gather (leak_errors peers exact) ingress) _ h4 in
    let (e1, e2) = append-eq-nil _ _ (ok-injective h5) in
    let (rule, one_exact, is_exact) =
      exact_lem peers ingress exact h4' (not-eq-false (complain-nil _ _ e1)) in
    record {
      policy = policy;
      one = refl;
      spec = spec;
      raw = raw;
      ingress = ingress;
      rule = rule;
      spec_lem = h1';
      raw_lem = h2';
      ingress_lem = h3';
      one_rule = h4' ∙ ap ok one_exact;
      is_exact = is_exact;
      no_leak =
          subst (λ es. Every (λ entry. (member es entry ≡ true) ⊎ IsUnlisted peers entry) ingress)
            one_exact
            (gather-nil (leak_errors peers exact)
              (λ entry. (member exact entry ≡ true) ⊎ IsUnlisted peers entry) ingress
              (leak_errors_lem peers exact) (h5' ∙ ap ok e2));
    }

-- The rendered ledger is governed: one Deployment with one ledger container, its environment, and
-- the rule of its peers where the values configure any.
pub record IsGoverned (values : Value) (docs : List Value) (release : String) : Type 0 where
  pub deployment : Value
  pub one : keep_if (is_document "Deployment" (release <> "-ledger")) docs ≡ ok (deployment ∷ [])
  pub containers : List Value
  pub containers_lem : ledger_containers_of deployment ≡ ok containers
  pub environment : HasEnvironment values containers
  pub rule :
      truthy (trusted_peers values) ≡ true
      → (policies : List Value) × (keep_if (is_document "NetworkPolicy" (release <> "-ledger")) docs
          ≡ ok policies)
        × HasRule (trusted_peers values) policies

peer_errors_lem :
    (values : Value) (docs : List Value) (release : String)
    → peer_errors values docs release ≡ ok []
    → truthy (trusted_peers values) ≡ true
    → (policies : List Value) × (keep_if (is_document "NetworkPolicy" (release <> "-ledger")) docs
        ≡ ok policies)
      × HasRule (trusted_peers values) policies
unfolding peer_errors
peer_errors_lem values docs release h some_peers =
    let (policies, hp, h1) =
      >>=-eq-ok (keep_if (is_document "NetworkPolicy" (release <> "-ledger")) docs) _
        (rw some_peers at h) in
    (policies, hp, rule_errors_lem (trusted_peers values) policies h1)

ledger_errors_lem :
    (values : Value) (docs : List Value) (release : String) (deployments : List Value)
    → keep_if (is_document "Deployment" (release <> "-ledger")) docs ≡ ok deployments
    → ledger_errors values docs release deployments ≡ ok []
    → IsGoverned values docs release
unfolding ledger_errors
ledger_errors_lem values docs release [] found h = cc (ok-injective h)
ledger_errors_lem values docs release (d ∷ e ∷ ds) found h = cc (ok-injective h)
ledger_errors_lem values docs release (deployment ∷ []) found h =
    let (containers, h1', h1) = >>=-eq-ok (ledger_containers_of deployment) _ h in
    let (errors, h2', h2) = >>=-eq-ok (ledger_container_errors values containers) _ h1 in
    let (peers, h3', h3) =
      >>=-eq-ok (if nat_eq (length containers) 1 then peer_errors values docs release else ok []) _
        h2 in
    let (e1, e2) = append-eq-nil errors peers (ok-injective h3) in
    let environment = ledger_container_errors_lem values containers (h2' ∙ ap ok e1) in
    let single : nat_eq (length containers) 1 ≡ true =
      ap (λ cs. nat_eq (length cs) 1) environment.one in
    record {
      deployment = deployment;
      one = found;
      containers = containers;
      containers_lem = h1';
      environment = environment;
      rule = peer_errors_lem values docs release (rw single at h3' ∙ ap ok e2);
    }

-- Where the values enable the ledger and `validate_ledger_trusted_proxy_contract` reports nothing,
-- the render has one ledger Deployment with one ledger container, whose enforcement variable and
-- SPIFFE variable have exactly the values that the chart's values demand; and if these configure
-- trusted peers, the ledger has one NetworkPolicy, in which one ingress rule lists exactly these peers
-- and the mTLS port alone, and no rule that differs from it lists one of the peers among its sources.
-- A rule that has no sources or selects the peers by another selector is not excluded.
pub validate_ledger_trusted_proxy_contract-IsGoverned :
    (values : Value) (docs : List Value) (release : String)
    → truthy (value_at values "services.ledger.enabled") ≡ true
    → validate_ledger_trusted_proxy_contract values docs release ≡ ok []
    → IsGoverned values docs release
unfolding validate_ledger_trusted_proxy_contract
validate_ledger_trusted_proxy_contract-IsGoverned values docs release enabled h =
    let (deployments, found, h1) =
      >>=-eq-ok (keep_if (is_document "Deployment" (release <> "-ledger")) docs) _
        (rw enabled at h) in
    ledger_errors_lem values docs release deployments found h1
