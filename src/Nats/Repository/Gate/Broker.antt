-- ===== src/Nats/Repository/Gate/Broker.antt =====
-- The rendered broker that the check accepts: its ingress rules and its configuration.
use clavenar_charts.Base.{
  String, ◌≡◌, refl, ap, ◌∙◌, Bool, true, false, not, ◌||◌, Option, none, some, List, [], ◌∷◌,
  nat_eq, not-eq-false, or-eq-false, nat_eq-eq,
}
use clavenar_charts.Base.Lists.{length, is_empty}
use clavenar_charts.Base.Text.{has_infix}
use clavenar_charts.Base.Result.{Result, ok, ◌>>=◌, >>=-eq-ok, ok-injective, keep_if, any_of}
use clavenar_charts.Value.{Value}
use clavenar_charts.Value.Equality.{py_eq}
use clavenar_charts.Value.Access.{item_path, as_text}
use clavenar_charts.Nats.Documents.{fail, fail_if, document_named, authorization_from_nats_config}
use clavenar_charts.Nats.Repository.{
  check_config, check_ingress, is_broker_rule, admits_chart_clients, has_sources, leaks,
}

pub fail_if-ok :
    (bad : Bool) (scope reason : String) {u : Unit {0}}
    → fail_if bad scope reason ≡ ok u
    → bad ≡ false
unfolding fail_if fail
fail_if-ok true scope reason h = cc
fail_if-ok false scope reason h = refl

-- `fail_if bad …; rest` that returned.
pub guarded :
    (bad : Bool) (scope reason : String) {A : Type 0} (rest : Result A) {a : A}
    → (fail_if bad scope reason >>= λ _. rest) ≡ ok a
    → (bad ≡ false) × (rest ≡ ok a)
unfolding fail_if fail
guarded true scope reason rest h = cc
guarded false scope reason rest h = (refl, h)

-- The ingress rules of the broker: one admits exactly the chart's clients and one exactly the demo
-- peers, both on TCP 4222 alone, and the demo peers have no rule on other ports.
pub record IsConfined (bundled_values : Value) (ingress : List Value) : Type 0 where
  pub demo_peers : Value
  pub demo_peers_lem :
      item_path bundled_values ("networkPolicy" ∷ "nats" ∷ "demoMint" ∷ "allowedPeers" ∷ [])
      ≡ ok demo_peers
  pub broker_rules : List Value
  pub core_rules : List Value
  pub demo_rules : List Value
  pub broker : keep_if is_broker_rule ingress ≡ ok broker_rules
  pub core : keep_if admits_chart_clients broker_rules ≡ ok core_rules
  pub one_core : length core_rules ≡ 1
  pub demo : keep_if (has_sources demo_peers) broker_rules ≡ ok demo_rules
  pub one_demo : length demo_rules ≡ 1
  pub no_leak : any_of (leaks demo_peers) ingress ≡ ok false

pub check_ingress_lem :
    (bundled_values : Value) (ingress : List Value) {u : Unit {0}}
    → check_ingress bundled_values ingress ≡ ok u
    → IsConfined bundled_values ingress
unfolding check_ingress
check_ingress_lem bundled_values ingress h =
    let (broker_rules, broker, h1) = >>=-eq-ok (keep_if is_broker_rule ingress) _ h in
    let (_, h2) = guarded (is_empty broker_rules) _ _ _ h1 in
    let (core_rules, core, h3) = >>=-eq-ok (keep_if admits_chart_clients broker_rules) _ h2 in
    let (one_core, h4) = guarded (not (nat_eq (length core_rules) 1)) _ _ _ h3 in
    let (demo_peers, hpeers, h4') =
      >>=-eq-ok
        (item_path bundled_values ("networkPolicy" ∷ "nats" ∷ "demoMint" ∷ "allowedPeers" ∷ [])) _
        h4 in
    let (demo_rules, demo, h5) = >>=-eq-ok (keep_if (has_sources demo_peers) broker_rules) _ h4' in
    let (one_demo, h6) = guarded (not (nat_eq (length demo_rules) 1)) _ _ _ h5 in
    let (leaked, leak, h7) = >>=-eq-ok (any_of (leaks demo_peers) ingress) _ h6 in
    record {
      demo_peers = demo_peers;
      demo_peers_lem = hpeers;
      broker_rules = broker_rules;
      core_rules = core_rules;
      demo_rules = demo_rules;
      broker = broker;
      core = core;
      one_core = nat_eq-eq _ 1 (not-eq-false one_core);
      demo = demo;
      one_demo = nat_eq-eq _ 1 (not-eq-false one_demo);
      no_leak = leak ∙ ap ok (fail_if-ok leaked _ _ h7);
    }

-- The rendered configuration of the broker.
pub record IsConfigured (raw_decode : String → Result Value) (documents : List Value)
    (expected : Value) : Type 0 where
  pub config_map : Value
  pub raw : Value
  pub text : String
  pub authorization : Value
  pub found : document_named "ConfigMap" "smoke-nats-config" documents ≡ ok (some config_map)
  pub read : item_path config_map ("data" ∷ "nats.conf" ∷ []) ≡ ok raw
  pub is_text : as_text raw ≡ ok text
  pub decoded : authorization_from_nats_config raw_decode text ≡ ok authorization
  pub exact : py_eq authorization expected ≡ true
  pub mapped : has_infix text "\"verify_and_map\": true" ≡ true
  pub not_verify : has_infix text "\"verify\": true" ≡ false
  pub durable : has_infix text "\"store_dir\": \"/data\"" ≡ true

found_lem :
    (o : Option Value) (scope reason : String) {document : Value}
    → (elim o [ none ↦ fail scope reason | some d ↦ ok d ]) ≡ ok document
    → o ≡ some document
unfolding fail
found_lem none scope reason h = cc
found_lem (some d) scope reason h = ap some (ok-injective h)

pub check_config_lem :
    (raw_decode : String → Result Value) (documents : List Value) (expected : Value) {u : Unit {0}}
    → check_config raw_decode documents expected ≡ ok u
    → IsConfigured raw_decode documents expected
unfolding check_config
check_config_lem raw_decode documents expected h =
    let (found, hfound, h1) =
      >>=-eq-ok (document_named "ConfigMap" "smoke-nats-config" documents) _ h in
    let (config_map, hmap, h2) =
      >>=-eq-ok
        (let r : Result Value = elim found [
          | none ↦ fail "bundled render" "NATS ConfigMap is missing"
          | some document ↦ ok document
        ] in
          r)
        _ h1 in
    let (raw, hraw, h3) = >>=-eq-ok (item_path config_map ("data" ∷ "nats.conf" ∷ [])) _ h2 in
    let (text, htext, h4) = >>=-eq-ok (as_text raw) _ h3 in
    let (authorization, hauth, h5) =
      >>=-eq-ok (authorization_from_nats_config raw_decode text) _ h4 in
    let (exact, h6) = guarded (not (py_eq authorization expected)) _ _ _ h5 in
    let (drift, h7) =
      guarded (not (has_infix text "\"verify_and_map\": true") || has_infix text "\"verify\": true")
        _ _ _ h6 in
    let (mapped, plain) = or-eq-false _ _ drift in
    let durable = fail_if-ok (not (has_infix text "\"store_dir\": \"/data\"")) _ _ h7 in
    record {
      config_map = config_map;
      raw = raw;
      text = text;
      authorization = authorization;
      found = hfound ∙ ap ok (found_lem found _ _ hmap);
      read = hraw;
      is_text = htext;
      decoded = hauth;
      exact = not-eq-false exact;
      mapped = not-eq-false mapped;
      not_verify = plain;
      durable = not-eq-false durable;
    }
