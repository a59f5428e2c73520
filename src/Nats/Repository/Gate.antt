-- ===== src/Nats/Repository/Gate.antt =====
-- What a repository satisfies when the check accepts it.
pub mod Broker
use clavenar_charts.Base.{
  ℕ, String, ◌≡◌, refl, ap, ◌∙◌, Bool, true, false, not, ◌||◌, Option, none, some, List, [], ◌∷◌,
  nat_eq, not-eq-false, or-eq-false, nat_eq-eq,
}
use clavenar_charts.Base.Lists.{length, is_empty}
use clavenar_charts.Base.Text.{has_infix}
use clavenar_charts.Base.Result.{
  Result, ok, raise, ◌>>=◌, stop_iteration, >>=-eq-ok, ok-injective, keep_if, any_of,
}
use clavenar_charts.Value.{Value, str, list, end, Fields, texts}
use clavenar_charts.Value.Equality.{py_eq}
use clavenar_charts.Value.Access.{get, get_or, item, item_path, each, len, as_text}
use clavenar_charts.Nats.Permissions.{expected_authorization}
use clavenar_charts.Nats.Documents.{
  fail, fail_if, document_named, require_document, authorization_from_nats_config,
}
use clavenar_charts.Nats.Repository.{
  chart_clients, same_values, Repository, traceback, render, check_mirrors, check_values,
  check_config, check_stateful_set, check_ingress, is_broker_rule, admits_chart_clients,
  has_sources, leaks, deployments_of, clients_of, check_network, check_clients, check_documents,
  check_repository, is_caught, main,
}
use clavenar_charts.Nats.Repository.Gate.Broker.{
  guarded, IsConfined, check_ingress_lem, IsConfigured, check_config_lem,
}

-- The Deployments that use the broker are the chart's clients.
pub record HasChartClients (documents : List Value) (clients : ℕ) : Type 0 where
  pub deployments : Fields
  pub deployments_lem : deployments_of end documents ≡ ok deployments
  pub names : List String
  pub names_lem : clients_of deployments ≡ ok names
  pub exact : same_values (texts names) chart_clients ≡ true
  pub count : length names ≡ clients

check_clients_lem :
    (documents : List Value) (clients : ℕ)
    → check_clients documents ≡ ok clients
    → HasChartClients documents clients
unfolding check_clients
check_clients_lem documents clients h =
    let (deployments, hdep, h1) = >>=-eq-ok (deployments_of end documents) _ h in
    let (names, hnames, h2) = >>=-eq-ok (clients_of deployments) _ h1 in
    let (exact, h3) = guarded (not (same_values (texts names) chart_clients)) _ _ _ h2 in
    record {
      deployments = deployments;
      deployments_lem = hdep;
      names = names;
      names_lem = hnames;
      exact = not-eq-false exact;
      count = ok-injective h3;
    }

-- The broker's NetworkPolicy confines it.
pub record HasConfinedBroker (bundled_values : Value) (documents : List Value) : Type 0 where
  pub policy : Value
  pub policy_lem : require_document "NetworkPolicy" "smoke-nats" documents ≡ ok policy
  pub spec : Value
  pub spec_lem : item policy "spec" ≡ ok spec
  pub raw : Value
  pub raw_lem : get_or spec "ingress" (list []) ≡ ok raw
  pub ingress : List Value
  pub ingress_lem : each raw ≡ ok ingress
  pub confined : IsConfined bundled_values ingress

check_network_lem :
    (bundled_values : Value) (documents : List Value) {u : Unit {0}}
    → check_network bundled_values documents ≡ ok u
    → HasConfinedBroker bundled_values documents
unfolding check_network
check_network_lem bundled_values documents h =
    let (policy, hpol, h1) =
      >>=-eq-ok (require_document "NetworkPolicy" "smoke-nats" documents) _ h in
    let (spec, hspec, h2) = >>=-eq-ok (item policy "spec") _ h1 in
    let (raw, hraw, h3) = >>=-eq-ok (get_or spec "ingress" (list [])) _ h2 in
    let (ingress, hing, h4) = >>=-eq-ok (each raw) _ h3 in
    record {
      policy = policy;
      policy_lem = hpol;
      spec = spec;
      spec_lem = hspec;
      raw = raw;
      raw_lem = hraw;
      ingress = ingress;
      ingress_lem = hing;
      confined = check_ingress_lem bundled_values ingress h4;
    }

-- What an accepted repository satisfies.
pub record IsAccepted (raw_decode : String → Result Value) (repository : Repository) (clients : ℕ)
    : Type 0 where
  pub expected : Value
  pub expected_lem : expected_authorization repository.contract ≡ ok expected
  pub actual : Value
  pub actual_lem :
      item_path repository.values ("nats" ∷ "config" ∷ "merge" ∷ "authorization" ∷ []) ≡ ok actual
  pub values_exact : py_eq actual expected ≡ true
  pub documents : List Value
  pub documents_lem : render repository.render_result ≡ ok documents
  pub configured : IsConfigured raw_decode documents expected
  pub broker : HasConfinedBroker repository.bundled_values documents
  pub chart : HasChartClients documents clients

check_documents_lem :
    (raw_decode : String → Result Value) (bundled_values expected : Value) (documents : List Value)
    (clients : ℕ)
    → check_documents raw_decode bundled_values expected documents ≡ ok clients
    → IsConfigured raw_decode documents expected
      × HasConfinedBroker bundled_values documents
      × HasChartClients documents clients
unfolding check_documents
check_documents_lem raw_decode bundled_values expected documents clients h =
    let (_, hconf, h1) = >>=-eq-ok (check_config raw_decode documents expected) _ h in
    let (_, hset, h2) = >>=-eq-ok (check_stateful_set documents) _ h1 in
    let (_, hnet, h3) = >>=-eq-ok (check_network bundled_values documents) _ h2 in
    (
      check_config_lem raw_decode documents expected hconf,
      check_network_lem bundled_values documents hnet,
      check_clients_lem documents clients h3,
    )

check_values_lem :
    (values expected : Value) {u : Unit {0}}
    → check_values values expected ≡ ok u
    → (actual : Value) × (item_path values ("nats" ∷ "config" ∷ "merge" ∷ "authorization" ∷ [])
        ≡ ok actual)
      × (py_eq actual expected ≡ true)
unfolding check_values
check_values_lem values expected h =
    let (actual, ha, h1) =
      >>=-eq-ok (item_path values ("nats" ∷ "config" ∷ "merge" ∷ "authorization" ∷ [])) _ h in
    let (exact, _) = guarded (not (py_eq actual expected)) _ _ _ h1 in
    (actual, ha, not-eq-false exact)

accepted :
    (raw_decode : String → Result Value) (repository : Repository) (clients : ℕ) (expected : Value)
    → expected_authorization repository.contract ≡ ok expected
    → (documents : List Value) → render repository.render_result ≡ ok documents
    → ((actual : Value) × (item_path repository.values
            ("nats" ∷ "config" ∷ "merge" ∷ "authorization" ∷ [])
          ≡ ok actual)
        × (py_eq actual expected ≡ true))
    → (IsConfigured raw_decode documents expected
        × HasConfinedBroker repository.bundled_values documents
        × HasChartClients documents clients)
    → IsAccepted raw_decode repository clients
accepted raw_decode repository clients expected hexp documents hdoc (actual, ha, exact) (c, b, k) =
    record {
      expected = expected;
      expected_lem = hexp;
      actual = actual;
      actual_lem = ha;
      values_exact = exact;
      documents = documents;
      documents_lem = hdoc;
      configured = c;
      broker = b;
      chart = k;
    }

-- If `check_repository` accepts, the values and the rendered configuration of the broker carry
-- exactly the authorization that the contract grants; the configuration maps certificates without
-- plain verification and names the persistent store; among the broker's ingress rules on exactly
-- TCP 4222, one selects exactly the components of the chart's clients and one has exactly the
-- demo peers as sources, and no rule with these sources has other ports; and the Deployments that
-- use the broker are exactly the chart's clients.
pub check_repository_sound :
    (raw_decode : String → Result Value) (repository : Repository) (users clients : ℕ)
    → check_repository raw_decode repository ≡ ok (users, clients)
    → IsAccepted raw_decode repository clients
unfolding check_repository
check_repository_sound raw_decode repository users clients h =
    let (version, _, h1) = >>=-eq-ok (get repository.contract "contract") _ h in
    let (_, h2) = guarded (not (py_eq version (str "clavenar.nats-authorization/v1"))) _ _ _ h1 in
    let (_, _, h3) = >>=-eq-ok (check_mirrors repository.contract_bytes repository.mirrors) _ h2 in
    let (expected, hexp, h4) = >>=-eq-ok (expected_authorization repository.contract) _ h3 in
    let (_, hval, h5) = >>=-eq-ok (check_values repository.values expected) _ h4 in
    let (documents, hdoc, h6) = >>=-eq-ok (render repository.render_result) _ h5 in
    let (count, hcheck, h7) =
      >>=-eq-ok (check_documents raw_decode repository.bundled_values expected documents) _ h6 in
    let (user_list, _, h8) = >>=-eq-ok (item expected "users") _ h7 in
    let (user_count, _, h9) = >>=-eq-ok (len user_list) _ h8 in
    let same : count ≡ clients = ap (λ p. p.1) (ok-injective h9) in
    accepted raw_decode repository clients expected hexp documents hdoc
      (check_values_lem repository.values expected hval)
      (check_documents_lem raw_decode repository.bundled_values expected documents clients
        (hcheck ∙ ap ok same))
