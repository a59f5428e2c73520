-- ===== src/Listener/Brain/Accepted.antt =====
-- What an accepted render of the brain and of its clients satisfies.
use clavenar_charts.Base.{String, ◌<>◌, ◌≡◌, ap, ◌∙◌, true, false, not, List, [], ◌∷◌, not-eq-false}
use clavenar_charts.Base.Result.{ok, keep_if, >>=-eq-ok, ok-injective}
use clavenar_charts.Value.{Value, str, dict, Fields, end}
use clavenar_charts.Value.Dict.{keys}
use clavenar_charts.Value.Equality.{py_eq, member}
use clavenar_charts.Value.Access.{truthy, get}
use clavenar_charts.Listener.Values.{value_at}
use clavenar_charts.Listener.Profile.Production.{py_eq-str}
use clavenar_charts.Listener.Errors.{<+>-nil, refuse-nil, refuse_if-nil}
use clavenar_charts.Listener.Rendered.{is_document, get_path}
use clavenar_charts.Listener.Workload.{containers_named, env_entries, env_names, governed_env}
use clavenar_charts.Listener.Workload.Accepted.{
  HasPorts, ports_errors-HasPorts, Once, once_errors-Once, HasEnv, drift_errors-HasEnv, HasProbes,
  probes_errors-HasProbes,
}
use clavenar_charts.Listener.Brain.{
  brain_ports, brain_env, plain_errors, brain_env_errors, scrape_drifts, brain_clients,
  client_entries, client_drift, client_errors, clients_errors, brain_container_errors, brain_errors,
  validate_brain_auxiliary_contract,
}

-- The container carries each governed variable once, with exactly its value, and does not move the
-- plain listener.
pub record HasGovernedEnv (values container : Value) : Type 0 where
  pub entries : List Value
  pub names : List Value
  pub entries_lem : env_entries container ≡ ok entries
  pub names_lem : env_names entries ≡ ok names
  pub once : Once names (keys (brain_env values))
  pub exact : HasEnv (keys (brain_env values)) (brain_env values) entries
  pub loopback : member names (str "CLAVENAR_BRAIN_PLAIN_ADDR") ≡ false

plain_lem :
    (names : List Value)
    → plain_errors names ≡ ok []
    → member names (str "CLAVENAR_BRAIN_PLAIN_ADDR") ≡ false
unfolding plain_errors
plain_lem names h = refuse-nil (member names (str "CLAVENAR_BRAIN_PLAIN_ADDR")) _ h

env_lem :
    (values container : Value)
    → brain_env_errors values container ≡ ok []
    → HasGovernedEnv values container
unfolding brain_env_errors
env_lem values container h =
    let (entries, h1', h1) = >>=-eq-ok (env_entries container) _ h in
    let (names, h2', h2) = >>=-eq-ok (env_names entries) _ h1 in
    let (once, h3) = <+>-nil _ _ h2 in
    let (exact, h4) = <+>-nil _ _ h3 in
    let (_, plain) = <+>-nil _ _ h4 in
    record {
      entries = entries;
      names = names;
      entries_lem = h1';
      names_lem = h2';
      once = once_errors-Once _ (keys (brain_env values)) names once;
      exact = drift_errors-HasEnv _ (keys (brain_env values)) (brain_env values) entries exact;
      loopback = plain_lem names plain;
    }

-- A client carries the variables for the brain once each, with exactly their values.
pub record CallsBrain (expected : Fields) (deployment : Value) : Type 0 where
  pub entries : List Value
  pub names : List Value
  pub entries_lem : client_entries deployment ≡ ok entries
  pub names_lem : env_names entries ≡ ok names
  pub once : Once names (keys expected)
  pub exact : HasEnv (keys expected) expected entries

-- The first of a client's Deployments calls the brain.
abbrev pub FirstCalls : Fields → List Value → Type 0
FirstCalls expected [] = Unit
FirstCalls expected (deployment ∷ _) = CallsBrain expected deployment

client_drift_lem :
    (who : String) (expected : Fields) (entries : List Value)
    → client_drift who expected entries ≡ ok []
    → HasEnv (keys expected) expected entries
unfolding client_drift
client_drift_lem who expected entries h =
    let (actual, ha, h1) = >>=-eq-ok (governed_env (keys expected) end entries) _ h in
    record {
      actual = actual;
      actual_lem = ha;
      exact = not-eq-false (refuse-nil (not (py_eq (dict actual) (dict expected))) _ h1);
    }

client_lem :
    (who : String) (expected : Fields) (deployments : List Value)
    → client_errors who expected deployments ≡ ok []
    → FirstCalls expected deployments
unfolding client_errors
client_lem who expected [] h = tt
client_lem who expected (deployment ∷ _) h =
    let (entries, h1', h1) = >>=-eq-ok (client_entries deployment) _ h in
    let (names, h2', h2) = >>=-eq-ok (env_names entries) _ h1 in
    let (once, exact) = <+>-nil _ _ h2 in
    record {
      entries = entries;
      names = names;
      entries_lem = h1';
      names_lem = h2';
      once = once_errors-Once _ (keys expected) names once;
      exact = client_drift_lem who expected entries exact;
    }

-- Each client that the render has calls the brain.
abbrev pub ClientsCall : List Value → List (String × Fields) → Type 0
ClientsCall docs [] = Unit
ClientsCall docs ((who, expected) ∷ clients) =
    ((deployments : List Value) × (keep_if (is_document "Deployment" who) docs ≡ ok deployments)
      × FirstCalls expected deployments)
    × ClientsCall docs clients

clients_lem :
    (docs : List Value) (clients : List (String × Fields))
    → clients_errors docs clients ≡ ok []
    → ClientsCall docs clients
unfolding clients_errors
clients_lem docs [] h = tt
clients_lem docs ((who, expected) ∷ clients) h =
    let (here, later) = <+>-nil _ (clients_errors docs clients) h in
    let (deployments, found, h1) = >>=-eq-ok (keep_if (is_document "Deployment" who) docs) _ here in
    ((deployments, found, client_lem who expected deployments h1), clients_lem docs clients later)

-- The annotation for Prometheus names the diagnostics port.
pub record IsScraped (deployment : Value) : Type 0 where
  pub annotations : Value
  pub annotations_lem :
      get_path deployment ("spec" ∷ "template" ∷ "metadata" ∷ "annotations" ∷ []) ≡ ok annotations
  pub port_lem : get annotations "prometheus.io/port" ≡ ok (str "9081")

scrape_lem : (deployment : Value) → scrape_drifts deployment ≡ ok false → IsScraped deployment
unfolding scrape_drifts
scrape_lem deployment h =
    let (annotations, h1', h1) =
      >>=-eq-ok (get_path deployment ("spec" ∷ "template" ∷ "metadata" ∷ "annotations" ∷ [])) _ h in
    let (port, h2', h2) = >>=-eq-ok (get annotations "prometheus.io/port") _ h1 in
    record {
      annotations = annotations;
      annotations_lem = h1';
      port_lem = h2' ∙ ap ok (py_eq-str port "9081" (not-eq-false (ok-injective h2)));
    }

-- The rendered brain and its clients.
pub record IsServed (values : Value) (docs : List Value) (release : String) : Type 0 where
  pub deployment : Value
  pub pod_spec : Value
  pub container : Value
  pub one : keep_if (is_document "Deployment" (release <> "-brain")) docs ≡ ok (deployment ∷ [])
  pub pod_lem : get_path deployment ("spec" ∷ "template" ∷ "spec" ∷ []) ≡ ok pod_spec
  pub single : containers_named "brain" pod_spec ≡ ok (container ∷ [])
  pub ports : HasPorts brain_ports container
  pub environment : HasGovernedEnv values container
  pub probes : HasProbes 9081 container
  pub scraped : IsScraped deployment
  pub clients : ClientsCall docs (brain_clients values release)

container_lem :
    (values : Value) (docs : List Value) (release : String) (deployment pod_spec : Value)
    (containers : List Value)
    → keep_if (is_document "Deployment" (release <> "-brain")) docs ≡ ok (deployment ∷ [])
    → get_path deployment ("spec" ∷ "template" ∷ "spec" ∷ []) ≡ ok pod_spec
    → containers_named "brain" pod_spec ≡ ok containers
    → brain_container_errors values docs release deployment containers ≡ ok []
    → IsServed values docs release
unfolding brain_container_errors
container_lem values docs release deployment pod_spec [] one pod found h = cc (ok-injective h)
container_lem values docs release deployment pod_spec (c ∷ d ∷ cs) one pod found h =
    cc (ok-injective h)
container_lem values docs release deployment pod_spec (container ∷ []) one pod found h =
    let (p1, h1) = <+>-nil _ _ h in
    let (p2, h2) = <+>-nil _ _ h1 in
    let (p3, h3) = <+>-nil _ _ h2 in
    let (p4, p5) = <+>-nil _ _ h3 in
    record {
      deployment = deployment;
      pod_spec = pod_spec;
      container = container;
      one = one;
      pod_lem = pod;
      single = found;
      ports = ports_errors-HasPorts "brain" brain_ports container p1;
      environment = env_lem values container p2;
      probes = probes_errors-HasProbes "brain" _ 9081 container p3;
      scraped = scrape_lem deployment (refuse_if-nil (scrape_drifts deployment) _ p4);
      clients = clients_lem docs (brain_clients values release) p5;
    }

errors_lem :
    (values : Value) (docs : List Value) (release : String) (deployments : List Value)
    → keep_if (is_document "Deployment" (release <> "-brain")) docs ≡ ok deployments
    → brain_errors values docs release deployments ≡ ok []
    → IsServed values docs release
unfolding brain_errors
errors_lem values docs release [] found h = cc (ok-injective h)
errors_lem values docs release (d ∷ e ∷ ds) found h = cc (ok-injective h)
errors_lem values docs release (deployment ∷ []) found h =
    let (pod_spec, h1', h1) =
      >>=-eq-ok (get_path deployment ("spec" ∷ "template" ∷ "spec" ∷ [])) _ h in
    let (containers, h2', h2) = >>=-eq-ok (containers_named "brain" pod_spec) _ h1 in
    container_lem values docs release deployment pod_spec containers found h1' h2' h2

-- Where the values enable the brain and its validator reports nothing, the render has one Deployment
-- of it with one container of its name: its named ports are exactly http 8081 and health 9081; it
-- carries each governed variable once, with exactly the value that the chart's values give, and
-- leaves the plain listener alone; its probes and its Prometheus annotation name port 9081; and the
-- first Deployment of each client that is rendered, policy-engine and console, carries each of its
-- variables for the brain once, with exactly the brain's URL and, for policy-engine, its callers.
pub validate_brain_auxiliary_contract-IsServed :
    (values : Value) (docs : List Value) (release : String)
    → truthy (value_at values "services.brain.enabled") ≡ true
    → validate_brain_auxiliary_contract values docs release ≡ ok []
    → IsServed values docs release
unfolding validate_brain_auxiliary_contract
validate_brain_auxiliary_contract-IsServed values docs release enabled h =
    let (deployments, found, h1) =
      >>=-eq-ok (keep_if (is_document "Deployment" (release <> "-brain")) docs) _ h in
    errors_lem values docs release deployments found (rw enabled at h1)
