-- ===== src/Listener/Assurance/Accepted.antt =====
-- What an accepted render of assurance satisfies.
use clavenar_charts.Base.{String, ◌<>◌, ◌≡◌, true, false, List, [], ◌∷◌}
use clavenar_charts.Base.Result.{ok, keep_if, >>=-eq-ok, ok-injective}
use clavenar_charts.Value.{Value}
use clavenar_charts.Value.Dict.{keys}
use clavenar_charts.Value.Access.{truthy}
use clavenar_charts.Value.Table.{Table}
use clavenar_charts.Listener.Values.{value_at}
use clavenar_charts.Listener.Errors.{<+>-nil, refuse_if-nil}
use clavenar_charts.Listener.Rendered.{is_document, get_path}
use clavenar_charts.Listener.Workload.{containers_named, env_entries, env_names}
use clavenar_charts.Listener.Workload.Accepted.{
  HasPorts, ports_errors-HasPorts, Once, once_errors-Once, HasEnv, drift_errors-HasEnv, HasProbes,
  probes_errors-HasProbes,
}
use clavenar_charts.Listener.Workload.Tls.{named_in}
use clavenar_charts.Listener.Workload.Certificate.{IsSecured, tls_errors-IsSecured}
use clavenar_charts.Listener.Assurance.{
  assurance_ports, assurance_env, assurance_env_errors, advertises_metrics, assurance_tls_errors,
  assurance_container_errors, assurance_errors, validate_assurance_contract,
}

-- The container carries each governed variable once, with exactly its value.
pub record HasGovernedEnv (values container : Value) : Type 0 where
  pub entries : List Value
  pub names : List Value
  pub entries_lem : env_entries container ≡ ok entries
  pub names_lem : env_names entries ≡ ok names
  pub once : Once names (keys (assurance_env values))
  pub exact : HasEnv (keys (assurance_env values)) (assurance_env values) entries

env_lem :
    (values container : Value)
    → assurance_env_errors values container ≡ ok []
    → HasGovernedEnv values container
unfolding assurance_env_errors
env_lem values container h =
    let (entries, h1', h1) = >>=-eq-ok (env_entries container) _ h in
    let (names, h2', h2) = >>=-eq-ok (env_names entries) _ h1 in
    let (once, exact) = <+>-nil _ _ h2 in
    record {
      entries = entries;
      names = names;
      entries_lem = h1';
      names_lem = h2';
      once = once_errors-Once _ (keys (assurance_env values)) names once;
      exact =
          drift_errors-HasEnv _ (keys (assurance_env values)) (assurance_env values) entries exact;
    }

-- The Pod has its volumes and the container its mounts, which are secured.
pub record HasSecrets (who : String) (values pod_spec container : Value) : Type 0 where
  pub volumes : Table Value
  pub mounts : Table Value
  pub volumes_lem : named_in "volumes" pod_spec ≡ ok volumes
  pub mounts_lem : named_in "volumeMounts" container ≡ ok mounts
  pub secured : IsSecured who values pod_spec volumes mounts

tls_lem :
    (values pod_spec container : Value)
    → assurance_tls_errors values pod_spec container ≡ ok []
    → HasSecrets "assurance" values pod_spec container
unfolding assurance_tls_errors
tls_lem values pod_spec container h =
    let (volumes, h1', h1) = >>=-eq-ok (named_in "volumes" pod_spec) _ h in
    let (mounts, h2', h2) = >>=-eq-ok (named_in "volumeMounts" container) _ h1 in
    record {
      volumes = volumes;
      mounts = mounts;
      volumes_lem = h1';
      mounts_lem = h2';
      secured = tls_errors-IsSecured "assurance" _ values pod_spec volumes mounts h2;
    }

-- The rendered service.
pub record IsAssured (values : Value) (docs : List Value) (release : String) : Type 0 where
  pub deployment : Value
  pub pod_spec : Value
  pub container : Value
  pub one : keep_if (is_document "Deployment" (release <> "-assurance")) docs ≡ ok (deployment ∷ [])
  pub pod_lem : get_path deployment ("spec" ∷ "template" ∷ "spec" ∷ []) ≡ ok pod_spec
  pub single : containers_named "assurance" pod_spec ≡ ok (container ∷ [])
  pub ports : HasPorts assurance_ports container
  pub environment : HasGovernedEnv values container
  pub probes : HasProbes 9088 container
  pub unadvertised : advertises_metrics deployment ≡ ok false
  pub secrets : HasSecrets "assurance" values pod_spec container

assurance_lem :
    (values : Value) (docs : List Value) (release : String) (deployment pod_spec : Value)
    (containers : List Value)
    → keep_if (is_document "Deployment" (release <> "-assurance")) docs ≡ ok (deployment ∷ [])
    → get_path deployment ("spec" ∷ "template" ∷ "spec" ∷ []) ≡ ok pod_spec
    → containers_named "assurance" pod_spec ≡ ok containers
    → assurance_container_errors values deployment pod_spec containers ≡ ok []
    → IsAssured values docs release
unfolding assurance_container_errors
assurance_lem values docs release deployment pod_spec [] one pod found h = cc (ok-injective h)
assurance_lem values docs release deployment pod_spec (c ∷ d ∷ cs) one pod found h =
    cc (ok-injective h)
assurance_lem values docs release deployment pod_spec (container ∷ []) one pod found h =
    let (p1, h1) = <+>-nil _ _ h in
    let (p2, h2) = <+>-nil _ _ h1 in
    let (p3, h3) = <+>-nil _ _ h2 in
    let (p4, p5) = <+>-nil _ _ h3 in
    record {
      deployment = deployment;
      pod_spec = pod_spec;
      container = container;
      one = one;
      pod_lem = pod;
      single = found;
      ports = ports_errors-HasPorts "assurance" assurance_ports container p1;
      environment = env_lem values container p2;
      probes = probes_errors-HasProbes "assurance" _ 9088 container p3;
      unadvertised = refuse_if-nil (advertises_metrics deployment) _ p4;
      secrets = tls_lem values pod_spec container p5;
    }

errors_lem :
    (values : Value) (docs : List Value) (release : String) (deployments : List Value)
    → keep_if (is_document "Deployment" (release <> "-assurance")) docs ≡ ok deployments
    → assurance_errors values deployments ≡ ok []
    → IsAssured values docs release
unfolding assurance_errors
errors_lem values docs release [] found h = cc (ok-injective h)
errors_lem values docs release (d ∷ e ∷ ds) found h = cc (ok-injective h)
errors_lem values docs release (deployment ∷ []) found h =
    let (pod_spec, h1', h1) =
      >>=-eq-ok (get_path deployment ("spec" ∷ "template" ∷ "spec" ∷ [])) _ h in
    let (containers, h2', h2) = >>=-eq-ok (containers_named "assurance" pod_spec) _ h1 in
    assurance_lem values docs release deployment pod_spec containers found h1' h2' h2

-- Where the values enable assurance and its validator reports nothing, the render has one Deployment
-- of it with one container of its name: its named ports are exactly control-mtls 8088 and
-- diagnostics 9088; it carries each governed variable once, with exactly the value that the chart's
-- values give; its probes go to the diagnostics port; no Prometheus annotation is set; and under
-- workload TLS its certificate is projected, bounded and mounted read-only, without it nothing of a
-- certificate is mounted.
pub validate_assurance_contract-IsAssured :
    (values : Value) (docs : List Value) (release : String)
    → truthy (value_at values "services.assurance.enabled") ≡ true
    → validate_assurance_contract values docs release ≡ ok []
    → IsAssured values docs release
unfolding validate_assurance_contract
validate_assurance_contract-IsAssured values docs release enabled h =
    let (deployments, found, h1) =
      >>=-eq-ok (keep_if (is_document "Deployment" (release <> "-assurance")) docs) _ h in
    errors_lem values docs release deployments found (rw enabled at h1)
