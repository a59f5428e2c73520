-- ===== src/Listener/Console/Governed.antt =====
-- What the accepted parts of a rendered console satisfy.
use clavenar_charts.Base.{
  String, ◌≡◌, sym, ap, ◌∙◌, true, false, not, ◌||◌, List, [], ◌∷◌, nat_eq, nat_eq-eq, not-eq-false,
  or-eq-false, if◌then◌else◌,
}
use clavenar_charts.Base.Lists.{length, is_empty}
use clavenar_charts.Base.Result.{ok, >>=-eq-ok, ok-injective}
use clavenar_charts.Value.{Value, str, dict, Fields, end}
use clavenar_charts.Value.Equality.{py_eq}
use clavenar_charts.Value.Access.{truthy, get, get_or, hashed}
use clavenar_charts.Value.Table.{Table}
use clavenar_charts.Listener.Values.{value_at}
use clavenar_charts.Listener.Policies.Ingress.{hashed-eq-ok}
use clavenar_charts.Listener.Environments.{occurrences}
use clavenar_charts.Listener.Errors.{<+>-nil, refuse-nil, refuse_if-nil}
use clavenar_charts.Listener.Ledger.{values_named}
use clavenar_charts.Listener.Rendered.{get_path}
use clavenar_charts.Listener.Workload.{env_entries, env_names, ports_errors}
use clavenar_charts.Listener.Workload.Accepted.{
  HasPorts, ports_errors-HasPorts, is_empty-nil, HasEnv, drift_errors-HasEnv,
}
use clavenar_charts.Listener.Workload.Tls.{
  named_in, at_or_empty, has_entry, projected_items, same_pairs, mount_drifts,
}
use clavenar_charts.Listener.Workload.Certificate.{
  Projects, IsMounted, mount_drifts-IsMounted, IsSecured, tls_errors-IsSecured,
}
use clavenar_charts.Listener.Console.Environment.{
  console_names, console_env, repeated_names, bearer_errors, console_env_errors,
}
use clavenar_charts.Listener.Console.Trust.{trust_files, trust_drifts, trust_errors, secret_errors}
use clavenar_charts.Listener.Console.{
  console_ports, console_ports_errors, expected_scrape, chosen_annotations, scrape_errors,
}

pub ports_lem :
    (values container : Value)
    → console_ports_errors values container ≡ ok []
    → HasPorts (console_ports values (value_at values "services.console.auth.mode")) container
unfolding console_ports_errors
ports_lem values container h =
    let (mode, hm, h1) = >>=-eq-ok (hashed (value_at values "services.console.auth.mode")) _ h in
    let same = hashed-eq-ok (value_at values "services.console.auth.mode") hm in
    ports_errors-HasPorts "console"
      (console_ports values (value_at values "services.console.auth.mode")) container
      (ap (λ m. ports_errors "console" (console_ports values m) container) (sym same) ∙ h1)

-- The governed variables are exactly those of the values, none is repeated, the release version
-- stands once, and the bearer of operator decisions stands exactly where operator mTLS is on.
pub record HasGovernedEnv (values : Value) (release : String) (app_version container : Value)
    : Type 0 where
  pub entries : List Value
  pub names : List Value
  pub release_values : List Value
  pub expected : Fields
  pub entries_lem : env_entries container ≡ ok entries
  pub names_lem : env_names entries ≡ ok names
  pub releases_lem : values_named "CLAVENAR_CONSOLE_RELEASE_VERSION" entries ≡ ok release_values
  pub expected_lem : console_env values release app_version release_values ≡ ok expected
  pub unrepeated : repeated_names names ≡ []
  pub one_release : length release_values ≡ 1
  pub exact : HasEnv console_names expected entries
  pub bearers :
      occurrences names (str "CLAVENAR_HIL_DECIDE_TOKEN")
      ≡ (if truthy (value_at values "services.console.operatorMtls.enabled") then 1 else 0)

bearer_lem :
    (values : Value) (names : List Value)
    → bearer_errors values names ≡ ok []
    → occurrences names (str "CLAVENAR_HIL_DECIDE_TOKEN")
      ≡ (if truthy (value_at values "services.console.operatorMtls.enabled") then 1 else 0)
unfolding bearer_errors
bearer_lem values names h = nat_eq-eq (occurrences names (str "CLAVENAR_HIL_DECIDE_TOKEN")) _ (
    not-eq-false (
      refuse-nil
        (not (
          nat_eq (occurrences names (str "CLAVENAR_HIL_DECIDE_TOKEN"))
            (if truthy (value_at values "services.console.operatorMtls.enabled") then 1 else 0)))
        _ h))

pub env_lem :
    (values : Value) (release : String) (app_version container : Value)
    → console_env_errors values release app_version container ≡ ok []
    → HasGovernedEnv values release app_version container
unfolding console_env_errors
env_lem values release app_version container h =
    let (entries, h1', h1) = >>=-eq-ok (env_entries container) _ h in
    let (names, h2', h2) = >>=-eq-ok (env_names entries) _ h1 in
    let (release_values, h3', h3) =
      >>=-eq-ok (values_named "CLAVENAR_CONSOLE_RELEASE_VERSION" entries) _ h2 in
    let (expected, h4', h4) =
      >>=-eq-ok (console_env values release app_version release_values) _ h3 in
    let (p1, h5) = <+>-nil _ _ h4 in
    let (p2, h6) = <+>-nil _ _ h5 in
    let (p3, p4) = <+>-nil _ _ h6 in
    record {
      entries = entries;
      names = names;
      release_values = release_values;
      expected = expected;
      entries_lem = h1';
      names_lem = h2';
      releases_lem = h3';
      expected_lem = h4';
      unrepeated = is_empty-nil _ (refuse-nil (not (is_empty (repeated_names names))) _ p1);
      one_release =
          nat_eq-eq _ 1 (not-eq-false (refuse-nil (not (nat_eq (length release_values) 1)) _ p2));
      exact = drift_errors-HasEnv _ console_names expected entries p3;
      bearers = bearer_lem values names p4;
    }

-- The annotations for Prometheus are the governed ones.
pub record IsScraped (deployment : Value) : Type 0 where
  pub annotations : Value
  pub actual : Fields
  pub annotations_lem :
      get_path deployment ("spec" ∷ "template" ∷ "metadata" ∷ "annotations" ∷ []) ≡ ok annotations
  pub actual_lem : chosen_annotations expected_scrape annotations ≡ ok actual
  pub exact : py_eq (dict actual) (dict expected_scrape) ≡ true

pub scrape_lem : (deployment : Value) → scrape_errors deployment ≡ ok [] → IsScraped deployment
unfolding scrape_errors
scrape_lem deployment h =
    let (annotations, h1', h1) =
      >>=-eq-ok (get_path deployment ("spec" ∷ "template" ∷ "metadata" ∷ "annotations" ∷ [])) _ h in
    let (actual, h2', h2) = >>=-eq-ok (chosen_annotations expected_scrape annotations) _ h1 in
    record {
      annotations = annotations;
      actual = actual;
      annotations_lem = h1';
      actual_lem = h2';
      exact = not-eq-false (refuse-nil (not (py_eq (dict actual) (dict expected_scrape))) _ h2);
    }

trust_lem :
    (values : Value) (volumes : Table Value)
    → trust_drifts values volumes ≡ ok false
    → Projects "operator-trust"
        (value_at values "services.console.operatorMtls.publicTrustSecretName")
        trust_files
        volumes
unfolding trust_drifts
trust_lem values volumes h =
    let (secret, h1', h1) =
      >>=-eq-ok (get_or (at_or_empty "operator-trust" volumes) "secret" (dict end)) _ h in
    let (items, h2', h2) = >>=-eq-ok (projected_items secret) _ h1 in
    let (name, h3', h3) = >>=-eq-ok (get secret "secretName") _ h2 in
    let (e1, e2) =
      or-eq-false
        (not (py_eq name (value_at values "services.console.operatorMtls.publicTrustSecretName")))
        (not (same_pairs items trust_files)) (ok-injective h3) in
    record {
      secret = secret;
      items = items;
      name = name;
      secret_lem = h1';
      items_lem = h2';
      name_lem = h3';
      name_exact = not-eq-false e1;
      items_exact = not-eq-false e2;
    }

-- With operator mTLS the trust in operators is projected and mounted read-only; without it, nothing
-- of it.
abbrev pub IsTrusting : Value → Table Value → Table Value → Type 0
IsTrusting values volumes mounts =
    (truthy (value_at values "services.console.operatorMtls.enabled") ≡ true
      → Projects "operator-trust"
          (value_at values "services.console.operatorMtls.publicTrustSecretName") trust_files
          volumes
        × IsMounted "operator-trust" (str "/operator-trust") mounts)
    × (truthy (value_at values "services.console.operatorMtls.enabled") ≡ false
        → (has_entry "operator-trust" volumes || has_entry "operator-trust" mounts) ≡ false)

trust_errors_lem :
    (values : Value) (volumes mounts : Table Value)
    → trust_errors values volumes mounts ≡ ok []
    → IsTrusting values volumes mounts
unfolding trust_errors
trust_errors_lem values volumes mounts h = (
  λ on.
      let (p1, p2) = <+>-nil _ _ (rw on at h) in
      (
        trust_lem values volumes (refuse_if-nil (trust_drifts values volumes) _ p1),
        mount_drifts-IsMounted "operator-trust" (str "/operator-trust") mounts
            (refuse_if-nil (mount_drifts "operator-trust" (str "/operator-trust") mounts) _ p2),
      ),
  λ off.
      refuse-nil (has_entry "operator-trust" volumes || has_entry "operator-trust" mounts) _
        (rw off at h),
)

-- The certificate and the trust of the console.
pub record HasSecrets (values pod_spec container : Value) : Type 0 where
  pub volumes : Table Value
  pub mounts : Table Value
  pub volumes_lem : named_in "volumes" pod_spec ≡ ok volumes
  pub mounts_lem : named_in "volumeMounts" container ≡ ok mounts
  pub secured : IsSecured "console" values pod_spec volumes mounts
  pub trusting : IsTrusting values volumes mounts

pub secrets_lem :
    (values pod_spec container : Value)
    → secret_errors values pod_spec container ≡ ok []
    → HasSecrets values pod_spec container
unfolding secret_errors
secrets_lem values pod_spec container h =
    let (volumes, h1', h1) = >>=-eq-ok (named_in "volumes" pod_spec) _ h in
    let (mounts, h2', h2) = >>=-eq-ok (named_in "volumeMounts" container) _ h1 in
    let (secured, trusting) = <+>-nil _ (trust_errors values volumes mounts) h2 in
    record {
      volumes = volumes;
      mounts = mounts;
      volumes_lem = h1';
      mounts_lem = h2';
      secured = tls_errors-IsSecured "console" _ values pod_spec volumes mounts secured;
      trusting = trust_errors_lem values volumes mounts trusting;
    }
