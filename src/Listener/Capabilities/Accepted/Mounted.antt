-- ===== src/Listener/Capabilities/Accepted/Mounted.antt =====
-- What an accepted service that mounts the capability bundle satisfies.
use clavenar_charts.Base.{
  String, ◌<>◌, ◌≡◌, refl, Bool, true, false, not, ◌&&◌, ◌||◌, List, [], ◌∷◌, nat_eq, nat_eq-eq,
  not-eq-false, and-eq-true, or-eq-false, if◌then◌else◌,
}
use clavenar_charts.Base.Lists.{length, is_empty}
use clavenar_charts.Base.Result.{Result, ok, ◌>>=◌, keep_if, >>=-eq-ok, ok-injective}
use clavenar_charts.Value.{Value, str, dict, Fields, end, list}
use clavenar_charts.Value.Equality.{py_eq}
use clavenar_charts.Value.Access.{truthy, get, get_or, each, is_true}
use clavenar_charts.Value.Table.{Table}
use clavenar_charts.Listener.Values.{value_at}
use clavenar_charts.Listener.Errors.{refuse, <+>-nil, refuse-nil, refuse_if-nil}
use clavenar_charts.Listener.Rendered.{is_document, get_path}
use clavenar_charts.Listener.Workload.{containers_named, governed_env}
use clavenar_charts.Listener.Workload.Accepted.{is_empty-nil}
use clavenar_charts.Listener.Workload.Tls.{at_or_empty, has_entry}
use clavenar_charts.Listener.Capabilities.Target.{
  Bundle, capability_names, bundle_path, capability_env, is_governed_entry, named_all,
  bundle_mount_drifts, mounted_errors, target_container_errors, target_errors, enabled_errors,
  targets_errors,
}

-- The bundle is mounted read-only from its ConfigMap.
pub record IsMounting (b : Bundle) (volumes mounts : Table Value) : Type 0 where
  pub volume : Value
  pub path : Value
  pub sub_path : Value
  pub read_only : Value
  pub name : Value
  pub volume_lem :
      get_or (at_or_empty "workload-capabilities" volumes) "configMap" (dict end) ≡ ok volume
  pub path_lem : get (at_or_empty "workload-capabilities" mounts) "mountPath" ≡ ok path
  pub sub_path_lem : get (at_or_empty "workload-capabilities" mounts) "subPath" ≡ ok sub_path
  pub read_only_lem : get (at_or_empty "workload-capabilities" mounts) "readOnly" ≡ ok read_only
  pub name_lem : get volume "name" ≡ ok name
  pub path_exact : py_eq path bundle_path ≡ true
  pub sub_path_exact : py_eq sub_path (str "workload-capability-bundle.json") ≡ true
  pub is_read_only : is_true read_only ≡ true
  pub name_exact : py_eq name (str b.map_name) ≡ true

guard_lem :
    (test : Bool) (others : Result Bool)
    → (if not test then ok true else others) ≡ ok false
    → (test ≡ true) × (others ≡ ok false)
guard_lem false others h = cc (ok-injective h)
guard_lem true others h = (refl, h)

mount_lem :
    (b : Bundle) (volumes mounts : Table Value)
    → bundle_mount_drifts b volumes mounts ≡ ok false
    → IsMounting b volumes mounts
unfolding bundle_mount_drifts
mount_lem b volumes mounts h =
    let (volume, h1', h1) =
      >>=-eq-ok (get_or (at_or_empty "workload-capabilities" volumes) "configMap" (dict end)) _ h in
    let (path, h2', h2) =
      >>=-eq-ok (get (at_or_empty "workload-capabilities" mounts) "mountPath") _ h1 in
    let (sub_path, h3', h3) =
      >>=-eq-ok (get (at_or_empty "workload-capabilities" mounts) "subPath") _ h2 in
    let (read_only, h4', h4) =
      >>=-eq-ok (get (at_or_empty "workload-capabilities" mounts) "readOnly") _ h3 in
    let (mounted, h5) =
      guard_lem
        (py_eq path bundle_path
          && py_eq sub_path (str "workload-capability-bundle.json")
          && is_true read_only)
        (get volume "name" >>= λ name. ok (not (py_eq name (str b.map_name)))) h4 in
    let (name, h6', h6) = >>=-eq-ok (get volume "name") _ h5 in
    let (e12, e3) = and-eq-true _ _ mounted in
    let (e1, e2) = and-eq-true _ _ e12 in
    record {
      volume = volume;
      path = path;
      sub_path = sub_path;
      read_only = read_only;
      name = name;
      volume_lem = h1';
      path_lem = h2';
      sub_path_lem = h3';
      read_only_lem = h4';
      name_lem = h6';
      path_exact = e1;
      sub_path_exact = e2;
      is_read_only = e3;
      name_exact = not-eq-false (ok-injective h6);
    }

-- The service carries exactly the three variables of the bundle, and mounts it.
pub record HasBundle (b : Bundle) (entries : List Value) (mounts volumes : Table Value)
    : Type 0 where
  pub expected : Fields
  pub actual : Fields
  pub expected_lem : capability_env b ≡ ok expected
  pub actual_lem : governed_env capability_names end entries ≡ ok actual
  pub count : length entries ≡ 3
  pub exact : py_eq (dict actual) (dict expected) ≡ true
  pub mounting : IsMounting b volumes mounts

has_bundle_lem :
    (who : String) (b : Bundle) (entries : List Value) (mounts volumes : Table Value)
    → mounted_errors who b entries mounts volumes ≡ ok []
    → HasBundle b entries mounts volumes
unfolding mounted_errors
has_bundle_lem who b entries mounts volumes h =
    let (expected, h1', h1) = >>=-eq-ok (capability_env b) _ h in
    let (actual, h2', h2) = >>=-eq-ok (governed_env capability_names end entries) _ h1 in
    let (env, mount) = <+>-nil _ _ h2 in
    let (counted, exact) = or-eq-false _ _ (
      refuse-nil (not (nat_eq (length entries) 3) || not (py_eq (dict actual) (dict expected))) _
        env) in
    record {
      expected = expected;
      actual = actual;
      expected_lem = h1';
      actual_lem = h2';
      count = nat_eq-eq (length entries) 3 (not-eq-false counted);
      exact = not-eq-false exact;
      mounting =
          mount_lem b volumes mounts (refuse_if-nil (bundle_mount_drifts b volumes mounts) _ mount);
    }

-- A service that runs: under workload TLS it has the bundle, without it nothing of it.
pub record IsTarget (values : Value) (docs : List Value) (release : String) (b : Bundle)
    (who : String) : Type 0 where
  pub deployment : Value
  pub pod : Value
  pub container : Value
  pub raw : Value
  pub all_entries : List Value
  pub entries : List Value
  pub mounts : Table Value
  pub volumes : Table Value
  pub one : keep_if (is_document "Deployment" (release <> "-" <> who)) docs ≡ ok (deployment ∷ [])
  pub pod_lem : get_path deployment ("spec" ∷ "template" ∷ "spec" ∷ []) ≡ ok pod
  pub single : containers_named who pod ≡ ok (container ∷ [])
  pub raw_lem : get_or container "env" (list []) ≡ ok raw
  pub all_entries_lem : each raw ≡ ok all_entries
  pub entries_lem : keep_if is_governed_entry all_entries ≡ ok entries
  pub mounts_lem : named_all "volumeMounts" container ≡ ok mounts
  pub volumes_lem : named_all "volumes" pod ≡ ok volumes
  pub secured :
      truthy (value_at values "tlsBundle.secretName") ≡ true → HasBundle b entries mounts volumes
  pub unsecured :
      truthy (value_at values "tlsBundle.secretName") ≡ false
      → (entries ≡ [])
        × (has_entry "workload-capabilities" mounts ≡ false)
        × (has_entry "workload-capabilities" volumes ≡ false)

absent_lem :
    (who : String) (entries : List Value) (mounts volumes : Table Value)
    → refuse
        (not (is_empty entries)
          || has_entry "workload-capabilities" mounts
          || has_entry "workload-capabilities" volumes)
        (who <> " mounts generated capabilities without workload TLS")
      ≡ ok []
    → (entries ≡ [])
      × (has_entry "workload-capabilities" mounts ≡ false)
      × (has_entry "workload-capabilities" volumes ≡ false)
absent_lem who entries mounts volumes h =
    let (e12, e3) = or-eq-false _ _ (
      refuse-nil
        (not (is_empty entries)
          || has_entry "workload-capabilities" mounts
          || has_entry "workload-capabilities" volumes)
        _ h) in
    let (e1, e2) = or-eq-false _ _ e12 in (is_empty-nil entries e1, e2, e3)

branch_lem :
    (secured : Bool) (with without : Result (List String))
    → (if secured then with else without) ≡ ok []
    → (secured ≡ true → with ≡ ok []) × (secured ≡ false → without ≡ ok [])
branch_lem true with without h = (λ _. h, λ off. cc)
branch_lem false with without h = (λ on. cc, λ _. h)

container_lem :
    (values : Value) (docs : List Value) (release : String) (b : Bundle) (who : String)
    (deployment pod : Value) (containers : List Value)
    → keep_if (is_document "Deployment" (release <> "-" <> who)) docs ≡ ok (deployment ∷ [])
    → get_path deployment ("spec" ∷ "template" ∷ "spec" ∷ []) ≡ ok pod
    → containers_named who pod ≡ ok containers
    → target_container_errors values who b pod containers ≡ ok []
    → IsTarget values docs release b who
unfolding target_container_errors
container_lem values docs release b who deployment pod [] one found single h = cc (ok-injective h)
container_lem values docs release b who deployment pod (c ∷ d ∷ cs) one found single h =
    cc (ok-injective h)
container_lem values docs release b who deployment pod (container ∷ []) one found single h =
    let (raw, h1', h1) = >>=-eq-ok (get_or container "env" (list [])) _ h in
    let (all_entries, h2', h2) = >>=-eq-ok (each raw) _ h1 in
    let (entries, h3', h3) = >>=-eq-ok (keep_if is_governed_entry all_entries) _ h2 in
    let (mounts, h4', h4) = >>=-eq-ok (named_all "volumeMounts" container) _ h3 in
    let (volumes, h5', h5) = >>=-eq-ok (named_all "volumes" pod) _ h4 in
    let (secured, unsecured) =
      branch_lem (truthy (value_at values "tlsBundle.secretName")) _ _ h5 in
    record {
      deployment = deployment;
      pod = pod;
      container = container;
      raw = raw;
      all_entries = all_entries;
      entries = entries;
      mounts = mounts;
      volumes = volumes;
      one = one;
      pod_lem = found;
      single = single;
      raw_lem = h1';
      all_entries_lem = h2';
      entries_lem = h3';
      mounts_lem = h4';
      volumes_lem = h5';
      secured = λ on. has_bundle_lem who b entries mounts volumes (secured on);
      unsecured = λ off. absent_lem who entries mounts volumes (unsecured off);
    }

target_lem :
    (values : Value) (docs : List Value) (release : String) (b : Bundle) (who : String)
    (deployments : List Value)
    → keep_if (is_document "Deployment" (release <> "-" <> who)) docs ≡ ok deployments
    → target_errors values who b deployments ≡ ok []
    → IsTarget values docs release b who
unfolding target_errors
target_lem values docs release b who [] one h = cc (ok-injective h)
target_lem values docs release b who (d ∷ e ∷ ds) one h = cc (ok-injective h)
target_lem values docs release b who (deployment ∷ []) one h =
    let (pod, h1', h1) = >>=-eq-ok (get_path deployment ("spec" ∷ "template" ∷ "spec" ∷ [])) _ h in
    let (containers, h2', h2) = >>=-eq-ok (containers_named who pod) _ h1 in
    container_lem values docs release b who deployment pod containers one h1' h2' h2

-- Each service that the values enable is as it must be.
abbrev pub AllMount : Value → List Value → String → Bundle → List (String × String) → Type 0
AllMount values docs release b [] = Unit
AllMount values docs release b ((values_name, who) ∷ rest) =
    (truthy (value_at values ("services." <> values_name <> ".enabled")) ≡ true
      → IsTarget values docs release b who)
    × AllMount values docs release b rest

enabled_lem :
    (values : Value) (docs : List Value) (release : String) (b : Bundle) (values_name who : String)
    → enabled_errors values docs release b (values_name, who) ≡ ok []
    → truthy (value_at values ("services." <> values_name <> ".enabled")) ≡ true
    → IsTarget values docs release b who
unfolding enabled_errors
enabled_lem values docs release b values_name who h enabled =
    let (deployments, found, h1) =
      >>=-eq-ok (keep_if (is_document "Deployment" (release <> "-" <> who)) docs) _
        (rw enabled at h) in
    target_lem values docs release b who deployments found h1

pub targets_errors-AllMount :
    (values : Value) (docs : List Value) (release : String) (b : Bundle)
    (ts : List (String × String))
    → targets_errors values docs release b ts ≡ ok []
    → AllMount values docs release b ts
unfolding targets_errors
targets_errors-AllMount values docs release b [] h = tt
targets_errors-AllMount values docs release b ((values_name, who) ∷ rest) h =
    let (here, later) = <+>-nil _ (targets_errors values docs release b rest) h in
    (
      enabled_lem values docs release b values_name who here,
      targets_errors-AllMount values docs release b rest later,
    )
