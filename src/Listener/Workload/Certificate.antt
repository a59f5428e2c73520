-- ===== src/Listener/Workload/Certificate.antt =====
-- What an accepted workload certificate satisfies.
use clavenar_charts.Base.{
  String, ◌≡◌, refl, ap, ◌∙◌, true, false, not, ◌||◌, List, [], ◌∷◌, not-eq-false, or-eq-false,
}
use clavenar_charts.Base.Text.{has_infix, join}
use clavenar_charts.Base.Result.{ok, keep_if, traverse, >>=-eq-ok, ok-injective}
use clavenar_charts.Value.{Value, dict, end, list, num}
use clavenar_charts.Value.Equality.{py_eq}
use clavenar_charts.Value.Access.{truthy, get, get_or, each}
use clavenar_charts.Value.Table.{Table}
use clavenar_charts.Listener.Values.{value_at}
use clavenar_charts.Listener.Errors.{<+>-nil, refuse-nil, refuse_if-nil}
use clavenar_charts.Listener.Rendered.{has_name}
use clavenar_charts.Listener.Workload.Tls.{
  at_or_empty, has_entry, projected_items, same_pairs, certificate_files, projection_drifts,
  memory_volume, destination_drifts, joinable, script_drifts, projector_drifts, mount_drifts,
  certificate_errors, tls_errors,
}

-- A volume projects exactly some files of a Secret.
pub record Projects (volume : String) (secret_name : Value) (files : List (Value × Value))
    (volumes : Table Value) : Type 0 where
  pub secret : Value
  pub items : List (Value × Value)
  pub name : Value
  pub secret_lem : get_or (at_or_empty volume volumes) "secret" (dict end) ≡ ok secret
  pub items_lem : projected_items secret ≡ ok items
  pub name_lem : get secret "secretName" ≡ ok name
  pub name_exact : py_eq name secret_name ≡ true
  pub items_exact : same_pairs items files ≡ true

-- The files of a projected Secret have a mode.
pub record HasMode (volume : String) (wanted : Value) (volumes : Table Value) : Type 0 where
  pub secret : Value
  pub mode : Value
  pub secret_lem : get_or (at_or_empty volume volumes) "secret" (dict end) ≡ ok secret
  pub mode_lem : get secret "defaultMode" ≡ ok mode
  pub mode_exact : py_eq mode wanted ≡ true

-- A mount is read-only at the path.
pub record IsMounted (name : String) (expected_path : Value) (mounts : Table Value) : Type 0 where
  pub path : Value
  pub read_only : Value
  pub path_lem : get (at_or_empty name mounts) "mountPath" ≡ ok path
  pub read_only_lem : get (at_or_empty name mounts) "readOnly" ≡ ok read_only
  pub path_exact : py_eq path expected_path ≡ true
  pub is_read_only : truthy read_only ≡ true

pub mount_drifts-IsMounted :
    (name : String) (expected_path : Value) (mounts : Table Value)
    → mount_drifts name expected_path mounts ≡ ok false
    → IsMounted name expected_path mounts
unfolding mount_drifts
mount_drifts-IsMounted name expected_path mounts h =
    let (path, h1', h1) = >>=-eq-ok (get (at_or_empty name mounts) "mountPath") _ h in
    let (read_only, h2', h2) = >>=-eq-ok (get (at_or_empty name mounts) "readOnly") _ h1 in
    let (e1, e2) = or-eq-false _ _ (ok-injective h2) in
    record {
      path = path;
      read_only = read_only;
      path_lem = h1';
      read_only_lem = h2';
      path_exact = not-eq-false e1;
      is_read_only = not-eq-false e2;
    }

-- One projector, whose script binds the private keys to mode 0600.
pub record HasProjector (pod_spec : Value) : Type 0 where
  pub projector : Value
  pub raw : Value
  pub containers : List Value
  pub raw_args : Value
  pub arguments : List Value
  pub lines : List String
  pub raw_lem : get_or pod_spec "initContainers" (list []) ≡ ok raw
  pub containers_lem : each raw ≡ ok containers
  pub one : keep_if (has_name "workload-tls-projector") containers ≡ ok (projector ∷ [])
  pub args_lem : get_or projector "args" (list []) ≡ ok raw_args
  pub arguments_lem : each raw_args ≡ ok arguments
  pub lines_lem : traverse joinable arguments ≡ ok lines
  pub binds_keys : has_infix (join "\n" lines) "chmod 0600 /projected/*.key" ≡ true

script_lem :
    (projectors : List Value)
    → script_drifts projectors ≡ ok false
    → (projector raw : Value) × (arguments : List Value) × (lines : List String) × (projectors
        ≡ projector ∷ [])
      × (get_or projector "args" (list []) ≡ ok raw)
      × (each raw ≡ ok arguments)
      × (traverse joinable arguments ≡ ok lines)
      × (has_infix (join "\n" lines) "chmod 0600 /projected/*.key" ≡ true)
unfolding script_drifts
script_lem [] h = cc (ok-injective h)
script_lem (p ∷ q ∷ ps) h = cc (ok-injective h)
script_lem (projector ∷ []) h =
    let (raw, h1', h1) = >>=-eq-ok (get_or projector "args" (list [])) _ h in
    let (arguments, h2', h2) = >>=-eq-ok (each raw) _ h1 in
    let (lines, h3', h3) = >>=-eq-ok (traverse joinable arguments) _ h2 in
    (projector, raw, arguments, lines, refl, h1', h2', h3', not-eq-false (ok-injective h3))

projector_drifts-HasProjector :
    (pod_spec : Value) → projector_drifts pod_spec ≡ ok false → HasProjector pod_spec
unfolding projector_drifts
projector_drifts-HasProjector pod_spec h =
    let (raw, h1', h1) = >>=-eq-ok (get_or pod_spec "initContainers" (list [])) _ h in
    let (containers, h2', h2) = >>=-eq-ok (each raw) _ h1 in
    let (projectors, h3', h3) =
      >>=-eq-ok (keep_if (has_name "workload-tls-projector") containers) _ h2 in
    let (projector, raw_args, arguments, lines, one, a1, a2, a3, binds) =
      script_lem projectors h3 in
    record {
      projector = projector;
      raw = raw;
      containers = containers;
      raw_args = raw_args;
      arguments = arguments;
      lines = lines;
      raw_lem = h1';
      containers_lem = h2';
      one = h3' ∙ ap ok one;
      args_lem = a1;
      arguments_lem = a2;
      lines_lem = a3;
      binds_keys = binds;
    }

-- The certificate of a service: projected from the Secret of the values with its public CA, in files
-- of mode 0440 (288), bound by the projector into a bounded memory volume, and mounted read-only.
pub record HasCertificate (who : String) (values pod_spec : Value) (volumes mounts : Table Value)
    : Type 0 where
  pub projects :
      Projects "certs-source"
        (value_at values "tlsBundle.secretName")
        (certificate_files who)
        volumes
  pub has_mode : HasMode "certs-source" (num 288) volumes
  pub destination : Value
  pub destination_lem : get_or (at_or_empty "certs" volumes) "emptyDir" (dict end) ≡ ok destination
  pub bounded : py_eq destination memory_volume ≡ true
  pub projector : HasProjector pod_spec
  pub mounted : IsMounted "certs" (value_at values "tlsBundle.mountPath") mounts

projection_lem :
    (who : String) (tls_secret : Value) (volumes : Table Value)
    → projection_drifts who tls_secret volumes ≡ ok false
    → Projects "certs-source" tls_secret (certificate_files who) volumes
      × HasMode "certs-source" (num 288) volumes
unfolding projection_drifts
projection_lem who tls_secret volumes h =
    let (secret, h1', h1) =
      >>=-eq-ok (get_or (at_or_empty "certs-source" volumes) "secret" (dict end)) _ h in
    let (items, h2', h2) = >>=-eq-ok (projected_items secret) _ h1 in
    let (name, h3', h3) = >>=-eq-ok (get secret "secretName") _ h2 in
    let (mode, hmode, h4) = >>=-eq-ok (get secret "defaultMode") _ h3 in
    let (e12, e3) =
      or-eq-false (not (py_eq name tls_secret) || not (py_eq mode (num 288)))
        (not (same_pairs items (certificate_files who))) (ok-injective h4) in
    let (e1, e2) = or-eq-false (not (py_eq name tls_secret)) _ e12 in
    (
      record {
        secret = secret;
        items = items;
        name = name;
        secret_lem = h1';
        items_lem = h2';
        name_lem = h3';
        name_exact = not-eq-false e1;
        items_exact = not-eq-false e3;
      },
      record {
        secret = secret;
        mode = mode;
        secret_lem = h1';
        mode_lem = hmode;
        mode_exact = not-eq-false e2;
      },
    )

certificate_lem :
    (who projection : String) (values pod_spec : Value) (volumes mounts : Table Value)
    → certificate_errors who projection values pod_spec volumes mounts ≡ ok []
    → HasCertificate who values pod_spec volumes mounts
unfolding certificate_errors destination_drifts
certificate_lem who projection values pod_spec volumes mounts h =
    let (p1, h1) = <+>-nil _ _ h in
    let (p2, h2) = <+>-nil _ _ h1 in
    let (p3, p4) = <+>-nil _ _ h2 in
    let (destination, hd, e) =
      >>=-eq-ok (get_or (at_or_empty "certs" volumes) "emptyDir" (dict end)) _
        (refuse_if-nil (destination_drifts volumes) _ p2) in
    let (projects, has_mode) =
      projection_lem who (value_at values "tlsBundle.secretName") volumes (refuse_if-nil _ _ p1) in
    record {
      projects = projects;
      has_mode = has_mode;
      destination = destination;
      destination_lem = hd;
      bounded = not-eq-false (ok-injective e);
      projector = projector_drifts-HasProjector pod_spec (refuse_if-nil _ _ p3);
      mounted =
          mount_drifts-IsMounted "certs" (value_at values "tlsBundle.mountPath") mounts
            (refuse_if-nil _ _ p4);
    }

-- With workload TLS the service has its certificate; without it, nothing of one.
abbrev pub IsSecured : String → Value → Value → Table Value → Table Value → Type 0
IsSecured who values pod_spec volumes mounts =
    (truthy (value_at values "tlsBundle.secretName") ≡ true
      → HasCertificate who values pod_spec volumes mounts)
    × (truthy (value_at values "tlsBundle.secretName") ≡ false
        → (has_entry "certs" volumes
            || has_entry "certs-source" volumes
            || has_entry "certs" mounts)
          ≡ false)

pub tls_errors-IsSecured :
    (who projection : String) (values pod_spec : Value) (volumes mounts : Table Value)
    → tls_errors who projection values pod_spec volumes mounts ≡ ok []
    → IsSecured who values pod_spec volumes mounts
unfolding tls_errors
tls_errors-IsSecured who projection values pod_spec volumes mounts h = (
  λ on. certificate_lem who projection values pod_spec volumes mounts (rw on at h),
  λ off. refuse-nil _ _ (rw off at h),
)
