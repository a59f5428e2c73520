-- ===== src/Listener/Workload/Accepted.antt =====
-- What a workload satisfies when the shared checks have no error.
use clavenar_charts.Base.{
  ℕ, String, ◌≡◌, refl, ap, ◌∙◌, true, false, not, List, [], ◌∷◌, nat_eq, nat_eq-eq, not-eq-false,
  Bool-cases, inl, inr,
}
use clavenar_charts.Base.Lists.{is_empty}
use clavenar_charts.Base.Result.{ok, >>=-eq-ok, ok-injective}
use clavenar_charts.Value.{Value, str, dict, int, ℤ, pos, negsuc, Fields, end, num}
use clavenar_charts.Value.Equality.{py_eq}
use clavenar_charts.Value.Access.{get, get_or}
use clavenar_charts.Value.Number.{to_int}
use clavenar_charts.Value.Sort.{sort_texts, sort_texts-nil}
use clavenar_charts.Value.Table.{Table, table_eq}
use clavenar_charts.Listener.Profile.Production.{py_eq-str}
use clavenar_charts.Listener.Environments.{occurrences}
use clavenar_charts.Listener.Errors.{<+>-nil, refuse-nil, refuse_if-nil}
use clavenar_charts.Listener.Workload.{
  container_ports, ports_errors, governed_env, not_once, once_errors, drift_errors, probe_http,
  probe_drifts, probe_errors, probes_errors,
}

-- The named ports of the container are exactly the expected ones.
pub record HasPorts (expected : Table Value) (container : Value) : Type 0 where
  pub actual : Table Value
  pub actual_lem : container_ports container ≡ ok actual
  pub exact : table_eq actual expected ≡ true

pub ports_errors-HasPorts :
    (who : String) (expected : Table Value) (container : Value)
    → ports_errors who expected container ≡ ok []
    → HasPorts expected container
unfolding ports_errors
ports_errors-HasPorts who expected container h =
    let (actual, ha, h1) = >>=-eq-ok (container_ports container) _ h in
    record {
      actual = actual;
      actual_lem = ha;
      exact = not-eq-false (refuse-nil (not (table_eq actual expected)) _ h1);
    }

-- Each name occurs once.
abbrev pub Once : List Value → List String → Type 0
Once counted [] = Unit
Once counted (name ∷ names) = (occurrences counted (str name) ≡ 1) × Once counted names

not_once-nil :
    (counted : List Value) (names : List String) → not_once counted names ≡ [] → Once counted names
unfolding not_once
not_once-nil counted [] h = tt
not_once-nil counted (name ∷ names) h =
    elim (Bool-cases (nat_eq (occurrences counted (str name)) 1)) [
      | inl e ↦ (nat_eq-eq _ 1 e, not_once-nil counted names (rw e at h))
      | inr e ↦ cc (rw e at h)
    ]

pub is_empty-nil {ℓ} : {A : Type ℓ} (xs : List A) → not (is_empty xs) ≡ false → xs ≡ []
is_empty-nil [] h = refl
is_empty-nil (x ∷ xs) h = cc

pub once_errors-Once :
    (message : String) (names : List String) (counted : List Value)
    → once_errors message names counted ≡ ok []
    → Once counted names
unfolding once_errors
once_errors-Once message names counted h = not_once-nil counted names (
    sort_texts-nil (not_once counted names)
      (is_empty-nil _ (refuse-nil (not (is_empty (sort_texts (not_once counted names)))) _ h)))

-- The entries with the governed names are exactly the expected variables.
pub record HasEnv (names : List String) (expected : Fields) (entries : List Value) : Type 0 where
  pub actual : Fields
  pub actual_lem : governed_env names end entries ≡ ok actual
  pub exact : py_eq (dict actual) (dict expected) ≡ true

pub drift_errors-HasEnv :
    (message : String) (names : List String) (expected : Fields) (entries : List Value)
    → drift_errors message names expected entries ≡ ok []
    → HasEnv names expected entries
unfolding drift_errors
drift_errors-HasEnv message names expected entries h =
    let (actual, ha, h1) = >>=-eq-ok (governed_env names end entries) _ h in
    record {
      actual = actual;
      actual_lem = ha;
      exact = not-eq-false (refuse-nil (not (py_eq (dict actual) (dict expected))) _ h1);
    }

-- The probe goes to the path and the port.
pub record HasProbe (probe path : String) (port : ℕ) (container : Value) : Type 0 where
  pub http : Value
  pub raw : Value
  pub http_lem : probe_http probe container ≡ ok http
  pub path_lem : get http "path" ≡ ok (str path)
  pub raw_lem : get_or http "port" (int (negsuc 0)) ≡ ok raw
  pub port_lem : to_int raw ≡ ok (pos port)

pub py_eq-num : (n : ℤ) (m : ℕ) → py_eq (int n) (num m) ≡ true → n ≡ pos m
unfolding py_eq
py_eq-num (pos n) m h = ap pos (nat_eq-eq n m h)
py_eq-num (negsuc n) m h = cc

probe_drifts-HasProbe :
    (probe path : String) (port : ℕ) (container : Value)
    → probe_drifts probe path port container ≡ ok false
    → HasProbe probe path port container
unfolding probe_drifts
probe_drifts-HasProbe probe path port container h =
    let (http, h1', h1) = >>=-eq-ok (probe_http probe container) _ h in
    let (actual, h2', h2) = >>=-eq-ok (get http "path") _ h1 in
    elim (Bool-cases (py_eq actual (str path))) [
      | inr e ↦ cc (ok-injective (rw e at h2))
      | inl e ↦
          let (raw, h3', h3) = >>=-eq-ok (get_or http "port" (int (negsuc 0))) _ (rw e at h2) in
          let (number, h4', h4) = >>=-eq-ok (to_int raw) _ h3 in
          record {
            http = http;
            raw = raw;
            http_lem = h1';
            path_lem = h2' ∙ ap ok (py_eq-str actual path e);
            raw_lem = h3';
            port_lem = h4' ∙ ap ok (py_eq-num number port (not-eq-false (ok-injective h4)));
          }
    ]

-- Liveness is asked at `/health` and readiness at `/readyz`.
abbrev pub HasProbes : ℕ → Value → Type 0
HasProbes port container =
    HasProbe "livenessProbe" "/health" port container
    × HasProbe "readinessProbe" "/readyz" port container

pub probes_errors-HasProbes :
    (who must : String) (port : ℕ) (container : Value)
    → probes_errors who must port container ≡ ok []
    → HasProbes port container
unfolding probes_errors probe_errors
probes_errors-HasProbes who must port container h =
    let (live, ready) =
      <+>-nil (probe_errors who must port "livenessProbe" "/health" container) _ h in
    (
      probe_drifts-HasProbe "livenessProbe" "/health" port container (refuse_if-nil _ _ live),
      probe_drifts-HasProbe "readinessProbe" "/readyz" port container (refuse_if-nil _ _ ready),
    )
