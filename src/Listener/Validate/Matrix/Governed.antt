-- ===== src/Listener/Validate/Matrix/Governed.antt =====
-- What the listeners of an accepted matrix satisfy.
use clavenar_charts.Base.{
  ℕ, ◌+◌, String, ◌≡◌, sym, ap, ◌∙◌, true, false, not, ◌||◌, List, [], ◌∷◌, nat_eq, nat_eq-eq,
  not-eq-false, or-eq-false, Bool-cases, inl, inr,
}
use mathlib.Core.Path.{subst}
use clavenar_charts.Base.Lists.{length, is_empty, any}
use clavenar_charts.Base.Result.{ok, ◌>>=◌, traverse, any_of, >>=-eq-ok, ok-injective}
use clavenar_charts.Value.{Value, str, list}
use clavenar_charts.Value.Equality.{py_eq, set_of}
use clavenar_charts.Value.Access.{truthy, get, each, or_else, is_in, is_list, is_null, hashed}
use clavenar_charts.Listener.Errors.{<+>-nil, refuse-nil}
use clavenar_charts.Listener.Workload.Accepted.{is_empty-nil}
use clavenar_charts.Listener.Workload.Tls.{pair_member}
use clavenar_charts.Listener.Validate.Matrix.{
  required_listener_fields, missing_keys, ident_of, paths_errors, is_wildcard, wildcard_errors,
  listener_errors, listeners_errors,
}

-- The paths are a list that is not empty and names no path twice.
pub record HasPaths (paths : Value) : Type 0 where
  pub raw : List Value
  pub names : List Value
  pub is_a_list : is_list paths ≡ true
  pub present : truthy paths ≡ true
  pub raw_lem : each paths ≡ ok raw
  pub names_lem : traverse hashed raw ≡ ok names
  pub distinct : length names ≡ length (set_of names)

paths_lem : (who : String) (paths : Value) → paths_errors who paths ≡ ok [] → HasPaths paths
unfolding paths_errors
paths_lem who paths h = elim (Bool-cases (not (is_list paths) || not (truthy paths))) [
  | inl e ↦ cc (ok-injective (rw e at h))
  | inr e ↦
      let (e1, e2) = or-eq-false _ _ e in
      let (raw, h1', h1) = >>=-eq-ok (each paths) _ (rw e at h) in
      let (names, h2', h2) = >>=-eq-ok (traverse hashed raw) _ h1 in
      record {
        raw = raw;
        names = names;
        is_a_list = not-eq-false e1;
        present = not-eq-false e2;
        raw_lem = h1';
        names_lem = h2';
        distinct =
            nat_eq-eq (length names) (length (set_of names)) (
              not-eq-false (refuse-nil (not (nat_eq (length names) (length (set_of names)))) _ h2));
      }
]

-- A listener of the core has no wildcard among its paths.
abbrev pub IsExactCore : Value → Value → Type 0
IsExactCore owner paths =
    py_eq owner (str "core") ≡ true
    → (routes : List Value) → each (or_else paths (list [])) ≡ ok routes
    → any is_wildcard routes ≡ false

wildcard_lem :
    (who : String) (owner paths : Value)
    → wildcard_errors who owner paths ≡ ok []
    → IsExactCore owner paths
unfolding wildcard_errors
wildcard_lem who owner paths h core routes' q =
    let (routes, h1', h1) = >>=-eq-ok (each (or_else paths (list []))) _ (rw core at h) in
    ap (any is_wildcard) (sym (ok-injective (sym h1' ∙ q)))
    ∙ refuse-nil (any is_wildcard routes) _ h1

-- A listener with every required field, a known owner and exact paths, which none of `seen` is.
pub record IsListener (ownership : Value) (seen : List (Value × Value)) (listener : Value)
    : Type 0 where
  pub ident : Value × Value
  pub owner : Value
  pub paths : Value
  pub complete : missing_keys required_listener_fields listener ≡ ok []
  pub ident_lem : ident_of listener ≡ ok ident
  pub explicit :
      any_of (λ name. get listener name >>= λ v. ok (is_null v)) required_listener_fields ≡ ok false
  pub owner_lem : get listener "owner" ≡ ok owner
  pub known : is_in owner ownership ≡ ok true
  pub paths_lem : get listener "ingressPaths" ≡ ok paths
  pub new : pair_member seen ident ≡ false
  pub has_paths : HasPaths paths
  pub exact_core : IsExactCore owner paths

listener_lem :
    (ownership : Value) (index : ℕ) (seen : List (Value × Value)) (listener : Value)
    → listener_errors ownership index seen listener ≡ ok []
    → IsListener ownership seen listener
unfolding listener_errors
listener_lem ownership index seen listener h =
    let (missing, h1', h1) = >>=-eq-ok (missing_keys required_listener_fields listener) _ h in
    let (ident, h2', h2) = >>=-eq-ok (ident_of listener) _ h1 in
    let (implicit, h3', h3) =
      >>=-eq-ok
        (any_of (λ name. get listener name >>= λ v. ok (is_null v)) required_listener_fields) _
        h2 in
    let (owner, h4', h4) = >>=-eq-ok (get listener "owner") _ h3 in
    let (known, h5', h5) = >>=-eq-ok (is_in owner ownership) _ h4 in
    let (paths, h6', h6) = >>=-eq-ok (get listener "ingressPaths") _ h5 in
    let (p1, h7) = <+>-nil _ _ h6 in
    let (p2, h8) = <+>-nil _ _ h7 in
    let (p3, h9) = <+>-nil _ _ h8 in
    let (p4, h10) = <+>-nil _ _ h9 in
    let (p5, p6) = <+>-nil (paths_errors _ paths) (wildcard_errors _ owner paths) h10 in
    record {
      ident = ident;
      owner = owner;
      paths = paths;
      complete = h1' ∙ ap ok (is_empty-nil missing (refuse-nil (not (is_empty missing)) _ p1));
      ident_lem = h2';
      explicit = h3' ∙ ap ok (refuse-nil implicit _ p3);
      owner_lem = h4';
      known = h5' ∙ ap ok (not-eq-false (refuse-nil (not known) _ p4));
      paths_lem = h6';
      new = refuse-nil (pair_member seen ident) _ p2;
      has_paths = paths_lem _ paths p5;
      exact_core = wildcard_lem _ owner paths p6;
    }

-- Every listener is one, and no two have one service and id.
abbrev pub AreListeners : Value → List (Value × Value) → List Value → Type 0
AreListeners ownership seen [] = Unit
AreListeners ownership seen (listener ∷ rest) =
    (first : IsListener ownership seen listener) × AreListeners ownership (first.ident ∷ seen) rest

-- Where the loop over the listeners has no error, every listener has every required field, none of
-- them null, a known owner, and a list of paths that is not empty and names no path twice, without a
-- wildcard if the core owns it; and no two listeners have the same service and id.
pub listeners_errors-AreListeners :
    (ownership : Value) (index : ℕ) (seen : List (Value × Value)) (listeners : List Value)
    → listeners_errors ownership index seen listeners ≡ ok []
    → AreListeners ownership seen listeners
unfolding listeners_errors
listeners_errors-AreListeners ownership index seen [] h = tt
listeners_errors-AreListeners ownership index seen (listener ∷ rest) h =
    let (here, h1', h1) = >>=-eq-ok (listener_errors ownership index seen listener) _ h in
    let (ident, h2', h2) = >>=-eq-ok (ident_of listener) _ h1 in
    let (p1, p2) =
      <+>-nil (ok here) (listeners_errors ownership (index + 1) (ident ∷ seen) rest) h2 in
    let first = listener_lem ownership index seen listener (h1' ∙ p1) in
    let same : ident ≡ first.ident = ok-injective (sym h2' ∙ first.ident_lem) in
    (
      first,
      subst (λ i. AreListeners ownership (i ∷ seen) rest) same
          (listeners_errors-AreListeners ownership (index + 1) (ident ∷ seen) rest p2),
    )
