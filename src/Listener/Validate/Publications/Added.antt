-- ===== src/Listener/Validate/Publications/Added.antt =====
-- What adding a publication keeps.
use clavenar_charts.Base.{
  ◌≡◌, refl, sym, Bool, true, false, not, ◌&&◌, ◌||◌, List, [], ◌∷◌, Bool-cases, inl, inr, ℕ,
  nat_eq, arith, eq_refl, if◌then◌else◌,
}
use mathlib.Core.Path.{subst}
use clavenar_charts.Base.Lists.{any}
use clavenar_charts.Base.Result.{ok}
use clavenar_charts.Value.{Value, null, bool, int, str, array, dict, ℤ, pos, negsuc}
use clavenar_charts.Value.Equality.{py_eq, int_eq}
use clavenar_charts.Value.Access.{hashed}
use clavenar_charts.Listener.Policies.Ingress.{hashed-eq-ok}
use clavenar_charts.Listener.Validate.Publications.{Publication, is_published, add_publication}

nat_eq_self : (n : ℕ) → nat_eq n n ≡ true
nat_eq_self n = ground arith

int_eq_self : (n : ℤ) → int_eq n n ≡ true
int_eq_self (pos n) = nat_eq_self n
int_eq_self (negsuc n) = nat_eq_self n

-- An element of a set is equal to itself.
pub hashed_self : (v k : Value) → hashed v ≡ ok k → py_eq k k ≡ true
unfolding py_eq
hashed_self v k h = subst (λ x. py_eq x x ≡ true) (sym (hashed-eq-ok v h)) (self v h)
  where
    self : (v : Value) → hashed v ≡ ok k → py_eq v v ≡ true
    self null h = refl
    self (bool true) h = refl
    self (bool false) h = refl
    self (int n) h = int_eq_self n
    self (str s) h = eq_refl s
    self (array xs) h = cc
    self (dict fs) h = cc

add_publication-keeps :
    (s service : Value) (p port : ℤ) (pubs : List Publication)
    → is_published pubs s p ≡ true
    → is_published (add_publication service port pubs) s p ≡ true
add_publication-keeps s service p port [] h = cc
add_publication-keeps s service p port (q ∷ pubs) h =
    elim (Bool-cases (py_eq q.0 service && not (any (λ r. py_eq r.0 service) pubs))) [
      | inl e ↦ rw e (front (py_eq q.0 s && int_eq q.1 p) (py_eq service s && int_eq port p) _ h)
      | inr e ↦ rw e (elim (Bool-cases (py_eq q.0 s && int_eq q.1 p)) [
        | inl b ↦ rw b refl
        | inr b ↦ rw b (add_publication-keeps s service p port pubs (rw b at h))
      ])
    ]
  where
    front : (x y z : Bool) → (x || z) ≡ true → (x || (y || z)) ≡ true
    front x y z h = ground arith

add_publication-has :
    (service : Value) (port : ℤ) (pubs : List Publication)
    → py_eq service service ≡ true
    → is_published (add_publication service port pubs) service port ≡ true
add_publication-has service port [] self = rw (self, int_eq_self port) refl
add_publication-has service port (q ∷ pubs) self =
    elim (Bool-cases (py_eq q.0 service && not (any (λ r. py_eq r.0 service) pubs))) [
      | inl e ↦ rw (e, self, int_eq_self port) (or_true (py_eq q.0 service && int_eq q.1 port))
      | inr e ↦
          rw (e, add_publication-has service port pubs self)
            (or_true (py_eq q.0 service && int_eq q.1 port))
    ]
  where
    or_true : (x : Bool) → (x || true) ≡ true
    or_true x = ground arith

-- What is published in the first list is published in the second.
abbrev pub Keeps : List Publication → List Publication → Type 0
Keeps pubs out = (s : Value) (p : ℤ) → is_published pubs s p ≡ true → is_published out s p ≡ true

-- The publications after those of one service and port.
abbrev pub extended : List Publication → Value → ℤ → List Publication
extended pubs service port =
    if is_published pubs service port then pubs else add_publication service port pubs

pub extended-Keeps :
    (pubs : List Publication) (service : Value) (port : ℤ) → Keeps pubs (extended pubs service port)
extended-Keeps pubs service port s p k = elim (Bool-cases (is_published pubs service port)) [
  | inl b ↦ rw b k
  | inr b ↦ rw b (add_publication-keeps s service p port pubs k)
]

pub extended-has :
    (pubs : List Publication) (service : Value) (port : ℤ)
    → py_eq service service ≡ true
    → is_published (extended pubs service port) service port ≡ true
extended-has pubs service port self = elim (Bool-cases (is_published pubs service port)) [
  | inl b ↦ rw (b, b) refl
  | inr b ↦ rw b (add_publication-has service port pubs self)
]
