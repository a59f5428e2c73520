-- ===== src/Listener/Ledger/Rules.antt =====
-- The rules of the ledger's policy that the validator tells apart by the configured peers.
use clavenar_charts.Base.{
  ◌≡◌, refl, ap, ◌∙◌, true, false, Bool, List, [], ◌∷◌, Bool-cases, inl, inr, nat_eq, arith,
}
use mathlib.Core.Path.{subst}
use clavenar_charts.Base.Lists.{length}
use clavenar_charts.Base.Result.{Result, ok, keep_if, any_of, >>=-eq-ok, ok-injective}
use clavenar_charts.Value.{Value, list}
use clavenar_charts.Value.Equality.{py_eq}
use clavenar_charts.Value.Access.{get, each, or_else, is_in}
use clavenar_charts.Listener.Environments.Unique.{Every}
use clavenar_charts.Listener.Ledger.{mtls_ports, is_exact_rule, admits_any}

-- The elements that a comprehension keeps pass its test.
keep_if-Every :
    (test : Value → Result Bool) (xs : List Value) {ys : List Value}
    → keep_if test xs ≡ ok ys
    → Every (λ y. test y ≡ ok true) ys
keep_if-Every test [] h = subst (Every (λ y. test y ≡ ok true)) (ok-injective h) tt
keep_if-Every test (x ∷ xs) h =
    let (kept, hk, h1) = >>=-eq-ok (test x) _ h in
    let (rest, hr, h2) = >>=-eq-ok (keep_if test xs) _ h1 in
    elim (Bool-cases kept) [
      | inl on ↦
          subst (Every (λ y. test y ≡ ok true)) (ok-injective (rw on at h2))
            (hk ∙ ap ok on, keep_if-Every test xs hr)
      | inr off ↦
          subst (Every (λ y. test y ≡ ok true)) (ok-injective (rw off at h2))
            (keep_if-Every test xs hr)
    ]

-- Where no element passes, each of them fails.
any_of-Every :
    (test : Value → Result Bool) (xs : List Value)
    → any_of test xs ≡ ok false
    → Every (λ x. test x ≡ ok false) xs
any_of-Every test [] h = tt
any_of-Every test (x ∷ xs) h =
    let (hit, hh, h1) = >>=-eq-ok (test x) _ h in
    elim (Bool-cases hit) [
      | inl on ↦ cc (ok-injective (rw on at h1))
      | inr off ↦ (hh ∙ ap ok off, any_of-Every test xs (rw off at h1))
    ]

single : (xs : List Value) → nat_eq (length xs) 1 ≡ true → (x : Value) × (xs ≡ x ∷ [])
single [] h = ground arith
single (x ∷ []) h = (x, refl)
single (x ∷ y ∷ xs) h = ground arith

-- The rule has exactly the peers as its sources, and the mTLS port alone.
pub record IsExact (peers rule : Value) : Type 0 where
  pub sources : Value
  pub ports : Value
  pub sources_lem : get rule "from" ≡ ok sources
  pub ports_lem : get rule "ports" ≡ ok ports
  pub sources_exact : py_eq sources peers ≡ true
  pub ports_exact : py_eq ports mtls_ports ≡ true

is_exact_rule-IsExact :
    (peers rule : Value) → is_exact_rule peers rule ≡ ok true → IsExact peers rule
unfolding is_exact_rule
is_exact_rule-IsExact peers rule h =
    let (sources, hs, h1) = >>=-eq-ok (get rule "from") _ h in
    elim (Bool-cases (py_eq sources peers)) [
      | inr other ↦ cc (ok-injective (rw other at h1))
      | inl same ↦
          let (ports, hp, h2) = >>=-eq-ok (get rule "ports") _ (rw same at h1) in
          record {
            sources = sources;
            ports = ports;
            sources_lem = hs;
            ports_lem = hp;
            sources_exact = same;
            ports_exact = ok-injective h2;
          }
    ]

-- If one rule is kept, it is exact.
pub exact_lem :
    (peers : Value) (ingress exact : List Value)
    → keep_if (is_exact_rule peers) ingress ≡ ok exact
    → nat_eq (length exact) 1 ≡ true
    → (rule : Value) × (exact ≡ rule ∷ []) × IsExact peers rule
exact_lem peers ingress exact h one =
    let (rule, e) = single exact one in
    let kept =
      subst (Every (λ y. is_exact_rule peers y ≡ ok true)) e
        (keep_if-Every (is_exact_rule peers) ingress h) in
    (rule, e, is_exact_rule-IsExact peers rule kept.0)

-- None of the configured peers is among the sources of the rule.
pub record IsUnlisted (peers entry : Value) : Type 0 where
  pub configured : List Value
  pub configured_lem : each peers ≡ ok configured
  pub unlisted :
      Every
        (λ p.
          (sources : Value) × (get entry "from" ≡ ok sources)
          × (is_in p (or_else sources (list [])) ≡ ok false))
        configured

Every-map :
    (P Q : Value → Type 0) (xs : List Value) → ((x : Value) → P x → Q x) → Every P xs → Every Q xs
Every-map P Q [] f h = tt
Every-map P Q (x ∷ xs) f h = (f x h.0, Every-map P Q xs f h.1)

pub admits_any-IsUnlisted :
    (peers entry : Value) → admits_any peers entry ≡ ok false → IsUnlisted peers entry
unfolding admits_any
admits_any-IsUnlisted peers entry h =
    let (configured, hc, h1) = >>=-eq-ok (each peers) _ h in
    record {
      configured = configured;
      configured_lem = hc;
      unlisted =
          Every-map _ _ configured
            (λ p e. >>=-eq-ok (get entry "from") (λ sources. is_in p (or_else sources (list []))) e)
            (any_of-Every _ configured h1);
    }
