-- ===== src/Nats/Sync/Written.antt =====
-- What `sync_values_authorization` leaves in the files.
use clavenar_charts.Base.{
  ℕ, zero, suc, String, ◌<>◌, ◌≡◌, refl, sym, ap, ◌∙◌, Bool, true, false, not, List, [], ◌∷◌,
  nat_eq, nat_eq-eq, arith, Bool-cases, inl, inr, if◌then◌else◌,
}
use Prim.Native.Char.{code}
use text.Mathlib.TextLemmas.{cons-append}
use clavenar_charts.Base.Lists.{length, filter}
use clavenar_charts.Base.Text.{has_prefix, join}
use clavenar_charts.Base.Result.{Result, ok, raise, Exception, contract_error}
use clavenar_charts.Value.{Value}
use clavenar_charts.Value.Json.{dumps}
use clavenar_charts.Nats.Permissions.{expected_authorization}
use clavenar_charts.Nats.Sync.{
  Files, marker, split_lines, compact, is_marked, replace_marked, substitute, write_validation,
  write_values, sync_values_authorization,
}

nat_eq_refl : (n : ℕ) → nat_eq n n ≡ true
nat_eq_refl n = ground arith

pub has_prefix-append : (prefix text : String) → has_prefix (prefix <> text) prefix ≡ true
has_prefix-append String.[] text = refl
has_prefix-append (String.◌∷◌ c prefix) text =
    rw (cons-append c prefix text) (rw (nat_eq_refl (code c)) (has_prefix-append prefix text))

positive : {n : ℕ} → suc n ≡ zero → ⊥
positive e = omega arith

one : {n : ℕ} → suc n ≡ suc zero → n ≡ zero
one e = omega arith

empty : (xs : List String) → length xs ≡ zero → xs ≡ []
empty [] e = refl
empty (x ∷ xs) e = absurd (positive e)

pub marked_lem :
    (new : String) (lines : List String)
    → is_marked new ≡ true
    → length (filter is_marked lines) ≡ 1
    → filter is_marked (replace_marked new lines) ≡ new ∷ []
unfolding replace_marked
marked_lem new [] m h = absurd (positive (sym h))
marked_lem new (line ∷ rest) m h = elim (Bool-cases (is_marked line)) [
  | inl e ↦ rw e (rw m (ap (λ xs. new ∷ xs) (empty (filter is_marked rest) (one (rw e at h)))))
  | inr e ↦ rw e (rw e (marked_lem new rest m (rw e at h)))
]

pub unmarked_lem :
    (new : String) (lines : List String)
    → is_marked new ≡ true
    → filter (λ l. not (is_marked l)) (replace_marked new lines)
      ≡ filter (λ l. not (is_marked l)) lines
unfolding replace_marked
unmarked_lem new [] m = refl
unmarked_lem new (line ∷ rest) m = elim (Bool-cases (is_marked line)) [
  | inl e ↦ rw e (rw m refl)
  | inr e ↦ rw e (rw e (ap (λ xs. line ∷ xs) (unmarked_lem new rest m)))
]

-- The values have one generated line, with the permissions of the contract, and their other lines are
-- as they were; the one digest of the validation is that of the permissions.
pub record IsSynchronized (sha256 : String → String) (contract : Value) (files after : Files)
    : Type 0 where
  pub authorization : Value
  pub lines : List String
  pub authorization_lem : expected_authorization contract ≡ ok authorization
  pub values_lem : after.values_text ≡ join "\n" lines <> "\n"
  pub marked : filter is_marked lines ≡ (marker <> dumps (compact false) authorization) ∷ []
  pub unmarked :
      filter (λ l. not (is_marked l)) lines
      ≡ filter (λ l. not (is_marked l)) (split_lines files.values_text)
  pub validation_lem :
      substitute (sha256 (dumps (compact true) authorization)) 0 files.validation
      ≡ (after.validation, 1)

guard_lem :
    {A B : Type 0} (test : Bool) (refused : A × Result B) (others : A × Result B) (a : A) (b : B)
    (e : Exception)
    → refused.1 ≡ raise e
    → (if not test then refused else others) ≡ (a, ok b)
    → (test ≡ true) × (others ≡ (a, ok b))
guard_lem true refused others a b e r h = (refl, h)
guard_lem false refused others a b e r h = cc (sym r ∙ ap (λ p. p.1) h)

module _ (sha256 : String → String) where
  validation_lem :
      (contract authorization : Value) (files : Files) (lines : List String) (after : Files)
      → write_validation sha256 authorization
          (record { values_text = join "\n" lines <> "\n"; validation = files.validation })
        ≡ (after, ok tt)
      → (after.values_text ≡ join "\n" lines <> "\n")
        × (substitute (sha256 (dumps (compact true) authorization)) 0 files.validation
            ≡ (after.validation, 1))
  unfolding write_validation
  validation_lem contract authorization files lines after h =
      let digest = sha256 (dumps (compact true) authorization) in
      let (counted, e) =
        guard_lem (nat_eq (substitute digest 0 files.validation).1 1) _ _ after tt
          (contract_error "values authorization: expected one validation digest") refl h in
      let same = ap (λ p. p.0) e in
      (
        sym (ap (λ f. f.values_text) same),
        ap (λ text. (text, (substitute digest 0 files.validation).1)) (ap (λ f. f.validation) same)
            ∙ ap (λ n. (after.validation, n))
                (nat_eq-eq (substitute digest 0 files.validation).1 1 counted),
      )

  values_lem :
      (contract : Value) (files after : Files) (authorization : Result Value)
      → expected_authorization contract ≡ authorization
      → length (filter is_marked (split_lines files.values_text)) ≡ 1
      → write_values sha256 authorization files ≡ (after, ok tt)
      → IsSynchronized sha256 contract files after
  unfolding write_values
  values_lem contract files after (raise e) given single h = cc (ap (λ p. p.1) h)
  values_lem contract files after (ok authorization) given single h =
      let new = marker <> dumps (compact false) authorization in
      let old = split_lines files.values_text in
      let is_new = has_prefix-append marker (dumps (compact false) authorization) in
      let (written, substituted) =
        validation_lem contract authorization files (replace_marked new old) after h in
      record {
        authorization = authorization;
        lines = replace_marked new old;
        authorization_lem = given;
        values_lem = written;
        marked = marked_lem new old is_new single;
        unmarked = unmarked_lem new old is_new;
        validation_lem = substituted;
      }

  -- Where the synchronization returns, values.yaml has one generated line, which carries exactly the
  -- permissions that the contract grants, and its other lines as they were; and validate.yaml had one
  -- digest, in place of which it has the digest of those permissions.
  pub sync_values_authorization-IsSynchronized :
      (contract : Value) (files after : Files)
      → sync_values_authorization sha256 contract files ≡ (after, ok tt)
      → IsSynchronized sha256 contract files after
  unfolding sync_values_authorization
  sync_values_authorization-IsSynchronized contract files after h =
      let (single, e) =
        guard_lem (nat_eq (length (filter is_marked (split_lines files.values_text))) 1) _ _ after
          tt (contract_error "values authorization: expected one generated inline value") refl h in
      values_lem contract files after (expected_authorization contract) refl
        (nat_eq-eq (length (filter is_marked (split_lines files.values_text))) 1 single) e
