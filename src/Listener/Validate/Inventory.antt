-- ===== src/Listener/Validate/Inventory.antt =====
-- What it means that the names of rendered documents are exactly the governed names.
use clavenar_charts.Base.{
  String, ◌≡◌, refl, sym, ap, ◌∙◌, Bool, true, false, not, ◌&&◌, List, [], ◌∷◌, ◌==◌, eq_iff,
  eq_refl, Bool-cases, Option-cases, inl, inr, and-eq-true, not-eq-false,
}
use mathlib.Core.Path.{subst}
use clavenar_charts.Base.Lists.{is_empty, filter, contains}
use clavenar_charts.Base.Result.{Result, ok, raise, value_error, gather, >>=-eq-ok, ok-injective}
use clavenar_charts.Base.Lists.{append-eq-nil}
use clavenar_charts.Value.{Value, str, Fields, end, field, texts}
use clavenar_charts.Value.Dict.{has_key, keys}
use clavenar_charts.Value.Equality.{py_eq, member, set_of}
use clavenar_charts.Value.Sort.{sort_by, value_leb, contains-sort_texts}
use clavenar_charts.Value.Table.{Table, at}
use clavenar_charts.Listener.Profile.Production.{py_eq-str}
use clavenar_charts.Listener.Validate.Services.{
  caught, is_at, missing_names, table_keys, extra_names, inventory_errors, shared_names,
}

-- Without an error the guarded computation returned.
pub caught-nil : (r : Result Fields) (fs : Fields) → caught r ≡ ok ([], fs) → r ≡ ok fs
unfolding caught
caught-nil (ok gs) fs h = ap (λ p. ok p.1) (ok-injective h)
caught-nil (raise (value_error text)) fs h = cc (ap (λ p. p.0) (ok-injective h))
caught-nil (raise _) fs h = cc

contains-keys : (name : String) (fs : Fields) → contains (keys fs) name ≡ has_key name fs
contains-keys name end = refl
contains-keys name (field k v fs) = elim (Bool-cases (k == name)) [
  | inl e ↦ rw e refl
  | inr e ↦ rw e (contains-keys name fs)
]

contains-filter :
    (keep : String → Bool) (name : String) (ss : List String)
    → keep name ≡ true
    → contains ss name ≡ true
    → contains (filter keep ss) name ≡ true
contains-filter keep name [] k h = cc
contains-filter keep name (s ∷ ss) k h = elim (Bool-cases (s == name)) [
  | inl e ↦ let same = (eq_iff s name).0 e in rw (ap keep same ∙ k) (rw e refl)
  | inr e ↦
      let later = contains-filter keep name ss k (rw e at h) in
      elim (Bool-cases (keep s)) [ inl b ↦ rw b (rw e later) | inr b ↦ rw b later ]
]

-- The names that are both rendered and governed are all checked.
pub shared_names-checked :
    (check : String → Result (List String)) (table : Table Value) (expected : Fields)
    → gather check (shared_names table expected) ≡ ok []
    → (name : String) → has_key name expected ≡ true
    → is_at (str name) table ≡ true
    → check name ≡ ok []
unfolding shared_names
shared_names-checked check table expected h name governed rendered = every _ h (
    contains-sort_texts name _
    ∙ contains-filter (λ n. is_at (str n) table) name (keys expected) rendered
        (contains-keys name expected ∙ governed))
  where
    every :
        (ss : List String) → gather check ss ≡ ok [] → contains ss name ≡ true → check name ≡ ok []
    every [] e c = cc
    every (s ∷ ss) e c =
        let (xs, e1', e1) = >>=-eq-ok (check s) _ e in
        let (ys, e2', e2) = >>=-eq-ok (gather check ss) _ e1 in
        let (ex, ey) = append-eq-nil xs ys (ok-injective e2) in
        elim (Bool-cases (s == name)) [
          | inl b ↦ ap check (sym ((eq_iff s name).0 b)) ∙ e1' ∙ ap ok ex
          | inr b ↦ every ss (e2' ∙ ap ok ey) (rw b at c)
        ]

-- Every governed name is rendered, and every rendered text is a governed name.
pub record IsExact (table : Table Value) (expected : Fields) : Type 0 where
  pub rendered : (name : String) → has_key name expected ≡ true → is_at (str name) table ≡ true
  pub governed : (name : String) → is_at (str name) table ≡ true → has_key name expected ≡ true

filter-nil :
    {A : Type 0} (keep : A → Bool) (x : A) (xs : List A)
    → filter keep (x ∷ xs) ≡ []
    → (keep x ≡ false) × (filter keep xs ≡ [])
filter-nil keep x xs h = elim (Bool-cases (keep x)) [
  | inl e ↦ cc (rw e at h)
  | inr e ↦ (e, rw e at h)
]

missing_lem :
    (table : Table Value) (names : List String) (name : String)
    → filter (λ n. not (is_at (str n) table)) names ≡ []
    → contains names name ≡ true
    → is_at (str name) table ≡ true
missing_lem table [] name h c = cc
missing_lem table (s ∷ ss) name h c =
    let (here, later) = filter-nil (λ n. not (is_at (str n) table)) s ss h in
    elim (Bool-cases (s == name)) [
      | inl e ↦ subst (λ n. is_at (str n) table ≡ true) ((eq_iff s name).0 e) (not-eq-false here)
      | inr e ↦ missing_lem table ss name later (rw e at c)
    ]

member-set_of :
    (name : String) (xs : List Value)
    → member xs (str name) ≡ true
    → member (set_of xs) (str name) ≡ true
unfolding set_of py_eq
member-set_of name [] h = cc
member-set_of name (x ∷ xs) h = elim (Bool-cases (py_eq x (str name))) [
  | inl e ↦ head_lem x (py_eq-str x name e)
  | inr e ↦ later_lem x (member-set_of name xs (rw (e, member) at h))
]
  where
    later_lem :
        (x : Value)
        → member (set_of xs) (str name) ≡ true
        → member (set_of (x ∷ xs)) (str name) ≡ true
    later_lem x m = elim (Bool-cases (member (set_of xs) x)) [
      | inl b ↦ rw b m
      | inr b ↦ rw b (elim (Bool-cases (py_eq x (str name))) [
        | inl c ↦ rw (c, member) refl
        | inr c ↦ rw (c, member) m
      ])
    ]

    head_lem : (x : Value) → x ≡ str name → member (set_of (x ∷ xs)) (str name) ≡ true
    head_lem x same = elim (Bool-cases (member (set_of xs) x)) [
      | inl b ↦ rw b (ap (member (set_of xs)) (sym same) ∙ b)
      | inr b ↦ rw b (rw same (rw (eq_refl name, member) refl))
    ]

extra_lem :
    (wanted xs : List Value) (name : Value)
    → filter (λ n. not (member wanted n)) xs ≡ []
    → member xs name ≡ true
    → (x : Value) × (py_eq x name ≡ true) × (member wanted x ≡ true)
extra_lem wanted [] name h m = cc
extra_lem wanted (x ∷ xs) name h m =
    let (here, later) = filter-nil (λ n. not (member wanted n)) x xs h in
    elim (Bool-cases (py_eq x name)) [
      | inl e ↦ (x, e, not-eq-false here)
      | inr e ↦ extra_lem wanted xs name later (rw (e, member) at m)
    ]

member-table_keys :
    (name : Value) (table : Table Value)
    → is_at name table ≡ true
    → member (table_keys table) name ≡ true
unfolding at
member-table_keys name [] h = cc
member-table_keys name ((k, v) ∷ rest) h = elim (Bool-cases (py_eq k name)) [
  | inl e ↦ rw (e, member) refl
  | inr e ↦ rw (e, member) (member-table_keys name rest (older e))
]
  where
    older : py_eq k name ≡ false → is_at name rest ≡ true
    older e = elim (Option-cases (at name rest)) [
      | inl o ↦ cc (rw (o, e, is_at) at h)
      | inr (w, o) ↦ rw (o, is_at) refl
    ]

member-texts : (name : String) (ss : List String) → member (texts ss) (str name) ≡ contains ss name
unfolding py_eq
member-texts name [] = refl
member-texts name (s ∷ ss) = elim (Bool-cases (s == name)) [
  | inl e ↦ rw (e, member) refl
  | inr e ↦ rw (e, member) (member-texts name ss)
]

is_empty-true : {A : Type 0} (xs : List A) → is_empty xs ≡ true → xs ≡ []
is_empty-true [] h = refl
is_empty-true (x ∷ xs) h = cc

exact_lem :
    (table : Table Value) (expected : Fields)
    → missing_names table expected ≡ []
    → extra_names table expected ≡ []
    → IsExact table expected
unfolding missing_names extra_names
exact_lem table expected missing extra = record {
  rendered =
      λ name g. missing_lem table (keys expected) name missing (contains-keys name expected ∙ g);
  governed = λ name r.
      let (x, same, wanted) =
        extra_lem (texts (keys expected)) (set_of (table_keys table)) (str name) extra
          (member-set_of name (table_keys table) (member-table_keys (str name) table r)) in
      sym (contains-keys name expected)
      ∙ sym (member-texts name (keys expected))
      ∙ ap (member (texts (keys expected))) (sym (py_eq-str x name same))
      ∙ wanted;
}

-- Where the inventory has no error, the names are exactly the governed ones.
pub inventory_errors-IsExact :
    (kind : String) (table : Table Value) (expected : Fields)
    → inventory_errors kind table expected ≡ ok []
    → IsExact table expected
unfolding inventory_errors
inventory_errors-IsExact kind table expected h =
    elim (Bool-cases
      (is_empty (missing_names table expected) && is_empty (extra_names table expected))) [
        | inl e ↦
            let (m, x) = and-eq-true _ _ e in
            exact_lem table expected (is_empty-true _ m) (is_empty-true _ x)
        | inr e ↦
            let (extra, _, h1) =
              >>=-eq-ok (sort_by value_leb (extra_names table expected)) _ (rw e at h) in
            cc (ok-injective h1)
      ]
