-- ===== src/Value/Sort.antt =====
-- `sorted` with a comparison that may raise, as a stable insertion sort.
use Prim.Native.Nat.{Ordering}
use Prim.Native.String.{compare}
use clavenar_charts.Base.{
  String, ◌≡◌, refl, ap, ◌∙◌, inl, inr, Bool-cases, Bool, true, false, ◌||◌, List, [], ◌∷◌, arith,
  ◌==◌, if◌then◌else◌,
}
use clavenar_charts.Base.Lists.{contains}
use clavenar_charts.Base.Result.{Result, ok, raise, ◌>>=◌, type_error, >>=-eq-ok, ok-injective}
use clavenar_charts.Value.{Value, bool, int, str, ℤ}
use clavenar_charts.Value.Equality.{py_eq, int_eq, as_int}
use clavenar_charts.Value.Number.{int_leb}

-- The order of texts by code points.
abbrev pub text_leb : String → String → Bool
text_leb s t = elim (compare s t) [ Ordering.gt ↦ false | _ ↦ true ]

module _ {ℓ} {A : Type ℓ} (le : A → A → Result Bool) where
  insert_sorted : A → List A → Result (List A)
  insert_sorted x [] = ok (x ∷ [])
  insert_sorted x (y ∷ ys) =
      let later = insert_sorted x ys in
      le x y >>= λ b. elim b [ true ↦ ok (x ∷ y ∷ ys) | false ↦ later >>= λ zs. ok (y ∷ zs) ]

  unfoldable pub sort_by : List A → Result (List A)
  unfolding insert_sorted
  sort_by [] = ok []
  sort_by (x ∷ xs) = sort_by xs >>= λ ys. insert_sorted x ys

-- `v <= w` for values that Python can compare.
abbrev pub value_leb : Value → Value → Result Bool
value_leb (str s) (str t) = ok (text_leb s t)
value_leb (int m) (int n) = ok (int_leb m n)
value_leb (bool b) (int n) = ok (int_leb (as_int b) n)
value_leb (int m) (bool c) = ok (int_leb m (as_int c))
value_leb (bool b) (bool c) = ok (int_leb (as_int b) (as_int c))
value_leb _ _ = raise type_error

-- The order of the key `(int(port["port"]), port["name"])`: the names are compared on a tie.
abbrev pub port_key_leb : ℤ × Value → ℤ × Value → Result Bool
port_key_leb (m, v) (n, w) =
    if int_eq m n then (if py_eq v w then ok true else value_leb v w) else ok (int_leb m n)

insert_text : String → List String → List String
insert_text s [] = s ∷ []
insert_text s (t ∷ ts) =
    let later = insert_text s ts in if text_leb s t then s ∷ t ∷ ts else t ∷ later

-- `sorted` of texts.
unfoldable pub sort_texts : List String → List String
unfolding insert_text
sort_texts [] = []
sort_texts (s ∷ ss) = insert_text s (sort_texts ss)

-- Only the empty list is sorted into the empty list.
pub sort_by-nil {ℓ} :
    {A : Type ℓ} (le : A → A → Result Bool) (xs : List A) → sort_by le xs ≡ ok [] → xs ≡ []
unfolding sort_by insert_sorted
sort_by-nil le [] h = refl
sort_by-nil {A = A} le (x ∷ xs) h =
    let (ys, _, h1) = >>=-eq-ok (sort_by le xs) _ h in absurd (inserted ys h1)
  where
    inserted : (ys : List A) → insert_sorted le x ys ≡ ok [] → ⊥
    inserted [] e = cc (ok-injective e)
    inserted (y ∷ ys) e =
        let (b, _, e1) = >>=-eq-ok (le x y) _ e in
        elim (Bool-cases b) [
          | inl t ↦ cc (ok-injective (rw t at e1))
          | inr f ↦
              let (zs, _, e2) = >>=-eq-ok (insert_sorted le x ys) _ (rw f at e1) in
              cc (ok-injective e2)
        ]

pub sort_texts-nil : (ss : List String) → sort_texts ss ≡ [] → ss ≡ []
unfolding sort_texts insert_text
sort_texts-nil [] h = refl
sort_texts-nil (s ∷ ss) h = absurd (inserted (sort_texts ss) h)
  where
    inserted : (ts : List String) → insert_text s ts ≡ [] → ⊥
    inserted [] e = cc
    inserted (t ∷ ts) e = elim (Bool-cases (text_leb s t)) [
      | inl b ↦ cc (rw b at e)
      | inr b ↦ cc (rw b at e)
    ]

contains-insert_text :
    (s a : String) (ts : List String) → contains (insert_text s ts) a ≡ (s == a || contains ts a)
unfolding insert_text
contains-insert_text s a [] = refl
contains-insert_text s a (t ∷ ts) = elim (Bool-cases (text_leb s t)) [
  | inl e ↦ rw e refl
  | inr e ↦ rw e (rw (contains-insert_text s a ts) (swap_lem (s == a) (t == a) (contains ts a)))
]
  where
    swap_lem : (x y z : Bool) → (y || (x || z)) ≡ (x || (y || z))
    swap_lem x y z = ground arith

-- Sorting keeps what a list contains.
pub contains-sort_texts :
    (a : String) (ss : List String) → contains (sort_texts ss) a ≡ contains ss a
unfolding sort_texts
contains-sort_texts a [] = refl
contains-sort_texts a (s ∷ ss) =
    contains-insert_text s a (sort_texts ss) ∙ ap (λ b. s == a || b) (contains-sort_texts a ss)
