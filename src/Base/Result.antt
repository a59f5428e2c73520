-- ===== src/Base/Result.antt =====
-- A computation of the scripts returns or raises. An error text is the f-string's template with
-- the values that it interpolates.
use Prim.Native.String.{String}
use mathlib.Core.Path.{◌≡◌, refl}
use mathlib.Core.Bool.{Bool, true, false}
use mathlib.Core.Option.{Option, none, some}
use mathlib.Core.List.{List, [], ◌∷◌, ◌++◌}

-- The exceptions of Python that the modelled code raises or meets.
pub data Exception : Type 0 where
  key_error : String → Exception
  attribute_error type_error index_error stop_iteration : Exception
  value_error contract_error readiness_error : String → Exception

pub data Result {ℓ} (A : Type ℓ) : Type ℓ where
  raise : Exception → Result A
  ok : A → Result A

infixl 5 ◌>>=◌ ◌>>◌
-- A statement whose exception ends the block, and otherwise the rest of the block on its value.
abbrev pub ◌>>=◌ {ℓ κ} : {X : Type ℓ} {Y : Type κ} → Result X → (X → Result Y) → Result Y
raise e >>= rest = raise e
ok x >>= rest = rest x

-- A statement without a value.
abbrev pub ◌>>◌ {ℓ} : {Y : Type ℓ} → Result (Unit {0}) → Result Y → Result Y
statement >> rest = statement >>= λ _. rest

-- A loop that may raise, over the elements in order.
abbrev pub traverse {ℓ κ} : {A : Type ℓ} {B : Type κ} → (A → Result B) → List A → Result (List B)
traverse f [] = ok []
traverse f (x ∷ xs) = let rest = traverse f xs in f x >>= λ y. (rest >>= λ ys. ok (y ∷ ys))

-- The same, where the body appends to one list.
abbrev pub gather {ℓ κ} :
    {A : Type ℓ} {B : Type κ} → (A → Result (List B)) → List A → Result (List B)
gather f [] = ok []
gather f (x ∷ xs) = let rest = gather f xs in f x >>= λ y. (rest >>= λ ys. ok (y ++ ys))

-- `[x for x in xs if test(x)]`
abbrev pub keep_if {ℓ} : {A : Type ℓ} → (A → Result Bool) → List A → Result (List A)
keep_if test [] = ok []
keep_if test (x ∷ xs) =
    let rest = keep_if test xs in
    test x >>= λ b. (rest >>= λ ys. ok (elim b [ true ↦ x ∷ ys | false ↦ ys ]))

-- `any(test(x) for x in xs)`, which stops at the first hit.
abbrev pub any_of {ℓ} : {A : Type ℓ} → (A → Result Bool) → List A → Result Bool
any_of test [] = ok false
any_of test (x ∷ xs) =
    let rest = any_of test xs in test x >>= λ b. elim b [ true ↦ ok true | false ↦ rest ]

-- `all(test(x) for x in xs)`, which stops at the first miss.
abbrev pub all_of {ℓ} : {A : Type ℓ} → (A → Result Bool) → List A → Result Bool
all_of test [] = ok true
all_of test (x ∷ xs) =
    let rest = all_of test xs in test x >>= λ b. elim b [ true ↦ rest | false ↦ ok false ]

-- `next((x for x in xs if test(x)), None)`, which stops at the first hit.
abbrev pub find_of {ℓ} : {A : Type ℓ} → (A → Result Bool) → List A → Result (Option A)
find_of test [] = ok none
find_of test (x ∷ xs) =
    let rest = find_of test xs in test x >>= λ b. elim b [ true ↦ ok (some x) | false ↦ rest ]

-- Inversion of a bind that returned.
pub >>=-eq-ok {ℓ κ} :
    {X : Type ℓ} {Y : Type κ} (statement : Result X) (rest : X → Result Y) {y : Y}
    → (statement >>= rest) ≡ ok y
    → (x : X) × (statement ≡ ok x) × (rest x ≡ ok y)
>>=-eq-ok (raise e) rest h = cc
>>=-eq-ok (ok x) rest h = (x, refl, h)

pub ok-injective {ℓ} : {A : Type ℓ} {a b : A} → ok a ≡ ok b → a ≡ b
ok-injective e = cc
