-- ===== src/Listener/Errors.antt =====
-- Validators in sequence: each returns the errors that it appends to the caller's list.
use clavenar_charts.Base.{
  String, ◌≡◌, refl, ap, ◌∙◌, Bool, true, false, List, [], ◌∷◌, ◌++◌, if◌then◌else◌,
}
use clavenar_charts.Base.Lists.{append-eq-nil}
use clavenar_charts.Base.Result.{Result, ok, ◌>>=◌, gather, >>=-eq-ok, ok-injective}

infixr 6 ◌<+>◌
-- The errors of the first, then those of the second.
abbrev pub ◌<+>◌ : Result (List String) → Result (List String) → Result (List String)
first <+> second = first >>= λ xs. (second >>= λ ys. ok (xs ++ ys))

-- `if bad: errors.append(message)`
abbrev pub refuse : Bool → String → Result (List String)
refuse bad message = ok (if bad then message ∷ [] else [])

-- The same, where the test may raise.
abbrev pub refuse_if : Result Bool → String → Result (List String)
refuse_if test message = test >>= λ bad. refuse bad message

-- Two validators have no error exactly when neither has one.
pub <+>-nil : (m n : Result (List String)) → (m <+> n) ≡ ok [] → (m ≡ ok []) × (n ≡ ok [])
<+>-nil m n h =
    let (xs, hm, h1) = >>=-eq-ok m _ h in
    let (ys, hn, h2) = >>=-eq-ok n _ h1 in
    let (ex, ey) = append-eq-nil xs ys (ok-injective h2) in (hm ∙ ap ok ex, hn ∙ ap ok ey)

pub refuse-nil : (bad : Bool) (message : String) → refuse bad message ≡ ok [] → bad ≡ false
refuse-nil true message h = cc (ok-injective h)
refuse-nil false message h = refl

pub refuse_if-nil :
    (test : Result Bool) (message : String) → refuse_if test message ≡ ok [] → test ≡ ok false
refuse_if-nil test message h =
    let (bad, ht, h1) = >>=-eq-ok test _ h in ht ∙ ap ok (refuse-nil bad message h1)

-- Every element of a list has a property.
abbrev pub All : {A : Type 0} → (A → Type 0) → List A → Type 0
All P [] = Unit
All P (x ∷ xs) = P x × All P xs

pub All-append :
    {A : Type 0} (P : A → Type 0) (xs ys : List A) → All P xs → All P ys → All P (xs ++ ys)
All-append P [] ys h k = k
All-append P (x ∷ xs) ys (here, h) k = (here, All-append P xs ys h k)

-- A loop of validators has no error only if none of them has one.
pub gather-All :
    {A : Type 0} (f : A → Result (List String)) (P : A → Type 0) (xs : List A)
    → ((x : A) → f x ≡ ok [] → P x)
    → gather f xs ≡ ok []
    → All P xs
gather-All f P [] lem h = tt
gather-All f P (x ∷ xs) lem h =
    let (ys, e1, h1) = >>=-eq-ok (f x) _ h in
    let (zs, e2, h2) = >>=-eq-ok (gather f xs) _ h1 in
    let (ey, ez) = append-eq-nil ys zs (ok-injective h2) in
    (lem x (e1 ∙ ap ok ey), gather-All f P xs lem (e2 ∙ ap ok ez))
