-- ===== src/Listener/Validate/Contracts/Report.antt =====
-- Loops that append errors and collect entries, where there is no error.
use clavenar_charts.Base.{String, ◌≡◌, ap, ◌∙◌, List, [], ◌∷◌}
use mathlib.Core.Path.{subst}
use clavenar_charts.Base.Lists.{append-eq-nil}
use clavenar_charts.Base.Result.{Result, ok, >>=-eq-ok, ok-injective}
use clavenar_charts.Listener.Errors.{All, All-append}
use clavenar_charts.Listener.Validate.Contracts.{report}

-- What every round collects has a property: so has what the loop collects.
pub report-All :
    {A B : Type 0} (f : A → Result (List String × List B)) (P : B → Type 0) (xs : List A)
    (ys : List B)
    → ((x : A) (zs : List B) → f x ≡ ok ([], zs) → All P zs)
    → report f xs ≡ ok ([], ys)
    → All P ys
report-All f P [] ys lem h = subst (All P) (ap (λ p. p.1) (ok-injective h)) tt
report-All f P (x ∷ xs) ys lem h =
    let (here, e1, h1) = >>=-eq-ok (f x) _ h in
    let (later, e2, h2) = >>=-eq-ok (report f xs) _ h1 in
    let (n1, n2) = append-eq-nil here.0 later.0 (ap (λ p. p.0) (ok-injective h2)) in
    subst (All P) (ap (λ p. p.1) (ok-injective h2)) (
      All-append P here.1 later.1 (lem x here.1 (e1 ∙ ap (λ errors. ok (errors, here.1)) n1))
        (report-All f P xs later.1 lem (e2 ∙ ap (λ errors. ok (errors, later.1)) n2)))
