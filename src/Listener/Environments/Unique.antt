-- ===== src/Listener/Environments/Unique.antt =====
-- Accepted service containers set no environment variable twice.
use clavenar_charts.Base.{
  ℕ, suc, ◌≤◌, ◌<>◌, String, ◌≡◌, refl, sym, ap, ◌∙◌, true, false, not, List, [], ◌∷◌, arith,
  eq_refl, ltb, Bool-cases, inl, inr,
}
use mathlib.Core.Path.{subst}
use clavenar_charts.Base.Lists.{filter, is_empty, append-eq-nil}
use clavenar_charts.Base.Text.{has_prefix}
use clavenar_charts.Base.Result.{Result, ok, traverse, gather, >>=-eq-ok, ok-injective}
use clavenar_charts.Value.{Value, str, dict, end, list}
use clavenar_charts.Value.Equality.{py_eq, member, set_of}
use clavenar_charts.Value.Access.{get, get_or, each, or_else, hashed, as_text}
use clavenar_charts.Value.Sort.{value_leb, sort_by-nil}
use clavenar_charts.Listener.Policies.Ingress.{hashed-eq-ok}
use clavenar_charts.Listener.Profile.Production.{complain-nil}
use clavenar_charts.Listener.Environments.{
  service_containers, entry_names, occurrences, duplicates_of, container_errors, containers_of,
  deployment_errors, validate_service_env_uniqueness,
}

-- No text stands twice in the list.
abbrev pub HasUniqueTexts : List Value → Type 0
HasUniqueTexts [] = Unit
HasUniqueTexts (str s ∷ names) = (member names (str s) ≡ false) × HasUniqueTexts names
HasUniqueTexts (_ ∷ names) = HasUniqueTexts names

-- Every element of a list has a property.
abbrev pub Every : (Value → Type 0) → List Value → Type 0
Every P [] = Unit
Every P (x ∷ xs) = P x × Every P xs

set_of-nil : (xs : List Value) → set_of xs ≡ [] → xs ≡ []
unfolding set_of
set_of-nil [] h = refl
set_of-nil (x ∷ xs) h = elim (Bool-cases (member (set_of xs) x)) [
  | inl e ↦ cc (rw (rw e at h) at e)
  | inr e ↦ cc (rw e at h)
]

traverse-nil : (f : Value → Result Value) (xs : List Value) → traverse f xs ≡ ok [] → xs ≡ []
traverse-nil f [] h = refl
traverse-nil f (x ∷ xs) h =
    let (y, _, h1) = >>=-eq-ok (f x) _ h in
    let (ys, _, h2) = >>=-eq-ok (traverse f xs) _ h1 in cc (ok-injective h2)

duplicates_of-nil :
    (names : List Value)
    → duplicates_of names ≡ ok []
    → filter (λ name. ltb 1 (occurrences names name)) names ≡ []
unfolding duplicates_of
duplicates_of-nil names h =
    let (repeated, hr, h1) =
      >>=-eq-ok (traverse hashed (filter (λ name. ltb 1 (occurrences names name)) names)) _ h in
    let none_left = set_of-nil repeated (sort_by-nil value_leb (set_of repeated) h1) in
    traverse-nil hashed (filter (λ name. ltb 1 (occurrences names name)) names)
      (hr ∙ ap ok none_left)

-- An element occurs.
occurrences-member : (xs : List Value) (v : Value) → member xs v ≡ true → 1 ≤ occurrences xs v
unfolding occurrences
occurrences-member [] v h = cc
occurrences-member (x ∷ xs) v h = elim (Bool-cases (py_eq x v)) [
  | inl e ↦ rw e (omega arith)
  | inr e ↦ rw e (occurrences-member xs v (rw (e, member) at h))
]

-- Where no text of `rest` occurs more often than once in a list with the end `rest`, they are unique.
unique_lem :
    (count : Value → ℕ) (rest : List Value)
    → ((v : Value) → occurrences rest v ≤ count v)
    → filter (λ name. ltb 1 (count name)) rest ≡ []
    → HasUniqueTexts rest
unfolding occurrences py_eq
unique_lem count [] below h = tt
unique_lem count (x ∷ xs) below h = elim (Bool-cases (ltb 1 (count x))) [
  | inl e ↦ cc (rw e at h)
  | inr e ↦
      let later = unique_lem count xs (λ v. smaller x xs v (below v)) (rw e at h) in
      first x xs (below x) e later
]
  where
    smaller :
        (x : Value) (xs : List Value) (v : Value) {n : ℕ}
        → occurrences (x ∷ xs) v ≤ n
        → occurrences xs v ≤ n
    smaller x xs v l = ground arith

    too_many : {n k : ℕ} → suc k ≤ n → 1 ≤ k → ltb 1 n ≡ false → ⊥
    too_many l o e = ground arith

    first :
        (x : Value) (xs : List Value) {n : ℕ}
        → occurrences (x ∷ xs) x ≤ n
        → ltb 1 n ≡ false
        → HasUniqueTexts xs
        → HasUniqueTexts (x ∷ xs)
    first (str s) xs l e later = elim (Bool-cases (member xs (str s))) [
      | inl m ↦
          let once = occurrences-member xs (str s) m in
          absurd (too_many (rw (eq_refl s) at l) once e)
      | inr m ↦ (m, later)
    ]
    first _ xs l e later = later

-- What a container of an accepted render satisfies: one that is a service's has unique variables.
abbrev pub IsUnique : Value → Type 0
IsUnique container =
    (name raw : Value) (entries : List Value)
    → get container "name" ≡ ok name
    → member service_containers name ≡ true
    → get_or container "env" (list []) ≡ ok raw
    → each (or_else raw (list [])) ≡ ok entries
    → HasUniqueTexts (entry_names entries)

is_empty-nil : (xs : List Value) → not (is_empty xs) ≡ false → xs ≡ []
is_empty-nil [] h = refl
is_empty-nil (x ∷ xs) h = cc

container_errors_lem :
    (deployment_name : String) (container : Value)
    → container_errors deployment_name container ≡ ok []
    → IsUnique container
unfolding container_errors
container_errors_lem deployment_name container h name raw' entries' hname known hraw hentries =
    let (raw_name, hn, h1) = >>=-eq-ok (get container "name") _ h in
    let (key, hk, h2) = >>=-eq-ok (hashed raw_name) _ h1 in
    let same = hashed-eq-ok raw_name hk ∙ ok-injective (sym hn ∙ hname) in
    let service = ap (member service_containers) same ∙ known in
    let (raw, hr, h3) = >>=-eq-ok (get_or container "env" (list [])) _ (rw service at h2) in
    let (entries, he, h4) = >>=-eq-ok (each (or_else raw (list []))) _ h3 in
    let (duplicates, hd, h5) = >>=-eq-ok (duplicates_of (entry_names entries)) _ h4 in
    let nothing = is_empty-nil duplicates (complain-nil _ _ (ok-injective h5)) in
    let same_raw = ok-injective (sym hr ∙ hraw) in
    let same_entries =
      ok-injective (sym he ∙ ap (λ v. each (or_else v (list []))) same_raw ∙ hentries) in
    subst (λ xs. HasUniqueTexts (entry_names xs)) same_entries
      (unique_lem (occurrences (entry_names entries)) (entry_names entries) (λ v. omega arith)
        (duplicates_of-nil (entry_names entries) (hd ∙ ap ok nothing)))

-- A loop without an error had none in any round.
pub gather-nil :
    (f : Value → Result (List String)) (P : Value → Type 0) (xs : List Value)
    → ((x : Value) → f x ≡ ok [] → P x)
    → gather f xs ≡ ok []
    → Every P xs
gather-nil f P [] lem h = tt
gather-nil f P (x ∷ xs) lem h =
    let (here, hx, h1) = >>=-eq-ok (f x) _ h in
    let (later, hl, h2) = >>=-eq-ok (gather f xs) _ h1 in
    let (first, rest) = append-eq-nil here later (ok-injective h2) in
    (lem x (hx ∙ ap ok first), gather-nil f P xs lem (hl ∙ ap ok rest))

-- A document that is a Deployment of the release has only containers with unique variables.
abbrev pub IsClean : String → Value → Type 0
IsClean release deployment =
    (kind metadata raw_name : Value) (name : String) (containers : List Value)
    → get deployment "kind" ≡ ok kind
    → py_eq kind (str "Deployment") ≡ true
    → get_or deployment "metadata" (dict end) ≡ ok metadata
    → get_or metadata "name" (str "") ≡ ok raw_name
    → as_text raw_name ≡ ok name
    → has_prefix name (release <> "-") ≡ true
    → containers_of deployment ≡ ok containers
    → Every IsUnique containers

deployment_errors_lem :
    (release : String) (deployment : Value)
    → deployment_errors release deployment ≡ ok []
    → IsClean release deployment
unfolding deployment_errors
deployment_errors_lem release deployment h kind metadata raw_name name containers hkind chosen hmeta
      hraw hname ours hcont =
    let h1 =
      rw (ours, hcont) at (rw hname at (rw hraw at (rw hmeta at (rw chosen at (rw hkind at h))))) in
    gather-nil (container_errors name) IsUnique containers (container_errors_lem name) h1

-- If `validate_service_env_uniqueness` reports nothing, then in every Deployment whose name
-- starts with the release's prefix, no container of a service has two environment entries with
-- the same text as their name.
pub validate_service_env_uniqueness_sound :
    (docs : List Value) (release : String)
    → validate_service_env_uniqueness docs release ≡ ok []
    → Every (IsClean release) docs
unfolding validate_service_env_uniqueness
validate_service_env_uniqueness_sound docs release h =
    gather-nil (deployment_errors release) (IsClean release) docs (deployment_errors_lem release) h
