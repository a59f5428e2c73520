-- ===== src/Value/Dict.antt =====
-- The operations of a `dict`.
use clavenar_charts.Base.{
  ℕ, suc, String, ◌≡◌, refl, ap, eq_refl, Bool-cases, inl, inr, Bool, true, false, Option, none,
  some,
}
use clavenar_charts.Base.{List, [], ◌∷◌, arith, eq_iff, ◌==◌, if◌then◌else◌}
use clavenar_charts.Value.{Value, null, Fields, end, field}

-- `d.get(k)`, where `none` is a missing key.
abbrev pub lookup : String → Fields → Option Value
lookup k end = none
lookup k (field j v fs) = if j == k then some v else lookup k fs

-- `d.get(k)` with `None` for a missing key.
abbrev pub or_null : Option Value → Value
or_null none = null
or_null (some v) = v

-- `k in d`
abbrev pub has_key : String → Fields → Bool
has_key k end = false
has_key k (field j v fs) = if j == k then true else has_key k fs

-- `d[k] = v`: an old key keeps its place.
unfoldable pub insert : String → Value → Fields → Fields
insert k v end = field k v end
insert k v (field j w fs) = if j == k then field j v fs else field j w (insert k v fs)

-- `d.pop(k, None)`. Every entry of the key goes; a real dict has at most one.
unfoldable pub erase : String → Fields → Fields
erase k end = end
erase k (field j w fs) = let rest = erase k fs in if j == k then rest else field j w rest

abbrev pub keys : Fields → List String
keys end = []
keys (field k v fs) = k ∷ keys fs

abbrev pub count : Fields → ℕ
count end = 0
count (field k v fs) = suc (count fs)

-- No key twice, as in every dict.
abbrev pub NodupKeys : Fields → Type 0
NodupKeys end = Unit
NodupKeys (field k v fs) = (has_key k fs ≡ false) × NodupKeys fs

-- A dict built entry by entry, as a comprehension does: a later entry of a key wins.
abbrev pub dict_of : List (String × Value) → Fields → Fields
dict_of [] acc = acc
dict_of ((k, v) ∷ rest) acc = dict_of rest (insert k v acc)

pub lookup-insert :
    (k j : String) (v : Value) (fs : Fields)
    → lookup j (insert k v fs) ≡ (if k == j then some v else lookup j fs)
unfolding insert
lookup-insert k j v end = refl
lookup-insert k j v (field i w fs) =
    ground (arith, eq_iff k j, eq_iff i k, eq_iff i j, lookup-insert k j v fs)

pub lookup-erase :
    (k j : String) (fs : Fields) → lookup j (erase k fs) ≡ (if k == j then none else lookup j fs)
unfolding erase
lookup-erase k j end = ground arith
lookup-erase k j (field i w fs) =
    ground (arith, eq_iff k j, eq_iff i k, eq_iff i j, lookup-erase k j fs)

pub has_key-insert :
    (k j : String) (v : Value) (fs : Fields)
    → has_key j (insert k v fs) ≡ (if k == j then true else has_key j fs)
unfolding insert
has_key-insert k j v end = refl
has_key-insert k j v (field i w fs) =
    ground (arith, eq_iff k j, eq_iff i k, eq_iff i j, has_key-insert k j v fs)

pub insert-NodupKeys :
    (k : String) (v : Value) (fs : Fields) → NodupKeys fs → NodupKeys (insert k v fs)
unfolding insert
insert-NodupKeys k v end h = (refl, tt)
insert-NodupKeys k v (field i w fs) (fresh, u) =
    ground (arith, eq_iff i k, eq_iff k i, insert-NodupKeys k v fs u, has_key-insert k i v fs)

pub erase-insert : (k : String) (v : Value) (fs : Fields) → erase k (insert k v fs) ≡ erase k fs
unfolding insert erase
erase-insert k v end = rw (eq_refl k) refl
erase-insert k v (field j w fs) = elim (Bool-cases (j == k)) [
  | inl e ↦ rw e (rw e refl)
  | inr e ↦ rw e (rw e (ap (field j w) (erase-insert k v fs)))
]
