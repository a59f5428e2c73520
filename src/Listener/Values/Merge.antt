-- ===== src/Listener/Values/Merge.antt =====
-- Laws of `merge`: what a read by path sees of the base and of the override.
use mathlib.Core.Path.{subst}
use mathlib.Core.Option.{some-injective}
use clavenar_charts.Base.{Bool-cases, Option-cases, inl, inr, sym, ◌∙◌}
use clavenar_charts.Base.{
  String, ◌≡◌, refl, ◌≢◌, Bool, true, false, Option, none, some, List, [], ◌∷◌, arith, eq_iff, ◌==◌,
}
use clavenar_charts.Value.{Value, null, array, dict, Fields, end, field}
use clavenar_charts.Value.Dict.{lookup, or_null, has_key, insert, lookup-insert}
use clavenar_charts.Value.Access.{is_dict}
use clavenar_charts.Base.Text.{split}
use clavenar_charts.Listener.Values.{merge, merge_fields, walk, value_at}

-- Every dict of a document has each key once.
unfoldable mutual
  pub IsWellFormed : Value → Type 0
  IsWellFormed (dict fs) = FieldsWellFormed fs
  IsWellFormed (array xs) = Unit
  IsWellFormed _ = Unit

  pub FieldsWellFormed : Fields → Type 0
  FieldsWellFormed end = Unit
  FieldsWellFormed (field k v fs) = IsWellFormed v × (has_key k fs ≡ false) × FieldsWellFormed fs

pub lookup_of_fresh : (k : String) (fs : Fields) → has_key k fs ≡ false → lookup k fs ≡ none
lookup_of_fresh k end h = refl
lookup_of_fresh k (field j v fs) h = ground (arith, lookup_of_fresh k fs)

-- What `merge_fields` leaves under one key.
abbrev merged : Option Value → Option Value → Option Value
merged old none = old
merged old (some v) = some (merge (or_null old) v)

pub lookup-merge_fields :
    (k : String) (bs os : Fields)
    → FieldsWellFormed os
    → lookup k (merge_fields bs os) ≡ merged (lookup k bs) (lookup k os)
unfolding merge IsWellFormed
lookup-merge_fields k bs end w = refl
lookup-merge_fields k bs (field j v os) (wv, fresh, w) =
    rw
      (
        lookup-merge_fields k (insert j (merge (or_null (lookup j bs)) v) bs) os w,
        lookup-insert j k,
      )
      (ground (arith, eq_iff j k, lookup_of_fresh j os fresh))

lookup-IsWellFormed :
    (k : String) (fs : Fields) (v : Value)
    → FieldsWellFormed fs
    → lookup k fs ≡ some v
    → IsWellFormed v
unfolding IsWellFormed
lookup-IsWellFormed k end v w e = cc
lookup-IsWellFormed k (field j u fs) v (wu, fresh, w) e = elim (Bool-cases (j == k)) [
  | inl same ↦ subst IsWellFormed (some-injective u v (rw same at e)) wu
  | inr other ↦ lookup-IsWellFormed k fs v w (rw other at e)
]

-- A value that is set and is not a dict replaces what the base has.
walk-merge_set :
    (parts : List String) (base over v : Value)
    → IsWellFormed over
    → walk over parts ≡ v
    → v ≢ null
    → is_dict v ≡ false
    → walk (merge base over) parts ≡ v
unfolding walk merge IsWellFormed
walk-merge_set [] base (dict os) v w e n d = cc
walk-merge_set [] base _ v w e n d = e
walk-merge_set (p ∷ ps) (dict bs) (dict os) v w e n d = elim (Option-cases (lookup p os)) [
  | inl o ↦ absurd (n (sym (rw (o, walk) at e)))
  | inr (u, o) ↦
      rw (lookup-merge_fields p bs os w, o)
        (walk-merge_set ps (or_null (lookup p bs)) u v (lookup-IsWellFormed p os u w o)
          (rw (o, walk) at e) n d)
]
walk-merge_set (p ∷ ps) _ (dict os) v w e n d = e
walk-merge_set (p ∷ ps) base _ v w e n d = absurd (n (sym e))

-- Whether the override says anything at the path or above it, other than through dicts.
unfoldable pub mentions : Value → List String → Bool
mentions (dict os) (part ∷ parts) = elim (lookup part os) [
  | none ↦ false
  | some v ↦ mentions v parts
]
mentions _ _ = true

walk-null_of_unmentioned :
    (parts : List String) (over : Value) → mentions over parts ≡ false → walk over parts ≡ null
unfolding walk mentions
walk-null_of_unmentioned [] (dict os) h = cc
walk-null_of_unmentioned [] _ h = cc
walk-null_of_unmentioned (p ∷ ps) (dict os) h = elim (Option-cases (lookup p os)) [
  | inl e ↦ rw (e, walk)
  | inr (w, e) ↦ rw (e, walk) (walk-null_of_unmentioned ps w (rw (e, mentions) at h))
]
walk-null_of_unmentioned (p ∷ ps) _ h = refl

walk-null : (parts : List String) → walk null parts ≡ null
unfolding walk
walk-null [] = refl
walk-null (p ∷ ps) = refl

walk-or_null :
    (parts : List String) (o : Option Value)
    → walk (or_null o) parts ≡ elim o [ none ↦ null | some v ↦ walk v parts ]
walk-or_null parts none = walk-null parts
walk-or_null parts (some v) = refl

walk-merge_unmentioned :
    (parts : List String) (base over : Value)
    → IsWellFormed over
    → mentions over parts ≡ false
    → walk (merge base over) parts ≡ walk base parts
unfolding walk merge mentions IsWellFormed
walk-merge_unmentioned [] base (dict os) w h = cc
walk-merge_unmentioned [] base _ w h = cc
walk-merge_unmentioned (p ∷ ps) (dict bs) (dict os) w h = elim (Option-cases (lookup p os)) [
  | inl o ↦ rw (lookup-merge_fields p bs os w, o)
  | inr (u, o) ↦
      rw (lookup-merge_fields p bs os w, o)
        (walk-merge_unmentioned ps (or_null (lookup p bs)) u (lookup-IsWellFormed p os u w o)
            (rw (o, mentions) at h)
          ∙ walk-or_null ps (lookup p bs))
]
walk-merge_unmentioned (p ∷ ps) _ (dict os) w h = walk-null_of_unmentioned (p ∷ ps) (dict os) h
walk-merge_unmentioned (p ∷ ps) base _ w h = cc

-- In a well-formed override, a value that is set at a path and is not a dict is what the merged
-- values have there, whatever the base.
pub value_at-merge_set :
    (base over v : Value) (path : String)
    → IsWellFormed over
    → value_at over path ≡ v
    → v ≢ null
    → is_dict v ≡ false
    → value_at (merge base over) path ≡ v
unfolding value_at
value_at-merge_set base over v path w e n d = walk-merge_set (split path ".") base over v w e n d

-- Where a well-formed override does not mention a path, nor sets a value above it, the merged values
-- have there what the base has.
pub value_at-merge_unmentioned :
    (base over : Value) (path : String)
    → IsWellFormed over
    → mentions over (split path ".") ≡ false
    → value_at (merge base over) path ≡ value_at base path
unfolding value_at
value_at-merge_unmentioned base over path w h =
    walk-merge_unmentioned (split path ".") base over w h
