-- ===== src/Readiness/Contract/Merge.antt =====
-- The two scripts merge values alike.
use clavenar_charts.Base.{◌≡◌, refl, Option, none, some, ◌∙◌, ap}
use clavenar_charts.Value.{Value, null, dict, Fields, end, field}
use clavenar_charts.Value.Dict.{lookup, or_null, insert}
use clavenar_charts.Listener.Values.{merge, merge_fields}
use clavenar_charts.Readiness.Contract.{deep_merge, deep_value}

mutual
  unfolding merge deep_merge

  deep_merge_lem : (os bs : Fields) → deep_merge bs os ≡ merge_fields bs os
  deep_merge_lem end bs = refl
  deep_merge_lem (field k v os) bs =
      ap (λ w. deep_merge (insert k w bs) os) (deep_value_lem v (lookup k bs))
      ∙ deep_merge_lem os (insert k (merge (or_null (lookup k bs)) v) bs)

  deep_value_lem : (v : Value) (old : Option Value) → deep_value old v ≡ merge (or_null old) v
  deep_value_lem (dict os) none = refl
  deep_value_lem (dict os) (some (dict bs)) = ap dict (deep_merge_lem os bs)
  deep_value_lem (dict os) (some null) = refl
  deep_value_lem (dict os) (some _) = refl
  deep_value_lem null old = refl
  deep_value_lem _ old = refl

-- `deep_merge` of the readiness check and `merge` of the listener check give the same dict, entry
-- order included, on all dicts.
pub deep_merge-eq-merge :
    (base over : Fields) → dict (deep_merge base over) ≡ merge (dict base) (dict over)
unfolding merge
deep_merge-eq-merge base over = ap dict (deep_merge_lem over base)
