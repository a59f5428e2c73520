-- ===== src/Listener/Values.antt =====
-- `merge` and `value_at`: the effective values of a render, and reads of them by dotted path.
pub mod Merge
use clavenar_charts.Base.{String, List, [], ◌∷◌, none, some}
use clavenar_charts.Base.Text.{split}
use clavenar_charts.Value.{Value, null, dict, Fields, end, field}
use clavenar_charts.Value.Dict.{lookup, or_null, insert}
use clavenar_charts.Value.Access.{or_else}

-- `copy.deepcopy` gives the same value; `result[key] = …` keeps an old key's place.
unfoldable mutual
  unfolding insert

  pub merge : Value → Value → Value
  merge base (dict os) = elim base [ dict bs ↦ dict (merge_fields bs os) | _ ↦ dict os ]
  merge base over = over

  pub merge_fields : Fields → Fields → Fields
  merge_fields bs end = bs
  merge_fields bs (field k v os) = merge_fields (insert k (merge (or_null (lookup k bs)) v) bs) os

-- The loop of `value_at` over the parts of the path.
unfoldable pub walk : Value → List String → Value
walk current [] = current
walk (dict fs) (part ∷ parts) = elim (lookup part fs) [ none ↦ null | some v ↦ walk v parts ]
walk _ (part ∷ parts) = null

unfoldable pub value_at : Value → String → Value
unfolding walk
value_at values path = walk values (split path ".")

-- `effective_values` over the loaded chart values and overlays: `yaml.safe_load(…) or {}`.
unfoldable pub effective_values : Value → List Value → Value
effective_values values [] = values
effective_values values (overlay ∷ overlays) =
    effective_values (merge values (or_else overlay (dict end))) overlays
