-- ===== src/Value/Table.antt =====
-- Dicts whose keys are values, such as those that a comprehension builds: the entries in the order
-- of insertion, where the last entry of a key counts.
use clavenar_charts.Base.{
  String, ◌<>◌, Bool, true, false, ◌&&◌, Option, none, some, List, [], ◌∷◌, if◌then◌else◌,
}
use clavenar_charts.Base.Text.{join}
use clavenar_charts.Base.Result.{Result, ok, raise, ◌>>=◌, traverse, key_error}
use clavenar_charts.Value.{Value}
use clavenar_charts.Value.Equality.{py_eq, member}
use clavenar_charts.Value.Access.{item, get, hashed}
use clavenar_charts.Value.Print.{text_of, repr}

abbrev pub Table {ℓ} : Type ℓ → Type ℓ
Table V = List (Value × V)

module _ {ℓ} {V : Type ℓ} where
  -- `table.get(key)`, where `none` is a missing key.
  unfoldable pub at : Value → Table V → Option V
  at key [] = none
  at key ((k, v) ∷ rest) = elim (at key rest) [
    | some later ↦ some later
    | none ↦ if py_eq k key then some v else none
  ]

  -- `table[key]`
  unfoldable pub item_in : Value → Table V → Result V
  unfolding at
  item_in key table = do
    k ← hashed key
    elim (at k table) [ none ↦ raise (key_error (text_of key)) | some v ↦ ok v ]

-- `{x[field]: x for x in xs}`
unfoldable pub table_by : String → List Value → Result (Table Value)
table_by field xs = traverse (λ x. item x field >>= λ name. (hashed name >>= λ k. ok (k, x))) xs

-- `{x.get(field): x for x in xs}`
unfoldable pub table_of : String → List Value → Result (Table Value)
table_of field xs = traverse (λ x. get x field >>= λ name. (hashed name >>= λ k. ok (k, x))) xs

-- The entries of the first table are entries of the second.
unfoldable pub entries_in : Table Value → Table Value → Table Value → Bool
unfolding at
entries_in [] whole other = true
entries_in ((k, _) ∷ rest) whole other =
    elim (at k whole) [
      | none ↦ false
      | some v ↦ elim (at k other) [ none ↦ false | some w ↦ py_eq v w ]
    ]
    && entries_in rest whole other

-- `table == other`
unfoldable pub table_eq : Table Value → Table Value → Bool
unfolding entries_in
table_eq table other = entries_in table table other && entries_in other other table

-- The keys in the order of their first entries.
unfoldable pub keys_once : Table Value → List Value → List Value
keys_once [] seen = []
keys_once ((k, _) ∷ rest) seen =
    let old = keys_once rest seen in
    let new = k ∷ keys_once rest (k ∷ seen) in if member seen k then old else new

entry_reprs : List Value → Table Value → List String
unfolding at repr
entry_reprs [] table = []
entry_reprs (k ∷ ks) table =
    (repr k <> ": " <> elim (at k table) [ none ↦ "" | some v ↦ repr v ]) ∷ entry_reprs ks table

-- `str(table)`
unfoldable pub table_text : Table Value → String
unfolding keys_once entry_reprs
table_text table = "{" <> join ", " (entry_reprs (keys_once table []) table) <> "}"
