-- ===== src/Value/Equality.antt =====
-- Python's `==` on documents: a `bool` equals the `int` of its value, and the order of a dict's
-- entries does not matter.
use clavenar_charts.Base.{
  Bool, true, false, ◌&&◌, none, some, List, [], ◌∷◌, nat_eq, ◌==◌, if◌then◌else◌,
}
use clavenar_charts.Base.Lists.{all}
use clavenar_charts.Value.{
  Value, null, bool, int, str, array, dict, Items, nil, cons, Fields, end, field, ℤ, pos, negsuc,
}
use clavenar_charts.Value.Dict.{lookup, count}

abbrev pub int_eq : ℤ → ℤ → Bool
int_eq (pos a) (pos b) = nat_eq a b
int_eq (negsuc a) (negsuc b) = nat_eq a b
int_eq _ _ = false

-- `bool` is a subclass of `int`.
abbrev pub as_int : Bool → ℤ
as_int true = pos 1
as_int false = pos 0

unfoldable mutual
  pub py_eq : Value → Value → Bool
  py_eq null w = elim w [ null ↦ true | _ ↦ false ]
  py_eq (bool b) w = elim w [
    | bool c ↦ int_eq (as_int b) (as_int c)
    | int n ↦ int_eq (as_int b) n
    | _ ↦ false
  ]
  py_eq (int m) w = elim w [ bool c ↦ int_eq m (as_int c) | int n ↦ int_eq m n | _ ↦ false ]
  py_eq (str s) w = elim w [ str t ↦ s == t | _ ↦ false ]
  py_eq (array xs) w = elim w [ array ys ↦ items_eq xs ys | _ ↦ false ]
  py_eq (dict fs) w = elim w [
    | dict gs ↦ nat_eq (count fs) (count gs) && fields_in fs gs
    | _ ↦ false
  ]

  items_eq : Items → Items → Bool
  items_eq nil ys = elim ys [ nil ↦ true | _ ↦ false ]
  items_eq (cons x xs) ys = elim ys [ nil ↦ false | cons y rest ↦ py_eq x y && items_eq xs rest ]

  fields_in : Fields → Fields → Bool
  fields_in end gs = true
  fields_in (field k v fs) gs =
      elim (lookup k gs) [ none ↦ false | some w ↦ py_eq v w ] && fields_in fs gs

-- `x in xs` for a list.
abbrev pub member : List Value → Value → Bool
member [] x = false
member (y ∷ ys) x = elim (py_eq y x) [ true ↦ true | false ↦ member ys x ]

-- A set, as the list of its elements without repetition.
unfoldable pub set_of : List Value → List Value
set_of [] = []
set_of (v ∷ vs) = let rest = set_of vs in if member rest v then rest else v ∷ rest

-- The equality of two sets.
abbrev pub same_members : List Value → List Value → Bool
same_members xs ys = all (member ys) xs && all (member xs) ys
