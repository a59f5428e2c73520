-- ===== src/Value/Access.antt =====
-- Reads of a document, with the exceptions that Python raises where the value has another type.
use clavenar_charts.Base.{
  ℕ, zero, suc, String, Bool, true, false, not, none, some, List, [], ◌∷◌, ◌==◌, if◌then◌else◌,
}
use clavenar_charts.Base.Text.{has_infix}
use clavenar_charts.Base.Lists.{length}
use clavenar_charts.Base.Result.{
  Result, ok, raise, ◌>>=◌, key_error, attribute_error, type_error, index_error,
}
use clavenar_charts.Value.{
  Value, null, Fields, bool, int, str, array, dict, nil, end, pos, elements, texts,
}
use clavenar_charts.Value.Dict.{lookup, has_key, keys}
use clavenar_charts.Value.Equality.{int_eq, member}

-- The truth value, as `if v`, `not v`, `bool(v)` and `v or …` read it.
abbrev pub truthy : Value → Bool
truthy null = false
truthy (bool b) = b
truthy (int n) = not (int_eq n (pos 0))
truthy (str s) = not (s == "")
truthy (array xs) = elim xs [ nil ↦ false | _ ↦ true ]
truthy (dict fs) = elim fs [ end ↦ false | _ ↦ true ]

-- `v or w`
abbrev pub or_else : Value → Value → Value
or_else v w = if truthy v then v else w

-- `d.get(k, w)`
abbrev pub get_or : Value → String → Value → Result Value
get_or (dict fs) k w = elim (lookup k fs) [ none ↦ ok w | some v ↦ ok v ]
get_or _ k w = raise attribute_error

-- `d.get(k)`
abbrev pub get : Value → String → Result Value
get d k = get_or d k null

-- `d[k]`
abbrev pub item : Value → String → Result Value
item (dict fs) k = elim (lookup k fs) [ none ↦ raise (key_error k) | some v ↦ ok v ]
item _ k = raise type_error

-- What a value needs to be an element of a set or a key of a dict.
abbrev pub is_hashable : Value → Bool
is_hashable (array xs) = false
is_hashable (dict fs) = false
is_hashable _ = true

abbrev pub hashed : Value → Result Value
hashed v = if is_hashable v then ok v else raise type_error

-- `d[k]` where the key is a value.
abbrev pub item_at : Value → Value → Result Value
item_at d (str k) = item d k
item_at d _ = raise type_error

abbrev key_in : Value → Fields → Bool
key_in (str k) fs = has_key k fs
key_in _ fs = false

-- `v in d`
abbrev pub is_in : Value → Value → Result Bool
is_in v (dict fs) = hashed v >>= λ k. ok (key_in k fs)
is_in v (array xs) = ok (member (elements xs) v)
is_in v (str s) = elim v [ str k ↦ ok (has_infix s k) | _ ↦ raise type_error ]
is_in v _ = raise type_error

-- `isinstance(v, dict)`, `isinstance(v, list)`, `isinstance(v, str)`
abbrev pub is_dict : Value → Bool
is_dict (dict fs) = true
is_dict _ = false

abbrev pub is_list : Value → Bool
is_list (array xs) = true
is_list _ = false

abbrev pub is_str : Value → Bool
is_str (str s) = true
is_str _ = false

-- `v is True`
abbrev pub is_true : Value → Bool
is_true (bool b) = b
is_true _ = false

-- `v is False`
abbrev pub is_false : Value → Bool
is_false (bool b) = not b
is_false _ = false

abbrev pub is_null : Value → Bool
is_null null = true
is_null _ = false

abbrev characters : String → List Value
characters String.[] = []
characters (String.◌∷◌ c s) = str (String.◌∷◌ c "") ∷ characters s

-- The elements that `for x in v` goes through: a dict gives its keys, a text its characters.
abbrev pub each : Value → Result (List Value)
each (array xs) = ok (elements xs)
each (dict fs) = ok (texts (keys fs))
each (str s) = ok (characters s)
each _ = raise type_error

-- `len(v)`
abbrev pub len : Value → Result ℕ
len v = each v >>= λ xs. ok (length xs)

abbrev nth : List Value → ℕ → Result Value
nth [] i = raise index_error
nth (v ∷ vs) zero = ok v
nth (v ∷ vs) (suc i) = nth vs i

-- `v[0]`. A dict has no key that is a number.
abbrev pub first : Value → Result Value
first (array xs) = nth (elements xs) 0
first (str s) = nth (characters s) 0
first (dict fs) = raise (key_error "0")
first _ = raise type_error

-- A text, where the code calls a method of `str` on the value.
abbrev pub as_text : Value → Result String
as_text (str s) = ok s
as_text _ = raise attribute_error

-- `d[k₁][k₂]…`
abbrev pub item_path : Value → List String → Result Value
item_path v [] = ok v
item_path v (k ∷ ks) = item v k >>= λ w. item_path w ks
