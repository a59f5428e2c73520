-- ===== src/Value.antt =====
-- The documents that the scripts read with `yaml.safe_load` and `json.loads`, as values of Python:
-- `None`, `bool`, `int`, `str`, `list` and `dict`. A `dict` keeps its entries in insertion order,
-- and its keys are texts.
pub mod Dict
pub mod Equality
pub mod Access
pub mod Number
pub mod Print
pub mod Sort
pub mod Table
pub mod Json
use clavenar_charts.Base.{ℕ, String, Bool, List, [], ◌∷◌, suc}

-- `negsuc n` is -(n + 1).
pub data ℤ : Type 0 where
  pos : ℕ → ℤ
  negsuc : ℕ → ℤ

mutual
  pub data Value : Type 0 where
    null : Value
    bool : Bool → Value
    int : ℤ → Value
    str : String → Value
    array : Items → Value
    dict : Fields → Value

  pub data Items : Type 0 where
    nil : Items
    cons : Value → Items → Items

  pub data Fields : Type 0 where
    end : Fields
    field : String → Value → Fields → Fields

abbrev pub elements : Items → List Value
elements nil = []
elements (cons v xs) = v ∷ elements xs

abbrev pub items_of : List Value → Items
items_of [] = nil
items_of (v ∷ xs) = cons v (items_of xs)

abbrev pub list : List Value → Value
list xs = array (items_of xs)

-- A list of texts.
abbrev pub texts : List String → List Value
texts [] = []
texts (s ∷ ss) = str s ∷ texts ss

abbrev pub num : ℕ → Value
num n = int (pos n)

infixr 67 ◌▸◌
-- Notation for literals: `("key", value) ▸ rest`.
abbrev pub ◌▸◌ : String × Value → Fields → Fields
(k, v) ▸ fs = field k v fs
