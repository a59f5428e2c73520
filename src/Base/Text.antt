-- ===== src/Base/Text.antt =====
-- The methods of `str` that the scripts call, by recursion on the text.
use Prim.Native.Nat.{ℕ, zero, suc, ◌+◌, ◌-◌}
use Prim.Native.Char.{Char, code}
use Prim.Native.String.{String, ◌++◌ as ◌<>◌}
use mathlib.Core.Bool.{Bool, true, false, ◌&&◌, ◌||◌}
use mathlib.Core.List.{List, [], ◌∷◌}
use clavenar_charts.Base.Tests.{nat_eq, leb, ◌==◌, if◌then◌else◌}

-- The number of code points.
abbrev pub size : String → ℕ
size String.[] = 0
size (String.◌∷◌ c s) = suc (size s)

-- `s.startswith(prefix)`
abbrev pub has_prefix : String → String → Bool
has_prefix s String.[] = true
has_prefix String.[] (String.◌∷◌ d t) = false
has_prefix (String.◌∷◌ c s) (String.◌∷◌ d t) = nat_eq (code c) (code d) && has_prefix s t

-- The text without its first `n` characters.
abbrev pub drop : ℕ → String → String
drop zero s = s
drop (suc n) String.[] = ""
drop (suc n) (String.◌∷◌ c s) = drop n s

-- `s[:n]`
abbrev pub take : ℕ → String → String
take zero s = ""
take (suc n) String.[] = ""
take (suc n) (String.◌∷◌ c s) = String.◌∷◌ c (take n s)

-- `s.removeprefix(prefix)`
abbrev pub remove_prefix : String → String → String
remove_prefix s prefix = if has_prefix s prefix then drop (size prefix) s else s

-- `part in s`
abbrev pub has_infix : String → String → Bool
has_infix String.[] part = has_prefix "" part
has_infix (String.◌∷◌ c s) part = has_prefix (String.◌∷◌ c s) part || has_infix s part

-- ASCII white space, which `strip` removes.
abbrev pub is_space : ℕ → Bool
is_space c = nat_eq c 32 || leb 9 c && leb c 13 || leb 28 c && leb c 31

abbrev pub lstrip : String → String
lstrip String.[] = ""
lstrip (String.◌∷◌ c s) = if is_space (code c) then lstrip s else String.◌∷◌ c s

abbrev pub rstrip : String → String
rstrip String.[] = ""
rstrip (String.◌∷◌ c s) =
    let rest = rstrip s in
    elim rest [
      | String.[] ↦ if is_space (code c) then "" else String.◌∷◌ c ""
      | String.◌∷◌ d t ↦ String.◌∷◌ c (String.◌∷◌ d t)
    ]

-- `s.strip()`
abbrev pub strip : String → String
strip s = lstrip (rstrip s)

abbrev pub cons_head : Char → List String → List String
cons_head c [] = String.◌∷◌ c "" ∷ []
cons_head c (w ∷ ws) = String.◌∷◌ c w ∷ ws

-- `skip` characters of a separator are still to be passed over.
abbrev pub split_from : String → ℕ → String → List String
split_from sep skip String.[] = "" ∷ []
split_from sep (suc skip) (String.◌∷◌ c s) = split_from sep skip s
split_from sep zero (String.◌∷◌ c s) =
    let inside = cons_head c (split_from sep zero s) in
    let after = split_from sep (size sep - 1) s in
    if has_prefix (String.◌∷◌ c s) sep then "" ∷ after else inside

-- `s.split(sep)` for a separator that is not empty.
abbrev pub split : String → String → List String
split s sep = split_from sep 0 s

-- `s.split(sep, 1)` where `sep` occurs: what stands before it and after it.
abbrev pub partition : String → String → String × String
partition String.[] sep = ("", "")
partition (String.◌∷◌ c s) sep =
    let (before, after) = partition s sep in
    if has_prefix (String.◌∷◌ c s) sep
    then ("", drop (size sep - 1) s)
    else (String.◌∷◌ c before, after)

-- `sep.join(words)`
abbrev pub join : String → List String → String
join sep [] = ""
join sep (w ∷ []) = w
join sep (w ∷ v ∷ ws) = w <> sep <> join sep (v ∷ ws)

-- `s.endswith(suffix)`
abbrev pub has_suffix : String → String → Bool
has_suffix s suffix = drop (size s - size suffix) s == suffix

-- The code of the small letter, for ASCII.
abbrev lower_code : ℕ → ℕ
lower_code c = if leb 65 c && leb c 90 then c + 32 else c

abbrev has_lower_prefix : String → String → Bool
has_lower_prefix s String.[] = true
has_lower_prefix String.[] (String.◌∷◌ d t) = false
has_lower_prefix (String.◌∷◌ c s) (String.◌∷◌ d t) =
    nat_eq (lower_code (code c)) (code d) && has_lower_prefix s t

-- `part in s.lower()`, where `part` has small ASCII letters that no other character has as its small
-- letter (all but i and k).
abbrev pub has_lower_infix : String → String → Bool
has_lower_infix String.[] part = has_lower_prefix "" part
has_lower_infix (String.◌∷◌ c s) part =
    has_lower_prefix (String.◌∷◌ c s) part || has_lower_infix s part
