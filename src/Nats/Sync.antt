-- ===== src/Nats/Sync.antt =====
-- `sync_values_authorization`, which rewrites two files of the chart. The hexadecimal SHA-256 of a text
-- is a parameter. The lines of the files end with a line feed.
pub mod Written
pub mod Ends
use Prim.Native.Char.{Char, code}
use clavenar_charts.Base.{
  ℕ, zero, suc, ◌+◌, ◌-◌, String, ◌<>◌, Bool, true, false, not, ◌&&◌, ◌||◌, List, [], ◌∷◌, nat_eq,
  leb, ◌==◌, if◌then◌else◌,
}
use clavenar_charts.Base.Lists.{length, filter}
use clavenar_charts.Base.Text.{has_prefix, drop, size, split, join}
use clavenar_charts.Base.Result.{Result, ok, raise, Exception, contract_error}
use clavenar_charts.Value.{Value}
use clavenar_charts.Value.Json.{Style, dumps}
use clavenar_charts.Nats.Permissions.{expected_authorization}
use clavenar_charts.Nats.Repository.{Repository, Outcome, status, traceback, is_caught, main}

-- The texts of values.yaml and of templates/validate.yaml.
pub record Files : Type 0 where
  pub values_text : String
  pub validation : String

abbrev pub marker : String
marker = "      authorization: "

abbrev drop_last_empty : List String → List String
drop_last_empty [] = []
drop_last_empty (line ∷ []) = if line == "" then [] else line ∷ []
drop_last_empty (line ∷ next ∷ rest) = line ∷ drop_last_empty (next ∷ rest)

-- `text.splitlines()`
unfoldable pub split_lines : String → List String
split_lines text = drop_last_empty (split text "\n")

-- `separators=(",", ":")`
abbrev pub compact : Bool → Style
compact sorted = record {
  item_separator = ",";
  key_separator = ":";
  sort_keys = sorted;
  ensure_ascii = true;
}

abbrev pub is_marked : String → Bool
is_marked line = has_prefix line marker

-- `lines[matches[0]] = line`
unfoldable pub replace_marked : String → List String → List String
replace_marked new [] = []
replace_marked new (line ∷ rest) =
    let later = replace_marked new rest in if is_marked line then new ∷ rest else line ∷ later

-- `[0-9a-f]{n}` followed by the rest of the pattern.
unfoldable pub closes : ℕ → String → Bool
closes zero s = has_prefix s "\" }}"
closes (suc n) String.[] = false
closes (suc n) (String.◌∷◌ c s) =
    (leb 48 (code c) && leb (code c) 57 || leb 97 (code c) && leb (code c) 102) && closes n s

abbrev pub opening : String
opening = "if ne $authorizationDigest \""

-- The pattern `(if ne \$authorizationDigest ")[0-9a-f]{64}(" \}\})` matches at the start.
unfoldable pub has_digest : String → Bool
unfolding closes
has_digest s = has_prefix s opening && closes 64 (drop (size opening) s)

-- `re.subn`: the text with the digest in each match, where `skip` characters of a match are still to
-- be passed over, and the number of matches.
unfoldable pub substitute : String → ℕ → String → String × ℕ
unfolding has_digest
substitute digest skip String.[] = ("", 0)
substitute digest (suc skip) (String.◌∷◌ c s) = substitute digest skip s
substitute digest zero (String.◌∷◌ c s) =
    let (kept, count) = substitute digest zero s in
    let (after, later) = substitute digest (size opening + 67) s in
    if has_digest (String.◌∷◌ c s)
    then (opening <> digest <> "\" }}" <> after, suc later)
    else (String.◌∷◌ c kept, count)

-- What the function leaves in the files, and how it ends.
abbrev pub Step : Type 0
Step = Files × Result (Unit {0})

module _ (sha256 : String → String) where
  -- The second file, after the first was written.
  unfoldable pub write_validation : Value → Files → Step
  write_validation authorization files =
      let digest = sha256 (dumps (compact true) authorization) in
      let (validation, count) = substitute digest 0 files.validation in
      if not (nat_eq count 1)
      then (files, raise (contract_error "values authorization: expected one validation digest"))
      else (record { values_text = files.values_text; validation = validation }, ok tt)

  -- Both files, where the values have one generated line.
  unfoldable pub write_values : Result Value → Files → Step
  unfolding write_validation
  write_values (raise e) files = (files, raise e)
  write_values (ok authorization) files =
      let lines =
        replace_marked (marker <> dumps (compact false) authorization)
          (split_lines files.values_text) in
      write_validation authorization
        (record { values_text = join "\n" lines <> "\n"; validation = files.validation })

  unfoldable pub sync_values_authorization : Value → Files → Step
  unfolding write_values
  sync_values_authorization contract files =
      if not (nat_eq (length (filter is_marked (split_lines files.values_text))) 1)
      then (
        files,
        raise (contract_error "values authorization: expected one generated inline value"),
      )
      else write_values (expected_authorization contract) files

  -- `main` with `--write-values`, where `load` reads the repository again after the files are written.
  unfoldable pub main_writing :
      (String → Result Value) → (Files → Repository) → Value → Files → Files × Outcome
  main_writing decode load contract files =
      let (after, result) = sync_values_authorization contract files in
      (
        after,
        elim result [
          | ok _ ↦ main decode (load after)
          | raise e ↦ if is_caught e then status 1 else traceback e
        ],
      )
