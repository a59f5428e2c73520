-- ===== src/Readiness/Main.antt =====
-- `values_for` and `main`: the three cases in order, and how the process ends.
use clavenar_charts.Base.{
  ℕ, ◌+◌, String, Bool, true, false, Option, none, some, List, [], ◌∷◌, if◌then◌else◌,
}
use clavenar_charts.Base.Result.{
  Result, ok, raise, ◌>>=◌, ◌>>◌, Exception, key_error, value_error, stop_iteration, contract_error,
  readiness_error,
}
use clavenar_charts.Value.{Value, dict, Fields}
use clavenar_charts.Value.Table.{Table}
use clavenar_charts.Readiness.Contract.{
  SourceRoot, deep_merge, contract_documents, verify_source_mirror, contract_services,
}
use clavenar_charts.Readiness.Documents.{Render}
use clavenar_charts.Readiness.Case.{verify_case}

-- The chart's values, with the file of the case merged in; the files hold mappings.
unfoldable pub values_for : Fields → Option Fields → Value
values_for values none = dict values
values_for values (some override) = dict (deep_merge values override)

-- A case by its name, with the values file that it adds and its render.
pub record ValuesCase : Type 0 where
  pub name : String
  pub values_file : Option Fields
  pub output : Render

-- What the script reads.
pub record Inputs : Type 0 where
  pub schema : Value
  pub fixture : Value
  pub files : List (String × String)
  pub chart_values : Fields
  pub source_root : Option SourceRoot
  pub require_source : Bool
  pub cases : List ValuesCase

unfoldable pub verify_cases :
    Fields → Table Value → List (String × String) → List ValuesCase → Result ℕ
verify_cases chart_values services files [] = ok 0
verify_cases chart_values services files (c ∷ cases) = do
  here ← verify_case c.name c.output (values_for chart_values c.values_file) services files
  later ← verify_cases chart_values services files cases
  ok (here + later)

-- The body of `main` within its `try`: the number of checks.
unfoldable pub run : Inputs → Result ℕ
run inputs = do
  contract_documents inputs.schema inputs.fixture
  mirrored ← verify_source_mirror inputs.source_root inputs.require_source inputs.files
  services ← contract_services inputs.fixture
  checks ← verify_cases inputs.chart_values services inputs.files inputs.cases
  ok (mirrored + checks)

pub data Outcome : Type 0 where
  status : ℕ → Outcome
  traceback : Exception → Outcome

-- `except (OSError, ValueError, KeyError, StopIteration, ReadinessError)`
unfoldable pub is_caught : Exception → Bool
is_caught (key_error _) = true
is_caught (value_error _) = true
is_caught stop_iteration = true
is_caught (readiness_error _) = true
is_caught (contract_error _) = true
is_caught _ = false

unfoldable pub main : Inputs → Outcome
main inputs = elim (run inputs) [
  | ok _ ↦ status 0
  | raise e ↦ if is_caught e then status 1 else traceback e
]
