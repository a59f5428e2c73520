-- ===== src/Listener/Main.antt =====
-- `main` of check-listener-matrix.py. The files that it parses are inputs, and so are the release and
-- the namespace of the command line.
pub mod Sound
use clavenar_charts.Base.{ℕ, String, Bool, not, Option, List, [], ◌∷◌, if◌then◌else◌}
use clavenar_charts.Base.Lists.{is_empty, filter}
use clavenar_charts.Base.Result.{Result, ok, raise, ◌>>=◌, Exception}
use clavenar_charts.Value.{Value}
use clavenar_charts.Value.Access.{get, item, len, is_dict, is_null}
use clavenar_charts.Listener.Values.{effective_values}
use clavenar_charts.Listener.Validate.{validate}

pub record Inputs : Type 0 where
  pub matrix : Value
  pub chart_metadata : Value
  pub chart_values : Value
  pub overlays : List Value
  pub manifest : List Value
  pub release : String
  pub namespace : String

-- `docs`
unfoldable pub documents : Inputs → List Value
documents inputs = filter is_dict inputs.manifest

pub data Outcome : Type 0 where
  status : ℕ → Outcome
  traceback : Exception → Outcome

module _ (sha256 : String → String) (json_loads : String → Option Value) where
  -- The end of the run after the errors are known; the last line counts the listeners.
  unfoldable pub finish : Inputs → List String → Result ℕ
  finish inputs errors =
      if not (is_empty errors)
      then ok 1
      else do listeners ← item inputs.matrix "listeners"; count ← len listeners; ok 0

  unfoldable pub run : Inputs → Result ℕ
  unfolding finish documents
  run inputs = do
    app_version ← get inputs.chart_metadata "appVersion"
    if is_null app_version then ok 1 else do
      errors ←
          validate sha256 json_loads inputs.matrix
            (effective_values inputs.chart_values inputs.overlays) (documents inputs) inputs.release
            inputs.namespace app_version
      finish inputs errors

  unfoldable pub main : Inputs → Outcome
  unfolding run
  main inputs = elim (run inputs) [ ok code ↦ status code | raise e ↦ traceback e ]
