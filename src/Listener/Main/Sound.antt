-- ===== src/Listener/Main/Sound.antt =====
-- What a run of status 0 shows.
use clavenar_charts.Base.{
  ℕ, zero, suc, String, ◌≡◌, refl, ap, ◌∙◌, false, Option, List, [], ◌∷◌, Bool-cases, inl, inr,
  arith,
}
use clavenar_charts.Base.Result.{Result, ok, raise, >>=-eq-ok, ok-injective}
use clavenar_charts.Value.{Value}
use clavenar_charts.Value.Access.{get, is_null}
use clavenar_charts.Listener.Values.{effective_values}
use clavenar_charts.Listener.Validate.{validate}
use clavenar_charts.Listener.Validate.Accepted.{IsAccepted, validate-IsAccepted}
use clavenar_charts.Listener.Main.{Inputs, documents, status, traceback, finish, run, main}

one_lem : {n : ℕ} → suc n ≡ zero → ⊥
one_lem e = omega arith

module _ (sha256 : String → String) (json_loads : String → Option Value) where
  -- The chart has a version, under which the render is accepted.
  pub record IsApproved (inputs : Inputs) : Type 0 where
    pub app_version : Value
    pub version_lem : get inputs.chart_metadata "appVersion" ≡ ok app_version
    pub is_version : is_null app_version ≡ false
    pub is_accepted :
        IsAccepted sha256 json_loads inputs.matrix
          (effective_values inputs.chart_values inputs.overlays)
          (documents inputs)
          inputs.release
          inputs.namespace
          app_version

  finish_lem :
      (inputs : Inputs) (errors : List String)
      → finish sha256 json_loads inputs errors ≡ ok 0
      → errors ≡ []
  unfolding finish
  finish_lem inputs [] h = refl
  finish_lem inputs (e ∷ es) h = absurd (one_lem (ok-injective h))

  run_lem : (inputs : Inputs) → run sha256 json_loads inputs ≡ ok 0 → IsApproved inputs
  unfolding run documents
  run_lem inputs h =
      let (app_version, h1', h1) = >>=-eq-ok (get inputs.chart_metadata "appVersion") _ h in
      elim (Bool-cases (is_null app_version)) [
        | inl e ↦ absurd (one_lem (ok-injective (rw e at h1)))
        | inr e ↦
            let (errors, h2', h2) =
              >>=-eq-ok
                (validate sha256 json_loads inputs.matrix
                  (effective_values inputs.chart_values inputs.overlays) (documents inputs)
                  inputs.release inputs.namespace app_version)
                (finish sha256 json_loads inputs) (rw e at h1) in
            record {
              app_version = app_version;
              version_lem = h1';
              is_version = e;
              is_accepted =
                  validate-IsAccepted sha256 json_loads inputs.matrix
                    (effective_values inputs.chart_values inputs.overlays) (documents inputs)
                    inputs.release inputs.namespace app_version
                    (h2' ∙ ap ok (finish_lem inputs errors h2));
            }
      ]

  -- Where the process ends with status 0, the chart has a version, and the matrix, the chart's values
  -- with the overlays and the documents of the manifest satisfy under it what `validate` without an
  -- error shows of the matrix, the values with their configured peers, and the render.
  pub main-IsApproved :
      (inputs : Inputs) → main sha256 json_loads inputs ≡ status 0 → IsApproved inputs
  unfolding main
  main-IsApproved inputs h = run_lem inputs (outcome_lem (run sha256 json_loads inputs) h)
    where
      outcome_lem :
          (r : Result ℕ)
          → elim r [ ok code ↦ status code | raise e ↦ traceback e ] ≡ status 0
          → r ≡ ok 0
      outcome_lem (ok n) h = ap ok (cc h)
      outcome_lem (raise e) h = cc
