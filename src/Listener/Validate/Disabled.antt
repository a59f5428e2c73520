-- ===== src/Listener/Validate/Disabled.antt =====
-- What a render without errors leaves out where the values disable it.
use clavenar_charts.Base.{String, ◌<>◌, ◌≡◌, ap, ◌∙◌, false, not, List, []}
use clavenar_charts.Base.Lists.{is_empty}
use clavenar_charts.Base.Result.{ok, keep_if, >>=-eq-ok, ok-injective}
use clavenar_charts.Value.{Value, Fields}
use clavenar_charts.Value.Access.{truthy}
use clavenar_charts.Listener.Values.{value_at}
use clavenar_charts.Listener.Errors.{refuse-nil}
use clavenar_charts.Listener.Profile.Production.{complain-nil}
use clavenar_charts.Listener.Rendered.{is_document}
use clavenar_charts.Listener.Workload.Accepted.{is_empty-nil}
use clavenar_charts.Listener.Vault.{validate_vault_test_hook}
use clavenar_charts.Listener.Console.{validate_console_contract}
use clavenar_charts.Listener.Brain.{validate_brain_auxiliary_contract}
use clavenar_charts.Listener.Assurance.{validate_assurance_contract}

-- The render has no document of the kind and the name.
abbrev pub IsAbsent : List Value → String → String → Type 0
IsAbsent docs kind name = keep_if (is_document kind name) docs ≡ ok []

-- The documents of the services that the values disable are absent.
pub record LeavesOut (values : Value) (docs : List Value) (release : String) : Type 0 where
  pub hook :
      truthy (value_at values "vault.bundled.enabled") ≡ false
      → IsAbsent docs "Pod" (release <> "-vault-server-test")
  pub console :
      truthy (value_at values "services.console.enabled") ≡ false
      → IsAbsent docs "Deployment" (release <> "-console")
  pub brain :
      truthy (value_at values "services.brain.enabled") ≡ false
      → IsAbsent docs "Deployment" (release <> "-brain")
  pub assurance :
      truthy (value_at values "services.assurance.enabled") ≡ false
      → IsAbsent docs "Deployment" (release <> "-assurance")

pub hook-IsAbsent :
    (matrix values : Value) (docs : List Value) (release namespace : String) (policies : Fields)
    → truthy (value_at values "vault.bundled.enabled") ≡ false
    → validate_vault_test_hook matrix values docs release namespace policies ≡ ok []
    → IsAbsent docs "Pod" (release <> "-vault-server-test")
unfolding validate_vault_test_hook
hook-IsAbsent matrix values docs release namespace policies off h =
    let (tests, found, h1) =
      >>=-eq-ok (keep_if (is_document "Pod" (release <> "-vault-server-test")) docs) _ h in
    found
    ∙ ap ok
        (is_empty-nil tests (complain-nil (not (is_empty tests)) _ (ok-injective (rw off at h1))))

pub console-IsAbsent :
    (values : Value) (docs : List Value) (release : String) (app_version : Value)
    → truthy (value_at values "services.console.enabled") ≡ false
    → validate_console_contract values docs release app_version ≡ ok []
    → IsAbsent docs "Deployment" (release <> "-console")
unfolding validate_console_contract
console-IsAbsent values docs release app_version off h =
    let (deployments, found, h1) =
      >>=-eq-ok (keep_if (is_document "Deployment" (release <> "-console")) docs) _ h in
    found
    ∙ ap ok (is_empty-nil deployments (refuse-nil (not (is_empty deployments)) _ (rw off at h1)))

pub brain-IsAbsent :
    (values : Value) (docs : List Value) (release : String)
    → truthy (value_at values "services.brain.enabled") ≡ false
    → validate_brain_auxiliary_contract values docs release ≡ ok []
    → IsAbsent docs "Deployment" (release <> "-brain")
unfolding validate_brain_auxiliary_contract
brain-IsAbsent values docs release off h =
    let (deployments, found, h1) =
      >>=-eq-ok (keep_if (is_document "Deployment" (release <> "-brain")) docs) _ h in
    found
    ∙ ap ok (is_empty-nil deployments (refuse-nil (not (is_empty deployments)) _ (rw off at h1)))

pub assurance-IsAbsent :
    (values : Value) (docs : List Value) (release : String)
    → truthy (value_at values "services.assurance.enabled") ≡ false
    → validate_assurance_contract values docs release ≡ ok []
    → IsAbsent docs "Deployment" (release <> "-assurance")
unfolding validate_assurance_contract
assurance-IsAbsent values docs release off h =
    let (deployments, found, h1) =
      >>=-eq-ok (keep_if (is_document "Deployment" (release <> "-assurance")) docs) _ h in
    found
    ∙ ap ok (is_empty-nil deployments (refuse-nil (not (is_empty deployments)) _ (rw off at h1)))
