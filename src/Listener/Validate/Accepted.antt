-- ===== src/Listener/Validate/Accepted.antt =====
-- What an accepted matrix and render satisfy.
pub mod Matrix
use clavenar_charts.Base.{String, ◌≡◌, ap, ◌∙◌, true, not, Option, List, [], not-eq-false}
use clavenar_charts.Base.Result.{ok, >>=-eq-ok, ok-injective}
use clavenar_charts.Value.{Value, str, dict, Fields, end}
use clavenar_charts.Value.Equality.{py_eq}
use clavenar_charts.Value.Access.{truthy, get, get_or}
use clavenar_charts.Listener.Values.{value_at}
use clavenar_charts.Listener.Errors.{<+>-nil, refuse-nil}
use clavenar_charts.Listener.Profile.Production.{
  py_eq-str, IsLedgerSafe, IsHardened, validate_deployment_profile-IsHardened,
}
use clavenar_charts.Listener.Environments.Unique.{
  Every, IsClean, validate_service_env_uniqueness_sound,
}
use clavenar_charts.Listener.Ledger.Governed.{
  IsGoverned, validate_ledger_trusted_proxy_contract-IsGoverned,
}
use clavenar_charts.Listener.Vault.Hook.{IsHooked, validate_vault_test_hook-IsHooked}
use clavenar_charts.Listener.Console.Accepted.{IsConsole, validate_console_contract-IsConsole}
use clavenar_charts.Listener.Brain.Accepted.{IsServed, validate_brain_auxiliary_contract-IsServed}
use clavenar_charts.Listener.Assurance.Accepted.{IsAssured, validate_assurance_contract-IsAssured}
use clavenar_charts.Listener.Capabilities.Accepted.{
  IsBundled, validate_workload_capability_contract-IsBundled,
}
use clavenar_charts.Listener.Validate.Configured.{HasPeers, values_lem}
use clavenar_charts.Listener.Validate.Disabled.{
  LeavesOut, hook-IsAbsent, console-IsAbsent, brain-IsAbsent, assurance-IsAbsent,
}
use clavenar_charts.Listener.Digest.{matrix_digest, reviewed_key}
use clavenar_charts.Listener.Validate.{
  matrix_errors, values_errors, active_listeners, contract_errors, render_errors, validate,
}
use clavenar_charts.Listener.Validate.Matrix.{
  entries_of, version_errors, digest_errors, listeners_errors, objects_errors,
}
use clavenar_charts.Listener.Validate.Matrix.Governed.{AreListeners, listeners_errors-AreListeners}
use clavenar_charts.Listener.Validate.Matrix.Objects.{AreObjects, objects_errors-AreObjects}
use clavenar_charts.Listener.Validate.Contracts.{peer_contract_errors}
use clavenar_charts.Listener.Validate.Contracts.Authorized.{
  AreGranted, peer_contract_errors-AreGranted,
}
use clavenar_charts.Listener.Validate.Services.{services_errors}
use clavenar_charts.Listener.Validate.Services.Exact.{HasServices, services_errors-HasServices}
use clavenar_charts.Listener.Validate.Publications.{publication_errors}
use clavenar_charts.Listener.Validate.Publications.Matched.{IsMatched, publication_errors-IsMatched}
use clavenar_charts.Listener.Validate.Workloads.{workloads_errors}
use clavenar_charts.Listener.Validate.Workloads.Exact.{HasWorkloads, workloads_errors-HasWorkloads}
use clavenar_charts.Listener.Validate.Policies.{policies_report}
use clavenar_charts.Listener.Validate.Policies.Exact.{HasPolicies, policies_report-HasPolicies}
use clavenar_charts.Listener.Validate.Accepted.Matrix.{
  version_lem as version_of, digest_lem as digest_of, HasMatrix, matrix_lem,
}

module _ (sha256 : String → String) (json_loads : String → Option Value) where
  -- The services of the render, as far as the values enable them.
  pub record HasContracts (matrix values : Value) (docs : List Value) (release namespace : String)
      (policies : Fields) (app_version : Value) : Type 0 where
    pub hooked :
        truthy (value_at values "vault.bundled.enabled") ≡ true
        → IsHooked matrix docs release namespace policies
    pub console :
        truthy (value_at values "services.console.enabled") ≡ true
        → IsConsole values docs release app_version
    pub brain :
        truthy (value_at values "services.brain.enabled") ≡ true → IsServed values docs release
    pub assurance :
        truthy (value_at values "services.assurance.enabled") ≡ true → IsAssured values docs release
    pub capabilities : IsBundled sha256 json_loads values docs release
    pub ledger :
        truthy (value_at values "services.ledger.enabled") ≡ true → IsGoverned values docs release
    pub environments : Every (IsClean release) docs
    pub left_out : LeavesOut values docs release

  contracts_lem :
      (matrix values : Value) (docs : List Value) (release namespace : String) (policies : Fields)
      (app_version : Value)
      → contract_errors sha256 json_loads matrix values docs release namespace policies app_version
        ≡ ok []
      → HasContracts matrix values docs release namespace policies app_version
  unfolding contract_errors
  contracts_lem matrix values docs release namespace policies app_version h =
      let (vault, h1) = <+>-nil _ _ h in
      let (console, h2) = <+>-nil _ _ h1 in
      let (brain, h3) = <+>-nil _ _ h2 in
      let (assurance, h4) = <+>-nil _ _ h3 in
      let (capabilities, h5) = <+>-nil _ _ h4 in
      let (ledger, environments) = <+>-nil _ _ h5 in
      record {
        hooked = λ on.
            validate_vault_test_hook-IsHooked matrix values docs release namespace policies on
              vault;
        console =
            λ on. validate_console_contract-IsConsole values docs release app_version on console;
        brain = λ on. validate_brain_auxiliary_contract-IsServed values docs release on brain;
        assurance = λ on. validate_assurance_contract-IsAssured values docs release on assurance;
        capabilities =
            validate_workload_capability_contract-IsBundled sha256 json_loads values docs release
              capabilities;
        ledger =
            λ on. validate_ledger_trusted_proxy_contract-IsGoverned values docs release on ledger;
        environments = validate_service_env_uniqueness_sound docs release environments;
        left_out = record {
          hook = λ off. hook-IsAbsent matrix values docs release namespace policies off vault;
          console = λ off. console-IsAbsent values docs release app_version off console;
          brain = λ off. brain-IsAbsent values docs release off brain;
          assurance = λ off. assurance-IsAbsent values docs release off assurance;
        };
      }

  -- The render meets the contracts of the matrix, whose governed policies are `policies`.
  pub record IsRendered (matrix values : Value) (docs : List Value) (release namespace : String)
      (app_version : Value) (digest : String) : Type 0 where
    pub active : List Value
    pub expected : Fields
    pub active_lem : active_listeners matrix values ≡ ok active
    pub services : HasServices matrix values docs release namespace
    pub published : IsMatched matrix values active
    pub workloads : HasWorkloads docs release active
    pub policies : HasPolicies matrix values docs release digest expected
    pub contracts : HasContracts matrix values docs release namespace expected app_version

  render_lem :
      (matrix values : Value) (docs : List Value) (release namespace : String) (app_version : Value)
      (digest : String)
      → render_errors sha256 json_loads matrix values docs release namespace app_version digest
        ≡ ok []
      → IsRendered matrix values docs release namespace app_version digest
  unfolding render_errors
  render_lem matrix values docs release namespace app_version digest h =
      let (active, h1', h1) = >>=-eq-ok (active_listeners matrix values) _ h in
      let (services, h2', h2) =
        >>=-eq-ok (services_errors matrix values docs release namespace) _ h1 in
      let (published, h3', h3) = >>=-eq-ok (publication_errors matrix values active) _ h2 in
      let (workloads, h4', h4) = >>=-eq-ok (workloads_errors docs release active) _ h3 in
      let (policies, h5', h5) =
        >>=-eq-ok (policies_report matrix values docs release digest) _ h4 in
      let (p1, h6) = <+>-nil (ok services) _ h5 in
      let (p2, h7) = <+>-nil (ok published) _ h6 in
      let (p3, h8) = <+>-nil (ok workloads) _ h7 in
      let (p4, p5) =
        <+>-nil (ok policies.0)
          (contract_errors sha256 json_loads matrix values docs release namespace policies.1
            app_version)
          h8 in
      record {
        active = active;
        expected = policies.1;
        active_lem = h1';
        services = services_errors-HasServices matrix values docs release namespace (h2' ∙ p1);
        published = publication_errors-IsMatched matrix values active (h3' ∙ p2);
        workloads = workloads_errors-HasWorkloads docs release active (h4' ∙ p3);
        policies =
            policies_report-HasPolicies matrix values docs release digest policies.1
              (h5' ∙ ap (λ errors. ok (errors, policies.1)) (ok-injective p4));
        contracts = contracts_lem matrix values docs release namespace policies.1 app_version p5;
      }

  -- The matrix is of the known version and carries its own digest, the values configure governed peers
  -- and are those of their profile, and the render meets the contracts.
  pub record IsAccepted (matrix values : Value) (docs : List Value) (release namespace : String)
      (app_version : Value) : Type 0 where
    pub digest : String
    pub version_lem : get matrix "schemaVersion" ≡ ok (str "1.0")
    pub digest_lem : matrix_digest sha256 matrix ≡ ok digest
    pub reviewed : get matrix reviewed_key ≡ ok (str digest)
    pub governed : HasMatrix matrix
    pub peers : HasPeers values namespace
    pub profile :
        value_at values "deploymentProfile" ≡ str "production"
        → IsLedgerSafe values × IsHardened values
    pub rendered : IsRendered matrix values docs release namespace app_version digest

  -- Where `validate` reports nothing, the matrix has schema version 1.0 and states the digest of its
  -- own content; its listeners are complete, distinct and have exact paths, its Service objects are
  -- complete, distinct and internal, and each listener allows exactly the peers that the contracts
  -- grant it and authorizes them; the peers that the values configure have exact positive selectors,
  -- those of the ledger's trusted proxy choose the website in a namespace apart, and there is at most
  -- one for the demo mint, the simulator and the demo reset each, in the namespace that it must have;
  -- values of the production profile are hardened; the rendered Services
  -- and NetworkPolicies are exactly the governed ones, each policy annotated with that digest; the active
  -- listeners and the Service objects publish the same ports, and the workloads have exactly the ports
  -- of the active listeners and none of their host's; the bundle of workload capabilities is there and
  -- the enabled services mount it; the console, the brain, assurance, the ledger and the test of a
  -- bundled Vault meet their contracts where the values enable them, and, the ledger apart, are not
  -- rendered where the values disable them; and no service container sets a variable twice.
  pub validate-IsAccepted :
      (matrix values : Value) (docs : List Value) (release namespace : String) (app_version : Value)
      → validate sha256 json_loads matrix values docs release namespace app_version ≡ ok []
      → IsAccepted matrix values docs release namespace app_version
  unfolding validate
  validate-IsAccepted matrix values docs release namespace app_version h =
      let (version, h1', h1) = >>=-eq-ok (version_errors matrix) _ h in
      let (digest, h2', h2) = >>=-eq-ok (matrix_digest sha256 matrix) _ h1 in
      let (p1, h3) = <+>-nil (ok version) _ h2 in
      let (p2, h4) = <+>-nil (digest_errors matrix digest) _ h3 in
      let (p3, h5) = <+>-nil (matrix_errors matrix) _ h4 in
      let (p4, p5) =
        <+>-nil (values_errors values namespace)
          (render_errors sha256 json_loads matrix values docs release namespace app_version digest)
          h5 in
      let (peers, profile) = values_lem values namespace p4 in
      record {
        digest = digest;
        version_lem = version_of matrix (h1' ∙ p1);
        digest_lem = h2';
        reviewed = digest_of matrix digest p2;
        governed = matrix_lem matrix p3;
        peers = peers;
        profile = λ production. validate_deployment_profile-IsHardened values production profile;
        rendered = render_lem matrix values docs release namespace app_version digest p5;
      }
