-- ===== src/Listener/Validate.antt =====
-- `validate`: the values and the rendered documents against the matrix. The hexadecimal SHA-256 of a
-- text and the JSON parser (`none` is a `JSONDecodeError`) are parameters.
pub mod Matrix
pub mod Contracts
pub mod Services
pub mod Publications
pub mod Workloads
pub mod Policies
pub mod Positive
pub mod Configured
pub mod Disabled
pub mod Inventory
pub mod Accepted
use clavenar_charts.Base.{String, Bool, Option, List, [], ◌∷◌, ◌++◌}
use clavenar_charts.Base.Result.{Result, ok, ◌>>=◌, keep_if}
use clavenar_charts.Value.{Value, dict, Fields, end}
use clavenar_charts.Value.Access.{get_or}
use clavenar_charts.Listener.Errors.{◌<+>◌}
use clavenar_charts.Listener.Condition.{contract_enabled}
use clavenar_charts.Listener.Peers.{
  validate_exact_positive_peers, validate_ledger_trusted_proxy_peer, validate_nats_demo_mint_peer,
  validate_simulator_peer, validate_demo_reset_peer,
}
use clavenar_charts.Listener.Profile.{validate_deployment_profile}
use clavenar_charts.Listener.Vault.{validate_vault_test_hook}
use clavenar_charts.Listener.Console.{validate_console_contract}
use clavenar_charts.Listener.Brain.{validate_brain_auxiliary_contract}
use clavenar_charts.Listener.Assurance.{validate_assurance_contract}
use clavenar_charts.Listener.Capabilities.{validate_workload_capability_contract}
use clavenar_charts.Listener.Ledger.{validate_ledger_trusted_proxy_contract}
use clavenar_charts.Listener.Environments.{validate_service_env_uniqueness}
use clavenar_charts.Listener.Digest.{matrix_digest}
use clavenar_charts.Listener.Validate.Matrix.{
  entries_of, version_errors, digest_errors, listeners_errors, objects_errors,
}
use clavenar_charts.Listener.Validate.Contracts.{peer_contract_errors}
use clavenar_charts.Listener.Validate.Services.{services_errors}
use clavenar_charts.Listener.Validate.Publications.{publication_errors}
use clavenar_charts.Listener.Validate.Workloads.{workloads_errors}
use clavenar_charts.Listener.Validate.Policies.{policies_report}

-- The errors about the matrix alone, after those about its version and its digest.
unfoldable pub matrix_errors : Value → Result (List String)
matrix_errors matrix = do
  ownership ← get_or matrix "ownership" (dict end)
  listeners ← entries_of matrix "listeners"
  errors ← listeners_errors ownership 0 [] listeners
  objects ← entries_of matrix "serviceObjects"
  object_errors ← objects_errors 0 [] objects
  contracts ← entries_of matrix "networkPolicies"
  ok errors <+> ok object_errors <+> peer_contract_errors ownership listeners contracts

-- The paths of the configured peers.
abbrev pub peer_paths : List String
peer_paths =
    "networkPolicy.console.operatorMtls.allowedPeers" ∷ "networkPolicy.console.passkey.allowedPeers"
    ∷ "networkPolicy.console.demo.allowedPeers" ∷ "networkPolicy.ledger.trustedProxy.allowedPeers"
    ∷ "networkPolicy.nats.demoMint.allowedPeers" ∷ "networkPolicy.simulator.allowedPeers"
    ∷ "networkPolicy.demoReset.allowedPeers" ∷ []

-- The errors about the values alone.
unfoldable pub values_errors : Value → String → Result (List String)
values_errors values namespace =
    validate_exact_positive_peers values peer_paths
    <+> validate_ledger_trusted_proxy_peer values namespace
    <+> validate_nats_demo_mint_peer values namespace
    <+> validate_simulator_peer values namespace
    <+> validate_demo_reset_peer values
    <+> validate_deployment_profile values

-- The listeners whose conditions the values meet.
unfoldable pub active_listeners : Value → Value → Result (List Value)
active_listeners matrix values = do
  listeners ← entries_of matrix "listeners"
  keep_if (λ listener. contract_enabled listener values) listeners

module _ (sha256 : String → String) (json_loads : String → Option Value) where
  -- The validators of single services, where `expected` are the governed policies.
  unfoldable pub contract_errors :
      Value → Value → List Value → String → String → Fields → Value → Result (List String)
  contract_errors matrix values docs release namespace expected app_version =
      validate_vault_test_hook matrix values docs release namespace expected
      <+> validate_console_contract values docs release app_version
      <+> validate_brain_auxiliary_contract values docs release
      <+> validate_assurance_contract values docs release
      <+> validate_workload_capability_contract sha256 json_loads values docs release
      <+> validate_ledger_trusted_proxy_contract values docs release
      <+> validate_service_env_uniqueness docs release

  -- The errors about the render.
  unfoldable pub render_errors :
      Value → Value → List Value → String → String → Value → String → Result (List String)
  unfolding contract_errors
  render_errors matrix values docs release namespace app_version digest = do
    active ← active_listeners matrix values
    services ← services_errors matrix values docs release namespace
    published ← publication_errors matrix values active
    workloads ← workloads_errors docs release active
    (policies, expected) ← policies_report matrix values docs release digest
    ok services
        <+> ok published
        <+> ok workloads
        <+> ok policies
        <+> contract_errors matrix values docs release namespace expected app_version

  -- `app_version` is `None` where no chart version is given.
  unfoldable pub validate :
      Value → Value → List Value → String → String → Value → Result (List String)
  unfolding render_errors
  validate matrix values docs release namespace app_version = do
    version ← version_errors matrix
    digest ← matrix_digest sha256 matrix
    ok version
        <+> digest_errors matrix digest
        <+> matrix_errors matrix
        <+> values_errors values namespace
        <+> render_errors matrix values docs release namespace app_version digest
