-- ===== src/Listener/Profile.antt =====
-- `validate_deployment_profile`: what the evaluation and the production profile demand of the values.
pub mod Production
use clavenar_charts.Base.{ℕ, String, ◌<>◌, Bool, not, ◌&&◌, ◌||◌, List, [], ◌∷◌, ◌++◌}
use clavenar_charts.Base.{nat_eq, ltb, if◌then◌else◌}
use clavenar_charts.Base.Result.{Result, ok, ◌>>=◌}
use clavenar_charts.Value.{Value, str, list, num}
use clavenar_charts.Value.Equality.{py_eq}
use clavenar_charts.Value.Access.{truthy, is_true, is_false, or_else, hashed, len}
use clavenar_charts.Listener.Values.{value_at}
use clavenar_charts.Listener.Peers.{complain}

abbrev pub canonical_spiffe : String
canonical_spiffe = "spiffe://clavenar.local/service/website"

-- The booleans of one document differ.
abbrev pub differ : Bool → Bool → Bool
differ a b = if a then not b else b

-- `value_at(values, "services.ledger.trustedProxySpiffe") or ""`
unfoldable pub trusted_spiffe : Value → Value
trusted_spiffe values = or_else (value_at values "services.ledger.trustedProxySpiffe") (str "")

unfoldable pub require_trusted : Value → Bool
require_trusted values = truthy (value_at values "services.ledger.requireTrustedProxy")

unfoldable pub trusted_peers : Value → Value
trusted_peers values =
    or_else (value_at values "networkPolicy.ledger.trustedProxy.allowedPeers") (list [])

-- The errors of both profiles about the ledger's trusted proxy.
unfoldable pub ledger_profile_errors : Value → Result (List String)
ledger_profile_errors values = do
  let spiffe = trusted_spiffe values
  let required = require_trusted values
  let peers = trusted_peers values
  chosen ← hashed spiffe
  count ← (if differ (truthy peers) required then ok 0 else len peers)
  ok (
      complain (not (py_eq (value_at values "services.ledger.port") (num 8083)))
        "services.ledger.port must remain the governed public port 8083"
      ++ complain (not (py_eq (value_at values "services.ledger.mtlsPort") (num 8183)))
          "services.ledger.mtlsPort must remain the governed mTLS port 8183"
      ++ complain (not (py_eq chosen (str "") || py_eq chosen (str canonical_spiffe)))
          "ledger trusted proxy SPIFFE is not the canonical website URI"
      ++ complain (differ (truthy spiffe) required)
          "ledger trusted proxy SPIFFE and enforcement boolean must be enabled together"
      ++ complain (required && not (truthy (value_at values "tlsBundle.secretName")))
          "ledger trusted proxy enforcement requires workload TLS"
      ++ complain (differ (truthy peers) required || ltb 1 count)
          "ledger trusted proxy enforcement requires exactly one configured peer")

-- `production_checks`: each requirement with whether the values meet it.
unfoldable pub production_checks : Value → ℕ → List (String × Bool)
unfolding trusted_spiffe require_trusted
production_checks values peer_count =
    (
      "operator-managed HIL authentication Secret",
      truthy (value_at values "authSecrets.existingSecretName"),
    )
    ∷ ("networkPolicy.enabled=true", is_true (value_at values "networkPolicy.enabled"))
    ∷ (
      "external workload TLS",
      truthy (value_at values "tlsBundle.secretName")
          && is_false (value_at values "tlsBundle.autoMint"),
    )
    ∷ ("console enabled", is_true (value_at values "services.console.enabled"))
    ∷ ("console operator mTLS", is_true (value_at values "services.console.operatorMtls.enabled"))
    ∷ (
      "console operator auth mode",
      py_eq (value_at values "services.console.auth.mode") (str "operator-mtls"),
    )
    ∷ (
      "public operator trust",
      truthy (value_at values "services.console.operatorMtls.publicTrustSecretName"),
    )
    ∷ ("ledger enabled", is_true (value_at values "services.ledger.enabled"))
    ∷ ("trusted-proxy enforcement", require_trusted values)
    ∷ ("canonical website SPIFFE", py_eq (trusted_spiffe values) (str canonical_spiffe))
    ∷ ("one trusted website selector", nat_eq peer_count 1)
    ∷ []

unfoldable pub failed_checks : List (String × Bool) → List String
failed_checks [] = []
failed_checks ((requirement, passed) ∷ checks) =
    complain (not passed) ("production profile requires " <> requirement) ++ failed_checks checks

unfoldable pub production_errors : Value → Result (List String)
production_errors values = do
  count ← len (trusted_peers values)
  let operator_secret = value_at values "services.console.operatorMtls.publicTrustSecretName"
  ok (
      failed_checks (production_checks values count)
      ++ complain
          (truthy operator_secret && py_eq operator_secret (value_at values "tlsBundle.secretName"))
          "production profile requires separate workload and operator trust Secrets")

unfoldable pub validate_deployment_profile : Value → Result (List String)
validate_deployment_profile values = do
  profile ← hashed (value_at values "deploymentProfile")
  if not (py_eq profile (str "evaluation") || py_eq profile (str "production"))
      then ok ("deploymentProfile must be exactly evaluation or production" ∷ [])
      else (do
        base ← ledger_profile_errors values
        if not (py_eq profile (str "production"))
            then ok base
            else do production ← production_errors values; ok (base ++ production))
