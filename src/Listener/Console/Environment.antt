-- ===== src/Listener/Console/Environment.antt =====
-- The governed environment of the console.
use clavenar_charts.Base.{ℕ, String, ◌<>◌, not, ◌&&◌, List, [], ◌∷◌, nat_eq, if◌then◌else◌}
use clavenar_charts.Base.Lists.{length, is_empty, filter}
use clavenar_charts.Base.Text.{join, strip}
use clavenar_charts.Base.Result.{Result, ok, ◌>>=◌, traverse}
use clavenar_charts.Value.{Value, null, str, Fields, end, list, ◌▸◌, texts}
use clavenar_charts.Value.Dict.{insert}
use clavenar_charts.Value.Equality.{py_eq, member}
use clavenar_charts.Value.Access.{truthy, each, or_else, is_null}
use clavenar_charts.Value.Print.{text_of, decimal}
use clavenar_charts.Value.Sort.{sort_texts}
use clavenar_charts.Listener.Values.{value_at}
use clavenar_charts.Listener.Environments.{occurrences}
use clavenar_charts.Listener.Errors.{refuse, ◌<+>◌}
use clavenar_charts.Listener.Ledger.{values_named}
use clavenar_charts.Listener.Workload.{env_entries, env_names, not_once, drift_errors}
use clavenar_charts.Listener.Workload.Tls.{joinable}
use clavenar_charts.Listener.Assurance.{value_text}
use clavenar_charts.Listener.Brain.{brain_host}

-- `governed_names`
abbrev pub console_names : List String
console_names =
    "CLAVENAR_CONSOLE_AUTH" ∷ "CLAVENAR_CONSOLE_COOKIE_SECURE" ∷ "CLAVENAR_CONSOLE_BIND"
    ∷ "CLAVENAR_CONSOLE_PORT" ∷ "CLAVENAR_CONSOLE_DEMO_ADDR" ∷ "CLAVENAR_CONSOLE_DIAGNOSTICS_ADDR"
    ∷ "CLAVENAR_CONSOLE_OPERATOR_TLS_CERT_PATH" ∷ "CLAVENAR_CONSOLE_OPERATOR_TLS_KEY_PATH"
    ∷ "CLAVENAR_CONSOLE_OPERATOR_CLIENT_CA_PATH" ∷ "CLAVENAR_CONSOLE_OPERATOR_IDENTITIES_PATH"
    ∷ "CLAVENAR_CONSOLE_AUTH_RATE_LIMIT_MAX" ∷ "CLAVENAR_CONSOLE_AUTH_RATE_LIMIT_WINDOW_SECS"
    ∷ "CLAVENAR_CONSOLE_RELEASE_VERSION" ∷ "CLAVENAR_CONSOLE_MUTATION_ORIGINS"
    ∷ "CLAVENAR_ASSURANCE_URL" ∷ "CLAVENAR_CONSOLE_BRAIN_URL" ∷ "CLAVENAR_CONSOLE_TLS_DIR" ∷ []

-- The release version that the console must carry; without a configured one and a chart version it
-- is the one that it carries.
unfoldable pub expected_release : Value → Value → List Value → Value
expected_release values app_version release_values =
    if truthy (value_at values "stackRelease")
    then str (strip (text_of (value_at values "stackRelease")))
    else if not (is_null app_version)
    then str (text_of app_version)
    else elim release_values [ [] ↦ null | value ∷ rest ↦ if is_empty rest then value else null ]

-- The variables in every mode.
unfoldable pub console_base_env : Value → String → Value → List Value → Fields
console_base_env values release app_version release_values =
    ("CLAVENAR_CONSOLE_AUTH", value_at values "services.console.auth.mode")
    ▸ ("CLAVENAR_CONSOLE_BIND", str "0.0.0.0")
    ▸ ("CLAVENAR_CONSOLE_PORT", str "8085")
    ▸ ("CLAVENAR_CONSOLE_DIAGNOSTICS_ADDR", str "0.0.0.0:9185")
    ▸ ("CLAVENAR_CONSOLE_AUTH_RATE_LIMIT_MAX", str "10")
    ▸ ("CLAVENAR_CONSOLE_AUTH_RATE_LIMIT_WINDOW_SECS", str "60")
    ▸ ("CLAVENAR_CONSOLE_BRAIN_URL", str ("https://" <> brain_host values release <> ":8081"))
    ▸ ("CLAVENAR_CONSOLE_RELEASE_VERSION", expected_release values app_version release_values)
    ▸ end

-- With the variable of the passkey mode.
unfoldable pub with_cookie : Value → Fields → Fields
unfolding insert
with_cookie values env =
    if py_eq (value_at values "services.console.auth.mode") (str "webauthn")
    then insert "CLAVENAR_CONSOLE_COOKIE_SECURE" (str "false") env
    else env

-- The URL of assurance, where there is one to call.
unfoldable pub with_assurance : Value → String → Fields → Fields
unfolding insert
with_assurance values release env =
    if truthy (value_at values "services.assurance.enabled")
      && truthy (value_at values "tlsBundle.secretName")
    then insert "CLAVENAR_ASSURANCE_URL"
        (str (
          if truthy (value_at values "workloadIdentity.enabled")
          then "https://assurance:8088"
          else "https://" <> release <> "-assurance:8088"))
        env
    else env

-- With the variables of the modes that can change something.
unfoldable pub with_origins : Value → String → Fields → Result Fields
unfolding insert
with_origins values release env =
    if py_eq (value_at values "services.console.auth.mode") (str "demo-only") then ok env else (do
      origins ← each (or_else (value_at values "services.console.mutationOrigins") (list []))
      lines ← traverse joinable origins
      ok (
          with_assurance values release
            (insert "CLAVENAR_CONSOLE_MUTATION_ORIGINS" (str (join "," lines)) env)))

-- With the variables of operator mTLS, and of the demo beside it.
unfoldable pub with_operators : Value → Fields → Fields
unfolding insert
with_operators values env =
    if truthy (value_at values "services.console.operatorMtls.enabled")
    then (let trusted =
          insert "CLAVENAR_CONSOLE_OPERATOR_IDENTITIES_PATH" (str "/operator-trust/operators.json")
            (insert "CLAVENAR_CONSOLE_OPERATOR_CLIENT_CA_PATH" (str "/operator-trust/ca.crt") (
              insert "CLAVENAR_CONSOLE_OPERATOR_TLS_KEY_PATH" (str "/certs/service-console.key") (
                insert "CLAVENAR_CONSOLE_OPERATOR_TLS_CERT_PATH" (str "/certs/service-console.crt")
                  env))) in
        if truthy (value_at values "services.console.demo.enabled")
        then insert "CLAVENAR_CONSOLE_DEMO_ADDR" (str "0.0.0.0:9085") trusted
        else trusted)
    else env

unfoldable pub with_tls_dir : Value → Fields → Fields
unfolding insert
with_tls_dir values env =
    if truthy (value_at values "tlsBundle.secretName")
    then insert "CLAVENAR_CONSOLE_TLS_DIR" (value_text values "tlsBundle.mountPath") env
    else env

-- `expected_env`
unfoldable pub console_env : Value → String → Value → List Value → Result Fields
console_env values release app_version release_values = do
  let base = console_base_env values release app_version release_values
  changing ← with_origins values release (with_cookie values base)
  ok (with_tls_dir values (with_operators values changing))

-- The governed names that occur, but not once, in order.
unfoldable pub repeated_names : List Value → List String
repeated_names names =
    sort_texts (filter (λ name. member names (str name)) (not_once names console_names))

-- How often the console carries the bearer of operator decisions.
unfoldable pub bearer_errors : Value → List Value → Result (List String)
bearer_errors values names =
    let actual = occurrences names (str "CLAVENAR_HIL_DECIDE_TOKEN") in
    let expected : ℕ =
      if truthy (value_at values "services.console.operatorMtls.enabled") then 1 else 0 in
    refuse (not (nat_eq actual expected)) (
      "console HIL operator decision bearer projection does not match operator mTLS: actual="
      <> decimal actual
      <> " expected="
      <> decimal expected)

unfoldable pub console_env_errors : Value → String → Value → Value → Result (List String)
console_env_errors values release app_version container = do
  entries ← env_entries container
  names ← env_names entries
  release_values ← values_named "CLAVENAR_CONSOLE_RELEASE_VERSION" entries
  expected ← console_env values release app_version release_values
  refuse (not (is_empty (repeated_names names))) (
        "console has duplicate governed env entries: "
        <> text_of (list (texts (repeated_names names))))
      <+> refuse (not (nat_eq (length release_values) 1))
          "console must carry exactly one chart-governed CLAVENAR_CONSOLE_RELEASE_VERSION entry"
      <+> drift_errors "console governed env does not exactly match listener/trust values: "
          console_names expected entries
      <+> bearer_errors values names
