-- ===== src/Tests/Ledger.antt =====
-- The validators of rendered documents of `check-listener-matrix.py` on a render of the ledger.
use clavenar_charts.Base.{ℕ, String, ◌≡◌, refl, true, List, [], ◌∷◌}
use clavenar_charts.Base.Result.{ok}
use clavenar_charts.Value.{Value, str, bool, dict, end, list, num, ◌▸◌}
use clavenar_charts.Value.Equality.{py_eq, set_of}
use clavenar_charts.Value.Sort.{sort_by}
use clavenar_charts.Value.Print.{text_of}
use clavenar_charts.Listener.Values.{value_at, walk}
use clavenar_charts.Listener.Profile.{trusted_spiffe, require_trusted, trusted_peers}
use clavenar_charts.Listener.Environments.{
  entry_names, occurrences, duplicates_of, container_errors, containers_of, deployment_errors,
  validate_service_env_uniqueness,
}
use clavenar_charts.Listener.Environments.Unique.{
  Every, IsClean, validate_service_env_uniqueness_sound,
}
use clavenar_charts.Listener.Rendered.{is_document, has_name}
use clavenar_charts.Listener.Ledger.{
  values_named, is_exact_rule, admits_any, leak_errors, rule_errors, peer_errors, expected_require,
  expected_spiffe, ledger_container_errors, ledger_containers_of, ledger_errors,
  validate_ledger_trusted_proxy_contract,
}
use clavenar_charts.Listener.Ledger.Governed.{
  IsGoverned, validate_ledger_trusted_proxy_contract-IsGoverned,
}

abbrev website : Value
website = dict (
    (
      "podSelector",
      dict (("matchLabels", dict (("app.kubernetes.io/name", str "clavenar-website") ▸ end)) ▸ end),
    )
    ▸ end)

abbrev spiffe : String
spiffe = "spiffe://clavenar.local/service/website"

abbrev values : Value
values = dict (
    (
      "services",
      dict (
          (
            "ledger",
            dict (
                ("enabled", bool true)
                ▸ ("requireTrustedProxy", bool true)
                ▸ ("trustedProxySpiffe", str spiffe)
                ▸ end),
          )
          ▸ end),
    )
    ▸ (
      "networkPolicy",
      dict (
          (
            "ledger",
            dict (("trustedProxy", dict (("allowedPeers", list (website ∷ [])) ▸ end)) ▸ end),
          )
          ▸ end),
    )
    ▸ end)

abbrev variable : String → String → Value
variable name value = dict (("name", str name) ▸ ("value", str value) ▸ end)

abbrev document : String → Value → Value
document kind spec = dict (
    ("kind", str kind)
    ▸ ("metadata", dict (("name", str "smoke-ledger") ▸ end))
    ▸ ("spec", spec)
    ▸ end)

-- A Deployment of the ledger with these variables.
abbrev ledger : List Value → Value
ledger entries = document "Deployment" (
    dict (
      (
        "template",
        dict (
            (
              "spec",
              dict (
                  (
                    "containers",
                    list (dict (("name", str "ledger") ▸ ("env", list entries) ▸ end) ∷ []),
                  )
                  ▸ end),
            )
            ▸ end),
      )
      ▸ end))

abbrev rule : Value → ℕ → Value
rule source port = dict (
    ("from", list (source ∷ []))
    ▸ ("ports", list (dict (("protocol", str "TCP") ▸ ("port", num port) ▸ end) ∷ []))
    ▸ end)

abbrev proxy : Value
proxy = dict (("podSelector", dict end) ▸ end)

abbrev docs : List Value
docs =
    ledger (
      variable "CLAVENAR_LEDGER_REQUIRE_TRUSTED_PROXY" "true"
      ∷ variable "CLAVENAR_LEDGER_TRUSTED_PROXY_SPIFFE" spiffe
      ∷ [])
    ∷ document "NetworkPolicy"
        (dict (("ingress", list (rule proxy 8083 ∷ rule website 8183 ∷ [])) ▸ end))
    ∷ []

ledger_run : validate_ledger_trusted_proxy_contract values docs "smoke" ≡ ok []
unfolding validate_ledger_trusted_proxy_contract ledger_errors ledger_containers_of
    ledger_container_errors expected_spiffe expected_require peer_errors rule_errors leak_errors
    admits_any is_exact_rule values_named has_name is_document trusted_spiffe require_trusted
    trusted_peers value_at walk py_eq
ledger_run = refl

validate_ledger_trusted_proxy_contract-IsGoverned_example : IsGoverned values docs "smoke"
unfolding value_at walk
validate_ledger_trusted_proxy_contract-IsGoverned_example =
    validate_ledger_trusted_proxy_contract-IsGoverned values docs "smoke" refl ledger_run

unique_run : validate_service_env_uniqueness docs "smoke" ≡ ok []
unfolding validate_service_env_uniqueness deployment_errors containers_of container_errors
    duplicates_of occurrences entry_names sort_by set_of py_eq
unique_run = refl

validate_service_env_uniqueness_sound_example : Every (IsClean "smoke") docs
validate_service_env_uniqueness_sound_example =
    validate_service_env_uniqueness_sound docs "smoke" unique_run

-- A variable that is set twice is reported.
repeated_run :
    validate_service_env_uniqueness (ledger (variable "A" "1" ∷ variable "A" "2" ∷ []) ∷ []) "smoke"
    ≡ ok ("Deployment smoke-ledger container ledger has duplicate environment variables ['A']" ∷ [])
unfolding validate_service_env_uniqueness deployment_errors containers_of container_errors
    duplicates_of occurrences entry_names sort_by set_of py_eq text_of
repeated_run = refl
