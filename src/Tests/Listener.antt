-- ===== src/Tests/Listener.antt =====
-- `check-listener-matrix.py` on small values and a small matrix.
use clavenar_charts.Base.{
  arith, String, ◌<>◌, ◌≡◌, refl, ◌⊎◌, true, false, none, some, List, [], ◌∷◌,
}
use clavenar_charts.Base.Lists.{all}
use clavenar_charts.Base.Result.{ok}
use clavenar_charts.Value.{Value, str, bool, dict, Fields, end, list, num, ◌▸◌, texts}
use clavenar_charts.Value.Dict.{insert, erase, lookup, or_null, NodupKeys}
use clavenar_charts.Value.Equality.{py_eq}
use clavenar_charts.Value.Number.{to_int}
use clavenar_charts.Value.Print.{text_of}
use clavenar_charts.Value.Sort.{sort_by}
use clavenar_charts.Listener.Values.{walk, value_at, merge}
use clavenar_charts.Listener.Values.Merge.{
  IsWellFormed, mentions, value_at-merge_set, value_at-merge_unmentioned,
}
use clavenar_charts.Listener.Condition.{
  term_enabled, text_enabled, condition_enabled, contract_enabled,
}
use clavenar_charts.Listener.Condition.Terms.{text_enabled-join}
use clavenar_charts.Listener.Selectors.{
  selector, peer, workload_selector, rule, labels_match, pod_selector_matches, name_label,
  namespace_label,
}
use clavenar_charts.Listener.Format.{argument, format_from, format}
use clavenar_charts.Listener.Services.{
  tls_enabled, with_app_protocol, governed_port, keyed_port, drop_keys, sort_ports, service_ports,
  service_selector, publishes_not_ready, service_spec, add_service, add_services, expected_services,
}
use clavenar_charts.Listener.Services.Inventory.{enabled_count, expected_services_inventory}
use clavenar_charts.Listener.Services.Ports.{governed_port_lem}
use clavenar_charts.Listener.Policies.{
  configured_path, token_peers, rule_sources, listener_at, ingress_rule,
}
use clavenar_charts.Listener.Policies.Ingress.{IsGoverned, ingress_rule-IsGoverned}
use clavenar_charts.Listener.Peers.{
  each_indexed, labels_of, selector_labels, dict_or_empty, names_app, chosen_namespace,
  prometheus_namespace, namespace_value_errors, foreign_peer, peer_requirements, local_peer,
  validate_nats_demo_mint_peer, validate_simulator_peer, validate_demo_reset_peer,
}
use clavenar_charts.Listener.Peers.Foreign.{
  Single, AcceptsForeign, AcceptsLocal, validate_simulator_peer_iff,
  validate_nats_demo_mint_peer_iff, validate_demo_reset_peer_iff,
}
use clavenar_charts.Listener.Peers.Selection.{names_app-selects}
use clavenar_charts.Listener.Profile.{
  trusted_spiffe, require_trusted, trusted_peers, ledger_profile_errors, production_checks,
  failed_checks, production_errors, validate_deployment_profile,
}
use clavenar_charts.Listener.Profile.Production.{
  IsLedgerSafe, IsHardened, validate_deployment_profile-IsHardened,
}

-- A peer in the namespace `demo`.
abbrev foreign : String → Value
foreign app = dict (
    ("podSelector", dict (("matchLabels", dict ((name_label, str app) ▸ end)) ▸ end))
    ▸ (
      "namespaceSelector",
      dict (("matchLabels", dict ((namespace_label, str "demo") ▸ end)) ▸ end),
    )
    ▸ end)

abbrev local : Value
local = dict (
    (
      "podSelector",
      dict (("matchLabels", dict ((name_label, str "clavenar-demo-reset") ▸ end)) ▸ end),
    )
    ▸ end)

abbrev allowed : List Value → Value
allowed peers = dict (("allowedPeers", list peers) ▸ end)

-- Values of the production profile, with a peer of every kind.
abbrev production : Value
production = dict (
    ("deploymentProfile", str "production")
    ▸ ("authSecrets", dict (("existingSecretName", str "hil") ▸ end))
    ▸ ("tlsBundle", dict (("secretName", str "workload") ▸ ("autoMint", bool false) ▸ end))
    ▸ ("nats", dict (("bundled", dict (("enabled", bool true) ▸ end)) ▸ end))
    ▸ (
      "services",
      dict (
          (
            "console",
            dict (
                ("enabled", bool true)
                ▸ ("auth", dict (("mode", str "operator-mtls") ▸ end))
                ▸ (
                  "operatorMtls",
                  dict (("enabled", bool true) ▸ ("publicTrustSecretName", str "operators") ▸ end),
                )
                ▸ end),
          )
          ▸ (
            "ledger",
            dict (
                ("enabled", bool true)
                ▸ ("port", num 8083)
                ▸ ("mtlsPort", num 8183)
                ▸ ("requireTrustedProxy", bool true)
                ▸ ("trustedProxySpiffe", str "spiffe://clavenar.local/service/website")
                ▸ end),
          )
          ▸ end),
    )
    ▸ (
      "networkPolicy",
      dict (
          ("enabled", bool true)
          ▸ ("prometheusNamespaceLabel", str "monitoring")
          ▸ ("simulator", allowed (foreign "clavenar-simulator" ∷ []))
          ▸ ("nats", dict (("demoMint", allowed (foreign "clavenar-demo-mint" ∷ [])) ▸ end))
          ▸ ("demoReset", allowed (local ∷ []))
          ▸ ("ledger", dict (("trustedProxy", allowed (foreign "clavenar-website" ∷ [])) ▸ end))
          ▸ end),
    )
    ▸ end)

profile_run : validate_deployment_profile production ≡ ok []
unfolding validate_deployment_profile ledger_profile_errors production_errors production_checks
    failed_checks trusted_spiffe require_trusted trusted_peers value_at walk py_eq
profile_run = refl

validate_deployment_profile-IsHardened_example : IsLedgerSafe production × IsHardened production
unfolding value_at walk
validate_deployment_profile-IsHardened_example =
    validate_deployment_profile-IsHardened production refl profile_run

abbrev IsPeer : String → String → String → Value → Type 0
IsPeer app first second p =
    Single (AcceptsForeign app "clavenar" (prometheus_namespace production))
      (value_at production first) (value_at production second) (p ∷ [])

validate_simulator_peer_iff_example :
    IsPeer "clavenar-simulator" "networkPolicy.enabled" "tlsBundle.secretName"
      (foreign "clavenar-simulator")
unfolding value_at walk validate_simulator_peer peer_requirements each_indexed foreign_peer
    namespace_value_errors names_app chosen_namespace labels_of selector_labels dict_or_empty py_eq
validate_simulator_peer_iff_example =
    (validate_simulator_peer_iff production "clavenar" refl).0 refl

validate_nats_demo_mint_peer_iff_example :
    IsPeer "clavenar-demo-mint" "networkPolicy.enabled" "nats.bundled.enabled"
      (foreign "clavenar-demo-mint")
unfolding value_at walk validate_nats_demo_mint_peer peer_requirements each_indexed foreign_peer
    namespace_value_errors names_app chosen_namespace labels_of selector_labels dict_or_empty py_eq
validate_nats_demo_mint_peer_iff_example =
    (validate_nats_demo_mint_peer_iff production "clavenar" refl).0 refl

validate_demo_reset_peer_iff_example :
    Single
      (AcceptsLocal "clavenar-demo-reset")
      (value_at production "networkPolicy.enabled")
      (value_at production "tlsBundle.secretName")
      (local ∷ [])
unfolding value_at walk validate_demo_reset_peer peer_requirements each_indexed local_peer names_app
    labels_of selector_labels dict_or_empty py_eq
validate_demo_reset_peer_iff_example = (validate_demo_reset_peer_iff production refl).0 refl

-- Two peers are one too many.
two_peers_run :
    peer_requirements production "p" [] (local ∷ local ∷ [])
    ≡ "p accepts at most one exact selector" ∷ []
unfolding peer_requirements
two_peers_run = refl

abbrev overlay : Value
overlay = dict (("tlsBundle", dict (("secretName", str "other") ▸ end)) ▸ end)

value_at-merge_set_example :
    value_at (merge production overlay) "tlsBundle.secretName" ≡ str "other"
unfolding value_at walk IsWellFormed
value_at-merge_set_example =
    value_at-merge_set production overlay (str "other") "tlsBundle.secretName"
      ((tt, refl, tt), refl, tt) refl (λ e. cc) refl

value_at-merge_unmentioned_example :
    value_at (merge production overlay) "tlsBundle.autoMint"
    ≡ value_at production "tlsBundle.autoMint"
unfolding mentions IsWellFormed
value_at-merge_unmentioned_example =
    value_at-merge_unmentioned production overlay "tlsBundle.autoMint" ((tt, refl, tt), refl, tt)
      refl

text_enabled-join_example :
    text_enabled "tlsBundle.secretName and services.ledger.enabled" production
    ≡ all (term_enabled production) ("tlsBundle.secretName" ∷ "services.ledger.enabled" ∷ [])
text_enabled-join_example =
    text_enabled-join production "tlsBundle.secretName" ("services.ledger.enabled" ∷ [])
      (ground arith)

abbrev object : String → String → Value
object id condition = dict (
    ("id", str id)
    ▸ ("name", str ("{release}-" <> id))
    ▸ ("type", str "ClusterIP")
    ▸ ("enabledWhen", str condition)
    ▸ ("selectorOwner", str id)
    ▸ (
      "ports",
      list (
          dict (("port", num 8183) ▸ ("name", str "mtls") ▸ end)
          ∷ dict (("port", num 8083) ▸ ("name", str "http") ▸ end)
          ∷ []),
    )
    ▸ end)

abbrev objects : List Value
objects = object "ledger" "services.ledger.enabled" ∷ object "brain" "services.brain.enabled" ∷ []

abbrev matrix : Value
matrix = dict (("serviceObjects", list objects) ▸ end)

abbrev ledger_spec : Value
ledger_spec = dict (
    ("type", str "ClusterIP")
    ▸ (
      "ports",
      list (
          dict (("port", num 8083) ▸ ("name", str "http") ▸ ("protocol", str "TCP") ▸ end)
          ∷ dict (("port", num 8183) ▸ ("name", str "mtls") ▸ ("protocol", str "TCP") ▸ end)
          ∷ []),
    )
    ▸ (
      "selector",
      dict (
          (name_label, str "clavenar")
          ▸ ("app.kubernetes.io/instance", str "smoke")
          ▸ ("app.kubernetes.io/component", str "ledger")
          ▸ end),
    )
    ▸ end)

services_run :
    expected_services matrix production "smoke" "clavenar"
    ≡ ok (("smoke-ledger", ledger_spec) ▸ end)
unfolding expected_services add_services add_service service_spec publishes_not_ready
    service_selector service_ports sort_ports keyed_port drop_keys governed_port with_app_protocol
    tls_enabled condition_enabled contract_enabled text_enabled term_enabled value_at walk format
    format_from argument selector workload_selector sort_by insert erase to_int py_eq text_of
services_run = refl

expected_services_inventory_example :
    NodupKeys (("smoke-ledger", ledger_spec) ▸ end) × (1 ≡ enabled_count production objects)
expected_services_inventory_example =
    expected_services_inventory matrix production "smoke" "clavenar" refl refl services_run

abbrev tls_port : Fields
tls_port =
    ("name", str "nats")
    ▸ ("port", num 4222)
    ▸ ("appProtocol", str "tlsWhenTlsElseTcp")
    ▸ ("enabledWhen", str "nats.bundled.enabled")
    ▸ end

governed_port_lem_example :
    (lookup "enabledWhen" (governed_port true tls_port) ≡ none)
    × (lookup "disabledWhen" (governed_port true tls_port) ≡ none)
    × (lookup "protocol" (governed_port true tls_port) ≡ some (str "TCP"))
    × (lookup "appProtocol" (governed_port true tls_port) ≡ some (str "tls"))
    × (lookup "port" (governed_port true tls_port) ≡ some (num 4222))
    × (lookup "name" (governed_port true tls_port) ≡ some (str "nats"))
unfolding py_eq
governed_port_lem_example = governed_port_lem true tls_port

abbrev simulator_selector : Fields
simulator_selector = ("matchLabels", dict ((name_label, str "clavenar-simulator") ▸ end)) ▸ end

abbrev simulator_labels : Fields
simulator_labels = ("tier", str "demo") ▸ (name_label, str "clavenar-simulator") ▸ end

names_app-selects_example : or_null (lookup name_label simulator_labels) ≡ str "clavenar-simulator"
unfolding names_app labels_of selector_labels dict_or_empty pod_selector_matches labels_match py_eq
names_app-selects_example =
    names_app-selects "clavenar-simulator" (("podSelector", dict simulator_selector) ▸ end)
      simulator_selector simulator_labels refl refl refl

-- The ledger's listener, and a rule that opens it to the proxy.
abbrev listeners : List ((Value × Value) × Value)
listeners = ((str "ledger", str "api"), dict (("containerPort", num 8083) ▸ end)) ∷ []

abbrev governed : Value
governed = dict (("listenerId", str "api") ▸ ("peers", list (texts ("proxy" ∷ []))) ▸ end)

abbrev proxy_rule : Value
proxy_rule = dict (
    ("ports", list (dict (("protocol", str "TCP") ▸ ("port", num 8083) ▸ end) ∷ []))
    ▸ (
      "from",
      list (
          dict (
            (
              "podSelector",
              dict (
                  (
                    "matchLabels",
                    dict (
                        (name_label, str "clavenar")
                        ▸ ("app.kubernetes.io/instance", str "smoke")
                        ▸ ("app.kubernetes.io/component", str "proxy")
                        ▸ end),
                  )
                  ▸ end),
            )
            ▸ end)
          ∷ []),
    )
    ▸ end)

ingress_run :
    ingress_rule matrix production "smoke" (str "ledger") listeners governed ≡ ok (proxy_rule ∷ [])
unfolding ingress_rule contract_enabled listener_at rule_sources token_peers configured_path peer
    selector rule to_int value_at walk py_eq
ingress_run = refl

ingress_rule-IsGoverned_example :
    ((contract_enabled governed production ≡ ok false) × (proxy_rule ∷ [] ≡ []))
    ⊎ ((contract_enabled governed production ≡ ok true)
        × ((built : Value) × (proxy_rule ∷ [] ≡ built ∷ [])
            × IsGoverned matrix production "smoke" listeners (str "ledger") governed built))
ingress_rule-IsGoverned_example =
    ingress_rule-IsGoverned matrix production "smoke" (str "ledger") listeners governed ingress_run
