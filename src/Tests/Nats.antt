-- ===== src/Tests/Nats.antt =====
-- `check-nats-authorization.py` on a small contract, and on a repository that it accepts.
use clavenar_charts.Base.{String, ◌<>◌, ◌≡◌, refl, true, List, [], ◌∷◌, some, none}
use clavenar_charts.Base.Result.{Result, ok}
use clavenar_charts.Value.{Value, str, bool, dict, end, list, num, ◌▸◌, texts}
use clavenar_charts.Value.Dict.{insert}
use clavenar_charts.Value.Equality.{set_of, py_eq}
use clavenar_charts.Value.Print.{text_of}
use clavenar_charts.Value.Sort.{sort_by}
use clavenar_charts.Value.Table.{at, table_by}
use clavenar_charts.Nats.Permissions.{
  manager_grants, from_consumer, publisher_grants, subscriber_grants, managed_grants, from_subject,
  published, subscribed, client_of, grants_of, permissions, user_of, expected_authorization,
}
use clavenar_charts.Nats.Permissions.Streams.Grants.{is_update}
use clavenar_charts.Nats.Permissions.Streams.{Manages, AnyOf, permissions-update}
use clavenar_charts.Nats.Documents.{
  fail_if, is_named, document_named, require_document, authorization_from_nats_config,
}
use clavenar_charts.Nats.Repository.{
  Repository, rendered, same_values, bytes_eq, render, check_mirrors, is_persistent, check_values,
  check_config, check_stateful_set, peer_component, is_broker_rule, admits_chart_clients,
  has_sources, leaks, check_ingress, env_value, check_deployment, deployments_of, clients_of,
  check_network, check_clients, check_documents, check_repository,
}
use clavenar_charts.Nats.Repository.Gate.{IsAccepted, check_repository_sound}

abbrev audit_subject : Value
audit_subject = dict (
    ("subject", str "clavenar.audit")
    ▸ ("stream", str "AUDIT")
    ▸ ("streamManager", str "ledger")
    ▸ ("publishers", list (texts ("proxy" ∷ [])))
    ▸ ("subscribers", list (texts ("ledger" ∷ [])))
    ▸ ("durableConsumers", list [])
    ▸ end)

abbrev pub contract : Value
contract = dict (
    ("contract", str "clavenar.nats-authorization/v1")
    ▸ (
      "clients",
      list (
          dict (
            ("service", str "ledger")
            ▸ ("dnsSan", str "service-ledger")
            ▸ ("inboxPrefix", str "_INBOX.clavenar.ledger")
            ▸ end)
          ∷ []),
    )
    ▸ ("subjects", list (audit_subject ∷ []))
    ▸ ("kvBuckets", list [])
    ▸ end)

abbrev ledger_publishes : List String
ledger_publishes =
    "$JS.API.STREAM.CREATE.AUDIT" ∷ "$JS.API.STREAM.INFO.AUDIT" ∷ "$JS.API.STREAM.UPDATE.AUDIT" ∷ []

abbrev ledger_subscribes : List String
ledger_subscribes = "_INBOX.clavenar.ledger.>" ∷ "clavenar.audit" ∷ []

abbrev allow : List String → Value
allow subjects = dict (("allow", list (texts subjects)) ▸ end)

abbrev pub authorization : Value
authorization = dict (
    ("timeout", num 2)
    ▸ (
      "users",
      list (
          dict (
            ("user", str "service-ledger")
            ▸ (
              "permissions",
              dict (
                  ("publish", allow ledger_publishes)
                  ▸ ("subscribe", allow ledger_subscribes)
                  ▸ end),
            )
            ▸ end)
          ∷ []),
    )
    ▸ end)

ledger_publications : List Value
ledger_publications = texts (
    "$JS.API.STREAM.INFO.AUDIT" ∷ "$JS.API.STREAM.CREATE.AUDIT" ∷ "$JS.API.STREAM.UPDATE.AUDIT"
    ∷ [])

permissions_run :
    permissions contract (str "ledger") ≡ ok (ledger_publications, texts ledger_subscribes)
unfolding ledger_publications permissions grants_of client_of from_subject managed_grants
    manager_grants publisher_grants subscriber_grants from_consumer set_of published subscribed
    py_eq text_of
permissions_run = refl

permissions-update_example : AnyOf (Manages (str "ledger")) (audit_subject ∷ [])
unfolding is_update ledger_publications
permissions-update_example =
    permissions-update contract (str "ledger") refl refl ((λ name h. cc), tt) permissions_run refl

pub authorization_run : expected_authorization contract ≡ ok authorization
unfolding expected_authorization user_of sort_by permissions grants_of client_of from_subject
    managed_grants manager_grants publisher_grants subscriber_grants from_consumer set_of published
    subscribed py_eq text_of
authorization_run = refl

abbrev values : Value
values = dict (
    (
      "nats",
      dict (
          (
            "config",
            dict (
                ("merge", dict (("authorization", authorization) ▸ end))
                ▸ (
                  "jetstream",
                  dict (
                      ("enabled", bool true)
                      ▸ (
                        "fileStore",
                        dict (
                            ("enabled", bool true)
                            ▸ ("pvc", dict (("enabled", bool true) ▸ end))
                            ▸ end),
                      )
                      ▸ end),
                )
                ▸ (
                  "nats",
                  dict (
                      ("tls", dict (("merge", dict (("verify_and_map", bool true) ▸ end)) ▸ end))
                      ▸ end),
                )
                ▸ end),
          )
          ▸ end),
    )
    ▸ end)

abbrev component_peer : String → Value
component_peer component = dict (
    (
      "podSelector",
      dict (("matchLabels", dict (("app.kubernetes.io/component", str component) ▸ end)) ▸ end),
    )
    ▸ end)

abbrev demo_peers : Value
demo_peers = list (component_peer "demo-mint" ∷ [])

abbrev bundled_values : Value
bundled_values = dict (
    (
      "networkPolicy",
      dict (("nats", dict (("demoMint", dict (("allowedPeers", demo_peers) ▸ end)) ▸ end)) ▸ end),
    )
    ▸ end)

abbrev named : String → String → Value → Value
named kind name spec =
    dict (("kind", str kind) ▸ ("metadata", dict (("name", str name) ▸ end)) ▸ ("spec", spec) ▸ end)

abbrev config_text : String
config_text =
    "{\"authorization\": {}, \"tls\": {\"verify_and_map\": true}, \"store_dir\": \"/data\"}"

abbrev config_map : Value
config_map = dict (
    ("kind", str "ConfigMap")
    ▸ ("metadata", dict (("name", str "smoke-nats-config") ▸ end))
    ▸ ("data", dict (("nats.conf", str config_text) ▸ end))
    ▸ end)

abbrev stateful_set : Value
stateful_set = named "StatefulSet" "smoke-nats" (
    dict (
      (
        "volumeClaimTemplates",
        list (dict (("metadata", dict (("name", str "smoke-nats-js") ▸ end)) ▸ end) ∷ []),
      )
      ▸ end))

abbrev broker_ports : Value
broker_ports = list (dict (("protocol", str "TCP") ▸ ("port", num 4222) ▸ end) ∷ [])

abbrev network_policy : Value
network_policy = named "NetworkPolicy" "smoke-nats" (
    dict (
      (
        "ingress",
        list (
            dict (
              (
                "from",
                list (
                    component_peer "proxy"
                    ∷ component_peer "ledger"
                    ∷ component_peer "hil"
                    ∷ component_peer "identity"
                    ∷ component_peer "assurance"
                    ∷ component_peer "deep-review"
                    ∷ component_peer "policy-engine"
                    ∷ []),
              )
              ▸ ("ports", broker_ports)
              ▸ end)
            ∷ dict (("from", demo_peers) ▸ ("ports", broker_ports) ▸ end)
            ∷ []),
      )
      ▸ end))

abbrev variable : String → String → Value
variable name value = dict (("name", str name) ▸ ("value", str value) ▸ end)

-- A Deployment that uses the broker.
abbrev deployment : String → Value
deployment name = named "Deployment" ("smoke-" <> name) (
    dict (
      (
        "template",
        dict (
            (
              "spec",
              dict (
                  (
                    "containers",
                    list (
                        dict (
                          ("name", str name)
                          ▸ (
                            "env",
                            list (
                                variable "NATS_URL" "tls://smoke-nats:4222"
                                ∷ variable "NATS_INBOX_PREFIX" ("_INBOX.clavenar." <> name)
                                ∷ variable "NATS_TLS_CERT_PATH"
                                    ("/certs/service-" <> name <> ".crt")
                                ∷ []),
                          )
                          ▸ end)
                        ∷ []),
                  )
                  ▸ end),
            )
            ▸ end),
      )
      ▸ end))

abbrev documents : List Value
documents =
    config_map
    ∷ stateful_set
    ∷ network_policy
    ∷ deployment "assurance"
    ∷ deployment "deep-review"
    ∷ deployment "hil"
    ∷ deployment "identity"
    ∷ deployment "ledger"
    ∷ deployment "policy-engine"
    ∷ deployment "proxy"
    ∷ []

-- A decoder of the one configuration of these tests.
abbrev decode : String → Result Value
decode text = ok authorization

abbrev repository : Repository
repository = record {
  contract = contract;
  contract_bytes = 123 ∷ 125 ∷ [];
  mirrors = ("proxy", some (123 ∷ 125 ∷ [])) ∷ ("ledger", none) ∷ [];
  values = values;
  bundled_values = bundled_values;
  render_result = rendered documents;
}

config_run : check_config decode documents authorization ≡ ok tt
unfolding check_config document_named is_named authorization_from_nats_config fail_if py_eq
config_run = refl

stateful_set_run : check_stateful_set documents ≡ ok tt
unfolding check_stateful_set require_document document_named is_named fail_if py_eq
stateful_set_run = refl

network_run : check_network bundled_values documents ≡ ok tt
unfolding check_network check_ingress require_document document_named is_named is_broker_rule
    admits_chart_clients peer_component same_values has_sources leaks fail_if py_eq
network_run = refl

clients_run : check_clients documents ≡ ok 7
unfolding check_clients deployments_of clients_of check_deployment env_value same_values table_by at
    insert fail_if py_eq
clients_run = refl

documents_run : check_documents decode bundled_values authorization documents ≡ ok 7
unfolding check_documents
documents_run = rw (config_run, stateful_set_run, network_run, clients_run)

repository_run : check_repository decode repository ≡ ok (1, 7)
unfolding check_repository check_mirrors bytes_eq check_values is_persistent render fail_if py_eq
repository_run = rw (authorization_run, documents_run)

check_repository_sound_example : IsAccepted decode repository 7
check_repository_sound_example = check_repository_sound decode repository 1 7 repository_run
