-- ===== src/Tests/Brain.antt =====
-- `validate_brain_auxiliary_contract` on a render with workload TLS and one client.
use clavenar_charts.Base.{◌≡◌, refl, true, List, [], ◌∷◌}
use clavenar_charts.Base.Result.{ok}
use clavenar_charts.Value.{Value, str, bool, dict, end, list, num, ◌▸◌}
use clavenar_charts.Value.Equality.{py_eq, set_of}
use clavenar_charts.Value.Number.{to_int}
use clavenar_charts.Value.Print.{text_of}
use clavenar_charts.Value.Sort.{sort_texts}
use clavenar_charts.Value.Dict.{insert}
use clavenar_charts.Value.Table.{table_of, table_eq, table_text, at}
use clavenar_charts.Value.Json.{dumps}
use clavenar_charts.Listener.Values.{value_at, walk}
use clavenar_charts.Listener.Rendered.{is_document, has_name, get_path}
use clavenar_charts.Listener.Environments.{occurrences}
use clavenar_charts.Listener.Workload.{
  containers_named, port_entry, container_ports, ports_errors, env_entries, env_names,
  governed_name, governed_env, not_once, once_errors, drift_errors, probe_http, probe_drifts,
  probe_errors, probes_errors,
}
use clavenar_charts.Listener.Workload.Tls.{
  named_in, at_or_empty, has_entry, projected_items, same_pairs, projection_drifts,
  destination_drifts, joinable, script_drifts, projector_drifts, mount_drifts, certificate_errors,
  tls_errors,
}
use clavenar_charts.Listener.Brain.{
  brain_env, brain_host, transport_names, transport_errors, plain_errors, brain_env_errors,
  scrape_drifts, brain_clients, client_entries, client_drift, client_errors, clients_errors,
  brain_container_errors, brain_errors, validate_brain_auxiliary_contract,
}
use clavenar_charts.Listener.Brain.Accepted.{IsServed, validate_brain_auxiliary_contract-IsServed}

abbrev values : Value
values = dict (
    ("tlsBundle", dict (("secretName", str "tls") ▸ ("mountPath", str "/certs") ▸ end))
    ▸ ("workloadIdentity", dict (("enabled", bool true) ▸ end))
    ▸ (
      "services",
      dict (
          (
            "brain",
            dict (
                ("enabled", bool true)
                ▸ ("explainCallerSpiffe", str "spiffe://clavenar.local/service/policy-engine")
                ▸ ("narrateCallerSpiffe", str "spiffe://clavenar.local/service/console")
                ▸ ("explainRateLimitPerMinute", num 30)
                ▸ ("narrateRateLimitPerMinute", num 20)
                ▸ ("auxSpendBudgetMicroUsdPerHour", num 500000)
                ▸ ("auxTimeoutMillis", num 8000)
                ▸ ("auxBodyLimitBytes", num 65536)
                ▸ end),
          )
          ▸ end),
    )
    ▸ end)

abbrev docs : List Value
docs =
    dict (
      ("kind", str "Deployment")
      ▸ ("metadata", dict (("name", str "smoke-brain") ▸ end))
      ▸ (
        "spec",
        dict (
            (
              "template",
              dict (
                  (
                    "metadata",
                    dict (("annotations", dict (("prometheus.io/port", str "9081") ▸ end)) ▸ end),
                  )
                  ▸ (
                    "spec",
                    dict (
                        (
                          "containers",
                          list (
                              dict (
                                ("name", str "brain")
                                ▸ (
                                  "ports",
                                  list (
                                      dict
                                        (("name", str "http") ▸ ("containerPort", num 8081) ▸ end)
                                      ∷ dict (
                                          ("name", str "health")
                                          ▸ ("containerPort", num 9081)
                                          ▸ end)
                                      ∷ []),
                                )
                                ▸ (
                                  "env",
                                  list (
                                      dict (
                                        ("name", str "CLAVENAR_BRAIN_REQUIRE_AUX_CONTROLS")
                                        ▸ ("value", str "true")
                                        ▸ end)
                                      ∷ dict (
                                          ("name", str "CLAVENAR_BRAIN_EXPLAIN_CALLER_SPIFFE")
                                          ▸ (
                                            "value",
                                            str "spiffe://clavenar.local/service/policy-engine",
                                          )
                                          ▸ end)
                                      ∷ dict (
                                          ("name", str "CLAVENAR_BRAIN_NARRATE_CALLER_SPIFFE")
                                          ▸ ("value", str "spiffe://clavenar.local/service/console")
                                          ▸ end)
                                      ∷ dict (
                                          (
                                            "name",
                                            str "CLAVENAR_BRAIN_EXPLAIN_RATE_LIMIT_PER_MINUTE",
                                          )
                                          ▸ ("value", str "30")
                                          ▸ end)
                                      ∷ dict (
                                          (
                                            "name",
                                            str "CLAVENAR_BRAIN_NARRATE_RATE_LIMIT_PER_MINUTE",
                                          )
                                          ▸ ("value", str "20")
                                          ▸ end)
                                      ∷ dict (
                                          (
                                            "name",
                                            str
                                                "CLAVENAR_BRAIN_AUX_SPEND_BUDGET_MICRO_USD_PER_HOUR",
                                          )
                                          ▸ ("value", str "500000")
                                          ▸ end)
                                      ∷ dict (
                                          ("name", str "CLAVENAR_BRAIN_AUX_TIMEOUT_MILLIS")
                                          ▸ ("value", str "8000")
                                          ▸ end)
                                      ∷ dict (
                                          ("name", str "CLAVENAR_BRAIN_AUX_BODY_LIMIT_BYTES")
                                          ▸ ("value", str "65536")
                                          ▸ end)
                                      ∷ dict (
                                          ("name", str "CLAVENAR_BRAIN_HEALTH_ADDR")
                                          ▸ ("value", str "0.0.0.0:9081")
                                          ▸ end)
                                      ∷ dict (
                                          ("name", str "CLAVENAR_BRAIN_TLS_DIR")
                                          ▸ ("value", str "/certs")
                                          ▸ end)
                                      ∷ dict (
                                          ("name", str "CLAVENAR_BRAIN_ALLOWED_CALLERS")
                                          ▸ ("value", str "spiffe://clavenar.local/service/proxy")
                                          ▸ end)
                                      ∷ []),
                                )
                                ▸ (
                                  "livenessProbe",
                                  dict (
                                      (
                                        "httpGet",
                                        dict (("path", str "/health") ▸ ("port", num 9081) ▸ end),
                                      )
                                      ▸ end),
                                )
                                ▸ (
                                  "readinessProbe",
                                  dict (
                                      (
                                        "httpGet",
                                        dict (("path", str "/readyz") ▸ ("port", num 9081) ▸ end),
                                      )
                                      ▸ end),
                                )
                                ▸ end)
                              ∷ []),
                        )
                        ▸ end),
                  )
                  ▸ end),
            )
            ▸ end),
      )
      ▸ end)
    ∷ dict (
        ("kind", str "Deployment")
        ▸ ("metadata", dict (("name", str "smoke-policy-engine") ▸ end))
        ▸ (
          "spec",
          dict (
              (
                "template",
                dict (
                    ("metadata", dict (end))
                    ▸ (
                      "spec",
                      dict (
                          (
                            "containers",
                            list (
                                dict (
                                  ("name", str "policy-engine")
                                  ▸ (
                                    "env",
                                    list (
                                        dict (
                                          ("name", str "CLAVENAR_POLICY_ENGINE_BRAIN_URL")
                                          ▸ ("value", str "https://brain:8081")
                                          ▸ end)
                                        ∷ dict (
                                            ("name", str "CLAVENAR_POLICY_EXPECTED_PEER_SPIFFE")
                                            ▸ (
                                              "value",
                                              str
                                                  "spiffe://clavenar.local/service/identity,spiffe://clavenar.local/service/brain",
                                            )
                                            ▸ end)
                                        ∷ []),
                                  )
                                  ▸ end)
                                ∷ []),
                          )
                          ▸ end),
                    )
                    ▸ end),
              )
              ▸ end),
        )
        ▸ end)
    ∷ []

brain_run : validate_brain_auxiliary_contract values docs "smoke" ≡ ok []
unfolding validate_brain_auxiliary_contract brain_errors brain_container_errors clients_errors
    client_errors client_drift client_entries brain_clients scrape_drifts brain_env_errors
    plain_errors transport_errors transport_names brain_host brain_env py_eq set_of to_int text_of
    sort_texts insert table_of table_eq table_text at dumps value_at walk is_document has_name
    get_path occurrences containers_named port_entry container_ports ports_errors env_entries
    env_names governed_name governed_env not_once once_errors drift_errors probe_http probe_drifts
    probe_errors probes_errors named_in at_or_empty has_entry projected_items same_pairs
    projection_drifts destination_drifts joinable script_drifts projector_drifts mount_drifts
    certificate_errors tls_errors
brain_run = refl

validate_brain_auxiliary_contract-IsServed_example : IsServed values docs "smoke"
unfolding value_at walk
validate_brain_auxiliary_contract-IsServed_example =
    validate_brain_auxiliary_contract-IsServed values docs "smoke" refl brain_run
