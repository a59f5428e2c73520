-- ===== src/Tests/Console.antt =====
-- `validate_console_contract` on a render with operator mTLS and the demo.
use clavenar_charts.Base.{◌≡◌, refl, true, List, [], ◌∷◌}
use clavenar_charts.Base.Result.{ok}
use clavenar_charts.Value.{Value, str, bool, dict, end, list, num, ◌▸◌}
use clavenar_charts.Value.Equality.{py_eq, set_of}
use clavenar_charts.Value.Number.{to_int}
use clavenar_charts.Value.Print.{text_of}
use clavenar_charts.Value.Sort.{sort_texts}
use clavenar_charts.Value.Dict.{insert}
use clavenar_charts.Value.Table.{table_of, table_eq, table_text, at}
use clavenar_charts.Value.Json.{dumps}
use clavenar_charts.Listener.Values.{value_at, walk}
use clavenar_charts.Listener.Rendered.{is_document, has_name, get_path}
use clavenar_charts.Listener.Environments.{occurrences}
use clavenar_charts.Listener.Workload.{
  containers_named, port_entry, container_ports, ports_errors, env_entries, env_names,
  governed_name, governed_env, not_once, once_errors, drift_errors, probe_http, probe_drifts,
  probe_errors, probes_errors,
}
use clavenar_charts.Listener.Workload.Tls.{
  named_in, at_or_empty, has_entry, projected_items, same_pairs, projection_drifts,
  destination_drifts, joinable, script_drifts, projector_drifts, mount_drifts, certificate_errors,
  tls_errors,
}
use clavenar_charts.Listener.Brain.{brain_host}
use clavenar_charts.Listener.Ledger.{values_named}
use clavenar_charts.Listener.Console.Trust.{trust_drifts, trust_errors, secret_errors}
use clavenar_charts.Listener.Console.Environment.{
  expected_release, console_base_env, with_cookie, with_assurance, with_origins, with_operators,
  with_tls_dir, console_env, repeated_names, bearer_errors, console_env_errors,
}
use clavenar_charts.Listener.Console.{
  primary_port_name, console_ports, console_ports_errors, chosen_annotations, scrape_errors,
  console_container_errors, console_errors, validate_console_contract,
}
use clavenar_charts.Listener.Console.Accepted.{IsConsole, validate_console_contract-IsConsole}

abbrev values : Value
values = dict (
    ("tlsBundle", dict (("secretName", str "tls") ▸ ("mountPath", str "/certs") ▸ end))
    ▸ (
      "services",
      dict (
          ("assurance", dict (("enabled", bool true) ▸ end))
          ▸ (
            "console",
            dict (
                ("enabled", bool true)
                ▸ ("auth", dict (("mode", str "operator-mtls") ▸ end))
                ▸ ("demo", dict (("enabled", bool true) ▸ end))
                ▸ (
                  "operatorMtls",
                  dict (("enabled", bool true) ▸ ("publicTrustSecretName", str "operators") ▸ end),
                )
                ▸ (
                  "mutationOrigins",
                  list (str "https://console.example" ∷ str "https://ops.example" ∷ []),
                )
                ▸ end),
          )
          ▸ end),
    )
    ▸ end)

abbrev docs : List Value
docs =
    dict (
      ("kind", str "Deployment")
      ▸ ("metadata", dict (("name", str "smoke-console") ▸ end))
      ▸ (
        "spec",
        dict (
            (
              "template",
              dict (
                  (
                    "metadata",
                    dict (
                        (
                          "annotations",
                          dict (
                              ("prometheus.io/scrape", str "true")
                              ▸ ("prometheus.io/path", str "/metrics")
                              ▸ ("prometheus.io/port", str "9185")
                              ▸ end),
                        )
                        ▸ end),
                  )
                  ▸ (
                    "spec",
                    dict (
                        (
                          "containers",
                          list (
                              dict (
                                ("name", str "console")
                                ▸ (
                                  "ports",
                                  list (
                                      dict (
                                        ("name", str "operator-mtls")
                                        ▸ ("containerPort", num 8085)
                                        ▸ end)
                                      ∷ dict (
                                          ("name", str "diagnostics")
                                          ▸ ("containerPort", num 9185)
                                          ▸ end)
                                      ∷ dict
                                          (("name", str "demo") ▸ ("containerPort", num 9085) ▸ end)
                                      ∷ []),
                                )
                                ▸ (
                                  "env",
                                  list (
                                      dict (
                                        ("name", str "CLAVENAR_CONSOLE_AUTH")
                                        ▸ ("value", str "operator-mtls")
                                        ▸ end)
                                      ∷ dict (
                                          ("name", str "CLAVENAR_CONSOLE_BIND")
                                          ▸ ("value", str "0.0.0.0")
                                          ▸ end)
                                      ∷ dict (
                                          ("name", str "CLAVENAR_CONSOLE_PORT")
                                          ▸ ("value", str "8085")
                                          ▸ end)
                                      ∷ dict (
                                          ("name", str "CLAVENAR_CONSOLE_DIAGNOSTICS_ADDR")
                                          ▸ ("value", str "0.0.0.0:9185")
                                          ▸ end)
                                      ∷ dict (
                                          ("name", str "CLAVENAR_CONSOLE_AUTH_RATE_LIMIT_MAX")
                                          ▸ ("value", str "10")
                                          ▸ end)
                                      ∷ dict (
                                          (
                                            "name",
                                            str "CLAVENAR_CONSOLE_AUTH_RATE_LIMIT_WINDOW_SECS",
                                          )
                                          ▸ ("value", str "60")
                                          ▸ end)
                                      ∷ dict (
                                          ("name", str "CLAVENAR_CONSOLE_BRAIN_URL")
                                          ▸ ("value", str "https://smoke-brain:8081")
                                          ▸ end)
                                      ∷ dict (
                                          ("name", str "CLAVENAR_CONSOLE_RELEASE_VERSION")
                                          ▸ ("value", str "1.4.0")
                                          ▸ end)
                                      ∷ dict (
                                          ("name", str "CLAVENAR_CONSOLE_MUTATION_ORIGINS")
                                          ▸ (
                                            "value",
                                            str "https://console.example,https://ops.example",
                                          )
                                          ▸ end)
                                      ∷ dict (
                                          ("name", str "CLAVENAR_ASSURANCE_URL")
                                          ▸ ("value", str "https://smoke-assurance:8088")
                                          ▸ end)
                                      ∷ dict (
                                          ("name", str "CLAVENAR_CONSOLE_OPERATOR_TLS_CERT_PATH")
                                          ▸ ("value", str "/certs/service-console.crt")
                                          ▸ end)
                                      ∷ dict (
                                          ("name", str "CLAVENAR_CONSOLE_OPERATOR_TLS_KEY_PATH")
                                          ▸ ("value", str "/certs/service-console.key")
                                          ▸ end)
                                      ∷ dict (
                                          ("name", str "CLAVENAR_CONSOLE_OPERATOR_CLIENT_CA_PATH")
                                          ▸ ("value", str "/operator-trust/ca.crt")
                                          ▸ end)
                                      ∷ dict (
                                          ("name", str "CLAVENAR_CONSOLE_OPERATOR_IDENTITIES_PATH")
                                          ▸ ("value", str "/operator-trust/operators.json")
                                          ▸ end)
                                      ∷ dict (
                                          ("name", str "CLAVENAR_CONSOLE_DEMO_ADDR")
                                          ▸ ("value", str "0.0.0.0:9085")
                                          ▸ end)
                                      ∷ dict (
                                          ("name", str "CLAVENAR_CONSOLE_TLS_DIR")
                                          ▸ ("value", str "/certs")
                                          ▸ end)
                                      ∷ dict (
                                          ("name", str "CLAVENAR_HIL_DECIDE_TOKEN")
                                          ▸ ("value", str "token")
                                          ▸ end)
                                      ∷ []),
                                )
                                ▸ (
                                  "volumeMounts",
                                  list (
                                      dict (
                                        ("name", str "certs")
                                        ▸ ("mountPath", str "/certs")
                                        ▸ ("readOnly", bool true)
                                        ▸ end)
                                      ∷ dict (
                                          ("name", str "operator-trust")
                                          ▸ ("mountPath", str "/operator-trust")
                                          ▸ ("readOnly", bool true)
                                          ▸ end)
                                      ∷ []),
                                )
                                ▸ (
                                  "livenessProbe",
                                  dict (
                                      (
                                        "httpGet",
                                        dict (("path", str "/health") ▸ ("port", num 9185) ▸ end),
                                      )
                                      ▸ end),
                                )
                                ▸ (
                                  "readinessProbe",
                                  dict (
                                      (
                                        "httpGet",
                                        dict (("path", str "/readyz") ▸ ("port", num 9185) ▸ end),
                                      )
                                      ▸ end),
                                )
                                ▸ end)
                              ∷ []),
                        )
                        ▸ (
                          "initContainers",
                          list (
                              dict (
                                ("name", str "workload-tls-projector")
                                ▸ (
                                  "args",
                                  list (
                                      str "cp /source/* /projected"
                                      ∷ str "chmod 0600 /projected/*.key"
                                      ∷ []),
                                )
                                ▸ end)
                              ∷ []),
                        )
                        ▸ (
                          "volumes",
                          list (
                              dict (
                                ("name", str "certs-source")
                                ▸ (
                                  "secret",
                                  dict (
                                      ("secretName", str "tls")
                                      ▸ ("defaultMode", num 288)
                                      ▸ (
                                        "items",
                                        list (
                                            dict
                                              (("key", str "ca.crt") ▸ ("path", str "ca.crt") ▸ end)
                                            ∷ dict (
                                                ("key", str "service-console.crt")
                                                ▸ ("path", str "service-console.crt")
                                                ▸ end)
                                            ∷ dict (
                                                ("key", str "service-console.key")
                                                ▸ ("path", str "service-console.key")
                                                ▸ end)
                                            ∷ []),
                                      )
                                      ▸ end),
                                )
                                ▸ end)
                              ∷ dict (
                                  ("name", str "certs")
                                  ▸ (
                                    "emptyDir",
                                    dict
                                        (("medium", str "Memory") ▸ ("sizeLimit", str "1Mi") ▸ end),
                                  )
                                  ▸ end)
                              ∷ dict (
                                  ("name", str "operator-trust")
                                  ▸ (
                                    "secret",
                                    dict (
                                        ("secretName", str "operators")
                                        ▸ (
                                          "items",
                                          list (
                                              dict (
                                                ("key", str "operators.json")
                                                ▸ ("path", str "operators.json")
                                                ▸ end)
                                              ∷ dict (
                                                  ("key", str "ca.crt")
                                                  ▸ ("path", str "ca.crt")
                                                  ▸ end)
                                              ∷ []),
                                        )
                                        ▸ end),
                                  )
                                  ▸ end)
                              ∷ []),
                        )
                        ▸ end),
                  )
                  ▸ end),
            )
            ▸ end),
      )
      ▸ end)
    ∷ []

console_run : validate_console_contract values docs "smoke" (str "1.4.0") ≡ ok []
unfolding validate_console_contract console_errors console_container_errors scrape_errors
    chosen_annotations console_ports_errors console_ports primary_port_name console_env_errors
    bearer_errors repeated_names console_env with_tls_dir with_operators with_origins with_assurance
    with_cookie console_base_env expected_release values_named brain_host secret_errors trust_errors
    trust_drifts py_eq set_of to_int text_of sort_texts insert table_of table_eq table_text at dumps
    value_at walk is_document has_name get_path occurrences containers_named port_entry
    container_ports ports_errors env_entries env_names governed_name governed_env not_once
    once_errors drift_errors probe_http probe_drifts probe_errors probes_errors named_in at_or_empty
    has_entry projected_items same_pairs projection_drifts destination_drifts joinable script_drifts
    projector_drifts mount_drifts certificate_errors tls_errors
console_run = refl

validate_console_contract-IsConsole_example : IsConsole values docs "smoke" (str "1.4.0")
unfolding value_at walk
validate_console_contract-IsConsole_example =
    validate_console_contract-IsConsole values docs "smoke" (str "1.4.0") refl console_run
