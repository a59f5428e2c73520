-- ===== src/Tests/Assurance.antt =====
-- `validate_assurance_contract` on a render with workload TLS.
use clavenar_charts.Base.{◌≡◌, refl, true, List, [], ◌∷◌}
use clavenar_charts.Base.Result.{ok}
use clavenar_charts.Value.{Value, str, bool, dict, end, list, num, ◌▸◌}
use clavenar_charts.Value.Equality.{py_eq, set_of}
use clavenar_charts.Value.Number.{to_int}
use clavenar_charts.Value.Print.{text_of}
use clavenar_charts.Value.Sort.{sort_texts}
use clavenar_charts.Value.Dict.{insert}
use clavenar_charts.Value.Table.{table_of, table_eq, table_text, at}
use clavenar_charts.Value.Json.{dumps}
use clavenar_charts.Listener.Values.{value_at, walk}
use clavenar_charts.Listener.Rendered.{is_document, has_name, get_path}
use clavenar_charts.Listener.Environments.{occurrences}
use clavenar_charts.Listener.Workload.{
  containers_named, port_entry, container_ports, ports_errors, env_entries, env_names,
  governed_name, governed_env, not_once, once_errors, drift_errors, probe_http, probe_drifts,
  probe_errors, probes_errors,
}
use clavenar_charts.Listener.Workload.Tls.{
  named_in, at_or_empty, has_entry, projected_items, same_pairs, projection_drifts,
  destination_drifts, joinable, script_drifts, projector_drifts, mount_drifts, certificate_errors,
  tls_errors,
}
use clavenar_charts.Listener.Assurance.{
  assurance_env_errors, advertises_metrics, assurance_tls_errors, assurance_container_errors,
  assurance_errors, validate_assurance_contract,
}
use clavenar_charts.Listener.Assurance.Accepted.{IsAssured, validate_assurance_contract-IsAssured}

abbrev values : Value
values = dict (
    ("tlsBundle", dict (("secretName", str "tls") ▸ ("mountPath", str "/certs") ▸ end))
    ▸ (
      "services",
      dict (
          (
            "assurance",
            dict (
                ("enabled", bool true)
                ▸ ("forensicSubject", str "clavenar.forensic")
                ▸ ("forensicStream", str "FORENSIC")
                ▸ ("requestTimeoutSecs", num 10)
                ▸ ("runTimeoutSecs", num 120)
                ▸ ("publishTimeoutSecs", num 5)
                ▸ end),
          )
          ▸ end),
    )
    ▸ end)

abbrev docs : List Value
docs =
    dict (
      ("kind", str "Deployment")
      ▸ ("metadata", dict (("name", str "smoke-assurance") ▸ end))
      ▸ (
        "spec",
        dict (
            (
              "template",
              dict (
                  ("metadata", dict (end))
                  ▸ (
                    "spec",
                    dict (
                        (
                          "containers",
                          list (
                              dict (
                                ("name", str "assurance")
                                ▸ (
                                  "ports",
                                  list (
                                      dict (
                                        ("name", str "control-mtls")
                                        ▸ ("containerPort", num 8088)
                                        ▸ end)
                                      ∷ dict (
                                          ("name", str "diagnostics")
                                          ▸ ("containerPort", num 9088)
                                          ▸ end)
                                      ∷ []),
                                )
                                ▸ (
                                  "env",
                                  list (
                                      dict (
                                        ("name", str "CLAVENAR_ASSURANCE_ADMIN_PORT")
                                        ▸ ("value", str "8088")
                                        ▸ end)
                                      ∷ dict (
                                          ("name", str "CLAVENAR_ASSURANCE_DIAGNOSTICS_PORT")
                                          ▸ ("value", str "9088")
                                          ▸ end)
                                      ∷ dict (
                                          ("name", str "CLAVENAR_ASSURANCE_TLS_DIR")
                                          ▸ ("value", str "/certs")
                                          ▸ end)
                                      ∷ dict (
                                          ("name", str "CLAVENAR_ASSURANCE_ALLOWED_CALLERS")
                                          ▸ ("value", str "spiffe://clavenar.local/service/console")
                                          ▸ end)
                                      ∷ dict (
                                          ("name", str "CLAVENAR_ASSURANCE_FORENSIC_SUBJECT")
                                          ▸ ("value", str "clavenar.forensic")
                                          ▸ end)
                                      ∷ dict (
                                          ("name", str "CLAVENAR_ASSURANCE_FORENSIC_STREAM")
                                          ▸ ("value", str "FORENSIC")
                                          ▸ end)
                                      ∷ dict (
                                          ("name", str "CLAVENAR_ASSURANCE_REQUEST_TIMEOUT_SECS")
                                          ▸ ("value", str "10")
                                          ▸ end)
                                      ∷ dict (
                                          ("name", str "CLAVENAR_ASSURANCE_RUN_TIMEOUT_SECS")
                                          ▸ ("value", str "120")
                                          ▸ end)
                                      ∷ dict (
                                          ("name", str "CLAVENAR_ASSURANCE_PUBLISH_TIMEOUT_SECS")
                                          ▸ ("value", str "5")
                                          ▸ end)
                                      ∷ dict
                                          (("name", str "RUST_LOG") ▸ ("value", str "info") ▸ end)
                                      ∷ []),
                                )
                                ▸ (
                                  "volumeMounts",
                                  list (
                                      dict (
                                        ("name", str "certs")
                                        ▸ ("mountPath", str "/certs")
                                        ▸ ("readOnly", bool true)
                                        ▸ end)
                                      ∷ []),
                                )
                                ▸ (
                                  "livenessProbe",
                                  dict (
                                      (
                                        "httpGet",
                                        dict (("path", str "/health") ▸ ("port", num 9088) ▸ end),
                                      )
                                      ▸ end),
                                )
                                ▸ (
                                  "readinessProbe",
                                  dict (
                                      (
                                        "httpGet",
                                        dict (("path", str "/readyz") ▸ ("port", num 9088) ▸ end),
                                      )
                                      ▸ end),
                                )
                                ▸ end)
                              ∷ []),
                        )
                        ▸ (
                          "initContainers",
                          list (
                              dict (
                                ("name", str "workload-tls-projector")
                                ▸ (
                                  "args",
                                  list (
                                      str "cp /source/* /projected"
                                      ∷ str "chmod 0600 /projected/*.key"
                                      ∷ []),
                                )
                                ▸ end)
                              ∷ []),
                        )
                        ▸ (
                          "volumes",
                          list (
                              dict (
                                ("name", str "certs-source")
                                ▸ (
                                  "secret",
                                  dict (
                                      ("secretName", str "tls")
                                      ▸ ("defaultMode", num 288)
                                      ▸ (
                                        "items",
                                        list (
                                            dict
                                              (("key", str "ca.crt") ▸ ("path", str "ca.crt") ▸ end)
                                            ∷ dict (
                                                ("key", str "service-assurance.crt")
                                                ▸ ("path", str "service-assurance.crt")
                                                ▸ end)
                                            ∷ dict (
                                                ("key", str "service-assurance.key")
                                                ▸ ("path", str "service-assurance.key")
                                                ▸ end)
                                            ∷ []),
                                      )
                                      ▸ end),
                                )
                                ▸ end)
                              ∷ dict (
                                  ("name", str "certs")
                                  ▸ (
                                    "emptyDir",
                                    dict
                                        (("medium", str "Memory") ▸ ("sizeLimit", str "1Mi") ▸ end),
                                  )
                                  ▸ end)
                              ∷ []),
                        )
                        ▸ end),
                  )
                  ▸ end),
            )
            ▸ end),
      )
      ▸ end)
    ∷ []

assurance_run : validate_assurance_contract values docs "smoke" ≡ ok []
unfolding validate_assurance_contract assurance_errors assurance_container_errors
    assurance_tls_errors advertises_metrics assurance_env_errors py_eq set_of to_int text_of
    sort_texts insert table_of table_eq table_text at dumps value_at walk is_document has_name
    get_path occurrences containers_named port_entry container_ports ports_errors env_entries
    env_names governed_name governed_env not_once once_errors drift_errors probe_http probe_drifts
    probe_errors probes_errors named_in at_or_empty has_entry projected_items same_pairs
    projection_drifts destination_drifts joinable script_drifts projector_drifts mount_drifts
    certificate_errors tls_errors
assurance_run = refl

validate_assurance_contract-IsAssured_example : IsAssured values docs "smoke"
unfolding value_at walk
validate_assurance_contract-IsAssured_example =
    validate_assurance_contract-IsAssured values docs "smoke" refl assurance_run
