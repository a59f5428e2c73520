-- ===== src/Tests/Capabilities.antt =====
-- `validate_workload_capability_contract` on a render with workload TLS and the ledger, with a digest and a
-- parser that are fixed at one text.
use clavenar_charts.Base.{
  ◌≡◌, refl, ℕ, zero, suc, String, Option, none, some, ◌==◌, if◌then◌else◌, true, List, [], ◌∷◌,
}
use clavenar_charts.Base.Result.{ok}
use clavenar_charts.Value.{Value, str, bool, dict, end, list, num, ◌▸◌}
use clavenar_charts.Value.Equality.{py_eq, set_of}
use clavenar_charts.Value.Number.{to_int}
use clavenar_charts.Value.Print.{text_of, decimal}
use clavenar_charts.Value.Sort.{sort_texts}
use clavenar_charts.Value.Dict.{insert}
use clavenar_charts.Value.Table.{table_of, table_eq, table_text, at}
use clavenar_charts.Value.Json.{dumps}
use clavenar_charts.Listener.Values.{value_at, walk}
use clavenar_charts.Listener.Rendered.{is_document, has_name, get_path}
use clavenar_charts.Listener.Environments.{occurrences}
use clavenar_charts.Listener.Workload.{
  containers_named, port_entry, container_ports, ports_errors, env_entries, env_names,
  governed_name, governed_env, not_once, once_errors, drift_errors, probe_http, probe_drifts,
  probe_errors, probes_errors,
}
use clavenar_charts.Listener.Workload.Tls.{
  named_in, at_or_empty, has_entry, projected_items, same_pairs, projection_drifts,
  destination_drifts, joinable, script_drifts, projector_drifts, mount_drifts, certificate_errors,
  tls_errors,
}
use clavenar_charts.Listener.Capabilities.{
  validate_workload_capability_contract, configmap_errors, raw_errors, content_errors,
  bundle_errors, admits_website, inventory_drifts, names_services, route_count, families_of,
  policy_families, values_of, bundle_map_name, is_bundle_map,
}
use clavenar_charts.Listener.Capabilities.Target.{
  capability_env, is_governed_entry, named_all, bundle_mount_drifts, mounted_errors,
  target_container_errors, target_errors, enabled_errors, targets_errors,
}
use clavenar_charts.Listener.Capabilities.Accepted.{
  IsBundled, validate_workload_capability_contract-IsBundled,
}

abbrev pub sha256 : String → String
sha256 text = "0123456789abcdef0123456789abcdef0123456789abcdef0123456789abcdef"

-- Routes of distinct families.
abbrev routes : ℕ → List Value
routes zero = []
routes (suc n) =
    dict (("family", str (decimal n)) ▸ ("allowedCallerIds", list (str "service-proxy" ∷ [])) ▸ end)
    ∷ routes n

abbrev service : ℕ → Value
service n = dict (("routes", list (routes n)) ▸ end)

abbrev identities : ℕ → List Value
identities zero = []
identities (suc n) = str (decimal n) ∷ identities n

abbrev content : Value
content = dict (
    ("schemaVersion", num 1)
    ▸ ("feature", str "WP-02.9")
    ▸ ("matrixSha256", str "sha256:feed")
    ▸ ("workloadIdentities", list (identities 11))
    ▸ (
      "services",
      dict (
          ("ledger", service 71)
          ▸ ("policy-engine", service 70)
          ▸ ("hil", service 0)
          ▸ ("identity", service 0)
          ▸ end),
    )
    ▸ end)

abbrev pub json_loads : String → Option Value
json_loads text = if text == "bundle" then some content else none

abbrev values : Value
values = dict (
    ("tlsBundle", dict (("secretName", str "tls") ▸ end))
    ▸ ("services", dict (("ledger", dict (("enabled", bool true) ▸ end)) ▸ end))
    ▸ end)

abbrev docs : List Value
docs =
    dict (
      ("kind", str "ConfigMap")
      ▸ ("immutable", bool true)
      ▸ (
        "metadata",
        dict (
            ("name", str "smoke-workload-capabilities-0123456789ab")
            ▸ ("labels", dict (("app.kubernetes.io/component", str "workload-capabilities") ▸ end))
            ▸ end),
      )
      ▸ ("data", dict (("workload-capability-bundle.json", str "bundle") ▸ end))
      ▸ end)
    ∷ dict (
        ("kind", str "Deployment")
        ▸ ("metadata", dict (("name", str "smoke-ledger") ▸ end))
        ▸ (
          "spec",
          dict (
              (
                "template",
                dict (
                    ("metadata", dict (end))
                    ▸ (
                      "spec",
                      dict (
                          (
                            "containers",
                            list (
                                dict (
                                  ("name", str "ledger")
                                  ▸ (
                                    "env",
                                    list (
                                        dict (
                                          ("name", str "CLAVENAR_WORKLOAD_CAPABILITY_BUNDLE")
                                          ▸ (
                                            "value",
                                            str "/etc/clavenar/workload-capability-bundle.json",
                                          )
                                          ▸ end)
                                        ∷ dict (
                                            (
                                              "name",
                                              str "CLAVENAR_WORKLOAD_CAPABILITY_BUNDLE_SHA256",
                                            )
                                            ▸ (
                                              "value",
                                              str
                                                  "sha256:0123456789abcdef0123456789abcdef0123456789abcdef0123456789abcdef",
                                            )
                                            ▸ end)
                                        ∷ dict (
                                            (
                                              "name",
                                              str "CLAVENAR_ENDPOINT_CAPABILITY_MATRIX_SHA256",
                                            )
                                            ▸ ("value", str "sha256:feed")
                                            ▸ end)
                                        ∷ dict
                                            (("name", str "RUST_LOG") ▸ ("value", str "info") ▸ end)
                                        ∷ []),
                                  )
                                  ▸ (
                                    "volumeMounts",
                                    list (
                                        dict (
                                          ("name", str "workload-capabilities")
                                          ▸ (
                                            "mountPath",
                                            str "/etc/clavenar/workload-capability-bundle.json",
                                          )
                                          ▸ ("subPath", str "workload-capability-bundle.json")
                                          ▸ ("readOnly", bool true)
                                          ▸ end)
                                        ∷ []),
                                  )
                                  ▸ end)
                                ∷ []),
                          )
                          ▸ (
                            "volumes",
                            list (
                                dict (
                                  ("name", str "workload-capabilities")
                                  ▸ (
                                    "configMap",
                                    dict (
                                        ("name", str "smoke-workload-capabilities-0123456789ab")
                                        ▸ end),
                                  )
                                  ▸ end)
                                ∷ []),
                          )
                          ▸ end),
                    )
                    ▸ end),
              )
              ▸ end),
        )
        ▸ end)
    ∷ []

capabilities_run :
    validate_workload_capability_contract sha256 json_loads values docs "smoke" ≡ ok []
unfolding validate_workload_capability_contract configmap_errors raw_errors content_errors
    bundle_errors admits_website inventory_drifts names_services route_count families_of
    policy_families values_of bundle_map_name is_bundle_map capability_env is_governed_entry
    named_all bundle_mount_drifts mounted_errors target_container_errors target_errors
    enabled_errors targets_errors py_eq set_of to_int text_of sort_texts insert table_of table_eq
    table_text at dumps value_at walk is_document has_name get_path occurrences containers_named
    port_entry container_ports ports_errors env_entries env_names governed_name governed_env
    not_once once_errors drift_errors probe_http probe_drifts probe_errors probes_errors named_in
    at_or_empty has_entry projected_items same_pairs projection_drifts destination_drifts joinable
    script_drifts projector_drifts mount_drifts certificate_errors tls_errors
capabilities_run = refl

validate_workload_capability_contract-IsBundled_example :
    IsBundled sha256 json_loads values docs "smoke"
validate_workload_capability_contract-IsBundled_example =
    validate_workload_capability_contract-IsBundled sha256 json_loads values docs "smoke"
      capabilities_run
