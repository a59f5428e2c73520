-- ===== src/Tests/Main.antt =====
-- `main` of check-listener-matrix.py on a small chart: one service under workload TLS, whose NetworkPolicies an
-- overlay enables.
use clavenar_charts.Base.{◌≡◌, refl, true, false, List, [], ◌∷◌}
use clavenar_charts.Value.{Value, null, str, bool, dict, end, list, num, ◌▸◌}
use clavenar_charts.Tests.Capabilities.{sha256, json_loads}
use clavenar_charts.Listener.Main.Sound.{IsApproved, main-IsApproved}
use clavenar_charts.Listener.Main.{Inputs, status, documents, finish, run, main}
use clavenar_charts.Listener.Validate.{
  matrix_errors, values_errors, active_listeners, contract_errors, render_errors, validate,
}
use clavenar_charts.Listener.Validate.Matrix.{
  missing_keys, pair_text, ident_of, entries_of, version_errors, digest_errors, paths_errors,
  is_wildcard, wildcard_errors, listener_errors, listeners_errors, is_inexact_port, each_of_sum,
  port_contract_errors, complete_object_errors, object_errors, objects_errors,
}
use clavenar_charts.Listener.Validate.Contracts.{
  rule_grant, contract_grants, contracts_grants, granted_peers, set_at, allowed_errors,
  authorized_errors, listener_grant_errors, peer_contract_errors,
}
use clavenar_charts.Listener.Validate.Services.{
  of_kind, name_of, unique_errors, by_name, caught, missing_names, extra_names, inventory_errors,
  shared_names, service_errors, services_errors,
}
use clavenar_charts.Listener.Validate.Publications.{
  publications, aliased, enabled_ports, port_errors, object_publications, ungoverned_errors,
  publication_errors,
}
use clavenar_charts.Listener.Validate.Workloads.{
  has_kind, resource_name, pod_at, pods_of, containers_at, host_port_errors, host_errors,
  service_targets, carries, exposed_ports, sort_numbers, labels_at, unlisted_errors,
  workload_errors, governed_ports, port_inventory_errors, workloads_errors,
}
use clavenar_charts.Listener.Validate.Workloads.Probes.{
  ports_of, named_port, named_at, resolved_port, is_listening, admits_kubelet, listening_errors,
  probe_target_errors, container_probe_errors, probe_errors_of,
}
use clavenar_charts.Listener.Validate.Policies.{
  selects_workload, is_inexact_entry, ingress_errors, policy_errors, workload_labels_of,
  policies_report,
}
use clavenar_charts.Listener.Digest.{canonical, matrix_digest}
use clavenar_charts.Listener.Services.{
  tls_enabled, with_app_protocol, governed_port, keyed_port, drop_keys, sort_ports, service_ports,
  service_selector, publishes_not_ready, service_spec, add_service, add_services, expected_services,
  normalized_port, keyed_rendered_port, normalized_service_spec,
}
use clavenar_charts.Listener.Policies.{
  configured_path, configured_peers, token_peers, rule_sources, keyed_listener, listener_at,
  ingress_rule, egress_rule, policy_of, add_policies, expected_policies,
}
use clavenar_charts.Listener.Selectors.{
  selector, peer, workload_selector, rule, labels_match, expression_matches, pod_selector_matches,
}
use clavenar_charts.Listener.Condition.{
  term_enabled, text_enabled, condition_enabled, contract_enabled,
}
use clavenar_charts.Listener.Format.{argument, format_from, format}
use clavenar_charts.Listener.Values.{merge, merge_fields, walk, value_at, effective_values}
use clavenar_charts.Listener.Peers.{
  each_indexed, keys_are_selectors, labels_are_texts, is_exact_selector, exact_positive_peer,
  validate_exact_positive_peers, dict_or_empty, selector_labels, labels_of, names_app,
  namespace_value_errors, chosen_namespace, foreign_peer, validate_ledger_trusted_proxy_peer,
  peer_requirements, validate_nats_demo_mint_peer, validate_simulator_peer, local_peer,
  validate_demo_reset_peer,
}
use clavenar_charts.Listener.Profile.{
  trusted_spiffe, require_trusted, trusted_peers, ledger_profile_errors, production_checks,
  failed_checks, production_errors, validate_deployment_profile,
}
use clavenar_charts.Listener.Vault.{
  hook_tokens, vault_addresses, selects, server_errors, server_labels, opens_vault, is_reachable,
  governed_peer, is_governed, pod_errors, path_errors, hook_errors, validate_vault_test_hook,
}
use clavenar_charts.Listener.Console.{
  primary_port_name, console_ports, console_ports_errors, chosen_annotations, scrape_errors,
  console_container_errors, console_errors, validate_console_contract,
}
use clavenar_charts.Listener.Brain.{
  brain_env, brain_host, transport_names, transport_errors, plain_errors, brain_env_errors,
  scrape_drifts, brain_clients, client_entries, client_drift, client_errors, clients_errors,
  brain_container_errors, brain_errors, validate_brain_auxiliary_contract,
}
use clavenar_charts.Listener.Assurance.{
  assurance_env_errors, advertises_metrics, assurance_tls_errors, assurance_container_errors,
  assurance_errors, validate_assurance_contract,
}
use clavenar_charts.Listener.Capabilities.{
  is_bundle_map, bundle_map_name, values_of, policy_families, families_of, route_count,
  names_services, inventory_drifts, admits_website, bundle_errors, content_errors, raw_errors,
  configmap_errors, validate_workload_capability_contract,
}
use clavenar_charts.Listener.Capabilities.Target.{
  capability_env, is_governed_entry, named_all, bundle_mount_drifts, mounted_errors,
  target_container_errors, target_errors, enabled_errors, targets_errors,
}
use clavenar_charts.Listener.Ledger.{
  values_named, is_exact_rule, admits_any, leak_errors, rule_errors, peer_errors, expected_require,
  expected_spiffe, ledger_container_errors, ledger_containers_of, ledger_errors,
  validate_ledger_trusted_proxy_contract,
}
use clavenar_charts.Listener.Environments.{
  entry_names, occurrences, duplicates_of, container_errors, containers_of, deployment_errors,
  validate_service_env_uniqueness,
}
use clavenar_charts.Listener.Rendered.{is_document, has_name, get_path}
use clavenar_charts.Listener.Workload.{
  containers_named, port_entry, container_ports, ports_errors, env_entries, env_names,
  governed_name, governed_env, not_once, once_errors, drift_errors, probe_http, probe_drifts,
  probe_errors, probes_errors,
}
use clavenar_charts.Listener.Workload.Tls.{
  named_in, at_or_empty, has_entry, projected_items, same_pairs, projection_drifts,
  destination_drifts, joinable, script_drifts, projector_drifts, mount_drifts, certificate_errors,
  tls_errors,
}
use clavenar_charts.Value.Dict.{insert, erase}
use clavenar_charts.Value.Equality.{py_eq, set_of}
use clavenar_charts.Value.Number.{to_int}
use clavenar_charts.Value.Print.{decimal, int_text, repr, text_of}
use clavenar_charts.Value.Sort.{sort_by, sort_texts}
use clavenar_charts.Value.Table.{
  at, item_in, table_by, table_of, entries_in, table_eq, keys_once, table_text,
}
use clavenar_charts.Value.Json.{json_string, dumps}

abbrev pub listener : Value
listener = dict (
    ("service", str "ledger")
    ▸ ("listenerId", str "http")
    ▸ ("owner", str "core")
    ▸ ("enabledWhen", str "services.ledger.enabled")
    ▸ ("bind", str "0.0.0.0")
    ▸ ("containerPort", num 8083)
    ▸ ("servicePort", num 8083)
    ▸ ("servicePublished", bool true)
    ▸ ("ingressPaths", list (str "/v1/entries" ∷ str "/health" ∷ []))
    ▸ ("transportProtocol", str "tcp")
    ▸ ("applicationProtocol", str "http")
    ▸ ("authentication", str "workload mTLS")
    ▸ ("authorizedCallers", list (str "proxy" ∷ str "kubelet" ∷ []))
    ▸ ("allowedPeers", list (str "proxy" ∷ []))
    ▸ ("bodyLimit", str "64KiB")
    ▸ ("rateLimit", str "none")
    ▸ ("hostPublication", bool false)
    ▸ ("externalPublication", bool false)
    ▸ end)

abbrev pub matrix : Value
matrix = dict (
    ("schemaVersion", str "1.0")
    ▸ (
      "reviewedContractSha256",
      str "0123456789abcdef0123456789abcdef0123456789abcdef0123456789abcdef",
    )
    ▸ ("ownership", dict (("core", str "the chart") ▸ end))
    ▸ ("listeners", list (listener ∷ []))
    ▸ (
      "serviceObjects",
      list (
          dict (
            ("id", str "ledger")
            ▸ ("selectorOwner", str "core")
            ▸ ("enabledWhen", str "services.ledger.enabled")
            ▸ ("name", str "{release}-ledger")
            ▸ ("type", str "ClusterIP")
            ▸ (
              "ports",
              list (
                  dict (
                    ("name", str "http")
                    ▸ ("port", num 8083)
                    ▸ ("targetPort", str "http")
                    ▸ ("protocol", str "TCP")
                    ▸ end)
                  ∷ []),
            )
            ▸ end)
          ∷ []),
    )
    ▸ (
      "networkPolicies",
      list (
          dict (
            ("service", str "ledger")
            ▸ ("owner", str "core")
            ▸ (
              "rules",
              list (
                  dict (("listenerId", str "http") ▸ ("peers", list (str "proxy" ∷ [])) ▸ end)
                  ∷ []),
            )
            ▸ end)
          ∷ []),
    )
    ▸ end)

abbrev pub chart_values : Value
chart_values = dict (
    ("deploymentProfile", str "evaluation")
    ▸ ("tlsBundle", dict (("secretName", str "tls") ▸ end))
    ▸ ("networkPolicy", dict (("enabled", bool false) ▸ end))
    ▸ (
      "services",
      dict (
          (
            "ledger",
            dict (("enabled", bool true) ▸ ("port", num 8083) ▸ ("mtlsPort", num 8183) ▸ end),
          )
          ▸ end),
    )
    ▸ end)

abbrev pub overlay : Value
overlay = dict (("networkPolicy", dict (("enabled", bool true) ▸ end)) ▸ end)

abbrev pub docs : List Value
docs =
    dict (
      ("kind", str "ConfigMap")
      ▸ ("immutable", bool true)
      ▸ (
        "metadata",
        dict (
            ("name", str "smoke-workload-capabilities-0123456789ab")
            ▸ ("labels", dict (("app.kubernetes.io/component", str "workload-capabilities") ▸ end))
            ▸ end),
      )
      ▸ ("data", dict (("workload-capability-bundle.json", str "bundle") ▸ end))
      ▸ end)
    ∷ dict (
        ("kind", str "Deployment")
        ▸ ("metadata", dict (("name", str "smoke-ledger") ▸ end))
        ▸ (
          "spec",
          dict (
              (
                "template",
                dict (
                    (
                      "metadata",
                      dict (
                          (
                            "labels",
                            dict (
                                ("app.kubernetes.io/name", str "clavenar")
                                ▸ ("app.kubernetes.io/instance", str "smoke")
                                ▸ ("app.kubernetes.io/component", str "ledger")
                                ▸ end),
                          )
                          ▸ end),
                    )
                    ▸ (
                      "spec",
                      dict (
                          (
                            "containers",
                            list (
                                dict (
                                  ("name", str "ledger")
                                  ▸ (
                                    "env",
                                    list (
                                        dict (
                                          ("name", str "CLAVENAR_WORKLOAD_CAPABILITY_BUNDLE")
                                          ▸ (
                                            "value",
                                            str "/etc/clavenar/workload-capability-bundle.json",
                                          )
                                          ▸ end)
                                        ∷ dict (
                                            (
                                              "name",
                                              str "CLAVENAR_WORKLOAD_CAPABILITY_BUNDLE_SHA256",
                                            )
                                            ▸ (
                                              "value",
                                              str
                                                  "sha256:0123456789abcdef0123456789abcdef0123456789abcdef0123456789abcdef",
                                            )
                                            ▸ end)
                                        ∷ dict (
                                            (
                                              "name",
                                              str "CLAVENAR_ENDPOINT_CAPABILITY_MATRIX_SHA256",
                                            )
                                            ▸ ("value", str "sha256:feed")
                                            ▸ end)
                                        ∷ dict (
                                            ("name", str "CLAVENAR_LEDGER_REQUIRE_TRUSTED_PROXY")
                                            ▸ ("value", str "false")
                                            ▸ end)
                                        ∷ []),
                                  )
                                  ▸ (
                                    "ports",
                                    list (
                                        dict
                                          (("name", str "http") ▸ ("containerPort", num 8083) ▸ end)
                                        ∷ []),
                                  )
                                  ▸ (
                                    "readinessProbe",
                                    dict (
                                        (
                                          "httpGet",
                                          dict (
                                              ("path", str "/health") ▸ ("port", str "http") ▸ end),
                                        )
                                        ▸ end),
                                  )
                                  ▸ (
                                    "volumeMounts",
                                    list (
                                        dict (
                                          ("name", str "workload-capabilities")
                                          ▸ (
                                            "mountPath",
                                            str "/etc/clavenar/workload-capability-bundle.json",
                                          )
                                          ▸ ("subPath", str "workload-capability-bundle.json")
                                          ▸ ("readOnly", bool true)
                                          ▸ end)
                                        ∷ []),
                                  )
                                  ▸ end)
                                ∷ []),
                          )
                          ▸ (
                            "volumes",
                            list (
                                dict (
                                  ("name", str "workload-capabilities")
                                  ▸ (
                                    "configMap",
                                    dict (
                                        ("name", str "smoke-workload-capabilities-0123456789ab")
                                        ▸ end),
                                  )
                                  ▸ end)
                                ∷ []),
                          )
                          ▸ end),
                    )
                    ▸ end),
              )
              ▸ end),
        )
        ▸ end)
    ∷ dict (
        ("kind", str "Service")
        ▸ ("metadata", dict (("name", str "smoke-ledger") ▸ end))
        ▸ (
          "spec",
          dict (
              (
                "selector",
                dict (
                    ("app.kubernetes.io/name", str "clavenar")
                    ▸ ("app.kubernetes.io/instance", str "smoke")
                    ▸ ("app.kubernetes.io/component", str "ledger")
                    ▸ end),
              )
              ▸ (
                "ports",
                list (
                    dict
                      (("name", str "http") ▸ ("port", num 8083) ▸ ("targetPort", str "http") ▸ end)
                    ∷ []),
              )
              ▸ end),
        )
        ▸ end)
    ∷ dict (
        ("kind", str "NetworkPolicy")
        ▸ (
          "metadata",
          dict (
              ("name", str "smoke-ledger")
              ▸ (
                "annotations",
                dict (
                    (
                      "clavenar.io/listener-matrix-sha256",
                      str "0123456789abcdef0123456789abcdef0123456789abcdef0123456789abcdef",
                    )
                    ▸ end),
              )
              ▸ end),
        )
        ▸ (
          "spec",
          dict (
              (
                "podSelector",
                dict (
                    (
                      "matchLabels",
                      dict (
                          ("app.kubernetes.io/name", str "clavenar")
                          ▸ ("app.kubernetes.io/instance", str "smoke")
                          ▸ ("app.kubernetes.io/component", str "ledger")
                          ▸ end),
                    )
                    ▸ end),
              )
              ▸ ("policyTypes", list (str "Ingress" ∷ []))
              ▸ (
                "ingress",
                list (
                    dict (
                      (
                        "from",
                        list (
                            dict (
                              (
                                "podSelector",
                                dict (
                                    (
                                      "matchLabels",
                                      dict (
                                          ("app.kubernetes.io/name", str "clavenar")
                                          ▸ ("app.kubernetes.io/instance", str "smoke")
                                          ▸ ("app.kubernetes.io/component", str "proxy")
                                          ▸ end),
                                    )
                                    ▸ end),
                              )
                              ▸ end)
                            ∷ []),
                      )
                      ▸ (
                        "ports",
                        list (dict (("protocol", str "TCP") ▸ ("port", num 8083) ▸ end) ∷ []),
                      )
                      ▸ end)
                    ∷ []),
              )
              ▸ end),
        )
        ▸ end)
    ∷ []

abbrev inputs : Inputs
inputs = record {
  matrix = matrix;
  chart_metadata = dict (("appVersion", str "1.4.0") ▸ end);
  chart_values = chart_values;
  overlays = overlay ∷ [];
  manifest = null ∷ docs;
  release = "smoke";
  namespace = "default";
}

main_run : main sha256 json_loads inputs ≡ status 0
unfolding documents finish run main matrix_errors values_errors active_listeners contract_errors
    render_errors validate missing_keys pair_text ident_of entries_of version_errors digest_errors
    paths_errors is_wildcard wildcard_errors listener_errors listeners_errors is_inexact_port
    each_of_sum port_contract_errors complete_object_errors object_errors objects_errors rule_grant
    contract_grants contracts_grants granted_peers set_at allowed_errors authorized_errors
    listener_grant_errors peer_contract_errors of_kind name_of unique_errors by_name caught
    missing_names extra_names inventory_errors shared_names service_errors services_errors
    publications aliased enabled_ports port_errors object_publications ungoverned_errors
    publication_errors has_kind resource_name pod_at pods_of containers_at host_port_errors
    host_errors service_targets carries exposed_ports sort_numbers labels_at unlisted_errors
    workload_errors governed_ports port_inventory_errors workloads_errors ports_of named_port
    named_at resolved_port is_listening admits_kubelet listening_errors probe_target_errors
    container_probe_errors probe_errors_of selects_workload is_inexact_entry ingress_errors
    policy_errors workload_labels_of policies_report canonical matrix_digest tls_enabled
    with_app_protocol governed_port keyed_port drop_keys sort_ports service_ports service_selector
    publishes_not_ready service_spec add_service add_services expected_services normalized_port
    keyed_rendered_port normalized_service_spec configured_path configured_peers token_peers
    rule_sources keyed_listener listener_at ingress_rule egress_rule policy_of add_policies
    expected_policies selector peer workload_selector rule labels_match expression_matches
    pod_selector_matches term_enabled text_enabled condition_enabled contract_enabled argument
    format_from format merge merge_fields walk value_at effective_values each_indexed
    keys_are_selectors labels_are_texts is_exact_selector exact_positive_peer
    validate_exact_positive_peers dict_or_empty selector_labels labels_of names_app
    namespace_value_errors chosen_namespace foreign_peer validate_ledger_trusted_proxy_peer
    peer_requirements validate_nats_demo_mint_peer validate_simulator_peer local_peer
    validate_demo_reset_peer trusted_spiffe require_trusted trusted_peers ledger_profile_errors
    production_checks failed_checks production_errors validate_deployment_profile hook_tokens
    vault_addresses selects server_errors server_labels opens_vault is_reachable governed_peer
    is_governed pod_errors path_errors hook_errors validate_vault_test_hook primary_port_name
    console_ports console_ports_errors chosen_annotations scrape_errors console_container_errors
    console_errors validate_console_contract brain_env brain_host transport_names transport_errors
    plain_errors brain_env_errors scrape_drifts brain_clients client_entries client_drift
    client_errors clients_errors brain_container_errors brain_errors
    validate_brain_auxiliary_contract assurance_env_errors advertises_metrics assurance_tls_errors
    assurance_container_errors assurance_errors validate_assurance_contract is_bundle_map
    bundle_map_name values_of policy_families families_of route_count names_services
    inventory_drifts admits_website bundle_errors content_errors raw_errors configmap_errors
    validate_workload_capability_contract capability_env is_governed_entry named_all
    bundle_mount_drifts mounted_errors target_container_errors target_errors enabled_errors
    targets_errors values_named is_exact_rule admits_any leak_errors rule_errors peer_errors
    expected_require expected_spiffe ledger_container_errors ledger_containers_of ledger_errors
    validate_ledger_trusted_proxy_contract entry_names occurrences duplicates_of container_errors
    containers_of deployment_errors validate_service_env_uniqueness is_document has_name get_path
    containers_named port_entry container_ports ports_errors env_entries env_names governed_name
    governed_env not_once once_errors drift_errors probe_http probe_drifts probe_errors
    probes_errors named_in at_or_empty has_entry projected_items same_pairs projection_drifts
    destination_drifts joinable script_drifts projector_drifts mount_drifts certificate_errors
    tls_errors insert erase py_eq set_of to_int decimal int_text repr text_of sort_by sort_texts at
    item_in table_by table_of entries_in table_eq keys_once table_text json_string dumps
main_run = refl

main-IsApproved_example : IsApproved sha256 json_loads inputs
main-IsApproved_example = main-IsApproved sha256 json_loads inputs main_run
