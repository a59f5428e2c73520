-- ===== src/Tests/Validate.antt =====
-- `validate` and its parts on a small chart: one service under workload TLS with a NetworkPolicy.
use clavenar_charts.Base.{◌≡◌, refl, List, [], ◌∷◌}
use clavenar_charts.Base.Result.{ok}
use clavenar_charts.Value.{Value, str, dict, Fields, end, list, num, ◌▸◌}
use clavenar_charts.Tests.Capabilities.{sha256, json_loads}
use clavenar_charts.Tests.Main.{matrix, chart_values, overlay, docs, listener}
use clavenar_charts.Listener.Validate.Accepted.{IsAccepted, validate-IsAccepted}
use clavenar_charts.Listener.Validate.Policies.Exact.{HasPolicies, policies_report-HasPolicies}
use clavenar_charts.Listener.Validate.Services.Exact.{HasServices, services_errors-HasServices}
use clavenar_charts.Listener.Validate.Publications.Matched.{IsMatched, publication_errors-IsMatched}
use clavenar_charts.Listener.Validate.Workloads.Exact.{HasWorkloads, workloads_errors-HasWorkloads}
use clavenar_charts.Listener.Digest.Stamp.{matrix_digest-insert}
use clavenar_charts.Listener.Validate.Matrix.Governed.{AreListeners, listeners_errors-AreListeners}
use clavenar_charts.Listener.Validate.Matrix.Objects.{AreObjects, objects_errors-AreObjects}
use clavenar_charts.Listener.Validate.Contracts.Authorized.{
  AreGranted, peer_contract_errors-AreGranted,
}
use clavenar_charts.Listener.Validate.{
  matrix_errors, values_errors, active_listeners, contract_errors, render_errors, validate,
}
use clavenar_charts.Listener.Validate.Matrix.{
  missing_keys, pair_text, ident_of, entries_of, version_errors, digest_errors, paths_errors,
  is_wildcard, wildcard_errors, listener_errors, listeners_errors, is_inexact_port, each_of_sum,
  port_contract_errors, complete_object_errors, object_errors, objects_errors,
}
use clavenar_charts.Listener.Validate.Contracts.{
  rule_grant, contract_grants, contracts_grants, granted_peers, set_at, allowed_errors,
  authorized_errors, listener_grant_errors, peer_contract_errors,
}
use clavenar_charts.Listener.Validate.Services.{
  of_kind, name_of, unique_errors, by_name, caught, missing_names, extra_names, inventory_errors,
  shared_names, service_errors, services_errors,
}
use clavenar_charts.Listener.Validate.Publications.{
  publications, aliased, enabled_ports, port_errors, object_publications, ungoverned_errors,
  publication_errors,
}
use clavenar_charts.Listener.Validate.Workloads.{
  has_kind, resource_name, pod_at, pods_of, containers_at, host_port_errors, host_errors,
  service_targets, carries, exposed_ports, sort_numbers, labels_at, unlisted_errors,
  workload_errors, governed_ports, port_inventory_errors, workloads_errors,
}
use clavenar_charts.Listener.Validate.Workloads.Probes.{
  ports_of, named_port, named_at, resolved_port, is_listening, admits_kubelet, listening_errors,
  probe_target_errors, container_probe_errors, probe_errors_of,
}
use clavenar_charts.Listener.Validate.Policies.{
  selects_workload, is_inexact_entry, ingress_errors, policy_errors, workload_labels_of,
  policies_report,
}
use clavenar_charts.Listener.Digest.{reviewed_key, canonical, matrix_digest}
use clavenar_charts.Listener.Services.{
  tls_enabled, with_app_protocol, governed_port, keyed_port, drop_keys, sort_ports, service_ports,
  service_selector, publishes_not_ready, service_spec, add_service, add_services, expected_services,
  normalized_port, keyed_rendered_port, normalized_service_spec,
}
use clavenar_charts.Listener.Policies.{
  configured_path, configured_peers, token_peers, rule_sources, keyed_listener, listener_at,
  ingress_rule, egress_rule, policy_of, add_policies, expected_policies,
}
use clavenar_charts.Listener.Selectors.{
  selector, peer, workload_selector, rule, labels_match, expression_matches, pod_selector_matches,
}
use clavenar_charts.Listener.Condition.{
  term_enabled, text_enabled, condition_enabled, contract_enabled,
}
use clavenar_charts.Listener.Format.{argument, format_from, format}
use clavenar_charts.Listener.Values.{merge, merge_fields, walk, value_at, effective_values}
use clavenar_charts.Listener.Peers.{
  each_indexed, keys_are_selectors, labels_are_texts, is_exact_selector, exact_positive_peer,
  validate_exact_positive_peers, dict_or_empty, selector_labels, labels_of, names_app,
  namespace_value_errors, chosen_namespace, foreign_peer, validate_ledger_trusted_proxy_peer,
  peer_requirements, validate_nats_demo_mint_peer, validate_simulator_peer, local_peer,
  validate_demo_reset_peer,
}
use clavenar_charts.Listener.Profile.{
  trusted_spiffe, require_trusted, trusted_peers, ledger_profile_errors, production_checks,
  failed_checks, production_errors, validate_deployment_profile,
}
use clavenar_charts.Listener.Vault.{
  hook_tokens, vault_addresses, selects, server_errors, server_labels, opens_vault, is_reachable,
  governed_peer, is_governed, pod_errors, path_errors, hook_errors, validate_vault_test_hook,
}
use clavenar_charts.Listener.Console.{
  primary_port_name, console_ports, console_ports_errors, chosen_annotations, scrape_errors,
  console_container_errors, console_errors, validate_console_contract,
}
use clavenar_charts.Listener.Brain.{
  brain_env, brain_host, transport_names, transport_errors, plain_errors, brain_env_errors,
  scrape_drifts, brain_clients, client_entries, client_drift, client_errors, clients_errors,
  brain_container_errors, brain_errors, validate_brain_auxiliary_contract,
}
use clavenar_charts.Listener.Assurance.{
  assurance_env_errors, advertises_metrics, assurance_tls_errors, assurance_container_errors,
  assurance_errors, validate_assurance_contract,
}
use clavenar_charts.Listener.Capabilities.{
  is_bundle_map, bundle_map_name, values_of, policy_families, families_of, route_count,
  names_services, inventory_drifts, admits_website, bundle_errors, content_errors, raw_errors,
  configmap_errors, validate_workload_capability_contract,
}
use clavenar_charts.Listener.Capabilities.Target.{
  capability_env, is_governed_entry, named_all, bundle_mount_drifts, mounted_errors,
  target_container_errors, target_errors, enabled_errors, targets_errors,
}
use clavenar_charts.Listener.Ledger.{
  values_named, is_exact_rule, admits_any, leak_errors, rule_errors, peer_errors, expected_require,
  expected_spiffe, ledger_container_errors, ledger_containers_of, ledger_errors,
  validate_ledger_trusted_proxy_contract,
}
use clavenar_charts.Listener.Environments.{
  entry_names, occurrences, duplicates_of, container_errors, containers_of, deployment_errors,
  validate_service_env_uniqueness,
}
use clavenar_charts.Listener.Rendered.{is_document, has_name, get_path}
use clavenar_charts.Listener.Workload.{
  containers_named, port_entry, container_ports, ports_errors, env_entries, env_names,
  governed_name, governed_env, not_once, once_errors, drift_errors, probe_http, probe_drifts,
  probe_errors, probes_errors,
}
use clavenar_charts.Listener.Workload.Tls.{
  named_in, at_or_empty, has_entry, projected_items, same_pairs, projection_drifts,
  destination_drifts, joinable, script_drifts, projector_drifts, mount_drifts, certificate_errors,
  tls_errors,
}
use clavenar_charts.Value.Dict.{insert, erase}
use clavenar_charts.Value.Equality.{py_eq, set_of}
use clavenar_charts.Value.Number.{to_int}
use clavenar_charts.Value.Print.{decimal, int_text, repr, text_of}
use clavenar_charts.Value.Sort.{sort_by, sort_texts}
use clavenar_charts.Value.Table.{
  at, item_in, table_by, table_of, entries_in, table_eq, keys_once, table_text,
}
use clavenar_charts.Value.Json.{json_string, dumps}

abbrev values : Value
values = effective_values chart_values (overlay ∷ [])

abbrev fields : Value → Fields
fields (dict fs) = fs
fields _ = end

abbrev policies : Fields
policies = fields (
    dict (
      (
        "smoke-ledger",
        dict (
            (
              "podSelector",
              dict (
                  (
                    "matchLabels",
                    dict (
                        ("app.kubernetes.io/name", str "clavenar")
                        ▸ ("app.kubernetes.io/instance", str "smoke")
                        ▸ ("app.kubernetes.io/component", str "ledger")
                        ▸ end),
                  )
                  ▸ end),
            )
            ▸ ("policyTypes", list (str "Ingress" ∷ []))
            ▸ (
              "ingress",
              list (
                  dict (
                    ("ports", list (dict (("protocol", str "TCP") ▸ ("port", num 8083) ▸ end) ∷ []))
                    ▸ (
                      "from",
                      list (
                          dict (
                            (
                              "podSelector",
                              dict (
                                  (
                                    "matchLabels",
                                    dict (
                                        ("app.kubernetes.io/name", str "clavenar")
                                        ▸ ("app.kubernetes.io/instance", str "smoke")
                                        ▸ ("app.kubernetes.io/component", str "proxy")
                                        ▸ end),
                                  )
                                  ▸ end),
                            )
                            ▸ end)
                          ∷ []),
                    )
                    ▸ end)
                  ∷ []),
            )
            ▸ end),
      )
      ▸ end))

validate_run : validate sha256 json_loads matrix values docs "smoke" "default" (str "1.4.0") ≡ ok []
unfolding matrix_errors values_errors active_listeners contract_errors render_errors validate
    missing_keys pair_text ident_of entries_of version_errors digest_errors paths_errors is_wildcard
    wildcard_errors listener_errors listeners_errors is_inexact_port each_of_sum
    port_contract_errors complete_object_errors object_errors objects_errors rule_grant
    contract_grants contracts_grants granted_peers set_at allowed_errors authorized_errors
    listener_grant_errors peer_contract_errors of_kind name_of unique_errors by_name caught
    missing_names extra_names inventory_errors shared_names service_errors services_errors
    publications aliased enabled_ports port_errors object_publications ungoverned_errors
    publication_errors has_kind resource_name pod_at pods_of containers_at host_port_errors
    host_errors service_targets carries exposed_ports sort_numbers labels_at unlisted_errors
    workload_errors governed_ports port_inventory_errors workloads_errors ports_of named_port
    named_at resolved_port is_listening admits_kubelet listening_errors probe_target_errors
    container_probe_errors probe_errors_of selects_workload is_inexact_entry ingress_errors
    policy_errors workload_labels_of policies_report canonical matrix_digest tls_enabled
    with_app_protocol governed_port keyed_port drop_keys sort_ports service_ports service_selector
    publishes_not_ready service_spec add_service add_services expected_services normalized_port
    keyed_rendered_port normalized_service_spec configured_path configured_peers token_peers
    rule_sources keyed_listener listener_at ingress_rule egress_rule policy_of add_policies
    expected_policies selector peer workload_selector rule labels_match expression_matches
    pod_selector_matches term_enabled text_enabled condition_enabled contract_enabled argument
    format_from format merge merge_fields walk value_at effective_values each_indexed
    keys_are_selectors labels_are_texts is_exact_selector exact_positive_peer
    validate_exact_positive_peers dict_or_empty selector_labels labels_of names_app
    namespace_value_errors chosen_namespace foreign_peer validate_ledger_trusted_proxy_peer
    peer_requirements validate_nats_demo_mint_peer validate_simulator_peer local_peer
    validate_demo_reset_peer trusted_spiffe require_trusted trusted_peers ledger_profile_errors
    production_checks failed_checks production_errors validate_deployment_profile hook_tokens
    vault_addresses selects server_errors server_labels opens_vault is_reachable governed_peer
    is_governed pod_errors path_errors hook_errors validate_vault_test_hook primary_port_name
    console_ports console_ports_errors chosen_annotations scrape_errors console_container_errors
    console_errors validate_console_contract brain_env brain_host transport_names transport_errors
    plain_errors brain_env_errors scrape_drifts brain_clients client_entries client_drift
    client_errors clients_errors brain_container_errors brain_errors
    validate_brain_auxiliary_contract assurance_env_errors advertises_metrics assurance_tls_errors
    assurance_container_errors assurance_errors validate_assurance_contract is_bundle_map
    bundle_map_name values_of policy_families families_of route_count names_services
    inventory_drifts admits_website bundle_errors content_errors raw_errors configmap_errors
    validate_workload_capability_contract capability_env is_governed_entry named_all
    bundle_mount_drifts mounted_errors target_container_errors target_errors enabled_errors
    targets_errors values_named is_exact_rule admits_any leak_errors rule_errors peer_errors
    expected_require expected_spiffe ledger_container_errors ledger_containers_of ledger_errors
    validate_ledger_trusted_proxy_contract entry_names occurrences duplicates_of container_errors
    containers_of deployment_errors validate_service_env_uniqueness is_document has_name get_path
    containers_named port_entry container_ports ports_errors env_entries env_names governed_name
    governed_env not_once once_errors drift_errors probe_http probe_drifts probe_errors
    probes_errors named_in at_or_empty has_entry projected_items same_pairs projection_drifts
    destination_drifts joinable script_drifts projector_drifts mount_drifts certificate_errors
    tls_errors insert erase py_eq set_of to_int decimal int_text repr text_of sort_by sort_texts at
    item_in table_by table_of entries_in table_eq keys_once table_text json_string dumps
validate_run = refl

validate-IsAccepted_example :
    IsAccepted sha256 json_loads matrix values docs "smoke" "default" (str "1.4.0")
validate-IsAccepted_example =
    validate-IsAccepted sha256 json_loads matrix values docs "smoke" "default" (str "1.4.0")
      validate_run

policies_run :
    policies_report matrix values docs "smoke"
      "0123456789abcdef0123456789abcdef0123456789abcdef0123456789abcdef"
    ≡ ok ([], policies)
unfolding matrix_errors values_errors active_listeners contract_errors render_errors validate
    missing_keys pair_text ident_of entries_of version_errors digest_errors paths_errors is_wildcard
    wildcard_errors listener_errors listeners_errors is_inexact_port each_of_sum
    port_contract_errors complete_object_errors object_errors objects_errors rule_grant
    contract_grants contracts_grants granted_peers set_at allowed_errors authorized_errors
    listener_grant_errors peer_contract_errors of_kind name_of unique_errors by_name caught
    missing_names extra_names inventory_errors shared_names service_errors services_errors
    publications aliased enabled_ports port_errors object_publications ungoverned_errors
    publication_errors has_kind resource_name pod_at pods_of containers_at host_port_errors
    host_errors service_targets carries exposed_ports sort_numbers labels_at unlisted_errors
    workload_errors governed_ports port_inventory_errors workloads_errors ports_of named_port
    named_at resolved_port is_listening admits_kubelet listening_errors probe_target_errors
    container_probe_errors probe_errors_of selects_workload is_inexact_entry ingress_errors
    policy_errors workload_labels_of policies_report canonical matrix_digest tls_enabled
    with_app_protocol governed_port keyed_port drop_keys sort_ports service_ports service_selector
    publishes_not_ready service_spec add_service add_services expected_services normalized_port
    keyed_rendered_port normalized_service_spec configured_path configured_peers token_peers
    rule_sources keyed_listener listener_at ingress_rule egress_rule policy_of add_policies
    expected_policies selector peer workload_selector rule labels_match expression_matches
    pod_selector_matches term_enabled text_enabled condition_enabled contract_enabled argument
    format_from format merge merge_fields walk value_at effective_values each_indexed
    keys_are_selectors labels_are_texts is_exact_selector exact_positive_peer
    validate_exact_positive_peers dict_or_empty selector_labels labels_of names_app
    namespace_value_errors chosen_namespace foreign_peer validate_ledger_trusted_proxy_peer
    peer_requirements validate_nats_demo_mint_peer validate_simulator_peer local_peer
    validate_demo_reset_peer trusted_spiffe require_trusted trusted_peers ledger_profile_errors
    production_checks failed_checks production_errors validate_deployment_profile hook_tokens
    vault_addresses selects server_errors server_labels opens_vault is_reachable governed_peer
    is_governed pod_errors path_errors hook_errors validate_vault_test_hook primary_port_name
    console_ports console_ports_errors chosen_annotations scrape_errors console_container_errors
    console_errors validate_console_contract brain_env brain_host transport_names transport_errors
    plain_errors brain_env_errors scrape_drifts brain_clients client_entries client_drift
    client_errors clients_errors brain_container_errors brain_errors
    validate_brain_auxiliary_contract assurance_env_errors advertises_metrics assurance_tls_errors
    assurance_container_errors assurance_errors validate_assurance_contract is_bundle_map
    bundle_map_name values_of policy_families families_of route_count names_services
    inventory_drifts admits_website bundle_errors content_errors raw_errors configmap_errors
    validate_workload_capability_contract capability_env is_governed_entry named_all
    bundle_mount_drifts mounted_errors target_container_errors target_errors enabled_errors
    targets_errors values_named is_exact_rule admits_any leak_errors rule_errors peer_errors
    expected_require expected_spiffe ledger_container_errors ledger_containers_of ledger_errors
    validate_ledger_trusted_proxy_contract entry_names occurrences duplicates_of container_errors
    containers_of deployment_errors validate_service_env_uniqueness is_document has_name get_path
    containers_named port_entry container_ports ports_errors env_entries env_names governed_name
    governed_env not_once once_errors drift_errors probe_http probe_drifts probe_errors
    probes_errors named_in at_or_empty has_entry projected_items same_pairs projection_drifts
    destination_drifts joinable script_drifts projector_drifts mount_drifts certificate_errors
    tls_errors insert erase py_eq set_of to_int decimal int_text repr text_of sort_by sort_texts at
    item_in table_by table_of entries_in table_eq keys_once table_text json_string dumps
policies_run = refl

policies_report-HasPolicies_example :
    HasPolicies matrix values docs "smoke"
      "0123456789abcdef0123456789abcdef0123456789abcdef0123456789abcdef" policies
policies_report-HasPolicies_example =
    policies_report-HasPolicies matrix values docs "smoke"
      "0123456789abcdef0123456789abcdef0123456789abcdef0123456789abcdef" policies policies_run

services_run : services_errors matrix values docs "smoke" "default" ≡ ok []
unfolding matrix_errors values_errors active_listeners contract_errors render_errors validate
    missing_keys pair_text ident_of entries_of version_errors digest_errors paths_errors is_wildcard
    wildcard_errors listener_errors listeners_errors is_inexact_port each_of_sum
    port_contract_errors complete_object_errors object_errors objects_errors rule_grant
    contract_grants contracts_grants granted_peers set_at allowed_errors authorized_errors
    listener_grant_errors peer_contract_errors of_kind name_of unique_errors by_name caught
    missing_names extra_names inventory_errors shared_names service_errors services_errors
    publications aliased enabled_ports port_errors object_publications ungoverned_errors
    publication_errors has_kind resource_name pod_at pods_of containers_at host_port_errors
    host_errors service_targets carries exposed_ports sort_numbers labels_at unlisted_errors
    workload_errors governed_ports port_inventory_errors workloads_errors ports_of named_port
    named_at resolved_port is_listening admits_kubelet listening_errors probe_target_errors
    container_probe_errors probe_errors_of selects_workload is_inexact_entry ingress_errors
    policy_errors workload_labels_of policies_report canonical matrix_digest tls_enabled
    with_app_protocol governed_port keyed_port drop_keys sort_ports service_ports service_selector
    publishes_not_ready service_spec add_service add_services expected_services normalized_port
    keyed_rendered_port normalized_service_spec configured_path configured_peers token_peers
    rule_sources keyed_listener listener_at ingress_rule egress_rule policy_of add_policies
    expected_policies selector peer workload_selector rule labels_match expression_matches
    pod_selector_matches term_enabled text_enabled condition_enabled contract_enabled argument
    format_from format merge merge_fields walk value_at effective_values each_indexed
    keys_are_selectors labels_are_texts is_exact_selector exact_positive_peer
    validate_exact_positive_peers dict_or_empty selector_labels labels_of names_app
    namespace_value_errors chosen_namespace foreign_peer validate_ledger_trusted_proxy_peer
    peer_requirements validate_nats_demo_mint_peer validate_simulator_peer local_peer
    validate_demo_reset_peer trusted_spiffe require_trusted trusted_peers ledger_profile_errors
    production_checks failed_checks production_errors validate_deployment_profile hook_tokens
    vault_addresses selects server_errors server_labels opens_vault is_reachable governed_peer
    is_governed pod_errors path_errors hook_errors validate_vault_test_hook primary_port_name
    console_ports console_ports_errors chosen_annotations scrape_errors console_container_errors
    console_errors validate_console_contract brain_env brain_host transport_names transport_errors
    plain_errors brain_env_errors scrape_drifts brain_clients client_entries client_drift
    client_errors clients_errors brain_container_errors brain_errors
    validate_brain_auxiliary_contract assurance_env_errors advertises_metrics assurance_tls_errors
    assurance_container_errors assurance_errors validate_assurance_contract is_bundle_map
    bundle_map_name values_of policy_families families_of route_count names_services
    inventory_drifts admits_website bundle_errors content_errors raw_errors configmap_errors
    validate_workload_capability_contract capability_env is_governed_entry named_all
    bundle_mount_drifts mounted_errors target_container_errors target_errors enabled_errors
    targets_errors values_named is_exact_rule admits_any leak_errors rule_errors peer_errors
    expected_require expected_spiffe ledger_container_errors ledger_containers_of ledger_errors
    validate_ledger_trusted_proxy_contract entry_names occurrences duplicates_of container_errors
    containers_of deployment_errors validate_service_env_uniqueness is_document has_name get_path
    containers_named port_entry container_ports ports_errors env_entries env_names governed_name
    governed_env not_once once_errors drift_errors probe_http probe_drifts probe_errors
    probes_errors named_in at_or_empty has_entry projected_items same_pairs projection_drifts
    destination_drifts joinable script_drifts projector_drifts mount_drifts certificate_errors
    tls_errors insert erase py_eq set_of to_int decimal int_text repr text_of sort_by sort_texts at
    item_in table_by table_of entries_in table_eq keys_once table_text json_string dumps
services_run = refl

services_errors-HasServices_example : HasServices matrix values docs "smoke" "default"
services_errors-HasServices_example =
    services_errors-HasServices matrix values docs "smoke" "default" services_run

abbrev active : List Value
active = listener ∷ []

publications_run : publication_errors matrix values active ≡ ok []
unfolding matrix_errors values_errors active_listeners contract_errors render_errors validate
    missing_keys pair_text ident_of entries_of version_errors digest_errors paths_errors is_wildcard
    wildcard_errors listener_errors listeners_errors is_inexact_port each_of_sum
    port_contract_errors complete_object_errors object_errors objects_errors rule_grant
    contract_grants contracts_grants granted_peers set_at allowed_errors authorized_errors
    listener_grant_errors peer_contract_errors of_kind name_of unique_errors by_name caught
    missing_names extra_names inventory_errors shared_names service_errors services_errors
    publications aliased enabled_ports port_errors object_publications ungoverned_errors
    publication_errors has_kind resource_name pod_at pods_of containers_at host_port_errors
    host_errors service_targets carries exposed_ports sort_numbers labels_at unlisted_errors
    workload_errors governed_ports port_inventory_errors workloads_errors ports_of named_port
    named_at resolved_port is_listening admits_kubelet listening_errors probe_target_errors
    container_probe_errors probe_errors_of selects_workload is_inexact_entry ingress_errors
    policy_errors workload_labels_of policies_report canonical matrix_digest tls_enabled
    with_app_protocol governed_port keyed_port drop_keys sort_ports service_ports service_selector
    publishes_not_ready service_spec add_service add_services expected_services normalized_port
    keyed_rendered_port normalized_service_spec configured_path configured_peers token_peers
    rule_sources keyed_listener listener_at ingress_rule egress_rule policy_of add_policies
    expected_policies selector peer workload_selector rule labels_match expression_matches
    pod_selector_matches term_enabled text_enabled condition_enabled contract_enabled argument
    format_from format merge merge_fields walk value_at effective_values each_indexed
    keys_are_selectors labels_are_texts is_exact_selector exact_positive_peer
    validate_exact_positive_peers dict_or_empty selector_labels labels_of names_app
    namespace_value_errors chosen_namespace foreign_peer validate_ledger_trusted_proxy_peer
    peer_requirements validate_nats_demo_mint_peer validate_simulator_peer local_peer
    validate_demo_reset_peer trusted_spiffe require_trusted trusted_peers ledger_profile_errors
    production_checks failed_checks production_errors validate_deployment_profile hook_tokens
    vault_addresses selects server_errors server_labels opens_vault is_reachable governed_peer
    is_governed pod_errors path_errors hook_errors validate_vault_test_hook primary_port_name
    console_ports console_ports_errors chosen_annotations scrape_errors console_container_errors
    console_errors validate_console_contract brain_env brain_host transport_names transport_errors
    plain_errors brain_env_errors scrape_drifts brain_clients client_entries client_drift
    client_errors clients_errors brain_container_errors brain_errors
    validate_brain_auxiliary_contract assurance_env_errors advertises_metrics assurance_tls_errors
    assurance_container_errors assurance_errors validate_assurance_contract is_bundle_map
    bundle_map_name values_of policy_families families_of route_count names_services
    inventory_drifts admits_website bundle_errors content_errors raw_errors configmap_errors
    validate_workload_capability_contract capability_env is_governed_entry named_all
    bundle_mount_drifts mounted_errors target_container_errors target_errors enabled_errors
    targets_errors values_named is_exact_rule admits_any leak_errors rule_errors peer_errors
    expected_require expected_spiffe ledger_container_errors ledger_containers_of ledger_errors
    validate_ledger_trusted_proxy_contract entry_names occurrences duplicates_of container_errors
    containers_of deployment_errors validate_service_env_uniqueness is_document has_name get_path
    containers_named port_entry container_ports ports_errors env_entries env_names governed_name
    governed_env not_once once_errors drift_errors probe_http probe_drifts probe_errors
    probes_errors named_in at_or_empty has_entry projected_items same_pairs projection_drifts
    destination_drifts joinable script_drifts projector_drifts mount_drifts certificate_errors
    tls_errors insert erase py_eq set_of to_int decimal int_text repr text_of sort_by sort_texts at
    item_in table_by table_of entries_in table_eq keys_once table_text json_string dumps
publications_run = refl

publication_errors-IsMatched_example : IsMatched matrix values active
publication_errors-IsMatched_example =
    publication_errors-IsMatched matrix values active publications_run

workloads_run : workloads_errors docs "smoke" active ≡ ok []
unfolding matrix_errors values_errors active_listeners contract_errors render_errors validate
    missing_keys pair_text ident_of entries_of version_errors digest_errors paths_errors is_wildcard
    wildcard_errors listener_errors listeners_errors is_inexact_port each_of_sum
    port_contract_errors complete_object_errors object_errors objects_errors rule_grant
    contract_grants contracts_grants granted_peers set_at allowed_errors authorized_errors
    listener_grant_errors peer_contract_errors of_kind name_of unique_errors by_name caught
    missing_names extra_names inventory_errors shared_names service_errors services_errors
    publications aliased enabled_ports port_errors object_publications ungoverned_errors
    publication_errors has_kind resource_name pod_at pods_of containers_at host_port_errors
    host_errors service_targets carries exposed_ports sort_numbers labels_at unlisted_errors
    workload_errors governed_ports port_inventory_errors workloads_errors ports_of named_port
    named_at resolved_port is_listening admits_kubelet listening_errors probe_target_errors
    container_probe_errors probe_errors_of selects_workload is_inexact_entry ingress_errors
    policy_errors workload_labels_of policies_report canonical matrix_digest tls_enabled
    with_app_protocol governed_port keyed_port drop_keys sort_ports service_ports service_selector
    publishes_not_ready service_spec add_service add_services expected_services normalized_port
    keyed_rendered_port normalized_service_spec configured_path configured_peers token_peers
    rule_sources keyed_listener listener_at ingress_rule egress_rule policy_of add_policies
    expected_policies selector peer workload_selector rule labels_match expression_matches
    pod_selector_matches term_enabled text_enabled condition_enabled contract_enabled argument
    format_from format merge merge_fields walk value_at effective_values each_indexed
    keys_are_selectors labels_are_texts is_exact_selector exact_positive_peer
    validate_exact_positive_peers dict_or_empty selector_labels labels_of names_app
    namespace_value_errors chosen_namespace foreign_peer validate_ledger_trusted_proxy_peer
    peer_requirements validate_nats_demo_mint_peer validate_simulator_peer local_peer
    validate_demo_reset_peer trusted_spiffe require_trusted trusted_peers ledger_profile_errors
    production_checks failed_checks production_errors validate_deployment_profile hook_tokens
    vault_addresses selects server_errors server_labels opens_vault is_reachable governed_peer
    is_governed pod_errors path_errors hook_errors validate_vault_test_hook primary_port_name
    console_ports console_ports_errors chosen_annotations scrape_errors console_container_errors
    console_errors validate_console_contract brain_env brain_host transport_names transport_errors
    plain_errors brain_env_errors scrape_drifts brain_clients client_entries client_drift
    client_errors clients_errors brain_container_errors brain_errors
    validate_brain_auxiliary_contract assurance_env_errors advertises_metrics assurance_tls_errors
    assurance_container_errors assurance_errors validate_assurance_contract is_bundle_map
    bundle_map_name values_of policy_families families_of route_count names_services
    inventory_drifts admits_website bundle_errors content_errors raw_errors configmap_errors
    validate_workload_capability_contract capability_env is_governed_entry named_all
    bundle_mount_drifts mounted_errors target_container_errors target_errors enabled_errors
    targets_errors values_named is_exact_rule admits_any leak_errors rule_errors peer_errors
    expected_require expected_spiffe ledger_container_errors ledger_containers_of ledger_errors
    validate_ledger_trusted_proxy_contract entry_names occurrences duplicates_of container_errors
    containers_of deployment_errors validate_service_env_uniqueness is_document has_name get_path
    containers_named port_entry container_ports ports_errors env_entries env_names governed_name
    governed_env not_once once_errors drift_errors probe_http probe_drifts probe_errors
    probes_errors named_in at_or_empty has_entry projected_items same_pairs projection_drifts
    destination_drifts joinable script_drifts projector_drifts mount_drifts certificate_errors
    tls_errors insert erase py_eq set_of to_int decimal int_text repr text_of sort_by sort_texts at
    item_in table_by table_of entries_in table_eq keys_once table_text json_string dumps
workloads_run = refl

workloads_errors-HasWorkloads_example : HasWorkloads docs "smoke" active
workloads_errors-HasWorkloads_example =
    workloads_errors-HasWorkloads docs "smoke" active workloads_run

abbrev ownership : Value
ownership = dict (("core", str "the chart") ▸ end)

abbrev objects : List Value
objects =
    (dict (
        ("id", str "ledger")
        ▸ ("selectorOwner", str "core")
        ▸ ("enabledWhen", str "services.ledger.enabled")
        ▸ ("name", str "{release}-ledger")
        ▸ ("type", str "ClusterIP")
        ▸ (
          "ports",
          list (
              dict (
                ("name", str "http")
                ▸ ("port", num 8083)
                ▸ ("targetPort", str "http")
                ▸ ("protocol", str "TCP")
                ▸ end)
              ∷ []),
        )
        ▸ end)
      ∷ [])

abbrev contracts : List Value
contracts =
    (dict (
        ("service", str "ledger")
        ▸ ("owner", str "core")
        ▸ (
          "rules",
          list (dict (("listenerId", str "http") ▸ ("peers", list (str "proxy" ∷ [])) ▸ end) ∷ []),
        )
        ▸ end)
      ∷ [])

listeners_run : listeners_errors ownership 0 [] active ≡ ok []
unfolding matrix_errors values_errors active_listeners contract_errors render_errors validate
    missing_keys pair_text ident_of entries_of version_errors digest_errors paths_errors is_wildcard
    wildcard_errors listener_errors listeners_errors is_inexact_port each_of_sum
    port_contract_errors complete_object_errors object_errors objects_errors rule_grant
    contract_grants contracts_grants granted_peers set_at allowed_errors authorized_errors
    listener_grant_errors peer_contract_errors of_kind name_of unique_errors by_name caught
    missing_names extra_names inventory_errors shared_names service_errors services_errors
    publications aliased enabled_ports port_errors object_publications ungoverned_errors
    publication_errors has_kind resource_name pod_at pods_of containers_at host_port_errors
    host_errors service_targets carries exposed_ports sort_numbers labels_at unlisted_errors
    workload_errors governed_ports port_inventory_errors workloads_errors ports_of named_port
    named_at resolved_port is_listening admits_kubelet listening_errors probe_target_errors
    container_probe_errors probe_errors_of selects_workload is_inexact_entry ingress_errors
    policy_errors workload_labels_of policies_report canonical matrix_digest tls_enabled
    with_app_protocol governed_port keyed_port drop_keys sort_ports service_ports service_selector
    publishes_not_ready service_spec add_service add_services expected_services normalized_port
    keyed_rendered_port normalized_service_spec configured_path configured_peers token_peers
    rule_sources keyed_listener listener_at ingress_rule egress_rule policy_of add_policies
    expected_policies selector peer workload_selector rule labels_match expression_matches
    pod_selector_matches term_enabled text_enabled condition_enabled contract_enabled argument
    format_from format merge merge_fields walk value_at effective_values each_indexed
    keys_are_selectors labels_are_texts is_exact_selector exact_positive_peer
    validate_exact_positive_peers dict_or_empty selector_labels labels_of names_app
    namespace_value_errors chosen_namespace foreign_peer validate_ledger_trusted_proxy_peer
    peer_requirements validate_nats_demo_mint_peer validate_simulator_peer local_peer
    validate_demo_reset_peer trusted_spiffe require_trusted trusted_peers ledger_profile_errors
    production_checks failed_checks production_errors validate_deployment_profile hook_tokens
    vault_addresses selects server_errors server_labels opens_vault is_reachable governed_peer
    is_governed pod_errors path_errors hook_errors validate_vault_test_hook primary_port_name
    console_ports console_ports_errors chosen_annotations scrape_errors console_container_errors
    console_errors validate_console_contract brain_env brain_host transport_names transport_errors
    plain_errors brain_env_errors scrape_drifts brain_clients client_entries client_drift
    client_errors clients_errors brain_container_errors brain_errors
    validate_brain_auxiliary_contract assurance_env_errors advertises_metrics assurance_tls_errors
    assurance_container_errors assurance_errors validate_assurance_contract is_bundle_map
    bundle_map_name values_of policy_families families_of route_count names_services
    inventory_drifts admits_website bundle_errors content_errors raw_errors configmap_errors
    validate_workload_capability_contract capability_env is_governed_entry named_all
    bundle_mount_drifts mounted_errors target_container_errors target_errors enabled_errors
    targets_errors values_named is_exact_rule admits_any leak_errors rule_errors peer_errors
    expected_require expected_spiffe ledger_container_errors ledger_containers_of ledger_errors
    validate_ledger_trusted_proxy_contract entry_names occurrences duplicates_of container_errors
    containers_of deployment_errors validate_service_env_uniqueness is_document has_name get_path
    containers_named port_entry container_ports ports_errors env_entries env_names governed_name
    governed_env not_once once_errors drift_errors probe_http probe_drifts probe_errors
    probes_errors named_in at_or_empty has_entry projected_items same_pairs projection_drifts
    destination_drifts joinable script_drifts projector_drifts mount_drifts certificate_errors
    tls_errors insert erase py_eq set_of to_int decimal int_text repr text_of sort_by sort_texts at
    item_in table_by table_of entries_in table_eq keys_once table_text json_string dumps
listeners_run = refl

listeners_errors-AreListeners_example : AreListeners ownership [] active
listeners_errors-AreListeners_example =
    listeners_errors-AreListeners ownership 0 [] active listeners_run

objects_run : objects_errors 0 [] objects ≡ ok []
unfolding matrix_errors values_errors active_listeners contract_errors render_errors validate
    missing_keys pair_text ident_of entries_of version_errors digest_errors paths_errors is_wildcard
    wildcard_errors listener_errors listeners_errors is_inexact_port each_of_sum
    port_contract_errors complete_object_errors object_errors objects_errors rule_grant
    contract_grants contracts_grants granted_peers set_at allowed_errors authorized_errors
    listener_grant_errors peer_contract_errors of_kind name_of unique_errors by_name caught
    missing_names extra_names inventory_errors shared_names service_errors services_errors
    publications aliased enabled_ports port_errors object_publications ungoverned_errors
    publication_errors has_kind resource_name pod_at pods_of containers_at host_port_errors
    host_errors service_targets carries exposed_ports sort_numbers labels_at unlisted_errors
    workload_errors governed_ports port_inventory_errors workloads_errors ports_of named_port
    named_at resolved_port is_listening admits_kubelet listening_errors probe_target_errors
    container_probe_errors probe_errors_of selects_workload is_inexact_entry ingress_errors
    policy_errors workload_labels_of policies_report canonical matrix_digest tls_enabled
    with_app_protocol governed_port keyed_port drop_keys sort_ports service_ports service_selector
    publishes_not_ready service_spec add_service add_services expected_services normalized_port
    keyed_rendered_port normalized_service_spec configured_path configured_peers token_peers
    rule_sources keyed_listener listener_at ingress_rule egress_rule policy_of add_policies
    expected_policies selector peer workload_selector rule labels_match expression_matches
    pod_selector_matches term_enabled text_enabled condition_enabled contract_enabled argument
    format_from format merge merge_fields walk value_at effective_values each_indexed
    keys_are_selectors labels_are_texts is_exact_selector exact_positive_peer
    validate_exact_positive_peers dict_or_empty selector_labels labels_of names_app
    namespace_value_errors chosen_namespace foreign_peer validate_ledger_trusted_proxy_peer
    peer_requirements validate_nats_demo_mint_peer validate_simulator_peer local_peer
    validate_demo_reset_peer trusted_spiffe require_trusted trusted_peers ledger_profile_errors
    production_checks failed_checks production_errors validate_deployment_profile hook_tokens
    vault_addresses selects server_errors server_labels opens_vault is_reachable governed_peer
    is_governed pod_errors path_errors hook_errors validate_vault_test_hook primary_port_name
    console_ports console_ports_errors chosen_annotations scrape_errors console_container_errors
    console_errors validate_console_contract brain_env brain_host transport_names transport_errors
    plain_errors brain_env_errors scrape_drifts brain_clients client_entries client_drift
    client_errors clients_errors brain_container_errors brain_errors
    validate_brain_auxiliary_contract assurance_env_errors advertises_metrics assurance_tls_errors
    assurance_container_errors assurance_errors validate_assurance_contract is_bundle_map
    bundle_map_name values_of policy_families families_of route_count names_services
    inventory_drifts admits_website bundle_errors content_errors raw_errors configmap_errors
    validate_workload_capability_contract capability_env is_governed_entry named_all
    bundle_mount_drifts mounted_errors target_container_errors target_errors enabled_errors
    targets_errors values_named is_exact_rule admits_any leak_errors rule_errors peer_errors
    expected_require expected_spiffe ledger_container_errors ledger_containers_of ledger_errors
    validate_ledger_trusted_proxy_contract entry_names occurrences duplicates_of container_errors
    containers_of deployment_errors validate_service_env_uniqueness is_document has_name get_path
    containers_named port_entry container_ports ports_errors env_entries env_names governed_name
    governed_env not_once once_errors drift_errors probe_http probe_drifts probe_errors
    probes_errors named_in at_or_empty has_entry projected_items same_pairs projection_drifts
    destination_drifts joinable script_drifts projector_drifts mount_drifts certificate_errors
    tls_errors insert erase py_eq set_of to_int decimal int_text repr text_of sort_by sort_texts at
    item_in table_by table_of entries_in table_eq keys_once table_text json_string dumps
objects_run = refl

objects_errors-AreObjects_example : AreObjects [] objects
objects_errors-AreObjects_example = objects_errors-AreObjects 0 [] objects objects_run

contracts_run : peer_contract_errors ownership active contracts ≡ ok []
unfolding matrix_errors values_errors active_listeners contract_errors render_errors validate
    missing_keys pair_text ident_of entries_of version_errors digest_errors paths_errors is_wildcard
    wildcard_errors listener_errors listeners_errors is_inexact_port each_of_sum
    port_contract_errors complete_object_errors object_errors objects_errors rule_grant
    contract_grants contracts_grants granted_peers set_at allowed_errors authorized_errors
    listener_grant_errors peer_contract_errors of_kind name_of unique_errors by_name caught
    missing_names extra_names inventory_errors shared_names service_errors services_errors
    publications aliased enabled_ports port_errors object_publications ungoverned_errors
    publication_errors has_kind resource_name pod_at pods_of containers_at host_port_errors
    host_errors service_targets carries exposed_ports sort_numbers labels_at unlisted_errors
    workload_errors governed_ports port_inventory_errors workloads_errors ports_of named_port
    named_at resolved_port is_listening admits_kubelet listening_errors probe_target_errors
    container_probe_errors probe_errors_of selects_workload is_inexact_entry ingress_errors
    policy_errors workload_labels_of policies_report canonical matrix_digest tls_enabled
    with_app_protocol governed_port keyed_port drop_keys sort_ports service_ports service_selector
    publishes_not_ready service_spec add_service add_services expected_services normalized_port
    keyed_rendered_port normalized_service_spec configured_path configured_peers token_peers
    rule_sources keyed_listener listener_at ingress_rule egress_rule policy_of add_policies
    expected_policies selector peer workload_selector rule labels_match expression_matches
    pod_selector_matches term_enabled text_enabled condition_enabled contract_enabled argument
    format_from format merge merge_fields walk value_at effective_values each_indexed
    keys_are_selectors labels_are_texts is_exact_selector exact_positive_peer
    validate_exact_positive_peers dict_or_empty selector_labels labels_of names_app
    namespace_value_errors chosen_namespace foreign_peer validate_ledger_trusted_proxy_peer
    peer_requirements validate_nats_demo_mint_peer validate_simulator_peer local_peer
    validate_demo_reset_peer trusted_spiffe require_trusted trusted_peers ledger_profile_errors
    production_checks failed_checks production_errors validate_deployment_profile hook_tokens
    vault_addresses selects server_errors server_labels opens_vault is_reachable governed_peer
    is_governed pod_errors path_errors hook_errors validate_vault_test_hook primary_port_name
    console_ports console_ports_errors chosen_annotations scrape_errors console_container_errors
    console_errors validate_console_contract brain_env brain_host transport_names transport_errors
    plain_errors brain_env_errors scrape_drifts brain_clients client_entries client_drift
    client_errors clients_errors brain_container_errors brain_errors
    validate_brain_auxiliary_contract assurance_env_errors advertises_metrics assurance_tls_errors
    assurance_container_errors assurance_errors validate_assurance_contract is_bundle_map
    bundle_map_name values_of policy_families families_of route_count names_services
    inventory_drifts admits_website bundle_errors content_errors raw_errors configmap_errors
    validate_workload_capability_contract capability_env is_governed_entry named_all
    bundle_mount_drifts mounted_errors target_container_errors target_errors enabled_errors
    targets_errors values_named is_exact_rule admits_any leak_errors rule_errors peer_errors
    expected_require expected_spiffe ledger_container_errors ledger_containers_of ledger_errors
    validate_ledger_trusted_proxy_contract entry_names occurrences duplicates_of container_errors
    containers_of deployment_errors validate_service_env_uniqueness is_document has_name get_path
    containers_named port_entry container_ports ports_errors env_entries env_names governed_name
    governed_env not_once once_errors drift_errors probe_http probe_drifts probe_errors
    probes_errors named_in at_or_empty has_entry projected_items same_pairs projection_drifts
    destination_drifts joinable script_drifts projector_drifts mount_drifts certificate_errors
    tls_errors insert erase py_eq set_of to_int decimal int_text repr text_of sort_by sort_texts at
    item_in table_by table_of entries_in table_eq keys_once table_text json_string dumps
contracts_run = refl

peer_contract_errors-AreGranted_example : AreGranted ownership active contracts
peer_contract_errors-AreGranted_example =
    peer_contract_errors-AreGranted ownership active contracts contracts_run

abbrev unreviewed : Fields
unreviewed = ("schemaVersion", str "1.0") ▸ ("reviewedContractSha256", str "old") ▸ end

matrix_digest-insert_example :
    (matrix_digest sha256 (
        dict (
          insert reviewed_key
            (str "0123456789abcdef0123456789abcdef0123456789abcdef0123456789abcdef")
            unreviewed))
      ≡ ok "0123456789abcdef0123456789abcdef0123456789abcdef0123456789abcdef")
    × (digest_errors
          (dict (
            insert reviewed_key
              (str "0123456789abcdef0123456789abcdef0123456789abcdef0123456789abcdef")
              unreviewed))
          "0123456789abcdef0123456789abcdef0123456789abcdef0123456789abcdef"
        ≡ ok [])
unfolding matrix_digest
matrix_digest-insert_example =
    matrix_digest-insert sha256 unreviewed
      "0123456789abcdef0123456789abcdef0123456789abcdef0123456789abcdef" refl
