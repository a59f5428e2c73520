-- ===== src/Listener/Validate/Policies.antt =====
-- The part of `validate` that compares the rendered NetworkPolicies with the governed ones.
pub mod Exact
use clavenar_charts.Base.{
  String, ◌<>◌, Bool, true, false, not, ◌||◌, List, [], ◌∷◌, nat_eq, if◌then◌else◌,
}
use clavenar_charts.Base.Result.{Result, ok, ◌>>=◌, keep_if, gather, traverse, any_of}
use clavenar_charts.Value.{Value, str, dict, Fields, end, list}
use clavenar_charts.Value.Equality.{py_eq}
use clavenar_charts.Value.Access.{truthy, get, get_or, item, each, or_else, len}
use clavenar_charts.Value.Print.{repr}
use clavenar_charts.Value.Table.{Table, item_in}
use clavenar_charts.Listener.Errors.{refuse, refuse_if, ◌<+>◌}
use clavenar_charts.Listener.Rendered.{get_path}
use clavenar_charts.Listener.Selectors.{items_of_dict}
use clavenar_charts.Listener.Policies.{expected_policies}
use clavenar_charts.Listener.Validate.Services.{
  of_kind, unique_errors, by_name, caught, inventory_errors, shared_names,
}
use clavenar_charts.Listener.Validate.Workloads.{has_kind, workload_kinds, labels_at, carries}

abbrev pub digest_annotation : String
digest_annotation = "clavenar.io/listener-matrix-sha256"

-- `any(all(labels.get(k) == v for k, v in target.items()) for labels in workload_labels)`
unfoldable pub selects_workload : Value → List Value → Result Bool
selects_workload target workload_labels =
    any_of (λ labels. items_of_dict target >>= λ wanted. carries labels wanted) workload_labels

-- An ingress entry without ports, or with several.
unfoldable pub is_inexact_entry : Value → Result Bool
is_inexact_entry entry = do
  ports ← get entry "ports"
  if not (truthy ports) then ok true else (len ports >>= λ count. ok (not (nat_eq count 1)))

unfoldable pub ingress_errors : String → Value → Result (List String)
ingress_errors name spec = do
  raw ← get spec "ingress"
  entries ← each (or_else raw (list []))
  gather
      (λ entry.
        refuse_if (is_inexact_entry entry)
          ("NetworkPolicy " <> name <> " has a portless or multi-port ingress rule"))
      entries

-- The errors about the policy of one name that is rendered and governed.
unfoldable pub policy_errors :
    String → List Value → Table Value → Fields → String → Result (List String)
policy_errors digest workload_labels table expected name = do
  doc ← item_in (str name) table
  annotations ← get_path doc ("metadata" ∷ "annotations" ∷ [])
  annotation ← get annotations digest_annotation
  spec ← get_or doc "spec" (dict end)
  target ← get_path spec ("podSelector" ∷ "matchLabels" ∷ [])
  selects ← selects_workload target workload_labels
  wanted ← item (dict expected) name
  refuse (not (py_eq annotation (str digest))) (
        "NetworkPolicy "
        <> name
        <> " listener-matrix digest "
        <> repr annotation
        <> " != "
        <> repr (str digest))
      <+> refuse (not selects)
          ("NetworkPolicy " <> name <> " selector matches no rendered workload")
      <+> refuse (not (py_eq spec wanted))
          ("NetworkPolicy " <> name <> " spec does not exactly match the governed contract")
      <+> ingress_errors name spec

-- The labels of the workloads: `workload_labels`.
unfoldable pub workload_labels_of : List Value → Result (List Value)
workload_labels_of docs =
    keep_if (has_kind workload_kinds) docs >>= λ workloads. traverse labels_at workloads

-- The errors about the policies, with the governed ones.
unfoldable pub policies_report :
    Value → Value → List Value → String → String → Result (List String × Fields)
policies_report matrix values docs release digest = do
  workload_labels ← workload_labels_of docs
  policy_docs ← of_kind "NetworkPolicy" docs
  repeated ← unique_errors "NetworkPolicy" policy_docs
  policies ← by_name policy_docs
  (failed, expected) ← caught (expected_policies matrix values release)
  errors ←
      ok repeated
      <+> ok failed
      <+> inventory_errors "NetworkPolicy" policies expected
      <+> gather (policy_errors digest workload_labels policies expected)
          (shared_names policies expected)
  ok (errors, expected)
