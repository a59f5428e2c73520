-- ===== src/Listener/Validate/Policies/Exact.antt =====
-- What accepted NetworkPolicies satisfy.
use clavenar_charts.Base.{String, ◌≡◌, ap, ◌∙◌, true, false, not, List, [], ◌∷◌, not-eq-false}
use mathlib.Core.Path.{subst}
use clavenar_charts.Base.Result.{ok, gather, >>=-eq-ok, ok-injective}
use clavenar_charts.Value.{Value, str, dict, Fields, end, list}
use clavenar_charts.Value.Dict.{has_key}
use clavenar_charts.Value.Equality.{py_eq}
use clavenar_charts.Value.Access.{get, get_or, item, each, or_else}
use clavenar_charts.Value.Table.{Table, item_in}
use clavenar_charts.Listener.Errors.{◌<+>◌, <+>-nil, refuse-nil, refuse_if-nil}
use clavenar_charts.Listener.Rendered.{get_path}
use clavenar_charts.Listener.Environments.Unique.{Every, gather-nil}
use clavenar_charts.Listener.Policies.{expected_policies}
use clavenar_charts.Listener.Profile.Production.{py_eq-str}
use clavenar_charts.Listener.Validate.Services.{
  of_kind, unique_errors, by_name, caught, inventory_errors, shared_names,
}
use clavenar_charts.Listener.Validate.Services.Exact.{IsUnique, unique_errors-IsUnique}
use clavenar_charts.Listener.Validate.Inventory.{
  caught-nil, shared_names-checked, IsExact, inventory_errors-IsExact,
}
use clavenar_charts.Listener.Validate.Policies.{
  digest_annotation, selects_workload, is_inexact_entry, ingress_errors, policy_errors,
  workload_labels_of, policies_report,
}

-- Each entry of the ingress has exactly one port.
pub record HasSinglePorts (spec : Value) : Type 0 where
  pub raw : Value
  pub entries : List Value
  pub raw_lem : get spec "ingress" ≡ ok raw
  pub entries_lem : each (or_else raw (list [])) ≡ ok entries
  pub single : Every (λ entry. is_inexact_entry entry ≡ ok false) entries

ingress_lem :
    (name : String) (spec : Value) → ingress_errors name spec ≡ ok [] → HasSinglePorts spec
unfolding ingress_errors
ingress_lem name spec h =
    let (raw, h1', h1) = >>=-eq-ok (get spec "ingress") _ h in
    let (entries, h2', h2) = >>=-eq-ok (each (or_else raw (list []))) _ h1 in
    record {
      raw = raw;
      entries = entries;
      raw_lem = h1';
      entries_lem = h2';
      single =
          gather-nil _ (λ entry. is_inexact_entry entry ≡ ok false) entries
            (λ entry e. refuse_if-nil (is_inexact_entry entry) _ e) h2;
    }

-- The rendered policy of a name has the governed spec and the digest of the matrix, and selects a
-- rendered workload.
pub record IsGoverned (digest : String) (workload_labels : List Value) (table : Table Value)
    (expected : Fields) (name : String) : Type 0 where
  pub doc : Value
  pub annotations : Value
  pub spec : Value
  pub target : Value
  pub wanted : Value
  pub doc_lem : item_in (str name) table ≡ ok doc
  pub annotations_lem : get_path doc ("metadata" ∷ "annotations" ∷ []) ≡ ok annotations
  pub spec_lem : get_or doc "spec" (dict end) ≡ ok spec
  pub target_lem : get_path spec ("podSelector" ∷ "matchLabels" ∷ []) ≡ ok target
  pub wanted_lem : item (dict expected) name ≡ ok wanted
  pub digest_lem : get annotations digest_annotation ≡ ok (str digest)
  pub selects : selects_workload target workload_labels ≡ ok true
  pub exact : py_eq spec wanted ≡ true
  pub single_ports : HasSinglePorts spec

policy_lem :
    (digest : String) (workload_labels : List Value) (table : Table Value) (expected : Fields)
    (name : String)
    → policy_errors digest workload_labels table expected name ≡ ok []
    → IsGoverned digest workload_labels table expected name
unfolding policy_errors
policy_lem digest workload_labels table expected name h =
    let (doc, h1', h1) = >>=-eq-ok (item_in (str name) table) _ h in
    let (annotations, h2', h2) = >>=-eq-ok (get_path doc ("metadata" ∷ "annotations" ∷ [])) _ h1 in
    let (annotation, h3', h3) = >>=-eq-ok (get annotations digest_annotation) _ h2 in
    let (spec, h4', h4) = >>=-eq-ok (get_or doc "spec" (dict end)) _ h3 in
    let (target, h5', h5) = >>=-eq-ok (get_path spec ("podSelector" ∷ "matchLabels" ∷ [])) _ h4 in
    let (selects, h6', h6) = >>=-eq-ok (selects_workload target workload_labels) _ h5 in
    let (wanted, h7', h7) = >>=-eq-ok (item (dict expected) name) _ h6 in
    let (p1, h8) = <+>-nil _ _ h7 in
    let (p2, h9) = <+>-nil _ _ h8 in
    let (p3, p4) = <+>-nil _ (ingress_errors name spec) h9 in
    record {
      doc = doc;
      annotations = annotations;
      spec = spec;
      target = target;
      wanted = wanted;
      doc_lem = h1';
      annotations_lem = h2';
      spec_lem = h4';
      target_lem = h5';
      wanted_lem = h7';
      digest_lem =
          h3'
          ∙ ap ok (
              py_eq-str annotation digest
                (not-eq-false (refuse-nil (not (py_eq annotation (str digest))) _ p1)));
      selects = h6' ∙ ap ok (not-eq-false (refuse-nil (not selects) _ p2));
      exact = not-eq-false (refuse-nil (not (py_eq spec wanted)) _ p3);
      single_ports = ingress_lem name spec p4;
    }

-- The rendered policies are exactly the governed ones.
pub record HasPolicies (matrix values : Value) (docs : List Value) (release digest : String)
    (expected : Fields) : Type 0 where
  pub workload_labels : List Value
  pub policy_docs : List Value
  pub policies : Table Value
  pub labels_lem : workload_labels_of docs ≡ ok workload_labels
  pub docs_lem : of_kind "NetworkPolicy" docs ≡ ok policy_docs
  pub policies_lem : by_name policy_docs ≡ ok policies
  pub expected_lem : expected_policies matrix values release ≡ ok expected
  pub unique : IsUnique policy_docs
  pub inventory : IsExact policies expected
  pub governed :
      (name : String)
      → has_key name expected ≡ true
      → IsGoverned digest workload_labels policies expected name

report_lem :
    (matrix values : Value) (docs : List Value) (release digest : String)
    (workload_labels policy_docs : List Value) (repeated : List String) (policies : Table Value)
    (failed : List String) (expected : Fields)
    → workload_labels_of docs ≡ ok workload_labels
    → of_kind "NetworkPolicy" docs ≡ ok policy_docs
    → unique_errors "NetworkPolicy" policy_docs ≡ ok repeated
    → by_name policy_docs ≡ ok policies
    → caught (expected_policies matrix values release) ≡ ok (failed, expected)
    → (ok repeated
        <+> ok failed
        <+> inventory_errors "NetworkPolicy" policies expected
        <+> gather
            (policy_errors digest workload_labels policies expected)
            (shared_names policies expected))
      ≡ ok []
    → HasPolicies matrix values docs release digest expected
report_lem matrix values docs release digest workload_labels policy_docs repeated policies failed
      expected labels found once named guarded h =
    let (unrepeated, h1) = <+>-nil (ok repeated) _ h in
    let (unfailed, h2) = <+>-nil (ok failed) _ h1 in
    let (inventory, checked) =
      <+>-nil _
        (gather (policy_errors digest workload_labels policies expected)
          (shared_names policies expected))
        h2 in
    let exact = inventory_errors-IsExact "NetworkPolicy" policies expected inventory in
    record {
      workload_labels = workload_labels;
      policy_docs = policy_docs;
      policies = policies;
      labels_lem = labels;
      docs_lem = found;
      policies_lem = named;
      expected_lem =
          caught-nil _ expected
            (guarded ∙ ap (λ errors. ok (errors, expected)) (ok-injective unfailed));
      unique = unique_errors-IsUnique "NetworkPolicy" policy_docs (once ∙ unrepeated);
      inventory = exact;
      governed = λ name g. policy_lem digest workload_labels policies expected name (
          shared_names-checked (policy_errors digest workload_labels policies expected) policies
            expected checked name g (exact.rendered name g));
    }

-- Where the comparison of the NetworkPolicies has no error, its second result are the governed
-- policies of the matrix, no two rendered policies have one name, the rendered names are exactly the
-- governed names, and each rendered policy has exactly the governed spec, the digest of the matrix as
-- its annotation, a selector that some rendered workload meets, and one port in each ingress entry.
pub policies_report-HasPolicies :
    (matrix values : Value) (docs : List Value) (release digest : String) (expected : Fields)
    → policies_report matrix values docs release digest ≡ ok ([], expected)
    → HasPolicies matrix values docs release digest expected
unfolding policies_report
policies_report-HasPolicies matrix values docs release digest expected h =
    let (workload_labels, h1', h1) = >>=-eq-ok (workload_labels_of docs) _ h in
    let (policy_docs, h2', h2) = >>=-eq-ok (of_kind "NetworkPolicy" docs) _ h1 in
    let (repeated, h3', h3) = >>=-eq-ok (unique_errors "NetworkPolicy" policy_docs) _ h2 in
    let (policies, h4', h4) = >>=-eq-ok (by_name policy_docs) _ h3 in
    let (guarded, h5', h5) = >>=-eq-ok (caught (expected_policies matrix values release)) _ h4 in
    let (errors, h6', h6) =
      >>=-eq-ok
        (ok repeated
          <+> ok guarded.0
          <+> inventory_errors "NetworkPolicy" policies guarded.1
          <+> gather (policy_errors digest workload_labels policies guarded.1)
              (shared_names policies guarded.1))
        (λ errors. ok (errors, guarded.1)) h5 in
    let none_left : errors ≡ [] = ap (λ p. p.0) (ok-injective h6) in
    let same : guarded.1 ≡ expected = ap (λ p. p.1) (ok-injective h6) in
    subst (HasPolicies matrix values docs release digest) same (
      report_lem matrix values docs release digest workload_labels policy_docs repeated policies
        guarded.0 guarded.1 h1' h2' h3' h4' h5' (h6' ∙ ap ok none_left))
