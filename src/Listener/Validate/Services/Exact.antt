-- ===== src/Listener/Validate/Services/Exact.antt =====
-- What accepted Services satisfy.
use clavenar_charts.Base.{
  String, ◌≡◌, sym, ap, ◌∙◌, true, false, not, List, [], nat_eq, nat_eq-eq, not-eq-false,
}
use clavenar_charts.Base.Lists.{length}
use clavenar_charts.Base.Result.{ok, gather, traverse, >>=-eq-ok, ok-injective}
use clavenar_charts.Value.{Value, str, dict, Fields, end}
use clavenar_charts.Value.Dict.{has_key}
use clavenar_charts.Value.Equality.{py_eq, member, set_of}
use clavenar_charts.Value.Access.{get, get_or, item, hashed}
use clavenar_charts.Value.Table.{Table, item_in}
use clavenar_charts.Listener.Errors.{<+>-nil, refuse-nil}
use clavenar_charts.Listener.Services.{expected_services, normalized_service_spec}
use clavenar_charts.Listener.Policies.Ingress.{hashed-eq-ok}
use clavenar_charts.Listener.Validate.Services.{
  of_kind, name_of, unique_errors, by_name, caught, external_types, service_errors, shared_names,
  services_errors,
}
use clavenar_charts.Listener.Validate.Inventory.{
  caught-nil, shared_names-checked, IsExact, inventory_errors-IsExact,
}

-- The rendered Service of a name has exactly the governed spec, which no external type may have.
pub record IsGoverned (table : Table Value) (expected : Fields) (name : String) : Type 0 where
  pub doc : Value
  pub wanted : Value
  pub raw : Value
  pub spec : Value
  pub type_name : Value
  pub doc_lem : item_in (str name) table ≡ ok doc
  pub wanted_lem : item (dict expected) name ≡ ok wanted
  pub raw_lem : get_or doc "spec" (dict end) ≡ ok raw
  pub spec_lem : normalized_service_spec raw ≡ ok spec
  pub type_lem : get spec "type" ≡ ok type_name
  pub exact : py_eq spec wanted ≡ true
  pub internal : member external_types type_name ≡ false

service_lem :
    (table : Table Value) (expected : Fields) (name : String)
    → service_errors table expected name ≡ ok []
    → IsGoverned table expected name
unfolding service_errors
service_lem table expected name h =
    let (doc, h1', h1) = >>=-eq-ok (item_in (str name) table) _ h in
    let (wanted, h2', h2) = >>=-eq-ok (item (dict expected) name) _ h1 in
    let (raw, h3', h3) = >>=-eq-ok (get_or doc "spec" (dict end)) _ h2 in
    let (spec, h4', h4) = >>=-eq-ok (normalized_service_spec raw) _ h3 in
    let (raw_type, h5', h5) = >>=-eq-ok (get spec "type") _ h4 in
    let (type_name, h6', h6) = >>=-eq-ok (hashed raw_type) _ h5 in
    let (internal, exact) = <+>-nil _ _ h6 in
    record {
      doc = doc;
      wanted = wanted;
      raw = raw;
      spec = spec;
      type_name = type_name;
      doc_lem = h1';
      wanted_lem = h2';
      raw_lem = h3';
      spec_lem = h4';
      type_lem = h5' ∙ ap ok (sym (hashed-eq-ok raw_type h6'));
      exact = not-eq-false (refuse-nil (not (py_eq spec wanted)) _ exact);
      internal = refuse-nil (member external_types type_name) _ internal;
    }

-- No name is rendered twice.
pub record IsUnique (docs : List Value) : Type 0 where
  pub raw : List Value
  pub names : List Value
  pub raw_lem : traverse name_of docs ≡ ok raw
  pub names_lem : traverse hashed raw ≡ ok names
  pub distinct : length names ≡ length (set_of names)

pub unique_errors-IsUnique :
    (kind : String) (docs : List Value) → unique_errors kind docs ≡ ok [] → IsUnique docs
unfolding unique_errors
unique_errors-IsUnique kind docs h =
    let (raw, h1', h1) = >>=-eq-ok (traverse name_of docs) _ h in
    let (names, h2', h2) = >>=-eq-ok (traverse hashed raw) _ h1 in
    record {
      raw = raw;
      names = names;
      raw_lem = h1';
      names_lem = h2';
      distinct =
          nat_eq-eq (length names) (length (set_of names))
            (not-eq-false (refuse-nil (not (nat_eq (length names) (length (set_of names)))) _ h2));
    }

-- The rendered Services are exactly the governed ones.
pub record HasServices (matrix values : Value) (docs : List Value) (release namespace : String)
    : Type 0 where
  pub service_docs : List Value
  pub services : Table Value
  pub expected : Fields
  pub docs_lem : of_kind "Service" docs ≡ ok service_docs
  pub services_lem : by_name service_docs ≡ ok services
  pub expected_lem : expected_services matrix values release namespace ≡ ok expected
  pub unique : IsUnique service_docs
  pub inventory : IsExact services expected
  pub governed : (name : String) → has_key name expected ≡ true → IsGoverned services expected name

-- Where the comparison of the Services has no error, the governed Services of the matrix can be
-- computed, no two rendered Services have one name, the rendered names are exactly the governed names,
-- and each rendered Service has, after the normalization, exactly the governed spec, whose type is
-- neither LoadBalancer nor NodePort.
pub services_errors-HasServices :
    (matrix values : Value) (docs : List Value) (release namespace : String)
    → services_errors matrix values docs release namespace ≡ ok []
    → HasServices matrix values docs release namespace
unfolding services_errors
services_errors-HasServices matrix values docs release namespace h =
    let (service_docs, h1', h1) = >>=-eq-ok (of_kind "Service" docs) _ h in
    let (repeated, h2', h2) = >>=-eq-ok (unique_errors "Service" service_docs) _ h1 in
    let (services, h3', h3) = >>=-eq-ok (by_name service_docs) _ h2 in
    let (guarded, h4', h4) =
      >>=-eq-ok (caught (expected_services matrix values release namespace)) _ h3 in
    let (unrepeated, h5) = <+>-nil (ok repeated) _ h4 in
    let (unfailed, h6) = <+>-nil (ok guarded.0) _ h5 in
    let (inventory, checked) =
      <+>-nil _ (gather (service_errors services guarded.1) (shared_names services guarded.1)) h6 in
    let exact = inventory_errors-IsExact "Service" services guarded.1 inventory in
    record {
      service_docs = service_docs;
      services = services;
      expected = guarded.1;
      docs_lem = h1';
      services_lem = h3';
      expected_lem =
          caught-nil _ guarded.1
            (h4' ∙ ap (λ errors. ok (errors, guarded.1)) (ok-injective unfailed));
      unique = unique_errors-IsUnique "Service" service_docs (h2' ∙ unrepeated);
      inventory = exact;
      governed = λ name g. service_lem services guarded.1 name (
          shared_names-checked (service_errors services guarded.1) services guarded.1 checked name g
            (exact.rendered name g));
    }
