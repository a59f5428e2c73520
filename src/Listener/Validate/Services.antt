-- ===== src/Listener/Validate/Services.antt =====
-- The part of `validate` that compares the rendered Services with the governed ones.
pub mod Exact
use clavenar_charts.Base.{
  String, ◌<>◌, Bool, true, false, not, ◌&&◌, ◌||◌, none, some, List, [], ◌∷◌, map, nat_eq,
  if◌then◌else◌,
}
use clavenar_charts.Base.Lists.{length, is_empty, filter}
use clavenar_charts.Base.Result.{Result, ok, raise, value_error, ◌>>=◌, keep_if, gather, traverse}
use clavenar_charts.Value.{Value, str, dict, Fields, end, list, texts}
use clavenar_charts.Value.Dict.{has_key, keys}
use clavenar_charts.Value.Equality.{py_eq, member, set_of}
use clavenar_charts.Value.Access.{get, get_or, item, item_path, hashed}
use clavenar_charts.Value.Print.{text_of}
use clavenar_charts.Value.Sort.{sort_by, sort_texts, value_leb}
use clavenar_charts.Value.Table.{Table, at, item_in}
use clavenar_charts.Value.Json.{dumps}
use clavenar_charts.Listener.Errors.{refuse, ◌<+>◌}
use clavenar_charts.Listener.Services.{expected_services, normalized_service_spec}
use clavenar_charts.Listener.Workload.{sorted_style}

-- `[d for d in docs if d.get("kind") == kind]`
unfoldable pub of_kind : String → List Value → Result (List Value)
of_kind kind docs = keep_if (λ doc. get doc "kind" >>= λ k. ok (py_eq k (str kind))) docs

-- `doc.get("metadata", {}).get("name")`
unfoldable pub name_of : Value → Result Value
name_of doc = get_or doc "metadata" (dict end) >>= λ metadata. get metadata "name"

-- `len(names) != len(set(names))`
unfoldable pub unique_errors : String → List Value → Result (List String)
unique_errors kind docs = do
  raw ← traverse name_of docs
  names ← traverse hashed raw
  refuse (not (nat_eq (length names) (length (set_of names))))
      ("rendered " <> kind <> " names are not unique")

-- `{d["metadata"]["name"]: d for d in docs}`
unfoldable pub by_name : List Value → Result (Table Value)
by_name docs =
    traverse
      (λ doc.
        item_path doc ("metadata" ∷ "name" ∷ []) >>= λ name. (hashed name >>= λ key. ok (key, doc)))
      docs

-- `try: … except ValueError as exc: errors.append(str(exc))`, with the empty dict then.
unfoldable pub caught : Result Fields → Result (List String × Fields)
caught (ok fs) = ok ([], fs)
caught (raise e) = elim e [ value_error text ↦ ok (text ∷ [], end) | other ↦ raise other ]

-- `name in table`
abbrev pub is_at : Value → Table Value → Bool
is_at name table = elim (at name table) [ none ↦ false | some _ ↦ true ]

-- `set(expected) - set(table)`
unfoldable pub missing_names : Table Value → Fields → List String
missing_names table expected = filter (λ name. not (is_at (str name) table)) (keys expected)

abbrev pub table_keys : Table Value → List Value
table_keys [] = []
table_keys ((k, _) ∷ rest) = k ∷ table_keys rest

-- `set(table) - set(expected)`
unfoldable pub extra_names : Table Value → Fields → List Value
extra_names table expected =
    filter (λ name. not (member (texts (keys expected)) name)) (set_of (table_keys table))

-- The rendered names are not exactly the governed ones.
unfoldable pub inventory_errors : String → Table Value → Fields → Result (List String)
inventory_errors kind table expected =
    if is_empty (missing_names table expected) && is_empty (extra_names table expected)
    then ok []
    else (do
      extra ← sort_by value_leb (extra_names table expected)
      ok (
          (kind
            <> " inventory mismatch: missing="
            <> text_of (list (texts (sort_texts (missing_names table expected))))
            <> " extra="
            <> text_of (list extra))
          ∷ []))

-- `sorted(set(table) & set(expected))`
unfoldable pub shared_names : Table Value → Fields → List String
shared_names table expected = sort_texts (filter (λ name. is_at (str name) table) (keys expected))

abbrev pub external_types : List Value
external_types = texts ("LoadBalancer" ∷ "NodePort" ∷ [])

-- The errors about the Service of one name that is rendered and governed.
unfoldable pub service_errors : Table Value → Fields → String → Result (List String)
service_errors table expected name = do
  doc ← item_in (str name) table
  wanted ← item (dict expected) name
  raw ← get_or doc "spec" (dict end)
  spec ← normalized_service_spec raw
  raw_type ← get spec "type"
  type_name ← hashed raw_type
  refuse (member external_types type_name)
        ("Service " <> name <> " is externally reachable type " <> text_of type_name)
      <+> refuse (not (py_eq spec wanted)) (
          "Service "
          <> name
          <> " spec does not exactly match the governed contract: actual="
          <> dumps sorted_style spec
          <> " expected="
          <> dumps sorted_style wanted)

unfoldable pub services_errors : Value → Value → List Value → String → String → Result (List String)
services_errors matrix values docs release namespace = do
  service_docs ← of_kind "Service" docs
  repeated ← unique_errors "Service" service_docs
  services ← by_name service_docs
  (failed, expected) ← caught (expected_services matrix values release namespace)
  ok repeated
      <+> ok failed
      <+> inventory_errors "Service" services expected
      <+> gather (service_errors services expected) (shared_names services expected)
