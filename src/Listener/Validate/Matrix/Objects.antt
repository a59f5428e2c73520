-- ===== src/Listener/Validate/Matrix/Objects.antt =====
-- What the Service objects of an accepted matrix satisfy.
use clavenar_charts.Base.{
  ℕ, ◌+◌, String, ◌≡◌, sym, ap, ◌∙◌, true, false, not, List, [], ◌∷◌, not-eq-false, Bool-cases, inl,
  inr,
}
use mathlib.Core.Path.{subst}
use clavenar_charts.Base.Lists.{is_empty}
use clavenar_charts.Base.Result.{ok, gather, >>=-eq-ok, ok-injective}
use clavenar_charts.Value.{Value, list, texts}
use clavenar_charts.Value.Equality.{member}
use clavenar_charts.Value.Access.{get_or, item, hashed}
use clavenar_charts.Listener.Errors.{<+>-nil, refuse-nil, All, gather-All}
use clavenar_charts.Listener.Policies.Ingress.{hashed-eq-ok}
use clavenar_charts.Listener.Workload.Accepted.{is_empty-nil}
use clavenar_charts.Listener.Validate.Matrix.{
  required_object_fields, missing_keys, is_inexact_port, each_of_sum, port_contract_errors,
  complete_object_errors, object_errors, objects_errors,
}

-- A Service object with every required field, none of `ids`, whose type is internal and whose ports
-- have exactly the fields of a port.
pub record IsObject (ids : List Value) (object : Value) : Type 0 where
  pub id : Value
  pub owner : Value
  pub type_name : Value
  pub plain : Value
  pub extra : Value
  pub ports : List Value
  pub complete : missing_keys required_object_fields object ≡ ok []
  pub id_lem : item object "id" ≡ ok id
  pub owner_lem : item object "selectorOwner" ≡ ok owner
  pub type_lem : item object "type" ≡ ok type_name
  pub plain_lem : get_or object "ports" (list []) ≡ ok plain
  pub extra_lem : get_or object "tlsPorts" (list []) ≡ ok extra
  pub ports_lem : each_of_sum plain extra ≡ ok ports
  pub new : member ids id ≡ false
  pub known : member (texts ("core" ∷ "none" ∷ "nats" ∷ "vault" ∷ [])) owner ≡ true
  pub internal : member (texts ("ClusterIP" ∷ "ExternalName" ∷ [])) type_name ≡ true
  pub exact : All (λ port. is_inexact_port port ≡ ok false) ports

port_lem :
    (who : String) (port : Value)
    → port_contract_errors who port ≡ ok []
    → is_inexact_port port ≡ ok false
unfolding port_contract_errors
port_lem who port h =
    let (inexact, h1', h1) = >>=-eq-ok (is_inexact_port port) _ h in
    h1' ∙ ap ok (refuse-nil inexact _ h1)

complete_lem :
    (ids : List Value) (object : Value)
    → missing_keys required_object_fields object ≡ ok []
    → complete_object_errors ids object ≡ ok []
    → IsObject ids object
unfolding complete_object_errors
complete_lem ids object complete h =
    let (raw_id, h1', h1) = >>=-eq-ok (item object "id") _ h in
    let (id, h2', h2) = >>=-eq-ok (hashed raw_id) _ h1 in
    let (raw_owner, h3', h3) = >>=-eq-ok (item object "selectorOwner") _ h2 in
    let (owner, h4', h4) = >>=-eq-ok (hashed raw_owner) _ h3 in
    let (raw_type, h5', h5) = >>=-eq-ok (item object "type") _ h4 in
    let (type_name, h6', h6) = >>=-eq-ok (hashed raw_type) _ h5 in
    let (plain, h7', h7) = >>=-eq-ok (get_or object "ports" (list [])) _ h6 in
    let (extra, h8', h8) = >>=-eq-ok (get_or object "tlsPorts" (list [])) _ h7 in
    let (ports, h9', h9) = >>=-eq-ok (each_of_sum plain extra) _ h8 in
    let (p1, h10) = <+>-nil _ _ h9 in
    let (p2, h11) = <+>-nil _ _ h10 in
    let (p3, p4) = <+>-nil _ (gather (port_contract_errors _) ports) h11 in
    record {
      id = id;
      owner = owner;
      type_name = type_name;
      plain = plain;
      extra = extra;
      ports = ports;
      complete = complete;
      id_lem = h1' ∙ ap ok (sym (hashed-eq-ok raw_id h2'));
      owner_lem = h3' ∙ ap ok (sym (hashed-eq-ok raw_owner h4'));
      type_lem = h5' ∙ ap ok (sym (hashed-eq-ok raw_type h6'));
      plain_lem = h7';
      extra_lem = h8';
      ports_lem = h9';
      new = refuse-nil (member ids id) _ p1;
      known =
          not-eq-false (
            refuse-nil (not (member (texts ("core" ∷ "none" ∷ "nats" ∷ "vault" ∷ [])) owner)) _ p2);
      internal =
          not-eq-false
            (refuse-nil (not (member (texts ("ClusterIP" ∷ "ExternalName" ∷ [])) type_name)) _ p3);
      exact =
          gather-All (port_contract_errors _) (λ port. is_inexact_port port ≡ ok false) ports
            (port_lem _) p4;
    }

-- Every Service object is one, and no two have one id.
abbrev pub AreObjects : List Value → List Value → Type 0
AreObjects ids [] = Unit
AreObjects ids (object ∷ rest) = (first : IsObject ids object) × AreObjects (first.id ∷ ids) rest

object_lem :
    (index : ℕ) (ids : List Value) (object : Value) (next : List Value)
    → object_errors index ids object ≡ ok ([], next)
    → (first : IsObject ids object) × (next ≡ first.id ∷ ids)
unfolding object_errors
object_lem index ids object next h =
    let (missing, h1', h1) = >>=-eq-ok (missing_keys required_object_fields object) _ h in
    elim (Bool-cases (not (is_empty missing))) [
      | inl e ↦ cc (ap (λ p. p.0) (ok-injective (rw e at h1)))
      | inr e ↦
          let (errors, h2', h2) = >>=-eq-ok (complete_object_errors ids object) _ (rw e at h1) in
          let (id, h3', h3) = >>=-eq-ok (item object "id") _ h2 in
          let pair = ok-injective h3 in
          let first =
            complete_lem ids object (h1' ∙ ap ok (is_empty-nil missing e))
              (h2' ∙ ap (λ p. ok p.0) pair) in
          (
            first,
            sym (ap (λ p. p.1) pair) ∙ ap (λ i. i ∷ ids) (ok-injective (sym h3' ∙ first.id_lem)),
          )
    ]

-- Where the loop over the Service objects has no error, every object has every required field, a known
-- owner, the type ClusterIP or ExternalName, and ports with exactly the fields of a port; and no two
-- objects have the same id.
pub objects_errors-AreObjects :
    (index : ℕ) (ids objects : List Value)
    → objects_errors index ids objects ≡ ok []
    → AreObjects ids objects
unfolding objects_errors
objects_errors-AreObjects index ids [] h = tt
objects_errors-AreObjects index ids (object ∷ rest) h =
    let (reported, h1', h1) = >>=-eq-ok (object_errors index ids object) _ h in
    let (p1, p2) = <+>-nil (ok reported.0) (objects_errors (index + 1) reported.1 rest) h1 in
    let (first, same) =
      object_lem index ids object reported.1
        (h1' ∙ ap (λ errors. ok (errors, reported.1)) (ok-injective p1)) in
    (
      first,
      subst (λ i. AreObjects i rest) same
          (objects_errors-AreObjects (index + 1) reported.1 rest p2),
    )
