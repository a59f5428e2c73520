-- ===== src/Listener/Validate/Accepted/Matrix.antt =====
-- What the matrix satisfies where `validate` reports nothing about it.
use clavenar_charts.Base.{String, ◌≡◌, ap, ◌∙◌, not, List, [], not-eq-false}
use clavenar_charts.Base.Result.{ok, >>=-eq-ok}
use clavenar_charts.Value.{Value, str, dict, end}
use clavenar_charts.Value.Equality.{py_eq}
use clavenar_charts.Value.Access.{get, get_or}
use clavenar_charts.Listener.Errors.{<+>-nil, refuse-nil}
use clavenar_charts.Listener.Profile.Production.{py_eq-str}
use clavenar_charts.Listener.Digest.{reviewed_key}
use clavenar_charts.Listener.Validate.{matrix_errors}
use clavenar_charts.Listener.Validate.Matrix.{
  entries_of, version_errors, digest_errors, listeners_errors, objects_errors,
}
use clavenar_charts.Listener.Validate.Matrix.Governed.{AreListeners, listeners_errors-AreListeners}
use clavenar_charts.Listener.Validate.Matrix.Objects.{AreObjects, objects_errors-AreObjects}
use clavenar_charts.Listener.Validate.Contracts.{peer_contract_errors}
use clavenar_charts.Listener.Validate.Contracts.Authorized.{
  AreGranted, peer_contract_errors-AreGranted,
}

pub version_lem :
    (matrix : Value) → version_errors matrix ≡ ok [] → get matrix "schemaVersion" ≡ ok (str "1.0")
unfolding version_errors
version_lem matrix h =
    let (version, h1', h1) = >>=-eq-ok (get matrix "schemaVersion") _ h in
    h1'
    ∙ ap ok
        (py_eq-str version "1.0" (not-eq-false (refuse-nil (not (py_eq version (str "1.0"))) _ h1)))

pub digest_lem :
    (matrix : Value) (digest : String)
    → digest_errors matrix digest ≡ ok []
    → get matrix reviewed_key ≡ ok (str digest)
unfolding digest_errors
digest_lem matrix digest h =
    let (reviewed, h1', h1) = >>=-eq-ok (get matrix reviewed_key) _ h in
    h1'
    ∙ ap ok (
        py_eq-str reviewed digest
          (not-eq-false (refuse-nil (not (py_eq reviewed (str digest))) _ h1)))

-- The listeners, the Service objects and the contracts of the matrix are as they must be.
pub record HasMatrix (matrix : Value) : Type 0 where
  pub ownership : Value
  pub listeners : List Value
  pub objects : List Value
  pub contracts : List Value
  pub ownership_lem : get_or matrix "ownership" (dict end) ≡ ok ownership
  pub listeners_lem : entries_of matrix "listeners" ≡ ok listeners
  pub objects_lem : entries_of matrix "serviceObjects" ≡ ok objects
  pub contracts_lem : entries_of matrix "networkPolicies" ≡ ok contracts
  pub are_listeners : AreListeners ownership [] listeners
  pub are_objects : AreObjects [] objects
  pub are_granted : AreGranted ownership listeners contracts

pub matrix_lem : (matrix : Value) → matrix_errors matrix ≡ ok [] → HasMatrix matrix
unfolding matrix_errors
matrix_lem matrix h =
    let (ownership, h1', h1) = >>=-eq-ok (get_or matrix "ownership" (dict end)) _ h in
    let (listeners, h2', h2) = >>=-eq-ok (entries_of matrix "listeners") _ h1 in
    let (errors, h3', h3) = >>=-eq-ok (listeners_errors ownership 0 [] listeners) _ h2 in
    let (objects, h4', h4) = >>=-eq-ok (entries_of matrix "serviceObjects") _ h3 in
    let (object_errors, h5', h5) = >>=-eq-ok (objects_errors 0 [] objects) _ h4 in
    let (contracts, h6', h6) = >>=-eq-ok (entries_of matrix "networkPolicies") _ h5 in
    let (p1, h7) = <+>-nil (ok errors) _ h6 in
    let (p2, p3) =
      <+>-nil (ok object_errors) (peer_contract_errors ownership listeners contracts) h7 in
    record {
      ownership = ownership;
      listeners = listeners;
      objects = objects;
      contracts = contracts;
      ownership_lem = h1';
      listeners_lem = h2';
      objects_lem = h4';
      contracts_lem = h6';
      are_listeners = listeners_errors-AreListeners ownership 0 [] listeners (h3' ∙ p1);
      are_objects = objects_errors-AreObjects 0 [] objects (h5' ∙ p2);
      are_granted = peer_contract_errors-AreGranted ownership listeners contracts p3;
    }
