-- ===== src/Listener/Digest/Stamp.antt =====
-- The digest that a matrix states.
use clavenar_charts.Base.{String, ◌≡◌, refl, ap, ◌∙◌, false, some, [], eq_refl}
use clavenar_charts.Base.Result.{ok}
use clavenar_charts.Value.{Value, str, dict, Fields}
use clavenar_charts.Value.Dict.{lookup, insert, erase-insert, lookup-insert}
use clavenar_charts.Value.Equality.{py_eq}
use clavenar_charts.Value.Access.{get, get_or}
use clavenar_charts.Value.Json.{dumps}
use clavenar_charts.Listener.Digest.{compact, reviewed_key, matrix_digest}
use clavenar_charts.Listener.Validate.Matrix.{digest_errors}

stated_lem :
    (matrix : Value) (digest : String)
    → get matrix reviewed_key ≡ ok (str digest)
    → digest_errors matrix digest ≡ ok []
unfolding digest_errors py_eq
stated_lem matrix digest h = rw h (rw (eq_refl digest) refl)

get-lookup :
    (key : String) (v : Value) (fs : Fields) → lookup key fs ≡ some v → get (dict fs) key ≡ ok v
get-lookup key v fs h = rw (h, get, get_or) refl

get-insert : (fs : Fields) (v : Value) → get (dict (insert reviewed_key v fs)) reviewed_key ≡ ok v
get-insert fs v =
    get-lookup reviewed_key v (insert reviewed_key v fs)
      (lookup-insert reviewed_key reviewed_key v fs)

module _ (sha256 : String → String) where
  -- A matrix into which its digest is written keeps that digest, and the check of the digest then has
  -- no error.
  pub matrix_digest-insert :
      (fs : Fields) (digest : String)
      → matrix_digest sha256 (dict fs) ≡ ok digest
      → (matrix_digest sha256 (dict (insert reviewed_key (str digest) fs)) ≡ ok digest)
        × (digest_errors (dict (insert reviewed_key (str digest) fs)) digest ≡ ok [])
  unfolding matrix_digest
  matrix_digest-insert fs digest h = (
    ap (λ gs. ok (sha256 (dumps (compact false) (dict gs))))
          (erase-insert reviewed_key (str digest) fs)
        ∙ h,
    stated_lem (dict (insert reviewed_key (str digest) fs)) digest (get-insert fs (str digest)),
  )
