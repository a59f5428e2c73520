-- ===== src/Listener/Validate/Contracts/Authorized.antt =====
-- What the allowed peers of the listeners of an accepted matrix satisfy.
use clavenar_charts.Base.{
  String, ◌≡◌, ap, ◌∙◌, Bool, true, false, ◌&&◌, List, [], ◌∷◌, Bool-cases, inl, inr, ◌⊎◌,
}
use clavenar_charts.Base.Text.{has_lower_infix}
use clavenar_charts.Base.Result.{ok, gather, traverse, >>=-eq-ok, ok-injective}
use clavenar_charts.Value.{Value, str}
use clavenar_charts.Value.Equality.{py_eq, member, set_of, same_members}
use clavenar_charts.Value.Access.{get_or}
use clavenar_charts.Value.Print.{text_of}
use clavenar_charts.Value.Sort.{sort_by, value_leb}
use clavenar_charts.Listener.Errors.{<+>-nil, refuse-nil, All, gather-All}
use clavenar_charts.Listener.Validate.Matrix.{ident_of}
use clavenar_charts.Listener.Validate.Contracts.{
  Grant, contracts_grants, granted_peers, set_at, allowed_errors, authorized_errors,
  listener_grant_errors, peer_contract_errors,
}

-- Every peer that is allowed, but the wildcard, is authorized.
abbrev pub IsAuthorized : List Value → Value → Type 0
IsAuthorized authorized token = (py_eq token (str "any") ≡ true) ⊎ (member authorized token ≡ true)

-- A listener allows exactly the peers that the policies grant, authorizes each of them, and is not
-- open to everyone without authentication.
pub record IsGranted (grants : List Grant) (listener : Value) : Type 0 where
  pub reference : Value × Value
  pub allowed : List Value
  pub authorized : List Value
  pub authentication : Value
  pub reference_lem : ident_of listener ≡ ok reference
  pub allowed_lem : set_at listener "allowedPeers" ≡ ok allowed
  pub authorized_lem : set_at listener "authorizedCallers" ≡ ok authorized
  pub authentication_lem : get_or listener "authentication" (str "") ≡ ok authentication
  pub governed : same_members allowed (set_of (granted_peers reference grants)) ≡ true
  pub callers : All (IsAuthorized authorized) allowed
  pub authenticated :
      member allowed (str "any") ≡ true → has_lower_infix (text_of authentication) "none" ≡ false

governed_lem :
    (who : String) (allowed governed : List Value)
    → allowed_errors who allowed governed ≡ ok []
    → same_members allowed governed ≡ true
unfolding allowed_errors
governed_lem who allowed governed h = elim (Bool-cases (same_members allowed governed)) [
  | inl e ↦ e
  | inr e ↦
      let (xs, _, h1) = >>=-eq-ok (sort_by value_leb allowed) _ (rw e at h) in
      let (ys, _, h2) = >>=-eq-ok (sort_by value_leb governed) _ h1 in cc (ok-injective h2)
]

callers_lem :
    (who : String) (authorized allowed : List Value)
    → authorized_errors who authorized allowed ≡ []
    → All (IsAuthorized authorized) allowed
unfolding authorized_errors
callers_lem who authorized [] h = tt
callers_lem who authorized (token ∷ rest) h = elim (Bool-cases (py_eq token (str "any"))) [
  | inl e ↦ (inl e, callers_lem who authorized rest (rw e at h))
  | inr e ↦ elim (Bool-cases (member authorized token)) [
    | inl m ↦ (inr m, callers_lem who authorized rest (rw (e, m) at h))
    | inr m ↦ cc (rw (e, m) at h)
  ]
]

authenticated_lem :
    (any_peer anonymous : Bool)
    → (any_peer && anonymous) ≡ false
    → any_peer ≡ true
    → anonymous ≡ false
authenticated_lem true anonymous h e = h
authenticated_lem false anonymous h e = cc

listener_lem :
    (grants : List Grant) (listener : Value)
    → listener_grant_errors grants listener ≡ ok []
    → IsGranted grants listener
unfolding listener_grant_errors
listener_lem grants listener h =
    let (reference, h1', h1) = >>=-eq-ok (ident_of listener) _ h in
    let (allowed, h2', h2) = >>=-eq-ok (set_at listener "allowedPeers") _ h1 in
    let (authorized, h3', h3) = >>=-eq-ok (set_at listener "authorizedCallers") _ h2 in
    let (authentication, h4', h4) = >>=-eq-ok (get_or listener "authentication" (str "")) _ h3 in
    let (p1, h5) = <+>-nil _ _ h4 in
    let (p2, p3) = <+>-nil (ok (authorized_errors _ authorized allowed)) _ h5 in
    record {
      reference = reference;
      allowed = allowed;
      authorized = authorized;
      authentication = authentication;
      reference_lem = h1';
      allowed_lem = h2';
      authorized_lem = h3';
      authentication_lem = h4';
      governed = governed_lem _ allowed (set_of (granted_peers reference grants)) p1;
      callers = callers_lem _ authorized allowed (ok-injective p2);
      authenticated =
          authenticated_lem (member allowed (str "any"))
            (has_lower_infix (text_of authentication) "none")
            (refuse-nil
              (member allowed (str "any") && has_lower_infix (text_of authentication) "none") _ p3);
    }

-- The contracts have no error, and the listeners allow exactly what they grant.
pub record AreGranted (ownership : Value) (listeners contracts : List Value) : Type 0 where
  pub idents : List (Value × Value)
  pub grants : List Grant
  pub idents_lem : traverse ident_of listeners ≡ ok idents
  pub grants_lem : contracts_grants ownership idents [] contracts ≡ ok ([], grants)
  pub granted : All (IsGranted grants) listeners

-- Where the comparison of the listeners with the contracts has no error, every listener allows exactly
-- the peers that the rules of the contracts grant it, authorizes each of them but the wildcard, and
-- does not allow any peer where its authentication reads none.
pub peer_contract_errors-AreGranted :
    (ownership : Value) (listeners contracts : List Value)
    → peer_contract_errors ownership listeners contracts ≡ ok []
    → AreGranted ownership listeners contracts
unfolding peer_contract_errors
peer_contract_errors-AreGranted ownership listeners contracts h =
    let (idents, h1', h1) = >>=-eq-ok (traverse ident_of listeners) _ h in
    let (reported, h2', h2) = >>=-eq-ok (contracts_grants ownership idents [] contracts) _ h1 in
    let (p1, p2) =
      <+>-nil (ok reported.0) (gather (listener_grant_errors reported.1) listeners) h2 in
    record {
      idents = idents;
      grants = reported.1;
      idents_lem = h1';
      grants_lem = h2' ∙ ap (λ errors. ok (errors, reported.1)) (ok-injective p1);
      granted =
          gather-All (listener_grant_errors reported.1) (IsGranted reported.1) listeners
            (listener_lem reported.1) p2;
    }
