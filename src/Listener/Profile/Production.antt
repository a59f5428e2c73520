-- ===== src/Listener/Profile/Production.antt =====
-- What the values of a production install satisfy when the profile's validator has no complaint.
use clavenar_charts.Base.{
  String, ◌≡◌, refl, sym, ap, ◌∙◌, Bool, true, false, ◌&&◌, List, [], ◌∷◌, arith, eq_iff,
  if◌then◌else◌, and-eq-true, or-eq-false, not-eq-false, nat_eq-eq,
}
use clavenar_charts.Base.Lists.{append-eq-nil}
use clavenar_charts.Base.Result.{ok, >>=-eq-ok, ok-injective}
use clavenar_charts.Value.{Value, null, str, num}
use clavenar_charts.Value.Equality.{py_eq}
use clavenar_charts.Value.Access.{truthy, is_true, is_false, hashed, len}
use clavenar_charts.Listener.Values.{value_at}
use clavenar_charts.Listener.Peers.{complain}
use clavenar_charts.Listener.Profile.{
  canonical_spiffe, differ, trusted_spiffe, require_trusted, trusted_peers, ledger_profile_errors,
  production_checks, failed_checks, production_errors, validate_deployment_profile,
}

abbrev AllPassed : List (String × Bool) → Type 0
AllPassed [] = Unit
AllPassed ((requirement, passed) ∷ checks) = (passed ≡ true) × AllPassed checks

pub complain-nil : (bad : Bool) (message : String) → complain bad message ≡ [] → bad ≡ false
complain-nil true message h = cc
complain-nil false message h = refl

failed_checks-nil : (checks : List (String × Bool)) → failed_checks checks ≡ [] → AllPassed checks
unfolding failed_checks
failed_checks-nil [] h = tt
failed_checks-nil ((requirement, true) ∷ checks) h = (refl, failed_checks-nil checks h)
failed_checks-nil ((requirement, false) ∷ checks) h = cc

-- A text is equal only to itself.
pub py_eq-str : (v : Value) (s : String) → py_eq v (str s) ≡ true → v ≡ str s
unfolding py_eq
py_eq-str (str t) s h = ap str ((eq_iff t s).0 h)
py_eq-str null s h = cc
py_eq-str _ s h = cc

-- What the ledger demands in both profiles.
pub record IsLedgerSafe (values : Value) : Type 0 where
  pub port : py_eq (value_at values "services.ledger.port") (num 8083) ≡ true
  pub mtls_port : py_eq (value_at values "services.ledger.mtlsPort") (num 8183) ≡ true
  pub together : truthy (trusted_spiffe values) ≡ require_trusted values
  pub peers_together : truthy (trusted_peers values) ≡ require_trusted values
  pub encrypted :
      require_trusted values ≡ true → truthy (value_at values "tlsBundle.secretName") ≡ true

-- What production adds.
pub record IsHardened (values : Value) : Type 0 where
  pub hil_secret : truthy (value_at values "authSecrets.existingSecretName") ≡ true
  pub perimeter : is_true (value_at values "networkPolicy.enabled") ≡ true
  pub workload_tls : truthy (value_at values "tlsBundle.secretName") ≡ true
  pub external_tls : is_false (value_at values "tlsBundle.autoMint") ≡ true
  pub console : is_true (value_at values "services.console.enabled") ≡ true
  pub operator_mtls : is_true (value_at values "services.console.operatorMtls.enabled") ≡ true
  pub operator_mode : value_at values "services.console.auth.mode" ≡ str "operator-mtls"
  pub operator_trust :
      truthy (value_at values "services.console.operatorMtls.publicTrustSecretName") ≡ true
  pub separate_trust :
      py_eq
        (value_at values "services.console.operatorMtls.publicTrustSecretName")
        (value_at values "tlsBundle.secretName")
      ≡ false
  pub ledger : is_true (value_at values "services.ledger.enabled") ≡ true
  pub enforced : require_trusted values ≡ true
  pub website : trusted_spiffe values ≡ str canonical_spiffe
  pub one_peer : len (trusted_peers values) ≡ ok 1

separate : (a b : Bool) → (a && b) ≡ false → a ≡ true → b ≡ false
separate true b h e = h
separate false b h e = cc

differ-false : (a b : Bool) → differ a b ≡ false → a ≡ b
differ-false true b h = ground arith
differ-false false b h = sym h

ledger_profile_lem : (values : Value) → ledger_profile_errors values ≡ ok [] → IsLedgerSafe values
unfolding ledger_profile_errors
ledger_profile_lem values h =
    let (chosen, _, h1) = >>=-eq-ok (hashed (trusted_spiffe values)) _ h in
    let (count, _, h2) =
      >>=-eq-ok
        (if differ (truthy (trusted_peers values)) (require_trusted values)
          then ok 0
          else len (trusted_peers values))
        _ h1 in
    let (r5, e6) = append-eq-nil _ _ (ok-injective h2) in
    let (r4, e5) = append-eq-nil _ _ r5 in
    let (r3, e4) = append-eq-nil _ _ r4 in
    let (r2, e3) = append-eq-nil _ _ r3 in
    let (e1, e2) = append-eq-nil _ _ r2 in
    let apart = or-eq-false _ _ (complain-nil _ _ e6) in
    record {
      port = not-eq-false (complain-nil _ _ e1);
      mtls_port = not-eq-false (complain-nil _ _ e2);
      together = differ-false _ _ (complain-nil _ _ e4);
      peers_together = differ-false _ _ apart.0;
      encrypted = λ on. not-eq-false (separate _ _ (complain-nil _ _ e5) on);
    }

production_lem : (values : Value) → production_errors values ≡ ok [] → IsHardened values
unfolding production_errors production_checks
production_lem values h =
    let (count, hcount, h1) = >>=-eq-ok (len (trusted_peers values)) _ h in
    let (hfailed, hsep) =
      append-eq-nil (failed_checks (production_checks values count)) _ (ok-injective h1) in
    let passed = failed_checks-nil (production_checks values count) hfailed in
    let tls = and-eq-true _ _ passed.1.1.0 in
    record {
      hil_secret = passed.0;
      perimeter = passed.1.0;
      workload_tls = tls.0;
      external_tls = tls.1;
      console = passed.1.1.1.0;
      operator_mtls = passed.1.1.1.1.0;
      operator_mode = py_eq-str _ "operator-mtls" passed.1.1.1.1.1.0;
      operator_trust = passed.1.1.1.1.1.1.0;
      separate_trust = separate _ _ (complain-nil _ _ hsep) passed.1.1.1.1.1.1.0;
      ledger = passed.1.1.1.1.1.1.1.0;
      enforced = passed.1.1.1.1.1.1.1.1.0;
      website = py_eq-str _ canonical_spiffe passed.1.1.1.1.1.1.1.1.1.0;
      one_peer = hcount ∙ ap ok (nat_eq-eq count 1 passed.1.1.1.1.1.1.1.1.1.1.0);
    }

-- If the validator accepts values of the production profile without an error, the HIL Secret is
-- set; NetworkPolicy, the console, operator mTLS and the ledger are on, and the console's mode is
-- operator-mtls; workload TLS is external and its Secret is not the operators' trust Secret,
-- which is set; trusted-proxy enforcement is on with the canonical SPIFFE and one peer; and the
-- ledger's two ports are the governed ones.
pub validate_deployment_profile-IsHardened :
    (values : Value)
    → value_at values "deploymentProfile" ≡ str "production"
    → validate_deployment_profile values ≡ ok []
    → IsLedgerSafe values × IsHardened values
unfolding validate_deployment_profile py_eq
validate_deployment_profile-IsHardened values production h =
    let (base, hb, h1) = >>=-eq-ok (ledger_profile_errors values) _ (rw production at h) in
    let (more, hm, h2) = >>=-eq-ok (production_errors values) _ h1 in
    let (nothing, nor) = append-eq-nil base more (ok-injective h2) in
    (ledger_profile_lem values (hb ∙ ap ok nothing), production_lem values (hm ∙ ap ok nor))
