-- ===== src/Nats/Sync/Ends.antt =====
-- The three ways in which `sync_values_authorization` can end.
use clavenar_charts.Base.{
  String, ◌<>◌, ◌≡◌, refl, ap, true, false, not, List, [], ◌∷◌, ◌⊎◌, inl, inr, nat_eq, nat_eq-eq,
  Bool-cases,
}
use clavenar_charts.Base.Lists.{length, filter}
use clavenar_charts.Base.Text.{join}
use clavenar_charts.Base.Result.{Result, ok, raise, Exception, contract_error}
use clavenar_charts.Value.{Value}
use clavenar_charts.Value.Json.{dumps}
use clavenar_charts.Nats.Permissions.{expected_authorization}
use clavenar_charts.Nats.Sync.{
  Files, marker, split_lines, compact, is_marked, replace_marked, substitute, write_validation,
  write_values, sync_values_authorization,
}
use clavenar_charts.Nats.Sync.Written.{
  has_prefix-append, marked_lem, unmarked_lem, IsSynchronized,
  sync_values_authorization-IsSynchronized,
}

-- The values do not have one generated line, or the contract grants nothing that can be written.
abbrev pub IsRefused : Value → Files → Exception → Type 0
IsRefused contract files e =
    ((nat_eq (length (filter is_marked (split_lines files.values_text))) 1 ≡ false)
      × (e ≡ contract_error "values authorization: expected one generated inline value"))
    ⊎ (expected_authorization contract ≡ raise e)

-- The values have the permissions of the contract in their one generated line, and their other lines
-- as they were; the validation, which does not have one digest, is as it was.
pub record IsTorn (sha256 : String → String) (contract : Value) (files after : Files) : Type 0 where
  pub authorization : Value
  pub lines : List String
  pub authorization_lem : expected_authorization contract ≡ ok authorization
  pub values_lem : after.values_text ≡ join "\n" lines <> "\n"
  pub marked : filter is_marked lines ≡ (marker <> dumps (compact false) authorization) ∷ []
  pub unmarked :
      filter (λ l. not (is_marked l)) lines
      ≡ filter (λ l. not (is_marked l)) (split_lines files.values_text)
  pub undigested :
      nat_eq (substitute (sha256 (dumps (compact true) authorization)) 0 files.validation).1 1
      ≡ false
  pub kept : after.validation ≡ files.validation

-- What the synchronization leaves, by how it ends.
abbrev pub IsEnding : (String → String) → Value → Files → Files → Result (Unit {0}) → Type 0
IsEnding sha256 contract files after result =
    ((e : Exception) × (result ≡ raise e) × (after ≡ files) × IsRefused contract files e)
    ⊎ (((result ≡ raise (contract_error "values authorization: expected one validation digest"))
          × IsTorn sha256 contract files after)
        ⊎ ((result ≡ ok tt) × IsSynchronized sha256 contract files after))

authorization_cases :
    (r : Result Value) → ((e : Exception) × (r ≡ raise e)) ⊎ ((a : Value) × (r ≡ ok a))
authorization_cases (raise e) = inl (e, refl)
authorization_cases (ok a) = inr (a, refl)

module _ (sha256 : String → String) (contract : Value) (files : Files) where
  torn_lem :
      (authorization : Value)
      → nat_eq (length (filter is_marked (split_lines files.values_text))) 1 ≡ true
      → expected_authorization contract ≡ ok authorization
      → nat_eq (substitute (sha256 (dumps (compact true) authorization)) 0 files.validation).1 1
        ≡ false
      → IsTorn sha256 contract files (sync_values_authorization sha256 contract files).0
  unfolding sync_values_authorization write_values write_validation
  torn_lem authorization single given undigested =
      let new = marker <> dumps (compact false) authorization in
      let is_new = has_prefix-append marker (dumps (compact false) authorization) in
      let old = split_lines files.values_text in
      record {
        authorization = authorization;
        lines = replace_marked new old;
        authorization_lem = given;
        values_lem = rw (single, given, undigested) refl;
        marked = marked_lem new old is_new (nat_eq-eq (length (filter is_marked old)) 1 single);
        unmarked = unmarked_lem new old is_new;
        undigested = undigested;
        kept = rw (single, given, undigested) refl;
      }

  raised_lem :
      (authorization : Value)
      → nat_eq (length (filter is_marked (split_lines files.values_text))) 1 ≡ true
      → expected_authorization contract ≡ ok authorization
      → nat_eq (substitute (sha256 (dumps (compact true) authorization)) 0 files.validation).1 1
        ≡ false
      → (sync_values_authorization sha256 contract files).1
        ≡ raise (contract_error "values authorization: expected one validation digest")
  unfolding sync_values_authorization write_values write_validation
  raised_lem authorization single given undigested = rw (single, given, undigested) refl

  returned_lem :
      (authorization : Value)
      → nat_eq (length (filter is_marked (split_lines files.values_text))) 1 ≡ true
      → expected_authorization contract ≡ ok authorization
      → nat_eq (substitute (sha256 (dumps (compact true) authorization)) 0 files.validation).1 1
        ≡ true
      → (sync_values_authorization sha256 contract files).1 ≡ ok tt
  unfolding sync_values_authorization write_values write_validation
  returned_lem authorization single given digested = rw (single, given, digested) refl

  -- The synchronization ends in one of three ways. It raises with both files as they were, where
  -- values.yaml does not have one generated line or the contract's permissions cannot be told. It
  -- raises where validate.yaml does not have one digest, and then values.yaml has the contract's
  -- permissions in its generated line already, its other lines as they were, and validate.yaml is as it
  -- was. Or it returns with both files synchronized.
  pub sync_values_authorization-IsEnding :
      IsEnding sha256 contract files
        (sync_values_authorization sha256 contract files).0
        (sync_values_authorization sha256 contract files).1
  unfolding sync_values_authorization write_values
  sync_values_authorization-IsEnding =
      elim (Bool-cases (nat_eq (length (filter is_marked (split_lines files.values_text))) 1)) [
        | inr several ↦ inl (
          contract_error "values authorization: expected one generated inline value",
          rw several refl,
          rw several refl,
          inl (several, refl),
        )
        | inl one_line ↦ elim (authorization_cases (expected_authorization contract)) [
          | inl (e, untold) ↦
              inl (e, rw (one_line, untold) refl, rw (one_line, untold) refl, inr untold)
          | inr (authorization, given) ↦
              elim (Bool-cases (
                nat_eq
                  (substitute (sha256 (dumps (compact true) authorization)) 0 files.validation).1
                  1)) [
                    | inr undigested ↦ inr (
                        inl (
                          raised_lem authorization one_line given undigested,
                          torn_lem authorization one_line given undigested,
                        ))
                    | inl digested ↦
                        let returned = returned_lem authorization one_line given digested in
                        inr (
                          inr (
                            returned,
                            sync_values_authorization-IsSynchronized sha256 contract files
                                (sync_values_authorization sha256 contract files).0
                                (ap (λ r. ((sync_values_authorization sha256 contract files).0, r))
                                  returned),
                          ))
                  ]
        ]
      ]
