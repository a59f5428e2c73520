-- ===== src/Tests/Sync.antt =====
-- `sync_values_authorization` on small files.
use clavenar_charts.Base.{String, ◌<>◌, ◌≡◌, refl, false}
use clavenar_charts.Base.Result.{ok, raise, contract_error}
use clavenar_charts.Value.Json.{dumps}
use clavenar_charts.Nats.Sync.{
  Files, split_lines, compact, replace_marked, closes, has_digest, substitute, write_validation,
  write_values, sync_values_authorization,
}
use clavenar_charts.Nats.Sync.Written.{IsSynchronized, sync_values_authorization-IsSynchronized}
use clavenar_charts.Nats.Sync.Ends.{IsEnding, sync_values_authorization-IsEnding}
use clavenar_charts.Tests.Nats.{contract, authorization, authorization_run}

abbrev digest : String
digest = "0123456789abcdef0123456789abcdef0123456789abcdef0123456789abcdef"

abbrev sha256 : String → String
sha256 text = digest

abbrev stale : String
stale = "ffffffffffffffffffffffffffffffffffffffffffffffffffffffffffffffff"

abbrev values_text : String
values_text = "nats:\n  bundled:\n      authorization: {}\n      port: 4222\n"

abbrev files : Files
files = record {
  values_text = values_text;
  validation = "{{- if ne $authorizationDigest \"" <> stale <> "\" }}\nfail\n";
}

abbrev after : Files
after = record {
  values_text =
      "nats:\n  bundled:\n      authorization: "
      <> dumps (compact false) authorization
      <> "\n      port: 4222\n";
  validation = "{{- if ne $authorizationDigest \"" <> digest <> "\" }}\nfail\n";
}

sync_run : sync_values_authorization sha256 contract files ≡ (after, ok tt)
unfolding sync_values_authorization write_values write_validation split_lines replace_marked
    substitute has_digest closes dumps
sync_run = rw authorization_run refl

sync_values_authorization-IsSynchronized_example : IsSynchronized sha256 contract files after
sync_values_authorization-IsSynchronized_example =
    sync_values_authorization-IsSynchronized sha256 contract files after sync_run

-- A template without a digest.
abbrev undigested : Files
undigested = record { values_text = values_text; validation = "fail\n" }

sync_values_authorization-IsEnding_example :
    IsEnding sha256 contract undigested
      (sync_values_authorization sha256 contract undigested).0
      (sync_values_authorization sha256 contract undigested).1
sync_values_authorization-IsEnding_example =
    sync_values_authorization-IsEnding sha256 contract undigested

-- Without a digest the values are written, and the validation is not.
undigested_run : sync_values_authorization sha256 contract undigested ≡ (
  record { values_text = after.values_text; validation = undigested.validation },
  raise (contract_error "values authorization: expected one validation digest"),
)
unfolding sync_values_authorization write_values write_validation split_lines replace_marked
    substitute has_digest closes dumps
undigested_run = rw authorization_run refl
