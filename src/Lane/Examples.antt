-- ===== src/Lane/Examples.antt =====
-- Runs of the lane-run ledger, and instances of its theorems.
use agentmesh_private.Common.{bytes, none, some, [], ◌∷◌, ◌≡◌, refl, str_eq, char_count, map}
use agentmesh_private.Common.Decimal.{parse_unsigned}
use agentmesh_private.Common.Map.{get}
use agentmesh_private.Proto.Rfc3339.{get_range}
use agentmesh_private.Lane.Record.{
  RunRecord, code, text_field, validate_record, bounded_field, bounded_note, canonical_record_line,
  ts_bucket_month,
}
use agentmesh_private.Lane.Record.Fields.{canonical_record_line-get}
use agentmesh_private.Lane.Record.Bucket.{ts_bucket_month-get_range}

abbrev run : RunRecord
run = record {
  ts = bytes "2026-08-22T10:00:00+09:00";
  result = bytes "done";
  lane = some (bytes "");
  scope_key = some (bytes "s");
  pr_url = none;
  session_ref = none;
  note = some (bytes "n");
}

canonical_record_line-get_example :
    (get (canonical_record_line run) (bytes "ts")
      ≡ some (text_field (bytes "2026-08-22T10:00:00+09:00")))
    × (get (canonical_record_line run) (bytes "result_type") ≡ some (text_field (bytes "done")))
    × (get (canonical_record_line run) (bytes "lane") ≡ some (text_field (bytes "direct")))
    × (get (canonical_record_line run) (bytes "scope_key") ≡ some (text_field (bytes "s")))
    × (get (canonical_record_line run) (bytes "pr_url") ≡ none)
    × (get (canonical_record_line run) (bytes "session_ref") ≡ none)
    × (get (canonical_record_line run) (bytes "note") ≡ some (text_field (bytes "n")))
canonical_record_line-get_example = canonical_record_line-get run

ts_bucket_month-get_range_example :
    get_range (bytes "2026-08-22T10:00:00+09:00") 0 7 ≡ some (bytes "2026-08")
unfolding ts_bucket_month get_range parse_unsigned
ts_bucket_month-get_range_example = ts_bucket_month-get_range run.ts (bytes "2026-08") refl

rejects_unknown_result :
    (map code (validate_record (record run { result = bytes "shipped" }))
      ≡ bytes "unknown_result" ∷ bytes "record_field_invalid" ∷ [])
    × (ts_bucket_month (bytes "2026-13-01T00:00:00Z") ≡ none)
unfolding validate_record bounded_field bounded_note char_count str_eq ts_bucket_month get_range
    parse_unsigned
rejects_unknown_result = (refl, refl)
