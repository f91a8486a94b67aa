-- ===== src/Lane/Record.antt =====
-- plugins/lane-run-ledger/src/lib.rs: the operation `record`. The line is the JSON object whose text
-- `serde_json` prints, as its members.
pub mod Fields
pub mod Bucket
use agentmesh_private.Common.{
  ℕ, ◌≤◌, Text, bytes, Bool, true, false, not, ◌&&◌, ◌||◌, Option, none, some, ◌>>=◌, List, [], ◌∷◌,
  ◌++◌, any, take, length, is_empty, char_count, str_eq, ltb, leb, if◌then◌else◌,
}
use agentmesh_private.Common.Map.{Map, insert}
use agentmesh_private.Common.Decimal.{parse_unsigned, u32_max}
use agentmesh_private.Proto.Rfc3339.{byte_is, get_range}

abbrev pub results : List Text
results = bytes "done" ∷ bytes "split_required" ∷ bytes "blocked" ∷ []

abbrev pub max_note_chars : ℕ
max_note_chars = 512

abbrev pub max_ts_chars : ℕ
max_ts_chars = 64

abbrev pub min_ts_chars : ℕ
min_ts_chars = 11

abbrev pub max_lane_chars : ℕ
max_lane_chars = 64

abbrev pub max_scope_key_chars : ℕ
max_scope_key_chars = 256

abbrev pub max_pr_url_chars : ℕ
max_pr_url_chars = 512

abbrev pub max_session_ref_chars : ℕ
max_session_ref_chars = 512

pub record RunRecord : Type 0 where
  pub ts : Text
  pub result : Text
  pub lane : Option Text
  pub scope_key : Option Text
  pub pr_url : Option Text
  pub session_ref : Option Text
  pub note : Option Text

-- The issues by what they report; `code` is their code.
pub data Issue : Type 0 where
  ts_length unknown_result ts_bad_format : Issue
  field_length note_length : Text → ℕ → Issue

abbrev pub code : Issue → Text
code ts_length = bytes "record_field_invalid"
code unknown_result = bytes "unknown_result"
code ts_bad_format = bytes "ts_bad_format"
code (field_length name max) = bytes "record_field_invalid"
code (note_length name max) = bytes "record_field_invalid"

-- One pass of the loop over the bounded fields, for all but the note.
unfoldable pub bounded_field : Text → Option Text → ℕ → List Issue
bounded_field name none max = []
bounded_field name (some text) max =
    if is_empty text || ltb max (char_count text) then field_length name max ∷ [] else []

-- The pass for the note.
unfoldable pub bounded_note : Option Text → ℕ → List Issue
bounded_note none max = []
bounded_note (some text) max =
    if ltb max (char_count text) then note_length (bytes "note") max ∷ [] else []

unfoldable pub validate_record : RunRecord → List Issue
validate_record r =
    (if is_empty r.ts || ltb (char_count r.ts) min_ts_chars || ltb max_ts_chars (char_count r.ts)
      then ts_length ∷ []
      else [])
    ++ (if not (any (str_eq r.result) results) then unknown_result ∷ [] else [])
    ++ bounded_field (bytes "lane") r.lane max_lane_chars
    ++ bounded_field (bytes "scope_key") r.scope_key max_scope_key_chars
    ++ bounded_field (bytes "pr_url") r.pr_url max_pr_url_chars
    ++ bounded_field (bytes "session_ref") r.session_ref max_session_ref_chars
    ++ bounded_note r.note max_note_chars

pub data Field : Type 0 where
  count_field : ℕ → Field
  text_field : Text → Field

-- `filter(|text| !text.is_empty())`.
abbrev pub non_empty : Option Text → Option Text
non_empty none = none
non_empty (some text) = if is_empty text then none else some text

abbrev pub or_direct : Option Text → Text
or_direct none = bytes "direct"
or_direct (some lane) = lane

abbrev pub lane_of : Option Text → Text
lane_of lane = or_direct (non_empty lane)

abbrev pub insert_some : Text → Option Text → Map Field → Map Field
insert_some key none m = m
insert_some key (some text) m = insert key (text_field text) m

-- The members that every line has.
unfoldable pub required_fields : RunRecord → Map Field
required_fields r = insert (bytes "lane") (text_field (lane_of r.lane)) (
    insert (bytes "result_type") (text_field r.result) (
      insert (bytes "event_type") (text_field (bytes "lane_run_record")) (
        insert (bytes "feedback_version") (count_field 1)
          (insert (bytes "ts") (text_field r.ts) []))))

unfoldable pub canonical_record_line : RunRecord → Map Field
canonical_record_line r = insert_some (bytes "note") (non_empty r.note) (
    insert_some (bytes "session_ref") (non_empty r.session_ref) (
      insert_some (bytes "pr_url") (non_empty r.pr_url)
        (insert_some (bytes "scope_key") (non_empty r.scope_key) (required_fields r))))

-- The guard on the bytes of the date. The slice `ts[..7]` below is the first seven bytes.
abbrev has_date_marks : Text → Bool
has_date_marks ts =
    not (ltb (length ts) 11) && byte_is ts 4 b'-' && byte_is ts 7 b'-' && byte_is ts 10 b'T'

abbrev pub in_range : ℕ → ℕ → ℕ → Bool
in_range low high n = leb low n && leb n high

unfoldable pub ts_bucket_month : Text → Option Text
ts_bucket_month ts =
    if not (has_date_marks ts)
    then none
    else get_range ts 5 7 >>= λ mm.
        (parse_unsigned u32_max mm >>= λ month.
        (get_range ts 8 10 >>= λ dd.
        (parse_unsigned u32_max dd >>= λ day.
        (if not (in_range 1 12 month) || not (in_range 1 31 day) then none else some (take 7 ts)))))

-- What `compact` is given by `record`: a bucket, a line and a feedback code.
pub record Recorded : Type 0 where
  pub bucket_month : Text
  pub line : Map Field
  pub feedback_code : Text

-- The two outcomes of `run_record_op`; `issue_count` is the length of the issues.
pub record Output : Type 0 where
  pub valid : Bool
  pub issues : List Issue
  pub recorded : Option Recorded

abbrev bucketed : RunRecord → Option Text → Output
bucketed r none = record { valid = false; issues = ts_bad_format ∷ []; recorded = none }
bucketed r (some bucket) = record {
  valid = true;
  issues = [];
  recorded = some (record {
    bucket_month = bucket;
    line = canonical_record_line r;
    feedback_code = bytes "lane_run_record_" ++ r.result;
  });
}

unfoldable pub run_record_op : RunRecord → Output
run_record_op r = bucketed r (ts_bucket_month r.ts)
