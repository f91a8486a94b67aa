-- ===== src/Ledger/Validate.antt =====
-- plugins/local-control-ledger/src/lib.rs: the checks on the fields of an input.
use agentmesh_private.Common.{
  ℕ, Text, bytes, Bool, not, ◌||◌, Option, none, some, List, [], ◌∷◌, any, is_empty, char_count,
  str_eq, str_lt, ltb, if◌then◌else◌,
}
use agentmesh_private.Common.Int.{ltb_ℤ}
use agentmesh_private.Common.Results.{Result, ok, err}
use agentmesh_private.Proto.Rfc3339.{parse_rfc3339_epoch}
use agentmesh_private.Ledger.Input.{
  LedgerError, validation, missing, bad_length, bad_mode, bad_order,
}

abbrev pub max_id_chars : ℕ
max_id_chars = 128

abbrev pub max_scope_chars : ℕ
max_scope_chars = 256

abbrev pub max_hash_chars : ℕ
max_hash_chars = 128

abbrev pub max_code_chars : ℕ
max_code_chars = 64

abbrev pub max_ts_chars : ℕ
max_ts_chars = 64

abbrev pub authority_modes : List Text
authority_modes =
    bytes "shadow"
    ∷ bytes "observer"
    ∷ bytes "safe_writer"
    ∷ bytes "queue"
    ∷ bytes "todo_runner"
    ∷ []

abbrev pub within : ℕ → Text → Bool
within max value = not (is_empty value || ltb max (char_count value))

abbrev checked_length : Text → ℕ → Text → Result LedgerError (Unit {0})
checked_length field max value =
    if is_empty value || ltb max (char_count value)
    then err (validation (bad_length field max))
    else ok tt

unfoldable pub validate_id : Text → Text → Result LedgerError (Unit {0})
validate_id field value = checked_length field max_id_chars value

unfoldable pub validate_scope : Text → Result LedgerError (Unit {0})
validate_scope value = checked_length (bytes "scope_key") max_scope_chars value

unfoldable pub validate_hash : Text → Text → Result LedgerError (Unit {0})
validate_hash field value = checked_length field max_hash_chars value

unfoldable pub validate_code : Text → Text → Result LedgerError (Unit {0})
validate_code field value = checked_length field max_code_chars value

unfoldable pub validate_ts : Text → Result LedgerError (Unit {0})
validate_ts value = checked_length (bytes "ts") max_ts_chars value

unfoldable pub validate_authority_mode : Text → Result LedgerError (Unit {0})
validate_authority_mode value =
    if not (any (str_eq value) authority_modes) then err (validation bad_mode) else ok tt

-- `ts_is_after`: by the instants if both texts parse, else by the texts.
unfoldable pub ts_is_after : Text → Text → Bool
ts_is_after candidate reference = elim (parse_rfc3339_epoch candidate) [
  | none ↦ str_lt reference candidate
  | some c ↦ elim (parse_rfc3339_epoch reference) [
    | none ↦ str_lt reference candidate
    | some r ↦ ltb_ℤ r c
  ]
]

unfoldable pub require : Option Text → Text → Result LedgerError Text
require none field = err (validation (missing field))
require (some value) field = ok value

-- `expires_at must be after acquired_at`.
unfoldable pub require_after : Text → Text → Result LedgerError (Unit {0})
require_after expires_at acquired_at =
    if not (ts_is_after expires_at acquired_at) then err (validation bad_order) else ok tt
