-- ===== src/Proto/Failure/Codes.antt =====
-- crates/agentmesh-proto/src/failure.rs: what the codes tell apart.
use agentmesh_private.Common.{
  Text, Option, none, some, ◌≡◌, refl, ap, ◌∙◌, sym, List, [], ◌∷◌, str_eq, if◌then◌else◌, arith,
  ◌↔◌, ◌⊎◌, ◌<◌,
}
use agentmesh_private.Proto.Failure.{
  FailureCategory, timeout, cancelled, FailureCode, exit_code, as_str, input_missing, input_empty,
  input_too_large, input_read_failed, input_invalid_json, input_schema_violation, plugin_not_found,
  plugin_spawn_failed, plugin_write_failed, initialize_timeout, run_timeout,
  protocol_version_mismatch, invalid_framing, invalid_json, schema_violation,
  plugin_application_error, unexpected_eof, frame_too_large, rpc_id_mismatch, unexpected_output,
  plugin_exited, plugin_exit_timeout, host_interrupted, sidecar_too_large, sidecar_write_failed,
  stdout_write_failed, host_internal_error,
}

all_codes : List FailureCode
all_codes =
    input_missing ∷ input_empty ∷ input_too_large ∷ input_read_failed ∷ input_invalid_json
    ∷ input_schema_violation ∷ plugin_not_found ∷ plugin_spawn_failed ∷ plugin_write_failed
    ∷ initialize_timeout ∷ run_timeout ∷ protocol_version_mismatch ∷ invalid_framing ∷ invalid_json
    ∷ schema_violation ∷ plugin_application_error ∷ unexpected_eof ∷ frame_too_large
    ∷ rpc_id_mismatch ∷ unexpected_output ∷ plugin_exited ∷ plugin_exit_timeout ∷ host_interrupted
    ∷ sidecar_too_large ∷ sidecar_write_failed ∷ stdout_write_failed ∷ host_internal_error ∷ []

find_code : Text → List FailureCode → Option FailureCode
find_code s [] = none
find_code s (c ∷ cs) = if str_eq (as_str c) s then some c else find_code s cs

-- The first code with a wire string is the one that was printed.
find_code-as_str : (c : FailureCode) → find_code (as_str c) all_codes ≡ some c
unfolding find_code all_codes as_str str_eq
find_code-as_str input_missing = refl
find_code-as_str _ = refl

some_inj : {a b : FailureCode} → some a ≡ some b → a ≡ b
some_inj p = ground arith

-- Two codes with the same wire string are the same code.
pub as_str_injective : (a b : FailureCode) → as_str a ≡ as_str b → a ≡ b
as_str_injective a b p =
    some_inj (sym (find_code-as_str a) ∙ ap (λ s. find_code s all_codes) p ∙ find_code-as_str b)

-- Two categories end the process with the same exit code exactly when they are the same, a timeout
-- and a cancellation counting as one; and no category ends it with the code 0 of success.
pub exit_code-FailureCategory :
    (a b : FailureCategory)
    → ((exit_code a ≡ exit_code b)
        ↔ ((a ≡ b) ⊎ ((a ≡ timeout) × (b ≡ cancelled)) ⊎ ((a ≡ cancelled) × (b ≡ timeout))))
      × (0 < exit_code a)
unfolding exit_code
exit_code-FailureCategory a b = ground arith
