-- ===== src/Host/Run/Protocol.antt =====
-- crates/agentmesh-host/src/run.rs: what the two exchanges and the close establish, when the run goes on.
use agentmesh_private.Common.{
  Text, bytes, Option, none, some, List, ◌++◌, str_eq, str_eq→eq, ◌≡◌, refl, Bool-cases, inl, inr,
}
use agentmesh_private.Common.Json.{Value}
use agentmesh_private.Common.Results.{Result, ok, err}
use agentmesh_private.Proto.Compact.{protocol_version}
use agentmesh_private.Proto.Failure.{rpc_id_mismatch, protocol_version_mismatch}
use agentmesh_private.Proto.Rpc.{
  JsonRpcResponse, JsonRpcError, InitializeResult, RunResult, json_rpc_id,
}
use agentmesh_private.Host.Run.State.{RunConfig, Codec, Process, Run, and_then}
use agentmesh_private.Host.Run.Exchange.{
  exchange, version_checked, initialized, check_initialize, initialize_leg, expect_id, initialize,
  settle, check_run, run_leg, request_run,
}
use agentmesh_private.Host.Run.Stages.{
  Leads, and_then-Leads, IsCoded, IsClean, IsClean-IsCoded, fail-IsCoded, fail-not-IsClean,
  abort_child-IsSettled,
}
use agentmesh_private.Host.Run.Answers.{HasAnswer, exchange-Leads}

module _ (codec : Codec) (config : RunConfig) (process : Process) where
  -- The plugin answered "initialize": same identifier, no error, the host's version.
  pub record HasGreeted (run_id : Text) : Type 0 where
    pub id : Text
    pub response : JsonRpcResponse InitializeResult
    pub result : InitializeResult
    pub valid : json_rpc_id (bytes "init-" ++ run_id) ≡ ok id
    pub answer :
        HasAnswer codec config process
          (initialize_leg codec process id)
          codec.initialize_response
          response
    pub same_id : response.id ≡ id
    pub no_error : response.error ≡ none
    pub has_result : response.result ≡ some result
    pub version : result.protocol_version ≡ protocol_version

  -- The plugin answered "agentmesh.run" with a payload: same identifier, no error.
  pub record HasRun (run_id : Text) (input payload : Value) : Type 0 where
    pub id : Text
    pub response : JsonRpcResponse RunResult
    pub result : RunResult
    pub valid : json_rpc_id (bytes "run-" ++ run_id) ≡ ok id
    pub answer :
        HasAnswer codec config process
          (run_leg codec process run_id input id)
          codec.run_response
          response
    pub same_id : response.id ≡ id
    pub no_error : response.error ≡ none
    pub has_result : response.result ≡ some result
    pub payload_kept : payload ≡ result.payload

  module _ (redaction : List Text) where
    version_checked-Leads :
        (Done : Unit {0} → Run → Type 0) (result : InitializeResult) (run : Run)
        → IsClean run
        → (result.protocol_version ≡ protocol_version
            → Done tt (record run { plugin_version = some result.plugin_version }))
        → Leads Done (version_checked codec config redaction process result run)
    unfolding version_checked
    version_checked-Leads Done result run clean done =
        elim (Bool-cases (str_eq result.protocol_version protocol_version)) [
          | inl same ↦ rw (same) (done (str_eq→eq _ _ same))
          | inr other ↦ rw (other) (
              abort_child-IsSettled Done codec config process protocol_version_mismatch _ run
                (IsClean-IsCoded run clean))
        ]

    initialized-Leads :
        (Done : Unit {0} → Run → Type 0) (e : Option JsonRpcError) (r : Option InitializeResult)
        (run : Run)
        → IsClean run
        → ((result : InitializeResult)
            → e ≡ none
            → r ≡ some result
            → result.protocol_version ≡ protocol_version
            → Done tt (record run { plugin_version = some result.plugin_version }))
        → Leads Done (initialized codec config redaction process e r run)
    unfolding initialized
    initialized-Leads Done (some e) r run clean done =
        abort_child-IsSettled Done codec config process _ _ run (IsClean-IsCoded run clean)
    initialized-Leads Done none none run clean done =
        abort_child-IsSettled Done codec config process _ _ run (IsClean-IsCoded run clean)
    initialized-Leads Done none (some result) run clean done =
        version_checked-Leads Done result run clean (done result refl refl)

    check_initialize-Leads :
        (run_id id : Text) (response : JsonRpcResponse InitializeResult) (run : Run)
        → json_rpc_id (bytes "init-" ++ run_id) ≡ ok id
        → IsClean run
        → HasAnswer codec config process
            (initialize_leg codec process id)
            codec.initialize_response
            response
        → Leads
            (λ _ after. IsClean after × HasGreeted run_id)
            (check_initialize codec config redaction process id response run)
    unfolding check_initialize
    check_initialize-Leads run_id id response run valid clean answer =
        elim (Bool-cases (str_eq response.id id)) [
          | inr other ↦ rw (other) (
              abort_child-IsSettled _ codec config process rpc_id_mismatch _ run
                (IsClean-IsCoded run clean))
          | inl same ↦ rw (same) (
              initialized-Leads _ response.error response.result run clean
                λ result no_error has_result version. (
                  clean,
                  record {
                    id = id;
                    response = response;
                    result = result;
                    valid = valid;
                    answer = answer;
                    same_id = str_eq→eq _ _ same;
                    no_error = no_error;
                    has_result = has_result;
                    version = version;
                  },
                ))
        ]

    pub initialize-Leads :
        (run_id : Text) (run : Run)
        → IsClean run
        → Leads
            (λ _ after. IsClean after × HasGreeted run_id)
            (initialize codec config redaction process run_id run)
    unfolding initialize expect_id
    initialize-Leads run_id run clean = with_id (json_rpc_id (bytes "init-" ++ run_id)) refl
      where
        with_id :
            (made : Result _ Text)
            → json_rpc_id (bytes "init-" ++ run_id) ≡ made
            → Leads
                (λ _ after. IsClean after × HasGreeted run_id)
                (expect_id made λ id.
                  and_then
                    (exchange codec config redaction process
                      (initialize_leg codec process id)
                      codec.initialize_response
                      run)
                    (check_initialize codec config redaction process id))
        with_id (err e) made = tt
        with_id (ok id) made =
            and_then-Leads
              (λ t after.
                IsClean after
                × HasAnswer codec config process (initialize_leg codec process id)
                    codec.initialize_response t)
              _ _ _
              (exchange-Leads codec config process redaction (initialize_leg codec process id)
                codec.initialize_response run clean)
              λ response after (clean', answer).
                check_initialize-Leads run_id id response after made clean' answer

    settle-result :
        (e : Option JsonRpcError) (r : Option RunResult) (run : Run)
        → IsClean run
        → IsCoded (settle codec config redaction process e r run)
          × (IsClean (settle codec config redaction process e r run)
              → (result : RunResult) × (e ≡ none)
                × (r ≡ some result)
                × ((settle codec config redaction process e r run).payload ≡ result.payload))
    unfolding settle
    settle-result (some e) r run clean =
        let coded = IsClean-IsCoded run clean in
        (fail-IsCoded _ _ run coded, λ done. absurd (fail-not-IsClean _ _ run coded done))
    settle-result none none run clean =
        let coded = IsClean-IsCoded run clean in
        (fail-IsCoded _ _ run coded, λ done. absurd (fail-not-IsClean _ _ run coded done))
    settle-result none (some result) run clean =
        (IsClean-IsCoded run clean, λ done. (result, refl, refl, refl))

    check_run-Leads :
        (run_id id : Text) (input : Value) (response : JsonRpcResponse RunResult) (run : Run)
        → json_rpc_id (bytes "run-" ++ run_id) ≡ ok id
        → IsClean run
        → HasAnswer codec config process
            (run_leg codec process run_id input id)
            codec.run_response
            response
        → Leads
            (λ _ after. IsCoded after × (IsClean after → HasRun run_id input after.payload))
            (check_run codec config redaction process id response run)
    unfolding check_run
    check_run-Leads run_id id input response run valid clean answer =
        elim (Bool-cases (str_eq response.id id)) [
          | inr other ↦ rw (other) (
              abort_child-IsSettled _ codec config process rpc_id_mismatch _ run
                (IsClean-IsCoded run clean))
          | inl same ↦ rw (same) (
              let (coded, result_of) = settle-result response.error response.result run clean in
              (
                coded,
                λ still.
                    (let (result, no_error, has_result, kept) = result_of still in
                      record {
                        id = id;
                        response = response;
                        result = result;
                        valid = valid;
                        answer = answer;
                        same_id = str_eq→eq _ _ same;
                        no_error = no_error;
                        has_result = has_result;
                        payload_kept = kept;
                      }),
              ))
        ]

    pub request_run-Leads :
        (run_id : Text) (input : Value) (run : Run)
        → IsClean run
        → Leads
            (λ _ after. IsCoded after × (IsClean after → HasRun run_id input after.payload))
            (request_run codec config redaction process run_id input run)
    unfolding request_run expect_id
    request_run-Leads run_id input run clean = with_id (json_rpc_id (bytes "run-" ++ run_id)) refl
      where
        with_id :
            (made : Result _ Text)
            → json_rpc_id (bytes "run-" ++ run_id) ≡ made
            → Leads
                (λ _ after. IsCoded after × (IsClean after → HasRun run_id input after.payload))
                (expect_id made λ id.
                  and_then
                    (exchange codec config redaction process
                      (run_leg codec process run_id input id)
                      codec.run_response
                      run)
                    (check_run codec config redaction process id))
        with_id (err e) made = tt
        with_id (ok id) made =
            and_then-Leads
              (λ t after.
                IsClean after
                × HasAnswer codec config process (run_leg codec process run_id input id)
                    codec.run_response t)
              _ _ _
              (exchange-Leads codec config process redaction (run_leg codec process run_id input id)
                codec.run_response run clean)
              λ response after (clean', answer).
                check_run-Leads run_id id input response after made clean' answer
