-- ===== src/Host/Run/Finish/Cases.antt =====
-- crates/agentmesh-host/src/run.rs: the outcome that `finish` makes, case by case.
use agentmesh_private.Common.{
  Text, bytes, true, Option, none, some, List, [], ◌∷◌, is_empty, ◌≡◌, refl, sym, subst, ◌∙◌, ap,
  ◌⊎◌, inl, inr, Bool-cases, arith,
}
use agentmesh_private.Common.Json.{object, no_members}
use agentmesh_private.Common.Results.{Result, ok, err}
use agentmesh_private.Proto.Compact.{CompactEnvelope, succeeded, failed}
use agentmesh_private.Proto.Failure.{
  SecondaryFailure, FailureCode, FailureRecord, FailureCategory, failure, category, exit_code,
  internal, input, protocol, plugin, timeout, cancelled, audit, stdout_write_failed,
  sidecar_write_failed,
}
use agentmesh_private.Host.FailureCoord.{Coordinator, record_audit_failure, record_stdout_failure}
use agentmesh_private.Host.Sidecar.{
  AuditStore, AuditError, too_large, dir_create, temp_write, sync, rename_failed, already_exists,
  path_escape, PersistResult, CompactSink,
}
use agentmesh_private.Host.Run.State.{RunConfig, Codec, Run}
use agentmesh_private.Host.Run.Stages.{HasCode, IsCoded, IsClean}
use agentmesh_private.Host.Run.Finish.{
  RunOutcome, document, audit_failure, stored, persist_document, envelope_for, or_default, outcome,
  finish,
}

-- The envelope of an error: an empty payload, and one diagnostic, whose category is that of its code.
-- The exit code is that of the category.
abbrev pub IsRefusal : RunOutcome → Type 0
IsRefusal o =
    (cause : FailureCode) × (text : Text) × (o.envelope.outcome ≡ failed)
    × (o.envelope.payload ≡ object no_members)
    × (o.envelope.diagnostics
        ≡ (record { category = some (category cause); code = some cause; message = text }) ∷ [])
    × (o.exit_code ≡ exit_code (category cause))

abbrev pub IsSuccess : RunOutcome → Type 0
IsSuccess o = (o.envelope.outcome ≡ succeeded) × (o.envelope.diagnostics ≡ []) × (o.exit_code ≡ 0)

abbrev pub IsConsistent : RunOutcome → Type 0
IsConsistent o = IsSuccess o ⊎ IsRefusal o

pub exit_code-nonzero : (kind : FailureCategory) → ¬ (exit_code kind ≡ 0)
unfolding exit_code
exit_code-nonzero input none_is_zero = omega arith
exit_code-nonzero protocol none_is_zero = omega arith
exit_code-nonzero plugin none_is_zero = omega arith
exit_code-nonzero timeout none_is_zero = omega arith
exit_code-nonzero cancelled none_is_zero = omega arith
exit_code-nonzero audit none_is_zero = omega arith
exit_code-nonzero internal none_is_zero = omega arith

audit_failure-HasCode :
    (audit_text : AuditError → Text) (e : AuditError) → HasCode (some (audit_failure audit_text e))
unfolding audit_failure failure
audit_failure-HasCode audit_text (dir_create m) = refl
audit_failure-HasCode audit_text (temp_write m) = refl
audit_failure-HasCode audit_text (sync m) = refl
audit_failure-HasCode audit_text (rename_failed m) = refl
audit_failure-HasCode audit_text (too_large n) = refl
audit_failure-HasCode audit_text already_exists = refl
audit_failure-HasCode audit_text path_escape = refl

failure-HasCode : (code : FailureCode) (m : Text) → HasCode (some (failure code m))
unfolding failure
failure-HasCode code m = refl

-- A failure of the audit leaves a primary failure, with the category of its code.
record_audit_failure-some :
    (p : Option FailureRecord) (s : List SecondaryFailure) (f : FailureRecord)
    → HasCode p
    → HasCode (some f)
    → (h : FailureRecord) × ((record_audit_failure
          (record { primary = p; secondary = s })
          f).primary
        ≡ some h)
      × HasCode (some h)
unfolding record_audit_failure
record_audit_failure-some none s f here there = (f, refl, there)
record_audit_failure-some (some h) s f here there = (h, refl, here)

module _ (codec : Codec) (audit_text : AuditError → Text) (store : AuditStore) (sink : CompactSink)
    (config : RunConfig) (run_id : Text) where
  -- The document was stored, or is empty; a path is that of the store, and the envelope names it.
  abbrev pub IsStored : Option (List Text) → Run → RunOutcome → Type 0
  IsStored redaction run o =
      (bytes : Text) × (codec.document_to_vec (document codec config run_id redaction run)
        ≡ ok bytes)
      × (((is_empty bytes ≡ true) × (o.sidecar_path ≡ none))
          ⊎ ((res : PersistResult) × (store.persist config.sidecar_dir run_id bytes
                  config.limits.sidecar_max_bytes
                ≡ ok res)
              × (o.sidecar_path ≡ some res.path)))

  -- What `persist_document` leaves: coded failures, and if there are none, what was stored.
  Persisted : Coordinator → Result Text Text → Coordinator × Option Text → Type 0
  Persisted before r (after, path) =
      HasCode after.primary
      × (after.primary ≡ none
          → (before.primary ≡ none)
            × ((bytes : Text) × (r ≡ ok bytes)
                × (((is_empty bytes ≡ true) × (path ≡ none))
                    ⊎ ((res : PersistResult) × (store.persist config.sidecar_dir run_id bytes
                            config.limits.sidecar_max_bytes
                          ≡ ok res)
                        × (path ≡ some res.path)))))

  refused-Persisted :
      (p : Option FailureRecord) (s : List SecondaryFailure) (f : FailureRecord)
      (r : Result Text Text)
      → HasCode p
      → HasCode (some f)
      → Persisted
          (record { primary = p; secondary = s })
          r
          (record_audit_failure (record { primary = p; secondary = s }) f, none)
  unfolding Persisted
  refused-Persisted p s f r here there =
      let (h, primary, coded) = record_audit_failure-some p s f here there in
      (subst HasCode (sym primary) coded, λ clean. absurd cc)

  stored-Persisted :
      (p : Option FailureRecord) (s : List SecondaryFailure) (bytes : Text)
      (res : Result AuditError PersistResult)
      → HasCode p
      → store.persist config.sidecar_dir run_id bytes config.limits.sidecar_max_bytes ≡ res
      → Persisted
          (record { primary = p; secondary = s })
          (ok bytes)
          (stored audit_text res (record { primary = p; secondary = s }))
  unfolding Persisted
  stored-Persisted p s bytes (ok res) here found =
      (here, λ clean. (clean, (bytes, refl, inr (res, found, refl))))
  stored-Persisted p s bytes (err e) here found =
      refused-Persisted p s (audit_failure audit_text e) (ok bytes) here
        (audit_failure-HasCode audit_text e)

  persist_document-Persisted :
      (p : Option FailureRecord) (s : List SecondaryFailure) (r : Result Text Text)
      → HasCode p
      → Persisted
          (record { primary = p; secondary = s })
          r
          (persist_document audit_text store config run_id r
            (record { primary = p; secondary = s }))
  unfolding persist_document Persisted
  persist_document-Persisted p s (err e) here =
      refused-Persisted p s (failure sidecar_write_failed e) (err e) here
        (failure-HasCode sidecar_write_failed e)
  persist_document-Persisted p s (ok bytes) here = elim (Bool-cases (is_empty bytes)) [
    | inl empty ↦ rw (empty) (here, λ clean. (clean, (bytes, refl, inl (empty, refl))))
    | inr full ↦ rw (full) (stored-Persisted p s bytes _ here refl)
  ]

  -- The outcome by what stdout answered: success exactly if there is no failure and the write succeeded.
  outcome-cases :
      (p : Option FailureRecord) (s : List SecondaryFailure) (run : Run)
      (path written : Option Text)
      → HasCode p
      → let o : RunOutcome =
          outcome run_id path
            (envelope_for run_id p run path)
            (record { primary = p; secondary = s })
            written in
        (o.sidecar_path ≡ path)
        × ((IsSuccess o
              × (p ≡ none)
              × (written ≡ none)
              × (o.envelope ≡ envelope_for run_id p run path)
              × (o.envelope.payload ≡ run.payload))
            ⊎ IsRefusal o)
  unfolding outcome envelope_for record_stdout_failure failure
  outcome-cases p s run path (some e) here =
      (refl, inr (stdout_write_failed, bytes "stdout write failed", refl, refl, refl, refl))
  outcome-cases none s run path none here = (refl, inl ((refl, refl, refl), refl, refl, refl, refl))
  outcome-cases (some f) s run path none here =
      (refl, inr (f.code, f.message, refl, refl, rw (here) refl, ap exit_code here))

  -- The envelope was written to stdout whole.
  abbrev pub IsWritten : RunOutcome → Type 0
  IsWritten o = sink.write_all (or_default (codec.envelope_to_vec o.envelope)) ≡ none

  pub finish-cases :
      (redaction : Option (List Text)) (run : Run)
      → IsCoded run
      → let o : RunOutcome = finish codec audit_text store sink config run_id redaction run in
        (IsSuccess o
          × IsClean run
          × IsStored redaction run o
          × IsWritten o
          × (o.envelope.payload ≡ run.payload))
        ⊎ IsRefusal o
  unfolding finish Persisted
  finish-cases redaction run coded =
      by_store (persist_document audit_text store config run_id serialized run.failures)
        (persist_document-Persisted run.failures.primary run.failures.secondary serialized coded)
    where
      serialized : Result Text Text
      serialized = codec.document_to_vec (document codec config run_id redaction run)

      by_store :
          (kept : Coordinator × Option Text)
          → Persisted run.failures serialized kept
          → let (g, path) = kept in
            let envelope = envelope_for run_id g.primary run path in
            let o : RunOutcome =
              outcome run_id path envelope g
                (sink.write_all (or_default (codec.envelope_to_vec envelope))) in
            (IsSuccess o
              × IsClean run
              × IsStored redaction run o
              × IsWritten o
              × (o.envelope.payload ≡ run.payload))
            ⊎ IsRefusal o
      by_store (g, path) (here, kept) =
          let envelope = envelope_for run_id g.primary run path in
          let written = sink.write_all (or_default (codec.envelope_to_vec envelope)) in
          let (same_path, result) = outcome-cases g.primary g.secondary run path written here in
          elim result [
            | inr refusal ↦ inr refusal
            | inl (good, none_primary, sent, same, paid) ↦
                let (clean, (bytes, serialized_ok, placed)) = kept none_primary in
                inl (
                  good,
                  clean,
                  (
                    bytes,
                    serialized_ok,
                    elim placed [
                      | inl (empty, nowhere) ↦ inl (empty, same_path ∙ nowhere)
                      | inr (res, found, at_path) ↦ inr (res, found, same_path ∙ at_path)
                    ],
                  ),
                  ap
                        (λ (e : CompactEnvelope).
                          sink.write_all (or_default (codec.envelope_to_vec e)))
                        same
                      ∙ sent,
                  paid,
                )
          ]
