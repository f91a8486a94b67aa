-- ===== src/Host/FailureCoord/Laws.antt =====
-- crates/agentmesh-host/src/failure_coord.rs: precedence of failures over whole runs.
use mathlib.Core.List.{Perm, perm_middle, perm_append_comm, perm-append_left_iff}
use mathlib.Core.List.Perm
use agentmesh_private.Common.{
  Option, none, some, List, [], ◌∷◌, ◌++◌, map, append_assoc, append-nil, ◌≡◌, refl, sym, ap, ◌∙◌,
  subst, arith, All,
}
use agentmesh_private.Proto.Failure.{FailureRecord, SecondaryFailure, into_secondary}
use agentmesh_private.Host.FailureCoord.{
  Coordinator, new, record_stdout_failure, demote, Call, plain, audit, stdout, failure_of, call,
  calls,
}

-- The primary failure, if any, in front of the secondary ones.
abbrev pub chain : Coordinator → List SecondaryFailure
chain g = demote g.primary g.secondary

abbrev pub IsStdout : Call → Type 0
IsStdout (stdout _) = Unit
IsStdout _ = ⊥

-- A call that is not about stdout goes to the end, if there is a primary failure.
call_later :
    (g : Coordinator) (p : FailureRecord) (c : Call)
    → g.primary ≡ some p
    → ¬ IsStdout c
    → (call g c).primary ≡ some p
      × ((call g c).secondary ≡ g.secondary ++ into_secondary (failure_of c) ∷ [])
unfolding call
call_later g p (plain f) h n = ground arith
call_later g p (audit f) h n = ground arith
call_later g p (stdout f) h n = absurd (n tt)

-- From a state with a primary failure, calls that are not about stdout keep it, and append their
-- failures to the secondary ones in the order of the calls.
pub calls_later :
    (cs : List Call) (g : Coordinator) (p : FailureRecord)
    → g.primary ≡ some p
    → All (λ c. ¬ IsStdout c) cs
    → ((calls g cs).primary ≡ some p)
      × ((calls g cs).secondary ≡ g.secondary ++ map (λ c. into_secondary (failure_of c)) cs)
unfolding calls
calls_later [] g p h n = (h, sym (append-nil g.secondary))
calls_later (c ∷ cs) g p h (n, ns) =
    let (kept, grown) = call_later g p c h n in
    let (kept', grown') = calls_later cs (call g c) p kept ns in
    (kept', grown' ∙ rw (grown, append_assoc) refl)

-- After any calls that are not about stdout, the first failure is the primary one and the others
-- are the secondary ones, in order.
pub calls_first_wins :
    (c : Call) (cs : List Call)
    → All (λ d. ¬ IsStdout d) (c ∷ cs)
    → ((calls new (c ∷ cs)).primary ≡ some (failure_of c))
      × ((calls new (c ∷ cs)).secondary ≡ map (λ d. into_secondary (failure_of d)) cs)
unfolding calls new call
calls_first_wins (plain f) cs (n, ns) = calls_later cs (call new (plain f)) f refl ns
calls_first_wins (audit f) cs (n, ns) = calls_later cs (call new (audit f)) f refl ns
calls_first_wins (stdout f) cs (n, ns) = absurd (n tt)

calls-append : (cs ds : List Call) (g : Coordinator) → calls g (cs ++ ds) ≡ calls (calls g cs) ds
unfolding calls
calls-append [] ds g = refl
calls-append (c ∷ cs) ds g = calls-append cs ds (call g c)

-- What the last of the stdout failures leaves, given what stood before: it is the primary failure, the
-- former primary one, if any, stands in front of the former secondary ones, and the later failures follow
-- in order.
pub record HasTaken (before after : Coordinator) (f : FailureRecord) (later : List SecondaryFailure)
    : Type 0 where
  pub taken : after.primary ≡ some f
  pub demoted :
      (prev : FailureRecord)
      → before.primary ≡ some prev
      → after.secondary ≡ into_secondary prev ∷ before.secondary ++ later
  pub first : before.primary ≡ none → after.secondary ≡ before.secondary ++ later

-- A failure of stdout becomes the primary one whatever stood before; the former primary failure, if there
-- is one, goes in front of the secondary ones, and the failures of later calls that are not about stdout
-- follow them in the order of the calls.
pub calls_stdout_wins :
    (before after : List Call) (f : FailureRecord)
    → All (λ c. ¬ IsStdout c) after
    → HasTaken
        (calls new before)
        (calls new (before ++ stdout f ∷ after))
        f
        (map (λ c. into_secondary (failure_of c)) after)
unfolding call calls record_stdout_failure
calls_stdout_wins before after f ns =
    let g = calls new before in
    let (kept, grown) = calls_later after (record_stdout_failure g f) f refl ns in
    let joined = calls-append before (stdout f ∷ after) new in
    record {
      taken = ap (λ (h : Coordinator). h.primary) joined ∙ kept;
      demoted = λ prev there.
          ap (λ (h : Coordinator). h.secondary) joined
          ∙ grown
          ∙ ap (λ p. demote p g.secondary ++ map (λ c. into_secondary (failure_of c)) after) there;
      first = λ there.
          ap (λ (h : Coordinator). h.secondary) joined
          ∙ grown
          ∙ ap (λ p. demote p g.secondary ++ map (λ c. into_secondary (failure_of c)) after) there;
    }

-- A failure that is recorded is never lost.
grow-perm :
    (p : Option FailureRecord) (s : List SecondaryFailure) (c : Call)
    → Perm
        (chain (call (record { primary = p; secondary = s }) c))
        (into_secondary (failure_of c) ∷ demote p s)
unfolding call
grow-perm none s (plain f) = Perm.refl _
grow-perm none s (audit f) = Perm.refl _
grow-perm none s (stdout f) = Perm.refl _
grow-perm (some q) s (plain f) = perm_append_comm (into_secondary q ∷ s) (into_secondary f ∷ [])
grow-perm (some q) s (audit f) = perm_append_comm (into_secondary q ∷ s) (into_secondary f ∷ [])
grow-perm (some q) s (stdout f) = Perm.refl _

calls_from-perm :
    (g : Coordinator) (cs : List Call)
    → Perm (chain (calls g cs)) (map (λ c. into_secondary (failure_of c)) cs ++ chain g)
unfolding calls
calls_from-perm g [] = Perm.refl _
calls_from-perm g (c ∷ cs) = Perm.trans (calls_from-perm (call g c) cs) (
    Perm.trans ((perm-append_left_iff _).1 (grow-perm g.primary g.secondary c))
      (perm_middle _ (chain g)))

-- Whatever the calls, stdout failures among them, the primary and the secondary failures together
-- are the failures that were recorded, each as often as it was recorded.
pub calls-perm :
    (cs : List Call) → Perm (chain (calls new cs)) (map (λ c. into_secondary (failure_of c)) cs)
unfolding new
calls-perm cs = subst (λ l. Perm (chain (calls new cs)) l) (append-nil _) (calls_from-perm new cs)
