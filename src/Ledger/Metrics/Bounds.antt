-- ===== src/Ledger/Metrics/Bounds.antt =====
-- plugins/local-control-ledger/src/lib.rs: the counts of `get_promotion_metrics`.
use native.Mathlib.Nat.{div-mul-le_self, div-le_of_le-mul, div-eq_of_eq-mul_right}
use agentmesh_private.Common.{
  ◌∙◌, ◌↔◌, ℕ, zero, suc, ◌-◌, ◌*◌, ◌/◌, ◌≤◌, ◌<◌, not, ◌&&◌, ◌≡◌, refl, sym, arith,
}
use agentmesh_private.Ledger.Rows.{Tables}
use agentmesh_private.Ledger.Sql.Keys.{count-le}
use agentmesh_private.Ledger.Args.{MetricsArgs}
use agentmesh_private.Ledger.Metrics.{in_shadow_run, count_decisions, count_failures, parity_pct}

failures-le : (a : MetricsArgs) (t : Tables) → (count_failures a t).0 ≤ (count_decisions a t).0
unfolding count_failures count_decisions
failures-le a t =
    count-le (λ r. in_shadow_run a r && not r.hard_gate_pass) (in_shadow_run a)
      (λ r h. ground arith) t.decisions

positive : (d f : ℕ) → 0 < d → parity_pct d f ≡ ((d - f) * 100) / d
unfolding parity_pct
positive d f h = ground arith

no_parity : (f : ℕ) → parity_pct 0 f ≡ 0
unfolding parity_pct
no_parity f = refl

parity_pct-le : (d f : ℕ) → f ≤ d → parity_pct d f ≤ 100
parity_pct-le zero f le = rw (no_parity f) (omega arith)
parity_pct-le (suc d) f le =
    rw (positive (suc d) f (omega arith)) (div-le_of_le-mul (suc d) (omega arith))

full_parity : (d f : ℕ) → f ≤ d → parity_pct d f ≡ 100 → (0 < d) × (f ≡ 0)
full_parity zero f le h = absurd (zero_hundred (rw (no_parity f) at h))
  where
    zero_hundred : ◌≡◌ {A = ℕ} 0 100 → ⊥
    zero_hundred e = omega arith
full_parity (suc d) f le h =
    let below = div-mul-le_self ((suc d - f) * 100) (suc d) in
    let full = sym (positive (suc d) f (omega arith)) ∙ h in
    (omega arith, no_failure d f (rw full at below))
  where
    no_failure : (d f : ℕ) → 100 * suc d ≤ (suc d - f) * 100 → f ≡ 0
    no_failure d f h = omega arith

parity_pct-full : (d f : ℕ) → f ≤ d → (parity_pct d f ≡ 100) ↔ ((0 < d) × (f ≡ 0))
parity_pct-full d f le = (full_parity d f le, back)
  where
    back : (0 < d) × (f ≡ 0) → parity_pct d f ≡ 100
    back (pos, none) = positive d f pos ∙ div-eq_of_eq-mul_right pos (omega arith)

-- The hard-gate failures in a window are no more than the decisions in it, the parity is at most 100,
-- and it is 100 exactly if there is a decision and none of them failed.
pub parity_pct-bounds :
    (a : MetricsArgs) (t : Tables)
    → ((count_failures a t).0 ≤ (count_decisions a t).0)
      × (parity_pct (count_decisions a t).0 (count_failures a t).0 ≤ 100)
      × ((parity_pct (count_decisions a t).0 (count_failures a t).0 ≡ 100)
          ↔ ((0 < (count_decisions a t).0) × ((count_failures a t).0 ≡ 0)))
parity_pct-bounds a t =
    (failures-le a t, parity_pct-le _ _ (failures-le a t), parity_pct-full _ _ (failures-le a t))
