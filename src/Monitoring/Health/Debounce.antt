-- ===== src/Monitoring/Health/Debounce.antt =====
-- How many checks it takes to change a node.
use aso_node_recovery.NodeLifecycle
use aso_node_recovery.Prelude.{
  List, [], arith, false, inl, inr, none, refl, ℕ, ◌+◌, ◌↔◌, ◌∷◌, ◌≡◌, ◌≤◌, ◌⊎◌,
}
use aso_node_recovery.Errors.{Result, err, is_ok, ok, ◌>>=◌}
use aso_node_recovery.Models.NodeEnums.{NodeState}
use aso_node_recovery.Models.Rows.{Node}
use aso_node_recovery.Monitoring.Health.{
  HealthApplicationResult, MonitoringPolicy, apply, apply_checked, apply_reachable,
  apply_unreachable,
}
use aso_node_recovery.Outside.{ReachabilityDecision}
use aso_node_recovery.Replacement.Access.{first}

-- The one way in which a check raises, with the clock for a time: a healthy node that reaches the
-- threshold with this very check, because HEALTHY may not go to FAILED. With a threshold of 1 that is
-- every failed check of a healthy node.
pub apply_raises_iff :
    (now : ℕ) (policy : MonitoringPolicy) (node : Node) (decision : ReachabilityDecision)
    → (is_ok (apply now policy node decision none) ≡ false) ↔ (
        (node.state ≡ NodeState.healthy)
        × (decision ≡ ReachabilityDecision.unreachable)
        × (policy.failure_threshold ≤ node.consecutive_failures + 1))
unfolding apply apply_checked apply_reachable apply_unreachable NodeLifecycle.transition
apply_raises_iff now policy node ReachabilityDecision.reachable = ground arith
apply_raises_iff now policy node ReachabilityDecision.unreachable = ground arith
apply_raises_iff now policy node ReachabilityDecision.indeterminate = ground arith

-- The checks of a node in turn; the first one that raises ends the run.
unfoldable pub run_checks : ℕ → MonitoringPolicy → Node → List ReachabilityDecision → Result Node
run_checks now policy node [] = ok node
run_checks now policy node (decision ∷ decisions) =
    apply now policy node decision none >>= λ step. run_checks now policy step.0 decisions

abbrev pub failed_check : ReachabilityDecision → ℕ
failed_check ReachabilityDecision.unreachable = 1
failed_check _ = 0

unfoldable pub count_failed : List ReachabilityDecision → ℕ
count_failed [] = 0
count_failed (decision ∷ decisions) = failed_check decision + count_failed decisions

module _ (now : ℕ) (policy : MonitoringPolicy) where
  -- One check raises the count by one at most, and only a full count makes a node FAILED.
  step_counts :
      (node : Node) (decision : ReachabilityDecision) (after : Node)
      (result : HealthApplicationResult)
      → apply now policy node decision none ≡ ok (after, result)
      → (after.consecutive_failures ≤ node.consecutive_failures + failed_check decision)
        × ((after.state ≡ NodeState.failed)
            → (node.state ≡ NodeState.failed)
              ⊎ (policy.failure_threshold ≤ node.consecutive_failures + failed_check decision))
  unfolding apply apply_checked apply_reachable apply_unreachable NodeLifecycle.transition
  step_counts node ReachabilityDecision.reachable after result h = ground arith
  step_counts node ReachabilityDecision.unreachable after result h = ground arith
  step_counts node ReachabilityDecision.indeterminate after result h = ground arith

  continue_counts :
      (decisions : List ReachabilityDecision) (step : Result (Node × HealthApplicationResult))
      (node after : Node) (one : ℕ)
      → ((mid : Node)
          → run_checks now policy mid decisions ≡ ok after
          → after.state ≡ NodeState.failed
          → (mid.state ≡ NodeState.failed)
            ⊎ (policy.failure_threshold ≤ mid.consecutive_failures + count_failed decisions))
      → ((mid : Node) (result : HealthApplicationResult)
          → step ≡ ok (mid, result)
          → (mid.consecutive_failures ≤ node.consecutive_failures + one)
            × ((mid.state ≡ NodeState.failed)
                → (node.state ≡ NodeState.failed)
                  ⊎ (policy.failure_threshold ≤ node.consecutive_failures + one)))
      → (step >>= λ s. run_checks now policy s.0 decisions) ≡ ok after
      → after.state ≡ NodeState.failed
      → (node.state ≡ NodeState.failed)
        ⊎ (policy.failure_threshold ≤ node.consecutive_failures + (one + count_failed decisions))
  continue_counts decisions (ok (mid, result)) node after one rest first h is_failed =
      let known = first mid result refl in
      elim (rest mid h is_failed) [
        | inl failed_before ↦ elim (known.1 failed_before) [
          | inl failed_first ↦ inl failed_first
          | inr full ↦ inr (omega arith)
        ]
        | inr full ↦ inr (let bound = known.0 in omega arith)
      ]
  continue_counts decisions (err e) node after one rest first h is_failed = absurd (ground arith)

  -- A node that a run of checks leaves FAILED was FAILED before, or the failed checks of the run
  -- together with its count from before reach the threshold: fewer failures never make a node
  -- FAILED, in whatever order the checks come.
  pub failed_needs_failures :
      (decisions : List ReachabilityDecision) (node after : Node)
      → run_checks now policy node decisions ≡ ok after
      → after.state ≡ NodeState.failed
      → (node.state ≡ NodeState.failed)
        ⊎ (policy.failure_threshold ≤ node.consecutive_failures + count_failed decisions)
  unfolding run_checks count_failed
  failed_needs_failures [] node after h is_failed = ground arith
  failed_needs_failures (decision ∷ decisions) node after h is_failed =
      continue_counts decisions (apply now policy node decision none) node after
        (failed_check decision) (λ mid. failed_needs_failures decisions mid after)
        (step_counts node decision) h is_failed
