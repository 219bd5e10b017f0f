-- ===== src/Monitoring/Probes/Stable.antt =====
-- A decision is never taken back by the answers that were still missing.
use aso_node_recovery.Prelude.{
  Bool, Bool-cases, List, [], ap, arith, false, if◌then◌else◌, inl, inr, leb, length, ltb, passes,
  refl, suc, ℕ, ◌+◌, ◌-◌, ◌∷◌, ◌≡◌, ◌≢◌, ◌≤◌,
}
use aso_node_recovery.Errors.{Error, Result, err, ok}
use aso_node_recovery.Monitoring.Probes.{
  CheckHostSummary, ProbeResult, ProbeStatus, count_status, evaluate, failure_count, is_failure,
  is_success, success_count,
}
use aso_node_recovery.Outside.{ReachabilityDecision}
use aso_node_recovery.System.{after}

-- A probe that says nothing of the target: its node has not answered, or not readably.
pub data Unheard : ProbeStatus → Type 0 where
  silent : Unheard ProbeStatus.pending
  unreadable : Unheard ProbeStatus.malformed

-- The same probes later: one that was unheard may have any status, the others keep theirs.
pub data Later : List ProbeResult → List ProbeResult → Type 0 where
  none_left : Later [] []
  same : (p : ProbeResult) {ps qs : List ProbeResult} → Later ps qs → Later (p ∷ ps) (p ∷ qs)
  answered :
      (p q : ProbeResult) {ps qs : List ProbeResult}
      → (s : ProbeStatus) → p.status ≡ s
      → Unheard s
      → Later ps qs
      → Later (p ∷ ps) (q ∷ qs)

length-Later : (ps qs : List ProbeResult) → Later ps qs → length ps ≡ length qs
length-Later _ _ none_left = refl
length-Later _ _ (same p {ps} {qs} later) = ap suc (length-Later ps qs later)
length-Later _ _ (answered p q {ps} {qs} s was unheard later) = ap suc (length-Later ps qs later)

-- Where an unheard probe does not pass a test, the count of those that do can only grow.
module _ (test : ProbeStatus → Bool)
    (not_unheard : (s : ProbeStatus) → Unheard s → test s ≡ false) where
  count_status-Later :
      (ps qs : List ProbeResult) → Later ps qs → count_status test ps ≤ count_status test qs
  unfolding count_status
  count_status-Later _ _ none_left = omega arith
  count_status-Later _ _ (same p {ps} {qs} later) =
      let rest = count_status-Later ps qs later in
      elim (Bool-cases (test p.status)) [
        | inl passes ↦ simp passes (omega arith)
        | inr nope ↦ simp nope rest
      ]
  count_status-Later _ _ (answered p q {ps} {qs} s was unheard later) =
      let rest = count_status-Later ps qs later in
      let off : test p.status ≡ false = rw was (not_unheard s unheard) in
      elim (Bool-cases (test q.status)) [
        | inl passes ↦ simp (off, passes) (omega arith)
        | inr nope ↦ simp (off, nope) rest
      ]

unheard_success : (s : ProbeStatus) → Unheard s → is_success s ≡ false
unheard_success _ silent = refl
unheard_success _ unreadable = refl

unheard_failure : (s : ProbeStatus) → Unheard s → is_failure s ≡ false
unheard_failure _ silent = refl
unheard_failure _ unreadable = refl

-- No probe is both.
success_failure_bound :
    (ps : List ProbeResult) → count_status is_success ps + count_status is_failure ps ≤ length ps
unfolding count_status
success_failure_bound [] = omega arith
success_failure_bound (p ∷ ps) = let rest = success_failure_bound ps in ground arith

verdict : ℕ → ℕ → ℕ → ℕ → Result ReachabilityDecision
verdict m total successes failures =
    if ltb m 1
    then err Error.value_error
    else if ltb total m
    then ok ReachabilityDecision.indeterminate
    else if leb m successes
    then ok ReachabilityDecision.reachable
    else if ltb (total - failures) m
    then ok ReachabilityDecision.unreachable
    else ok ReachabilityDecision.indeterminate

verdict_stable :
    (m total s s' f f' : ℕ) (decision : ReachabilityDecision)
    → s ≤ s'
    → f ≤ f'
    → s' + f' ≤ total
    → verdict m total s f ≡ ok decision
    → decision ≢ ReachabilityDecision.indeterminate
    → verdict m total s' f' ≡ ok decision
unfolding verdict
verdict_stable m total s s' f f' ReachabilityDecision.reachable a b c h decided = ground arith
verdict_stable m total s s' f f' ReachabilityDecision.unreachable a b c h decided = ground arith
verdict_stable m total s s' f f' ReachabilityDecision.indeterminate a b c h decided =
    absurd (decided refl)

-- A decision that is not INDETERMINATE stays as it is, whatever would have come in place of the
-- answers that were missing or could not be read: neither silence nor an unreadable answer is ever
-- taken for a failure of the target, or for a success.
pub evaluate-Later :
    (min_success_nodes : ℕ) (before after : CheckHostSummary) (decision : ReachabilityDecision)
    → Later before.probes after.probes
    → evaluate before min_success_nodes ≡ ok decision
    → decision ≢ ReachabilityDecision.indeterminate
    → evaluate after min_success_nodes ≡ ok decision
unfolding evaluate verdict
evaluate-Later min_success_nodes before after decision later h decided =
    let same_length = length-Later before.probes after.probes later in
    let stable =
      verdict_stable min_success_nodes (length after.probes) (success_count before)
        (success_count after) (failure_count before) (failure_count after) decision
        (count_status-Later is_success unheard_success before.probes after.probes later)
        (count_status-Later is_failure unheard_failure before.probes after.probes later)
        (success_failure_bound after.probes) in
    stable (rw⁻¹ same_length h) decided
