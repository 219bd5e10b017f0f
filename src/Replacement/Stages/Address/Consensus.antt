-- ===== src/Replacement/Stages/Address/Consensus.antt =====
-- The rounds of `_verify_candidate_reachability` and the decision after them.
use aso_node_recovery.Prelude.{
  List, String, [], ap, arith, inl, inr, length, nat_eq, not, refl, string_eq, suc, sym, zero, ℕ,
  ◌+◌, ◌<◌, ◌==◌, ◌↔◌, ◌∙◌, ◌∷◌, ◌≡◌, ◌≤◌, ◌⊎◌,
}
use aso_node_recovery.Errors.{Result-cases, ok}
use aso_node_recovery.Models.EventEnums.{
  event_severity_eq, node_check_outcome_eq, replacement_trigger_mode_eq,
  secret_reference_backend_eq,
}
use aso_node_recovery.Models.JobEnums.{replacement_checkpoint_eq, replacement_job_state_eq}
use aso_node_recovery.Models.NodeEnums.{
  deployment_state_eq, node_operation_mode_eq, node_state_eq, provider_type_eq, ssh_auth_method_eq,
  vps_instance_role_eq, vps_instance_state_eq,
}
use aso_node_recovery.Outside.{Outside, ReachabilityDecision}
use aso_node_recovery.Replacement.Access.{assert_not_paused, renew_lease, required}
use aso_node_recovery.Replacement.Safety.Reads.{
  Returns, Returns-ask, Returns-Forward, Returns-pure, Returns-then,
}
use aso_node_recovery.Replacement.Stages.Address.{
  Rounds, consensus, count_iran, count_round, no_rounds, run_round, run_rounds,
  verify_candidate_reachability,
}
use aso_node_recovery.Replacement.Stages.Ready.{sleep_with_lease}
use aso_node_recovery.Replacement.Stages.Ready.Forward.{
  Forward-assert_not_paused, Forward-renew_lease, Forward-sleep_with_lease,
}
use aso_node_recovery.Runtime.{World, ask, pure, session, when, ◌>>=◌}
use aso_node_recovery.Runtime.Forward.{Forward-session, Forward-when}
use aso_node_recovery.Runtime.Wp.{Wp-mono}
use aso_node_recovery.Settings.{Settings}

-- The decision is REACHABLE exactly with the required number of clean rounds, and UNREACHABLE
-- exactly with the required number of filtered rounds and without that many clean ones.
pub consensus_iff :
    (required : ℕ) (r : Rounds)
    → ((consensus required r ≡ ReachabilityDecision.reachable) ↔ (required ≤ r.clean))
      × ((consensus required r ≡ ReachabilityDecision.unreachable)
          ↔ ((required ≤ r.filtered) × (r.clean < required)))
unfolding consensus
consensus_iff required r = ground arith

-- The conditions of a decision for counts that are equal to those of the rounds.
counts_agree :
    {P R : Type 0} (need c c' f f' : ℕ)
    → c ≡ c'
    → f ≡ f'
    → (P ↔ (need ≤ c)) × (R ↔ ((need ≤ f) × (c < need)))
    → (P ↔ (need ≤ c')) × (R ↔ ((need ≤ f') × (c' < need)))
counts_agree need c c' f f' same_c same_f h = rw⁻¹ same_c (rw⁻¹ same_f h)

-- What one round found out: the host is reachable from outside Iran and from Iran, only from
-- outside, not from outside, or it is unclear.
pub data Seen : Type 0 where
  clean_round : Seen
  filtered_round : Seen
  unreached : Seen
  unclear : Seen

abbrev pub one_clean : Seen → ℕ
one_clean Seen.clean_round = 1
one_clean _ = 0

abbrev pub one_filtered : Seen → ℕ
one_filtered Seen.filtered_round = 1
one_filtered _ = 0

abbrev pub count_clean : List Seen → ℕ
count_clean [] = 0
count_clean (s ∷ seen) = one_clean s + count_clean seen

abbrev pub count_filtered : List Seen → ℕ
count_filtered [] = 0
count_filtered (s ∷ seen) = one_filtered s + count_filtered seen

module _ (out : Outside) (host : String) where
  -- The answers of Check-Host to the question number `n` and, where there is one, to the next.
  abbrev pub Saw : ℕ → Seen → Type 0
  Saw n Seen.clean_round =
      (out.verify_external n host ≡ ok ReachabilityDecision.reachable)
      × (out.verify (n + 1) host ≡ ok ReachabilityDecision.reachable)
  Saw n Seen.filtered_round =
      (out.verify_external n host ≡ ok ReachabilityDecision.reachable)
      × (out.verify (n + 1) host ≡ ok ReachabilityDecision.unreachable)
  Saw n Seen.unreached = out.verify_external n host ≡ ok ReachabilityDecision.unreachable
  Saw n Seen.unclear =
      (out.verify_external n host ≡ ok ReachabilityDecision.indeterminate)
      ⊎ ((out.verify_external n host ≡ ok ReachabilityDecision.reachable)
          × (out.verify (n + 1) host ≡ ok ReachabilityDecision.indeterminate))

  -- Rounds one after the other, the first not before the question number `from`.
  abbrev pub Ran : ℕ → List Seen → Type 0
  Ran from [] = Unit
  Ran from (s ∷ seen) = (n : ℕ) × (from ≤ n) × Saw n s × Ran (n + 1) seen

  Ran-earlier : (a b : ℕ) (seen : List Seen) → a ≤ b → Ran b seen → Ran a seen
  Ran-earlier a b [] h t = tt
  Ran-earlier a b (s ∷ seen) h (n, later, saw, rest) = (n, omega arith, saw, rest)

  -- What a round adds to the counts `r`.
  abbrev Adds : Rounds → ℕ → Rounds → World → Type 0
  Adds r k counted w =
      (s : Seen) × (n : ℕ) × (k ≤ n)
      × (n < w.calls)
      × Saw n s
      × (counted.clean ≡ r.clean + one_clean s)
      × (counted.filtered ≡ r.filtered + one_filtered s)

  -- What `left` rounds add to the counts `r`.
  abbrev AddsAll : ℕ → Rounds → ℕ → Rounds → Type 0
  AddsAll left r k counted =
      (seen : List Seen) × (length seen ≡ left)
      × Ran k seen
      × (counted.clean ≡ r.clean + count_clean seen)
      × (counted.filtered ≡ r.filtered + count_filtered seen)

module _ (out : Outside) (settings : Settings) where
  count_iran-Adds :
      (host : String) (r : Rounds) (iran : ReachabilityDecision) (k : ℕ) (w : World)
      → k < w.calls
      → out.verify_external k host ≡ ok ReachabilityDecision.reachable
      → out.verify (k + 1) host ≡ ok iran
      → Adds out host r k (count_iran r iran) w
  count_iran-Adds host r ReachabilityDecision.reachable k w before external e =
      (Seen.clean_round, k, omega arith, before, (external, e), omega arith, omega arith)
  count_iran-Adds host r ReachabilityDecision.unreachable k w before external e =
      (Seen.filtered_round, k, omega arith, before, (external, e), omega arith, omega arith)
  count_iran-Adds host r ReachabilityDecision.indeterminate k w before external e =
      (Seen.unclear, k, omega arith, before, inr (external, e), omega arith, omega arith)

  -- Every round that is run is counted as what Check-Host answered in it.
  count_round-Adds :
      (host : String) (r : Rounds) (external : ReachabilityDecision) (k : ℕ) (w : World)
      → w.calls ≡ k + 1
      → out.verify_external k host ≡ ok external
      → Returns (count_round out settings host r external) (Adds out host r k) w
  unfolding ◌>>=◌ pure ask
  count_round-Adds host r ReachabilityDecision.reachable k w here external =
      elim (Result-cases (out.verify w.calls host)) [
        | inl (iran, e) ↦ rw e (
            count_iran-Adds host r iran k (record w { calls = w.calls + 1 }) (omega arith) external
              (ap (λ n. out.verify n host) (sym here) ∙ e))
        | inr (x, raised) ↦ rw raised tt
      ]
  count_round-Adds host r ReachabilityDecision.unreachable k w here external =
      (Seen.unreached, k, omega arith, omega arith, external, omega arith, omega arith)
  count_round-Adds host r ReachabilityDecision.indeterminate k w here external =
      (Seen.unclear, k, omega arith, omega arith, inl external, omega arith, omega arith)

  run_round-Adds :
      (id : ℕ) (token host : String) (r : Rounds) (w : World)
      → Returns (run_round out settings id token host r) (Adds out host r w.calls) w
  unfolding run_round
  run_round-Adds id token host r w =
      let Q : Rounds → World → Type 0 = Adds out host r w.calls in
      Returns-Forward (assert_not_paused out) _ Q w (Forward-assert_not_paused out settings)
        λ _ w1 later.
          Returns-ask (λ n. out.verify_external n host) _ Q w1
            λ external e.
              Returns-then (count_round out settings host r external) _ (Adds out host r w1.calls) Q
                _
                (count_round-Adds host r external w1.calls (record w1 { calls = w1.calls + 1 }) refl
                  e)
                λ counted w2 (s, n, from, before, saw, clean, filtered).
                  Returns-Forward (session (renew_lease out settings id token)) _ Q w2
                    (Forward-session _ (Forward-renew_lease out settings id token))
                    λ _ w3 after.
                      Returns-pure counted Q w3
                        (s, n, omega arith, omega arith, saw, clean, filtered)

  run_rounds-AddsAll :
      (left id : ℕ) (token host : String) (r : Rounds) (w : World)
      → Returns
          (run_rounds out settings left id token host r)
          (λ counted _. AddsAll out host left r w.calls counted)
          w
  unfolding run_rounds
  run_rounds-AddsAll zero id token host r w =
      Returns-pure r (λ counted _. AddsAll out host 0 r w.calls counted) w
        ([], refl, tt, omega arith, omega arith)
  run_rounds-AddsAll (suc left) id token host r w =
      let Q : Rounds → World → Type 0 =
        λ counted _. AddsAll out host (suc left) r w.calls counted in
      Returns-then (run_round out settings id token host r) _ (Adds out host r w.calls) Q w
        (run_round-Adds id token host r w)
        λ counted w1 (s, n, from, before, saw, clean, filtered).
          Returns-Forward
            (when (not (left == 0)) (
              sleep_with_lease out settings id token
                settings.replacement_reachability_round_interval_thirds))
            _ Q w1 (Forward-when _ _ (Forward-sleep_with_lease out settings id token _))
            λ _ w2 later.
              Wp-mono (run_rounds out settings left id token host counted)
                (λ c _. AddsAll out host left counted w2.calls c) Q (λ _. Unit {0}) (λ _. Unit {0})
                w2
                (λ c w3 (seen, enough, ran, more_clean, more_filtered). (
                  s ∷ seen,
                  ap suc enough,
                  (n, from, saw, Ran-earlier out host (n + 1) w2.calls seen (omega arith) ran),
                  omega arith,
                  omega arith,
                ))
                (λ _ t. t) (run_rounds-AddsAll left id token host counted w2)

  -- What a decision on a candidate rests on.
  abbrev pub RestsOnRounds : String → ℕ → ReachabilityDecision → World → Type 0
  RestsOnRounds host from decision _ =
      let need = settings.replacement_reachability_required_consensus in
      (seen : List Seen) × (length seen ≡ settings.replacement_reachability_rounds)
      × Ran out host from seen
      × ((decision ≡ ReachabilityDecision.reachable) ↔ (need ≤ count_clean seen))
      × ((decision ≡ ReachabilityDecision.unreachable)
          ↔ ((need ≤ count_filtered seen) × (count_clean seen < need)))

  -- A decision on a candidate rests on exactly the configured number of rounds, run one after the
  -- other, and on what Check-Host answered in them about the host: it is REACHABLE exactly with the
  -- required number of rounds in which the host answered outside Iran and in Iran, and UNREACHABLE
  -- exactly without that many of these and with the required number in which it answered outside
  -- Iran and not in Iran. This holds of each decision that the check returns; where it raises there
  -- is none.
  pub verify_candidate_reachability-RestsOnRounds :
      (id : ℕ) (token host : String) (w : World)
      → Returns
          (verify_candidate_reachability out settings id token host)
          (RestsOnRounds host w.calls)
          w
  unfolding verify_candidate_reachability
  verify_candidate_reachability-RestsOnRounds id token host w =
      let n = settings.replacement_reachability_rounds in
      let need = settings.replacement_reachability_required_consensus in
      Returns-then (run_rounds out settings n id token host no_rounds) _
        (λ r _. AddsAll out host n no_rounds w.calls r) (RestsOnRounds host w.calls) w
        (run_rounds-AddsAll n id token host no_rounds w)
        λ r w1 (seen, enough, ran, clean, filtered).
          let both =
            counts_agree need r.clean (count_clean seen) r.filtered (count_filtered seen)
              (omega arith) (omega arith) (consensus_iff need r) in
          Returns-pure _ (RestsOnRounds host w.calls) w1 (seen, enough, ran, both.0, both.1)
