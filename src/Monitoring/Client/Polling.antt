-- ===== src/Monitoring/Client/Polling.antt =====
-- A poll of Check-Host ends.
use aso_node_recovery.Prelude.{
  Bool, Bool-cases, arith, false, inl, inr, leb, refl, some, suc, zero, ℕ, ◌*◌, ◌+◌, ◌||◌, ◌≡◌, ◌≢◌,
  ◌≤◌,
}
use aso_node_recovery.Errors.{Result, Result-cases, err, ok}
use aso_node_recovery.Monitoring.Client.{
  CheckHostRequest, HttpAnswers, get_result, poll, poll_result,
}
use aso_node_recovery.Monitoring.Probes.{CheckHostSummary, is_complete}
use aso_node_recovery.Replacement.Workflow.{rounds}

neither : (a b : Bool) → (a || b) ≡ false → b ≡ false
neither a b h = ground arith

in_time : (a b : ℕ) → a ≤ b → leb a b ≢ false
in_time a b h early = ground arith

module _ (http : HttpAnswers) (n : ℕ) (request : CheckHostRequest) (interval : ℕ) where
  -- A round ends the poll, or hands over to the rounds that are left.
  poll_step :
      (deadline fuel k now : ℕ)
      → let answered = now + http.request_time n k in
        (leb deadline answered ≡ false
          → (r : Result CheckHostSummary) × (poll http n request deadline interval fuel
                (k + 1)
                (answered + interval + http.oversleep n k)
              ≡ some r))
        → (r : Result CheckHostSummary) × (poll http n request deadline interval (suc fuel) k now
            ≡ some r)
  unfolding poll
  poll_step deadline fuel k now left = elim (Result-cases (get_result http n k request)) [
    | inr (e, failed) ↦ (err e, rw (failed, poll) refl)
    | inl (summary, answer) ↦
        let late = leb deadline (now + http.request_time n k) in
        elim (Bool-cases (is_complete summary || late)) [
          | inl ends ↦ (ok summary, rw (answer, poll) (rw ends refl))
          | inr goes_on ↦
              let (r, h) = left (neither _ late goes_on) in (r, rw (answer, poll) (rw goes_on h))
        ]
  ]

  poll_ends :
      (deadline fuel k now : ℕ)
      → deadline ≤ now + fuel * interval
      → (r : Result CheckHostSummary) × (poll http n request deadline interval (suc fuel) k now
          ≡ some r)
  poll_ends deadline zero k now h =
      poll_step deadline zero k now
        λ early. absurd (in_time deadline (now + http.request_time n k) (omega arith) early)
  poll_ends deadline (suc fuel) k now h =
      poll_step deadline (suc fuel) k now λ early. poll_ends deadline fuel (k + 1) _ (grind arith)

  -- A poll ends, whatever is answered, however long the requests take and however late the sleeps
  -- between them end: with as many rounds as the interval goes into the timeout, rounded up, and
  -- one more.
  pub poll_result-ends :
      (timeout rounds : ℕ)
      → timeout ≤ rounds * interval
      → (r : Result CheckHostSummary) × (poll_result http n request timeout interval (suc rounds)
          ≡ some r)
  unfolding poll_result
  poll_result-ends timeout rounds h =
      poll_ends (http.monotonic n + timeout) rounds 0 (http.monotonic n) (omega arith)
