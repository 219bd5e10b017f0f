-- ===== src/Monitoring/Probes.antt =====
-- `ProbeStatus`, `ProbeResult` and `CheckHostSummary` of app/monitoring/types.py, the reading of a
-- Check-Host answer in app/monitoring/check_host.py, and `ReachabilityEvaluator` of
-- app/monitoring/health.py.
pub mod Stable
use aso_node_recovery.Prelude.{
  Bool, List, Option, String, [], eqb, false, if◌then◌else◌, leb, length, ltb, map, none, some,
  true, ℕ, ◌+◌, ◌-◌, ◌||◌, ◌∷◌,
}
use aso_node_recovery.Errors.{Error, Result, err, ok}
use aso_node_recovery.Outside.{ReachabilityDecision}

-- `ProbeStatus`
pub data ProbeStatus : Type 0 where
  success failure pending malformed : ProbeStatus

-- `ProbeResult`, without the details kept for the log
pub record ProbeResult : Type 0 where
  pub node : String
  pub status : ProbeStatus

-- `CheckHostSummary`
pub record CheckHostSummary : Type 0 where
  pub request_id : String
  pub target : String
  pub probes : List ProbeResult

-- The tests `probe.status is ...`.
abbrev pub is_success : ProbeStatus → Bool
is_success ProbeStatus.success = true
is_success _ = false

abbrev pub is_failure : ProbeStatus → Bool
is_failure ProbeStatus.failure = true
is_failure _ = false

abbrev pub is_pending : ProbeStatus → Bool
is_pending ProbeStatus.pending = true
is_pending _ = false

abbrev pub is_malformed : ProbeStatus → Bool
is_malformed ProbeStatus.malformed = true
is_malformed _ = false

-- `sum(test(probe.status) for probe in probes)`
unfoldable pub count_status : (ProbeStatus → Bool) → List ProbeResult → ℕ
count_status test [] = 0
count_status test (probe ∷ probes) =
    let rest = count_status test probes in if test probe.status then rest + 1 else rest

abbrev pub success_count : CheckHostSummary → ℕ
success_count summary = count_status is_success summary.probes

abbrev pub failure_count : CheckHostSummary → ℕ
failure_count summary = count_status is_failure summary.probes

abbrev pub pending_count : CheckHostSummary → ℕ
pending_count summary = count_status is_pending summary.probes

abbrev pub malformed_count : CheckHostSummary → ℕ
malformed_count summary = count_status is_malformed summary.probes

abbrev pub total_nodes : CheckHostSummary → ℕ
total_nodes summary = length summary.probes

abbrev pub is_complete : CheckHostSummary → Bool
is_complete summary = eqb (pending_count summary) 0

-- `ReachabilityEvaluator.evaluate`
unfoldable pub evaluate : CheckHostSummary → ℕ → Result ReachabilityDecision
evaluate summary min_success_nodes =
    if ltb min_success_nodes 1
    then err Error.value_error
    else if ltb (total_nodes summary) min_success_nodes
    then ok ReachabilityDecision.indeterminate
    else if leb min_success_nodes (success_count summary)
    then ok ReachabilityDecision.reachable
    else if ltb (total_nodes summary - failure_count summary) min_success_nodes
    then ok ReachabilityDecision.unreachable
    else ok ReachabilityDecision.indeterminate

-- An entry of a node's answer: whether it is an object, whether its `time` is a number, and the
-- truth of its `error`, if it has one.
pub data RawEntry : Type 0 where
  not_mapping : RawEntry
  mapping : Bool → Option Bool → RawEntry

-- A node's answer: none yet, something else than a list, or a list.
pub data RawResult : Type 0 where
  absent not_list : RawResult
  listed : List RawEntry → RawResult

abbrev pub has_latency : RawEntry → Bool
has_latency (RawEntry.mapping true none) = true
has_latency _ = false

abbrev pub has_error : RawEntry → Bool
has_error (RawEntry.mapping _ (some true)) = true
has_error _ = false

unfoldable pub any_entry : (RawEntry → Bool) → List RawEntry → Bool
any_entry test [] = false
any_entry test (entry ∷ entries) = test entry || any_entry test entries

-- `_parse_node_result`, its status
unfoldable pub parse_node_result : RawResult → ProbeStatus
parse_node_result RawResult.absent = ProbeStatus.pending
parse_node_result RawResult.not_list = ProbeStatus.malformed
parse_node_result (RawResult.listed entries) =
    if any_entry has_latency entries
    then ProbeStatus.success
    else if any_entry has_error entries
    then ProbeStatus.failure
    else ProbeStatus.malformed

-- `parse_tcp_result`
unfoldable pub parse_tcp_result :
    String → String → List String → (String → RawResult) → CheckHostSummary
parse_tcp_result request_id target nodes payload = record {
  request_id = request_id;
  target = target;
  probes = map (λ node. record { node = node; status = parse_node_result (payload node) }) nodes;
}
