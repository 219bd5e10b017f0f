-- ===== src/Monitoring/Client.antt =====
-- `CheckHostClient` of app/monitoring/check_host.py, and `ReplacementReachabilityVerifier` of
-- app/replacement/reachability.py. The JSON answers of the service are arguments; a failed request is
-- `CheckHostError`. Times are thousandths of a second.
pub mod Polling
mod Examples
use aso_node_recovery.Prelude.{
  Bool, List, Option, String, [], contains, false, if◌then◌else◌, is_blank, is_empty, leb, ltb,
  nat_eq, none, some, str_eq, string_eq, strip, suc, take, true, unique_from, zero, ℕ, ◌+◌, ◌||◌,
  ◌∷◌,
}
use aso_node_recovery.Errors.{Error, Result, err, ok, ◌>>=◌}
use aso_node_recovery.Models.EventEnums.{
  event_severity_eq, node_check_outcome_eq, replacement_trigger_mode_eq,
  secret_reference_backend_eq,
}
use aso_node_recovery.Models.JobEnums.{replacement_checkpoint_eq, replacement_job_state_eq}
use aso_node_recovery.Models.NodeEnums.{
  deployment_state_eq, node_operation_mode_eq, node_state_eq, provider_type_eq, ssh_auth_method_eq,
  vps_instance_role_eq, vps_instance_state_eq,
}
use aso_node_recovery.Monitoring.Probes.{
  CheckHostSummary, RawResult, evaluate, is_complete, parse_tcp_result,
}
use aso_node_recovery.Outside.{ReachabilityDecision}
use aso_node_recovery.Settings.{Settings}

-- `CheckHostRequest`, without the link
pub record CheckHostRequest : Type 0 where
  pub request_id : String
  pub nodes : List String
  pub target : String

-- What the other components ask of the client: each question with the number asked before it.
pub record CheckHost : Type 0 where
  pub resolve_nodes : ℕ → Result (List String)
  pub create_tcp_check : ℕ → String → ℕ → List String → Result CheckHostRequest
  pub poll_result : ℕ → CheckHostRequest → Result CheckHostSummary

-- The answers of the service. A node has its lower-cased country, if it has one; `nodes` is none
-- where the answer has no mapping. `unit ↦ text` stands for `f"{host}:{port}"`.
pub record HttpAnswers : Type 0 where
  pub node_hosts : ℕ → Result (Option (List (String × Option String)))
  pub sorted : List String → List String
  pub target_text : String → ℕ → String
  pub tcp_check : ℕ → String → List String → Result (Bool × Option String × Option (List String))
  pub check_result : ℕ → ℕ → String → Result (String → RawResult)
  -- The clock when a poll begins, the time that its `k`-th request takes, and by how much the
  -- sleep after it is longer than asked for.
  pub monotonic : ℕ → ℕ
  pub request_time : ℕ → ℕ → ℕ
  pub oversleep : ℕ → ℕ → ℕ

abbrev pub is_excluded : List String → Option String → Bool
is_excluded excluded none = false
is_excluded excluded (some country) = contains excluded country

abbrev pub in_country : Option String → Option String → Bool
in_country none country = true
in_country (some code) none = false
in_country (some code) (some country) = str_eq country code

-- The loop of `list_nodes`; the codes are stripped and in lower case
unfoldable pub select_nodes :
    Option String → List String → List (String × Option String) → List String
select_nodes code excluded [] = []
select_nodes code excluded ((name, country) ∷ nodes) =
    let rest = select_nodes code excluded nodes in
    if is_excluded excluded country
    then rest
    else if in_country code country
    then name ∷ rest
    else rest

abbrev pub listed_nodes :
    HttpAnswers
    → Option String
    → List String
    → Option (List (String × Option String))
    → Result (List String)
listed_nodes http code excluded none = err Error.check_host_error
listed_nodes http code excluded (some nodes) = ok (http.sorted (select_nodes code excluded nodes))

unfoldable pub list_nodes : HttpAnswers → ℕ → Option String → List String → Result (List String)
list_nodes http n code excluded = http.node_hosts n >>= listed_nodes http code excluded

-- The names that are not blank, stripped, each once.
unfoldable pub stripped : List String → List String
stripped [] = []
stripped (node ∷ nodes) =
    let rest = stripped nodes in if is_blank node then rest else strip node ∷ rest

abbrev pub normalize_nodes : List String → List String
normalize_nodes nodes = unique_from [] (stripped nodes)

-- `names[:max_nodes]`, where there is a name
abbrev pub first_nodes : ℕ → List String → Result (List String)
first_nodes max_nodes [] = err Error.check_host_error
first_nodes max_nodes (node ∷ nodes) = ok (take max_nodes (node ∷ nodes))

-- `resolve_nodes`
unfoldable pub resolve_nodes :
    HttpAnswers → ℕ → List String → Option String → ℕ → List String → Result (List String)
resolve_nodes http n configured_nodes code max_nodes excluded =
    if is_empty configured_nodes
    then list_nodes http n code excluded >>= first_nodes max_nodes
    else first_nodes max_nodes (normalize_nodes configured_nodes)

-- The reading of the answer to a request.
abbrev pub created_check :
    String → Bool × Option String × Option (List String) → Result CheckHostRequest
created_check target (true, some request_id, some (node ∷ nodes)) =
    ok (record { request_id = request_id; nodes = node ∷ nodes; target = target })
created_check target _ = err Error.check_host_error

-- `create_tcp_check`
unfoldable pub create_tcp_check :
    HttpAnswers → ℕ → String → ℕ → List String → Result CheckHostRequest
create_tcp_check http n host port nodes =
    if is_blank host || (ltb port 1 || ltb 65535 port) || is_empty (normalize_nodes nodes)
    then err Error.value_error
    else let target = http.target_text (strip host) port in
      http.tcp_check n target (normalize_nodes nodes) >>= created_check target

-- `get_result`, the `k`-th of a poll
unfoldable pub get_result : HttpAnswers → ℕ → ℕ → CheckHostRequest → Result CheckHostSummary
get_result http n k request = http.check_result n k request.request_id >>= λ payload.
    ok (parse_tcp_result request.request_id request.target request.nodes payload)

-- The loop of `poll_result` from its `k`-th request on, at the time `now`, on fuel; `none` says that
-- the fuel ran out. After an answer that does not end the poll, the code sleeps for `interval`.
unfoldable pub poll :
    HttpAnswers
    → ℕ
    → CheckHostRequest
    → (deadline interval fuel k now : ℕ) → Option (Result CheckHostSummary)
poll http n request deadline interval zero k now = none
poll http n request deadline interval (suc fuel) k now =
    let answered = now + http.request_time n k in
    let again =
      poll http n request deadline interval fuel (k + 1)
        (answered + interval + http.oversleep n k) in
    elim (get_result http n k request) [
      | err e ↦ some (err e)
      | ok summary ↦
          if is_complete summary || leb deadline answered then some (ok summary) else again
    ]

-- `poll_result`
unfoldable pub poll_result :
    HttpAnswers
    → ℕ
    → CheckHostRequest
    → (timeout interval fuel : ℕ) → Option (Result CheckHostSummary)
poll_result http n request timeout interval fuel =
    poll http n request (http.monotonic n + timeout) interval fuel 0 (http.monotonic n)

-- `ReplacementReachabilityVerifier._verify_with_nodes`
unfoldable pub verify_with_nodes :
    CheckHost → ℕ → String → ℕ → List String → ℕ → Result ReachabilityDecision
verify_with_nodes client n host port nodes min_success_nodes =
    client.create_tcp_check n host port nodes >>= λ request.
    client.poll_result (n + 1) request >>= λ summary. evaluate summary min_success_nodes

-- Unreached with the fuel below and an interval that is not zero, which the settings require.
abbrev out_of_fuel : Option (Result CheckHostSummary) → Result CheckHostSummary
out_of_fuel none = err Error.runtime_error
out_of_fuel (some r) = r

-- The client with the settings of the monitoring worker; `country` is the code in lower case.
abbrev pub http_client : HttpAnswers → Settings → String → CheckHost
http_client http settings country =
    let timeout = settings.check_host_result_timeout_ms in
    let interval = settings.check_host_poll_interval_ms in
    record {
      resolve_nodes = λ n.
          resolve_nodes http n settings.check_host_nodes (some country)
            settings.check_host_max_nodes [];
      create_tcp_check = create_tcp_check http;
      poll_result =
          λ n request. out_of_fuel (poll_result http n request timeout interval (timeout + 1));
    }
