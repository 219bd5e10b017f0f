-- ===== src/Monitoring/Client/Examples.antt =====
-- A poll that ends by an answer, and the choice of the nodes.
use aso_node_recovery.Prelude.{
  [], arith, if◌then◌else◌, ltb, none, refl, some, strip, true, unique_from, ◌∷◌, ◌≡◌,
}
use aso_node_recovery.Errors.{Error, Result, err, ok}
use aso_node_recovery.Monitoring.Client.{
  CheckHostRequest, HttpAnswers, create_tcp_check, get_result, list_nodes, poll, poll_result,
  resolve_nodes, select_nodes, stripped,
}
use aso_node_recovery.Monitoring.Client.Polling.{poll_result-ends}
use aso_node_recovery.Monitoring.Probes.{
  CheckHostSummary, ProbeStatus, RawEntry, RawResult, any_entry, count_status, parse_node_result,
  parse_tcp_result,
}

abbrev http : HttpAnswers
http = record {
  node_hosts = λ _. ok (some (("ir2", some "ir") ∷ ("de1", some "de") ∷ ("ir1", some "ir") ∷ []));
  sorted = λ names. names;
  target_text = λ host port. host;
  tcp_check = λ _ target nodes. ok (true, some "r1", some nodes);
  check_result = λ n k request_id. ok (λ node.
      if ltb k 2 then RawResult.absent else RawResult.listed (RawEntry.mapping true none ∷ []));
  monotonic = λ n. 100;
  request_time = λ n k. 50;
  oversleep = λ n k. 1;
}

abbrev request : CheckHostRequest
request = record { request_id = "r1"; nodes = "ir1" ∷ []; target = "198.51.100.7" }

poll_result-ends_example :
    (r : Result CheckHostSummary) × (poll_result http 0 request 10000 200 51 ≡ some r)
poll_result-ends_example = poll_result-ends http 0 request 200 10000 50 (omega arith)

nodes_are_chosen :
    (resolve_nodes http 0 [] (some "ir") 5 [] ≡ ok ("ir2" ∷ "ir1" ∷ []))
    × (resolve_nodes http 0 (" a " ∷ "b" ∷ "a" ∷ " " ∷ []) (some "ir") 5 [] ≡ ok ("a" ∷ "b" ∷ []))
unfolding resolve_nodes list_nodes select_nodes stripped strip unique_from
nodes_are_chosen = (refl, refl)

third_answer :
    poll_result http 0 request 10000 200 51
    ≡ some (
        ok (record {
          request_id = "r1";
          target = "198.51.100.7";
          probes = record { node = "ir1"; status = ProbeStatus.success } ∷ [];
        }))
unfolding poll_result poll get_result parse_tcp_result parse_node_result any_entry count_status
third_answer = refl

a_blank_host_is_refused : create_tcp_check http 0 " " 2053 ("ir1" ∷ []) ≡ err Error.value_error
unfolding create_tcp_check strip
a_blank_host_is_refused = refl
