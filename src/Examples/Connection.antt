-- ===== src/Examples/Connection.antt =====
-- Runs of the election, of queries and commands, and of the bootstrap.
use mathlib.Core.List.Permᴰ
use native.Mathlib.Decide.{ℕ_discrete}
use safe_client_libs.Shared.{ℕ, ◌<◌, ◌≡◌, ◌≢◌, ◌↔◌, ◌⊎◌, refl, Option, none, some, List, [], ◌∷◌}
use safe_client_libs.Shared.{length, take, arith, partial_eq_nat, ◌≤◌}
use safe_client_libs.External.Protocol.{Result, Query, TransferQuery, Message, QueryResponse}
use safe_client_libs.Exec.{ok, panic}
use safe_client_libs.Connection.Link.{run_tasks, send_each}
use safe_client_libs.Connection.Election.{
  threshold, exhausted, elect, add_vote, votes, survey, verdict,
}
use safe_client_libs.Connection.Election.Laws.{
  answered, count, IsElected, elect-IsElected, elect-exhausted_iff,
}
use safe_client_libs.Connection.Query.{
  serialise_in_envelope, send_query, send_cmd, usable, read_reply,
}
use safe_client_libs.Connection.Query.Laws.{
  IsAnswered, send_query-IsAnswered, ReachesAll, IsUnsent, send_cmd_reaches,
}
use safe_client_libs.Connection.Join.{
  new, collect, connect_to_elders, bootstrap_and_handshake, bootstrap, join_elder, attempt_loop,
  attempt_bootstrap,
}
use safe_client_libs.Connection.Join.Laws.{
  connected, collect-panic_iff, attempt_bootstrap-length, attempt_bootstrap-ne-none,
  bootstrapped_query_panics,
}
use safe_client_libs.Examples.Toy.{toy, toy_net, manager, link, response_eq, same_response}

-- Three elders say 5, and one says 6 first.
abbrev four_replies : List (Option ℕ)
four_replies = some 6 ∷ some 5 ∷ none ∷ some 5 ∷ some 5 ∷ []

elect-IsElected_example : (k : ℕ) × IsElected 5 (take k four_replies) (some 5, 3)
unfolding elect add_vote votes survey verdict
elect-IsElected_example =
    elect-IsElected (λ m. m) (λ m. Permᴰ.refl m) 5 four_replies (some 5, 3) refl

elect-exhausted_iff_example :
    (elect {R = ℕ} (λ m. m) 5 [] (some 6 ∷ some 5 ∷ none ∷ []) ≡ exhausted) ↔ (
      (answered {R = ℕ} (some 6 ∷ some 5 ∷ none ∷ []) < 5)
      × ((s : ℕ) → count s (some 6 ∷ some 5 ∷ none ∷ []) ≤ threshold))
elect-exhausted_iff_example =
    elect-exhausted_iff (λ m. m) (λ m. Permᴰ.refl m) 5 (some 6 ∷ some 5 ∷ none ∷ []) (omega arith)

abbrev balance_query : Message toy
balance_query = Message.query (Query.transfer (TransferQuery.get_balance 8)) []

send_query-IsAnswered_example :
    IsAnswered toy_net
      (λ m. Permᴰ.refl m)
      (manager (1 ∷ 2 ∷ 3 ∷ []))
      (3 ∷ [])
      (link 3)
      (send_query toy_net (manager (1 ∷ 2 ∷ 3 ∷ [])) balance_query (link 3)).0
unfolding serialise_in_envelope
send_query-IsAnswered_example =
    send_query-IsAnswered toy_net (λ m. Permᴰ.refl m) (manager (1 ∷ 2 ∷ 3 ∷ [])) balance_query
      (link 3) (3 ∷ []) (omega arith) refl

-- The run of the query above: it returns the balance that the elders give.
send_query_run :
    (send_query toy_net (manager (1 ∷ 2 ∷ 3 ∷ [])) balance_query (link 3)).0
    ≡ ok (QueryResponse.get_balance (Result.ok 100))
unfolding send_query serialise_in_envelope send_each usable read_reply elect add_vote votes survey
    verdict response_eq same_response ℕ_discrete
send_query_run = refl

send_cmd_reaches_example :
    ReachesAll toy_net
      (manager (1 ∷ 2 ∷ []))
      balance_query
      (link 0)
      (send_cmd toy_net (manager (1 ∷ 2 ∷ [])) balance_query (link 0))
    ⊎ IsUnsent toy_net
        (manager (1 ∷ 2 ∷ []))
        balance_query
        (link 0)
        (send_cmd toy_net (manager (1 ∷ 2 ∷ [])) balance_query (link 0))
send_cmd_reaches_example =
    send_cmd_reaches toy_net (λ net conns. Permᴰ.refl conns) (manager (1 ∷ 2 ∷ [])) balance_query
      (link 0)

-- What that command sends.
send_cmd_run :
    (send_cmd toy_net (manager (1 ∷ 2 ∷ [])) balance_query (link 0)).1.trace
    ≡ (1, 3 ∷ []) ∷ (2, 3 ∷ []) ∷ []
unfolding send_cmd serialise_in_envelope
send_cmd_run = refl

collect-panic_iff_example :
    (collect toy_net (some (ok 1) ∷ none ∷ some (ok 2) ∷ []) [] ≡ panic)
    ↔ (connected {T = toy} {A = ℕ} (some (ok 1) ∷ none ∷ some (ok 2) ∷ []) < 3)
collect-panic_iff_example = collect-panic_iff toy_net (some (ok 1) ∷ none ∷ some (ok 2) ∷ []) tt

attempt_bootstrap-length_example : length {A = ℕ} (1 ∷ 2 ∷ 3 ∷ []) ≡ 3
unfolding new collect run_tasks connect_to_elders bootstrap_and_handshake bootstrap join_elder
    attempt_loop attempt_bootstrap
attempt_bootstrap-length_example =
    attempt_bootstrap-length toy_net 7 8 (link 9) (manager (1 ∷ 2 ∷ 3 ∷ [])) refl

attempt_bootstrap-ne-none_example : (attempt_bootstrap toy_net 7 8 (link 9)).0 ≢ ok none
attempt_bootstrap-ne-none_example = attempt_bootstrap-ne-none toy_net 7 8 (link 9)

bootstrapped_query_panics_example :
    (send_query toy_net (manager (1 ∷ 2 ∷ 3 ∷ [])) balance_query (link 2)).0 ≡ panic
unfolding new collect run_tasks connect_to_elders bootstrap_and_handshake bootstrap join_elder
    attempt_loop attempt_bootstrap serialise_in_envelope usable read_reply
bootstrapped_query_panics_example =
    bootstrapped_query_panics toy_net (λ m. Permᴰ.refl m) 7 8 (link 9) (link 2)
      (manager (1 ∷ 2 ∷ 3 ∷ [])) balance_query (3 ∷ []) refl refl (omega arith)
