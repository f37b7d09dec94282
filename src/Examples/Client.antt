-- ===== src/Examples/Client.antt =====
-- Runs of payments, writes and sequences, and of the creation of a client.
use native.Mathlib.Decide.{ℕ_discrete}
use safe_client_libs.Shared.{◌↔◌, ℕ, ◌≡◌, ◌≢◌, refl, none, some, [], ◌∷◌, true, nat_beq_iff, arith}
use safe_client_libs.External.Protocol.{
  Result, Event, Map, MapRead, MapValue, MapSeqValue, QueryResponse, XorName, Cmd, Message,
  MapAddress,
}
use safe_client_libs.Exec.{ok, err, pure}
use safe_client_libs.Errors.{from_snd}
use safe_client_libs.Connection.Link.{send_each}
use safe_client_libs.Connection.Election.{elect, add_vote, votes, survey, verdict}
use safe_client_libs.Connection.Query as Query
use safe_client_libs.Connection.Query.Laws.{IsSent}
use safe_client_libs.Client.State.{send_query, public_key, create_query_message, create_cmd_message}
use safe_client_libs.Client.Money.Balance.{get_history}
use safe_client_libs.Client.Money.Payments.{
  send_money, Validation, await_validation, create_write_payment_proof,
  apply_write_payment_to_local_actor,
}
use safe_client_libs.Client.Money.Transfers.{IsValidated, send_money-IsValidated}
use safe_client_libs.Client.Money.Paid.{IsPaid, create_write_payment_proof-IsPaid}
use safe_client_libs.Client.Money.Laws.{send_money_unpaid, SentHistoryQuery}
use safe_client_libs.Client.Money.Balance.{handle_validation_event}
use safe_client_libs.Client.Money.Events.{IsProven, taken_over, handle_validation_event_iff}
use safe_client_libs.Client.Maps.Reads.{
  wrap_map_read, get_seq_map, get_unseq_map, get_seq_map_value, get_unseq_map_value,
}
use safe_client_libs.Client.Maps.Laws.{get_map_iff, get_map_value_iff}
use safe_client_libs.Client.Maps.Writes.{delete_map}
use safe_client_libs.Client.Writes.{sequence_append, WriteCall, map_deletion, order, run}
use safe_client_libs.Client.Writes.Laws.{run-eq-ok, run_unpaid}
use safe_client_libs.Client.Sequences.Writes.{pay_and_write_append_to_sequence_to_network}
use safe_client_libs.Client.Sequences.Replicas.{get_sequence, append_to_sequence}
use safe_client_libs.Client.Sequences.Sent.{IsDone, edit-IsDone}
use safe_client_libs.Client.Sequences.Edits.{entry, owner, needed, applied, edit}
use safe_client_libs.Client.Sequences.Laws.{
  IsLawfulCache, cached, get_sequence_again, edit_unpaid, edit_denied,
}
use safe_client_libs.Client.Create as Create
use safe_client_libs.Client.Create.Laws.{new-ne-ok}
use safe_client_libs.Examples.Toy.{toy, toy_api, toy_net, world, link, response_eq, same_response}

-- Elders that validate every transfer.
abbrev pub validated : Validation toy
validated message id = pure 77

abbrev deletion : WriteCall toy
deletion = map_deletion (MapAddress.seq [] 15)

run_unpaid_example :
    ((run toy_api (await_validation toy) deletion (world 8 9)).0 ≢ ok tt)
    × SentHistoryQuery toy_api
        (world 8 9)
        (run toy_api (await_validation toy) deletion (world 8 9)).1
run_unpaid_example = run_unpaid toy_api deletion (world 8 9)

pub toy_cache-IsLawfulCache : IsLawfulCache toy_api
toy_cache-IsLawfulCache = record {
  get-put = λ c a s. ground (arith, nat_beq_iff a a);
  get-get = λ c a s h. h;
}

get_sequence_again_example :
    let w = (get_sequence toy_api 5 (world 8 0)).1 in
    ((get_sequence toy_api 5 w).0 ≡ ok (5, [])) × ((get_sequence toy_api 5 w).1.link ≡ w.link)
unfolding get_sequence
get_sequence_again_example =
    get_sequence_again toy_api toy_cache-IsLawfulCache 5 (5, []) (world 8 0) refl refl

edit_unpaid_example :
    let (end, w) = edit toy_api (await_validation toy) (entry (1 ∷ [])) 5 (world 8 9) in
    (end ≢ ok tt)
    × (cached toy_api w 5 ≡ some (5, (1 ∷ []) ∷ []))
    × SentHistoryQuery toy_api (get_sequence toy_api 5 (world 8 9)).1 w
unfolding get_sequence needed applied
edit_unpaid_example =
    edit_unpaid toy_api toy_cache-IsLawfulCache (entry (1 ∷ [])) 5 (5, []) (5, (1 ∷ []) ∷ [])
      (sequence_append (1 ∷ [])) (world 8 9) refl refl refl

edit_denied_example :
    edit toy_api validated (owner 3) 5 (world 6 9)
    ≡ (err (from_snd 1), (get_sequence toy_api 5 (world 6 9)).1)
unfolding get_sequence needed
edit_denied_example = edit_denied toy_api validated (owner 3) 5 (5, []) 1 (world 6 9) refl refl

new-ne-ok_example : (Create.new toy_api 3 7 true none (link 20)).0 ≢ ok none
new-ne-ok_example = new-ne-ok toy_api 2 7 true none (link 20) none

-- The map 6 that the elders give is sequenced.
get_map_iff_example :
    (((get_seq_map toy_api [] 15 (world 8 9)).0 ≡ ok 6) ↔ (
      (send_query toy_api (wrap_map_read (MapRead.get (MapAddress.seq [] 15))) (world 8 9)).0
      ≡ ok (QueryResponse.get_map (Result.ok (Map.seq 6)))))
    × (((get_unseq_map toy_api [] 15 (world 8 9)).0 ≡ ok 6) ↔ (
        (send_query toy_api (wrap_map_read (MapRead.get (MapAddress.unseq [] 15))) (world 8 9)).0
        ≡ ok (QueryResponse.get_map (Result.ok (Map.unseq 6)))))
get_map_iff_example = get_map_iff toy_api [] 15 (world 8 9) 6 6

abbrev seq_value : MapSeqValue
seq_value = record { value = 5 ∷ []; version = 2 }

get_map_value_iff_example :
    (((get_seq_map_value toy_api [] 15 (1 ∷ []) (world 8 9)).0 ≡ ok seq_value) ↔ (
      (send_query toy_api
        (wrap_map_read (MapRead.get_value (MapAddress.seq [] 15) (1 ∷ [])))
        (world 8 9)).0
      ≡ ok (QueryResponse.get_map_value (Result.ok (MapValue.seq seq_value)))))
    × (((get_unseq_map_value toy_api [] 15 (1 ∷ []) (world 8 9)).0 ≡ ok (5 ∷ [])) ↔ (
        (send_query toy_api
          (wrap_map_read (MapRead.get_value (MapAddress.unseq [] 15) (1 ∷ [])))
          (world 8 9)).0
        ≡ ok (QueryResponse.get_map_value (Result.ok (MapValue.unseq (5 ∷ []))))))
get_map_value_iff_example = get_map_value_iff toy_api [] 15 (1 ∷ []) (world 8 9) seq_value (5 ∷ [])

send_money_unpaid_example :
    ((send_money toy_api (await_validation toy) 6 50 (world 8 9)).0 ≢ ok tt)
    × SentHistoryQuery toy_api
        (world 8 9)
        (send_money toy_api (await_validation toy) 6 50 (world 8 9)).1
send_money_unpaid_example = send_money_unpaid toy_api 6 50 (world 8 9)

run-eq-ok_example :
    (p : ℕ) × (id : XorName) × ((create_write_payment_proof toy_api validated (world 8 9)).0 ≡ ok p)
    × (let w₁ = (create_write_payment_proof toy_api validated (world 8 9)).1 in
        IsSent toy_net w₁.client.connection_manager
          (Message.cmd (Cmd.data_cmd (order deletion) p) id)
          w₁.link
          (run toy_api validated deletion (world 8 9)).1.link.trace)
unfolding run delete_map create_write_payment_proof apply_write_payment_to_local_actor get_history
    create_query_message create_cmd_message public_key Query.send_query Query.send_cmd
    Query.serialise_in_envelope send_each Query.usable Query.read_reply elect add_vote votes survey
    verdict response_eq same_response ℕ_discrete
run-eq-ok_example = run-eq-ok toy_api validated deletion (world 8 9) refl

send_money-IsValidated_example :
    IsValidated toy_api validated 6 50 (world 8 9) (send_money toy_api validated 6 50 (world 8 9))
unfolding send_money get_history create_query_message create_cmd_message public_key Query.send_query
    Query.send_cmd Query.serialise_in_envelope send_each Query.usable Query.read_reply elect
    add_vote votes survey verdict response_eq same_response ℕ_discrete
send_money-IsValidated_example = send_money-IsValidated toy_api validated 6 50 (world 8 9) refl

handle_validation_event_iff_example :
    (((handle_validation_event toy_api (Event.transfer_validated 4) (world 8 0)).0 ≡ ok (some 4))
      ↔ IsProven toy_api (some 4) (world 8 0) 4)
    × ((handle_validation_event toy_api (Event.transfer_validated 4) (world 8 0)).1
        ≡ taken_over toy_api (some 4) (world 8 0))
handle_validation_event_iff_example =
    handle_validation_event_iff toy_api (Event.transfer_validated 4) (world 8 0) 4

create_write_payment_proof-IsPaid_example :
    ((get_history toy_api (world 8 9)).0 ≡ ok tt)
    × IsPaid toy_api validated
        (world 8 9)
        77
        (create_write_payment_proof toy_api validated (world 8 9))
unfolding create_write_payment_proof get_history create_query_message create_cmd_message public_key
    Query.send_query Query.serialise_in_envelope send_each Query.usable Query.read_reply elect
    add_vote votes survey verdict response_eq same_response ℕ_discrete
create_write_payment_proof-IsPaid_example =
    create_write_payment_proof-IsPaid toy_api validated (world 8 9) 77 refl

edit-IsDone_example :
    IsDone toy_api validated
      (entry (1 ∷ []))
      5
      (world 8 9)
      (edit toy_api validated (entry (1 ∷ [])) 5 (world 8 9)).1
unfolding edit append_to_sequence get_sequence pay_and_write_append_to_sequence_to_network
    create_write_payment_proof apply_write_payment_to_local_actor get_history create_query_message
    create_cmd_message public_key Query.send_query Query.send_cmd Query.serialise_in_envelope
    send_each Query.usable Query.read_reply elect add_vote votes survey verdict response_eq
    same_response ℕ_discrete
edit-IsDone_example = edit-IsDone toy_api validated (entry (1 ∷ [])) 5 (world 8 9) refl
