-- ===== src/Client/Sequences/Clones.antt =====
-- Clones of a client that append to sequences at the same time (src/client/sequence_apis.rs). A
-- clone shares the caches, the actor and the connections with the client that it was made from, and
-- each of them is behind a lock of its own. A call holds the lock of the cache while it looks a
-- sequence up and while it stores one, but not in between, so other clones may run there. Paying
-- for the write and sending it is one turn here.
pub mod Alone
pub mod Pair
pub mod Race
use safe_client_libs.Shared.{ℕ, Bool, Option, none, some, List, [], ◌∷◌, update}
use safe_client_libs.External.Types.{Types}
use safe_client_libs.External.Protocol.{Bytes, Result, SequenceRead}
use safe_client_libs.External.Api.{Api}
use safe_client_libs.Errors.{from_snd}
use safe_client_libs.Exec.{Exit, ok, err, panic, blocked, ◌>>=◌}
use safe_client_libs.Client.State.{World, set_cache, send_query}
use safe_client_libs.Client.Money.Payments.{Validation}
use safe_client_libs.Client.Sequences.Writes.{
  wrap_seq_read, pay_and_write_append_to_sequence_to_network,
}
use safe_client_libs.Client.Sequences.Replicas.{look_up, remember, expect_sequence}

-- How far a call of `append_to_sequence` has come: it is to look the sequence up, has missed it in
-- the cache, has the answer of the network, has what `get_sequence` returns, is to send, or is over.
pub data Task (T : Types) : Type 0 where
  called : T.SequenceAddress → Bytes → Task T
  missed : T.SequenceAddress → Bytes → Task T
  answered : Bytes → T.Sequence → Task T
  holding : Bytes → T.Sequence → Task T
  sending : T.EntryOp → Task T
  over : Exit T (Unit {0}) → Task T

abbrev pub goes_on : {T : Types} {A : Type 0} → (A → Task T) → Exit T A → Task T
goes_on f (ok a) = f a
goes_on f (err e) = over (err e)
goes_on f panic = over panic
goes_on f blocked = over blocked

abbrev pub held_or_missed : {T : Types} → T.SequenceAddress → Bytes → Option T.Sequence → Task T
held_or_missed address entry (some sequence) = holding entry sequence
held_or_missed address entry none = missed address entry

module _ {T : Types} (X : Api T) (await : Validation T) where
  -- The rest of the call once the permission is known: `sequence` is a clone of the task's own.
  abbrev pub append_if :
      Bytes → T.Sequence → Result T.SndError (Unit {0}) → World T → Task T × World T
  append_if entry sequence (Result.err e) w = (over (err (from_snd e)), w)
  append_if entry sequence (Result.ok _) w =
      let (op, edited) = X.sequence.append sequence entry in (sending op, (remember X edited w).1)

  -- One turn of a call.
  unfoldable pub advance : Task T → World T → Task T × World T
  unfolding wrap_seq_read
  advance (called address entry) w =
      let (found, cache) = X.sequence.cache_get w.client.sequence_cache address in
      (held_or_missed address entry found, set_cache cache w)
  advance (missed address entry) w =
      let asked = send_query X (wrap_seq_read (SequenceRead.get address)) >>= expect_sequence X in
      (goes_on (answered entry) (asked w).0, (asked w).1)
  advance (answered entry sequence) w = (holding entry sequence, (remember X sequence w).1)
  advance (holding entry sequence) w =
      let key = X.net.public_key w.client.full_id in
      append_if entry sequence (X.sequence.check_permission sequence X.sequence.append_action key) w
  advance (sending op) w =
      let (end, w') = pay_and_write_append_to_sequence_to_network X await op w in (over end, w')
  advance (over end) w = (over end, w)

-- The calls of the clones, and what they share.
pub record Clones (T : Types) : Type 0 where
  pub tasks : ℕ → Task T
  pub world : World T

module _ {T : Types} (X : Api T) (await : Validation T) where
  abbrev pub turn : ℕ → Clones T → Clones T
  turn i c =
      let (task, w) = advance X await (c.tasks i) c.world in
      record { tasks = update i task c.tasks; world = w }

  -- The clones take turns in the order of the list.
  abbrev pub turns : List ℕ → Clones T → Clones T
  turns [] c = c
  turns (i ∷ rest) c = turns rest (turn i c)
