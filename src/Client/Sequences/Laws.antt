-- ===== src/Client/Sequences/Laws.antt =====
-- What the replicas of sequences in the cache promise, and what an edit does that is not allowed or
-- not paid for.
use mathlib.Core.Path.{subst}
use safe_client_libs.Shared.{◌≡◌, ◌≢◌, ap, ◌∙◌, inl, inr, Option, none, some, arith, Option-cases}
use safe_client_libs.External.Types.{Types}
use safe_client_libs.External.Protocol.{Result, SequenceRead}
use safe_client_libs.External.Api.{Api}
use safe_client_libs.Errors.{from_snd}
use safe_client_libs.Exec.{Exit, ok, err, ok-injective}
use safe_client_libs.Client.State.{World, public_key, send_query, set_cache}
use safe_client_libs.Client.Money.Payments.{Validation, await_validation}
use safe_client_libs.Client.Sequences.Writes.{wrap_seq_read}
use safe_client_libs.Client.Sequences.Edits.{
  SequenceEdit, entry, owner, pub_permissions, private_permissions, needed, applied, edit,
}
use safe_client_libs.Client.Sequences.Replicas.{
  get_sequence, fetch_sequence, append_to_sequence, sequence_set_owner,
  sequence_set_pub_permissions, sequence_set_private_permissions,
}
use safe_client_libs.Client.Money.Laws.{SentHistoryQuery}
use safe_client_libs.Client.Writes.{WriteCall, run}
use safe_client_libs.Client.Writes.Laws.{run_unpaid, run_unpaid_keeps_cache}

-- What the documentation of `lru` says of a cache with room for an entry: what has just been put in
-- is found, and what has just been found is found again.
pub record IsLawfulCache {T : Types} (X : Api T) : Type 0 where
  pub get-put :
      (c : T.SequenceCache) (a : T.SequenceAddress) (s : T.Sequence)
      → (X.sequence.cache_get (X.sequence.cache_put c a s) a).0 ≡ some s
  pub get-get :
      (c : T.SequenceCache) (a : T.SequenceAddress) (s : T.Sequence)
      → (X.sequence.cache_get c a).0 ≡ some s
      → (X.sequence.cache_get (X.sequence.cache_get c a).1 a).0 ≡ some s

module _ {T : Types} (X : Api T) where
  -- The replica of the cache, if there is one.
  abbrev pub cached : World T → T.SequenceAddress → Option T.Sequence
  cached w address = (X.sequence.cache_get w.client.sequence_cache address).0

  -- A sequence that is in the cache is returned without a call to the network.
  cached-get_sequence :
      (address : T.SequenceAddress) (s : T.Sequence) (w : World T)
      → cached w address ≡ some s
      → ((get_sequence X address w).0 ≡ ok s) × ((get_sequence X address w).1.link ≡ w.link)
  unfolding get_sequence
  cached-get_sequence address s w h = (ground arith, ground arith)

  fetch_sequence-cache :
      (address : T.SequenceAddress) (s : T.Sequence) (w : World T)
      → (fetch_sequence X address w).0 ≡ ok s
      → let sent = send_query X (wrap_seq_read (SequenceRead.get address)) w in
        (fetch_sequence X address w).1.client.sequence_cache
        ≡ X.sequence.cache_put sent.1.client.sequence_cache (X.sequence.address s) s
  unfolding fetch_sequence
  fetch_sequence-cache address s w h = ground arith

  get_sequence-miss :
      (address : T.SequenceAddress) (w : World T)
      → cached w address ≡ none
      → get_sequence X address w
        ≡ fetch_sequence X address
            (set_cache (X.sequence.cache_get w.client.sequence_cache address).1 w)
  unfolding get_sequence
  get_sequence-miss address w h = rw (h, get_sequence)

  get_sequence-hit :
      (address : T.SequenceAddress) (s : T.Sequence) (w : World T)
      → cached w address ≡ some s
      → get_sequence X address w
        ≡ (ok s, set_cache (X.sequence.cache_get w.client.sequence_cache address).1 w)
  unfolding get_sequence
  get_sequence-hit address s w h = rw (h, get_sequence)

  -- An edit of a sequence that is at hand, which the replica permits and can make, puts the edited
  -- sequence into the cache, and then pays for its write and sends it.
  pub edit-eq-run :
      (await : Validation T) (e : SequenceEdit T) (address : T.SequenceAddress)
      (s edited : T.Sequence) (call : WriteCall T) (w : World T)
      → (get_sequence X address w).0 ≡ ok s
      → X.sequence.check_permission s
          (needed X e)
          (X.net.public_key (get_sequence X address w).1.client.full_id)
        ≡ Result.ok tt
      → applied X e s ≡ Result.ok (edited, call)
      → let w₁ = (get_sequence X address w).1 in
        edit X await e address w
        ≡ run X await call (
            set_cache
              (X.sequence.cache_put w₁.client.sequence_cache (X.sequence.address edited) edited)
              w₁)
  unfolding edit applied needed append_to_sequence sequence_set_owner sequence_set_pub_permissions
      sequence_set_private_permissions public_key run
  edit-eq-run await (entry e) address s edited call w h allowed made = ground arith
  edit-eq-run await (owner key) address s edited call w h allowed made = ground arith
  edit-eq-run await (pub_permissions p) address s edited call w h allowed made = ground arith
  edit-eq-run await (private_permissions p) address s edited call w h allowed made = ground arith

  module _ (lawful : IsLawfulCache X) where
    get_sequence-cached :
        (address : T.SequenceAddress) (s : T.Sequence) (w : World T)
        → (get_sequence X address w).0 ≡ ok s
        → X.sequence.address s ≡ address
        → cached (get_sequence X address w).1 address ≡ some s
    get_sequence-cached address s w h e = elim (Option-cases (cached w address)) [
      | inl miss ↦
          let w₀ = set_cache (X.sequence.cache_get w.client.sequence_cache address).1 w in
          let went = get_sequence-miss address w miss in
          let c : T.SequenceCache =
            (send_query X (wrap_seq_read (SequenceRead.get address)) w₀).1.client.sequence_cache in
          let stored : (get_sequence X address w).1.client.sequence_cache
              ≡ X.sequence.cache_put c (X.sequence.address s) s =
            ap (λ (r : Exit T T.Sequence × World T). r.1.client.sequence_cache) went
            ∙ fetch_sequence-cache address s w₀ (rw went at h) in
          ap (λ (c : T.SequenceCache). (X.sequence.cache_get c address).0) stored
          ∙ subst
              (λ a.
                (X.sequence.cache_get (X.sequence.cache_put c (X.sequence.address s) s) a).0
                ≡ some s)
              e (lawful.get-put c (X.sequence.address s) s)
      | inr (s', hit) ↦
          let went = get_sequence-hit address s' w hit in
          let same : s' ≡ s = ok-injective T s' s (rw went at h) in
          ap
            (λ (r : Exit T T.Sequence × World T).
              (X.sequence.cache_get r.1.client.sequence_cache address).0)
            went
          ∙ lawful.get-get _ address s (hit ∙ ap some same)
    ]

    -- If the cache finds what has just been put in or found, then a sequence that has been returned
    -- under its own address is returned again by the next call, and without a call to the network.
    pub get_sequence_again :
        (address : T.SequenceAddress) (s : T.Sequence) (w : World T)
        → (get_sequence X address w).0 ≡ ok s
        → X.sequence.address s ≡ address
        → let w' = (get_sequence X address w).1 in
          ((get_sequence X address w').0 ≡ ok s) × ((get_sequence X address w').1.link ≡ w'.link)
    get_sequence_again address s w h e =
        cached-get_sequence address s _ (get_sequence-cached address s w h e)

    -- If the cache finds what has just been put in or found, then with `await_validation` as it is,
    -- an edit of a sequence that is at hand, which the replica permits and can make, does not
    -- return, but the edited sequence is in the cache, and no more than a query for the own history
    -- has gone out since.
    pub edit_unpaid :
        (e : SequenceEdit T) (address : T.SequenceAddress) (s edited : T.Sequence)
        (call : WriteCall T) (w : World T)
        → (get_sequence X address w).0 ≡ ok s
        → X.sequence.check_permission s
            (needed X e)
            (X.net.public_key (get_sequence X address w).1.client.full_id)
          ≡ Result.ok tt
        → applied X e s ≡ Result.ok (edited, call)
        → let (end, w') = edit X (await_validation T) e address w in
          (end ≢ ok tt)
          × (cached w' (X.sequence.address edited) ≡ some edited)
          × SentHistoryQuery X (get_sequence X address w).1 w'
    edit_unpaid e address s edited call w h allowed made =
        let w₁ = (get_sequence X address w).1 in
        let c : T.SequenceCache =
          X.sequence.cache_put w₁.client.sequence_cache (X.sequence.address edited) edited in
        let (never, sent) = run_unpaid X call (set_cache c w₁) in
        let kept = run_unpaid_keeps_cache X call (set_cache c w₁) in
        let went = edit-eq-run (await_validation T) e address s edited call w h allowed made in
        rw went (
          never,
          ap (λ (c : T.SequenceCache). (X.sequence.cache_get c (X.sequence.address edited)).0) kept
              ∙ lawful.get-put w₁.client.sequence_cache (X.sequence.address edited) edited,
          sent,
        )

  -- An edit that the replica at hand does not permit to the user is refused with the error of the
  -- check, and changes nothing after the replica has been looked up.
  pub edit_denied :
      (await : Validation T) (e : SequenceEdit T) (address : T.SequenceAddress) (s : T.Sequence)
      (x : T.SndError) (w : World T)
      → (get_sequence X address w).0 ≡ ok s
      → X.sequence.check_permission s
          (needed X e)
          (X.net.public_key (get_sequence X address w).1.client.full_id)
        ≡ Result.err x
      → edit X await e address w ≡ (err (from_snd x), (get_sequence X address w).1)
  unfolding edit needed append_to_sequence sequence_set_owner sequence_set_pub_permissions
      sequence_set_private_permissions public_key
  edit_denied await (entry e) address s x w h denied = ground arith
  edit_denied await (owner key) address s x w h denied = ground arith
  edit_denied await (pub_permissions p) address s x w h denied = ground arith
  edit_denied await (private_permissions p) address s x w h denied = ground arith
