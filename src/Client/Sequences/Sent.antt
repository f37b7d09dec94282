-- ===== src/Client/Sequences/Sent.antt =====
-- What an edit of a sequence that returns has done.
use safe_client_libs.Shared.{◌≡◌, refl, ap, ◌∙◌, sym}
use safe_client_libs.External.Types.{Types}
use safe_client_libs.External.Protocol.{Result, Cmd, Message, XorName}
use safe_client_libs.External.Api.{Api}
use safe_client_libs.Errors.{CoreError, from_snd}
use safe_client_libs.Exec.{Exit, ok, continue-eq-ok, try}
use safe_client_libs.Connection.Query.Laws.{IsSent}
use safe_client_libs.Client.State.{World, public_key, set_cache}
use safe_client_libs.Client.Money.Payments.{Validation, create_write_payment_proof}
use safe_client_libs.Client.Writes.{
  WriteCall, order, sequence_public_permissions, sequence_private_permissions,
}
use safe_client_libs.Client.Writes.Laws.{run-eq-ok}
use safe_client_libs.Client.Sequences.Edits.{
  SequenceEdit, entry, owner, pub_permissions, private_permissions, needed, applied, on_success,
  edit,
}
use safe_client_libs.Client.Sequences.Replicas.{
  get_sequence, append_to_sequence, sequence_set_owner, sequence_set_pub_permissions,
  sequence_set_private_permissions,
}
use safe_client_libs.Client.Sequences.Laws.{edit-eq-run}

try-eq-ok :
    {T : Types} {S A E : Type 0} (into : E → CoreError T) (r : Result E A) (s : S) (a : A)
    → (try {T = T} into r s).0 ≡ ok a
    → r ≡ Result.ok a
try-eq-ok into (Result.ok b) s a h = cc h
try-eq-ok into (Result.err e) s a h = cc h

module _ {T : Types} (X : Api T) (await : Validation T) where
  -- The edit was made on a copy `s` of the sequence at hand, with the permission of `s`.
  abbrev IsMade : SequenceEdit T → T.SequenceAddress → World T → Type 0
  IsMade e address w =
      (s : T.Sequence) × (edited : T.Sequence) × (call : WriteCall T) × ((get_sequence X address
          w).0
        ≡ ok s)
      × (X.sequence.check_permission s (needed X e)
            (X.net.public_key (get_sequence X address w).1.client.full_id)
          ≡ Result.ok tt)
      × (applied X e s ≡ Result.ok (edited, call))

  edit-IsMade :
      (e : SequenceEdit T) (address : T.SequenceAddress) (w : World T)
      → (edit X await e address w).0 ≡ ok tt
      → IsMade e address w
  unfolding edit applied needed append_to_sequence sequence_set_owner sequence_set_pub_permissions
      sequence_set_private_permissions public_key
  edit-IsMade (entry e) address w h =
      let (s, got, rest) = continue-eq-ok (get_sequence X address w).0 _ _ h in
      let (_, allowed, _) = continue-eq-ok _ _ _ rest in
      (s, _, _, got, try-eq-ok from_snd _ _ tt allowed, refl)
  edit-IsMade (owner key) address w h =
      let (s, got, rest) = continue-eq-ok (get_sequence X address w).0 _ _ h in
      let (_, allowed, _) = continue-eq-ok _ _ _ rest in
      (s, _, _, got, try-eq-ok from_snd _ _ tt allowed, refl)
  edit-IsMade (pub_permissions p) address w h =
      let (s, got, rest) = continue-eq-ok (get_sequence X address w).0 _ _ h in
      let (_, allowed, later) = continue-eq-ok _ _ _ rest in
      let (op, set, _) = continue-eq-ok _ _ _ later in
      let edited = (X.sequence.set_pub_permissions s p).1 in
      let made = try-eq-ok from_snd _ _ op set in
      (
        s,
        edited,
        sequence_public_permissions op,
        got,
        try-eq-ok from_snd _ _ tt allowed,
        ap (on_success X (λ op. (edited, sequence_public_permissions op))) made,
      )
  edit-IsMade (private_permissions p) address w h =
      let (s, got, rest) = continue-eq-ok (get_sequence X address w).0 _ _ h in
      let (_, allowed, later) = continue-eq-ok _ _ _ rest in
      let (op, set, _) = continue-eq-ok _ _ _ later in
      let edited = (X.sequence.set_private_permissions s p).1 in
      let made = try-eq-ok from_snd _ _ op set in
      (
        s,
        edited,
        sequence_private_permissions op,
        got,
        try-eq-ok from_snd _ _ tt allowed,
        ap (on_success X (λ op. (edited, sequence_private_permissions op))) made,
      )

  -- The client once the edited sequence is in its cache.
  abbrev pub stored : T.SequenceAddress → T.Sequence → World T → World T
  stored address edited w =
      let w₁ = (get_sequence X address w).1 in
      set_cache (X.sequence.cache_put w₁.client.sequence_cache (X.sequence.address edited) edited)
        w₁

  -- All that has been sent since the payment in `w` is the envelope of this write, with the proof of
  -- the payment.
  abbrev pub IsPaidAndSent : WriteCall T → World T → World T → Type 0
  IsPaidAndSent call w last =
      let (paid, w₁) = create_write_payment_proof X await w in
      (p : T.DebitAgreementProof) × (id : XorName) × (paid ≡ ok p)
      × IsSent X.net w₁.client.connection_manager (Message.cmd (Cmd.data_cmd (order call) p) id)
          w₁.link last.link.trace

  -- The edit was made with the permission of the replica at hand, stored, paid for and sent.
  abbrev pub IsDone : SequenceEdit T → T.SequenceAddress → World T → World T → Type 0
  IsDone e address w last =
      (s : T.Sequence) × (edited : T.Sequence) × (call : WriteCall T) × ((get_sequence X address
          w).0
        ≡ ok s)
      × (X.sequence.check_permission s (needed X e)
            (X.net.public_key (get_sequence X address w).1.client.full_id)
          ≡ Result.ok tt)
      × (applied X e s ≡ Result.ok (edited, call))
      × IsPaidAndSent call (stored address edited w) last

  -- An edit of a sequence that returns, of any of the four kinds, was made on the replica at hand,
  -- which permits it to the user; it was paid for with the edited replica in the cache; and all that
  -- has been sent since the payment is the envelope of the operation that the edit has made, with
  -- the proof of the payment, to each elder.
  pub edit-IsDone :
      (e : SequenceEdit T) (address : T.SequenceAddress) (w : World T)
      → (edit X await e address w).0 ≡ ok tt
      → IsDone e address w (edit X await e address w).1
  edit-IsDone e address w h =
      let (s, edited, call, got, allowed, made) = edit-IsMade e address w h in
      let whole = edit-eq-run X await e address s edited call w got allowed made in
      let (p, id, paid, (bytes, enveloped, held)) =
        run-eq-ok X await call (stored address edited w)
          (sym (ap (λ (r : Exit T (Unit {0}) × World T). r.0) whole) ∙ h) in
      (
        s,
        edited,
        call,
        got,
        allowed,
        made,
        (
          p,
          id,
          paid,
          (bytes, enveloped, ap (λ (r : Exit T (Unit {0}) × World T). r.1.link.trace) whole ∙ held),
        ),
      )
