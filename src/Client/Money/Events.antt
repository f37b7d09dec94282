-- ===== src/Client/Money/Events.antt =====
-- What a validation event does to a client.
use safe_client_libs.Shared.{◌≡◌, ◌↔◌, refl, ap, Option, none, some, arith}
use safe_client_libs.External.Types.{Types}
use safe_client_libs.External.Protocol.{Result, Event, ActorEvent}
use safe_client_libs.External.Api.{Api}
use safe_client_libs.Exec.{ok, ok-injective}
use safe_client_libs.Client.State.{World, set_actor}
use safe_client_libs.Client.Money.Balance.{handle_validation_event, after_receive}

module _ {T : Types} (X : Api T) where
  abbrev taken :
      Result T.SndError (Option T.TransferValidationReceived) → Option T.TransferValidationReceived
  taken (Result.ok received) = received
  taken (Result.err e) = none

  -- What the actor accepts of an event: nothing, unless it is a validation that the actor receives.
  abbrev pub accepted : Event T → T.Actor → Option T.TransferValidationReceived
  accepted (Event.transfer_validated validated) actor = taken (X.actor.receive actor validated)
  accepted Event.other actor = none

  -- The client after it: the actor has taken over what it has accepted, and nothing else has changed.
  abbrev pub taken_over : Option T.TransferValidationReceived → World T → World T
  taken_over none w = w
  taken_over (some received) w =
      set_actor
        (X.actor.apply w.client.transfer_actor (ActorEvent.transfer_validation_received received)).1
        w

  -- The proof of what is accepted, where the actor could take it over.
  abbrev pub IsProven :
      Option T.TransferValidationReceived → World T → T.DebitAgreementProof → Type 0
  IsProven accepted w p =
      (received : T.TransferValidationReceived) × (accepted ≡ some received)
      × ((X.actor.apply w.client.transfer_actor
            (ActorEvent.transfer_validation_received received)).0
          ≡ Result.ok tt)
      × (X.actor.proof received ≡ some p)

  after_receive-accepted :
      (received : T.TransferValidationReceived) (w : World T) (p : T.DebitAgreementProof)
      → let (end, w') = after_receive X (Result.ok (some received)) w in
        ((end ≡ ok (some p)) ↔ IsProven (some received) w p) × (w' ≡ taken_over (some received) w)
  after_receive-accepted received w p = go _ refl
    where
      event : ActorEvent T
      event = ActorEvent.transfer_validation_received received

      go :
          (r : Result T.SndError (Unit {0}))
          → (X.actor.apply w.client.transfer_actor event).0 ≡ r
          → let (end, w') = after_receive X (Result.ok (some received)) w in
            ((end ≡ ok (some p)) ↔ IsProven (some received) w p)
            × (w' ≡ taken_over (some received) w)
      go (Result.ok tt) e = (
        (
          λ h. (received, refl, e, ok-injective T _ _ (rw e at h)),
          λ (received', same, applied, proven).
              let same' : received ≡ received' = cc in rw e (ap ok (rw same' proven)),
        ),
        ground arith,
      )
      go (Result.err x) e =
          ((λ h. cc (rw e at h), λ (received', same, applied, proven). cc), ground arith)

  after_receive-taken :
      (r : Result T.SndError (Option T.TransferValidationReceived)) (w : World T)
      (p : T.DebitAgreementProof)
      → let (end, w') = after_receive X r w in
        ((end ≡ ok (some p)) ↔ IsProven (taken r) w p) × (w' ≡ taken_over (taken r) w)
  after_receive-taken (Result.ok none) w p =
      ((λ h. cc h, λ (received, same, applied, proven). cc), refl)
  after_receive-taken (Result.ok (some received)) w p = after_receive-accepted received w p
  after_receive-taken (Result.err error) w p =
      ((λ h. ground arith, λ (received, same, applied, proven). cc), ground arith)

  -- An event yields a proof exactly when it is a validation that the actor accepts and can take
  -- over, and that carries this proof. What the actor accepts, it takes over, with a proof or
  -- without; and where it accepts nothing, the client is as before.
  pub handle_validation_event_iff :
      (event : Event T) (w : World T) (p : T.DebitAgreementProof)
      → let (end, w') = handle_validation_event X event w in
        let found = accepted event w.client.transfer_actor in
        ((end ≡ ok (some p)) ↔ IsProven found w p) × (w' ≡ taken_over found w)
  unfolding handle_validation_event
  handle_validation_event_iff Event.other w p =
      ((λ h. cc h, λ (received, same, applied, proven). cc), refl)
  handle_validation_event_iff (Event.transfer_validated validated) w p =
      after_receive-taken (X.actor.receive w.client.transfer_actor validated) w p
