-- ===== src/Client/Sequences/Edits.antt =====
-- The four edits of a cached sequence as one type of calls, with what each of them is to do.
use safe_client_libs.Shared.{List}
use safe_client_libs.External.Types.{Types}
use safe_client_libs.External.Protocol.{Bytes, Result}
use safe_client_libs.External.Api.{Api}
use safe_client_libs.Exec.{Exec}
use safe_client_libs.Client.State.{World}
use safe_client_libs.Client.Money.Payments.{Validation}
use safe_client_libs.Client.Writes.{
  WriteCall, sequence_append, sequence_owner, sequence_private_permissions,
  sequence_public_permissions,
}
use safe_client_libs.Client.Sequences.Replicas.{
  append_to_sequence, sequence_set_owner, sequence_set_pub_permissions,
  sequence_set_private_permissions,
}

pub data SequenceEdit (T : Types) : Type 0 where
  entry : Bytes → SequenceEdit T
  owner : T.PublicKey → SequenceEdit T
  pub_permissions : List (T.SequenceUser × T.PublicUserPermissions) → SequenceEdit T
  private_permissions : List (T.PublicKey × T.PrivateUserPermissions) → SequenceEdit T

module _ {T : Types} (X : Api T) where
  -- What the user must be permitted.
  unfoldable pub needed : SequenceEdit T → T.SequenceAction
  needed (entry _) = X.sequence.append_action
  needed (owner _) = X.sequence.manage_permissions_action
  needed (pub_permissions _) = X.sequence.manage_permissions_action
  needed (private_permissions _) = X.sequence.manage_permissions_action

  abbrev pub on_success : {A B : Type 0} → (A → B) → Result T.SndError A → Result T.SndError B
  on_success f (Result.ok a) = Result.ok (f a)
  on_success f (Result.err e) = Result.err e

  -- The sequence with the edit, and the write that tells the network.
  unfoldable pub applied :
      SequenceEdit T → T.Sequence → Result T.SndError (T.Sequence × WriteCall T)
  applied (entry e) s =
      let (op, edited) = X.sequence.append s e in Result.ok (edited, sequence_append op)
  applied (owner key) s =
      let (op, edited) = X.sequence.set_owner s key in Result.ok (edited, sequence_owner op)
  applied (pub_permissions p) s =
      let (set, edited) = X.sequence.set_pub_permissions s p in
      on_success (λ op. (edited, sequence_public_permissions op)) set
  applied (private_permissions p) s =
      let (set, edited) = X.sequence.set_private_permissions s p in
      on_success (λ op. (edited, sequence_private_permissions op)) set

  -- The call itself.
  unfoldable pub edit :
      Validation T → SequenceEdit T → T.SequenceAddress → Exec T (World T) (Unit {0})
  edit await (entry e) address = append_to_sequence X await address e
  edit await (owner key) address = sequence_set_owner X await address key
  edit await (pub_permissions p) address = sequence_set_pub_permissions X await address p
  edit await (private_permissions p) address = sequence_set_private_permissions X await address p
