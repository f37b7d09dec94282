-- ===== src/Client/Writes.antt =====
-- All writes of maps, sequences and blobs that only pay and send, as one type of calls, and what each of
-- them is to do: pay, send the command with the payment, and register the payment.
pub mod Laws
use safe_client_libs.Shared.{ℕ}
use safe_client_libs.External.Types.{Types}
use safe_client_libs.External.Protocol.{
  Map, MapAddress, MapEntryActions, MapWrite, BlobAddress, BlobWrite, SequenceWrite, DataCmd, Cmd,
}
use safe_client_libs.External.Api.{Api}
use safe_client_libs.Exec.{Exec, Exit, ok, ◌>>=◌, ◌>>◌}
use safe_client_libs.Client.State.{World, on_link, create_cmd_message, send_cmd}
use safe_client_libs.Client.Money.Payments.{
  Validation, create_write_payment_proof, apply_write_payment_to_local_actor,
}
use safe_client_libs.Client.Maps.Writes.{
  delete_map, delete_map_user_perms, set_map_user_perms, edit_map_entries, new_map,
}
use safe_client_libs.Client.Blobs.{delete_blob}
use safe_client_libs.Client.Sequences.Writes.{
  delete_sequence, pay_and_write_append_to_sequence_to_network, pay_and_write_sequence_to_network,
  set_sequence_owner, edit_sequence_private_perms, edit_sequence_public_perms,
}

-- The calls that write, with their arguments.
pub data WriteCall (T : Types) : Type 0 where
  map_deletion : MapAddress → WriteCall T
  map_permissions_deletion : MapAddress → T.PublicKey → ℕ → WriteCall T
  map_permissions : MapAddress → T.PublicKey → T.MapPermissionSet → ℕ → WriteCall T
  map_edit : MapAddress → MapEntryActions T → WriteCall T
  map_creation : Map T → WriteCall T
  blob_deletion : BlobAddress → WriteCall T
  sequence_deletion : T.SequenceAddress → WriteCall T
  sequence_append : T.EntryOp → WriteCall T
  sequence_creation : T.Sequence → WriteCall T
  sequence_owner : T.OwnerOp → WriteCall T
  sequence_private_permissions : T.PrivatePermissionsOp → WriteCall T
  sequence_public_permissions : T.PublicPermissionsOp → WriteCall T

-- What the network is to be asked for.
unfoldable pub order : {T : Types} → WriteCall T → DataCmd T
order (map_deletion a) = DataCmd.map (MapWrite.delete a)
order (map_permissions_deletion a user version) =
    DataCmd.map (MapWrite.del_user_permissions a user version)
order (map_permissions a user permissions version) =
    DataCmd.map (MapWrite.set_user_permissions a user permissions version)
order (map_edit a changes) = DataCmd.map (MapWrite.edit a changes)
order (map_creation m) = DataCmd.map (MapWrite.new m)
order (blob_deletion a) = DataCmd.blob (BlobWrite.delete_private a)
order (sequence_deletion a) = DataCmd.sequence (SequenceWrite.delete a)
order (sequence_append op) = DataCmd.sequence (SequenceWrite.edit op)
order (sequence_creation s) = DataCmd.sequence (SequenceWrite.new s)
order (sequence_owner op) = DataCmd.sequence (SequenceWrite.set_owner op)
order (sequence_private_permissions op) =
    DataCmd.sequence (SequenceWrite.set_private_permissions op)
order (sequence_public_permissions op) = DataCmd.sequence (SequenceWrite.set_public_permissions op)

module _ {T : Types} (X : Api T) where
  unfoldable pub send_paid : DataCmd T → T.DebitAgreementProof → Exec T (World T) (Unit {0})
  send_paid write payment_proof = do
    message ← on_link (create_cmd_message X (Cmd.data_cmd write payment_proof))
    send_cmd X message
    apply_write_payment_to_local_actor X payment_proof

module _ {T : Types} (X : Api T) (await : Validation T) where
  -- The call itself.
  unfoldable pub run : WriteCall T → Exec T (World T) (Unit {0})
  run (map_deletion a) = delete_map X await a
  run (map_permissions_deletion a user version) = delete_map_user_perms X await a user version
  run (map_permissions a user permissions version) =
      set_map_user_perms X await a user permissions version
  run (map_edit a changes) = edit_map_entries X await a changes
  run (map_creation m) = new_map X await m
  run (blob_deletion a) = delete_blob X await a
  run (sequence_deletion a) = delete_sequence X await a
  run (sequence_append op) = pay_and_write_append_to_sequence_to_network X await op
  run (sequence_creation s) = pay_and_write_sequence_to_network X await s
  run (sequence_owner op) = set_sequence_owner X await op
  run (sequence_private_permissions op) = edit_sequence_private_perms X await op
  run (sequence_public_permissions op) = edit_sequence_public_perms X await op

  -- What every write does: it pays, and then it sends its command with the payment and registers
  -- the payment.
  unfoldable pub pay_and_send : DataCmd T → Exec T (World T) (Unit {0})
  unfolding send_paid
  pay_and_send write = do send_paid X write (← create_write_payment_proof X await)
