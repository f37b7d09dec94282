-- ===== src/Client/Sequences/Writes.antt =====
-- The writes of sequences that only pay and send (src/client/sequence_apis.rs).
use safe_client_libs.External.Types.{Types}
use safe_client_libs.External.Protocol.{SequenceWrite, SequenceRead, DataCmd, DataQuery, Cmd, Query}
use safe_client_libs.External.Api.{Api}
use safe_client_libs.Exec.{Exec, ◌>>=◌, ◌>>◌}
use safe_client_libs.Client.State.{World, on_link, create_cmd_message, send_cmd}
use safe_client_libs.Client.Money.Payments.{
  Validation, create_write_payment_proof, apply_write_payment_to_local_actor,
}

unfoldable pub wrap_seq_read : {T : Types} → SequenceRead T → Query T
wrap_seq_read read = Query.data_query (DataQuery.sequence read)

unfoldable pub wrap_seq_write : {T : Types} → SequenceWrite T → T.DebitAgreementProof → Cmd T
wrap_seq_write write payment = Cmd.data_cmd (DataCmd.sequence write) payment

module _ {T : Types} (X : Api T) (await : Validation T) where
  unfoldable pub delete_sequence : T.SequenceAddress → Exec T (World T) (Unit {0})
  unfolding wrap_seq_write
  delete_sequence address = do
    payment_proof ← create_write_payment_proof X await
    let msg_contents = wrap_seq_write (SequenceWrite.delete address) payment_proof
    message ← on_link (create_cmd_message X msg_contents)
    send_cmd X message
    apply_write_payment_to_local_actor X payment_proof

  unfoldable pub pay_and_write_append_to_sequence_to_network :
      T.EntryOp → Exec T (World T) (Unit {0})
  unfolding wrap_seq_write
  pay_and_write_append_to_sequence_to_network op = do
    payment_proof ← create_write_payment_proof X await
    let msg_contents = wrap_seq_write (SequenceWrite.edit op) payment_proof
    message ← on_link (create_cmd_message X msg_contents)
    send_cmd X message
    apply_write_payment_to_local_actor X payment_proof

  unfoldable pub pay_and_write_sequence_to_network : T.Sequence → Exec T (World T) (Unit {0})
  unfolding wrap_seq_write
  pay_and_write_sequence_to_network data' = do
    payment_proof ← create_write_payment_proof X await
    let msg_contents = wrap_seq_write (SequenceWrite.new data') payment_proof
    message ← on_link (create_cmd_message X msg_contents)
    send_cmd X message
    apply_write_payment_to_local_actor X payment_proof

  unfoldable pub set_sequence_owner : T.OwnerOp → Exec T (World T) (Unit {0})
  unfolding wrap_seq_write
  set_sequence_owner op = do
    payment_proof ← create_write_payment_proof X await
    let msg_contents = wrap_seq_write (SequenceWrite.set_owner op) payment_proof
    message ← on_link (create_cmd_message X msg_contents)
    send_cmd X message
    apply_write_payment_to_local_actor X payment_proof

  unfoldable pub edit_sequence_private_perms : T.PrivatePermissionsOp → Exec T (World T) (Unit {0})
  unfolding wrap_seq_write
  edit_sequence_private_perms op = do
    payment_proof ← create_write_payment_proof X await
    let msg_contents = wrap_seq_write (SequenceWrite.set_private_permissions op) payment_proof
    message ← on_link (create_cmd_message X msg_contents)
    send_cmd X message
    apply_write_payment_to_local_actor X payment_proof

  unfoldable pub edit_sequence_public_perms : T.PublicPermissionsOp → Exec T (World T) (Unit {0})
  unfolding wrap_seq_write
  edit_sequence_public_perms op = do
    payment_proof ← create_write_payment_proof X await
    let msg_contents = wrap_seq_write (SequenceWrite.set_public_permissions op) payment_proof
    message ← on_link (create_cmd_message X msg_contents)
    send_cmd X message
    apply_write_payment_to_local_actor X payment_proof
