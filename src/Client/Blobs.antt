-- ===== src/Client/Blobs.antt =====
-- Calls on blobs (src/client/blob_apis.rs): the deletion of a private blob.
pub mod Storage
pub mod Packing
pub mod Calls
use safe_client_libs.External.Types.{Types}
use safe_client_libs.External.Protocol.{BlobAddress, BlobWrite, DataCmd, Cmd}
use safe_client_libs.External.Api.{Api}
use safe_client_libs.Exec.{Exec, ◌>>=◌, ◌>>◌}
use safe_client_libs.Client.State.{World, on_link, create_cmd_message, send_cmd}
use safe_client_libs.Client.Money.Payments.{
  Validation, create_write_payment_proof, apply_write_payment_to_local_actor,
}

unfoldable pub wrap_blob_write : {T : Types} → BlobWrite T → T.DebitAgreementProof → Cmd T
wrap_blob_write write payment = Cmd.data_cmd (DataCmd.blob write) payment

unfoldable pub delete_blob :
    {T : Types} → Api T → Validation T → BlobAddress → Exec T (World T) (Unit {0})
unfolding wrap_blob_write
delete_blob X await address = do
  payment_proof ← create_write_payment_proof X await
  let msg_contents = wrap_blob_write (BlobWrite.delete_private address) payment_proof
  message ← on_link (create_cmd_message X msg_contents)
  send_cmd X message
  apply_write_payment_to_local_actor X payment_proof
