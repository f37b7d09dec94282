-- ===== src/Client/Maps/Writes.antt =====
-- The writes of maps (src/client/map_apis.rs).
use safe_client_libs.Shared.{ℕ}
use safe_client_libs.External.Types.{Types}
use safe_client_libs.External.Protocol.{
  XorName, Map, MapAddress, MapEntryActions, MapWrite, DataCmd, Cmd,
}
use safe_client_libs.External.Api.{Api}
use safe_client_libs.Exec.{Exec, panics, ◌>>=◌, ◌>>◌}
use safe_client_libs.Client.State.{World, on_link, create_cmd_message, send_cmd}
use safe_client_libs.Client.Money.Payments.{
  Validation, create_write_payment_proof, apply_write_payment_to_local_actor,
}

unfoldable pub wrap_map_write : {T : Types} → MapWrite T → T.DebitAgreementProof → Cmd T
wrap_map_write write payment = Cmd.data_cmd (DataCmd.map write) payment

-- `unimplemented!()`
unfoldable pub change_map_owner :
    (T : Types) → XorName → ℕ → T.PublicKey → ℕ → Exec T (World T) (Unit {0})
change_map_owner T name tag new_owner version = panics

module _ {T : Types} (X : Api T) (await : Validation T) where
  unfoldable pub delete_map : MapAddress → Exec T (World T) (Unit {0})
  unfolding wrap_map_write
  delete_map address = do
    payment_proof ← create_write_payment_proof X await
    let msg_contents = wrap_map_write (MapWrite.delete address) payment_proof
    message ← on_link (create_cmd_message X msg_contents)
    send_cmd X message
    apply_write_payment_to_local_actor X payment_proof

  unfoldable pub delete_map_user_perms : MapAddress → T.PublicKey → ℕ → Exec T (World T) (Unit {0})
  unfolding wrap_map_write
  delete_map_user_perms address user version = do
    payment_proof ← create_write_payment_proof X await
    let msg_contents =
        wrap_map_write (MapWrite.del_user_permissions address user version) payment_proof
    message ← on_link (create_cmd_message X msg_contents)
    send_cmd X message
    apply_write_payment_to_local_actor X payment_proof

  unfoldable pub set_map_user_perms :
      MapAddress → T.PublicKey → T.MapPermissionSet → ℕ → Exec T (World T) (Unit {0})
  unfolding wrap_map_write
  set_map_user_perms address user permissions version = do
    payment_proof ← create_write_payment_proof X await
    let msg_contents =
        wrap_map_write (MapWrite.set_user_permissions address user permissions version)
          payment_proof
    message ← on_link (create_cmd_message X msg_contents)
    send_cmd X message
    apply_write_payment_to_local_actor X payment_proof

  unfoldable pub edit_map_entries : MapAddress → MapEntryActions T → Exec T (World T) (Unit {0})
  unfolding wrap_map_write
  edit_map_entries address changes = do
    payment_proof ← create_write_payment_proof X await
    let msg_contents = wrap_map_write (MapWrite.edit address changes) payment_proof
    message ← on_link (create_cmd_message X msg_contents)
    send_cmd X message
    apply_write_payment_to_local_actor X payment_proof

  unfoldable pub new_map : Map T → Exec T (World T) (Unit {0})
  unfolding wrap_map_write
  new_map data' = do
    payment_proof ← create_write_payment_proof X await
    let msg_contents = wrap_map_write (MapWrite.new data') payment_proof
    message ← on_link (create_cmd_message X msg_contents)
    send_cmd X message
    apply_write_payment_to_local_actor X payment_proof

  unfoldable pub mutate_seq_map_entries :
      XorName → ℕ → T.SeqEntryActions → Exec T (World T) (Unit {0})
  unfolding edit_map_entries
  mutate_seq_map_entries name tag actions =
      edit_map_entries (MapAddress.seq name tag) (MapEntryActions.seq actions)

  unfoldable pub mutate_unseq_map_entries :
      XorName → ℕ → T.UnseqEntryActions → Exec T (World T) (Unit {0})
  unfolding edit_map_entries
  mutate_unseq_map_entries name tag actions =
      edit_map_entries (MapAddress.unseq name tag) (MapEntryActions.unseq actions)

  unfoldable pub set_map_user_permissions :
      MapAddress → T.PublicKey → T.MapPermissionSet → ℕ → Exec T (World T) (Unit {0})
  unfolding set_map_user_perms
  set_map_user_permissions address user permissions version =
      set_map_user_perms address user permissions version

  unfoldable pub del_map_user_permissions :
      MapAddress → T.PublicKey → ℕ → Exec T (World T) (Unit {0})
  unfolding delete_map_user_perms
  del_map_user_permissions address user version = delete_map_user_perms address user version
