-- ===== src/Client/Blobs/Calls/Stores.antt =====
-- What `store_blob` writes to the network.
use safe_client_libs.Shared.{ℕ, suc, ◌≡◌, refl, ap, ◌∙◌, Bool, true, arith}
use safe_client_libs.External.Types.{Types}
use safe_client_libs.External.Protocol.{
  Bytes, XorName, Result, Blob, BlobWrite, DataCmd, Cmd, Message,
}
use safe_client_libs.External.Blobs.{DataTypeEncoding}
use safe_client_libs.External.Api.{Api}
use safe_client_libs.Exec.{Exit, ok, err, panic, blocked, pure, attempt, ◌>>=◌, ◌>>◌}
use safe_client_libs.Connection.Link.{Link}
use safe_client_libs.Connection.Query
use safe_client_libs.Connection.Query.Laws.{IsSent, IsSent-rng, send_cmd-trace}
use safe_client_libs.Client.State.{World, create_cmd_message, send_cmd, on_link, public_key}
use safe_client_libs.Client.Money.Payments.{
  Validation, create_write_payment_proof, apply_write_payment_to_local_actor,
}
use safe_client_libs.Client.Writes.Laws.{apply_write_payment_keeps}
use safe_client_libs.Client.Blobs.{wrap_blob_write}
use safe_client_libs.Client.Blobs.Storage.{Storage, EncryptorApi, is_pub, make_blob, dry_run}
use safe_client_libs.Client.Blobs.Packing.{encrypt_all, pack, self_encrypt_blob}
use safe_client_libs.Client.Blobs.Calls.{store_blob_over}

module _ {T : Types} (X : Api T) (E : EncryptorApi T) (storage : Bool → Storage T)
    (rounds : ℕ) where
  -- The blob that holds this value, of the kind of `blob` and of the client's owner.
  abbrev pub packed : Blob T → Bytes → World T → Blob T
  packed blob value w = make_blob X (is_pub blob) value (X.net.public_key w.client.full_id)

  pack-fits :
      (key : T.PublicKey) (value written : Bytes) (published : Bool) (w : World T)
      → X.blob.serialise_blob (make_blob X published value key) ≡ Result.ok written
      → X.blob.validate_size (make_blob X published value key) ≡ true
      → pack X E storage (suc rounds) key value published w
        ≡ (ok (make_blob X published value key), w)
  unfolding pack
  pack-fits key value written published w serialised fits = ground (arith, serialised, fits)

  self_encrypt_blob-run :
      (blob : Blob T) (m : T.DataMap) (written value : Bytes) (w : World T)
      → encrypt_all X E (dry_run X (is_pub blob)) (X.blob.value blob) w ≡ (ok m, w)
      → X.blob.serialise_map m ≡ Result.ok written
      → X.blob.serialise_encoding (DataTypeEncoding.serialised written) ≡ Result.ok value
      → self_encrypt_blob X E storage (suc rounds) blob w
        ≡ pack X E storage (suc rounds) (X.net.public_key w.client.full_id) value (is_pub blob) w
  unfolding self_encrypt_blob public_key
  self_encrypt_blob-run blob m written value w encrypted map_written coded =
      ground (arith, encrypted, map_written, coded)

  -- The command that writes this blob, as it is sent in `w`.
  abbrev pub blob_message : Blob T → T.DebitAgreementProof → World T → Message T
  blob_message blob p w =
      Message.cmd (Cmd.data_cmd (DataCmd.blob (BlobWrite.new blob)) p)
        (X.net.random_name w.link.rng).0

  -- What `store_blob` does once it has a payment.
  abbrev send_blob : Blob T → T.DebitAgreementProof → World T → Exit T (Blob T) × World T
  send_blob blob p = do
    message ← on_link (create_cmd_message X (wrap_blob_write (BlobWrite.new blob) p))
    send_cmd X message
    attempt (apply_write_payment_to_local_actor X p)
    pure blob

  -- A registration whose result is dropped.
  dropped-keeps :
      (blob d : Blob T) (p : T.DebitAgreementProof) (w : World T)
      → ((attempt (apply_write_payment_to_local_actor X p) >> pure blob) w).0 ≡ ok d
      → (d ≡ blob)
        × (((attempt (apply_write_payment_to_local_actor X p) >> pure blob) w).1.link ≡ w.link)
  dropped-keeps blob d p w h = go (apply_write_payment_to_local_actor X p w).0 refl
    where
      go :
          (r : Exit T (Unit {0}))
          → (apply_write_payment_to_local_actor X p w).0 ≡ r
          → (d ≡ blob)
            × (((attempt (apply_write_payment_to_local_actor X p) >> pure blob) w).1.link ≡ w.link)
      go (ok tt) e = ground (arith, h, apply_write_payment_keeps X p w)
      go (err x) e = ground (arith, h, apply_write_payment_keeps X p w)
      go panic e = cc (rw e at h)
      go blocked e = cc (rw e at h)

  send_blob-trace :
      (blob d : Blob T) (p : T.DebitAgreementProof) (w : World T)
      → (send_blob blob p w).0 ≡ ok d
      → (d ≡ blob)
        × IsSent X.net w.client.connection_manager
            (blob_message blob p w)
            w.link
            (send_blob blob p w).1.link.trace
  unfolding wrap_blob_write create_cmd_message
  send_blob-trace blob d p w h = go _ refl
    where
      l : Link T
      l = record (w.link) { rng = (X.net.random_name w.link.rng).1 }

      go :
          (r : Exit T (Unit {0}))
          → (Query.send_cmd X.net w.client.connection_manager (blob_message blob p w) l).0 ≡ r
          → (d ≡ blob)
            × IsSent X.net w.client.connection_manager
                (blob_message blob p w)
                w.link
                (send_blob blob p w).1.link.trace
      go (ok tt) e =
          let (same, kept) = dropped-keeps blob d p _ (rw e at h) in
          let cm = w.client.connection_manager in
          let (bytes, made, held) =
            IsSent-rng X.net cm (blob_message blob p w) w.link (X.net.random_name w.link.rng).1 _
              (send_cmd-trace X.net cm (blob_message blob p w) l e) in
          (same, (bytes, made, rw e (ap (λ (k : Link T). k.trace) kept ∙ held)))
      go (err x) e = cc (rw e at h)
      go panic e = cc (rw e at h)
      go blocked e = cc (rw e at h)

  -- `store_blob` encrypts into the storage that drops what is put into it, packs the data map, and
  -- what it sends is the packed blob alone. So where the packed data map fits into one blob, all
  -- that a call that returns has sent to each elder, after its payment, is one command, that writes
  -- the blob of the data map, and none that writes a chunk of the content, however many there are.
  pub store_blob_single_write :
      (await : Validation T) (blob d : Blob T) (m : T.DataMap) (map_bytes value written : Bytes)
      (w : World T)
      → encrypt_all X E (dry_run X (is_pub blob)) (X.blob.value blob) w ≡ (ok m, w)
      → X.blob.serialise_map m ≡ Result.ok map_bytes
      → X.blob.serialise_encoding (DataTypeEncoding.serialised map_bytes) ≡ Result.ok value
      → X.blob.serialise_blob (packed blob value w) ≡ Result.ok written
      → X.blob.validate_size (packed blob value w) ≡ true
      → (store_blob_over X E storage (suc rounds) await blob w).0 ≡ ok d
      → (d ≡ packed blob value w)
        × (p : T.DebitAgreementProof) × (id : XorName) × ((create_write_payment_proof X await w).0
            ≡ ok p)
        × (let w₁ = (create_write_payment_proof X await w).1 in
            IsSent X.net w₁.client.connection_manager
              (Message.cmd (Cmd.data_cmd (DataCmd.blob (BlobWrite.new d)) p) id)
              w₁.link
              (store_blob_over X E storage (suc rounds) await blob w).1.link.trace)
  unfolding store_blob_over
  store_blob_single_write await blob d m map_bytes value written w encrypted mapped coded serialised
        fits h =
      go _ refl
    where
      w₁ : World T
      w₁ = (create_write_payment_proof X await w).1

      run_pack : self_encrypt_blob X E storage (suc rounds) blob w ≡ (ok (packed blob value w), w)
      run_pack =
          self_encrypt_blob-run blob m map_bytes value w encrypted mapped coded
          ∙ pack-fits (X.net.public_key w.client.full_id) value written (is_pub blob) w serialised
              fits

      go :
          (r : Exit T T.DebitAgreementProof)
          → (create_write_payment_proof X await w).0 ≡ r
          → (d ≡ packed blob value w)
            × (p : T.DebitAgreementProof) × (id : XorName) × ((create_write_payment_proof X await
                  w).0
                ≡ ok p)
            × IsSent X.net w₁.client.connection_manager
                (Message.cmd (Cmd.data_cmd (DataCmd.blob (BlobWrite.new d)) p) id)
                w₁.link
                (store_blob_over X E storage (suc rounds) await blob w).1.link.trace
      go (ok p) e =
          let (same, trace) =
            send_blob-trace (packed blob value w) d p (create_write_payment_proof X await w).1
              (rw (run_pack, e) at h) in
          (same, p, (X.net.random_name w₁.link.rng).0, e, rw (run_pack, e) (rw same trace))
      go (err x) e = cc (rw (run_pack, e) at h)
      go panic e = cc (rw (run_pack, e) at h)
      go blocked e = cc (rw (run_pack, e) at h)
