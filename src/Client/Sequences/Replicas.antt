-- ===== src/Client/Sequences/Replicas.antt =====
-- The cached replicas of sequences: reads that go to the network on a miss, and edits that go into
-- the cache before they are paid for and sent (src/client/sequence_apis.rs).
use Prim.Native.Nat.{◌%◌, ◌^◌}
use safe_client_libs.Shared.{ℕ, ◌+◌, ◌-◌, Option, none, some, List, [], ◌∷◌}
use safe_client_libs.External.Types.{Types}
use safe_client_libs.External.Protocol.{Bytes, XorName, QueryResponse, SequenceRead}
use safe_client_libs.External.Api.{Api}
use safe_client_libs.Errors.{CoreError, from_snd, from_text}
use safe_client_libs.Exec.{Exec, Exit, ok, pure, raise, try, ok_or, ◌>>=◌, ◌>>◌}
use safe_client_libs.Client.State.{World, set_cache, send_query, public_key}
use safe_client_libs.Client.Money.Payments.{Validation}
use safe_client_libs.Client.Sequences.Writes.{
  wrap_seq_read, pay_and_write_append_to_sequence_to_network, pay_and_write_sequence_to_network,
  set_sequence_owner, edit_sequence_private_perms, edit_sequence_public_perms,
}

-- `index - 1` on a `u64`, as it wraps in a release build.
unfoldable pub pred_u64 : ℕ → ℕ
pred_u64 index = (index + 2 ^ 64 - 1) % 2 ^ 64

module _ {T : Types} (X : Api T) where
  -- `self.sequence_cache.lock().await.get(&address)`
  abbrev pub look_up : T.SequenceAddress → World T → Exit T (Option T.Sequence) × World T
  look_up address w =
      let (found, cache) = X.sequence.cache_get w.client.sequence_cache address in
      (ok found, set_cache cache w)

  -- `self.sequence_cache.lock().await.put(*sequence.address(), sequence)`
  abbrev pub remember : T.Sequence → World T → Exit T (Unit {0}) × World T
  remember sequence w = (
    ok tt,
    set_cache (X.sequence.cache_put w.client.sequence_cache (X.sequence.address sequence) sequence)
        w,
  )

  abbrev pub expect_sequence : QueryResponse T → World T → Exit T T.Sequence × World T
  expect_sequence (QueryResponse.get_sequence res) = try from_snd res
  expect_sequence _ = raise CoreError.received_unexpected_event

  -- A miss: the network is asked, and its answer goes into the cache.
  unfoldable pub fetch_sequence : T.SequenceAddress → Exec T (World T) T.Sequence
  unfolding wrap_seq_read
  fetch_sequence address = do
    res ← send_query X (wrap_seq_read (SequenceRead.get address))
    sequence ← expect_sequence res
    remember sequence
    pure sequence

  abbrev pub or_fetch :
      T.SequenceAddress → Option T.Sequence → World T → Exit T T.Sequence × World T
  or_fetch address (some sequence) = pure sequence
  or_fetch address none = fetch_sequence address

  unfoldable pub get_sequence : T.SequenceAddress → Exec T (World T) T.Sequence
  unfolding fetch_sequence
  get_sequence address = do or_fetch address (← look_up address)

  unfoldable pub get_sequence_last_entry : T.SequenceAddress → Exec T (World T) (ℕ × Bytes)
  get_sequence_last_entry address = do
    sequence ← get_sequence address
    entry ← ok_or (from_snd X.sequence.no_such_entry) (X.sequence.last_entry sequence)
    pure (pred_u64 (X.sequence.entries_index sequence), entry)

  unfoldable pub get_sequence_range :
      T.SequenceAddress → T.SequenceIndex → T.SequenceIndex → Exec T (World T) (List Bytes)
  get_sequence_range address start end = do
    sequence ← get_sequence address
    ok_or (from_snd X.sequence.no_such_entry) (X.sequence.in_range sequence start end)

  unfoldable pub get_sequence_owner : T.SequenceAddress → Exec T (World T) T.PublicKey
  get_sequence_owner address = do
    sequence ← get_sequence address
    ok_or (from_text "Unexpectedly failed to obtain current owner of Sequence")
        (X.sequence.owner sequence (pred_u64 (X.sequence.owners_index sequence)))

  unfoldable pub get_sequence_pub_permissions :
      T.SequenceAddress → Exec T (World T) T.PublicPermissions
  get_sequence_pub_permissions address = do
    sequence ← get_sequence address
    try from_snd
        (X.sequence.pub_permissions sequence (pred_u64 (X.sequence.permissions_index sequence)))

  unfoldable pub get_sequence_private_permissions :
      T.SequenceAddress → Exec T (World T) T.PrivatePermissions
  get_sequence_private_permissions address = do
    sequence ← get_sequence address
    try from_snd
        (X.sequence.private_permissions sequence (pred_u64 (X.sequence.permissions_index sequence)))

  unfoldable pub get_sequence_user_permissions :
      T.SequenceAddress → T.SequenceUser → Exec T (World T) T.UserPermissions
  get_sequence_user_permissions address user = do
    sequence ← get_sequence address
    try from_snd (
        X.sequence.user_permissions sequence user
          (pred_u64 (X.sequence.permissions_index sequence)))

  -- `for entry in entries { let _op = data.append(entry); }`
  unfoldable pub append_all : T.Sequence → List Bytes → T.Sequence
  append_all sequence [] = sequence
  append_all sequence (entry ∷ entries) = append_all (X.sequence.append sequence entry).1 entries

  abbrev pub append_given : T.Sequence → Option (List Bytes) → T.Sequence
  append_given sequence none = sequence
  append_given sequence (some entries) = append_all sequence entries

module _ {T : Types} (X : Api T) (await : Validation T) where
  unfoldable pub store_private_sequence :
      Option (List Bytes)
      → XorName
      → ℕ
      → T.PublicKey
      → List (T.PublicKey × T.PrivateUserPermissions)
      → Exec T (World T) T.SequenceAddress
  unfolding append_all
  store_private_sequence sequence name tag owner permissions = do
    pk ← public_key X
    let fresh = X.sequence.new_private pk name tag
    let address = X.sequence.address fresh
    let (set, permitted) = X.sequence.set_private_permissions fresh permissions
    op ← try from_snd set
    let owned = (X.sequence.set_owner permitted owner).1
    let filled = append_given X owned sequence
    pay_and_write_sequence_to_network X await filled
    remember X filled
    pure address

  unfoldable pub store_public_sequence :
      Option (List Bytes)
      → XorName
      → ℕ
      → T.PublicKey
      → List (T.SequenceUser × T.PublicUserPermissions)
      → Exec T (World T) T.SequenceAddress
  unfolding append_all
  store_public_sequence sequence name tag owner permissions = do
    pk ← public_key X
    let fresh = X.sequence.new_pub pk name tag
    let address = X.sequence.address fresh
    let (set, permitted) = X.sequence.set_pub_permissions fresh permissions
    op ← try from_snd set
    let owned = (X.sequence.set_owner permitted owner).1
    let filled = append_given X owned sequence
    pay_and_write_sequence_to_network X await filled
    remember X filled
    pure address

  unfoldable pub append_to_sequence : T.SequenceAddress → Bytes → Exec T (World T) (Unit {0})
  append_to_sequence address entry = do
    sequence ← get_sequence X address
    key ← public_key X
    try from_snd (X.sequence.check_permission sequence X.sequence.append_action key)
    let (op, edited) = X.sequence.append sequence entry
    remember X edited
    pay_and_write_append_to_sequence_to_network X await op

  unfoldable pub sequence_set_owner : T.SequenceAddress → T.PublicKey → Exec T (World T) (Unit {0})
  sequence_set_owner address owner = do
    sequence ← get_sequence X address
    key ← public_key X
    try from_snd (X.sequence.check_permission sequence X.sequence.manage_permissions_action key)
    let (op, edited) = X.sequence.set_owner sequence owner
    remember X edited
    set_sequence_owner X await op

  unfoldable pub sequence_set_pub_permissions :
      T.SequenceAddress
      → List (T.SequenceUser × T.PublicUserPermissions)
      → Exec T (World T) (Unit {0})
  sequence_set_pub_permissions address permissions = do
    sequence ← get_sequence X address
    key ← public_key X
    try from_snd (X.sequence.check_permission sequence X.sequence.manage_permissions_action key)
    let (set, edited) = X.sequence.set_pub_permissions sequence permissions
    op ← try from_snd set
    remember X edited
    edit_sequence_public_perms X await op

  unfoldable pub sequence_set_private_permissions :
      T.SequenceAddress
      → List (T.PublicKey × T.PrivateUserPermissions)
      → Exec T (World T) (Unit {0})
  sequence_set_private_permissions address permissions = do
    sequence ← get_sequence X address
    key ← public_key X
    try from_snd (X.sequence.check_permission sequence X.sequence.manage_permissions_action key)
    let (set, edited) = X.sequence.set_private_permissions sequence permissions
    op ← try from_snd set
    remember X edited
    edit_sequence_private_perms X await op
