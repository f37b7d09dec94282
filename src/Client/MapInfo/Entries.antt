-- ===== src/Client/MapInfo/Entries.antt =====
-- The encryption of whole maps, of actions on their entries, and of keys and values
-- (src/client/map_info.rs). A `BTreeMap` or `BTreeSet` is the list of its entries in their order.
use Prim.Native.Nat.{compare, Ordering}
use safe_client_libs.Shared.{List, [], ◌∷◌, ◌++◌}
use safe_client_libs.External.Types.{Types}
use safe_client_libs.External.Protocol.{Bytes, Result, MapSeqValue, MapSeqEntryAction}
use safe_client_libs.External.Cipher.{CipherApi}
use safe_client_libs.Errors.{CoreError}
use safe_client_libs.Exec.{Exec, Exit, pure, ◌>>=◌}
use safe_client_libs.Client.MapInfo.{MapInfo, enc_entry_key, enc_entry_value, decrypt}

-- The order of `Vec<u8>`.
unfoldable pub order_bytes : Bytes → Bytes → Ordering
order_bytes [] [] = Ordering.eq
order_bytes [] (_ ∷ _) = Ordering.lt
order_bytes (_ ∷ _) [] = Ordering.gt
order_bytes (x ∷ xs) (y ∷ ys) = elim (compare x y) [
  | Ordering.lt ↦ Ordering.lt
  | Ordering.gt ↦ Ordering.gt
  | Ordering.eq ↦ order_bytes xs ys
]

-- `BTreeMap::insert`
unfoldable pub insert : {V : Type 0} → Bytes → V → List (Bytes × V) → List (Bytes × V)
unfolding order_bytes
insert key value [] = (key, value) ∷ []
insert key value ((k, v) ∷ rest) = elim (order_bytes key k) [
  | Ordering.lt ↦ (key, value) ∷ (k, v) ∷ rest
  | Ordering.eq ↦ (k, value) ∷ rest
  | Ordering.gt ↦ (k, v) ∷ insert key value rest
]

-- `BTreeSet::insert`
unfoldable pub insert_key : Bytes → List Bytes → List Bytes
unfolding order_bytes
insert_key key [] = key ∷ []
insert_key key (k ∷ rest) = elim (order_bytes key k) [
  | Ordering.lt ↦ key ∷ k ∷ rest
  | Ordering.eq ↦ k ∷ rest
  | Ordering.gt ↦ k ∷ insert_key key rest
]

-- `result?` where the function returns a result itself.
abbrev pub and_then : {E A B : Type 0} → Result E A → (A → Result E B) → Result E B
and_then (Result.ok a) f = f a
and_then (Result.err e) f = Result.err e

module _ {T : Types} (C : CipherApi T) (info : MapInfo) where
  unfoldable pub encrypt_value : MapSeqValue → Exec T T.Rng MapSeqValue
  encrypt_value value = do
    text ← enc_entry_value C info value.value
    pure (record { value = text; version = value.version })

  unfoldable pub decrypt_value : MapSeqValue → Result (CoreError T) MapSeqValue
  decrypt_value value =
      and_then (decrypt C info value.value)
        (λ text. Result.ok (record { value = text; version = value.version }))

  -- The loop of `encrypt_entries`, with its output.
  unfoldable pub encrypt_onto :
      List (Bytes × MapSeqValue)
      → List (Bytes × MapSeqValue)
      → Exec T T.Rng (List (Bytes × MapSeqValue))
  unfolding encrypt_value insert
  encrypt_onto output [] = pure output
  encrypt_onto output ((key, value) ∷ entries) = do
    encrypted_key ← enc_entry_key C info key
    encrypted_value ← encrypt_value value
    encrypt_onto (insert encrypted_key encrypted_value output) entries

  unfoldable pub encrypt_entries :
      List (Bytes × MapSeqValue) → Exec T T.Rng (List (Bytes × MapSeqValue))
  unfolding encrypt_onto
  encrypt_entries entries = encrypt_onto [] entries

  abbrev pub encrypt_action : MapSeqEntryAction → T.Rng → Exit T MapSeqEntryAction × T.Rng
  encrypt_action (MapSeqEntryAction.ins value) = do
    encrypted ← encrypt_value value
    pure (MapSeqEntryAction.ins encrypted)
  encrypt_action (MapSeqEntryAction.update value) = do
    encrypted ← encrypt_value value
    pure (MapSeqEntryAction.update encrypted)
  encrypt_action (MapSeqEntryAction.del version) = pure (MapSeqEntryAction.del version)

  unfoldable pub encrypt_actions_onto :
      List (Bytes × MapSeqEntryAction)
      → List (Bytes × MapSeqEntryAction)
      → Exec T T.Rng (List (Bytes × MapSeqEntryAction))
  unfolding encrypt_value insert
  encrypt_actions_onto output [] = pure output
  encrypt_actions_onto output ((key, action) ∷ actions) = do
    encrypted_key ← enc_entry_key C info key
    encrypted_action ← encrypt_action action
    encrypt_actions_onto (insert encrypted_key encrypted_action output) actions

  unfoldable pub encrypt_entry_actions :
      List (Bytes × MapSeqEntryAction) → Exec T T.Rng (List (Bytes × MapSeqEntryAction))
  unfolding encrypt_actions_onto
  encrypt_entry_actions actions = encrypt_actions_onto [] actions

  unfoldable pub decrypt_onto :
      List (Bytes × MapSeqValue)
      → List (Bytes × MapSeqValue)
      → Result (CoreError T) (List (Bytes × MapSeqValue))
  unfolding decrypt_value insert
  decrypt_onto output [] = Result.ok output
  decrypt_onto output ((key, value) ∷ entries) = and_then (decrypt C info key) (λ decrypted_key.
      and_then (decrypt_value value)
        (λ decrypted_value. decrypt_onto (insert decrypted_key decrypted_value output) entries))

  unfoldable pub decrypt_entries :
      List (Bytes × MapSeqValue) → Result (CoreError T) (List (Bytes × MapSeqValue))
  unfolding decrypt_onto
  decrypt_entries entries = decrypt_onto [] entries

  unfoldable pub decrypt_keys_onto : List Bytes → List Bytes → Result (CoreError T) (List Bytes)
  unfolding insert_key
  decrypt_keys_onto output [] = Result.ok output
  decrypt_keys_onto output (key ∷ keys) =
      and_then (decrypt C info key) (λ plain. decrypt_keys_onto (insert_key plain output) keys)

  unfoldable pub decrypt_keys : List Bytes → Result (CoreError T) (List Bytes)
  unfolding decrypt_keys_onto
  decrypt_keys keys = decrypt_keys_onto [] keys

  unfoldable pub decrypt_values_onto :
      List MapSeqValue → List MapSeqValue → Result (CoreError T) (List MapSeqValue)
  unfolding decrypt_value
  decrypt_values_onto output [] = Result.ok output
  decrypt_values_onto output (value ∷ values) =
      and_then (decrypt_value value) (λ plain. decrypt_values_onto (output ++ (plain ∷ [])) values)

  unfoldable pub decrypt_values : List MapSeqValue → Result (CoreError T) (List MapSeqValue)
  unfolding decrypt_values_onto
  decrypt_values values = decrypt_values_onto [] values
