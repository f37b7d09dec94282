-- ===== src/Client/Maps/Reads.antt =====
-- The reads of maps (src/client/map_apis.rs). Each sends its query, and takes the payload of the
-- response that it expects: of the kind, sequenced or not, that it asked for.
use safe_client_libs.Shared.{ℕ, List}
use safe_client_libs.External.Types.{Types}
use safe_client_libs.External.Protocol.{
  Bytes, XorName, Map, MapAddress, MapSeqValue, MapValue, MapValues, MapEntries, MapRead, DataQuery,
  Query, QueryResponse,
}
use safe_client_libs.External.Api.{Api}
use safe_client_libs.Errors.{CoreError, from_snd}
use safe_client_libs.Exec.{Exec, Exit, ok, err, raise, try, ◌>>=◌}
use safe_client_libs.Client.State.{World, send_query}

module _ {T : Types} where
  unfoldable pub wrap_map_read : MapRead T → Query T
  wrap_map_read read = Query.data_query (DataQuery.map read)

  -- The inner matches: data of the other kind is an error.
  abbrev pub as_seq_map : Map T → World T → Exit T (T.SeqMap) × World T
  as_seq_map (Map.seq found) w = (ok found, w)
  as_seq_map (Map.unseq _) w = (err CoreError.received_unexpected_data, w)

  abbrev pub as_unseq_map : Map T → World T → Exit T (T.UnseqMap) × World T
  as_unseq_map (Map.unseq found) w = (ok found, w)
  as_unseq_map (Map.seq _) w = (err CoreError.received_unexpected_data, w)

  abbrev pub as_seq_value : MapValue → World T → Exit T (MapSeqValue) × World T
  as_seq_value (MapValue.seq found) w = (ok found, w)
  as_seq_value (MapValue.unseq _) w = (err CoreError.received_unexpected_data, w)

  abbrev pub as_unseq_value : MapValue → World T → Exit T (Bytes) × World T
  as_unseq_value (MapValue.unseq found) w = (ok found, w)
  as_unseq_value (MapValue.seq _) w = (err CoreError.received_unexpected_data, w)

  abbrev pub as_seq_entries : MapEntries → World T → Exit T (List (Bytes × MapSeqValue)) × World T
  as_seq_entries (MapEntries.seq found) w = (ok found, w)
  as_seq_entries (MapEntries.unseq _) w = (err CoreError.received_unexpected_data, w)

  abbrev pub as_unseq_entries : MapEntries → World T → Exit T (List (Bytes × Bytes)) × World T
  as_unseq_entries (MapEntries.unseq found) w = (ok found, w)
  as_unseq_entries (MapEntries.seq _) w = (err CoreError.received_unexpected_data, w)

  abbrev pub as_seq_values : MapValues → World T → Exit T (List MapSeqValue) × World T
  as_seq_values (MapValues.seq found) w = (ok found, w)
  as_seq_values (MapValues.unseq _) w = (err CoreError.received_unexpected_data, w)

  abbrev pub as_unseq_values : MapValues → World T → Exit T (List Bytes) × World T
  as_unseq_values (MapValues.unseq found) w = (ok found, w)
  as_unseq_values (MapValues.seq _) w = (err CoreError.received_unexpected_data, w)

  abbrev pub unexpected_event : {A : Type 0} → World T → Exit T A × World T
  unexpected_event = raise CoreError.received_unexpected_event

module _ {T : Types} (X : Api T) where
  abbrev pub expect_get_unseq_map : QueryResponse T → World T → Exit T T.UnseqMap × World T
  expect_get_unseq_map (QueryResponse.get_map res) = do found ← try from_snd res; as_unseq_map found
  expect_get_unseq_map _ = unexpected_event

  unfoldable pub get_unseq_map : XorName → ℕ → Exec T (World T) T.UnseqMap
  unfolding wrap_map_read
  get_unseq_map name tag = do
    res ← send_query X (wrap_map_read (MapRead.get (MapAddress.unseq name tag)))
    expect_get_unseq_map res

  abbrev pub expect_get_seq_map_value : QueryResponse T → World T → Exit T MapSeqValue × World T
  expect_get_seq_map_value (QueryResponse.get_map_value res) = do
    found ← try from_snd res
    as_seq_value found
  expect_get_seq_map_value _ = unexpected_event

  unfoldable pub get_seq_map_value : XorName → ℕ → Bytes → Exec T (World T) MapSeqValue
  unfolding wrap_map_read
  get_seq_map_value name tag key = do
    res ← send_query X (wrap_map_read (MapRead.get_value (MapAddress.seq name tag) key))
    expect_get_seq_map_value res

  abbrev pub expect_get_unseq_map_value : QueryResponse T → World T → Exit T Bytes × World T
  expect_get_unseq_map_value (QueryResponse.get_map_value res) = do
    found ← try from_snd res
    as_unseq_value found
  expect_get_unseq_map_value _ = unexpected_event

  unfoldable pub get_unseq_map_value : XorName → ℕ → Bytes → Exec T (World T) Bytes
  unfolding wrap_map_read
  get_unseq_map_value name tag key = do
    res ← send_query X (wrap_map_read (MapRead.get_value (MapAddress.unseq name tag) key))
    expect_get_unseq_map_value res

  abbrev pub expect_get_seq_map : QueryResponse T → World T → Exit T T.SeqMap × World T
  expect_get_seq_map (QueryResponse.get_map res) = do found ← try from_snd res; as_seq_map found
  expect_get_seq_map _ = unexpected_event

  unfoldable pub get_seq_map : XorName → ℕ → Exec T (World T) T.SeqMap
  unfolding wrap_map_read
  get_seq_map name tag = do
    res ← send_query X (wrap_map_read (MapRead.get (MapAddress.seq name tag)))
    expect_get_seq_map res

  abbrev pub expect_get_seq_map_shell : QueryResponse T → World T → Exit T T.SeqMap × World T
  expect_get_seq_map_shell (QueryResponse.get_map_shell res) = do
    found ← try from_snd res
    as_seq_map found
  expect_get_seq_map_shell _ = unexpected_event

  unfoldable pub get_seq_map_shell : XorName → ℕ → Exec T (World T) T.SeqMap
  unfolding wrap_map_read
  get_seq_map_shell name tag = do
    res ← send_query X (wrap_map_read (MapRead.get_shell (MapAddress.seq name tag)))
    expect_get_seq_map_shell res

  abbrev pub expect_get_unseq_map_shell : QueryResponse T → World T → Exit T T.UnseqMap × World T
  expect_get_unseq_map_shell (QueryResponse.get_map_shell res) = do
    found ← try from_snd res
    as_unseq_map found
  expect_get_unseq_map_shell _ = unexpected_event

  unfoldable pub get_unseq_map_shell : XorName → ℕ → Exec T (World T) T.UnseqMap
  unfolding wrap_map_read
  get_unseq_map_shell name tag = do
    res ← send_query X (wrap_map_read (MapRead.get_shell (MapAddress.unseq name tag)))
    expect_get_unseq_map_shell res

  abbrev pub expect_get_map_version : QueryResponse T → World T → Exit T ℕ × World T
  expect_get_map_version (QueryResponse.get_map_version res) = try from_snd res
  expect_get_map_version _ = unexpected_event

  unfoldable pub get_map_version : MapAddress → Exec T (World T) ℕ
  unfolding wrap_map_read
  get_map_version address = do
    res ← send_query X (wrap_map_read (MapRead.get_version address))
    expect_get_map_version res

  abbrev pub expect_list_unseq_map_entries :
      QueryResponse T → World T → Exit T (List (Bytes × Bytes)) × World T
  expect_list_unseq_map_entries (QueryResponse.list_map_entries res) = do
    found ← try from_snd res
    as_unseq_entries found
  expect_list_unseq_map_entries _ = unexpected_event

  unfoldable pub list_unseq_map_entries : XorName → ℕ → Exec T (World T) (List (Bytes × Bytes))
  unfolding wrap_map_read
  list_unseq_map_entries name tag = do
    res ← send_query X (wrap_map_read (MapRead.list_entries (MapAddress.unseq name tag)))
    expect_list_unseq_map_entries res

  abbrev pub expect_list_seq_map_entries :
      QueryResponse T → World T → Exit T (List (Bytes × MapSeqValue)) × World T
  expect_list_seq_map_entries (QueryResponse.list_map_entries res) = do
    found ← try from_snd res
    as_seq_entries found
  expect_list_seq_map_entries _ = unexpected_event

  unfoldable pub list_seq_map_entries : XorName → ℕ → Exec T (World T) (List (Bytes × MapSeqValue))
  unfolding wrap_map_read
  list_seq_map_entries name tag = do
    res ← send_query X (wrap_map_read (MapRead.list_entries (MapAddress.seq name tag)))
    expect_list_seq_map_entries res

  abbrev pub expect_list_map_keys : QueryResponse T → World T → Exit T (List Bytes) × World T
  expect_list_map_keys (QueryResponse.list_map_keys res) = try from_snd res
  expect_list_map_keys _ = unexpected_event

  unfoldable pub list_map_keys : MapAddress → Exec T (World T) (List Bytes)
  unfolding wrap_map_read
  list_map_keys address = do
    res ← send_query X (wrap_map_read (MapRead.list_keys address))
    expect_list_map_keys res

  abbrev pub expect_list_seq_map_values :
      QueryResponse T → World T → Exit T (List MapSeqValue) × World T
  expect_list_seq_map_values (QueryResponse.list_map_values res) = do
    found ← try from_snd res
    as_seq_values found
  expect_list_seq_map_values _ = unexpected_event

  unfoldable pub list_seq_map_values : XorName → ℕ → Exec T (World T) (List MapSeqValue)
  unfolding wrap_map_read
  list_seq_map_values name tag = do
    res ← send_query X (wrap_map_read (MapRead.list_values (MapAddress.seq name tag)))
    expect_list_seq_map_values res

  abbrev pub expect_list_unseq_map_values :
      QueryResponse T → World T → Exit T (List Bytes) × World T
  expect_list_unseq_map_values (QueryResponse.list_map_values res) = do
    found ← try from_snd res
    as_unseq_values found
  expect_list_unseq_map_values _ = unexpected_event

  unfoldable pub list_unseq_map_values : XorName → ℕ → Exec T (World T) (List Bytes)
  unfolding wrap_map_read
  list_unseq_map_values name tag = do
    res ← send_query X (wrap_map_read (MapRead.list_values (MapAddress.unseq name tag)))
    expect_list_unseq_map_values res

  abbrev pub expect_list_map_user_permissions :
      QueryResponse T → World T → Exit T T.MapPermissionSet × World T
  expect_list_map_user_permissions (QueryResponse.list_map_user_permissions res) = try from_snd res
  expect_list_map_user_permissions _ = unexpected_event

  unfoldable pub list_map_user_permissions :
      MapAddress → T.PublicKey → Exec T (World T) T.MapPermissionSet
  unfolding wrap_map_read
  list_map_user_permissions address user = do
    res ← send_query X (wrap_map_read (MapRead.list_user_permissions address user))
    expect_list_map_user_permissions res

  abbrev pub expect_list_map_permissions :
      QueryResponse T → World T → Exit T T.MapPermissions × World T
  expect_list_map_permissions (QueryResponse.list_map_permissions res) = try from_snd res
  expect_list_map_permissions _ = unexpected_event

  unfoldable pub list_map_permissions : MapAddress → Exec T (World T) T.MapPermissions
  unfolding wrap_map_read
  list_map_permissions address = do
    res ← send_query X (wrap_map_read (MapRead.list_permissions address))
    expect_list_map_permissions res
