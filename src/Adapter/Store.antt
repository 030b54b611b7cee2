-- ===== src/Adapter/Store.antt =====
-- pkg/store/store.go: the state, block ids and block responses in a datastore. The datastore of
-- github.com/ipfs/go-datastore, its keys, and the encodings of protobuf are parameters.
pub mod RoundTrip
use go_execution_abci.Prelude.{ℕ, String, Option, none, some}
use go_execution_abci.Prelude.Exec.{Outcome, ok, err, Exec, then_ok, or_err, reads, ◌>>=◌, ◌>>◌}
use go_execution_abci.Compat.Types.{BlockId}
use go_execution_abci.Adapter.Types.{
  Error, missing, marshal, unmarshal, not_found, CometState, FinalizeResponse, Store,
}

pub record Datastore (D Key V : Type 0) : Type 0 where
  pub get : Key → D → Outcome Error (Option V)
  pub put : Key → V → Exec Error D (Unit {0})

-- ds.NewKey, ChildString, strconv.FormatUint to base 10, and the transform of keys by a prefix.
pub record Keys (Key : Type 0) : Type 0 where
  pub new_key : String → Key
  pub child : Key → String → Key
  pub format_uint : ℕ → String
  pub prefixed : Key → Key → Key

-- ToProto and proto.Marshal; proto.Unmarshal and FromProto. V is the type of what is stored, the bytes.
pub record Codec (A V : Type 0) : Type 0 where
  pub encode : A → Option V
  pub decode : V → Option A

-- The empty state of CometBFT, and the codecs.
pub record Codecs (V : Type 0) : Type 0 where
  pub empty_state : CometState
  pub state : Codec CometState V
  pub block_id : Codec BlockId V
  pub response : Codec FinalizeResponse V

abbrev pub key_prefix : String
key_prefix = "abci"

abbrev pub state_key : String
state_key = "s"

abbrev pub block_response_key : String
block_response_key = "br"

abbrev pub block_id_key : String
block_id_key = "bid"

-- What a codec writes under a key, and reads of what stands there.
abbrev pub put_encoded :
    {D Key V A : Type 0} → Datastore D Key V → Codec A V → Key → A → Exec Error D (Unit {0})
put_encoded db codec key a = do
  data' ← reads (λ _. or_err (codec.encode a) marshal)
  db.put key data'

abbrev pub decoded : {A V : Type 0} → Codec A V → V → Outcome Error A
decoded codec bytes = or_err (codec.decode bytes) unmarshal

abbrev pub found : {A V : Type 0} → Codec A V → Option V → Outcome Error A
found codec none = err not_found
found codec (some bytes) = decoded codec bytes

abbrev pub or_empty : {V : Type 0} → Codecs V → Option V → Outcome Error CometState
or_empty codecs none = ok codecs.empty_state
or_empty codecs (some bytes) = decoded codecs.state bytes

module _ {Key : Type 0} (keys : Keys Key) where
  unfoldable pub abci_key : Key → Key
  abci_key key = keys.prefixed (keys.new_key key_prefix) key

  -- NewExecABCIStore: the datastore under the keys with the prefix.
  unfoldable pub new_exec_abci_store : {D V : Type 0} → Datastore D Key V → Datastore D Key V
  unfolding abci_key
  new_exec_abci_store db = record {
    get = λ key. db.get (abci_key key);
    put = λ key. db.put (abci_key key);
  }

  -- The key of a height.
  unfoldable pub height_key : String → ℕ → Key
  height_key name height = keys.child (keys.new_key name) (keys.format_uint height)

module _ {D Key V : Type 0} (keys : Keys Key) (codecs : Codecs V) (db : Datastore D Key V) where
  unfoldable pub load_state : D → Outcome Error CometState
  load_state d = then_ok (db.get (keys.new_key state_key) d) (or_empty codecs)

  unfoldable pub save_state : CometState → Exec Error D (Unit {0})
  save_state state = put_encoded db codecs.state (keys.new_key state_key) state

  unfoldable pub save_block_id : ℕ → BlockId → Exec Error D (Unit {0})
  unfolding height_key
  save_block_id height id = put_encoded db codecs.block_id (height_key keys block_id_key height) id

  unfoldable pub get_block_id : ℕ → D → Outcome Error BlockId
  unfolding height_key
  get_block_id height d =
      then_ok (db.get (height_key keys block_id_key height) d) (found codecs.block_id)

  unfoldable pub save_block_response : ℕ → FinalizeResponse → Exec Error D (Unit {0})
  unfolding height_key
  save_block_response height response =
      put_encoded db codecs.response (height_key keys block_response_key height) response

  unfoldable pub get_block_response : ℕ → D → Outcome Error FinalizeResponse
  unfolding height_key
  get_block_response height d =
      then_ok (db.get (height_key keys block_response_key height) d) (found codecs.response)

  unfoldable pub store : Store D
  unfolding load_state save_state get_block_id save_block_id get_block_response save_block_response
  store = record {
    load_state = load_state;
    save_state = save_state;
    get_block_id = get_block_id;
    save_block_id = save_block_id;
    get_block_response = get_block_response;
    save_block_response = save_block_response;
  }
