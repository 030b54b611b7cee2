-- ===== src/Adapter/Store/RoundTrip.antt =====
-- pkg/store/store.go: what is saved is loaded again, until it is overwritten.
use go_execution_abci.Prelude.Int.{pos, ltb_ℤ}
use go_execution_abci.Prelude.{ℕ, String, true, ◌≡◌, ◌≢◌, refl, sym, ap, Option, some}
use go_execution_abci.Prelude.Exec.{Outcome, ok, err, then_ok, or_err, continue-eq-ok, or_err-eq-ok}
use go_execution_abci.Compat.Types.{BlockId}
use go_execution_abci.Adapter.Types.{Error, missing, marshal, CometState, FinalizeResponse, Store}
use go_execution_abci.Adapter.Store.{
  Datastore, Keys, Codec, Codecs, key_prefix, state_key, block_response_key, block_id_key,
  put_encoded, found, or_empty, abci_key, new_exec_abci_store, height_key, load_state, save_state,
  save_block_id, get_block_id, save_block_response, get_block_response, store,
}

-- A write that succeeds is read, and changes no other key; a key that is not there is an error.
pub record IsDatastore {D Key V : Type 0} (db : Datastore D Key V) : Type 0 where
  pub get_written :
      (d d' : D) (key : Key) (v : V) → db.put key v d ≡ (ok tt, d') → db.get key d' ≡ ok (some v)
  pub get_other :
      (d d' : D) (key k : Key) (v : V)
      → db.put key v d ≡ (ok tt, d')
      → k ≢ key
      → db.get k d' ≡ db.get k d

-- Keys of different names or of different numbers differ.
pub record AreKeys {Key : Type 0} (keys : Keys Key) : Type 0 where
  pub prefixed_inj : (p a b : Key) → keys.prefixed p a ≡ keys.prefixed p b → a ≡ b
  pub format_inj : (m n : ℕ) → keys.format_uint m ≡ keys.format_uint n → m ≡ n
  pub new_key-child : (a b t : String) → keys.new_key a ≢ keys.child (keys.new_key b) t
  pub child_inj :
      (a b s t : String)
      → keys.child (keys.new_key a) s ≡ keys.child (keys.new_key b) t
      → (a ≡ b) × (s ≡ t)

pub record IsCodec {A V : Type 0} (codec : Codec A V) : Type 0 where
  pub decode-encode :
      (a : A) (bytes : V) → codec.encode a ≡ some bytes → codec.decode bytes ≡ some a

-- What a stored state is loaded as: CometBFT's encoding keeps the last validators from height 1 on.
pub record IsLoaded (state t : CometState) : Type 0 where
  pub but_last : t ≡ record state { last_validators = t.last_validators }
  pub whole : ltb_ℤ (pos 0) state.last_block_height ≡ true → t ≡ state

pub record IsStateCodec {V : Type 0} (codec : Codec CometState V) : Type 0 where
  pub decode-encode :
      (state : CometState) (bytes : V)
      → codec.encode state ≡ some bytes
      → (t : CometState) × (codec.decode bytes ≡ some t) × IsLoaded state t

-- What the adapter relies on: each of the three saves, when it succeeds, is what is loaded after it, and
-- leaves the two other kinds of values and the values of other heights.
pub record IsStore {D : Type 0} (s : Store D) : Type 0 where
  pub load-save_state :
      (d d' : D) (state : CometState)
      → s.save_state state d ≡ (ok tt, d')
      → (t : CometState) × (s.load_state d' ≡ ok t) × IsLoaded state t
  pub get-save_block_id :
      (d d' : D) (height : ℕ) (id : BlockId)
      → s.save_block_id height id d ≡ (ok tt, d')
      → s.get_block_id height d' ≡ ok id
  pub get-save_block_response :
      (d d' : D) (height : ℕ) (response : FinalizeResponse)
      → s.save_block_response height response d ≡ (ok tt, d')
      → s.get_block_response height d' ≡ ok response
  pub save_state-frame :
      (d d' : D) (state : CometState) (h : ℕ)
      → s.save_state state d ≡ (ok tt, d')
      → (s.get_block_id h d' ≡ s.get_block_id h d)
        × (s.get_block_response h d' ≡ s.get_block_response h d)
  pub save_block_id-frame :
      (d d' : D) (height : ℕ) (id : BlockId) (h : ℕ)
      → s.save_block_id height id d ≡ (ok tt, d')
      → (s.load_state d' ≡ s.load_state d)
        × (h ≢ height → s.get_block_id h d' ≡ s.get_block_id h d)
        × (s.get_block_response h d' ≡ s.get_block_response h d)
  pub save_block_response-frame :
      (d d' : D) (height : ℕ) (response : FinalizeResponse) (h : ℕ)
      → s.save_block_response height response d ≡ (ok tt, d')
      → (s.load_state d' ≡ s.load_state d)
        × (s.get_block_id h d' ≡ s.get_block_id h d)
        × (h ≢ height → s.get_block_response h d' ≡ s.get_block_response h d)

-- A datastore under keys with a prefix is a datastore.
pub new_exec_abci_store-IsDatastore :
    {D Key V : Type 0} (keys : Keys Key) (db : Datastore D Key V)
    → AreKeys keys
    → IsDatastore db
    → IsDatastore (new_exec_abci_store keys db)
unfolding new_exec_abci_store abci_key
new_exec_abci_store-IsDatastore keys db distinct law = record {
  get_written = λ d d' key v h. law.get_written d d' (abci_key keys key) v h;
  get_other = λ d d' key k v h ne.
      law.get_other d d' (abci_key keys key) (abci_key keys k) v h
        (λ e. ne (distinct.prefixed_inj (keys.new_key key_prefix) k key e));
}

module _ {D Key V : Type 0} (db : Datastore D Key V) (law : IsDatastore db) where
  -- What a save that succeeded wrote.
  put_encoded-get :
      {A : Type 0} (codec : Codec A V) (key : Key) (a : A) (d d' : D)
      → put_encoded db codec key a d ≡ (ok tt, d')
      → (bytes : V) × (codec.encode a ≡ some bytes)
        × (db.get key d' ≡ ok (some bytes))
        × ((k : Key) → k ≢ key → db.get k d' ≡ db.get k d)
  put_encoded-get codec key a d d' h =
      let (bytes, encoded, put) =
        continue-eq-ok (or_err (codec.encode a) marshal) d (λ bytes. db.put key bytes) h in
      (
        bytes,
        or_err-eq-ok (codec.encode a) marshal encoded,
        law.get_written d d' key bytes put,
        λ k ne. law.get_other d d' key k bytes put ne,
      )

  put_encoded-found :
      {A : Type 0} (codec : Codec A V) (key : Key) (a : A) (d d' : D)
      → IsCodec codec
      → put_encoded db codec key a d ≡ (ok tt, d')
      → then_ok (db.get key d') (found codec) ≡ ok a
  put_encoded-found codec key a d d' round_trip h =
      let (bytes, enc, got, same) = put_encoded-get codec key a d d' h in
      rw (got, round_trip.decode-encode a bytes enc) refl

  -- Of another key the same is read.
  put_encoded-same :
      {A B : Type 0} (codec : Codec A V) (key k : Key) (a : A) (d d' : D)
      (f : Option V → Outcome Error B)
      → put_encoded db codec key a d ≡ (ok tt, d')
      → k ≢ key
      → then_ok (db.get k d') f ≡ then_ok (db.get k d) f
  put_encoded-same codec key k a d d' f h ne =
      let (bytes, enc, got, same) = put_encoded-get codec key a d d' h in
      ap (λ o. then_ok o f) (same k ne)

  module _ (keys : Keys Key) (distinct : AreKeys keys) where
    height_key-state : (name : String) (h : ℕ) → height_key keys name h ≢ keys.new_key state_key
    unfolding height_key
    height_key-state name h e = distinct.new_key-child state_key name (keys.format_uint h) (sym e)

    height_key-name : (a b : String) (m n : ℕ) → a ≢ b → height_key keys a m ≢ height_key keys b n
    unfolding height_key
    height_key-name a b m n ne e =
        ne (distinct.child_inj a b (keys.format_uint m) (keys.format_uint n) e).0

    height_key-height :
        (name : String) (m n : ℕ) → m ≢ n → height_key keys name m ≢ height_key keys name n
    unfolding height_key
    height_key-height name m n ne e = ne (
        distinct.format_inj m n
          (distinct.child_inj name name (keys.format_uint m) (keys.format_uint n) e).1)

    names_differ : block_id_key ≢ block_response_key
    names_differ = cc

    pub store-IsStore :
        (codecs : Codecs V)
        → IsStateCodec codecs.state
        → IsCodec codecs.block_id
        → IsCodec codecs.response
        → IsStore (store keys codecs db)
    unfolding store load_state save_state save_block_id get_block_id save_block_response
        get_block_response
    store-IsStore codecs states ids responses = record {
      load-save_state = λ d d' state h.
          let (bytes, enc, got, same) =
            put_encoded-get codecs.state (keys.new_key state_key) state d d' h in
          let (t, dec, loaded) = states.decode-encode state bytes enc in
          (t, rw (got, dec) refl, loaded);
      get-save_block_id = λ d d' height id h.
          put_encoded-found codecs.block_id (height_key keys block_id_key height) id d d' ids h;
      get-save_block_response = λ d d' height response h.
          put_encoded-found codecs.response (height_key keys block_response_key height) response d
            d' responses h;
      save_state-frame = λ d d' state i h. (
        put_encoded-same codecs.state (keys.new_key state_key) (height_key keys block_id_key i)
            state d d' (found codecs.block_id) h (height_key-state block_id_key i),
        put_encoded-same codecs.state (keys.new_key state_key)
            (height_key keys block_response_key i) state d d' (found codecs.response) h
            (height_key-state block_response_key i),
      );
      save_block_id-frame = λ d d' height id i h. (
        put_encoded-same codecs.block_id (height_key keys block_id_key height)
            (keys.new_key state_key) id d d' (or_empty codecs) h
            (λ e. height_key-state block_id_key height (sym e)),
        λ ne.
            put_encoded-same codecs.block_id (height_key keys block_id_key height)
              (height_key keys block_id_key i) id d d' (found codecs.block_id) h
              (height_key-height block_id_key i height ne),
        put_encoded-same codecs.block_id (height_key keys block_id_key height)
            (height_key keys block_response_key i) id d d' (found codecs.response) h
            (height_key-name block_response_key block_id_key i height (λ e. names_differ (sym e))),
      );
      save_block_response-frame = λ d d' height response i h. (
        put_encoded-same codecs.response (height_key keys block_response_key height)
            (keys.new_key state_key) response d d' (or_empty codecs) h
            (λ e. height_key-state block_response_key height (sym e)),
        put_encoded-same codecs.response (height_key keys block_response_key height)
            (height_key keys block_id_key i) response d d' (found codecs.block_id) h
            (height_key-name block_id_key block_response_key i height names_differ),
        λ ne.
            put_encoded-same codecs.response (height_key keys block_response_key height)
              (height_key keys block_response_key i) response d d' (found codecs.response) h
              (height_key-height block_response_key i height ne),
      );
    }

-- On a datastore that answers a missing key with an error, LoadState without a stored state returns that
-- error, not an empty state.
pub load_state-missing :
    {D Key V : Type 0} (keys : Keys Key) (codecs : Codecs V) (db : Datastore D Key V) (d : D)
    → db.get (keys.new_key state_key) d ≡ err missing
    → load_state keys codecs db d ≡ err missing
unfolding load_state
load_state-missing keys codecs db d h = rw h refl
