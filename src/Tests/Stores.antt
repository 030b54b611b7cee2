-- ===== src/Tests/Stores.antt =====
-- A datastore of two saved values.
use Prim.Native.String.{◌∷◌ as cons}
use go_execution_abci.Prelude.{
  ℕ, zero, suc, String, ◌≡◌, ◌≢◌, ◌↔◌, refl, sym, ap, ◌∙◌, Bool, true, ◌&&◌, Option, none, some, [],
  arith, ◌==◌, string_eq, Eq, if◌then◌else◌, Bool-cases, inl, inr,
}
use go_execution_abci.Prelude.Map
use go_execution_abci.Prelude.Map.{Map}
use go_execution_abci.Prelude.Int.{pos, ltb_ℤ}
use go_execution_abci.Prelude.Exec.{Outcome, ok, err}
use go_execution_abci.Compat.Types.{BlockId}
use go_execution_abci.Adapter.Types.{
  Error, missing, ValidatorSet, CometState, FinalizeResponse, Store,
}
use go_execution_abci.Adapter.Store.{Datastore, Keys, Codecs, store}
use go_execution_abci.Adapter.Store.RoundTrip.{
  IsLoaded, IsDatastore, AreKeys, IsStore, store-IsStore,
}

pub data Stored : Type 0 where
  a_state : CometState → Stored
  an_id : BlockId → Stored
  a_response : FinalizeResponse → Stored

abbrev pub Key : Type 0
Key = String × String

abbrev pub key_beq : Key → Key → Bool
key_beq (a, b) (c, d) = a == c && b == d

pub key_beq_iff : (x y : Key) → (key_beq x y ≡ true) ↔ (x ≡ y)
key_beq_iff (a, b) (c, d) = (
  λ h. ground (arith, string_eq.beq_iff a c, string_eq.beq_iff b d),
  λ h.
      let first = (string_eq.beq_iff a c).1 (ap (λ k. k.0) h) in
      let second = (string_eq.beq_iff b d).1 (ap (λ k. k.1) h) in ground arith,
)

instance abbrev pub key_eq : Eq Key
key_eq = record { beq = key_beq; beq_iff = key_beq_iff }

abbrev pub unary : ℕ → String
unary zero = ""
unary (suc n) = cons "1" (unary n)

abbrev pub keys : Keys Key
keys = record {
  new_key = λ name. (name, "");
  child = λ key name. (key.0, cons "/" name);
  format_uint = unary;
  prefixed = λ prefix key. key;
}

unary_inj : (m n : ℕ) → unary m ≡ unary n → m ≡ n
unary_inj zero zero h = refl
unary_inj zero (suc n) h = cc
unary_inj (suc m) zero h = cc
unary_inj (suc m) (suc n) h = ap suc (unary_inj m n cc)

pub keys-AreKeys : AreKeys keys
keys-AreKeys = record {
  prefixed_inj = λ p a b h. h;
  format_inj = unary_inj;
  new_key-child = λ a b t h. cc (ap (λ k. k.1) h);
  child_inj = λ a b s t h. (ap (λ k. k.0) h, cc (ap (λ k. k.1) h));
}

abbrev pub present : Option Stored → Outcome Error (Option Stored)
present none = err missing
present (some v) = ok (some v)

abbrev pub memory : Datastore (Map Key Stored) Key Stored
memory = record {
  get = λ key d. present (Map.get d key);
  put = λ key v d. (ok tt, Map.put d key v);
}

skip :
    (key k : Key) (d : Map Key Stored) (v : Stored)
    → k ≢ key
    → (if key == k then some v else Map.get d k) ≡ Map.get d k
skip key k d v ne = elim (Bool-cases (key == k)) [
  | inl same ↦ absurd (ne (sym ((key_beq_iff key k).0 same)))
  | inr other ↦ rw other refl
]

memory-IsDatastore : IsDatastore memory
memory-IsDatastore = record {
  get_written =
      λ d d' key v h. ap present (sym (ap (λ r. Map.get r.1 key) h) ∙ Map.get-put_self d key v);
  get_other = λ d d' key k v h ne.
      ap present (sym (ap (λ r. Map.get r.1 k) h) ∙ Map.get-put d key k v ∙ skip key k d v ne);
}

abbrev pub state_of : Stored → Option CometState
state_of (a_state s) = some s
state_of (an_id i) = none
state_of (a_response r) = none

abbrev pub id_of : Stored → Option BlockId
id_of (a_state s) = none
id_of (an_id i) = some i
id_of (a_response r) = none

abbrev pub response_of : Stored → Option FinalizeResponse
response_of (a_state s) = none
response_of (an_id i) = none
response_of (a_response r) = some r

abbrev pub no_validators : ValidatorSet
no_validators = record { validators = []; proposer = none }

abbrev pub empty_state : CometState
empty_state = record {
  chain_id = "";
  last_block_height = pos 0;
  validators = no_validators;
  next_validators = no_validators;
  last_validators = no_validators;
  last_height_validators_changed = pos 0;
  consensus_params = record { block_max_bytes = pos 0; others = [] };
  last_height_consensus_params_changed = pos 0;
  app_hash = [];
}

-- As in CometBFT's encoding, without the last validators below height 1.
abbrev pub encoded : CometState → CometState
encoded s =
    if ltb_ℤ (pos 0) s.last_block_height then s else record s { last_validators = no_validators }

encoded-IsLoaded : (s : CometState) → IsLoaded s (encoded s)
encoded-IsLoaded s = elim (Bool-cases (ltb_ℤ (pos 0) s.last_block_height)) [
  | inl e ↦ rw e (record { but_last = refl; whole = λ _. refl })
  | inr e ↦ rw e (record { but_last = refl; whole = λ h. cc (sym e ∙ h) })
]

abbrev pub codecs : Codecs Stored
codecs = record {
  empty_state = empty_state;
  state = record { encode = λ s. some (a_state (encoded s)); decode = state_of };
  block_id = record { encode = λ i. some (an_id i); decode = id_of };
  response = record { encode = λ r. some (a_response r); decode = response_of };
}

abbrev pub memory_store : Store (Map Key Stored)
memory_store = store keys codecs memory

pub memory_store-IsStore : IsStore memory_store
memory_store-IsStore =
    store-IsStore memory memory-IsDatastore keys keys-AreKeys codecs
      (record { decode-encode = λ a bytes h. (encoded a, cc, encoded-IsLoaded a) })
      record { decode-encode = λ a bytes h. cc } record { decode-encode = λ a bytes h. cc }
