-- ===== src/Network/Genesis/Start.antt =====
-- The state that a genesis state gives.
use go_execution_abci.Prelude.{
  ◌%◌, ◌≡◌, refl, ap, ◌∙◌, String, Bool, string_eq, true, false, Option, none, some, List, [], ◌∷◌,
  arith, ◌⊎◌, inl, inr,
}
use go_execution_abci.Prelude.Int.{ℤ, ℤ_eq, u16_mod}
use go_execution_abci.Prelude.Map
use go_execution_abci.Prelude.Exec.{ok}
use go_execution_abci.Network.Bitmap.{Bytes}
use go_execution_abci.Network.Types.{AttestationBitmap, ValidatorIndex, GenesisState, State}
use go_execution_abci.Network.Keeper.{
  set_params, set_validator_index, set_attester_set_member, set_attestation_bitmap,
  get_attestation_bitmap, is_in_attester_set,
}
use go_execution_abci.Network.EndBlock.{set_stored_attestation_info}
use go_execution_abci.Network.Genesis.{
  set_soft_confirmed, confirm_if, init_validators, init_bitmap, init_bitmaps, init_genesis,
}

-- The bitmap of the stored result of a height.
abbrev pub bitmap_of : Option AttestationBitmap → Option Bytes
bitmap_of none = none
bitmap_of (some ab) = some ab.bitmap

-- Each height has a bitmap exactly if it has a result, which holds this bitmap.
abbrev pub IsMatched : State → Type 0
IsMatched s = (h : ℤ) → get_attestation_bitmap s h ≡ bitmap_of (Map.get s.stored_attestation_info h)

abbrev pub restored : AttestationBitmap → State → State
restored ab s =
    set_stored_attestation_info ab.height ab (set_attestation_bitmap ab.height ab.bitmap s)

restored-IsMatched : (ab : AttestationBitmap) (s : State) → IsMatched s → IsMatched (restored ab s)
unfolding set_stored_attestation_info set_attestation_bitmap get_attestation_bitmap
restored-IsMatched ab s m h = ground (
  arith,
  Map.get-put s.attestation_bitmap ab.height h ab.bitmap,
  Map.get-put s.stored_attestation_info ab.height h ab,
  m h,
)

pub confirmed_ok :
    (ab : AttestationBitmap) (s : State)
    → set_soft_confirmed ab.height (restored ab s) ≡ (
      ok tt,
      set_stored_attestation_info ab.height (record ab { soft_confirmed = true }) (restored ab s),
    )
unfolding set_soft_confirmed set_stored_attestation_info set_attestation_bitmap
confirmed_ok ab s = rw (Map.get-put_self s.stored_attestation_info ab.height ab) refl

again-IsMatched :
    (ab : AttestationBitmap) (s : State)
    → IsMatched (restored ab s)
    → IsMatched (
        set_stored_attestation_info ab.height (record ab { soft_confirmed = true }) (restored ab s))
unfolding set_stored_attestation_info set_attestation_bitmap get_attestation_bitmap
again-IsMatched ab s m h = ground (
  arith,
  Map.get-put s.attestation_bitmap ab.height h ab.bitmap,
  Map.get-put s.stored_attestation_info ab.height h ab,
  Map.get-put (Map.put s.stored_attestation_info ab.height ab) ab.height h
      (record ab { soft_confirmed = true }),
  m h,
)

confirm_ok :
    (b : Bool) (ab : AttestationBitmap) (s : State)
    → IsMatched s
    → (s' : State) × (confirm_if b ab.height (restored ab s) ≡ (ok tt, s'))
      × IsMatched s'
      × (s'.params ≡ s.params)
      × (s'.attester_set ≡ s.attester_set)
confirm_ok true ab s m = (
  set_stored_attestation_info ab.height (record ab { soft_confirmed = true }) (restored ab s),
  confirmed_ok ab s,
  again-IsMatched ab s (restored-IsMatched ab s m),
  (unfold set_stored_attestation_info set_attestation_bitmap in refl),
  unfold set_stored_attestation_info set_attestation_bitmap in refl,
)
confirm_ok false ab s m = (
  restored ab s,
  refl,
  restored-IsMatched ab s m,
  (unfold set_stored_attestation_info set_attestation_bitmap in refl),
  unfold set_stored_attestation_info set_attestation_bitmap in refl,
)

init_bitmap_ok :
    (ab : AttestationBitmap) (s : State)
    → IsMatched s
    → (s' : State) × (init_bitmap ab s ≡ (ok tt, s'))
      × IsMatched s'
      × (s'.params ≡ s.params)
      × (s'.attester_set ≡ s.attester_set)
unfolding init_bitmap
init_bitmap_ok ab s m = confirm_ok ab.soft_confirmed ab s m

init_bitmaps_ok :
    (abs : List AttestationBitmap) (s : State)
    → IsMatched s
    → (s' : State) × (init_bitmaps abs s ≡ (ok tt, s'))
      × IsMatched s'
      × (s'.params ≡ s.params)
      × (s'.attester_set ≡ s.attester_set)
unfolding init_bitmaps
init_bitmaps_ok [] s m = (s, refl, m, refl, refl)
init_bitmaps_ok (ab ∷ abs) s m =
    let (t, ran, matched, same, members) = init_bitmap_ok ab s m in
    let (s', rest, all, still, kept) = init_bitmaps_ok abs t matched in
    (s', rw (ran, rest) refl, all, still ∙ same, kept ∙ members)

-- The address is one of the validator indices.
abbrev pub IsListed : String → List ValidatorIndex → Type 0
IsListed a [] = ⊥
IsListed a (vi ∷ rest) = (vi.address ≡ a) ⊎ IsListed a rest

added :
    (vi : ValidatorIndex) (s : State) (a : String)
    → (vi.address ≡ a) ⊎ (is_in_attester_set s a ≡ true)
    → is_in_attester_set
        (set_attester_set_member vi.address
          (set_validator_index vi.address (vi.index % u16_mod) vi.power s))
        a
      ≡ true
unfolding is_in_attester_set set_attester_set_member set_validator_index Map.has
added vi s a h =
    ground (arith, Map.get-put s.attester_set vi.address a tt, string_eq.beq_iff vi.address a)

one_more :
    (vi : ValidatorIndex) (vis : List ValidatorIndex) (s : State) (a : String)
    → IsListed a (vi ∷ vis) ⊎ (is_in_attester_set s a ≡ true)
    → IsListed a vis
      ⊎ (is_in_attester_set
            (set_attester_set_member vi.address
              (set_validator_index vi.address (vi.index % u16_mod) vi.power s))
            a
          ≡ true)
one_more vi vis s a (inl (inl e)) = inr (added vi s a (inl e))
one_more vi vis s a (inl (inr l)) = inl l
one_more vi vis s a (inr m) = inr (added vi s a (inr m))

init_validators-members :
    (vis : List ValidatorIndex) (s : State) (a : String)
    → IsListed a vis ⊎ (is_in_attester_set s a ≡ true)
    → is_in_attester_set (init_validators vis s) a ≡ true
unfolding init_validators
init_validators-members [] s a (inl x) = elim x [ ]
init_validators-members [] s a (inr h) = h
init_validators-members (vi ∷ vis) s a h =
    init_validators-members vis
      (set_attester_set_member vi.address
        (set_validator_index vi.address (vi.index % u16_mod) vi.power s))
      a (one_more vi vis s a h)

empty-IsMatched :
    (s : State) → s.attestation_bitmap ≡ [] → s.stored_attestation_info ≡ [] → IsMatched s
unfolding get_attestation_bitmap
empty-IsMatched s bitmaps results h = rw (bitmaps, results, Map.get-nil h) (unfold Map.get in refl)

same_members :
    (s t : State) (a : String)
    → t.attester_set ≡ s.attester_set
    → is_in_attester_set t a ≡ is_in_attester_set s a
unfolding is_in_attester_set
same_members s t a e = ap (λ m. Map.has m a) e

pub init_validators_frame :
    (vis : List ValidatorIndex) (s : State)
    → ((init_validators vis s).params ≡ s.params)
      × ((init_validators vis s).attestation_bitmap ≡ s.attestation_bitmap)
      × ((init_validators vis s).stored_attestation_info ≡ s.stored_attestation_info)
      × ((init_validators vis s).signatures ≡ s.signatures)
      × ((init_validators vis s).epoch_bitmap ≡ s.epoch_bitmap)
unfolding init_validators set_attester_set_member set_validator_index
init_validators_frame [] s = (refl, refl, refl, refl, refl)
init_validators_frame (vi ∷ vis) s = init_validators_frame vis (
    set_attester_set_member vi.address
      (set_validator_index vi.address (vi.index % u16_mod) vi.power s))

-- InitGenesis succeeds on a state without bitmaps and results, whether the genesis state is valid or
-- not: the parameters are those given, each validator of the indices is in the attester set, and each
-- height has a bitmap exactly if it has a result, which holds this bitmap.
pub init_genesis_lem :
    (gs : GenesisState) (s : State)
    → s.attestation_bitmap ≡ []
    → s.stored_attestation_info ≡ []
    → (s' : State) × (init_genesis gs s ≡ (ok tt, s'))
      × (s'.params ≡ some gs.params)
      × ((a : String) → IsListed a gs.validator_indices → is_in_attester_set s' a ≡ true)
      × IsMatched s'
unfolding init_genesis
init_genesis_lem gs s no_bitmaps no_results =
    let t : State = init_validators gs.validator_indices (set_params gs.params s) in
    let (same, bitmaps, results, _, _) =
      init_validators_frame gs.validator_indices (set_params gs.params s) in
    let (s', ran, matched, still, kept) = init_bitmaps_ok gs.attestation_bitmaps t (
      empty-IsMatched t (bitmaps ∙ (unfold set_params in no_bitmaps))
        (results ∙ (unfold set_params in no_results))) in
    (
      s',
      ran,
      still ∙ same ∙ (unfold set_params in refl),
      λ a l.
          same_members t s' a kept
          ∙ init_validators-members gs.validator_indices (set_params gs.params s) a (inl l),
      matched,
    )
