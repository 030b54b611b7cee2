-- ===== src/Network/Genesis/Export/Results.antt =====
-- modules/network/genesis.go: the stored results and their bitmaps through an export and a start.
use go_execution_abci.Prelude.{
  ◌≡◌, refl, Bool, true, false, Option, none, some, List, [], ◌∷◌, if◌then◌else◌, sym, ap, ◌∙◌,
  ◌==◌, inl, inr, Bool-cases, arith,
}
use go_execution_abci.Prelude.Int.{ℤ, ℤ_eq}
use go_execution_abci.Prelude.Map
use go_execution_abci.Prelude.Exec.{ok}
use go_execution_abci.Network.Bitmap.{Bytes}
use go_execution_abci.Network.Types.{AttestationBitmap, State}
use go_execution_abci.Network.Keeper.{set_attestation_bitmap}
use go_execution_abci.Network.EndBlock.{set_stored_attestation_info}
use go_execution_abci.Network.Genesis.{confirm_if, init_bitmap, init_bitmaps, export_bitmaps}
use go_execution_abci.Network.Genesis.Start.{bitmap_of, restored, confirmed_ok}

-- The collections that the results leave alone.
pub record Alike (s t : State) : Type 0 where
  pub params : t.params ≡ s.params
  pub indices : t.validator_index ≡ s.validator_index
  pub powers : t.validator_power ≡ s.validator_power
  pub attesters : t.attester_set ≡ s.attester_set
  pub votes : t.signatures ≡ s.signatures
  pub epochs : t.epoch_bitmap ≡ s.epoch_bitmap

-- The state `t` is `s` with a result under its height.
pub record Adds (ab : AttestationBitmap) (s t : State) : Type 0 where
  pub result :
      (h : ℤ)
      → Map.get t.stored_attestation_info h
        ≡ (if ab.height == h then some ab else Map.get s.stored_attestation_info h)
  pub bitmap :
      (h : ℤ)
      → Map.get t.attestation_bitmap h
        ≡ (if ab.height == h then some ab.bitmap else Map.get s.attestation_bitmap h)
  pub alike : Alike s t

twice :
    (m : Map.Map ℤ AttestationBitmap) (ab : AttestationBitmap) (h : ℤ)
    → Map.get (Map.put (Map.put m ab.height ab) ab.height ab) h
      ≡ (if ab.height == h then some ab else Map.get m h)
twice m ab h =
    ground
      (arith, Map.get-put (Map.put m ab.height ab) ab.height h ab, Map.get-put m ab.height h ab)

pub Alike-refl : (s : State) → Alike s s
Alike-refl s = record {
  params = refl;
  indices = refl;
  powers = refl;
  attesters = refl;
  votes = refl;
  epochs = refl;
}

confirm-Adds :
    (b : Bool) (ab : AttestationBitmap) (s : State)
    → ab.soft_confirmed ≡ b
    → (t : State) × (confirm_if b ab.height (restored ab s) ≡ (ok tt, t)) × Adds ab s t
unfolding set_stored_attestation_info set_attestation_bitmap
confirm-Adds true ab s e = (
  set_stored_attestation_info ab.height ab (restored ab s),
  confirmed_ok ab s
      ∙ ap
          (λ c. (
            ok tt,
            set_stored_attestation_info ab.height (record ab { soft_confirmed = c })
                (restored ab s),
          ))
          (sym e),
  record {
    result = λ h. twice s.stored_attestation_info ab h;
    bitmap = λ h. Map.get-put s.attestation_bitmap ab.height h ab.bitmap;
    alike = record {
      params = refl;
      indices = refl;
      powers = refl;
      attesters = refl;
      votes = refl;
      epochs = refl;
    };
  },
)
confirm-Adds false ab s e = (
  restored ab s,
  refl,
  record {
    result = λ h. Map.get-put s.stored_attestation_info ab.height h ab;
    bitmap = λ h. Map.get-put s.attestation_bitmap ab.height h ab.bitmap;
    alike = record {
      params = refl;
      indices = refl;
      powers = refl;
      attesters = refl;
      votes = refl;
      epochs = refl;
    };
  },
)

pub init_bitmap-Adds :
    (ab : AttestationBitmap) (s : State)
    → (t : State) × (init_bitmap ab s ≡ (ok tt, t)) × Adds ab s t
unfolding init_bitmap
init_bitmap-Adds ab s = confirm-Adds ab.soft_confirmed ab s refl

abbrev pub OwnHeight : ℤ → AttestationBitmap → Type 0
OwnHeight h ab = ab.height ≡ h

pub Alike-trans : {s t u : State} → Alike s t → Alike t u → Alike s u
Alike-trans a b = record {
  params = b.params ∙ a.params;
  indices = b.indices ∙ a.indices;
  powers = b.powers ∙ a.powers;
  attesters = b.attesters ∙ a.attesters;
  votes = b.votes ∙ a.votes;
  epochs = b.epochs ∙ a.epochs;
}

-- The results of `l` over those of `s`.
pub record Restores (l : List (ℤ × AttestationBitmap)) (s t : State) : Type 0 where
  pub results :
      (h : ℤ)
      → Map.get t.stored_attestation_info h
        ≡ Map.over (Map.get l h) (Map.get s.stored_attestation_info h)
  pub bitmaps :
      (h : ℤ)
      → Map.get t.attestation_bitmap h
        ≡ Map.over (bitmap_of (Map.get l h)) (Map.get s.attestation_bitmap h)
  pub alike : Alike s t

bitmap-over :
    (l : List (ℤ × AttestationBitmap)) (ab : AttestationBitmap) (k h : ℤ) (old new : Option Bytes)
    → Map.get l k ≡ none
    → new ≡ (if k == h then some ab.bitmap else old)
    → Map.over (bitmap_of (Map.get l h)) new ≡ Map.over (bitmap_of (Map.get ((k, ab) ∷ l) h)) old
unfolding Map.get
bitmap-over l ab k h old new fresh e = elim (Bool-cases (k == h)) [
  | inl same ↦
      let hidden : Map.get l h ≡ none = ap (Map.get l) (sym ((ℤ_eq.beq_iff k h).0 same)) ∙ fresh in
      rw (e, same, hidden) refl
  | inr other ↦ rw (e, other) refl
]

pub init_bitmaps-Restores :
    (l : List (ℤ × AttestationBitmap)) (s : State)
    → Map.IsDistinct l
    → Map.All OwnHeight l
    → (t : State) × (init_bitmaps (export_bitmaps l) s ≡ (ok tt, t)) × Restores l s t
unfolding init_bitmaps export_bitmaps
init_bitmaps-Restores [] s d own = (
  s,
  refl,
  record {
    results = λ h. unfold Map.get in refl;
    bitmaps = λ h. unfold Map.get in refl;
    alike = Alike-refl s;
  },
)
init_bitmaps-Restores ((k, ab) ∷ l) s (fresh, d) (own, rest) =
    let (t, ran, first) = init_bitmap-Adds ab s in
    let (u, went, others) = init_bitmaps-Restores l t d rest in
    (
      u,
      rw (ran, went) refl,
      record {
        results = λ h.
            others.results h
            ∙ Map.over-put s.stored_attestation_info l k h ab fresh (
                first.result h
                ∙ ap (λ j. if j == h then some ab else Map.get s.stored_attestation_info h) own);
        bitmaps = λ h.
            others.bitmaps h
            ∙ bitmap-over l ab k h (Map.get s.attestation_bitmap h) (Map.get t.attestation_bitmap h)
                fresh
                (first.bitmap h
                  ∙ ap (λ j. if j == h then some ab.bitmap else Map.get s.attestation_bitmap h)
                      own);
        alike = Alike-trans first.alike others.alike;
      },
    )
