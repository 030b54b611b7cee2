-- ===== src/Manager/Updates.antt =====
-- modules/rollkitmngr/keeper/migration.go: the validator updates of a migration; TmConsPublicKey of
-- modules/rollkitmngr/types/sequencer.go.
use go_execution_abci.Prelude.{
  ℕ, ◌+◌, ◌-◌, ◌*◌, ◌/◌, min, String, Bool, false, ◌&&◌, ◌||◌, not, List, [], ◌∷◌, ◌++◌, map, leb,
  ◌==◌, nat_eq, string_eq, if◌then◌else◌, length, take, drop, keep,
}
use go_execution_abci.Prelude.Int.{ℤ, pos}
use go_execution_abci.Prelude.Exec.{Outcome, ok, err, panic, then_ok, or_err}
use go_execution_abci.Manager.Types.{
  Error, invalid_request, invalid_type, Keys, Validator, Attester, Sequencer, RollkitMigration,
  ValidatorUpdate,
}

abbrev pub ibc_smoothing_factor : ℕ
ibc_smoothing_factor = 30

-- A slice expression `xs[first:last]`, whose last bound is at most the length here.
unfoldable pub slice : {A : Type 0} → List A → ℕ → ℕ → Outcome Error (List A)
slice xs first last =
    if leb first last && leb last (length xs)
    then ok (take (last - first) (drop first xs))
    else panic

-- The part of a list that one step of migrateOver treats.
unfoldable pub step_part : {A : Type 0} → ℕ → List A → Outcome Error (List A)
step_part step xs =
    let per_step = (length xs + ibc_smoothing_factor - 1) / ibc_smoothing_factor in
    slice xs (step * per_step) (min (step * per_step + per_step) (length xs))

abbrev pub wrap : {A : Type 0} → Outcome Error A → Error → Outcome Error A
wrap (ok a) e = ok a
wrap (err cause) e = err e
wrap panic e = panic

-- A set of the source whose members are texts.
unfoldable pub contains : String → List String → Bool
contains a [] = false
contains a (b ∷ set) = a == b || contains a set

module _ (keys : Keys) where
  open keys use {Key, CmtKey}

  -- TmConsPublicKey, of sequencers and attesters.
  unfoldable pub tm_cons_public_key : Key → Outcome Error CmtKey
  tm_cons_public_key key =
      then_ok (or_err (keys.get_cached_value key) invalid_type)
        λ pk. keys.to_cmt_proto_public_key pk

  abbrev pub update : CmtKey → ℤ → ValidatorUpdate CmtKey
  update key power = record { pub_key = key; power = power }

  -- The updates that remove validators.
  unfoldable pub zero_updates : List (Validator Key) → Outcome Error (List (ValidatorUpdate CmtKey))
  zero_updates [] = ok []
  zero_updates (v ∷ rest) =
      then_ok (keys.zero_update v.consensus_pubkey)
        λ key. then_ok (zero_updates rest) λ updates. ok (update key (pos 0) ∷ updates)

  -- The updates that add attesters.
  unfoldable pub attester_updates :
      List (Attester Key) → Outcome Error (List (ValidatorUpdate CmtKey))
  attester_updates [] = ok []
  attester_updates (a ∷ rest) =
      then_ok (tm_cons_public_key a.consensus_pubkey)
        λ key. then_ok (attester_updates rest) λ updates. ok (update key (pos 1) ∷ updates)

  -- The loop of migrateToSequencer: the update is made before the sequencer is passed over.
  unfoldable pub sequencer_removals :
      Sequencer Key → List (Validator Key) → Outcome Error (List (ValidatorUpdate CmtKey))
  sequencer_removals seq [] = ok []
  sequencer_removals seq (v ∷ rest) = then_ok (keys.zero_update v.consensus_pubkey) λ key.
      then_ok (sequencer_removals seq rest) λ updates. ok (
        if keys.equal v.consensus_pubkey seq.consensus_pubkey
        then updates
        else update key (pos 0) ∷ updates)

  unfoldable pub migrate_to_sequencer :
      RollkitMigration Key → List (Validator Key) → Outcome Error (List (ValidatorUpdate CmtKey))
  migrate_to_sequencer migration validators =
      then_ok (tm_cons_public_key migration.sequencer.consensus_pubkey) λ pk.
        then_ok (sequencer_removals migration.sequencer validators)
          λ updates. ok (updates ++ (update pk (pos 1) ∷ []))

  abbrev pub attester_strings : RollkitMigration Key → List String
  attester_strings migration = map (λ a. keys.key_string a.consensus_pubkey) migration.attesters

  -- The validators that the migration removes, and the attesters that it adds.
  abbrev pub leaving : RollkitMigration Key → List (Validator Key) → List (Validator Key)
  leaving migration validators =
      keep (λ v. not (contains (keys.key_string v.consensus_pubkey) (attester_strings migration)))
        validators

  abbrev pub arriving : RollkitMigration Key → List (Validator Key) → List (Attester Key)
  arriving migration validators =
      keep
        (λ a. not (
          contains (keys.key_string a.consensus_pubkey)
            (map (λ v. keys.key_string v.consensus_pubkey) validators)))
        migration.attesters

  unfoldable pub migrate_to_attesters :
      RollkitMigration Key → List (Validator Key) → Outcome Error (List (ValidatorUpdate CmtKey))
  migrate_to_attesters migration validators =
      then_ok (zero_updates (leaving migration validators))
        λ removed. then_ok (attester_updates migration.attesters) λ added. ok (removed ++ added)

  abbrev pub final_updates :
      RollkitMigration Key → List (Validator Key) → Outcome Error (List (ValidatorUpdate CmtKey))
  final_updates migration validators = elim migration.attesters [
    | [] ↦ migrate_to_sequencer migration validators
    | a ∷ rest ↦ migrate_to_attesters migration validators
  ]

  -- The validators other than the sequencer.
  abbrev pub others : Sequencer Key → List (Validator Key) → List (Validator Key)
  others seq validators =
      keep (λ v. not (keys.equal v.consensus_pubkey seq.consensus_pubkey)) validators

  -- The switch of migrateOver.
  unfoldable pub step_updates :
      ℕ
      → RollkitMigration Key
      → List (Validator Key)
      → Outcome Error (List (ValidatorUpdate CmtKey))
  step_updates step migration validators = elim migration.attesters [
    | [] ↦
        then_ok (step_part step (others migration.sequencer validators))
          λ removed. zero_updates removed
    | a ∷ rest ↦ then_ok (step_part step (leaving migration validators)) λ removed.
        then_ok (zero_updates removed) λ removals.
          then_ok (step_part step (arriving migration validators)) λ added.
            then_ok (wrap (attester_updates added) invalid_request)
              λ additions. ok (removals ++ additions)
  ]

  -- The loop of the first step that sets the power of the validators without an update to 1.
  unfoldable pub equal_powers :
      List String → List (Validator Key) → Outcome Error (List (ValidatorUpdate CmtKey))
  equal_powers existing [] = ok []
  equal_powers existing (v ∷ rest) =
      then_ok (wrap (keys.cmt_cons_public_key v.consensus_pubkey) invalid_request) λ key.
        then_ok (equal_powers existing rest) λ updates. ok (
          if contains (keys.cmt_key_string key) existing
          then updates
          else update key (pos 1) ∷ updates)

  abbrev pub with_equal_powers :
      ℕ
      → List (Validator Key)
      → List (ValidatorUpdate CmtKey)
      → Outcome Error (List (ValidatorUpdate CmtKey))
  with_equal_powers step validators updates =
      if step == 0
      then (then_ok (equal_powers (map (λ u. keys.cmt_key_string u.pub_key) updates) validators)
          λ more. ok (updates ++ more))
      else ok updates
