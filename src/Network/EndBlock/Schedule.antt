-- ===== src/Network/EndBlock/Schedule.antt =====
-- At which heights the module acts at the end of a block.
use native.Mathlib.Nat.{mod-lt}
use go_execution_abci.Prelude.{
  ℕ, ◌+◌, ◌/◌, ◌%◌, ◌<◌, ◌≡◌, refl, ◌∙◌, true, false, none, some, arith, ◌==◌, nat_eq,
  if◌then◌else◌, Bool-cases, inl, inr,
}
use go_execution_abci.Prelude.Int.{ℤ, pos, ◌+ℤ◌, to_u64_pos, u64_mod}
use go_execution_abci.Prelude.Exec.{
  Outcome, ok, err, panic, Exec, continue, ◌>>=◌, ◌>>◌, pure, reads,
}
use go_execution_abci.Network.Types.{Error, Params, Env, State}
use go_execution_abci.Network.Keeper.{get_params, get_current_epoch, is_checkpoint_height}
use go_execution_abci.Network.MsgServer.{emit_event}
use go_execution_abci.Network.EndBlock.{
  checkpoint_bitmap, set_stored_attestation_info, process_checkpoint, process_epoch_end, next_epoch,
  end_blocker,
}

epoch_steps :
    (n l : ℕ) → 0 < l → (n / l == (n + 1) / l) ≡ (if (n + 1) % l == 0 then false else true)
epoch_steps n l h = grind (arith, mod-lt)

pub process_checkpoint-params :
    (env : Env) (h : ℤ) (s : State) → (process_checkpoint env h s).1.params ≡ s.params
unfolding process_checkpoint checkpoint_bitmap set_stored_attestation_info emit_event
process_checkpoint-params env h s = ground arith

epoch_of :
    (s : State) (n l : ℕ)
    → (get_params s).epoch_length ≡ l
    → 0 < l
    → n < u64_mod
    → get_current_epoch (pos n) s ≡ ok (n / l)
unfolding get_current_epoch
epoch_of s n l e h fits = ground (arith, to_u64_pos n fits)

-- The two parts of the work at the end of block n.
abbrev pub scheduled : Env → ℕ → ℕ → Exec Error State (Unit {0})
scheduled env n l = do
  if n % l == 0 then process_checkpoint env (pos n) else pure tt
  if (n + 1) % l == 0 then process_epoch_end env (n / l) else pure tt

after_checkpoint :
    (env : Env) (n l : ℕ) (s t : State) (r : Outcome Error (Unit {0}))
    → (get_params t).epoch_length ≡ l
    → 0 < l
    → n + 1 < u64_mod
    → continue r t (λ _. (do
      epoch ← reads (get_current_epoch (pos n))
      next ← reads (next_epoch (pos n))
      if epoch == next then pure tt else process_epoch_end env epoch))
      ≡ continue r t (λ _. if (n + 1) % l == 0 then process_epoch_end env (n / l) else pure tt)
unfolding next_epoch ◌+ℤ◌
after_checkpoint env n l s t (ok u) e h fits =
    ground
      (arith, epoch_of t n l e h (omega arith), epoch_of t (n + 1) l e h fits, epoch_steps n l h)
after_checkpoint env n l s t (err x) e h fits = refl
after_checkpoint env n l s t panic e h fits = refl

is_checkpoint_lem :
    (s : State) (n : ℕ) (p : Params)
    → s.params ≡ some p
    → 0 < p.epoch_length
    → n < u64_mod
    → is_checkpoint_height (pos n) s ≡ ok (n % p.epoch_length == 0)
unfolding is_checkpoint_height
is_checkpoint_lem s n p e h fits = ground (arith, to_u64_pos n fits)

stored_length :
    (s : State) (p : Params) → s.params ≡ some p → (get_params s).epoch_length ≡ p.epoch_length
unfolding get_params
stored_length s p e = ground arith

-- With parameters stored, of epoch length l > 0, the end of block n processes the checkpoint of n if l
-- divides n, and then, unless that failed, ends epoch n / l if l divides n + 1; it does nothing else, and
-- in particular never divides by zero.
pub end_blocker_schedule :
    (env : Env) (n : ℕ) (s : State) (p : Params)
    → s.params ≡ some p
    → 0 < p.epoch_length
    → n + 1 < u64_mod
    → end_blocker env (pos n) s ≡ scheduled env n p.epoch_length s
unfolding end_blocker
end_blocker_schedule env n s p e h fits =
    rw (is_checkpoint_lem s n p e h (omega arith)) (elim (Bool-cases (n % p.epoch_length == 0)) [
      | inl due ↦ rw due (
          after_checkpoint env n p.epoch_length s (process_checkpoint env (pos n) s).1
            (process_checkpoint env (pos n) s).0
            (stored_length _ p (process_checkpoint-params env (pos n) s ∙ e)) h fits)
      | inr free ↦
          rw free (after_checkpoint env n p.epoch_length s s (ok tt) (stored_length s p e) h fits)
    ])

-- Without parameters the end of a block panics: the epoch length is zero.
end_blocker_unset :
    (env : Env) (height : ℤ) (s : State) → s.params ≡ none → end_blocker env height s ≡ (panic, s)
unfolding end_blocker is_checkpoint_height get_current_epoch
end_blocker_unset env height s e = ground arith
