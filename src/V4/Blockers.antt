-- ===== src/V4/Blockers.antt =====
-- Which pools are open for execution.
use funi.Common.{
  ℕ, ◌≤◌, ◌≡◌, refl, false, not, ◌&&◌, List, [], ◌∷◌, none, arith, lower, text_eq, leb, Bool-cases,
  inl, inr,
}
use native.Mathlib.Nat.{div-eq_of_lt}
use funi.V4.Pool.{
  Blocker, unique, PoolState, v4_execution_blockers, max_execution_static_fee_pips, is_empty,
  exceeds, zero_address, decode_v4_fee, hook_blockers_of, has_dynamic_flag,
}

-- A fee that is small enough is static.
small_is_static : (fee : ℕ) → fee ≤ 50000 → has_dynamic_flag fee ≡ false
small_is_static fee h = rw (div-eq_of_lt {n = fee} {m = 8388608} (omega arith)) refl

unique_empty : (bs : List Blocker) → is_empty (unique bs) ≡ is_empty bs
unique_empty [] = refl
unique_empty (b ∷ bs) = refl

-- A pool whose fee and hooks are read from its key has no blocker exactly if its fee is at most
-- 50000 pips, its current fee, where it is known, is at most 1000000, its hooks are the zero address
-- without regard to case, and it is initialized.
pub execution_is_open :
    (pool : PoolState)
    → pool.fee_semantics ≡ none
    → pool.hook_blockers ≡ none
    → is_empty (v4_execution_blockers pool max_execution_static_fee_pips) ≡ (
        leb pool.key.fee 50000
        && (not (exceeds pool.lp_fee 1000000)
            && (text_eq (lower pool.key.hooks) zero_address && pool.initialized)))
unfolding v4_execution_blockers decode_v4_fee hook_blockers_of
execution_is_open pool f h =
    rw (unique_empty, f, h)
      (elim (Bool-cases (has_dynamic_flag pool.key.fee)) [
        | inl e ↦ rw e (ground (arith, small_is_static pool.key.fee))
        | inr e ↦ rw e (ground arith)
      ])
