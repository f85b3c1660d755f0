-- ===== src/Merkle/Split.antt =====
-- The split point of merkle.rs is the largest power of two strictly below the size.
use signet_drive.Base.{ℕ, zero, suc, ◌+◌, ◌*◌, ◌^◌, ◌≤◌, ◌<◌, ◌≡◌, refl, arith, inl, inr}
use signet_drive.Base.{ltb, ltb→lt, Bool-cases}
use signet_drive.Merkle.{split_loop, split_point}
use native.Mathlib.Nat.{pow-suc}

split_loop_lem :
    (fuel n d : ℕ)
    → 2 ^ d < n
    → n ≤ 2 ^ d + fuel
    → (e : ℕ) × (split_loop fuel n (2 ^ d) ≡ 2 ^ e) × (2 ^ e < n) × (n ≤ 2 ^ e * 2)
unfolding split_loop
split_loop_lem zero n d lo hi = absurd (omega arith)
split_loop_lem (suc fuel) n d lo hi = elim (Bool-cases (ltb (2 ^ d * 2) n)) [
  | inl e ↦
      let next : 2 ^ suc d ≡ 2 ^ d * 2 = pow-suc 2 d in
      rw (e, ← next)
        (split_loop_lem fuel n (suc d) (rw next (ltb→lt _ _ e)) (omega (arith, next, pow_pos d)))
  | inr e ↦ rw e (d, refl, lo, ground arith)
]
  where
    pow_pos : (k : ℕ) → 1 ≤ 2 ^ k
    pow_pos zero = omega arith
    pow_pos (suc k) = omega (arith, pow-suc 2 k, pow_pos k)

-- For a size of at least two, `split_point` returns a power of two, strictly below the size, and its
-- double reaches the size.
pub split_point_lem :
    (n : ℕ) → 2 ≤ n → (d : ℕ) × (split_point n ≡ 2 ^ d) × (2 ^ d < n) × (n ≤ 2 ^ d * 2)
unfolding split_point
split_point_lem n h = split_loop_lem n n 0 (omega arith) (omega arith)
