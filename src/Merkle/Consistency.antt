-- ===== src/Merkle/Consistency.antt =====
-- What consistency proofs of merkle.rs establish.
use signet_drive.Base.{ℕ, zero, suc, ◌-◌, ◌/◌, ◌%◌, ◌^◌, ◌≤◌, ◌<◌, ◌≡◌, refl, ap, arith, sym, ◌∙◌}
use signet_drive.Base.{inl, inr, ◌⊎◌, List, [], ◌∷◌, length, take, Bytes, All, true, false, Bool}
use signet_drive.Base.{Option, none, leb, if◌then◌else◌, ◌||◌}
use signet_drive.Base.{some, bytes_eq→eq, Bool-cases, ◌==◌}
use signet_drive.Base.{take_whole}
use signet_drive.Merkle.{align, merkle_root, mth, consistency_loop, accepts_roots}
use signet_drive.Merkle.{consistency_from, verify_consistency, is_power_of_two}
use signet_drive.Merkle.Levels.{pair, up, All-pair, double, double_lem}
use signet_drive.Merkle.Climb.{half_fits}
use signet_drive.Merkle.Root.{leaves, length-leaves, node, up-mth}
use signet_drive.Merkle.Walk.{at_roots, consistency_loop-climb}
use signet_drive.Merkle.Inclusion.{mth-IsHash}
use signet_drive.Merkle.Prefix.{climb_agrees}
use signet_drive.Merkle.Agree.{take_one_more, take-pair}
use signet_drive.Merkle.Inclusion.{Collision, IsHash, lt-pow, merkle_root-mth, leaf_inj, node_inj}
use signet_drive.Merkle.Inclusion.{node-IsHash, leaves-IsHash}
use native.Mathlib.Nat.{pow-suc}

accepts_roots-at_roots :
    (x y : Bytes) (o : Option (ℕ × Bytes × Bytes))
    → accepts_roots x y o ≡ true
    → at_roots o ≡ some (x, y)
accepts_roots-at_roots x y none e = cc
accepts_roots-at_roots x y (some (zero, fr, sr)) e =
    ground (arith, bytes_eq→eq fr x, bytes_eq→eq sr y)
accepts_roots-at_roots x y (some (suc s, fr, sr)) e = absurd (ground arith)

-- What `verify_consistency` has checked of the sizes when it does not refuse them.
guards :
    (m n : ℕ) {result : Bool}
    → (if m == 0 || leb n m then false else result) ≡ true
    → (1 ≤ m) × (m ≤ n) × (result ≡ true)
guards m n {result} e = elim (Bool-cases (m == 0 || leb n m)) [
  | inl out ↦ absurd (ground arith)
  | inr fine ↦ (ground arith, ground arith, ground arith)
]

-- The whole of a list is what is taken of it up to its length.
whole :
    (xs : List Bytes) (m : ℕ) (ys : List Bytes)
    → length xs ≡ m
    → 1 ≤ m
    → take (suc (m - 1)) xs ≡ take (suc (m - 1)) ys
    → xs ≡ take m ys
whole xs m ys e pos h =
    let size : suc (m - 1) ≡ m = omega arith in
    let same : take m xs ≡ take m ys =
      ap (λ k. take k xs) (sym size) ∙ h ∙ ap (λ k. take k ys) size in
    sym (take_whole xs m (omega arith)) ∙ same

module _ (sha256 : Bytes → Bytes) (digest_length : (x : Bytes) → IsHash (sha256 x)) where
  abbrev from_aligned : Bytes → List Bytes → ℕ × ℕ → Option (ℕ × Bytes × Bytes)
  from_aligned r path nodes = consistency_loop sha256 (nodes.0) (nodes.1) r r path

  root-IsHash : (entries : List Bytes) → 1 ≤ length entries → IsHash (merkle_root sha256 entries)
  root-IsHash entries some_entry =
      rw (merkle_root-mth sha256 entries some_entry)
        (mth-IsHash sha256 digest_length entries some_entry)

  children_agree :
      (f s : ℕ) (xs ys : List Bytes)
      → length xs ≡ suc f
      → length ys ≡ suc s
      → f ≤ s
      → (f % 2 == 1) ≡ true
      → All IsHash xs
      → All IsHash ys
      → take (suc (f / 2)) (pair (node sha256) xs) ≡ take (suc (f / 2)) (pair (node sha256) ys)
      → (take (suc f) xs ≡ take (suc f) ys) ⊎ Collision sha256
  children_agree f s xs ys hx hy inside odd px py e =
      let size : double (suc (f / 2)) ≡ suc f = ground (arith, double_lem (suc (f / 2))) in
      rw (← size) (
        take-pair (node sha256) IsHash (Collision sha256) (node-IsHash sha256 digest_length)
          (node_inj sha256 digest_length) (suc (f / 2)) xs ys (omega arith) (omega arith) px py e)

  -- The old level's last node is at `f`.
  unaligned_agrees :
      (h f s : ℕ) (xs ys : List Bytes) (x y r : Bytes) (path : List Bytes)
      → s < 2 ^ h
      → length xs ≡ suc f
      → length ys ≡ suc s
      → f ≤ s
      → up (node sha256) h xs ≡ x ∷ []
      → up (node sha256) h ys ≡ y ∷ []
      → All IsHash xs
      → All IsHash ys
      → IsHash r
      → All IsHash path
      → at_roots (consistency_loop sha256 f s r r path) ≡ some (x, y)
      → (take (suc f) xs ≡ take (suc f) ys) ⊎ Collision sha256
  unaligned_agrees h f s xs ys x y r path high hx hy inside rx ry px py pr pp e =
      elim (climb_agrees (node sha256) IsHash (Collision sha256) (node-IsHash sha256 digest_length)
        (node_inj sha256 digest_length) h f s xs ys x y r r path hx hy inside rx ry px py pr pr pp
        (sym (consistency_loop-climb sha256 h f s r r path inside high) ∙ e)) [
          | inl same ↦ inl (take_one_more f xs ys (same.before) (same.old_at) (same.new_at))
          | inr bad ↦ inr bad
        ]

  -- The same after the steps of `align`, which go up while the node is a right child.
  aligned_agrees :
      (fuel h f s : ℕ) (xs ys : List Bytes) (x y r : Bytes) (path : List Bytes)
      → s < 2 ^ h
      → length xs ≡ suc f
      → length ys ≡ suc s
      → f ≤ s
      → up (node sha256) h xs ≡ x ∷ []
      → up (node sha256) h ys ≡ y ∷ []
      → All IsHash xs
      → All IsHash ys
      → IsHash r
      → All IsHash path
      → at_roots (from_aligned r path (align fuel f s)) ≡ some (x, y)
      → (take (suc f) xs ≡ take (suc f) ys) ⊎ Collision sha256
  unfolding align
  aligned_agrees zero h f s xs ys x y r path high hx hy inside rx ry px py pr pp e =
      unaligned_agrees h f s xs ys x y r path high hx hy inside rx ry px py pr pp e
  aligned_agrees (suc fuel) zero f s xs ys x y r path high hx hy inside rx ry px py pr pp e =
      let root : f ≡ 0 = omega arith in
      unaligned_agrees zero f s xs ys x y r path high hx hy inside rx ry px py pr pp
        (ground (arith, root))
  aligned_agrees (suc fuel) (suc h) f s xs ys x y r path high hx hy inside rx ry px py pr pp e =
      elim (Bool-cases (f % 2 == 1)) [
        | inr even ↦
            unaligned_agrees (suc h) f s xs ys x y r path high hx hy inside rx ry px py pr pp
              (ground arith)
        | inl odd ↦
            elim (aligned_agrees fuel h (f / 2) (s / 2) (pair (node sha256) xs)
              (pair (node sha256) ys) x y r path (omega (arith, pow-suc 2 h))
              (half_fits (node sha256) xs f f hx (omega arith))
              (half_fits (node sha256) ys f s hy inside) (omega arith) rx ry
              (All-pair (node sha256) IsHash xs (node-IsHash sha256 digest_length) px)
              (All-pair (node sha256) IsHash ys (node-IsHash sha256 digest_length) py) pr pp
              (ground arith)) [
                | inr bad ↦ inr bad
                | inl same ↦ children_agree f s xs ys hx hy inside odd px py same
              ]
      ]

  leaves-prefix :
      (older entries : List Bytes)
      → leaves sha256 older ≡ take (length older) (leaves sha256 entries)
      → (older ≡ take (length older) entries) ⊎ Collision sha256
  leaves-prefix [] entries e = inl refl
  leaves-prefix (x ∷ older) [] e = absurd (ground arith)
  leaves-prefix (x ∷ older) (y ∷ entries) e =
      elim (leaf_inj sha256 digest_length x y (ground arith)) [
        | inr bad ↦ inr bad
        | inl same ↦ elim (leaves-prefix older entries (ground arith)) [
          | inr bad ↦ inr bad
          | inl rest ↦ inl (ground arith)
        ]
      ]

  consistency_from_sound :
      (older entries path : List Bytes)
      → 1 ≤ length older
      → length older ≤ length entries
      → All IsHash path
      → consistency_from sha256
          (length older - 1)
          (length entries - 1)
          (merkle_root sha256 older)
          (merkle_root sha256 entries)
          path
        ≡ true
      → (older ≡ take (length older) entries) ⊎ Collision sha256
  unfolding consistency_from
  consistency_from_sound older entries [] some_old fits hashes e = absurd (ground arith)
  consistency_from_sound older entries (r ∷ path) some_old fits (pr, pp) e =
      let m : ℕ = length older in
      let n : ℕ = length entries in
      let reached =
        accepts_roots-at_roots (mth sha256 older) (mth sha256 entries)
          (from_aligned r path (align (m - 1) (m - 1) (n - 1)))
          (rw
            (
              ← merkle_root-mth sha256 older some_old,
              ← merkle_root-mth sha256 entries (omega arith),
            )
            e) in
      let high : n < 2 ^ n = lt-pow n in
      elim (aligned_agrees (m - 1) n (m - 1) (n - 1) (leaves sha256 older) (leaves sha256 entries)
        (mth sha256 older) (mth sha256 entries) r path (omega arith)
        (length-leaves sha256 older ∙ omega arith) (length-leaves sha256 entries ∙ omega arith)
        (omega arith) (up-mth sha256 n older some_old (omega arith))
        (up-mth sha256 n entries (omega arith) (omega arith))
        (leaves-IsHash sha256 digest_length older) (leaves-IsHash sha256 digest_length entries) pr
        pp reached) [
          | inr bad ↦ inr bad
          | inl same ↦
              leaves-prefix older entries
                (whole (leaves sha256 older) m _ (length-leaves sha256 older) (omega arith) same)
        ]

  -- Where `verify_consistency` accepts the root of an older log and the root of a log, for their
  -- sizes, the older log is the beginning of the log, or two different inputs with one SHA-256
  -- digest are exhibited. The proof may be any list of 32-byte hashes.
  pub verify_consistency_sound :
      (older entries : List Bytes) (proof : List Bytes)
      → All IsHash proof
      → verify_consistency sha256
          (length older)
          (length entries)
          (merkle_root sha256 older)
          (merkle_root sha256 entries)
          proof
        ≡ true
      → (older ≡ take (length older) entries) ⊎ Collision sha256
  unfolding verify_consistency
  verify_consistency_sound older entries [] hashes accepted = absurd (ground arith)
  verify_consistency_sound older entries (p ∷ proof) hashes accepted =
      let guard = guards (length older) (length entries) accepted in
      elim (Bool-cases (is_power_of_two (length older))) [
        | inl e ↦
            consistency_from_sound older entries (merkle_root sha256 older ∷ p ∷ proof) (guard.0)
              (guard.1) (root-IsHash older (guard.0), hashes) (ground (arith, guard.2))
        | inr e ↦
            consistency_from_sound older entries (p ∷ proof) (guard.0) (guard.1) hashes
              (ground (arith, guard.2))
      ]
