-- ===== src/Merkle/AuditPath.antt =====
-- The path that `audit_path` of merkle.rs builds lists the siblings of the level view.
use signet_drive.Base.{ℕ, zero, suc, ◌-◌, ◌^◌, ◌≤◌, ◌<◌, ◌≡◌, ap}
use signet_drive.Base.{List, [], ◌∷◌, ◌++◌, length, take, drop, Bytes, arith, sym, ◌∙◌, inl, inr}
use signet_drive.Base.{append_assoc, append-nil, Bool-cases, ltb, ltb→lt, ltb→le}
use signet_drive.Merkle.{split_point, mth, audit_path_fuel, audit_path, leaf_hash}
use signet_drive.Merkle.Levels.{up}
use signet_drive.Merkle.Climb.{siblings}
use signet_drive.Merkle.Siblings.{siblings-single, siblings-left, siblings-right}
use signet_drive.Merkle.Root.{Split, halves_of, leaves, leaves_split, length-leaves, node, up-mth}
use signet_drive.Merkle.Root.{pow_pos}

module _ (sha256 : Bytes → Bytes) where
  -- One call on two entries or more, on either side of the split point.
  audit_path_low :
      (fuel k index : ℕ) (entries path : List Bytes)
      → 2 ≤ length entries
      → split_point (length entries) ≡ k
      → index < k
      → audit_path_fuel sha256 (suc fuel) entries index path
        ≡ audit_path_fuel sha256 fuel (take k entries) index path
          ++ (mth sha256 (drop k entries) ∷ [])
  unfolding audit_path_fuel
  audit_path_low fuel k index entries path two e low = rw e (ground arith)

  audit_path_high :
      (fuel k index : ℕ) (entries path : List Bytes)
      → 2 ≤ length entries
      → split_point (length entries) ≡ k
      → k ≤ index
      → audit_path_fuel sha256 (suc fuel) entries index path
        ≡ audit_path_fuel sha256 fuel (drop k entries) (index - k) path
          ++ (mth sha256 (take k entries) ∷ [])
  unfolding audit_path_fuel
  audit_path_high fuel k index entries path two e high = rw e (ground arith)

  -- The roots of the two parts of a split.
  up-left :
      (entries : List Bytes) (fuel h : ℕ) (s : Split entries fuel h)
      → up (node sha256) s.d (leaves sha256 (take (2 ^ s.d) entries))
        ≡ mth sha256 (take (2 ^ s.d) entries) ∷ []
  up-left entries fuel h s =
      up-mth sha256 s.d (take (2 ^ s.d) entries) (omega (arith, s.left_length, pow_pos s.d))
        (omega (arith, s.left_length))

  up-right :
      (entries : List Bytes) (fuel h : ℕ) (s : Split entries fuel h)
      → up (node sha256) s.d (leaves sha256 (drop (2 ^ s.d) entries))
        ≡ mth sha256 (drop (2 ^ s.d) entries) ∷ []
  up-right entries fuel h s =
      up-mth sha256 s.d (drop (2 ^ s.d) entries) (omega (arith, s.right_length, s.below))
        (omega (arith, s.right_length, s.right_fits))

  siblings_low :
      (entries : List Bytes) (fuel h index : ℕ) (s : Split entries fuel h)
      → index < 2 ^ s.d
      → siblings (node sha256) h (leaves sha256 entries) index
        ≡ siblings (node sha256) s.d (leaves sha256 (take (2 ^ s.d) entries)) index
          ++ (mth sha256 (drop (2 ^ s.d) entries) ∷ [])
  siblings_low entries fuel h index s low =
      let k : ℕ = 2 ^ s.d in
      rw (leaves_split sha256 k entries) (
        siblings-left (node sha256) h s.d s.e (leaves sha256 (take k entries))
          (leaves sha256 (drop k entries)) s.height
          (length-leaves sha256 (take k entries) ∙ s.left_length) (up-left entries fuel h s)
          (up-right entries fuel h s) index low)

  siblings_high :
      (entries : List Bytes) (fuel h index : ℕ) (s : Split entries fuel h)
      → 2 ^ s.d ≤ index
      → index < length entries
      → siblings (node sha256) h (leaves sha256 entries) index
        ≡ siblings (node sha256) s.d (leaves sha256 (drop (2 ^ s.d) entries)) (index - 2 ^ s.d)
          ++ (mth sha256 (take (2 ^ s.d) entries) ∷ [])
  siblings_high entries fuel h index s high inside =
      let k : ℕ = 2 ^ s.d in
      rw (leaves_split sha256 k entries) (
        siblings-right (node sha256) h s.d s.e (leaves sha256 (take k entries))
          (leaves sha256 (drop k entries)) s.height
          (length-leaves sha256 (take k entries) ∙ s.left_length) (up-left entries fuel h s)
          (up-right entries fuel h s) index high (omega (arith, s.right_fits, s.below)))

  audit_path_fuel-siblings :
      (fuel h : ℕ) (entries : List Bytes) (index : ℕ) (path : List Bytes)
      → index < length entries
      → length entries ≤ fuel
      → length entries ≤ 2 ^ h
      → audit_path_fuel sha256 fuel entries index path
        ≡ path ++ siblings (node sha256) h (leaves sha256 entries) index
  audit_path_fuel-siblings zero h entries index path inside enough high = absurd (omega arith)
  audit_path_fuel-siblings (suc fuel) h [] index path inside enough high = absurd (omega arith)
  audit_path_fuel-siblings (suc fuel) h (x ∷ []) (suc index) path inside enough high =
      absurd (omega arith)
  audit_path_fuel-siblings (suc fuel) h (x ∷ []) zero path inside enough high =
      unfold audit_path_fuel in
      sym (
        ap (λ l. path ++ l) (siblings-single (node sha256) h (leaf_hash sha256 x))
        ∙ append-nil path)
  audit_path_fuel-siblings (suc fuel) h (x ∷ y ∷ rest) index path inside enough high =
      let entries : List Bytes = x ∷ y ∷ rest in
      let s : Split entries fuel h = halves_of entries fuel h (omega arith) enough high in
      let k : ℕ = 2 ^ s.d in
      elim (Bool-cases (ltb index k)) [
        | inl low ↦
            let under : index < k = ltb→lt index k low in
            audit_path_low fuel k index entries path (omega arith) s.point under
            ∙ ap (λ l. l ++ (mth sha256 (drop k entries) ∷ []))
                (audit_path_fuel-siblings fuel s.d (take k entries) index path
                  (omega (arith, s.left_length)) (omega (arith, s.left_length, s.left_fuel))
                  (omega (arith, s.left_length)))
            ∙ append_assoc path _ _
            ∙ sym (ap (λ l. path ++ l) (siblings_low entries fuel h index s under))
        | inr not_low ↦
            let over : k ≤ index = ltb→le index k not_low in
            audit_path_high fuel k index entries path (omega arith) s.point over
            ∙ ap (λ l. l ++ (mth sha256 (take k entries) ∷ []))
                (audit_path_fuel-siblings fuel s.d (drop k entries) (index - k) path
                  (omega (arith, s.right_length, s.below))
                  (omega (arith, s.right_length, s.right_fuel))
                  (omega (arith, s.right_length, s.right_fits)))
            ∙ append_assoc path _ _
            ∙ sym (ap (λ l. path ++ l) (siblings_high entries fuel h index s over inside))
      ]

  pub audit_path-siblings :
      (h : ℕ) (entries : List Bytes) (index : ℕ) (path : List Bytes)
      → index < length entries
      → length entries ≤ 2 ^ h
      → audit_path sha256 entries index path
        ≡ path ++ siblings (node sha256) h (leaves sha256 entries) index
  unfolding audit_path
  audit_path-siblings h entries index path inside high =
      audit_path_fuel-siblings (length entries) h entries index path inside (omega arith) high
