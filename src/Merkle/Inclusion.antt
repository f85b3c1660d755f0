-- ===== src/Merkle/Inclusion.antt =====
-- What inclusion proofs of merkle.rs establish.
use signet_drive.Base.{ℕ, suc, ◌-◌, ◌^◌, ◌≤◌, ◌<◌, ◌≡◌, ◌≢◌, refl, ap, arith, sym, ◌∙◌, ◌⊎◌}
use signet_drive.Base.{inl, inr, List, [], ◌∷◌, ◌++◌, length, Bytes, All, true, Option}
use signet_drive.Base.{none, some, get_elem?, bytes_eq→eq, bytes_eq_refl, Bytes-cases, append_inj}
use signet_drive.Base.{leb, Bool-cases}
use signet_drive.Merkle.{leaf_hash, internal_hash, mth, merkle_root, audit_path, inclusion_proof}
use signet_drive.Merkle.{mth_fuel, inclusion_loop, accepts_root, verify_inclusion}
use signet_drive.Merkle.Levels.{at}
use signet_drive.Merkle.Climb.{climb, climb-siblings}
use signet_drive.Merkle.Sound.{climb_sound}
use signet_drive.Merkle.Root.{leaves, length-leaves, node, up-mth}
use signet_drive.Merkle.AuditPath.{audit_path-siblings}
use signet_drive.Merkle.Walk.{at_root, loop-climb}
use native.Mathlib.Nat.{pow-suc}

-- 2^n is above n: a height that holds every list.
pub lt-pow : (n : ℕ) → n < 2 ^ n
lt-pow ℕ.zero = omega arith
lt-pow (suc n) = omega (arith, pow-suc 2 n, lt-pow n)

-- Two different inputs with one digest.
abbrev pub Collision : (Bytes → Bytes) → Type 0
Collision sha256 = (x : Bytes) × (y : Bytes) × (x ≢ y) × (sha256 x ≡ sha256 y)

-- A `[u8; 32]`.
abbrev pub IsHash : Bytes → Type 0
IsHash h = length h ≡ 32

accepts_root-at_root :
    (root : Bytes) (o : Option (ℕ × Bytes)) → accepts_root root o ≡ true → at_root o ≡ some root
accepts_root-at_root root none e = cc
accepts_root-at_root root (some (ℕ.zero, x)) e = ap some (bytes_eq→eq x root e)
accepts_root-at_root root (some (suc s, x)) e = absurd (ground arith)

at_root-accepts_root :
    (root : Bytes) (o : Option (ℕ × Bytes)) → at_root o ≡ some root → accepts_root root o ≡ true
at_root-accepts_root root none e = cc
at_root-accepts_root root (some (ℕ.zero, x)) e =
    let same : x ≡ root = ground arith in rw same (bytes_eq_refl root)
at_root-accepts_root root (some (suc s, x)) e = cc

module _ (sha256 : Bytes → Bytes) where
  at-leaves :
      (i : ℕ) (entries : List Bytes) {e : Bytes}
      → get_elem? entries i ≡ some e
      → at i (leaves sha256 entries) ≡ leaf_hash sha256 e ∷ []
  at-leaves i [] h = cc
  at-leaves ℕ.zero (x ∷ rest) {e} h = let same : x ≡ e = ground arith in rw same
  at-leaves (suc i) (x ∷ rest) h = at-leaves i rest h

  get_elem?-lt :
      (i : ℕ) (entries : List Bytes) {e : Bytes} → get_elem? entries i ≡ some e → i < length entries
  get_elem?-lt i [] h = cc
  get_elem?-lt ℕ.zero (x ∷ rest) h = omega arith
  get_elem?-lt (suc i) (x ∷ rest) h = omega (arith, get_elem?-lt i rest h)

  pub merkle_root-mth :
      (entries : List Bytes) → 1 ≤ length entries → merkle_root sha256 entries ≡ mth sha256 entries
  unfolding merkle_root
  merkle_root-mth [] h = absurd (omega arith)
  merkle_root-mth (x ∷ rest) h = refl

  verify_inclusion_path :
      (entries : List Bytes) (index : ℕ) (e : Bytes)
      → get_elem? entries index ≡ some e
      → verify_inclusion sha256 e index
          (length entries)
          (audit_path sha256 entries index [])
          (merkle_root sha256 entries)
        ≡ true
  unfolding verify_inclusion
  verify_inclusion_path entries index e h =
      let n : ℕ = length entries in
      let inside : index < n = get_elem?-lt index entries h in
      let high : n < 2 ^ n = lt-pow n in
      let walk =
        loop-climb sha256 n index (n - 1) (leaf_hash sha256 e) (audit_path sha256 entries index [])
          (omega arith) (omega arith) in
      let reach =
        climb-siblings (node sha256) n index (n - 1) (leaves sha256 entries) (mth sha256 entries)
          (leaf_hash sha256 e) (length-leaves sha256 entries ∙ omega arith) (omega arith)
          (up-mth sha256 n entries (omega arith) (omega arith)) (at-leaves index entries h) in
      let path = audit_path-siblings sha256 n entries index [] inside (omega arith) in
      rw (merkle_root-mth entries (omega arith)) (
        ground (
          arith,
          at_root-accepts_root (mth sha256 entries) _ (
              walk
              ∙ ap (climb (node sha256) (node sha256) n index (n - 1) (leaf_hash sha256 e)) path
              ∙ reach),
        ))

  -- The proof that `inclusion_proof` returns for an entry of the log is accepted for that entry, its
  -- index and the log's size against the log's root.
  pub verify_inclusion-inclusion_proof :
      (entries : List Bytes) (index : ℕ) (e : Bytes)
      → get_elem? entries index ≡ some e
      → (proof : List Bytes) × (inclusion_proof sha256 entries index ≡ some proof)
        × (verify_inclusion sha256 e index (length entries) proof (merkle_root sha256 entries)
            ≡ true)
  unfolding inclusion_proof
  verify_inclusion-inclusion_proof entries index e h =
      let inside : index < length entries = get_elem?-lt index entries h in
      (
        audit_path sha256 entries index [],
        ground (arith, inside),
        verify_inclusion_path entries index e h,
      )

  module _ (digest_length : (x : Bytes) → IsHash (sha256 x)) where
    prefix_differs : (x y : Bytes) → 0x00 ∷ x ≡ 0x01 ∷ y → ⊥
    prefix_differs x y e = ground arith

    pub leaf_inj :
        (a b : Bytes) → leaf_hash sha256 a ≡ leaf_hash sha256 b → (a ≡ b) ⊎ Collision sha256
    unfolding leaf_hash
    leaf_inj a b e = elim (Bytes-cases a b) [
      | inl same ↦ inl same
      | inr differ ↦ inr (0x00 ∷ a, 0x00 ∷ b, (λ p. differ (ground arith)), e)
    ]

    -- Two pairs of hashes with one parent are the same pair, or SHA-256 collides on them.
    pub node_inj :
        (a b c d : Bytes)
        → IsHash a
        → IsHash b
        → IsHash c
        → IsHash d
        → node sha256 a b ≡ node sha256 c d
        → ((a ≡ c) × (b ≡ d)) ⊎ Collision sha256
    unfolding internal_hash
    node_inj a b c d ha hb hc hd e = elim (Bytes-cases (a ++ b) (c ++ d)) [
      | inl same ↦ inl (append_inj a c (omega arith) same)
      | inr differ ↦ inr (0x01 ∷ (a ++ b), 0x01 ∷ (c ++ d), (λ p. differ (ground arith)), e)
    ]

    pub node-IsHash : (a b : Bytes) → IsHash (node sha256 a b)
    unfolding internal_hash
    node-IsHash a b = digest_length (0x01 ∷ (a ++ b))

    pub leaf-IsHash : (a : Bytes) → IsHash (leaf_hash sha256 a)
    unfolding leaf_hash
    leaf-IsHash a = digest_length (0x00 ∷ a)

    pub leaves-IsHash : (entries : List Bytes) → All IsHash (leaves sha256 entries)
    leaves-IsHash [] = tt
    leaves-IsHash (x ∷ rest) = (leaf-IsHash x, leaves-IsHash rest)

    pub mth-IsHash : (entries : List Bytes) → 1 ≤ length entries → IsHash (mth sha256 entries)
    unfolding mth mth_fuel
    mth-IsHash [] h = absurd (omega arith)
    mth-IsHash (x ∷ []) h = leaf-IsHash x
    mth-IsHash (x ∷ y ∷ rest) h = node-IsHash _ _

    entry_at :
        (i : ℕ) (entries : List Bytes) (e : Bytes)
        → at i (leaves sha256 entries) ≡ leaf_hash sha256 e ∷ []
        → (get_elem? entries i ≡ some e) ⊎ Collision sha256
    entry_at i [] e h = absurd (ground (arith, ap length h))
    entry_at ℕ.zero (x ∷ rest) e h = elim (leaf_inj x e (ground arith)) [
      | inl same ↦ inl (ap some same)
      | inr bad ↦ inr bad
    ]
    entry_at (suc i) (x ∷ rest) e h = entry_at i rest e h

    -- Where `verify_inclusion` accepts an entry at an index of a log of that size against the log's
    -- root, the log holds that entry at that index, or two different inputs with one SHA-256 digest
    -- are exhibited. The proof may be any list of 32-byte hashes.
    pub verify_inclusion_sound :
        (entries : List Bytes) (index : ℕ) (e : Bytes) (proof : List Bytes)
        → All IsHash proof
        → verify_inclusion sha256 e index (length entries) proof (merkle_root sha256 entries) ≡ true
        → (get_elem? entries index ≡ some e) ⊎ Collision sha256
    unfolding verify_inclusion
    verify_inclusion_sound entries index e proof hashes accepted =
        elim (Bool-cases (leb (length entries) index)) [
          | inl out ↦ absurd (ground arith)
          | inr not_out ↦
              let n : ℕ = length entries in
              let inside : index < n = ground arith in
              let high : n < 2 ^ n = lt-pow n in
              let walk =
                loop-climb sha256 n index (n - 1) (leaf_hash sha256 e) proof (omega arith)
                  (omega arith) in
              let reached =
                accepts_root-at_root (mth sha256 entries)
                  (inclusion_loop sha256 index (n - 1) (leaf_hash sha256 e) proof)
                  (ground (arith, merkle_root-mth entries (omega arith))) in
              elim (climb_sound (node sha256) IsHash (Collision sha256) node-IsHash node_inj n index
                (n - 1) (leaves sha256 entries) (mth sha256 entries) (leaf_hash sha256 e) proof
                (length-leaves sha256 entries ∙ omega arith) (omega arith)
                (up-mth sha256 n entries (omega arith) (omega arith)) (leaves-IsHash entries)
                (leaf-IsHash e) hashes (sym walk ∙ reached)) [
                  | inl found ↦ entry_at index entries e found
                  | inr bad ↦ inr bad
                ]
        ]
