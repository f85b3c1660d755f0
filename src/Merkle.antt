-- ===== src/Merkle.antt =====
-- The Merkle tree of the transparency log: crypto/src/merkle.rs.
--
-- A 32-byte hash is the list of its bytes, a slice of hashes a list. `sha256` (crypto/src/hash.rs, a
-- call of the sha2 crate) is a parameter. `usize` values are plain numbers: a slice of 32-byte
-- arrays has fewer than 2^59 elements, so no shift of `split_point` leaves the word.
-- `debug_assert!` and `assert!` are the hypotheses of the theorems.
mod Split
mod Levels
mod Climb
mod Sound
mod Agree
mod Prefix
mod Root
mod Siblings
mod AuditPath
pub mod Inclusion
pub mod Consistency
mod Runs
mod Walk
use signet_drive.Base.{ℕ, zero, suc, ◌-◌, ◌*◌, ◌/◌, ◌%◌, Bool, true, false, ◌&&◌, ◌||◌, Bytes}
use signet_drive.Base.{Option, none, some, List, [], ◌∷◌, ◌++◌, length, take, drop}
use signet_drive.Base.{ltb, leb, ◌==◌, if◌then◌else◌, bytes_eq}

-- `while k << 1 < n { k <<= 1; }` with fuel.
split_loop : ℕ → ℕ → ℕ → ℕ
split_loop zero n k = k
split_loop (suc fuel) n k =
    let more = split_loop fuel n (k * 2) in if ltb (k * 2) n then more else k

-- The largest power of two strictly below `n`. `k` doubles, so `n` rounds are enough
-- (`split_point_lem` in Merkle/Split.antt).
pub split_point : ℕ → ℕ
unfolding split_loop
split_point n = split_loop n n 1

-- `loop { fnode >>= 1; snode >>= 1; if fnode & 1 == 1 || fnode == 0 { break; } }` with fuel.
pub ascend : ℕ → ℕ → ℕ → ℕ × ℕ
ascend zero fnode snode = (fnode, snode)
ascend (suc fuel) fnode snode =
    let more = ascend fuel (fnode / 2) (snode / 2) in
    if fnode / 2 % 2 == 1 || fnode / 2 == 0 then (fnode / 2, snode / 2) else more

-- `usize::is_power_of_two`: halving it ends at 1 with no remainder on the way.
is_power_of_two_fuel : ℕ → ℕ → Bool
is_power_of_two_fuel zero m = false
is_power_of_two_fuel (suc fuel) m =
    m == 1 || ltb 1 m && (m % 2 == 0 && is_power_of_two_fuel fuel (m / 2))

pub is_power_of_two : ℕ → Bool
unfolding is_power_of_two_fuel
is_power_of_two m = is_power_of_two_fuel m m

-- `while fnode & 1 == 1 { fnode >>= 1; snode >>= 1; }` with fuel.
pub align : ℕ → ℕ → ℕ → ℕ × ℕ
align zero fnode snode = (fnode, snode)
align (suc fuel) fnode snode =
    let more = align fuel (fnode / 2) (snode / 2) in if fnode % 2 == 1 then more else (fnode, snode)

-- `snode == 0 && &r == root`.
abbrev pub accepts_root : Bytes → Option (ℕ × Bytes) → Bool
accepts_root root none = false
accepts_root root (some (snode, r)) = snode == 0 && bytes_eq r root

-- `&fr == first_hash && &sr == second_hash && snode == 0`.
abbrev pub accepts_roots : Bytes → Bytes → Option (ℕ × Bytes × Bytes) → Bool
accepts_roots first second none = false
accepts_roots first second (some (snode, fr, sr)) =
    bytes_eq fr first && (bytes_eq sr second && snode == 0)

module _ (sha256 : Bytes → Bytes) where
  pub leaf_hash : Bytes → Bytes
  leaf_hash entry_hash = sha256 (0x00 ∷ entry_hash)

  pub internal_hash : Bytes → Bytes → Bytes
  internal_hash left right = sha256 (0x01 ∷ (left ++ right))

  -- `mth` splits its slice, so its length is fuel enough (`mth_lem` in Merkle/Root.antt).
  mth_fuel : ℕ → List Bytes → Bytes
  mth_fuel zero entries = []
  mth_fuel (suc fuel) [] = []
  mth_fuel (suc fuel) (single ∷ []) = leaf_hash single
  mth_fuel (suc fuel) (x ∷ y ∷ rest) =
      let entries : List Bytes = x ∷ y ∷ rest in
      let k = split_point (length entries) in
      internal_hash (mth_fuel fuel (take k entries)) (mth_fuel fuel (drop k entries))

  pub mth : List Bytes → Bytes
  unfolding mth_fuel
  mth entries = mth_fuel (length entries) entries

  pub merkle_root : List Bytes → Bytes
  merkle_root [] = sha256 []
  merkle_root (x ∷ rest) = mth (x ∷ rest)

  -- The path is a `&mut Vec` in the source: what a call pushes goes behind what the calls before it
  -- pushed.
  audit_path_fuel : ℕ → List Bytes → ℕ → List Bytes → List Bytes
  audit_path_fuel zero entries index path = path
  audit_path_fuel (suc fuel) entries index path =
      let n = length entries in
      let k = split_point n in
      let low = audit_path_fuel fuel (take k entries) index path ++ (mth (drop k entries) ∷ []) in
      let high =
        audit_path_fuel fuel (drop k entries) (index - k) path ++ (mth (take k entries) ∷ []) in
      if n == 1 then path else if ltb index k then low else high

  pub audit_path : List Bytes → ℕ → List Bytes → List Bytes
  unfolding audit_path_fuel
  audit_path entries index path = audit_path_fuel (length entries) entries index path

  -- `none` is the panic of `assert!(index < entries.len())`.
  pub inclusion_proof : List Bytes → ℕ → Option (List Bytes)
  inclusion_proof entries index =
      if ltb index (length entries) then some (audit_path entries index []) else none

  -- `for p in proof`; `none` is the early `return false`, and `some` the final `snode` and `r`.
  pub inclusion_loop : ℕ → ℕ → Bytes → List Bytes → Option (ℕ × Bytes)
  inclusion_loop fnode snode r [] = some (snode, r)
  inclusion_loop fnode snode r (p ∷ proof) =
      let up = ascend fnode fnode snode in
      let from_left_even = inclusion_loop (up.0 / 2) (up.1 / 2) (internal_hash p r) proof in
      let from_left_odd = inclusion_loop (fnode / 2) (snode / 2) (internal_hash p r) proof in
      let from_right = inclusion_loop (fnode / 2) (snode / 2) (internal_hash r p) proof in
      if snode == 0
      then none
      else if fnode % 2 == 1 || fnode == snode
      then (if fnode % 2 == 0 then from_left_even else from_left_odd)
      else from_right

  pub verify_inclusion : Bytes → ℕ → ℕ → List Bytes → Bytes → Bool
  verify_inclusion entry_hash index tree_size proof root =
      if leb tree_size index
      then false
      else accepts_root root (inclusion_loop index (tree_size - 1) (leaf_hash entry_hash) proof)

  subproof_fuel : ℕ → ℕ → List Bytes → Bool → List Bytes → List Bytes
  subproof_fuel zero m entries b proof = proof
  subproof_fuel (suc fuel) m entries b proof =
      let n = length entries in
      let k = split_point n in
      let low = subproof_fuel fuel m (take k entries) b proof ++ (mth (drop k entries) ∷ []) in
      let high =
        subproof_fuel fuel (m - k) (drop k entries) false proof ++ (mth (take k entries) ∷ []) in
      if m == n
      then (if b then proof else proof ++ (mth entries ∷ []))
      else if leb m k
      then low
      else high

  pub subproof : ℕ → List Bytes → Bool → List Bytes → List Bytes
  unfolding subproof_fuel
  subproof m entries b proof = subproof_fuel (length entries) m entries b proof

  -- `none` is the panic of `assert!(0 < m && m < n)`.
  pub consistency_proof : List Bytes → ℕ → Option (List Bytes)
  consistency_proof entries m =
      if ltb 0 m && ltb m (length entries) then some (subproof m entries true []) else none

  -- `for c in &path[1..]`; `none` is the early `return false`, and `some` the final `snode`, `fr`
  -- and `sr`.
  pub consistency_loop : ℕ → ℕ → Bytes → Bytes → List Bytes → Option (ℕ × Bytes × Bytes)
  consistency_loop fnode snode fr sr [] = some (snode, fr, sr)
  consistency_loop fnode snode fr sr (c ∷ path) =
      let up = ascend fnode fnode snode in
      let both_even =
        consistency_loop (up.0 / 2) (up.1 / 2) (internal_hash c fr) (internal_hash c sr) path in
      let both_odd =
        consistency_loop (fnode / 2) (snode / 2) (internal_hash c fr) (internal_hash c sr) path in
      let right = consistency_loop (fnode / 2) (snode / 2) fr (internal_hash sr c) path in
      if snode == 0
      then none
      else if fnode % 2 == 1 || fnode == snode
      then (if fnode % 2 == 0 then both_even else both_odd)
      else right

  -- The steps after the guards, on the path with the first hash put in front where it was omitted.
  -- The path is not empty there; `path[0]` of an empty one would panic, which is `false` here and
  -- is never met.
  pub consistency_from : ℕ → ℕ → Bytes → Bytes → List Bytes → Bool
  consistency_from fnode snode first second [] = false
  consistency_from fnode snode first second (r ∷ path) =
      let nodes = align fnode fnode snode in
      accepts_roots first second (consistency_loop nodes.0 nodes.1 r r path)

  pub verify_consistency : ℕ → ℕ → Bytes → Bytes → List Bytes → Bool
  verify_consistency m n first second [] = false
  verify_consistency m n first second (p ∷ proof) =
      if m == 0 || leb n m
      then false
      else consistency_from (m - 1) (n - 1) first second
          (if is_power_of_two m then first ∷ p ∷ proof else p ∷ proof)
