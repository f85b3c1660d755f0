-- ===== src/Merkle/Root.antt =====
-- `mth` of merkle.rs, which splits at the largest power of two, is the root of the level view.
use signet_drive.Base.{ℕ, zero, suc, ◌+◌, ◌-◌, ◌^◌, ◌≤◌, ◌<◌, ◌≡◌, ap, ap₂, arith, sym, ◌∙◌}
use signet_drive.Base.{List, [], ◌∷◌, ◌++◌, length, take, drop, map, Bytes, inl, inr}
use signet_drive.Base.{
  take-append-drop, length-take, length-drop, length-map, Bool-cases, leb, leb→le,
}
use signet_drive.Merkle.{split_point, leaf_hash, internal_hash, mth_fuel, mth}
use signet_drive.Merkle.Split.{split_point_lem}
use signet_drive.Merkle.Levels.{up, up-append, up-single, up-add}
use native.Mathlib.Nat.{pow-suc, pow-le-pow_right}
use mathlib.Core.List.{map-append}

-- An exponent whose power of two reaches past another's is above it.
exponent_above : (d h : ℕ) → 2 ^ d < 2 ^ h → (e : ℕ) × (h ≡ d + suc e)
exponent_above d h lt = elim (Bool-cases (leb h d)) [
  | inl le ↦ absurd (omega (arith, pow-le-pow_right {n = 2} (omega arith) (leb→le h d le)))
  | inr gt ↦ (h - suc d, ground arith)
]

-- How a list of two or more splits, with all that the recursions need.
pub record Split {A : Type 0} (xs : List A) (fuel h : ℕ) : Type 0 where
  pub d : ℕ
  pub e : ℕ
  pub point : split_point (length xs) ≡ 2 ^ d
  pub height : h ≡ d + suc e
  pub below : 2 ^ d < length xs
  pub left_length : length (take (2 ^ d) xs) ≡ 2 ^ d
  pub right_length : length (drop (2 ^ d) xs) ≡ length xs - 2 ^ d
  pub right_fits : length xs - 2 ^ d ≤ 2 ^ d
  pub left_fuel : 2 ^ d ≤ fuel
  pub right_fuel : length xs - 2 ^ d ≤ fuel

pub pow_pos : (d : ℕ) → 1 ≤ 2 ^ d
pow_pos zero = omega arith
pow_pos (suc d) = omega (arith, pow_pos d, pow-suc 2 d)

pub halves_of :
    {A : Type 0} (xs : List A) (fuel h : ℕ)
    → 2 ≤ length xs
    → length xs ≤ suc fuel
    → length xs ≤ 2 ^ h
    → Split xs fuel h
halves_of xs fuel h two enough high =
    let (d, at_d, below, above) = split_point_lem (length xs) two in
    let (e, height) = exponent_above d h (omega arith) in
    record {
      d = d;
      e = e;
      point = at_d;
      height = height;
      below = below;
      left_length = omega (arith, length-take (2 ^ d) xs);
      right_length = omega (arith, length-drop (2 ^ d) xs);
      right_fits = omega arith;
      left_fuel = omega arith;
      right_fuel = omega (arith, pow_pos d);
    }

module _ (sha256 : Bytes → Bytes) where
  abbrev pub leaves : List Bytes → List Bytes
  leaves entries = map (leaf_hash sha256) entries

  abbrev pub node : Bytes → Bytes → Bytes
  node = internal_hash sha256

  pub leaves_split :
      (k : ℕ) (entries : List Bytes)
      → leaves entries ≡ leaves (take k entries) ++ leaves (drop k entries)
  leaves_split k entries =
      ap leaves (sym (take-append-drop k entries))
      ∙ map-append (leaf_hash sha256) (take k entries) (drop k entries)

  pub length-leaves : (entries : List Bytes) → length (leaves entries) ≡ length entries
  length-leaves entries = length-map entries (leaf_hash sha256)

  -- The two halves of a split meet in one node.
  pub up-halves :
      (h d e : ℕ) (xs ys : List Bytes) {a b : Bytes}
      → h ≡ d + suc e
      → length xs ≡ 2 ^ d
      → up node d xs ≡ a ∷ []
      → up node d ys ≡ b ∷ []
      → up node h (xs ++ ys) ≡ node a b ∷ []
  up-halves h d e xs ys {a} {b} height size p q =
      let meet : up node d (xs ++ ys) ≡ a ∷ b ∷ [] =
        up-append node d 1 xs ys (omega arith) ∙ ap₂ (λ us vs. us ++ vs) p q in
      up-add node d (suc e) h (xs ++ ys) height
      ∙ ap (up node (suc e)) meet
      ∙ up-single node e (node a b)

  mth_fuel-up :
      (fuel h : ℕ) (entries : List Bytes)
      → 1 ≤ length entries
      → length entries ≤ fuel
      → length entries ≤ 2 ^ h
      → up node h (leaves entries) ≡ mth_fuel sha256 fuel entries ∷ []
  unfolding mth_fuel
  mth_fuel-up zero h entries lo enough high = absurd (omega arith)
  mth_fuel-up (suc fuel) h [] lo enough high = absurd (omega arith)
  mth_fuel-up (suc fuel) h (single ∷ []) lo enough high = up-single node h _
  mth_fuel-up (suc fuel) h (x ∷ y ∷ rest) lo enough high =
      let entries : List Bytes = x ∷ y ∷ rest in
      let s : Split entries fuel h = halves_of entries fuel h (omega arith) enough high in
      rw (s.point) (
        rw (leaves_split (2 ^ s.d) entries) (
          up-halves h s.d s.e (leaves (take (2 ^ s.d) entries)) (leaves (drop (2 ^ s.d) entries))
            s.height (length-leaves (take (2 ^ s.d) entries) ∙ s.left_length)
            (mth_fuel-up fuel s.d (take (2 ^ s.d) entries)
              (omega (arith, s.left_length, pow_pos s.d))
              (omega (arith, s.left_length, s.left_fuel)) (omega (arith, s.left_length)))
            (mth_fuel-up fuel s.d (drop (2 ^ s.d) entries) (omega (arith, s.right_length, s.below))
              (omega (arith, s.right_length, s.right_fuel))
              (omega (arith, s.right_length, s.right_fits)))))

  -- On any list that is not empty, `mth` is the one node that is left at a height which holds it.
  pub up-mth :
      (h : ℕ) (entries : List Bytes)
      → 1 ≤ length entries
      → length entries ≤ 2 ^ h
      → up node h (leaves entries) ≡ mth sha256 entries ∷ []
  unfolding mth
  up-mth h entries lo high = mth_fuel-up (length entries) h entries lo (omega arith) high
