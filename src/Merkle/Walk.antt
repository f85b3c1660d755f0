-- ===== src/Merkle/Walk.antt =====
-- The loops of `verify_inclusion` and `verify_consistency` in merkle.rs are one walk, which accepts
-- exactly the climbs of the level view.
use signet_drive.Base.{ℕ, zero, suc, ◌/◌, ◌%◌, ◌^◌, ◌≤◌, ◌<◌, ◌≡◌, refl, arith, sym, ◌∙◌}
use signet_drive.Base.{List, [], ◌∷◌, Bytes, Option, none, some, inl, inr, Bool-cases, ◌==◌}
use signet_drive.Base.{◌||◌, if◌then◌else◌}
use signet_drive.Merkle.{ascend, inclusion_loop, consistency_loop, internal_hash}
use signet_drive.Merkle.Climb.{climb, Node-cases, climb_left, climb_promoted, climb_right}
use signet_drive.Merkle.Climb.{climb_stops}
use native.Mathlib.Nat.{pow-suc}

-- More fuel than the first index changes nothing.
pub ascend_fuel : (n m f s : ℕ) → 1 ≤ f → f ≤ n → f ≤ m → ascend n f s ≡ ascend m f s
unfolding ascend
ascend_fuel zero m f s pos hn hm = absurd (omega arith)
ascend_fuel (suc n) zero f s pos hn hm = absurd (omega arith)
ascend_fuel (suc n) (suc m) f s pos hn hm = elim (Bool-cases (f / 2 == 0)) [
  | inl e ↦ ground arith
  | inr e ↦ ground (arith, ascend_fuel n m (f / 2) (s / 2))
]

-- The inner loop ends at an odd node: it never runs out of fuel, or past the root.
pub ascend_odd : (n f s : ℕ) → 1 ≤ f → f % 2 ≡ 0 → f ≤ n → (ascend n f s).0 % 2 ≡ 1
unfolding ascend
ascend_odd zero f s pos even hn = absurd (omega arith)
ascend_odd (suc n) f s pos even hn = ground (arith, ascend_odd n (f / 2) (s / 2))

-- What is left of a loop's result, if the walk ended at the root.
abbrev pub at_root : {S : Type 0} → Option (ℕ × S) → Option S
at_root none = none
at_root (some (zero, r)) = some r
at_root (some (suc s, r)) = none

abbrev pub at_roots : Option (ℕ × Bytes × Bytes) → Option (Bytes × Bytes)
at_roots none = none
at_roots (some (zero, fr, sr)) = some (fr, sr)
at_roots (some (suc s, fr, sr)) = none

module _ {A S : Type 0} (left : A → S → S) (right : S → A → S) where
  unfoldable pub walk : ℕ → ℕ → S → List A → Option (ℕ × S)
  walk f s r [] = some (s, r)
  walk f s r (p ∷ path) =
      let up = ascend f f s in
      let from_left_even = walk (up.0 / 2) (up.1 / 2) (left p r) path in
      let from_left_odd = walk (f / 2) (s / 2) (left p r) path in
      let from_right = walk (f / 2) (s / 2) (right r p) path in
      if s == 0
      then none
      else if f % 2 == 1 || f == s
      then (if f % 2 == 0 then from_left_even else from_left_odd)
      else from_right

  abbrev loop : ℕ → ℕ → S → List A → Option S
  loop f s r path = at_root (walk f s r path)

  loop_nil : (f s : ℕ) (r : S) → 1 ≤ s → loop f s r [] ≡ none
  unfolding walk
  loop_nil f zero r h = absurd (omega arith)
  loop_nil f (suc s) r h = refl

  -- A promoted node takes no sibling: it may as well stand one level higher.
  loop_promoted :
      (f s : ℕ) (r : S) (path : List A)
      → f % 2 ≡ 0
      → f ≡ s
      → loop f s r path ≡ loop (f / 2) (s / 2) r path
  unfolding walk
  loop_promoted zero zero r path even last = refl
  loop_promoted zero (suc s) r path even last = absurd (omega arith)
  loop_promoted (suc f) s r [] even last =
      loop_nil (suc f) s r (omega arith) ∙ sym (loop_nil (suc f / 2) (s / 2) r (omega arith))
  loop_promoted (suc f) s r (p ∷ path) even last =
      unfold ascend in
      elim (Bool-cases (suc f / 2 % 2 == 1)) [
        | inl e ↦ ground arith
        | inr e ↦ ground (arith, ascend_fuel f (suc f / 2) (suc f / 2) (s / 2))
      ]

  loop_left :
      (f s : ℕ) (r : S) (p : A) (path : List A)
      → f ≤ s
      → f % 2 ≡ 1
      → loop f s r (p ∷ path) ≡ loop (f / 2) (s / 2) (left p r) path
  unfolding walk
  loop_left f s r p path inside odd = ground arith

  loop_right :
      (f s : ℕ) (r : S) (p : A) (path : List A)
      → f < s
      → f % 2 ≡ 0
      → loop f s r (p ∷ path) ≡ loop (f / 2) (s / 2) (right r p) path
  unfolding walk
  loop_right f s r p path inside even = ground arith

  -- Below height h the loop and the climb agree, whatever the path.
  pub walk-climb :
      (h f s : ℕ) (r : S) (path : List A)
      → f ≤ s
      → s < 2 ^ h
      → at_root (walk f s r path) ≡ climb left right h f s r path
  walk-climb zero zero zero r [] inside high = unfold walk climb in refl
  walk-climb zero zero zero r (p ∷ path) inside high = unfold walk climb in refl
  walk-climb zero (suc f) zero r path inside high = absurd (omega arith)
  walk-climb zero f (suc s) r path inside high = absurd (omega arith)
  walk-climb (suc h) f s r [] inside high =
      let above = walk-climb h (f / 2) (s / 2) r [] (omega arith) (omega (arith, pow-suc 2 h)) in
      elim (Node-cases f s inside) [
        | inl odd ↦ loop_nil f s r (omega arith) ∙ sym (climb_stops left right h f s r (inl odd))
        | inr (inl (even, last)) ↦
            loop_promoted f s r [] even last
            ∙ above
            ∙ sym (climb_promoted left right h f s r [] even last)
        | inr (inr (even, more)) ↦
            loop_nil f s r (omega arith) ∙ sym (climb_stops left right h f s r (inr (even, more)))
      ]
  walk-climb (suc h) f s r (p ∷ path) inside high =
      let above = λ (r' : S) (rest : List A).
        walk-climb h (f / 2) (s / 2) r' rest (omega arith) (omega (arith, pow-suc 2 h)) in
      elim (Node-cases f s inside) [
        | inl odd ↦
            loop_left f s r p path inside odd
            ∙ above (left p r) path
            ∙ sym (climb_left left right h f s r p path odd)
        | inr (inl (even, last)) ↦
            loop_promoted f s r (p ∷ path) even last
            ∙ above r (p ∷ path)
            ∙ sym (climb_promoted left right h f s r (p ∷ path) even last)
        | inr (inr (even, more)) ↦
            loop_right f s r p path more even
            ∙ above (right r p) path
            ∙ sym (climb_right left right h f s r p path even more)
      ]

module _ (sha256 : Bytes → Bytes) where
  -- Both roots of `verify_consistency` take a sibling on the left, only the second one on the right.
  abbrev pub both_left : Bytes → Bytes × Bytes → Bytes × Bytes
  both_left c rs = (internal_hash sha256 c (rs.0), internal_hash sha256 c (rs.1))

  abbrev pub second_right : Bytes × Bytes → Bytes → Bytes × Bytes
  second_right rs c = (rs.0, internal_hash sha256 (rs.1) c)

  inclusion_loop-walk :
      (f s : ℕ) (r : Bytes) (path : List Bytes)
      → inclusion_loop sha256 f s r path
        ≡ walk (internal_hash sha256) (internal_hash sha256) f s r path
  unfolding inclusion_loop walk
  inclusion_loop-walk f s r [] = refl
  inclusion_loop-walk f s r (p ∷ path) =
      let up = ascend f f s in
      rw
        (
          inclusion_loop-walk (up.0 / 2) (up.1 / 2) (internal_hash sha256 p r) path,
          inclusion_loop-walk (f / 2) (s / 2) (internal_hash sha256 p r) path,
          inclusion_loop-walk (f / 2) (s / 2) (internal_hash sha256 r p) path,
        )
        refl

  consistency_loop-walk :
      (f s : ℕ) (fr sr : Bytes) (path : List Bytes)
      → at_roots (consistency_loop sha256 f s fr sr path)
        ≡ at_root (walk both_left second_right f s (fr, sr) path)
  unfolding consistency_loop walk
  consistency_loop-walk f zero fr sr [] = refl
  consistency_loop-walk f (suc s) fr sr [] = refl
  consistency_loop-walk f s fr sr (c ∷ path) =
      let up = ascend f f s in
      let fr' = internal_hash sha256 c fr in
      let sr' = internal_hash sha256 c sr in
      ground (
        arith,
        consistency_loop-walk (up.0 / 2) (up.1 / 2) fr' sr' path,
        consistency_loop-walk (f / 2) (s / 2) fr' sr' path,
        consistency_loop-walk (f / 2) (s / 2) fr (internal_hash sha256 sr c) path,
      )

  pub loop-climb :
      (h f s : ℕ) (r : Bytes) (path : List Bytes)
      → f ≤ s
      → s < 2 ^ h
      → at_root (inclusion_loop sha256 f s r path)
        ≡ climb (internal_hash sha256) (internal_hash sha256) h f s r path
  loop-climb h f s r path inside high =
      let step = internal_hash sha256 in
      rw (inclusion_loop-walk f s r path) (walk-climb step step h f s r path inside high)

  pub consistency_loop-climb :
      (h f s : ℕ) (fr sr : Bytes) (path : List Bytes)
      → f ≤ s
      → s < 2 ^ h
      → at_roots (consistency_loop sha256 f s fr sr path)
        ≡ climb both_left second_right h f s (fr, sr) path
  consistency_loop-climb h f s fr sr path inside high =
      consistency_loop-walk f s fr sr path
      ∙ walk-climb both_left second_right h f s (fr, sr) path inside high
