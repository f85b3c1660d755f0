-- ===== src/Merkle/Siblings.antt =====
-- The siblings of a node in a list of two parts: those of its part, and the root of the other.
use signet_drive.Base.{ℕ, zero, suc, ◌+◌, ◌-◌, ◌*◌, ◌/◌, ◌%◌, ◌^◌, ◌≤◌, ◌<◌, ◌≡◌, refl, ap, ap₂}
use signet_drive.Base.{List, [], ◌∷◌, ◌++◌, length, arith, sym, ◌∙◌, inl, inr}
use signet_drive.Base.{append_assoc, Bool-cases, ◌==◌}
use signet_drive.Merkle.Levels.{
  at, at-append_left, at-append_right, pair, up, pair-append, length-pair,
}
use signet_drive.Merkle.Levels.{up-append}
use signet_drive.Merkle.Climb.{sibling, siblings}
use native.Mathlib.Nat.{pow-suc}

-- The index of the ancestor at height `d`.
shr : ℕ → ℕ → ℕ
shr zero f = f
shr (suc d) f = shr d (f / 2)

shr_lem : (d c f : ℕ) → 2 ^ d * c ≤ f → f < 2 ^ d * c + 2 ^ d → shr d f ≡ c
unfolding shr
shr_lem zero c f lo hi = omega arith
shr_lem (suc d) c f lo hi =
    let twice : 2 ^ suc d * c ≡ 2 * (2 ^ d * c) =
      omega (arith, ap (λ (t : ℕ). t * c) (pow-suc 2 d)) in
    shr_lem d c (f / 2) (omega (arith, pow-suc 2 d, twice)) (omega (arith, pow-suc 2 d, twice))

module _ {A : Type 0} (join : A → A → A) where
  sibling-append_left :
      (f : ℕ) (xs ys : List A)
      → length xs % 2 ≡ 0
      → f < length xs
      → sibling f (xs ++ ys) ≡ sibling f xs
  sibling-append_left f xs ys even inside = elim (Bool-cases (f % 2 == 1)) [
    | inl e ↦ rw e (at-append_left (f - 1) xs ys (omega arith))
    | inr e ↦ rw e (at-append_left (f + 1) xs ys (ground arith))
  ]

  sibling-append_right :
      (f : ℕ) (xs ys : List A)
      → length xs % 2 ≡ 0
      → length xs ≤ f
      → sibling f (xs ++ ys) ≡ sibling (f - length xs) ys
  sibling-append_right f xs ys even inside =
      let same : f % 2 ≡ (f - length xs) % 2 = omega arith in
      elim (Bool-cases ((f - length xs) % 2 == 1)) [
        | inl e ↦
            rw (same, e)
              (at-append_right (f - 1) xs ys (ground arith) ∙ ap (λ i. at i ys) (omega arith))
        | inr e ↦
            rw (same, e)
              (at-append_right (f + 1) xs ys (omega arith) ∙ ap (λ i. at i ys) (omega arith))
      ]

  siblings-append_left :
      (d c f : ℕ) (xs ys : List A)
      → length xs ≡ 2 ^ d * c
      → f < length xs
      → siblings join d (xs ++ ys) f ≡ siblings join d xs f
  unfolding siblings
  siblings-append_left zero c f xs ys size inside = refl
  siblings-append_left (suc d) c f xs ys size inside =
      let twice : 2 ^ suc d * c ≡ 2 * (2 ^ d * c) =
        omega (arith, ap (λ (t : ℕ). t * c) (pow-suc 2 d)) in
      let half : length (pair join xs) ≡ 2 ^ d * c = omega (arith, length-pair join xs) in
      let above =
        siblings-append_left d c (f / 2) (pair join xs) (pair join ys) half (omega arith) in
      ap₂ (λ us vs. us ++ vs) (sibling-append_left f xs ys (omega arith) inside)
        (ap (λ l. siblings join d l (f / 2)) (pair-append join xs ys (omega arith)) ∙ above)

  siblings-append_right :
      (d c f : ℕ) (xs ys : List A)
      → length xs ≡ 2 ^ d * c
      → length xs ≤ f
      → siblings join d (xs ++ ys) f ≡ siblings join d ys (f - length xs)
  unfolding siblings
  siblings-append_right zero c f xs ys size inside = refl
  siblings-append_right (suc d) c f xs ys size inside =
      let twice : 2 ^ suc d * c ≡ 2 * (2 ^ d * c) =
        omega (arith, ap (λ (t : ℕ). t * c) (pow-suc 2 d)) in
      let half : length (pair join xs) ≡ 2 ^ d * c = omega (arith, length-pair join xs) in
      let above =
        siblings-append_right d c (f / 2) (pair join xs) (pair join ys) half (omega arith) in
      let index : f / 2 - length (pair join xs) ≡ (f - length xs) / 2 = omega arith in
      ap₂ (λ us vs. us ++ vs) (sibling-append_right f xs ys (omega arith) inside)
        (ap (λ l. siblings join d l (f / 2)) (pair-append join xs ys (omega arith))
          ∙ above
          ∙ ap (siblings join d (pair join ys)) index)

  siblings-add :
      (d e h f : ℕ) (xs : List A)
      → h ≡ d + e
      → siblings join h xs f ≡ siblings join d xs f ++ siblings join e (up join d xs) (shr d f)
  unfolding siblings shr
  siblings-add zero e h f xs q = let same : h ≡ e = omega arith in rw same
  siblings-add (suc d) e zero f xs q = absurd (omega arith)
  siblings-add (suc d) e (suc h) f xs q =
      ap (λ l. sibling f xs ++ l) (siblings-add d e h (f / 2) (pair join xs) (omega arith))
      ∙ sym (append_assoc (sibling f xs) (siblings join d (pair join xs) (f / 2)) _)

  pub siblings-single : (e : ℕ) (x : A) → siblings join e (x ∷ []) 0 ≡ []
  unfolding siblings
  siblings-single zero x = refl
  siblings-single (suc e) x = siblings-single e x

  siblings-of_left : (e : ℕ) (a b : A) → siblings join (suc e) (a ∷ b ∷ []) 0 ≡ b ∷ []
  unfolding siblings
  siblings-of_left e a b = ap (λ l. b ∷ l) (siblings-single e (join a b))

  siblings-of_right : (e : ℕ) (a b : A) → siblings join (suc e) (a ∷ b ∷ []) 1 ≡ a ∷ []
  unfolding siblings
  siblings-of_right e a b = ap (λ l. a ∷ l) (siblings-single e (join a b))

  module _ (h d e : ℕ) (xs ys : List A) {a b : A} (height : h ≡ d + suc e)
      (size : length xs ≡ 2 ^ d) (left : up join d xs ≡ a ∷ [])
      (right : up join d ys ≡ b ∷ []) where
    meet : up join d (xs ++ ys) ≡ a ∷ b ∷ []
    meet = up-append join d 1 xs ys (omega arith) ∙ ap₂ (λ us vs. us ++ vs) left right

    pub siblings-left :
        (f : ℕ) → f < 2 ^ d → siblings join h (xs ++ ys) f ≡ siblings join d xs f ++ (b ∷ [])
    siblings-left f inside =
        let top : siblings join (suc e) (up join d (xs ++ ys)) (shr d f) ≡ b ∷ [] =
          rw (meet, shr_lem d 0 f (omega arith) (omega arith)) (siblings-of_left e a b) in
        siblings-add d (suc e) h f (xs ++ ys) height
        ∙ ap₂ (λ us vs. us ++ vs) (siblings-append_left d 1 f xs ys (omega arith) (omega arith)) top

    pub siblings-right :
        (f : ℕ)
        → 2 ^ d ≤ f
        → f < 2 ^ d + 2 ^ d
        → siblings join h (xs ++ ys) f ≡ siblings join d ys (f - 2 ^ d) ++ (a ∷ [])
    siblings-right f lo hi =
        let top : siblings join (suc e) (up join d (xs ++ ys)) (shr d f) ≡ a ∷ [] =
          rw (meet, shr_lem d 1 f (omega arith) (omega arith)) (siblings-of_right e a b) in
        let index : f - length xs ≡ f - 2 ^ d = omega arith in
        siblings-add d (suc e) h f (xs ++ ys) height
        ∙ ap₂ (λ us vs. us ++ vs)
            (siblings-append_right d 1 f xs ys (omega arith) (omega arith)
              ∙ ap (siblings join d ys) index)
            top
