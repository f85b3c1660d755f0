-- ===== src/Merkle/Agree.antt =====
-- Two trees' levels that agree before an index, and how agreement one level up comes down.
use signet_drive.Base.{ℕ, zero, suc, ◌≤◌, ◌≡◌, refl, ap, arith, sym}
use signet_drive.Base.{List, [], ◌∷◌, length, take, ◌∙◌, ◌⊎◌, inl, inr, All}
use signet_drive.Merkle.Levels.{at, pair, double}

module _ {A : Type 0} where
  -- The nodes before `f` are the same, and those at `f` are the two given ones.
  pub record Agree (f : ℕ) (xs ys : List A) (old new : A) : Type 0 where
    pub before : take f xs ≡ take f ys
    pub old_at : at f xs ≡ old ∷ []
    pub new_at : at f ys ≡ new ∷ []

  pub take_one_more :
      (i : ℕ) (xs ys : List A) {a : A}
      → take i xs ≡ take i ys
      → at i xs ≡ a ∷ []
      → at i ys ≡ a ∷ []
      → take (suc i) xs ≡ take (suc i) ys
  take_one_more i [] ys e p q = absurd (ground (arith, ap length p))
  take_one_more i (x ∷ xs) [] e p q = absurd (ground (arith, ap length q))
  take_one_more zero (x ∷ xs) (y ∷ ys) e p q = ground arith
  take_one_more (suc i) (x ∷ xs) (y ∷ ys) e p q =
      let below : take i xs ≡ take i ys = ground arith in
      let same : x ≡ y = ground arith in let more = take_one_more i xs ys below p q in ground arith

  pub take_to : (i j : ℕ) (xs ys : List A) → i ≡ j → take i xs ≡ take i ys → take j xs ≡ take j ys
  take_to i j xs ys e h = rw (← e) h

module _ {A : Type 0} (node : A → A → A) (P : A → Type 0) (Bad : Type 0)
    (node_P : (a b : A) → P (node a b))
    (node_inj : (a b c d : A)
      → P a
      → P b
      → P c
      → P d
      → node a b ≡ node c d
      → ((a ≡ c) × (b ≡ d)) ⊎ Bad) where
  -- Levels that agree one step up agree on both children of what agrees there.
  pub take-pair :
      (k : ℕ) (xs ys : List A)
      → double k ≤ length xs
      → double k ≤ length ys
      → All P xs
      → All P ys
      → take k (pair node xs) ≡ take k (pair node ys)
      → (take (double k) xs ≡ take (double k) ys) ⊎ Bad
  take-pair zero xs ys hx hy px py e = inl refl
  take-pair (suc k) [] ys hx hy px py e = absurd (omega arith)
  take-pair (suc k) (a ∷ []) ys hx hy px py e = absurd (omega arith)
  take-pair (suc k) (a ∷ b ∷ xs) [] hx hy px py e = absurd (omega arith)
  take-pair (suc k) (a ∷ b ∷ xs) (c ∷ []) hx hy px py e = absurd (omega arith)
  take-pair (suc k) (a ∷ b ∷ xs) (c ∷ d ∷ ys) hx hy (pa, (pb, pxs)) (pc, (pd, pys)) e =
      let parent : node a b ≡ node c d = ground arith in
      let above : take k (pair node xs) ≡ take k (pair node ys) = ground arith in
      elim (node_inj a b c d pa pb pc pd parent) [
        | inr bad ↦ inr bad
        | inl same ↦ elim (take-pair k xs ys (omega arith) (omega arith) pxs pys above) [
          | inr bad ↦ inr bad
          | inl rest ↦ inl (ground (arith, same.0, same.1))
        ]
      ]

  pub one_parent :
      {a b c d : A} (i : ℕ) (level : List A)
      → P a
      → P b
      → P c
      → P d
      → at i level ≡ node a b ∷ []
      → at i level ≡ node c d ∷ []
      → ((a ≡ c) × (b ≡ d)) ⊎ Bad
  one_parent {a} {b} {c} {d} i level pa pb pc pd p q =
      let same : node a b ≡ node c d = ground (arith, sym p ∙ q) in
      node_inj a b c d pa pb pc pd same
