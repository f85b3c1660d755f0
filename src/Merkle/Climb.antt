-- ===== src/Merkle/Climb.antt =====
-- The walk from a leaf to the root by levels, and the siblings that it takes: an independent
-- description of `verify_inclusion` and of the path that `inclusion_proof` builds.
use signet_drive.Base.{ℕ, zero, suc, ◌+◌, ◌-◌, ◌/◌, ◌%◌, ◌≤◌, ◌<◌, ◌≡◌, ap, arith}
use signet_drive.Base.{List, [], ◌∷◌, ◌++◌, length, ◌==◌, if◌then◌else◌, ◌∙◌, ◌⊎◌, inl, inr}
use signet_drive.Base.{Bool-cases, Option, none, some, ==→eq, sym}
use signet_drive.Merkle.Levels.{
  at, double, double_lem, pair, up, length-pair, pair-at, pair-at_last,
}
use signet_drive.Merkle.Levels.{at_some, at_none}

-- A left child's sibling is to the right, a right child's to the left, and an odd last node has none.
pub Node-cases : (f s : ℕ) → f ≤ s → (f % 2 ≡ 1) ⊎ ((f % 2 ≡ 0) × (f ≡ s) ⊎ (f % 2 ≡ 0) × (f < s))
Node-cases f s h = elim (Bool-cases (f % 2 == 1)) [
  | inl e ↦ inl (==→eq _ _ e)
  | inr e ↦ inr (elim (Bool-cases (f == s)) [
    | inl q ↦ inl (ground arith, ==→eq _ _ q)
    | inr q ↦ inr (ground arith, ground arith)
  ])
]

module _ {ℓ} {A S : Type ℓ} where
  unfoldable pub head_to : List A → (A → List A → Option S) → Option S
  head_to [] k = none
  head_to (p ∷ path) k = k p path

-- The climb, for what is carried upwards and how it takes a sibling from either side.
module _ {ℓ} {A S : Type ℓ} (join_left : A → S → S) (join_right : S → A → S) where
  -- From node `f` of a level whose last node is `s`, up `h` levels.
  unfoldable pub climb : ℕ → ℕ → ℕ → S → List A → Option S
  climb zero f s r [] = some r
  climb zero f s r (p ∷ path) = none
  climb (suc h) f s r path =
      let left = head_to path (λ p rest. climb h (f / 2) (s / 2) (join_left p r) rest) in
      let right = head_to path (λ p rest. climb h (f / 2) (s / 2) (join_right r p) rest) in
      let promoted = climb h (f / 2) (s / 2) r path in
      if f % 2 == 1 then left else if f == s then promoted else right

  pub climb_left :
      (h f s : ℕ) (r : S) (p : A) (path : List A)
      → f % 2 ≡ 1
      → climb (suc h) f s r (p ∷ path) ≡ climb h (f / 2) (s / 2) (join_left p r) path
  unfolding climb head_to
  climb_left h f s r p path e = ground arith

  pub climb_promoted :
      (h f s : ℕ) (r : S) (path : List A)
      → f % 2 ≡ 0
      → f ≡ s
      → climb (suc h) f s r path ≡ climb h (f / 2) (s / 2) r path
  unfolding climb head_to
  climb_promoted h f s r path e q = ground arith

  pub climb_right :
      (h f s : ℕ) (r : S) (p : A) (path : List A)
      → f % 2 ≡ 0
      → f < s
      → climb (suc h) f s r (p ∷ path) ≡ climb h (f / 2) (s / 2) (join_right r p) path
  unfolding climb head_to
  climb_right h f s r p path e q = ground arith

  -- Without a sibling a climb goes no higher where it needs one.
  pub climb_stops :
      (h f s : ℕ) (r : S) → (f % 2 ≡ 1) ⊎ ((f % 2 ≡ 0) × (f < s)) → climb (suc h) f s r [] ≡ none
  unfolding climb head_to
  climb_stops h f s r e = ground arith

module _ {ℓ} {A : Type ℓ} where
  -- The sibling of node `f`, if it has one.
  abbrev pub sibling : ℕ → List A → List A
  sibling f level = if f % 2 == 1 then at (f - 1) level else at (f + 1) level

module _ {ℓ} {A : Type ℓ} (node : A → A → A) where
  unfoldable pub siblings : ℕ → List A → ℕ → List A
  siblings zero level f = []
  siblings (suc h) level f = sibling f level ++ siblings h (pair node level) (f / 2)

  module _ (level : List A) (f s : ℕ) (fits : length level ≡ suc s) (inside : f ≤ s) where
    pub half_fits : length (pair node level) ≡ suc (s / 2)
    half_fits = omega (arith, length-pair node level)

    pub half_inside : f / 2 ≤ s / 2
    half_inside = omega arith

    pub parent_of_odd :
        {a b : A}
        → f % 2 ≡ 1
        → at (f - 1) level ≡ a ∷ []
        → at f level ≡ b ∷ []
        → at (f / 2) (pair node level) ≡ node a b ∷ []
    parent_of_odd e p q =
        let i : f - 1 ≡ double (f / 2) = omega (arith, double_lem (f / 2)) in
        let j : f ≡ suc (double (f / 2)) = omega (arith, double_lem (f / 2)) in
        pair-at node (f / 2) level (ap (λ k. at k level) (sym i) ∙ p)
          (ap (λ k. at k level) (sym j) ∙ q)

    pub parent_of_even :
        {a b : A}
        → f % 2 ≡ 0
        → at f level ≡ a ∷ []
        → at (f + 1) level ≡ b ∷ []
        → at (f / 2) (pair node level) ≡ node a b ∷ []
    parent_of_even e p q =
        let i : f ≡ double (f / 2) = omega (arith, double_lem (f / 2)) in
        let j : f + 1 ≡ suc (double (f / 2)) = omega (arith, double_lem (f / 2)) in
        pair-at node (f / 2) level (ap (λ k. at k level) (sym i) ∙ p)
          (ap (λ k. at k level) (sym j) ∙ q)

    pub parent_of_last : f % 2 ≡ 0 → f ≡ s → at (f / 2) (pair node level) ≡ at f level
    parent_of_last e q =
        let i : f ≡ double (f / 2) = omega (arith, double_lem (f / 2)) in
        let j : f + 1 ≡ suc (double (f / 2)) = omega (arith, double_lem (f / 2)) in
        pair-at_last node (f / 2) level
          (ap (λ k. at k level) (sym j) ∙ at_none (f + 1) level (omega arith))
        ∙ ap (λ k. at k level) (sym i)

  siblings_odd :
      (h f : ℕ) (level : List A) {p : A}
      → f % 2 ≡ 1
      → at (f - 1) level ≡ p ∷ []
      → siblings (suc h) level f ≡ p ∷ siblings h (pair node level) (f / 2)
  unfolding siblings
  siblings_odd h f level e q = ground arith

  siblings_even :
      (h f : ℕ) (level : List A) {p : A}
      → f % 2 ≡ 0
      → at (f + 1) level ≡ p ∷ []
      → siblings (suc h) level f ≡ p ∷ siblings h (pair node level) (f / 2)
  unfolding siblings
  siblings_even h f level e q = ground arith

  siblings_last :
      (h f : ℕ) (level : List A)
      → f % 2 ≡ 0
      → at (f + 1) level ≡ []
      → siblings (suc h) level f ≡ siblings h (pair node level) (f / 2)
  unfolding siblings
  siblings_last h f level e q = ground arith

  -- With its own siblings a node reaches the root of its level.
  pub climb-siblings :
      (h f s : ℕ) (level : List A) (x r : A)
      → length level ≡ suc s
      → f ≤ s
      → up node h level ≡ x ∷ []
      → at f level ≡ r ∷ []
      → climb node node h f s r (siblings h level f) ≡ some x
  unfolding siblings climb
  climb-siblings zero f s [] x r fits inside root own = absurd (omega arith)
  climb-siblings zero zero s (y ∷ rest) x r fits inside root own = ground arith
  climb-siblings zero (suc f) s (y ∷ rest) x r fits inside root own =
      absurd (ground (arith, ap length root))
  climb-siblings (suc h) f s level x r fits inside root own = elim (Node-cases f s inside) [
    | inl odd ↦
        let (p, hp) = at_some (f - 1) level (omega arith) in
        rw (siblings_odd h f level odd hp) (
          climb_left node node h f s r p _ odd
          ∙ climb-siblings h (f / 2) (s / 2) (pair node level) x (node p r)
              (half_fits level f s fits inside) (half_inside level f s fits inside) root
              (parent_of_odd level f s fits inside odd hp own))
    | inr (inl (even, last)) ↦
        rw (siblings_last h f level even (at_none (f + 1) level (omega arith))) (
          climb_promoted node node h f s r _ even last
          ∙ climb-siblings h (f / 2) (s / 2) (pair node level) x r (half_fits level f s fits inside)
              (half_inside level f s fits inside) root
              (parent_of_last level f s fits inside even last ∙ own))
    | inr (inr (even, more)) ↦
        let (p, hp) = at_some (f + 1) level (omega arith) in
        rw (siblings_even h f level even hp) (
          climb_right node node h f s r p _ even more
          ∙ climb-siblings h (f / 2) (s / 2) (pair node level) x (node r p)
              (half_fits level f s fits inside) (half_inside level f s fits inside) root
              (parent_of_even level f s fits inside even own hp))
  ]
