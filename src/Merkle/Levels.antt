-- ===== src/Merkle/Levels.antt =====
-- A Merkle tree seen level by level: each level pairs the nodes of the one below and promotes an
-- odd last node. An independent description of the trees that merkle.rs builds by splitting.
use signet_drive.Base.{ℕ, zero, suc, ◌+◌, ◌-◌, ◌*◌, ◌/◌, ◌%◌, ◌^◌, ◌≤◌, ◌<◌, ◌≡◌, refl, ap, arith}
use signet_drive.Base.{List, [], ◌∷◌, ◌++◌, length, All, ◌∙◌}
use native.Mathlib.Nat.{pow-suc}

-- The node at an index, as a list of at most one.
module _ {ℓ} {A : Type ℓ} where
  abbrev pub at : ℕ → List A → List A
  at i [] = []
  at zero (x ∷ xs) = x ∷ []
  at (suc i) (x ∷ xs) = at i xs

  pub at-append_left : (i : ℕ) (xs ys : List A) → i < length xs → at i (xs ++ ys) ≡ at i xs
  at-append_left i [] ys h = absurd (omega arith)
  at-append_left zero (x ∷ xs) ys h = refl
  at-append_left (suc i) (x ∷ xs) ys h = at-append_left i xs ys (omega arith)

  pub at-append_right :
      (i : ℕ) (xs ys : List A) → length xs ≤ i → at i (xs ++ ys) ≡ at (i - length xs) ys
  at-append_right i [] ys h = ap (λ j. at j ys) (omega arith)
  at-append_right zero (x ∷ xs) ys h = absurd (omega arith)
  at-append_right (suc i) (x ∷ xs) ys h =
      at-append_right i xs ys (omega arith) ∙ ap (λ j. at j ys) (omega arith)

  pub at_some : (i : ℕ) (xs : List A) → i < length xs → (x : A) × (at i xs ≡ x ∷ [])
  at_some i [] h = absurd (omega arith)
  at_some zero (x ∷ xs) h = (x, refl)
  at_some (suc i) (x ∷ xs) h = at_some i xs (omega arith)

  pub at_none : (i : ℕ) (xs : List A) → length xs ≤ i → at i xs ≡ []
  at_none i [] h = refl
  at_none zero (x ∷ xs) h = absurd (omega arith)
  at_none (suc i) (x ∷ xs) h = at_none i xs (omega arith)

  pub All-at {κ} :
      (P : A → Type κ) (i : ℕ) (xs : List A) {x : A} → All P xs → at i xs ≡ x ∷ [] → P x
  All-at P i [] h e = absurd (ground (arith, ap length e))
  All-at P zero (y ∷ xs) {x} h e = let same : y ≡ x = ground arith in rw (← same) h.0
  All-at P (suc i) (y ∷ xs) h e = All-at P i xs h.1 e

abbrev pub double : ℕ → ℕ
double zero = zero
double (suc n) = suc (suc (double n))

pub double_lem : (n : ℕ) → double n ≡ 2 * n
double_lem zero = refl
double_lem (suc n) = omega (arith, double_lem n)

module _ {ℓ} {A : Type ℓ} (node : A → A → A) where
  abbrev pub pair : List A → List A
  pair [] = []
  pair (x ∷ []) = x ∷ []
  pair (x ∷ y ∷ rest) = node x y ∷ pair rest

  abbrev pub up : ℕ → List A → List A
  up zero level = level
  up (suc h) level = up h (pair level)

  pub length-pair : (xs : List A) → length (pair xs) ≡ (length xs + 1) / 2
  length-pair [] = refl
  length-pair (x ∷ []) = refl
  length-pair (x ∷ y ∷ rest) = omega (arith, length-pair rest)

  pub pair-append : (xs ys : List A) → length xs % 2 ≡ 0 → pair (xs ++ ys) ≡ pair xs ++ pair ys
  pair-append [] ys h = refl
  pair-append (x ∷ []) ys h = absurd (omega arith)
  pair-append (x ∷ y ∷ rest) ys h = ap (λ r. node x y ∷ r) (pair-append rest ys (omega arith))

  -- Levels of a left part of 2^d * c nodes and of the rest do not meet below height d.
  pub up-append :
      (d c : ℕ) (xs ys : List A) → length xs ≡ 2 ^ d * c → up d (xs ++ ys) ≡ up d xs ++ up d ys
  up-append zero c xs ys h = refl
  up-append (suc d) c xs ys h =
      rw (pair-append xs ys (omega (arith, pow-suc 2 d, ap (λ (t : ℕ). t * c) (pow-suc 2 d)))) (
        up-append d c (pair xs) (pair ys)
          (omega (arith, length-pair xs, ap (λ (t : ℕ). t * c) (pow-suc 2 d))))

  pub up-single : (h : ℕ) (x : A) → up h (x ∷ []) ≡ x ∷ []
  up-single zero x = refl
  up-single (suc h) x = up-single h x

  -- 2^h nodes or fewer have one ancestor at height h.
  pub up_root :
      (h : ℕ) (xs : List A) → 1 ≤ length xs → length xs ≤ 2 ^ h → (x : A) × (up h xs ≡ x ∷ [])
  up_root zero [] lo hi = absurd (omega arith)
  up_root zero (x ∷ []) lo hi = (x, refl)
  up_root zero (x ∷ y ∷ rest) lo hi = absurd (omega arith)
  up_root (suc h) xs lo hi =
      up_root h (pair xs) (omega (arith, length-pair xs))
        (omega (arith, length-pair xs, pow-suc 2 h))

  pub up-add : (d e h : ℕ) (xs : List A) → h ≡ d + e → up h xs ≡ up e (up d xs)
  up-add zero e h xs q = let same : h ≡ e = omega arith in rw same
  up-add (suc d) e zero xs q = absurd (omega arith)
  up-add (suc d) e (suc h) xs q = up-add d e h (pair xs) (omega arith)

  -- The parent of two nodes, and of a promoted one.
  pub pair-at :
      (g : ℕ) (xs : List A) {a b : A}
      → at (double g) xs ≡ a ∷ []
      → at (suc (double g)) xs ≡ b ∷ []
      → at g (pair xs) ≡ node a b ∷ []
  pair-at g [] p q = absurd (ground (arith, ap length p))
  pair-at g (x ∷ []) p q = absurd (ground (arith, ap length q))
  pair-at zero (x ∷ y ∷ rest) p q = ground arith
  pair-at (suc g) (x ∷ y ∷ rest) p q = pair-at g rest p q

  pub pair-at_last :
      (g : ℕ) (xs : List A) → at (suc (double g)) xs ≡ [] → at g (pair xs) ≡ at (double g) xs
  pair-at_last g [] q = refl
  pair-at_last zero (x ∷ []) q = refl
  pair-at_last (suc g) (x ∷ []) q = refl
  pair-at_last zero (x ∷ y ∷ rest) q = absurd (ground (arith, ap length q))
  pair-at_last (suc g) (x ∷ y ∷ rest) q = pair-at_last g rest q

  pub All-pair {κ} :
      (P : A → Type κ) (xs : List A) → ((a b : A) → P (node a b)) → All P xs → All P (pair xs)
  All-pair P [] k h = tt
  All-pair P (x ∷ []) k h = h
  All-pair P (x ∷ y ∷ rest) k h = (k x y, All-pair P rest k h.1.1)
