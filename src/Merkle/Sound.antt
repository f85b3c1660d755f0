-- ===== src/Merkle/Sound.antt =====
-- A climb that reaches the root started from the node of its index, or two different pairs of nodes
-- have one parent.
use signet_drive.Base.{ℕ, zero, suc, ◌-◌, ◌+◌, ◌/◌, ◌%◌, ◌≤◌, ◌≡◌, ap, arith, sym}
use signet_drive.Base.{List, [], ◌∷◌, length, ◌∙◌, ◌⊎◌, inl, inr, some, All}
use signet_drive.Merkle.Levels.{at, pair, up, at_some, All-at, All-pair}
use signet_drive.Merkle.Climb.{climb, climb_left, climb_promoted, climb_right, Node-cases, head_to}
use signet_drive.Merkle.Climb.{
  half_fits, half_inside, parent_of_odd, parent_of_even, parent_of_last,
}

module _ {A : Type 0} (node : A → A → A) (P : A → Type 0) (Bad : Type 0)
    (node_P : (a b : A) → P (node a b))
    (node_inj : (a b c d : A)
      → P a
      → P b
      → P c
      → P d
      → node a b ≡ node c d
      → ((a ≡ c) × (b ≡ d)) ⊎ Bad) where
  singles : {a b : A} → a ∷ [] ≡ b ∷ [] → a ≡ b
  singles e = ground arith

  climb_odd_none : (h f s : ℕ) (r x : A) → f % 2 ≡ 1 → climb node node (suc h) f s r [] ≡ some x → ⊥
  unfolding climb head_to
  climb_odd_none h f s r x e q = ground arith

  climb_even_none :
      (h f s : ℕ) (r x : A) → f % 2 ≡ 0 → suc f ≤ s → climb node node (suc h) f s r [] ≡ some x → ⊥
  unfolding climb head_to
  climb_even_none h f s r x e q c = ground arith

  -- One level, given the claim for the level above.
  module _ (h f s : ℕ) (level : List A) (x r : A) (fits : length level ≡ suc s) (inside : f ≤ s)
      (ps : All P level) (pr : P r)
      (above : (r' : A) (path : List A)
        → P r'
        → All P path
        → climb node node h (f / 2) (s / 2) r' path ≡ some x
        → (at (f / 2) (pair node level) ≡ r' ∷ []) ⊎ Bad) where
    odd_case :
        (path : List A)
        → f % 2 ≡ 1
        → All P path
        → climb node node (suc h) f s r path ≡ some x
        → (at f level ≡ r ∷ []) ⊎ Bad
    odd_case [] odd pp e = absurd (climb_odd_none h f s r x odd e)
    odd_case (p ∷ path) odd (pp, pps) e =
        let (a, ha) = at_some (f - 1) level (omega arith) in
        let (b, hb) = at_some f level (omega arith) in
        elim (above (node p r) path (node_P p r) pps
          (sym (climb_left node node h f s r p path odd) ∙ e)) [
            | inl found ↦
                elim (node_inj a b p r (All-at P _ level ps ha) (All-at P _ level ps hb) pp pr
                  (singles (sym (parent_of_odd node level f s fits inside odd ha hb) ∙ found))) [
                    | inl same ↦ inl (hb ∙ ap (λ n. n ∷ []) same.1)
                    | inr bad ↦ inr bad
                  ]
            | inr bad ↦ inr bad
          ]

    even_case :
        (path : List A)
        → f % 2 ≡ 0
        → suc f ≤ s
        → All P path
        → climb node node (suc h) f s r path ≡ some x
        → (at f level ≡ r ∷ []) ⊎ Bad
    even_case [] even more pp e = absurd (climb_even_none h f s r x even more e)
    even_case (p ∷ path) even more (pp, pps) e =
        let (a, ha) = at_some f level (omega arith) in
        let (b, hb) = at_some (f + 1) level (omega arith) in
        elim (above (node r p) path (node_P r p) pps
          (sym (climb_right node node h f s r p path even more) ∙ e)) [
            | inl found ↦
                elim (node_inj a b r p (All-at P _ level ps ha) (All-at P _ level ps hb) pr pp
                  (singles (sym (parent_of_even node level f s fits inside even ha hb) ∙ found))) [
                    | inl same ↦ inl (ha ∙ ap (λ n. n ∷ []) same.0)
                    | inr bad ↦ inr bad
                  ]
            | inr bad ↦ inr bad
          ]

    last_case :
        (path : List A)
        → f % 2 ≡ 0
        → f ≡ s
        → All P path
        → climb node node (suc h) f s r path ≡ some x
        → (at f level ≡ r ∷ []) ⊎ Bad
    last_case path even last pp e =
        elim (above r path pr pp (sym (climb_promoted node node h f s r path even last) ∙ e)) [
          | inl found ↦ inl (sym (parent_of_last node level f s fits inside even last) ∙ found)
          | inr bad ↦ inr bad
        ]

  pub climb_sound :
      (h f s : ℕ) (level : List A) (x r : A) (path : List A)
      → length level ≡ suc s
      → f ≤ s
      → up node h level ≡ x ∷ []
      → All P level
      → P r
      → All P path
      → climb node node h f s r path ≡ some x
      → (at f level ≡ r ∷ []) ⊎ Bad
  unfolding climb
  climb_sound zero f s [] x r path fits inside root ps pr pp e = absurd (omega arith)
  climb_sound zero zero s (y ∷ rest) x r [] fits inside root ps pr pp e = inl (ground arith)
  climb_sound zero (suc f) s (y ∷ rest) x r [] fits inside root ps pr pp e =
      absurd (ground (arith, ap length root))
  climb_sound zero f s (y ∷ rest) x r (p ∷ path) fits inside root ps pr pp e = cc
  climb_sound (suc h) f s level x r path fits inside root ps pr pp e =
      let above : (r' : A) (path' : List A)
          → P r'
          → All P path'
          → climb node node h (f / 2) (s / 2) r' path' ≡ some x
          → (at (f / 2) (pair node level) ≡ r' ∷ []) ⊎ Bad =
        λ r' path' pr' pp' e'.
          climb_sound h (f / 2) (s / 2) (pair node level) x r' path'
            (half_fits node level f s fits inside) (half_inside node level f s fits inside) root
            (All-pair node P level node_P ps) pr' pp' e' in
      elim (Node-cases f s inside) [
        | inl odd ↦ odd_case h f s level x r fits inside ps pr above path odd pp e
        | inr (inl (even, last)) ↦
            last_case h f s level x r fits inside ps pr above path even last pp e
        | inr (inr (even, more)) ↦
            even_case h f s level x r fits inside ps pr above path even more pp e
      ]
