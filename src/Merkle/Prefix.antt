-- ===== src/Merkle/Prefix.antt =====
-- A climb that carries a node of an older tree along with one of a newer tree, and reaches both
-- roots, shows that the older tree's nodes stand in the newer one, or that two different pairs of
-- nodes have one parent.
use signet_drive.Base.{ℕ, zero, suc, ◌-◌, ◌+◌, ◌/◌, ◌%◌, ◌≤◌, ◌<◌, ◌≡◌, refl, ap, arith, sym}
use signet_drive.Base.{List, [], ◌∷◌, length, take, ◌∙◌, ◌⊎◌, inl, inr, some, All}
use signet_drive.Merkle.Levels.{pair, up, double, double_lem, at_some, All-at, All-pair}
use signet_drive.Merkle.Climb.{
  climb, climb_left, climb_promoted, climb_right, climb_stops, Node-cases,
}
use signet_drive.Merkle.Climb.{
  half_fits, half_inside, parent_of_odd, parent_of_even, parent_of_last,
}
use signet_drive.Merkle.Agree.{Agree, take_one_more, take_to, take-pair, one_parent}

module _ {A : Type 0} (node : A → A → A) (P : A → Type 0) (Bad : Type 0)
    (node_P : (a b : A) → P (node a b))
    (node_inj : (a b c d : A)
      → P a
      → P b
      → P c
      → P d
      → node a b ≡ node c d
      → ((a ≡ c) × (b ≡ d)) ⊎ Bad) where
  abbrev both_left : A → A × A → A × A
  both_left c rs = (node c (rs.0), node c (rs.1))

  abbrev second_right : A × A → A → A × A
  second_right rs c = (rs.0, node (rs.1) c)

  -- One level, given the claim for the level above.
  module _ (h f s : ℕ) (xs ys : List A) (old_fits : length xs ≡ suc f)
      (new_fits : length ys ≡ suc s) (inside : f ≤ s) (px : All P xs) (py : All P ys) (fr sr : A)
      (pf : P fr) (ps : P sr) where
    Agree-odd :
        (c : A)
        → P c
        → f % 2 ≡ 1
        → Agree (f / 2) (pair node xs) (pair node ys) (node c fr) (node c sr)
        → Agree f xs ys fr sr ⊎ Bad
    Agree-odd c pc odd above =
        let (a, ha) = at_some (f - 1) xs (omega arith) in
        let (b, hb) = at_some f xs (omega arith) in
        let (a', ha') = at_some (f - 1) ys (omega arith) in
        let (b', hb') = at_some f ys (omega arith) in
        let old_parent = parent_of_odd node xs f f old_fits (omega arith) odd ha hb in
        let new_parent = parent_of_odd node ys f s new_fits inside odd ha' hb' in
        elim (one_parent node P Bad node_P node_inj (f / 2) (pair node xs) (All-at P _ xs px ha)
          (All-at P _ xs px hb) pc pf old_parent (above.old_at)) [
            | inr bad ↦ inr bad
            | inl old ↦
                elim (one_parent node P Bad node_P node_inj (f / 2) (pair node ys)
                  (All-at P _ ys py ha') (All-at P _ ys py hb') pc ps new_parent (above.new_at)) [
                    | inr bad ↦ inr bad
                    | inl new ↦
                        elim (take-pair node P Bad node_P node_inj (f / 2) xs ys
                          (omega (arith, double_lem (f / 2))) (omega (arith, double_lem (f / 2))) px
                          py (above.before)) [
                            | inr bad ↦ inr bad
                            | inl same ↦
                                let left : take (f - 1) xs ≡ take (f - 1) ys =
                                  take_to (double (f / 2)) (f - 1) xs ys
                                    (omega (arith, double_lem (f / 2))) same in
                                let join = λ (z w : A) (q : z ≡ w). ap (λ (n : A). n ∷ []) q in
                                let more =
                                  take_one_more (f - 1) xs ys left (ha ∙ join a c (old.0))
                                    (ha' ∙ join a' c (new.0)) in
                                inl (record {
                                  before = take_to (suc (f - 1)) f xs ys (omega arith) more;
                                  old_at = hb ∙ join b fr (old.1);
                                  new_at = hb' ∙ join b' sr (new.1);
                                })
                          ]
                  ]
          ]

    -- The nodes before an even one.
    before_even :
        f % 2 ≡ 0
        → take (f / 2) (pair node xs) ≡ take (f / 2) (pair node ys)
        → (take f xs ≡ take f ys) ⊎ Bad
    before_even even e =
        elim (take-pair node P Bad node_P node_inj (f / 2) xs ys (omega (arith, double_lem (f / 2)))
          (omega (arith, double_lem (f / 2))) px py e) [
            | inl same ↦
                inl (take_to (double (f / 2)) f xs ys (omega (arith, double_lem (f / 2))) same)
            | inr bad ↦ inr bad
          ]

    Agree-last :
        f % 2 ≡ 0
        → f ≡ s
        → Agree (f / 2) (pair node xs) (pair node ys) fr sr
        → Agree f xs ys fr sr ⊎ Bad
    Agree-last even last above = elim (before_even even (above.before)) [
      | inr bad ↦ inr bad
      | inl before ↦ inl (record {
        before = before;
        old_at = sym (parent_of_last node xs f f old_fits (omega arith) even refl) ∙ above.old_at;
        new_at = sym (parent_of_last node ys f s new_fits inside even last) ∙ above.new_at;
      })
    ]

    Agree-even :
        (c : A)
        → P c
        → f % 2 ≡ 0
        → f < s
        → Agree (f / 2) (pair node xs) (pair node ys) fr (node sr c)
        → Agree f xs ys fr sr ⊎ Bad
    Agree-even c pc even more above =
        let (a, ha) = at_some f ys (omega arith) in
        let (b, hb) = at_some (f + 1) ys (omega arith) in
        let parent = parent_of_even node ys f s new_fits inside even ha hb in
        elim (one_parent node P Bad node_P node_inj (f / 2) (pair node ys) (All-at P _ ys py ha)
          (All-at P _ ys py hb) ps pc parent (above.new_at)) [
            | inr bad ↦ inr bad
            | inl same ↦ elim (before_even even (above.before)) [
              | inr bad ↦ inr bad
              | inl before ↦ inl (record {
                before = before;
                old_at =
                    sym (parent_of_last node xs f f old_fits (omega arith) even refl)
                    ∙ above.old_at;
                new_at = ha ∙ ap (λ n. n ∷ []) (same.0);
              })
            ]
          ]

    module _ (x y : A)
        (above : (fr' sr' : A) (path : List A)
          → P fr'
          → P sr'
          → All P path
          → climb both_left second_right h (f / 2) (s / 2) (fr', sr') path ≡ some (x, y)
          → Agree (f / 2) (pair node xs) (pair node ys) fr' sr' ⊎ Bad) where
      odd_case :
          (path : List A)
          → f % 2 ≡ 1
          → All P path
          → climb both_left second_right (suc h) f s (fr, sr) path ≡ some (x, y)
          → Agree f xs ys fr sr ⊎ Bad
      odd_case [] odd pp e =
          absurd (ground (arith, climb_stops both_left second_right h f s (fr, sr) (inl odd)))
      odd_case (c ∷ path) odd (pc, pp) e =
          elim (above (node c fr) (node c sr) path (node_P c fr) (node_P c sr) pp
            (sym (climb_left both_left second_right h f s (fr, sr) c path odd) ∙ e)) [
              | inl up ↦ Agree-odd c pc odd up
              | inr bad ↦ inr bad
            ]

      even_case :
          (path : List A)
          → f % 2 ≡ 0
          → f < s
          → All P path
          → climb both_left second_right (suc h) f s (fr, sr) path ≡ some (x, y)
          → Agree f xs ys fr sr ⊎ Bad
      even_case [] even more pp e =
          absurd
            (ground (arith, climb_stops both_left second_right h f s (fr, sr) (inr (even, more))))
      even_case (c ∷ path) even more (pc, pp) e =
          elim (above fr (node sr c) path pf (node_P sr c) pp
            (sym (climb_right both_left second_right h f s (fr, sr) c path even more) ∙ e)) [
              | inl up ↦ Agree-even c pc even more up
              | inr bad ↦ inr bad
            ]

      last_case :
          (path : List A)
          → f % 2 ≡ 0
          → f ≡ s
          → All P path
          → climb both_left second_right (suc h) f s (fr, sr) path ≡ some (x, y)
          → Agree f xs ys fr sr ⊎ Bad
      last_case path even last pp e =
          elim (above fr sr path pf ps pp
            (sym (climb_promoted both_left second_right h f s (fr, sr) path even last) ∙ e)) [
              | inl up ↦ Agree-last even last up
              | inr bad ↦ inr bad
            ]

  pub climb_agrees :
      (h f s : ℕ) (xs ys : List A) (x y fr sr : A) (path : List A)
      → length xs ≡ suc f
      → length ys ≡ suc s
      → f ≤ s
      → up node h xs ≡ x ∷ []
      → up node h ys ≡ y ∷ []
      → All P xs
      → All P ys
      → P fr
      → P sr
      → All P path
      → climb both_left second_right h f s (fr, sr) path ≡ some (x, y)
      → Agree f xs ys fr sr ⊎ Bad
  climb_agrees zero f s xs ys x y fr sr (c ∷ path) hx hy inside rx ry px py pf ps pp e =
      absurd (unfold climb in ground arith)
  climb_agrees zero f s xs ys x y fr sr [] hx hy inside rx ry px py pf ps pp e =
      let old : x ≡ fr = unfold climb in ground arith in
      let new : y ≡ sr = unfold climb in ground arith in
      let single : f ≡ 0 = omega (arith, ap length rx) in
      inl (
        rw (single) (record {
          before = refl;
          old_at = rw rx (ap (λ n. n ∷ []) old);
          new_at = rw ry (ap (λ n. n ∷ []) new);
        }))
  climb_agrees (suc h) f s xs ys x y fr sr path hx hy inside rx ry px py pf ps pp e =
      let above = λ (fr' sr' : A) (rest : List A) (pf' : P fr') (ps' : P sr') (pr : All P rest).
        climb_agrees h (f / 2) (s / 2) (pair node xs) (pair node ys) x y fr' sr' rest
          (half_fits node xs f f hx (omega arith)) (half_fits node ys f s hy inside)
          (half_inside node ys f s hy inside) rx ry (All-pair node P xs node_P px)
          (All-pair node P ys node_P py) pf' ps' pr in
      elim (Node-cases f s inside) [
        | inl odd ↦ odd_case h f s xs ys hx hy inside px py fr sr pf ps x y above path odd pp e
        | inr (inl (even, last)) ↦
            last_case h f s xs ys hx hy inside px py fr sr pf ps x y above path even last pp e
        | inr (inr (even, more)) ↦
            even_case h f s xs ys hx hy inside px py fr sr pf ps x y above path even more pp e
      ]
