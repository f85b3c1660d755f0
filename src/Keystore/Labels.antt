-- ===== src/Keystore/Labels.antt =====
-- Labels are read back: cli/src/keystore/mod.rs, `KeyLabel`.
use signet_drive.Base.{ℕ, ◌-◌, ◌≡◌, ◌≢◌, refl, ap, ap₂, arith, sym, ◌∙◌, Bytes, Option, none, some}
use signet_drive.Base.{[], ◌∷◌, ◌++◌, length, take, drop, leb, bytes_eq, bytes_eq→eq, inl, inr}
use signet_drive.Base.{length-append, take-append, drop-append}
use signet_drive.Base.{append_inj, append_assoc, take-append-drop, Bool-cases, Option-cases}
use signet_drive.Base.{eq→bytes_eq, ◌&&◌}
use signet_drive.Base.Results.{ok, bind_ok, ok_inj}
use signet_drive.Keystore.{
  Purpose, signing, kem, signing_pq, kem_pq, suffix, strip_suffix, validate_handle,
}
use signet_drive.Keystore.{KeyLabel, parse, parse_suffix, check_expected, full}

strip_suffix-append : (h end : Bytes) → strip_suffix end (h ++ end) ≡ some h
unfolding strip_suffix
strip_suffix-append h end =
    let n : length (h ++ end) - length end ≡ length h = omega (arith, length-append h end) in
    rw n (
      ground (
        arith,
        length-append h end,
        eq→bytes_eq _ _ (drop-append h end (length h) refl),
        take-append h end (length h) refl,
      ))

strip_suffix-some :
    (end label : Bytes) {h : Bytes} → strip_suffix end label ≡ some h → h ++ end ≡ label
unfolding strip_suffix
strip_suffix-some end label {h} e =
    elim (Bool-cases
      (leb (length end) (length label) && bytes_eq (drop (length label - length end) label) end)) [
        | inr f ↦ absurd (ground arith)
        | inl t ↦
            let back : drop (length label - length end) label ≡ end =
              bytes_eq→eq _ _ (ground arith) in
            let front : take (length label - length end) label ≡ h = ground arith in
            ap (λ x. x ++ end) (sym front)
            ∙ ap (λ x. take (length label - length end) label ++ x) (sym back)
            ∙ take-append-drop (length label - length end) label
      ]

-- Two ends with one tail that differ before it are not ends of one label.
strip_suffix-other :
    (x s t : Bytes) (a b : ℕ) → a ≢ b → strip_suffix (s ++ (b ∷ t)) (x ++ (a ∷ t)) ≡ none
strip_suffix-other x s t a b differ =
    elim (Option-cases (strip_suffix (s ++ (b ∷ t)) (x ++ (a ∷ t)))) [
      | inl n ↦ n
      | inr (h, found) ↦
          let whole =
            append_assoc h s (b ∷ t) ∙ strip_suffix-some (s ++ (b ∷ t)) (x ++ (a ∷ t)) found in
          let size : length (h ++ s) ≡ length x =
            omega
              (arith, length-append (h ++ s) (b ∷ t), length-append x (a ∷ t), ap length whole) in
          let (_, tails) = append_inj (h ++ s) x size whole in absurd (differ (sym (ground arith)))
    ]

strip_suffix-after :
    (h init s t : Bytes) (a b : ℕ)
    → a ≢ b
    → strip_suffix (s ++ (b ∷ t)) (h ++ (init ++ (a ∷ t))) ≡ none
strip_suffix-after h init s t a b differ =
    ap (strip_suffix (s ++ (b ∷ t))) (sym (append_assoc h init (a ∷ t)))
    ∙ strip_suffix-other (h ++ init) s t a b differ

parse_suffix-full : (h : Bytes) (p : Purpose) → parse_suffix (h ++ suffix p) ≡ ok (h, p)
unfolding parse_suffix
parse_suffix-full h signing_pq = ground (arith, strip_suffix-append h (suffix signing_pq))
parse_suffix-full h kem_pq =
    let not_signing_pq : strip_suffix (suffix signing_pq) (h ++ suffix kem_pq) ≡ none =
      strip_suffix-after h (45 ∷ 107 ∷ 101 ∷ []) (45 ∷ 115 ∷ 105 ∷ 103 ∷ 110 ∷ 105 ∷ 110 ∷ [])
        (45 ∷ 112 ∷ 113 ∷ []) 109 103 (λ e. omega arith) in
    ground (arith, strip_suffix-append h (suffix kem_pq))
parse_suffix-full h signing =
    let not_signing_pq : strip_suffix (suffix signing_pq) (h ++ suffix signing) ≡ none =
      strip_suffix-after h (45 ∷ 115 ∷ 105 ∷ 103 ∷ 110 ∷ 105 ∷ 110 ∷ [])
        (45 ∷ 115 ∷ 105 ∷ 103 ∷ 110 ∷ 105 ∷ 110 ∷ 103 ∷ 45 ∷ 112 ∷ []) ([]) 103 113
        (λ e. omega arith) in
    let not_kem_pq : strip_suffix (suffix kem_pq) (h ++ suffix signing) ≡ none =
      strip_suffix-after h (45 ∷ 115 ∷ 105 ∷ 103 ∷ 110 ∷ 105 ∷ 110 ∷ [])
        (45 ∷ 107 ∷ 101 ∷ 109 ∷ 45 ∷ 112 ∷ []) ([]) 103 113 (λ e. omega arith) in
    ground (arith, strip_suffix-append h (suffix signing))
parse_suffix-full h kem =
    let not_signing_pq : strip_suffix (suffix signing_pq) (h ++ suffix kem) ≡ none =
      strip_suffix-after h (45 ∷ 107 ∷ 101 ∷ [])
        (45 ∷ 115 ∷ 105 ∷ 103 ∷ 110 ∷ 105 ∷ 110 ∷ 103 ∷ 45 ∷ 112 ∷ []) ([]) 109 113
        (λ e. omega arith) in
    let not_kem_pq : strip_suffix (suffix kem_pq) (h ++ suffix kem) ≡ none =
      strip_suffix-after h (45 ∷ 107 ∷ 101 ∷ []) (45 ∷ 107 ∷ 101 ∷ 109 ∷ 45 ∷ 112 ∷ []) ([]) 109 113
        (λ e. omega arith) in
    let not_signing : strip_suffix (suffix signing) (h ++ suffix kem) ≡ none =
      strip_suffix-after h (45 ∷ 107 ∷ 101 ∷ []) (45 ∷ 115 ∷ 105 ∷ 103 ∷ 110 ∷ 105 ∷ 110 ∷ []) ([])
        109 103 (λ e. omega arith) in
    ground (arith, strip_suffix-append h (suffix kem))

parse_suffix-label :
    (label h : Bytes) (p : Purpose) → parse_suffix label ≡ ok (h, p) → h ++ suffix p ≡ label
unfolding parse_suffix
parse_suffix-label label h p e = elim (Option-cases (strip_suffix (suffix signing_pq) label)) [
  | inr (x, f) ↦
      let (a, b) : (x ≡ h) × (signing_pq ≡ p) = ground (arith, f) in
      ap₂ (λ u v. u ++ suffix v) (sym a) (sym b) ∙ strip_suffix-some _ label f
  | inl n ↦ elim (Option-cases (strip_suffix (suffix kem_pq) label)) [
    | inr (x, f) ↦
        let (a, b) : (x ≡ h) × (kem_pq ≡ p) = ground (arith, n, f) in
        ap₂ (λ u v. u ++ suffix v) (sym a) (sym b) ∙ strip_suffix-some _ label f
    | inl m ↦ elim (Option-cases (strip_suffix (suffix signing) label)) [
      | inr (x, f) ↦
          let (a, b) : (x ≡ h) × (signing ≡ p) = ground (arith, n, m, f) in
          ap₂ (λ u v. u ++ suffix v) (sym a) (sym b) ∙ strip_suffix-some _ label f
      | inl o ↦ elim (Option-cases (strip_suffix (suffix kem) label)) [
        | inr (x, f) ↦
            let (a, b) : (x ≡ h) × (kem ≡ p) = ground (arith, n, m, o, f) in
            ap₂ (λ u v. u ++ suffix v) (sym a) (sym b) ∙ strip_suffix-some _ label f
        | inl q ↦ absurd (ground arith)
      ]
    ]
  ]
]

-- The label of a valid handle and any purpose is parsed back to them.
pub parse-full : (l : KeyLabel) → validate_handle l.handle ≡ ok tt → parse (full l) none ≡ ok l
unfolding parse full check_expected
parse-full l valid = rw (parse_suffix-full l.handle l.purpose) (rw valid refl)

-- A label that parses is the label of what it parses to, whose handle is valid.
pub full-parse :
    (label : Bytes) (expected : Option Purpose) {l : KeyLabel}
    → parse label expected ≡ ok l
    → (full l ≡ label) × (validate_handle l.handle ≡ ok tt)
unfolding parse full
full-parse label expected {l} e =
    let ((h, p), found, e₁) = bind_ok (parse_suffix label) _ e in
    let (u, as_expected, e₂) = bind_ok (check_expected label expected p) _ e₁ in
    let (v, valid, e₃) = bind_ok (validate_handle h) _ e₂ in
    let same = ok_inj e₃ in
    (
      ap (λ x. x.handle ++ suffix x.purpose) (sym same) ∙ parse_suffix-label label h p found,
      ap (λ x. validate_handle x.handle) (sym same) ∙ valid,
    )
