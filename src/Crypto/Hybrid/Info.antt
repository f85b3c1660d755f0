-- ===== src/Crypto/Hybrid/Info.antt =====
-- The context that crypto/src/hybrid_wrap.rs binds into a key, and the fingerprint of a recipient.
use signet_drive.Base.{◌^◌, ◌≡◌, ◌<◌, arith, sym, ◌∙◌, ◌⊎◌, inl, inr}
use signet_drive.Base.{Bytes, [], ◌++◌, length, append_assoc, append-nil, Bytes-cases}
use signet_drive.Base.Results.{ok, bind_ok, ok_inj}
use signet_drive.Base.BigEndian.{be, field_inj}
use signet_drive.Crypto.Names.{as_jose}
use signet_drive.Crypto.Wrap.{Curve}
use signet_drive.Crypto.Hybrid.{push_field, build_fixed_info, validate_recipient_keys, hybrid_rfp}
use signet_drive.Crypto.Hybrid.{hybrid_alg, keydatalen_bits}
use signet_drive.Merkle.Inclusion.{Collision}

-- A field is told from what follows it.
push_field_inj :
    (x y : Bytes) {u v : Bytes}
    → length x < 2 ^ 32
    → length y < 2 ^ 32
    → push_field x ++ u ≡ push_field y ++ v
    → (x ≡ y) × (u ≡ v)
unfolding push_field
push_field_inj x y hx hy e = field_inj x y hx hy (sym (append_assoc _ x _) ∙ e ∙ append_assoc _ y _)

pub last_field_inj :
    (x y : Bytes) → length x < 2 ^ 32 → length y < 2 ^ 32 → push_field x ≡ push_field y → x ≡ y
last_field_inj x y hx hy e =
    (push_field_inj x y {u = []} {v = []} hx hy
      (append-nil (push_field x) ∙ e ∙ sym (append-nil (push_field y)))).0

-- Two contexts with one encoding are the same field by field.
pub build_fixed_info_inj :
    (epk ek rk_ec rk_pq party_v epk' ek' rk_ec' rk_pq' party_v' : Bytes)
    → length epk < 2 ^ 32
    → length ek < 2 ^ 32
    → length rk_ec < 2 ^ 32
    → length rk_pq < 2 ^ 32
    → length party_v < 2 ^ 32
    → length epk' < 2 ^ 32
    → length ek' < 2 ^ 32
    → length rk_ec' < 2 ^ 32
    → length rk_pq' < 2 ^ 32
    → length party_v' < 2 ^ 32
    → build_fixed_info epk ek rk_ec rk_pq party_v ≡ build_fixed_info epk' ek' rk_ec' rk_pq' party_v'
    → (epk ≡ epk') × (ek ≡ ek') × (rk_ec ≡ rk_ec') × (rk_pq ≡ rk_pq') × (party_v ≡ party_v')
unfolding build_fixed_info be
build_fixed_info_inj epk ek rk_ec rk_pq party_v epk' ek' rk_ec' rk_pq' party_v' h₁ h₂ h₃ h₄ h₅ k₁ k₂
      k₃ k₄ k₅ e =
    let (p₀, e₀) =
      push_field_inj (as_jose hybrid_alg) (as_jose hybrid_alg) (omega arith) (omega arith) e in
    let (p₁, e₁) = push_field_inj epk epk' h₁ k₁ e₀ in
    let (p₂, e₂) = push_field_inj ek ek' h₂ k₂ e₁ in
    let (p₃, e₃) = push_field_inj rk_ec rk_ec' h₃ k₃ e₂ in
    let (p₄, e₄) = push_field_inj rk_pq rk_pq' h₄ k₄ e₃ in
    let (p₅, e₅) =
      push_field_inj (be 4 keydatalen_bits) (be 4 keydatalen_bits) (omega arith) (omega arith) e₄ in
    (p₁, p₂, p₃, p₄, last_field_inj party_v party_v' h₅ k₅ e₅)

-- The sizes of keys that pass the validation.
pub valid_lengths :
    (curve : Curve) (rk_ec rk_pq : Bytes) {u : Unit {0}}
    → validate_recipient_keys curve rk_ec rk_pq ≡ ok u
    → (length rk_ec ≡ 65) × (length rk_pq ≡ 1568)
unfolding validate_recipient_keys
valid_lengths curve rk_ec rk_pq e = (ground arith, ground arith)

module _ (sha256 hex : Bytes → Bytes) (hex_inj : (a b : Bytes) → hex a ≡ hex b → a ≡ b)
    (curve : Curve) where
  -- Two recipients with one hybrid fingerprint have the same two keys, or SHA-256 collides.
  pub hybrid_rfp_binds :
      (rk_ec rk_pq rk_ec' rk_pq' : Bytes) {rfp : Bytes}
      → hybrid_rfp sha256 hex curve rk_ec rk_pq ≡ ok rfp
      → hybrid_rfp sha256 hex curve rk_ec' rk_pq' ≡ ok rfp
      → ((rk_ec ≡ rk_ec') × (rk_pq ≡ rk_pq')) ⊎ Collision sha256
  unfolding hybrid_rfp
  hybrid_rfp_binds rk_ec rk_pq rk_ec' rk_pq' {rfp} made made' =
      let (u, valid, e) = bind_ok (validate_recipient_keys curve rk_ec rk_pq) _ made in
      let (u', valid', e') = bind_ok (validate_recipient_keys curve rk_ec' rk_pq') _ made' in
      let digests =
        hex_inj (sha256 (push_field rk_ec ++ push_field rk_pq))
          (sha256 (push_field rk_ec' ++ push_field rk_pq')) (ok_inj e ∙ sym (ok_inj e')) in
      let (le, lp) = valid_lengths curve rk_ec rk_pq valid in
      let (le', lp') = valid_lengths curve rk_ec' rk_pq' valid' in
      elim (Bytes-cases (push_field rk_ec ++ push_field rk_pq)
        (push_field rk_ec' ++ push_field rk_pq')) [
          | inr differ ↦ inr (_, _, differ, digests)
          | inl same ↦
              let (ec, rest) = push_field_inj rk_ec rk_ec' (omega arith) (omega arith) same in
              inl (ec, last_field_inj rk_pq rk_pq' (omega arith) (omega arith) rest)
        ]
