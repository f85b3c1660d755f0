-- ===== src/Crypto/Wrap/Toy.antt =====
-- Stand-ins for SHA-256, base64, P-256 and AES key wrap, for tests: they hide nothing, and meet the
-- laws that the theorems assume.
use signet_drive.Base.{ℕ, ◌+◌, ◌≡◌, refl, ap, arith, sym, ◌∙◌, inl, inr, Bool-cases}
use signet_drive.Base.{
  Bytes, [], ◌∷◌, ◌++◌, length, take, drop, replicate, Option, none, some, true,
}
use signet_drive.Base.{length-append, length-take, length-replicate, length-drop, take-append}
use signet_drive.Base.{drop-append, take-append-drop, bytes_eq, bytes_eq→eq, eq→bytes_eq}
use signet_drive.Base.{if◌then◌else◌, ◌==◌}
use signet_drive.Crypto.Names.{Text, TextLaws}
use signet_drive.Crypto.Kdf.{Hkdf, HkdfLaws}
use signet_drive.Crypto.Wrap.{Curve, CurveLaws, KeyWrap, KeyWrapLaws}

abbrev pub toy_sha256 : Bytes → Bytes
toy_sha256 x = take 32 (x ++ replicate 32 0)

pub toy_digest_length : (x : Bytes) → length (toy_sha256 x) ≡ 32
toy_digest_length x = omega (
  arith,
  length-take 32 (x ++ replicate 32 0),
  length-append x (replicate 32 0),
  length-replicate {A = ℕ} 32 0,
)

abbrev pub toy_text : Text
toy_text = record { encode64 = λ bytes. bytes; decode64 = some; is_utf8 = λ bytes. true }

pub toy_text_laws : TextLaws toy_text
toy_text_laws = record { decode64_back = λ bytes. refl }

-- The first byte of a scalar is its public key, and the secret two parties agree on is the sum.
abbrev toy_point : Bytes → Option Bytes
toy_point [] = none
toy_point (b ∷ rest) =
    if b == 4 then (if length rest == 64 then some (b ∷ rest) else none) else none

abbrev first_of : Bytes → ℕ
first_of [] = 0
first_of (b ∷ rest) = b

abbrev pub toy_curve : Curve
toy_curve = record {
  from_sec1 = toy_point;
  is_scalar = λ scalar. true;
  public_key = λ scalar. 4 ∷ replicate 64 (first_of scalar);
  agree = λ scalar point. replicate 32 (first_of scalar + first_of (drop 1 point));
  to_der = some;
}

toy_point_shape :
    (p : Bytes) {key : Bytes}
    → toy_point p ≡ some key
    → (key ≡ p) × (length p ≡ 65) × (first_of p ≡ 4)
toy_point_shape [] e = absurd (ground arith)
toy_point_shape (b ∷ rest) e = (ground arith, ground arith, ground arith)

halves :
    (p key : Bytes)
    → (key ≡ p) × (length p ≡ 65) × (first_of p ≡ 4)
    → (x : Bytes) × (y : Bytes) × (length x ≡ 32) × (length y ≡ 32) × (key ≡ 4 ∷ (x ++ y))
halves [] key (same, long, first) = absurd (omega arith)
halves (b ∷ rest) key (same, long, first) = (
  take 32 rest,
  drop 32 rest,
  omega (arith, length-take 32 rest),
  omega (arith, length-drop 32 rest),
  ground (arith, take-append-drop 32 rest),
)

pub toy_curve_laws : CurveLaws toy_curve
toy_curve_laws = record {
  uncompressed = λ point {key} e. halves point key (toy_point_shape point e);
  canonical = λ point {key} e. ap toy_point ((toy_point_shape point e).0) ∙ e;
  already = λ x y {key} hx hy e. (toy_point_shape (4 ∷ (x ++ y)) e).0;
  encodes = λ point {key} e. (key, refl);
  public_on_curve = λ scalar h. refl;
  symmetric = λ a b ha hb. ap (replicate 32) (omega arith);
}

pub toy_agree_length : (a b : Bytes) → length (toy_curve.agree a b) ≡ 32
toy_agree_length a b = refl

abbrev toy_iv : Bytes → Bytes
toy_iv kek = take 8 (kek ++ replicate 8 0)

length-iv : (kek : Bytes) → length (toy_iv kek) ≡ 8
length-iv kek = omega (
  arith,
  length-take 8 (kek ++ replicate 8 0),
  length-append kek (replicate 8 0),
  length-replicate {A = ℕ} 8 0,
)

abbrev pub toy_kw : KeyWrap
toy_kw = record {
  wrap = λ kek payload. some (toy_iv kek ++ payload);
  unwrap =
      λ kek wrapped. if bytes_eq (toy_iv kek) (take 8 wrapped) then some (drop 8 wrapped) else none;
}

pub toy_kw_laws : KeyWrapLaws toy_kw
toy_kw_laws = record {
  wraps = λ kek payload long blocks. (toy_iv kek ++ payload, refl);
  adds_iv = λ kek payload {wrapped} e.
      let same : toy_iv kek ++ payload ≡ wrapped = ground arith in
      omega (arith, ap length same, length-append (toy_iv kek) payload, length-iv kek);
  unwraps = λ kek payload {wrapped} e.
      let same : toy_iv kek ++ payload ≡ wrapped = ground arith in
      let iv : toy_iv kek ≡ take 8 wrapped =
        sym (take-append (toy_iv kek) payload 8 (length-iv kek)) ∙ ap (take 8) same in
      let rest : drop 8 wrapped ≡ payload =
        ap (drop 8) (sym same) ∙ drop-append (toy_iv kek) payload 8 (length-iv kek) in
      ground (arith, eq→bytes_eq _ _ iv, rest);
  wrapped_from = λ kek wrapped {payload} e.
      elim (Bool-cases (bytes_eq (toy_iv kek) (take 8 wrapped))) [
        | inl same ↦
            let rest : drop 8 wrapped ≡ payload = ground arith in
            ground (arith, bytes_eq→eq _ _ same, take-append-drop 8 wrapped, rest)
        | inr other ↦ absurd (ground arith)
      ];
}

-- A stand-in for HKDF, of the length asked for.
abbrev pub toy_hkdf : Hkdf
toy_hkdf ikm salt info n = some (take n (ikm ++ (info ++ replicate n 0)))

pub toy_hkdf_laws : HkdfLaws toy_hkdf
toy_hkdf_laws = record {
  fills = λ ikm salt info n small. (
    take n (ikm ++ (info ++ replicate n 0)),
    refl,
    omega (
      arith,
      length-take n (ikm ++ (info ++ replicate n 0)),
      length-append ikm (info ++ replicate n 0),
      length-append info (replicate n 0),
      length-replicate {A = ℕ} n 0,
    ),
  );
}
