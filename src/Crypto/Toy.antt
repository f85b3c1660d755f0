-- ===== src/Crypto/Toy.antt =====
-- A stand-in for AES-256-GCM, for tests: the message is not hidden, and the tag is the head of the
-- associated data. It meets the laws that the theorems assume of the cipher.
use signet_drive.Base.{ℕ, ◌-◌, ◌≡◌, refl, arith, Bytes, none, some, ◌++◌}
use signet_drive.Base.{
  length, take, replicate, length-append, length-take, length-replicate, inl, inr,
}
use signet_drive.Base.{take-append, bytes_eq, bytes_eq→eq, eq→bytes_eq, if◌then◌else◌, Bool-cases}
use signet_drive.Crypto.{AesGcm, AesGcmLaws}

abbrev pub toy_tag : Bytes → Bytes
toy_tag aad = take 16 (aad ++ replicate 16 0)

abbrev toy_body : Bytes → Bytes
toy_body ct = take (length ct - 16) ct

abbrev pub toy_gcm : AesGcm
toy_gcm = record {
  encrypt = λ key nonce msg aad. some (msg ++ toy_tag aad);
  decrypt = λ key nonce ct aad.
      if bytes_eq ct (toy_body ct ++ toy_tag aad) then some (toy_body ct) else none;
}

length-tag : (aad : Bytes) → length (toy_tag aad) ≡ 16
length-tag aad = omega (
  arith,
  length-take 16 (aad ++ replicate 16 0),
  length-append aad (replicate 16 0),
  length-replicate {A = ℕ} 16 0,
)

body_of : (msg aad : Bytes) → toy_body (msg ++ toy_tag aad) ≡ msg
body_of msg aad =
    take-append msg (toy_tag aad) _ (omega (arith, length-append msg (toy_tag aad), length-tag aad))

pub toy_laws : AesGcmLaws toy_gcm
toy_laws = record {
  opens = λ key nonce msg aad {ct} e.
      let same : msg ++ toy_tag aad ≡ ct = ground arith in
      rw (← same) (rw (body_of msg aad, eq→bytes_eq (msg ++ toy_tag aad) _ refl) refl);
  sealed = λ key nonce ct aad {msg} e.
      elim (Bool-cases (bytes_eq ct (toy_body ct ++ toy_tag aad))) [
        | inl same ↦ ground (arith, bytes_eq→eq _ _ same)
        | inr other ↦ absurd (ground arith)
      ];
  adds_tag = λ key nonce msg aad {ct} e.
      let same : msg ++ toy_tag aad ≡ ct = ground arith in
      rw (← same) (omega (arith, length-append msg (toy_tag aad), length-tag aad));
  encrypts = λ key nonce msg aad hm ha. (msg ++ toy_tag aad, refl);
}
