-- ===== src/Crypto/Envelope/File.antt =====
-- Single-PUT envelopes of crypto/src/envelope.rs.
use signet_drive.Base.{ℕ, ◌≤◌, ◌≡◌, ap, arith, Bytes, [], ◌∷◌, ◌++◌, length, take, drop}
use signet_drive.Base.{
  length-append, take-append, drop-append, take-append-drop, length-take, length-drop, sym,
}
use signet_drive.Base.{inl, inr, ◌∙◌}
use signet_drive.Base.Results.{ok, Result-cases}
use signet_drive.Crypto.{AesGcm, AesGcmLaws, seal, open_sealed, open-seal, seal-open}
use signet_drive.Crypto.{length-seal}
use signet_drive.Crypto.Envelope.{seal_file, open_file, byte_at}

module _ (gcm : AesGcm) (laws : AesGcmLaws gcm) where
  seal_file-parts :
      (dek iv file_id plaintext : Bytes) {envelope : Bytes}
      → seal_file gcm dek iv file_id plaintext ≡ ok envelope
      → (ct : Bytes) × (seal gcm dek iv plaintext file_id ≡ ok ct) × (envelope ≡ 1 ∷ 1 ∷ (iv ++ ct))
  unfolding seal_file
  seal_file-parts dek iv file_id plaintext e =
      elim (Result-cases (seal gcm dek iv plaintext file_id)) [
        | inl (ct, sealed) ↦ (ct, sealed, ground arith)
        | inr (x, failed) ↦ absurd (ground arith)
      ]

  open_file-framed :
      (dek iv file_id ct : Bytes)
      → length iv ≡ 12
      → 16 ≤ length ct
      → open_file gcm dek file_id (1 ∷ 1 ∷ (iv ++ ct)) ≡ open_sealed gcm dek iv ct file_id
  unfolding open_file
  open_file-framed dek iv file_id ct hi hc =
      let size = length-append iv ct in
      let front : take 12 (iv ++ ct) ≡ iv = take-append iv ct 12 hi in
      let back : drop 12 (iv ++ ct) ≡ ct = drop-append iv ct 12 hi in
      rw (front, back) (ground (arith, size))

  -- What `seal_file` returns for a 12-byte IV, `open_file` opens to the plaintext under the same key
  -- and file id.
  pub open_file-seal_file :
      (dek iv file_id plaintext : Bytes) {envelope : Bytes}
      → length iv ≡ 12
      → seal_file gcm dek iv file_id plaintext ≡ ok envelope
      → open_file gcm dek file_id envelope ≡ ok plaintext
  open_file-seal_file dek iv file_id plaintext hi e =
      let (ct, sealed, framed) = seal_file-parts dek iv file_id plaintext e in
      let size = length-seal gcm laws dek iv plaintext file_id sealed in
      rw framed (
        open_file-framed dek iv file_id ct hi (omega arith)
        ∙ open-seal gcm laws dek iv plaintext file_id sealed)

  byte_at_head : (b : ℕ) (x : Bytes) → 1 ≤ length x → byte_at x 0 ≡ b → x ≡ b ∷ drop 1 x
  byte_at_head b [] h e = absurd (omega arith)
  byte_at_head b (y ∷ rest) h e = ap (λ z. z ∷ rest) e

  framed_split :
      (x : Bytes)
      → 30 ≤ length x
      → byte_at x 0 ≡ 1
      → byte_at x 1 ≡ 1
      → x ≡ 1 ∷ 1 ∷ (take 12 (drop 2 x) ++ drop 14 x)
  framed_split [] h p q = absurd (omega arith)
  framed_split (a ∷ []) h p q = absurd (omega arith)
  framed_split (a ∷ b ∷ rest) h p q = ground (arith, take-append-drop 12 rest)

  -- The four checks that a successful `open_file` has passed.
  open_file-checks :
      (dek file_id x : Bytes) {plaintext : Bytes}
      → open_file gcm dek file_id x ≡ ok plaintext
      → (30 ≤ length x)
        × (byte_at x 0 ≡ 1)
        × (byte_at x 1 ≡ 1)
        × (open_sealed gcm dek (take 12 (drop 2 x)) (drop 14 x) file_id ≡ ok plaintext)
  unfolding open_file
  open_file-checks dek file_id x e = ground arith

  -- `open_file` succeeds only on envelopes that `seal_file` makes: of the plaintext it returns, under
  -- the same key and file id, with the 12-byte IV that the envelope carries.
  pub seal_file-open_file :
      (dek file_id envelope : Bytes) {plaintext : Bytes}
      → open_file gcm dek file_id envelope ≡ ok plaintext
      → (iv : Bytes) × (length iv ≡ 12) × (seal_file gcm dek iv file_id plaintext ≡ ok envelope)
  unfolding seal_file
  seal_file-open_file dek file_id x {plaintext} e =
      let (long, magic, alg, opened) = open_file-checks dek file_id x e in
      let iv : Bytes = take 12 (drop 2 x) in
      let sealed = seal-open gcm laws dek iv (drop 14 x) file_id opened in
      (
        iv,
        omega (arith, length-take 12 (drop 2 x), length-drop 2 x),
        rw sealed (ap ok (sym (framed_split x long magic alg))),
      )
