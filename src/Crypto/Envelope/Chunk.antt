-- ===== src/Crypto/Envelope/Chunk.antt =====
-- Multipart chunks of crypto/src/envelope.rs: what the associated data and the stored index bind.
use signet_drive.Base.{ℕ, suc, ◌+◌, ◌^◌, ◌≤◌, ◌<◌, ◌≡◌, refl, ap, arith, Bytes, Bool, true, false}
use signet_drive.Base.{◌∷◌, ◌++◌, length, take, drop, ◌⊎◌, inl, inr, length-append, take-append}
use signet_drive.Base.{drop-append, append_inj, append_assoc, Bytes-cases, sym, ◌∙◌}
use signet_drive.Base.Results.{Result, ok, Result-cases, ok_inj}
use signet_drive.Base.BigEndian.{be, from_be, length-be, from_be-be, be_inj}
use signet_drive.Crypto.{CryptoError, AesGcm, AesGcmLaws, Forgery, seal, open_sealed, open-seal}
use signet_drive.Crypto.{length-seal, open-other_aad}
use signet_drive.Crypto.Envelope.{
  is_last_chunk, multipart_aad, multipart_iv, seal_chunk, open_chunk,
}

-- Whether chunk `i` is the last of `n`, as a statement.
abbrev pub SameEnd : ℕ → ℕ → ℕ → Type 0
SameEnd i n m = (suc i ≡ n → suc i ≡ m) × (suc i ≡ m → suc i ≡ n)

-- The associated data determines the file, the position and the mark of the last chunk.
multipart_aad_inj :
    (f g : Bytes) (i j : ℕ) (a b : Bool)
    → length f ≡ length g
    → i < 2 ^ 32
    → j < 2 ^ 32
    → multipart_aad f i a ≡ multipart_aad g j b
    → (f ≡ g) × (i ≡ j) × (a ≡ b)
unfolding multipart_aad
multipart_aad_inj f g i j a b same hi hj e =
    let (p, q) = append_inj f g same e in
    let (r, s) = append_inj (be 4 i) (be 4 j) (length-be 4 i ∙ sym (length-be 4 j)) q in
    (p, be_inj 4 i j (omega arith) (omega arith) r, ground arith)

is_last_chunk_lem :
    (i n : ℕ) {b : Bool}
    → is_last_chunk i n ≡ ok b
    → (i < n) × (b ≡ true → suc i ≡ n) × (b ≡ false → suc i < n)
unfolding is_last_chunk
is_last_chunk_lem i n e = ground arith

same_end :
    (i j n m : ℕ) (a b : Bool)
    → i ≡ j
    → a ≡ b
    → (a ≡ true → suc i ≡ n)
    → (a ≡ false → suc i < n)
    → (b ≡ true → suc j ≡ m)
    → (b ≡ false → suc j < m)
    → SameEnd i n m
same_end i j n m true true p q h h' k k' =
    let x = h refl in let y = k refl in ((λ z. omega arith), (λ z. omega arith))
same_end i j n m false false p q h h' k k' =
    let x = h' refl in let y = k' refl in ((λ z. absurd (omega arith)), (λ z. absurd (omega arith)))
same_end i j n m true false p q h h' k k' = cc
same_end i j n m false true p q h h' k k' = cc

module _ (gcm : AesGcm) (laws : AesGcmLaws gcm)
    (hkdf : Bytes → Bytes → Bytes → ℕ → Result CryptoError Bytes) where
  multipart_iv-length :
      (dek : Bytes) (i : ℕ) {iv : Bytes} → multipart_iv hkdf dek i ≡ ok iv → length iv ≡ 12
  unfolding multipart_iv
  multipart_iv-length dek i e = ground arith

  -- What a successful `seal_chunk` has computed.
  record Sealed (dek file_id : Bytes) (i n : ℕ) (plaintext envelope : Bytes) : Type 0 where
    is_last : Bool
    iv : Bytes
    ct : Bytes
    end_checked : is_last_chunk i n ≡ ok is_last
    iv_length : length iv ≡ 12
    sealed : seal gcm dek iv plaintext (multipart_aad file_id i is_last) ≡ ok ct
    framed : envelope ≡ 2 ∷ 1 ∷ (be 4 i ++ (iv ++ ct))

  seal_chunk-Sealed :
      (dek file_id : Bytes) (i n : ℕ) (plaintext : Bytes) {envelope : Bytes}
      → seal_chunk gcm hkdf dek file_id i n plaintext ≡ ok envelope
      → Sealed dek file_id i n plaintext envelope
  unfolding seal_chunk
  seal_chunk-Sealed dek file_id i n plaintext e = elim (Result-cases (is_last_chunk i n)) [
    | inr (x, failed) ↦ absurd (ground arith)
    | inl (b, hb) ↦ elim (Result-cases (multipart_iv hkdf dek i)) [
      | inr (x, failed) ↦ absurd (ground arith)
      | inl (iv, hiv) ↦
          elim (Result-cases (seal gcm dek iv plaintext (multipart_aad file_id i b))) [
            | inr (x, failed) ↦ absurd (ground arith)
            | inl (ct, hs) ↦ record {
              is_last = b;
              iv = iv;
              ct = ct;
              end_checked = hb;
              iv_length = multipart_iv-length dek i hiv;
              sealed = hs;
              framed = ground arith;
            }
          ]
    ]
  ]

  -- `open_chunk` on a framed chunk is the index test and the AEAD under its own associated data.
  open_chunk-framed :
      (dek file_id : Bytes) (i j m : ℕ) (iv ct : Bytes) {b : Bool}
      → i < 2 ^ 32
      → length iv ≡ 12
      → 16 ≤ length ct
      → is_last_chunk j m ≡ ok b
      → i ≡ j
      → open_chunk gcm dek file_id j m (2 ∷ 1 ∷ (be 4 i ++ (iv ++ ct)))
        ≡ open_sealed gcm dek iv ct (multipart_aad file_id j b)
  unfolding open_chunk
  open_chunk-framed dek file_id i j m iv ct hi hv hc hb same =
      let rest : Bytes = iv ++ ct in
      let four : length (be 4 i) ≡ 4 = length-be 4 i in
      let index : take 4 (be 4 i ++ rest) ≡ be 4 i = take-append (be 4 i) rest 4 four in
      let after : drop 4 (be 4 i ++ rest) ≡ rest = drop-append (be 4 i) rest 4 four in
      let front : take 12 rest ≡ iv = take-append iv ct 12 hv in
      let ahead : length (be 4 i ++ iv) ≡ 16 = omega (arith, length-append (be 4 i) iv) in
      let back : drop 16 (be 4 i ++ rest) ≡ ct =
        ap (drop 16) (sym (append_assoc (be 4 i) iv ct)) ∙ drop-append (be 4 i ++ iv) ct 16 ahead in
      let stored : from_be (take 4 (be 4 i ++ rest)) ≡ j =
        ap from_be index ∙ from_be-be 4 i (omega arith) ∙ same in
      let nonce : take 12 (drop 4 (be 4 i ++ rest)) ≡ iv = ap (take 12) after ∙ front in
      let size : length (be 4 i ++ rest) ≡ 4 + (12 + length ct) =
        omega (arith, length-append (be 4 i) rest, length-append iv ct) in
      rw (hb, nonce, back) (ground (arith, stored, size))

  -- The stored index decides: a chunk that was framed for another position does not open.
  open_chunk-index :
      (dek file_id : Bytes) (i j m : ℕ) (tail : Bytes) {plaintext : Bytes}
      → i < 2 ^ 32
      → open_chunk gcm dek file_id j m (2 ∷ 1 ∷ (be 4 i ++ tail)) ≡ ok plaintext
      → i ≡ j
  unfolding open_chunk
  open_chunk-index dek file_id i j m tail hi e =
      let index : take 4 (be 4 i ++ tail) ≡ be 4 i = take-append (be 4 i) tail 4 (length-be 4 i) in
      let stored : from_be (take 4 (be 4 i ++ tail)) ≡ i =
        ap from_be index ∙ from_be-be 4 i (omega arith) in
      ground (arith, stored)

  open_chunk-end :
      (dek file_id : Bytes) (j m : ℕ) (x : Bytes) {plaintext : Bytes}
      → open_chunk gcm dek file_id j m x ≡ ok plaintext
      → (b : Bool) × (is_last_chunk j m ≡ ok b)
  unfolding open_chunk
  open_chunk-end dek file_id j m x e = elim (Result-cases (is_last_chunk j m)) [
    | inl found ↦ found
    | inr (y, failed) ↦ absurd (ground arith)
  ]

  -- A chunk that `seal_chunk` made opens to its plaintext under the same key, file id, position and
  -- chunk count, for a count of at most 2^32.
  pub open_chunk-seal_chunk :
      (dek file_id : Bytes) (i n : ℕ) (plaintext : Bytes) {envelope : Bytes}
      → n ≤ 2 ^ 32
      → seal_chunk gcm hkdf dek file_id i n plaintext ≡ ok envelope
      → open_chunk gcm dek file_id i n envelope ≡ ok plaintext
  open_chunk-seal_chunk dek f i n p word sealing =
      let s : Sealed dek f i n p _ = seal_chunk-Sealed dek f i n p sealing in
      let aad : Bytes = multipart_aad f i s.is_last in
      let size = length-seal gcm laws dek s.iv p aad s.sealed in
      let (in_range, last_end, other_end) = is_last_chunk_lem i n (s.end_checked) in
      rw (s.framed) (
        open_chunk-framed dek f i i n s.iv s.ct (omega arith) s.iv_length (omega arith)
          s.end_checked refl
        ∙ open-seal gcm laws dek s.iv p aad s.sealed)

  -- Where a chunk that was sealed under a key as number `i` of `n` (at most 2^32) for one file id opens
  -- under the same key as number `j` of `m` for a file id of the same length, the two file ids and the
  -- two positions are the same, it was sealed as the last chunk exactly if it was opened as the last,
  -- and it opens to the plaintext that was sealed; or a forgery of AES-256-GCM is exhibited.
  pub open_chunk_binding :
      (dek file_id file_id' : Bytes) (i n j m : ℕ) (plaintext plaintext' : Bytes) {envelope : Bytes}
      → length file_id ≡ length file_id'
      → n ≤ 2 ^ 32
      → seal_chunk gcm hkdf dek file_id i n plaintext ≡ ok envelope
      → open_chunk gcm dek file_id' j m envelope ≡ ok plaintext'
      → ((file_id ≡ file_id') × (i ≡ j) × SameEnd i n m × (plaintext ≡ plaintext')) ⊎ Forgery gcm
  open_chunk_binding dek f g i n j m p p' same word sealing opening =
      let s : Sealed dek f i n p _ = seal_chunk-Sealed dek f i n p sealing in
      let (in_range, last_end, other_end) = is_last_chunk_lem i n (s.end_checked) in
      let size = length-seal gcm laws dek s.iv p (multipart_aad f i s.is_last) s.sealed in
      let opened = rw (s.framed) at opening in
      let at_index : i ≡ j = open_chunk-index dek g i j m (s.iv ++ s.ct) (omega arith) opened in
      let (b, hb) = open_chunk-end dek g j m _ opened in
      let (in_range', last_end', other_end') = is_last_chunk_lem j m hb in
      let direct =
        sym (
          open_chunk-framed dek g i j m s.iv s.ct (omega arith) s.iv_length (omega arith) hb
            at_index)
        ∙ opened in
      elim (Bytes-cases (multipart_aad f i s.is_last) (multipart_aad g j b)) [
        | inr differ ↦ inr (
            open-other_aad gcm laws dek s.iv p (multipart_aad f i s.is_last) (multipart_aad g j b)
              differ s.sealed direct)
        | inl aads ↦
            let (files, indices, ends) =
              multipart_aad_inj f g i j s.is_last b same (omega arith) (omega arith) aads in
            let plain = open-seal gcm laws dek s.iv p (multipart_aad f i s.is_last) s.sealed in
            inl (
              files,
              indices,
              same_end i j n m s.is_last b indices ends last_end other_end last_end' other_end',
              ok_inj (sym (rw aads at plain) ∙ direct),
            )
      ]
