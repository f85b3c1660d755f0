-- ===== src/Crypto/Names/Binding.antt =====
-- A name that crypto/src/encname.rs encrypted is read for its own folder and target only.
use signet_drive.Base.{ℕ, ◌-◌, ◌≡◌, arith, sym, ◌∙◌, Bytes, not, length, take, drop}
use signet_drive.Base.{ltb, ◌⊎◌, inl, inr, append_inj, take-append-drop, Bytes-cases}
use signet_drive.Base.Results.{ok, bind_ok, then_ok, ok_inj, ◌>>=◌, ◌>>◌, refuse_if}
use signet_drive.Crypto.{AesGcm, AesGcmLaws, Forgery, seal, open_sealed, open-seal}
use signet_drive.Crypto.{open-other_aad, invalid_input}
use signet_drive.Crypto.Names.{Text, TextLaws, NameEnvelope, encrypt_name, decrypt_name, name_aad}
use signet_drive.Crypto.Names.{as_jose, a256_gcm, is_a256_gcm}
use signet_drive.Crypto.Names.Reading.{from_jose-as_jose}

module _ (gcm : AesGcm) (laws : AesGcmLaws gcm) (t : Text) (text_laws : TextLaws t) where
  abbrev envelope_of : Bytes → Bytes → NameEnvelope
  envelope_of iv sealed = record {
    v = 1;
    alg = as_jose a256_gcm;
    iv = t.encode64 iv;
    ct = t.encode64 (take (length sealed - 16) sealed);
    tag = t.encode64 (drop (length sealed - 16) sealed);
  }

  -- An envelope of some sealed bytes that is read was opened.
  decrypt_name-opens :
      (key root target iv sealed : Bytes) {name : Bytes}
      → length iv ≡ 12
      → decrypt_name gcm t key root target (envelope_of iv sealed) ≡ ok name
      → open_sealed gcm key iv sealed (name_aad root target) ≡ ok name
  unfolding decrypt_name is_a256_gcm
  decrypt_name-opens key root target iv sealed {name} hi e =
      let k : ℕ = length sealed - 16 in
      let read : (open_sealed gcm key iv sealed (name_aad root target) >>= λ plain.
      refuse_if (not (t.is_utf8 plain)) (invalid_input "decrypted name not utf-8") >> ok plain)
          ≡ ok name =
        ground (
          arith,
          from_jose-as_jose a256_gcm,
          text_laws.decode64_back iv,
          text_laws.decode64_back (take k sealed),
          text_laws.decode64_back (drop k sealed),
          take-append-drop k sealed,
        ) in
      let (plain, opened, e₁) =
        bind_ok (open_sealed gcm key iv sealed (name_aad root target)) _ read in
      let (_, same) = then_ok (not (t.is_utf8 plain)) _ (ok plain) e₁ in opened ∙ same

  -- A name that was encrypted for a folder and a target, and that is read under the same key for a
  -- folder and a target, was encrypted for these and is the name that was encrypted, or a forgery of
  -- AES-256-GCM is exhibited. The IV has 12 bytes, the two folder ids have one length.
  pub decrypt_name_binding :
      (iv key root root' target target' name name' : Bytes) {envelope : NameEnvelope}
      → length iv ≡ 12
      → length root ≡ length root'
      → encrypt_name gcm t iv key root target name ≡ ok envelope
      → decrypt_name gcm t key root' target' envelope ≡ ok name'
      → ((root ≡ root') × (target ≡ target') × (name ≡ name')) ⊎ Forgery gcm
  unfolding encrypt_name name_aad
  decrypt_name_binding iv key root root' target target' name name' {envelope} hi same e d =
      let (sealed, made, e₁) = bind_ok (seal gcm key iv name (name_aad root target)) _ e in
      let (_, e₂) = then_ok (ltb (length sealed) 16) _ _ e₁ in
      let written : envelope_of iv sealed ≡ envelope = ok_inj e₂ in
      let opened : open_sealed gcm key iv sealed (name_aad root' target') ≡ ok name' =
        decrypt_name-opens key root' target' iv sealed hi (rw written d) in
      elim (Bytes-cases (name_aad root target) (name_aad root' target')) [
        | inr differ ↦ inr (
            open-other_aad gcm laws key iv name (name_aad root target) (name_aad root' target')
              differ made opened)
        | inl aads ↦
            let (roots, targets) = append_inj root root' same aads in
            let plain = open-seal gcm laws key iv name (name_aad root target) made in
            inl (roots, targets, ok_inj (sym (rw aads at plain) ∙ opened))
      ]
