-- ===== src/Crypto/Names/Runs.antt =====
-- A name under the stand-in cipher.
use signet_drive.Base.{◌≡◌, refl, some, true, [], ◌∷◌, replicate}
use signet_drive.Base.Results.{ok}
use signet_drive.Base.{Bytes, ◌⊎◌}
use signet_drive.Crypto.{seal, Forgery}
use signet_drive.Crypto.Names.Binding.{decrypt_name_binding}
use signet_drive.Crypto.Toy.{toy_gcm, toy_laws}
use signet_drive.Crypto.Names.{
  Text, TextLaws, NameEnvelope, encrypt_name, decrypt_name, name_aad, as_jose,
}
use signet_drive.Crypto.Names.{a256_gcm}
use signet_drive.Crypto.Names.Reading.{decrypt_name-encrypt_name}

abbrev toy_text : Text
toy_text = record { encode64 = λ bytes. bytes; decode64 = some; is_utf8 = λ bytes. true }

toy_text_laws : TextLaws toy_text
toy_text_laws = record { decode64_back = λ bytes. refl }

abbrev envelope : NameEnvelope
envelope = record {
  v = 1;
  alg = as_jose a256_gcm;
  iv = replicate 12 5;
  ct = 97 ∷ 98 ∷ [];
  tag = replicate 16 1;
}

encrypt_run :
    encrypt_name toy_gcm toy_text
      (replicate 12 5)
      (replicate 32 7)
      (replicate 16 1)
      (replicate 16 2)
      (97 ∷ 98 ∷ [])
    ≡ ok envelope
unfolding encrypt_name seal name_aad
encrypt_run = refl

decrypt_name-encrypt_name_example :
    decrypt_name toy_gcm toy_text (replicate 32 7) (replicate 16 1) (replicate 16 2) envelope
    ≡ ok (97 ∷ 98 ∷ [])
decrypt_name-encrypt_name_example =
    decrypt_name-encrypt_name toy_gcm toy_laws toy_text toy_text_laws (replicate 12 5)
      (replicate 32 7) (replicate 16 1) (replicate 16 2) (97 ∷ 98 ∷ []) refl refl encrypt_run

abbrev folder : Bytes
folder = replicate 16 1

abbrev target : Bytes
target = replicate 16 2

decrypt_name_binding_example :
    ((folder ≡ folder) × (target ≡ target) × (◌≡◌ {A = Bytes} (97 ∷ 98 ∷ []) (97 ∷ 98 ∷ [])))
    ⊎ Forgery toy_gcm
decrypt_name_binding_example =
    decrypt_name_binding toy_gcm toy_laws toy_text toy_text_laws (replicate 12 5) (replicate 32 7)
      folder folder target target (97 ∷ 98 ∷ []) (97 ∷ 98 ∷ []) refl refl encrypt_run
      decrypt_name-encrypt_name_example
