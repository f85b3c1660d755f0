-- ===== src/Crypto/Translog/Binding.antt =====
-- An entry's hash in crypto/src/translog.rs binds every field of the entry.
use signet_drive.Base.{ℕ, ◌^◌, ◌<◌, ◌≡◌, ◌⊎◌, inl, inr, refl, arith, sym, ◌∙◌, Bytes, Option}
use signet_drive.Base.{[], ◌∷◌, ◌++◌, length, append_inj, Bytes-cases}
use signet_drive.Base.BigEndian.{be, length-be, be_inj, field_inj}
use signet_drive.Merkle.Inclusion.{Collision}
use signet_drive.Crypto.Translog.{KeyPurpose, as_byte, account_or}
use signet_drive.Crypto.Translog.{entry_hash_v2, entry_hash_v3}

-- The fields of an entry.
pub record Entry : Type 0 where
  pub id : ℕ
  pub account : Option Bytes
  pub purpose : KeyPurpose
  pub algorithm : Bytes
  pub public_key : Bytes
  pub created_at : ℕ
  pub prev : Bytes

-- The sizes of the source's types, with an account of `n` bytes, and lengths that fit a `u32`.
pub record IsEntry (n : ℕ) (e : Entry) : Type 0 where
  pub id_word : e.id < 2 ^ 64
  pub account_size : length (account_or n e.account) ≡ n
  pub algorithm_short : length e.algorithm < 2 ^ 32
  pub key_short : length e.public_key < 2 ^ 32
  pub created_word : e.created_at < 2 ^ 64

pub record Same (n : ℕ) (x y : Entry) : Type 0 where
  pub same_id : x.id ≡ y.id
  pub same_account : account_or n x.account ≡ account_or n y.account
  pub same_purpose : x.purpose ≡ y.purpose
  pub same_algorithm : x.algorithm ≡ y.algorithm
  pub same_key : x.public_key ≡ y.public_key
  pub same_created : x.created_at ≡ y.created_at
  pub same_prev : x.prev ≡ y.prev

as_byte_inj : (p q : KeyPurpose) → as_byte p ≡ as_byte q → p ≡ q
as_byte_inj p q e = ground arith

pub word_inj :
    (w x y : ℕ) {u v : Bytes}
    → x < 256 ^ w
    → y < 256 ^ w
    → be w x ++ u ≡ be w y ++ v
    → (x ≡ y) × (u ≡ v)
word_inj w x y hx hy e =
    let (p, q) = append_inj (be w x) (be w y) (length-be w x ∙ sym (length-be w y)) e in
    (be_inj w x y hx hy p, q)

-- What follows the version byte.
abbrev body : ℕ → Entry → Bytes
body n e =
    be 8 e.id
    ++ (account_or n e.account
        ++ (as_byte e.purpose
            ∷ (be 4 (length e.algorithm)
                ++ (e.algorithm
                    ++ (be 4 (length e.public_key)
                        ++ (e.public_key ++ (be 8 e.created_at ++ e.prev)))))))

body-Same : (n : ℕ) (x y : Entry) → IsEntry n x → IsEntry n y → body n x ≡ body n y → Same n x y
body-Same n x y vx vy e =
    let (i, e₁) = word_inj 8 x.id y.id (omega (arith, vx.id_word)) (omega (arith, vy.id_word)) e in
    let (a, e₂) =
      append_inj (account_or n x.account) (account_or n y.account)
        (vx.account_size ∙ sym vy.account_size) e₁ in
    let (p, e₃) = append_inj (as_byte x.purpose ∷ []) (as_byte y.purpose ∷ []) refl e₂ in
    let (l, e₄) = field_inj x.algorithm y.algorithm vx.algorithm_short vy.algorithm_short e₃ in
    let (k, e₅) = field_inj x.public_key y.public_key vx.key_short vy.key_short e₄ in
    let (c, r) =
      word_inj 8 x.created_at y.created_at (omega (arith, vx.created_word))
        (omega (arith, vy.created_word)) e₅ in
    record {
      same_id = i;
      same_account = a;
      same_purpose = as_byte_inj x.purpose y.purpose (ground arith);
      same_algorithm = l;
      same_key = k;
      same_created = c;
      same_prev = r;
    }

module _ (sha256 : Bytes → Bytes) where
  -- Two v2 entries of the log with one hash are the same entry, field by field, where an absent
  -- account is 16 zero bytes; or SHA-256 collides on them.
  pub entry_hash_v2_binds :
      (x y : Entry)
      → IsEntry 16 x
      → IsEntry 16 y
      → entry_hash_v2 sha256 x.id x.account x.purpose x.algorithm x.public_key x.created_at x.prev
        ≡ entry_hash_v2 sha256 y.id y.account y.purpose y.algorithm y.public_key y.created_at y.prev
      → Same 16 x y ⊎ Collision sha256
  unfolding entry_hash_v2
  entry_hash_v2_binds x y vx vy e = elim (Bytes-cases (2 ∷ body 16 x) (2 ∷ body 16 y)) [
    | inr differ ↦ inr (2 ∷ body 16 x, 2 ∷ body 16 y, differ, e)
    | inl same ↦ inl (body-Same 16 x y vx vy (ground arith))
  ]

  -- Two v3 entries of the log with one hash are the same entry, field by field, where an absent
  -- account is 64 zero bytes; or SHA-256 collides on them.
  pub entry_hash_v3_binds :
      (x y : Entry)
      → IsEntry 64 x
      → IsEntry 64 y
      → entry_hash_v3 sha256 x.id x.account x.purpose x.algorithm x.public_key x.created_at x.prev
        ≡ entry_hash_v3 sha256 y.id y.account y.purpose y.algorithm y.public_key y.created_at y.prev
      → Same 64 x y ⊎ Collision sha256
  unfolding entry_hash_v3
  entry_hash_v3_binds x y vx vy e = elim (Bytes-cases (3 ∷ body 64 x) (3 ∷ body 64 y)) [
    | inr differ ↦ inr (3 ∷ body 64 x, 3 ∷ body 64 y, differ, e)
    | inl same ↦ inl (body-Same 64 x y vx vy (ground arith))
  ]

  -- No v2 entry has the hash of a v3 entry, whatever their fields, unless SHA-256 collides.
  pub entry_hash_v2-ne-entry_hash_v3 :
      (x y : Entry)
      → entry_hash_v2 sha256 x.id x.account x.purpose x.algorithm x.public_key x.created_at x.prev
        ≡ entry_hash_v3 sha256 y.id y.account y.purpose y.algorithm y.public_key y.created_at y.prev
      → Collision sha256
  unfolding entry_hash_v2 entry_hash_v3
  entry_hash_v2-ne-entry_hash_v3 x y e = (2 ∷ body 16 x, 3 ∷ body 64 y, (λ same. ground arith), e)
