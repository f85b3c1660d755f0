-- ===== src/Crypto/Jcs/Domain.antt =====
-- Which values crypto/src/jcs.rs canonicalises.
use signet_drive.Base.{◌≡◌, refl, arith, Bytes, true, false, ◌⊎◌, inl, inr, Option}
use signet_drive.Base.{Bool-cases}
use signet_drive.Base.Results.{ok, err, ok_or}
use signet_drive.Crypto.{invalid_input}
use signet_drive.Crypto.Jcs.{Value, null, boolean, number, string, array, object}
use signet_drive.Crypto.Jcs.{Items, no_item, item, Members, no_member, member}
use signet_drive.Crypto.Jcs.{key_in_domain, outside, check_keys, check_items, check_members}
use signet_drive.Crypto.Jcs.{to_canonical_bytes}

-- A key of an object somewhere in the value.
unfoldable mutual
  pub KeyOf : {N : Type 0} → Bytes → Value N → Type 0
  KeyOf key null = ⊥
  KeyOf key (boolean b) = ⊥
  KeyOf key (number n) = ⊥
  KeyOf key (string text) = ⊥
  KeyOf key (array items) = KeyOfItem key items
  KeyOf key (object map) = KeyOfMember key map

  pub KeyOfItem : {N : Type 0} → Bytes → Items N → Type 0
  KeyOfItem key no_item = ⊥
  KeyOfItem key (item v items) = KeyOf key v ⊎ KeyOfItem key items

  pub KeyOfMember : {N : Type 0} → Bytes → Members N → Type 0
  KeyOfMember key no_member = ⊥
  KeyOfMember key (member k v map) = (key ≡ k) ⊎ KeyOf key v ⊎ KeyOfMember key map

mutual
  unfolding check_keys KeyOf

  check_keys-ok :
      {N : Type 0} (v : Value N) (key : Bytes)
      → check_keys v ≡ ok tt
      → KeyOf key v
      → key_in_domain key ≡ true
  check_keys-ok null key e k = absurd k
  check_keys-ok (boolean b) key e k = absurd k
  check_keys-ok (number n) key e k = absurd k
  check_keys-ok (string text) key e k = absurd k
  check_keys-ok (array items) key e k = check_items-ok items key e k
  check_keys-ok (object map) key e k = check_members-ok map key e k

  check_items-ok :
      {N : Type 0} (items : Items N) (key : Bytes)
      → check_items items ≡ ok tt
      → KeyOfItem key items
      → key_in_domain key ≡ true
  check_items-ok no_item key e k = absurd k
  check_items-ok (item v items) key e (inl k) = check_keys-ok v key (ground arith) k
  check_items-ok (item v items) key e (inr k) = check_items-ok items key (ground arith) k

  check_members-ok :
      {N : Type 0} (map : Members N) (key : Bytes)
      → check_members map ≡ ok tt
      → KeyOfMember key map
      → key_in_domain key ≡ true
  check_members-ok no_member key e k = absurd k
  check_members-ok (member name v map) key e (inl same) = ground arith
  check_members-ok (member name v map) key e (inr (inl k)) = check_keys-ok v key (ground arith) k
  check_members-ok (member name v map) key e (inr (inr k)) =
      check_members-ok map key (ground arith) k

-- A key that is out of the domain, in what `Has` says holds it.
Outsider : (Bytes → Type 0) → Type 0
Outsider Has = (key : Bytes) × Has key × (key_in_domain key ≡ false)

mutual
  unfolding check_keys KeyOf Outsider

  check_keys-err :
      {N : Type 0} (v : Value N)
      → (check_keys v ≡ ok tt) ⊎ (Outsider (λ key. KeyOf key v) × (check_keys v ≡ err outside))
  check_keys-err null = inl refl
  check_keys-err (boolean b) = inl refl
  check_keys-err (number n) = inl refl
  check_keys-err (string text) = inl refl
  check_keys-err (array items) = check_items-err items
  check_keys-err (object map) = check_members-err map

  check_items-err :
      {N : Type 0} (items : Items N)
      → (check_items items ≡ ok tt)
        ⊎ (Outsider (λ key. KeyOfItem key items) × (check_items items ≡ err outside))
  check_items-err no_item = inl refl
  check_items-err (item v items) = elim (check_keys-err v) [
    | inr ((key, k, out), e) ↦ inr ((key, inl k, out), ground arith)
    | inl fine ↦ elim (check_items-err items) [
      | inr ((key, k, out), e) ↦ inr ((key, inr k, out), ground arith)
      | inl rest ↦ inl (ground arith)
    ]
  ]

  check_members-err :
      {N : Type 0} (map : Members N)
      → (check_members map ≡ ok tt)
        ⊎ (Outsider (λ key. KeyOfMember key map) × (check_members map ≡ err outside))
  check_members-err no_member = inl refl
  check_members-err (member name v map) = elim (Bool-cases (key_in_domain name)) [
    | inr out ↦ inr ((name, inl refl, out), ground arith)
    | inl inside ↦ elim (check_keys-err v) [
      | inr ((key, k, out), e) ↦ inr ((key, inr (inl k), out), ground arith)
      | inl fine ↦ elim (check_members-err map) [
        | inr ((key, k, out), e) ↦ inr ((key, inr (inr k), out), ground arith)
        | inl rest ↦ inl (ground arith)
      ]
    ]
  ]

-- A value all of whose objects' keys, at every depth, are in the domain is handed to serde_jcs; one
-- with a key out of it is refused.
pub to_canonical_bytes_lem :
    {N : Type 0} (to_vec : Value N → Option Bytes) (v : Value N)
    → (((key : Bytes) → KeyOf key v → key_in_domain key ≡ true)
        × (to_canonical_bytes to_vec v ≡ ok_or (to_vec v) (invalid_input "jcs canonicalization")))
      ⊎ ((key : Bytes) × KeyOf key v
          × (key_in_domain key ≡ false)
          × (to_canonical_bytes to_vec v ≡ err outside))
unfolding to_canonical_bytes Outsider
to_canonical_bytes_lem to_vec v = elim (check_keys-err v) [
  | inl fine ↦ inl ((λ key k. check_keys-ok v key fine k), ground (arith, fine))
  | inr ((key, k, out), e) ↦ inr (key, k, out, ground (arith, e))
]
