-- ===== src/Cli/Anchors/Bound.antt =====
-- What the pinned hash of an epoch's genesis fixes.
use Prim.Native.String.{String}
use signet_drive.Base.{ℕ, ◌^◌, ◌<◌, ◌≡◌, ◌⊎◌, inl, inr, refl, arith, sym, ◌∙◌, ap, Bytes}
use signet_drive.Base.{Option, none, some, not, [], ◌∷◌, ◌++◌, length, length-append, append_inj}
use signet_drive.Base.{replicate, bytes_eq, bytes_eq→eq, Bytes-cases}
use signet_drive.Base.BigEndian.{be, length-be}
use signet_drive.Base.Results.{ok, ◌>>◌, ok_or, ok_or_ok, bind_ok, then_ok}
use signet_drive.Merkle.Inclusion.{Collision}
use signet_drive.Crypto.Translog.{epoch, entry_hash_v3, epoch_payload_v3, epoch_payload_v3_tag}
use signet_drive.Crypto.Translog.Binding.{word_inj, Entry, IsEntry, entry_hash_v3_binds}
use signet_drive.Cli.{Reader, and_then, str_at, u64_at}
use signet_drive.Cli.Anchors.{Anchors, RootLine, v3, epoch_end_of}
use signet_drive.Cli.Anchors.Genesis.{check_genesis, epoch_before, is_other_entry}
use signet_drive.Cli.Anchors.Genesis.{epoch_algorithm_v3}

-- The sizes of the source's types.
pub record IsEnd (line : RootLine) : Type 0 where
  pub size_word : line.log_size < 2 ^ 64
  pub root_size : length (line.merkle_root) ≡ 32

-- Two epochs that start alike: they are one epoch with one key, after one end of the epoch before.
pub record SameStart (n n' : ℕ) (vrf vrf' : Bytes) (files files' : Anchors) : Type 0 where
  pub same_epoch : n ≡ n'
  pub same_key : vrf ≡ vrf'
  pub end : RootLine
  pub end' : RootLine
  pub ends : epoch_end_of files (epoch_before n) ≡ some end
  pub ends' : epoch_end_of files' (epoch_before n') ≡ some end'
  pub same_size : end.log_size ≡ end'.log_size
  pub same_root : end.merkle_root ≡ end'.merkle_root

pub and_then-some :
    {A B : Type 0} (o : Option A) (f : A → Option B) {b : B}
    → and_then o f ≡ some b
    → (a : A) × (o ≡ some a) × (f a ≡ some b)
and_then-some none f e = absurd (ground arith)
and_then-some (some a) f e = (a, refl, e)

module _ (sha256 : Bytes → Bytes) (digest : (x : Bytes) → length (sha256 x) ≡ 32) where
  -- The payload of a genesis fixes what it names, but for the key it has the digest only.
  epoch_payload_v3_inj :
      (n n' size size' : ℕ) (root root' vrf vrf' : Bytes)
      → n < 2 ^ 16
      → n' < 2 ^ 16
      → size < 2 ^ 64
      → size' < 2 ^ 64
      → length root ≡ 32
      → length root' ≡ 32
      → epoch_payload_v3 sha256 n size root vrf ≡ epoch_payload_v3 sha256 n' size' root' vrf'
      → (n ≡ n') × (size ≡ size') × (root ≡ root') × (sha256 vrf ≡ sha256 vrf')
  unfolding epoch_payload_v3
  epoch_payload_v3_inj n n' size size' root root' vrf vrf' hn hn' hs hs' hr hr' e =
      let (_, e₀) = append_inj epoch_payload_v3_tag epoch_payload_v3_tag refl e in
      let (_, e₁) = append_inj (0 ∷ []) (0 ∷ []) refl e₀ in
      let (same_n, e₂) = word_inj 2 n n' (omega (arith, hn)) (omega (arith, hn')) e₁ in
      let (same_size, e₃) = word_inj 8 size size' (omega (arith, hs)) (omega (arith, hs')) e₂ in
      let (same_root, same_vrf) = append_inj root root' (hr ∙ sym hr') e₃ in
      (same_n, same_size, same_root, same_vrf)

  length-epoch_payload_v3 :
      (n size : ℕ) (root vrf : Bytes)
      → length root ≡ 32
      → length (epoch_payload_v3 sha256 n size root vrf) ≡ 101
  unfolding epoch_payload_v3
  length-epoch_payload_v3 n size root vrf hr = omega (
    arith,
    length-append (be 2 n) (be 8 size ++ (root ++ sha256 vrf)),
    length-append (be 8 size) (root ++ sha256 vrf),
    length-append root (sha256 vrf),
    length-be 2 n,
    length-be 8 size,
    digest vrf,
  )

  module _ {J : Type 0} (reader : Reader J) (decode64 : Bytes → Option Bytes) where
    abbrev payload_of : ℕ → RootLine → Bytes → Bytes
    payload_of n end vrf = epoch_payload_v3 sha256 n (end.log_size) (end.merkle_root) vrf

    abbrev hash_of : Bytes → ℕ → Bytes
    hash_of payload created =
        entry_hash_v3 sha256 1 none epoch epoch_algorithm_v3 payload created (replicate 32 0)

    -- The genesis entry of an epoch.
    abbrev genesis_of : ℕ → RootLine → Bytes → ℕ → Entry
    genesis_of n end vrf created = record {
      id = 1;
      account = none;
      purpose = epoch;
      algorithm = epoch_algorithm_v3;
      public_key = payload_of n end vrf;
      created_at = created;
      prev = replicate 32 0;
    }

    -- What an accepted genesis was checked against.
    record Checked (n : ℕ) (vrf hash : Bytes) (files : Anchors) (genesis : J) : Type 0 where
      end : RootLine
      ends : epoch_end_of files (epoch_before n) ≡ some end
      created : ℕ
      read : u64_at reader genesis "created_at" ≡ some created
      hashes : hash_of (payload_of n end vrf) created ≡ hash

    check_genesis-Checked :
        (n : ℕ) (vrf hash : Bytes) (files : Anchors) (genesis : J)
        → check_genesis reader decode64 sha256 (v3 n vrf hash) files genesis ≡ ok tt
        → Checked n vrf hash files genesis
    unfolding check_genesis
    check_genesis-Checked n vrf hash files genesis e =
        let (end, h₁, e₁) = bind_ok (ok_or (epoch_end_of files (epoch_before n)) _) _ e in
        let (_, e₂) = then_ok (is_other_entry reader decode64 sha256 genesis) _ _ e₁ in
        let (payload, h₃, e₃) =
          bind_ok (ok_or (and_then (str_at reader genesis "public_key") decode64) _) _ e₂ in
        let (other, e₄) = then_ok (not (bytes_eq payload (payload_of n end vrf))) _ _ e₃ in
        let (created, h₅, e₅) = bind_ok (ok_or (u64_at reader genesis "created_at") _) _ e₄ in
        let (changed, _) =
          then_ok (not (bytes_eq (hash_of payload created) hash)) _ (ok tt)
            (ap (λ m. m >> ok tt) e₅) in
        let same : payload ≡ payload_of n end vrf =
          bytes_eq→eq payload (payload_of n end vrf) (ground arith) in
        record {
          end = end;
          ends = ok_or_ok (epoch_end_of files (epoch_before n)) _ h₁;
          created = created;
          read = ok_or_ok (u64_at reader genesis "created_at") _ h₅;
          hashes =
              sym (ap (λ p. hash_of p created) same)
              ∙ bytes_eq→eq (hash_of payload created) hash (ground arith);
        }

    u64_at_word :
        ((j : J) (m : ℕ) → reader.as_u64 j ≡ some m → m < 2 ^ 64)
        → (obj : J) (field : String) {m : ℕ} → u64_at reader obj field ≡ some m
        → m < 2 ^ 64
    u64_at_word words obj field {m} e =
        let (value, _, read) = and_then-some (reader.get obj field) reader.as_u64 e in
        words value m read

    genesis_of-IsEntry :
        (n : ℕ) (end : RootLine) (vrf : Bytes) (created : ℕ)
        → IsEnd end
        → created < 2 ^ 64
        → IsEntry 64 (genesis_of n end vrf created)
    genesis_of-IsEntry n end vrf created sizes word = record {
      id_word = omega arith;
      account_size = refl;
      algorithm_short = omega arith;
      key_short =
          omega (
            arith,
            length-epoch_payload_v3 n (end.log_size) (end.merkle_root) vrf (sizes.root_size),
          );
      created_word = word;
    }

    -- Where two genesis entries are accepted under one pinned hash, each for an epoch, its key and a
    -- set of anchor files, the epochs are the same, the keys are the same, and both sets end the
    -- epoch before with the same size and root of the log; or SHA-256 collides. Numbers that are read
    -- are below 2^64, the files' end lines have the sizes of their types, epochs are below 2^16 and
    -- digests have 32 bytes.
    pub check_genesis_binds :
        ((j : J) (m : ℕ) → reader.as_u64 j ≡ some m → m < 2 ^ 64)
        → (n n' : ℕ) (vrf vrf' hash : Bytes) (files files' : Anchors) (genesis genesis' : J)
        → ((line : RootLine) → epoch_end_of files (epoch_before n) ≡ some line → IsEnd line)
        → ((line : RootLine) → epoch_end_of files' (epoch_before n') ≡ some line → IsEnd line)
        → n < 2 ^ 16
        → n' < 2 ^ 16
        → check_genesis reader decode64 sha256 (v3 n vrf hash) files genesis ≡ ok tt
        → check_genesis reader decode64 sha256 (v3 n' vrf' hash) files' genesis' ≡ ok tt
        → SameStart n n' vrf vrf' files files' ⊎ Collision sha256
    check_genesis_binds words n n' vrf vrf' hash files files' genesis genesis' sizes sizes' hn hn' e
          e' =
        let c = check_genesis-Checked n vrf hash files genesis e in
        let c' = check_genesis-Checked n' vrf' hash files' genesis' e' in
        let line : IsEnd (c.end) = sizes (c.end) (c.ends) in
        let line' : IsEnd (c'.end) = sizes' (c'.end) (c'.ends) in
        elim (entry_hash_v3_binds sha256 (genesis_of n (c.end) vrf (c.created))
          (genesis_of n' (c'.end) vrf' (c'.created))
          (genesis_of-IsEntry n (c.end) vrf (c.created) line
            (u64_at_word words genesis "created_at" (c.read)))
          (genesis_of-IsEntry n' (c'.end) vrf' (c'.created) line'
            (u64_at_word words genesis' "created_at" (c'.read)))
          (c.hashes ∙ sym (c'.hashes))) [
            | inr bad ↦ inr bad
            | inl same ↦
                let (epochs, ends, roots, digests) =
                  epoch_payload_v3_inj n n' (c.end.log_size) (c'.end.log_size) (c.end.merkle_root)
                    (c'.end.merkle_root) vrf vrf' hn hn' (line.size_word) (line'.size_word)
                    (line.root_size) (line'.root_size) (same.same_key) in
                elim (Bytes-cases vrf vrf') [
                  | inr differ ↦ inr (vrf, vrf', differ, digests)
                  | inl keys ↦ inl (record {
                    same_epoch = epochs;
                    same_key = keys;
                    end = c.end;
                    end' = c'.end;
                    ends = c.ends;
                    ends' = c'.ends;
                    same_size = ends;
                    same_root = roots;
                  })
                ]
          ]
