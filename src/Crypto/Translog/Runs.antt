-- ===== src/Crypto/Translog/Runs.antt =====
-- Entries under a stand-in for SHA-256.
use signet_drive.Base.{◌≡◌, refl, Bytes, none, [], ◌∷◌, ◌⊎◌, replicate, arith}
use signet_drive.Merkle.Inclusion.{Collision}
use signet_drive.Crypto.Translog.{epoch, entry_hash_v2, entry_hash_v3}
use signet_drive.Crypto.Translog.Binding.{Entry, IsEntry, Same, entry_hash_v3_binds}

abbrev checkpoint : Entry
checkpoint = record {
  id = 7;
  account = none;
  purpose = epoch;
  algorithm = 118 ∷ [];
  public_key = 1 ∷ 2 ∷ [];
  created_at = 1700000000;
  prev = replicate 32 0;
}

checkpoint-v3 : IsEntry 64 checkpoint
checkpoint-v3 = record {
  id_word = omega arith;
  account_size = refl;
  algorithm_short = omega arith;
  key_short = omega arith;
  created_word = omega arith;
}

-- A digest that is not constant.
abbrev same_digest : Bytes → Bytes
same_digest bytes = bytes

abbrev no_digest : Bytes → Bytes
no_digest bytes = []

entry_hash_v3_binds_example : Same 64 checkpoint checkpoint ⊎ Collision same_digest
entry_hash_v3_binds_example =
    entry_hash_v3_binds same_digest checkpoint checkpoint checkpoint-v3 checkpoint-v3 refl

entries_collide :
    entry_hash_v2 no_digest checkpoint.id checkpoint.account checkpoint.purpose checkpoint.algorithm
      checkpoint.public_key checkpoint.created_at checkpoint.prev
    ≡ entry_hash_v3 no_digest checkpoint.id checkpoint.account checkpoint.purpose
        checkpoint.algorithm checkpoint.public_key checkpoint.created_at checkpoint.prev
unfolding entry_hash_v2 entry_hash_v3
entries_collide = refl
