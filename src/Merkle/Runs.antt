-- ===== src/Merkle/Runs.antt =====
-- Concrete runs of the Merkle functions with a stand-in for SHA-256 that has its digest length, and
-- the theorems at concrete logs.
use signet_drive.Base.{
  bytes_eq, ℕ, ◌≡◌, refl, ◌⊎◌, List, [], ◌∷◌, ◌++◌, take, replicate, length-take,
}
use signet_drive.Base.{length-append, length-replicate, Bytes, true, false, some, arith, get_elem?}
use signet_drive.Merkle.{audit_path, mth, internal_hash, leaf_hash}
use signet_drive.Merkle.{
  ascend, inclusion_loop, split_point, merkle_root, inclusion_proof, verify_inclusion,
}
use signet_drive.Merkle.Inclusion.{IsHash, Collision, verify_inclusion-inclusion_proof}
use signet_drive.Merkle.Inclusion.{verify_inclusion_sound}
use signet_drive.Merkle.Consistency.{verify_consistency_sound}
use signet_drive.Merkle.{verify_consistency, consistency_proof, subproof, consistency_loop}
use signet_drive.Merkle.{consistency_from, align, is_power_of_two}
use signet_drive.Base.{length}

-- Not a hash that resists collisions, but one whose outputs have 32 bytes.
abbrev toy_sha256 : Bytes → Bytes
toy_sha256 x = take 32 (x ++ replicate 32 0)

toy_length : (x : Bytes) → IsHash (toy_sha256 x)
toy_length x = omega (
  arith,
  length-take 32 (x ++ replicate 32 0),
  length-append x (replicate 32 0),
  length-replicate {A = ℕ} 32 0,
)

abbrev log : List Bytes
log = (1 ∷ []) ∷ (2 ∷ []) ∷ (3 ∷ []) ∷ []

split_points : (split_point 2 ≡ 1) × (split_point 5 ≡ 4) × (split_point 8 ≡ 4) × (split_point 9 ≡ 8)
unfolding split_point
split_points = (refl, refl, refl, refl)

-- The last entry's path holds only the root of the first two.
abbrev proof_of_last : List Bytes
proof_of_last = toy_sha256 (1 ∷ (toy_sha256 (0 ∷ 1 ∷ []) ++ toy_sha256 (0 ∷ 2 ∷ []))) ∷ []

inclusion_proof_run : inclusion_proof toy_sha256 log 2 ≡ some proof_of_last
unfolding inclusion_proof audit_path split_point mth internal_hash leaf_hash
inclusion_proof_run = refl

inclusion_accepted :
    verify_inclusion toy_sha256 (3 ∷ []) 2 3 proof_of_last (merkle_root toy_sha256 log) ≡ true
unfolding verify_inclusion merkle_root mth split_point internal_hash leaf_hash inclusion_loop ascend
    bytes_eq
inclusion_accepted = refl

inclusion_wrong_index :
    verify_inclusion toy_sha256 (3 ∷ []) 1 3 proof_of_last (merkle_root toy_sha256 log) ≡ false
unfolding verify_inclusion merkle_root mth split_point internal_hash leaf_hash inclusion_loop ascend
    bytes_eq
inclusion_wrong_index = refl

verify_inclusion-inclusion_proof_example :
    (proof : List Bytes) × (inclusion_proof toy_sha256 log 2 ≡ some proof)
    × (verify_inclusion toy_sha256 (3 ∷ []) 2 3 proof (merkle_root toy_sha256 log) ≡ true)
verify_inclusion-inclusion_proof_example =
    verify_inclusion-inclusion_proof toy_sha256 log 2 (3 ∷ []) refl

verify_inclusion_sound_example : (get_elem? log 2 ≡ some (3 ∷ [])) ⊎ Collision toy_sha256
verify_inclusion_sound_example =
    verify_inclusion_sound toy_sha256 toy_length log 2 (3 ∷ []) proof_of_last (refl, tt)
      inclusion_accepted

abbrev older : List Bytes
older = (1 ∷ []) ∷ (2 ∷ []) ∷ []

abbrev proof_of_two : List Bytes
proof_of_two = leaf_hash toy_sha256 (3 ∷ []) ∷ []

consistency_run : consistency_proof toy_sha256 log 2 ≡ some proof_of_two
unfolding consistency_proof subproof mth split_point leaf_hash
consistency_run = refl

consistency_accepted :
    verify_consistency toy_sha256 2 3
      (merkle_root toy_sha256 older)
      (merkle_root toy_sha256 log)
      proof_of_two
    ≡ true
unfolding verify_consistency merkle_root mth split_point internal_hash leaf_hash consistency_loop
    consistency_from align is_power_of_two ascend bytes_eq
consistency_accepted = refl

verify_consistency_sound_example : (older ≡ take (length older) log) ⊎ Collision toy_sha256
unfolding leaf_hash
verify_consistency_sound_example =
    verify_consistency_sound toy_sha256 toy_length older log proof_of_two (refl, tt)
      consistency_accepted
