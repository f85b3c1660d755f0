-- ===== src/Cli/Anchors/Runs.antt =====
-- Verdicts on concrete readings of an origin.
use Prim.Native.String.{String, compare}
use Prim.Native.Nat.{lt, eq, gt}
use signet_drive.Base.{
  ℕ, ◌<◌, ◌^◌, Bytes, Bool, false, List, Option, replicate, if◌then◌else◌, subst,
}
use signet_drive.Base.Results.{ok, some_inj}
use signet_drive.Base.BigEndian.{be}
use signet_drive.Merkle.Inclusion.{Collision}
use signet_drive.Crypto.Translog.{epoch_payload_v3, entry_hash_v3}
use signet_drive.Cli.{Reader}
use signet_drive.Cli.Anchors.Genesis.{check_genesis, word_epoch}
use signet_drive.Cli.Anchors.Bound.{IsEnd, SameStart, check_genesis_binds}
use signet_drive.Base.{◌≡◌, ◌≢◌, ◌⊎◌, ◌≤◌, refl, arith, true, [], ◌∷◌, none, some, bytes_eq}
use signet_drive.Cli.Anchors.{Anchors, RootLine, EpochKey, v3, anchored, not_anchored, violation}
use signet_drive.Cli.Anchors.{ServedEpoch, OriginState, judge_epoch, judge, update_state, key}
use signet_drive.Cli.Anchors.{epoch_end_of, max_epoch, carries}
use signet_drive.Cli.Anchors.Judged.{Pinned, judge_epoch-anchored}
use signet_drive.Cli.Anchors.Ratchet.{done, next, judged, rollback_refused, disagreement_ends}

abbrev end_of_first : RootLine
end_of_first = record { epoch = 1; log_size = 9; merkle_root = 1 ∷ []; epoch_end = true }

abbrev second_key : EpochKey
second_key = record { epoch = 2; vrf_public_key = 5 ∷ []; genesis_entry_hash = 6 ∷ [] }

abbrev files : Anchors
files = record { roots = end_of_first ∷ []; keys = second_key ∷ [] }

abbrev old_files : Anchors
old_files = record { roots = []; keys = [] }

abbrev served : ServedEpoch
served = record { epoch = 2; vrf_public_key = some (5 ∷ []) }

abbrev served_first : ServedEpoch
served_first = record { epoch = 1; vrf_public_key = none }

second_anchored : judge_epoch served (some files) 1 none ≡ anchored (v3 2 (5 ∷ []) (6 ∷ []))
unfolding judge_epoch key epoch_end_of max_epoch carries bytes_eq
second_anchored = refl

not_carried :
    judge_epoch served (some old_files) 1 none
    ≡ not_anchored "the server serves epoch {} but the anchor files do not carry it yet"
unfolding judge_epoch key epoch_end_of max_epoch carries
not_carried = refl

judge_epoch-anchored_example : Pinned served (some files) 1 2 (5 ∷ []) (6 ∷ [])
judge_epoch-anchored_example =
    judge_epoch-anchored served (some files) 1 none (omega arith) second_anchored

abbrev fresh : OriginState
fresh = record { highest_epoch = 0; first_unanchored = [] }

abbrev pinned : OriginState
pinned = update_state fresh 2 (anchored (v3 2 (5 ∷ []) (6 ∷ []))) 1000

rollback_refused_example :
    (why : String) × (judge pinned served_first (some files) 2000 ≡ violation why)
rollback_refused_example =
    rollback_refused fresh pinned 2 (v3 2 (5 ∷ []) (6 ∷ [])) 1000 2000 served_first (some files)
      (done pinned) (omega arith)

abbrev seen : OriginState
seen = record { highest_epoch = 1; first_unanchored = (2, 1000) ∷ [] }

abbrev later : OriginState
later = update_state seen 2 (judge seen served (some old_files) 1500) 1500

disagreement_ends_example :
    (2 ≤ later.highest_epoch) ⊎ (judge later served (some old_files) 1900 ≢ not_anchored "again")
disagreement_ends_example =
    disagreement_ends seen later served old_files 1000 1900
      (next (judged seen served (some old_files) 1500) (done later)) refl (omega arith)

-- A genesis entry and its fields.
data Node : Type 0 where
  genesis : Node
  first : Node
  version : Node
  purpose : Node
  payload : Node
  created : Node

abbrev toy_digest : Bytes → Bytes
toy_digest input = replicate 32 0

abbrev same_text : String → String → Bool
same_text a b = elim (compare a b) [ lt ↦ false | eq ↦ true | gt ↦ false ]

abbrev find : String → List (String × Node) → Option Node
find field [] = none
find field ((name, node) ∷ rest) =
    let more = find field rest in if same_text name field then some node else more

abbrev get_field : Node → String → Option Node
get_field genesis field = find field (
    ("entry_id", first)
    ∷ ("entry_version", version)
    ∷ ("key_purpose", purpose)
    ∷ ("public_key", payload)
    ∷ ("created_at", created)
    ∷ [])
get_field first field = none
get_field version field = none
get_field purpose field = none
get_field payload field = none
get_field created field = none

abbrev number_of : Node → Option ℕ
number_of genesis = none
number_of first = some 1
number_of version = some 3
number_of purpose = none
number_of payload = none
number_of created = some 1700000000

abbrev rooted_end : RootLine
rooted_end = record { epoch = 1; log_size = 9; merkle_root = replicate 32 4; epoch_end = true }

abbrev end_file : Anchors
end_file = record { roots = rooted_end ∷ []; keys = [] }

abbrev longer_file : Anchors
longer_file = record { roots = rooted_end ∷ end_of_first ∷ []; keys = [] }

abbrev text_of : Node → Option Bytes
text_of genesis = none
text_of first = none
text_of version = none
text_of purpose = some word_epoch
text_of payload = some (epoch_payload_v3 toy_digest 2 9 (replicate 32 4) (5 ∷ []))
text_of created = none

abbrev node_reader : Reader Node
node_reader = record {
  get = get_field;
  as_str = text_of;
  as_u64 = number_of;
  as_i64 = λ n. none;
  as_bool = λ n. none;
  as_array = λ n. none;
  is_null = λ n. false;
}

number_of-word : (j : Node) (m : ℕ) → number_of j ≡ some m → m < 2 ^ 64
number_of-word genesis m e = absurd (ground arith)
number_of-word first m e = ground arith
number_of-word version m e = ground arith
number_of-word purpose m e = absurd (ground arith)
number_of-word payload m e = absurd (ground arith)
number_of-word created m e = ground arith

rooted_end-IsEnd : IsEnd rooted_end
rooted_end-IsEnd = record { size_word = omega arith; root_size = refl }

accepted_once :
    check_genesis node_reader some toy_digest (v3 2 (5 ∷ []) (replicate 32 0)) end_file genesis
    ≡ ok tt
unfolding check_genesis epoch_end_of bytes_eq epoch_payload_v3 entry_hash_v3 be
accepted_once = refl

accepted_again :
    check_genesis node_reader some toy_digest (v3 2 (5 ∷ []) (replicate 32 0)) longer_file genesis
    ≡ ok tt
unfolding check_genesis epoch_end_of bytes_eq epoch_payload_v3 entry_hash_v3 be
accepted_again = refl

end_file-IsEnd : (line : RootLine) → epoch_end_of end_file 1 ≡ some line → IsEnd line
unfolding epoch_end_of
end_file-IsEnd line e = subst IsEnd (some_inj e) rooted_end-IsEnd

longer_file-IsEnd : (line : RootLine) → epoch_end_of longer_file 1 ≡ some line → IsEnd line
unfolding epoch_end_of
longer_file-IsEnd line e = subst IsEnd (some_inj e) rooted_end-IsEnd

check_genesis_binds_example :
    SameStart 2 2 (5 ∷ []) (5 ∷ []) end_file longer_file ⊎ Collision toy_digest
check_genesis_binds_example =
    check_genesis_binds toy_digest (λ x. refl) node_reader some number_of-word 2 2 (5 ∷ []) (5 ∷ [])
      (replicate 32 0) end_file longer_file genesis genesis end_file-IsEnd longer_file-IsEnd
      (omega arith) (omega arith) accepted_once accepted_again
