-- ===== src/Cli/Anchors.antt =====
-- The anchoring of the log's epoch: the pure part of cli/src/anchors.rs.
--
-- `Anchors::parse`, the state and cache files, the requests and the retry loop are not modelled; the
-- anchors are what a parse returned. A `Duration` is its nanoseconds.
pub mod Judged
pub mod Ratchet
pub mod Index
pub mod Genesis
pub mod Bound
mod Runs
use Prim.Native.String.{String}
use signet_drive.Base.{ℕ, zero, suc, ◌+◌, ◌-◌, ◌*◌, ◌≡◌, Bytes, Bool, true, false, not, ◌&&◌, ◌||◌}
use signet_drive.Base.{List, [], ◌∷◌, length, Option, none, some, ltb, leb, ◌==◌, bytes_eq, max}
use signet_drive.Base.{if◌then◌else◌, min}
use signet_drive.Base.Results.{Result, ok, err, ◌>>=◌, ok_or}
use signet_drive.Cli.{CliError, transparency_violation, unanchored}

-- 15 minutes.
abbrev pub transition_bound : ℕ
transition_bound = 15 * 60 * 1000000000

pub record RootLine : Type 0 where
  pub epoch : ℕ
  pub log_size : ℕ
  pub merkle_root : Bytes
  pub epoch_end : Bool

pub record EpochKey : Type 0 where
  pub epoch : ℕ
  pub vrf_public_key : Bytes
  pub genesis_entry_hash : Bytes

pub record Anchors : Type 0 where
  pub roots : List RootLine
  pub keys : List EpochKey

-- `Iterator::filter`.
abbrev pub filter : {A : Type 0} → (A → Bool) → List A → List A
filter f [] = []
filter f (x ∷ xs) = let rest = filter f xs in if f x then x ∷ rest else rest

-- What is left after the first: `found.next()` twice.
abbrev pub only_one : {A : Type 0} → List A → String → Result CliError (Option A)
only_one [] twice = ok none
only_one (x ∷ []) twice = ok (some x)
only_one (x ∷ y ∷ rest) twice = err (transparency_violation twice)

-- `Anchors::key`.
unfoldable pub key : Anchors → ℕ → Result CliError (Option EpochKey)
key anchors epoch =
    only_one (filter (λ k. k.epoch == epoch) (anchors.keys))
      "vrf-keys.jsonl carries two lines for epoch {}"

-- `Iterator::find`.
abbrev pub find : {A : Type 0} → (A → Bool) → List A → Option A
find f [] = none
find f (x ∷ xs) = let rest = find f xs in if f x then some x else rest

-- `Anchors::epoch_end`.
unfoldable pub epoch_end_of : Anchors → ℕ → Option RootLine
epoch_end_of anchors epoch = find (λ r. r.epoch == epoch && r.epoch_end) (anchors.roots)

-- `Iterator::max_by_key` on `log_size`: the last of the greatest.
abbrev last_max : Option RootLine → List RootLine → Option RootLine
last_max best [] = best
last_max none (r ∷ rest) = last_max (some r) rest
last_max (some b) (r ∷ rest) =
    if ltb (r.log_size) (b.log_size) then last_max (some b) rest else last_max (some r) rest

-- `Anchors::latest_root`.
unfoldable pub latest_root : Anchors → ℕ → Option RootLine
latest_root anchors epoch =
    last_max none (filter (λ r. r.epoch == epoch && not (r.epoch_end)) (anchors.roots))

-- `map(f).max().unwrap_or(1)`.
abbrev pub max_or_one : {A : Type 0} → (A → ℕ) → List A → ℕ
max_or_one f [] = 1
max_or_one f (x ∷ []) = f x
max_or_one f (x ∷ y ∷ rest) = max (f x) (max_or_one f (y ∷ rest))

-- `Anchors::max_epoch`; `saturating_add` on a `u16`.
unfoldable pub max_epoch : Anchors → ℕ
max_epoch anchors =
    let from_keys = max_or_one (λ (k : EpochKey). k.epoch) (anchors.keys) in
    let from_ends =
      max_or_one (λ (r : RootLine). min 65535 (r.epoch + 1))
        (filter (λ r. r.epoch_end) (anchors.roots)) in
    let from_roots = max_or_one (λ (r : RootLine). r.epoch) (anchors.roots) in
    max (max from_keys from_ends) from_roots

abbrev pub is_some : {A : Type 0} → Option A → Bool
is_some none = false
is_some (some a) = true

-- `Anchors::carries`.
unfoldable pub carries : Anchors → ℕ → Result CliError Bool
carries anchors epoch =
    if leb epoch 1
    then ok true
    else key anchors epoch >>= λ line.
        ok (is_some line && is_some (epoch_end_of anchors (epoch - 1)))

pub data LogMode : Type 0 where
  legacy : LogMode
  v3 : ℕ → Bytes → Bytes → LogMode

pub data EpochVerdict : Type 0 where
  anchored : LogMode → EpochVerdict
  not_anchored : String → EpochVerdict
  violation : String → EpochVerdict

pub record ServedEpoch : Type 0 where
  pub epoch : ℕ
  pub vrf_public_key : Option Bytes

-- `first_unanchored_age.is_some_and(|age| age >= TRANSITION_BOUND)`.
abbrev pub past_bound : Option ℕ → Bool
past_bound none = false
past_bound (some age) = leb transition_bound age

abbrev pub soft_or_hard : Option ℕ → String → EpochVerdict
soft_or_hard age why = if past_bound age then violation why else not_anchored why

-- The last match of `judge_epoch`, on the key the server names, for the epoch's key line.
abbrev judge_key : ServedEpoch → EpochKey → Option Bytes → EpochVerdict
judge_key served line none = violation "the server serves epoch {} without naming its VRF key"
judge_key served line (some served_key) =
    if bytes_eq served_key (line.vrf_public_key)
    then anchored (v3 (served.epoch) (line.vrf_public_key) (line.genesis_entry_hash))
    else violation
        "the server's epoch-{} VRF key is not the key vrf-keys.jsonl publishes for that epoch"

-- The match on `anchors.key(served.epoch)`. `Ok(None)` is `unreachable!` in the source, here another
-- violation; it is reached on a carried epoch only, which has a key line (`carried_key` in
-- Cli/Anchors/Judged.antt).
abbrev judge_line : ServedEpoch → Result CliError (Option EpochKey) → EpochVerdict
judge_line served (err e) = violation (e.message)
judge_line served (ok none) = violation "carries() checked the key line"
judge_line served (ok (some line)) = judge_key served line (served.vrf_public_key)

-- The match on `anchors.carries(served.epoch)` and what follows it.
abbrev judge_carried : ServedEpoch → Anchors → Option ℕ → Result CliError Bool → EpochVerdict
judge_carried served files age (err e) = violation (e.message)
judge_carried served files age (ok false) =
    soft_or_hard age "the server serves epoch {} but the anchor files do not carry it yet"
judge_carried served files age (ok true) = judge_line served (key files (served.epoch))

-- `judge_epoch` after the ratchet.
abbrev judge_files : ServedEpoch → Option Anchors → Option ℕ → EpochVerdict
judge_files served none age =
    if leb (served.epoch) 1
    then anchored legacy
    else not_anchored "the anchor files could not be read, so epoch {}'s VRF key cannot be pinned"
judge_files served (some files) age =
    if ltb (served.epoch) (max_epoch files)
    then soft_or_hard age "the anchor files show epoch {} but the server serves epoch {}"
    else if served.epoch == 1
    then anchored legacy
    else judge_carried served files age (carries files (served.epoch))

-- `judge_epoch`: the served epoch, the files if they could be read, the highest epoch ever anchored,
-- and the age of the disagreement.
unfoldable pub judge_epoch : ServedEpoch → Option Anchors → ℕ → Option ℕ → EpochVerdict
judge_epoch served anchors highest_seen first_unanchored_age =
    if ltb (served.epoch) highest_seen
    then violation "the server serves epoch {} but this CLI has already anchored epoch {} for it"
    else judge_files served anchors first_unanchored_age

-- The ratchet and the sightings of `OriginState`; the sightings are a map, from an epoch to a time in
-- seconds. The cache is not modelled.
pub record OriginState : Type 0 where
  pub highest_epoch : ℕ
  pub first_unanchored : List (ℕ × ℕ)

-- `BTreeMap::get`.
abbrev pub lookup : ℕ → List (ℕ × ℕ) → Option ℕ
lookup k [] = none
lookup k ((k', v) ∷ rest) = let more = lookup k rest in if k' == k then some v else more

-- `entry(k).or_insert(v)`.
abbrev pub or_insert : ℕ → ℕ → List (ℕ × ℕ) → List (ℕ × ℕ)
or_insert k v sightings = elim (lookup k sightings) [
  | some old ↦ sightings
  | none ↦ (k, v) ∷ sightings
]

abbrev pub epoch_of_mode : LogMode → ℕ
epoch_of_mode legacy = 1
epoch_of_mode (v3 epoch vrf genesis) = epoch

pub update_state : OriginState → ℕ → EpochVerdict → ℕ → OriginState
update_state state served_epoch (anchored mode) now = record {
  highest_epoch = max (state.highest_epoch) (epoch_of_mode mode);
  first_unanchored = filter (λ s. ltb (epoch_of_mode mode) (s.0)) (state.first_unanchored);
}
update_state state served_epoch (not_anchored why) now = record {
  highest_epoch = state.highest_epoch;
  first_unanchored = or_insert served_epoch now (state.first_unanchored);
}
update_state state served_epoch (violation why) now = state

-- The age that `anchor_served` judges by: `Duration::from_secs` of the time since the first sighting.
abbrev pub sighting_age : OriginState → ℕ → ℕ → Option ℕ
sighting_age state served_epoch now = elim (lookup served_epoch (state.first_unanchored)) [
  | none ↦ none
  | some t ↦ some ((now - t) * 1000000000)
]

-- The closure `judge` of `anchor_served`.
unfoldable pub judge : OriginState → ServedEpoch → Option Anchors → ℕ → EpochVerdict
judge state served anchors now =
    judge_epoch served anchors (state.highest_epoch) (sighting_age state (served.epoch) now)

unfoldable pub receipt_rule : EpochVerdict → Result CliError LogMode
receipt_rule (anchored mode) = ok mode
receipt_rule (not_anchored why) = err (unanchored why)
receipt_rule (violation why) = err (transparency_violation why)
