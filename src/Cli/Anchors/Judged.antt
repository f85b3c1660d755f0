-- ===== src/Cli/Anchors/Judged.antt =====
-- What the verdicts of `judge_epoch` in cli/src/anchors.rs rest on.
use signet_drive.Base.{ℕ, ◌-◌, ◌≡◌, ◌≢◌, ◌≤◌, refl, ap, arith, sym, ◌∙◌, inl, inr}
use signet_drive.Base.{Bytes, Bool, true, false, List, [], ◌∷◌, Option, none, some, Bool-cases}
use signet_drive.Base.{ltb, ◌==◌, bytes_eq, bytes_eq→eq}
use signet_drive.Base.Results.{Result, ok, err, Result-cases}
use signet_drive.Cli.{CliError}
use Prim.Native.String.{String}
use signet_drive.Cli.Anchors.{transition_bound}
use signet_drive.Cli.Anchors.{EpochKey, RootLine, Anchors, filter, only_one, key, epoch_end_of}
use signet_drive.Cli.Anchors.{max_epoch, carries, v3, anchored, not_anchored}
use signet_drive.Cli.Anchors.{violation, ServedEpoch, judge_key, judge_line, judge_carried}
use signet_drive.Cli.Anchors.{EpochVerdict, judge_files, judge_epoch, past_bound}

-- What an epoch from 2 on was anchored by.
pub record Pinned (served : ServedEpoch) (anchors : Option Anchors) (highest_seen e : ℕ)
    (vrf genesis : Bytes) : Type 0 where
  pub files : Anchors
  pub line : EpochKey
  pub end_line : RootLine
  pub readable : anchors ≡ some files
  pub no_rollback : highest_seen ≤ e
  pub newest : max_epoch files ≤ e
  pub names_epoch : served.epoch ≡ e
  pub names_key : served.vrf_public_key ≡ some vrf
  pub one_line : filter (λ k. k.epoch == served.epoch) (files.keys) ≡ line ∷ []
  pub pinned_key : line.vrf_public_key ≡ vrf
  pub pinned_genesis : line.genesis_entry_hash ≡ genesis
  pub previous_ended : epoch_end_of files (served.epoch - 1) ≡ some end_line

only_one-some :
    {A : Type 0} (found : List A) (twice : String) {a : A}
    → only_one found twice ≡ ok (some a)
    → found ≡ a ∷ []
only_one-some [] twice e = absurd (ground arith)
only_one-some (x ∷ []) twice e = ground arith
only_one-some (x ∷ y ∷ rest) twice e = absurd (ground arith)

one_key_line :
    (files : Anchors) (e : ℕ) {line : EpochKey}
    → key files e ≡ ok (some line)
    → filter (λ k. k.epoch == e) (files.keys) ≡ line ∷ []
unfolding key
one_key_line files e found =
    only_one-some (filter (λ k. k.epoch == e) (files.keys))
      "vrf-keys.jsonl carries two lines for epoch {}" found

-- A carried epoch from 2 on has one key line, and the epoch before it has an end line.
pub carried_key :
    (files : Anchors) (e : ℕ)
    → 2 ≤ e
    → carries files e ≡ ok true
    → (line : EpochKey) × (end_line : RootLine) × (key files e ≡ ok (some line))
      × (epoch_end_of files (e - 1) ≡ some end_line)
unfolding carries
carried_key files e later h = elim (Result-cases (key files e)) [
  | inr (x, bad) ↦ absurd (ground arith)
  | inl (none, found) ↦ absurd (ground arith)
  | inl (some line, found) ↦ go (epoch_end_of files (e - 1)) refl line found
]
  where
    go :
        (o : Option RootLine)
        → epoch_end_of files (e - 1) ≡ o
        → (line : EpochKey) → key files e ≡ ok (some line)
        → (line : EpochKey) × (end_line : RootLine) × (key files e ≡ ok (some line))
          × (epoch_end_of files (e - 1) ≡ some end_line)
    go none q line found = absurd (ground arith)
    go (some r) q line found = (line, r, found, q)

judge_key-anchored :
    (served : ServedEpoch) (line : EpochKey) (named : Option Bytes) {e : ℕ} {vrf genesis : Bytes}
    → judge_key served line named ≡ anchored (v3 e vrf genesis)
    → (served.epoch ≡ e)
      × (named ≡ some vrf)
      × (line.vrf_public_key ≡ vrf)
      × (line.genesis_entry_hash ≡ genesis)
judge_key-anchored served line none h = absurd (ground arith)
judge_key-anchored served line (some k) h = elim (Bool-cases (bytes_eq k (line.vrf_public_key))) [
  | inr other ↦ absurd (ground arith)
  | inl same ↦ (
    ground arith,
    ground (arith, bytes_eq→eq k (line.vrf_public_key) same),
    ground arith,
    ground arith,
  )
]

judge_carried-anchored :
    (served : ServedEpoch) (files : Anchors) (age : Option ℕ) (c : Result CliError Bool) {e : ℕ}
    {vrf genesis : Bytes}
    → judge_carried served files age c ≡ anchored (v3 e vrf genesis)
    → (c ≡ ok true) × (judge_line served (key files (served.epoch)) ≡ anchored (v3 e vrf genesis))
judge_carried-anchored served files age (err x) h = absurd (ground arith)
judge_carried-anchored served files age (ok false) h = absurd (ground arith)
judge_carried-anchored served files age (ok true) h = (refl, h)

judge_files-anchored :
    (served : ServedEpoch) (files : Anchors) (age : Option ℕ) {e : ℕ} {vrf genesis : Bytes}
    → judge_files served (some files) age ≡ anchored (v3 e vrf genesis)
    → (max_epoch files ≤ served.epoch)
      × (served.epoch ≢ 1)
      × (judge_carried served files age (carries files (served.epoch))
          ≡ anchored (v3 e vrf genesis))
judge_files-anchored served files age h = elim (Bool-cases (ltb (served.epoch) (max_epoch files))) [
  | inl behind ↦ absurd (ground arith)
  | inr fine ↦ elim (Bool-cases (served.epoch == 1)) [
    | inl first ↦ absurd (ground arith)
    | inr later ↦ (ground arith, ground arith, ground arith)
  ]
]

-- Of a server that serves epoch 1 or a later one, an epoch is anchored by its VRF key only if the
-- files can be read, show no later epoch, end the epoch before, hold one key line for it, and the
-- server names that line's key; and only if no later epoch has been anchored before. What is anchored
-- is the line's key and genesis.
pub judge_epoch-anchored :
    (served : ServedEpoch) (anchors : Option Anchors) (highest_seen : ℕ) (age : Option ℕ) {e : ℕ}
    {vrf genesis : Bytes}
    → 1 ≤ served.epoch
    → judge_epoch served anchors highest_seen age ≡ anchored (v3 e vrf genesis)
    → Pinned served anchors highest_seen e vrf genesis
unfolding judge_epoch
judge_epoch-anchored served none highest_seen age positive h = absurd (ground arith)
judge_epoch-anchored served (some files) highest_seen age {e} {vrf} {genesis} positive h =
    let kept : judge_files served (some files) age ≡ anchored (v3 e vrf genesis) = ground arith in
    let (newest, later, c) = judge_files-anchored served files age kept in
    let (carried, k) = judge_carried-anchored served files age (carries files (served.epoch)) c in
    let (line, end_line, found, ended) =
      carried_key files (served.epoch) (ground (arith, later)) carried in
    let named : judge_key served line (served.vrf_public_key) ≡ anchored (v3 e vrf genesis) =
      ap (judge_line served) (sym found) ∙ k in
    let (same, names_key, pinned_key, pinned_genesis) =
      judge_key-anchored served line (served.vrf_public_key) named in
    record {
      files = files;
      line = line;
      end_line = end_line;
      readable = refl;
      no_rollback = ground arith;
      newest = omega arith;
      names_epoch = same;
      names_key = names_key;
      one_line = one_key_line files (served.epoch) found;
      pinned_key = pinned_key;
      pinned_genesis = pinned_genesis;
      previous_ended = ended;
    }

abbrev is_soft : EpochVerdict → Bool
is_soft (anchored mode) = false
is_soft (not_anchored why) = true
is_soft (violation why) = false

judge_key-is_soft :
    (served : ServedEpoch) (line : EpochKey) (named : Option Bytes)
    → is_soft (judge_key served line named) ≡ false
judge_key-is_soft served line none = refl
judge_key-is_soft served line (some k) = ground arith

judge_carried-is_soft :
    (served : ServedEpoch) (files : Anchors) (age : ℕ) (c : Result CliError Bool)
    → past_bound (some age) ≡ true
    → is_soft (judge_carried served files (some age) c) ≡ false
judge_carried-is_soft served files age (err x) late = refl
judge_carried-is_soft served files age (ok false) late = ground arith
judge_carried-is_soft served files age (ok true) late = go (key files (served.epoch))
  where
    go : (l : Result CliError (Option EpochKey)) → is_soft (judge_line served l) ≡ false
    go (err x) = refl
    go (ok none) = refl
    go (ok (some line)) = judge_key-is_soft served line (served.vrf_public_key)

-- Where the files can be read, a disagreement that has lasted for the bound is no longer reported as
-- one that may pass.
pub judge_epoch-past_bound :
    (served : ServedEpoch) (files : Anchors) (highest_seen age : ℕ) {why : String}
    → transition_bound ≤ age
    → judge_epoch served (some files) highest_seen (some age) ≢ not_anchored why
unfolding judge_epoch
judge_epoch-past_bound served files highest_seen age late h =
    let bound : past_bound (some age) ≡ true = ground arith in
    ground (
      arith,
      ap is_soft h,
      judge_carried-is_soft served files age (carries files (served.epoch)) bound,
    )
