-- ===== src/Cli/Anchors/Ratchet.antt =====
-- The state that the client keeps of an origin, over any run of readings: an epoch that was anchored
-- is not gone back on, and a disagreement is not put off.
use signet_drive.Base.{ℕ, ◌+◌, ◌-◌, ◌*◌, ◌≡◌, ◌≢◌, ◌≤◌, ◌<◌, refl, arith, ◌∙◌, ◌⊎◌, inl, inr}
use signet_drive.Base.{List, [], ◌∷◌, Option, none, some, Bool-cases}
use signet_drive.Base.{ltb, ◌==◌}
use Prim.Native.String.{String}
use signet_drive.Cli.Anchors.{Anchors, LogMode, EpochVerdict, anchored, not_anchored, violation}
use signet_drive.Cli.Anchors.{
  ServedEpoch, judge_epoch, judge, OriginState, lookup, or_insert, filter,
}
use signet_drive.Cli.Anchors.{epoch_of_mode, update_state, sighting_age}
use signet_drive.Cli.Anchors.Judged.{judge_epoch-past_bound}

-- What one anchoring does to the state: it records the verdict on what the server served, or the
-- violation that the epoch's genesis entry showed.
pub data Step : OriginState → OriginState → Type 0 where
  judged :
      (state : OriginState) (served : ServedEpoch) (anchors : Option Anchors) (now : ℕ)
      → Step state (update_state state (served.epoch) (judge state served anchors now) now)
  genesis_refused :
      (state : OriginState) (served : ServedEpoch) (why : String) (now : ℕ)
      → Step state (update_state state (served.epoch) (violation why) now)

pub data Run : OriginState → OriginState → Type 0 where
  done : (state : OriginState) → Run state state
  next : {a b c : OriginState} → Step a b → Run b c → Run a c

update_state_highest :
    (state : OriginState) (e : ℕ) (v : EpochVerdict) (now : ℕ)
    → state.highest_epoch ≤ (update_state state e v now).highest_epoch
unfolding update_state
update_state_highest state e (anchored mode) now = omega arith
update_state_highest state e (not_anchored why) now = omega arith
update_state_highest state e (violation why) now = omega arith

Step-highest : (a b : OriginState) → Step a b → a.highest_epoch ≤ b.highest_epoch
Step-highest _ _ (judged a served anchors now) = update_state_highest a _ _ now
Step-highest _ _ (genesis_refused a served why now) = update_state_highest a _ _ now

-- The highest epoch anchored does not go down.
Run-highest : (a b : OriginState) → Run a b → a.highest_epoch ≤ b.highest_epoch
Run-highest _ _ (done a) = omega arith
Run-highest a c (next {b = b} s r) = omega (arith, Step-highest a b s, Run-highest b c r)

-- Once an epoch has been anchored, a server that serves an earlier one is in violation, whatever was
-- served and read in between and whatever the files say.
pub rollback_refused :
    (state later : OriginState) (e : ℕ) (mode : LogMode) (now now' : ℕ) (served : ServedEpoch)
    (files : Option Anchors)
    → Run (update_state state e (anchored mode) now) later
    → served.epoch < epoch_of_mode mode
    → (why : String) × (judge later served files now' ≡ violation why)
unfolding judge judge_epoch update_state
rollback_refused state later e mode now now' served files run below =
    let kept = Run-highest (update_state state e (anchored mode) now) later run in
    let back : served.epoch < later.highest_epoch = omega (arith, kept) in
    ("the server serves epoch {} but this CLI has already anchored epoch {} for it", ground arith)

lookup-filter :
    (k m : ℕ) (sightings : List (ℕ × ℕ))
    → m < k
    → lookup k (filter (λ s. ltb m (s.0)) sightings) ≡ lookup k sightings
lookup-filter k m [] above = refl
lookup-filter k m ((k', v) ∷ rest) above = elim (Bool-cases (k' == k)) [
  | inl same ↦ ground (arith, lookup-filter k m rest above)
  | inr other ↦ elim (Bool-cases (ltb m k')) [
    | inl keep ↦ ground (arith, lookup-filter k m rest above)
    | inr gone ↦ ground (arith, lookup-filter k m rest above)
  ]
]

lookup-or_insert :
    (k e v t : ℕ) (sightings : List (ℕ × ℕ))
    → lookup k sightings ≡ some t
    → lookup k (or_insert e v sightings) ≡ some t
lookup-or_insert k e v t sightings found = go (lookup e sightings) refl
  where
    go : (o : Option ℕ) → lookup e sightings ≡ o → lookup k (or_insert e v sightings) ≡ some t
    go (some old) q = ground arith
    go none q = elim (Bool-cases (e == k)) [
      | inl same ↦ absurd (ground arith)
      | inr other ↦ ground arith
    ]

-- Until its epoch or a later one is anchored, a first sighting stays as it is.
update_state_keeps :
    (state : OriginState) (e : ℕ) (v : EpochVerdict) (now k t : ℕ)
    → lookup k (state.first_unanchored) ≡ some t
    → (k ≤ (update_state state e v now).highest_epoch)
      ⊎ (lookup k ((update_state state e v now).first_unanchored) ≡ some t)
unfolding update_state
update_state_keeps state e (anchored mode) now k t found =
    elim (Bool-cases (ltb (epoch_of_mode mode) k)) [
      | inl above ↦
          inr (lookup-filter k (epoch_of_mode mode) (state.first_unanchored) (ground arith) ∙ found)
      | inr reached ↦ inl (ground arith)
    ]
update_state_keeps state e (not_anchored why) now k t found =
    inr (lookup-or_insert k e now t (state.first_unanchored) found)
update_state_keeps state e (violation why) now k t found = inr found

Step-keeps :
    (a b : OriginState) (k t : ℕ)
    → Step a b
    → lookup k (a.first_unanchored) ≡ some t
    → (k ≤ b.highest_epoch) ⊎ (lookup k (b.first_unanchored) ≡ some t)
Step-keeps _ _ k t (judged a served anchors now) found = update_state_keeps a _ _ now k t found
Step-keeps _ _ k t (genesis_refused a served why now) found = update_state_keeps a _ _ now k t found

Run-keeps :
    (a b : OriginState) (k t : ℕ)
    → Run a b
    → lookup k (a.first_unanchored) ≡ some t
    → (k ≤ b.highest_epoch) ⊎ (lookup k (b.first_unanchored) ≡ some t)
Run-keeps _ _ k t (done a) found = inr found
Run-keeps a c k t (next {b = b} s r) found = elim (Step-keeps a b k t s found) [
  | inl reached ↦ inl (omega (arith, Run-highest b c r))
  | inr kept ↦ Run-keeps b c k t r kept
]

-- A disagreement over an epoch that was first seen at a time is, 15 minutes or more after it and with
-- files that can be read, no longer reported as one that may pass: after any run of readings the
-- epoch has been reached by the ratchet, or the verdict is not `Unanchored`.
pub disagreement_ends :
    (state later : OriginState) (served : ServedEpoch) (files : Anchors) (t now : ℕ) {why : String}
    → Run state later
    → lookup (served.epoch) (state.first_unanchored) ≡ some t
    → t + 900 ≤ now
    → (served.epoch ≤ later.highest_epoch)
      ⊎ (judge later served (some files) now ≢ not_anchored why)
unfolding judge
disagreement_ends state later served files t now {why} run found late =
    elim (Run-keeps state later (served.epoch) t run found) [
      | inl reached ↦ inl reached
      | inr kept ↦
          let age : sighting_age later (served.epoch) now ≡ some ((now - t) * 1000000000) =
            ground arith in
          inr (
            rw age (
              judge_epoch-past_bound served files (later.highest_epoch) ((now - t) * 1000000000)
                (omega arith)))
    ]
