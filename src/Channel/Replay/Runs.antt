-- ===== src/Channel/Replay/Runs.antt =====
-- Runs of the replay guard, and its theorems at concrete guards.
use signet_drive.Base.{◌≡◌, refl, arith, Bytes, [], ◌∷◌, length, ◌<◌}
use signet_drive.Base.{bytes_eq}
use signet_drive.Base.Results.{ok, err}
use signet_drive.Channel.{replay}
use signet_drive.Channel.Replay.{ReplayGuard, new, contains, remove, check_and_record}
use signet_drive.Channel.Replay.Window.{IsValid, new-IsValid, check_and_record-IsValid, present}
use signet_drive.Channel.Replay.Refines.{answers, window_answers, answers-window_answers}
use signet_drive.Channel.Replay.Refusal.{replay_refused}

-- A guard of capacity 2 that has accepted two nonces.
abbrev full : ReplayGuard
full = present (new 2) ((1 ∷ []) ∷ (2 ∷ []) ∷ [])

-- A third nonce evicts the first, which is accepted again after that.
evicted : (check_and_record (present full ((3 ∷ []) ∷ [])) (1 ∷ [])).1 ≡ ok tt
unfolding check_and_record new contains remove bytes_eq
evicted = refl

window_slides : (check_and_record full (3 ∷ [])).0.order ≡ (2 ∷ []) ∷ (3 ∷ []) ∷ []
unfolding check_and_record new contains remove bytes_eq
window_slides = refl

full-IsValid : IsValid full
full-IsValid =
    check_and_record-IsValid _ (2 ∷ []) (check_and_record-IsValid (new 2) (1 ∷ []) (new-IsValid 2))

-- The first nonce is refused at once, and accepted when two others have come.
answers-window_answers_example :
    answers (new 2) ((1 ∷ []) ∷ (1 ∷ []) ∷ (2 ∷ []) ∷ (3 ∷ []) ∷ (1 ∷ []) ∷ [])
    ≡ window_answers 2 [] ((1 ∷ []) ∷ (1 ∷ []) ∷ (2 ∷ []) ∷ (3 ∷ []) ∷ (1 ∷ []) ∷ [])
answers-window_answers_example =
    answers-window_answers 2 ((1 ∷ []) ∷ (1 ∷ []) ∷ (2 ∷ []) ∷ (3 ∷ []) ∷ (1 ∷ []) ∷ [])

accepts_three : (check_and_record full (3 ∷ [])).1 ≡ ok tt
unfolding check_and_record new contains remove bytes_eq
accepts_three = refl

room_for_one : length {A = Bytes} ((4 ∷ []) ∷ []) < full.capacity
unfolding check_and_record new contains remove bytes_eq
room_for_one = omega arith

replay_refused_example :
    (check_and_record (present (check_and_record full (3 ∷ [])).0 ((4 ∷ []) ∷ [])) (3 ∷ [])).1
    ≡ err replay
replay_refused_example =
    replay_refused full (3 ∷ []) ((4 ∷ []) ∷ []) full-IsValid accepts_three room_for_one
