-- ===== src/Channel/Replay/Refines.antt =====
-- The replay guard of channel/src/auth.rs, with its set and queue, implements a window: the last
-- nonces that were accepted.
use signet_drive.Base.{ℕ, max, ◌-◌, ◌≡◌, refl, ap, ◌∙◌, inl, inr}
use signet_drive.Base.{Bytes, List, [], ◌∷◌, ◌++◌, length, drop, if◌then◌else◌}
use signet_drive.Base.Results.{Result, ok, err}
use signet_drive.Channel.{ChannelError, replay}
use signet_drive.Channel.Replay.{ReplayGuard, new, contains, check_and_record}
use signet_drive.Channel.Replay.Window.{IsValid, new-IsValid, check_and_record-IsValid}
use signet_drive.Channel.Replay.Window.{check_and_record_window}

-- The answers of the guard to nonces that are presented one after the other.
abbrev pub answers : ReplayGuard → List Bytes → List (Result ChannelError (Unit {0}))
answers g [] = []
answers g (n ∷ ns) = (check_and_record g n).1 ∷ answers (check_and_record g n).0 ns

-- The last `capacity` elements.
abbrev pub last : ℕ → List Bytes → List Bytes
last capacity accepted = drop (length accepted - capacity) accepted

-- The answers of a window: a nonce in it is refused, another one moves it on.
abbrev pub window_answers : ℕ → List Bytes → List Bytes → List (Result ChannelError (Unit {0}))
window_answers capacity window [] = []
window_answers capacity window (n ∷ ns) =
    let refused = window_answers capacity window ns in
    let moved = window_answers capacity (last capacity (window ++ (n ∷ []))) ns in
    if contains n window then err replay ∷ refused else ok tt ∷ moved

answers-window :
    (g : ReplayGuard) (ns : List Bytes)
    → IsValid g
    → answers g ns ≡ window_answers g.capacity g.order ns
answers-window g [] v = refl
answers-window g (n ∷ ns) v =
    let rest = answers-window (check_and_record g n).0 ns (check_and_record-IsValid g n v) in
    elim (check_and_record_window g n v) [
      | inl (held, refused) ↦ rw (refused, held) (ap (λ l. err replay ∷ l) (answers-window g ns v))
      | inr (fresh, accepted, moved, capacity) ↦ rw fresh (
          ap (λ r. r ∷ answers (check_and_record g n).0 ns) accepted
          ∙ ap (λ l. ok tt ∷ l)
              (rest
                ∙ ap (λ c. window_answers c (check_and_record g n).0.order ns) capacity
                ∙ ap (λ w. window_answers g.capacity w ns) moved))
    ]

-- Whatever nonces are presented to a new guard, its answers are those of a window of its capacity,
-- at least 1, that is empty at first.
pub answers-window_answers :
    (capacity : ℕ) (ns : List Bytes)
    → answers (new capacity) ns ≡ window_answers (max capacity 1) [] ns
unfolding new
answers-window_answers capacity ns = answers-window (new capacity) ns (new-IsValid capacity)
