-- ===== src/Channel/Replay/Refusal.antt =====
-- A nonce that the replay guard accepted is refused for as long as it is in the window.
use signet_drive.Base.{ℕ, ◌+◌, ◌-◌, ◌≤◌, ◌<◌, ◌≡◌, refl, ap, arith, ◌∙◌, inl, inr}
use signet_drive.Base.{true, Bool-cases, Bytes, List, [], ◌∷◌, ◌++◌, length, drop, append_assoc}
use signet_drive.Base.{length-append, drop-append_within, bytes_eq_refl}
use signet_drive.Base.Results.{ok, err}
use signet_drive.Channel.{replay}
use signet_drive.Channel.Replay.{ReplayGuard, contains, check_and_record}
use signet_drive.Channel.Replay.Window.{IsValid, trimmed, refused, accepted_order, present}
use signet_drive.Channel.Replay.Window.{check_and_record-IsValid}

-- The nonce is queued, with at most `k` behind it.
record Queued (n : Bytes) (k : ℕ) (g : ReplayGuard) : Type 0 where
  front : List Bytes
  back : List Bytes
  queue : g.order ≡ front ++ (n ∷ back)
  behind : length back ≤ k

contains-middle : (n : Bytes) (front back : List Bytes) → contains n (front ++ (n ∷ back)) ≡ true
unfolding contains
contains-middle n [] back = ground (arith, bytes_eq_refl n)
contains-middle n (x ∷ front) back = ground (arith, contains-middle n front back)

check_and_record-Queued :
    (g : ReplayGuard) (n x : Bytes) (k : ℕ)
    → IsValid g
    → Queued n k g
    → k + 2 ≤ g.capacity
    → Queued n (k + 1) (check_and_record g x).0 × ((check_and_record g x).0.capacity ≡ g.capacity)
check_and_record-Queued g n x k v q room = elim (Bool-cases (contains x g.order)) [
  | inl held ↦ rw (refused g x v held) (
    record { front = q.front; back = q.back; queue = q.queue; behind = omega (arith, q.behind) },
    refl,
  )
  | inr fresh ↦
      let (order, _, capacity) = accepted_order g x v fresh in
      let d : ℕ = length g.order + 1 - g.capacity in
      let size = length-append q.front (n ∷ q.back) in
      let within : d ≤ length q.front = omega (arith, ap length q.queue, size, q.behind) in
      (
        record {
          front = drop d q.front;
          back = q.back ++ (x ∷ []);
          queue =
              order
              ∙ ap (λ l. l ++ (x ∷ []))
                  (ap (drop d) q.queue ∙ drop-append_within d q.front (n ∷ q.back) within)
              ∙ append_assoc (drop d q.front) (n ∷ q.back) (x ∷ []);
          behind = omega (arith, length-append q.back (x ∷ []), q.behind);
        },
        capacity,
      )
]

present-Queued :
    (g : ReplayGuard) (n : Bytes) (ns : List Bytes) (k : ℕ)
    → IsValid g
    → Queued n k g
    → k + length ns + 1 ≤ g.capacity
    → contains n (present g ns).order ≡ true
present-Queued g n [] k v q room = ap (contains n) q.queue ∙ contains-middle n q.front q.back
present-Queued g n (x ∷ ns) k v q room =
    let (next, capacity) = check_and_record-Queued g n x k v q (omega arith) in
    present-Queued (check_and_record g x).0 n ns (k + 1) (check_and_record-IsValid g x v) next
      (omega (arith, capacity))

present-IsValid : (g : ReplayGuard) (ns : List Bytes) → IsValid g → IsValid (present g ns)
present-IsValid g [] v = v
present-IsValid g (n ∷ rest) v =
    present-IsValid (check_and_record g n).0 rest (check_and_record-IsValid g n v)

-- Once a well-formed guard has accepted a nonce, it refuses it again after any list of other calls
-- that is shorter than its capacity, whatever their nonces and answers.
pub replay_refused :
    (g : ReplayGuard) (n : Bytes) (ns : List Bytes)
    → IsValid g
    → (check_and_record g n).1 ≡ ok tt
    → length ns < g.capacity
    → (check_and_record (present (check_and_record g n).0 ns) n).1 ≡ err replay
replay_refused g n ns v accepted few = elim (Bool-cases (contains n g.order)) [
  | inl held ↦ absurd (ground (arith, ap (λ r. r.1) (refused g n v held), accepted))
  | inr fresh ↦
      let (order, _, capacity) = accepted_order g n v fresh in
      let start : Queued n 0 (check_and_record g n).0 = record {
        front = trimmed g;
        back = [];
        queue = order;
        behind = omega arith;
      } in
      let after : IsValid (check_and_record g n).0 = check_and_record-IsValid g n v in
      let held =
        present-Queued (check_and_record g n).0 n ns 0 after start (omega (arith, capacity)) in
      ap (λ r. r.1)
        (refused (present (check_and_record g n).0 ns) n
          (present-IsValid (check_and_record g n).0 ns after) held)
]
