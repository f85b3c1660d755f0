-- ===== src/Channel/Replay/Window.antt =====
-- The replay guard keeps a window: the last nonces that it accepted, as many as its capacity.
use signet_drive.Base.{ℕ, ◌+◌, ◌-◌, ◌≤◌, ◌<◌, ◌≡◌, refl, ap, ap₂, arith, sym, ◌∙◌, inl, inr, ◌||◌}
use signet_drive.Base.{
  true, false, Bool-cases, Bytes, List, [], ◌∷◌, ◌++◌, length, drop, leb, leb→le,
}
use signet_drive.Base.{length-append, bytes_eq, bytes_eq→eq, bytes_eq_comm}
use signet_drive.Base.{if◌then◌else◌, ◌⊎◌, drop-append_within}
use signet_drive.Base.Results.{ok, err}
use signet_drive.Channel.{replay}
use signet_drive.Channel.Replay.{
  ReplayGuard, new, contains, remove, evict, make_room, check_and_record,
}

-- No nonce twice.
abbrev pub Distinct : List Bytes → Type 0
Distinct [] = Unit
Distinct (x ∷ xs) = (contains x xs ≡ false) × Distinct xs

-- The set holds the nonces of the queue, once each, and no more than the capacity.
pub record IsValid (g : ReplayGuard) : Type 0 where
  pub same : (n : Bytes) → contains n g.seen ≡ contains n g.order
  pub distinct : Distinct g.order
  pub bounded : length g.order ≤ g.capacity
  pub positive : 1 ≤ g.capacity

contains-remove :
    (j k : Bytes) (set : List Bytes)
    → contains j (remove k set) ≡ (if bytes_eq k j then false else contains j set)
unfolding contains remove
contains-remove j k [] = ground arith
contains-remove j k (x ∷ set) = elim (Bool-cases (bytes_eq x k)) [
  | inl e ↦
      let at_k : x ≡ k = bytes_eq→eq x k e in rw (e, at_k) (ground (arith, contains-remove j k set))
  | inr e ↦ elim (Bool-cases (bytes_eq k j)) [
    | inl f ↦
        let at_j : k ≡ j = bytes_eq→eq k j f in
        ground (arith, contains-remove j k set, ap (bytes_eq x) at_j)
    | inr f ↦ ground (arith, contains-remove j k set)
  ]
]

contains-append :
    (j n : Bytes) (xs : List Bytes) → contains j (xs ++ (n ∷ [])) ≡ (contains j xs || bytes_eq n j)
unfolding contains
contains-append j n [] = ground arith
contains-append j n (x ∷ xs) = ground (arith, contains-append j n xs)

Distinct-append :
    (n : Bytes) (xs : List Bytes) → Distinct xs → contains n xs ≡ false → Distinct (xs ++ (n ∷ []))
unfolding contains
Distinct-append n [] d fresh = (refl, tt)
Distinct-append n (x ∷ xs) (here, d) fresh = (
  contains-append x n xs ∙ ground (arith, bytes_eq_comm x n),
  Distinct-append n xs d (ground arith),
)

-- A queue that is full gives up its head.
abbrev pub trimmed : ReplayGuard → List Bytes
trimmed g = drop (length g.order + 1 - g.capacity) g.order

room_seen :
    (g : ReplayGuard) (order : List Bytes)
    → g.order ≡ order
    → IsValid g
    → (n : Bytes) → contains n (evict g order).seen ≡ contains n (evict g order).order
unfolding evict
room_seen g [] e v n = v.same n
room_seen g (x ∷ rest) e v n =
    let here : contains x rest ≡ false = (rw e at (v.distinct)).0 in
    let held : contains n g.seen ≡ (bytes_eq x n || contains n rest) =
      v.same n ∙ ap (contains n) e ∙ unfold contains in refl in
    contains-remove n x g.seen ∙ elim (Bool-cases (bytes_eq x n)) [
      | inl same ↦ let at_n : x ≡ n = bytes_eq→eq x n same in rw same (sym (rw at_n at here))
      | inr other ↦ ground (arith, held)
    ]

-- What `check_and_record` has made of the guard before it adds a nonce.
record HasRoom (g room : ReplayGuard) : Type 0 where
  room_same : (n : Bytes) → contains n room.seen ≡ contains n room.order
  room_order : room.order ≡ trimmed g
  room_distinct : Distinct room.order
  room_size : length room.order < room.capacity
  room_capacity : room.capacity ≡ g.capacity
  room_keeps : (n : Bytes) → contains n g.order ≡ false → contains n room.order ≡ false

evict-HasRoom :
    (g : ReplayGuard) (order : List Bytes)
    → g.order ≡ order
    → IsValid g
    → length order ≡ g.capacity
    → HasRoom g (evict g order)
unfolding evict contains
evict-HasRoom g [] e v full = absurd (omega (arith, v.positive))
evict-HasRoom g (x ∷ rest) e v full =
    let d : Distinct (x ∷ rest) = rw e at (v.distinct) in
    let one : length g.order + 1 - g.capacity ≡ 1 = omega (arith, ap length e) in
    record {
      room_same = room_seen g (x ∷ rest) e v;
      room_order = sym (ap₂ drop one e);
      room_distinct = d.1;
      room_size = omega arith;
      room_capacity = refl;
      room_keeps = λ n fresh. ground (arith, ap (contains n) e, fresh);
    }

make_room-HasRoom : (g : ReplayGuard) → IsValid g → HasRoom g (make_room g)
unfolding make_room
make_room-HasRoom g v = elim (Bool-cases (leb g.capacity (length g.order))) [
  | inl full ↦ rw full (evict-HasRoom g g.order refl v (omega (arith, leb→le _ _ full, v.bounded)))
  | inr free ↦
      let zero_over : length g.order + 1 - g.capacity ≡ 0 = ground arith in
      rw free (record {
        room_same = v.same;
        room_order = sym (ap (λ k. drop k g.order) zero_over);
        room_distinct = v.distinct;
        room_size = ground arith;
        room_capacity = refl;
        room_keeps = λ n fresh. fresh;
      })
]

-- A new guard is well formed: its set holds the nonces of its queue, without repetition, and no more
-- than its capacity, which is at least 1.
pub new-IsValid : (capacity : ℕ) → IsValid (new capacity)
unfolding new contains
new-IsValid capacity = record {
  same = λ n. refl;
  distinct = tt;
  bounded = omega arith;
  positive = omega arith;
}

pub refused :
    (g : ReplayGuard) (n : Bytes)
    → IsValid g
    → contains n g.order ≡ true
    → check_and_record g n ≡ (g, err replay)
unfolding check_and_record
refused g n v held = ground (arith, v.same n)

pub accepted_order :
    (g : ReplayGuard) (n : Bytes)
    → IsValid g
    → contains n g.order ≡ false
    → ((check_and_record g n).0.order ≡ trimmed g ++ (n ∷ []))
      × ((check_and_record g n).1 ≡ ok tt)
      × ((check_and_record g n).0.capacity ≡ g.capacity)
unfolding check_and_record
accepted_order g n v fresh =
    let unseen : contains n g.seen ≡ false = v.same n ∙ fresh in
    let r : HasRoom g (make_room g) = make_room-HasRoom g v in
    rw unseen (ap (λ l. l ++ (n ∷ [])) r.room_order, refl, r.room_capacity)

accepted-IsValid :
    (g : ReplayGuard) (n : Bytes)
    → IsValid g
    → contains n g.order ≡ false
    → IsValid (check_and_record g n).0
unfolding check_and_record
accepted-IsValid g n v fresh =
    let unseen : contains n g.seen ≡ false = v.same n ∙ fresh in
    let r : HasRoom g (make_room g) = make_room-HasRoom g v in
    rw unseen (record {
      same = λ j.
          unfold contains in ground (arith, contains-append j n (make_room g).order, r.room_same j);
      distinct = Distinct-append n (make_room g).order r.room_distinct (r.room_keeps n fresh);
      bounded = omega (arith, length-append (make_room g).order (n ∷ []), r.room_size);
      positive = omega (arith, r.room_capacity, v.positive);
    })

-- `check_and_record` keeps a guard well formed, whether it accepts or refuses.
pub check_and_record-IsValid :
    (g : ReplayGuard) (n : Bytes) → IsValid g → IsValid (check_and_record g n).0
check_and_record-IsValid g n v = elim (Bool-cases (contains n g.order)) [
  | inl held ↦ rw (refused g n v held) v
  | inr fresh ↦ accepted-IsValid g n v fresh
]

-- On a well-formed guard `check_and_record` refuses a nonce exactly if it is in the queue, and then
-- leaves the guard as it was. Otherwise it accepts it: the queue becomes the last `capacity` of what
-- was queued and the nonce.
pub check_and_record_window :
    (g : ReplayGuard) (n : Bytes)
    → IsValid g
    → ((contains n g.order ≡ true) × (check_and_record g n ≡ (g, err replay)))
      ⊎ ((contains n g.order ≡ false)
          × ((check_and_record g n).1 ≡ ok tt)
          × ((check_and_record g n).0.order
              ≡ drop (length (g.order ++ (n ∷ [])) - g.capacity) (g.order ++ (n ∷ [])))
          × ((check_and_record g n).0.capacity ≡ g.capacity))
check_and_record_window g n v = elim (Bool-cases (contains n g.order)) [
  | inl held ↦ inl (held, refused g n v held)
  | inr fresh ↦
      let (order, result, capacity) = accepted_order g n v fresh in
      let count : length (g.order ++ (n ∷ [])) - g.capacity ≡ length g.order + 1 - g.capacity =
        omega (arith, length-append g.order (n ∷ [])) in
      inr (
        fresh,
        result,
        order
            ∙ sym (
                ap (λ k. drop k (g.order ++ (n ∷ []))) count
                ∙ drop-append_within _ g.order (n ∷ []) (omega (arith, v.bounded, v.positive))),
        capacity,
      )
]

-- The nonces are presented one after the other, and the answers are not looked at.
abbrev pub present : ReplayGuard → List Bytes → ReplayGuard
present g [] = g
present g (n ∷ rest) = present (check_and_record g n).0 rest
