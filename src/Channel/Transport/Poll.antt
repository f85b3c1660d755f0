-- ===== src/Channel/Transport/Poll.antt =====
-- What a poll leaves in the folder: channel/src/transport.rs, `poll_once`.
use signet_drive.Base.{
  ℕ, suc, ◌+◌, ◌≤◌, ◌≡◌, refl, ap, arith, sym, ◌∙◌, Bytes, none, some, List, [],
}
use signet_drive.Base.{
  ◌∷◌, length, true, false, Bool-cases, Option-cases, inl, inr, bytes_eq, bytes_eq→eq,
}
use signet_drive.Base.Results.{Result, ok, err}
use signet_drive.Crypto.{CryptoError, AesGcm}
use signet_drive.Channel.{ChannelError, io}
use signet_drive.Base.{Bool, Option, ◌⊎◌, ◌&&◌, if◌then◌else◌}
use signet_drive.Channel.Wire.{Op, Response, Json}
use signet_drive.Channel.Replay.{contains}
use signet_drive.Channel.Transport.{
  ChannelServer, Files, Folder, Disk, read_frame, lookup, remove_file, stems, answer, counted,
  Polled,
}
use signet_drive.Channel.Transport.{process, poll_loop, poll_once}

lookup-remove_file :
    (j k : Bytes) (files : Files) → lookup j files ≡ none → lookup j (remove_file k files) ≡ none
unfolding lookup remove_file
lookup-remove_file j k [] e = refl
lookup-remove_file j k ((x, v) ∷ files) e = ground (arith, lookup-remove_file j k files)

lookup-removed :
    (j k : Bytes) (files : Files) → bytes_eq k j ≡ true → lookup j (remove_file k files) ≡ none
unfolding lookup remove_file
lookup-removed j k [] e = refl
lookup-removed j k ((x, v) ∷ files) e = elim (Bool-cases (bytes_eq x k)) [
  | inl h ↦ ground (arith, lookup-removed j k files e)
  | inr h ↦
      let same : k ≡ j = bytes_eq→eq k j e in
      ground (arith, lookup-removed j k files e, ap (bytes_eq x) same)
]

-- A request that a poll reads and can remove.
abbrev pub consumed : Disk → Bytes → Bool
consumed disk stem = disk.is_utf8 stem && (disk.reads stem && disk.removes stem)

-- Of the requests that a poll reads and can remove, the folder holds those still to be looked at.
abbrev Left : Disk → List Bytes → Files → Type 0
Left disk todo files =
    (j : Bytes) → consumed disk j ≡ true → contains j todo ≡ false → lookup j files ≡ none

Left-stems : (disk : Disk) (files : Files) → Left disk (stems files) files
unfolding lookup contains
Left-stems disk [] j c e = refl
Left-stems disk ((x, v) ∷ files) j c e = ground (arith, Left-stems disk files j c)

-- What `answer` leaves of the requests.
abbrev kept : Disk → Bytes → Files → Files
kept disk k files = if disk.removes k then remove_file k files else files

Left-kept :
    (disk : Disk) (k : Bytes) (todo : List Bytes) (files : Files)
    → Left disk (k ∷ todo) files
    → Left disk todo (kept disk k files)
unfolding contains
Left-kept disk k todo files all j c e = elim (Bool-cases (bytes_eq k j)) [
  | inl h ↦
      let removed : disk.removes k ≡ true = ap disk.removes (bytes_eq→eq k j h) ∙ ground arith in
      rw removed (lookup-removed j k files h)
  | inr h ↦
      let absent = all j c (ground arith) in
      elim (Bool-cases (disk.removes k)) [
        | inl r ↦ rw r (lookup-remove_file j k files absent)
        | inr r ↦ rw r absent
      ]
]

Left-skip :
    (disk : Disk) (k : Bytes) (todo : List Bytes) (files : Files)
    → read_frame disk k files ≡ none
    → Left disk (k ∷ todo) files
    → Left disk todo files
unfolding contains read_frame
Left-skip disk k todo files absent all j c e = elim (Bool-cases (bytes_eq k j)) [
  | inl h ↦
      let same : k ≡ j = bytes_eq→eq k j h in
      let here : read_frame disk j files ≡ none =
        ap (λ i. read_frame disk i files) (sym same) ∙ absent in
      ground arith
  | inr h ↦ all j c (ground arith)
]

lookup-remove_other :
    (j k : Bytes) (files : Files)
    → bytes_eq k j ≡ false
    → lookup j (remove_file k files) ≡ lookup j files
unfolding lookup remove_file
lookup-remove_other j k [] e = refl
lookup-remove_other j k ((x, v) ∷ files) e = elim (Bool-cases (bytes_eq x k)) [
  | inl h ↦
      let other : bytes_eq x j ≡ false = ap (λ y. bytes_eq y j) (bytes_eq→eq x k h) ∙ e in
      ground (arith, lookup-remove_other j k files e)
  | inr h ↦ ground (arith, lookup-remove_other j k files e)
]

-- A request that is not consumed is there as before, where its neighbour was read.
kept-other :
    (disk : Disk) (j k : Bytes) (files : Files) {frame : Bytes}
    → consumed disk j ≡ false
    → read_frame disk k files ≡ some frame
    → lookup j (kept disk k files) ≡ lookup j files
unfolding read_frame
kept-other disk j k files c found = elim (Bool-cases (disk.removes k)) [
  | inr r ↦ rw r refl
  | inl r ↦ rw r (elim (Bool-cases (bytes_eq k j)) [
    | inr h ↦ lookup-remove_other j k files h
    | inl h ↦
        let same : consumed disk k ≡ false = ap (consumed disk) (bytes_eq→eq k j h) ∙ c in
        absurd (ground arith)
  ])
]

-- What a poll makes of the requests.
abbrev pub Swept : Disk → Files → Files → Type 0
Swept disk before after =
    (j : Bytes) → lookup j after ≡ (if consumed disk j then none else lookup j before)

sweep :
    (disk : Disk) (before after : Files)
    → ((j : Bytes) → consumed disk j ≡ true → lookup j after ≡ none)
    → ((j : Bytes) → consumed disk j ≡ false → lookup j after ≡ lookup j before)
    → Swept disk before after
sweep disk before after gone same j = elim (Bool-cases (consumed disk j)) [
  | inl c ↦ rw c (gone j c)
  | inr c ↦ rw c (same j c)
]

module _ (gcm : AesGcm) (hkdf : Bytes → Bytes → Bytes → ℕ → Result CryptoError Bytes) (json : Json)
    {S : Type 0} (handler : S → Op → S × Response) (disk : Disk) where
  requests-answer :
      (req_id : Bytes) (folder : Folder) (result : Result ChannelError Bytes)
      → ((answer gcm hkdf json handler disk req_id folder result).0.requests
          ≡ kept disk req_id folder.requests)
        × ((answer gcm hkdf json handler disk req_id folder result).1 ≤ 1)
  unfolding answer
  requests-answer req_id folder (ok frame) = (refl, omega arith)
  requests-answer req_id folder (err e) = (refl, omega arith)

  poll_loop_lem :
      (todo : List Bytes) (nonces : ℕ → Bytes) (answered : ℕ) (srv : ChannelServer) (s : S)
      (folder : Folder) {srv' : ChannelServer} {s' : S} {folder' : Folder} {n : ℕ}
      → Left disk todo folder.requests
      → poll_loop gcm hkdf json handler disk todo nonces answered srv s folder
        ≡ some (srv', s', folder', n)
      → Swept disk folder.requests folder'.requests × (n ≤ answered + length todo)
  unfolding poll_loop contains
  poll_loop_lem [] nonces answered srv s folder {folder' = folder'} {n = n} all e =
      let same : folder ≡ folder' = ground arith in
      let count : answered ≡ n = ground arith in
      rw (← same) (
        sweep disk folder.requests folder.requests (λ j c. all j c refl) (λ j c. refl),
        omega arith,
      )
  poll_loop_lem (req_id ∷ todo) nonces answered srv s folder {srv'} {s'} {folder'} {n} all e =
      elim (Option-cases (read_frame disk req_id folder.requests)) [
        | inl h ↦
            let skipped : poll_loop gcm hkdf json handler disk todo nonces answered srv s folder
                ≡ some (srv', s', folder', n) =
              ground arith in
            let (swept, few) =
              poll_loop_lem todo nonces answered srv s folder
                (Left-skip disk req_id todo folder.requests h all) skipped in
            (swept, omega (arith, few))
        | inr (frame, h) ↦
            elim (Option-cases (process gcm hkdf json handler (nonces 0) srv s req_id frame)) [
              | inl panics ↦ absurd (ground arith)
              | inr ((mid, s₁, result), hp) ↦
                  let next = answer gcm hkdf json handler disk req_id folder result in
                  let (moved, one) = requests-answer req_id folder result in
                  let more : poll_loop gcm hkdf json handler disk todo (λ i. nonces (suc i))
                        (answered + next.1) mid s₁ next.0
                      ≡ some (srv', s', folder', n) =
                    ground (arith, h, hp) in
                  let left : Left disk todo next.0.requests =
                    rw moved (Left-kept disk req_id todo folder.requests all) in
                  let (swept, few) =
                    poll_loop_lem todo (λ i. nonces (suc i)) (answered + next.1) mid s₁ next.0 left
                      more in
                  (
                    sweep disk folder.requests _
                        (λ j c. swept j ∙ ap (λ b. if b then none else lookup j next.0.requests) c)
                        (λ j c.
                          swept j
                          ∙ ap (λ b. if b then none else lookup j next.0.requests) c
                          ∙ ap (lookup j) moved
                          ∙ kept-other disk j req_id folder.requests c h),
                    omega (arith, few, one),
                  )
            ]
      ]

  counted-ok :
      (o : Option (ChannelServer × S × Folder × ℕ)) {polled : Polled gcm hkdf json handler}
      → counted gcm hkdf json handler o ≡ some polled
      → (n : ℕ) × (o ≡ some (polled.0, polled.1, polled.2, n)) × (polled.3 ≡ ok n)
  unfolding counted
  counted-ok none e = absurd (ground arith)
  counted-ok (some (srv, s, folder, n)) e = (n, ground arith, ground arith)

  -- A poll that does not panic removes each request whose stem is UTF-8 and that can be read and
  -- removed, whatever it held, and leaves every other request as it was; it answers at most as many as
  -- there were. Where the directory cannot be listed, it fails and leaves the folder as it was.
  pub poll_once_sweeps :
      (nonces : ℕ → Bytes) (srv : ChannelServer) (s : S) (folder : Folder)
      {polled : Polled gcm hkdf json handler}
      → poll_once gcm hkdf json handler disk nonces srv s folder ≡ some polled
      → ((disk.lists ≡ true)
          × Swept disk folder.requests (polled.2.requests)
          × (n : ℕ) × (polled.3 ≡ ok n)
          × (n ≤ length (stems folder.requests)))
        ⊎ ((disk.lists ≡ false) × (polled.3 ≡ err io) × (polled.2 ≡ folder))
  unfolding poll_once
  poll_once_sweeps nonces srv s folder {polled} e = elim (Bool-cases disk.lists) [
    | inl listed ↦
        let run =
          poll_loop gcm hkdf json handler disk (stems folder.requests) nonces 0 srv s folder in
        let whole : counted gcm hkdf json handler run ≡ some polled = ground arith in
        let (n, looped, result) = counted-ok run whole in
        let ended : Swept disk folder.requests (polled.2.requests)
            × (n ≤ 0 + length (stems folder.requests)) =
          poll_loop_lem (stems folder.requests) nonces 0 srv s folder
            (Left-stems disk folder.requests) looped in
        inl (listed, ended.0, n, result, omega (arith, ended.1))
    | inr unlisted ↦
        let same : ◌≡◌ {A = Polled gcm hkdf json handler} (srv, s, folder, err io) polled =
          ground arith in
        inr (unlisted, ap (λ p. p.3) (sym same), ap (λ p. p.2) (sym same))
  ]
