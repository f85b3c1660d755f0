-- ===== src/Signer/Pin.antt =====
-- The handle that a channel is pinned to: cli/src/host_signer.rs, `ChannelState::handle`.
use signet_drive.Base.{Bool, ◌≡◌, refl, ap, arith, sym, ◌∙◌, Bytes, none}
use signet_drive.Base.{some, List, [], ◌∷◌, Bool-cases, inl, inr, Option-cases}
use signet_drive.Base.Results.{ok}
use signet_drive.Base.Results.{Result-cases}
use signet_drive.Channel.Wire.{Op, OpOk, Response, success, failure}
use signet_drive.Keystore.{Message, KeyLabel, Keystore, parse}
use signet_drive.Signer.{handle_op}
use signet_drive.Signer.{ChannelState, is_identity, keygen_label, pin, enroll, before_pin, by_pin}
use signet_drive.Signer.{channel_handle}
use signet_drive.Signer.Scope.{Keeps, handle_op_scoped}

module _ {K : Type 0} (ks : Keystore K) (render : Message → Bytes) where
  -- Operations one after the other, each with the outcome of the write of the pin file.
  abbrev pub channel_run : K → ChannelState → List (Bool × Op) → ChannelState × K
  channel_run k st [] = (st, k)
  channel_run k st ((persists, op) ∷ rest) =
      let (st', k', r) = channel_handle ks render persists k st op in channel_run k' st' rest

  channel_handle-pinned :
      (persists : Bool) (k : K) (st : ChannelState) (op : Op) (h : Bytes) (P : K → Type 0)
      → st.pinned_handle ≡ some h
      → Keeps ks h P
      → P k
      → ((channel_handle ks render persists k st op).0 ≡ st)
        × P (channel_handle ks render persists k st op).1
  unfolding channel_handle by_pin
  channel_handle-pinned persists k st op h P pinned keeps p = elim (Bool-cases (is_identity op)) [
    | inl asks ↦ rw asks (refl, p)
    | inr other ↦ rw other (rw pinned (refl, handle_op_scoped ks render h P k op keeps p))
  ]

  -- Once a channel is pinned to a handle it stays pinned to it, and no operation that comes over it
  -- changes the backend but through labels of that handle.
  pub pinned_stays :
      (k : K) (st : ChannelState) (ops : List (Bool × Op)) (h : Bytes) (P : K → Type 0)
      → st.pinned_handle ≡ some h
      → Keeps ks h P
      → P k
      → ((channel_run k st ops).0 ≡ st) × P (channel_run k st ops).1
  pinned_stays k st [] h P pinned keeps p = (refl, p)
  pinned_stays k st ((persists, op) ∷ rest) h P pinned keeps p =
      let (same, q) = channel_handle-pinned persists k st op h P pinned keeps p in
      let next = channel_handle ks render persists k st op in
      let (stays, r) =
        pinned_stays next.1 next.0 rest h P (ap (λ x. x.pinned_handle) same ∙ pinned) keeps q in
      (stays ∙ same, r)

  pin-pins :
      (persists : Bool) (st : ChannelState) (handle h : Bytes) (served : K × Response)
      → st.pinned_handle ≡ none
      → (pin ks render persists st handle served).0.pinned_handle ≡ some h
      → (handle ≡ h) × (r : OpOk) × ((pin ks render persists st handle served).2 ≡ success r)
  unfolding pin
  pin-pins persists st handle h (k, success r) unpinned e = (ground arith, r, refl)
  pin-pins persists st handle h (k, failure x) unpinned e = absurd (ground arith)

  -- A channel that is not pinned becomes so only by a successful creation of a key, to the handle of
  -- that key's label.
  pub pins_by_keygen :
      (persists : Bool) (k : K) (st : ChannelState) (op : Op) (h : Bytes)
      → st.pinned_handle ≡ none
      → (channel_handle ks render persists k st op).0.pinned_handle ≡ some h
      → (label : Bytes) × (l : KeyLabel) × (r : OpOk) × (keygen_label op ≡ some label)
        × (parse label none ≡ ok l)
        × (l.handle ≡ h)
        × ((channel_handle ks render persists k st op).2 ≡ success r)
  unfolding channel_handle by_pin before_pin enroll pin
  pins_by_keygen persists k st op h unpinned pins = elim (Bool-cases (is_identity op)) [
    | inl asks ↦ absurd (ground arith)
    | inr differs ↦ elim (Option-cases (keygen_label op)) [
      | inl other ↦ absurd (ground arith)
      | inr (label, named) ↦ elim (Result-cases (parse label none)) [
        | inr (e, bad) ↦ absurd (ground arith)
        | inl (l, found) ↦
            let here : channel_handle ks render persists k st op
                ≡ pin ks render persists st l.handle (handle_op ks render k l.handle op) =
              ground (arith, unpinned, differs, named, found) in
            let (same, r, answer) =
              pin-pins persists st l.handle h (handle_op ks render k l.handle op) unpinned
                (ap (λ x. x.0.pinned_handle) (sym here) ∙ pins) in
            (label, l, r, named, found, same, ap (λ x. x.2) here ∙ answer)
      ]
    ]
  ]
