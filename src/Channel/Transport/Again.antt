-- ===== src/Channel/Transport/Again.antt =====
-- A request that comes again: channel/src/transport.rs, `ChannelServer::process` over a run of frames.
use signet_drive.Base.{ℕ, ◌≤◌, ◌<◌, ◌≡◌, refl, ap, arith, sym, ◌∙◌, Bytes, Option, none, some}
use signet_drive.Base.{List, [], ◌∷◌, ◌++◌, length, length-append, inl, inr, Option-cases}
use signet_drive.Base.Results.{Result, ok, err}
use signet_drive.Crypto.{CryptoError, AesGcm}
use signet_drive.Channel.{replay}
use signet_drive.Channel.Wire.{Op, Response, Json}
use signet_drive.Channel.Replay.{ReplayGuard, check_and_record}
use signet_drive.Channel.Replay.Window.{IsValid, present}
use signet_drive.Channel.Replay.Refusal.{replay_refused}
use signet_drive.Channel.Transport.{ChannelServer}
use signet_drive.Channel.Transport.{process}
use signet_drive.Channel.Transport.Server.{process-Step, process-Accepted, process_refused}

module _ (gcm : AesGcm) (hkdf : Bytes → Bytes → Bytes → ℕ → Result CryptoError Bytes) (json : Json)
    {S : Type 0} (handler : S → Op → S × Response) where
  -- Frames with the server's nonce and the request id of each, one after the other.
  abbrev pub process_all :
      List (Bytes × Bytes × Bytes) → ChannelServer → S → Option (ChannelServer × S)
  process_all [] srv s = some (srv, s)
  process_all ((nonce, req_id, frame) ∷ rest) srv s =
      elim (process gcm hkdf json handler nonce srv s req_id frame) [
        | none ↦ none
        | some (srv', s', result) ↦ process_all rest srv' s'
      ]

  record Steps (k : ℕ) (srv srv' : ChannelServer) : Type 0 where
    shown_all : List Bytes
    few_all : length shown_all ≤ k
    guard_all : srv'.replay ≡ present srv.replay shown_all
    channel_all : srv'.channel_id ≡ srv.channel_id
    secret_all : srv'.secret ≡ srv.secret

  present-append :
      (g : ReplayGuard) (xs ys : List Bytes) → present g (xs ++ ys) ≡ present (present g xs) ys
  present-append g [] ys = refl
  present-append g (x ∷ xs) ys = present-append (check_and_record g x).0 xs ys

  process_all-Steps :
      (frames : List (Bytes × Bytes × Bytes)) (srv : ChannelServer) (s : S) {srv' : ChannelServer}
      {s' : S}
      → process_all frames srv s ≡ some (srv', s')
      → Steps (length frames) srv srv'
  process_all-Steps [] srv s {srv'} e =
      let same : srv' ≡ srv = ground arith in
      record {
        shown_all = [];
        few_all = omega arith;
        guard_all = ap (λ v. v.replay) same;
        channel_all = ap (λ v. v.channel_id) same;
        secret_all = ap (λ v. v.secret) same;
      }
  process_all-Steps ((nonce, req_id, frame) ∷ rest) srv s {s' = s₂} e =
      elim (Option-cases (process gcm hkdf json handler nonce srv s req_id frame)) [
        | inl h ↦ absurd (ground arith)
        | inr ((mid, s', result), h) ↦
            let one = process-Step gcm hkdf json handler nonce srv s req_id frame h in
            let more = process_all-Steps rest mid s' {s' = s₂} (ground arith) in
            record {
              shown_all = one.shown ++ more.shown_all;
              few_all =
                  omega (arith, length-append one.shown more.shown_all, one.few, more.few_all);
              guard_all =
                  more.guard_all
                  ∙ ap (λ g. present g more.shown_all) one.guard_moves
                  ∙ sym (present-append srv.replay one.shown more.shown_all);
              channel_all = more.channel_all ∙ one.same_channel;
              secret_all = more.secret_all ∙ one.same_secret;
            }
      ]

  -- A frame that the server answered is refused as a replay, with no call of the handler, when it
  -- comes again after any sequence of frames, valid or not, that is shorter than the guard's
  -- capacity. The guard is well formed at first and no step panics.
  pub process_replay_refused :
      (nonce nonce' : Bytes) (srv : ChannelServer) (s : S) (req_id frame : Bytes)
      (frames : List (Bytes × Bytes × Bytes)) {srv₁ srv₂ : ChannelServer} {s₁ s₂ : S}
      {answer : Bytes}
      → IsValid srv.replay
      → process gcm hkdf json handler nonce srv s req_id frame ≡ some (srv₁, s₁, ok answer)
      → process_all frames srv₁ s₁ ≡ some (srv₂, s₂)
      → length frames < srv.replay.capacity
      → (guard : ReplayGuard) × (process gcm hkdf json handler nonce' srv₂ s₂ req_id frame
          ≡ some (record srv₂ { replay = guard }, s₂, err replay))
  process_replay_refused nonce nonce' srv s req_id frame frames {srv₁} {srv₂} {s₁} {s₂} v first
        between few =
      let a = process-Accepted gcm hkdf json handler nonce srv s req_id frame first in
      let m = process_all-Steps frames srv₁ s₁ between in
      let seen =
        replay_refused srv.replay a.nonce_shown m.shown_all v a.fresh (omega (arith, m.few_all)) in
      let guard = m.guard_all ∙ ap (λ g. present g m.shown_all) a.guard_after in
      let same_secret = m.secret_all ∙ a.secret_after in
      let same_channel = m.channel_all ∙ a.channel_after in
      process_refused gcm hkdf json handler nonce' srv₂ s₂ req_id frame a.nonce_shown a.body
        a.framed (rw (same_secret, same_channel) a.authentic)
        (ap (λ g. (check_and_record g a.nonce_shown).1) guard ∙ seen)
