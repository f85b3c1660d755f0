-- ===== src/Channel/Transport/Server.antt =====
-- What the server of channel/src/transport.rs does with a request.
use signet_drive.Base.{ℕ, ◌≤◌, ◌≡◌, ap, arith, ◌∙◌, Bytes, Option, none, some}
use signet_drive.Base.{List, [], ◌∷◌, length, inl, inr, Option-cases}
use signet_drive.Base.Results.{Result, ok, err, Result-cases}
use signet_drive.Crypto.{CryptoError, AesGcm}
use signet_drive.Channel.{ChannelError, replay}
use signet_drive.Channel.Wire.{Op, Response, Json, op_from_bytes}
use signet_drive.Channel.Wire.{response_to_bytes}
use signet_drive.Channel.Auth.{open_request, seal_response, frame_nonce}
use signet_drive.Channel.Replay.{ReplayGuard, check_and_record}
use signet_drive.Channel.Replay.Window.{present}
use signet_drive.Channel.Transport.{ChannelServer, dispatch, recorded, opened}
use signet_drive.Channel.Transport.{process}

module _ (gcm : AesGcm) (hkdf : Bytes → Bytes → Bytes → ℕ → Result CryptoError Bytes) (json : Json)
    {S : Type 0} (handler : S → Op → S × Response) where
  -- A frame that does not open leaves the server, the replay guard in it and the handler's state as
  -- they were, and is answered by an error.
  pub process_unauthenticated :
      (nonce : Bytes) (srv : ChannelServer) (s : S) (req_id frame : Bytes) (e : ChannelError)
      → open_request gcm hkdf srv.secret srv.channel_id req_id frame ≡ some (err e)
      → (e' : ChannelError) × (process gcm hkdf json handler nonce srv s req_id frame
          ≡ some (srv, s, err e'))
  unfolding process
  process_unauthenticated nonce srv s req_id frame e failed =
      elim (Result-cases (frame_nonce frame)) [
        | inl (n, h) ↦ (e, ground arith)
        | inr (x, h) ↦ (x, ground arith)
      ]

  pub process_refused :
      (nonce : Bytes) (srv : ChannelServer) (s : S) (req_id frame n body : Bytes)
      → frame_nonce frame ≡ ok n
      → open_request gcm hkdf srv.secret srv.channel_id req_id frame ≡ some (ok body)
      → (check_and_record srv.replay n).1 ≡ err replay
      → (guard : ReplayGuard) × (process gcm hkdf json handler nonce srv s req_id frame
          ≡ some (record srv { replay = guard }, s, err replay))
  unfolding process
  process_refused nonce srv s req_id frame n body hn ho hr =
      ((check_and_record srv.replay n).0, ground (arith, hn, ho, hr))

  -- What one call of `process` can do to the server: its identity stays, and its replay guard has
  -- recorded at most one nonce.
  pub record Step (srv srv' : ChannelServer) : Type 0 where
    pub shown : List Bytes
    pub few : length shown ≤ 1
    pub guard_moves : srv'.replay ≡ present srv.replay shown
    pub same_channel : srv'.channel_id ≡ srv.channel_id
    pub same_secret : srv'.secret ≡ srv.secret

  dispatch-server :
      (nonce : Bytes) (srv : ChannelServer) (s : S) (req_id n : Bytes) (r : Result ChannelError Op)
      {srv' : ChannelServer} {s' : S} {result : Result ChannelError Bytes}
      → dispatch gcm hkdf json handler nonce srv s req_id n r ≡ some (srv', s', result)
      → srv' ≡ srv
  unfolding dispatch
  dispatch-server nonce srv s req_id n (err x) e = ground arith
  dispatch-server nonce srv s req_id n (ok op) e =
      elim (Result-cases (response_to_bytes json (handler s op).1)) [
        | inr (x, h) ↦ ground arith
        | inl (body, h) ↦
            elim (Option-cases
              (seal_response gcm hkdf nonce srv.secret srv.channel_id req_id n body)) [
                | inl failed ↦ absurd (ground arith)
                | inr (frame, sealed) ↦ ground arith
              ]
      ]

  recorded-server :
      (nonce : Bytes) (srv : ChannelServer) (s : S) (req_id n body : Bytes)
      (r : Result ChannelError (Unit {0})) {srv' : ChannelServer} {s' : S}
      {result : Result ChannelError Bytes}
      → recorded gcm hkdf json handler nonce srv s req_id n body r ≡ some (srv', s', result)
      → srv' ≡ srv
  unfolding recorded
  recorded-server nonce srv s req_id n body (err x) e = ground arith
  recorded-server nonce srv s req_id n body (ok u) e =
      dispatch-server nonce srv s req_id n (op_from_bytes json body) e

  opened-Step :
      (nonce : Bytes) (srv : ChannelServer) (s : S) (req_id n : Bytes)
      (o : Option (Result ChannelError Bytes)) {srv' : ChannelServer} {s' : S}
      {result : Result ChannelError Bytes}
      → opened gcm hkdf json handler nonce srv s req_id n o ≡ some (srv', s', result)
      → Step srv srv'
  unfolding opened
  opened-Step nonce srv s req_id n none e = absurd (ground arith)
  opened-Step nonce srv s req_id n (some (err x)) {srv'} e =
      let same : srv' ≡ srv = ground arith in
      record {
        shown = [];
        few = omega arith;
        guard_moves = ap (λ v. v.replay) same;
        same_channel = ap (λ v. v.channel_id) same;
        same_secret = ap (λ v. v.secret) same;
      }
  opened-Step nonce srv s req_id n (some (ok body)) e =
      let same =
        recorded-server nonce (record srv { replay = (check_and_record srv.replay n).0 }) s req_id n
          body (check_and_record srv.replay n).1 e in
      record {
        shown = n ∷ [];
        few = omega arith;
        guard_moves = ap (λ v. v.replay) same;
        same_channel = ap (λ v. v.channel_id) same;
        same_secret = ap (λ v. v.secret) same;
      }

  pub process-Step :
      (nonce : Bytes) (srv : ChannelServer) (s : S) (req_id frame : Bytes) {srv' : ChannelServer}
      {s' : S} {result : Result ChannelError Bytes}
      → process gcm hkdf json handler nonce srv s req_id frame ≡ some (srv', s', result)
      → Step srv srv'
  unfolding process opened
  process-Step nonce srv s req_id frame {srv'} {s'} {result} e =
      elim (Result-cases (frame_nonce frame)) [
        | inl (n, h) ↦
            opened-Step nonce srv s req_id n
              (open_request gcm hkdf srv.secret srv.channel_id req_id frame) {srv' = srv'} {s' = s'}
              {result = result} (ground arith)
        | inr (x, h) ↦
            opened-Step nonce srv s req_id [] (some (err x)) {srv' = srv'} {s' = s'}
              {result = result} (ground arith)
      ]

  -- A request that was answered: what it took.
  pub record Accepted (srv srv' : ChannelServer) (req_id frame : Bytes) : Type 0 where
    pub nonce_shown : Bytes
    pub body : Bytes
    pub framed : frame_nonce frame ≡ ok nonce_shown
    pub authentic : open_request gcm hkdf srv.secret srv.channel_id req_id frame ≡ some (ok body)
    pub fresh : (check_and_record srv.replay nonce_shown).1 ≡ ok tt
    pub guard_after : srv'.replay ≡ (check_and_record srv.replay nonce_shown).0
    pub channel_after : srv'.channel_id ≡ srv.channel_id
    pub secret_after : srv'.secret ≡ srv.secret

  opened-Accepted :
      (nonce : Bytes) (srv : ChannelServer) (s : S) (req_id frame n : Bytes) {srv' : ChannelServer}
      {s' : S} {answer : Bytes}
      → frame_nonce frame ≡ ok n
      → opened gcm hkdf json handler nonce srv s req_id n
          (open_request gcm hkdf srv.secret srv.channel_id req_id frame)
        ≡ some (srv', s', ok answer)
      → Accepted srv srv' req_id frame
  unfolding opened recorded
  opened-Accepted nonce srv s req_id frame n {srv'} {s'} {answer} hn e =
      elim (Option-cases (open_request gcm hkdf srv.secret srv.channel_id req_id frame)) [
        | inl panics ↦ absurd (ground arith)
        | inr (r, h) ↦ elim (Result-cases r) [
          | inr (x, hx) ↦ absurd (ground arith)
          | inl (body, hb) ↦ elim (Result-cases (check_and_record srv.replay n).1) [
            | inr (x, hx) ↦ absurd (ground arith)
            | inl (u, hu) ↦
                let asked = record srv { replay = (check_and_record srv.replay n).0 } in
                let same : srv' ≡ asked =
                  recorded-server nonce asked s req_id n body (ok tt) {s' = s'} {result = ok answer}
                    (ground arith) in
                record {
                  nonce_shown = n;
                  body = body;
                  framed = hn;
                  authentic = h ∙ ap some hb;
                  fresh = hu;
                  guard_after = ap (λ v. v.replay) same;
                  channel_after = ap (λ v. v.channel_id) same;
                  secret_after = ap (λ v. v.secret) same;
                }
          ]
        ]
      ]

  pub process-Accepted :
      (nonce : Bytes) (srv : ChannelServer) (s : S) (req_id frame : Bytes) {srv' : ChannelServer}
      {s' : S} {answer : Bytes}
      → process gcm hkdf json handler nonce srv s req_id frame ≡ some (srv', s', ok answer)
      → Accepted srv srv' req_id frame
  unfolding process
  process-Accepted nonce srv s req_id frame {srv'} {s'} {answer} e =
      elim (Result-cases (frame_nonce frame)) [
        | inr (x, h) ↦ absurd (ground arith)
        | inl (n, h) ↦
            opened-Accepted nonce srv s req_id frame n {s' = s'} {answer = answer} h (ground arith)
      ]
