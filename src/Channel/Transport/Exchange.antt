-- ===== src/Channel/Transport/Exchange.antt =====
-- One exchange of a client and a server: channel/src/transport.rs, `send` and `process`.
use signet_drive.Base.{ℕ, ◌≡◌, ap, arith, sym, ◌∙◌, Bytes, some, length, inl, inr}
use signet_drive.Base.{Option-cases, false, bytes_eq_refl}
use signet_drive.Base.Results.{Result, ok, Result-cases, ok_inj}
use signet_drive.Crypto.{CryptoError, AesGcm, AesGcmLaws}
use signet_drive.Channel.Wire.{Op, Response, Json, JsonLaws, op_to_bytes, op_from_bytes}
use signet_drive.Channel.Wire.{response_to_bytes, response_from_bytes}
use signet_drive.Channel.Auth.{seal_request, seal_response, open_response, frame_nonce}
use signet_drive.Channel.Auth.Frames.{open_request-seal_request, open_response-seal_response}
use signet_drive.Channel.Replay.{contains, check_and_record}
use signet_drive.Channel.Replay.Window.{IsValid, accepted_order}
use signet_drive.Channel.Transport.{ChannelServer, Pending, Folder, lookup, write_atomic}
use signet_drive.Channel.Transport.{send, process, opened, recorded, dispatch, seal_reply}

read_back_op :
    (json : Json) (laws : JsonLaws json) (op : Op) {body : Bytes}
    → op_to_bytes json op ≡ ok body
    → op_from_bytes json body ≡ ok op
unfolding op_to_bytes op_from_bytes
read_back_op json laws op e = elim (Result-cases (json.op_to_vec op)) [
  | inl (bytes, h) ↦ ground (arith, laws.op_read_back op h)
  | inr (x, h) ↦ absurd (ground arith)
]

read_back_response :
    (json : Json) (laws : JsonLaws json) (r : Response) {body : Bytes}
    → response_to_bytes json r ≡ ok body
    → response_from_bytes json body ≡ ok r
unfolding response_to_bytes response_from_bytes
read_back_response json laws r e = elim (Result-cases (json.response_to_vec r)) [
  | inl (bytes, h) ↦ ground (arith, laws.response_read_back r h)
  | inr (x, h) ↦ absurd (ground arith)
]

module _ (gcm : AesGcm) (hkdf : Bytes → Bytes → Bytes → ℕ → Result CryptoError Bytes)
    (json : Json) where
  -- What `send` leaves, when it does not fail.
  record Sent (nonce req_id c secret : Bytes) (op : Op) (folder : Folder) (pending : Pending)
      : Type 0 where
    body : Bytes
    frame : Bytes
    written : op_to_bytes json op ≡ ok body
    sealed : seal_request gcm hkdf nonce secret c req_id body ≡ some frame
    filed : lookup req_id folder.requests ≡ some frame
    named : pending.req_id ≡ req_id
    nonce_kept : frame_nonce frame ≡ ok pending.req_nonce

  send-Sent :
      (nonce req_id c secret : Bytes) (op : Op) (folder : Folder) {folder' : Folder}
      {pending : Pending}
      → send gcm hkdf json nonce req_id c secret op folder ≡ some (ok (folder', pending))
      → Sent nonce req_id c secret op folder' pending
  unfolding send lookup write_atomic
  send-Sent nonce req_id c secret op folder {folder'} {pending} e =
      elim (Result-cases (op_to_bytes json op)) [
        | inr (x, h) ↦ absurd (ground arith)
        | inl (body, h) ↦ elim (Option-cases (seal_request gcm hkdf nonce secret c req_id body)) [
          | inl panics ↦ absurd (ground arith)
          | inr (frame, hs) ↦ elim (Result-cases (frame_nonce frame)) [
            | inr (x, hx) ↦ absurd (ground arith)
            | inl (n, hn) ↦
                let requests : write_atomic req_id frame folder.requests ≡ folder'.requests =
                  ground arith in
                record {
                  body = body;
                  frame = frame;
                  written = h;
                  sealed = hs;
                  filed = ap (lookup req_id) (sym requests) ∙ ground (arith, bytes_eq_refl req_id);
                  named = ground arith;
                  nonce_kept = ground arith;
                }
          ]
        ]
      ]

  module _ (laws : AesGcmLaws gcm) (json_laws : JsonLaws json) {S : Type 0}
      (handler : S → Op → S × Response) where
    process-ok :
        (nonce nonce' : Bytes) (srv : ChannelServer) (s : S) (req_id : Bytes) (op : Op)
        {body frame rbody rframe : Bytes}
        → length nonce ≡ 12
        → IsValid srv.replay
        → contains nonce srv.replay.order ≡ false
        → op_to_bytes json op ≡ ok body
        → seal_request gcm hkdf nonce srv.secret srv.channel_id req_id body ≡ some frame
        → response_to_bytes json (handler s op).1 ≡ ok rbody
        → seal_response gcm hkdf nonce' srv.secret srv.channel_id req_id nonce rbody ≡ some rframe
        → process gcm hkdf json handler nonce' srv s req_id frame
          ≡ some (
            record srv { replay = (check_and_record srv.replay nonce).0 },
            (handler s op).0,
            ok rframe,
          )
    unfolding process opened recorded dispatch seal_reply
    process-ok nonce nonce' srv s req_id op {body} hn v fresh written sealed replied answered =
        let (opens, framed) =
          open_request-seal_request gcm laws hkdf nonce srv.secret srv.channel_id req_id body hn
            sealed in
        let (_, taken, _) = accepted_order srv.replay nonce v fresh in
        let read = read_back_op json json_laws op written in
        ground (arith, framed, opens, taken, read, replied, answered)

    -- One exchange, of a client and a server with the same channel and secret. When the client's
    -- `send` succeeds with a 12-byte nonce that the server's well-formed guard does not hold, and
    -- the handler's response encodes and is sealed with a 12-byte nonce, then the request file holds
    -- a frame on which `process` calls the handler once and returns the sealed response; the client
    -- opens it with the id and the nonce it kept, and reads the handler's response.
    pub exchange :
        (nonce nonce' : Bytes) (srv : ChannelServer) (s : S) (req_id : Bytes) (op : Op)
        (folder : Folder) {folder' : Folder} {pending : Pending} {rbody rframe : Bytes}
        → length nonce ≡ 12
        → length nonce' ≡ 12
        → IsValid srv.replay
        → contains nonce srv.replay.order ≡ false
        → send gcm hkdf json nonce req_id srv.channel_id srv.secret op folder
          ≡ some (ok (folder', pending))
        → response_to_bytes json (handler s op).1 ≡ ok rbody
        → seal_response gcm hkdf nonce' srv.secret srv.channel_id req_id nonce rbody ≡ some rframe
        → (frame : Bytes) × (lookup req_id folder'.requests ≡ some frame)
          × (process gcm hkdf json handler nonce' srv s req_id frame
              ≡ some (
                record srv { replay = (check_and_record srv.replay nonce).0 },
                (handler s op).0,
                ok rframe,
              ))
          × (open_response gcm hkdf srv.secret srv.channel_id pending.req_id pending.req_nonce
                rframe
              ≡ some (ok rbody))
          × (response_from_bytes json rbody ≡ ok (handler s op).1)
    exchange nonce nonce' srv s req_id op folder hn hn' v fresh sent replied answered =
        let w = send-Sent nonce req_id srv.channel_id srv.secret op folder sent in
        let (_, framed) =
          open_request-seal_request gcm laws hkdf nonce srv.secret srv.channel_id req_id w.body hn
            w.sealed in
        let kept = ok_inj (sym framed ∙ w.nonce_kept) in
        (
          w.frame,
          w.filed,
          process-ok nonce nonce' srv s req_id op hn v fresh w.written w.sealed replied answered,
          rw (w.named, sym kept)
              (open_response-seal_response gcm laws hkdf nonce' srv.secret srv.channel_id req_id
                nonce _ hn' answered),
          read_back_response json json_laws (handler s op).1 replied,
        )
