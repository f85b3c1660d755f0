-- ===== src/Channel/Transport.antt =====
-- The channel's two ends: channel/src/transport.rs.
--
-- The folder is its `.req` and `.resp` files, by stem. A temporary file and its rename are one write,
-- as the rename is atomic. The handler is a function with a state of its own. Each nonce that the
-- source draws is an argument. `none` is a panic (see Auth). What the file system lets `poll_once` do
-- is an argument too, a `Disk`; the clock is not modelled.
pub mod Server
pub mod Again
pub mod Exchange
pub mod Poll
mod Runs
use signet_drive.Base.{ℕ, suc, ◌+◌, ◌^◌, min, Bytes, Option, none, some, List, [], ◌∷◌, bytes_eq}
use signet_drive.Base.{Bool, ◌&&◌, if◌then◌else◌}
use signet_drive.Base.Results.{Result, ok, err}
use signet_drive.Crypto.{CryptoError, AesGcm}
use signet_drive.Channel.{ChannelError, timeout, io}
use signet_drive.Channel.Wire.{Op, Response, Json, op_to_bytes, op_from_bytes, response_to_bytes}
use signet_drive.Channel.Wire.{response_from_bytes}
use signet_drive.Channel.Auth.{
  seal_request, open_request, seal_response, open_response, frame_nonce,
}
use signet_drive.Channel.Auth.{and_then}
use signet_drive.Channel.Replay.{ReplayGuard, check_and_record, with_default_capacity}

pub record ChannelServer : Type 0 where
  pub channel_id : Bytes
  pub secret : Bytes
  pub replay : ReplayGuard

-- `ChannelServer::new`.
pub new_server : Bytes → Bytes → ChannelServer
new_server channel_id secret = record {
  channel_id = channel_id;
  secret = secret;
  replay = with_default_capacity;
}

pub record Pending : Type 0 where
  pub req_id : Bytes
  pub req_nonce : Bytes

-- Files by stem. A write replaces a file of that name.
abbrev pub Files : Type 0
Files = List (Bytes × Bytes)

pub lookup : Bytes → Files → Option Bytes
lookup stem [] = none
lookup stem ((k, v) ∷ files) = if bytes_eq k stem then some v else lookup stem files

pub remove_file : Bytes → Files → Files
remove_file stem [] = []
remove_file stem ((k, v) ∷ files) =
    let rest = remove_file stem files in if bytes_eq k stem then rest else (k, v) ∷ rest

pub write_atomic : Bytes → Bytes → Files → Files
unfolding remove_file
write_atomic stem bytes files = (stem, bytes) ∷ remove_file stem files

abbrev pub stems : Files → List Bytes
stems [] = []
stems ((k, v) ∷ files) = k ∷ stems files

pub record Folder : Type 0 where
  pub requests : Files
  pub responses : Files

-- What the file system does during a poll: whether the directory can be listed, and for each stem
-- whether it is UTF-8 and whether its request can be read, its response written and its request
-- removed.
pub record Disk : Type 0 where
  pub lists : Bool
  pub is_utf8 : Bytes → Bool
  pub reads : Bytes → Bool
  pub writes : Bytes → Bool
  pub removes : Bytes → Bool

-- The frame of a request, unless the loop of `poll_once` goes on to the next one: where the stem is
-- no string (`to_str`), or where `fs::read` fails, as it does for a file that is gone.
unfoldable pub read_frame : Disk → Bytes → Files → Option Bytes
unfolding lookup
read_frame disk stem files =
    if disk.is_utf8 stem && disk.reads stem then lookup stem files else none

-- `1 << min(idle, 6)`, at most 50: milliseconds.
pub idle_backoff : ℕ → ℕ
idle_backoff idle_rounds = min (2 ^ min idle_rounds 6) 50

module _ (gcm : AesGcm) (hkdf : Bytes → Bytes → Bytes → ℕ → Result CryptoError Bytes)
    (json : Json) where
  -- `ChannelClient::send`: the folder with the request, and its handle. The request id and the
  -- nonce are drawn afresh in the source.
  pub send :
      Bytes → Bytes → Bytes → Bytes → Op → Folder → Option (Result ChannelError (Folder × Pending))
  send nonce req_id channel_id secret op folder = elim (op_to_bytes json op) [
    | err e ↦ some (err e)
    | ok body ↦ and_then (seal_request gcm hkdf nonce secret channel_id req_id body) (λ frame.
        elim (frame_nonce frame) [
          | err e ↦ some (err e)
          | ok req_nonce ↦ some (
              ok (
                record folder { requests = write_atomic req_id frame folder.requests },
                record { req_id = req_id; req_nonce = req_nonce },
              ))
        ])
  ]

  module _ {S : Type 0} (handler : S → Op → S × Response) where
    -- What `process` leaves: the server, the handler's state, and the sealed response or the error.
    abbrev pub Outcome : Type 0
    Outcome = Option (ChannelServer × S × Result ChannelError Bytes)

    seal_reply : Bytes → ChannelServer → S → Bytes → Bytes → Result ChannelError Bytes → Outcome
    seal_reply nonce srv s req_id req_nonce (err e) = some (srv, s, err e)
    seal_reply nonce srv s req_id req_nonce (ok body) =
        and_then (seal_response gcm hkdf nonce srv.secret srv.channel_id req_id req_nonce body)
          (λ frame. some (srv, s, ok frame))

    dispatch : Bytes → ChannelServer → S → Bytes → Bytes → Result ChannelError Op → Outcome
    unfolding seal_reply
    dispatch nonce srv s req_id req_nonce (err e) = some (srv, s, err e)
    dispatch nonce srv s req_id req_nonce (ok op) =
        let (s', response) = handler s op in
        seal_reply nonce srv s' req_id req_nonce (response_to_bytes json response)

    recorded :
        Bytes → ChannelServer → S → Bytes → Bytes → Bytes → Result ChannelError (Unit {0}) → Outcome
    unfolding dispatch
    recorded nonce srv s req_id req_nonce body (err e) = some (srv, s, err e)
    recorded nonce srv s req_id req_nonce body (ok _) =
        dispatch nonce srv s req_id req_nonce (op_from_bytes json body)

    opened :
        Bytes → ChannelServer → S → Bytes → Bytes → Option (Result ChannelError Bytes) → Outcome
    unfolding recorded
    opened nonce srv s req_id req_nonce none = none
    opened nonce srv s req_id req_nonce (some (err e)) = some (srv, s, err e)
    opened nonce srv s req_id req_nonce (some (ok body)) =
        let (guard, result) = check_and_record srv.replay req_nonce in
        recorded nonce (record srv { replay = guard }) s req_id req_nonce body result

    -- `ChannelServer::process`: open, then the replay guard, then the handler.
    pub process : Bytes → ChannelServer → S → Bytes → Bytes → Outcome
    unfolding opened
    process nonce srv s req_id frame = elim (frame_nonce frame) [
      | err e ↦ some (srv, s, err e)
      | ok req_nonce ↦
          opened nonce srv s req_id req_nonce
            (open_request gcm hkdf srv.secret srv.channel_id req_id frame)
    ]

    -- One file of `poll_once`, after `process`: a response is written, and the request removed
    -- whatever came of it. Failures of both are ignored.
    answer : Disk → Bytes → Folder → Result ChannelError Bytes → Folder × ℕ
    answer disk req_id folder result =
        let kept : Files =
          if disk.removes req_id then remove_file req_id folder.requests else folder.requests in
        elim result [
          | ok frame ↦ (
            record {
              requests = kept;
              responses =
                  if disk.writes req_id
                  then write_atomic req_id frame folder.responses
                  else folder.responses;
            },
            1,
          )
          | err e ↦ (record folder { requests = kept }, 0)
        ]

    -- `for path in requests`, with the number of requests answered.
    poll_loop :
        Disk
        → List Bytes
        → (ℕ → Bytes)
        → ℕ
        → ChannelServer
        → S
        → Folder
        → Option (ChannelServer × S × Folder × ℕ)
    unfolding answer
    poll_loop disk [] nonces answered srv s folder = some (srv, s, folder, answered)
    poll_loop disk (req_id ∷ rest) nonces answered srv s folder =
        elim (read_frame disk req_id folder.requests) [
          | none ↦ poll_loop disk rest nonces answered srv s folder
          | some frame ↦ elim (process (nonces 0) srv s req_id frame) [
            | none ↦ none
            | some (srv', s', result) ↦
                let (folder', one) = answer disk req_id folder result in
                poll_loop disk rest (λ i. nonces (suc i)) (answered + one) srv' s' folder'
          ]
        ]

    -- What a poll leaves: the server, the handler's state, the folder, and the result.
    abbrev pub Polled : Type 0
    Polled = ChannelServer × S × Folder × Result ChannelError ℕ

    counted : Option (ChannelServer × S × Folder × ℕ) → Option Polled
    counted none = none
    counted (some (srv, s, folder, answered)) = some (srv, s, folder, ok answered)

    -- `ChannelServer::poll_once` over the snapshot of the folder's requests.
    pub poll_once : Disk → (ℕ → Bytes) → ChannelServer → S → Folder → Option Polled
    unfolding poll_loop counted
    poll_once disk nonces srv s folder =
        if disk.lists
        then counted (poll_loop disk (stems folder.requests) nonces 0 srv s folder)
        else some (srv, s, folder, err io)
