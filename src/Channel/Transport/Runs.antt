-- ===== src/Channel/Transport/Runs.antt =====
-- A client and a server under the stand-in cipher and a serializer of one request and one response.
use Prim.Native.String.{String}
use signet_drive.Base.{ℕ, suc, ◌≤◌, ◌≡◌, ◌<◌, refl, arith, Bytes, [], ◌∷◌, ◌++◌, replicate, some}
use signet_drive.Base.{bytes_eq, false, length}
use signet_drive.Base.Results.{Result, ok, err}
use signet_drive.Base.BigEndian.{be}
use signet_drive.Crypto.{CryptoError, seal, open_sealed}
use signet_drive.Crypto.Toy.{toy_gcm, toy_laws}
use signet_drive.Channel.{replay}
use signet_drive.Channel.Wire.{Op, list, delete, Response, success, Json, JsonLaws}
use signet_drive.Channel.Wire.{op_to_bytes, op_from_bytes, response_to_bytes, response_from_bytes}
use signet_drive.Channel.Auth.{request_aad, response_aad, derive_key, seal_with, open_with}
use signet_drive.Channel.Auth.{
  seal_request, open_request, seal_response, open_response, frame_nonce,
}
use signet_drive.Channel.Replay.{ReplayGuard, new, contains}
use signet_drive.Channel.Replay.{check_and_record}
use signet_drive.Channel.Replay.Window.{new-IsValid}
use signet_drive.Channel.Transport.{ChannelServer, Pending, Folder, lookup, send}
use signet_drive.Channel.Transport.{remove_file, write_atomic, process, opened, recorded, dispatch}
use signet_drive.Channel.Transport.{seal_reply, poll_once, poll_loop, answer, idle_backoff}
use signet_drive.Channel.Transport.Again.{process_all, process_replay_refused}
use signet_drive.Channel.Transport.Exchange.{exchange}
use signet_drive.Channel.Transport.Poll.{Swept, poll_once_sweeps}
use signet_drive.Channel.Transport.{stems, Disk, read_frame, counted}
use signet_drive.Channel.{ChannelError, io}
use signet_drive.Base.{true, ◌⊎◌}

abbrev toy_hkdf : Bytes → Bytes → Bytes → ℕ → Result CryptoError Bytes
toy_hkdf key salt info n = ok (replicate n 9)

abbrev write_op : Op → Result String Bytes
write_op list = ok (8 ∷ [])
write_op op = err "unsupported"

abbrev write_response : Response → Result String Bytes
write_response (success delete) = ok (9 ∷ [])
write_response r = err "unsupported"

abbrev read_list : Bytes → Result String Op
read_list bytes = ok list

abbrev read_delete : Bytes → Result String Response
read_delete bytes = ok (success delete)

abbrev toy_json : Json
toy_json = record {
  op_to_vec = write_op;
  op_from_slice = read_list;
  response_to_vec = write_response;
  response_from_slice = read_delete;
}

read_op : (op : Op) {bytes : Bytes} → write_op op ≡ ok bytes → read_list bytes ≡ ok op
read_op list e = refl
read_op op e = absurd (ground arith)

read_response :
    (r : Response) {bytes : Bytes} → write_response r ≡ ok bytes → read_delete bytes ≡ ok r
read_response (success delete) e = refl
read_response r e = absurd (ground arith)

toy_json_laws : JsonLaws toy_json
toy_json_laws = record { op_read_back = read_op; response_read_back = read_response }

-- The handler counts its calls.
abbrev count_calls : ℕ → Op → ℕ × Response
count_calls calls op = (suc calls, success delete)

abbrev secret : Bytes
secret = replicate 32 7

abbrev nonce : Bytes
nonce = replicate 12 5

abbrev server : ChannelServer
server = record { channel_id = 104 ∷ []; secret = secret; replay = new 2 }

abbrev empty : Folder
empty = record { requests = []; responses = [] }

abbrev request_frame : Bytes
request_frame =
    nonce
    ++ (8 ∷ [])
    ++ (0 ∷ 0 ∷ 0 ∷ 25 ∷ 115 ∷ 105 ∷ 103 ∷ 110 ∷ 101 ∷ 116 ∷ 45 ∷ 99 ∷ 104 ∷ 97 ∷ 110 ∷ 110 ∷ [])

abbrev response_frame : Bytes
response_frame =
    nonce
    ++ (9 ∷ [])
    ++ (0 ∷ 0 ∷ 0 ∷ 26 ∷ 115 ∷ 105 ∷ 103 ∷ 110 ∷ 101 ∷ 116 ∷ 45 ∷ 99 ∷ 104 ∷ 97 ∷ 110 ∷ 110 ∷ [])

abbrev filed : Folder
filed = record { requests = (114 ∷ [], request_frame) ∷ []; responses = [] }

abbrev pending : Pending
pending = record { req_id = 114 ∷ []; req_nonce = nonce }

send_run :
    send toy_gcm toy_hkdf toy_json nonce (114 ∷ []) (104 ∷ []) secret list empty
    ≡ some (ok (filed, pending))
unfolding send write_atomic remove_file op_to_bytes seal_request derive_key seal_with seal
    request_aad be frame_nonce bytes_eq
send_run = refl

reply_run :
    seal_response toy_gcm toy_hkdf nonce secret (104 ∷ []) (114 ∷ []) nonce (9 ∷ [])
    ≡ some response_frame
unfolding seal_response derive_key seal_with seal response_aad be
reply_run = refl

encode_run : response_to_bytes toy_json (success delete) ≡ ok (9 ∷ [])
unfolding response_to_bytes
encode_run = refl

fresh_run : contains nonce server.replay.order ≡ false
unfolding contains new
fresh_run = refl

abbrev after : ChannelServer
after = record server { replay = (check_and_record (new 2) nonce).0 }

exchange_example :
    (frame : Bytes) × (lookup (114 ∷ []) filed.requests ≡ some frame)
    × (process toy_gcm toy_hkdf toy_json count_calls nonce server 0 (114 ∷ []) frame
        ≡ some (after, 1, ok response_frame))
    × (open_response toy_gcm toy_hkdf secret (104 ∷ []) (114 ∷ []) nonce response_frame
        ≡ some (ok (9 ∷ [])))
    × (response_from_bytes toy_json (9 ∷ []) ≡ ok (success delete))
exchange_example =
    exchange toy_gcm toy_hkdf toy_json toy_laws toy_json_laws count_calls nonce nonce server 0
      (114 ∷ []) list empty refl refl (new-IsValid 2) fresh_run send_run encode_run reply_run

process_run :
    process toy_gcm toy_hkdf toy_json count_calls nonce server 0 (114 ∷ []) request_frame
    ≡ some (after, 1, ok response_frame)
unfolding process opened recorded dispatch seal_reply open_request open_with open_sealed
    seal_response seal_with seal derive_key request_aad response_aad be frame_nonce bytes_eq
    op_from_bytes response_to_bytes check_and_record contains new
process_run = refl

-- Between the two arrivals a frame of one byte comes, which is refused.
between_run :
    process_all toy_gcm toy_hkdf toy_json count_calls ((nonce, 114 ∷ [], 0 ∷ []) ∷ []) after 1
    ≡ some (after, 1)
unfolding process frame_nonce
between_run = refl

room_run :
    length {A = Bytes × Bytes × Bytes} ((nonce, 114 ∷ [], 0 ∷ []) ∷ []) < server.replay.capacity
unfolding new
room_run = omega arith

process_replay_refused_example :
    (guard : ReplayGuard) × (process toy_gcm toy_hkdf toy_json count_calls nonce after 1
        (114 ∷ [])
        request_frame
      ≡ some (record after { replay = guard }, 1, err replay))
process_replay_refused_example =
    process_replay_refused toy_gcm toy_hkdf toy_json count_calls nonce nonce server 0 (114 ∷ [])
      request_frame ((nonce, 114 ∷ [], 0 ∷ []) ∷ []) (new-IsValid 2) process_run between_run
      room_run

-- A request beside it cannot be read.
abbrev crowded : Folder
crowded = record { requests = (113 ∷ [], 1 ∷ []) ∷ (114 ∷ [], request_frame) ∷ []; responses = [] }

abbrev disk : Disk
disk = record {
  lists = true;
  is_utf8 = λ stem. true;
  reads = λ stem. bytes_eq stem (114 ∷ []);
  writes = λ stem. true;
  removes = λ stem. true;
}

abbrev answered_folder : Folder
answered_folder = record {
  requests = (113 ∷ [], 1 ∷ []) ∷ [];
  responses = (114 ∷ [], response_frame) ∷ [];
}

poll_run :
    poll_once toy_gcm toy_hkdf toy_json count_calls disk (λ i. nonce) server 0 crowded
    ≡ some (after, 1, answered_folder, ok 1)
unfolding poll_once poll_loop counted read_frame lookup answer remove_file write_atomic process
    opened recorded dispatch seal_reply open_request open_with open_sealed seal_response seal_with
    seal derive_key request_aad response_aad be frame_nonce bytes_eq op_from_bytes response_to_bytes
    check_and_record contains new
poll_run = refl

poll_once_sweeps_example :
    ((disk.lists ≡ true)
      × Swept disk crowded.requests answered_folder.requests
      × (n : ℕ) × (◌≡◌ {A = Result ChannelError ℕ} (ok 1) (ok n))
      × (n ≤ length (stems crowded.requests)))
    ⊎ ((disk.lists ≡ false)
        × (◌≡◌ {A = Result ChannelError ℕ} (ok 1) (err io))
        × (answered_folder ≡ crowded))
poll_once_sweeps_example =
    poll_once_sweeps toy_gcm toy_hkdf toy_json count_calls disk (λ i. nonce) server 0 crowded
      poll_run

backs_off : idle_backoff 3 ≡ 8
unfolding idle_backoff
backs_off = refl

backs_off_at_most : idle_backoff 9 ≡ 50
unfolding idle_backoff
backs_off_at_most = refl
