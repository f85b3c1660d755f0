-- ===== src/Lib.antt =====
-- The core of Signet Drive: the Rust crates crypto and channel, and the parts of cli that guard keys.
--
-- A file is stored as envelopes that the crypto crate seals; its transparency log is a chain of
-- entries under a Merkle tree. An agent's key operations go to a host: over a channel, a folder of
-- sealed request and response files that the host signer serves, or to the broker, which asks for an
-- access token and keeps a lease on the token's grant. Both end in one function, which does an
-- operation on a keystore under the handle of the caller. Before a file's key is wrapped to somebody,
-- the client takes that recipient's keys from the directory only against signed records of the log, in
-- an epoch that published anchor files confirm.
--
-- Files, and the code they model:
--   Base        lists, byte strings, results, words of bytes and signed integers; no code of its own
--   Merkle      crypto/src/merkle.rs: mth, inclusion_proof, verify_inclusion, consistency_proof,
--               verify_consistency
--   Crypto      crypto/src/error.rs and aead.rs; Crypto/Envelope: envelope.rs (seal_file, open_file,
--               seal_chunk, open_chunk, multipart_plaintext_len); Crypto/Token: garnet_token.rs
--               (encode_signing_input, extract_kid, verify, verify_skipping_time) with verify_es256 of
--               ecdsa.rs; Crypto/Translog: translog.rs (entry_hash in its three formats);
--               Crypto/Names: encname.rs (encrypt_name, decrypt_name) with alg.rs;
--               Crypto/Kdf: concatkdf.rs and kdf.rs; Crypto/Wrap: wrap.rs with keywrap.rs, ecdh_p256 and
--               the fingerprints of pubkey.rs; Crypto/Hybrid: hybrid_wrap.rs; Crypto/KemWrap: kem_wrap.rs;
--               Crypto/Jcs: jcs.rs
--   Cli         cli/src/error.rs and the reading of JSON; Cli/Anchors: judge_epoch, update_state,
--               check_genesis and account_index of cli/src/anchors.rs, with crypto/src/vrf.rs in Cli/Anchors/Index;
--               Cli/Recipient: the checks of bundles and receipts of cli/src/commands.rs, with
--               cli/src/recipient_verify.rs in its Receipt, Trust and Resolve
--   Channel     channel/src: Wire (wire.rs), Auth (the frames of auth.rs), Replay (its ReplayGuard),
--               Transport (send, process and poll_once of transport.rs)
--   Keystore    cli/src/keystore/mod.rs: the labels and the trait Keystore
--   Signer      cli/src/host_signer.rs: handle_op and ChannelState::handle
--   Broker      Broker/Lease: cli/src/garnet_revocation.rs; Broker/Gate: handle_request of
--               cli/src/broker.rs
-- The directories below a file hold its proofs, its tests (Runs) and stand-ins for parameters (Toy).
--
-- Byte strings and strings are lists of numbers; a record is a struct, an error a value of a result.
-- State is passed: a method with `&mut self` takes and returns its record. What the source draws at
-- random or reads from the clock is an argument. AES-256-GCM, HKDF, SHA-256, ECDSA on P-256, base64,
-- serde_json, uuid, the curve P-256, AES key wrap, ML-DSA-87 and the VRF are other crates and stand as
-- parameters; their laws are the records AesGcmLaws, JsonLaws, FormatsLaws, TextLaws, CurveLaws,
-- KeyWrapLaws and HkdfLaws, each of which a stand-in meets. What the client asks of the server is the
-- parameter get_json. The feature classical-write is off. A panic is none where a step can panic.
--
-- Fuel: mth, audit_path and subproof recurse on halves of a slice; the model gives the slice's length,
-- and each half is shorter. The loops of verify_inclusion and verify_consistency run over the proof.
-- split_point doubles at most once for each element. concat_kdf_sha256 adds 32 bytes a round and gets a
-- round for each byte asked for.
--
-- Not modelled: the primitives themselves; TLS, HTTP, files and their errors (but for what they let a
-- poll of the channel do), threads and locks; waiting for a response; the backends of the keystore; the
-- command line, installation and updates; the web application; the checks of certificates. Of the
-- anchors, the parsing of the files, the cache and the retry; of the recipient, how ServerTrust is
-- fetched.
pub mod Base
pub mod Merkle
pub mod Crypto
pub mod Cli
pub mod Channel
pub mod Keystore
pub mod Signer
pub mod Broker
