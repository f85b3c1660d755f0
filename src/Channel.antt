-- ===== src/Channel.antt =====
-- The delegation channel between a container and the host signer: the crate channel/src.
--
-- Wire holds the message types (wire.rs), Auth the sealed frames (auth.rs), Replay the guard against
-- replayed requests (auth.rs), Transport the server's and the client's handling of files
-- (transport.rs). This file holds the error type (error.rs).
pub mod Wire
pub mod Auth
pub mod Replay
pub mod Transport
use Prim.Native.String.{String}

-- `Io` carries an opaque error of the operating system.
pub data ChannelError : Type 0 where
  auth : ChannelError
  replay : ChannelError
  malformed_frame : ChannelError
  serialization : String → ChannelError
  io : ChannelError
  timeout : ChannelError
