-- ===== src/Remote/Started.antt =====
-- From the start of src/client/main.rs to the calls of the kernel.
use azpfs.Base.{ℕ, ◌≡◌, refl, Bytes, Option, List, [], ◌∷◌, All, map}
use azpfs.Io.{ok}
use azpfs.Protocol.Codes.{ErrorCode}
use azpfs.Protocol.Message.{Message, init_req, set_request_id}
use azpfs.Protocol.Reader.{ReadError}
use azpfs.Fs.Backend.{FsBackend}
use azpfs.Server.Handlers.{handle_msg}
use azpfs.Client.Connection.{ClientHandler, new_handler, send_msg, receive_loop, drop_receiver}
use azpfs.Client.Connection.Handshake.{new}
use azpfs.Client.Connection.Routing
use azpfs.Client.Connection.Routing.{
  new_handler-IsValid, replies_to, send_msg-IsValid, receive_loop-IsValid, drop_receiver-IsValid,
}
use azpfs.Client.Fuse.{FuseFilesystem, new_filesystem}
use azpfs.Client.Fuse.Operations.{Operation, serve_all}
use azpfs.Client.Program.{mounted}
use azpfs.Remote.Handshake.{init-handle_msg}
use azpfs.Remote.Mounted.{remote_outcome, remote_operation, IsSendable}
use azpfs.Remote.Link.{Link, linked}
use azpfs.Remote.Link.Calls.{Brings, Bounded}
use azpfs.Remote.Link.Shown.{serve_all-linked}

-- The front end of the client beside the state of the server that it is connected to.
abbrev pub beside : {S : Type 0} → S → FuseFilesystem ClientHandler → FuseFilesystem (Link S)
beside s t = record {
  lock = t.lock;
  backend = record { handler = t.backend; server = s; unread = []; arrived = [] };
}

module _ (debug_code : ErrorCode → Bytes) (debug_message : Message → Bytes) where
  -- The handler that a handshake with the server leaves.
  new-handle_msg :
      (fs : FsBackend) (s : fs.State) (ms : List (Option Message)) (reply : Message)
      (later : List Message)
      → (handle_msg fs (init_req 0 0) s).0 ≡ ok (reply ∷ [])
      → replies_to 0 ms ≡ reply ∷ later
      → (h : ClientHandler) × (new debug_code debug_message (ok tt) ms ≡ ok h) × Routing.IsValid h
  unfolding new
  new-handle_msg fs s ms reply later answered arrived =
      let sent = (send_msg (ok tt) (init_req 0 0) new_handler).1 in
      let done =
        init-handle_msg debug_code debug_message fs s new_handler ms reply later new_handler-IsValid
          (unfold set_request_id in answered) arrived in
      (
        drop_receiver 0 (receive_loop ms sent),
        rw done,
        drop_receiver-IsValid 0 (receive_loop ms sent) (
            receive_loop-IsValid ms sent
              (send_msg-IsValid (ok tt) (init_req 0 0) new_handler new_handler-IsValid)),
      )

  -- A client that has a connection, and reads the server's answer to its handshake first under id 0,
  -- mounts a file system. Whatever calls the kernel then makes of it, each of which goes over the
  -- connection as the bytes of requests, they have the replies that they have on the server's own file
  -- system, and the same effect there, if the calls' numbers lie within their Rust types, their names
  -- have at most 255 bytes and their content is less than 4 GiB; the times that are set are in the range
  -- of `SystemTime`; the server's file system answers within the Rust types, with names of at most 255
  -- bytes and error texts shorter than 64 KiB; and the bytes of the replies to each request arrive, the
  -- replies in any order and among messages about other ids: but times are in whole seconds, EACCES
  -- becomes EIO, and where the file system panics, this call and those after it wait.
  pub mounted-serve_all :
      {fs : FsBackend} (bounded : Bounded fs) (stream : ℕ → List Message → List Bytes)
      (describe : ReadError → Bytes) (s : fs.State) (ms : List (Option Message)) (reply : Message)
      (later : List Message) (ops : List Operation)
      → Brings stream
      → bounded.IsBounded s
      → (handle_msg fs (init_req 0 0) s).0 ≡ ok (reply ∷ [])
      → replies_to 0 ms ≡ reply ∷ later
      → All IsSendable ops
      → (t : FuseFilesystem ClientHandler) × (mounted
            (ok tt)
            (new debug_code debug_message (ok tt) ms)
          ≡ ok t)
        × ((serve_all (linked fs stream describe) ops (beside s t)).0
            ≡ map remote_outcome (serve_all fs (map remote_operation ops) (new_filesystem s)).0)
        × ((serve_all (linked fs stream describe) ops (beside s t)).1.backend.server
            ≡ (serve_all fs (map remote_operation ops) (new_filesystem s)).1.backend)
  unfolding mounted
  mounted-serve_all {fs} bounded stream describe s ms reply later ops brings bound answered arrived
        sendable =
      let (h, made, valid) = new-handle_msg fs s ms reply later answered arrived in
      let t : FuseFilesystem ClientHandler = new_filesystem h in
      let (replies, shows) =
        serve_all-linked bounded stream brings describe ops (new_filesystem s) (beside s t) sendable
          (refl, refl, (valid, refl, refl, bound)) in
      (t, rw made refl, replies, shows.1)
