-- ===== src/Remote/Link.antt =====
-- The client of src/core/fs/handler.rs at work: each call sends its request over the connection, the
-- server of src/core/server/handlers.rs answers it, and the call takes its replies off the listener.
pub mod Calls
pub mod Shown
use azpfs.Base.{ℕ, Bytes, Option, List, [], ◌∷◌, ◌++◌, map, none, some}
use azpfs.Protocol.Stream.{encode}
use azpfs.Protocol.Stream.Pieces.{off_wire}
use azpfs.Io.{Outcome, ok, err, panicked, blocked}
use azpfs.Protocol.Message.{Message, set_request_id}
use azpfs.Protocol.Reader.{ReadError}
use azpfs.Fs.Backend.{FsBackend}
use azpfs.Fs.Run.{Run}
use azpfs.Server.Handlers.{handle_msg}
use azpfs.Server.Session.{sent}
use azpfs.Client.Connection.{ClientHandler, send_msg, receive_loop, listener_of, drop_receiver}
use azpfs.Client.Calls.{
  Call, lookup_call, get_attr_call, set_attr_call, stats_call, create_file_call, create_dir_call,
  read_call, write_call, read_dir_call, remove_call, rename_call,
}

-- The client's handler, and the state of the server's file system; and the bytes that the server's and
-- the client's reader have not taken a message off.
pub record Link (S : Type 0) : Type 0 where
  pub handler : ClientHandler
  pub server : S
  pub unread : Bytes
  pub arrived : Bytes

-- A call that ends drops the receiver of its channel.
unfoldable pub finished {ℓ} : {A : Type ℓ} → Outcome A → ℕ → ClientHandler → ClientHandler
finished blocked c h = h
finished _ c h = drop_receiver c h

-- What a call does with the listener that `send_msg` gave it, after `ms` have been read.
unfoldable pub answered {ℓ} :
    {A : Type ℓ}
    → Call A
    → Outcome ℕ
    → List (Option Message)
    → ClientHandler
    → Outcome A × ClientHandler
unfolding finished
answered call (ok c) ms h =
    let h' = receive_loop ms h in let r = call.reply (listener_of c h') in (r, finished r c h')
answered call (err e) ms h = (err e, h)
answered call panicked ms h = (panicked, h)
answered call blocked ms h = (blocked, h)

-- The server handles what its reader yields, and sends the replies. Each message has a task of its own; a
-- call sends one message and waits for its replies, so that no two of these tasks run side by side.
unfoldable pub handle_all : (fs : FsBackend) → List Message → fs.State → List Message × fs.State
handle_all fs [] s = ([], s)
handle_all fs (m ∷ ms) s =
    let (r, s') = handle_msg fs m s in
    let (replies, s'') = handle_all fs ms s' in (sent r ++ replies, s'')

-- `stream id replies` are the pieces of bytes that reach the client until the call has its replies, where
-- the server has sent these: they may be rearranged, and among them may be messages about other ids.
module _ (fs : FsBackend) (stream : ℕ → List Message → List Bytes) where
  -- The request goes over the wire as bytes, and so do the replies.
  unfoldable pub call_over {ℓ} : {A : Type ℓ} → Call A → Run (Link fs.State) A
  unfolding answered handle_all
  call_over call t =
      let id = t.handler.next_id in
      let (c, h) = send_msg (ok tt) call.request t.handler in
      let (requests, unread) =
        off_wire t.unread (encode (set_request_id id call.request) [] ∷ []) in
      let (replies, s) = handle_all fs requests t.server in
      let (messages, arrived) = off_wire t.arrived (stream id replies) in
      let (r, h') = answered call c (map some messages) h in
      (r, record { handler = h'; server = s; unread = unread; arrived = arrived })

  -- `ClientHandler` as a file system.
  abbrev pub linked : (ReadError → Bytes) → FsBackend
  linked describe = record {
    State = Link fs.State;
    lookup = λ dir name. call_over (lookup_call dir name);
    get_attr = λ inode. call_over (get_attr_call inode);
    set_attr =
        λ inode size at mt perms uid gid. call_over (set_attr_call inode size at mt perms uid gid);
    stats = call_over stats_call;
    create_file = λ dir perms flags name. call_over (create_file_call dir perms flags name);
    create_dir = λ dir perms name. call_over (create_dir_call dir perms name);
    read = λ inode offset len. call_over (read_call inode offset len);
    write = λ inode offset content. call_over (write_call inode offset content);
    read_dir = λ inode. call_over (read_dir_call describe inode);
    remove = λ inode. call_over (remove_call inode);
    rename = λ inode dir name. call_over (rename_call inode dir name);
  }
