-- ===== src/Remote/Connected.antt =====
-- A call of src/core/fs/handler.rs over a connection: what its listener gets of the messages that
-- `receive_loop` reads.
use mathlib.Core.Path.{subst}
use azpfs.Base.{false, refl, ◌≡◌, ap, sym, ◌∙◌, Option, List, []}
use azpfs.Io.{ok, blocked}
use azpfs.Protocol.Message.{Message, set_request_id}
use azpfs.Fs.Backend.{FsBackend}
use azpfs.Server.Handlers.{handle_msg}
use azpfs.Client.Replies.{Listener, drained, await_success, await_inode, await_attr, await_stats}
use azpfs.Client.Combine.{combine_read_chunks}
use azpfs.Client.Calls.{Call}
use azpfs.Client.Connection.{ClientHandler, send_msg, receive_loop, listener_of}
use azpfs.Client.Connection.Routing.{IsValid, replies_to, send_msg-listener_of}
use azpfs.Remote.{perform}

-- Every way in which the calls wait for their replies comes to no end.
abbrev pub NeverEnds : Listener → Type 0
NeverEnds l =
    (await_success l ≡ blocked)
    × (await_inode l ≡ blocked)
    × (await_attr l ≡ blocked)
    × (await_stats l ≡ blocked)
    × (combine_read_chunks l ≡ blocked)

-- A channel that is open and empty.
abbrev silent : List Message → Listener
silent ms = record { messages = ms; closes = false }

silent-NeverEnds : NeverEnds (silent [])
unfolding drained await_success await_inode await_attr await_stats combine_read_chunks
silent-NeverEnds = (refl, refl, refl, refl, refl)

-- If the connection ends before a reply to a request has come, then the call waits without end.
pub connection_ends :
    (msg : Message) (h : ClientHandler) (ms : List (Option Message))
    → IsValid h
    → replies_to h.next_id ms ≡ []
    → NeverEnds (listener_of h.opened (receive_loop ms (send_msg (ok tt) msg h).1))
connection_ends msg h ms v e =
    subst NeverEnds (sym (send_msg-listener_of msg h ms v ∙ ap silent e)) silent-NeverEnds

-- If the replies of a server to a request come, in some order, among other messages of the stream, then
-- a call over the connection has the result of the call on its own.
perform_connected {ℓ} :
    {A : Type ℓ} (fs : FsBackend) (order : List Message → List Message) (call : Call A)
    (s : fs.State) (h : ClientHandler) (ms : List (Option Message)) (replies : List Message)
    → IsValid h
    → (handle_msg fs (set_request_id h.next_id call.request) s).0 ≡ ok replies
    → replies_to h.next_id ms ≡ order replies
    → call.reply (listener_of h.opened (receive_loop ms (send_msg (ok tt) call.request h).1))
      ≡ (perform fs order h.next_id call s).0
unfolding perform
perform_connected fs order call s h ms replies v answered arrived =
    rw (send_msg-listener_of call.request h ms v, answered, arrived)
