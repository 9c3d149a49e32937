-- ===== src/Remote/Handshake.antt =====
-- The handshake of src/core/fs/handler.rs with the server of src/core/server/handlers.rs.
use azpfs.Base.{◌≡◌, ap, sym, ◌∙◌, List, [], ◌∷◌, Bytes, Option, true, false}
use azpfs.Io.{ok}
use azpfs.Protocol.Codes.{ErrorCode}
use azpfs.Protocol.Message.{Message, init_req, init_res, set_request_id}
use azpfs.Fs.Backend.{FsBackend}
use azpfs.Server.Handlers.{handle_msg}
use azpfs.Client.Connection.{ClientHandler, send_msg}
use azpfs.Client.Connection.Handshake.{init, init_reply, accept_init}
use azpfs.Client.Connection.Routing.{IsValid, replies_to, send_msg-listener_of}

-- If what the stream brings for the id of the handshake starts with what the server answers to it, then
-- `init` succeeds.
pub init-handle_msg :
    (debug_code : ErrorCode → Bytes) (debug_message : Message → Bytes) (fs : FsBackend)
    (s : fs.State) (h : ClientHandler) (ms : List (Option Message)) (reply : Message)
    (later : List Message)
    → IsValid h
    → (handle_msg fs (set_request_id h.next_id (init_req 0 0)) s).0 ≡ ok (reply ∷ [])
    → replies_to h.next_id ms ≡ reply ∷ later
    → init debug_code debug_message (ok tt) ms h ≡ ok tt
unfolding init init_reply handle_msg set_request_id send_msg
init-handle_msg debug_code debug_message fs s h ms reply later v answered arrived =
    let is_reply : init_res h.next_id true ≡ reply = cc in
    ap (init_reply debug_code debug_message) (send_msg-listener_of (init_req 0 0) h ms v)
    ∙ (ap (λ q. init_reply debug_code debug_message (record { messages = q; closes = false }))
          arrived
        ∙ ap (accept_init debug_code debug_message) (sym is_reply))
