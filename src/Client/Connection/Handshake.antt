-- ===== src/Client/Connection/Handshake.antt =====
-- The handshake of src/core/fs/handler.rs, `init`.
use azpfs.Base.{ℕ, true, false, List, [], ◌∷◌, ◌++◌, Bytes, Option, if◌then◌else◌}
use azpfs.Io.{connection_refused, invalid_data, unexpected_eof, Outcome, ok, err, panicked, blocked}
use azpfs.Protocol.Codes.{ErrorCode}
use azpfs.Protocol.Message.{Message, error, init_req, init_res}
use azpfs.Client.Replies.{Listener}
use azpfs.Client.Connection.{
  ClientHandler, new_handler, send_msg, receive_loop, listener_of, drop_receiver,
}

-- "server rejected the INIT handshake"
abbrev rejected_text : Bytes
rejected_text =
    b's' ∷ b'e' ∷ b'r' ∷ b'v' ∷ b'e' ∷ b'r' ∷ b' ' ∷ b'r' ∷ b'e' ∷ b'j' ∷ b'e' ∷ b'c' ∷ b't' ∷ b'e'
    ∷ b'd' ∷ b' ' ∷ b't' ∷ b'h' ∷ b'e' ∷ b' ' ∷ b'I' ∷ b'N' ∷ b'I' ∷ b'T' ∷ b' ' ∷ b'h' ∷ b'a'
    ∷ b'n' ∷ b'd' ∷ b's' ∷ b'h' ∷ b'a' ∷ b'k' ∷ b'e' ∷ []

-- "server returned an error during INIT: "
abbrev failed_text : Bytes
failed_text =
    b's' ∷ b'e' ∷ b'r' ∷ b'v' ∷ b'e' ∷ b'r' ∷ b' ' ∷ b'r' ∷ b'e' ∷ b't' ∷ b'u' ∷ b'r' ∷ b'n' ∷ b'e'
    ∷ b'd' ∷ b' ' ∷ b'a' ∷ b'n' ∷ b' ' ∷ b'e' ∷ b'r' ∷ b'r' ∷ b'o' ∷ b'r' ∷ b' ' ∷ b'd' ∷ b'u'
    ∷ b'r' ∷ b'i' ∷ b'n' ∷ b'g' ∷ b' ' ∷ b'I' ∷ b'N' ∷ b'I' ∷ b'T' ∷ b':' ∷ b' ' ∷ []

-- ": "
abbrev separator : Bytes
separator = b':' ∷ b' ' ∷ []

-- "unexpected reply to INIT_REQ: "
abbrev unexpected_text : Bytes
unexpected_text =
    b'u' ∷ b'n' ∷ b'e' ∷ b'x' ∷ b'p' ∷ b'e' ∷ b'c' ∷ b't' ∷ b'e' ∷ b'd' ∷ b' ' ∷ b'r' ∷ b'e' ∷ b'p'
    ∷ b'l' ∷ b'y' ∷ b' ' ∷ b't' ∷ b'o' ∷ b' ' ∷ b'I' ∷ b'N' ∷ b'I' ∷ b'T' ∷ b'_' ∷ b'R' ∷ b'E'
    ∷ b'Q' ∷ b':' ∷ b' ' ∷ []

-- "connection closed during the INIT handshake"
abbrev closed_text : Bytes
closed_text =
    b'c' ∷ b'o' ∷ b'n' ∷ b'n' ∷ b'e' ∷ b'c' ∷ b't' ∷ b'i' ∷ b'o' ∷ b'n' ∷ b' ' ∷ b'c' ∷ b'l' ∷ b'o'
    ∷ b's' ∷ b'e' ∷ b'd' ∷ b' ' ∷ b'd' ∷ b'u' ∷ b'r' ∷ b'i' ∷ b'n' ∷ b'g' ∷ b' ' ∷ b't' ∷ b'h'
    ∷ b'e' ∷ b' ' ∷ b'I' ∷ b'N' ∷ b'I' ∷ b'T' ∷ b' ' ∷ b'h' ∷ b'a' ∷ b'n' ∷ b'd' ∷ b's' ∷ b'h'
    ∷ b'a' ∷ b'k' ∷ b'e' ∷ []

-- `debug_code` and `debug_message` are the texts of `{:?}`.
module _ (debug_code : ErrorCode → Bytes) (debug_message : Message → Bytes) where
  -- What `init` makes of the first message.
  unfoldable pub accept_init : Message → Outcome (Unit {0})
  accept_init (init_res _ true) = ok tt
  accept_init (init_res _ false) = err (record { kind = connection_refused; text = rejected_text })
  accept_init (error _ code text) = err (record {
    kind = connection_refused;
    text = failed_text ++ (debug_code code ++ (separator ++ text));
  })
  accept_init msg =
      err (record { kind = invalid_data; text = unexpected_text ++ debug_message msg })

  -- `init_listener.recv().await` and the match on it.
  unfoldable pub init_reply : Listener → Outcome (Unit {0})
  unfolding accept_init
  init_reply l = elim l.messages [
    | [] ↦ if l.closes then err (record { kind = unexpected_eof; text = closed_text }) else blocked
    | m ∷ ms ↦ accept_init m
  ]

  -- `init`, where `sent` is what the writer answers and `ms` what the reader yields until the end.
  abbrev after_send : Outcome ℕ → List (Option Message) → ClientHandler → Outcome (Unit {0})
  after_send (ok c) ms h = init_reply (listener_of c (receive_loop ms h))
  after_send (err e) ms h = err e
  after_send panicked ms h = panicked
  after_send blocked ms h = blocked

  unfoldable pub init :
      Outcome (Unit {0}) → List (Option Message) → ClientHandler → Outcome (Unit {0})
  unfolding init_reply
  init sent ms h = let (r, h') = send_msg sent (init_req 0 0) h in after_send r ms h'

  -- The handler when `init` has ended: the receiver of its channel is dropped.
  abbrev ready : Outcome (Unit {0}) → ClientHandler → Outcome ClientHandler
  ready (ok _) h = ok h
  ready (err e) h = err e
  ready panicked h = panicked
  ready blocked h = blocked

  -- `ClientHandler::new`, where `ms` is what the reader yields until `init` has its reply.
  unfoldable pub new : Outcome (Unit {0}) → List (Option Message) → Outcome ClientHandler
  unfolding init
  new sent ms =
      ready (init sent ms new_handler)
        (drop_receiver 0 (receive_loop ms (send_msg sent (init_req 0 0) new_handler).1))
