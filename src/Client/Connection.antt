-- ===== src/Client/Connection.antt =====
-- The state of a connection in src/core/fs/handler.rs: the ids of requests, the listeners, and their
-- channels (`receive_loop`, `register_listener` and `send_msg`).
pub mod Routing
pub mod About
pub mod Handshake
use azpfs.Base.{
  ℕ, suc, ◌+◌, ◌%◌, ◌^◌, ◌==◌, Bool, true, false, Option, none, some, List, [], ◌∷◌, ◌++◌, Bytes,
  if◌then◌else◌,
}
use azpfs.Io.{other, Outcome, ok, err, panicked, blocked, IoError}
use azpfs.Protocol.Message.{Message, request_id, set_request_id}
use azpfs.Client.Replies.{Listener}

-- An unbounded channel: what waits in it, and which of its ends are still there.
pub record Channel : Type 0 where
  pub queue : List Message
  pub sender : Bool
  pub receiver : Bool

abbrev pub new_channel : Channel
new_channel = record { queue = []; sender = true; receiver = true }

-- `ClientHandler`, with the channels that it has made, numbered in order, and the messages that it
-- has written. `reply_listeners` gives the channel whose sender stands under an id.
pub record ClientHandler : Type 0 where
  pub next_id : ℕ
  pub reply_listeners : ℕ → Option ℕ
  pub channels : ℕ → Channel
  pub opened : ℕ
  pub written : List Message

-- The handler of `ClientHandler::new`, before the handshake.
abbrev pub new_handler : ClientHandler
new_handler = record {
  next_id = 0;
  reply_listeners = λ _. none;
  channels = λ _. new_channel;
  opened = 0;
  written = [];
}

abbrev pub set_at {ℓ} : {A : Type ℓ} → ℕ → A → (ℕ → A) → ℕ → A
set_at k a f i = if i == k then a else f i

-- A sender that leaves the map is dropped.
abbrev pub drop_sender : Option ℕ → (ℕ → Channel) → ℕ → Channel
drop_sender none channels = channels
drop_sender (some c) channels = set_at c (record (channels c) { sender = false }) channels

-- The receiver of a call is dropped when the call ends.
unfoldable pub drop_receiver : ℕ → ClientHandler → ClientHandler
drop_receiver c h = record h {
  channels = set_at c (record (h.channels c) { receiver = false }) h.channels;
}

-- The new channel takes the place of one that still stands under the id.
unfoldable pub register_listener : ℕ → ClientHandler → ClientHandler
register_listener req_id h = record h {
  reply_listeners = set_at req_id (some h.opened) h.reply_listeners;
  channels = set_at h.opened new_channel (drop_sender (h.reply_listeners req_id) h.channels);
  opened = suc h.opened;
}

-- `send_msg`, where `sent` is what the writer answers. The channel of the listener is returned.
abbrev after_write : Outcome (Unit {0}) → Message → ℕ → ClientHandler → Outcome ℕ × ClientHandler
after_write (ok _) msg listener h = (ok listener, record h { written = h.written ++ (msg ∷ []) })
after_write (err e) msg listener h =
    (err (record { kind = other; text = e.text }), drop_receiver listener h)
after_write panicked msg listener h = (panicked, drop_receiver listener h)
after_write blocked msg listener h = (blocked, h)

unfoldable pub send_msg : Outcome (Unit {0}) → Message → ClientHandler → Outcome ℕ × ClientHandler
unfolding register_listener drop_receiver
send_msg sent msg h =
    let id = h.next_id in
    let registered = register_listener id h in
    after_write sent (set_request_id id msg) h.opened
      (record registered { next_id = (h.next_id + 1) % 2 ^ 32 })

-- `tx.send(msg)`: a sender whose receiver is gone is removed from the map.
abbrev pub send_to : ℕ → Message → ClientHandler → ClientHandler
send_to c msg h =
    if (h.channels c).receiver
    then record h {
      channels =
          set_at c (record (h.channels c) { queue = (h.channels c).queue ++ (msg ∷ []) })
            h.channels;
    }
    else record h {
      reply_listeners = set_at (request_id msg) none h.reply_listeners;
      channels = drop_sender (some c) h.channels;
    }

abbrev dispatch : Option ℕ → Message → ClientHandler → ClientHandler
dispatch none msg h = h
dispatch (some c) msg h = send_to c msg h

-- One turn of `receive_loop` on a message that was read.
unfoldable pub receive : Message → ClientHandler → ClientHandler
receive msg h = dispatch (h.reply_listeners (request_id msg)) msg h

-- `receive_loop` on the messages that the reader yields until it ends. What it fails to read it skips.
unfoldable pub receive_loop : List (Option Message) → ClientHandler → ClientHandler
unfolding receive
receive_loop [] h = h
receive_loop (none ∷ ms) h = receive_loop ms h
receive_loop (some m ∷ ms) h = receive_loop ms (receive m h)

-- What the receiver of a channel will get, if nothing more arrives.
abbrev pub listener_of : ℕ → ClientHandler → Listener
listener_of c h = record {
  messages = (h.channels c).queue;
  closes = if (h.channels c).sender then false else true;
}
