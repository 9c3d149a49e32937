-- ===== src/Client/Connection/Routing.antt =====
-- Which listener gets which message (src/core/fs/handler.rs).
use azpfs.Base.{
  ==_refl, sym, ℕ, ◌+◌, ◌%◌, ◌^◌, ◌<◌, ◌==◌, ◌≡◌, refl, Bool, true, false, Option, none, some, List,
  [], ◌∷◌, ◌++◌, append_assoc, append-nil, arith, if◌then◌else◌, ◌∙◌, ap,
}
use azpfs.Io.{Outcome, ok, err, panicked, blocked}
use azpfs.Protocol.Message.{Message, request_id}
use azpfs.Client.Connection.{
  ClientHandler, new_handler, set_at, new_channel, drop_sender, drop_receiver, register_listener,
  send_msg, receive, receive_loop, listener_of,
}

-- A handler whose next id is a `u32`, and whose map holds each sender at most once: that of a channel
-- that has been opened and has its sender.
pub record IsValid (h : ClientHandler) : Type 0 where
  pub next_id-IsU32 : h.next_id < 2 ^ 32
  pub is_opened : (id c : ℕ) → h.reply_listeners id ≡ some c → c < h.opened
  pub has_sender : (id c : ℕ) → h.reply_listeners id ≡ some c → (h.channels c).sender ≡ true
  pub is_one_id :
      (id id' c : ℕ) → h.reply_listeners id ≡ some c → h.reply_listeners id' ≡ some c → id ≡ id'

pub new_handler-IsValid : IsValid new_handler
new_handler-IsValid = record {
  next_id-IsU32 = omega arith;
  is_opened = λ id c e. cc;
  has_sender = λ id c e. cc;
  is_one_id = λ id id' c e e'. cc;
}

pub register_listener-IsValid :
    (id : ℕ) (h : ClientHandler) → IsValid h → IsValid (register_listener id h)
unfolding register_listener
register_listener-IsValid id h v = record {
  next_id-IsU32 = v.next_id-IsU32;
  is_opened = λ i c e. grind (arith, v.is_opened);
  has_sender = λ i c e. registered (h.reply_listeners id) refl i c e;
  is_one_id = λ i i' c e e'. grind (arith, v.is_opened, v.is_one_id);
}
  where
    registered :
        (o : Option ℕ)
        → h.reply_listeners id ≡ o
        → (i c : ℕ) → set_at id (some h.opened) h.reply_listeners i ≡ some c
        → (set_at h.opened new_channel (drop_sender o h.channels) c).sender ≡ true
    registered none at_id i c e = grind (arith, v.is_opened, v.has_sender)
    registered (some d) at_id i c e = grind (arith, v.is_opened, v.has_sender, v.is_one_id)

pub drop_receiver-IsValid : (c : ℕ) (h : ClientHandler) → IsValid h → IsValid (drop_receiver c h)
unfolding drop_receiver
drop_receiver-IsValid c h v = record {
  next_id-IsU32 = v.next_id-IsU32;
  is_opened = v.is_opened;
  has_sender = λ id k e. grind (arith, v.has_sender);
  is_one_id = v.is_one_id;
}

pub receive-IsValid : (m : Message) (h : ClientHandler) → IsValid h → IsValid (receive m h)
unfolding receive
receive-IsValid m h v = record {
  next_id-IsU32 = grind arith;
  is_opened = λ i c e. grind (arith, v.is_opened);
  has_sender = λ i c e. grind (arith, v.has_sender, v.is_one_id);
  is_one_id = λ i i' c e e'. grind (arith, v.is_one_id);
}

-- The listeners of the id `id` that wait on the channel `c`.
abbrev Waits : ℕ → ℕ → ClientHandler → Type 0
Waits id c h = (h.reply_listeners id ≡ some c) × ((h.channels c).receiver ≡ true)

-- What one message adds to the channel under `id`.
abbrev pub one_if : Bool → Message → List Message
one_if b m = if b then m ∷ [] else []

receive-Waits :
    (m : Message) (h : ClientHandler) (id c : ℕ)
    → IsValid h
    → Waits id c h
    → Waits id c (receive m h)
unfolding receive
receive-Waits m h id c v w = (grind (arith, v.is_one_id), grind (arith, v.is_one_id))

receive-queue :
    (m : Message) (h : ClientHandler) (id c : ℕ)
    → IsValid h
    → Waits id c h
    → ((receive m h).channels c).queue ≡ (h.channels c).queue ++ one_if (request_id m == id) m
unfolding receive
receive-queue m h id c v w = grind (arith, v.is_one_id, append-nil)

-- The messages of a stream that are about the request `id`, in order.
unfoldable pub replies_to : ℕ → List (Option Message) → List Message
replies_to id [] = []
replies_to id (none ∷ ms) = replies_to id ms
replies_to id (some m ∷ ms) = one_if (request_id m == id) m ++ replies_to id ms

-- Whatever arrives, the handler stays valid.
pub receive_loop-IsValid :
    (ms : List (Option Message)) (h : ClientHandler) → IsValid h → IsValid (receive_loop ms h)
unfolding receive_loop
receive_loop-IsValid [] h v = v
receive_loop-IsValid (none ∷ ms) h v = receive_loop-IsValid ms h v
receive_loop-IsValid (some m ∷ ms) h v =
    receive_loop-IsValid ms (receive m h) (receive-IsValid m h v)

-- A listener that waits under an id gets the messages about this id, all of them and in the order of
-- the stream, and no other.
pub receive_loop-queue :
    (ms : List (Option Message)) (h : ClientHandler) (id c : ℕ)
    → IsValid h
    → h.reply_listeners id ≡ some c
    → (h.channels c).receiver ≡ true
    → ((receive_loop ms h).channels c).queue ≡ (h.channels c).queue ++ replies_to id ms
unfolding receive_loop replies_to
receive_loop-queue [] h id c v known waits = sym (append-nil _)
receive_loop-queue (none ∷ ms) h id c v known waits = receive_loop-queue ms h id c v known waits
receive_loop-queue (some m ∷ ms) h id c v known waits =
    let w = receive-Waits m h id c v (known, waits) in
    receive_loop-queue ms (receive m h) id c (receive-IsValid m h v) w.0 w.1
    ∙ (ap (λ q. q ++ replies_to id ms) (receive-queue m h id c v (known, waits))
        ∙ append_assoc (h.channels c).queue (one_if (request_id m == id) m) (replies_to id ms))

receive_loop-Waits :
    (ms : List (Option Message)) (h : ClientHandler) (id c : ℕ)
    → IsValid h
    → Waits id c h
    → Waits id c (receive_loop ms h)
unfolding receive_loop
receive_loop-Waits [] h id c v w = w
receive_loop-Waits (none ∷ ms) h id c v w = receive_loop-Waits ms h id c v w
receive_loop-Waits (some m ∷ ms) h id c v w =
    receive_loop-Waits ms (receive m h) id c (receive-IsValid m h v) (receive-Waits m h id c v w)

registered-IsValid :
    (h : ClientHandler)
    → IsValid h
    → IsValid (record (register_listener h.next_id h) { next_id = (h.next_id + 1) % 2 ^ 32 })
unfolding register_listener
registered-IsValid h v =
    let r = register_listener-IsValid h.next_id h v in
    record {
      next_id-IsU32 = omega arith;
      is_opened = r.is_opened;
      has_sender = r.has_sender;
      is_one_id = r.is_one_id;
    }

-- `send_msg` keeps the handler valid, also where the writer fails.
pub send_msg-IsValid :
    (sent : Outcome (Unit {0})) (msg : Message) (h : ClientHandler)
    → IsValid h
    → IsValid (send_msg sent msg h).1
unfolding send_msg
send_msg-IsValid (ok _) msg h v =
    let r = registered-IsValid h v in
    record {
      next_id-IsU32 = r.next_id-IsU32;
      is_opened = r.is_opened;
      has_sender = r.has_sender;
      is_one_id = r.is_one_id;
    }
send_msg-IsValid (err e) msg h v = drop_receiver-IsValid h.opened _ (registered-IsValid h v)
send_msg-IsValid panicked msg h v = drop_receiver-IsValid h.opened _ (registered-IsValid h v)
send_msg-IsValid blocked msg h v = registered-IsValid h v

-- What the call that sent a message gets, once `ms` have been read: the replies to its own id, and
-- then nothing, since the sender of its channel stays in the map.
pub send_msg-listener_of :
    (msg : Message) (h : ClientHandler) (ms : List (Option Message))
    → IsValid h
    → listener_of h.opened (receive_loop ms (send_msg (ok tt) msg h).1)
      ≡ record { messages = replies_to h.next_id ms; closes = false }
unfolding send_msg
send_msg-listener_of msg h ms v =
    let sent = (send_msg (ok tt) msg h).1 in
    let sent-IsValid : IsValid sent = send_msg-IsValid (ok tt) msg h v in
    let known : sent.reply_listeners h.next_id ≡ some h.opened = rw (==_refl h.next_id) in
    let waits : (sent.channels h.opened).receiver ≡ true = rw (==_refl h.opened) in
    let empty : (sent.channels h.opened).queue ≡ [] = rw (==_refl h.opened) in
    let got = receive_loop-queue ms sent h.next_id h.opened sent-IsValid known waits in
    let after-IsValid = receive_loop-IsValid ms sent sent-IsValid in
    let there =
      after-IsValid.has_sender h.next_id h.opened
        (receive_loop-Waits ms sent h.next_id h.opened sent-IsValid (known, waits)).0 in
    cc (got, empty, there)
