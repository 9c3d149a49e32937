-- ===== src/Client/Replies.antt =====
-- Waiting for the replies to one request: `await_success`, `next_message`, `combine_read_chunks` and
-- the reply loops of `ClientHandler` in src/core/fs/handler.rs.
use azpfs.Base.{ℕ, Bool, true, false, Option, none, some, Bytes, List, [], ◌∷◌}
use azpfs.Io.{connection_reset, Outcome, ok, err, panicked, blocked, ◌>>=◌}
use azpfs.Protocol.Message.{Message, error, lookup_res, file_attr_res, success_res, stats_res}
use azpfs.Protocol.Errors.{try_from}
use azpfs.Fs.Attr.{FileAttr, FsStats, attr_from_message, stats_from_message}

-- What a listener will receive: the messages, in order, and whether the channel is closed behind
-- them. A channel that stays open and empty keeps its reader waiting.
pub record Listener : Type 0 where
  pub messages : List Message
  pub closes : Bool

-- "connection reset", the text of `ErrorKind::ConnectionReset`.
abbrev connection_reset_text : Bytes
connection_reset_text =
    b'c' ∷ b'o' ∷ b'n' ∷ b'n' ∷ b'e' ∷ b'c' ∷ b't' ∷ b'i' ∷ b'o' ∷ b'n' ∷ b' ' ∷ b'r' ∷ b'e' ∷ b's'
    ∷ b'e' ∷ b't' ∷ []

-- `recv` on an empty channel: `None`, which becomes `ErrorKind::ConnectionReset`, once all senders
-- are gone; before that it waits.
unfoldable pub drained {ℓ} : {A : Type ℓ} → Bool → Outcome A
drained true = err (record { kind = connection_reset; text = connection_reset_text })
drained false = blocked

-- `msg.try_into().unwrap()`
unfoldable pub unwrap_error {ℓ} : {A : Type ℓ} → Message → Outcome A
unfolding try_from
unwrap_error msg = elim (try_from msg) [ none ↦ panicked | some e ↦ err e ]

unfoldable pub await_success_loop : Bool → List Message → Outcome (Unit {0})
unfolding drained unwrap_error
await_success_loop closes [] = drained closes
await_success_loop closes (success_res id ∷ ms) = ok tt
await_success_loop closes (error id code text ∷ ms) = unwrap_error (error id code text)
await_success_loop closes (_ ∷ ms) = await_success_loop closes ms

unfoldable pub await_success : Listener → Outcome (Unit {0})
unfolding await_success_loop
await_success l = await_success_loop l.closes l.messages

-- `loop { match next_message(listener).await? { … } }`: an error ends it, a message that `accept`
-- takes gives the result, and any other is skipped.
unfoldable pub await_loop {ℓ} :
    {A : Type ℓ} → (Message → Option (Outcome A)) → Bool → List Message → Outcome A
unfolding drained unwrap_error
await_loop accept closes [] = drained closes
await_loop accept closes (error id code text ∷ ms) = unwrap_error (error id code text)
await_loop accept closes (m ∷ ms) = elim (accept m) [
  | none ↦ await_loop accept closes ms
  | some result ↦ result
]

abbrev accept_inode : Message → Option (Outcome ℕ)
accept_inode (lookup_res _ inode) = some (ok inode)
accept_inode _ = none

-- `Option::unwrap`
abbrev unwrap {ℓ} : {A : Type ℓ} → Option A → Outcome A
unwrap none = panicked
unwrap (some a) = ok a

abbrev accept_attr : Message → Option (Outcome FileAttr)
accept_attr (file_attr_res id ft s b at mt ct p n u g r k) =
    some (attr_from_message (file_attr_res id ft s b at mt ct p n u g r k) >>= unwrap)
accept_attr _ = none

abbrev accept_stats : Message → Option (Outcome FsStats)
accept_stats (stats_res id k b f a t i m g) =
    some (unwrap (stats_from_message (stats_res id k b f a t i m g)))
accept_stats _ = none

-- The loops of `lookup`, `create_file` and `create_dir`; of `get_attr`; of `stats`.
unfoldable pub await_inode : Listener → Outcome ℕ
unfolding await_loop
await_inode l = await_loop accept_inode l.closes l.messages

unfoldable pub await_attr : Listener → Outcome FileAttr
unfolding await_loop attr_from_message
await_attr l = await_loop accept_attr l.closes l.messages

unfoldable pub await_stats : Listener → Outcome FsStats
unfolding await_loop stats_from_message
await_stats l = await_loop accept_stats l.closes l.messages
