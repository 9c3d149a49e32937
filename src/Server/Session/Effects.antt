-- ===== src/Server/Session/Effects.antt =====
-- What a step of a session does to the requests that are to be handled and to the replies.
use mathlib.Core.List.Permᴰ
use azpfs.Base.{
  ◌≡◌, refl, Option, none, some, List, [], ◌∷◌, ◌++◌, append_assoc, Permᴰ, out_here, out_last,
  out_left, out_right, moved, append_swap,
}
use azpfs.Io.{Outcome, ok, err, panicked, blocked}
use azpfs.Protocol.Message.{Message}
use azpfs.Fs.Backend.{FsBackend}
use azpfs.Server.Handlers.{handle_msg}
use azpfs.Server.Session.{
  Lock, stuck, sending, Session, State, spawned, sent, lock_after, Step, receive, begin_locked,
  begin_unlocked, send, send_quick, unlock, write, fail_to_write, stall,
}

-- The messages of a stream, without what could not be decoded.
unfoldable pub messages : List (Option Message) → List Message
messages [] = []
messages (none ∷ os) = messages os
messages (some m ∷ os) = m ∷ messages os

abbrev pub unsent : Lock → List Message
unsent (sending replies) = replies
unsent _ = []

unsent-lock_after : (r : Outcome (List Message)) → unsent (lock_after r) ≡ sent r
unfolding lock_after sent
unsent-lock_after (ok replies) = refl
unsent-lock_after (err e) = refl
unsent-lock_after panicked = refl
unsent-lock_after blocked = refl

-- The requests whose tasks have not begun, and the replies of those that have.
abbrev pub requests_of : {S : Type 0} → Session S → List Message
requests_of s = s.waiting ++ messages s.incoming

abbrev pub replies_of : {S : Type 0} → Session S → List Message
replies_of s = unsent s.lock ++ (s.quick ++ (s.channel ++ (s.written ++ s.lost)))

module _ (fs : FsBackend) where
  -- Either the step moves requests and replies on, or one request is handled.
  pub data Effect (s t : State fs) : Type 0 where
    moves :
        t.history ≡ s.history
        → t.fs ≡ s.fs
        → Permᴰ (requests_of s) (requests_of t)
        → Permᴰ (replies_of s) (replies_of t)
        → Effect s t
    handles :
        (m : Message)
        → t.history ≡ m ∷ s.history
        → t.fs ≡ (handle_msg fs m s.fs).1
        → Permᴰ (requests_of s) (m ∷ requests_of t)
        → Permᴰ (sent (handle_msg fs m s.fs).0 ++ replies_of s) (replies_of t)
        → Effect s t

  abbrev behind_quick : State fs → List Message
  behind_quick s = s.channel ++ (s.written ++ s.lost)

  -- A task that begins is no longer among those that wait.
  begin-requests :
      (s : State fs) (before : List Message) (m : Message) (behind : List Message)
      → s.waiting ≡ before ++ (m ∷ behind)
      → Permᴰ (requests_of s) (m ∷ (before ++ behind) ++ messages s.incoming)
  begin-requests s before m behind e =
      rw e (out_left (messages s.incoming) (out_here m before behind))

  pub Step-Effect : {s t : State fs} → Step fs s t → Effect s t
  unfolding messages spawned
  Step-Effect {s} (receive {o = none} {rest} e) =
      moves refl refl (rw e (Permᴰ.refl _)) (Permᴰ.refl _)
  Step-Effect {s} (receive {o = some m} {rest} e) =
      moves refl refl (rw e (Permᴰ.middle m s.waiting (messages rest))) (Permᴰ.refl _)
  Step-Effect {s} (begin_locked before m behind e k f) =
      handles m refl refl (begin-requests s before m behind e)
        (rw (f, unsent-lock_after (handle_msg fs m s.fs).0) (Permᴰ.refl _))
  Step-Effect {s} (begin_unlocked before m behind e k) =
      let own = sent (handle_msg fs m s.fs).0 in
      handles m refl refl (begin-requests s before m behind e) (
        rw (append_assoc own s.quick (behind_quick s))
          (append_swap own (unsent s.lock) (s.quick ++ behind_quick s)))
  Step-Effect {s} (send before r behind e lt) = moves refl refl (Permᴰ.refl _) (
      rw e (
        moved (out_left (s.quick ++ behind_quick s) (out_here r before behind)) (
          out_right (before ++ behind)
            (out_right s.quick (out_left (s.written ++ s.lost) (out_last r s.channel))))))
  Step-Effect {s} (send_quick before r behind e lt) = moves refl refl (Permᴰ.refl _) (
      rw e (
        moved (out_right (unsent s.lock) (out_left (behind_quick s) (out_here r before behind))) (
          out_right (unsent s.lock) (
            out_right (before ++ behind) (out_left (s.written ++ s.lost) (out_last r s.channel))))))
  Step-Effect {s} (unlock e) = moves refl refl (Permᴰ.refl _) (rw e (Permᴰ.refl _))
  Step-Effect (stall e a) = moves refl refl (Permᴰ.refl _) (Permᴰ.refl _)
  Step-Effect {s} (write {r} {rest} e a) = moves refl refl (Permᴰ.refl _) (
      rw e (
        moved (out_right (unsent s.lock) (out_right s.quick (Permᴰ.refl _))) (
          out_right (unsent s.lock)
            (out_right s.quick (out_right rest (out_left s.lost (out_last r s.written)))))))
  Step-Effect {s} (fail_to_write {r} {rest} e a) = moves refl refl (Permᴰ.refl _) (
      rw e (
        moved (out_right (unsent s.lock) (out_right s.quick (Permᴰ.refl _))) (
          out_right (unsent s.lock)
            (out_right s.quick (out_right rest (out_right s.written (Permᴰ.refl _)))))))

  -- A task that keeps the lock without end goes on keeping it.
  pub Step-stuck : {s t : State fs} → Step fs s t → s.lock ≡ stuck → t.lock ≡ stuck
  Step-stuck (receive e) k = k
  Step-stuck (begin_locked before m behind e l f) k = cc
  Step-stuck (begin_unlocked before m behind e l) k = k
  Step-stuck (send before r behind e lt) k = cc
  Step-stuck (send_quick before r behind e lt) k = k
  Step-stuck (unlock e) k = cc
  Step-stuck (write e a) k = k
  Step-stuck (fail_to_write e a) k = k
  Step-stuck (stall e a) k = k
