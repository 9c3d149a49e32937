-- ===== src/Server/Session.antt =====
-- One client's session, `handle_client` of src/core/server/mod.rs, as steps of its tasks: the reader's
-- loop, a task for each message, which takes the lock on the file system, and the writer's task.
pub mod Effects
pub mod Runs
use azpfs.Base.{
  ℕ, ◌<◌, ◌≡◌, Bool, true, false, ◌&&◌, Option, none, some, List, [], ◌∷◌, ◌++◌, length,
}
use azpfs.Io.{Outcome, ok, err, panicked, blocked}
use azpfs.Protocol.Message.{
  Message, error, init_req, init_res, lookup_res, file_attr_res, set_attr_req, success_res,
  stats_res, read_res,
}
use azpfs.Fs.Attr.{SystemTime}
use azpfs.Fs.Backend.{FsBackend}
use azpfs.Server.Handlers.{handle_msg, optional_time}

-- `mpsc::channel(32)`
abbrev pub channel_capacity : ℕ
channel_capacity = 32

-- The lock on the file system. A task that has it sends its replies, one after another in any order,
-- before it gives it back; `stuck` is one that never does.
pub data Lock : Type 0 where
  free stuck : Lock
  sending : List Message → Lock

-- `incoming` is what the reader will yield, `waiting` the tasks that have not begun, `quick` the
-- replies of tasks that do without the lock, and `channel` what the writer's task has not received.
-- The reader yields one message after another until the connection ends. A message that cannot be written
-- is `lost`, and where the client reads no more the writer is `stalled`, without end. For what is said of
-- runs, `history` has the messages whose tasks have begun, the last one first.
pub record Session (S : Type 0) : Type 0 where
  pub incoming : List (Option Message)
  pub waiting : List Message
  pub lock : Lock
  pub fs : S
  pub quick : List Message
  pub channel : List Message
  pub stalled : Bool
  pub written : List Message
  pub lost : List Message
  pub history : List Message

abbrev pub start_session : {S : Type 0} → List (Option Message) → S → Session S
start_session incoming s = record {
  incoming = incoming;
  waiting = [];
  lock = free;
  fs = s;
  quick = [];
  channel = [];
  stalled = false;
  written = [];
  lost = [];
  history = [];
}

abbrev pub is_ok {ℓ} : {A : Type ℓ} → Outcome A → Bool
is_ok (ok a) = true
is_ok _ = false

-- Whether the task comes to `fs.lock().await`: for a SET_ATTR after its times are converted.
unfoldable pub takes_lock : Message → Bool
takes_lock (init_req _ _) = false
takes_lock (set_attr_req _ _ _ atime mtime _ _ _) =
    is_ok (optional_time atime) && is_ok (optional_time mtime)
takes_lock (error _ _ _) = false
takes_lock (init_res _ _) = false
takes_lock (lookup_res _ _) = false
takes_lock (file_attr_res _ _ _ _ _ _ _ _ _ _ _ _ _) = false
takes_lock (success_res _) = false
takes_lock (stats_res _ _ _ _ _ _ _ _ _) = false
takes_lock (read_res _ _ _ _) = false
takes_lock _ = true

-- A message that could not be decoded starts a task that ends at once.
unfoldable pub spawned : Option Message → List Message → List Message
spawned none tasks = tasks
spawned (some m) tasks = m ∷ tasks

-- What a task sends that came to `r`, and how it leaves the lock before it sends.
unfoldable pub sent : Outcome (List Message) → List Message
sent (ok replies) = replies
sent _ = []

unfoldable pub lock_after : Outcome (List Message) → Lock
lock_after (ok replies) = sending replies
lock_after (err e) = free
lock_after panicked = free
lock_after blocked = stuck

module _ (fs : FsBackend) where
  abbrev pub State : Type 0
  State = Session fs.State

  pub data Step (s : State) : State → Type 0 where
    receive :
        {o : Option Message} {rest : List (Option Message)}
        → s.incoming ≡ o ∷ rest
        → Step s (record s { incoming = rest; waiting = spawned o s.waiting })
    begin_locked :
        (before : List Message) (m : Message) (behind : List Message)
        → s.waiting ≡ before ++ (m ∷ behind)
        → takes_lock m ≡ true
        → s.lock ≡ free
        → Step s (record s {
          waiting = before ++ behind;
          lock = lock_after (handle_msg fs m s.fs).0;
          fs = (handle_msg fs m s.fs).1;
          history = m ∷ s.history;
        })
    begin_unlocked :
        (before : List Message) (m : Message) (behind : List Message)
        → s.waiting ≡ before ++ (m ∷ behind)
        → takes_lock m ≡ false
        → Step s (record s {
          waiting = before ++ behind;
          fs = (handle_msg fs m s.fs).1;
          quick = sent (handle_msg fs m s.fs).0 ++ s.quick;
          history = m ∷ s.history;
        })
    send :
        (before : List Message) (r : Message) (behind : List Message)
        → s.lock ≡ sending (before ++ (r ∷ behind))
        → length s.channel < channel_capacity
        → Step s (record s { lock = sending (before ++ behind); channel = s.channel ++ (r ∷ []) })
    send_quick :
        (before : List Message) (r : Message) (behind : List Message)
        → s.quick ≡ before ++ (r ∷ behind)
        → length s.channel < channel_capacity
        → Step s (record s { quick = before ++ behind; channel = s.channel ++ (r ∷ []) })
    unlock : s.lock ≡ sending [] → Step s (record s { lock = free })
    write :
        {r : Message} {rest : List Message}
        → s.channel ≡ r ∷ rest
        → s.stalled ≡ false
        → Step s (record s { channel = rest; written = s.written ++ (r ∷ []) })
    fail_to_write :
        {r : Message} {rest : List Message}
        → s.channel ≡ r ∷ rest
        → s.stalled ≡ false
        → Step s (record s { channel = rest; lost = r ∷ s.lost })
    stall :
        {r : Message} {rest : List Message}
        → s.channel ≡ r ∷ rest
        → s.stalled ≡ false
        → Step s (record s { stalled = true })
