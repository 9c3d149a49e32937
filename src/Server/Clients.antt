-- ===== src/Server/Clients.antt =====
-- The server of src/server/main.rs: a session of src/core/server/mod.rs for each client that connects,
-- all with one file system behind one lock.
pub mod Put
pub mod Serial
pub mod Runs
pub mod Exclusion
pub mod Ends
pub mod Blocked
pub mod Completion
pub mod Wire
use azpfs.Base.{
  ℕ, ◌-◌, ◌==◌, ◌||◌, Bool, true, false, Option, List, [], ◌++◌, length, take, map, if◌then◌else◌,
}
use azpfs.Protocol.Message.{Message}
use azpfs.Fs.Backend.{FsBackend}
use azpfs.Server.Session.{Lock, free, stuck, Session, State, Step, start_session}

-- The clients by number. What a session has of its own is in `sessions`; its fields `lock` and `fs` are
-- not looked at there, since both are shared. A lock that is not free belongs to a task of `holder`.
-- For what is said of runs, `handled` has the messages whose tasks have begun, with their clients, the
-- last one first.
pub record Server (S : Type 0) : Type 0 where
  pub sessions : ℕ → Session S
  pub holder : ℕ
  pub lock : Lock
  pub fs : S
  pub handled : List (ℕ × Message)

abbrev pub is_free : Lock → Bool
is_free free = true
is_free _ = false

-- Whether no other client's task has the lock.
abbrev pub available : (i holder : ℕ) → Lock → Bool
available i holder l = is_free l || (holder == i)

-- The lock as the tasks of the client `i` see it: one that another client has is not theirs to take.
unfoldable pub seen_by : (i holder : ℕ) → Lock → Lock
seen_by i holder l = if available i holder l then l else stuck

-- The session of a client, with the file system and the lock.
abbrev pub session_of : {S : Type 0} → ℕ → Server S → Session S
session_of i t = record (t.sessions i) { lock = seen_by i t.holder t.lock; fs = t.fs }

unfoldable pub replaced : {A : Type 0} → ℕ → A → (ℕ → A) → ℕ → A
replaced i a f j = if i == j then a else f j

-- The messages that a client's session has begun since its history was `earlier`.
unfoldable pub begun : (i : ℕ) (earlier now : List Message) → List (ℕ × Message)
begun i earlier now = map (λ m. (i, m)) (take (length now - length earlier) now)

-- The server when the session of the client `i` has come to `s`.
unfoldable pub put : {S : Type 0} → ℕ → Session S → Server S → Server S
put i s t = record {
  sessions = replaced i s t.sessions;
  holder = if available i t.holder t.lock then i else t.holder;
  lock = if available i t.holder t.lock then s.lock else t.lock;
  fs = s.fs;
  handled = begun i (t.sessions i).history s.history ++ t.handled;
}

-- The server before anyone has sent anything: `inputs` are the messages that each client will send.
abbrev pub start_server : {S : Type 0} → (ℕ → List (Option Message)) → S → Server S
start_server inputs s = record {
  sessions = λ i. start_session (inputs i) s;
  holder = 0;
  lock = free;
  fs = s;
  handled = [];
}

module _ (fs : FsBackend) where
  -- A step of some client's session.
  pub data ServerStep (t : Server fs.State) : Server fs.State → Type 0 where
    steps : (i : ℕ) {s : State fs} → Step fs (session_of i t) s → ServerStep t (put i s t)

  pub data ServerReach (inputs : ℕ → List (Option Message)) (s₀ : fs.State)
      : Server fs.State → Type 0 where
    start : ServerReach inputs s₀ (start_server inputs s₀)
    next :
        {t u : Server fs.State} → ServerReach inputs s₀ t → ServerStep t u → ServerReach inputs s₀ u
