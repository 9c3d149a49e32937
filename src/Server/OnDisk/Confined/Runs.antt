-- ===== src/Server/OnDisk/Confined/Runs.antt =====
-- The runs of the server of src/server/main.rs in a sandbox of the operating system.
use mathlib.Core.Path.{subst}
use azpfs.Base.{
  ℕ, ◌≡◌, sym, true, Bool, Option, some, List, ◌∷◌, ◌++◌, Bytes, All, All-append_left,
  All-append_right, All-perm, some, arith,
}
use azpfs.Protocol.Message.{Message}
use azpfs.Fs.Os.{Os}
use azpfs.Fs.Backend.{FsBackend}
use azpfs.Fs.Os.Sandbox.{sandboxed}
use azpfs.Fs.Paths.{parent}
use azpfs.Fs.Paths.Below.{is_below}
use azpfs.Fs.Paths.Below.Pushed.{is_below_refl, is_below-push}
use azpfs.Fs.Disk.{Fs, disk_fs}
use azpfs.Fs.Disk.Entries.{disk_backend}
use azpfs.Fs.Disk.Confined.{IsClosed, sandbox, StaysInside}
use azpfs.Server.Session.{
  Session, Step, lock_after, sent, receive, begin_locked, begin_unlocked, send, send_quick, unlock,
  write, fail_to_write, stall,
}
use azpfs.Server.Session.Effects.{messages, requests_of}
use azpfs.Server.Clients.{Server, session_of, put, steps, ServerReach, start, next}
use azpfs.Server.Clients.Serial.{own_requests}
use azpfs.Server.Clients.Runs.{Reach-IsSerial}
use azpfs.Server.OnDisk.Confined.{HasPlainNames, handle_msg-confined}

module _ {inside visible : Bytes → Bool} (closed : IsClosed inside visible) (os : Os) where
  abbrev fs : FsBackend
  fs = disk_backend os

  abbrev fs' : FsBackend
  fs' = disk_backend (sandbox closed os)

  -- A task that begins handles one of the messages that wait.
  one_of :
      (before : List Message) (m : Message) (behind : List Message) (s : Session (Fs os))
      → s.waiting ≡ before ++ (m ∷ behind)
      → All HasPlainNames s.waiting
      → HasPlainNames m
  one_of before m behind s e h =
      (All-append_right HasPlainNames before (m ∷ behind) (subst (All HasPlainNames) e h)).0

  -- A step of a session is one in the sandbox.
  Step-confined :
      {s t : Session (Fs os)}
      → Step fs s t
      → All HasPlainNames s.waiting
      → StaysInside closed os s.fs
      → Step fs' s t × StaysInside closed os t.fs
  Step-confined (receive e) h v = (receive e, v)
  Step-confined {s} (begin_locked before m behind e l f) h v =
      let (same, keeps) = handle_msg-confined closed os m s.fs (one_of before m behind s e h) v in
      (
        subst
            (λ q. Step fs' s (record s {
              waiting = before ++ behind;
              lock = lock_after q.0;
              fs = q.1;
              history = m ∷ s.history;
            }))
            (sym same) (begin_locked before m behind e l f),
        keeps,
      )
  Step-confined {s} (begin_unlocked before m behind e l) h v =
      let (same, keeps) = handle_msg-confined closed os m s.fs (one_of before m behind s e h) v in
      (
        subst
            (λ q. Step fs' s (record s {
              waiting = before ++ behind;
              fs = q.1;
              quick = sent q.0 ++ s.quick;
              history = m ∷ s.history;
            }))
            (sym same) (begin_unlocked before m behind e l),
        keeps,
      )
  Step-confined (send before r behind e lt) h v = (send before r behind e lt, v)
  Step-confined (send_quick before r behind e lt) h v = (send_quick before r behind e lt, v)
  Step-confined (unlock e) h v = (unlock e, v)
  Step-confined (write e a) h v = (write e a, v)
  Step-confined (fail_to_write e a) h v = (fail_to_write e a, v)
  Step-confined (stall e a) h v = (stall e a, v)

  -- A run of the server is one in the sandbox, if it starts with paths inside and gets plain names.
  Reach-confined :
      {inputs : ℕ → List (Option Message)} {s₀ : Fs os} {t : Server (Fs os)}
      → ((i : ℕ) → All HasPlainNames (messages (inputs i)))
      → StaysInside closed os s₀
      → ServerReach fs inputs s₀ t
      → ServerReach fs' inputs s₀ t × StaysInside closed os t.fs
  unfolding put
  Reach-confined plain v start = (start, v)
  Reach-confined plain v (next {t} r (steps i st)) =
      let (confined, keeps) = Reach-confined plain v r in
      let s = session_of i t in
      let waiting : All HasPlainNames s.waiting =
        All-append_left HasPlainNames s.waiting (messages s.incoming) (
          All-append_right HasPlainNames (own_requests i t.handled) (requests_of s)
            (All-perm HasPlainNames ((Reach-IsSerial fs r).requests i) (plain i))) in
      let (step, kept) = Step-confined st waiting keeps in (next confined (steps i step), kept)

-- If no name in a request has a slash or is `..`, then every run of the server over a directory is a run
-- over an operating system that panics where it is handed a path that is not, by its bytes, the
-- directory's or below it without a `..`: but the metadata of parents of such paths may be asked for.
pub server_confined :
    (os : Os) (root : Bytes) (visible : Bytes → Bool) (inputs : ℕ → List (Option Message))
    (d : os.State) (t : Server (Fs os))
    → ((path : Bytes) → is_below root path ≡ true → visible path ≡ true)
    → ((path up : Bytes) → is_below root path ≡ true → parent path ≡ some up → visible up ≡ true)
    → ((i : ℕ) → All HasPlainNames (messages (inputs i)))
    → ServerReach (disk_backend os) inputs (disk_fs root d) t
    → ServerReach (disk_backend (sandboxed (is_below root) visible os)) inputs (disk_fs root d) t
server_confined os root visible inputs d t itself above plain r =
    let closed : IsClosed (is_below root) visible = record {
      pushed = is_below-push root;
      itself = itself;
      above = above;
    } in
    (Reach-confined closed os plain (λ i path e. ground (arith, is_below_refl root)) r).0
