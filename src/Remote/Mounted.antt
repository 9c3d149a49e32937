-- ===== src/Remote/Mounted.antt =====
-- The FUSE front end of src/core/client/fuse.rs over the client of src/core/fs/handler.rs, beside the
-- same front end over the server's file system itself.
pub mod Methods
pub mod Contents
pub mod Sequences
use mathlib.Core.Option
use azpfs.Base.{
  suc, ◌++◌, ℕ, ◌≡◌, refl, sym, ap, ◌∙◌, Bytes, List, [], ◌∷◌, Option, none, some, All, Permᴰ, drop,
  Bool, true, false, arith, ◌<◌, ◌^◌, length, IsByte, IsU32, IsU64,
}
use azpfs.Io.{
  Outcome, ok, err, panicked, blocked, OfValue, IoError, not_found, permission_denied,
  already_exists, invalid_input,
}
use azpfs.Protocol.Message.{Message, AllSome}
use azpfs.Protocol.Reader.{ReadError}
use azpfs.Protocol.Errors.{over_wire}
use azpfs.Protocol.DirEntry.{DirEntry, IsValid}
use azpfs.Fs.Attr.{SystemTime, InRange, FileAttr, FsStats, whole_seconds, in_seconds}
use azpfs.Fs.Backend.{FsBackend}
use azpfs.Fs.Run.{Run, continue, ◌>>=◌, pure}
use azpfs.Client.Fuse.{
  Listed, Errno, enoent, eacces, eexist, einval, eio, FuserAttr, Reply, entry, attr, done, error,
  content, written, listing, unsent, created, statfs, TimeOrNow, now, specific_time, Mutex, free,
  poisoned, held, FuseFilesystem, to_fuser_attr, io_to_errno, resolve_time, with_backend,
  answer_with, replying, ttl, left_by,
}
use azpfs.Client.Fuse.Operations
use azpfs.Client.Fuse.Operations.{
  Operation, looks_up, gets_attr, sets_attr, makes_dir, unlinks, removes_dir, renames, reads,
  writes, flushes, lists, creates, gives_stats, serve, add_entries, with_attr, reply_entry,
}
use azpfs.Remote.Seen.{seen}
use azpfs.Remote.Mirror.{Sees, IsName}

-- EACCES has no code on the wire.
abbrev pub remote_errno : Errno → Errno
remote_errno eacces = eio
remote_errno e = e

-- Times in whole seconds.
abbrev pub remote_attr : FuserAttr → FuserAttr
remote_attr a = record a {
  atime = whole_seconds a.atime;
  mtime = whole_seconds a.mtime;
  ctime = whole_seconds a.ctime;
}

-- A reply of the server's file system, as it is over the network.
unfoldable pub remote_reply : Reply → Reply
remote_reply (entry t a g) = entry t (remote_attr a) g
remote_reply (attr t a) = attr t (remote_attr a)
remote_reply (created t a g h f) = created t (remote_attr a) g h f
remote_reply (error e) = error (remote_errno e)
remote_reply done = done
remote_reply (content bytes) = content bytes
remote_reply (written n) = written n
remote_reply (listing es) = listing es
remote_reply (unsent es) = unsent es
remote_reply (statfs b f v i j z n r) = statfs b f v i j z n r

-- Where the server panics, the client waits.
unfoldable pub remote_outcome : Outcome Reply → Outcome Reply
unfolding remote_reply
remote_outcome (ok r) = ok (remote_reply r)
remote_outcome (err e) = err e
remote_outcome panicked = blocked
remote_outcome blocked = blocked

abbrev pub remote_lock : Mutex → Mutex
remote_lock free = free
remote_lock poisoned = held
remote_lock held = held

abbrev pub whole_time : TimeOrNow → TimeOrNow
whole_time now = now
whole_time (specific_time t) = specific_time (whole_seconds t)

-- The call that reaches the server's file system: times that are set are in whole seconds.
abbrev pub remote_operation : Operation → Operation
remote_operation (sets_attr ca cm i m u g z at mt) =
    sets_attr (whole_seconds ca) (whole_seconds cm) i m u g z (Option.map whole_time at)
      (Option.map whole_time mt)
remote_operation op = op

-- What a call of the kernel says can be said in requests: numbers lie within their Rust types, names have
-- at most 255 bytes, what is written less than 4 GiB, and times are in the range of `SystemTime`.
abbrev pub IsSendable : Operation → Type 0
IsSendable (looks_up p n) = IsU64 p × IsName n
IsSendable (gets_attr i) = IsU64 i
IsSendable (sets_attr ca cm i m u g z at mt) =
    IsU64 i
    × AllSome IsU64 z
    × AllSome InRange (resolve_time ca at)
    × AllSome InRange (resolve_time cm mt)
    × AllSome IsU32 u
    × AllSome IsU32 g
IsSendable (makes_dir p n m) = IsU64 p × IsName n
IsSendable (unlinks p n) = IsU64 p × IsName n
IsSendable (removes_dir p n) = IsU64 p × IsName n
IsSendable (renames p n q o) = IsU64 p × IsName n × IsU64 q × IsName o
IsSendable (reads i o z) = IsU64 i × IsU64 o × IsU64 z
IsSendable (writes i o b) = IsU64 i × IsU64 o × All IsByte b × (length b < 2 ^ 32)
IsSendable flushes = Unit
IsSendable (lists full i o) = IsU64 i
IsSendable (creates p n m f) = IsU64 p × IsName n × IsU32 f
IsSendable gives_stats = Unit

-- No error but EACCES changes its number on the wire.
pub errno-over_wire : (e : IoError) → io_to_errno (over_wire e) ≡ remote_errno (io_to_errno e)
unfolding io_to_errno over_wire
errno-over_wire e = ground arith

answer_with-seen {ℓ κ} :
    {A : Type ℓ} {B : Type κ} (v : A → B) (make : A → Reply) (make' : B → Reply) (r : Outcome A)
    → ((a : A) → make' (v a) ≡ remote_reply (make a))
    → answer_with make' (seen v r) ≡ remote_outcome (answer_with make r)
unfolding answer_with remote_outcome
answer_with-seen v make make' (ok a) h = ap ok (h a)
answer_with-seen v make make' (err e) h =
    unfold remote_reply in ap (λ n. ok (error n)) (errno-over_wire e)
answer_with-seen v make make' panicked h = refl
answer_with-seen v make make' blocked h = refl

left_by-seen {ℓ κ} :
    {A : Type ℓ} {B : Type κ} (v : A → B) (r : Outcome A)
    → left_by (seen v r) ≡ remote_lock (left_by r)
left_by-seen v (ok a) = refl
left_by-seen v (err e) = refl
left_by-seen v panicked = refl
left_by-seen v blocked = refl

module _ {S T : Type 0} (IsFine : T → Type 0) (state : T → S) where
  -- The front end with the state `t'` shows the one with the state `t`.
  abbrev pub Shows : FuseFilesystem S → FuseFilesystem T → Type 0
  Shows t t' = (t'.lock ≡ remote_lock t.lock) × (state t'.backend ≡ t.backend) × IsFine t'.backend

  -- A method over the network gives what it gives on the server, as it is seen over the network, and
  -- does the same behind.
  abbrev pub Mirrors : Run (FuseFilesystem S) Reply → Run (FuseFilesystem T) Reply → Type 0
  Mirrors m m' =
      (t : FuseFilesystem S) (t' : FuseFilesystem T)
      → Shows t t'
      → ((m' t').0 ≡ remote_outcome (m t).0) × Shows (m t).1 (m' t').1

  under_lock {ℓ κ} :
      {A : Type ℓ} {B : Type κ} (v : A → B) (make : A → Reply) (make' : B → Reply) (m : Run S A)
      (m' : Run T B)
      → Sees IsFine state v m m'
      → ((a : A) → make' (v a) ≡ remote_reply (make a))
      → (l : Mutex) (l' : Mutex) (s : S) (b : T)
      → Shows (record { lock = l; backend = s }) (record { lock = l'; backend = b })
      → ((replying make' m' (record { lock = l'; backend = b })).0
          ≡ remote_outcome (replying make m (record { lock = l; backend = s })).0)
        × Shows
            (replying make m (record { lock = l; backend = s })).1
            (replying make' m' (record { lock = l'; backend = b })).1
  unfolding with_backend
  under_lock v make make' m m' h k free l' s b (e, q, g) =
      let (r, p, g') = h b g in
      rw (e, ← q, r)
        (answer_with-seen v make make' (m (state b)).0 k, (left_by-seen v (m (state b)).0, p, g'))
  under_lock v make make' m m' h k poisoned l' s b (e, q, g) =
      rw e (unfold answer_with remote_outcome in (refl, (refl, q, g)))
  under_lock v make make' m m' h k held l' s b (e, q, g) =
      rw e (unfold answer_with remote_outcome in (refl, (refl, q, g)))

  pub replying-Mirrors {ℓ κ} :
      {A : Type ℓ} {B : Type κ} (v : A → B) (make : A → Reply) (make' : B → Reply) (m : Run S A)
      (m' : Run T B)
      → Sees IsFine state v m m'
      → ((a : A) → make' (v a) ≡ remote_reply (make a))
      → Mirrors (replying make m) (replying make' m')
  replying-Mirrors v make make' m m' h k t t' shows =
      under_lock v make make' m m' h k t.lock t'.lock t.backend t'.backend shows
