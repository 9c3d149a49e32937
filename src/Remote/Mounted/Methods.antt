-- ===== src/Remote/Mounted/Methods.antt =====
-- The methods of src/core/client/fuse.rs over the network, those on names and attributes.
use mathlib.Core.Option
use azpfs.Base.{ℕ, ◌%◌, ◌^◌, ◌≡◌, refl, Bytes, Option, none, some, arith, IsU16, IsU32, IsU64}
use azpfs.Io.{OfValue}
use azpfs.Protocol.Message.{AllSome}
use azpfs.Fs.Attr.{SystemTime, InRange, FileAttr, whole_seconds, in_seconds}
use azpfs.Fs.Backend.{FsBackend}
use azpfs.Fs.Run.{Run, ◌>>=◌}
use azpfs.Client.Fuse
use azpfs.Client.Fuse.{
  Reply, FuseFilesystem, Listed, TimeOrNow, now, specific_time, to_fuser_attr, resolve_time,
}
use azpfs.Client.Fuse.Operations.{
  sets_attr, renames, with_attr, reply_entry, fuse_lookup, getattr, setattr, mkdir, unlink, rmdir,
  fuse_rename, create,
}
use azpfs.Remote.Mirror.{Sees, >>=-Sees, >>=-Sees_any, Mirror, IsName}
use azpfs.Remote.Mounted.{remote_reply, whole_time, Mirrors, replying-Mirrors, IsSendable}

resolve_time-whole_seconds :
    (clock : SystemTime) (t : Option TimeOrNow)
    → resolve_time (whole_seconds clock) (Option.map whole_time t)
      ≡ Option.map whole_seconds (resolve_time clock t)
unfolding resolve_time
resolve_time-whole_seconds clock none = refl
resolve_time-whole_seconds clock (some now) = refl
resolve_time-whole_seconds clock (some (specific_time t)) = refl

module _ {fs mount : FsBackend} (mirror : Mirror fs mount) where
  abbrev Seen {ℓ κ} :
      {A : Type ℓ} {B : Type κ} → (A → B) → Run fs.State A → Run mount.State B → Type κ
  Seen = Sees mirror.IsFine mirror.state

  abbrev pub Mirrored :
      Run (FuseFilesystem fs.State) Reply → Run (FuseFilesystem mount.State) Reply → Type 0
  Mirrored = Mirrors mirror.IsFine mirror.state

  pub replying {ℓ κ} :
      {A : Type ℓ} {B : Type κ} (v : A → B) (make : A → Reply) (make' : B → Reply)
      (m : Run fs.State A) (m' : Run mount.State B)
      → Seen v m m'
      → ((a : A) → make' (v a) ≡ remote_reply (make a))
      → Mirrored (Fuse.replying make m) (Fuse.replying make' m')
  replying = replying-Mirrors mirror.IsFine mirror.state

  abbrev with_times : ℕ × FileAttr → ℕ × FileAttr
  with_times (ino, a) = (ino, in_seconds a)

  with_attr-Sees : (ino : ℕ) → IsU64 ino → Seen with_times (with_attr fs ino) (with_attr mount ino)
  with_attr-Sees ino i =
      >>=-Sees_any mirror.IsFine mirror.state in_seconds with_times (fs.get_attr ino)
        (mount.get_attr ino) _ _ (mirror.get_attr ino i) (λ a t g. (refl, refl, g))

  reply_entry-remote :
      (r : ℕ × FileAttr) → reply_entry mount (with_times r) ≡ remote_reply (reply_entry fs r)
  unfolding to_fuser_attr in_seconds remote_reply
  reply_entry-remote r = refl

  -- The first of two operations gives inodes that a request can say.
  abbrev GivesU64 : Run fs.State ℕ → Type 0
  GivesU64 m = (t : mount.State) → mirror.IsFine t → OfValue IsU64 (m (mirror.state t)).0

  -- A call that finds an inode and then asks for its attributes.
  and_attr-Sees :
      (m : Run fs.State ℕ) (m' : Run mount.State ℕ)
      → Seen (λ x. x) m m'
      → GivesU64 m
      → Seen with_times (m >>= with_attr fs) (m' >>= with_attr mount)
  and_attr-Sees m m' h p =
      >>=-Sees mirror.IsFine mirror.state (λ x. x) with_times IsU64 m m' _ _ h p with_attr-Sees

  pub fuse_lookup-remote :
      (p : ℕ) (n : Bytes)
      → IsU64 p
      → IsName n
      → Mirrored (fuse_lookup fs p n) (fuse_lookup mount p n)
  unfolding fuse_lookup
  fuse_lookup-remote p n h k =
      replying with_times (reply_entry fs) (reply_entry mount) _ _
        (and_attr-Sees (fs.lookup p n) (mount.lookup p n) (mirror.lookup p n h k)
          (mirror.found p n))
        reply_entry-remote

  mode-IsU16 : (m : ℕ) → IsU16 (m % 2 ^ 16)
  mode-IsU16 m = omega arith

  pub mkdir-remote :
      (p : ℕ) (n : Bytes) (m : ℕ)
      → IsU64 p
      → IsName n
      → Mirrored (mkdir fs p n m) (mkdir mount p n m)
  unfolding mkdir
  mkdir-remote p n m h k =
      replying with_times (reply_entry fs) (reply_entry mount) _ _
        (and_attr-Sees (fs.create_dir p _ n) (mount.create_dir p _ n)
          (mirror.create_dir p _ n h (mode-IsU16 m) k) (mirror.made_dir p _ n))
        reply_entry-remote

  pub create-remote :
      (p : ℕ) (n : Bytes) (m f : ℕ)
      → IsU64 p
      → IsName n
      → IsU32 f
      → Mirrored (create fs p n m f) (create mount p n m f)
  unfolding create to_fuser_attr in_seconds remote_reply
  create-remote p n m f h k l =
      replying with_times _ _ _ _
        (and_attr-Sees (fs.create_file p _ f n) (mount.create_file p _ f n)
          (mirror.create_file p _ f n h (mode-IsU16 m) l k) (mirror.made_file p _ f n))
        (λ r. refl)

  pub getattr-remote : (i : ℕ) → IsU64 i → Mirrored (getattr fs i) (getattr mount i)
  unfolding getattr to_fuser_attr in_seconds remote_reply
  getattr-remote i h = replying in_seconds _ _ _ _ (mirror.get_attr i h) (λ a. refl)

  set_attr-Sees :
      (ca cm : SystemTime) (i : ℕ) (m u g z : Option ℕ) (at mt : Option TimeOrNow)
      → IsU64 i
      → AllSome IsU64 z
      → AllSome InRange (resolve_time ca at)
      → AllSome InRange (resolve_time cm mt)
      → AllSome IsU16 m
      → AllSome IsU32 u
      → AllSome IsU32 g
      → Seen
          (λ x. x)
          (fs.set_attr i z
            (resolve_time (whole_seconds ca) (Option.map whole_time at))
            (resolve_time (whole_seconds cm) (Option.map whole_time mt))
            m
            u
            g)
          (mount.set_attr i z (resolve_time ca at) (resolve_time cm mt) m u g)
  set_attr-Sees ca cm i m u g z at mt hi hz h k hm hu hg =
      rw (resolve_time-whole_seconds ca at, resolve_time-whole_seconds cm mt)
        (mirror.set_attr i z (resolve_time ca at) (resolve_time cm mt) m u g hi hz h k hm hu hg)

  modes : (m : Option ℕ) → AllSome IsU16 (Option.map (λ m. m % 2 ^ 16) m)
  modes none = tt
  modes (some m) = mode-IsU16 m

  pub setattr-remote :
      (ca cm : SystemTime) (i : ℕ) (m u g z : Option ℕ) (at mt : Option TimeOrNow)
      → IsSendable (sets_attr ca cm i m u g z at mt)
      → Mirrored
          (setattr fs
            (whole_seconds ca)
            (whole_seconds cm)
            i
            m
            u
            g
            z
            (Option.map whole_time at)
            (Option.map whole_time mt))
          (setattr mount ca cm i m u g z at mt)
  unfolding setattr to_fuser_attr in_seconds remote_reply
  setattr-remote ca cm i m u g z at mt (hi, hz, h, k, hu, hg) =
      let before =
        set_attr-Sees ca cm i (Option.map (λ m. m % 2 ^ 16) m) u g z at mt hi hz h k (modes m) hu
          hg in
      replying in_seconds _ _ _ _
        (>>=-Sees_any mirror.IsFine mirror.state (λ x. x) in_seconds
          (fs.set_attr i z (resolve_time (whole_seconds ca) (Option.map whole_time at))
            (resolve_time (whole_seconds cm) (Option.map whole_time mt))
            (Option.map (λ m. m % 2 ^ 16) m) u g)
          (mount.set_attr i z (resolve_time ca at) (resolve_time cm mt)
            (Option.map (λ m. m % 2 ^ 16) m) u g)
          (λ _. fs.get_attr i) (λ _. mount.get_attr i) before (λ _. mirror.get_attr i hi))
        (λ a. refl)

  -- A call on the inode that a name leads to.
  found-Sees :
      (p : ℕ) (n : Bytes) (f : ℕ → Run fs.State (Unit {0})) (f' : ℕ → Run mount.State (Unit {0}))
      → IsU64 p
      → IsName n
      → ((i : ℕ) → IsU64 i → Seen (λ x. x) (f i) (f' i))
      → Seen (λ x. x) (fs.lookup p n >>= f) (mount.lookup p n >>= f')
  found-Sees p n f f' h k e =
      >>=-Sees mirror.IsFine mirror.state (λ x. x) (λ x. x) IsU64 (fs.lookup p n) (mount.lookup p n)
        f f' (mirror.lookup p n h k) (mirror.found p n) e

  pub unlink-remote :
      (p : ℕ) (n : Bytes) → IsU64 p → IsName n → Mirrored (unlink fs p n) (unlink mount p n)
  unfolding unlink remote_reply
  unlink-remote p n h k =
      replying (λ x. x) _ _ _ _ (found-Sees p n fs.remove mount.remove h k mirror.remove)
        (λ a. refl)

  pub rmdir-remote :
      (p : ℕ) (n : Bytes) → IsU64 p → IsName n → Mirrored (rmdir fs p n) (rmdir mount p n)
  unfolding rmdir remote_reply
  rmdir-remote p n h k =
      replying (λ x. x) _ _ _ _ (found-Sees p n fs.remove mount.remove h k mirror.remove)
        (λ a. refl)

  pub fuse_rename-remote :
      (p : ℕ) (n : Bytes) (q : ℕ) (o : Bytes)
      → IsSendable (renames p n q o)
      → Mirrored (fuse_rename fs p n q o) (fuse_rename mount p n q o)
  unfolding fuse_rename remote_reply
  fuse_rename-remote p n q o (h, k, l, j) =
      replying (λ x. x) _ _ _ _
        (found-Sees p n (λ i. fs.rename i q o) (λ i. mount.rename i q o) h k
          λ i e. mirror.rename i q o e l j)
        (λ a. refl)
