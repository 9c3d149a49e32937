-- ===== src/Remote/Mounted/Sequences.antt =====
-- Every call of the kernel, and every sequence of calls, over the network.
use mathlib.Core.Path.{ap₂}
use azpfs.Base.{◌≡◌, refl, List, [], ◌∷◌, map, All}
use azpfs.Fs.Backend.{FsBackend}
use azpfs.Client.Fuse.{FuseFilesystem}
use azpfs.Client.Fuse.Operations.{
  Operation, looks_up, gets_attr, sets_attr, makes_dir, unlinks, removes_dir, renames, reads,
  writes, flushes, lists, creates, gives_stats, serve, serve_all,
}
use azpfs.Remote.Mirror.{Mirror}
use azpfs.Remote.Mounted.{remote_outcome, remote_operation, IsSendable, Shows}
use azpfs.Remote.Mounted.Methods.{
  Mirrored, fuse_lookup-remote, mkdir-remote, create-remote, getattr-remote, setattr-remote,
  unlink-remote, rmdir-remote, fuse_rename-remote,
}
use azpfs.Remote.Mounted.Contents.{
  fuse_read-remote, fuse_write-remote, flush-remote, readdir-remote, fuse_statfs-remote,
}

module _ {fs mount : FsBackend} (mirror : Mirror fs mount) where
  serve-Mirrored :
      (op : Operation)
      → IsSendable op
      → Mirrored mirror (serve fs (remote_operation op)) (serve mount op)
  unfolding serve
  serve-Mirrored (looks_up p n) h = fuse_lookup-remote mirror p n h.0 h.1
  serve-Mirrored (gets_attr i) h = getattr-remote mirror i h
  serve-Mirrored (sets_attr ca cm i m u g z at mt) h = setattr-remote mirror ca cm i m u g z at mt h
  serve-Mirrored (makes_dir p n m) h = mkdir-remote mirror p n m h.0 h.1
  serve-Mirrored (unlinks p n) h = unlink-remote mirror p n h.0 h.1
  serve-Mirrored (removes_dir p n) h = rmdir-remote mirror p n h.0 h.1
  serve-Mirrored (renames p n q o) h = fuse_rename-remote mirror p n q o h
  serve-Mirrored (reads i o z) h = fuse_read-remote mirror i o z h
  serve-Mirrored (writes i o b) h = fuse_write-remote mirror i o b h
  serve-Mirrored flushes h = flush-remote mirror
  serve-Mirrored (lists full i o) h = readdir-remote mirror full i o h
  serve-Mirrored (creates p n m f) h = create-remote mirror p n m f h.0 h.1 h.2
  serve-Mirrored gives_stats h = fuse_statfs-remote mirror

  -- A sequence of calls to the front end over `mount` has the replies that it has over `fs`, as they
  -- are seen over the network, and leaves it showing the front end over `fs`.
  pub serve_all-Mirror :
      (ops : List Operation) (t : FuseFilesystem fs.State) (t' : FuseFilesystem mount.State)
      → All IsSendable ops
      → Shows mirror.IsFine mirror.state t t'
      → ((serve_all mount ops t').0
          ≡ map remote_outcome (serve_all fs (map remote_operation ops) t).0)
        × Shows mirror.IsFine mirror.state
            (serve_all fs (map remote_operation ops) t).1
            (serve_all mount ops t').1
  unfolding serve_all
  serve_all-Mirror [] t t' h shows = (refl, shows)
  serve_all-Mirror (op ∷ ops) t t' h shows =
      let (r, shows') = serve-Mirrored op h.0 t t' shows in
      let (rs, after) =
        serve_all-Mirror ops (serve fs (remote_operation op) t).1 (serve mount op t').1 h.1
          shows' in
      (ap₂ ◌∷◌ r rs, after)
