-- ===== src/Remote/Mounted/Contents.antt =====
-- The methods of src/core/client/fuse.rs over the network, those on what files and directories hold.
use azpfs.Base.{ℕ, suc, ◌++◌, ◌≡◌, refl, Bytes, List, [], ◌∷◌, drop, Bool, arith, IsU64}
use azpfs.Fs.Backend.{FsBackend}
use azpfs.Protocol.DirEntry.{DirEntry}
use azpfs.Client.Fuse.{Listed}
use azpfs.Client.Fuse.Operations.{
  reads, writes, add_entries, added_entry, fuse_read, fuse_write, flush, readdir, fuse_statfs,
}
use azpfs.Remote.Mirror.{Mirror}
use azpfs.Remote.Mounted.{remote_reply, remote_outcome, IsSendable}
use azpfs.Remote.Mounted.Methods
use azpfs.Remote.Mounted.Methods.{Mirrored}

add_entries-remote :
    (full : List Listed → Listed → Bool) (i : ℕ) (added : List Listed) (es : List DirEntry)
    → add_entries full i added es ≡ remote_reply (add_entries full i added es)
unfolding add_entries remote_reply
add_entries-remote full i added [] = refl
add_entries-remote full i added (e ∷ es) =
    ground (arith, add_entries-remote full (suc i) (added ++ (added_entry i e ∷ [])) es)

module _ {fs mount : FsBackend} (mirror : Mirror fs mount) where
  pub fuse_read-remote :
      (i o z : ℕ)
      → IsSendable (reads i o z)
      → Mirrored mirror (fuse_read fs i o z) (fuse_read mount i o z)
  unfolding fuse_read remote_reply
  fuse_read-remote i o z h =
      Methods.replying mirror (λ x. x) _ _ _ _ (mirror.read i o z h.0 h.1 h.2) (λ a. refl)

  pub fuse_write-remote :
      (i o : ℕ) (b : Bytes)
      → IsSendable (writes i o b)
      → Mirrored mirror (fuse_write fs i o b) (fuse_write mount i o b)
  unfolding fuse_write remote_reply
  fuse_write-remote i o b h =
      Methods.replying mirror (λ x. x) _ _ _ _ (mirror.write i o b h.0 h.1 h.2 h.3) (λ a. refl)

  pub flush-remote : Mirrored mirror (flush fs) (flush mount)
  unfolding flush remote_outcome
  flush-remote t t' shows = (refl, shows)

  pub readdir-remote :
      (full : List Listed → Listed → Bool) (i o : ℕ)
      → IsU64 i
      → Mirrored mirror (readdir fs full i o) (readdir mount full i o)
  unfolding readdir
  readdir-remote full i o h =
      Methods.replying mirror (λ x. x) _ _ _ _ (mirror.read_dir i h)
        (λ es. add_entries-remote full o [] (drop o es))

  pub fuse_statfs-remote : Mirrored mirror (fuse_statfs fs) (fuse_statfs mount)
  unfolding fuse_statfs remote_reply
  fuse_statfs-remote = Methods.replying mirror (λ x. x) _ _ _ _ mirror.stats (λ a. refl)
