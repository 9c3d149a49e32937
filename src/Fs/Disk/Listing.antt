-- ===== src/Fs/Disk/Listing.antt =====
-- The parts of `read_dir` of src/core/fs/disk.rs that do not reach the disk.
use azpfs.Base.{ℕ, List, [], ◌∷◌, ◌++◌, Bytes}
use azpfs.Io.{Outcome, ok, err, ◌>>=◌, map_outcome}
use azpfs.Protocol.Codes.{directory}
use azpfs.Protocol.DirEntry.{DirEntry}
use azpfs.Fs.Os.{Metadata, StreamEntry}
use azpfs.Fs.Disk.{from_std}

-- `unwrap_or(inode)`: only an error is replaced.
abbrev pub inode_or : ℕ → Outcome Metadata → Outcome ℕ
inode_or inode (err _) = ok inode
inode_or inode r = map_outcome (λ m. m.ino) r

-- `entries.push(DirEntry { … })` for one entry of the stream
unfoldable pub listed : StreamEntry → Outcome DirEntry
unfolding from_std
listed e = e.file_type >>= from_std >>= λ t.
    ok (record { inode = e.ino; file_type = t; filename = e.file_name })

-- The `while` loop: the first error ends the call.
unfoldable pub read_stream : List (Outcome StreamEntry) → List DirEntry → Outcome (List DirEntry)
unfolding listed
read_stream [] entries = ok entries
read_stream (r ∷ rs) entries = r >>= listed >>= λ entry. read_stream rs (entries ++ (entry ∷ []))

abbrev pub directory_named : ℕ → Bytes → DirEntry
directory_named inode name = record { inode = inode; file_type = directory; filename = name }
