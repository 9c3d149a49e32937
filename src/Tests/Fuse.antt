-- ===== src/Tests/Fuse.antt =====
-- Theorems on src/core/client/fuse.rs at concrete inputs, over the directory of `Tests/Backend` and
-- the disk of `Tests/Disk`.
use azpfs.Base.{ℕ, ◌≡◌, refl, Bool, List, [], ◌∷◌, leb, length, inl}
use azpfs.Io.{ok, panicked}
use azpfs.Fs.Backend.{FsBackend}
use azpfs.Client.Fuse.{
  Listed, FuserFileType, listing, unsent, new_filesystem, with_backend, answer_with,
}
use azpfs.Client.Fuse.Operations.{gets_attr, lists, reads, serve, getattr, added_entry}
use azpfs.Client.Fuse.Listing.{numbered, readdir-listing, readdir-unsent}
use azpfs.Client.Fuse.Locking.{serve-after_fault}
use azpfs.Tests.Backend.{memory, missing}
use azpfs.Tests.Backend

-- A backend whose GET_ATTR panics.
abbrev broken : FsBackend
broken = record memory { get_attr = λ inode s. (panicked, s) }

-- A buffer for `n` entries.
abbrev pub room_for : ℕ → List Listed → Listed → Bool
room_for n added e = leb n (length added)

abbrev dot_entry : Listed
dot_entry = record { ino = 1; offset = 1; kind = FuserFileType.directory; name = b'.' ∷ [] }

abbrev a_entry : Listed
a_entry = record { ino = 2; offset = 2; kind = FuserFileType.regular_file; name = b'a' ∷ [] }

readdir-listing_example :
    serve memory (lists (room_for 9) 1 1) (new_filesystem [])
    ≡ (ok (listing (a_entry ∷ [])), new_filesystem [])
unfolding numbered added_entry
readdir-listing_example =
    readdir-listing memory (room_for 9) 1 1 [] [] Backend.listing refl (refl, tt)

readdir-unsent_example :
    serve memory (lists (room_for 1) 1 0) (new_filesystem [])
    ≡ (ok (unsent (dot_entry ∷ [])), new_filesystem [])
unfolding numbered added_entry
readdir-unsent_example =
    readdir-unsent memory (room_for 1) 1 0 [] [] Backend.listing refl (dot_entry ∷ []) a_entry []
      refl (refl, tt) refl

serve-after_fault_example :
    serve broken (reads 2 0 4) (serve broken (gets_attr 2) (new_filesystem [])).1
    ≡ serve broken (gets_attr 2) (new_filesystem [])
unfolding serve getattr with_backend answer_with
serve-after_fault_example =
    serve-after_fault broken (gets_attr 2) (reads 2 0 4) (new_filesystem []) tt tt (inl refl)
