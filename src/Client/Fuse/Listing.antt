-- ===== src/Client/Fuse/Listing.antt =====
-- `readdir` of src/core/client/fuse.rs: which entries it adds, with which offsets, and how it replies.
use azpfs.Base.{
  ℕ, zero, suc, ◌+◌, ◌≡◌, refl, sym, ap, ◌∙◌, Bool, true, false, List, [], ◌∷◌, ◌++◌, append_assoc,
  append-nil, drop,
}
use mathlib.Core.Path.{subst}
use native.Mathlib.Nat.{add-zero, add-suc, suc-add, zero-add}
use azpfs.Io.{ok}
use azpfs.Protocol.DirEntry.{DirEntry}
use azpfs.Fs.Backend.{FsBackend}
use azpfs.Client.Fuse.{
  Listed, fuser_type_of, listing, unsent, FuseFilesystem, free, with_backend, answer_with,
}
use azpfs.Client.Fuse.Operations.{added_entry, add_entries, readdir, lists, serve}

-- All entries, numbered from `i` on, each with the number of the one behind it.
unfoldable pub numbered : ℕ → List DirEntry → List Listed
numbered i [] = []
numbered i (e ∷ es) =
    (record { ino = e.inode; offset = i + 1; kind = fuser_type_of e.file_type; name = e.filename })
    ∷ numbered (suc i) es

-- The buffer takes all these entries, after those that were added before.
abbrev pub TakesAll : (List Listed → Listed → Bool) → List Listed → List Listed → Type 0
TakesAll full added [] = Unit
TakesAll full added (x ∷ xs) = (full added x ≡ false) × TakesAll full (added ++ (x ∷ [])) xs

drop-numbered :
    (n i : ℕ) (es : List DirEntry) → numbered (i + n) (drop n es) ≡ drop n (numbered i es)
unfolding numbered
drop-numbered zero i es = rw add-zero
drop-numbered (suc n) i [] = refl
drop-numbered (suc n) i (e ∷ es) = rw (add-suc, ← suc-add) (drop-numbered n (suc i) es)

add_entries-listing :
    (full : List Listed → Listed → Bool) (i : ℕ) (added : List Listed) (es : List DirEntry)
    → TakesAll full added (numbered i es)
    → add_entries full i added es ≡ listing (added ++ numbered i es)
unfolding add_entries numbered added_entry
add_entries-listing full i added [] h = ap listing (sym (append-nil added))
add_entries-listing full i added (e ∷ es) h = rw h.0 (
    add_entries-listing full (suc i) (added ++ (added_entry i e ∷ [])) es h.1
    ∙ ap listing (append_assoc added (added_entry i e ∷ []) (numbered (suc i) es)))

add_entries-unsent :
    (full : List Listed → Listed → Bool) (i : ℕ) (added : List Listed) (es : List DirEntry)
    (xs : List Listed) (x : Listed) (ys : List Listed)
    → numbered i es ≡ xs ++ (x ∷ ys)
    → TakesAll full added xs
    → full (added ++ xs) x ≡ true
    → add_entries full i added es ≡ unsent (added ++ xs)
unfolding add_entries numbered added_entry
add_entries-unsent full i added [] [] x ys e h k = cc
add_entries-unsent full i added [] (z ∷ xs) x ys e h k = cc
add_entries-unsent full i added (d ∷ es) [] x ys e h k =
    let first : added_entry i d ≡ x = cc in
    let refused : full added (added_entry i d) ≡ true = cc (append-nil added) in
    rw (refused, append-nil added)
add_entries-unsent full i added (d ∷ es) (z ∷ xs) x ys e h k =
    let first : z ≡ added_entry i d = cc in
    let rest : numbered (suc i) es ≡ xs ++ (x ∷ ys) = cc in
    let taken : full added (added_entry i d) ≡ false = rw (sym first) h.0 in
    let regroup : (added ++ (added_entry i d ∷ [])) ++ xs ≡ added ++ (z ∷ xs) =
      append_assoc added (added_entry i d ∷ []) xs ∙ ap (λ y. added ++ (y ∷ xs)) (sym first) in
    rw taken (
      add_entries-unsent full (suc i) (added ++ (added_entry i d ∷ [])) es xs x ys rest
        (subst (λ y. TakesAll full (added ++ (y ∷ [])) xs) first h.1)
        (ap (λ l. full l x) regroup ∙ k)
      ∙ ap unsent regroup)

module _ (fs : FsBackend) (full : List Listed → Listed → Bool) (ino offset : ℕ) (s s' : fs.State)
    (es : List DirEntry) (found : fs.read_dir ino s ≡ (ok es, s')) where
  abbrev before : FuseFilesystem fs.State
  before = record { lock = free; backend = s }

  abbrev after : FuseFilesystem fs.State
  after = record { lock = free; backend = s' }

  from_offset : numbered offset (drop offset es) ≡ drop offset (numbered 0 es)
  from_offset = rw zero-add at (drop-numbered offset 0 es)

  -- A `readdir` that the buffer takes whole lists the directory's entries in their order, without the
  -- first `offset` of them, each with the offset that leads to the entry behind it.
  pub readdir-listing :
      TakesAll full [] (drop offset (numbered 0 es))
      → serve fs (lists full ino offset) before
        ≡ (ok (listing (drop offset (numbered 0 es))), after)
  unfolding serve readdir with_backend answer_with
  readdir-listing h = rw (
    found,
    add_entries-listing full offset [] (drop offset es)
        (subst (TakesAll full []) (sym from_offset) h),
    from_offset,
  )

  -- If the buffer is full before the last entry, then `readdir` gives no reply.
  pub readdir-unsent :
      (xs : List Listed) (x : Listed) (ys : List Listed)
      → drop offset (numbered 0 es) ≡ xs ++ (x ∷ ys)
      → TakesAll full [] xs
      → full xs x ≡ true
      → serve fs (lists full ino offset) before ≡ (ok (unsent xs), after)
  unfolding serve readdir with_backend answer_with
  readdir-unsent xs x ys e h k =
      rw (found, add_entries-unsent full offset [] (drop offset es) xs x ys (from_offset ∙ e) h k)
