-- ===== src/Client/Fuse/Locking.antt =====
-- The mutex of `FUSEFilesystem` in src/core/client/fuse.rs after a call that did not come to an end.
use azpfs.Base.{◌≡◌, ap, sym, ◌∙◌, arith, ◌⊎◌, inl, inr}
use azpfs.Io.{panicked, blocked}
use azpfs.Fs.Backend.{FsBackend}
use azpfs.Fs.Run.{Run}
use azpfs.Client.Fuse.{Reply, poisoned, held, FuseFilesystem, with_backend, answer_with, replying}
use azpfs.Client.Fuse.Operations.{
  Operation, looks_up, gets_attr, sets_attr, makes_dir, unlinks, removes_dir, renames, reads,
  writes, flushes, lists, creates, gives_stats, serve, fuse_lookup, getattr, setattr, mkdir, unlink,
  rmdir, fuse_rename, fuse_read, fuse_write, readdir, create, fuse_statfs,
}

-- A method that asks the backend, and so takes the lock.
pub record TakesLock {S : Type 0} (m : Run (FuseFilesystem S) Reply) : Type 0 where
  pub poisons : (t : FuseFilesystem S) → (m t).0 ≡ panicked → (m t).1.lock ≡ poisoned
  pub holds : (t : FuseFilesystem S) → (m t).0 ≡ blocked → (m t).1.lock ≡ held
  pub on_poisoned : (t : FuseFilesystem S) → t.lock ≡ poisoned → m t ≡ (panicked, t)
  pub on_held : (t : FuseFilesystem S) → t.lock ≡ held → m t ≡ (blocked, t)

replying-TakesLock {ℓ} :
    {S : Type 0} {A : Type ℓ} (make : A → Reply) (op : Run S A) → TakesLock (replying make op)
unfolding with_backend answer_with
replying-TakesLock make op = record {
  poisons = λ t h. ground arith;
  holds = λ t h. ground arith;
  on_poisoned = λ t h. ground arith;
  on_held = λ t h. ground arith;
}

-- Every call but `flush` takes the lock.
abbrev pub AsksBackend : Operation → Type 0
AsksBackend flushes = ⊥
AsksBackend op = Unit

module _ (fs : FsBackend) where
  serve-TakesLock : (op : Operation) → AsksBackend op → TakesLock (serve fs op)
  unfolding serve fuse_lookup getattr setattr mkdir unlink rmdir fuse_rename fuse_read fuse_write
      readdir create fuse_statfs
  serve-TakesLock flushes h = elim h [ ]
  serve-TakesLock (looks_up p n) h = replying-TakesLock _ _
  serve-TakesLock (gets_attr i) h = replying-TakesLock _ _
  serve-TakesLock (sets_attr ca cm i m u g z at mt) h = replying-TakesLock _ _
  serve-TakesLock (makes_dir p n m) h = replying-TakesLock _ _
  serve-TakesLock (unlinks p n) h = replying-TakesLock _ _
  serve-TakesLock (removes_dir p n) h = replying-TakesLock _ _
  serve-TakesLock (renames p n q o) h = replying-TakesLock _ _
  serve-TakesLock (reads i o z) h = replying-TakesLock _ _
  serve-TakesLock (writes i o b) h = replying-TakesLock _ _
  serve-TakesLock (lists full i o) h = replying-TakesLock _ _
  serve-TakesLock (creates p n m f) h = replying-TakesLock _ _
  serve-TakesLock gives_stats h = replying-TakesLock _ _

  -- After a call that panicked or hangs, every later call that asks the backend does the same, and the
  -- backend is left as it was.
  pub serve-after_fault :
      (op later : Operation) (t : FuseFilesystem fs.State)
      → AsksBackend op
      → AsksBackend later
      → ((serve fs op t).0 ≡ panicked) ⊎ ((serve fs op t).0 ≡ blocked)
      → serve fs later (serve fs op t).1 ≡ serve fs op t
  serve-after_fault op later t h k (inl e) =
      let first = serve-TakesLock op h in
      let then_on = serve-TakesLock later k in
      then_on.on_poisoned _ (first.poisons t e) ∙ ap (λ r. (r, (serve fs op t).1)) (sym e)
  serve-after_fault op later t h k (inr e) =
      let first = serve-TakesLock op h in
      let then_on = serve-TakesLock later k in
      then_on.on_held _ (first.holds t e) ∙ ap (λ r. (r, (serve fs op t).1)) (sym e)
