-- ===== src/Server/Clients/Exclusion.antt =====
-- What the sessions of other clients do while a client's task has the lock.
use azpfs.Base.{ℕ, arith, ◌&&◌, ◌==◌, ◌≡◌, ◌≢◌, refl, sym, ◌∙◌, false, Option}
use azpfs.Io.{Outcome}
use azpfs.Protocol.Message.{
  Message, error, init_req, init_res, lookup_res, file_attr_res, set_attr_req, success_res,
  stats_res, read_res,
}
use azpfs.Fs.Attr.{SystemTime}
use azpfs.Fs.Backend.{FsBackend}
use azpfs.Server.Handlers.{handle_msg, handle_set_attr, optional_time}
use azpfs.Server.Session.{
  Lock, free, stuck, sending, State, Step, takes_lock, is_ok, receive, begin_locked, begin_unlocked,
  send, send_quick, unlock, write, fail_to_write, stall,
}
use azpfs.Server.Clients.{Server, available, seen_by, session_of, put}

module _ (fs : FsBackend) where
  -- Without the lock, a task leaves the file system alone.
  set_attr-keeps :
      (id inode : ℕ) (size : Option ℕ) (at mt : Outcome (Option SystemTime)) (p u g : Option ℕ)
      (s : fs.State)
      → (is_ok at && is_ok mt) ≡ false
      → (handle_set_attr fs id inode size at mt p u g s).1 ≡ s
  unfolding handle_set_attr
  set_attr-keeps id inode size at mt p u g s e = ground arith

  takes_lock-keeps : (m : Message) (s : fs.State) → takes_lock m ≡ false → (handle_msg fs m s).1 ≡ s
  unfolding takes_lock handle_msg
  takes_lock-keeps (set_attr_req id inode size at mt p u g) s e =
      set_attr-keeps id inode size (optional_time at) (optional_time mt) p u g s e
  takes_lock-keeps (init_req id v) s e = refl
  takes_lock-keeps (error id c x) s e = refl
  takes_lock-keeps (init_res id b) s e = refl
  takes_lock-keeps (lookup_res id n) s e = refl
  takes_lock-keeps (file_attr_res id f s' b at mt ct p n u g r k) s e = refl
  takes_lock-keeps (success_res id) s e = refl
  takes_lock-keeps (stats_res id k b f a i j n g) s e = refl
  takes_lock-keeps (read_res id n o c) s e = refl
  takes_lock-keeps _ s e = cc

  -- Some steps of the sessions of clients other than `holder`.
  pub data OthersRun (holder : ℕ) (t : Server fs.State) : Server fs.State → Type 0 where
    nothing : OthersRun holder t t
    another :
        {u : Server fs.State}
        → OthersRun holder t u
        → (i : ℕ) {s : State fs} → (holder == i) ≡ false
        → Step fs (session_of i u) s
        → OthersRun holder t (put i s u)

  stuck_step-keeps : {s s' : State fs} → Step fs s s' → s.lock ≡ stuck → s'.fs ≡ s.fs
  stuck_step-keeps (receive e) k = refl
  stuck_step-keeps (begin_locked before m behind e l f) k = cc
  stuck_step-keeps {s} (begin_unlocked before m behind e l) k = takes_lock-keeps m s.fs l
  stuck_step-keeps (send before r behind e lt) k = refl
  stuck_step-keeps (send_quick before r behind e lt) k = refl
  stuck_step-keeps (unlock e) k = refl
  stuck_step-keeps (write e a) k = refl
  stuck_step-keeps (fail_to_write e a) k = refl
  stuck_step-keeps (stall e a) k = refl

  available-taken :
      (i holder : ℕ) (l : Lock) → l ≢ free → (holder == i) ≡ false → available i holder l ≡ false
  available-taken i holder free h e = absurd (h refl)
  available-taken i holder stuck h e = e
  available-taken i holder (sending replies) h e = e

  other_step-keeps :
      (t : Server fs.State) (i : ℕ) (s : State fs)
      → t.lock ≢ free
      → (t.holder == i) ≡ false
      → Step fs (session_of i t) s
      → ((put i s t).fs ≡ t.fs) × ((put i s t).lock ≡ t.lock) × ((put i s t).holder ≡ t.holder)
  unfolding put
  other_step-keeps t i s h e st =
      let taken = available-taken i t.holder t.lock h e in
      let hidden : seen_by i t.holder t.lock ≡ stuck = unfold seen_by in rw taken in
      (stuck_step-keeps st hidden, rw taken, rw taken)

  -- While a task of one client has the lock, whatever the sessions of the others do leaves the file
  -- system as it is and the lock with that task.
  pub lock_excludes_others :
      (t u : Server fs.State)
      → t.lock ≢ free
      → OthersRun t.holder t u
      → (u.fs ≡ t.fs) × (u.lock ≡ t.lock) × (u.holder ≡ t.holder)
  lock_excludes_others t u h nothing = (refl, refl, refl)
  lock_excludes_others t u h (another {u = u'} r i {s} e st) =
      let (same_fs, same_lock, same_holder) = lock_excludes_others t u' h r in
      let (f, l, k) = other_step-keeps u' i s (λ x. h (sym same_lock ∙ x)) (rw same_holder e) st in
      (f ∙ same_fs, l ∙ same_lock, k ∙ same_holder)
