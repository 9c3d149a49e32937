-- ===== src/Server/Clients/Blocked.antt =====
-- Where the lock of src/server/main.rs on the file system is never given back.
use mathlib.Core.Path.{subst}
use azpfs.Base.{ℕ, ◌≡◌, ◌⊎◌, inl, inr, refl, sym, ap, ◌∙◌, Bool-cases, Option, List, [], ◌∷◌, ◌++◌}
use azpfs.Io.{Outcome, ok, err, panicked, blocked}
use azpfs.Protocol.Message.{Message}
use azpfs.Fs.Backend.{FsBackend}
use azpfs.Server.Handlers.{handle_msg}
use azpfs.Server.Session.{
  stuck, State, lock_after, Step, receive, begin_locked, begin_unlocked, send, send_quick, unlock,
  write, fail_to_write, stall,
}
use azpfs.Server.Clients.{
  Server, available, seen_by, session_of, put, steps, ServerReach, start, next,
}
use azpfs.Server.Clients.Put.{begun-one}
use azpfs.Server.Clients.Serial.{state_after}
use azpfs.Server.Clients.Runs.{Reach-IsSerial}

lock_after-eq_stuck : (r : Outcome (List Message)) → lock_after r ≡ stuck → r ≡ blocked
unfolding lock_after
lock_after-eq_stuck (ok replies) e = cc
lock_after-eq_stuck (err x) e = cc
lock_after-eq_stuck panicked e = cc
lock_after-eq_stuck blocked e = refl

module _ (fs : FsBackend) where
  -- The operation of the file system did not come back from one of these requests.
  pub data HasBlocked (s₀ : fs.State) : List (ℕ × Message) → Type 0 where
    here :
        {i : ℕ} {m : Message} {earlier : List (ℕ × Message)}
        → (handle_msg fs m (state_after fs earlier s₀)).0 ≡ blocked
        → HasBlocked s₀ ((i, m) ∷ earlier)
    there :
        {x : ℕ × Message} {earlier : List (ℕ × Message)}
        → HasBlocked s₀ earlier
        → HasBlocked s₀ (x ∷ earlier)

  behind :
      {s₀ : fs.State} (xs : List (ℕ × Message)) {earlier : List (ℕ × Message)}
      → HasBlocked s₀ earlier
      → HasBlocked s₀ (xs ++ earlier)
  behind [] h = h
  behind (x ∷ xs) h = there (behind xs h)

  -- The lock is kept without end from a request on that the file system does not come back from.
  Step-eq_stuck :
      {s t : State fs}
      → Step fs s t
      → t.lock ≡ stuck
      → (s.lock ≡ stuck)
        ⊎ ((m : Message) × (t.history ≡ m ∷ s.history) × ((handle_msg fs m s.fs).0 ≡ blocked))
  Step-eq_stuck (receive e) k = inl k
  Step-eq_stuck {s} (begin_locked before m rest e l f) k =
      inr (m, refl, lock_after-eq_stuck (handle_msg fs m s.fs).0 k)
  Step-eq_stuck (begin_unlocked before m rest e l) k = inl k
  Step-eq_stuck (send before r rest e lt) k = cc
  Step-eq_stuck (send_quick before r rest e lt) k = inl k
  Step-eq_stuck (unlock e) k = cc
  Step-eq_stuck (write e a) k = inl k
  Step-eq_stuck (fail_to_write e a) k = inl k
  Step-eq_stuck (stall e a) k = inl k

  put-HasBlocked :
      {s₀ : fs.State} (t : Server fs.State) (i : ℕ) (s : State fs)
      → Step fs (session_of i t) s
      → t.fs ≡ state_after fs t.handled s₀
      → (t.lock ≡ stuck → HasBlocked s₀ t.handled)
      → (put i s t).lock ≡ stuck
      → HasBlocked s₀ (put i s t).handled
  unfolding put
  put-HasBlocked {s₀} t i s st state h k = elim (Bool-cases (available i t.holder t.lock)) [
    | inr e ↦ let kept : t.lock ≡ stuck = rw e at k in behind _ (h kept)
    | inl e ↦
        let left : s.lock ≡ stuck = rw e at k in
        let seen : seen_by i t.holder t.lock ≡ t.lock = unfold seen_by in rw e in
        elim (Step-eq_stuck st left) [
          | inl x ↦ behind _ (h (sym seen ∙ x))
          | inr (m, hist, b) ↦
              subst (HasBlocked s₀)
                (sym
                  (ap (λ l. l ++ t.handled) (begun-one i m (t.sessions i).history s.history hist)))
                (here (ap (λ x. (handle_msg fs m x).0) (sym state) ∙ b))
        ]
  ]

  -- A lock that is never given back belongs to such a request.
  pub Reach-HasBlocked :
      {inputs : ℕ → List (Option Message)} {s₀ : fs.State} {t : Server fs.State}
      → ServerReach fs inputs s₀ t
      → t.lock ≡ stuck
      → HasBlocked s₀ t.handled
  Reach-HasBlocked start k = cc
  Reach-HasBlocked (next {t} r (steps i {s} st)) k =
      put-HasBlocked t i s st (Reach-IsSerial fs r).state (Reach-HasBlocked r) k
