-- ===== src/Server/Session/Runs.antt =====
-- How a session goes on: some step is possible, and each step leaves less to do.
use azpfs.Base.{
  ℕ, suc, ◌+◌, ◌*◌, ◌<◌, ◌≡◌, ◌≢◌, ◌⊎◌, inl, inr, refl, ap, Bool, true, false, Bool-cases, Option,
  none, some, List, [], ◌∷◌, ◌++◌, length, length-append, arith,
}
use azpfs.Protocol.Message.{Message}
use azpfs.Fs.Backend.{FsBackend}
use azpfs.Server.Session.{
  Lock, free, stuck, sending, Session, State, spawned, takes_lock, Step, receive, begin_locked,
  begin_unlocked, send, send_quick, unlock, write, fail_to_write, stall,
}

-- Nothing is left to do.
abbrev pub IsFinished : {S : Type 0} → Session S → Type 0
IsFinished s =
    (s.incoming ≡ []) × (s.waiting ≡ []) × (s.lock ≡ free) × (s.quick ≡ []) × (s.channel ≡ [])

lengths :
    (before : List Message) (m : Message) (behind : List Message)
    → length (before ++ (m ∷ behind)) ≡ suc (length (before ++ behind))
lengths before m behind =
    omega (arith, length-append before (m ∷ behind), length-append before behind)

module _ (fs : FsBackend) where
  -- Some step is possible for a session, unless it has finished, a task keeps the lock without end, or its
  -- writer waits without end: the full channel and the lock do not block one another.
  pub session_goes_on :
      (s : State fs)
      → s.lock ≢ stuck
      → s.stalled ≡ false
      → IsFinished s ⊎ ((t : State fs) × Step fs s t)
  session_goes_on s h a =
      by_parts s.incoming s.channel s.lock s.quick s.waiting refl refl refl refl refl
    where
      by_parts :
          (i : List (Option Message)) (c : List Message) (l : Lock) (q w : List Message)
          → s.incoming ≡ i
          → s.channel ≡ c
          → s.lock ≡ l
          → s.quick ≡ q
          → s.waiting ≡ w
          → IsFinished s ⊎ ((t : State fs) × Step fs s t)
      by_parts (o ∷ i) c l q w ei ec el eq ew = inr (_, receive ei)
      by_parts [] (r ∷ c) l q w ei ec el eq ew = inr (_, write ec a)
      by_parts [] [] stuck q w ei ec el eq ew = absurd (h el)
      by_parts [] [] (sending []) q w ei ec el eq ew = inr (_, unlock el)
      by_parts [] [] (sending (r ∷ rs)) q w ei ec el eq ew =
          inr (_, send [] r rs el (rw ec (omega arith)))
      by_parts [] [] free (r ∷ q) w ei ec el eq ew =
          inr (_, send_quick [] r q eq (rw ec (omega arith)))
      by_parts [] [] free [] (m ∷ w) ei ec el eq ew = elim (Bool-cases (takes_lock m)) [
        | inl k ↦ inr (_, begin_locked [] m w ew k el)
        | inr k ↦ inr (_, begin_unlocked [] m w ew k)
      ]
      by_parts [] [] free [] [] ei ec el eq ew = inl (ei, ew, el, eq, ec)

  -- How much is to be begun, and how much is to be sent.
  abbrev pub to_begin : State fs → ℕ
  to_begin s = 2 * length s.incoming + length s.waiting

  abbrev pub lock_work : Lock → ℕ
  lock_work (sending rs) = suc (length rs)
  lock_work _ = 0

  abbrev pub can_stall : Bool → ℕ
  can_stall true = 0
  can_stall false = 1

  abbrev pub to_send : State fs → ℕ
  to_send s = 2 * (lock_work s.lock + length s.quick) + (length s.channel + can_stall s.stalled)

  pub Step-descends :
      {s t : State fs}
      → Step fs s t
      → (to_begin t < to_begin s) ⊎ ((to_begin t ≡ to_begin s) × (to_send t < to_send s))
  unfolding spawned
  Step-descends (receive {o = none} e) = inl (omega (arith, ap length e))
  Step-descends (receive {o = some m} e) = inl (omega (arith, ap length e))
  Step-descends (begin_locked before m behind e k f) =
      inl (omega (arith, ap length e, lengths before m behind))
  Step-descends (begin_unlocked before m behind e k) =
      inl (omega (arith, ap length e, lengths before m behind))
  Step-descends {s} (send before r behind e lt) = inr (
    refl,
    omega (arith, ap lock_work e, lengths before r behind, length-append s.channel (r ∷ [])),
  )
  Step-descends {s} (send_quick before r behind e lt) =
      inr (
        refl,
        omega (arith, ap length e, lengths before r behind, length-append s.channel (r ∷ [])),
      )
  Step-descends (unlock e) = inr (refl, omega (arith, ap lock_work e))
  Step-descends (write e a) = inr (refl, omega (arith, ap length e))
  Step-descends (fail_to_write e a) = inr (refl, omega (arith, ap length e))
  Step-descends (stall e a) = inr (refl, omega (arith, ap can_stall a))
