-- ===== src/Server/Clients/Completion.antt =====
-- Every run of the server of src/server/main.rs with a bound on its clients, to its end.
use mathlib.Core.Path.{subst}
use mathlib.Core.WellFounded.{Acc}
use azpfs.Base.{
  ℕ, zero, suc, ◌<◌, ◌≡◌, ◌≢◌, ◌⊎◌, inl, inr, refl, sym, ◌∙◌, true, false, Bool-cases, Option, List,
  ◌++◌, Permᴰ, arith, ◌==◌, ==→eq,
}
use azpfs.Protocol.Message.{Message}
use azpfs.Fs.Backend.{FsBackend}
use azpfs.Server.Session.{Lock, free, stuck, sending}
use azpfs.Server.Session.Effects.{messages}
use azpfs.Server.Session.Runs.{IsFinished, session_goes_on}
use azpfs.Server.Clients.{
  Server, available, seen_by, session_of, put, start_server, steps, ServerReach, start, next,
}
use azpfs.Server.Clients.Serial.{own_requests, state_after, own_replies}
use azpfs.Server.Clients.Put.{seen_by-own}
use azpfs.Server.Clients.Runs.{IsDone, IsFinished-IsDone, Reach-IsSerial, client_served}
use azpfs.Server.Clients.Blocked.{HasBlocked, Reach-HasBlocked}
use azpfs.Server.Clients.Ends.{StepBelow, steps_below, StepBelow-Acc}

is_stuck : (l : Lock) → (l ≡ stuck) ⊎ (l ≢ stuck)
is_stuck free = inr (λ e. cc)
is_stuck stuck = inl refl
is_stuck (sending replies) = inr (λ e. cc)

below_suc : (P : ℕ → Type 0) (m : ℕ) → ((i : ℕ) → i < m → P i) → P m → (i : ℕ) → i < suc m → P i
below_suc P m f g i lt = elim (Bool-cases (i == m)) [
  | inl e ↦ subst P (sym (==→eq i m e)) g
  | inr e ↦ f i (ground arith)
]

module _ (fs : FsBackend) (n : ℕ) (inputs : ℕ → List (Option Message)) (s₀ : fs.State) where
  -- All that the client `i` has sent is handled once, and each reply has gone to its writer, once.
  abbrev pub IsServed : ℕ → Server fs.State → Type 0
  IsServed i t =
      IsFinished (session_of i t)
      × Permᴰ (messages (inputs i)) (own_requests i t.handled)
      × Permᴰ (own_replies fs i t.handled s₀) ((t.sessions i).written ++ (t.sessions i).lost)

  -- A task keeps the lock without end in an operation that does not come back, or the writer to a client waits without end, or all is done.
  abbrev pub IsAtEnd : Server fs.State → Type 0
  IsAtEnd t =
      ((t.lock ≡ stuck) × HasBlocked fs s₀ t.handled)
      ⊎ (((i : ℕ) × (i < n) × ((t.sessions i).stalled ≡ true))
          ⊎ ((t.fs ≡ state_after fs t.handled s₀) × ((i : ℕ) → i < n → IsServed i t)))

  -- However the server goes on, it comes to an end, and it goes on until it is at one.
  pub data Completes : Server fs.State → Type 0 where
    completes :
        (t : Server fs.State)
        → IsAtEnd t ⊎ ((u : Server fs.State) × StepBelow fs n t u)
        → ((u : Server fs.State) → StepBelow fs n t u → Completes u)
        → Completes t

  done : (t : Server fs.State) (i : ℕ) → IsFinished (session_of i t) → IsDone (session_of i t)
  done t i f = IsFinished-IsDone fs (session_of i t) f

  -- A client that is not done, or the one whose task has the lock, can make a step.
  goes_on_below :
      (t : Server fs.State) (i : ℕ)
      → i < n
      → t.holder < n
      → t.lock ≢ stuck
      → (t.sessions i).stalled ≡ false
      → (t.sessions t.holder).stalled ≡ false
      → IsFinished (session_of i t) ⊎ ((u : Server fs.State) × StepBelow fs n t u)
  unfolding seen_by
  goes_on_below t i k kh h a b = elim (Bool-cases (available i t.holder t.lock)) [
    | inl e ↦ elim (session_goes_on fs (session_of i t) (rw e h) a) [
      | inl f ↦ inl f
      | inr (s, st) ↦ inr (put i s t, steps_below i k st)
    ]
    | inr e ↦
        let own = seen_by-own t.holder t.lock in
        elim (session_goes_on fs (session_of t.holder t) (λ x. h (sym own ∙ x)) b) [
          | inl f ↦
              let unlocked : t.lock ≡ free = sym own ∙ f.2 in
              let taken : t.lock ≢ free = λ x. cc in absurd (taken unlocked)
          | inr (s, st) ↦ inr (put t.holder s t, steps_below t.holder kh st)
        ]
  ]

  -- Of the first `m` clients one can make a step or its writer waits, or all are done.
  any_goes_on :
      (t : Server fs.State) (m : ℕ)
      → ((i : ℕ) → i < m → i < n)
      → t.holder < n
      → t.lock ≢ stuck
      → (t.sessions t.holder).stalled ≡ false
      → ((u : Server fs.State) × StepBelow fs n t u)
        ⊎ (((i : ℕ) × (i < n) × ((t.sessions i).stalled ≡ true))
            ⊎ ((i : ℕ) → i < m → IsFinished (session_of i t)))
  any_goes_on t zero k kh h b = inr (inr λ i lt. absurd (omega arith))
  any_goes_on t (suc m) k kh h b = elim (any_goes_on t m (λ i lt. k i (omega arith)) kh h b) [
    | inl st ↦ inl st
    | inr (inl w) ↦ inr (inl w)
    | inr (inr f) ↦ elim (Bool-cases (t.sessions m).stalled) [
      | inl a ↦ inr (inl (m, k m (omega arith), a))
      | inr a ↦ elim (goes_on_below t m (k m (omega arith)) kh h a b) [
        | inl g ↦ inr (inr (below_suc (λ i. IsFinished (session_of i t)) m f g))
        | inr st ↦ inl st
      ]
    ]
  ]

  end_or_step :
      (t : Server fs.State)
      → ServerReach fs inputs s₀ t
      → t.holder < n
      → IsAtEnd t ⊎ ((u : Server fs.State) × StepBelow fs n t u)
  end_or_step t r k = elim (is_stuck t.lock) [
    | inl e ↦ inl (inl (e, Reach-HasBlocked fs r e))
    | inr h ↦ elim (Bool-cases (t.sessions t.holder).stalled) [
      | inl a ↦ inl (inr (inl (t.holder, k, a)))
      | inr a ↦ elim (any_goes_on t n (λ i lt. lt) k h a) [
        | inl st ↦ inr st
        | inr (inl w) ↦ inl (inr (inl w))
        | inr (inr f) ↦ inl (
            inr (
              inr (
                (Reach-IsSerial fs r).state,
                λ i lt.
                    let served = client_served fs inputs s₀ t i r (done t i (f i lt)) in
                    (f i lt, served.1, served.2),
              )))
      ]
    ]
  ]

  holder-below : (t u : Server fs.State) → StepBelow fs n t u → t.holder < n → u.holder < n
  unfolding put
  holder-below t u (steps_below i {s} k st) h = elim (Bool-cases (available i t.holder t.lock)) [
    | inl e ↦ rw e k
    | inr e ↦ rw e h
  ]

  reach-below :
      (t u : Server fs.State)
      → StepBelow fs n t u
      → ServerReach fs inputs s₀ t
      → ServerReach fs inputs s₀ u
  reach-below t u (steps_below i k st) r = next r (steps i st)

  Reach-Completes :
      (t : Server fs.State)
      → Acc (λ u t. StepBelow fs n t u) t
      → ServerReach fs inputs s₀ t
      → t.holder < n
      → Completes t
  Reach-Completes t (Acc.intro _ below) r k =
      completes t (end_or_step t r k)
        λ u st. Reach-Completes u (below u st) (reach-below t u st r) (holder-below t u st k)

  -- If no more than some number of clients connect, and each of them sends finitely many messages, then
  -- the server does not go on without end, whatever the tasks of their sessions do next, and it can
  -- make a step until one of three things holds: the file system does not come back from a request that
  -- has begun, whose task keeps the lock; the writer to a client waits without end, because the client
  -- reads no more; or nothing is left to do, the lock is free, each message of each client has been
  -- handled once, the file system is what these requests make of it in one order, and the replies of
  -- that order have each gone to the writer of their client, once, and no others.
  pub server-Completes : 0 < n → Completes (start_server inputs s₀)
  server-Completes k = Reach-Completes (start_server inputs s₀) (StepBelow-Acc fs n _) start k
