-- ===== src/Server/Clients/Runs.antt =====
-- What a run of the server comes to for each client.
use mathlib.Core.List.Permᴰ
use azpfs.Base.{
  ℕ, ◌≡◌, ◌≢◌, ◌⊎◌, sym, ap, ◌∙◌, Bool-cases, false, inl, inr, Option, List, [], ◌++◌, Permᴰ,
}
use azpfs.Protocol.Message.{Message}
use azpfs.Fs.Backend.{FsBackend}
use azpfs.Server.Session.{free, stuck, Session}
use azpfs.Server.Session.Effects.{messages, unsent, requests_of, replies_of}
use azpfs.Server.Session.Runs.{IsFinished, session_goes_on}
use azpfs.Server.Clients.{
  Server, available, seen_by, session_of, put, ServerStep, steps, ServerReach, start, next,
}
use azpfs.Server.Clients.Serial.{
  own_requests, state_after, own_replies, IsSerial, start-IsSerial, Step-IsSerial,
}
use azpfs.Server.Clients.Put.{seen_by-own}

-- Nothing is left to do for this client. Another client may have the lock.
abbrev pub IsDone : {S : Type 0} → Session S → Type 0
IsDone s =
    (s.incoming ≡ []) × (s.waiting ≡ []) × (unsent s.lock ≡ []) × (s.quick ≡ []) × (s.channel ≡ [])

module _ (fs : FsBackend) where
  pub Reach-IsSerial :
      {inputs : ℕ → List (Option Message)} {s₀ : fs.State} {t : Server fs.State}
      → ServerReach fs inputs s₀ t
      → IsSerial fs inputs s₀ t
  Reach-IsSerial start = start-IsSerial fs
  Reach-IsSerial (next r st) = Step-IsSerial fs st (Reach-IsSerial r)

  -- However the sessions of several clients run side by side, there is at every moment one order of the
  -- requests of all clients whose tasks have begun, such that the file system is what these requests make
  -- of it one after another; that each client's messages are its requests of that order and those that
  -- still wait; and that the replies of that order to its requests are those that have gone to its own
  -- writer and those that are still on their way there.
  pub run-IsSerial :
      (inputs : ℕ → List (Option Message)) (s₀ : fs.State) (t : Server fs.State)
      → ServerReach fs inputs s₀ t
      → (t.fs ≡ state_after fs t.handled s₀)
        × ((i : ℕ)
            → Permᴰ (messages (inputs i)) (own_requests i t.handled ++ requests_of (session_of i t))
              × Permᴰ (own_replies fs i t.handled s₀) (replies_of (session_of i t)))
  run-IsSerial inputs s₀ t r =
      let v = Reach-IsSerial r in (v.state, λ i. (v.requests i, v.replies i))

  -- However the sessions of several clients run side by side, when one of the clients is done, the file
  -- system is what the requests whose tasks have begun make of it, handled one after another in one order
  -- for all clients; this client has had each of its requests handled once in that order, and each reply
  -- of that order to one of its requests has gone to its own writer, once, and no other reply.
  pub client_served :
      (inputs : ℕ → List (Option Message)) (s₀ : fs.State) (t : Server fs.State) (i : ℕ)
      → ServerReach fs inputs s₀ t
      → IsDone (session_of i t)
      → (t.fs ≡ state_after fs t.handled s₀)
        × Permᴰ (messages (inputs i)) (own_requests i t.handled)
        × Permᴰ (own_replies fs i t.handled s₀) ((t.sessions i).written ++ (t.sessions i).lost)
  unfolding messages
  client_served inputs s₀ t i r d =
      let v = Reach-IsSerial r in
      let requests : Permᴰ (messages (inputs i)) (own_requests i t.handled ++ []) =
        rw (d.0, d.1) at (v.requests i) in
      let replies : Permᴰ (own_replies fs i t.handled s₀)
          ((t.sessions i).written ++ (t.sessions i).lost) =
        rw (d.2, d.3, d.4) at (v.replies i) in
      (v.state, Permᴰ.trans requests (Permᴰ.append-nil (own_requests i t.handled)), replies)

  pub IsFinished-IsDone : (s : Session fs.State) → IsFinished s → IsDone s
  IsFinished-IsDone s f = (f.0, f.1, ap unsent f.2, f.3, f.4)

  -- The client whose task has the lock can go on.
  holder_goes_on :
      (t : Server fs.State)
      → t.lock ≢ stuck
      → t.lock ≢ free
      → (t.sessions t.holder).stalled ≡ false
      → (u : Server fs.State) × ServerStep fs t u
  holder_goes_on t h k a =
      let own = seen_by-own t.holder t.lock in
      elim (session_goes_on fs (session_of t.holder t) (λ e. h (sym own ∙ e)) a) [
        | inl f ↦ absurd (k (sym own ∙ f.2))
        | inr (s, st) ↦ (put t.holder s t, steps t.holder st)
      ]

  -- As long as a client is not done, the server can make a step, unless a task keeps the lock without end,
  -- or the writer to this client, or to the one whose task has the lock, waits without end because the
  -- client reads no more: the lock and a full channel alone do not stop the server.
  pub server_goes_on :
      (t : Server fs.State) (i : ℕ)
      → t.lock ≢ stuck
      → (t.sessions i).stalled ≡ false
      → (t.sessions t.holder).stalled ≡ false
      → IsDone (session_of i t) ⊎ ((u : Server fs.State) × ServerStep fs t u)
  unfolding seen_by
  server_goes_on t i h a b = elim (Bool-cases (available i t.holder t.lock)) [
    | inl e ↦ elim (session_goes_on fs (session_of i t) (rw e h) a) [
      | inl f ↦ inl (IsFinished-IsDone (session_of i t) f)
      | inr (s, st) ↦ inr (put i s t, steps i st)
    ]
    | inr e ↦ inr (holder_goes_on t h (λ f. cc) b)
  ]
