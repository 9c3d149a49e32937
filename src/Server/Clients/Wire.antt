-- ===== src/Server/Clients/Wire.antt =====
-- The bytes that the server writes to each client, as the client decodes them.
use azpfs.Base.{
  ℕ, ◌==◌, Bool-cases, inl, inr, Option, none, some, List, [], ◌∷◌, ◌++◌, Bytes, All, All-perm,
  All-append, All-append_left, All-append_right, IsU32, arith,
}
use azpfs.Io.{Outcome, ok, err, panicked, blocked, OfValue}
use azpfs.Protocol.Message.{Message, request_id, AllSome, IsTyped}
use azpfs.Protocol.Read.WellFormed.{IsWellFormed}
use azpfs.Protocol.Stream.{encode_all, Decodes, encode_all-Decodes}
use azpfs.Fs.Backend.{FsBackend}
use azpfs.Server.Handlers.{handle_msg}
use azpfs.Server.Handlers.Sendable.{handle_msg-IsWellFormed}
use azpfs.Server.Handlers.Typed.{AnswersTyped}
use azpfs.Server.Session.{sent}
use azpfs.Server.Session.Effects.{messages, unsent}
use azpfs.Server.Clients.{Server, session_of, ServerReach}
use azpfs.Server.Clients.Put.{==-refl}
use azpfs.Server.Clients.Serial.{own_requests, state_after, own_replies}
use azpfs.Server.Clients.Runs.{Reach-IsSerial}

IsTyped-request_id : (m : Message) → IsTyped m → IsU32 (request_id m)
unfolding request_id
IsTyped-request_id m h = ground arith

sent-IsWellFormed :
    (r : Outcome (List Message)) → OfValue (All IsWellFormed) r → All IsWellFormed (sent r)
unfolding sent
sent-IsWellFormed (ok replies) h = h
sent-IsWellFormed (err e) h = tt
sent-IsWellFormed panicked h = tt
sent-IsWellFormed blocked h = tt

messages-IsWellFormed :
    (input : List (Option Message))
    → All (AllSome IsWellFormed) input
    → All IsWellFormed (messages input)
unfolding messages
messages-IsWellFormed [] h = tt
messages-IsWellFormed (none ∷ os) h = messages-IsWellFormed os h.1
messages-IsWellFormed (some m ∷ os) h = (h.0, messages-IsWellFormed os h.1)

-- The messages of all clients, without the clients.
abbrev AllMessages : (Message → Type 0) → List (ℕ × Message) → Type 0
AllMessages P = All λ x. P x.1

own_requests-tail :
    (P : Message → Type 0) (i j : ℕ) (m : Message) (hs : List (ℕ × Message))
    → All P (own_requests i ((j, m) ∷ hs))
    → All P (own_requests i hs)
unfolding own_requests
own_requests-tail P i j m hs h = elim (Bool-cases (i == j)) [
  | inl e ↦ (rw e at h).1
  | inr e ↦ rw e at h
]

-- What holds of each client's requests holds of all requests.
own_requests-All :
    (P : Message → Type 0) (hs : List (ℕ × Message))
    → ((i : ℕ) → All P (own_requests i hs))
    → AllMessages P hs
own_requests-All P [] h = tt
own_requests-All P ((j, m) ∷ hs) h =
    let own : All P (m ∷ own_requests j hs) = unfold own_requests in rw (==-refl j) at (h j) in
    (own.0, own_requests-All P hs λ i. own_requests-tail P i j m hs (h i))

module _ (fs : FsBackend) (Fine : fs.State → Type 0)
    (typed : (s : fs.State) → Fine s → AnswersTyped fs s)
    (kept : (m : Message) (s : fs.State)
      → IsWellFormed m
      → Fine s
      → Fine (handle_msg fs m s).1) where
  state_after-Fine :
      (hs : List (ℕ × Message)) (s₀ : fs.State)
      → AllMessages IsWellFormed hs
      → Fine s₀
      → Fine (state_after fs hs s₀)
  unfolding state_after
  state_after-Fine [] s₀ h f = f
  state_after-Fine ((j, m) ∷ earlier) s₀ h f =
      kept m (state_after fs earlier s₀) h.0 (state_after-Fine earlier s₀ h.1 f)

  own_replies-IsWellFormed :
      (i : ℕ) (hs : List (ℕ × Message)) (s₀ : fs.State)
      → AllMessages IsWellFormed hs
      → Fine s₀
      → All IsWellFormed (own_replies fs i hs s₀)
  unfolding own_replies
  own_replies-IsWellFormed i [] s₀ h f = tt
  own_replies-IsWellFormed i ((j, m) ∷ earlier) s₀ h f =
      let s = state_after fs earlier s₀ in
      let rest = own_replies-IsWellFormed i earlier s₀ h.1 f in
      elim (Bool-cases (i == j)) [
        | inl e ↦ rw e (
            All-append IsWellFormed (sent (handle_msg fs m s).0) (own_replies fs i earlier s₀)
              (sent-IsWellFormed (handle_msg fs m s).0 (
                handle_msg-IsWellFormed fs s (typed s (state_after-Fine earlier s₀ h.1 f)) m
                  (IsTyped-request_id m h.0.0)))
              rest)
        | inr e ↦ rw e rest
      ]

  -- If the file system stays in states in which it answers within the Rust types, with error texts shorter
  -- than 64 KiB, and the messages that arrive are well-formed, then at every moment, for every client, the bytes of the messages
  -- that were written to it decode to these messages, and leave the bytes that follow.
  pub written-Decodes :
      (inputs : ℕ → List (Option Message)) (s₀ : fs.State) (t : Server fs.State) (i : ℕ)
      (more : Bytes)
      → ((j : ℕ) → All (AllSome IsWellFormed) (inputs j))
      → Fine s₀
      → ServerReach fs inputs s₀ t
      → Decodes (encode_all (t.sessions i).written [] ++ more) (t.sessions i).written more
  written-Decodes inputs s₀ t i more h f r =
      let v = Reach-IsSerial fs r in
      let handled = own_requests-All IsWellFormed t.handled λ j.
        All-append_left IsWellFormed (own_requests j t.handled) _
          (All-perm IsWellFormed (v.requests j) (messages-IsWellFormed (inputs j) (h j))) in
      let s = session_of i t in
      let replies =
        All-perm IsWellFormed (v.replies i) (own_replies-IsWellFormed i t.handled s₀ handled f) in
      let behind_lock = All-append_right IsWellFormed (unsent s.lock) _ replies in
      let behind_quick = All-append_right IsWellFormed s.quick _ behind_lock in
      let behind_channel = All-append_right IsWellFormed s.channel _ behind_quick in
      encode_all-Decodes s.written more
        (All-append_left IsWellFormed s.written s.lost behind_channel)
