-- ===== src/Remote/Served.antt =====
-- A call of src/core/fs/handler.rs to the server of src/server/main.rs, which serves other clients beside.
use mathlib.Core.Path.{subst, ap₂}
use mathlib.Core.List.Permᴰ
use azpfs.Base.{
  ℕ, ◌==◌, ◌≡◌, refl, sym, ap, ◌∙◌, true, false, Bool-cases, inl, inr, Option, List, [], ◌∷◌, ◌++◌,
  All, Permᴰ, perm_singleton, out_here, append-nil, ==→eq, ==_refl,
}
use azpfs.Io.{Outcome, ok, err, panicked, blocked, OfValue}
use azpfs.Protocol.Message.{Message, request_id, set_request_id}
use azpfs.Fs.Backend.{FsBackend}
use azpfs.Server.Handlers.{handle_msg}
use azpfs.Server.Handlers.Replies.{handle_msg-request_id}
use azpfs.Server.Session.{sent}
use azpfs.Server.Session.Effects.{messages}
use azpfs.Server.Clients.{Server, session_of, ServerReach}
use azpfs.Server.Clients.Serial.{own_requests, state_after, own_replies}
use azpfs.Server.Clients.Runs.{IsDone, client_served}
use azpfs.Client.Calls.{Call}
use azpfs.Client.Connection.{ClientHandler, send_msg, receive_loop, listener_of}
use azpfs.Client.Connection.Routing.{IsValid, replies_to, send_msg-listener_of}
use azpfs.Client.Connection.About.{
  about, about-append, about-perm, about-All, IsSilentOn, about-silent,
}
use azpfs.Remote.{perform}
use azpfs.Remote.Link.Calls.{Rearranges, sent-All, request_id-set_request_id, reply-rearranged}

All-map :
    {P Q : Message → Type 0} (ms : List Message) → ((m : Message) → P m → Q m) → All P ms → All Q ms
All-map [] f h = tt
All-map (m ∷ ms) f h = (f m h.0, All-map ms f h.1)

OfValue-map :
    {P Q : Message → Type 0} (r : Outcome (List Message))
    → ((m : Message) → P m → Q m)
    → OfValue (All P) r
    → OfValue (All Q) r
OfValue-map (ok ms) f h = All-map ms f h
OfValue-map (err e) f h = tt
OfValue-map panicked f h = tt
OfValue-map blocked f h = tt

module _ (fs : FsBackend) (i id : ℕ) where
  -- The replies to a request about which one asks, and those to another.
  replies-about :
      (m : Message) (s : fs.State)
      → (request_id m == id) ≡ true
      → about id (sent (handle_msg fs m s).0) ≡ sent (handle_msg fs m s).0
  replies-about m s e =
      let r = (handle_msg fs m s).0 in
      about-All id (sent r) (
        sent-All (λ x. request_id x ≡ id) r
          (subst (λ k. OfValue (All λ x. request_id x ≡ k) r) (==→eq (request_id m) id e)
            (handle_msg-request_id fs m s)))

  replies-silent :
      (m : Message) (s : fs.State)
      → (request_id m == id) ≡ false
      → about id (sent (handle_msg fs m s).0) ≡ []
  replies-silent m s e =
      let r = (handle_msg fs m s).0 in
      about-silent id (sent r) (
        sent-All (λ x. (request_id x == id) ≡ false) r
          (OfValue-map r (λ x k. rw k e) (handle_msg-request_id fs m s)))

  -- Without a request about `id` there are no replies about it.
  unasked :
      (hs : List (ℕ × Message)) (s₀ : fs.State)
      → about id (own_requests i hs) ≡ []
      → about id (own_replies fs i hs s₀) ≡ []
  unfolding own_requests own_replies about
  unasked [] s₀ e = refl
  unasked ((j, m) ∷ hs) s₀ e = elim (Bool-cases (i == j)) [
    | inr other ↦ rw other (unasked hs s₀ (rw other at e))
    | inl own ↦ elim (Bool-cases (request_id m == id)) [
      | inl asked ↦ cc
      | inr k ↦
          let s = state_after fs hs s₀ in
          let rest : about id (own_requests i hs) ≡ [] = rw (own, k) at e in
          rw own (
            about-append id (sent (handle_msg fs m s).0) (own_replies fs i hs s₀)
            ∙ rw (replies-silent m s k) (unasked hs s₀ rest))
    ]
  ]

  -- The one request about `id` among those that were handled, and the replies to it.
  found :
      (m : Message) (hs : List (ℕ × Message)) (s₀ : fs.State)
      → about id (own_requests i hs) ≡ m ∷ []
      → (later earlier : List (ℕ × Message)) × (hs ≡ later ++ ((i, m) ∷ earlier))
        × (about id (own_replies fs i hs s₀) ≡ sent (handle_msg fs m (state_after fs earlier s₀)).0)
  unfolding own_requests own_replies about
  found m [] s₀ e = cc
  found m ((j, x) ∷ hs) s₀ e = elim (Bool-cases (i == j)) [
    | inr other ↦
        let (later, earlier, split, same) = found m hs s₀ (rw other at e) in
        ((j, x) ∷ later, earlier, ap (λ l. (j, x) ∷ l) split, rw other same)
    | inl own ↦
        let s = state_after fs hs s₀ in
        let both = about-append id (sent (handle_msg fs x s).0) (own_replies fs i hs s₀) in
        elim (Bool-cases (request_id x == id)) [
          | inr k ↦
              let (later, earlier, split, same) = found m hs s₀ (rw (own, k) at e) in
              (
                (j, x) ∷ later,
                earlier,
                ap (λ l. (j, x) ∷ l) split,
                rw own (both ∙ rw (replies-silent x s k) same),
              )
          | inl asked ↦
              let here : x ∷ about id (own_requests i hs) ≡ m ∷ [] = rw (own, asked) at e in
              let it : x ≡ m = cc in
              let rest : about id (own_requests i hs) ≡ [] = cc in
              (
                [],
                hs,
                ap₂ (λ k y. (k, y) ∷ hs) (sym (==→eq i j own)) it,
                rw own (
                    both
                    ∙ rw (replies-about x s asked, unasked hs s₀ rest, append-nil)
                        (ap (λ y. sent (handle_msg fs y s).0) it)),
              )
        ]
  ]

about-one :
    (id : ℕ) (m : Message) (ms : List Message)
    → request_id m ≡ id
    → IsSilentOn id ms
    → about id (m ∷ ms) ≡ m ∷ []
unfolding about
about-one id m ms e h =
    let same : (request_id m == id) ≡ true = rw e (==_refl id) in rw (same, about-silent id ms h)

-- A call among those of other clients. If the request has an id of its own among those that its
-- client sends, the server is done with this client and has lost no message to it, and the client
-- reads what was written to it about this id, then there is a place in the one order in which the
-- server has handled all clients' requests, at which the call gives what it gives alone against the
-- file system as the requests before that place have left it, by some order of the replies.
pub call_served {ℓ} :
    {A : Type ℓ} (fs : FsBackend) (inputs : ℕ → List (Option Message)) (s₀ : fs.State)
    (t : Server fs.State) (i : ℕ) (call : Call A) (h : ClientHandler) (ms : List (Option Message))
    (before behind : List Message)
    → ServerReach fs inputs s₀ t
    → IsDone (session_of i t)
    → (t.sessions i).lost ≡ []
    → messages (inputs i) ≡ before ++ (set_request_id h.next_id call.request ∷ behind)
    → IsSilentOn h.next_id (before ++ behind)
    → IsValid h
    → replies_to h.next_id ms ≡ about h.next_id (t.sessions i).written
    → (later earlier : List (ℕ × Message)) × (t.handled
        ≡ later ++ ((i, set_request_id h.next_id call.request) ∷ earlier))
      × (order : List Message → List Message) × Rearranges order
      × (call.reply (listener_of h.opened (receive_loop ms (send_msg (ok tt) call.request h).1))
          ≡ (perform fs order h.next_id call (state_after fs earlier s₀)).0)
call_served fs inputs s₀ t i call h ms before behind r done kept asks silent v reads =
    let id = h.next_id in
    let m = set_request_id id call.request in
    let (_, requests, replies) = client_served fs inputs s₀ t i r done in
    let asked : Permᴰ (messages (inputs i)) (m ∷ (before ++ behind)) =
      rw asks (out_here m before behind) in
    let alone : about id (m ∷ (before ++ behind)) ≡ m ∷ [] =
      about-one id m (before ++ behind) (request_id-set_request_id id call.request) silent in
    let only : about id (own_requests i t.handled) ≡ m ∷ [] =
      perm_singleton m (about id (own_requests i t.handled)) (
        subst (λ l. Permᴰ l (about id (own_requests i t.handled))) alone
          (about-perm id (Permᴰ.trans (Permᴰ.symm asked) requests))) in
    let (later, earlier, split, same) = found fs i id m t.handled s₀ only in
    let arrived : Permᴰ (sent (handle_msg fs m (state_after fs earlier s₀)).0) (replies_to id ms) =
      rw (← same, reads)
        (about-perm id (
          subst (λ l. Permᴰ (own_replies fs i t.handled s₀) l)
            (ap (λ l. (t.sessions i).written ++ l) kept ∙ append-nil (t.sessions i).written)
            replies)) in
    let (order, arrives, result) =
      reply-rearranged fs call id (state_after fs earlier s₀) (replies_to id ms) arrived in
    (
      later,
      earlier,
      split,
      order,
      arrives,
      ap call.reply (send_msg-listener_of call.request h ms v) ∙ result,
    )
