-- ===== src/Server/Clients/Serial.antt =====
-- The sessions of several clients beside their requests handled one after another.
use mathlib.Core.Path.{subst, ap₂}
use mathlib.Core.List.Permᴰ
use azpfs.Base.{
  ℕ, ◌==◌, ◌≡◌, refl, sym, ap, ◌∙◌, false, Option, List, [], ◌∷◌, ◌++◌, Permᴰ, out_right,
  if◌then◌else◌,
}
use azpfs.Protocol.Message.{Message}
use azpfs.Fs.Backend.{FsBackend}
use azpfs.Server.Handlers.{handle_msg}
use azpfs.Server.Session.{State, sent, Step}
use azpfs.Server.Session.Effects.{messages, requests_of, replies_of, moves, handles, Step-Effect}
use azpfs.Server.Clients.{Server, seen_by, session_of, put, start_server, ServerStep, steps}
use azpfs.Server.Clients.Put.{
  ==-refl, ==-false, begun-nothing, begun-one, by_client, requests-own, replies-own, requests-other,
  replies-other,
}

-- The requests of one client among those that were handled.
unfoldable pub own_requests : ℕ → List (ℕ × Message) → List Message
own_requests i [] = []
own_requests i ((j, m) ∷ earlier) =
    let rest = own_requests i earlier in if i == j then m ∷ rest else rest

module _ (fs : FsBackend) where
  -- The file system after all clients' requests, handled one after another, the last one first in the
  -- list.
  unfoldable pub state_after : List (ℕ × Message) → fs.State → fs.State
  state_after [] s₀ = s₀
  state_after ((j, m) ∷ earlier) s₀ = (handle_msg fs m (state_after earlier s₀)).1

  -- The replies to the requests of one client among them.
  unfoldable pub own_replies : ℕ → List (ℕ × Message) → fs.State → List Message
  own_replies i [] s₀ = []
  own_replies i ((j, m) ∷ earlier) s₀ =
      let rest = own_replies i earlier s₀ in
      if i == j then sent (handle_msg fs m (state_after earlier s₀)).0 ++ rest else rest

  pub record IsSerial (inputs : ℕ → List (Option Message)) (s₀ : fs.State) (t : Server fs.State)
      : Type 0 where
    pub state : t.fs ≡ state_after t.handled s₀
    pub requests :
        (i : ℕ)
        → Permᴰ (messages (inputs i)) (own_requests i t.handled ++ requests_of (session_of i t))
    pub replies : (i : ℕ) → Permᴰ (own_replies i t.handled s₀) (replies_of (session_of i t))

  -- The requests and the replies of a client, where `handled` was handled.
  abbrev Requests : (ℕ → List (Option Message)) → List (ℕ × Message) → ℕ → List Message → Type 0
  Requests inputs handled i waiting =
      Permᴰ (messages (inputs i)) (own_requests i handled ++ waiting)

  abbrev Replies : fs.State → List (ℕ × Message) → ℕ → List Message → Type 0
  Replies s₀ handled i replies = Permᴰ (own_replies i handled s₀) replies

  module _ {inputs : ℕ → List (Option Message)} {s₀ : fs.State} where
    pub start-IsSerial : IsSerial inputs s₀ (start_server inputs s₀)
    unfolding state_after own_requests own_replies seen_by
    start-IsSerial = record { state = refl; requests = λ i. Permᴰ.refl _; replies = λ i. Permᴰ.nil }

    -- After a step of the session `i` to `s`, with which `hs` was handled.
    put-IsSerial :
        (i : ℕ) (t : Server fs.State) (s : State fs) (hs : List (ℕ × Message))
        → Step fs (session_of i t) s
        → hs ≡ (put i s t).handled
        → s.fs ≡ state_after hs s₀
        → Requests inputs hs i (requests_of s)
        → Replies s₀ hs i (replies_of s)
        → ((j : ℕ)
            → (i == j) ≡ false
            → (own_requests j t.handled ≡ own_requests j hs)
              × (own_replies j t.handled s₀ ≡ own_replies j hs s₀))
        → IsSerial inputs s₀ t
        → IsSerial inputs s₀ (put i s t)
    put-IsSerial i t s hs st same f q p others v =
        let u = put i s t in
        record {
          state = unfold put in subst (λ l. s.fs ≡ state_after l s₀) same f;
          requests =
              subst (λ l. (j : ℕ) → Requests inputs l j (requests_of (session_of j u))) same
                (by_client (λ j. Requests inputs hs j (requests_of (session_of j u))) i
                  (subst (Requests inputs hs i) (sym (requests-own fs i t s)) q)
                  λ j e.
                    subst (Permᴰ (messages (inputs j)))
                      (ap₂ ◌++◌ (others j e).0 (sym (requests-other fs i j t s e))) (v.requests j));
          replies =
              subst (λ l. (j : ℕ) → Replies s₀ l j (replies_of (session_of j u))) same
                (by_client (λ j. Replies s₀ hs j (replies_of (session_of j u))) i
                  (subst (Replies s₀ hs i) (sym (replies-own fs i t s st)) p)
                  λ j e. subst (Replies s₀ hs j) (sym (replies-other fs i j t s e)) (
                    subst (λ l. Permᴰ l (replies_of (session_of j t))) (others j e).1
                      (v.replies j)));
        }

    pub Step-IsSerial :
        {t u : Server fs.State} → ServerStep fs t u → IsSerial inputs s₀ t → IsSerial inputs s₀ u
    unfolding own_requests own_replies state_after
    Step-IsSerial {t} (steps i {s} st) v = elim (Step-Effect fs st) [
      | moves h f q p ↦
          put-IsSerial i t s t.handled st
            (unfold put in rw (begun-nothing i (t.sessions i).history s.history h)) (f ∙ v.state)
            (Permᴰ.trans (v.requests i) (Permᴰ.append_left (own_requests i t.handled) q))
            (Permᴰ.trans (v.replies i) p) (λ j e. (refl, refl)) v
      | handles m h f q p ↦
          put-IsSerial i t s ((i, m) ∷ t.handled) st
            (unfold put in rw (begun-one i m (t.sessions i).history s.history h))
            (f ∙ ap (λ x. (handle_msg fs m x).1) v.state)
            (rw (==-refl i) (Permᴰ.trans (v.requests i) (out_right (own_requests i t.handled) q)))
            (rw (==-refl i, ← v.state)
              (Permᴰ.trans (Permᴰ.append_left (sent (handle_msg fs m t.fs).0) (v.replies i)) p))
            (λ j e. rw (==-false i j e) (refl, refl)) v
    ]
