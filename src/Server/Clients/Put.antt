-- ===== src/Server/Clients/Put.antt =====
-- What `put` leaves of the session that made a step, and of the others.
use mathlib.Core.Path.{subst, ap₂}
use azpfs.Base.{
  ℕ, ◌-◌, ◌==◌, ◌≡◌, refl, sym, ap, ◌∙◌, true, false, Bool-cases, inl, inr, List, [], ◌∷◌, ◌++◌,
  length, arith, ==→eq,
}
use azpfs.Protocol.Message.{Message}
use azpfs.Fs.Backend.{FsBackend}
use azpfs.Server.Session.{Lock, free, stuck, sending, Session, State, Step}
use azpfs.Server.Session.Effects.{unsent, requests_of, replies_of, Step-stuck}
use azpfs.Server.Clients.{Server, available, seen_by, session_of, replaced, begun, put}

pub ==-refl : (i : ℕ) → (i == i) ≡ true
==-refl i = ground arith

pub ==-false : (i j : ℕ) → (i == j) ≡ false → (j == i) ≡ false
==-false i j e = ground arith

-- Another client's lock has nothing to send for this one.
seen_by-other : (i holder : ℕ) (l : Lock) → (holder == i) ≡ false → unsent (seen_by i holder l) ≡ []
unfolding seen_by
seen_by-other i holder free e = refl
seen_by-other i holder stuck e = rw e
seen_by-other i holder (sending replies) e = rw e

-- A lock that a client may take has nothing to send for the others.
available-other :
    (i j holder : ℕ) (l : Lock)
    → available i holder l ≡ true
    → (i == j) ≡ false
    → unsent (seen_by j holder l) ≡ []
available-other i j holder free a e = unfold seen_by in refl
available-other i j holder stuck a e = seen_by-other j holder stuck (rw (==→eq holder i a) e)
available-other i j holder (sending replies) a e =
    seen_by-other j holder (sending replies) (rw (==→eq holder i a) e)

pub seen_by-own : (i : ℕ) (l : Lock) → seen_by i i l ≡ l
unfolding seen_by
seen_by-own i free = refl
seen_by-own i stuck = rw (==-refl i) refl
seen_by-own i (sending replies) = rw (==-refl i) refl

pub begun-nothing : (i : ℕ) (h h' : List Message) → h' ≡ h → begun i h h' ≡ []
unfolding begun
begun-nothing i h h' e =
    let none_new : length h - length h ≡ 0 = omega arith in rw (e, none_new) refl

pub begun-one :
    (i : ℕ) (m : Message) (h h' : List Message) → h' ≡ m ∷ h → begun i h h' ≡ (i, m) ∷ []
unfolding begun
begun-one i m h h' e = let one : length (m ∷ h) - length h ≡ 1 = omega arith in rw (e, one) refl

-- A property of every client, by the one that made the step and the others.
pub by_client : (P : ℕ → Type 0) (i : ℕ) → P i → ((j : ℕ) → (i == j) ≡ false → P j) → (j : ℕ) → P j
by_client P i own others j = elim (Bool-cases (i == j)) [
  | inl e ↦ subst P (==→eq i j e) own
  | inr e ↦ others j e
]

-- The replies on their way in a session, with those that the lock has.
abbrev all_replies : {S : Type 0} → List Message → Session S → List Message
all_replies locked s = locked ++ (s.quick ++ (s.channel ++ (s.written ++ s.lost)))

module _ (fs : FsBackend) where
  -- The client whose session made the step sees the lock as the session left it.
  seen_by-put :
      (i : ℕ) (t : Server fs.State) (s : State fs)
      → Step fs (session_of i t) s
      → seen_by i (put i s t).holder (put i s t).lock ≡ s.lock
  unfolding put
  seen_by-put i t s st = elim (Bool-cases (available i t.holder t.lock)) [
    | inl e ↦ rw e (seen_by-own i s.lock)
    | inr e ↦
        let hidden : seen_by i t.holder t.lock ≡ stuck = unfold seen_by in rw e in
        rw (e, hidden) (sym (Step-stuck fs st hidden))
  ]

  -- The others still have the same replies on their way in the lock.
  seen_by-put_other :
      (i j : ℕ) (t : Server fs.State) (s : State fs)
      → (i == j) ≡ false
      → unsent (seen_by j (put i s t).holder (put i s t).lock) ≡ unsent (seen_by j t.holder t.lock)
  unfolding put
  seen_by-put_other i j t s e = elim (Bool-cases (available i t.holder t.lock)) [
    | inl a ↦ rw a (seen_by-other j i s.lock e ∙ sym (available-other i j t.holder t.lock a e))
    | inr a ↦ rw a refl
  ]

  pub put-sessions_own : (i : ℕ) (t : Server fs.State) (s : State fs) → (put i s t).sessions i ≡ s
  unfolding put replaced
  put-sessions_own i t s = rw (==-refl i)

  pub put-sessions_other :
      (i j : ℕ) (t : Server fs.State) (s : State fs)
      → (i == j) ≡ false
      → (put i s t).sessions j ≡ t.sessions j
  unfolding put replaced
  put-sessions_other i j t s e = rw e

  pub requests-own :
      (i : ℕ) (t : Server fs.State) (s : State fs)
      → requests_of (session_of i (put i s t)) ≡ requests_of s
  requests-own i t s = ap requests_of (put-sessions_own i t s)

  pub replies-own :
      (i : ℕ) (t : Server fs.State) (s : State fs)
      → Step fs (session_of i t) s
      → replies_of (session_of i (put i s t)) ≡ replies_of s
  replies-own i t s st = ap₂ all_replies (ap unsent (seen_by-put i t s st)) (put-sessions_own i t s)

  pub requests-other :
      (i j : ℕ) (t : Server fs.State) (s : State fs)
      → (i == j) ≡ false
      → requests_of (session_of j (put i s t)) ≡ requests_of (session_of j t)
  requests-other i j t s e = ap requests_of (put-sessions_other i j t s e)

  pub replies-other :
      (i j : ℕ) (t : Server fs.State) (s : State fs)
      → (i == j) ≡ false
      → replies_of (session_of j (put i s t)) ≡ replies_of (session_of j t)
  replies-other i j t s e =
      ap₂ all_replies (seen_by-put_other i j t s e) (put-sessions_other i j t s e)
