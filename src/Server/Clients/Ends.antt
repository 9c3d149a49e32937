-- ===== src/Server/Clients/Ends.antt =====
-- Each step of a server with a bound on its clients leaves less to do.
use mathlib.Core.WellFounded.{Acc}
use azpfs.Base.{
  ℕ, zero, suc, ◌+◌, ◌*◌, ◌<◌, ◌==◌, ◌≡◌, ◌⊎◌, inl, inr, refl, ap, ◌∙◌, false, Bool-cases, length,
  arith, descent-Acc, ==→eq,
}
use azpfs.Fs.Backend.{FsBackend}
use azpfs.Server.Session.{stuck, State, Step}
use azpfs.Server.Session.Effects.{Step-stuck}
use azpfs.Server.Session.Runs.{to_begin, lock_work, can_stall, Step-descends}
use azpfs.Server.Clients.{Server, available, seen_by, session_of, put}
use azpfs.Server.Clients.Put.{put-sessions_own, put-sessions_other}

abbrev sum_below : (ℕ → ℕ) → ℕ → ℕ
sum_below f zero = 0
sum_below f (suc n) = f n + sum_below f n

sum_below-same :
    (f g : ℕ → ℕ) (n : ℕ) → ((j : ℕ) → j < n → f j ≡ g j) → sum_below f n ≡ sum_below g n
sum_below-same f g zero h = refl
sum_below-same f g (suc n) h =
    omega (arith, h n (omega arith), sum_below-same f g n λ j k. h j (omega arith))

-- Sums of functions that differ in one place.
sum_below-but :
    (f g : ℕ → ℕ) (i n : ℕ)
    → ((j : ℕ) → (i == j) ≡ false → f j ≡ g j)
    → i < n
    → sum_below f n + g i ≡ sum_below g n + f i
sum_below-but f g i zero h k = absurd (omega arith)
sum_below-but f g i (suc n) h k = elim (Bool-cases (i == n)) [
  | inl e ↦
      let same : sum_below f n ≡ sum_below g n = sum_below-same f g n λ j l. h j (ground arith) in
      let here : i ≡ n = ==→eq i n e in omega (arith, same, ap f here, ap g here)
  | inr e ↦ omega (arith, h n e, sum_below-but f g i n h (ground arith))
]

module _ (fs : FsBackend) (n : ℕ) where
  -- A step of one of the first `n` clients.
  pub data StepBelow (t : Server fs.State) : Server fs.State → Type 0 where
    steps_below :
        (i : ℕ) {s : State fs} → i < n → Step fs (session_of i t) s → StepBelow t (put i s t)

  abbrev quick_work : State fs → ℕ
  quick_work s = 2 * length s.quick + (length s.channel + can_stall fs s.stalled)

  abbrev all_to_begin : Server fs.State → ℕ
  all_to_begin t = sum_below (λ i. to_begin fs (t.sessions i)) n

  abbrev all_to_send : Server fs.State → ℕ
  all_to_send t = 2 * lock_work fs t.lock + sum_below (λ i. quick_work (t.sessions i)) n

  -- A measure of all sessions, when one of them makes a step.
  sum_below-put :
      (f : State fs → ℕ) (i : ℕ) (t : Server fs.State) (s : State fs)
      → i < n
      → sum_below (λ j. f ((put i s t).sessions j)) n + f (t.sessions i)
        ≡ sum_below (λ j. f (t.sessions j)) n + f s
  sum_below-put f i t s k =
      sum_below-but (λ j. f ((put i s t).sessions j)) (λ j. f (t.sessions j)) i n
        (λ j e. ap f (put-sessions_other fs i j t s e)) k
      ∙ ap (λ x. sum_below (λ j. f (t.sessions j)) n + f x) (put-sessions_own fs i t s)

  lock_work-put :
      (i : ℕ) (t : Server fs.State) (s : State fs)
      → Step fs (session_of i t) s
      → lock_work fs (put i s t).lock + lock_work fs (seen_by i t.holder t.lock)
        ≡ lock_work fs t.lock + lock_work fs s.lock
  unfolding put
  lock_work-put i t s st = elim (Bool-cases (available i t.holder t.lock)) [
    | inl e ↦
        let seen : seen_by i t.holder t.lock ≡ t.lock = unfold seen_by in rw e in
        rw (e, seen) (omega arith)
    | inr e ↦
        let hidden : seen_by i t.holder t.lock ≡ stuck = unfold seen_by in rw e in
        rw (e, hidden, Step-stuck fs st hidden) refl
  ]

  StepBelow-descends :
      (t u : Server fs.State)
      → StepBelow t u
      → (all_to_begin u < all_to_begin t)
        ⊎ ((all_to_begin u ≡ all_to_begin t) × (all_to_send u < all_to_send t))
  StepBelow-descends t u (steps_below i {s} k st) =
      let begun = sum_below-put (to_begin fs) i t s k in
      elim (Step-descends fs st) [
        | inl lt ↦ inl (omega (arith, begun, lt))
        | inr (e, lt) ↦ inr (
          omega (arith, begun, e),
          omega (arith, sum_below-put quick_work i t s k, lock_work-put i t s st, lt),
        )
      ]

  -- There is no endless sequence of steps of the first `n` clients.
  pub StepBelow-Acc : (t : Server fs.State) → Acc (λ u t. StepBelow t u) t
  StepBelow-Acc = descent-Acc StepBelow all_to_begin all_to_send StepBelow-descends
