-- ===== src/Fs/Run/Laws.antt =====
-- Relations between the state before an operation and the state after it.
use azpfs.Io.{Outcome, ok, err, panicked, blocked, OfValue}
use azpfs.Fs.Run.{Run, continue, ◌>>=◌, lift}

-- However it ends, the operation relates the states by `R`.
pub data Steps {ℓ κ μ} {S : Type ℓ} {A : Type κ} (R : S → S → Type μ) (m : Run S A)
    : Type (ℓ ⊔ μ) where
  steps : ((s : S) → R s (m s).1) → Steps R m

abbrev pub Steps-at {ℓ κ μ} :
    {S : Type ℓ} {A : Type κ} {R : S → S → Type μ} {m : Run S A} → Steps R m → (s : S) → R s (m s).1
Steps-at (steps h) = h

module _ {ℓ μ} {S : Type ℓ} {R : S → S → Type μ} (here : (s : S) → R s s)
    (trans : (s s' s'' : S) → R s s' → R s' s'' → R s s'') where
  pub lift-Steps {κ} : {A : Type κ} (r : Outcome A) → Steps R (lift r)
  lift-Steps r = steps here

  pub >>=-Steps {κ κ'} :
      {A : Type κ} {B : Type κ'} {m : Run S A} {f : A → Run S B}
      → Steps R m
      → ((a : A) → Steps R (f a))
      → Steps R (m >>= f)
  >>=-Steps {m} {f} hm hf = steps λ s. go s (m s).0 (m s).1 (Steps-at hm s)
    where
      go : (s : S) (r : Outcome _) (s' : S) → R s s' → R s (continue r f s').1
      go s (ok a) s' h = trans s s' _ h (Steps-at (hf a) s')
      go s (err e) s' h = h
      go s panicked s' h = h
      go s blocked s' h = h

-- If it has a value, the operation relates the value to the state after it by `Q`.
pub data Ensures {ℓ κ μ} {S : Type ℓ} {A : Type κ} (Q : A → S → Type μ) (m : Run S A)
    : Type (ℓ ⊔ κ ⊔ μ) where
  ensures : ((s : S) → OfValue (λ a. Q a (m s).1) (m s).0) → Ensures Q m

abbrev pub Ensures-at {ℓ κ μ} :
    {S : Type ℓ} {A : Type κ} {Q : A → S → Type μ} {m : Run S A}
    → Ensures Q m
    → (s : S) → OfValue (λ a. Q a (m s).1) (m s).0
Ensures-at (ensures h) = h

-- What the last operation ensures.
pub >>=-Ensures {ℓ κ κ' μ} :
    {S : Type ℓ} {A : Type κ} {B : Type κ'} {Q : B → S → Type μ} (m : Run S A) {f : A → Run S B}
    → ((a : A) → Ensures Q (f a))
    → Ensures Q (m >>= f)
>>=-Ensures {S} {Q} m {f} hf = ensures λ s. go (m s).0 (m s).1
  where
    go : (r : Outcome _) (s : S) → OfValue (λ b. Q b (continue r f s).1) (continue r f s).0
    go (ok a) s = Ensures-at (hf a) s
    go (err e) s = tt
    go panicked s = tt
    go blocked s = tt
