-- ===== src/Fs/Run/Agree.antt =====
-- Two operations that do the same from the states of an invariant, and keep it.
use mathlib.Core.Path.{◌≡◌, refl, ap, ◌∙◌}
use azpfs.Io.{Outcome, ok, err, panicked, blocked, OfValue}
use azpfs.Fs.Run.{Run, continue, ◌>>=◌, lift, attempt, unless_error}

-- `P` is what holds of the value.
pub data Agree {ℓ κ μ ν} {S : Type ℓ} {A : Type κ} (Inv : S → Type μ) (P : A → Type ν)
    (m m' : Run S A) : Type (ℓ ⊔ κ ⊔ μ ⊔ ν) where
  agree : ((s : S) → Inv s → (m s ≡ m' s) × Inv (m s).1 × OfValue P (m s).0) → Agree Inv P m m'

abbrev pub Agree-at {ℓ κ μ ν} :
    {S : Type ℓ} {A : Type κ} {Inv : S → Type μ} {P : A → Type ν} {m m' : Run S A}
    → Agree Inv P m m'
    → (s : S) → Inv s
    → (m s ≡ m' s) × Inv (m s).1 × OfValue P (m s).0
Agree-at (agree h) = h

module _ {ℓ μ} {S : Type ℓ} {Inv : S → Type μ} where
  pub lift-Agree {κ ν} :
      {A : Type κ} {P : A → Type ν} (r : Outcome A) → OfValue P r → Agree Inv P (lift r) (lift r)
  lift-Agree r h = agree λ s v. (refl, v, h)

  pub >>=-Agree {κ κ' ν ν'} :
      {A : Type κ} {B : Type κ'} {P : A → Type ν} {Q : B → Type ν'} {m m' : Run S A}
      {f f' : A → Run S B}
      → Agree Inv P m m'
      → ((a : A) → P a → Agree Inv Q (f a) (f' a))
      → Agree Inv Q (m >>= f) (m' >>= f')
  >>=-Agree {P} {Q} {m} {m'} {f} {f'} hm hf = agree λ s v.
      let (same, keeps, value) = Agree-at hm s v in
      let (then_same, then_keeps, then_value) = go (m s).0 (m s).1 keeps value in
      (then_same ∙ ap (λ q. continue q.0 f' q.1) same, then_keeps, then_value)
    where
      go :
          (r : Outcome _) (s : S)
          → Inv s
          → OfValue P r
          → (continue r f s ≡ continue r f' s)
            × Inv (continue r f s).1
            × OfValue Q (continue r f s).0
      go (ok a) s v h = Agree-at (hf a h) s v
      go (err e) s v h = (refl, v, tt)
      go panicked s v h = (refl, v, tt)
      go blocked s v h = (refl, v, tt)

  pub attempt-Agree {κ ν} :
      {A : Type κ} {P : A → Type ν} {m m' : Run S A}
      → Agree Inv P m m'
      → Agree Inv (λ _. Unit {0}) (attempt m) (attempt m')
  attempt-Agree {A} {m} {m'} h = agree λ s v.
      let (same, keeps, _) = Agree-at h s v in
      let (kept, value) = go (m s).0 (m s).1 keeps in
      (ap (λ q. unless_error q.0 q.1) same, kept, value)
    where
      go :
          (r : Outcome A) (s : S)
          → Inv s
          → Inv (unless_error r s).1 × OfValue (λ _. Unit {0}) (unless_error r s).0
      go (ok a) s v = (v, tt)
      go (err e) s v = (v, tt)
      go panicked s v = (v, tt)
      go blocked s v = (v, tt)
