-- ===== src/Fs/Run.antt =====
-- Operations on a state that end as an `Outcome`: an error or a panic stops the operation, and what
-- it did to the state before stays done.
pub mod Laws
pub mod Agree
use azpfs.Base.{Option, none, some}
use azpfs.Io.{Outcome, ok, err, panicked, blocked}

abbrev pub Run {ℓ κ} : Type ℓ → Type κ → Type (ℓ ⊔ κ)
Run S A = S → Outcome A × S

module _ {ℓ} {S : Type ℓ} where
  -- What follows an operation, by its outcome.
  abbrev pub continue {κ μ} : {A : Type κ} {B : Type μ} → Outcome A → (A → Run S B) → Run S B
  continue (ok a) f s = f a s
  continue (err e) f s = (err e, s)
  continue panicked f s = (panicked, s)
  continue blocked f s = (blocked, s)

  infixl 5 ◌>>=◌ ◌>>◌
  abbrev pub ◌>>=◌ {κ μ} : {A : Type κ} {B : Type μ} → Run S A → (A → Run S B) → Run S B
  ◌>>=◌ m f s = let (r, s') = m s in continue r f s'

  abbrev pub ◌>>◌ {κ} : {B : Type κ} → Run S (Unit {0}) → Run S B → Run S B
  m >> k = m >>= λ _. k

  abbrev pub lift {κ} : {A : Type κ} → Outcome A → Run S A
  lift r s = (r, s)

  abbrev pub pure {κ} : {A : Type κ} → A → Run S A
  pure a s = (ok a, s)

  abbrev pub unless_error {κ} : {A : Type κ} → Outcome A → S → Outcome (Option A) × S
  unless_error (ok a) s = (ok (some a), s)
  unless_error (err e) s = (ok none, s)
  unless_error panicked s = (panicked, s)
  unless_error blocked s = (blocked, s)

  -- `.ok()`: an error becomes `none`.
  abbrev pub attempt {κ} : {A : Type κ} → Run S A → Run S (Option A)
  attempt m s = let (r, s') = m s in unless_error r s'
