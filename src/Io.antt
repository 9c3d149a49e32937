-- ===== src/Io.antt =====
-- `std::io::Error` and the ways in which an operation of the program ends.
use azpfs.Base.{ℕ, Bytes}

-- `std::io::ErrorKind`: the kinds that the program names, and every other by a number.
pub data ErrorKind : Type 0 where
  not_found permission_denied connection_refused connection_reset not_connected : ErrorKind
  already_exists : ErrorKind
  invalid_input invalid_data unexpected_eof unsupported other : ErrorKind
  unlisted : ℕ → ErrorKind

-- `text` is what `to_string` gives.
pub record IoError : Type 0 where
  pub kind : ErrorKind
  pub text : Bytes

-- `ok` and `err` are the two sides of `io::Result`. `panicked` ends the task that runs the
-- operation, and `blocked` is an `await` that never completes.
pub data Outcome {ℓ} (A : Type ℓ) : Type ℓ where
  ok : A → Outcome A
  err : IoError → Outcome A
  panicked : Outcome A
  blocked : Outcome A

-- The operator `?`.
infixl 5 ◌>>=◌
abbrev pub ◌>>=◌ {ℓ κ} : {A : Type ℓ} {B : Type κ} → Outcome A → (A → Outcome B) → Outcome B
ok a >>= f = f a
err e >>= f = err e
panicked >>= f = panicked
blocked >>= f = blocked

abbrev pub map_outcome {ℓ κ} : {A : Type ℓ} {B : Type κ} → (A → B) → Outcome A → Outcome B
map_outcome f r = r >>= λ a. ok (f a)

-- `map_err`
abbrev pub map_err {ℓ} : {A : Type ℓ} → (IoError → IoError) → Outcome A → Outcome A
map_err f (ok a) = ok a
map_err f (err e) = err (f e)
map_err f panicked = panicked
map_err f blocked = blocked

-- A property of the value of a result, if it has one.
abbrev pub OfValue {ℓ κ} : {A : Type ℓ} → (A → Type κ) → Outcome A → Type κ
OfValue P (ok a) = P a
OfValue P _ = Unit
