-- ===== src/Protocol/Reader.antt =====
-- Reading from a cursor, as the code that `#[binrw]` derives does it: a reader takes bytes off the
-- front of the input, or fails. The failure `eof` is the one that `is_eof` of
-- src/core/protocol/codec.rs recognises; all others are `invalid`.
pub mod Laws
pub mod Incremental
pub mod Ensures
pub mod Spells
use azpfs.Base.{ℕ, zero, suc, Bytes, from_be, [], ◌∷◌}

pub data ReadError : Type 0 where
  eof invalid : ReadError

pub data ReadResult {ℓ} (A : Type ℓ) : Type ℓ where
  done : A → Bytes → ReadResult A
  fail : ReadError → ReadResult A

abbrev pub Reader {ℓ} : Type ℓ → Type ℓ
Reader A = Bytes → ReadResult A

abbrev pub pure {ℓ} : {A : Type ℓ} → A → Reader A
pure a bs = done a bs

abbrev pub reject {ℓ} : {A : Type ℓ} → Reader A
reject bs = fail invalid

abbrev pub and_then {ℓ κ} : {A : Type ℓ} {B : Type κ} → ReadResult A → (A → Reader B) → ReadResult B
and_then (done a rest) f = f a rest
and_then (fail e) f = fail e

infixl 5 ◌>>=◌
abbrev pub ◌>>=◌ {ℓ κ} : {A : Type ℓ} {B : Type κ} → Reader A → (A → Reader B) → Reader B
◌>>=◌ p f bs = and_then (p bs) f

unfoldable pub read_byte : Reader ℕ
read_byte [] = fail eof
read_byte (b ∷ bs) = done b bs

-- A `Vec<u8>` of `count = n` bytes.
unfoldable pub read_bytes : ℕ → Reader Bytes
unfolding read_byte
read_bytes zero = pure []
read_bytes (suc n) = do b ← read_byte; bytes ← read_bytes n; pure (b ∷ bytes)

-- A big-endian unsigned integer of `w` bytes.
unfoldable pub read_uint : ℕ → Reader ℕ
read_uint w = do bytes ← read_bytes w; pure (from_be bytes)
