-- ===== src/Protocol/Reader/Laws.antt =====
-- The readers of bytes and of integers take back what was written.
use azpfs.Base.{
  ℕ, zero, suc, ◌%◌, ◌^◌, ◌<◌, ◌≡◌, ◌⊎◌, inl, inr, refl, Bytes, [], ◌∷◌, ◌++◌, length, take, drop,
  ◌≤◌, arith, to_be, from_be, length-to_be, from_be-to_be,
}
use azpfs.Protocol.Reader.{ReadResult, ReadError, done, fail, read_bytes, read_uint}
use native.Mathlib.Nat.{mod-eq_of_lt}

pub read_bytes-append : (bs rest : Bytes) → read_bytes (length bs) (bs ++ rest) ≡ done bs rest
unfolding read_bytes
read_bytes-append [] rest = refl
read_bytes-append (b ∷ bs) rest = rw (read_bytes-append bs rest)

pub read_uint-to_be :
    (w n : ℕ) → n < 256 ^ w → (rest : Bytes) → read_uint w (to_be w n ++ rest) ≡ done n rest
unfolding read_uint
read_uint-to_be w n h rest =
    let taken : read_bytes w (to_be w n ++ rest) ≡ done (to_be w n) rest =
      rw length-to_be at (read_bytes-append (to_be w n) rest) in
    rw (taken, from_be-to_be w n h)

pub read_uint_byte : (b : ℕ) (rest : Bytes) → read_uint 1 (b ∷ rest) ≡ done b rest
unfolding read_uint read_bytes from_be
read_uint_byte b rest = ground arith

-- A length that fits its prefix is read back whole.
pub read_uint-length :
    (w : ℕ) (bs : Bytes)
    → length bs < 256 ^ w
    → (rest : Bytes) → read_uint w (to_be w (length bs % 256 ^ w) ++ rest) ≡ done (length bs) rest
read_uint-length w bs h rest = rw (mod-eq_of_lt h) (read_uint-to_be w (length bs) h rest)

-- To split on the result of a reader and keep the equation.
pub ReadResult-cases {ℓ} :
    {A : Type ℓ} (r : ReadResult A)
    → ((a : A) × (rest : Bytes) × (r ≡ done a rest)) ⊎ ((e : ReadError) × (r ≡ fail e))
ReadResult-cases (done a rest) = inl (a, rest, refl)
ReadResult-cases (fail e) = inr (e, refl)

-- As many bytes as are asked for, of a longer run.
pub read_bytes_prefix :
    (n : ℕ) (bs rest : Bytes)
    → n ≤ length bs
    → read_bytes n (bs ++ rest) ≡ done (take n bs) (drop n bs ++ rest)
unfolding read_bytes
read_bytes_prefix zero bs rest h = refl
read_bytes_prefix (suc n) [] rest h = absurd (omega arith)
read_bytes_prefix (suc n) (b ∷ bs) rest h = rw (read_bytes_prefix n bs rest (omega arith))
