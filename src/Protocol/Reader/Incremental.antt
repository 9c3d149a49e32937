-- ===== src/Protocol/Reader/Incremental.antt =====
-- A reader that does not look past what it takes: more input behind its own changes neither its
-- result nor a rejection. Only the failure `eof` can turn into something else.
use azpfs.Base.{ℕ, zero, suc, ◌≤◌, ◌≡◌, refl, Bytes, [], ◌∷◌, ◌++◌, length, arith, from_be}
use azpfs.Protocol.Reader.{
  eof, invalid, ReadResult, done, fail, Reader, pure, reject, and_then, ◌>>=◌, read_byte,
  read_bytes, read_uint,
}

pub record IsIncremental {ℓ} {A : Type ℓ} (p : Reader A) : Type ℓ where
  pub on_done :
      (bs more : Bytes) (a : A) (rest : Bytes)
      → p bs ≡ done a rest
      → p (bs ++ more) ≡ done a (rest ++ more)
  pub on_invalid : (bs more : Bytes) → p bs ≡ fail invalid → p (bs ++ more) ≡ fail invalid
  pub shrinks : (bs : Bytes) (a : A) (rest : Bytes) → p bs ≡ done a rest → length rest ≤ length bs

pub pure-IsIncremental {ℓ} : {A : Type ℓ} (a : A) → IsIncremental (pure a)
pure-IsIncremental a = record {
  on_done = λ bs more b rest e. cc;
  on_invalid = λ bs more e. cc;
  shrinks = λ bs b rest e. ground arith;
}

pub reject-IsIncremental {ℓ} : {A : Type ℓ} → IsIncremental {A = A} reject
reject-IsIncremental = record {
  on_done = λ bs more b rest e. cc;
  on_invalid = λ bs more e. refl;
  shrinks = λ bs b rest e. cc;
}

module _ {ℓ κ} {A : Type ℓ} {B : Type κ} where
  -- What a chain of two readers that ends with a value, or rejects, did in its steps.
  and_then-eq_done :
      (r : ReadResult A) (f : A → Reader B) {b : B} {rest : Bytes}
      → and_then r f ≡ done b rest
      → (a : A) × (mid : Bytes) × (r ≡ done a mid) × (f a mid ≡ done b rest)
  and_then-eq_done (done a mid) f e = (a, mid, refl, e)
  and_then-eq_done (fail x) f e = cc

  pub >>=-IsIncremental :
      {p : Reader A} {f : A → Reader B}
      → IsIncremental p
      → ((a : A) → IsIncremental (f a))
      → IsIncremental (p >>= f)
  >>=-IsIncremental {p} {f} ip if' = record {
    on_done = λ bs more b rest e.
        let (a, mid, ea, eb) = and_then-eq_done (p bs) f e in
        rw (ip.on_done bs more a mid ea) ((if' a).on_done mid more b rest eb);
    on_invalid = λ bs more e. invalid_case bs more (p bs) refl e;
    shrinks = λ bs b rest e.
        let (a, mid, ea, eb) = and_then-eq_done (p bs) f e in
        omega (arith, ip.shrinks bs a mid ea, (if' a).shrinks mid b rest eb);
  }
    where
      invalid_case :
          (bs more : Bytes) (r : ReadResult A)
          → p bs ≡ r
          → and_then r f ≡ fail invalid
          → and_then (p (bs ++ more)) f ≡ fail invalid
      invalid_case bs more (done a mid) e h =
          rw (ip.on_done bs more a mid e) ((if' a).on_invalid mid more h)
      invalid_case bs more (fail eof) e h = cc
      invalid_case bs more (fail invalid) e h = rw (ip.on_invalid bs more e)

read_byte-IsIncremental : IsIncremental read_byte
unfolding read_byte
read_byte-IsIncremental = record {
  on_done = λ bs more b rest e. on_done_case bs more e;
  on_invalid = λ bs more e. on_invalid_case bs more e;
  shrinks = λ bs b rest e. shrinks_case bs e;
}
  where
    on_done_case :
        (bs more : Bytes) {b : ℕ} {rest : Bytes}
        → read_byte bs ≡ done b rest
        → read_byte (bs ++ more) ≡ done b (rest ++ more)
    on_done_case [] more e = cc
    on_done_case (x ∷ bs) more e = cc

    on_invalid_case :
        (bs more : Bytes) → read_byte bs ≡ fail invalid → read_byte (bs ++ more) ≡ fail invalid
    on_invalid_case [] more e = cc
    on_invalid_case (x ∷ bs) more e = cc

    shrinks_case :
        (bs : Bytes) {b : ℕ} {rest : Bytes} → read_byte bs ≡ done b rest → length rest ≤ length bs
    shrinks_case [] e = cc
    shrinks_case (x ∷ bs) e = ground arith

pub read_bytes-IsIncremental : (n : ℕ) → IsIncremental (read_bytes n)
unfolding read_bytes
read_bytes-IsIncremental zero = pure-IsIncremental []
read_bytes-IsIncremental (suc n) =
    >>=-IsIncremental read_byte-IsIncremental
      λ b. >>=-IsIncremental (read_bytes-IsIncremental n) λ bytes. pure-IsIncremental (b ∷ bytes)

pub read_uint-IsIncremental : (w : ℕ) → IsIncremental (read_uint w)
unfolding read_uint
read_uint-IsIncremental w =
    >>=-IsIncremental (read_bytes-IsIncremental w) λ bytes. pure-IsIncremental (from_be bytes)
