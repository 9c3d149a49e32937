-- ===== src/Protocol/Reader/Ensures.antt =====
-- Postconditions of readers on input that consists of bytes.
use azpfs.Base.{
  ℕ, zero, suc, ◌^◌, ◌<◌, ◌≡◌, refl, ap, Bytes, [], ◌∷◌, length, All, IsByte, from_be, from_be-lt,
}
use mathlib.Core.Path.{subst}
use azpfs.Protocol.Reader.{
  ReadResult, done, fail, Reader, pure, reject, and_then, ◌>>=◌, read_byte, read_bytes, read_uint,
}

-- Whatever `p` reads off bytes satisfies `Q`, and what it leaves is bytes.
pub data Holds {ℓ κ} {A : Type ℓ} (Q : A → Type κ) : ReadResult A → Type (ℓ ⊔ κ) where
  holds : {a : A} {rest : Bytes} → Q a → All IsByte rest → Holds Q (done a rest)
  failed : (e : _) → Holds Q (fail e)

abbrev pub Ensures {ℓ κ} : {A : Type ℓ} → Reader A → (A → Type κ) → Type (ℓ ⊔ κ)
Ensures p Q = (bs : Bytes) → All IsByte bs → Holds Q (p bs)

pub Holds-done {ℓ κ} :
    {A : Type ℓ} {Q : A → Type κ} {r : ReadResult A} {a : A} {rest : Bytes}
    → Holds Q r
    → r ≡ done a rest
    → Q a × All IsByte rest
Holds-done {Q} {a} {rest} (holds {a = b} {rest = left} q h) e =
    (subst Q (cc) q, subst (All IsByte) (cc) h)
Holds-done (failed x) e = cc

pub pure-Ensures {ℓ κ} : {A : Type ℓ} {Q : A → Type κ} (a : A) → Q a → Ensures (pure a) Q
pure-Ensures a q bs h = holds q h

pub reject-Ensures {ℓ κ} : {A : Type ℓ} {Q : A → Type κ} → Ensures reject Q
reject-Ensures bs h = failed _

pub >>=-Ensures {ℓ κ ℓ' κ'} :
    {A : Type ℓ} {B : Type ℓ'} {P : A → Type κ} {Q : B → Type κ'} {p : Reader A} {f : A → Reader B}
    → Ensures p P
    → ((a : A) → P a → Ensures (f a) Q)
    → Ensures (p >>= f) Q
>>=-Ensures {P} {Q} {p} {f} hp hf bs h = go (p bs) (hp bs h)
  where
    go : (r : ReadResult _) → Holds P r → Holds Q (and_then r f)
    go _ (holds {a} {rest} q k) = hf a q rest k
    go _ (failed e) = failed e

read_byte-Ensures : Ensures read_byte IsByte
unfolding read_byte
read_byte-Ensures [] h = failed _
read_byte-Ensures (b ∷ bs) h = holds h.0 h.1

pub read_bytes-Ensures : (n : ℕ) → Ensures (read_bytes n) λ bs. All IsByte bs × (length bs ≡ n)
unfolding read_bytes
read_bytes-Ensures zero = pure-Ensures [] (tt, refl)
read_bytes-Ensures (suc n) = >>=-Ensures read_byte-Ensures λ b hb.
    >>=-Ensures (read_bytes-Ensures n) λ bytes h. pure-Ensures (b ∷ bytes) ((hb, h.0), ap suc h.1)

pub read_uint-Ensures : (w : ℕ) → Ensures (read_uint w) λ n. n < 256 ^ w
unfolding read_uint
read_uint-Ensures w =
    >>=-Ensures (read_bytes-Ensures w)
      λ bytes h. pure-Ensures (from_be bytes) (rw h.1 at (from_be-lt bytes h.0))
