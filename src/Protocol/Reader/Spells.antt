-- ===== src/Protocol/Reader/Spells.antt =====
-- Which bytes a reader took for the value that it returned.
use mathlib.Core.Path.{subst}
use azpfs.Base.{
  ℕ, zero, suc, ◌≡◌, refl, sym, ap, ◌∙◌, Bytes, [], ◌∷◌, ◌++◌, length, All, IsByte, All-append_left,
  All-append_right, append_assoc, append-nil, to_be, from_be, to_be-from_be, from_be-lt, ◌<◌, ◌^◌,
  arith,
}
use azpfs.Protocol.Reader.{
  ReadResult, done, fail, Reader, pure, reject, and_then, ◌>>=◌, read_byte, read_bytes, read_uint,
}

-- The result of a reader on `bs` that took `used` for `a` only if `W a used`.
pub data Took {ℓ κ} {A : Type ℓ} (W : A → Bytes → Type κ) (bs : Bytes)
    : ReadResult A → Type (ℓ ⊔ κ) where
  took : (a : A) (used rest : Bytes) → bs ≡ used ++ rest → W a used → Took W bs (done a rest)
  failed : (e : _) → Took W bs (fail e)

abbrev pub Spells {ℓ κ} : {A : Type ℓ} → Reader A → (A → Bytes → Type κ) → Type (ℓ ⊔ κ)
Spells p W = (bs : Bytes) → All IsByte bs → Took W bs (p bs)

pub pure-Spells {ℓ κ} : {A : Type ℓ} {W : A → Bytes → Type κ} (a : A) → W a [] → Spells (pure a) W
pure-Spells a w bs h = took a [] bs refl w

pub reject-Spells {ℓ κ} : {A : Type ℓ} {W : A → Bytes → Type κ} → Spells reject W
reject-Spells bs h = failed _

pub >>=-Spells {ℓ κ ℓ' κ'} :
    {A : Type ℓ} {B : Type ℓ'} {V : A → Bytes → Type κ} {W : B → Bytes → Type κ'} {p : Reader A}
    {f : A → Reader B}
    → Spells p V
    → ((a : A) (u : Bytes) → All IsByte u → V a u → Spells (f a) λ b v. W b (u ++ v))
    → Spells (p >>= f) W
>>=-Spells {V} {W} {p} {f} hp hf bs h = go (p bs) (hp bs h)
  where
    again :
        (u mid : Bytes) (r : ReadResult _)
        → bs ≡ u ++ mid
        → Took (λ b v. W b (u ++ v)) mid r
        → Took W bs r
    again u mid _ e (took b v rest e' w) =
        took b (u ++ v) rest (rw (e, e') (sym (append_assoc u v rest))) w
    again u mid _ e (failed x) = failed x

    go : (r : ReadResult _) → Took V bs r → Took W bs (and_then r f)
    go _ (took a u mid e v) =
        let whole : All IsByte (u ++ mid) = subst (All IsByte) e h in
        again u mid (f a mid) e
          (hf a u (All-append_left IsByte u mid whole) v mid (All-append_right IsByte u mid whole))
    go _ (failed x) = failed x

read_byte-Spells : Spells read_byte λ b u. u ≡ b ∷ []
unfolding read_byte
read_byte-Spells [] h = failed _
read_byte-Spells (b ∷ bs) h = took b (b ∷ []) bs refl refl

pub read_bytes-Spells : (n : ℕ) → Spells (read_bytes n) λ bs u. (u ≡ bs) × (length u ≡ n)
unfolding read_bytes
read_bytes-Spells zero = pure-Spells [] (refl, refl)
read_bytes-Spells (suc n) = >>=-Spells read_byte-Spells λ b u _ e.
    >>=-Spells (read_bytes-Spells n) λ bytes v _ h.
      pure-Spells (b ∷ bytes) (rw (e, h.0, append-nil), rw (e, append-nil) (ap suc h.1))

spelled :
    (w : ℕ) (bytes : Bytes)
    → All IsByte bytes
    → length bytes ≡ w
    → (to_be w (from_be bytes) ≡ bytes) × (from_be bytes < 256 ^ w)
spelled w bytes hb e = (rw (← e) (to_be-from_be bytes hb), rw (← e) (from_be-lt bytes hb))

pub read_uint-Spells : (w : ℕ) → Spells (read_uint w) λ n u. (u ≡ to_be w n) × (n < 256 ^ w)
unfolding read_uint
read_uint-Spells w = >>=-Spells (read_bytes-Spells w) λ bytes u hu h.
    let s = spelled w bytes (subst (All IsByte) h.0 hu) (ap length (sym h.0) ∙ h.1) in
    pure-Spells (from_be bytes) (rw append-nil (h.0 ∙ sym s.0), s.1)

-- A byte by itself.
pub read_uint_byte-Spells : Spells (read_uint 1) λ b u. u ≡ b ∷ []
read_uint_byte-Spells bs h = go (read_uint 1 bs) (read_uint-Spells 1 bs h)
  where
    go :
        (r : ReadResult ℕ)
        → Took (λ n u. (u ≡ to_be 1 n) × (n < 256 ^ 1)) bs r
        → Took (λ b u. u ≡ b ∷ []) bs r
    go _ (took n u rest e w) =
        took n u rest e (w.0 ∙ unfold to_be in (ap (λ (d : ℕ). d ∷ []) (omega arith)))
    go _ (failed x) = failed x
