-- ===== src/Base/Words.antt =====
-- Bytes and big-endian unsigned integers: the `#[brw(big)]` form of `u8`, `u16`, `u32` and `u64`.
use Prim.Native.Nat.{ℕ, zero, suc, ◌+◌, ◌*◌, ◌/◌, ◌%◌, ◌^◌, ◌<◌}
use mathlib.Core.Path.{◌≡◌, refl, ◌∙◌}
use mathlib.Core.List.{List, [], ◌∷◌, ◌++◌, append-nil, append_assoc}
use native.Mathlib.Nat.{pow-suc, zero-add, add-zero, mul-le-mul_right}
use native.Mathlib.Omega.{arith}
use azpfs.Base.Lists.{length, length-append, All, All-append}

abbrev pub Bytes : Type 0
Bytes = List ℕ

abbrev pub IsByte : ℕ → Type 0
IsByte b = b < 256

abbrev pub IsU16 : ℕ → Type 0
IsU16 n = n < 2 ^ 16

abbrev pub IsU32 : ℕ → Type 0
IsU32 n = n < 2 ^ 32

abbrev pub IsU64 : ℕ → Type 0
IsU64 n = n < 2 ^ 64

-- The `w` low bytes of `n`, the highest first.
unfoldable pub to_be : ℕ → ℕ → Bytes
to_be zero n = []
to_be (suc w) n = to_be w (n / 256) ++ (n % 256 ∷ [])

be_onto : ℕ → Bytes → ℕ
be_onto acc [] = acc
be_onto acc (b ∷ bs) = be_onto (acc * 256 + b) bs

-- The number that big-endian bytes stand for.
unfoldable pub from_be : Bytes → ℕ
unfolding be_onto
from_be bs = be_onto 0 bs

be_onto-snoc :
    (acc : ℕ) (xs : Bytes) (b : ℕ) → be_onto acc (xs ++ (b ∷ [])) ≡ be_onto acc xs * 256 + b
unfolding be_onto
be_onto-snoc acc [] b = refl
be_onto-snoc acc (x ∷ xs) b = be_onto-snoc (acc * 256 + x) xs b

pub from_be-to_be : (w n : ℕ) → n < 256 ^ w → from_be (to_be w n) ≡ n
unfolding from_be to_be
from_be-to_be zero n h = omega arith
from_be-to_be (suc w) n h =
    be_onto-snoc 0 (to_be w (n / 256)) (n % 256)
    ∙ omega (arith, from_be-to_be w (n / 256) (omega (arith, pow-suc 256 w)))

pub length-to_be : (w n : ℕ) → length (to_be w n) ≡ w
unfolding to_be
length-to_be zero n = refl
length-to_be (suc w) n =
    omega (arith, length-append (to_be w (n / 256)) (n % 256 ∷ []), length-to_be w (n / 256))

pub to_be-IsByte : (w n : ℕ) → All IsByte (to_be w n)
unfolding to_be
to_be-IsByte zero n = tt
to_be-IsByte (suc w) n =
    All-append IsByte (to_be w (n / 256)) _ (to_be-IsByte w (n / 256)) (omega arith)

widen : (acc b p n : ℕ) → b < 256 → n < (acc * 256 + b + 1) * p → n < (acc + 1) * (p * 256)
widen acc b p n hb h =
    omega (arith, mul-le-mul_right {m = acc * 256 + b + 1} {n = (acc + 1) * 256} p (omega arith))

be_onto-lt : (acc : ℕ) (bs : Bytes) → All IsByte bs → be_onto acc bs < (acc + 1) * 256 ^ length bs
unfolding be_onto
be_onto-lt acc [] h = omega arith
be_onto-lt acc (b ∷ bs) (hb, h) =
    rw pow-suc (widen acc b (256 ^ length bs) _ hb (be_onto-lt (acc * 256 + b) bs h))

pub from_be-lt : (bs : Bytes) → All IsByte bs → from_be bs < 256 ^ length bs
unfolding from_be
from_be-lt bs h = omega (arith, be_onto-lt 0 bs h)

to_be-be_onto :
    (k acc : ℕ) (bs : Bytes)
    → All IsByte bs
    → to_be (length bs + k) (be_onto acc bs) ≡ to_be k acc ++ bs
unfolding be_onto
to_be-be_onto k acc [] h = rw (zero-add, append-nil)
to_be-be_onto k acc (b ∷ bs) (hb, h) =
    let here : (acc * 256 + b) / 256 ≡ acc = omega arith in
    let digit : (acc * 256 + b) % 256 ≡ b = omega arith in
    let shift : suc (length bs) + k ≡ length bs + suc k = omega arith in
    rw (shift, to_be-be_onto (suc k) (acc * 256 + b) bs h)
      (unfold to_be in rw (here, digit) (append_assoc (to_be k acc) (b ∷ []) bs))

-- Big-endian bytes are determined by the number that they stand for.
pub to_be-from_be : (bs : Bytes) → All IsByte bs → to_be (length bs) (from_be bs) ≡ bs
unfolding from_be
to_be-from_be bs h =
    let whole : to_be (length bs + 0) (be_onto 0 bs) ≡ bs =
      unfold to_be in to_be-be_onto 0 0 bs h in
    rw add-zero at whole
