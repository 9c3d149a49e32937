-- ===== src/Base/Perm.antt =====
-- Rearranged lists, by the library's family `Permᴰ`.
use mathlib.Core.List.{List, [], ◌∷◌, ◌++◌, Permᴰ, append_assoc}
use mathlib.Core.List.Permᴰ
use mathlib.Core.Path.{◌≡◌, refl, sym, ap, ◌∙◌, subst}
use native.Mathlib.Omega.{arith}
use azpfs.Base.Lists.{length, All}

length-perm {ℓ} : {A : Type ℓ} {xs ys : List A} → Permᴰ xs ys → length xs ≡ length ys
length-perm Permᴰ.nil = refl
length-perm (Permᴰ.cons e p) = omega (arith, length-perm p)
length-perm (Permᴰ.swap e f) = refl
length-perm (Permᴰ.trans p q) = length-perm p ∙ length-perm q

pub All-perm {ℓ κ} :
    {A : Type ℓ} (P : A → Type κ) {xs ys : List A} → Permᴰ xs ys → All P xs → All P ys
All-perm P Permᴰ.nil h = h
All-perm P (Permᴰ.cons e p) h = (subst P e h.0, All-perm P p h.1)
All-perm P (Permᴰ.swap e f) h = (subst P f h.1.0, (subst P e h.0, h.1.1))
All-perm P (Permᴰ.trans p q) h = All-perm P q (All-perm P p h)

pub perm_nil {ℓ} : {A : Type ℓ} (ys : List A) → Permᴰ [] ys → ys ≡ []
perm_nil [] p = refl
perm_nil (y ∷ ys) p = absurd (omega (arith, length-perm p))

-- A single message arrives as it was sent.
pub perm_singleton {ℓ} : {A : Type ℓ} (x : A) (ys : List A) → Permᴰ (x ∷ []) ys → ys ≡ x ∷ []
perm_singleton x [] p = absurd (omega (arith, length-perm p))
perm_singleton x (y ∷ []) p = ap (λ a. a ∷ []) (sym (All-perm (λ a. x ≡ a) p (refl, tt)).0)
perm_singleton x (y ∷ z ∷ ys) p = absurd (omega (arith, length-perm p))

module _ {ℓ} {A : Type ℓ} where
  -- An element taken out of a part of a list.
  pub out_here : (r : A) (xs ys : List A) → Permᴰ (xs ++ (r ∷ ys)) (r ∷ (xs ++ ys))
  out_here r xs ys = Permᴰ.middle r xs ys

  pub out_last : (r : A) (xs : List A) → Permᴰ (xs ++ (r ∷ [])) (r ∷ xs)
  out_last r xs = Permᴰ.trans (Permᴰ.middle r xs []) (Permᴰ.cons refl (Permᴰ.append-nil xs))

  pub out_left :
      {r : A} {xs xs' : List A} (ys : List A)
      → Permᴰ xs (r ∷ xs')
      → Permᴰ (xs ++ ys) (r ∷ (xs' ++ ys))
  out_left ys p = Permᴰ.append_right ys p

  pub out_right :
      {r : A} {ys ys' : List A} (xs : List A)
      → Permᴰ ys (r ∷ ys')
      → Permᴰ (xs ++ ys) (r ∷ (xs ++ ys'))
  out_right {r} {ys'} xs p = Permᴰ.trans (Permᴰ.append_left xs p) (Permᴰ.middle r xs ys')

  -- An element moved from one part of a list to another.
  pub moved : {r : A} {xs ys zs : List A} → Permᴰ xs (r ∷ zs) → Permᴰ ys (r ∷ zs) → Permᴰ xs ys
  moved p q = Permᴰ.trans p (Permᴰ.symm q)

  -- A part moved past another.
  pub append_swap : (xs ys zs : List A) → Permᴰ (xs ++ (ys ++ zs)) (ys ++ (xs ++ zs))
  append_swap xs ys zs =
      rw (← append_assoc xs ys zs, ← append_assoc ys xs zs)
        (Permᴰ.append_right zs (Permᴰ.append_comm xs ys))

-- A rearrangement as a function on all lists.
unfoldable pub rearranged {ℓ} : {A : Type ℓ} {xs ys : List A} → Permᴰ xs ys → List A → List A
rearranged Permᴰ.nil zs = zs
rearranged (Permᴰ.cons e p) [] = []
rearranged (Permᴰ.cons e p) (z ∷ zs) = z ∷ rearranged p zs
rearranged (Permᴰ.swap e f) [] = []
rearranged (Permᴰ.swap e f) (z ∷ []) = z ∷ []
rearranged (Permᴰ.swap e f) (z ∷ w ∷ zs) = w ∷ z ∷ zs
rearranged (Permᴰ.trans p q) zs = rearranged q (rearranged p zs)

pub rearranged_lem {ℓ} : {A : Type ℓ} {xs ys : List A} (p : Permᴰ xs ys) → rearranged p xs ≡ ys
unfolding rearranged
rearranged_lem Permᴰ.nil = refl
rearranged_lem (Permᴰ.cons e p) = λ i. e i ∷ rearranged_lem p i
rearranged_lem (Permᴰ.swap {l} e f) = λ i. f i ∷ e i ∷ l
rearranged_lem (Permᴰ.trans p q) = ap (rearranged q) (rearranged_lem p) ∙ rearranged_lem q

pub perm-rearranged {ℓ} :
    {A : Type ℓ} {xs ys : List A} (p : Permᴰ xs ys) (zs : List A) → Permᴰ zs (rearranged p zs)
unfolding rearranged
perm-rearranged Permᴰ.nil zs = Permᴰ.refl zs
perm-rearranged (Permᴰ.cons e p) [] = Permᴰ.nil
perm-rearranged (Permᴰ.cons e p) (z ∷ zs) = Permᴰ.cons refl (perm-rearranged p zs)
perm-rearranged (Permᴰ.swap e f) [] = Permᴰ.nil
perm-rearranged (Permᴰ.swap e f) (z ∷ []) = Permᴰ.refl (z ∷ [])
perm-rearranged (Permᴰ.swap e f) (z ∷ w ∷ zs) = Permᴰ.swap refl refl
perm-rearranged (Permᴰ.trans p q) zs =
    Permᴰ.trans (perm-rearranged p zs) (perm-rearranged q (rearranged p zs))
