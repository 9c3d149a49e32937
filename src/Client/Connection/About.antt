-- ===== src/Client/Connection/About.antt =====
-- The messages about one request among others (src/core/fs/handler.rs).
use mathlib.Core.Path.{subst}
use mathlib.Core.List.Permᴰ
use azpfs.Base.{
  ℕ, ◌==◌, ◌≡◌, refl, sym, ap, ◌∙◌, true, false, some, List, [], ◌∷◌, ◌++◌, append_assoc, map, All,
  Permᴰ, append_swap, ==_refl,
}
use azpfs.Protocol.Message.{Message, request_id}
use azpfs.Client.Connection.Routing.{one_if, replies_to}

-- The messages about the request `id`, in order.
unfoldable pub about : ℕ → List Message → List Message
about id [] = []
about id (m ∷ ms) = one_if (request_id m == id) m ++ about id ms

pub replies_to-map-some : (id : ℕ) (ms : List Message) → replies_to id (map some ms) ≡ about id ms
unfolding replies_to about
replies_to-map-some id [] = refl
replies_to-map-some id (m ∷ ms) = rw (replies_to-map-some id ms)

pub about-append :
    (id : ℕ) (xs ys : List Message) → about id (xs ++ ys) ≡ about id xs ++ about id ys
unfolding about
about-append id [] ys = refl
about-append id (m ∷ xs) ys =
    ap (λ l. one_if (request_id m == id) m ++ l) (about-append id xs ys)
    ∙ sym (append_assoc (one_if (request_id m == id) m) (about id xs) (about id ys))

pub about-perm : (id : ℕ) {xs ys : List Message} → Permᴰ xs ys → Permᴰ (about id xs) (about id ys)
unfolding about
about-perm id Permᴰ.nil = Permᴰ.nil
about-perm id (Permᴰ.cons {a} {l₁} {l₂} e p) =
    subst (λ b. Permᴰ (about id (a ∷ l₁)) (about id (b ∷ l₂))) e
      (Permᴰ.append_left (one_if (request_id a == id) a) (about-perm id p))
about-perm id (Permᴰ.swap {a} {b} {a'} {l} e f) =
    subst (λ b'. Permᴰ (about id (a ∷ b ∷ l)) (about id (a' ∷ b' ∷ l))) e
      (subst (λ c. Permᴰ (about id (a ∷ b ∷ l)) (about id (c ∷ a ∷ l))) f
        (append_swap (one_if (request_id a == id) a) (one_if (request_id b == id) b) (about id l)))
about-perm id (Permᴰ.trans p q) = Permᴰ.trans (about-perm id p) (about-perm id q)

pub about-All : (id : ℕ) (ms : List Message) → All (λ m. request_id m ≡ id) ms → about id ms ≡ ms
unfolding about
about-All id [] h = refl
about-All id (m ∷ ms) h =
    let same : (request_id m == id) ≡ true = rw (h.0) (==_refl id) in rw (same, about-All id ms h.1)

-- None of these messages is about the request `id`.
abbrev pub IsSilentOn : ℕ → List Message → Type 0
IsSilentOn id = All λ m. (request_id m == id) ≡ false

pub about-silent : (id : ℕ) (ms : List Message) → IsSilentOn id ms → about id ms ≡ []
unfolding about
about-silent id [] h = refl
about-silent id (m ∷ ms) h = rw (h.0, about-silent id ms h.1)
