-- ===== src/Protocol/Stream/Pieces.antt =====
-- A stream of messages that arrives in pieces, taken off by `decode` of src/core/protocol/codec.rs.
use azpfs.Base.{
  ℕ, zero, suc, ◌+◌, ◌<◌, ◌≤◌, ◌≡◌, refl, ap, ◌∙◌, ◌⊎◌, inl, inr, Bytes, List, [], ◌∷◌, ◌++◌, All,
  append_assoc, length, length-append, arith,
}
use azpfs.Protocol.Message.{Message}
use azpfs.Protocol.Write.{write_message}
use azpfs.Protocol.Reader.{read_uint, read_bytes, read_byte}
use azpfs.Protocol.Read.{message, need_more, malformed, decode, read_message}
use azpfs.Protocol.Read.RoundTrip.{decode-write_message}
use azpfs.Protocol.Read.Incremental.{decode_partial, decode-shrinks}
use azpfs.Protocol.Read.WellFormed.{IsWellFormed}
use azpfs.Protocol.Stream.{encode_all, encode_all-cons}

abbrev pub concat : List Bytes → Bytes
concat [] = []
concat (p ∷ pieces) = p ++ concat pieces

-- What is taken off a buffer while pieces arrive: `decode` is called again after each message, and
-- when it asks for more, the next piece is put behind what is left. What is left at the end, or where
-- the input is malformed, stands beside the messages.
unfoldable pub taken_off : (fuel : ℕ) → Bytes → List Bytes → List Message × Bytes
taken_off zero buffer pieces = ([], buffer)
taken_off (suc fuel) buffer pieces = elim (decode buffer) [
  | message m rest ↦ let (ms, left) = taken_off fuel rest pieces in (m ∷ ms, left)
  | need_more ↦ elim pieces [ [] ↦ ([], buffer) | p ∷ others ↦ taken_off fuel (buffer ++ p) others ]
  | malformed ↦ ([], buffer)
]

-- One of two cuts of a list comes first.
cut_cases {ℓ} :
    {A : Type ℓ} (xs us ys vs : List A)
    → xs ++ ys ≡ us ++ vs
    → ((r : List A) × (xs ≡ us ++ r) × (r ++ ys ≡ vs))
      ⊎ ((b : A) × (back : List A) × (us ≡ xs ++ (b ∷ back)))
cut_cases xs [] ys vs e = inl (xs, refl, e)
cut_cases [] (u ∷ us) ys vs e = inr (u, us, refl)
cut_cases (x ∷ xs) (u ∷ us) ys vs e = elim (cut_cases xs us ys vs cc) [
  | inl (r, f, g) ↦ let same : x ≡ u = cc in inl (r, cc, g)
  | inr (b, back, f) ↦ let same : x ≡ u = cc in inr (b, back, cc)
]

decode-nil : decode [] ≡ need_more
unfolding decode read_message read_uint read_bytes read_byte
decode-nil = refl

append-eq_nil {ℓ} : {A : Type ℓ} (xs ys : List A) → xs ++ ys ≡ [] → (xs ≡ []) × (ys ≡ [])
append-eq_nil [] ys e = (refl, e)
append-eq_nil (x ∷ xs) ys e = cc

module _ (fuel : ℕ) (buffer : Bytes) where
  takes :
      (pieces : List Bytes) (m : Message) (rest : Bytes) (ms : List Message)
      → decode buffer ≡ message m rest
      → taken_off fuel rest pieces ≡ (ms, [])
      → taken_off (suc fuel) buffer pieces ≡ (m ∷ ms, [])
  unfolding taken_off
  takes pieces m rest ms e h = rw (taken_off, e, h)

  asks :
      (p : Bytes) (pieces : List Bytes)
      → decode buffer ≡ need_more
      → taken_off (suc fuel) buffer (p ∷ pieces) ≡ taken_off fuel (buffer ++ p) pieces
  unfolding taken_off
  asks p pieces e = rw (taken_off, e)

  ends : decode buffer ≡ need_more → taken_off (suc fuel) buffer [] ≡ ([], buffer)
  unfolding taken_off
  ends e = rw (taken_off, e)

too_short :
    (buffer whole behind : Bytes) (b : ℕ) (back : Bytes)
    → buffer ++ [] ≡ whole ++ behind
    → whole ≡ buffer ++ (b ∷ back)
    → ⊥
too_short buffer whole behind b back e f = omega (
  arith,
  ap length e,
  ap length f,
  length-append buffer [],
  length-append whole behind,
  length-append buffer (b ∷ back),
)

-- From a buffer that has the begin of what is still to come.
taken_off-encode_all_from :
    (fuel : ℕ) (ms : List Message) (buffer : Bytes) (pieces : List Bytes)
    → All IsWellFormed ms
    → buffer ++ concat pieces ≡ encode_all ms []
    → length ms + length pieces < fuel
    → taken_off fuel buffer pieces ≡ (ms, [])
taken_off-encode_all_from zero ms buffer pieces h e lt = absurd (omega arith)
taken_off-encode_all_from (suc fuel) [] buffer [] h e lt =
    let empty : buffer ≡ [] = (append-eq_nil buffer [] (unfold encode_all in e)).0 in
    rw empty (ends fuel [] decode-nil)
taken_off-encode_all_from (suc fuel) [] buffer (p ∷ pieces) h e lt =
    let empty : buffer ≡ [] =
      (append-eq_nil buffer (p ++ concat pieces) (unfold encode_all in e)).0 in
    asks fuel buffer p pieces (rw empty decode-nil)
    ∙ taken_off-encode_all_from fuel [] (buffer ++ p) pieces h
        (append_assoc buffer p (concat pieces) ∙ e) (omega arith)
taken_off-encode_all_from (suc fuel) (m ∷ ms) buffer [] h e lt =
    let whole = e ∙ encode_all-cons m ms in
    elim (cut_cases buffer (write_message m) [] (encode_all ms []) whole) [
      | inl (rest, f, g) ↦
          takes fuel buffer [] m rest ms (rw f (decode-write_message m rest h.0.0 h.0.1))
            (taken_off-encode_all_from fuel ms rest [] h.1 g (omega arith))
      | inr (b, back, f) ↦
          absurd (too_short buffer (write_message m) (encode_all ms []) b back whole f)
    ]
taken_off-encode_all_from (suc fuel) (m ∷ ms) buffer (p ∷ pieces) h e lt =
    elim (cut_cases buffer (write_message m) (p ++ concat pieces) (encode_all ms [])
      (e ∙ encode_all-cons m ms)) [
        | inl (rest, f, g) ↦
            takes fuel buffer (p ∷ pieces) m rest ms
              (rw f (decode-write_message m rest h.0.0 h.0.1))
              (taken_off-encode_all_from fuel ms rest (p ∷ pieces) h.1 g (omega arith))
        | inr (b, back, f) ↦
            asks fuel buffer p pieces (decode_partial m buffer back b h.0.0 h.0.1 f)
            ∙ taken_off-encode_all_from fuel (m ∷ ms) (buffer ++ p) pieces h
                (append_assoc buffer p (concat pieces) ∙ e) (omega arith)
      ]

-- However the bytes of well-formed messages are cut into pieces on their way, `decode` takes these
-- messages off them, in their order and no other, and leaves nothing, with fuel for each message and each
-- piece.
pub taken_off-encode_all :
    (fuel : ℕ) (ms : List Message) (pieces : List Bytes)
    → All IsWellFormed ms
    → concat pieces ≡ encode_all ms []
    → length ms + length pieces < fuel
    → taken_off fuel [] pieces ≡ (ms, [])
taken_off-encode_all fuel ms pieces h e lt = taken_off-encode_all_from fuel ms [] pieces h e lt

-- The messages that come off pieces of bytes behind a buffer, and what is left: each message takes a
-- byte at least, so that there is fuel enough.
unfoldable pub off_wire : Bytes → List Bytes → List Message × Bytes
off_wire buffer pieces =
    taken_off (suc (length buffer + length (concat pieces) + length pieces)) buffer pieces

length-encode_all :
    (ms : List Message) → All IsWellFormed ms → length ms ≤ length (encode_all ms [])
unfolding encode_all
length-encode_all [] h = omega arith
length-encode_all (m ∷ ms) h =
    let takes_some =
      decode-shrinks (write_message m ++ []) m [] (decode-write_message m [] h.0.0 h.0.1) in
    omega (
      arith,
      takes_some,
      length-encode_all ms h.1,
      ap length (encode_all-cons m ms),
      length-append (write_message m) (encode_all ms []),
      length-append (write_message m) [],
    )

-- Well-formed messages come off the wire as they are, and leave nothing.
pub off_wire-encode_all :
    (ms : List Message) (pieces : List Bytes)
    → All IsWellFormed ms
    → concat pieces ≡ encode_all ms []
    → off_wire [] pieces ≡ (ms, [])
unfolding off_wire
off_wire-encode_all ms pieces h e =
    taken_off-encode_all _ ms pieces h e (omega (arith, length-encode_all ms h, ap length e))
