-- ===== src/Protocol/Stream.antt =====
-- The messages of a connection as one stream of bytes: what `FramedWrite` appends with
-- `MessageCodec::encode`, one message after the other, and what `decode` takes off it.
pub mod Pieces
use azpfs.Base.{
  append-nil, sym, ap, ◌∙◌, ◌≡◌, refl, Bytes, List, [], ◌∷◌, ◌++◌, All, append_assoc, IsByte,
}
use mathlib.Core.Path.{subst}
use azpfs.Protocol.Message.{Message}
use azpfs.Protocol.Write.{write_message}
use azpfs.Protocol.Read.{message, decode}
use azpfs.Protocol.Read.RoundTrip.{decode-write_message}
use azpfs.Protocol.Read.WellFormed.{IsWellFormed, decode-IsWellFormed}

-- `MessageCodec::encode`, with the buffer that it extends. Writing into a cursor over a vector does not
-- fail, so there is no error case.
unfoldable pub encode : Message → Bytes → Bytes
encode msg dst = dst ++ write_message msg

-- What the buffer comes to with messages that are encoded one after the other.
unfoldable pub encode_all : List Message → Bytes → Bytes
encode_all [] dst = dst
encode_all (m ∷ ms) dst = encode_all ms (encode m dst)

-- The bytes decode to these messages, one after the other, and `left` is left.
abbrev pub Decodes : Bytes → List Message → Bytes → Type 0
Decodes src [] left = src ≡ left
Decodes src (m ∷ ms) left = (rest : Bytes) × (decode src ≡ message m rest) × Decodes rest ms left

encode_all-append :
    (ms : List Message) (dst src : Bytes) → encode_all ms (dst ++ src) ≡ dst ++ encode_all ms src
unfolding encode_all encode
encode_all-append [] dst src = refl
encode_all-append (m ∷ ms) dst src =
    ap (encode_all ms) (append_assoc dst src (write_message m))
    ∙ encode_all-append ms dst (src ++ write_message m)

-- What the encoding of messages begins with.
pub encode_all-cons :
    (m : Message) (ms : List Message) → encode_all (m ∷ ms) [] ≡ write_message m ++ encode_all ms []
unfolding encode_all encode
encode_all-cons m ms =
    ap (encode_all ms) (sym (append-nil (write_message m)))
    ∙ encode_all-append ms (write_message m) []

pub encode_all-Decodes :
    (ms : List Message) (left : Bytes)
    → All IsWellFormed ms
    → Decodes (encode_all ms [] ++ left) ms left
unfolding encode_all encode
encode_all-Decodes [] left h = refl
encode_all-Decodes (m ∷ ms) left (h, hs) = (
  encode_all ms [] ++ left,
  rw (encode_all-cons m ms, append_assoc)
      (decode-write_message m (encode_all ms [] ++ left) h.0 h.1),
  encode_all-Decodes ms left hs,
)

-- Messages that come off a stream of bytes are well-formed.
pub Decodes-IsWellFormed :
    (src : Bytes) (ms : List Message) (left : Bytes)
    → All IsByte src
    → Decodes src ms left
    → All IsWellFormed ms × All IsByte left
Decodes-IsWellFormed src [] left b e = (tt, subst (All IsByte) e b)
Decodes-IsWellFormed src (m ∷ ms) left b (rest, e, more) =
    let one = decode-IsWellFormed src m rest b e in
    let others = Decodes-IsWellFormed rest ms left one.1 more in ((one.0, others.0), others.1)
