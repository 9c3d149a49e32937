-- ===== src/Protocol/Read/Incremental.antt =====
-- `MessageCodec::decode` of src/core/protocol/codec.rs on a stream that arrives piece by piece.
mod Variants
use azpfs.Base.{
  ℕ, ◌<◌, ◌≡◌, ◌≢◌, Bool, true, false, Bytes, [], ◌∷◌, ◌++◌, length, arith, Option, none, some,
  append-nil, length-append, get_elem?-All, from_be, ◌⊎◌, All, get_elem?, refl, Bool-cases, inl,
  inr,
}
use azpfs.Protocol.Codes.{is_utf8}
use azpfs.Protocol.Message.{
  Message, lookup_res, get_attr_req, success_res, stats_req, readdir_req, rm_req, IsTyped, Fits,
}
use azpfs.Protocol.Reader.{
  ReadResult, eof, invalid, done, fail, Reader, read_uint, read_byte, read_bytes,
}
use azpfs.Protocol.Reader.Incremental.{
  IsIncremental, pure-IsIncremental, reject-IsIncremental, >>=-IsIncremental as bind,
  read_bytes-IsIncremental as bytes, read_uint-IsIncremental as uint,
}
use azpfs.Protocol.Write.{write_message}
use azpfs.Protocol.Read.RoundTrip.{decode-write_message}
use azpfs.Protocol.Read.{
  read_message, read_variant, read_error, read_init_req, read_init_res, read_lookup_req, read_id,
  read_id_inode, read_file_attr_res, read_set_attr_req, read_stats_res, read_create_req,
  read_read_req, read_read_res, read_write_req, read_move_req, decode, message, need_more,
  malformed, from_option, read_if, checked_text, variants, answer, Decoded, or_reject,
}
use azpfs.Protocol.Read.Incremental.Variants.{
  read_message-IsIncremental, or_reject-IsIncremental, variants-All,
}

pub answer-eq_message :
    (r : ReadResult Message) {m : Message} {rest : Bytes}
    → answer r ≡ message m rest
    → r ≡ done m rest
answer-eq_message (done a left) e = cc
answer-eq_message (fail eof) e = cc
answer-eq_message (fail invalid) e = cc

answer-eq_malformed : (r : ReadResult Message) → answer r ≡ malformed → r ≡ fail invalid
answer-eq_malformed (done a left) e = cc
answer-eq_malformed (fail eof) e = cc
answer-eq_malformed (fail invalid) e = refl

decode-append_message :
    (src more : Bytes) (m : Message) (rest : Bytes)
    → decode src ≡ message m rest
    → decode (src ++ more) ≡ message m (rest ++ more)
unfolding decode
decode-append_message src more m rest e = rw (
  read_message-IsIncremental.on_done src more m rest (answer-eq_message (read_message src) e),
  decode,
)

decode-append_malformed :
    (src more : Bytes) → decode src ≡ malformed → decode (src ++ more) ≡ malformed
unfolding decode
decode-append_malformed src more e = rw (
  read_message-IsIncremental.on_invalid src more (answer-eq_malformed (read_message src) e),
  decode,
)

Decoded-cases :
    (d : Decoded)
    → ((m : Message) × (rest : Bytes) × (d ≡ message m rest)) ⊎ ((d ≡ need_more) ⊎ (d ≡ malformed))
Decoded-cases (message m rest) = inl (m, rest, refl)
Decoded-cases need_more = inr (inl refl)
Decoded-cases malformed = inr (inr refl)

-- A result with more input behind it.
abbrev pub with_more : Bytes → Decoded → Decoded
with_more more (message m rest) = message m (rest ++ more)
with_more more d = d

-- Once `decode` asks for no more input, what it gives is settled: whatever arrives behind is left
-- behind the message, and input that is malformed stays so.
pub decode-append :
    (src more : Bytes) → decode src ≢ need_more → decode (src ++ more) ≡ with_more more (decode src)
decode-append src more h = elim (Decoded-cases (decode src)) [
  | inl (m, rest, e) ↦ rw e (decode-append_message src more m rest e)
  | inr (inl e) ↦ absurd (h e)
  | inr (inr e) ↦ rw e (decode-append_malformed src more e)
]

-- Each message takes at least its magic byte: the loop that decodes a buffer makes progress.
pub decode-shrinks :
    (src : Bytes) (m : Message) (rest : Bytes)
    → decode src ≡ message m rest
    → length rest < length src
unfolding decode read_message read_uint read_bytes read_byte
decode-shrinks [] m rest e = cc
decode-shrinks (b ∷ src) m rest e =
    let body =
      or_reject-IsIncremental (from_be (b ∷ [])) (get_elem? variants (from_be (b ∷ []))) refl in
    omega (arith, body.shrinks src m rest (unfold read_variant in answer-eq_message _ e))

-- On a proper part of an encoded message that the Rust types admit, and whose lengths and version fit
-- their fields, `decode` asks for more input: it neither rejects what has arrived nor reads another
-- message out of it.
pub decode_partial :
    (m : Message) (front back : Bytes) (b : ℕ)
    → IsTyped m
    → Fits m
    → write_message m ≡ front ++ (b ∷ back)
    → decode front ≡ need_more
decode_partial m front back b h k e = elim (Decoded-cases (decode front)) [
  | inl (m', rest, r) ↦ ground (
    arith,
    whole,
    decode-append_message front (b ∷ back) m' rest r,
    length-append rest (b ∷ back),
  )
  | inr (inl r) ↦ r
  | inr (inr r) ↦ cc (whole, decode-append_malformed front (b ∷ back) r)
]
  where
    whole : decode (front ++ (b ∷ back)) ≡ message m []
    whole = rw (append-nil, e) at (decode-write_message m [] h k)
