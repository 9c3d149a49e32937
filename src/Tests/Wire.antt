-- ===== src/Tests/Wire.antt =====
-- The wire format at concrete messages.
use azpfs.Base.{
  ◌≡◌, ◌≢◌, refl, Bytes, List, drop, [], ◌∷◌, ◌++◌, All, IsByte, none, some, arith, take, to_be,
  from_be,
}
use azpfs.Protocol.Message.{Message, lookup_req, set_attr_req}
use azpfs.Protocol.Reader.{read_uint, read_bytes}
use azpfs.Protocol.Write.{write_message, field_mask}
use azpfs.Protocol.Read.{
  decode, message, need_more, malformed, read_message, read_variant, read_lookup_req,
}
use azpfs.Protocol.Read.RoundTrip.{decode-write_message, decode-lookup_req_of_any_length}
use azpfs.Protocol.Read.Incremental.{decode-append, with_more, decode_partial}
use azpfs.Protocol.Read.WellFormed.{IsWellFormed, decode-IsWellFormed}
use azpfs.Protocol.DirEntry.{IsValid, serialize_dir_entires, parse_dir_entries, parsed, write_entry}
use azpfs.Protocol.DirEntry.Laws.{
  parse_dir_entries-serialize_dir_entires, serialize_dir_entires-parse_dir_entries,
}
use azpfs.Protocol.Stream.{encode, encode_all}
use azpfs.Protocol.Stream.Pieces.{taken_off, taken_off-encode_all}
use azpfs.Tests.Backend.{listing}

abbrev asked : Message
asked = lookup_req 7 1 (b'a' ∷ b'b' ∷ [])

abbrev asked_bytes : Bytes
asked_bytes = 0x03 ∷ 0 ∷ 0 ∷ 0 ∷ 7 ∷ 0 ∷ 0 ∷ 0 ∷ 0 ∷ 0 ∷ 0 ∷ 0 ∷ 1 ∷ 2 ∷ b'a' ∷ b'b' ∷ []

write_asked : write_message asked ≡ asked_bytes
unfolding write_message to_be
write_asked = refl

-- Only the modification time and the group: the mask is 0b100100, in the top six bits.
abbrev touched : Message
touched = set_attr_req 1 2 none none (some 5) none none (some 3)

write_touched :
    write_message touched
    ≡ 0x07 ∷ 0 ∷ 0 ∷ 0 ∷ 1 ∷ 0 ∷ 0 ∷ 0 ∷ 0 ∷ 0 ∷ 0 ∷ 0 ∷ 2 ∷ 0x90 ∷ 0 ∷ 0 ∷ 0 ∷ 0 ∷ 0 ∷ 0 ∷ 0 ∷ 5
      ∷ 0 ∷ 0 ∷ 0 ∷ 3 ∷ []
unfolding write_message to_be field_mask
write_touched = refl

read_asked : decode (asked_bytes ++ (9 ∷ [])) ≡ message asked (9 ∷ [])
unfolding decode read_message read_uint read_bytes from_be read_variant read_lookup_req
read_asked = refl

no_such_variant : decode (0x12 ∷ 0 ∷ []) ≡ malformed
unfolding decode read_message read_uint read_bytes from_be read_variant
no_such_variant = refl

decode-write_message_example : decode (write_message touched ++ (9 ∷ [])) ≡ message touched (9 ∷ [])
decode-write_message_example = decode-write_message touched (9 ∷ []) (omega arith) tt

decode-lookup_req_of_any_length_example :
    decode (write_message asked ++ (9 ∷ [])) ≡ message asked (9 ∷ [])
decode-lookup_req_of_any_length_example =
    decode-lookup_req_of_any_length 7 1 (b'a' ∷ b'b' ∷ []) (9 ∷ []) (omega arith)

asked_is_whole : decode (asked_bytes ++ (9 ∷ [])) ≢ need_more
asked_is_whole e = cc (e, read_asked)

decode-append_example :
    decode (asked_bytes ++ (9 ∷ []) ++ (8 ∷ []))
    ≡ with_more (8 ∷ []) (decode (asked_bytes ++ (9 ∷ [])))
decode-append_example = decode-append (asked_bytes ++ (9 ∷ [])) (8 ∷ []) asked_is_whole

decode_partial_example : decode (take 14 asked_bytes) ≡ need_more
decode_partial_example =
    decode_partial asked (take 14 asked_bytes) (b'b' ∷ []) b'a' (omega arith) (omega arith)
      write_asked

decode-IsWellFormed_example : IsWellFormed asked × All IsByte (9 ∷ [])
decode-IsWellFormed_example =
    decode-IsWellFormed (asked_bytes ++ (9 ∷ [])) asked (9 ∷ []) (omega arith) read_asked

listing-IsValid : All IsValid listing
listing-IsValid = omega arith

abbrev packed : Bytes
packed =
    0 ∷ 0 ∷ 0 ∷ 0 ∷ 0 ∷ 0 ∷ 0 ∷ 1 ∷ 3 ∷ 1 ∷ b'.' ∷ 0 ∷ 0 ∷ 0 ∷ 0 ∷ 0 ∷ 0 ∷ 0 ∷ 2 ∷ 4 ∷ 1 ∷ b'a' ∷ []

pack_listing : serialize_dir_entires listing ≡ packed
unfolding serialize_dir_entires write_entry to_be
pack_listing = refl

unpack_listing : parse_dir_entries packed ≡ parsed listing
unpack_listing =
    rw pack_listing at (parse_dir_entries-serialize_dir_entires listing listing-IsValid)

serialize_dir_entires-parse_dir_entries_example :
    (serialize_dir_entires listing ≡ packed) × All IsValid listing
serialize_dir_entires-parse_dir_entries_example =
    serialize_dir_entires-parse_dir_entries packed listing (omega arith) unpack_listing

-- The same message twice, cut within both, with a piece that is empty.
abbrev pieces : List Bytes
pieces =
    take 14 asked_bytes ∷ (drop 14 asked_bytes ++ take 3 asked_bytes) ∷ [] ∷ drop 3 asked_bytes ∷ []

taken_off-encode_all_example : taken_off 7 [] pieces ≡ (asked ∷ asked ∷ [], [])
unfolding encode_all encode write_message to_be
taken_off-encode_all_example =
    taken_off-encode_all 7 (asked ∷ asked ∷ []) pieces
      ((omega arith, omega arith), ((omega arith, omega arith), tt)) refl (omega arith)
