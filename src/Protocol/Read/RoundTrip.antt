-- ===== src/Protocol/Read/RoundTrip.antt =====
-- `decode` on what `encode` wrote, for the messages of src/core/protocol/messages.rs.
use azpfs.Base.{
  ℕ, ◌%◌, ◌/◌, ◌*◌, ◌^◌, ◌<◌, ◌≡◌, Bytes, ◌++◌, length, take, drop, arith, to_be, append_assoc,
  Option,
}
use azpfs.Protocol.Codes.{error_code_of-error_code_byte}
use azpfs.Protocol.Message.{
  Message, error, init_req, init_res, lookup_req, lookup_res, get_attr_req, file_attr_res,
  set_attr_req, success_res, stats_req, stats_res, create_req, read_req, read_res, write_req,
  readdir_req, rm_req, move_req, IsTyped, Fits,
}
use azpfs.Protocol.Reader.{done}
use azpfs.Protocol.Reader.Laws.{
  read_bytes_prefix, read_bytes-append, read_uint-to_be, read_uint_byte, read_uint-length,
}
use azpfs.Protocol.Write.{write_message}
use azpfs.Protocol.Read.{
  read_message, read_variant, read_error, read_init_req, read_init_res, read_lookup_req, read_id,
  read_id_inode, read_file_attr_res, read_set_attr_req, read_stats_res, read_create_req,
  read_read_req, read_read_res, read_write_req, read_move_req, decode, message,
}
use azpfs.Protocol.Read.Fields.{
  top_bit-flag_byte, file_type_of-shifted, has_field-field_mask, read_if-write_option,
}

ruleset steps = (
  append_assoc, read_uint_byte, read_bytes-append, top_bit-flag_byte, file_type_of-shifted,
  error_code_of-error_code_byte,
)

-- A message is read off the front of its own bytes.
abbrev ReadsBack : Message → Type 0
ReadsBack m = (rest : Bytes) → read_message (write_message m ++ rest) ≡ done m rest

-- The version keeps its four bits.
version_nibble : (v : ℕ) → v < 16 → v * 2 ^ 4 % 2 ^ 8 / 2 ^ 4 ≡ v
version_nibble v h = omega arith

read_file_attr_res-ReadsBack :
    (id : ℕ) (ty : _) (s b at mt ct p n u g r k : ℕ)
    → IsTyped (file_attr_res id ty s b at mt ct p n u g r k)
    → ReadsBack (file_attr_res id ty s b at mt ct p n u g r k)
unfolding read_message write_message read_variant read_file_attr_res
read_file_attr_res-ReadsBack id ty s b at mt ct p n u g r k h rest = simp (
  steps,
  read_uint-to_be 4 id h.0,
  read_uint-to_be 8 s h.1,
  read_uint-to_be 8 b h.2,
  read_uint-to_be 8 at h.3,
  read_uint-to_be 8 mt h.4,
  read_uint-to_be 8 ct h.5,
  read_uint-to_be 2 p h.6,
  read_uint-to_be 4 n h.7,
  read_uint-to_be 4 u h.8,
  read_uint-to_be 4 g h.9,
  read_uint-to_be 4 r h.10,
  read_uint-to_be 4 k h.11,
)

read_set_attr_req-ReadsBack :
    (id i : ℕ) (s at mt p u g : Option ℕ)
    → IsTyped (set_attr_req id i s at mt p u g)
    → ReadsBack (set_attr_req id i s at mt p u g)
unfolding read_message write_message read_variant read_set_attr_req
read_set_attr_req-ReadsBack id i s at mt p u g h rest =
    let bits = has_field-field_mask s at mt p u g in
    simp (
      steps,
      read_uint-to_be 4 id h.0,
      read_uint-to_be 8 i h.1,
      bits.0,
      bits.1,
      bits.2,
      bits.3,
      bits.4,
      bits.5,
      read_if-write_option 8 s h.2,
      read_if-write_option 8 at h.3,
      read_if-write_option 8 mt h.4,
      read_if-write_option 2 p h.5,
      read_if-write_option 4 u h.6,
      read_if-write_option 4 g h.7,
    )

read_stats_res-ReadsBack :
    (id k b f a t i m g : ℕ)
    → IsTyped (stats_res id k b f a t i m g)
    → ReadsBack (stats_res id k b f a t i m g)
unfolding read_message write_message read_variant read_stats_res
read_stats_res-ReadsBack id k b f a t i m g h rest = simp (
  steps,
  read_uint-to_be 4 id h.0,
  read_uint-to_be 4 k h.1,
  read_uint-to_be 8 b h.2,
  read_uint-to_be 8 f h.3,
  read_uint-to_be 8 a h.4,
  read_uint-to_be 8 t h.5,
  read_uint-to_be 8 i h.6,
  read_uint-to_be 4 m h.7,
  read_uint-to_be 4 g h.8,
)

-- The messages of a request id alone, or with an inode number.
read_id-ReadsBack :
    (id : ℕ) (rest : Bytes) (make : ℕ → Message)
    → id < 256 ^ 4
    → read_id make (to_be 4 id ++ rest) ≡ done (make id) rest
unfolding read_id
read_id-ReadsBack id rest make h = rw (read_uint-to_be 4 id h)

read_id_inode-ReadsBack :
    (id inode : ℕ) (rest : Bytes) (make : ℕ → ℕ → Message)
    → id < 256 ^ 4
    → inode < 256 ^ 8
    → read_id_inode make ((to_be 4 id ++ to_be 8 inode) ++ rest) ≡ done (make id inode) rest
unfolding read_id_inode
read_id_inode-ReadsBack id inode rest make h k =
    simp (append_assoc, read_uint-to_be 4 id h, read_uint-to_be 8 inode k)

-- A message whose lengths fit their prefixes is read back from its own bytes, and what follows
-- them is left.
pub read_message-write_message :
    (m : Message)
    → IsTyped m
    → Fits m
    → (rest : Bytes) → read_message (write_message m ++ rest) ≡ done m rest
unfolding read_message write_message read_variant read_error read_init_req read_init_res
    read_lookup_req read_create_req read_read_req read_read_res read_write_req read_move_req
read_message-write_message (error id c m) h k rest =
    simp (steps, read_uint-to_be 4 id h.0, read_uint-length 2 m k, h.2)
read_message-write_message (init_req id v) h k rest =
    simp (steps, read_uint-to_be 4 id h.0, version_nibble v k)
read_message-write_message (init_res id a) h k rest = simp (steps, read_uint-to_be 4 id h)
read_message-write_message (lookup_req id d f) h k rest =
    simp (steps, read_uint-to_be 4 id h.0, read_uint-to_be 8 d h.1, read_uint-length 1 f k)
read_message-write_message (lookup_res id i) h k rest =
    simp (read_uint_byte, read_id_inode-ReadsBack id i rest lookup_res h.0 h.1)
read_message-write_message (get_attr_req id i) h k rest =
    simp (read_uint_byte, read_id_inode-ReadsBack id i rest get_attr_req h.0 h.1)
read_message-write_message (file_attr_res id ty s b at mt ct p n u g r q) h k rest =
    read_file_attr_res-ReadsBack id ty s b at mt ct p n u g r q h rest
read_message-write_message (set_attr_req id i s at mt p u g) h k rest =
    read_set_attr_req-ReadsBack id i s at mt p u g h rest
read_message-write_message (success_res id) h k rest =
    simp (read_uint_byte, read_id-ReadsBack id rest success_res h)
read_message-write_message (stats_req id) h k rest =
    simp (read_uint_byte, read_id-ReadsBack id rest stats_req h)
read_message-write_message (stats_res id q b f a t i m g) h k rest =
    read_stats_res-ReadsBack id q b f a t i m g h rest
read_message-write_message (create_req id d p u di f) h k rest = simp (
  steps,
  read_uint-to_be 4 id h.0,
  read_uint-to_be 8 d h.1,
  read_uint-to_be 2 p h.2,
  read_uint-to_be 4 u h.3,
  read_uint-length 1 f k,
)
read_message-write_message (read_req id i o l) h k rest = simp (
  steps,
  read_uint-to_be 4 id h.0,
  read_uint-to_be 8 i h.1,
  read_uint-to_be 8 o h.2,
  read_uint-to_be 8 l h.3,
)
read_message-write_message (read_res id t o c) h k rest = simp (
  steps,
  read_uint-to_be 4 id h.0,
  read_uint-to_be 8 t h.1,
  read_uint-to_be 8 o h.2,
  read_uint-length 2 c k,
)
read_message-write_message (write_req id i o c) h k rest = simp (
  steps,
  read_uint-to_be 4 id h.0,
  read_uint-to_be 8 i h.1,
  read_uint-to_be 8 o h.2,
  read_uint-length 4 c k,
)
read_message-write_message (readdir_req id i) h k rest =
    simp (read_uint_byte, read_id_inode-ReadsBack id i rest readdir_req h.0 h.1)
read_message-write_message (rm_req id i) h k rest =
    simp (read_uint_byte, read_id_inode-ReadsBack id i rest rm_req h.0 h.1)
read_message-write_message (move_req id i d f) h k rest = simp (
  steps,
  read_uint-to_be 4 id h.0,
  read_uint-to_be 8 i h.1,
  read_uint-to_be 8 d h.2,
  read_uint-length 1 f k,
)

-- Decoding what was encoded gives the message back, and leaves the bytes behind it, if the message
-- is one that the Rust types admit, its lengths fit their prefixes and its version its four bits.
pub decode-write_message :
    (m : Message) (rest : Bytes)
    → IsTyped m
    → Fits m
    → decode (write_message m ++ rest) ≡ message m rest
unfolding decode
decode-write_message m rest h k = rw (read_message-write_message m h k rest, decode)

-- A LOOKUP with a name of any length: the reader takes as many bytes of the name as its length says
-- modulo 256, and leaves the others in the stream, in front of the next message. For a name of
-- 256 bytes or more these are its last bytes.
pub decode-lookup_req_of_any_length :
    (id dir : ℕ) (name rest : Bytes)
    → IsTyped (lookup_req id dir name)
    → decode (write_message (lookup_req id dir name) ++ rest)
      ≡ message
          (lookup_req id dir (take (length name % 2 ^ 8) name))
          (drop (length name % 2 ^ 8) name ++ rest)
unfolding decode read_message write_message read_variant read_lookup_req
decode-lookup_req_of_any_length id dir name rest h =
    let n = length name % 2 ^ 8 in
    simp (
      steps,
      read_uint-to_be 4 id h.0,
      read_uint-to_be 8 dir h.1,
      read_uint-to_be 1 n (omega arith),
      read_bytes_prefix n name rest (omega arith),
    )
