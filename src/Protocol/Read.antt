-- ===== src/Protocol/Read.antt =====
-- `BinRead` of `Message` in src/core/protocol/messages.rs, and `MessageCodec::decode` of
-- src/core/protocol/codec.rs. A variant is read field by field; which variant it is, its magic
-- byte says.
pub mod Fields
pub mod RoundTrip
pub mod Incremental
pub mod WellFormed
use Prim.Native.Nat.{bit_and}
use azpfs.Base.{
  ℕ, ◌/◌, ◌^◌, Bool, true, false, not, Option, none, some, List, Bytes, [], ◌∷◌, ◌==◌, get_elem?,
  if◌then◌else◌,
}
use azpfs.Protocol.Codes.{file_type_of, error_code_of, is_utf8}
use azpfs.Protocol.Message.{
  Message, error, init_req, init_res, lookup_req, lookup_res, get_attr_req, file_attr_res,
  set_attr_req, success_res, stats_req, stats_res, create_req, read_req, read_res, write_req,
  readdir_req, rm_req, move_req,
}
use azpfs.Protocol.Reader.{
  eof, invalid, ReadResult, done, fail, Reader, pure, reject, ◌>>=◌, read_bytes, read_uint,
}

-- `try_map` by a conversion that may fail.
abbrev pub from_option {ℓ} : {A : Type ℓ} → Option A → Reader A
from_option none = reject
from_option (some a) = pure a

-- `#[br(if(…))]` on an `Option` field.
abbrev pub read_if : Bool → Reader ℕ → Reader (Option ℕ)
read_if true p = do n ← p; pure (some n)
read_if false p = pure none

-- `try_map = String::from_utf8`
abbrev pub checked_text : Bytes → Reader Bytes
checked_text bs = if is_utf8 bs then pure bs else reject

-- `b >> 7 != 0`
abbrev pub top_bit : ℕ → Bool
top_bit b = not (b / 2 ^ 7 == 0)

-- `field_mask & (1 << k) != 0`, of the byte that holds the mask in its top six bits.
unfoldable pub has_field : ℕ → ℕ → Bool
has_field byte k = not (bit_and (byte / 2 ^ 2) (2 ^ k) == 0)

unfoldable pub read_error : Reader Message
read_error = do
  id ← read_uint 4
  byte ← read_uint 1
  code ← from_option (error_code_of byte)
  len ← read_uint 2
  bytes ← read_bytes len
  text ← checked_text bytes
  pure (error id code text)

unfoldable pub read_init_req : Reader Message
read_init_req = do id ← read_uint 4; byte ← read_uint 1; pure (init_req id (byte / 2 ^ 4))

unfoldable pub read_init_res : Reader Message
read_init_res = do id ← read_uint 4; byte ← read_uint 1; pure (init_res id (top_bit byte))

unfoldable pub read_lookup_req : Reader Message
read_lookup_req = do
  id ← read_uint 4
  dir ← read_uint 8
  len ← read_uint 1
  name ← read_bytes len
  pure (lookup_req id dir name)

-- The variants with a request id alone.
unfoldable pub read_id : (ℕ → Message) → Reader Message
read_id make = do id ← read_uint 4; pure (make id)

-- The variants with a request id and an inode number.
unfoldable pub read_id_inode : (ℕ → ℕ → Message) → Reader Message
read_id_inode make = do id ← read_uint 4; inode ← read_uint 8; pure (make id inode)

unfoldable pub read_file_attr_res : Reader Message
read_file_attr_res = do
  id ← read_uint 4
  byte ← read_uint 1
  file_type ← from_option (file_type_of (byte / 2 ^ 5))
  size ← read_uint 8
  blocks ← read_uint 8
  atime ← read_uint 8
  mtime ← read_uint 8
  ctime ← read_uint 8
  permissions ← read_uint 2
  nlinks ← read_uint 4
  uid ← read_uint 4
  gid ← read_uint 4
  rdev ← read_uint 4
  blksize ← read_uint 4
  pure (
      file_attr_res id file_type size blocks atime mtime ctime permissions nlinks uid gid rdev
        blksize)

unfoldable pub read_set_attr_req : Reader Message
read_set_attr_req = do
  id ← read_uint 4
  inode ← read_uint 8
  byte ← read_uint 1
  size ← read_if (has_field byte 0) (read_uint 8)
  atime ← read_if (has_field byte 1) (read_uint 8)
  mtime ← read_if (has_field byte 2) (read_uint 8)
  permissions ← read_if (has_field byte 3) (read_uint 2)
  uid ← read_if (has_field byte 4) (read_uint 4)
  gid ← read_if (has_field byte 5) (read_uint 4)
  pure (set_attr_req id inode size atime mtime permissions uid gid)

unfoldable pub read_stats_res : Reader Message
read_stats_res = do
  id ← read_uint 4
  blksize ← read_uint 4
  blocks ← read_uint 8
  free_blocks ← read_uint 8
  avail_blocks ← read_uint 8
  total_inodes ← read_uint 8
  free_inodes ← read_uint 8
  max_filename_len ← read_uint 4
  fragment_size ← read_uint 4
  pure (
      stats_res id blksize blocks free_blocks avail_blocks total_inodes free_inodes max_filename_len
        fragment_size)

unfoldable pub read_create_req : Reader Message
read_create_req = do
  id ← read_uint 4
  dir ← read_uint 8
  permissions ← read_uint 2
  unix_flags ← read_uint 4
  byte ← read_uint 1
  len ← read_uint 1
  name ← read_bytes len
  pure (create_req id dir permissions unix_flags (top_bit byte) name)

unfoldable pub read_read_req : Reader Message
read_read_req = do
  id ← read_uint 4
  inode ← read_uint 8
  offset ← read_uint 8
  len ← read_uint 8
  pure (read_req id inode offset len)

unfoldable pub read_read_res : Reader Message
read_read_res = do
  id ← read_uint 4
  total ← read_uint 8
  len ← read_uint 2
  offset ← read_uint 8
  chunk ← read_bytes len
  pure (read_res id total offset chunk)

unfoldable pub read_write_req : Reader Message
read_write_req = do
  id ← read_uint 4
  inode ← read_uint 8
  offset ← read_uint 8
  len ← read_uint 4
  content ← read_bytes len
  pure (write_req id inode offset content)

unfoldable pub read_move_req : Reader Message
read_move_req = do
  id ← read_uint 4
  inode ← read_uint 8
  dir ← read_uint 8
  len ← read_uint 1
  name ← read_bytes len
  pure (move_req id inode dir name)

-- The readers of the variants by their magic bytes, 0x00 to 0x11.
unfoldable pub variants : List (Reader Message)
variants =
    read_error
    ∷ read_init_req
    ∷ read_init_res
    ∷ read_lookup_req
    ∷ read_id_inode lookup_res
    ∷ read_id_inode get_attr_req
    ∷ read_file_attr_res
    ∷ read_set_attr_req
    ∷ read_id success_res
    ∷ read_id stats_req
    ∷ read_stats_res
    ∷ read_create_req
    ∷ read_read_req
    ∷ read_read_res
    ∷ read_write_req
    ∷ read_id_inode readdir_req
    ∷ read_id_inode rm_req
    ∷ read_move_req
    ∷ []

-- With no variant of that magic byte, every variant fails by its magic.
abbrev pub or_reject : Option (Reader Message) → Reader Message
or_reject none = reject
or_reject (some p) = p

unfoldable pub read_variant : ℕ → Reader Message
unfolding variants
read_variant magic = or_reject (get_elem? variants magic)

unfoldable pub read_message : Reader Message
read_message = do magic ← read_uint 1; read_variant magic

-- What `MessageCodec::decode` returns: a message, with the input that `advance` leaves; `Ok(None)`,
-- which asks for more input; or an error.
pub data Decoded : Type 0 where
  message : Message → Bytes → Decoded
  need_more : Decoded
  malformed : Decoded

abbrev pub answer : ReadResult Message → Decoded
answer (done msg rest) = message msg rest
answer (fail eof) = need_more
answer (fail invalid) = malformed

unfoldable pub decode : Bytes → Decoded
decode src = answer (read_message src)
