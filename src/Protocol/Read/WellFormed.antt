-- ===== src/Protocol/Read/WellFormed.antt =====
-- The messages that `decode` reads off bytes.
mod Variants
use azpfs.Base.{
  ℕ, ◌<◌, ◌≡◌, Bool, true, false, Bytes, ◌++◌, length, arith, Option, none, some, ap, Bool-cases,
  inl, inr, ◌/◌, ◌^◌, All, get_elem?, get_elem?-All, refl, IsByte, IsU32, IsU64,
}
use azpfs.Protocol.Codes.{error_code_of, file_type_of, is_utf8}
use azpfs.Protocol.Message.{
  Message, error, init_req, init_res, lookup_req, lookup_res, get_attr_req, file_attr_res,
  set_attr_req, success_res, stats_req, stats_res, create_req, read_req, read_res, write_req,
  readdir_req, rm_req, move_req, IsTyped, Fits, AllSome,
}
use azpfs.Protocol.Reader.{Reader, read_uint}
use azpfs.Protocol.Reader.Ensures.{
  Holds-done, Ensures, pure-Ensures as pure, reject-Ensures, >>=-Ensures as bind,
  read_bytes-Ensures as bytes, read_uint-Ensures as uint,
}
use azpfs.Protocol.Write.{write_message}
use azpfs.Protocol.Read.{
  read_message, read_variant, read_error, read_init_req, read_init_res, read_lookup_req, read_id,
  read_id_inode, read_file_attr_res, read_set_attr_req, read_stats_res, read_create_req,
  read_read_req, read_read_res, read_write_req, read_move_req, decode, message, from_option,
  read_if, checked_text, variants, or_reject, top_bit, has_field,
}
use azpfs.Protocol.Read.RoundTrip.{decode-write_message}
use azpfs.Protocol.Read.Incremental.{answer-eq_message}
use azpfs.Protocol.Read.WellFormed.Variants.{read_message-Ensures}
pub use azpfs.Protocol.Read.WellFormed.Variants.{IsWellFormed}

-- A message that is decoded from bytes lies within the Rust types and can be encoded without loss;
-- what is left of the input is bytes.
pub decode-IsWellFormed :
    (src : Bytes) (m : Message) (rest : Bytes)
    → All IsByte src
    → decode src ≡ message m rest
    → IsWellFormed m × All IsByte rest
unfolding decode
decode-IsWellFormed src m rest h e =
    Holds-done (read_message-Ensures src h) (answer-eq_message (read_message src) e)

-- So a message that came off the wire can be sent on: encoded anew, behind which anything may
-- follow, it decodes to itself.
pub decode-write_message-decode :
    (src : Bytes) (m : Message) (rest more : Bytes)
    → All IsByte src
    → decode src ≡ message m rest
    → decode (write_message m ++ more) ≡ message m more
decode-write_message-decode src m rest more h e =
    let wf = (decode-IsWellFormed src m rest h e).0 in decode-write_message m more wf.0 wf.1
