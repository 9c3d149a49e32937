-- ===== src/Protocol/Read/Incremental/Variants.antt =====
-- The readers of src/core/protocol/messages.rs on input that arrives piece by piece.
use azpfs.Base.{
  ℕ, ◌≡◌, Bool, true, false, Bytes, Option, none, some, get_elem?-All, All, get_elem?, refl,
  Bool-cases, inl, inr,
}
use azpfs.Protocol.Codes.{is_utf8}
use azpfs.Protocol.Message.{
  Message, lookup_res, get_attr_req, success_res, stats_req, readdir_req, rm_req,
}
use azpfs.Protocol.Reader.{Reader, read_uint}
use azpfs.Protocol.Reader.Incremental.{
  IsIncremental, pure-IsIncremental, reject-IsIncremental, >>=-IsIncremental as bind,
  read_bytes-IsIncremental as bytes, read_uint-IsIncremental as uint,
}
use azpfs.Protocol.Read.{
  read_message, read_variant, read_error, read_init_req, read_init_res, read_lookup_req, read_id,
  read_id_inode, read_file_attr_res, read_set_attr_req, read_stats_res, read_create_req,
  read_read_req, read_read_res, read_write_req, read_move_req, from_option, read_if, checked_text,
  variants, or_reject,
}

from_option-IsIncremental {ℓ} : {A : Type ℓ} (o : Option A) → IsIncremental (from_option o)
from_option-IsIncremental none = reject-IsIncremental
from_option-IsIncremental (some a) = pure-IsIncremental a

read_if-IsIncremental : (b : Bool) (w : ℕ) → IsIncremental (read_if b (read_uint w))
read_if-IsIncremental true w = bind (uint w) λ n. pure-IsIncremental (some n)
read_if-IsIncremental false w = pure-IsIncremental none

checked_text-IsIncremental : (bs : Bytes) → IsIncremental (checked_text bs)
checked_text-IsIncremental bs = elim (Bool-cases (is_utf8 bs)) [
  | inl e ↦ rw e (pure-IsIncremental bs)
  | inr e ↦ rw e reject-IsIncremental
]

ruleset parts = (
  bind, uint, bytes, pure-IsIncremental, from_option-IsIncremental, read_if-IsIncremental,
  checked_text-IsIncremental,
)

read_error-IsIncremental : IsIncremental read_error
unfolding read_error
read_error-IsIncremental = search parts depth 30

read_init_req-IsIncremental : IsIncremental read_init_req
unfolding read_init_req
read_init_req-IsIncremental = search parts depth 30

read_init_res-IsIncremental : IsIncremental read_init_res
unfolding read_init_res
read_init_res-IsIncremental = search parts depth 30

read_lookup_req-IsIncremental : IsIncremental read_lookup_req
unfolding read_lookup_req
read_lookup_req-IsIncremental = search parts depth 30

read_file_attr_res-IsIncremental : IsIncremental read_file_attr_res
unfolding read_file_attr_res
read_file_attr_res-IsIncremental = search parts depth 30

read_set_attr_req-IsIncremental : IsIncremental read_set_attr_req
unfolding read_set_attr_req
read_set_attr_req-IsIncremental = search parts depth 30

read_stats_res-IsIncremental : IsIncremental read_stats_res
unfolding read_stats_res
read_stats_res-IsIncremental = search parts depth 30

read_create_req-IsIncremental : IsIncremental read_create_req
unfolding read_create_req
read_create_req-IsIncremental = search parts depth 30

read_read_req-IsIncremental : IsIncremental read_read_req
unfolding read_read_req
read_read_req-IsIncremental = search parts depth 30

read_read_res-IsIncremental : IsIncremental read_read_res
unfolding read_read_res
read_read_res-IsIncremental = search parts depth 30

read_write_req-IsIncremental : IsIncremental read_write_req
unfolding read_write_req
read_write_req-IsIncremental = search parts depth 30

read_move_req-IsIncremental : IsIncremental read_move_req
unfolding read_move_req
read_move_req-IsIncremental = search parts depth 30

read_id-IsIncremental : (make : ℕ → Message) → IsIncremental (read_id make)
unfolding read_id
read_id-IsIncremental make = search parts depth 30

read_id_inode-IsIncremental : (make : ℕ → ℕ → Message) → IsIncremental (read_id_inode make)
unfolding read_id_inode
read_id_inode-IsIncremental make = search parts depth 30

-- A property of the readers of all variants, and of the rejection, holds of `read_variant`.
pub variants-All : All IsIncremental variants
unfolding variants
variants-All = (
  read_error-IsIncremental,
  (
    read_init_req-IsIncremental,
    (
      read_init_res-IsIncremental,
      (
        read_lookup_req-IsIncremental,
        (
          read_id_inode-IsIncremental lookup_res,
          (
            read_id_inode-IsIncremental get_attr_req,
            (
              read_file_attr_res-IsIncremental,
              (
                read_set_attr_req-IsIncremental,
                (
                  read_id-IsIncremental success_res,
                  (
                    read_id-IsIncremental stats_req,
                    (
                      read_stats_res-IsIncremental,
                      (
                        read_create_req-IsIncremental,
                        (
                          read_read_req-IsIncremental,
                          (
                            read_read_res-IsIncremental,
                            (
                              read_write_req-IsIncremental,
                              (
                                read_id_inode-IsIncremental readdir_req,
                                (
                                  read_id_inode-IsIncremental rm_req,
                                  (read_move_req-IsIncremental, tt),
                                ),
                              ),
                            ),
                          ),
                        ),
                      ),
                    ),
                  ),
                ),
              ),
            ),
          ),
        ),
      ),
    ),
  ),
)

pub or_reject-IsIncremental :
    (magic : ℕ) (o : Option (Reader Message))
    → get_elem? variants magic ≡ o
    → IsIncremental (or_reject o)
or_reject-IsIncremental magic none e = reject-IsIncremental
or_reject-IsIncremental magic (some p) e = get_elem?-All IsIncremental variants magic variants-All e

pub read_message-IsIncremental : IsIncremental read_message
unfolding read_message read_variant
read_message-IsIncremental =
    bind (uint 1) λ magic. or_reject-IsIncremental magic (get_elem? variants magic) refl
