-- ===== src/Protocol/Read/WellFormed/Variants.antt =====
-- What the readers of src/core/protocol/messages.rs give on bytes.
use azpfs.Base.{
  ℕ, ◌<◌, ◌≡◌, Bool, true, false, Bytes, length, arith, Option, none, some, ap, Bool-cases, inl,
  inr, ◌/◌, ◌^◌, All, get_elem?, get_elem?-All, refl, IsByte, IsU32, IsU64,
}
use azpfs.Protocol.Codes.{error_code_of, file_type_of, is_utf8}
use azpfs.Protocol.Message.{
  Message, error, init_req, init_res, lookup_req, lookup_res, get_attr_req, file_attr_res,
  set_attr_req, success_res, stats_req, stats_res, create_req, read_req, read_res, write_req,
  readdir_req, rm_req, move_req, IsTyped, Fits, AllSome,
}
use azpfs.Protocol.Reader.{Reader, read_uint}
use azpfs.Protocol.Reader.Ensures.{
  Ensures, pure-Ensures as pure, reject-Ensures, >>=-Ensures as bind, read_bytes-Ensures as bytes,
  read_uint-Ensures as uint,
}
use azpfs.Protocol.Read.{
  read_message, read_variant, read_error, read_init_req, read_init_res, read_lookup_req, read_id,
  read_id_inode, read_file_attr_res, read_set_attr_req, read_stats_res, read_create_req,
  read_read_req, read_read_res, read_write_req, read_move_req, from_option, read_if, checked_text,
  variants, or_reject, top_bit, has_field,
}

-- A message that can be encoded and decoded again.
abbrev pub IsWellFormed : Message → Type 0
IsWellFormed m = IsTyped m × Fits m

-- A reader of one variant.
abbrev ReadsWellFormed : Reader Message → Type 0
ReadsWellFormed p = Ensures p IsWellFormed

from_option-Ensures {ℓ} : {A : Type ℓ} (o : Option A) → Ensures (from_option o) λ a. Unit {0}
from_option-Ensures none = reject-Ensures
from_option-Ensures (some a) = pure a tt

read_if-Ensures :
    (b : Bool) (w : ℕ) → Ensures (read_if b (read_uint w)) λ o. AllSome (λ n. n < 256 ^ w) o
read_if-Ensures true w = bind (uint w) λ n h. pure (some n) h
read_if-Ensures false w = pure none tt

checked_text-Ensures :
    (bs : Bytes)
    → All IsByte bs
    → Ensures (checked_text bs) λ text. (text ≡ bs) × (is_utf8 text ≡ true)
checked_text-Ensures bs h = elim (Bool-cases (is_utf8 bs)) [
  | inl e ↦ rw e (pure bs (refl, e))
  | inr e ↦ rw e reject-Ensures
]

read_error-Ensures : ReadsWellFormed read_error
unfolding read_error
read_error-Ensures = bind (uint 4) λ id hid. bind (uint 1) λ byte _.
    bind (from_option-Ensures (error_code_of byte)) λ code _. bind (uint 2) λ len hlen.
      bind (bytes len) λ bs h. bind (checked_text-Ensures bs h.0) λ text ht.
        pure (error id code text) ((hid, rw ht.0 h.0, ht.1), omega (arith, ap length ht.0, h.1))

read_init_req-Ensures : ReadsWellFormed read_init_req
unfolding read_init_req
read_init_req-Ensures = bind (uint 4) λ id hid.
    bind (uint 1) λ byte h. pure (init_req id (byte / 2 ^ 4)) ((hid, omega arith), omega arith)

read_init_res-Ensures : ReadsWellFormed read_init_res
unfolding read_init_res
read_init_res-Ensures =
    bind (uint 4) λ id hid. bind (uint 1) λ byte h. pure (init_res id (top_bit byte)) (hid, tt)

read_lookup_req-Ensures : ReadsWellFormed read_lookup_req
unfolding read_lookup_req
read_lookup_req-Ensures = bind (uint 4) λ id hid. bind (uint 8) λ dir hdir.
    bind (uint 1) λ len hlen.
      bind (bytes len)
        λ name h. pure (lookup_req id dir name) ((hid, hdir, h.0), omega (arith, h.1))

read_id-Ensures :
    (make : ℕ → Message)
    → ((id : ℕ) → IsU32 id → IsWellFormed (make id))
    → ReadsWellFormed (read_id make)
unfolding read_id
read_id-Ensures make wf = bind (uint 4) λ id hid. pure (make id) (wf id hid)

read_id_inode-Ensures :
    (make : ℕ → ℕ → Message)
    → ((id inode : ℕ) → IsU32 id → IsU64 inode → IsWellFormed (make id inode))
    → ReadsWellFormed (read_id_inode make)
unfolding read_id_inode
read_id_inode-Ensures make wf =
    bind (uint 4) λ id hid. bind (uint 8) λ inode h. pure (make id inode) (wf id inode hid h)

read_file_attr_res-Ensures : ReadsWellFormed read_file_attr_res
unfolding read_file_attr_res
read_file_attr_res-Ensures = bind (uint 4) λ id h0. bind (uint 1) λ byte _.
    bind (from_option-Ensures (file_type_of (byte / 2 ^ 5))) λ ty _. bind (uint 8) λ s h1.
      bind (uint 8) λ b h2. bind (uint 8) λ at h3. bind (uint 8) λ mt h4. bind (uint 8) λ ct h5.
        bind (uint 2) λ p h6. bind (uint 4) λ n h7. bind (uint 4) λ u h8. bind (uint 4) λ g h9.
          bind (uint 4) λ r h10. bind (uint 4) λ k h11.
            pure (file_attr_res id ty s b at mt ct p n u g r k)
              ((h0, h1, h2, h3, h4, h5, h6, h7, h8, h9, h10, h11), tt)

read_set_attr_req-Ensures : ReadsWellFormed read_set_attr_req
unfolding read_set_attr_req
read_set_attr_req-Ensures = bind (uint 4) λ id h0. bind (uint 8) λ i h1. bind (uint 1) λ byte _.
    bind (read_if-Ensures (has_field byte 0) 8) λ s h2.
      bind (read_if-Ensures (has_field byte 1) 8) λ at h3.
        bind (read_if-Ensures (has_field byte 2) 8) λ mt h4.
          bind (read_if-Ensures (has_field byte 3) 2) λ p h5.
            bind (read_if-Ensures (has_field byte 4) 4) λ u h6.
              bind (read_if-Ensures (has_field byte 5) 4) λ g h7.
                pure (set_attr_req id i s at mt p u g) ((h0, h1, h2, h3, h4, h5, h6, h7), tt)

read_stats_res-Ensures : ReadsWellFormed read_stats_res
unfolding read_stats_res
read_stats_res-Ensures = bind (uint 4) λ id h0. bind (uint 4) λ k h1. bind (uint 8) λ b h2.
    bind (uint 8) λ f h3. bind (uint 8) λ a h4. bind (uint 8) λ t h5. bind (uint 8) λ i h6.
      bind (uint 4) λ m h7.
        bind (uint 4)
          λ g h8. pure (stats_res id k b f a t i m g) ((h0, h1, h2, h3, h4, h5, h6, h7, h8), tt)

read_create_req-Ensures : ReadsWellFormed read_create_req
unfolding read_create_req
read_create_req-Ensures = bind (uint 4) λ id h0. bind (uint 8) λ d h1. bind (uint 2) λ p h2.
    bind (uint 4) λ u h3. bind (uint 1) λ byte _. bind (uint 1) λ len hlen.
      bind (bytes len) λ name h.
        pure (create_req id d p u (top_bit byte) name) ((h0, h1, h2, h3, h.0), omega (arith, h.1))

read_read_req-Ensures : ReadsWellFormed read_read_req
unfolding read_read_req
read_read_req-Ensures = bind (uint 4) λ id h0. bind (uint 8) λ i h1.
    bind (uint 8) λ o h2. bind (uint 8) λ l h3. pure (read_req id i o l) ((h0, h1, h2, h3), tt)

read_read_res-Ensures : ReadsWellFormed read_read_res
unfolding read_read_res
read_read_res-Ensures = bind (uint 4) λ id h0. bind (uint 8) λ t h1. bind (uint 2) λ len hlen.
    bind (uint 8) λ o h2.
      bind (bytes len)
        λ chunk h. pure (read_res id t o chunk) ((h0, h1, h2, h.0), omega (arith, h.1))

read_write_req-Ensures : ReadsWellFormed read_write_req
unfolding read_write_req
read_write_req-Ensures = bind (uint 4) λ id h0. bind (uint 8) λ i h1. bind (uint 8) λ o h2.
    bind (uint 4) λ len hlen.
      bind (bytes len)
        λ content h. pure (write_req id i o content) ((h0, h1, h2, h.0), omega (arith, h.1))

read_move_req-Ensures : ReadsWellFormed read_move_req
unfolding read_move_req
read_move_req-Ensures = bind (uint 4) λ id h0. bind (uint 8) λ i h1. bind (uint 8) λ d h2.
    bind (uint 1) λ len hlen.
      bind (bytes len) λ name h. pure (move_req id i d name) ((h0, h1, h2, h.0), omega (arith, h.1))

variants-All : All ReadsWellFormed variants
unfolding variants
variants-All = (
  read_error-Ensures,
  (
    read_init_req-Ensures,
    (
      read_init_res-Ensures,
      (
        read_lookup_req-Ensures,
        (
          read_id_inode-Ensures lookup_res (λ _ _ h k. ((h, k), tt)),
          (
            read_id_inode-Ensures get_attr_req (λ _ _ h k. ((h, k), tt)),
            (
              read_file_attr_res-Ensures,
              (
                read_set_attr_req-Ensures,
                (
                  read_id-Ensures success_res (λ _ h. (h, tt)),
                  (
                    read_id-Ensures stats_req (λ _ h. (h, tt)),
                    (
                      read_stats_res-Ensures,
                      (
                        read_create_req-Ensures,
                        (
                          read_read_req-Ensures,
                          (
                            read_read_res-Ensures,
                            (
                              read_write_req-Ensures,
                              (
                                read_id_inode-Ensures readdir_req (λ _ _ h k. ((h, k), tt)),
                                (
                                  read_id_inode-Ensures rm_req (λ _ _ h k. ((h, k), tt)),
                                  (read_move_req-Ensures, tt),
                                ),
                              ),
                            ),
                          ),
                        ),
                      ),
                    ),
                  ),
                ),
              ),
            ),
          ),
        ),
      ),
    ),
  ),
)

or_reject-Ensures :
    (magic : ℕ) (o : Option (Reader Message))
    → get_elem? variants magic ≡ o
    → ReadsWellFormed (or_reject o)
or_reject-Ensures magic none e = reject-Ensures
or_reject-Ensures magic (some p) e = get_elem?-All ReadsWellFormed variants magic variants-All e

pub read_message-Ensures : ReadsWellFormed read_message
unfolding read_message read_variant
read_message-Ensures =
    bind (uint 1) λ magic _. or_reject-Ensures magic (get_elem? variants magic) refl
