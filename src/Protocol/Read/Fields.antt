-- ===== src/Protocol/Read/Fields.antt =====
-- The fields whose bytes are computed: flags, the file type, and the optional fields with their mask.
use azpfs.Base.{
  ℕ, ◌%◌, ◌/◌, ◌*◌, ◌^◌, ◌<◌, ◌≡◌, refl, Bool, true, false, Bytes, ◌++◌, Option, none, some, arith,
}
use azpfs.Protocol.Codes.{FileType, pipe, file_type_code, file_type_of}
use azpfs.Protocol.Message.{AllSome}
use azpfs.Protocol.Reader.{done, read_uint}
use azpfs.Protocol.Reader.Laws.{read_uint-to_be}
use azpfs.Protocol.Write.{field_mask, write_option, flag_byte}
use azpfs.Protocol.Read.{has_field, read_if, top_bit}

pub top_bit-flag_byte : (b : Bool) → top_bit (flag_byte b) ≡ b
top_bit-flag_byte true = refl
top_bit-flag_byte false = refl

pub file_type_of-shifted :
    (t : FileType) → file_type_of (file_type_code t * 2 ^ 5 % 2 ^ 8 / 2 ^ 5) ≡ some t
unfolding file_type_of
file_type_of-shifted pipe = refl
file_type_of-shifted _ = refl

-- Whether an optional field is there: `is_some`.
abbrev pub is_some : Option ℕ → Bool
is_some none = false
is_some (some _) = true

-- Each bit of the mask says whether its field is there.
pub has_field-field_mask :
    (s at mt p u g : Option ℕ)
    → let mask = field_mask s at mt p u g in
      (has_field mask 0 ≡ is_some s)
      × (has_field mask 1 ≡ is_some at)
      × (has_field mask 2 ≡ is_some mt)
      × (has_field mask 3 ≡ is_some p)
      × (has_field mask 4 ≡ is_some u)
      × (has_field mask 5 ≡ is_some g)
unfolding has_field field_mask
has_field-field_mask s at mt p u g = ground arith

pub read_if-write_option :
    (w : ℕ) (o : Option ℕ)
    → AllSome (λ n. n < 256 ^ w) o
    → (rest : Bytes) → read_if (is_some o) (read_uint w) (write_option w o ++ rest) ≡ done o rest
read_if-write_option w none h rest = refl
read_if-write_option w (some n) h rest = rw (read_uint-to_be w n h)
