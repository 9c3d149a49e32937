-- ===== src/Protocol/Codes.antt =====
-- The one-byte enumerations of the protocol, `FileType` of src/core/fs/mod.rs and `ErrorCode` of
-- src/core/protocol/error.rs, and the UTF-8 check of `String::from_utf8`.
use azpfs.Base.{
  ℕ, ◌≡◌, refl, Bool, true, false, ◌&&◌, Option, none, some, List, [], ◌∷◌, Bytes, leb, ltb, ◌==◌,
  if◌then◌else◌,
}

pub data FileType : Type 0 where
  pipe char_device block_device directory regular_file symlink socket : FileType

-- `*ft as u8`
abbrev pub file_type_code : FileType → ℕ
file_type_code pipe = 0
file_type_code char_device = 1
file_type_code block_device = 2
file_type_code directory = 3
file_type_code regular_file = 4
file_type_code symlink = 5
file_type_code socket = 6

-- `FileType::try_from(u8)`
unfoldable pub file_type_of : ℕ → Option FileType
file_type_of n =
    if n == 0
    then some pipe
    else if n == 1
    then some char_device
    else if n == 2
    then some block_device
    else if n == 3
    then some directory
    else if n == 4
    then some regular_file
    else if n == 5
    then some symlink
    else if n == 6
    then some socket
    else none

pub data ErrorCode : Type 0 where
  internal invalid not_found exists unsupported : ErrorCode

-- The `repr = u8` of `ErrorCode`.
abbrev pub error_code_byte : ErrorCode → ℕ
error_code_byte internal = 0
error_code_byte invalid = 1
error_code_byte not_found = 2
error_code_byte exists = 3
error_code_byte unsupported = 4

unfoldable pub error_code_of : ℕ → Option ErrorCode
error_code_of n =
    if n == 0
    then some internal
    else if n == 1
    then some invalid
    else if n == 2
    then some not_found
    else if n == 3
    then some exists
    else if n == 4
    then some unsupported
    else none

pub file_type_of-file_type_code : (t : FileType) → file_type_of (file_type_code t) ≡ some t
unfolding file_type_of
file_type_of-file_type_code pipe = refl
file_type_of-file_type_code _ = refl

pub error_code_of-error_code_byte : (c : ErrorCode) → error_code_of (error_code_byte c) ≡ some c
unfolding error_code_of
error_code_of-error_code_byte internal = refl
error_code_of-error_code_byte _ = refl

-- The ranges in which the bytes after a first byte `b` of a code point lie; `none` where no code
-- point begins with `b`.
abbrev tail_ranges : ℕ → Option (List (ℕ × ℕ))
tail_ranges b =
    if ltb b 0x80
    then some []
    else if ltb b 0xC2
    then none
    else if ltb b 0xE0
    then some ((0x80, 0xBF) ∷ [])
    else if b == 0xE0
    then some ((0xA0, 0xBF) ∷ (0x80, 0xBF) ∷ [])
    else if b == 0xED
    then some ((0x80, 0x9F) ∷ (0x80, 0xBF) ∷ [])
    else if ltb b 0xF0
    then some ((0x80, 0xBF) ∷ (0x80, 0xBF) ∷ [])
    else if b == 0xF0
    then some ((0x90, 0xBF) ∷ (0x80, 0xBF) ∷ (0x80, 0xBF) ∷ [])
    else if ltb b 0xF4
    then some ((0x80, 0xBF) ∷ (0x80, 0xBF) ∷ (0x80, 0xBF) ∷ [])
    else if b == 0xF4
    then some ((0x80, 0x8F) ∷ (0x80, 0xBF) ∷ (0x80, 0xBF) ∷ [])
    else none

utf8_from : List (ℕ × ℕ) → Bytes → Bool
utf8_from [] [] = true
utf8_from (r ∷ rs) [] = false
utf8_from [] (b ∷ bs) = elim (tail_ranges b) [ none ↦ false | some rs ↦ utf8_from rs bs ]
utf8_from ((lo, hi) ∷ rs) (b ∷ bs) = leb lo b && (leb b hi && utf8_from rs bs)

-- Whether `String::from_utf8` accepts the bytes.
unfoldable pub is_utf8 : Bytes → Bool
unfolding utf8_from
is_utf8 = utf8_from []

-- "é" is accepted, and a lone continuation byte, an overlong form and a surrogate are not.
utf8_examples :
    (is_utf8 (0xC3 ∷ 0xA9 ∷ []) ≡ true)
    × (is_utf8 (0x80 ∷ []) ≡ false)
    × (is_utf8 (0xC0 ∷ 0x80 ∷ []) ≡ false)
    × (is_utf8 (0xED ∷ 0xA0 ∷ 0x80 ∷ []) ≡ false)
unfolding is_utf8
utf8_examples = (refl, refl, refl, refl)
