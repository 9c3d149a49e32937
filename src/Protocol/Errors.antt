-- ===== src/Protocol/Errors.antt =====
-- Errors on the wire: the conversions of src/core/protocol/error.rs.
use azpfs.Base.{ℕ, ◌≡◌, refl, Option, none, some}
use azpfs.Io.{ErrorKind, not_found, already_exists, invalid_input, unsupported, other, IoError}
use azpfs.Protocol.Codes.{ErrorCode}
use azpfs.Protocol.Message.{Message, error}

-- `impl From<ErrorCode> for ErrorKind`
unfoldable pub kind_of_code : ErrorCode → ErrorKind
kind_of_code ErrorCode.internal = other
kind_of_code ErrorCode.invalid = invalid_input
kind_of_code ErrorCode.not_found = not_found
kind_of_code ErrorCode.exists = already_exists
kind_of_code ErrorCode.unsupported = unsupported

-- `impl From<ErrorKind> for ErrorCode`
unfoldable pub code_of_kind : ErrorKind → ErrorCode
code_of_kind invalid_input = ErrorCode.invalid
code_of_kind not_found = ErrorCode.not_found
code_of_kind already_exists = ErrorCode.exists
code_of_kind unsupported = ErrorCode.unsupported
code_of_kind _ = ErrorCode.internal

-- `Message::from_error`
unfoldable pub from_error : ℕ → IoError → Message
unfolding code_of_kind
from_error id e = error id (code_of_kind e.kind) e.text

-- `impl TryFrom<Message> for io::Error`
unfoldable pub try_from : Message → Option IoError
unfolding kind_of_code
try_from (error _ code text) = some (record { kind = kind_of_code code; text = text })
try_from _ = none

-- A code survives the way through an error kind and back.
pub code_of_kind-kind_of_code : (c : ErrorCode) → code_of_kind (kind_of_code c) ≡ c
unfolding code_of_kind kind_of_code
code_of_kind-kind_of_code ErrorCode.internal = refl
code_of_kind-kind_of_code _ = refl

-- An error as the peer sees it: the kinds that have no code of their own become `other`.
unfoldable pub over_wire : IoError → IoError
unfolding kind_of_code code_of_kind
over_wire e = record e { kind = kind_of_code (code_of_kind e.kind) }

pub try_from-from_error : (id : ℕ) (e : IoError) → try_from (from_error id e) ≡ some (over_wire e)
unfolding try_from from_error over_wire
try_from-from_error id e = refl
