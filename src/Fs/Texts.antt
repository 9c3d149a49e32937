-- ===== src/Fs/Texts.antt =====
-- The errors that src/core/fs/disk.rs makes itself, with their texts.
use azpfs.Base.{[], ◌∷◌}
use azpfs.Io.{not_found, unsupported, already_exists, invalid_input, IoError}

-- "Inode not found. Have you LOOKUPed it yet?"
abbrev pub inode_not_found : IoError
inode_not_found = record {
  kind = not_found;
  text =
      b'I' ∷ b'n' ∷ b'o' ∷ b'd' ∷ b'e' ∷ b' ' ∷ b'n' ∷ b'o' ∷ b't' ∷ b' ' ∷ b'f' ∷ b'o' ∷ b'u'
      ∷ b'n' ∷ b'd' ∷ b'.' ∷ b' ' ∷ b'H' ∷ b'a' ∷ b'v' ∷ b'e' ∷ b' ' ∷ b'y' ∷ b'o' ∷ b'u' ∷ b' '
      ∷ b'L' ∷ b'O' ∷ b'O' ∷ b'K' ∷ b'U' ∷ b'P' ∷ b'e' ∷ b'd' ∷ b' ' ∷ b'i' ∷ b't' ∷ b' ' ∷ b'y'
      ∷ b'e' ∷ b't' ∷ b'?' ∷ [];
}

-- "Server does not support stats"
abbrev pub no_stats : IoError
no_stats = record {
  kind = unsupported;
  text =
      b'S' ∷ b'e' ∷ b'r' ∷ b'v' ∷ b'e' ∷ b'r' ∷ b' ' ∷ b'd' ∷ b'o' ∷ b'e' ∷ b's' ∷ b' ' ∷ b'n'
      ∷ b'o' ∷ b't' ∷ b' ' ∷ b's' ∷ b'u' ∷ b'p' ∷ b'p' ∷ b'o' ∷ b'r' ∷ b't' ∷ b' ' ∷ b's' ∷ b't'
      ∷ b'a' ∷ b't' ∷ b's' ∷ [];
}

-- "Destination is a dir"
abbrev pub destination_is_dir : IoError
destination_is_dir = record {
  kind = already_exists;
  text =
      b'D' ∷ b'e' ∷ b's' ∷ b't' ∷ b'i' ∷ b'n' ∷ b'a' ∷ b't' ∷ b'i' ∷ b'o' ∷ b'n' ∷ b' ' ∷ b'i'
      ∷ b's' ∷ b' ' ∷ b'a' ∷ b' ' ∷ b'd' ∷ b'i' ∷ b'r' ∷ [];
}

-- "Destination and source file types must match"
abbrev pub types_must_match : IoError
types_must_match = record {
  kind = invalid_input;
  text =
      b'D' ∷ b'e' ∷ b's' ∷ b't' ∷ b'i' ∷ b'n' ∷ b'a' ∷ b't' ∷ b'i' ∷ b'o' ∷ b'n' ∷ b' ' ∷ b'a'
      ∷ b'n' ∷ b'd' ∷ b' ' ∷ b's' ∷ b'o' ∷ b'u' ∷ b'r' ∷ b'c' ∷ b'e' ∷ b' ' ∷ b'f' ∷ b'i' ∷ b'l'
      ∷ b'e' ∷ b' ' ∷ b't' ∷ b'y' ∷ b'p' ∷ b'e' ∷ b's' ∷ b' ' ∷ b'm' ∷ b'u' ∷ b's' ∷ b't' ∷ b' '
      ∷ b'm' ∷ b'a' ∷ b't' ∷ b'c' ∷ b'h' ∷ [];
}
