-- ===== src/Protocol/DirEntry.antt =====
-- `DirEntry` of src/core/fs/mod.rs, and the packing of a directory's entries into the payload of a
-- READDIR reply in src/core/protocol/dir_entry.rs.
pub mod Laws
use azpfs.Base.{
  ℕ, zero, suc, ◌%◌, ◌^◌, ◌<◌, Bytes, List, [], ◌∷◌, ◌++◌, length, All, IsByte, IsU64, to_be,
}
use azpfs.Protocol.Codes.{FileType, file_type_code, file_type_of}
use azpfs.Protocol.Reader.{
  ReadError, ReadResult, done, fail, Reader, pure, ◌>>=◌, read_bytes, read_uint,
}
use azpfs.Protocol.Write.{write_counted}
use azpfs.Protocol.Read.{from_option}

pub record DirEntry : Type 0 where
  pub inode : ℕ
  pub file_type : FileType
  pub filename : Bytes

-- The Rust types of the fields, and a name whose length fits its byte.
abbrev pub IsValid : DirEntry → Type 0
IsValid e = IsU64 e.inode × All IsByte e.filename × (length e.filename < 2 ^ 8)

-- `BinWrite` of an entry.
unfoldable pub write_entry : DirEntry → Bytes
write_entry e = to_be 8 e.inode ++ (file_type_code e.file_type ∷ write_counted 1 e.filename)

-- `BinRead` of an entry.
unfoldable pub read_entry : Reader DirEntry
read_entry = do
  inode ← read_uint 8
  byte ← read_uint 1
  file_type ← from_option (file_type_of byte)
  len ← read_uint 1
  filename ← read_bytes len
  pure (record { inode = inode; file_type = file_type; filename = filename })

-- Writing into a cursor over a vector does not fail, so there is no error case.
unfoldable pub serialize_dir_entires : List DirEntry → Bytes
serialize_dir_entires [] = []
serialize_dir_entires (e ∷ es) = write_entry e ++ serialize_dir_entires es

-- `stuck` is no result of the program: the loop ran out of fuel.
pub data Parsed : Type 0 where
  parsed : List DirEntry → Parsed
  broken : ReadError → Parsed
  stuck : Parsed

-- The `while` loop: the bytes are those from the cursor's position on.
unfoldable pub parse_loop : ℕ → Bytes → List DirEntry → Parsed
parse_loop fuel [] entries = parsed entries
parse_loop zero (b ∷ bs) entries = stuck
parse_loop (suc fuel) (b ∷ bs) entries = elim (read_entry (b ∷ bs)) [
  | done e rest ↦ parse_loop fuel rest (entries ++ (e ∷ []))
  | fail x ↦ broken x
]

-- An entry takes a byte at least, so as many rounds as there are bytes are enough.
unfoldable pub parse_dir_entries : Bytes → Parsed
parse_dir_entries bytes = parse_loop (length bytes) bytes []
