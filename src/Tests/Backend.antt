-- ===== src/Tests/Backend.antt =====
-- A file system of one directory, inode 1, that holds one file "a", inode 2, whose content is the
-- state.
use azpfs.Base.{◌==◌, Bytes, List, [], ◌∷◌, ◌++◌, take, drop, length, none, some, if◌then◌else◌}
use azpfs.Io.{not_found, already_exists, unsupported, permission_denied, IoError, ok, err}
use azpfs.Protocol.Codes.{directory, regular_file}
use azpfs.Protocol.DirEntry.{DirEntry}
use azpfs.Fs.Attr.{after, FileAttr}
use azpfs.Fs.Backend.{FsBackend}

abbrev pub missing : IoError
missing = record { kind = not_found; text = b'n' ∷ b'o' ∷ [] }

abbrev pub denied : IoError
denied = record { kind = permission_denied; text = b'n' ∷ b'o' ∷ [] }

abbrev pub attr_of : Bytes → FileAttr
attr_of content = record {
  file_type = regular_file;
  size = length content;
  blocks = 1;
  access_time = after 1_500_000_000;
  modification_time = after 2_000_000_000;
  change_time = after 3_999_999_999;
  permissions = 0o644;
  n_hard_links = 1;
  uid = 1000;
  gid = 1000;
  rdev = 0;
  block_size = 4096;
}

abbrev pub listing : List DirEntry
listing =
    record { inode = 1; file_type = directory; filename = b'.' ∷ [] }
    ∷ record { inode = 2; file_type = regular_file; filename = b'a' ∷ [] }
    ∷ []

abbrev pub memory : FsBackend
memory = record {
  State = Bytes;
  lookup = λ dir name s. (if dir == 1 then ok 2 else err missing, s);
  get_attr = λ inode s. (if inode == 2 then ok (attr_of s) else err missing, s);
  set_attr = λ inode size at mt p u g s. (ok tt, elim size [ none ↦ s | some n ↦ take n s ]);
  stats = λ s. (err (record { kind = unsupported; text = [] }), s);
  create_file = λ dir p f name s. (ok 2, []);
  create_dir = λ dir p name s. (err (record { kind = already_exists; text = [] }), s);
  read = λ inode offset len s. (ok (take len (drop offset s)), s);
  write = λ inode offset content s. (ok tt, take offset s ++ content);
  read_dir = λ inode s. (ok listing, s);
  remove = λ inode s. (ok tt, []);
  rename = λ inode dir name s. (err denied, s);
}
