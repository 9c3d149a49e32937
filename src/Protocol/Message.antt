-- ===== src/Protocol/Message.antt =====
-- The enum `Message` of src/core/protocol/messages.rs, with the fields of each variant in the order
-- of the source. Lengths, magic numbers and the field mask are no fields: the attributes mark them
-- `temp` or `magic`.
use azpfs.Base.{
  ℕ, ◌^◌, ◌<◌, ◌≡◌, Bool, true, Option, none, some, Bytes, length, All, IsByte, IsU16, IsU32, IsU64,
}
use azpfs.Protocol.Codes.{FileType, ErrorCode, is_utf8}

pub data Message : Type 0 where
  error : (request_id : ℕ) (error_code : ErrorCode) (message : Bytes) → Message
  init_req : (request_id version : ℕ) → Message
  init_res : (request_id : ℕ) (accepted : Bool) → Message
  lookup_req : (request_id dir_inode : ℕ) (filename : Bytes) → Message
  lookup_res : (request_id inode : ℕ) → Message
  get_attr_req : (request_id inode : ℕ) → Message
  file_attr_res :
      (request_id : ℕ) (file_type : FileType)
      (size blocks atime mtime ctime permissions nlinks uid gid rdev blksize : ℕ)
      → Message
  set_attr_req : (request_id inode : ℕ) (size atime mtime permissions uid gid : Option ℕ) → Message
  success_res : (request_id : ℕ) → Message
  stats_req : (request_id : ℕ) → Message
  stats_res :
      (request_id blksize blocks free_blocks avail_blocks total_inodes free_inodes : ℕ)
      (max_filename_len fragment_size : ℕ)
      → Message
  create_req :
      (request_id dir_inode permissions unix_flags : ℕ) (is_directory : Bool) (filename : Bytes)
      → Message
  read_req : (request_id inode offset len : ℕ) → Message
  read_res : (request_id total_length chunk_offset : ℕ) (chunk : Bytes) → Message
  write_req : (request_id inode offset : ℕ) (content : Bytes) → Message
  readdir_req : (request_id inode : ℕ) → Message
  rm_req : (request_id inode : ℕ) → Message
  move_req : (request_id inode dest_dir_inode : ℕ) (dest_filename : Bytes) → Message

unfoldable pub request_id : Message → ℕ
request_id (error id _ _) = id
request_id (init_req id _) = id
request_id (init_res id _) = id
request_id (lookup_req id _ _) = id
request_id (lookup_res id _) = id
request_id (get_attr_req id _) = id
request_id (file_attr_res id _ _ _ _ _ _ _ _ _ _ _ _) = id
request_id (set_attr_req id _ _ _ _ _ _ _) = id
request_id (success_res id) = id
request_id (stats_req id) = id
request_id (stats_res id _ _ _ _ _ _ _ _) = id
request_id (create_req id _ _ _ _ _) = id
request_id (read_req id _ _ _) = id
request_id (read_res id _ _ _) = id
request_id (write_req id _ _ _) = id
request_id (readdir_req id _) = id
request_id (rm_req id _) = id
request_id (move_req id _ _ _) = id

unfoldable pub set_request_id : ℕ → Message → Message
set_request_id id (error _ c m) = error id c m
set_request_id id (init_req _ v) = init_req id v
set_request_id id (init_res _ a) = init_res id a
set_request_id id (lookup_req _ d f) = lookup_req id d f
set_request_id id (lookup_res _ i) = lookup_res id i
set_request_id id (get_attr_req _ i) = get_attr_req id i
set_request_id id (file_attr_res _ t s b at mt ct p n u g r k) =
    file_attr_res id t s b at mt ct p n u g r k
set_request_id id (set_attr_req _ i s at mt p u g) = set_attr_req id i s at mt p u g
set_request_id id (success_res _) = success_res id
set_request_id id (stats_req _) = stats_req id
set_request_id id (stats_res _ k b f a t i m g) = stats_res id k b f a t i m g
set_request_id id (create_req _ d p u k f) = create_req id d p u k f
set_request_id id (read_req _ i o l) = read_req id i o l
set_request_id id (read_res _ t o c) = read_res id t o c
set_request_id id (write_req _ i o c) = write_req id i o c
set_request_id id (readdir_req _ i) = readdir_req id i
set_request_id id (rm_req _ i) = rm_req id i
set_request_id id (move_req _ i d f) = move_req id i d f

abbrev pub AllSome {ℓ κ} : {A : Type ℓ} → (A → Type κ) → Option A → Type κ
AllSome P none = Unit {_}
AllSome P (some a) = P a

-- The values that the Rust types of the fields admit.
abbrev pub IsTyped : Message → Type 0
IsTyped (error id _ m) = IsU32 id × All IsByte m × (is_utf8 m ≡ true)
IsTyped (init_req id v) = IsU32 id × IsByte v
IsTyped (init_res id _) = IsU32 id
IsTyped (lookup_req id d f) = IsU32 id × IsU64 d × All IsByte f
IsTyped (lookup_res id i) = IsU32 id × IsU64 i
IsTyped (get_attr_req id i) = IsU32 id × IsU64 i
IsTyped (file_attr_res id _ s b at mt ct p n u g r k) =
    IsU32 id
    × IsU64 s
    × IsU64 b
    × IsU64 at
    × IsU64 mt
    × IsU64 ct
    × IsU16 p
    × IsU32 n
    × IsU32 u
    × IsU32 g
    × IsU32 r
    × IsU32 k
IsTyped (set_attr_req id i s at mt p u g) =
    IsU32 id
    × IsU64 i
    × AllSome IsU64 s
    × AllSome IsU64 at
    × AllSome IsU64 mt
    × AllSome IsU16 p
    × AllSome IsU32 u
    × AllSome IsU32 g
IsTyped (success_res id) = IsU32 id
IsTyped (stats_req id) = IsU32 id
IsTyped (stats_res id k b f a t i m g) =
    IsU32 id × IsU32 k × IsU64 b × IsU64 f × IsU64 a × IsU64 t × IsU64 i × IsU32 m × IsU32 g
IsTyped (create_req id d p u _ f) = IsU32 id × IsU64 d × IsU16 p × IsU32 u × All IsByte f
IsTyped (read_req id i o l) = IsU32 id × IsU64 i × IsU64 o × IsU64 l
IsTyped (read_res id t o c) = IsU32 id × IsU64 t × IsU64 o × All IsByte c
IsTyped (write_req id i o c) = IsU32 id × IsU64 i × IsU64 o × All IsByte c
IsTyped (readdir_req id i) = IsU32 id × IsU64 i
IsTyped (rm_req id i) = IsU32 id × IsU64 i
IsTyped (move_req id i d f) = IsU32 id × IsU64 i × IsU64 d × All IsByte f

-- The lengths fit the width of their prefix, and the version its four bits. The Rust types do not
-- say this: the `calc` attributes cut a length off.
abbrev pub Fits : Message → Type 0
Fits (error _ _ m) = length m < 2 ^ 16
Fits (init_req _ v) = v < 16
Fits (lookup_req _ _ f) = length f < 2 ^ 8
Fits (create_req _ _ _ _ _ f) = length f < 2 ^ 8
Fits (read_res _ _ _ c) = length c < 2 ^ 16
Fits (write_req _ _ _ c) = length c < 2 ^ 32
Fits (move_req _ _ _ f) = length f < 2 ^ 8
Fits _ = Unit
