-- ===== src/Protocol/Write.antt =====
-- `BinWrite` of `Message` in src/core/protocol/messages.rs, which `MessageCodec::encode` calls.
use Prim.Native.Nat.{bit_or}
use azpfs.Base.{
  ℕ, ◌*◌, ◌%◌, ◌^◌, Bool, true, false, Option, none, some, Bytes, [], ◌∷◌, ◌++◌, length, to_be,
}
use azpfs.Protocol.Codes.{file_type_code, error_code_byte}
use azpfs.Protocol.Message.{
  Message, error, init_req, init_res, lookup_req, lookup_res, get_attr_req, file_attr_res,
  set_attr_req, success_res, stats_req, stats_res, create_req, read_req, read_res, write_req,
  readdir_req, rm_req, move_req,
}

-- A `bool` as the top bit of a byte: `(*a as u8) << 7`.
abbrev pub flag_byte : Bool → ℕ
flag_byte true = 128
flag_byte false = 0

-- `if o.is_some() { m |= 1 << k; }`
abbrev mask_bit : Option ℕ → ℕ → ℕ → ℕ
mask_bit none k m = m
mask_bit (some _) k m = bit_or m (2 ^ k)

-- The byte of the `calc` of `field_mask`.
unfoldable pub field_mask : (size atime mtime permissions uid gid : Option ℕ) → ℕ
field_mask s at mt p u g =
    mask_bit g 5 (mask_bit u 4 (mask_bit p 3 (mask_bit mt 2 (mask_bit at 1 (mask_bit s 0 0)))))
    * 2 ^ 2
    % 2 ^ 8

-- An `Option` field is written if it is there.
abbrev pub write_option : ℕ → Option ℕ → Bytes
write_option w none = []
write_option w (some n) = to_be w n

-- A `Vec<u8>` behind its length, which is cut to `w` bytes (`len() as u8` and so on).
abbrev pub write_counted : ℕ → Bytes → Bytes
write_counted w bs = to_be w (length bs % 256 ^ w) ++ bs

unfoldable pub write_message : Message → Bytes
write_message (error id code text) =
    0x00 ∷ (to_be 4 id ++ (error_code_byte code ∷ write_counted 2 text))
write_message (init_req id version) = 0x01 ∷ (to_be 4 id ++ (version * 2 ^ 4 % 2 ^ 8 ∷ []))
write_message (init_res id accepted) = 0x02 ∷ (to_be 4 id ++ (flag_byte accepted ∷ []))
write_message (lookup_req id dir name) =
    0x03 ∷ (to_be 4 id ++ (to_be 8 dir ++ write_counted 1 name))
write_message (lookup_res id inode) = 0x04 ∷ (to_be 4 id ++ to_be 8 inode)
write_message (get_attr_req id inode) = 0x05 ∷ (to_be 4 id ++ to_be 8 inode)
write_message (file_attr_res id t size blocks at mt ct perms nlinks uid gid rdev blksize) =
    0x06
    ∷ (to_be 4 id
        ++ (file_type_code t * 2 ^ 5 % 2 ^ 8
            ∷ (to_be 8 size
                ++ (to_be 8 blocks
                    ++ (to_be 8 at
                        ++ (to_be 8 mt
                            ++ (to_be 8 ct
                                ++ (to_be 2 perms
                                    ++ (to_be 4 nlinks
                                        ++ (to_be 4 uid
                                            ++ (to_be 4 gid
                                                ++ (to_be 4 rdev ++ to_be 4 blksize))))))))))))
write_message (set_attr_req id inode size at mt perms uid gid) =
    0x07
    ∷ (to_be 4 id
        ++ (to_be 8 inode
            ++ (field_mask size at mt perms uid gid
                ∷ (write_option 8 size
                    ++ (write_option 8 at
                        ++ (write_option 8 mt
                            ++ (write_option 2 perms
                                ++ (write_option 4 uid ++ write_option 4 gid))))))))
write_message (success_res id) = 0x08 ∷ to_be 4 id
write_message (stats_req id) = 0x09 ∷ to_be 4 id
write_message (stats_res id blksize blocks free avail inodes free_inodes max_name fragment) =
    0x0A
    ∷ (to_be 4 id
        ++ (to_be 4 blksize
            ++ (to_be 8 blocks
                ++ (to_be 8 free
                    ++ (to_be 8 avail
                        ++ (to_be 8 inodes
                            ++ (to_be 8 free_inodes ++ (to_be 4 max_name ++ to_be 4 fragment))))))))
write_message (create_req id dir perms flags is_directory name) =
    0x0B
    ∷ (to_be 4 id
        ++ (to_be 8 dir
            ++ (to_be 2 perms
                ++ (to_be 4 flags ++ (flag_byte is_directory ∷ write_counted 1 name)))))
write_message (read_req id inode offset len) =
    0x0C ∷ (to_be 4 id ++ (to_be 8 inode ++ (to_be 8 offset ++ to_be 8 len)))
write_message (read_res id total offset chunk) =
    0x0D
    ∷ (to_be 4 id
        ++ (to_be 8 total ++ (to_be 2 (length chunk % 256 ^ 2) ++ (to_be 8 offset ++ chunk))))
write_message (write_req id inode offset content) =
    0x0E ∷ (to_be 4 id ++ (to_be 8 inode ++ (to_be 8 offset ++ write_counted 4 content)))
write_message (readdir_req id inode) = 0x0F ∷ (to_be 4 id ++ to_be 8 inode)
write_message (rm_req id inode) = 0x10 ∷ (to_be 4 id ++ to_be 8 inode)
write_message (move_req id inode dir name) =
    0x11 ∷ (to_be 4 id ++ (to_be 8 inode ++ (to_be 8 dir ++ write_counted 1 name)))
