-- ===== src/Client/Fuse/Removing.antt =====
-- `unlink` of src/core/client/fuse.rs over `DiskFs` of src/core/fs/disk.rs.
use azpfs.Base.{ℕ}
use azpfs.Fs.Os.{Os}
use azpfs.Fs.Disk.{Fs, DiskFs, remove_path}
use azpfs.Client.Fuse.{FuseFilesystem, new_filesystem}

-- `DiskFs` without the inode, over the disk that is left.
abbrev pub without_inode : {D : Type 0} → ℕ → D → DiskFs D → FuseFilesystem (DiskFs D)
without_inode inode disk s =
    new_filesystem (record { inode_map = remove_path inode s.inode_map; disk = disk })
