-- ===== src/Fs.antt =====
-- The file-system types of src/core/fs/mod.rs: times, attributes, statistics, their messages, and
-- the trait `FsBackend`; and the file system on a disk of src/core/fs/disk.rs.
pub mod Attr
pub mod Backend
pub mod Run
pub mod Paths
pub mod Os
pub mod Texts
pub mod Disk
