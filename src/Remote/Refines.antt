-- ===== src/Remote/Refines.antt =====
-- The operations of `remote fs` beside those of `fs`.
use mathlib.Core.Option
use azpfs.Base.{ℕ, ◌≡◌, Bytes, List, Option, All, Permᴰ}
use azpfs.Io.{OfValue}
use azpfs.Protocol.Message.{Message, set_request_id, AllSome}
use azpfs.Protocol.Reader.{ReadError}
use azpfs.Protocol.DirEntry.{IsValid}
use azpfs.Fs.Attr.{SystemTime, InRange, whole_seconds, in_seconds}
use azpfs.Fs.Backend.{FsBackend}
use azpfs.Server.Handlers.{handle_msg, handle_set_attr}
use azpfs.Client.Calls.{
  lookup_call, get_attr_call, set_attr_call, stats_call, create_file_call, create_dir_call,
  read_call, write_call, read_dir_call, remove_call, rename_call,
}
use azpfs.Remote.{perform, remote}
pub use azpfs.Remote.Seen.{HasTimes, seen}
use azpfs.Remote.Seen.{
  await_inode-seen, await_success-seen, combine_read_chunks-seen, await_attr-seen, await_stats-seen,
  optional_time-to_unix, read_dir-seen,
}

module _ (order : List Message → List Message)
    (arrives : (ms : List Message) → Permᴰ ms (order ms)) where
  module _ (fs : FsBackend) (id : ℕ) (describe : ReadError → Bytes) where
    -- A LOOKUP over the wire gives the inode number that the server's file system gives, or its
    -- error by its code, and has the same effect on it.
    pub lookup-remote :
        (dir : ℕ) (name : Bytes) (s : fs.State)
        → (remote fs order id describe).lookup dir name s
          ≡ (seen (λ x. x) (fs.lookup dir name s).0, (fs.lookup dir name s).1)
    unfolding perform lookup_call handle_msg set_request_id
    lookup-remote dir name s = rw (await_inode-seen order arrives id)

    -- A GET_ATTR over the wire gives the server's attributes with times in whole seconds, or its
    -- error by its code, if the times that the server reads are in the range of `SystemTime`.
    pub get_attr-remote :
        (inode : ℕ) (s : fs.State)
        → OfValue HasTimes (fs.get_attr inode s).0
        → (remote fs order id describe).get_attr inode s
          ≡ (seen in_seconds (fs.get_attr inode s).0, (fs.get_attr inode s).1)
    unfolding perform get_attr_call handle_msg set_request_id
    get_attr-remote inode s h = rw (await_attr-seen order arrives id _ h)

    -- A SET_ATTR over the wire sets on the server the fields that are given, and no other, with times
    -- in whole seconds, if the times are in the range of `SystemTime`.
    pub set_attr-remote :
        (inode : ℕ) (size : Option ℕ) (at mt : Option SystemTime) (perms uid gid : Option ℕ)
        (s : fs.State)
        → AllSome InRange at
        → AllSome InRange mt
        → (remote fs order id describe).set_attr inode size at mt perms uid gid s ≡ (
          seen
              (λ x. x)
              (fs.set_attr inode size
                (Option.map whole_seconds at)
                (Option.map whole_seconds mt)
                perms
                uid
                gid
                s).0,
          (fs.set_attr inode size
              (Option.map whole_seconds at)
              (Option.map whole_seconds mt)
              perms
              uid
              gid
              s).1,
        )
    unfolding perform set_attr_call handle_set_attr handle_msg set_request_id
    set_attr-remote inode size at mt perms uid gid s h k = rw (
      optional_time-to_unix order arrives at h,
      optional_time-to_unix order arrives mt k,
      await_success-seen order arrives id,
    )

    -- A STATS over the wire gives the server's statistics, or its error by its code.
    pub stats-remote :
        (s : fs.State)
        → (remote fs order id describe).stats s ≡ (seen (λ x. x) (fs.stats s).0, (fs.stats s).1)
    unfolding perform stats_call handle_msg set_request_id
    stats-remote s = rw (await_stats-seen order arrives id)

    -- Creating a file over the wire does what `create_file` does on the server.
    pub create_file-remote :
        (dir perms flags : ℕ) (name : Bytes) (s : fs.State)
        → (remote fs order id describe).create_file dir perms flags name s ≡ (
          seen (λ x. x) (fs.create_file dir perms flags name s).0,
          (fs.create_file dir perms flags name s).1,
        )
    unfolding perform create_file_call handle_msg set_request_id
    create_file-remote dir perms flags name s = rw (await_inode-seen order arrives id)

    -- Creating a directory over the wire does what `create_dir` does on the server; the flags that are
    -- sent with it play no part.
    pub create_dir-remote :
        (dir perms : ℕ) (name : Bytes) (s : fs.State)
        → (remote fs order id describe).create_dir dir perms name s
          ≡ (seen (λ x. x) (fs.create_dir dir perms name s).0, (fs.create_dir dir perms name s).1)
    unfolding perform create_dir_call handle_msg set_request_id
    create_dir-remote dir perms name s = rw (await_inode-seen order arrives id)

    -- A READ over the wire gives the bytes that the server read, in whatever order their chunks
    -- arrive, or the server's error by its code.
    pub read-remote :
        (inode offset len : ℕ) (s : fs.State)
        → (remote fs order id describe).read inode offset len s
          ≡ (seen (λ x. x) (fs.read inode offset len s).0, (fs.read inode offset len s).1)
    unfolding perform read_call handle_msg set_request_id
    read-remote inode offset len s = rw (combine_read_chunks-seen order arrives id)

    -- A WRITE over the wire hands the server's file system the bytes at the offset, and succeeds or
    -- fails as that does.
    pub write-remote :
        (inode offset : ℕ) (content : Bytes) (s : fs.State)
        → (remote fs order id describe).write inode offset content s
          ≡ (seen (λ x. x) (fs.write inode offset content s).0, (fs.write inode offset content s).1)
    unfolding perform write_call handle_msg set_request_id
    write-remote inode offset content s = rw (await_success-seen order arrives id)

    -- A READDIR over the wire gives the server's entries in their order, in whatever order the chunks
    -- arrive, or the server's error by its code, if names are at most 255 bytes long.
    pub read_dir-remote :
        (inode : ℕ) (s : fs.State)
        → OfValue (All IsValid) (fs.read_dir inode s).0
        → (remote fs order id describe).read_dir inode s
          ≡ (seen (λ x. x) (fs.read_dir inode s).0, (fs.read_dir inode s).1)
    unfolding perform read_dir_call handle_msg set_request_id
    read_dir-remote inode s h = rw (read_dir-seen order arrives describe id _ h)

    -- An RM over the wire removes the inode on the server, and succeeds or fails as that does.
    pub remove-remote :
        (inode : ℕ) (s : fs.State)
        → (remote fs order id describe).remove inode s
          ≡ (seen (λ x. x) (fs.remove inode s).0, (fs.remove inode s).1)
    unfolding perform remove_call handle_msg set_request_id
    remove-remote inode s = rw (await_success-seen order arrives id)

    -- A MOVE over the wire renames on the server, and succeeds or fails as that does.
    pub rename-remote :
        (inode dir : ℕ) (name : Bytes) (s : fs.State)
        → (remote fs order id describe).rename inode dir name s
          ≡ (seen (λ x. x) (fs.rename inode dir name s).0, (fs.rename inode dir name s).1)
    unfolding perform rename_call handle_msg set_request_id
    rename-remote inode dir name s = rw (await_success-seen order arrives id)
