-- ===== src/Fs/Os/Sandbox.antt =====
-- A file system of the operating system, for src/core/fs/disk.rs, that gives up at a path which is not
-- in its sandbox.
use azpfs.Base.{Bool, Bytes, if◌then◌else◌}
use azpfs.Io.{Outcome, panicked}
use azpfs.Fs.Os.{Os}

module _ (inside visible : Bytes → Bool) (os : Os) where
  abbrev guarded {ℓ} :
      {A : Type ℓ} → Bool → (os.State → Outcome A × os.State) → os.State → Outcome A × os.State
  guarded allowed f s = if allowed then f s else (panicked, s)

  -- Only the metadata of a path that is visible can be asked for, and nothing else be done at a path that
  -- is not inside.
  abbrev pub sandboxed : Os
  sandboxed = record {
    State = os.State;
    Handle = os.Handle;
    o_excl_bit = os.o_excl_bit;
    o_trunc_bit = os.o_trunc_bit;
    metadata = λ path s. if visible path then os.metadata path s else panicked;
    open_file = λ opts path. guarded (inside path) (os.open_file opts path);
    file_metadata = os.file_metadata;
    set_len = os.set_len;
    set_times = os.set_times;
    seek = os.seek;
    read = os.read;
    write_all = os.write_all;
    set_permissions = λ path mode. guarded (inside path) (os.set_permissions path mode);
    chown = λ path uid gid. guarded (inside path) (os.chown path uid gid);
    create_dir = λ path. guarded (inside path) (os.create_dir path);
    read_dir = λ path s. if inside path then os.read_dir path s else panicked;
    remove_dir_all = λ path. guarded (inside path) (os.remove_dir_all path);
    remove_file = λ path. guarded (inside path) (os.remove_file path);
    rename = λ old_path new_path.
        guarded (inside old_path) (guarded (inside new_path) (os.rename old_path new_path));
  }
