-- ===== src/Tests/Confined.antt =====
-- A run of the server over the disk of `Tests/Disk`, of which only `/s` and what is below it is needed.
use azpfs.Base.{
  ℕ, ◌==◌, ◌≡◌, refl, true, false, Bool-cases, inl, inr, Option, some, List, [], ◌∷◌, All,
  if◌then◌else◌,
}
use azpfs.Protocol.Message.{Message, lookup_req}
use azpfs.Fs.Os.Sandbox.{sandboxed}
use azpfs.Fs.Paths.{push, is_absolute}
use azpfs.Fs.Paths.Below.{is_below}
use azpfs.Fs.Disk.{Fs, disk_fs, get_path, lookup}
use azpfs.Fs.Disk.Entries.{disk_backend}
use azpfs.Server.Handlers.{handle_msg, reply_with}
use azpfs.Server.Session.{receive, begin_locked, takes_lock, lock_after, spawned}
use azpfs.Server.Session.Effects.{messages}
use azpfs.Server.Clients.{Server, seen_by, replaced, begun, put, ServerReach, start, next, steps}
use azpfs.Server.OnDisk.Confined.{HasPlainNames}
use azpfs.Server.OnDisk.Confined.Runs.{server_confined}
use azpfs.Tests.Disk.{files_os, files, root, outside, started}
use azpfs.Io.{panicked}

-- Client 0 looks up `a`.
abbrev asking : Message
asking = lookup_req 0 1 (b'a' ∷ [])

abbrev inputs : ℕ → List (Option Message)
inputs i = if i == 0 then some asking ∷ [] else []

unfoldable pub run :
    (t : Server (Fs files_os)) × ServerReach (disk_backend files_os) inputs (disk_fs root files) t
unfolding handle_msg reply_with takes_lock lock_after spawned seen_by replaced begun put
run = (
  _,
  next (next start (steps 0 (receive refl))) (steps 0 (begin_locked [] asking [] refl refl refl)),
)

inputs-HasPlainNames : (i : ℕ) → All HasPlainNames (messages (inputs i))
unfolding messages
inputs-HasPlainNames i = elim (Bool-cases (i == 0)) [
  | inl h ↦ rw h (((refl, tt), refl), tt)
  | inr h ↦ rw h tt
]

server_confined_example :
    ServerReach
      (disk_backend (sandboxed (is_below root) (λ path. true) files_os))
      inputs
      (disk_fs root files)
      run.0
server_confined_example =
    server_confined files_os root (λ path. true) inputs files run.0 (λ path h. refl)
      (λ path up h e. refl) inputs-HasPlainNames run.1

-- What lies outside is not below.
outside_runs :
    (is_below root (b'/' ∷ b's' ∷ b'x' ∷ []) ≡ false)
    × (is_below root (b'/' ∷ b's' ∷ b'/' ∷ b'.' ∷ b'.' ∷ b'/' ∷ b'e' ∷ []) ≡ false)
    × (is_below root (b'/' ∷ b's' ∷ b'/' ∷ b'.' ∷ b'.' ∷ b'x' ∷ []) ≡ true)
unfolding is_below
outside_runs = (refl, refl, refl)

-- The sandbox refuses an absolute name, which `lookup` resolves by itself.
refused_runs :
    (lookup (sandboxed (is_below root) (is_below root) files_os) 3 outside started).0 ≡ panicked
unfolding lookup get_path push is_absolute is_below
refused_runs = refl
