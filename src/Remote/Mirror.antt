-- ===== src/Remote/Mirror.antt =====
-- A file system that shows another one as a client over the network sees it: what src/core/fs/handler.rs
-- offers to FUSE, whatever lies between it and the server's file system.
use mathlib.Core.Option
use azpfs.Base.{ℕ, ◌<◌, ◌^◌, ◌≡◌, refl, Bytes, Option, All, length, IsByte, IsU16, IsU32, IsU64}
use azpfs.Io.{Outcome, ok, err, panicked, blocked, OfValue}
use azpfs.Protocol.Message.{AllSome}
use azpfs.Fs.Attr.{SystemTime, InRange, whole_seconds, in_seconds}
use azpfs.Fs.Backend.{FsBackend}
use azpfs.Fs.Run.{Run, continue, ◌>>=◌}
use azpfs.Remote.Seen.{seen}

-- `state` is the state behind a state of the client's side, and `IsFine` says which of these states
-- occur.
module _ {S T : Type 0} (IsFine : T → Type 0) (state : T → S) where
  -- `m'` gives what `m` gives, as the client sees it, and does the same behind.
  abbrev pub Sees {ℓ κ} : {A : Type ℓ} {B : Type κ} → (A → B) → Run S A → Run T B → Type κ
  Sees view m m' =
      (t : T)
      → IsFine t
      → ((m' t).0 ≡ seen view (m (state t)).0)
        × (state (m' t).1 ≡ (m (state t)).1)
        × IsFine (m' t).1

  continue-Sees {ℓ κ μ ν} :
      {A : Type ℓ} {B : Type κ} {C : Type μ} {D : Type ν} (v : A → B) (w : C → D) (P : A → Type 0)
      (r : Outcome A) (r' : Outcome B) (s : S) (t : T) (f : A → Run S C) (f' : B → Run T D)
      → r' ≡ seen v r
      → state t ≡ s
      → IsFine t
      → OfValue P r
      → ((a : A) → P a → Sees w (f a) (f' (v a)))
      → ((continue r' f' t).0 ≡ seen w (continue r f s).0)
        × (state (continue r' f' t).1 ≡ (continue r f s).1)
        × IsFine (continue r' f' t).1
  continue-Sees v w P (ok a) r' s t f f' e q g p h = rw (e, ← q) (h a p t g)
  continue-Sees v w P (err x) r' s t f f' e q g p h = rw e (refl, q, g)
  continue-Sees v w P panicked r' s t f f' e q g p h = rw e (refl, q, g)
  continue-Sees v w P blocked r' s t f f' e q g p h = rw e (refl, q, g)

  -- `P` is what holds of the first value.
  pub >>=-Sees {ℓ κ μ ν} :
      {A : Type ℓ} {B : Type κ} {C : Type μ} {D : Type ν} (v : A → B) (w : C → D) (P : A → Type 0)
      (m : Run S A) (m' : Run T B) (f : A → Run S C) (f' : B → Run T D)
      → Sees v m m'
      → ((t : T) → IsFine t → OfValue P (m (state t)).0)
      → ((a : A) → P a → Sees w (f a) (f' (v a)))
      → Sees w (m >>= f) (m' >>= f')
  >>=-Sees v w P m m' f f' h p k t g =
      let (e, q, g') = h t g in
      continue-Sees v w P (m (state t)).0 (m' t).0 (m (state t)).1 (m' t).1 f f' e q g' (p t g) k

  any_value {ℓ} : {A : Type ℓ} (r : Outcome A) → OfValue (λ _. Unit {0}) r
  any_value (ok a) = tt
  any_value (err e) = tt
  any_value panicked = tt
  any_value blocked = tt

  pub >>=-Sees_any {ℓ κ μ ν} :
      {A : Type ℓ} {B : Type κ} {C : Type μ} {D : Type ν} (v : A → B) (w : C → D) (m : Run S A)
      (m' : Run T B) (f : A → Run S C) (f' : B → Run T D)
      → Sees v m m'
      → ((a : A) → Sees w (f a) (f' (v a)))
      → Sees w (m >>= f) (m' >>= f')
  >>=-Sees_any v w m m' f f' h k =
      >>=-Sees v w (λ _. Unit {0}) m m' f f' h (λ t g. any_value (m (state t)).0) λ a _. k a

-- A name that a request can say.
abbrev pub IsName : Bytes → Type 0
IsName name = All IsByte name × (length name < 2 ^ 8)

-- `fs'` shows `fs`: each operation, on what a request can say, gives what that of `fs` gives, with times in
-- whole seconds, and has the same effect behind. The inodes that `fs` gives can be said, too.
pub record Mirror (fs fs' : FsBackend) : Type 1 where
  pub IsFine : fs'.State → Type 0
  pub state : fs'.State → fs.State
  pub lookup :
      (dir : ℕ) (name : Bytes)
      → IsU64 dir
      → IsName name
      → Sees IsFine state (λ x. x) (fs.lookup dir name) (fs'.lookup dir name)
  pub get_attr : (i : ℕ) → IsU64 i → Sees IsFine state in_seconds (fs.get_attr i) (fs'.get_attr i)
  pub set_attr :
      (i : ℕ) (size : Option ℕ) (at mt : Option SystemTime) (p u g : Option ℕ)
      → IsU64 i
      → AllSome IsU64 size
      → AllSome InRange at
      → AllSome InRange mt
      → AllSome IsU16 p
      → AllSome IsU32 u
      → AllSome IsU32 g
      → Sees IsFine state
          (λ x. x)
          (fs.set_attr i size (Option.map whole_seconds at) (Option.map whole_seconds mt) p u g)
          (fs'.set_attr i size at mt p u g)
  pub stats : Sees IsFine state (λ x. x) fs.stats fs'.stats
  pub create_file :
      (dir p flags : ℕ) (name : Bytes)
      → IsU64 dir
      → IsU16 p
      → IsU32 flags
      → IsName name
      → Sees IsFine state
          (λ x. x)
          (fs.create_file dir p flags name)
          (fs'.create_file dir p flags name)
  pub create_dir :
      (dir p : ℕ) (name : Bytes)
      → IsU64 dir
      → IsU16 p
      → IsName name
      → Sees IsFine state (λ x. x) (fs.create_dir dir p name) (fs'.create_dir dir p name)
  pub read :
      (i o len : ℕ)
      → IsU64 i
      → IsU64 o
      → IsU64 len
      → Sees IsFine state (λ x. x) (fs.read i o len) (fs'.read i o len)
  pub write :
      (i o : ℕ) (content : Bytes)
      → IsU64 i
      → IsU64 o
      → All IsByte content
      → length content < 2 ^ 32
      → Sees IsFine state (λ x. x) (fs.write i o content) (fs'.write i o content)
  pub read_dir : (i : ℕ) → IsU64 i → Sees IsFine state (λ x. x) (fs.read_dir i) (fs'.read_dir i)
  pub remove : (i : ℕ) → IsU64 i → Sees IsFine state (λ x. x) (fs.remove i) (fs'.remove i)
  pub rename :
      (i dir : ℕ) (name : Bytes)
      → IsU64 i
      → IsU64 dir
      → IsName name
      → Sees IsFine state (λ x. x) (fs.rename i dir name) (fs'.rename i dir name)
  pub found :
      (dir : ℕ) (name : Bytes) (t : fs'.State)
      → IsFine t
      → OfValue IsU64 (fs.lookup dir name (state t)).0
  pub made_file :
      (dir p flags : ℕ) (name : Bytes) (t : fs'.State)
      → IsFine t
      → OfValue IsU64 (fs.create_file dir p flags name (state t)).0
  pub made_dir :
      (dir p : ℕ) (name : Bytes) (t : fs'.State)
      → IsFine t
      → OfValue IsU64 (fs.create_dir dir p name (state t)).0
