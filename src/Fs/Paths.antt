-- ===== src/Fs/Paths.antt =====
-- What src/core/fs/disk.rs uses of `std::path` on Unix: `PathBuf::push` and `Path::parent`, on the
-- bytes of a path.
pub mod Below
use azpfs.Base.{
  ℕ, ◌==◌, Bool, false, ◌||◌, not, Option, none, some, [], ◌∷◌, ◌++◌, Bytes, if◌then◌else◌, Option,
  none, some, ◌≡◌, refl,
}
use mathlib.Core.List.{reverse}

abbrev pub slash : ℕ
slash = b'/'

abbrev pub dot : ℕ
dot = b'.'

unfoldable pub is_absolute : Bytes → Bool
is_absolute [] = false
is_absolute (c ∷ p) = c == slash

-- Whether a path is there and does not end in a slash.
abbrev pub needs_separator : Bytes → Bool
needs_separator [] = false
needs_separator (c ∷ []) = not (c == slash)
needs_separator (c ∷ d ∷ p) = needs_separator (d ∷ p)

-- `PathBuf::push`: an absolute path takes the place of the other one.
unfoldable pub push : Bytes → Bytes → Bytes
unfolding is_absolute
push path name =
    if is_absolute name
    then name
    else if needs_separator path
    then path ++ (slash ∷ name)
    else path ++ name

-- Paths are read from their end, so the body of a path stands reversed: empty components and `.` are
-- skipped.
abbrev pub skip_empty : Bytes → Bytes
skip_empty [] = []
skip_empty (c ∷ []) = if c == slash || c == dot then [] else c ∷ []
skip_empty (c ∷ d ∷ r) =
    let shorter = skip_empty (d ∷ r) in
    let shorter_by_two = skip_empty r in
    if c == slash
    then shorter
    else if not (c == dot)
    then c ∷ d ∷ r
    else if d == slash
    then shorter_by_two
    else c ∷ d ∷ r

-- The last component goes, with the slash before it.
abbrev pub drop_component : Bytes → Bytes
drop_component [] = []
drop_component (c ∷ r) = let rest = drop_component r in if c == slash then r else rest

-- The last component of a body that follows `root`: what is before it, if there is one.
abbrev pub parent_in : (root : Bytes) (body : Bytes) (parent_of_root : Option Bytes) → Option Bytes
parent_in root body parent_of_root = elim (skip_empty (reverse body)) [
  | [] ↦ parent_of_root
  | c ∷ r ↦ some (root ++ reverse (skip_empty (drop_component (c ∷ r))))
]

-- `Path::parent`: `/` and the empty path have none, and a relative path may start by `.`.
unfoldable pub parent : Bytes → Option Bytes
parent [] = none
parent (c ∷ []) = if c == slash then none else some []
parent (c ∷ d ∷ p) =
    if c == slash
    then parent_in (slash ∷ []) (d ∷ p) none
    else if not (c == dot)
    then parent_in [] (c ∷ d ∷ p) none
    else if d == slash
    then parent_in (dot ∷ []) (d ∷ p) (some [])
    else parent_in [] (c ∷ d ∷ p) none

push_runs :
    (push (b'/' ∷ b's' ∷ []) (b'a' ∷ []) ≡ b'/' ∷ b's' ∷ b'/' ∷ b'a' ∷ [])
    × (push (b'/' ∷ []) (b'a' ∷ []) ≡ b'/' ∷ b'a' ∷ [])
    × (push (b's' ∷ []) (b'/' ∷ b'a' ∷ []) ≡ b'/' ∷ b'a' ∷ [])
unfolding push is_absolute
push_runs = (refl, refl, refl)

parent_runs :
    (parent (b'/' ∷ b's' ∷ b'/' ∷ b'a' ∷ []) ≡ some (b'/' ∷ b's' ∷ []))
    × (parent (b'/' ∷ b's' ∷ []) ≡ some (b'/' ∷ []))
    × (parent (b'/' ∷ b's' ∷ b'/' ∷ b'/' ∷ b'.' ∷ b'/' ∷ []) ≡ some (b'/' ∷ []))
    × (parent (b'/' ∷ b'/' ∷ []) ≡ none)
    × (parent (b's' ∷ []) ≡ some [])
    × (parent (b'.' ∷ b'/' ∷ b'a' ∷ []) ≡ some (b'.' ∷ []))
    × (parent (b'.' ∷ b'/' ∷ []) ≡ some [])
    × (parent (b'.' ∷ b'.' ∷ []) ≡ some [])
unfolding parent
parent_runs = (refl, refl, refl, refl, refl, refl, refl, refl)
