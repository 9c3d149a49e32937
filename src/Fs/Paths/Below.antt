-- ===== src/Fs/Paths/Below.antt =====
-- The paths below a directory, for src/core/fs/disk.rs, which makes them by `PathBuf::push`.
pub mod Pushed
use mathlib.Core.Path.{subst}
use azpfs.Base.{
  ℕ, ◌==◌, Bool, true, false, ◌&&◌, not, Option, none, some, List, [], ◌∷◌, ◌++◌, Bytes, All,
  All-append, ◌≡◌, refl, sym, ap, ◌∙◌, arith, ◌⊎◌, inl, inr, Bool-cases, append_assoc, append-nil,
  if◌then◌else◌, ==→eq, ==_refl,
}
use azpfs.Fs.Paths.{slash, dot, is_absolute, needs_separator, push}

abbrev pub is_dotdot : Bytes → Bool
is_dotdot (c ∷ d ∷ []) = (c == dot) && (d == dot)
is_dotdot _ = false

-- A name as the kernel gives it: without a slash, and not `..`.
abbrev pub IsPlain : Bytes → Type 0
IsPlain name = All (λ c. (c == slash) ≡ false) name × (is_dotdot name ≡ false)

-- What stands between the slashes.
abbrev pub onto_first : ℕ → List Bytes → List Bytes
onto_first c [] = (c ∷ []) ∷ []
onto_first c (w ∷ ws) = (c ∷ w) ∷ ws

abbrev pub components : Bytes → List Bytes
components [] = [] ∷ []
components (c ∷ p) = let rest = components p in if c == slash then [] ∷ rest else onto_first c rest

abbrev pub none_climbs : List Bytes → Bool
none_climbs [] = true
none_climbs (w ∷ ws) = not (is_dotdot w) && none_climbs ws

-- The path without a directory in front of it.
abbrev pub behind : (dir path : Bytes) → Option Bytes
behind [] path = some path
behind (d ∷ dir) [] = none
behind (d ∷ dir) (c ∷ path) = let rest = behind dir path in if d == c then rest else none

abbrev pub separated : Bool → Bytes → Bool
separated true (c ∷ rest) = c == slash
separated _ _ = true

abbrev pub descends : (dir : Bytes) → Option Bytes → Bool
descends dir none = false
descends dir (some rest) = separated (needs_separator dir) rest && none_climbs (components rest)

-- Whether a path is a directory's own or below it, by its bytes: behind the directory's path, no
-- component is `..`.
unfoldable pub is_below : (dir path : Bytes) → Bool
is_below dir path = descends dir (behind dir path)
