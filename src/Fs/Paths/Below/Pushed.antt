-- ===== src/Fs/Paths/Below/Pushed.antt =====
-- `PathBuf::push` of a plain name leads from a path below a directory, as src/core/fs/disk.rs has them,
-- to a path below it.
use mathlib.Core.Path.{subst}
use azpfs.Base.{
  ℕ, ◌==◌, Bool, true, false, ◌&&◌, Option, none, some, List, [], ◌∷◌, ◌++◌, Bytes, All, ◌≡◌, refl,
  sym, ap, ◌∙◌, arith, ◌⊎◌, inl, inr, Bool-cases, append_assoc, append-nil, ==→eq, ==_refl,
}
use azpfs.Fs.Paths.{slash, is_absolute, needs_separator, push}
use azpfs.Fs.Paths.Below.{
  IsPlain, onto_first, components, none_climbs, behind, separated, descends, is_below,
}

components_cons : (p : Bytes) → (w : Bytes) × (ws : List Bytes) × (components p ≡ w ∷ ws)
components_cons [] = ([], [], refl)
components_cons (c ∷ p) = elim (Bool-cases (c == slash)) [
  | inl h ↦ ([], components p, rw h)
  | inr h ↦ let (w, ws, e) = components_cons p in (c ∷ w, ws, rw (h, e))
]

onto_first-append :
    (c : ℕ) (p : Bytes) (ws : List Bytes)
    → onto_first c (components p ++ ws) ≡ onto_first c (components p) ++ ws
onto_first-append c p ws = let (w, rest, e) = components_cons p in rw e

components-join : (p q : Bytes) → components (p ++ (slash ∷ q)) ≡ components p ++ components q
components-join [] q = refl
components-join (c ∷ p) q = elim (Bool-cases (c == slash)) [
  | inl h ↦ rw (h, components-join p q)
  | inr h ↦ rw (h, components-join p q) (onto_first-append c p (components q))
]

components-plain :
    (name : Bytes) → All (λ c. (c == slash) ≡ false) name → components name ≡ name ∷ []
components-plain [] h = refl
components-plain (c ∷ name) h = rw (h.0, components-plain name h.1)

none_climbs-append :
    (vs ws : List Bytes) → none_climbs (vs ++ ws) ≡ (none_climbs vs && none_climbs ws)
none_climbs-append [] ws = refl
none_climbs-append (v ∷ vs) ws = ground (arith, none_climbs-append vs ws)

behind_own : (dir rest : Bytes) → behind dir (dir ++ rest) ≡ some rest
behind_own [] rest = refl
behind_own (d ∷ dir) rest = rw (==_refl d, behind_own dir rest)

behind_only : (dir path rest : Bytes) → behind dir path ≡ some rest → path ≡ dir ++ rest
behind_only [] path rest h = cc
behind_only (d ∷ dir) [] rest h = cc
behind_only (d ∷ dir) (c ∷ path) rest h = elim (Bool-cases (d == c)) [
  | inl e ↦ let same = ==→eq d c e in let only = behind_only dir path rest (rw e at h) in cc
  | inr e ↦ let no : none ≡ some rest = rw e at h in cc
]

-- What stands behind the directory, if a path is below it.
abbrev IsBehind : (dir rest : Bytes) → Type 0
IsBehind dir rest =
    (separated (needs_separator dir) rest ≡ true) × (none_climbs (components rest) ≡ true)

is_below-append : (dir rest : Bytes) → IsBehind dir rest → is_below dir (dir ++ rest) ≡ true
unfolding is_below
is_below-append dir rest h = rw (behind_own dir rest, h.0, h.1)

is_below_split :
    (dir path : Bytes)
    → is_below dir path ≡ true
    → (rest : Bytes) × (path ≡ dir ++ rest) × IsBehind dir rest
unfolding is_below
is_below_split dir path h = split (behind dir path) refl h
  where
    split :
        (o : Option Bytes)
        → behind dir path ≡ o
        → descends dir o ≡ true
        → (rest : Bytes) × (path ≡ dir ++ rest) × IsBehind dir rest
    split none e k = cc
    split (some rest) e k = (rest, behind_only dir path rest e, (ground arith, ground arith))

-- A directory is below itself.
pub is_below_refl : (dir : Bytes) → is_below dir dir ≡ true
is_below_refl dir = rw append-nil at (is_below-append dir [] (ground arith, refl))

-- How a path ends at which no slash is to be put.
ends_in_slash :
    (path : Bytes)
    → needs_separator path ≡ false
    → (path ≡ []) ⊎ ((q : Bytes) × (path ≡ q ++ (slash ∷ [])))
ends_in_slash [] h = inl refl
ends_in_slash (c ∷ []) h = inr ([], ground arith)
ends_in_slash (c ∷ d ∷ p) h = elim (ends_in_slash (d ∷ p) h) [
  | inl e ↦ cc
  | inr (q, e) ↦ inr (c ∷ q, ap (λ x. c ∷ x) e)
]

needs_separator-append :
    (dir : Bytes) (c : ℕ) (rest : Bytes)
    → needs_separator (dir ++ (c ∷ rest)) ≡ needs_separator (c ∷ rest)
needs_separator-append [] c rest = refl
needs_separator-append (d ∷ []) c rest = refl
needs_separator-append (d ∷ e ∷ dir) c rest = needs_separator-append (e ∷ dir) c rest

plain-is_absolute : (name : Bytes) → IsPlain name → is_absolute name ≡ false
unfolding is_absolute
plain-is_absolute [] h = refl
plain-is_absolute (c ∷ name) h = h.0.0

slash_behind :
    (b : Bool) (rest : Bytes) → separated b rest ≡ true → separated b (rest ++ (slash ∷ [])) ≡ true
slash_behind true [] h = refl
slash_behind false [] h = refl
slash_behind true (c ∷ rest) h = h
slash_behind false (c ∷ rest) h = refl

IsBehind-slash :
    (dir q tail name : Bytes)
    → (separated (needs_separator dir) (q ++ (slash ∷ tail)) ≡ true)
    → none_climbs (components q) ≡ true
    → IsPlain name
    → IsBehind dir (q ++ (slash ∷ name))
IsBehind-slash dir q tail name h k plain =
    let whole : components (q ++ (slash ∷ name)) ≡ components q ++ (name ∷ []) =
      components-join q name ∙ ap (λ l. components q ++ l) (components-plain name plain.0) in
    (
      same_start (needs_separator dir) q h,
      rw (whole, none_climbs-append (components q) (name ∷ []), k, plain.1),
    )
  where
    same_start :
        (b : Bool) (q : Bytes)
        → separated b (q ++ (slash ∷ tail)) ≡ true
        → separated b (q ++ (slash ∷ name)) ≡ true
    same_start true [] e = refl
    same_start false [] e = refl
    same_start true (c ∷ q) e = e
    same_start false (c ∷ q) e = refl

IsBehind-nil : (dir name : Bytes) → needs_separator dir ≡ false → IsPlain name → IsBehind dir name
IsBehind-nil dir name h plain = (rw h, rw (components-plain name plain.0, plain.1))

-- What is behind the directory, where no slash is to be put behind it.
IsBehind-append :
    (dir rest name : Bytes)
    → needs_separator (dir ++ rest) ≡ false
    → IsBehind dir rest
    → IsPlain name
    → IsBehind dir (rest ++ name)
IsBehind-append dir [] name h k plain = IsBehind-nil dir name (rw append-nil at h) plain
IsBehind-append dir (c ∷ rest) name h k plain =
    elim (ends_in_slash (c ∷ rest) (sym (needs_separator-append dir c rest) ∙ h)) [
      | inl e ↦ cc
      | inr (q, e) ↦
          let both : none_climbs (components q) && none_climbs ([] ∷ []) ≡ true =
            sym (none_climbs-append (components q) ([] ∷ []))
            ∙ ap none_climbs (sym (components-join q []))
            ∙ ap (λ r. none_climbs (components r)) (sym e)
            ∙ k.1 in
          let start = subst (λ r. separated (needs_separator dir) r ≡ true) e k.0 in
          subst (IsBehind dir) (sym (ap (λ r. r ++ name) e ∙ append_assoc q (slash ∷ []) name))
            (IsBehind-slash dir q [] name start (ground (arith, both)) plain)
    ]

-- Pushing a plain name onto a path below a directory leads to a path below it.
pub is_below-push :
    (dir path name : Bytes)
    → is_below dir path ≡ true
    → IsPlain name
    → is_below dir (push path name) ≡ true
unfolding push
is_below-push dir path name h plain =
    let (rest, e, behind) = is_below_split dir path h in
    elim (Bool-cases (needs_separator path)) [
      | inl slashed ↦
          rw (plain-is_absolute name plain, slashed, e, append_assoc)
            (is_below-append dir (rest ++ (slash ∷ name)) (separated_name rest behind))
      | inr joined ↦
          rw (plain-is_absolute name plain, joined, e, append_assoc)
            (is_below-append dir (rest ++ name)
              (IsBehind-append dir rest name (ap needs_separator (sym e) ∙ joined) behind plain))
    ]
  where
    separated_name : (rest : Bytes) → IsBehind dir rest → IsBehind dir (rest ++ (slash ∷ name))
    separated_name rest h =
        IsBehind-slash dir rest [] name (slash_behind (needs_separator dir) rest h.0) h.1 plain
