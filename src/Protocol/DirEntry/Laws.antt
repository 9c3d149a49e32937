-- ===== src/Protocol/DirEntry/Laws.antt =====
-- Packing and unpacking directory entries, of src/core/protocol/dir_entry.rs.
use azpfs.Base.{
  ℕ, zero, suc, ◌≤◌, ◌<◌, ◌≡◌, ◌≢◌, inl, inr, refl, sym, ap, ◌∙◌, Bytes, List, [], ◌∷◌, ◌++◌,
  length, All, IsByte, All-append_right, arith, append_assoc, append-nil, length-append,
  length-to_be, Option, none, some,
}
use azpfs.Protocol.Codes.{FileType, file_type_code, file_type_of, file_type_of-file_type_code}
use azpfs.Protocol.Reader.{ReadResult, done}
use azpfs.Protocol.Reader.Laws.{
  ReadResult-cases, read_bytes-append, read_uint-to_be, read_uint_byte, read_uint-length,
}
use azpfs.Protocol.Reader.Spells.{
  Spells, Took, took, failed, >>=-Spells, pure-Spells, reject-Spells, read_bytes-Spells,
  read_uint-Spells, read_uint_byte-Spells,
}
use azpfs.Protocol.Read.{from_option}
use mathlib.Core.Path.{subst}
use native.Mathlib.Nat.{mod-eq_of_lt}
use azpfs.Protocol.DirEntry.{
  DirEntry, IsValid, write_entry, read_entry, serialize_dir_entires, parsed, broken, stuck,
  parse_loop, parse_dir_entries,
}

ruleset steps = (append_assoc, read_uint_byte, read_bytes-append, file_type_of-file_type_code)

read_entry-write_entry :
    (e : DirEntry) (rest : Bytes) → IsValid e → read_entry (write_entry e ++ rest) ≡ done e rest
unfolding read_entry write_entry
read_entry-write_entry e rest h =
    simp (steps, read_uint-to_be 8 e.inode h.0, read_uint-length 1 e.filename h.2)

length-write_entry : (e : DirEntry) → 0 < length (write_entry e)
unfolding write_entry
length-write_entry e = rw length-append (omega (arith, length-to_be 8 e.inode))

from_option-Spells {ℓ} :
    {A : Type ℓ} (o : Option A) → Spells (from_option o) λ a u. (u ≡ []) × (o ≡ some a)
from_option-Spells none = reject-Spells
from_option-Spells (some a) = pure-Spells a (refl, refl)

file_type_of-eq_some : (n : ℕ) (t : FileType) → file_type_of n ≡ some t → file_type_code t ≡ n
unfolding file_type_of
file_type_of-eq_some n t h = ground arith

-- What `read_entry` takes for an entry is that entry, written.
read_entry-Spells : Spells read_entry λ e u. (u ≡ write_entry e) × IsValid e
unfolding read_entry write_entry
read_entry-Spells = >>=-Spells (read_uint-Spells 8) λ inode u0 _ h0.
    >>=-Spells read_uint_byte-Spells λ byte u1 _ h1.
      >>=-Spells (from_option-Spells (file_type_of byte)) λ ty u2 _ h2.
        >>=-Spells (read_uint-Spells 1) λ len u3 _ h3.
          >>=-Spells (read_bytes-Spells len) λ name u4 hb h4.
            let size : length name ≡ len = ap length (sym h4.0) ∙ h4.1 in
            let fits : length name < 256 = omega (arith, size, h3.1) in
            pure-Spells (record { inode = inode; file_type = ty; filename = name })
              (
                rw (
                  h0.0,
                  h1,
                  h2.0,
                  h3.0,
                  h4.0,
                  append-nil,
                  file_type_of-eq_some byte ty h2.1,
                  mod-eq_of_lt fits,
                  size,
                ),
                (h0.1, subst (All IsByte) h4.0 hb, fits),
              )

Took-done {ℓ} :
    {W : DirEntry → Bytes → Type ℓ} {bs : Bytes} (r : ReadResult DirEntry) {e : DirEntry}
    {rest : Bytes}
    → Took W bs r
    → r ≡ done e rest
    → (used : Bytes) × (bs ≡ used ++ rest) × W e used
Took-done {W} _ (took a used left e w) h = (used, cc, subst (λ x. W x used) (cc) w)
Took-done _ (failed x) h = cc

-- One entry off the front of bytes: it is valid, and its bytes are the entry written.
read_entry-eq_done :
    (bs : Bytes) (e : DirEntry) (rest : Bytes)
    → All IsByte bs
    → read_entry bs ≡ done e rest
    → (bs ≡ write_entry e ++ rest) × IsValid e
read_entry-eq_done bs e rest h r =
    let (used, split, w) = Took-done (read_entry bs) (read_entry-Spells bs h) r in
    (rw (← w.0) split, w.1)

parse_loop_step :
    (fuel : ℕ) (bs : Bytes) (out : List DirEntry) (e : DirEntry) (rest : Bytes)
    → 0 < length bs
    → read_entry bs ≡ done e rest
    → parse_loop (suc fuel) bs out ≡ parse_loop fuel rest (out ++ (e ∷ []))
unfolding parse_loop
parse_loop_step fuel [] out e rest h r = absurd (omega arith)
parse_loop_step fuel (b ∷ bs) out e rest h r = rw (r, parse_loop)

parse_loop-serialize_dir_entires :
    (es : List DirEntry) (fuel : ℕ) (out : List DirEntry)
    → All IsValid es
    → length (serialize_dir_entires es) ≤ fuel
    → parse_loop fuel (serialize_dir_entires es) out ≡ parsed (out ++ es)
unfolding serialize_dir_entires
parse_loop-serialize_dir_entires [] zero out h k = unfold parse_loop in rw append-nil
parse_loop-serialize_dir_entires [] (suc fuel) out h k = unfold parse_loop in rw append-nil
parse_loop-serialize_dir_entires (e ∷ es) zero out h k =
    absurd (
      omega (arith, length-append (write_entry e) (serialize_dir_entires es), length-write_entry e))
parse_loop-serialize_dir_entires (e ∷ es) (suc fuel) out h k =
    let size = length-append (write_entry e) (serialize_dir_entires es) in
    parse_loop_step fuel _ out e (serialize_dir_entires es)
      (omega (arith, size, length-write_entry e))
      (read_entry-write_entry e (serialize_dir_entires es) h.0)
    ∙ parse_loop-serialize_dir_entires es fuel (out ++ (e ∷ [])) h.1
        (omega (arith, size, length-write_entry e))
    ∙ ap parsed (append_assoc out (e ∷ []) es)

-- What `serialize_dir_entires` packs, `parse_dir_entries` unpacks, for entries whose names are at
-- most 255 bytes long.
pub parse_dir_entries-serialize_dir_entires :
    (es : List DirEntry) → All IsValid es → parse_dir_entries (serialize_dir_entires es) ≡ parsed es
unfolding parse_dir_entries
parse_dir_entries-serialize_dir_entires es h =
    parse_loop-serialize_dir_entires es _ [] h (omega arith)

-- The other direction: a payload that is accepted is the packing of the entries.
abbrev IsPacking : Bytes → List DirEntry → List DirEntry → Type 0
IsPacking bs out es =
    (tail : List DirEntry) × (es ≡ out ++ tail)
    × (bs ≡ serialize_dir_entires tail)
    × All IsValid tail

parse_loop-eq_parsed :
    (fuel : ℕ) (bs : Bytes) (out es : List DirEntry)
    → All IsByte bs
    → parse_loop fuel bs out ≡ parsed es
    → IsPacking bs out es
unfolding parse_loop serialize_dir_entires
parse_loop-eq_parsed zero [] out es h e = ([], rw append-nil (cc), refl, tt)
parse_loop-eq_parsed zero (b ∷ bs) out es h e = cc
parse_loop-eq_parsed (suc fuel) [] out es h e = ([], rw append-nil (cc), refl, tt)
parse_loop-eq_parsed (suc fuel) (b ∷ bs) out es h e =
    elim (ReadResult-cases (read_entry (b ∷ bs))) [
      | inl (d, rest, r) ↦
          let (split, valid) = read_entry-eq_done (b ∷ bs) d rest h r in
          let bytes = All-append_right IsByte (write_entry d) rest (subst (All IsByte) split h) in
          let ih =
            parse_loop-eq_parsed fuel rest (out ++ (d ∷ [])) es bytes (rw (r, parse_loop) at e) in
          (
            d ∷ ih.0,
            ih.1 ∙ append_assoc out (d ∷ []) ih.0,
            split ∙ ap (λ (t : Bytes). write_entry d ++ t) ih.2,
            (valid, ih.3),
          )
      | inr (x, r) ↦ let no_way : broken x ≡ parsed es = rw (r, parse_loop) at e in cc
    ]

-- A payload of bytes that `parse_dir_entries` accepts is the packing of what it returns, and those
-- entries are valid: no byte is skipped, and no two payloads give the same entries.
pub serialize_dir_entires-parse_dir_entries :
    (bytes : Bytes) (es : List DirEntry)
    → All IsByte bytes
    → parse_dir_entries bytes ≡ parsed es
    → (serialize_dir_entires es ≡ bytes) × All IsValid es
unfolding parse_dir_entries
serialize_dir_entires-parse_dir_entries bytes es h e =
    let (tail, same, packed, valid) = parse_loop-eq_parsed (length bytes) bytes [] es h e in
    (rw same (sym packed), rw same valid)

parse_loop-ne-stuck :
    (fuel : ℕ) (bs : Bytes) (out : List DirEntry)
    → All IsByte bs
    → length bs ≤ fuel
    → parse_loop fuel bs out ≢ stuck
unfolding parse_loop
parse_loop-ne-stuck zero [] out h k = λ e. cc
parse_loop-ne-stuck (suc fuel) [] out h k = λ e. cc
parse_loop-ne-stuck zero (b ∷ bs) out h k = absurd (omega arith)
parse_loop-ne-stuck (suc fuel) (b ∷ bs) out h k = elim (ReadResult-cases (read_entry (b ∷ bs))) [
  | inl (d, rest, r) ↦
      let (split, valid) = read_entry-eq_done (b ∷ bs) d rest h r in
      let bytes = All-append_right IsByte (write_entry d) rest (subst (All IsByte) split h) in
      let size = length-append (write_entry d) rest in
      rw (r, parse_loop)
        (parse_loop-ne-stuck fuel rest (out ++ (d ∷ [])) bytes
          (omega (arith, length-write_entry d, size, ap length split)))
  | inr (x, r) ↦ rw (r, parse_loop) (λ e. cc)
]

-- The loop of `parse_dir_entries` ends on every payload of bytes.
pub parse_dir_entries-ne-stuck :
    (bytes : Bytes) → All IsByte bytes → parse_dir_entries bytes ≢ stuck
unfolding parse_dir_entries
parse_dir_entries-ne-stuck bytes h = parse_loop-ne-stuck (length bytes) bytes [] h (omega arith)
