-- ===== src/Client/Combine/Order.antt =====
-- The loop of `combine_read_chunks` on chunks that have distinct offsets, and the order in which they
-- arrive.
use mathlib.Core.List.{Permᴰ}
use mathlib.Core.Path.{subst}
use azpfs.Base.{
  ℕ, ◌+◌, ◌<◌, ◌≡◌, ◌≢◌, refl, sym, ap, ◌∙◌, Bool, Bytes, List, [], ◌∷◌, ◌++◌, length, All, arith,
  All-perm,
}
use azpfs.Io.{ok}
use azpfs.Protocol.Message.{Message, read_res}
use azpfs.Client.Combine.{ChunkMap, insert, flatten, combine_loop}

-- Inserting at two different offsets, in either order.
insert_comm :
    (k j : ℕ) (v w : Bytes) (m : ChunkMap)
    → k ≢ j
    → insert k v (insert j w m) ≡ insert j w (insert k v m)
unfolding insert
insert_comm k j v w [] h = ground arith
insert_comm k j v w ((i, x) ∷ m) h = ground (arith, insert_comm k j v w m h)

-- A message as a chunk; other messages are none.
abbrev pub chunk_offset : Message → ℕ
chunk_offset (read_res id total offset chunk) = offset
chunk_offset _ = 0

abbrev pub chunk_size : Message → ℕ
chunk_size (read_res id total offset chunk) = length chunk
chunk_size _ = 0

unfoldable pub file_chunk : Message → ChunkMap → ChunkMap
file_chunk (read_res id total offset chunk) chunks = insert offset chunk chunks
file_chunk _ chunks = chunks

unfoldable pub file_all : ChunkMap → List Message → ChunkMap
file_all chunks [] = chunks
file_all chunks (m ∷ ms) = file_all (file_chunk m chunks) ms

unfoldable pub total_size : List Message → ℕ
total_size [] = 0
total_size (m ∷ ms) = chunk_size m + total_size ms

-- A chunk of a payload of `total` bytes, with a byte in it.
abbrev pub IsChunkOf : ℕ → Message → Type 0
IsChunkOf total m =
    (id offset : ℕ) × (chunk : Bytes) × (m ≡ read_res id total offset chunk) × (0 < length chunk)

pub total_size-nil : total_size [] ≡ 0
unfolding total_size
total_size-nil = refl

total_size_pos :
    (total : ℕ) (m : Message) (ms : List Message)
    → All (IsChunkOf total) (m ∷ ms)
    → 0 < total_size (m ∷ ms)
unfolding total_size
total_size_pos total m ms ((id, o, c, same, pos), _) = rw same (omega arith)

-- The last chunk ends the loop.
combine_loop_last :
    (closes : Bool) (id total o : ℕ) (c : Bytes) (later : List Message) (chunks : ChunkMap)
    (received : ℕ)
    → received + length c ≡ total
    → combine_loop closes (read_res id total o c ∷ later) chunks received
      ≡ ok (flatten (insert o c chunks))
unfolding combine_loop
combine_loop_last closes id total o c later chunks received e = ground arith

-- A chunk that is not the last is noted.
combine_loop_next :
    (closes : Bool) (id total o : ℕ) (c : Bytes) (later : List Message) (chunks : ChunkMap)
    (received : ℕ)
    → received + length c < total
    → combine_loop closes (read_res id total o c ∷ later) chunks received
      ≡ combine_loop closes later (insert o c chunks) (received + length c)
unfolding combine_loop
combine_loop_next closes id total o c later chunks received e = ground arith

-- The loop returns when the last chunk has arrived, and not before.
pub combine_loop_runs :
    (closes : Bool) (total : ℕ) (m : Message) (ms later : List Message) (chunks : ChunkMap)
    (received : ℕ)
    → All (IsChunkOf total) (m ∷ ms)
    → received + total_size (m ∷ ms) ≡ total
    → combine_loop closes (m ∷ (ms ++ later)) chunks received
      ≡ ok (flatten (file_all chunks (m ∷ ms)))
unfolding total_size file_all file_chunk
combine_loop_runs closes total m [] later chunks received ((id, o, c, same, pos), _) e =
    let size : received + length c ≡ total = omega (arith, rw same at e) in
    rw same (combine_loop_last closes id total o c later chunks received size)
combine_loop_runs closes total m (m' ∷ ms) later chunks received ((id, o, c, same, pos), h) e =
    let size : received + (length c + total_size (m' ∷ ms)) ≡ total = rw same at e in
    rw same (
      combine_loop_next closes id total o c (m' ∷ (ms ++ later)) chunks received
        (omega (arith, size, total_size_pos total m' ms h))
      ∙ combine_loop_runs closes total m' ms later (insert o c chunks) (received + length c) h
          (omega (arith, size)))

-- No two chunks have the same offset.
abbrev pub Distinct : List Message → Type 0
Distinct [] = Unit
Distinct (m ∷ ms) = All (λ x. chunk_offset m ≢ chunk_offset x) ms × Distinct ms

pub Distinct-perm : {xs ys : List Message} → Permᴰ xs ys → Distinct xs → Distinct ys
Distinct-perm Permᴰ.nil h = h
Distinct-perm (Permᴰ.cons {a} e p) h =
    rw (← e) (All-perm (λ x. chunk_offset a ≢ chunk_offset x) p h.0, Distinct-perm p h.1)
Distinct-perm (Permᴰ.swap {l} e f) h = (
  (
    (λ c. h.0.0 (ap chunk_offset e ∙ sym c ∙ ap chunk_offset (sym f))),
    subst (λ m. All (λ x. chunk_offset m ≢ chunk_offset x) l) f h.1.0,
  ),
  (subst (λ m. All (λ x. chunk_offset m ≢ chunk_offset x) l) e h.0.1, h.1.1),
)
Distinct-perm (Permᴰ.trans p q) h = Distinct-perm q (Distinct-perm p h)

pub total_size-perm : {xs ys : List Message} → Permᴰ xs ys → total_size xs ≡ total_size ys
unfolding total_size
total_size-perm Permᴰ.nil = refl
total_size-perm (Permᴰ.cons e p) = rw e (omega (arith, total_size-perm p))
total_size-perm (Permᴰ.swap e f) = rw (e, f) (omega arith)
total_size-perm (Permᴰ.trans p q) = total_size-perm p ∙ total_size-perm q

file_chunk_comm :
    (total : ℕ) (m m' : Message) (chunks : ChunkMap)
    → IsChunkOf total m
    → IsChunkOf total m'
    → chunk_offset m ≢ chunk_offset m'
    → file_chunk m (file_chunk m' chunks) ≡ file_chunk m' (file_chunk m chunks)
unfolding file_chunk
file_chunk_comm total m m' chunks (id, o, c, same, _) (id', o', c', same', _) h =
    let apart : o ≢ o' = rw (same, same') at h in
    rw (same, same') (insert_comm o o' c c' chunks apart)

-- The order of arrival does not matter to the map.
pub file_all-perm :
    (total : ℕ) {xs ys : List Message} (chunks : ChunkMap)
    → Permᴰ xs ys
    → All (IsChunkOf total) xs
    → Distinct xs
    → file_all chunks xs ≡ file_all chunks ys
unfolding file_all
file_all-perm total chunks Permᴰ.nil h d = refl
file_all-perm total chunks (Permᴰ.cons {a} e p) h d =
    rw (← e) (file_all-perm total (file_chunk a chunks) p h.1 d.1)
file_all-perm total chunks (Permᴰ.swap {a} {b} {l} e f) h d =
    rw (← e, ← f)
      (ap (λ (m : ChunkMap). file_all m l) (sym (file_chunk_comm total a b chunks h.0 h.1.0 d.0.0)))
file_all-perm total chunks (Permᴰ.trans p q) h d =
    file_all-perm total chunks p h d
    ∙ file_all-perm total chunks q (All-perm (IsChunkOf total) p h) (Distinct-perm p d)
