-- ===== src/Client/Combine/Reassembly.antt =====
-- `combine_read_chunks` of src/core/fs/handler.rs on the chunks of a payload.
use mathlib.Core.List.{Permᴰ}
use azpfs.Base.{
  ℕ, ◌+◌, ◌≤◌, ◌<◌, ◌≡◌, ◌≢◌, refl, sym, ap, ◌∙◌, Bool, Bytes, List, [], ◌∷◌, ◌++◌, length, All,
  arith, append_assoc, append-nil, length-append, All-perm,
}
use azpfs.Io.{ok}
use azpfs.Protocol.Message.{Message, read_res}
use azpfs.Client.Combine.{ChunkMap, insert, flatten, combine_read_chunks}
use azpfs.Client.Combine.Order.{
  chunk_offset, file_chunk, file_all, total_size, total_size-nil, IsChunkOf, Distinct,
  combine_loop_runs, total_size-perm, file_all-perm,
}

-- The messages are the chunks of `bytes`, one after the other, from the offset `head` on: none is
-- empty and none is longer than `most`.
abbrev pub IsCut : (most id total head : ℕ) → List Message → Bytes → Type 0
IsCut most id total head [] bytes = bytes ≡ []
IsCut most id total head (m ∷ ms) bytes =
    (chunk rest : Bytes) × (m ≡ read_res id total head chunk)
    × (bytes ≡ chunk ++ rest)
    × (0 < length chunk)
    × (length chunk ≤ most)
    × IsCut most id total (head + length chunk) ms rest

module _ (most id total : ℕ) where
  IsCut-All :
      (head : ℕ) (ms : List Message) (bytes : Bytes)
      → IsCut most id total head ms bytes
      → All (IsChunkOf total) ms
  IsCut-All head [] bytes h = tt
  IsCut-All head (m ∷ ms) bytes (c, rest, same, split, pos, fits, more) =
      ((id, head, c, same, pos), IsCut-All (head + length c) ms rest more)

  total_size-IsCut :
      (head : ℕ) (ms : List Message) (bytes : Bytes)
      → IsCut most id total head ms bytes
      → total_size ms ≡ length bytes
  unfolding total_size
  total_size-IsCut head [] bytes h = rw h
  total_size-IsCut head (m ∷ ms) bytes (c, rest, same, split, pos, fits, more) =
      rw (same, split, length-append)
        (omega (arith, total_size-IsCut (head + length c) ms rest more))

  -- The offsets grow.
  IsCut-above :
      (low head : ℕ) (ms : List Message) (bytes : Bytes)
      → low < head
      → IsCut most id total head ms bytes
      → All (λ m. low ≢ chunk_offset m) ms
  IsCut-above low head [] bytes l h = tt
  IsCut-above low head (m ∷ ms) bytes l (c, rest, same, split, pos, fits, more) =
      (rw same (omega arith), IsCut-above low (head + length c) ms rest (omega arith) more)

  IsCut-Distinct :
      (head : ℕ) (ms : List Message) (bytes : Bytes)
      → IsCut most id total head ms bytes
      → Distinct ms
  IsCut-Distinct head [] bytes h = tt
  IsCut-Distinct head (m ∷ ms) bytes (c, rest, same, split, pos, fits, more) = (
    rw same (IsCut-above head (head + length c) ms rest (omega arith) more),
    IsCut-Distinct (head + length c) ms rest more,
  )

  insert_last :
      (k : ℕ) (v : Bytes) (m : ChunkMap) → All (λ e. e.0 < k) m → insert k v m ≡ m ++ ((k, v) ∷ [])
  unfolding insert
  insert_last k v [] h = refl
  insert_last k v ((j, w) ∷ m) h = ground (arith, insert_last k v m h.1)

  flatten-append : (m n : ChunkMap) → flatten (m ++ n) ≡ flatten m ++ flatten n
  unfolding flatten
  flatten-append [] n = refl
  flatten-append ((k, v) ∷ m) n =
      rw (flatten-append m n) (sym (append_assoc v (flatten m) (flatten n)))

  All-below-snoc :
      (k k' : ℕ) (v : Bytes) (m : ChunkMap)
      → k < k'
      → All (λ e. e.0 < k) m
      → All (λ e. e.0 < k') (m ++ ((k, v) ∷ []))
  All-below-snoc k k' v [] l h = (l, tt)
  All-below-snoc k k' v (e ∷ m) l h = (omega arith, All-below-snoc k k' v m l h.1)

  -- Chunks that arrive in order are put behind one another.
  flatten-file_all :
      (head : ℕ) (ms : List Message) (bytes : Bytes) (chunks : ChunkMap)
      → IsCut most id total head ms bytes
      → All (λ e. e.0 < head) chunks
      → flatten (file_all chunks ms) ≡ flatten chunks ++ bytes
  unfolding file_all file_chunk
  flatten-file_all head [] bytes chunks h below = rw h (sym (append-nil (flatten chunks)))
  flatten-file_all head (m ∷ ms) bytes chunks (c, rest, same, split, pos, fits, more) below =
      let ih =
        flatten-file_all (head + length c) ms rest (chunks ++ ((head, c) ∷ [])) more
          (All-below-snoc head (head + length c) c chunks (omega arith) below) in
      rw (same, insert_last head c chunks below, split)
        (ih ∙ rw flatten-append (unfold flatten in simp (append-nil, append_assoc)))

-- Chunks that cut a payload of at least one byte up, in whatever order they arrive, are put
-- together to the payload; what comes behind the last of them is not read.
pub combine_read_chunks-IsCut :
    (most id : ℕ) (bytes : Bytes) (sent arrived later : List Message) (closes : Bool)
    → IsCut most id (length bytes) 0 sent bytes
    → 0 < length bytes
    → Permᴰ sent arrived
    → combine_read_chunks (record { messages = arrived ++ later; closes = closes }) ≡ ok bytes
unfolding combine_read_chunks flatten
combine_read_chunks-IsCut most id bytes sent [] later closes cut pos p = absurd (
    omega (
      arith,
      total_size-IsCut most id (length bytes) 0 sent bytes cut,
      rw total_size-nil at (total_size-perm p),
    ))
combine_read_chunks-IsCut most id bytes sent (m ∷ ms) later closes cut pos p =
    let total = length bytes in
    let chunks = IsCut-All most id total 0 sent bytes cut in
    let size = total_size-IsCut most id total 0 sent bytes cut in
    combine_loop_runs closes total m ms later [] 0 (All-perm (IsChunkOf total) p chunks)
      (omega (arith, size, total_size-perm p))
    ∙ ap (λ (c : ChunkMap). ok (flatten c))
        (sym (file_all-perm total [] p chunks (IsCut-Distinct most id total 0 sent bytes cut)))
    ∙ ap ok (flatten-file_all most id total 0 sent bytes [] cut tt)
