-- ===== src/Server/Chunks/Laws.antt =====
-- The chunks that `assemble_read_res_chunks` of src/core/server/handlers.rs makes of a payload.
use azpfs.Base.{
  ℕ, zero, suc, ◌+◌, ◌-◌, min, ◌≤◌, ◌<◌, ◌≡◌, refl, sym, ◌∙◌, Bytes, List, [], ◌∷◌, length, All,
  take, drop, ltb, arith, take-append-drop, length-take, length-drop, drop-drop, Bool-cases, inl,
  inr, ltb→lt,
}
use azpfs.Protocol.Message.{Message, request_id}
use azpfs.Client.Combine.Reassembly.{IsCut}
use azpfs.Server.Chunks.{max_read_res_chunk, chunk_loop, assemble_read_res_chunks}

nil_of_length : (bs : Bytes) → length bs ≡ 0 → bs ≡ []
nil_of_length [] h = refl
nil_of_length (b ∷ bs) h = absurd (omega arith)

-- The loop cuts up what lies behind `head`.
chunk_loop-IsCut :
    (fuel most id : ℕ) (content : Bytes) (head : ℕ)
    → 0 < most
    → length content - head ≤ fuel
    → IsCut most id (length content) head (chunk_loop fuel most id content head) (drop head content)
unfolding chunk_loop
chunk_loop-IsCut zero most id content head h k =
    nil_of_length (drop head content) (omega (arith, length-drop head content))
chunk_loop-IsCut (suc fuel) most id content head h k =
    elim (Bool-cases (ltb head (length content))) [
      | inl inside ↦
          let n = min (length content - head) most in
          let room = ltb→lt head (length content) inside in
          let size : length (take n (drop head content)) ≡ n =
            length-take n (drop head content) ∙ omega (arith, length-drop head content) in
          rw (inside, chunk_loop)
            (
              take n (drop head content),
              drop n (drop head content),
              refl,
              sym (take-append-drop n (drop head content)),
              omega (arith, size),
              omega (arith, size),
              rw (size, drop-drop)
                  (chunk_loop-IsCut fuel most id content (head + n) h (omega arith)),
            )
      | inr outside ↦
          let past : length content ≤ head = ground arith in
          rw (outside, chunk_loop)
            (nil_of_length (drop head content) (omega (arith, length-drop head content)))
    ]

-- The messages for a payload of at least one byte cut it up into chunks of at most 65,535 bytes.
pub assemble_read_res_chunks-IsCut :
    (id : ℕ) (bytes : Bytes)
    → 0 < length bytes
    → IsCut max_read_res_chunk id (length bytes) 0 (assemble_read_res_chunks id bytes) bytes
unfolding assemble_read_res_chunks
assemble_read_res_chunks-IsCut id [] h = absurd (omega arith)
assemble_read_res_chunks-IsCut id (b ∷ bs) h =
    chunk_loop-IsCut (length (b ∷ bs)) max_read_res_chunk id (b ∷ bs) 0 (omega arith) (omega arith)

IsCut-request_id :
    (most id total head : ℕ) (ms : List Message) (bytes : Bytes)
    → IsCut most id total head ms bytes
    → All (λ m. request_id m ≡ id) ms
unfolding request_id
IsCut-request_id most id total head [] bytes h = tt
IsCut-request_id most id total head (m ∷ ms) bytes (c, rest, same, split, pos, fits, more) =
    (rw same refl, IsCut-request_id most id total (head + length c) ms rest more)

pub assemble_read_res_chunks-request_id :
    (id : ℕ) (bytes : Bytes) → All (λ m. request_id m ≡ id) (assemble_read_res_chunks id bytes)
assemble_read_res_chunks-request_id id [] = unfold assemble_read_res_chunks request_id in (refl, tt)
assemble_read_res_chunks-request_id id (b ∷ bs) =
    IsCut-request_id max_read_res_chunk id (length (b ∷ bs)) 0 _ (b ∷ bs)
      (assemble_read_res_chunks-IsCut id (b ∷ bs) (omega arith))
