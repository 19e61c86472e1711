-- ===== src/Voice/Fuel.antt =====
-- The loop over the chunks ends within the fuel that it is given.
use wfchat.Base.{
  ℕ, zero, suc, ◌+◌, ◌*◌, ◌%◌, ◌≤◌, ◌<◌, ◌≡◌, refl, ◌∙◌, Option, none, some, length, arith, nat_eq,
}
use wfchat.Voice.{Bytes, slice, from_le_bytes, read_chunk, chunk_from}

module _ (bytes : Bytes) where
  -- A turn of the loop looks only further on.
  read_chunk-next :
      (index : ℕ) (next next' : ℕ → Option Bytes) (chunk_id size_bytes : Option Bytes)
      → ((i : ℕ) → index + 8 ≤ i → next i ≡ next' i)
      → read_chunk bytes index next chunk_id size_bytes
        ≡ read_chunk bytes index next' chunk_id size_bytes
  read_chunk-next index next next' none size_bytes h = refl
  read_chunk-next index next next' (some chunk_id) none h = refl
  read_chunk-next index next next' (some chunk_id) (some size_bytes) h =
      let size = from_le_bytes size_bytes in
      let same = h (index + 8 + size + size % 2) (omega arith) in rw same refl

  chunk_from-suc :
      (fuel index : ℕ)
      → length bytes < index + 8 * suc fuel
      → chunk_from (suc fuel) bytes index ≡ chunk_from fuel bytes index
  unfolding chunk_from
  chunk_from-suc zero index lt = ground (arith, lt)
  chunk_from-suc (suc fuel) index lt =
      rw
        (read_chunk-next index (chunk_from (suc fuel) bytes) (chunk_from fuel bytes)
          (slice bytes index (index + 4)) (slice bytes (index + 4) (index + 8))
          (λ i le. chunk_from-suc fuel i (omega (arith, lt, le))))
        refl

  -- More fuel than `wav_data_chunk` gives changes nothing: the loop has ended by then, on any bytes.
  pub chunk_from-wav_data_chunk :
      (more : ℕ) → chunk_from (length bytes + more) bytes 12 ≡ chunk_from (length bytes) bytes 12
  chunk_from-wav_data_chunk zero =
      let e : length bytes + 0 ≡ length bytes = omega arith in rw e refl
  chunk_from-wav_data_chunk (suc more) =
      let e : length bytes + suc more ≡ suc (length bytes + more) = omega arith in
      rw e (chunk_from-suc (length bytes + more) 12 (omega arith) ∙ chunk_from-wav_data_chunk more)
