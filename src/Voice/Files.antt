-- ===== src/Voice/Files.antt =====
-- A well-formed file of chunks is read back.
use wfchat.Base.{
  ℕ, zero, suc, ◌+◌, ◌/◌, ◌%◌, ◌^◌, ◌≤◌, ◌<◌, ◌≡◌, sym, subst, ap, ◌∙◌, true, false, List, [], ◌∷◌,
  ◌++◌, some, length, All, list_beq, nat_eq, arith, length-append, usize_max, ltb,
}
use mathlib.Core.List.{append_assoc, append-nil}
use wfchat.Voice.{Bytes, data_id, chunk_from, wav_data_chunk}
use wfchat.Voice.Chunks.{
  Chunk, pad, encode, encode_all, id_of, chunk_from-encode, length-encode, ltb-false,
}

-- The size of the content is a `u32`.
abbrev pub IsSized : Chunk → Type 0
IsSized chunk = length chunk.content < 2 ^ 32

abbrev pub IsOther : Chunk → Type 0
IsOther chunk = (list_beq (id_of chunk) data_id ≡ false) × IsSized chunk

abbrev whole : Chunk → Bytes
whole chunk = encode chunk []

encode-whole : (chunk : Chunk) (rest : Bytes) → encode chunk rest ≡ whole chunk ++ rest
encode-whole chunk rest =
    let n = length chunk.content in
    ap
      (λ tail.
        chunk.id0
        ∷ chunk.id1
        ∷ chunk.id2
        ∷ chunk.id3
        ∷ n % 256
        ∷ n / 256 % 256
        ∷ n / 65_536 % 256
        ∷ n / 16_777_216 % 256
        ∷ tail)
      (ap (λ t. chunk.content ++ t) (ap (λ t. t ++ rest) (sym (append-nil (pad (n % 2)))))
        ∙ sym (append_assoc chunk.content (pad (n % 2) ++ []) rest))

length-whole :
    (chunk : Chunk) → length (whole chunk) ≡ 8 + length chunk.content + length chunk.content % 2
length-whole chunk = ground (arith, length-encode [] [] chunk)

length-encode_all-le :
    (chunks : List Chunk) (rest : Bytes) → length chunks ≤ length (encode_all chunks rest)
length-encode_all-le [] rest = ground arith
length-encode_all-le (chunk ∷ chunks) rest =
    ground
      (arith, length-encode [] (encode_all chunks rest) chunk, length-encode_all-le chunks rest)

module _ (chunk : Chunk) (is_data : list_beq (id_of chunk) data_id ≡ true) (sized : IsSized chunk)
    (rest : Bytes) where
  chunk_from-encode_all :
      (p : Bytes) (others : List Chunk) (fuel : ℕ)
      → All IsOther others
      → length (p ++ encode_all others (encode chunk rest)) ≤ usize_max
      → length others < fuel
      → chunk_from fuel (p ++ encode_all others (encode chunk rest)) (length p) ≡ some chunk.content
  chunk_from-encode_all p others zero all_other fits lt = ground (arith, lt)
  chunk_from-encode_all p [] (suc fuel) all_other fits lt =
      chunk_from-encode p rest chunk sized fits fuel ∙ ground (arith, is_data)
  chunk_from-encode_all p (other ∷ others) (suc fuel) all_other fits lt =
      let tail = encode_all others (encode chunk rest) in
      let same : p ++ encode other tail ≡ (p ++ whole other) ++ tail =
        ap (λ t. p ++ t) (encode-whole other tail) ∙ sym (append_assoc p (whole other) tail) in
      let moved : length p + 8 + length other.content + length other.content % 2
          ≡ length (p ++ whole other) =
        omega (arith, length-append p (whole other), length-whole other) in
      chunk_from-encode p tail other all_other.0.1 fits fuel
      ∙ rw all_other.0.0 (
          rw (same, moved)
            (chunk_from-encode_all (p ++ whole other) others fuel all_other.1
              (subst (λ (t : Bytes). length t ≤ usize_max) same fits) (omega (arith, lt))))

  -- Of a file of chunks, wherever the data chunk stands, `wav_data_chunk` returns its content, whatever
  -- follows it. (The header has 12 bytes, the sizes are `u32`s, no chunk before it is a data chunk, and the
  -- file is no longer than a `usize`.)
  pub wav_data_chunk-encode_all :
      (header : Bytes) (others : List Chunk)
      → length header ≡ 12
      → All IsOther others
      → length (header ++ encode_all others (encode chunk rest)) ≤ usize_max
      → wav_data_chunk (header ++ encode_all others (encode chunk rest)) ≡ some chunk.content
  unfolding wav_data_chunk
  wav_data_chunk-encode_all header others twelve all_other fits =
      let file = header ++ encode_all others (encode chunk rest) in
      let long : ltb (length file) 12 ≡ false =
        ltb-false (length file) 12
          (omega (arith, twelve, length-append header (encode_all others (encode chunk rest)))) in
      let enough : length others < length file = omega (
        arith,
        twelve,
        length-append header (encode_all others (encode chunk rest)),
        length-encode_all-le others (encode chunk rest),
      ) in
      rw (long, sym twelve)
        (chunk_from-encode_all header others (length file) all_other fits enough)
