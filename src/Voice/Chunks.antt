-- ===== src/Voice/Chunks.antt =====
-- The data chunk of a well-formed file is found, whatever chunks stand before it.
use wfchat.Base.{
  ℕ, zero, suc, ◌+◌, ◌-◌, ◌/◌, ◌%◌, ◌^◌, ◌≤◌, ◌<◌, ◌≡◌, refl, ap, ◌∙◌, true, false, ◌&&◌, List, [],
  ◌∷◌, ◌++◌, Option, some, length, take, drop, if◌then◌else◌, leb, ltb, list_beq, nat_eq, arith,
  length-append, usize_max,
}
use wfchat.Voice.{Bytes, slice, from_le_bytes, data_id, read_chunk, chunk_from}

-- A chunk, with its id of four bytes.
pub record Chunk : Type 0 where
  pub id0 : ℕ
  pub id1 : ℕ
  pub id2 : ℕ
  pub id3 : ℕ
  pub content : Bytes

abbrev pub pad : ℕ → Bytes
pad zero = []
pad (suc n) = 0 ∷ []

-- A chunk of an odd size is followed by one more byte.
abbrev pub encode : Chunk → Bytes → Bytes
encode chunk rest =
    let n = length chunk.content in
    chunk.id0
    ∷ chunk.id1
    ∷ chunk.id2
    ∷ chunk.id3
    ∷ n % 256
    ∷ n / 256 % 256
    ∷ n / 65_536 % 256
    ∷ n / 16_777_216 % 256
    ∷ (chunk.content ++ (pad (n % 2) ++ rest))

abbrev pub encode_all : List Chunk → Bytes → Bytes
encode_all [] rest = rest
encode_all (chunk ∷ chunks) rest = encode chunk (encode_all chunks rest)

drop-append : {A : Type 0} (p s : List A) → drop (length p) (p ++ s) ≡ s
drop-append [] s = refl
drop-append (x ∷ p) s = drop-append p s

drop-append-add : {A : Type 0} (n : ℕ) (p s : List A) → drop (length p + n) (p ++ s) ≡ drop n s
drop-append-add n [] s = let e : 0 + n ≡ n = omega arith in rw e refl
drop-append-add n (x ∷ p) s =
    let e : suc (length p) + n ≡ suc (length p + n) = omega arith in rw e (drop-append-add n p s)

take-append : {A : Type 0} (p s : List A) → take (length p) (p ++ s) ≡ p
take-append [] s = refl
take-append (x ∷ p) s = ap (λ q. x ∷ q) (take-append p s)

slice-append :
    (p s : Bytes) (from to : ℕ)
    → from ≤ to
    → to ≤ length s
    → slice (p ++ s) (length p + from) (length p + to) ≡ some (take (to - from) (drop from s))
slice-append p s from to le fits =
    let e : (length p + to) - (length p + from) ≡ to - from = omega arith in
    rw (e, drop-append-add from p s) (ground (arith, length-append p s))

-- Four bytes are a number below 2^32 again.
from_le_bytes-encode :
    (n : ℕ)
    → n < 2 ^ 32
    → from_le_bytes (n % 256 ∷ n / 256 % 256 ∷ n / 65_536 % 256 ∷ n / 16_777_216 % 256 ∷ []) ≡ n
from_le_bytes-encode n lt = omega arith

pub length-pad : (n : ℕ) → length (pad (n % 2)) ≡ n % 2
length-pad n = ground arith

pub ltb-false : (a b : ℕ) → b ≤ a → ltb a b ≡ false
ltb-false a b le = ground arith

leb-both : (k a b : ℕ) → k ≤ a → k ≤ b → (leb k a && leb k b) ≡ true
leb-both k a b le le' = ground arith

slice-head :
    (p s : Bytes) (to : ℕ)
    → to ≤ length s
    → slice (p ++ s) (length p) (length p + to) ≡ some (take to s)
slice-head p s to fits =
    let e : (length p + to) - length p ≡ to = omega arith in
    rw (e, drop-append p s) (ground (arith, length-append p s))

abbrev pub id_of : Chunk → Bytes
id_of chunk = chunk.id0 ∷ chunk.id1 ∷ chunk.id2 ∷ chunk.id3 ∷ []

module _ (p rest : Bytes) (chunk : Chunk) where
  abbrev n : ℕ
  n = length chunk.content

  abbrev file : Bytes
  file = p ++ encode chunk rest

  abbrev size_bytes : Bytes
  size_bytes = n % 256 ∷ n / 256 % 256 ∷ n / 65_536 % 256 ∷ n / 16_777_216 % 256 ∷ []

  pub length-encode : length (encode chunk rest) ≡ 8 + n + (n % 2 + length rest)
  length-encode = ground (
    arith,
    length-append chunk.content (pad (n % 2) ++ rest),
    length-append (pad (n % 2)) rest,
    length-pad n,
  )

  slice-id : slice file (length p) (length p + 4) ≡ some (id_of chunk)
  slice-id = slice-head p (encode chunk rest) 4 (omega (arith, length-encode))

  slice-size : slice file (length p + 4) (length p + 8) ≡ some size_bytes
  slice-size = slice-append p (encode chunk rest) 4 8 (omega arith) (omega (arith, length-encode))

  slice-content : slice file (length p + 8) (length p + 8 + n) ≡ some chunk.content
  slice-content =
      let e : length p + 8 + n ≡ length p + (8 + n) = omega arith in
      let e' : (8 + n) - 8 ≡ n = omega arith in
      rw e (
        slice-append p (encode chunk rest) 8 (8 + n) (omega arith) (omega (arith, length-encode))
        ∙ ap (λ (k : ℕ). some (take k (chunk.content ++ (pad (n % 2) ++ rest)))) e'
        ∙ ap some (take-append chunk.content (pad (n % 2) ++ rest)))

  length-file : length file ≡ length p + (8 + n + (n % 2 + length rest))
  length-file = omega (arith, length-append p (encode chunk rest), length-encode)

  module _ (small : n < 2 ^ 32) (fits : length file ≤ usize_max) where
    in_range : ltb usize_max (length p + 8 + n) ≡ false
    in_range =
        let le : length p + 8 + n ≤ usize_max = omega (arith, length-file, fits) in
        ltb-false usize_max (length p + 8 + n) le

    in_file : ltb (length file) (length p + 8 + n) ≡ false
    in_file =
        let le : length p + 8 + n ≤ length file = omega (arith, length-file) in
        ltb-false (length file) (length p + 8 + n) le

    head_fits : (leb (length p + 8) usize_max && leb (length p + 8) (length file)) ≡ true
    head_fits =
        let le : length p + 8 ≤ usize_max = omega (arith, length-file, fits) in
        let le' : length p + 8 ≤ length file = omega (arith, length-file) in
        leb-both (length p + 8) usize_max (length file) le le'

    read_chunk-encode :
        (next : ℕ → Option Bytes)
        → read_chunk file (length p) next (some (id_of chunk)) (some size_bytes) ≡ (
            if list_beq (id_of chunk) data_id
            then some chunk.content
            else next (length p + 8 + n + n % 2))
    read_chunk-encode next =
        rw (from_le_bytes-encode n small, in_range, in_file, slice-content) refl

    pub chunk_from-encode :
        (fuel : ℕ)
        → chunk_from (suc fuel) file (length p) ≡ (
            if list_beq (id_of chunk) data_id
            then some chunk.content
            else chunk_from fuel file (length p + 8 + n + n % 2))
    unfolding chunk_from
    chunk_from-encode fuel =
        rw (head_fits, slice-id, slice-size) (read_chunk-encode (chunk_from fuel file))
