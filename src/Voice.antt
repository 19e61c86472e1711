-- ===== src/Voice.antt =====
-- apps/api/src/voice.rs: the audio that the voice engine returns. Bytes are the numbers below 256.
pub mod Accepted
pub mod Chunks
pub mod Files
pub mod Fuel
use wfchat.Base.{
  ℕ, zero, suc, ◌+◌, ◌-◌, ◌*◌, ◌%◌, Bool, true, false, not, ◌&&◌, List, [], ◌∷◌, Option, none, some,
  Text, codes, length, take, drop, all, is_empty, if◌then◌else◌, leb, ltb, nat_beq, nat_eq,
  list_beq, usize_max,
}
use wfchat.Config.Origin.{starts_with}
use wfchat.Errors.{AppResult, ok, err, AppError, ai}

abbrev pub Bytes : Type 0
Bytes = List ℕ

-- `get(from..to)`.
abbrev pub slice : Bytes → ℕ → ℕ → Option Bytes
slice bytes from to =
    if leb from to && leb to (length bytes) then some (take (to - from) (drop from bytes)) else none

-- `u32::from_le_bytes` of four bytes.
abbrev pub from_le_bytes : Bytes → ℕ
from_le_bytes [] = 0
from_le_bytes (b ∷ bytes) = b + 256 * from_le_bytes bytes

abbrev pub data_id : Bytes
data_id = codes "data"

-- One turn of the loop, with the chunk's id and size; `next` is the rest of the loop.
abbrev pub read_chunk : Bytes → ℕ → (ℕ → Option Bytes) → Option Bytes → Option Bytes → Option Bytes
read_chunk bytes index next none size_bytes = none
read_chunk bytes index next (some chunk_id) none = none
read_chunk bytes index next (some chunk_id) (some size_bytes) =
    let chunk_size = from_le_bytes size_bytes in
    let data_start = index + 8 in
    let data_end = data_start + chunk_size in
    if ltb usize_max data_end
    then none
    else if ltb (length bytes) data_end
    then none
    else if list_beq chunk_id data_id
    then slice bytes data_start data_end
    else next (data_end + chunk_size % 2)

-- On fuel; each turn moves on by at least 8 bytes.
unfoldable pub chunk_from : ℕ → Bytes → ℕ → Option Bytes
chunk_from zero bytes index = none
chunk_from (suc fuel) bytes index =
    if leb (index + 8) usize_max && leb (index + 8) (length bytes)
    then read_chunk bytes index (chunk_from fuel bytes) (slice bytes index (index + 4))
        (slice bytes (index + 4) (index + 8))
    else none

unfoldable pub wav_data_chunk : Bytes → Option Bytes
unfolding chunk_from
wav_data_chunk bytes = if ltb (length bytes) 12 then none else chunk_from (length bytes) bytes 12

abbrev pub check_samples : Option Bytes → AppResult (Unit {0})
check_samples none = err (ai (codes "VOICEVOX Engine returned WAV audio without a data chunk"))
check_samples (some samples) =
    if is_empty samples
    then err (ai (codes "VOICEVOX Engine returned WAV audio without samples"))
    else if all (λ byte. nat_beq byte 0) samples
    then err (ai (codes "VOICEVOX Engine returned silent WAV audio"))
    else ok tt

abbrev pub is_wave : Option Bytes → Bool
is_wave none = false
is_wave (some form) = list_beq form (codes "WAVE")

unfoldable pub validate_voicevox_wav_audio : Bytes → AppResult (Unit {0})
unfolding wav_data_chunk
validate_voicevox_wav_audio bytes =
    if is_empty bytes
    then err (ai (codes "VOICEVOX Engine returned empty audio"))
    else if not (starts_with (codes "RIFF") bytes && is_wave (slice bytes 8 12))
    then err (ai (codes "VOICEVOX Engine returned invalid WAV audio"))
    else check_samples (wav_data_chunk bytes)
