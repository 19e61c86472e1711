-- ===== src/Voice/Accepted.antt =====
-- Which audio is accepted, of that which is well formed.
use wfchat.Base.{
  All, ℕ, ◌≤◌, ◌≡◌, true, not, List, ◌∷◌, ◌++◌, Bool, [], some, refl, all, arith, codes, length,
  list_beq, nat_beq, nat_eq, usize_max,
}
use wfchat.Errors.{is_ok}
use wfchat.Voice.{Bytes, data_id, check_samples, is_wave, slice, validate_voicevox_wav_audio}
use wfchat.Voice.Chunks.{Chunk, encode, encode_all, id_of}
use wfchat.Voice.Files.{IsOther, IsSized, wav_data_chunk-encode_all}

abbrev pub is_silent : Bytes → Bool
is_silent samples = all (λ byte. nat_beq byte 0) samples

-- The header of a RIFF file, with the four bytes of its size.
abbrev pub riff : ℕ → ℕ → ℕ → ℕ → Bytes
riff b0 b1 b2 b3 = codes "RIFF" ++ (b0 ∷ b1 ∷ b2 ∷ b3 ∷ codes "WAVE")

riff-is_wave :
    (b0 b1 b2 b3 : ℕ) (tail : Bytes) → is_wave (slice (riff b0 b1 b2 b3 ++ tail) 8 12) ≡ true
riff-is_wave b0 b1 b2 b3 tail = ground arith

check_samples-is_silent :
    (samples : Bytes) → is_ok (check_samples (some samples)) ≡ not (is_silent samples)
check_samples-is_silent [] = refl
check_samples-is_silent (b ∷ bs) = ground arith

module _ (chunk : Chunk) (is_data : list_beq (id_of chunk) data_id ≡ true) (sized : IsSized chunk)
    (rest : Bytes) where
  -- A RIFF file of chunks is accepted exactly if some byte of its data chunk is not 0, wherever that
  -- chunk stands and whatever follows it. (The sizes are `u32`s, no chunk before it is a data chunk, and
  -- the file is no longer than a `usize`.)
  pub validate_voicevox_wav_audio-encode_all :
      (b0 b1 b2 b3 : ℕ) (others : List Chunk)
      → All IsOther others
      → length (riff b0 b1 b2 b3 ++ encode_all others (encode chunk rest)) ≤ usize_max
      → is_ok
          (validate_voicevox_wav_audio (riff b0 b1 b2 b3 ++ encode_all others (encode chunk rest)))
        ≡ not (is_silent chunk.content)
  unfolding validate_voicevox_wav_audio
  validate_voicevox_wav_audio-encode_all b0 b1 b2 b3 others all_other fits =
      let read =
        wav_data_chunk-encode_all chunk is_data sized rest (riff b0 b1 b2 b3) others (omega arith)
          all_other fits in
      rw (read, riff-is_wave b0 b1 b2 b3 (encode_all others (encode chunk rest)))
        (check_samples-is_silent chunk.content)
