-- ===== src/Tests/Voice.antt =====
-- apps/api/src/voice.rs at a concrete file.
use wfchat.Base.{not, ◌+◌, ◌≡◌, refl, [], ◌∷◌, ◌++◌, some, codes, length, arith, nat_eq}
use wfchat.Voice.{Bytes, chunk_from, wav_data_chunk, validate_voicevox_wav_audio}
use wfchat.Voice.Accepted.{is_silent, riff, validate_voicevox_wav_audio-encode_all}
use wfchat.Errors.{is_ok}
use wfchat.Voice.Chunks.{Chunk, encode, encode_all}
use wfchat.Voice.Files.{wav_data_chunk-encode_all}
use wfchat.Voice.Fuel.{chunk_from-wav_data_chunk}

abbrev format_chunk : Chunk
format_chunk = record { id0 = b'f'; id1 = b'm'; id2 = b't'; id3 = b' '; content = 1 ∷ 0 ∷ 1 ∷ [] }

abbrev sound : Chunk
sound = record { id0 = b'd'; id1 = b'a'; id2 = b't'; id3 = b'a'; content = 7 ∷ 9 ∷ [] }

abbrev header : Bytes
header = codes "RIFF" ++ (0 ∷ 0 ∷ 0 ∷ 0 ∷ codes "WAVE")

wav_data_chunk-encode_all_example :
    wav_data_chunk (header ++ encode_all (format_chunk ∷ []) (encode sound (5 ∷ [])))
    ≡ some (7 ∷ 9 ∷ [])
wav_data_chunk-encode_all_example =
    wav_data_chunk-encode_all sound refl (omega arith) (5 ∷ []) header (format_chunk ∷ []) refl
      ((refl, omega arith), tt) (omega arith)

chunk_from-wav_data_chunk_example :
    chunk_from (length header + 3) header 12 ≡ chunk_from (length header) header 12
chunk_from-wav_data_chunk_example = chunk_from-wav_data_chunk header 3

validate_voicevox_wav_audio-encode_all_example :
    is_ok (
      validate_voicevox_wav_audio
        (riff 0 0 0 0 ++ encode_all (format_chunk ∷ []) (encode sound (5 ∷ []))))
    ≡ not (is_silent (7 ∷ 9 ∷ []))
validate_voicevox_wav_audio-encode_all_example =
    validate_voicevox_wav_audio-encode_all sound refl (omega arith) (5 ∷ []) 0 0 0 0
      (format_chunk ∷ []) ((refl, omega arith), tt) (omega arith)
