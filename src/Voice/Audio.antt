-- ===== src/Voice/Audio.antt =====
-- internal/voiceproto/frames.go, the binary audio frame, and internal/voicegateway/utterance.go, which
-- cuts PCM into frames. A byte is a number below 256.
pub mod Wire
pub mod Framing
pub mod Stream
use fluentwork_backend.Voice.Seq.{SeqAllocator, next}
use fluentwork_backend.Base.{
  ℕ, zero, suc, ◌+◌, ◌*◌, ◌/◌, ◌%◌, ◌||◌, Option, none, some, List, [], ◌∷◌, ◌++◌, ltb, leb, ◌==◌,
  if◌then◌else◌, ℤ, pos, pos_part, leb_ℤ, length, take, drop,
}

-- `AITTSAudio`
pub record AudioFrame : Type 0 where
  pub seq : ℕ
  pub turn_ref : Option ℕ
  pub payload : List ℕ

-- `AudioFrameLayout`
pub data AudioFrameLayout : Type 0 where
  h4 h8 : AudioFrameLayout

-- `HeaderBytes`
unfoldable pub header_bytes : AudioFrameLayout → ℕ
header_bytes h4 = 4
header_bytes h8 = 8

-- `AudioFrameLayoutFor`
unfoldable pub audio_frame_layout_for : Option ℕ → AudioFrameLayout
audio_frame_layout_for none = h4
audio_frame_layout_for (some turn_ref) = h8

-- binary.BigEndian.PutUint32
unfoldable pub put_uint32 : ℕ → List ℕ
put_uint32 n = n / 16777216 % 256 ∷ n / 65536 % 256 ∷ n / 256 % 256 ∷ n % 256 ∷ []

-- binary.BigEndian.Uint32, of four bytes
unfoldable pub get_uint32 : List ℕ → ℕ
get_uint32 (a ∷ b ∷ c ∷ d ∷ rest) = a * 16777216 + b * 65536 + c * 256 + d
get_uint32 _ = 0

-- The bytes of the turn's number, if there is one.
abbrev pub turn_ref_bytes : Option ℕ → List ℕ
turn_ref_bytes none = []
turn_ref_bytes (some turn_ref) = put_uint32 turn_ref

-- `Encode`: `none` for an empty payload.
unfoldable pub encode : AudioFrame → Option (List ℕ)
unfolding put_uint32
encode f =
    if length f.payload == 0
    then none
    else some (put_uint32 f.seq ++ turn_ref_bytes f.turn_ref ++ f.payload)

abbrev pub decoded_turn_ref : AudioFrameLayout → List ℕ → Option ℕ
decoded_turn_ref h4 raw = none
decoded_turn_ref h8 raw = some (get_uint32 (take 4 (drop 4 raw)))

-- `DecodeAITTSAudio`: `none` for a truncated message.
unfoldable pub decode : List ℕ → AudioFrameLayout → Option AudioFrame
unfolding get_uint32 header_bytes
decode raw layout =
    if ltb (length raw) (header_bytes layout + 1)
    then none
    else some (record {
      seq = get_uint32 (take 4 raw);
      turn_ref = decoded_turn_ref layout raw;
      payload = drop (header_bytes layout) raw;
    })

pub record AudioFormat : Type 0 where
  pub sample_rate : ℤ
  pub channels : ℤ
  pub bits_per_sample : ℤ

-- `BytesPerMS`
unfoldable pub bytes_per_ms : AudioFormat → ℕ
bytes_per_ms f =
    if leb_ℤ f.sample_rate (pos 0) || leb_ℤ f.channels (pos 0) || leb_ℤ f.bits_per_sample (pos 0)
    then 0
    else pos_part f.sample_rate * pos_part f.channels * pos_part f.bits_per_sample / 8 / 1000

-- `FrameBytes`
unfoldable pub frame_bytes : AudioFormat → ℤ → ℕ
unfolding bytes_per_ms
frame_bytes f ms =
    if bytes_per_ms f == 0 || leb_ℤ ms (pos 0) then 0 else bytes_per_ms f * pos_part ms

-- `audioFramer`
pub record AudioFramer : Type 0 where
  pub alloc : Option SeqAllocator
  pub turn_ref : Option ℕ
  pub format : AudioFormat
  pub frame_ms : ℤ
  pub pending : List ℕ

-- `newAudioFramer`; `ClientFrameMS` is 100.
unfoldable pub new_audio_framer : Option SeqAllocator → Option ℕ → AudioFormat → ℤ → AudioFramer
new_audio_framer alloc turn_ref format frame_ms = record {
  alloc = alloc;
  turn_ref = turn_ref;
  format = format;
  frame_ms = if leb_ℤ frame_ms (pos 0) then pos 100 else frame_ms;
  pending = [];
}

abbrev pub frame_or_nil : Option (List ℕ) → List ℕ
frame_or_nil none = []
frame_or_nil (some raw) = raw

-- `audioFramer.encode`: the next number, and the frame.
unfoldable pub encode_frame : List ℕ → AudioFramer → List ℕ × AudioFramer
unfolding encode next
encode_frame payload f =
    let (seq, alloc) = next f.alloc in
    (
      frame_or_nil (encode (record { seq = seq; turn_ref = f.turn_ref; payload = payload })),
      record f { alloc = alloc },
    )

-- The loop of `Write`, on frames of a positive size; the fuel is at least the number of bytes pending.
unfoldable pub cut_frames : ℕ → ℕ → AudioFramer → List (List ℕ) × AudioFramer
unfolding encode_frame
cut_frames zero size f = ([], f)
cut_frames (suc fuel) size f =
    let (frame, f') = encode_frame (take size f.pending) f in
    let (frames, f'') = cut_frames fuel size (record f' { pending = drop size f.pending }) in
    if leb size (length f.pending) then (frame ∷ frames, f'') else ([], f)

-- `Write`
unfoldable pub write : List ℕ → AudioFramer → List (List ℕ) × AudioFramer
unfolding cut_frames frame_bytes
write pcm f =
    let f' = record f { pending = f.pending ++ pcm } in
    let size = frame_bytes f.format f.frame_ms in
    if size == 0 then ([], f') else cut_frames (length f'.pending) size f'

-- `Flush`
unfoldable pub flush : AudioFramer → List (List ℕ) × AudioFramer
unfolding encode_frame
flush f =
    let (frame, f') = encode_frame f.pending f in
    if length f.pending == 0 then ([], f) else (frame ∷ [], record f' { pending = [] })

-- `audioFramer.Reset`
unfoldable pub reset_framer : AudioFramer → AudioFramer
reset_framer f = record f { pending = [] }
