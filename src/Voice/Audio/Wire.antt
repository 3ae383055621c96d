-- ===== src/Voice/Audio/Wire.antt =====
-- internal/voiceproto/frames.go: a binary frame is read back as it was written.
use fluentwork_backend.Voice.Audio.{
  AudioFrame, header_bytes, audio_frame_layout_for, put_uint32, get_uint32, turn_ref_bytes, encode,
  decode,
}
use fluentwork_backend.Base.{ℕ, ◌^◌, ◌<◌, ◌≡◌, Option, none, some, List, ◌++◌, arith, length}

get_uint32-put_uint32 : (n : ℕ) → n < 2 ^ 32 → get_uint32 (put_uint32 n) ≡ n
unfolding get_uint32 put_uint32
get_uint32-put_uint32 n h = omega arith

-- The number fits the four bytes that the frame has for it.
abbrev pub FitsUint32 : Option ℕ → Type 0
FitsUint32 none = Unit
FitsUint32 (some n) = n < 2 ^ 32

pub encode_lem :
    (seq : ℕ) (turn_ref : Option ℕ) (payload : List ℕ)
    → 0 < length payload
    → encode (record { seq = seq; turn_ref = turn_ref; payload = payload })
      ≡ some (put_uint32 seq ++ turn_ref_bytes turn_ref ++ payload)
unfolding encode
encode_lem seq turn_ref payload nonempty = ground arith

decode_lem :
    (seq : ℕ) (turn_ref : Option ℕ) (payload : List ℕ)
    → 0 < length payload
    → seq < 2 ^ 32
    → FitsUint32 turn_ref
    → decode
        (put_uint32 seq ++ turn_ref_bytes turn_ref ++ payload)
        (audio_frame_layout_for turn_ref)
      ≡ some (record { seq = seq; turn_ref = turn_ref; payload = payload })
unfolding decode put_uint32 get_uint32 header_bytes audio_frame_layout_for
decode_lem seq none payload nonempty fits fits' = ground (arith, get_uint32-put_uint32 seq fits)
decode_lem seq (some t) payload nonempty fits fits' =
    ground (arith, get_uint32-put_uint32 seq fits, get_uint32-put_uint32 t fits')

-- A frame with a payload and with numbers below 2^32 is encoded, and decoding the bytes under the
-- layout of its turn gives the frame back.
pub decode-encode :
    (f : AudioFrame)
    → 0 < length f.payload
    → f.seq < 2 ^ 32
    → FitsUint32 f.turn_ref
    → (raw : List ℕ) × (encode f ≡ some raw)
      × (decode raw (audio_frame_layout_for f.turn_ref) ≡ some f)
decode-encode f nonempty fits fits' = (
  put_uint32 f.seq ++ turn_ref_bytes f.turn_ref ++ f.payload,
  encode_lem f.seq f.turn_ref f.payload nonempty,
  decode_lem f.seq f.turn_ref f.payload nonempty fits fits',
)
