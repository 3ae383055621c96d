-- ===== src/Voice/Audio/Framing.antt =====
-- internal/voicegateway/utterance.go: the framer loses and adds no audio.
use fluentwork_backend.Voice.Seq.{next}
use fluentwork_backend.Voice.Audio.{
  AudioFramer, header_bytes, audio_frame_layout_for, encode_frame, cut_frames, write, frame_bytes,
  put_uint32, turn_ref_bytes,
}
use fluentwork_backend.Voice.Audio.Wire.{encode_lem}
use fluentwork_backend.Base.{
  ℕ, zero, suc, ◌≤◌, ◌<◌, ◌≡◌, refl, ap, ◌∙◌, inl, inr, Option, none, some, List, [], ◌∷◌, ◌++◌,
  arith, leb, ◌==◌, leb→le, Bool-cases, length, take, drop, All, length-drop, take-append-drop,
  take-append-drop, length-drop, append_assoc, length-take,
}

-- The audio in a message, after its header.
abbrev pub audio_of : Option ℕ → List ℕ → List ℕ
audio_of turn_ref raw = drop (header_bytes (audio_frame_layout_for turn_ref)) raw

-- The audio in some messages, in order.
abbrev pub audio_in : Option ℕ → List (List ℕ) → List ℕ
audio_in turn_ref [] = []
audio_in turn_ref (raw ∷ rest) = audio_of turn_ref raw ++ audio_in turn_ref rest

audio_of_bytes :
    (turn_ref : Option ℕ) (seq : ℕ) (payload : List ℕ)
    → audio_of turn_ref (put_uint32 seq ++ turn_ref_bytes turn_ref ++ payload) ≡ payload
unfolding put_uint32 header_bytes audio_frame_layout_for
audio_of_bytes none seq payload = refl
audio_of_bytes (some t) seq payload = refl

pub encode_frame-audio :
    (payload : List ℕ) (f : AudioFramer)
    → 0 < length payload
    → audio_of f.turn_ref (encode_frame payload f).0 ≡ payload
unfolding encode_frame
encode_frame-audio payload f nonempty =
    rw (encode_lem (next f.alloc).0 f.turn_ref payload nonempty)
      (audio_of_bytes f.turn_ref (next f.alloc).0 payload)

-- What frames are to some pending audio: all of it in order, with less than a frame left, each of one
-- size.
abbrev pub AreFrames : Option ℕ → ℕ → List ℕ → List (List ℕ) × AudioFramer → Type 0
AreFrames turn_ref size pcm (frames, f) =
    (audio_in turn_ref frames ++ f.pending ≡ pcm)
    × (length f.pending < size)
    × All (λ raw. length (audio_of turn_ref raw) ≡ size) frames

add_frame-AreFrames :
    (turn_ref : Option ℕ) (size : ℕ) (pcm raw : List ℕ) (rest : List (List ℕ) × AudioFramer)
    → size ≤ length pcm
    → audio_of turn_ref raw ≡ take size pcm
    → AreFrames turn_ref size (drop size pcm) rest
    → AreFrames turn_ref size pcm (raw ∷ rest.0, rest.1)
add_frame-AreFrames turn_ref size pcm raw (frames, f) enough e (all, few, whole) = (
  append_assoc (audio_of turn_ref raw) (audio_in turn_ref frames) f.pending
      ∙ ap (λ x. x ++ (audio_in turn_ref frames ++ f.pending)) e
      ∙ ap (◌++◌ (take size pcm)) all
      ∙ take-append-drop size pcm,
  few,
  (ap length e ∙ length-take size pcm enough, whole),
)

cut_frames-AreFrames :
    (fuel size : ℕ) (f : AudioFramer)
    → 0 < size
    → length f.pending ≤ fuel
    → AreFrames f.turn_ref size f.pending (cut_frames fuel size f)
unfolding cut_frames
cut_frames-AreFrames zero size f positive h = (refl, omega (arith, positive, h), tt)
cut_frames-AreFrames (suc fuel) size f positive h =
    elim (Bool-cases (leb size (length f.pending))) [
      | inr e ↦ rw (e, cut_frames) (refl, ground arith, tt)
      | inl e ↦
          rw (e, cut_frames)
            (add_frame-AreFrames f.turn_ref size f.pending (encode_frame (take size f.pending) f).0
              (cut_frames fuel size
                (record (encode_frame (take size f.pending) f).1 { pending = drop size f.pending }))
              (leb→le size (length f.pending) e)
              (encode_frame-audio (take size f.pending) f
                (taken (leb→le size (length f.pending) e)))
              (cut_frames-AreFrames fuel size
                (record (encode_frame (take size f.pending) f).1 { pending = drop size f.pending })
                positive (dropped (leb→le size (length f.pending) e))))
    ]
  where
    taken : size ≤ length f.pending → 0 < length (take size f.pending)
    taken enough = omega (arith, length-take size f.pending enough, positive)

    dropped : size ≤ length f.pending → length (drop size f.pending) ≤ fuel
    dropped enough = omega (arith, length-drop size f.pending, positive, h, enough)

-- Writing a chunk of audio to a framer whose frames hold some bytes yields frames of exactly that size
-- with less than a frame left over; the frames and the rest, in order, are what was pending and then
-- the chunk, with no byte lost, repeated or moved.
pub write-AreFrames :
    (pcm : List ℕ) (f : AudioFramer)
    → 0 < frame_bytes f.format f.frame_ms
    → AreFrames f.turn_ref (frame_bytes f.format f.frame_ms) (f.pending ++ pcm) (write pcm f)
unfolding write
write-AreFrames pcm f positive = elim (Bool-cases (frame_bytes f.format f.frame_ms == 0)) [
  | inl e ↦ absurd (ground arith)
  | inr e ↦
      rw (e, write)
        (cut_frames-AreFrames (length (f.pending ++ pcm)) (frame_bytes f.format f.frame_ms)
          (record f { pending = f.pending ++ pcm }) positive (omega arith))
]

-- The frames of some chunks, one after another.
unfoldable pub write_all : List (List ℕ) → AudioFramer → List (List ℕ) × AudioFramer
write_all [] f = ([], f)
write_all (pcm ∷ chunks) f =
    let (frames, f') = write pcm f in let (rest, f'') = write_all chunks f' in (frames ++ rest, f'')

abbrev pub joined : List (List ℕ) → List ℕ
joined [] = []
joined (pcm ∷ chunks) = pcm ++ joined chunks
