-- ===== src/Voice/Audio/Stream.antt =====
-- internal/voicegateway/utterance.go: a whole stream of audio, chunk by chunk and flushed.
use fluentwork_backend.Voice.Audio.{
  AudioFramer, encode_frame, cut_frames, write, flush, frame_bytes,
}
use fluentwork_backend.Voice.Audio.Framing.{
  audio_of, audio_in, encode_frame-audio, write-AreFrames, write_all, joined,
}
use fluentwork_backend.Base.{
  ℕ, zero, suc, ◌<◌, ◌≡◌, refl, sym, ap, ◌∙◌, subst, inl, inr, true, false, Option, List, [], ◌∷◌,
  ◌++◌, arith, leb, ◌==◌, Bool-cases, length, take, drop, second, append_assoc, if_false,
}

-- The framer of the same stream: all but the numbering and the pending audio is as it was.
abbrev pub SameStream : AudioFramer → AudioFramer → Type 0
SameStream f g = (g.turn_ref ≡ f.turn_ref) × (g.format ≡ f.format) × (g.frame_ms ≡ f.frame_ms)

cut_frames-SameStream : (fuel size : ℕ) (f : AudioFramer) → SameStream f (cut_frames fuel size f).1
unfolding cut_frames
cut_frames-SameStream zero size f = (refl, refl, refl)
cut_frames-SameStream (suc fuel) size f = elim (Bool-cases (leb size (length f.pending))) [
  | inr e ↦ rw (e, cut_frames) (refl, refl, refl)
  | inl e ↦
      rw (e, cut_frames)
        (unfold encode_frame in
          cut_frames-SameStream fuel size
            (record (encode_frame (take size f.pending) f).1 { pending = drop size f.pending }))
]

write-SameStream : (pcm : List ℕ) (f : AudioFramer) → SameStream f (write pcm f).1
unfolding write
write-SameStream pcm f = elim (Bool-cases (frame_bytes f.format f.frame_ms == 0)) [
  | inl e ↦ rw (e, write) (refl, refl, refl)
  | inr e ↦
      rw (e, write)
        (cut_frames-SameStream (length (f.pending ++ pcm)) (frame_bytes f.format f.frame_ms)
          (record f { pending = f.pending ++ pcm }))
]

audio_in-append :
    (turn_ref : Option ℕ) (frames rest : List (List ℕ))
    → audio_in turn_ref (frames ++ rest) ≡ audio_in turn_ref frames ++ audio_in turn_ref rest
audio_in-append turn_ref [] rest = refl
audio_in-append turn_ref (raw ∷ frames) rest =
    ap (◌++◌ (audio_of turn_ref raw)) (audio_in-append turn_ref frames rest)
    ∙ sym (append_assoc (audio_of turn_ref raw) (audio_in turn_ref frames) (audio_in turn_ref rest))

append_nil : (xs : List ℕ) → xs ++ [] ≡ xs
append_nil [] = refl
append_nil (x ∷ xs) = ap (◌∷◌ x) (append_nil xs)

no_length : (xs : List ℕ) → (length xs == 0) ≡ true → xs ≡ []
no_length [] h = refl
no_length (x ∷ xs) h = absurd (ground arith)

flush_lem :
    (f : AudioFramer)
    → (length f.pending == 0) ≡ false
    → flush f
      ≡ ((encode_frame f.pending f).0 ∷ [], record (encode_frame f.pending f).1 { pending = [] })
unfolding flush
flush_lem f e =
    if_false (length f.pending == 0) ([], f)
      ((encode_frame f.pending f).0 ∷ [], record (encode_frame f.pending f).1 { pending = [] }) e

flush-audio :
    (f : AudioFramer) → (audio_in f.turn_ref (flush f).0 ≡ f.pending) × ((flush f).1.pending ≡ [])
flush-audio f = elim (Bool-cases (length f.pending == 0)) [
  | inl e ↦ unfold flush in rw (e, flush) (sym (no_length f.pending e), no_length f.pending e)
  | inr e ↦ (
    ap (λ x. audio_in f.turn_ref x.0) (flush_lem f e)
        ∙ append_nil (audio_of f.turn_ref (encode_frame f.pending f).0)
        ∙ encode_frame-audio f.pending f (ground arith),
    ap (λ x. x.1.pending) (flush_lem f e),
  )
]

-- Two stretches of a stream, the second of which starts with what the first left over.
stretches :
    (first second left between before pcm later : List ℕ)
    → first ++ between ≡ before ++ pcm
    → second ++ left ≡ between ++ later
    → (first ++ second) ++ left ≡ before ++ (pcm ++ later)
stretches first second left between before pcm later h k =
    append_assoc first second left
    ∙ ap (◌++◌ first) k
    ∙ sym (append_assoc first between later)
    ∙ ap (λ x. x ++ later) h
    ∙ append_assoc before pcm later

still_positive :
    (f g : AudioFramer)
    → SameStream f g
    → 0 < frame_bytes f.format f.frame_ms
    → 0 < frame_bytes g.format g.frame_ms
still_positive f g (_, format, ms) h =
    subst (λ n. 0 < n)
      (sym (ap (λ x. frame_bytes x g.frame_ms) format ∙ ap (frame_bytes f.format) ms)) h

write_all-audio :
    (chunks : List (List ℕ)) (f : AudioFramer)
    → 0 < frame_bytes f.format f.frame_ms
    → (audio_in f.turn_ref (write_all chunks f).0 ++ (write_all chunks f).1.pending
        ≡ f.pending ++ joined chunks)
      × ((write_all chunks f).1.turn_ref ≡ f.turn_ref)
unfolding write_all
write_all-audio [] f positive = (sym (append_nil f.pending), refl)
write_all-audio (pcm ∷ chunks) f positive =
    let same = write-SameStream pcm f in
    let g = (write pcm f).1 in
    let rest = write_all-audio chunks g (still_positive f g same positive) in
    (
      ap (λ x. x ++ (write_all chunks g).1.pending)
            (audio_in-append f.turn_ref (write pcm f).0 (write_all chunks g).0)
          ∙ stretches (audio_in f.turn_ref (write pcm f).0)
              (audio_in f.turn_ref (write_all chunks g).0) (write_all chunks g).1.pending g.pending
              f.pending pcm (joined chunks) (write-AreFrames pcm f positive).0
              (subst
                (λ t.
                  audio_in t (write_all chunks g).0 ++ (write_all chunks g).1.pending
                  ≡ g.pending ++ joined chunks)
                same.0 rest.0),
      rest.1 ∙ same.0,
    )

-- A stream that is written in any chunks and then flushed carries all of its audio: what the frames
-- hold, in order, is what was pending and then the chunks joined, and nothing is left pending. The
-- frames of the framer hold some bytes.
pub write_all-flush :
    (chunks : List (List ℕ)) (f : AudioFramer)
    → 0 < frame_bytes f.format f.frame_ms
    → let (frames, g) = write_all chunks f in
      (audio_in f.turn_ref (frames ++ (flush g).0) ≡ f.pending ++ joined chunks)
      × ((flush g).1.pending ≡ [])
write_all-flush chunks f positive =
    let (audio, same) = write_all-audio chunks f positive in
    let g = (write_all chunks f).1 in
    (
      audio_in-append f.turn_ref (write_all chunks f).0 (flush g).0
          ∙ ap (◌++◌ (audio_in f.turn_ref (write_all chunks f).0))
              (subst (λ t. audio_in t (flush g).0 ≡ g.pending) same (flush-audio g).0)
          ∙ audio,
      (flush-audio g).1,
    )
