-- ===== src/Video.antt =====
-- The timeline of the video encoder: src/guacenc/video.c. Sending a frame to libavcodec, which
-- src/guacenc/ffmpeg-compat.c wraps, is a parameter.
pub mod Timeline
pub mod Letterbox
use guacenc.Base.{
  ℕ, zero, suc, ◌+◌, ◌-◌, ◌*◌, ◌/◌, ◌%◌, ◌^◌, ◌≤◌, ◌<◌, min, ◌≡◌, refl, sym, ap, ◌∙◌, ◌≢◌, ◌↔◌, ◌⊎◌,
  inl, inr, Bool, true, false, not, ◌&&◌, ◌||◌, Option, none, some, List, [], ◌∷◌, ◌++◌, map,
  append-nil, append_assoc, arith, ltb, leb, ◌==◌, if◌then◌else◌, Bool-cases, Option-cases, tests,
  ltb→lt, lt→ltb, leb→le, ==_iff, length, get_elem?, set, get_or, take, drop, replicate,
  length-append, length-set, length-take, length-drop, length-replicate, length-map,
  get_elem?-set_self, get_elem?-set_ne, take-append-drop, take_left, drop_left, set_middle,
}
use mathlib.Core.Option
use guacenc.Base.Int.{ℤ, pos, negsuc, ◌+ℤ◌, ◌-ℤ◌, ◌*ℤ◌, eqb_ℤ, ltb_ℤ, bits32, signed32, div_trunc}

-- The encoder behind the video: its state, and `guacenc_avcodec_encode_video` on a frame and its
-- timestamp, or on no frame. A negative answer is an error.
pub record Encoder : Type 1 where
  pub State : Type 0
  pub Frame : Type 0
  pub encode : State → Option (Frame × ℕ) → ℤ × State

-- GUACENC_VIDEO_FRAMERATE
abbrev pub framerate : ℕ
framerate = 25

-- `(timestamp - last_timestamp) * GUACENC_VIDEO_FRAMERATE / 1000`, as the 32 bits of the C `int`.
unfoldable pub elapsed_frames : ℤ → ℤ → ℕ
elapsed_frames last_timestamp timestamp =
    bits32 (div_trunc ((timestamp -ℤ last_timestamp) *ℤ pos framerate) 1000)

-- `last_timestamp + elapsed * 1000 / GUACENC_VIDEO_FRAMERATE`, from the bits of `elapsed`. The product stays in the
-- range of an `int`; in C it is undefined outside.
unfoldable pub frame_time : ℤ → ℕ → ℤ
frame_time last_timestamp elapsed =
    last_timestamp +ℤ div_trunc (signed32 elapsed *ℤ pos 1000) framerate

module _ (encoder : Encoder) where
  open encoder use {State, Frame, encode}

  -- `guacenc_video`: what the timeline needs of it.
  pub record Video : Type 0 where
    pub output : State
    pub next_frame : Frame
    pub last_timestamp : ℤ
    pub next_pts : ℕ

  -- `guacenc_video_write_frame`
  unfoldable pub write_frame : Video → Option Frame → ℤ × Video
  write_frame v frame =
      let (got_data, output) = encode v.output (Option.map (λ f. (f, v.next_pts)) frame) in
      let v' = record v { output = output } in
      if ltb_ℤ got_data (pos 0)
      then (negsuc 0, v')
      else (got_data, record v' { next_pts = v.next_pts + 1 })

  -- `guacenc_video_flush_frame`: whether it failed.
  unfoldable pub flush_frame : Video → Bool × Video
  unfolding write_frame
  flush_frame v =
      let (got_data, v') = write_frame v (some v.next_frame) in (ltb_ℤ got_data (pos 0), v')

  -- `do { if (flush_frame(video)) return 1; } while (--elapsed != 0);` with `elapsed` rounds to go.
  unfoldable pub flush_frames : ℕ → Video → Bool × Video
  flush_frames zero v = (false, v)
  flush_frames (suc elapsed) v =
      let (failed, v') = flush_frame v in
      elim failed [ true ↦ (true, v') | false ↦ flush_frames elapsed v' ]

  -- `guacenc_video_advance_timeline`: whether it failed. The bits of
  -- `elapsed` are also the number of rounds of the loop, whose counter stops at 0.
  unfoldable pub advance_timeline : Video → ℤ → Bool × Video
  advance_timeline v timestamp =
      let elapsed = elapsed_frames v.last_timestamp timestamp in
      let next_timestamp = frame_time v.last_timestamp elapsed in
      let (failed, v') = flush_frames elapsed v in
      if eqb_ℤ v.last_timestamp (pos 0)
      then (false, record v { last_timestamp = timestamp })
      else if elapsed == 0
      then (false, v)
      else if failed
      then (true, v')
      else (false, record v' { last_timestamp = next_timestamp })
