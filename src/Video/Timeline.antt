-- ===== src/Video/Timeline.antt =====
-- The frames written keep up with the timestamps, up to the width of a C `int`.
use guacenc.Base.{
  ℕ, zero, suc, ◌+◌, ◌-◌, ◌*◌, ◌/◌, ◌^◌, ◌≤◌, ◌<◌, ◌≡◌, refl, ap, ◌∙◌, inl, inr, false, Option,
  some, List, [], ◌∷◌, arith, ◌==◌, Bool-cases,
}
use guacenc.Base.Int.{eqb_ℤ, ltb_ℤ, pos, ◌+ℤ◌, ◌-ℤ◌, ◌*ℤ◌}
use guacenc.Video.{
  advance_timeline, Video, write_frame, flush_frames, flush_frame, Encoder, elapsed_frames,
  frame_time,
}

-- The longest gap whose frames, in milliseconds, fit a C `int`: a little less than a day.
abbrev pub gap_limit : ℕ
gap_limit = 85899360

elapsed_frames_lem :
    (t u : ℕ) → t ≤ u → u - t < 2 ^ 32 → elapsed_frames (pos t) (pos u) ≡ (u - t) / 40
unfolding elapsed_frames ◌-ℤ◌ ◌*ℤ◌
elapsed_frames_lem t u h g = ground arith

frame_time_lem : (t e : ℕ) → e < 2147484 → frame_time (pos t) e ≡ pos (t + e * 40)
unfolding frame_time ◌+ℤ◌ ◌*ℤ◌
frame_time_lem t e h = ground arith

module _ (encoder : Encoder) where
  open encoder use {State, Frame, encode}

  -- The encoder takes every frame.
  abbrev pub TakesFrames : Type 0
  TakesFrames = (s : State) (f : Option (Frame × ℕ)) → ltb_ℤ (encode s f).0 (pos 0) ≡ false

  flush_frame_lem :
      TakesFrames
      → (v : Video encoder)
      → ((flush_frame encoder v).0 ≡ false)
        × ((flush_frame encoder v).1.next_pts ≡ v.next_pts + 1)
        × ((flush_frame encoder v).1.last_timestamp ≡ v.last_timestamp)
  unfolding flush_frame write_frame
  flush_frame_lem takes v =
      let ok = takes v.output (some (v.next_frame, v.next_pts)) in rw ok (ok, refl, refl)

  -- A number of rounds writes that number of frames.
  flush_frames_lem :
      TakesFrames
      → (n : ℕ) (v : Video encoder)
      → ((flush_frames encoder n v).0 ≡ false)
        × ((flush_frames encoder n v).1.next_pts ≡ v.next_pts + n)
        × ((flush_frames encoder n v).1.last_timestamp ≡ v.last_timestamp)
  unfolding flush_frames
  flush_frames_lem takes zero v = (refl, omega arith, refl)
  flush_frames_lem takes (suc n) v =
      let (ok, pts, last) = flush_frame_lem takes v in
      let (ok', pts', last') = flush_frames_lem takes n (flush_frame encoder v).1 in
      rw (ok, flush_frames) (ok', omega arith, last' ∙ last)

  -- With the last frame at millisecond `t`, a timestamp `u` that is not too far ahead writes a frame for
  -- each 40 ms that have passed, and puts the last frame at the end of these.
  advance_timeline_lem :
      TakesFrames
      → (v : Video encoder) (t u : ℕ) → v.last_timestamp ≡ pos t
      → 0 < t
      → t ≤ u
      → u - t < gap_limit
      → ((advance_timeline encoder v (pos u)).0 ≡ false)
        × ((advance_timeline encoder v (pos u)).1.next_pts ≡ v.next_pts + (u - t) / 40)
        × ((advance_timeline encoder v (pos u)).1.last_timestamp ≡ pos (t + (u - t) / 40 * 40))
  unfolding advance_timeline
  advance_timeline_lem takes v t u last started le near =
      let n = (u - t) / 40 in
      let (ok, pts, same) = flush_frames_lem takes n (record v { last_timestamp = pos t }) in
      let nonzero : eqb_ℤ (pos t) (pos 0) ≡ false = ground arith in
      let elapsed = elapsed_frames_lem t u le (ground arith) in
      let frame = frame_time_lem t n (ground arith) in
      elim (Bool-cases (n == 0)) [
        | inl none_due ↦
            rw (last, nonzero, elapsed, frame, none_due) (refl, ground arith, ap pos (ground arith))
        | inr due ↦ rw (last, nonzero, elapsed, frame, due, ok) (refl, pts, refl)
      ]

  -- The timestamps of successive syncs.
  unfoldable pub play : Video encoder → List ℕ → Video encoder
  play v [] = v
  play v (u ∷ us) = play (advance_timeline encoder v (pos u)).1 us

  abbrev pub final : ℕ → List ℕ → ℕ
  final t [] = t
  final t (u ∷ us) = final u us

  -- Timestamps do not decrease, and the gaps stay under a day.
  abbrev pub Spaced : ℕ → List ℕ → Type 0
  Spaced t [] = t ≡ t
  Spaced t (u ∷ us) = (t ≤ u) × (u - t + 40 < gap_limit) × Spaced u us

  final-le : (t : ℕ) (us : List ℕ) → Spaced t us → t ≤ final t us
  final-le t [] s = ground arith
  final-le t (u ∷ us) (le, gap, rest) = let ih = final-le u us rest in omega arith

  play_lem :
      TakesFrames
      → (v : Video encoder) (t now : ℕ) (us : List ℕ) → v.last_timestamp ≡ pos t
      → 0 < t
      → t ≤ now
      → now < t + 40
      → Spaced now us
      → (play v us).next_pts ≡ v.next_pts + (final now us - t) / 40
  unfolding play
  play_lem takes v t now [] last started le near spaced = ground arith
  play_lem takes v t now (u ∷ us) last started le near (ordered, gap, rest) =
      let v' = (advance_timeline encoder v (pos u)).1 in
      let (ok, pts, last') =
        advance_timeline_lem takes v t u last started (omega arith) (omega arith) in
      let later = final-le u us rest in
      let t' = t + (u - t) / 40 * 40 in
      let ih = play_lem takes v' t' u us last' (omega arith) (ground arith) (ground arith) rest in
      ih ∙ ground arith

  -- On a video without a timestamp and with an encoder that takes every frame: while the
  -- timestamps are positive and do not decrease, and each gap with 40 ms more stays below
  -- 85899360 ms, the presentation timestamp advances by one for each whole 40 ms between the
  -- first timestamp and the last, however those between are spaced.
  pub play-frame_count :
      TakesFrames
      → (v : Video encoder) (first : ℕ) (us : List ℕ) → v.last_timestamp ≡ pos 0
      → 0 < first
      → Spaced first us
      → (play v (first ∷ us)).next_pts ≡ v.next_pts + (final first us - first) / 40
  unfolding play advance_timeline
  play-frame_count takes v first us fresh positive spaced = rw fresh (
      play_lem takes (record v { last_timestamp = pos first }) first first us refl positive
        (omega arith) (omega arith) spaced)
