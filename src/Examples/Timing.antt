-- ===== src/Examples/Timing.antt =====
-- The timeline with an encoder that counts frames, and margins.
use guacenc.Video.Letterbox.{margins, margins-fit}
use guacenc.Base.{ℕ, ◌+◌, ◌*◌, ◌/◌, ◌≤◌, ◌≡◌, refl, ◌⊎◌, some, [], ◌∷◌, arith}
use guacenc.Base.Int.{pos}
use guacenc.Video.{Encoder, Video}
use guacenc.Video.Timeline.{TakesFrames, play, play-frame_count}

abbrev counter : Encoder
counter = record { State = ℕ; Frame = ℕ; encode = λ s f. (pos 0, s + 1) }

abbrev fresh : Video counter
fresh = record { output = 0; next_frame = 7; last_timestamp = pos 0; next_pts = 0 }

counter-TakesFrames : TakesFrames counter
counter-TakesFrames s f = refl

-- Syncs at 1000, 1030, 1055 and 2000 ms.
play-frame_count_example : (play counter fresh (1000 ∷ 1030 ∷ 1055 ∷ 2000 ∷ [])).next_pts ≡ 25
play-frame_count_example =
    play-frame_count counter counter-TakesFrames fresh 1000 (1030 ∷ 1055 ∷ 2000 ∷ []) refl
      (ground arith)
      (ground arith, ground arith, (ground arith, ground arith, (ground arith, ground arith, refl)))

-- A 1000x100 image in a frame of 640x480.
margins-fit_example :
    (lsize : ℕ) × (psize : ℕ) × (margins 1000 100 640 480 ≡ some (lsize, psize))
    × (((lsize ≡ 0) × ((1000 + 2 * psize) * 480 / 100 ≤ 640))
        ⊎ ((psize ≡ 0) × ((100 + 2 * lsize) * 640 / 1000 ≤ 480)))
margins-fit_example = margins-fit 1000 100 640 480 (omega arith) (omega arith)

wide_margins : margins 1000 100 640 480 ≡ some (325, 0)
unfolding margins
wide_margins = refl
