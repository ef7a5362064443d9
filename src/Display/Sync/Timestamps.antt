-- ===== src/Display/Sync/Timestamps.antt =====
-- What a sync does with its timestamp: `guacenc_display_sync` of src/guacenc/display-sync.c.
use guacenc.Base.{ℕ, ◌≡◌, refl, inl, inr, Bool-cases}
use guacenc.Base.Int.{ℤ, ◌≤ℤ◌, ◌<ℤ◌}
use guacenc.Video.{advance_timeline}
use guacenc.Display.{Layer, Display}
use guacenc.Display.Consistency.{IsValid}
use guacenc.Display.Sync.{Video, Libraries, Session, advance}

module _ (libraries : Libraries) where
  open libraries use {cairo, library}

  -- A sync was refused, and changed nothing; or the display has its timestamp, which is not older than
  -- the one before.
  pub data Synced (s s' : Session libraries) (timestamp : ℤ) : Type 0 where
    refused : timestamp <ℤ s.display.last_sync → s' ≡ s → Synced s s' timestamp
    accepted :
        s.display.last_sync ≤ℤ timestamp → s'.display.last_sync ≡ timestamp → Synced s s' timestamp

  pub stamped-IsValid :
      (d : Display cairo) (timestamp : ℤ)
      → IsValid cairo d
      → IsValid cairo (record d { last_sync = timestamp })
  stamped-IsValid d timestamp v = record {
    layers_ok = v.layers_ok;
    buffers_ok = v.buffers_ok;
    streams_ok = v.streams_ok;
    cursor_ok = v.cursor_ok;
  }

  pub advance-display :
      (fuel : ℕ) (d : Display cairo) (layer : Layer cairo) (video : Video libraries.encoder)
      → (advance libraries fuel d layer video).1.display ≡ d
  unfolding advance
  advance-display fuel d layer video =
      elim (Bool-cases (advance_timeline libraries.encoder video d.last_sync).0) [
        | inl e ↦ rw (advance, e) refl
        | inr e ↦ rw (advance, e) refl
      ]
