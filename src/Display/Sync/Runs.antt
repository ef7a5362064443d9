-- ===== src/Display/Sync/Runs.antt =====
-- The sessions that a recording can reach: src/guacenc/instructions.c and the loop of encode.c.
use guacenc.Base.{ℕ, ◌≡◌, sym, inl, inr, Option, some, List, [], ◌∷◌, Bool-cases, Option-cases}
use mathlib.Core.Path.{subst}
use guacenc.Base.Int.{ℤ, pos, ltb_ℤ}
use guacenc.Arguments.{parse_timestamp}
use guacenc.Video.{Video}
use guacenc.Display.{Display, get_layer}
use guacenc.Display.Consistency.{IsValid}
use guacenc.Display.Dispatch.{display_alloc}
use guacenc.Display.Reachable.{handle_instruction-IsValid, display_alloc-IsValid}
use guacenc.Display.Flatten.{flatten}
use guacenc.Display.Flatten.Frames.{Stage, Looks, get_layer-Looks}
use guacenc.Display.Flatten.Reached.{Permutes, Then, Then-some, flatten-Stage}
use guacenc.Display.Sync.{
  Libraries, Session, Instruction, mouse, sync, other, display_sync, handle_sync, move_cursor,
  handle_mouse, handle, run,
}
use guacenc.Display.Sync.Timestamps.{stamped-IsValid, advance-display}

module _ (libraries : Libraries) (fuel : ℕ) (moves : Permutes libraries.library) where
  open libraries use {cairo, library, tools}

  abbrev Leaves : Option (ℕ × Session libraries) → Type 0
  Leaves o = Then (λ (r : ℕ × Session libraries). IsValid cairo r.1.display) o

  display_sync-Leaves :
      (s : Session libraries) (timestamp : ℤ)
      → IsValid cairo s.display
      → Leaves (display_sync libraries fuel s timestamp)
  unfolding display_sync
  display_sync-Leaves s timestamp v = elim (Bool-cases (ltb_ℤ timestamp s.display.last_sync)) [
    | inl old ↦ rw (display_sync, old) v
    | inr new ↦
        let d : Display cairo = record s.display { last_sync = timestamp } in
        elim (Option-cases (flatten cairo library fuel d)) [
          | inl e ↦ rw (display_sync, new, e) tt
          | inr (d₁, e) ↦
              let flat =
                Then-some (λ d'. Stage cairo d d') _ d₁ e
                  (flatten-Stage cairo library fuel d moves
                    (stamped-IsValid libraries s.display timestamp v)) in
              elim (Option-cases (get_layer cairo d₁ (pos 0))) [
                | inl f ↦ rw (display_sync, new, e, f) tt
                | inr ((i, layer, d₂), f) ↦
                    let (stage, _, _, _) =
                      subst (Looks cairo d₁) f (get_layer-Looks cairo d₁ (pos 0) flat.valid) in
                    rw (display_sync, new, e, f)
                      (subst (IsValid cairo)
                        (sym (advance-display libraries fuel d₂ layer s.output)) stage.valid)
              ]
        ]
  ]

  stamped_sync :
      (s : Session libraries) (sent : List ℕ)
      → IsValid cairo s.display
      → Leaves (handle_sync libraries fuel s (sent ∷ []))
  unfolding handle_sync
  stamped_sync s sent v = elim (Option-cases (parse_timestamp sent)) [
    | inl e ↦ rw (handle_sync, e) tt
    | inr (timestamp, e) ↦ rw (handle_sync, e) (display_sync-Leaves s timestamp v)
  ]

  handle_sync-Leaves :
      (s : Session libraries) (argv : List (List ℕ))
      → IsValid cairo s.display
      → Leaves (handle_sync libraries fuel s argv)
  unfolding handle_sync
  handle_sync-Leaves s [] v = v
  handle_sync-Leaves s (sent ∷ more) v = stamped_sync s sent v

  moved-IsValid :
      (s : Session libraries) (x y : ℤ)
      → IsValid cairo s.display
      → IsValid cairo (move_cursor libraries fuel s x y).display
  unfolding move_cursor
  moved-IsValid s x y v = record {
    layers_ok = v.layers_ok;
    buffers_ok = v.buffers_ok;
    streams_ok = v.streams_ok;
    cursor_ok = v.cursor_ok;
  }

  handle_mouse-Leaves :
      (s : Session libraries) (argv : List (List ℕ))
      → IsValid cairo s.display
      → Leaves (handle_mouse libraries fuel s argv)
  unfolding handle_mouse handle_sync
  handle_mouse-Leaves s [] v = v
  handle_mouse-Leaves s (x ∷ []) v = v
  handle_mouse-Leaves s (x ∷ y ∷ []) v = moved-IsValid s (tools.atoi x) (tools.atoi y) v
  handle_mouse-Leaves s (x ∷ y ∷ mask ∷ []) v = moved-IsValid s (tools.atoi x) (tools.atoi y) v
  handle_mouse-Leaves s (x ∷ y ∷ mask ∷ sent ∷ more) v =
      stamped_sync (move_cursor libraries fuel s (tools.atoi x) (tools.atoi y)) sent
        (moved-IsValid s (tools.atoi x) (tools.atoi y) v)

  handle-Leaves :
      (s : Session libraries) (instruction : Instruction)
      → IsValid cairo s.display
      → Leaves (handle libraries fuel s instruction)
  unfolding handle
  handle-Leaves s (mouse argv) v = handle_mouse-Leaves s argv v
  handle-Leaves s (sync argv) v = handle_sync-Leaves s argv v
  handle-Leaves s (other opcode argv) v =
      handle_instruction-IsValid cairo tools s.display opcode argv v

  run-keeps :
      (instructions : List Instruction) (s : Session libraries)
      → IsValid cairo s.display
      → Then
          (λ (s' : Session libraries). IsValid cairo s'.display)
          (run libraries fuel s instructions)
  unfolding run
  run-keeps [] s v = v
  run-keeps (instruction ∷ rest) s v = elim (Option-cases (handle libraries fuel s instruction)) [
    | inl e ↦ rw (run, e) tt
    | inr ((code, s₁), e) ↦
        rw (run, e)
          (run-keeps rest s₁ (
            Then-some (λ (r : ℕ × Session libraries). IsValid cairo r.1.display) _ (code, s₁) e
              (handle-Leaves s instruction v)))
  ]

module _ (libraries : Libraries) where
  open libraries use {cairo, library}

  -- With a `qsort` that only moves entries around and calls the comparator: every display that the
  -- instructions of a recording reach from a new one, `mouse` and `sync` with their flattening included,
  -- with any arguments, handled or refused, is well-formed. Each buffer, layer frame and cursor
  -- image has its surface and context exactly when no side is 0, and its image when moreover its bytes
  -- could be allocated; buffers that are no layers size themselves, and no image stream holds more bytes
  -- than its room. A run that meets undefined behaviour, a failed assertion or endless recursion reaches no
  -- further display.
  pub run-IsValid :
      (fuel : ℕ) (output : Video libraries.encoder) (instructions : List Instruction)
      (s : Session libraries)
      → Permutes library
      → run libraries fuel (record { display = display_alloc cairo; output = output }) instructions
        ≡ some s
      → IsValid cairo s.display
  run-IsValid fuel output instructions s moves e =
      Then-some (λ (s' : Session libraries). IsValid cairo s'.display) _ s e
        (run-keeps libraries fuel moves instructions
          (record { display = display_alloc cairo; output = output })
          (display_alloc-IsValid cairo libraries.tools))
