-- ===== src/Output/Failing.antt =====
-- What is left of `__ready_buf` when a triplet of base64 cannot be written.
use mathlib.Core.Path.{subst}
use guacenc.Base.{
  ℕ, zero, suc, ◌+◌, ◌≡◌, refl, ◌∙◌, inl, inr, true, Option, none, some, List, [], ◌∷◌, arith, leb,
  ◌==◌, if◌then◌else◌, Bool-cases, length, drop,
}
use guacenc.Base.Int.{ℤ, pos, negsuc, ltb_ℤ}
use guacenc.Output.{
  Handlers, GuacSocket, Outcome, Action, put, returned, exhausted, overrun, is_zero, call_write,
  socket_write, write_loop, write, triplet_output, flush_triplet, write_base64_triplet,
  write_base64_byte, write_base64, flush_base64_loop, flush_base64,
}

module _ (handlers : Handlers) where
  abbrev Socket : Type 0
  Socket = GuacSocket handlers.World

  -- Where an outcome returns, its socket has so many bytes in the buffer; and where it returns an error.
  abbrev Leaves : ℕ → Outcome handlers.World → Type 0
  Leaves n (returned code s) = s.ready ≡ n
  Leaves n exhausted = Unit {0}
  Leaves n overrun = Unit {0}

  abbrev LeavesFull : Outcome handlers.World → Type 0
  LeavesFull (returned code s) = ltb_ℤ code (pos 0) ≡ true → s.ready ≡ 3
  LeavesFull exhausted = Unit {0}
  LeavesFull overrun = Unit {0}

  call_write-ready :
      (h : Option (handlers.World → List ℕ → Option ℕ × handlers.World)) (s : Socket) (buf : List ℕ)
      → (call_write h s buf).1.ready ≡ s.ready
  call_write-ready none s buf = refl
  call_write-ready (some f) s buf = refl

  -- What the loop does with the result of a call of the handler.
  follow-Leaves :
      (rest : ℕ → Action handlers.World) (n : ℕ) (result : Option ℕ) (s : Socket)
      → ((written : ℕ) → Leaves n (rest written s))
      → s.ready ≡ n
      → Leaves n (elim result [ some written ↦ rest written s | none ↦ returned (pos 1) s ])
  follow-Leaves rest n (some written) s h e = h written
  follow-Leaves rest n none s h e = e

  write_loop-Leaves :
      (rounds : ℕ) (buf : List ℕ) (s : Socket) (n : ℕ)
      → s.ready ≡ n
      → Leaves n (write_loop handlers rounds buf s)
  unfolding write_loop socket_write
  write_loop-Leaves rounds [] s n e = e
  write_loop-Leaves zero (byte ∷ buf) s n e = tt
  write_loop-Leaves (suc rounds) (byte ∷ buf) s n e =
      let before : Socket = record s { last_write_timestamp = handlers.now s.world } in
      let result = call_write handlers.write_handler before (byte ∷ buf) in
      let kept = call_write-ready handlers.write_handler before (byte ∷ buf) ∙ e in
      follow-Leaves (λ written. write_loop handlers rounds (drop written (byte ∷ buf))) n result.0
        result.1 (λ written. write_loop-Leaves rounds (drop written (byte ∷ buf)) result.1 n kept)
        kept

  -- What `flush_triplet` makes of the outcome of its write.
  abbrev flushed : ℤ → ℤ → Outcome handlers.World → Outcome handlers.World
  flushed b c o =
      let triplet : Outcome handlers.World = elim o [
        | returned code s ↦
            if is_zero code
            then if ltb_ℤ b (pos 0)
              then returned (pos 1) s
              else if ltb_ℤ c (pos 0)
              then returned (pos 2) s
              else returned (pos 3) s
            else returned (negsuc 0) s
        | exhausted ↦ exhausted
        | overrun ↦ overrun
      ] in
      elim triplet [
        | returned code s ↦
            if ltb_ℤ code (pos 0)
            then returned code s
            else returned (pos 1) (record s { ready = 0 })
        | exhausted ↦ exhausted
        | overrun ↦ overrun
      ]

  flushed-LeavesFull :
      (b c : ℤ) (o : Outcome handlers.World) → Leaves 3 o → LeavesFull (flushed b c o)
  unfolding is_zero
  flushed-LeavesFull b c (returned (pos zero) s) e = ground (arith, e)
  flushed-LeavesFull b c (returned (pos (suc n)) s) e = λ _. e
  flushed-LeavesFull b c (returned (negsuc n) s) e = λ _. e
  flushed-LeavesFull b c exhausted e = tt
  flushed-LeavesFull b c overrun e = tt

  byte-LeavesFull : (buf : ℤ) (s : Socket) → LeavesFull (write_base64_byte handlers buf s)
  unfolding write_base64_byte flush_triplet write_base64_triplet write
  byte-LeavesFull buf s = elim (Bool-cases (leb 3 s.ready)) [
    | inl e ↦ rw (write_base64_byte, e) tt
    | inr room ↦ elim (Bool-cases (s.ready + 1 == 3)) [
      | inl e ↦
          let s3 : Socket = record s {
            ready = s.ready + 1;
            ready_buf = put s.ready_buf s.ready buf;
          } in
          let r = s3.ready_buf in
          let out = triplet_output r.at_0 r.at_1 r.at_2 in
          rw (write_base64_byte, room, e)
            (flushed-LeavesFull r.at_1 r.at_2 (write handlers out s3)
              (write_loop-Leaves (length out) out s3 3 (ground (arith, e))))
      | inr e ↦ rw (write_base64_byte, room, e) (λ h. absurd (ground (arith, h)))
    ]
  ]

  -- Where `__guac_socket_write_base64_byte` returns an error, the next byte is stored behind the end of
  -- `__ready_buf`: in the next write of base64 that is not empty, and in the next flush of it.
  pub write_base64_overrun :
      (s s' : Socket) (buf code : ℤ) (byte : ℕ) (more : List ℕ)
      → write_base64_byte handlers buf s ≡ returned code s'
      → ltb_ℤ code (pos 0) ≡ true
      → (write_base64 handlers (byte ∷ more) s' ≡ overrun) × (flush_base64 handlers s' ≡ overrun)
  unfolding write_base64 write_base64_byte flush_base64 flush_base64_loop
  write_base64_overrun s s' buf code byte more e error =
      let full : s'.ready ≡ 3 = (subst LeavesFull e (byte-LeavesFull buf s)) error in
      (rw (write_base64_byte, full) refl, rw (write_base64_byte, full) refl)
