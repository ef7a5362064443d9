-- ===== src/Output/Encoding.antt =====
-- Base64 as a socket sends it: three bytes at a time through `__ready_buf`, and the rest when it is
-- flushed, against the encoding of the whole data at once.
use mathlib.Core.Path.{ap₂, subst}
use guacenc.Base.{
  ℕ, zero, suc, ◌≡◌, refl, sym, ap, ◌∙◌, inl, inr, true, false, List, [], ◌∷◌, ◌++◌, append-nil,
  append_assoc, arith, if◌then◌else◌,
}
use guacenc.Base.Int.{ℤ, pos, negsuc, ltb_ℤ}
use guacenc.Output.{
  GuacSocket, Handlers, ReadyBuf, Outcome, returned, exhausted, overrun, is_zero, truth, Action,
  ◌or_else◌, write, triplet_output, flush_triplet, write_base64_triplet, write_base64_byte,
  write_base64, flush_base64_loop, flush_base64,
}
use guacenc.Output.Delivery.{Channel, Socket, Delivered, Sends, write-Delivered, reached}

-- The encoding of the whole data.
abbrev pub base64 : List ℕ → List ℕ
base64 [] = []
base64 (a ∷ []) = triplet_output (pos a) (negsuc 0) (negsuc 0)
base64 (a ∷ b ∷ []) = triplet_output (pos a) (pos b) (negsuc 0)
base64 (a ∷ b ∷ c ∷ more) = triplet_output (pos a) (pos b) (pos c) ++ base64 more

module _ {handlers : Handlers} (channel : Channel handlers) where
  abbrev output : ReadyBuf → List ℕ
  output r = triplet_output r.at_0 r.at_1 r.at_2

  -- A full buffer is sent, and is then empty; or a part of it is sent, and it stays full.
  data Flushed (s : Socket channel)
      (d : Delivered channel s (output s.ready_buf) s.ready (write handlers (output s.ready_buf) s))
      : Type 0 where
    emptied :
        flush_triplet handlers s ≡ returned (pos 1) (record d.socket { ready = 0 })
        → d.rest ≡ []
        → Flushed s d
    failed : flush_triplet handlers s ≡ returned (negsuc 0) d.socket → Flushed s d

  -- The three bytes that are sent count as 1, 2 or 3, and none of them is an error.
  sent_bytes :
      (b c : ℤ) (s : Socket channel)
      → (elim (if ltb_ℤ b (pos 0)
          then returned (pos 1) s
          else if ltb_ℤ c (pos 0)
          then returned (pos 2) s
          else returned (pos 3) s) [
            | returned code s' ↦
                if ltb_ℤ code (pos 0)
                then returned code s'
                else returned (pos 1) (record s' { ready = 0 })
            | exhausted ↦ exhausted
            | overrun ↦ overrun
          ])
        ≡ returned (pos 1) (record s { ready = 0 })
  sent_bytes b c s = ground arith

  flush_triplet-Flushed :
      (s : Socket channel) → Flushed s (write-Delivered channel (output s.ready_buf) s)
  unfolding flush_triplet write_base64_triplet is_zero
  flush_triplet-Flushed s =
      let d = write-Delivered channel (output s.ready_buf) s in
      elim d.result [
        | inl (c, all, ready) ↦
            emptied
              (rw (flush_triplet, write_base64_triplet, d.returns, c)
                (sent_bytes s.ready_buf.at_1 s.ready_buf.at_2 d.socket))
              all
        | inr error ↦ failed (rw (flush_triplet, write_base64_triplet, d.returns, error) refl)
      ]

  -- What `guac_protocol_send_blob` does with its data.
  abbrev pub whole : List ℕ → Action handlers.World
  whole content = write_base64 handlers content or_else flush_base64 handlers

  -- A socket with the three values in its buffer.
  abbrev full : ℤ → ℤ → ℤ → Socket channel → Socket channel
  full a b c s = record s { ready = 3; ready_buf = record { at_0 = a; at_1 = b; at_2 = c } }

  -- A triplet is sent, and `k` goes on with its outcome: with `rest`, or with an error.
  triplet_then :
      (a b c : ℤ) (more : List ℕ) (rest : Action handlers.World)
      (k : Outcome handlers.World → Outcome handlers.World) (s : Socket channel)
      → ((s' : Socket channel) → k (returned (pos 1) s') ≡ rest s')
      → ((s' : Socket channel) → k (returned (negsuc 0) s') ≡ returned (pos 1) s')
      → ((s' : Socket channel) → s'.ready ≡ 0 → Delivered channel s' more 0 (rest s'))
      → Delivered channel s
          (triplet_output a b c ++ more)
          0
          (k (flush_triplet handlers (full a b c s)))
  unfolding is_zero
  triplet_then a b c more rest k s good bad h =
      let s3 = full a b c s in
      let d = write-Delivered channel (triplet_output a b c) s3 in
      elim (flush_triplet-Flushed s3) [
        | emptied e all ↦
            let f = h (record d.socket { ready = 0 }) refl in
            record {
              code = f.code;
              socket = f.socket;
              returns = ap k e ∙ good _ ∙ f.returns;
              taken = d.taken ++ f.taken;
              rest = f.rest;
              parts =
                  ap₂ (λ l m. l ++ m) (d.parts ∙ ap (λ l. d.taken ++ l) all ∙ append-nil d.taken)
                    f.parts
                  ∙ sym (append_assoc d.taken f.taken f.rest);
              sent = f.sent ∙ ap (λ l. l ++ f.taken) d.sent ∙ append_assoc _ d.taken f.taken;
              result = f.result;
            }
        | failed e ↦ record {
          code = pos 1;
          socket = d.socket;
          returns = ap k e ∙ bad d.socket;
          taken = d.taken;
          rest = d.rest ++ more;
          parts = ap (λ l. l ++ more) d.parts ∙ append_assoc d.taken d.rest more;
          sent = d.sent;
          result = inr refl;
        }
      ]

  -- A socket as a record whose buffer is empty.
  emptied_eq : (s : Socket channel) → s.ready ≡ 0 → s ≡ record s { ready = 0 }
  emptied_eq s z = λ i. record s { ready = z i }

  -- Nothing is left to send.
  abbrev idle : Action handlers.World
  idle s = returned (pos 0) s

  idle-Sends : Sends channel idle []
  idle-Sends s z = record {
    code = pos 0;
    socket = s;
    returns = refl;
    taken = [];
    rest = [];
    parts = refl;
    sent = sym (append-nil _);
    result = inl (refl, refl, z);
  }

  -- What goes on once the last triplet is sent by a round of `guac_socket_flush_base64`, with so many
  -- rounds left, and once a whole one is sent by `guac_socket_write_base64`.
  abbrev flushed : ℕ → Outcome handlers.World → Outcome handlers.World
  flushed rounds o = truth (elim o [
    | returned code s ↦ elim (ltb_ℤ code (pos 0)) [
      | true ↦ returned code s
      | false ↦ flush_base64_loop handlers rounds s
    ]
    | exhausted ↦ exhausted
    | overrun ↦ overrun
  ])

  abbrev filled : List ℕ → Outcome handlers.World → Outcome handlers.World
  filled more o =
      let written : Outcome handlers.World = elim o [
        | returned code s ↦ elim (ltb_ℤ code (pos 0)) [
          | true ↦ returned code s
          | false ↦ write_base64 handlers more s
        ]
        | exhausted ↦ exhausted
        | overrun ↦ overrun
      ] in
      elim written [
        | returned code s ↦ elim (is_zero code) [
          | true ↦ truth (flush_base64 handlers s)
          | false ↦ returned (pos 1) s
        ]
        | exhausted ↦ exhausted
        | overrun ↦ overrun
      ]

  done-Sends : (rounds : ℕ) → Sends channel (λ s. truth (flush_base64_loop handlers rounds s)) []
  unfolding truth is_zero flush_base64_loop
  done-Sends zero s z = reached channel (rw z refl) (idle-Sends s z)
  done-Sends (suc rounds) s z = reached channel (rw z refl) (idle-Sends s z)

  -- A triplet at the end of the data.
  last_triplet :
      (a b c : ℤ) (rounds : ℕ) (s : Socket channel)
      → Delivered channel s
          (triplet_output a b c)
          0
          (flushed rounds (flush_triplet handlers (full a b c s)))
  unfolding truth is_zero
  last_triplet a b c rounds s =
      subst
        (λ out. Delivered channel s out 0 (flushed rounds (flush_triplet handlers (full a b c s))))
        (append-nil (triplet_output a b c))
        (triplet_then a b c [] (λ s'. truth (flush_base64_loop handlers rounds s')) (flushed rounds)
          s (λ s'. refl) (λ s'. refl) (done-Sends rounds))

  -- With an empty buffer, written as such.
  whole-Sends_at_zero :
      (content : List ℕ) (s : Socket channel)
      → Delivered channel
          (record s { ready = 0 })
          (base64 content)
          0
          (whole content (record s { ready = 0 }))
  unfolding ◌or_else◌ truth is_zero write_base64 write_base64_byte flush_base64 flush_base64_loop
  whole-Sends_at_zero [] s = idle-Sends (record s { ready = 0 }) refl
  whole-Sends_at_zero (a ∷ []) s =
      last_triplet (pos a) (negsuc 0) (negsuc 0) 1 (record s { ready = 0 })
  whole-Sends_at_zero (a ∷ b ∷ []) s =
      last_triplet (pos a) (pos b) (negsuc 0) 2 (record s { ready = 0 })
  whole-Sends_at_zero (a ∷ b ∷ c ∷ more) s =
      triplet_then (pos a) (pos b) (pos c) (base64 more) (whole more) (filled more)
        (record s { ready = 0 }) (λ s'. refl) (λ s'. refl)
        (λ s' z.
          subst (λ t. Delivered channel t (base64 more) 0 (whole more t)) (sym (emptied_eq s' z))
            (whole-Sends_at_zero more s'))

  pub whole-Sends : (content : List ℕ) → Sends channel (whole content) (base64 content)
  whole-Sends content s z =
      subst (λ t. Delivered channel t (base64 content) 0 (whole content t)) (sym (emptied_eq s z))
        (whole-Sends_at_zero content s)

  -- `guac_socket_write_base64` and then `guac_socket_flush_base64` send the encoding of the whole data
  -- and leave the buffer of base64 empty, as it was before; or they send a first part of the encoding and
  -- return an error. Each call of the write handler takes a byte at least, or fails.
  pub whole-Delivered :
      (content : List ℕ) (s : GuacSocket handlers.World)
      → s.ready ≡ 0
      → Delivered channel s (base64 content) 0 (whole content s)
  whole-Delivered content s z = whole-Sends content s z
