-- ===== src/Output.antt =====
-- Sockets as libguac writes to them: src/libguac/socket.c.
-- The handlers that a `guac_socket` points to, and the clock, are parameters. A call of the write
-- handler gives the number of bytes that it took, or none for -1; its result fits an `int`.
-- `guac_socket_write` calls the handler until everything is written; the model gives it as many rounds
-- as there are bytes, which are enough where a call takes a byte at least.
pub mod Delivery
pub mod Encoding
pub mod Failing
use guacenc.Base.{
  ℕ, zero, suc, ◌+◌, ◌-◌, ◌*◌, ◌/◌, ◌%◌, ◌^◌, ◌≤◌, ◌<◌, min, ◌≡◌, refl, sym, ap, ◌∙◌, ◌≢◌, ◌↔◌, ◌⊎◌,
  inl, inr, Bool, true, false, not, ◌&&◌, ◌||◌, Option, none, some, List, [], ◌∷◌, ◌++◌, map,
  append-nil, append_assoc, arith, ltb, leb, ◌==◌, if◌then◌else◌, Bool-cases, Option-cases, tests,
  ltb→lt, lt→ltb, leb→le, ==_iff, length, get_elem?, set, get_or, take, drop, replicate,
  length-append, length-set, length-take, length-drop, length-replicate, length-map,
  get_elem?-set_self, get_elem?-set_ne, take-append-drop, take_left, drop_left, set_middle,
  get_elem?-none,
}
use Prim.Native.Nat.{bit_or}
use Prim.Native.Char.{code}
use Prim.Native.String
use Prim.Native.String.{String}
use guacenc.Base.Int.{ℤ, pos, negsuc, bits32, ltb_ℤ, leb_ℤ}

-- The code points of a literal: its bytes.
abbrev pub codes : String → List ℕ
codes String.[] = []
codes (String.◌∷◌ c s) = code c ∷ codes s

-- What a `guac_socket` points to; NULL is `none`. `World` is all that these calls read and change.
pub record Handlers : Type 1 where
  pub World : Type 0
  pub now : World → ℕ
  pub write_handler : Option (World → List ℕ → Option ℕ × World)
  pub flush_handler : Option (World → ℤ × World)
  pub lock_handler : Option (World → World)
  pub unlock_handler : Option (World → World)

-- `int __ready_buf[3]`
pub record ReadyBuf : Type 0 where
  pub at_0 : ℤ
  pub at_1 : ℤ
  pub at_2 : ℤ

abbrev pub put : ReadyBuf → ℕ → ℤ → ReadyBuf
put r zero v = record r { at_0 = v }
put r (suc zero) v = record r { at_1 = v }
put r (suc (suc i)) v = record r { at_2 = v }

-- The fields of `guac_socket` that writing changes.
pub record GuacSocket (World : Type 0) : Type 0 where
  pub world : World
  pub last_write_timestamp : ℕ
  pub ready : ℕ
  pub ready_buf : ReadyBuf

-- `exhausted` says that the rounds given were too few, `overrun` that `__ready_buf` was written past
-- its end.
pub data Outcome (World : Type 0) : Type 0 where
  returned : ℤ → GuacSocket World → Outcome World
  exhausted overrun : Outcome World

-- C's test of an `int`.
unfoldable pub is_zero : ℤ → Bool
is_zero (pos zero) = true
is_zero (pos (suc n)) = false
is_zero (negsuc n) = false

-- What `||` makes of its last operand: 1 for an error, else 0.
unfoldable pub truth : {World : Type 0} → Outcome World → Outcome World
unfolding is_zero
truth (returned code s) = returned (if is_zero code then pos 0 else pos 1) s
truth exhausted = exhausted
truth overrun = overrun

abbrev pub Action : Type 0 → Type 0
Action World = GuacSocket World → Outcome World

-- `a || b`. In C it groups to the left, which gives the same value.
infixr 20 ◌or_else◌
unfoldable pub ◌or_else◌ : {World : Type 0} → Action World → Action World → Action World
unfolding is_zero truth
a or_else b = λ s. elim (a s) [
  | returned code s' ↦ elim (is_zero code) [ true ↦ truth (b s') | false ↦ returned (pos 1) s' ]
  | exhausted ↦ exhausted
  | overrun ↦ overrun
]

-- `if (a) return -1; b`
infixr 20 ◌or_fail◌
unfoldable pub ◌or_fail◌ : {World : Type 0} → Action World → Action World → Action World
unfolding is_zero
a or_fail b = λ s. elim (a s) [
  | returned code s' ↦ elim (is_zero code) [ true ↦ b s' | false ↦ returned (negsuc 0) s' ]
  | exhausted ↦ exhausted
  | overrun ↦ overrun
]

-- Calls a handler of locks, if it is defined.
abbrev pub call : {World : Type 0} → Option (World → World) → GuacSocket World → GuacSocket World
call none s = s
call (some handler) s = record s { world = handler s.world }

-- Calls the write handler; without one, everything counts as written.
abbrev pub call_write :
    {World : Type 0}
    → Option (World → List ℕ → Option ℕ × World)
    → GuacSocket World
    → List ℕ
    → Option ℕ × GuacSocket World
call_write (some write_handler) s buf =
    let (written, world) = write_handler s.world buf in (written, record s { world = world })
call_write none s buf = (some (length buf), s)

-- `__guac_socket_BASE64_CHARACTERS`
abbrev pub base64_characters : List ℕ
base64_characters = codes "ABCDEFGHIJKLMNOPQRSTUVWXYZabcdefghijklmnopqrstuvwxyz0123456789+/"

unfoldable pub base64_character : ℕ → ℕ
base64_character i = get_or base64_characters i 0

-- The four characters that `__guac_socket_write_base64_triplet` puts in `output`.
unfoldable pub triplet_output : ℤ → ℤ → ℤ → List ℕ
unfolding base64_character
triplet_output a b c =
    let a' = bits32 a in
    let b' = bits32 b in
    let c' = bits32 c in
    base64_character (a' / 4 % 64)
    ∷ (if leb_ℤ (pos 0) b
        then base64_character (bit_or (a' % 4 * 16) (b' / 16 % 16))
          ∷ (if leb_ℤ (pos 0) c
              then base64_character (bit_or (b' % 16 * 4) (c' / 64 % 4))
                ∷ base64_character (c' % 64)
                ∷ []
              else base64_character (b' % 16 * 4) ∷ b'=' ∷ [])
        else base64_character (a' % 4 * 16) ∷ b'=' ∷ b'=' ∷ [])

module _ (handlers : Handlers) where
  -- `__guac_socket_write`
  pub socket_write : GuacSocket handlers.World → List ℕ → Option ℕ × GuacSocket handlers.World
  socket_write s =
      call_write handlers.write_handler (record s { last_write_timestamp = handlers.now s.world })

  -- The loop of `guac_socket_write`.
  pub write_loop : ℕ → List ℕ → Action handlers.World
  unfolding socket_write
  write_loop rounds [] s = returned (pos 0) s
  write_loop zero (byte ∷ buf) s = exhausted
  write_loop (suc rounds) (byte ∷ buf) s =
      let (result, s') = socket_write s (byte ∷ buf) in
      elim result [
        | some written ↦ write_loop rounds (drop written (byte ∷ buf)) s'
        | none ↦ returned (pos 1) s'
      ]

  -- `guac_socket_write`
  unfoldable pub write : List ℕ → Action handlers.World
  unfolding write_loop
  write buf = write_loop (length buf) buf

  -- `guac_socket_write_string`
  unfoldable pub write_string : List ℕ → Action handlers.World
  unfolding write truth
  write_string str s = truth (write str s)

  -- `guac_socket_flush`
  unfoldable pub flush : Action handlers.World
  flush s = elim handlers.flush_handler [
    | some flush_handler ↦
        let (code, world) = flush_handler s.world in returned code (record s { world = world })
    | none ↦ returned (pos 0) s
  ]

  -- `guac_socket_instruction_begin`
  unfoldable pub instruction_begin : GuacSocket handlers.World → GuacSocket handlers.World
  instruction_begin = call handlers.lock_handler

  -- `guac_socket_instruction_end`
  unfoldable pub instruction_end : GuacSocket handlers.World → GuacSocket handlers.World
  instruction_end = call handlers.unlock_handler

  -- `__guac_socket_write_base64_triplet`
  unfoldable pub write_base64_triplet : ℤ → ℤ → ℤ → Action handlers.World
  unfolding write is_zero triplet_output
  write_base64_triplet a b c s = elim (write (triplet_output a b c) s) [
    | returned code s' ↦
        if is_zero code
        then if ltb_ℤ b (pos 0)
          then returned (pos 1) s'
          else if ltb_ℤ c (pos 0)
          then returned (pos 2) s'
          else returned (pos 3) s'
        else returned (negsuc 0) s'
    | exhausted ↦ exhausted
    | overrun ↦ overrun
  ]

  -- What `__guac_socket_write_base64_byte` does with a full buffer.
  pub flush_triplet : Action handlers.World
  unfolding write_base64_triplet
  flush_triplet s =
      let r = s.ready_buf in
      elim (write_base64_triplet r.at_0 r.at_1 r.at_2 s) [
        | returned code s' ↦
            if ltb_ℤ code (pos 0)
            then returned code s'
            else returned (pos 1) (record s' { ready = 0 })
        | exhausted ↦ exhausted
        | overrun ↦ overrun
      ]

  -- `__guac_socket_write_base64_byte`; `__ready_buf` has 3 entries.
  unfoldable pub write_base64_byte : ℤ → Action handlers.World
  unfolding flush_triplet
  write_base64_byte buf s =
      let s' : GuacSocket handlers.World = record s {
        ready_buf = put s.ready_buf s.ready buf;
        ready = s.ready + 1;
      } in
      if leb 3 s.ready
      then overrun
      else if s'.ready == 3
      then flush_triplet s'
      else returned (pos 1) s'

  -- `guac_socket_write_base64`
  unfoldable pub write_base64 : List ℕ → Action handlers.World
  unfolding write_base64_byte
  write_base64 [] s = returned (pos 0) s
  write_base64 (byte ∷ buf) s = elim (write_base64_byte (pos byte) s) [
    | returned code s' ↦ elim (ltb_ℤ code (pos 0)) [
      | true ↦ returned code s'
      | false ↦ write_base64 buf s'
    ]
    | exhausted ↦ exhausted
    | overrun ↦ overrun
  ]

  -- The loop of `guac_socket_flush_base64`.
  pub flush_base64_loop : ℕ → Action handlers.World
  unfolding write_base64_byte
  flush_base64_loop zero s = if ltb 0 s.ready then exhausted else returned (pos 0) s
  flush_base64_loop (suc rounds) s = elim (ltb 0 s.ready) [
    | true ↦ elim (write_base64_byte (negsuc 0) s) [
      | returned code s' ↦ elim (ltb_ℤ code (pos 0)) [
        | true ↦ returned code s'
        | false ↦ flush_base64_loop rounds s'
      ]
      | exhausted ↦ exhausted
      | overrun ↦ overrun
    ]
    | false ↦ returned (pos 0) s
  ]

  -- `guac_socket_flush_base64`; three rounds are enough.
  unfoldable pub flush_base64 : Action handlers.World
  unfolding flush_base64_loop
  flush_base64 = flush_base64_loop 3

  -- The frame of the functions `guac_protocol_send_*`: begin, `ret_val = a`, end, return `ret_val`.
  unfoldable pub instruction : Action handlers.World → Action handlers.World
  unfolding instruction_begin instruction_end
  instruction a s = elim (a (instruction_begin s)) [
    | returned ret_val s' ↦ returned ret_val (instruction_end s')
    | exhausted ↦ exhausted
    | overrun ↦ overrun
  ]
