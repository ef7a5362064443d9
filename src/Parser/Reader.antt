-- ===== src/Parser/Reader.antt =====
-- `guac_parser_read`, `guac_parser_length` and `guac_parser_shift` of src/libguac/parser.c, over a socket that the caller gives.
pub mod Termination
pub mod RoundTrip
pub mod Strings
use guacenc.Base.{
  ℕ, zero, suc, ◌+◌, ◌-◌, Bool, not, ◌&&◌, Option, none, some, List, [], ◌∷◌, ◌++◌, length, take,
  drop, ltb, ◌==◌, if◌then◌else◌,
}
use guacenc.Parser.{
  parse_complete, parse_error, Parser, buffer_size, reset, append, is_complete, is_error,
}

-- The result of `guac_socket_read`: negative, or the bytes that it stored (none at end of stream).
pub data Received : Type 0 where
  failed : Received
  got : List ℕ → Received

-- A `guac_socket` is a set of function pointers: `select` says whether data is there within the time
-- limit, `receive` stores at most as many bytes as it is asked for.
pub record Socket : Type 1 where
  pub Stream : Type 0
  pub select : Stream → Bool × Stream
  pub receive : Stream → ℕ → Received × Stream

-- `guac_error` where the parser sets it; `not_ready` is the case where `guac_socket_select` has set it.
pub data ReadError : Type 0 where
  no_memory not_ready see_errno closed protocol_error : ReadError

-- `exhausted` says that the rounds given were too few.
pub data Outcome : Type 0 where
  ok exhausted : Outcome
  failure : ReadError → Outcome

-- The pointers that `guac_parser_read` keeps beside the parser, as offsets.
pub record Cursor : Type 0 where
  pub parser : Parser
  pub start : ℕ
  pub stop : ℕ
  pub instruction : ℕ

-- `for (i = 0; i < elementc; i++) elementv[i] -= offset;`
unfoldable pub shift_elements : ℕ → ℕ → List ℕ → List ℕ
shift_elements zero offset elements = elements
shift_elements (suc n) offset [] = []
shift_elements (suc n) offset (e ∷ elements) = (e - offset) ∷ shift_elements n offset elements

-- Room behind the data: the instruction is moved to the front of a full buffer, if it is not there.
pub make_room : Cursor → Option Cursor
make_room k =
    let offset = k.instruction in
    let p = k.parser in
    if k.stop == buffer_size
    then if k.instruction == 0
      then none
      else some (record {
        parser = record p {
          instructionbuf =
              take (k.stop - offset) (drop offset p.instructionbuf)
              ++ drop (k.stop - offset) p.instructionbuf;
          elementv = shift_elements p.elementc offset p.elementv;
        };
        start = k.start - offset;
        stop = k.stop - offset;
        instruction = 0;
      })
    else some k

-- `bytes` stored from offset `at` on.
abbrev pub store : List ℕ → ℕ → List ℕ → List ℕ
store buffer at bytes = take at buffer ++ (bytes ++ drop (at + length bytes) buffer)

-- More data behind the end of the data.
pub received : Cursor → List ℕ → Cursor
received k bytes = record k {
  parser = record k.parser { instructionbuf = store k.parser.instructionbuf k.stop bytes };
  stop = k.stop + length bytes;
}

-- The locals at the start of `guac_parser_read`.
abbrev pub begin : Parser → Cursor
begin p = record {
  parser = if is_complete p.state then reset p else p;
  start = p.unparsed_start;
  stop = p.unparsed_end;
  instruction = p.unparsed_start;
}

module _ (socket : Socket) where
  open socket use {Stream, select, receive}

  abbrev pub Read : Type 0
  Read = Outcome × Cursor × Stream

  -- The calls of the socket, behind `make_room`; `continue` is the next round.
  pub fill : (Cursor → Stream → Read) → Cursor → Stream → Read
  fill continue k s =
      let (ready, s') = select s in
      let (answer, s'') = receive s' (buffer_size - k.stop) in
      let next = λ (bytes : List ℕ). continue (received k bytes) s'' in
      if not ready then (failure not_ready, k, s') else elim answer [
        | failed ↦ (failure see_errno, k, s'')
        | got bytes ↦ if length bytes == 0 then (failure closed, k, s'') else next bytes
      ]

  -- One round of the loop, where the parser is neither complete nor in error.
  pub round : (Cursor → Stream → Read) → Cursor → Stream → Read
  round continue k s =
      let (parsed, p) = append k.parser k.start (k.stop - k.start) in
      let k' = record k { parser = p } in
      let advance = continue (record k' { start = k.start + parsed }) s in
      if parsed == 0 && not (is_error p.state)
      then elim (make_room k') [
        | none ↦ (failure no_memory, k', s)
        | some roomy ↦ fill continue roomy s
      ]
      else advance

  pub read_loop : ℕ → Cursor → Stream → Read
  read_loop zero k s = (exhausted, k, s)
  read_loop (suc rounds) k s = elim k.parser.state [
    | parse_complete ↦ (ok, k, s)
    | parse_error ↦ (failure protocol_error, k, s)
    | _ ↦ round (read_loop rounds) k s
  ]

  -- The pointers are stored only where the whole read succeeds.
  pub finish : Read → Outcome × Parser × Stream
  finish (ok, k, s) = (ok, record k.parser { unparsed_start = k.start; unparsed_end = k.stop }, s)
  finish (exhausted, k, s) = (exhausted, k.parser, s)
  finish (failure e, k, s) = (failure e, k.parser, s)

  -- `guac_parser_read`, with at most `rounds` rounds of its loop.
  pub read : ℕ → Parser → Stream → Outcome × Parser × Stream
  read rounds p s = finish (read_loop rounds (begin p) s)

-- `guac_parser_length`
pub unparsed_length : Parser → ℕ
unparsed_length p = p.unparsed_end - p.unparsed_start

-- `guac_parser_shift`: the bytes that it copies out, whose number it returns, and the parser after it.
pub shift : Parser → ℕ → List ℕ × Parser
shift p size =
    let stop =
      if ltb size (p.unparsed_end - p.unparsed_start)
      then p.unparsed_start + size
      else p.unparsed_end in
    (
      take (stop - p.unparsed_start) (drop p.unparsed_start p.instructionbuf),
      record p { unparsed_start = stop },
    )
