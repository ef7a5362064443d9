-- ===== src/Parser/Reader/Termination.antt =====
-- `guac_parser_read` always returns, and never leaves its buffer, whatever the socket delivers.
use guacenc.Base.{get_elem?, ◌+◌, ◌-◌, ◌≤◌, ◌<◌, ◌≡◌, ◌⊎◌}
use guacenc.Parser.{max_elements, buffer_size, ◌*◌, length, ℕ, Parser, parse_complete, parse_error}
use guacenc.Parser.Bounds.{InRange, IsNamed}
use guacenc.Parser.Reader.{
  Outcome, Socket, Received, failed, got, ok, exhausted, failure, Cursor, Read,
}

-- What `guac_socket_read` promises: no more bytes than asked for.
abbrev pub AtMost : ℕ → Received → Type 0
AtMost n failed = Unit
AtMost n (got bytes) = length bytes ≤ n

-- All offsets lie in the buffer, in order.
pub record IsSound (k : Cursor) : Type 0 where
  pub buffer : length k.parser.instructionbuf ≡ buffer_size
  pub vector : length k.parser.elementv ≡ max_elements
  pub count : k.parser.elementc ≤ max_elements
  pub elements : InRange k.instruction buffer_size k.parser.elementc k.parser.elementv
  pub named : IsNamed k.parser
  pub begins : k.instruction ≤ k.start
  pub ordered : k.start ≤ k.stop
  pub inside : k.stop ≤ buffer_size

-- Falls with each round: a byte read fills the buffer, a byte parsed is not parsed again.
abbrev pub measure : Cursor → ℕ
measure k = 2 * (buffer_size - (k.stop - k.instruction)) + (k.stop - k.start)

-- Where room is found, there is room, and no more and no less is left to parse.
pub record IsRoomy (k r : Cursor) : Type 0 where
  pub sound : IsSound r
  pub room : r.stop < buffer_size
  pub same_instruction : r.stop - r.instruction ≡ k.stop - k.instruction
  pub same_data : r.stop - r.start ≡ k.stop - k.start

-- Three rounds for each byte of the buffer, and two to end.
abbrev pub enough_rounds : ℕ
enough_rounds = 3 * buffer_size + 2

-- What holds of a parser between two reads: its offsets lie in the buffer, and the elements of an
-- instruction that is not complete lie behind the start of what is unparsed.
pub record IsValid (p : Parser) : Type 0 where
  pub buffer : length p.instructionbuf ≡ buffer_size
  pub vector : length p.elementv ≡ max_elements
  pub count : p.elementc ≤ max_elements
  pub elements :
      (p.state ≡ parse_complete) ⊎ InRange p.unparsed_start buffer_size p.elementc p.elementv
  pub ordered : p.unparsed_start ≤ p.unparsed_end
  pub inside : p.unparsed_end ≤ buffer_size

module _ (socket : Socket)
    (bounded : (s : socket.Stream) (n : ℕ) → AtMost n (socket.receive s n).0) where
  -- A read that is over: sound offsets, and a complete instruction where it succeeded.
  abbrev pub Ends : Read socket → Type 0
  Ends (ok, k, s) = IsSound k × (k.parser.state ≡ parse_complete)
  Ends (exhausted, k, s) = ⊥
  Ends (failure e, k, s) = IsSound k

  -- What the next rounds do from any cursor that is nearer to the end than `k`.
  abbrev Continues : (Cursor → socket.Stream → Read socket) → Cursor → Type 0
  Continues continue k =
      (k' : Cursor) (s : socket.Stream)
      → IsSound k'
      → (measure k' < measure k) ⊎ (k'.parser.state ≡ parse_error)
      → Ends (continue k' s)

  -- What `guac_parser_read` returns: success with a complete instruction and a valid parser, or a
  -- failure that has left the buffer its size. It never runs out of rounds.
  abbrev pub Returns : Outcome × Parser × socket.Stream → Type 0
  Returns (ok, p, s) =
      IsValid p
      × (p.state ≡ parse_complete)
      × InRange 0 buffer_size p.elementc p.elementv
      × (p.opcode ≡ get_elem? p.elementv 0)
  Returns (exhausted, p, s) = ⊥
  Returns (failure e, p, s) = (length p.instructionbuf ≡ buffer_size) × (p.elementc ≤ max_elements)
