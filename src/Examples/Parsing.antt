-- ===== src/Examples/Parsing.antt =====
-- Instructions and text through the parser and the UTF-8 functions.
use guacenc.Base.{
  ℕ, ◌≡◌, refl, inr, true, none, some, List, [], ◌∷◌, ◌++◌, arith, length, take, drop, replicate,
  length-append, length-replicate,
}
use guacenc.Utf8.{charsize, strlen, write, read as read_utf8}
use guacenc.Utf8.Sizes.{IsText, bytes, strlen-bytes}
use guacenc.Utf8.RoundTrip.{read-write, write-ne-nil}
use guacenc.Parser.{Parser, parse_length, buffer_size, append}
use guacenc.Parser.Bounds.{IsSafe, append-IsSafe}
use guacenc.Parser.Wire.{Element}
use guacenc.Parser.Elements.{wire}
use guacenc.Parser.Reader.{Socket, Received, got, ok, read}
use guacenc.Parser.Reader.Strings.{Holds, IsRead, read-instruction}

-- A socket that is always ready, and hands out the chunks of a list.
abbrev chunk : List (List ℕ) → ℕ → Received × List (List ℕ)
chunk [] n = (got [], [])
chunk (c ∷ cs) n = (got (take n c), drop n c ∷ cs)

abbrev chunks : Socket
chunks = record { Stream = List (List ℕ); select = λ s. (true, s); receive = chunk }

-- "4.size,1.0;" and the start of the next instruction.
abbrev size_element : Element
size_element = record {
  digits = b'4' ∷ [];
  chars = (b's', []) ∷ (b'i', []) ∷ (b'z', []) ∷ (b'e', []) ∷ [];
}

abbrev layer_element : Element
layer_element = record { digits = b'1' ∷ []; chars = (b'0', []) ∷ [] }

abbrev filler : List ℕ
filler = replicate 32754 0

abbrev text : List ℕ
text = wire size_element (layer_element ∷ []) ++ (b'4' ∷ b'.' ∷ b's' ∷ [])

abbrev loaded : Parser
loaded = record {
  opcode = none;
  argc = 0;
  argv = none;
  state = parse_length;
  element_length = 0;
  elementc = 0;
  elementv = replicate 128 0;
  unparsed_start = 0;
  unparsed_end = 14;
  instructionbuf = text ++ filler;
}

loaded_size : length (text ++ filler) ≡ buffer_size
loaded_size = omega (arith, length-append text filler, length-replicate {A = ℕ} 32754 0)

loaded-Holds : Holds loaded [] size_element (layer_element ∷ []) (b'4' ∷ b'.' ∷ b's' ∷ []) filler
unfolding charsize
loaded-Holds = record {
  elements = (
    record {
      digits = (refl, tt);
      counts = refl;
      chars = (refl, (refl, (refl, (refl, tt))));
      short = omega arith;
    },
    (record { digits = (refl, tt); counts = refl; chars = (refl, tt); short = omega arith }, tt),
  );
  nuls = omega arith;
  fits = omega arith;
  vector = length-replicate {A = ℕ} 128 0;
  state = inr (refl, refl, refl);
  start = refl;
  size = refl;
  buffer = refl;
}

read-instruction_example :
    (q : Parser) × (read chunks 9 loaded [] ≡ (ok, q, []))
    × IsRead loaded q size_element (layer_element ∷ [])
read-instruction_example =
    read-instruction chunks 9 loaded [] [] size_element (layer_element ∷ [])
      (b'4' ∷ b'.' ∷ b's' ∷ []) filler loaded-Holds (omega arith)

append-IsSafe_example : IsSafe 0 buffer_size loaded 14 (append loaded 0 14)
append-IsSafe_example =
    append-IsSafe 0 buffer_size loaded 0 14 (omega arith) (omega arith) (omega (arith, loaded_size))
      (omega arith) tt tt

-- U+20AC, with two bytes behind it.
read-write_example :
    read_utf8 (write 0x20AC 4 ++ (1 ∷ 2 ∷ [])) ≡ (length (write 0x20AC 4), some 0x20AC)
read-write_example =
    read-write 0x20AC 4 (1 ∷ 2 ∷ []) (omega arith) (write-ne-nil 0x20AC 4 (omega arith))

-- "€1" is two characters in four bytes.
abbrev euro_one : List (ℕ × List ℕ)
euro_one = (0xE2, 0x82 ∷ 0xAC ∷ []) ∷ (b'1', []) ∷ []

euro_one-IsText : IsText euro_one
unfolding charsize
euro_one-IsText = (
  record { size = refl; initial = λ p. omega arith },
  omega arith,
  (record { size = refl; initial = λ p. omega arith }, tt, tt),
)

strlen-bytes_example : strlen (bytes euro_one) ≡ 2
strlen-bytes_example = strlen-bytes euro_one euro_one-IsText
