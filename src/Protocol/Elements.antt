-- ===== src/Protocol/Elements.antt =====
-- What the senders' pieces send: the elements of an instruction as the parser reads them.
use guacenc.Base.{
  ℕ, zero, suc, ◌+◌, ◌/◌, ◌%◌, ◌^◌, ◌≤◌, ◌<◌, ◌≡◌, refl, ap, Bool, true, ◌&&◌, List, [], ◌∷◌, ◌++◌,
  arith, ltb, ◌==◌, if◌then◌else◌, length,
}
use mathlib.Core.Path.{subst}
use guacenc.Base.Bits.{passes, passes-lt}
use guacenc.Base.Int.{negsuc, ℤ, pos}
use guacenc.Utf8.{charsize, strlen}
use guacenc.Utf8.Sizes.{bytes, IsText, strlen-bytes}
use guacenc.Parser.{max_length}
use guacenc.Parser.Wire.{Element, AllDigits, digits_value}
use guacenc.Parser.Elements.{head, wire}
use guacenc.Output.{Action, ◌or_else◌, codes, is_zero, write_string}
use guacenc.Output.Delivery.{
  Channel, Delivered, Sends, write-Delivered, or_else-Sends, write_string-Sends,
}
use guacenc.Protocol.{
  Formats, Port, write_int, write_length_string, write_length_int, write_length_double, write_flag,
}

abbrev pub AllAscii : List ℕ → Type 0
AllAscii [] = Unit {0}
AllAscii (b ∷ bs) = (0 < b) × (b < 128) × AllAscii bs

-- The same as a test.
abbrev pub is_ascii : List ℕ → Bool
is_ascii [] = true
is_ascii (b ∷ bs) = (ltb 0 b && ltb b 128) && is_ascii bs

pub is_ascii→AllAscii : (bs : List ℕ) → is_ascii bs ≡ true → AllAscii bs
is_ascii→AllAscii [] h = tt
is_ascii→AllAscii (b ∷ bs) h =
    (ground (arith, h), ground (arith, h), is_ascii→AllAscii bs (ground (arith, h)))

-- What C promises of the two formats: ASCII characters, fewer than 128 of them, and the decimal digits
-- of a number that is not negative.
pub record IsFormats (formats : Formats) : Type 0 where
  pub int-ascii : (i : ℤ) → AllAscii (formats.format_int i)
  pub int-length : (i : ℤ) → length (formats.format_int i) < 128
  pub int-digits : (n : ℕ) → AllDigits (formats.format_int (pos n))
  pub int-value : (n : ℕ) → n < 2 ^ 63 → digits_value (formats.format_int (pos n)) 0 ≡ n
  pub double-ascii : (d : formats.Double) → AllAscii (formats.format_double d)
  pub double-length : (d : formats.Double) → length (formats.format_double d) < 128

pub record IsPort (port : Port) : Type 0 where
  pub channel : Channel port.handlers
  pub contract : IsFormats port.formats

-- A text that a parser takes as one element: well-formed characters, no NUL, at most 8192 of them.
pub record Text : Type 0 where
  pub chars : List (ℕ × List ℕ)
  pub text : IsText chars
  pub short : length chars ≤ max_length

-- An ASCII string as characters.
abbrev pub ascii : List ℕ → List (ℕ × List ℕ)
ascii [] = []
ascii (b ∷ bs) = (b, []) ∷ ascii bs

pub bytes-ascii : (bs : List ℕ) → bytes (ascii bs) ≡ bs
bytes-ascii [] = refl
bytes-ascii (b ∷ bs) = ap (λ l. b ∷ l) (bytes-ascii bs)

pub length-ascii : (bs : List ℕ) → length (ascii bs) ≡ length bs
length-ascii [] = refl
length-ascii (b ∷ bs) = ap suc (length-ascii bs)

charsize-ascii : (b : ℕ) → b < 128 → charsize b ≡ 1
unfolding passes charsize
charsize-ascii b h = ground (arith, passes-lt (λ b. charsize b == 1) 128 b h refl)

pub ascii-IsText : (bs : List ℕ) → AllAscii bs → IsText (ascii bs)
ascii-IsText [] h = tt
ascii-IsText (b ∷ bs) h = (
  record { size = omega (arith, charsize-ascii b h.1); initial = λ e. omega (arith, h.0) },
  tt,
  ascii-IsText bs h.2,
)

module _ (formats : Formats) where
  -- A text behind the number of its characters.
  abbrev pub element : List (ℕ × List ℕ) → Element
  element chars = record { digits = formats.format_int (pos (length chars)); chars = chars }

  abbrev pub int_element : ℤ → Element
  int_element i = element (ascii (formats.format_int i))

  abbrev pub double_element : formats.Double → Element
  double_element d = element (ascii (formats.format_double d))

-- The decimal digits of a number below 100.
abbrev pub decimal : ℕ → List ℕ
decimal n = if ltb n 10 then (b'0' + n) ∷ [] else (b'0' + n / 10) ∷ (b'0' + n % 10) ∷ []

-- An element that stands as a literal in the code.
abbrev pub fixed : List ℕ → Element
fixed name = record { digits = decimal (length name); chars = ascii name }

abbrev pub flag_element : ℤ → Element
flag_element flag = fixed (if is_zero flag then b'0' ∷ [] else b'1' ∷ [])

module _ {port : Port} (correct : IsPort port) where
  -- An action of the port that sends exactly this.
  abbrev pub Puts : Action port.handlers.World → List ℕ → Type 0
  Puts = Sends correct.channel

  -- The same for one element, and for the elements from one on, with the end of the instruction.
  pub record PutsElement (a : Action port.handlers.World) (e : Element) : Type 0 where
    pub puts : Puts a (head e)

  pub record PutsRest (a : Action port.handlers.World) (e : Element) (es : List Element)
      : Type 0 where
    pub puts : Puts a (wire e es)

  pub write_int-Puts : (i : ℤ) → Puts (write_int port i) (port.formats.format_int i)
  unfolding write_int
  write_int-Puts i s z =
      subst (λ r. Delivered correct.channel s (port.formats.format_int i) r (write_int port i s)) z
        (write-Delivered correct.channel (port.formats.format_int i) s)

  -- `__guac_socket_write_length_string` puts one element.
  text_puts :
      (chars : List (ℕ × List ℕ))
      → IsText chars
      → Puts (write_length_string port (bytes chars)) (head (element port.formats chars))
  unfolding write_length_string
  text_puts chars h =
      let counted = write_int-Puts (pos (strlen (bytes chars))) in
      let point = write_string-Sends correct.channel (codes ".") in
      let content = write_string-Sends correct.channel (bytes chars) in
      subst
        (λ n.
          Puts (write_length_string port (bytes chars))
            (port.formats.format_int (pos n) ++ (b'.' ∷ bytes chars)))
        (strlen-bytes chars h)
        (or_else-Sends correct.channel counted (or_else-Sends correct.channel point content))

  pub text :
      (chars : List (ℕ × List ℕ))
      → IsText chars
      → PutsElement (write_length_string port (bytes chars)) (element port.formats chars)
  text chars h = record { puts = text_puts chars h }

  ascii_text :
      (bs : List ℕ)
      → AllAscii bs
      → PutsElement (write_length_string port bs) (element port.formats (ascii bs))
  ascii_text bs h =
      subst (λ l. PutsElement (write_length_string port l) (element port.formats (ascii bs)))
        (bytes-ascii bs) (text (ascii bs) (ascii-IsText bs h))

  pub int : (i : ℤ) → PutsElement (write_length_int port i) (int_element port.formats i)
  unfolding write_length_int
  int i = ascii_text (port.formats.format_int i) (correct.contract.int-ascii i)

  pub double :
      (d : port.formats.Double)
      → PutsElement (write_length_double port d) (double_element port.formats d)
  unfolding write_length_double
  double d = ascii_text (port.formats.format_double d) (correct.contract.double-ascii d)

  pub flag : (f : ℤ) → PutsElement (write_flag port f) (flag_element f)
  unfolding write_flag is_zero
  flag (pos zero) = record { puts = write_string-Sends correct.channel (codes "1.0") }
  flag (pos (suc n)) = record { puts = write_string-Sends correct.channel (codes "1.1") }
  flag (negsuc n) = record { puts = write_string-Sends correct.channel (codes "1.1") }

module _ {port : Port} {correct : IsPort port} where
  -- The opcode with the comma behind it, an element with another behind it, and the last element.
  pub opcode :
      {rest : Action port.handlers.World} {e : Element} {es : List Element} (name : List ℕ)
      → PutsRest correct rest e es
      → Puts correct (write_string port.handlers name or_else rest) (name ++ wire e es)
  opcode name p = or_else-Sends correct.channel (write_string-Sends correct.channel name) p.puts

  infixr 20 ◌comma◌
  pub ◌comma◌ :
      {a rest : Action port.handlers.World} {e f : Element} {es : List Element}
      → PutsElement correct a e
      → PutsRest correct rest f es
      → PutsRest correct
          (a or_else (write_string port.handlers (codes ",") or_else rest))
          e
          (f ∷ es)
  p comma q = record {
    puts =
        or_else-Sends correct.channel p.puts
          (or_else-Sends correct.channel (write_string-Sends correct.channel (codes ",")) q.puts);
  }

  pub last :
      {a : Action port.handlers.World} {e : Element}
      → PutsElement correct a e
      → PutsRest correct (a or_else write_string port.handlers (codes ";")) e []
  last p = record {
    puts = or_else-Sends correct.channel p.puts (write_string-Sends correct.channel (codes ";"));
  }
