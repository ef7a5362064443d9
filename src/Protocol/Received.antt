-- ===== src/Protocol/Received.antt =====
-- What is sent comes back from the parser of src/libguac/parser.c.
use guacenc.Base.Int.{ℤ, pos, negsuc}
use guacenc.Utf8.Sizes.{NoNul, bytes, IsText}
use guacenc.Parser.{Parser, max_length, max_elements}
use guacenc.Parser.Wire.{Element, AllDigits, digits_value, AllChars, IsElement}
use guacenc.Parser.Elements.{AllElements}
use guacenc.Parser.Reader.{Socket, ok, read}
use guacenc.Parser.Reader.Strings.{NoNuls, IsReady, IsRead, read-instruction}
use guacenc.Base.{
  ℕ, zero, suc, ◌+◌, ◌-◌, ◌≤◌, ◌<◌, ◌≡◌, refl, sym, ap, ◌∙◌, inl, inr, true, List, [], ◌∷◌, ◌++◌,
  map, append-nil, arith, length,
}
use mathlib.Core.Bool.{true≢false}
use guacenc.Output.{GuacSocket, Outcome, returned, exhausted, overrun, is_zero}
use guacenc.Output.Encoding.{base64}
use guacenc.Protocol.{Formats, Port}
use guacenc.Protocol.Elements.{
  AllAscii, IsFormats, IsPort, ascii, length-ascii, ascii-IsText, is_ascii→AllAscii, element, fixed,
  decimal,
}
use guacenc.Protocol.Calls.{
  Arg, of_int, of_text, of_block, of_double, of_flag, argument_element, request_wire,
}
use guacenc.Protocol.Calls.Blobs.{length-base64}
use guacenc.Protocol.Calls.Characters.{base64-ascii}
use guacenc.Protocol.Calls.Names.{is_name, request-name}
use guacenc.Protocol.Delivery.{Call, request, send, send-Puts}

IsText-AllChars : (cs : List (ℕ × List ℕ)) → IsText cs → AllChars cs
IsText-AllChars [] h = tt
IsText-AllChars ((c, tail) ∷ cs) h = (h.0.size, IsText-AllChars cs h.2)

NoNul-append : (bs cs : List ℕ) → NoNul bs → NoNul cs → NoNul (bs ++ cs)
NoNul-append [] cs h k = k
NoNul-append (b ∷ bs) cs h k = (h.0, NoNul-append bs cs h.1 k)

IsText-NoNul : (cs : List (ℕ × List ℕ)) → IsText cs → NoNul (bytes cs)
IsText-NoNul [] h = tt
IsText-NoNul ((c, tail) ∷ cs) h =
    (h.0.initial, NoNul-append tail (bytes cs) h.1 (IsText-NoNul cs h.2))

-- An element that the parser reads as a string.
abbrev IsPlain : Element → Type 0
IsPlain e = IsElement e × NoNul (bytes e.chars)

AllPlain : List Element → Type 0
AllPlain [] = Unit {0}
AllPlain (e ∷ es) = IsPlain e × AllPlain es

AllPlain-elements : (es : List Element) → AllPlain es → AllElements es × NoNuls es
unfolding AllPlain
AllPlain-elements [] h = (tt, tt)
AllPlain-elements (e ∷ es) h =
    let (elements, nuls) = AllPlain-elements es h.1 in ((h.0.0, elements), (h.0.1, nuls))

decimal-digits : (n : ℕ) → n < 100 → AllDigits (decimal n) × (digits_value (decimal n) 0 ≡ n)
decimal-digits n h = ground arith

fixed-IsPlain : (name : List ℕ) → is_name name ≡ true → IsPlain (fixed name)
fixed-IsPlain name h =
    let all = is_ascii→AllAscii name (ground (arith, h)) in
    let short : length name < 100 = ground (arith, h) in
    let (digits, value) = decimal-digits (length name) short in
    (
      record {
        digits = digits;
        counts = value ∙ sym (length-ascii name);
        chars = IsText-AllChars (ascii name) (ascii-IsText name all);
        short = omega (arith, length-ascii name);
      },
      IsText-NoNul (ascii name) (ascii-IsText name all),
    )

module _ {formats : Formats} (contract : IsFormats formats) where
  element-IsPlain :
      (cs : List (ℕ × List ℕ)) → IsText cs → length cs ≤ max_length → IsPlain (element formats cs)
  element-IsPlain cs h short = (
    record {
      digits = contract.int-digits (length cs);
      counts = contract.int-value (length cs) (omega arith);
      chars = IsText-AllChars cs h;
      short = short;
    },
    IsText-NoNul cs h,
  )

  ascii-IsPlain :
      (bs : List ℕ) → AllAscii bs → length bs ≤ max_length → IsPlain (element formats (ascii bs))
  ascii-IsPlain bs h short =
      element-IsPlain (ascii bs) (ascii-IsText bs h) (omega (arith, length-ascii bs))

  argument-IsPlain : (a : Arg formats.Double) → IsPlain (argument_element formats a)
  unfolding is_zero
  argument-IsPlain (of_int i) =
      ascii-IsPlain (formats.format_int i) (contract.int-ascii i)
        (omega (arith, contract.int-length i))
  argument-IsPlain (of_flag (pos zero)) = fixed-IsPlain (b'0' ∷ []) refl
  argument-IsPlain (of_flag (pos (suc n))) = fixed-IsPlain (b'1' ∷ []) refl
  argument-IsPlain (of_flag (negsuc n)) = fixed-IsPlain (b'1' ∷ []) refl
  argument-IsPlain (of_text t) = element-IsPlain t.chars t.text t.short
  argument-IsPlain (of_block b) =
      ascii-IsPlain (base64 b.content) (base64-ascii b.content)
        (omega (arith, length-base64 b.content, b.limit))
  argument-IsPlain (of_double d) =
      ascii-IsPlain (formats.format_double d) (contract.double-ascii d)
        (omega (arith, contract.double-length d))

  arguments-AllPlain :
      (as' : List (Arg formats.Double)) → AllPlain (map (argument_element formats) as')
  unfolding AllPlain
  arguments-AllPlain [] = tt
  arguments-AllPlain (a ∷ as') = (argument-IsPlain a, arguments-AllPlain as')

-- A parser between two instructions, whose unparsed data is `unparsed`, behind `pre`.
pub record Window (p : Parser) (pre unparsed post : List ℕ) : Type 0 where
  pub vector : length p.elementv ≡ max_elements
  pub state : IsReady p
  pub start : p.unparsed_start ≡ length pre
  pub size : p.unparsed_end - p.unparsed_start ≡ length unparsed
  pub buffer : p.instructionbuf ≡ pre ++ (unparsed ++ post)

-- The elements behind the opcode.
abbrev pub arguments : (port : Port) → Call port.formats.Double → List Element
arguments port c = map (argument_element port.formats) (request c).arguments

abbrev rest_of : List ℕ → List ℕ
rest_of [] = []
rest_of (x ∷ xs) = xs

append_cancel : (xs ys zs : List ℕ) → xs ++ ys ≡ xs ++ zs → ys ≡ zs
append_cancel [] ys zs e = e
append_cancel (x ∷ xs) ys zs e = append_cancel xs ys zs (ap rest_of e)

abbrev code_of : {World : Type 0} → Outcome World → ℤ
code_of (returned code s) = code
code_of exhausted = pos 1
code_of overrun = pos 1

abbrev socket_of : {World : Type 0} → GuacSocket World → Outcome World → GuacSocket World
socket_of d (returned code s) = s
socket_of d exhausted = d
socket_of d overrun = d

module _ {port : Port} (correct : IsPort port) where
  -- What a sender sent when it returned 0 is the request as it is written.
  sent_wire :
      (c : Call port.formats.Double) (s s' : GuacSocket port.handlers.World) (out : List ℕ)
      → s.ready ≡ 0
      → send port c s ≡ returned (pos 0) s'
      → correct.channel.sent s'.world ≡ correct.channel.sent s.world ++ out
      → out ≡ request_wire port.formats (request c)
  unfolding is_zero
  sent_wire c s s' out z e sent =
      let d = send-Puts correct c s z in
      let same = sym d.returns ∙ e in
      let success = ap code_of same in
      let sent_same = ap (λ t. correct.channel.sent t.world) (ap (socket_of s) same) in
      elim d.result [
        | inl (_, all, _) ↦
            let taken : out ≡ d.taken =
              append_cancel (correct.channel.sent s.world) out d.taken
                (sym sent ∙ sym sent_same ∙ d.sent) in
            taken ∙ sym (append-nil d.taken) ∙ sym (ap (λ l. d.taken ++ l) all) ∙ sym d.parts
        | inr error ↦ absurd (true≢false (ap is_zero (sym success) ∙ error))
      ]

  -- Where a sender returns 0, and what it has sent is what a parser between two instructions has to parse
  -- next, `guac_parser_read` succeeds without its socket, and the opcode and the arguments are the C
  -- strings that were asked to be sent. There are at most 127 arguments; every string of the call is a text
  -- of well-formed characters with no NUL, at most 8192 of them, and a blob has at most 6048 bytes. The
  -- write handler takes a byte at least of what it is given or fails, the numbers are formatted as C says,
  -- and no data waits in the buffer of base64.
  pub read-send :
      (c : Call port.formats.Double) (s s' : GuacSocket port.handlers.World) (out : List ℕ)
      (socket : Socket) (rounds : ℕ) (p : Parser) (stream : socket.Stream) (pre more post : List ℕ)
      → length (arguments port c) < max_elements
      → s.ready ≡ 0
      → send port c s ≡ returned (pos 0) s'
      → correct.channel.sent s'.world ≡ correct.channel.sent s.world ++ out
      → Window p pre (out ++ more) post
      → length (arguments port c) + 1 < rounds
      → (q : Parser) × (read socket rounds p stream ≡ (ok, q, stream))
        × IsRead p q (fixed (request c).name) (arguments port c)
  read-send c s s' out socket rounds p stream pre more post few z e sent w enough =
      let name = request-name c in
      let plain = arguments-AllPlain correct.contract (request c).arguments in
      let (elements, nuls) = AllPlain-elements (arguments port c) plain in
      let (op, op_nul) = fixed-IsPlain (request c).name name in
      let same = sent_wire c s s' out z e sent in
      read-instruction socket rounds p stream pre (fixed (request c).name) (arguments port c) more
        post
        (record {
          elements = (op, elements);
          nuls = (op_nul, nuls);
          fits = few;
          vector = w.vector;
          state = w.state;
          start = w.start;
          size = w.size ∙ ap (λ l. length (l ++ more)) same;
          buffer = w.buffer ∙ ap (λ l. pre ++ ((l ++ more) ++ post)) same;
        })
        enough
