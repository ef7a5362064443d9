-- ===== src/Parser/Reader/Strings.antt =====
-- The elements of an instruction as the C strings that the handlers are given.
use guacenc.Base.{
  ℕ, zero, suc, ◌+◌, ◌-◌, ◌<◌, ◌≡◌, refl, ap, ◌∙◌, ◌⊎◌, some, List, [], ◌∷◌, ◌++◌, append_assoc,
  arith, length, get_elem?, set, drop, length-append, length-set, get_elem?-set_self,
  get_elem?-set_ne, drop_left,
}
use mathlib.Core.Path.{ap₂}
use guacenc.Utf8.Sizes.{bytes, NoNul}
use guacenc.Parser.{Parser, parse_length, parse_complete, max_elements, reset}
use guacenc.Parser.Wire.{Element}
use guacenc.Parser.Elements.{head, AllElements, wire, cut, pointers}
use guacenc.Parser.Reader.{Socket, ok, Cursor, finish, read, begin}
use guacenc.Parser.Reader.RoundTrip.{read_loop-instruction}

-- The C string that starts a list of bytes.
abbrev pub c_string : List ℕ → List ℕ
c_string [] = []
c_string (zero ∷ bs) = []
c_string (suc b ∷ bs) = suc b ∷ c_string bs

-- Element `i` of the parser is the string `bs`.
pub record IsElementString (p : Parser) (i : ℕ) (bs : List ℕ) : Type 0 where
  pub pointer : ℕ
  pub points : get_elem? p.elementv i ≡ some pointer
  pub string : c_string (drop pointer p.instructionbuf) ≡ bs

-- The elements from number `i` on are these.
abbrev pub AreStrings : Parser → ℕ → List Element → Type 0
AreStrings p i [] = Unit {0}
AreStrings p i (e ∷ es) = IsElementString p i (bytes e.chars) × AreStrings p (i + 1) es

abbrev pub NoNuls : List Element → Type 0
NoNuls [] = Unit {0}
NoNuls (e ∷ es) = NoNul (bytes e.chars) × NoNuls es

c_string-append : (bs rest : List ℕ) → NoNul bs → c_string (bs ++ (0 ∷ rest)) ≡ bs
c_string-append [] rest h = refl
c_string-append (zero ∷ bs) rest h = absurd (h.0 refl)
c_string-append (suc b ∷ bs) rest h = ap (λ l. suc b ∷ l) (c_string-append bs rest h.1)

get_elem?-pointers :
    (v : List ℕ) (n at i : ℕ) (e : Element) (es : List Element)
    → i < n
    → get_elem? (pointers v n at e es) i ≡ get_elem? v i
get_elem?-pointers v n at i e [] h = get_elem?-set_ne v _ (λ p. omega arith)
get_elem?-pointers v n at i e (f ∷ es) h =
    get_elem?-pointers (set v n (at + (length e.digits + 1))) (n + 1) _ i f es (omega arith)
    ∙ get_elem?-set_ne v _ (λ p. omega arith)

pointers_self :
    (v : List ℕ) (n at : ℕ) (e : Element) (es : List Element)
    → n < length v
    → get_elem? (pointers v n at e es) n ≡ some (at + (length e.digits + 1))
pointers_self v n at e [] h = get_elem?-set_self v n _ h
pointers_self v n at e (f ∷ es) h =
    get_elem?-pointers (set v n (at + (length e.digits + 1))) (n + 1) _ n f es (omega arith)
    ∙ get_elem?-set_self v n _ h

-- The content of the element behind `pre`.
drop-head :
    (pre : List ℕ) (e : Element) (rest : List ℕ)
    → drop (length pre + (length e.digits + 1)) (pre ++ (head e ++ rest)) ≡ bytes e.chars ++ rest
drop-head pre e rest =
    let before = pre ++ (e.digits ++ (b'.' ∷ [])) in
    let regroup : pre ++ (head e ++ rest) ≡ before ++ (bytes e.chars ++ rest) = simp append_assoc in
    let size : length pre + (length e.digits + 1) ≡ length before =
      omega
        (arith, length-append pre (e.digits ++ (b'.' ∷ [])), length-append e.digits (b'.' ∷ [])) in
    rw (regroup, size) (drop_left before (bytes e.chars ++ rest))

-- The element behind `pre`, once it is cut off.
element-string :
    (q : Parser) (v pre : List ℕ) (n : ℕ) (e : Element) (es : List Element) (rest : List ℕ)
    → n < length v
    → NoNul (bytes e.chars)
    → q.elementv ≡ pointers v n (length pre) e es
    → q.instructionbuf ≡ pre ++ (head e ++ (0 ∷ rest))
    → IsElementString q n (bytes e.chars)
element-string q v pre n e es rest h nul ev buf = record {
  pointer = length pre + (length e.digits + 1);
  points = ap (λ l. get_elem? l n) ev ∙ pointers_self v n (length pre) e es h;
  string =
      ap (λ l. c_string (drop (length pre + (length e.digits + 1)) l)) buf
      ∙ ap c_string (drop-head pre e (0 ∷ rest))
      ∙ c_string-append (bytes e.chars) rest nul;
}

strings-pointers :
    (q : Parser) (v pre : List ℕ) (n : ℕ) (e : Element) (es : List Element) (post : List ℕ)
    → n + length es < length v
    → NoNuls (e ∷ es)
    → q.elementv ≡ pointers v n (length pre) e es
    → q.instructionbuf ≡ pre ++ (cut e es ++ post)
    → AreStrings q n (e ∷ es)
strings-pointers q v pre n e [] post h nul ev buf = (
  element-string q v pre n e [] post (omega (arith, h)) nul.0 ev
      (buf ∙ ap (λ l. pre ++ l) (append_assoc (head e) (0 ∷ []) post)),
  tt,
)
strings-pointers q v pre n e (f ∷ es) post h nul ev buf =
    let pre' = pre ++ (head e ++ (0 ∷ [])) in
    let size : length pre + (length (head e) + 1) ≡ length pre' =
      omega (arith, length-append pre (head e ++ (0 ∷ [])), length-append (head e) (0 ∷ [])) in
    let v' = set v n (length pre + (length e.digits + 1)) in
    (
      element-string q v pre n e (f ∷ es) (cut f es ++ post) (omega (arith, h)) nul.0 ev
          (buf ∙ ap (λ l. pre ++ l) (append_assoc (head e) (0 ∷ cut f es) post)),
      strings-pointers q v' pre' (n + 1) f es post
          (omega (arith, h, length-set v n (length pre + (length e.digits + 1)))) nul.1
          (ev ∙ ap (λ m. pointers v' (n + 1) m f es) size) (buf ∙ simp append_assoc),
    )

-- A parser between two instructions: the last one is complete, or none was begun.
abbrev pub IsReady : Parser → Type 0
IsReady p =
    (p.state ≡ parse_complete)
    ⊎ ((p.state ≡ parse_length) × (p.elementc ≡ 0) × (p.element_length ≡ 0))

record IsFresh (p : Parser) (k : Cursor) : Type 0 where
  state : k.parser.state ≡ parse_length
  element_length : k.parser.element_length ≡ 0
  elementc : k.parser.elementc ≡ 0
  elementv : k.parser.elementv ≡ p.elementv
  buffer : k.parser.instructionbuf ≡ p.instructionbuf

begin-IsFresh : (p : Parser) → IsReady p → IsFresh p (begin p)
unfolding reset
begin-IsFresh p h = ground (arith, h)

-- A parser at the start of an instruction, which is in the buffer as a whole: `pre` is parsed, `more`
-- is not, and `post` is not data.
pub record Holds (p : Parser) (pre : List ℕ) (e : Element) (es : List Element) (more post : List ℕ)
    : Type 0 where
  pub elements : AllElements (e ∷ es)
  pub nuls : NoNuls (e ∷ es)
  pub fits : length es < max_elements
  pub vector : length p.elementv ≡ max_elements
  pub state : IsReady p
  pub start : p.unparsed_start ≡ length pre
  pub size : p.unparsed_end - p.unparsed_start ≡ length (wire e es ++ more)
  pub buffer : p.instructionbuf ≡ pre ++ ((wire e es ++ more) ++ post)

-- Behind the instruction: the elements as strings, the opcode and the arguments among them, and what
-- follows left to parse.
pub record IsRead (p q : Parser) (e : Element) (es : List Element) : Type 0 where
  pub state : q.state ≡ parse_complete
  pub elementc : q.elementc ≡ length es + 1
  pub strings : AreStrings q 0 (e ∷ es)
  pub opcode : q.opcode ≡ get_elem? q.elementv 0
  pub argv : q.argv ≡ some 1
  pub argc : q.argc ≡ length es
  pub start : q.unparsed_start ≡ p.unparsed_start + length (wire e es)
  pub stop : q.unparsed_end ≡ p.unparsed_end

module _ (socket : Socket) where
  -- Where the buffer holds a whole instruction of at most 128 elements behind the last one, with every
  -- length in digits equal to the element's number of characters and at most 8192, and no NUL byte,
  -- `guac_parser_read` succeeds without the socket. Its elements are then the C strings that the
  -- element pointers give, `argc` counts those behind the opcode, and the rest is still unparsed.
  pub read-instruction :
      (rounds : ℕ) (p : Parser) (s : socket.Stream) (pre : List ℕ) (e : Element) (es : List Element)
      (more post : List ℕ)
      → Holds p pre e es more post
      → length es + 1 < rounds
      → (q : Parser) × (read socket rounds p s ≡ (ok, q, s)) × IsRead p q e es
  unfolding read finish reset
  read-instruction rounds p s pre e es more post h enough =
      let b = begin-IsFresh p h.state in
      let (q, run, done) =
        read_loop-instruction socket rounds (begin p) s pre e es more post h.elements enough b.state
          b.element_length (omega (arith, b.elementc, h.fits)) h.start h.size
          (b.buffer ∙ h.buffer) in
      let q' : Parser = record q {
        unparsed_start = length pre + length (wire e es);
        unparsed_end = p.unparsed_end;
      } in
      let vector : q.elementv ≡ pointers p.elementv 0 (length pre) e es =
        done.elementv ∙ ap₂ (λ v n. pointers v n (length pre) e es) b.elementv b.elementc in
      (
        q',
        ap (finish socket) run,
        record {
          state = done.state;
          elementc = omega (arith, done.elementc, b.elementc);
          strings =
              strings-pointers q' p.elementv pre 0 e es (more ++ post)
                (omega (arith, h.fits, h.vector)) h.nuls vector done.buffer;
          opcode = done.opcode;
          argv = done.argv;
          argc = omega (arith, done.argc, b.elementc);
          start = omega (arith, h.start);
          stop = refl;
        },
      )
