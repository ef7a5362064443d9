-- ===== src/Parser/Reader/RoundTrip.antt =====
-- An instruction on the wire is read back as its elements.
use guacenc.Base.{
  ℕ, zero, suc, ◌+◌, ◌-◌, ◌<◌, ◌≡◌, refl, ap, ◌∙◌, ◌⊎◌, inl, inr, false, not, ◌&&◌, List, [], ◌∷◌,
  ◌++◌, append_assoc, arith, ◌==◌, length, set, length-append,
}
use mathlib.Core.Path.{ap₂}
use guacenc.Utf8.{charsize}
use guacenc.Utf8.Sizes.{charsize-comma, charsize-semicolon}
use guacenc.Parser.{
  parse_length, parse_complete, parse_error, is_error, Parser, append, end_element, max_elements,
}
use guacenc.Parser.Elements.{
  head, AllElements, wire, pointers, Parsed, append-element, ended, pointed, Comma, element-Comma,
  element-Parsed,
}
use guacenc.Parser.Wire.{Element, IsElement}
use guacenc.Parser.Reader.{Socket, ok, failure, protocol_error, Cursor, round, read_loop, Read}

-- A byte that may end an element.
abbrev EndsElement : ℕ → Type 0
EndsElement t = (t ≡ b',') ⊎ (t ≡ b';')

charsize-end : (t : ℕ) → EndsElement t → charsize t ≡ 1
charsize-end t (inl comma) = rw comma charsize-comma
charsize-end t (inr semicolon) = rw semicolon charsize-semicolon

used-element :
    (p : Parser) (pre : List ℕ) (e : Element) (t : ℕ)
    → EndsElement t
    → (end_element
        (pointed p (length pre) e)
        t
        (length pre + length (head e))
        (length (head e) + 1)).0
      ≡ length (head e) + 1
unfolding end_element
used-element p pre e t h = ground (arith, h)

-- A parser that is about to parse the element `e`, with the terminator `t`, behind `pre`.
record IsAt (k : Cursor) (pre : List ℕ) (e : Element) (t : ℕ) (rest post : List ℕ) : Type 0 where
  element : IsElement e
  ends : EndsElement t
  state : k.parser.state ≡ parse_length
  element_length : k.parser.element_length ≡ 0
  elementc : k.parser.elementc < max_elements
  start : k.start ≡ length pre
  size : k.stop - k.start ≡ length (head e ++ (t ∷ rest))
  buffer : k.parser.instructionbuf ≡ pre ++ ((head e ++ (t ∷ rest)) ++ post)

append-IsAt :
    {k : Cursor} {pre : List ℕ} {e : Element} {t : ℕ} {rest post : List ℕ}
    → IsAt k pre e t rest post
    → append k.parser k.start (k.stop - k.start) ≡ (length (head e) + 1, ended k.parser pre e t)
append-IsAt {k} {pre} {e} {t} {rest} {post} h =
    ap₂ (append k.parser) h.start h.size
    ∙ append-element k.parser pre e t rest post h.element (charsize-end t h.ends) h.state
        h.element_length h.elementc h.buffer
    ∙ ap (λ n. (n, ended k.parser pre e t)) (used-element k.parser pre e t h.ends)

length-cut : (pre h : List ℕ) → length (pre ++ (h ++ (0 ∷ []))) ≡ length pre + (length h + 1)
length-cut pre h = omega (arith, length-append pre (h ++ (0 ∷ [])), length-append h (0 ∷ []))

Parsed-cons :
    {p p' q : Parser} {pre : List ℕ} {e f : Element} {es : List Element} {rest post : List ℕ}
    → Comma p p' pre e rest
    → Parsed p' q (pre ++ (head e ++ (0 ∷ []))) f es post
    → Parsed p q pre e (f ∷ es) post
Parsed-cons {p} {p'} {q} {pre} {e} {f} {es} {rest} {post} c d = record {
  state = d.state;
  opcode = d.opcode;
  argv = d.argv;
  argc = omega (arith, d.argc, c.elementc);
  elementc = omega (arith, d.elementc, c.elementc);
  elementv =
      d.elementv
      ∙ ap₂ (λ v n. pointers v n (length (pre ++ (head e ++ (0 ∷ [])))) f es) c.elementv c.elementc
      ∙ ap
          (λ n.
            pointers (set p.elementv p.elementc (length pre + (length e.digits + 1)))
              (p.elementc + 1) n f es)
          (length-cut pre (head e));
  buffer = d.buffer ∙ simp append_assoc;
}

module _ (socket : Socket) where
  -- A round that parses something goes on behind it.
  round-parsed :
      (continue : Cursor → socket.Stream → Read socket) (k : Cursor) (s : socket.Stream) (n : ℕ)
      (q : Parser)
      → append k.parser k.start (k.stop - k.start) ≡ (n, q)
      → 0 < n
      → round socket continue k s ≡ continue (record k { parser = q; start = k.start + n }) s
  unfolding round
  round-parsed continue k s n q e more =
      let test : (n == 0 && not (is_error q.state)) ≡ false = ground arith in rw (e, test)

  read_loop-length :
      (rounds : ℕ) (k : Cursor) (s : socket.Stream)
      → k.parser.state ≡ parse_length
      → read_loop socket (suc rounds) k s ≡ round socket (read_loop socket rounds) k s
  unfolding read_loop
  read_loop-length rounds k s e =
      ap {B = Read socket}
        (λ q. elim q [
          | parse_complete ↦ (ok, k, s)
          | parse_error ↦ (failure protocol_error, k, s)
          | _ ↦ round socket (read_loop socket rounds) k s
        ])
        e

  read_loop_complete :
      (rounds : ℕ) (k : Cursor) (s : socket.Stream)
      → k.parser.state ≡ parse_complete
      → read_loop socket (suc rounds) k s ≡ (ok, k, s)
  unfolding read_loop
  read_loop_complete rounds k s e =
      ap {B = Read socket}
        (λ q. elim q [
          | parse_complete ↦ (ok, k, s)
          | parse_error ↦ (failure protocol_error, k, s)
          | _ ↦ round socket (read_loop socket rounds) k s
        ])
        e

  -- The cursor behind the instruction.
  abbrev pub behind : Cursor → Parser → ℕ → Cursor
  behind k q start = record k { parser = q; start = start }

  read_loop-IsAt :
      (rounds : ℕ) {k : Cursor} {pre : List ℕ} {e : Element} {t : ℕ} {rest post : List ℕ}
      (s : socket.Stream)
      → IsAt k pre e t rest post
      → read_loop socket (suc rounds) k s
        ≡ read_loop socket rounds
            (behind k (ended k.parser pre e t) (length pre + (length (head e) + 1)))
            s
  read_loop-IsAt rounds {k} {pre} {e} {t} s h =
      read_loop-length rounds k s h.state
      ∙ round-parsed (read_loop socket rounds) k s (length (head e) + 1) _ (append-IsAt h)
          (omega arith)
      ∙ ap
          (λ n.
            read_loop socket rounds (behind k (ended k.parser pre e t) (n + (length (head e) + 1)))
              s)
          h.start

  pub read_loop-instruction :
      (rounds : ℕ) (k : Cursor) (s : socket.Stream) (pre : List ℕ) (e : Element) (es : List Element)
      (more post : List ℕ)
      → AllElements (e ∷ es)
      → length es + 1 < rounds
      → k.parser.state ≡ parse_length
      → k.parser.element_length ≡ 0
      → k.parser.elementc + length es < max_elements
      → k.start ≡ length pre
      → k.stop - k.start ≡ length (wire e es ++ more)
      → k.parser.instructionbuf ≡ pre ++ ((wire e es ++ more) ++ post)
      → (q : Parser) × (read_loop socket rounds k s
          ≡ (ok, behind k q (length pre + length (wire e es)), s))
        × Parsed k.parser q pre e es (more ++ post)
  read_loop-instruction zero k s pre e es more post v r st z c a l b = absurd (omega arith)
  read_loop-instruction (suc zero) k s pre e es more post v r st z c a l b = absurd (omega arith)
  read_loop-instruction (suc (suc rounds)) k s pre e [] more post v r st z c a l b =
      let q = ended k.parser pre e b';' in
      let regroup = append_assoc (head e) (b';' ∷ []) more in
      let here : IsAt k pre e b';' more post = record {
        element = v.0;
        ends = inr refl;
        state = st;
        element_length = z;
        elementc = omega (arith, c);
        start = a;
        size = l ∙ ap length regroup;
        buffer = b ∙ ap (λ w. pre ++ (w ++ post)) regroup;
      } in
      let done = element-Parsed k.parser pre e more post here.buffer in
      (
        q,
        read_loop-IsAt (suc rounds) s here
            ∙ read_loop_complete rounds (behind k q (length pre + (length (head e) + 1))) s
                done.state
            ∙ ap (λ n. (ok, behind k q n, s)) (omega (arith, length-append (head e) (b';' ∷ []))),
        done,
      )
  read_loop-instruction (suc (suc rounds)) k s pre e (f ∷ es) more post v r st z c a l b =
      let regroup = append_assoc (head e) (b',' ∷ wire f es) more in
      let here : IsAt k pre e b',' (wire f es ++ more) post = record {
        element = v.0;
        ends = inl refl;
        state = st;
        element_length = z;
        elementc = omega (arith, c);
        start = a;
        size = l ∙ ap length regroup;
        buffer = b ∙ ap (λ w. pre ++ (w ++ post)) regroup;
      } in
      let p' = ended k.parser pre e b',' in
      let pre' = pre ++ (head e ++ (0 ∷ [])) in
      let before : length pre' ≡ length pre + (length (head e) + 1) = length-cut pre (head e) in
      let k' : Cursor = behind k p' (length pre + (length (head e) + 1)) in
      let comma = element-Comma k.parser pre e (wire f es ++ more) post here.buffer in
      let (q, run, done) =
        read_loop-instruction (suc rounds) k' s pre' f es more post v.1 (omega arith) comma.state
          comma.element_length (omega (arith, comma.elementc, c)) (omega (arith, before))
          (omega (arith, a, here.size, length-append (head e) (b',' ∷ (wire f es ++ more))))
          comma.buffer in
      (
        q,
        read_loop-IsAt (suc rounds) s here
            ∙ run
            ∙ ap (λ n. (ok, behind k q n, s))
                (omega (arith, before, length-append (head e) (b',' ∷ wire f es))),
        Parsed-cons comma done,
      )
