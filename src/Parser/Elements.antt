-- ===== src/Parser/Elements.antt =====
-- What `guac_parser_append` does at one whole element and its terminator.
use guacenc.Base.{
  ℕ, zero, suc, ◌+◌, ◌≤◌, ◌<◌, ◌≡◌, refl, ap, ◌∙◌, false, not, ◌&&◌, some, List, [], ◌∷◌, ◌++◌,
  append_assoc, arith, ◌==◌, length, get_elem?, set, take, drop, length-append, take_left,
  drop_left,
}
use mathlib.Core.Path.{ap₂}
use guacenc.Utf8.{charsize}
use guacenc.Utf8.Sizes.{bytes}
use guacenc.Parser.{
  is_complete, too_long, parse_length, parse_content, parse_complete, Parser, append, append_length,
  after_length, append_content, after_content, by_state, store_nul, end_element, scan_length,
  scan_content, period, max_elements, max_length,
}
use guacenc.Parser.Wire.{AllChars, Element, IsElement, scan_length-digits, scan_content-chars}

-- What stands before an element's terminator.
abbrev pub head : Element → List ℕ
head e = e.digits ++ (b'.' ∷ bytes e.chars)

abbrev pub AllElements : List Element → Type 0
AllElements [] = Unit {0}
AllElements (e ∷ es) = IsElement e × AllElements es

-- The instruction `e ∷ es`, and the same with its terminators overwritten by 0.
abbrev pub wire : Element → List Element → List ℕ
wire e [] = head e ++ (b';' ∷ [])
wire e (f ∷ es) = head e ++ (b',' ∷ wire f es)

abbrev pub cut : Element → List Element → List ℕ
cut e [] = head e ++ (0 ∷ [])
cut e (f ∷ es) = head e ++ (0 ∷ cut f es)

-- The array of element pointers once the instruction is parsed from offset `at` on.
abbrev pub pointers : List ℕ → ℕ → ℕ → Element → List Element → List ℕ
pointers v n at e [] = set v n (at + (length e.digits + 1))
pointers v n at e (f ∷ es) =
    pointers (set v n (at + (length e.digits + 1))) (n + 1) (at + (length (head e) + 1)) f es

-- The parser behind the content of an element at offset `at`.
abbrev pub pointed : Parser → ℕ → Element → Parser
pointed p at e = record p {
  state = parse_content;
  elementv = set p.elementv p.elementc (at + (length e.digits + 1));
  elementc = p.elementc + 1;
  element_length = length e.chars;
}

length-head : (e : Element) → length (head e) ≡ length e.digits + 1 + length (bytes e.chars)
length-head e = omega (arith, length-append e.digits (b'.' ∷ bytes e.chars))

length-le-bytes : (cs : List (ℕ × List ℕ)) → length cs ≤ length (bytes cs)
length-le-bytes [] = omega arith
length-le-bytes ((c, tail) ∷ cs) = omega (arith, length-le-bytes cs, length-append tail (bytes cs))

behind_digits :
    (n : ℕ) (ds : List ℕ) (d : ℕ) (xs ys : List ℕ)
    → n ≡ length ds + 1
    → drop n ((ds ++ (d ∷ xs)) ++ ys) ≡ xs ++ ys
behind_digits zero ds d xs ys e = absurd (omega arith)
behind_digits (suc zero) [] d xs ys e = refl
behind_digits (suc (suc n)) [] d xs ys e = absurd (omega arith)
behind_digits (suc n) (x ∷ ds) d xs ys e = behind_digits n ds d xs ys (omega arith)

-- The content of an element, from its first byte on.
append_content-element :
    (p : Parser) (at before t : ℕ) (cs : List (ℕ × List ℕ)) (rest : List ℕ)
    → AllChars cs
    → length cs ≤ max_length
    → charsize t ≡ 1
    → p.element_length ≡ length cs
    → append_content p at before (bytes cs ++ (t ∷ rest))
      ≡ end_element p t (at + length (bytes cs)) (before + (length (bytes cs) + 1))
unfolding append_content after_content
append_content-element p at before t cs rest a m one z =
    let window = bytes cs ++ (t ∷ rest) in
    let rounds : length cs < length window =
      omega (arith, length-le-bytes cs, length-append (bytes cs) (t ∷ rest)) in
    ap (λ n. after_content p at before (scan_content (length window) window n 0)) z
    ∙ ap (after_content p at before) (scan_content-chars (length window) cs t rest 0 a m one rounds)
    ∙ ap₂ (end_element p t) (omega arith) (omega arith)

after_length-element :
    (p : Parser) (at t : ℕ) (e : Element) (rest : List ℕ)
    → IsElement e
    → charsize t ≡ 1
    → after_length p at (head e ++ (t ∷ rest)) (period (length e.chars) (length e.digits + 1))
      ≡ end_element (pointed p at e) t (at + length (head e)) (length (head e) + 1)
unfolding after_length
after_length-element p at t e rest v one =
    let fits : too_long (length e.chars) ≡ false = ground (arith, v.short) in
    rw (fits, behind_digits (length e.digits + 1) e.digits b'.' (bytes e.chars) (t ∷ rest) refl)
      (append_content-element (pointed p at e) (at + (length e.digits + 1)) (length e.digits + 1) t
          e.chars rest v.chars v.short one refl
        ∙ ap₂ (end_element (pointed p at e) t) (omega (arith, length-head e))
            (omega (arith, length-head e)))

by_state-element :
    (p : Parser) (at t : ℕ) (e : Element) (rest : List ℕ)
    → IsElement e
    → charsize t ≡ 1
    → p.element_length ≡ 0
    → by_state parse_length p at (head e ++ (t ∷ rest))
      ≡ end_element (pointed p at e) t (at + length (head e)) (length (head e) + 1)
unfolding by_state append_length
by_state-element p at t e rest v one z =
    let window = head e ++ (t ∷ rest) in
    let behind = bytes e.chars ++ (t ∷ rest) in
    let digits : scan_length window 0 0 ≡ period (length e.chars) (length e.digits + 1) =
      ap (λ l. scan_length l 0 0) (append_assoc e.digits (b'.' ∷ bytes e.chars) (t ∷ rest))
      ∙ scan_length-digits e.digits behind 0 0 v.digits (omega (arith, v.counts, v.short))
      ∙ ap₂ period v.counts (omega arith) in
    ap (λ n. after_length p at window (scan_length window n 0)) z
    ∙ ap (after_length p at window) digits
    ∙ after_length-element p at t e rest v one

pub append-element :
    (p : Parser) (pre : List ℕ) (e : Element) (t : ℕ) (rest post : List ℕ)
    → IsElement e
    → charsize t ≡ 1
    → p.state ≡ parse_length
    → p.element_length ≡ 0
    → p.elementc < max_elements
    → p.instructionbuf ≡ pre ++ ((head e ++ (t ∷ rest)) ++ post)
    → append p (length pre) (length (head e ++ (t ∷ rest)))
      ≡ end_element
          (pointed p (length pre) e)
          t
          (length pre + length (head e))
          (length (head e) + 1)
unfolding append
append-element p pre e t rest post v one s z room b =
    let visible = head e ++ (t ∷ rest) in
    let window : take (length visible) (drop (length pre) p.instructionbuf) ≡ visible =
      rw (b, drop_left pre (visible ++ post)) (take_left visible post) in
    let free : (p.elementc == max_elements && not (is_complete p.state)) ≡ false = ground arith in
    rw (free, window, s)
      (by_state-element (record p { state = parse_length }) (length pre) t e rest v one z)

-- What is left of the parser `p` when the instruction `e ∷ es` that began behind `pre` is complete.
pub record Parsed (p q : Parser) (pre : List ℕ) (e : Element) (es : List Element) (post : List ℕ)
    : Type 0 where
  pub state : q.state ≡ parse_complete
  pub opcode : q.opcode ≡ get_elem? q.elementv 0
  pub argv : q.argv ≡ some 1
  pub argc : q.argc ≡ p.elementc + length es
  pub elementc : q.elementc ≡ p.elementc + length es + 1
  pub elementv : q.elementv ≡ pointers p.elementv p.elementc (length pre) e es
  pub buffer : q.instructionbuf ≡ pre ++ (cut e es ++ post)

store_nul_middle :
    (xs ys : List ℕ) (x : ℕ) → store_nul (xs ++ (x ∷ ys)) (length xs) ≡ xs ++ (0 ∷ ys)
unfolding store_nul
store_nul_middle [] ys x = refl
store_nul_middle (b ∷ xs) ys x = ap (λ l. b ∷ l) (store_nul_middle xs ys x)

-- The terminator behind `h` overwritten.
set_terminator :
    (buffer pre h : List ℕ) (t : ℕ) (rest post : List ℕ)
    → buffer ≡ pre ++ ((h ++ (t ∷ rest)) ++ post)
    → store_nul buffer (length pre + length h) ≡ pre ++ (h ++ (0 ∷ (rest ++ post)))
set_terminator buffer pre h t rest post b =
    let regroup : buffer ≡ (pre ++ h) ++ (t ∷ (rest ++ post)) = rw b (simp append_assoc) in
    rw (regroup, ← length-append pre h)
      (store_nul_middle (pre ++ h) (rest ++ post) t ∙ append_assoc pre h _)

-- The parser behind an element that a comma ends, and behind the last one.
pub record Comma (p q : Parser) (pre : List ℕ) (e : Element) (rest : List ℕ) : Type 0 where
  pub state : q.state ≡ parse_length
  pub element_length : q.element_length ≡ 0
  pub elementc : q.elementc ≡ p.elementc + 1
  pub elementv : q.elementv ≡ set p.elementv p.elementc (length pre + (length e.digits + 1))
  pub buffer : q.instructionbuf ≡ (pre ++ (head e ++ (0 ∷ []))) ++ rest

abbrev pub ended : Parser → List ℕ → Element → ℕ → Parser
ended p pre e t =
    (end_element (pointed p (length pre) e) t (length pre + length (head e))
      (length (head e) + 1)).1

pub element-Comma :
    (p : Parser) (pre : List ℕ) (e : Element) (rest post : List ℕ)
    → p.instructionbuf ≡ pre ++ ((head e ++ (b',' ∷ rest)) ++ post)
    → Comma p (ended p pre e b',') pre e (rest ++ post)
unfolding end_element
element-Comma p pre e rest post b = record {
  state = refl;
  element_length = refl;
  elementc = refl;
  elementv = refl;
  buffer = set_terminator p.instructionbuf pre (head e) b',' rest post b ∙ simp append_assoc;
}

pub element-Parsed :
    (p : Parser) (pre : List ℕ) (e : Element) (rest post : List ℕ)
    → p.instructionbuf ≡ pre ++ ((head e ++ (b';' ∷ rest)) ++ post)
    → Parsed p (ended p pre e b';') pre e [] (rest ++ post)
unfolding end_element
element-Parsed p pre e rest post b = record {
  state = refl;
  opcode = refl;
  argv = refl;
  argc = omega arith;
  elementc = omega arith;
  elementv = refl;
  buffer = set_terminator p.instructionbuf pre (head e) b';' rest post b ∙ simp append_assoc;
}
