-- ===== src/Parser/Bounds.antt =====
-- `guac_parser_append` stays inside the buffer and the array of elements.
use guacenc.Base.{
  ◌≢◌, get_elem?, ◌∙◌, ◌⊎◌, Option, ap, ℕ, zero, suc, ◌+◌, ◌≤◌, ◌<◌, ◌≡◌, refl, false, List, [],
  ◌∷◌, arith, length, take, drop, set, length-set, length-take, length-drop, Bool-cases, not, ◌&&◌,
  ◌==◌, inl, inr,
}
use guacenc.Parser.{
  is_complete, fail, too_long, scan_content, State, parse_length, parse_content, parse_complete,
  parse_error, Parser, Appended, store_nul, more, period, bad, pause, terminator, LengthScan,
  ContentScan, end_element, after_content, after_length, append_content, append_length, by_state,
  append, max_elements,
}
use guacenc.Parser.Scans.{LengthWithin, ContentWithin, scan_length-Within, scan_content-Within}

-- The first `n` element pointers point between two offsets.
abbrev pub InRange : ℕ → ℕ → ℕ → List ℕ → Type 0
InRange lo hi zero es = Unit
InRange lo hi (suc n) [] = Unit
InRange lo hi (suc n) (e ∷ es) = (lo ≤ e) × (e ≤ hi) × InRange lo hi n es

pub InRange-set :
    (lo hi n m v : ℕ) (es : List ℕ)
    → m ≡ n + 1
    → lo ≤ v
    → v ≤ hi
    → InRange lo hi n es
    → InRange lo hi m (set es n v)
InRange-set lo hi n zero v es e p q h = tt
InRange-set lo hi n (suc m) v [] e p q h = tt
InRange-set lo hi zero (suc zero) v (x ∷ es) e p q h = (p, q, tt)
InRange-set lo hi zero (suc (suc m)) v (x ∷ es) e p q h = absurd (omega arith)
InRange-set lo hi (suc n) (suc m) v (x ∷ es) e p q h =
    (h.0, h.1, InRange-set lo hi n m v es (omega arith) p q h.2)

pub length-store_nul :
    (xs : List ℕ) (at : ℕ) → at < length xs → length (store_nul xs at) ≡ length xs
unfolding store_nul
length-store_nul [] at h = absurd (omega (arith, h))
length-store_nul (x ∷ xs) zero h = refl
length-store_nul (x ∷ xs) (suc at) h = ap suc (length-store_nul xs at (omega (arith, h)))

-- The opcode of a complete instruction is the pointer of its first element.
abbrev pub HasOpcode : State → Option ℕ → List ℕ → Type 0
HasOpcode parse_complete opcode es = opcode ≡ get_elem? es 0
HasOpcode _ opcode es = Unit

abbrev pub IsNamed : Parser → Type 0
IsNamed p = HasOpcode p.state p.opcode p.elementv

-- What a call at the `size` bytes from `at` does to the parser `p`, whose element pointers, as the new
-- one, lie between `lo` and `hi`. Since a store behind the end of the buffer makes it longer, `buffer`
-- says that the NUL is stored inside. A new pointer is stored at `p.elementc`, and `added` that this is
-- below 128.
pub record IsSafe (lo hi : ℕ) (p : Parser) (size : ℕ) (r : Appended) : Type 0 where
  pub consumed : r.0 ≤ size
  pub buffer : length r.1.instructionbuf ≡ length p.instructionbuf
  pub vector : length r.1.elementv ≡ length p.elementv
  pub added :
      ((r.1.elementv ≡ p.elementv) × (r.1.elementc ≡ p.elementc))
      ⊎ ((v : ℕ) × (lo ≤ v)
          × (v ≤ hi)
          × (p.elementc < max_elements)
          × (r.1.elementv ≡ set p.elementv p.elementc v)
          × (r.1.elementc ≡ p.elementc + 1))
  pub count : r.1.elementc ≤ max_elements
  pub elements : InRange lo hi r.1.elementc r.1.elementv
  pub named : IsNamed r.1
  pub progress : (0 < r.0) ⊎ ((is_complete r.1.state ≡ false) ⊎ (p.state ≡ parse_complete))
  pub start : r.1.unparsed_start ≡ p.unparsed_start
  pub stop : r.1.unparsed_end ≡ p.unparsed_end

module _ (lo hi : ℕ) where
  end_element-IsSafe :
      (p : Parser) (c at used size : ℕ)
      → 0 < used
      → used ≤ size
      → at < length p.instructionbuf
      → p.elementc ≤ max_elements
      → InRange lo hi p.elementc p.elementv
      → IsSafe lo hi p size (end_element p c at used)
  unfolding end_element
  end_element-IsSafe p c at used size m u b k h =
      let kept = length-store_nul p.instructionbuf at b in
      elim (Bool-cases (c == b';')) [
        | inl semicolon ↦ rw semicolon (record {
          consumed = u;
          buffer = kept;
          vector = refl;
          added = inl (refl, refl);
          count = k;
          elements = h;
          named = refl;
          progress = inl m;
          start = refl;
          stop = refl;
        })
        | inr other ↦ elim (Bool-cases (c == b',')) [
          | inl comma ↦
              rw (other, comma)
                (record {
                  consumed = u;
                  buffer = kept;
                  vector = refl;
                  added = inl (refl, refl);
                  count = k;
                  elements = h;
                  named = tt;
                  progress = inl m;
                  start = refl;
                  stop = refl;
                })
          | inr neither ↦
              rw (other, neither)
                (record {
                  consumed = omega arith;
                  buffer = kept;
                  vector = refl;
                  added = inl (refl, refl);
                  count = k;
                  elements = h;
                  named = tt;
                  progress = inr (inl refl);
                  start = refl;
                  stop = refl;
                })
        ]
      ]

  after_content-IsSafe :
      (p : Parser) (at before n size : ℕ) (r : ContentScan)
      → before + n ≤ size
      → at + n ≤ length p.instructionbuf
      → p.state ≡ parse_content
      → p.elementc ≤ max_elements
      → InRange lo hi p.elementc p.elementv
      → ContentWithin 0 n r
      → IsSafe lo hi p size (after_content p at before r)
  unfolding after_content
  after_content-IsSafe p at before n size (pause v used) u b q k h w = record {
    consumed = omega (arith, w, u);
    buffer = refl;
    vector = refl;
    added = inl (refl, refl);
    count = k;
    elements = h;
    named = rw q tt;
    progress = inr (inl (rw q refl));
    start = refl;
    stop = refl;
  }
  after_content-IsSafe p at before n size (terminator c offset used) u b q k h w =
      end_element-IsSafe p c (at + offset) (before + used) size (omega (arith, w))
        (omega (arith, w, u)) (omega (arith, w, b)) k h

  append_content-IsSafe :
      (p : Parser) (at before size : ℕ) (window : List ℕ)
      → before + length window ≤ size
      → at + length window ≤ length p.instructionbuf
      → p.state ≡ parse_content
      → p.elementc ≤ max_elements
      → InRange lo hi p.elementc p.elementv
      → IsSafe lo hi p size (append_content p at before window)
  unfolding append_content
  append_content-IsSafe p at before size window u b q k h =
      after_content-IsSafe p at before (length window) size _ u b q k h
        (scan_content-Within (length window) window p.element_length 0)

  -- A call that first stores a pointer, by what it does from there.
  stored-IsSafe :
      (p : Parser) (value v size : ℕ) (r : Appended)
      → lo ≤ v
      → v ≤ hi
      → p.elementc < max_elements
      → IsSafe lo hi
          (record p {
            state = parse_content;
            elementv = set p.elementv p.elementc v;
            elementc = p.elementc + 1;
            element_length = value;
          })
          size
          r
      → r.1.elementc ≡ p.elementc + 1
      → r.1.elementv ≡ set p.elementv p.elementc v
      → IsSafe lo hi p size r
  stored-IsSafe p value v size r l u k s count same = record {
    consumed = s.consumed;
    buffer = s.buffer;
    vector = s.vector ∙ length-set p.elementv p.elementc v;
    added = inr (v, l, u, k, same, count);
    count = s.count;
    elements = s.elements;
    named = s.named;
    progress = elim s.progress [
      | inl more_read ↦ inl more_read
      | inr rest ↦ elim rest [ inl open_state ↦ inr (inl open_state) | inr e ↦ absurd (content e) ]
    ];
    start = s.start;
    stop = s.stop;
  }
    where
      content : parse_content ≢ parse_complete
      content e = cc

  end_element-keeps :
      (p : Parser) (c at used : ℕ)
      → ((end_element p c at used).1.elementc ≡ p.elementc)
        × ((end_element p c at used).1.elementv ≡ p.elementv)
  unfolding end_element
  end_element-keeps p c at used = elim (Bool-cases (c == b';')) [
    | inl semicolon ↦ rw semicolon (refl, refl)
    | inr other ↦ elim (Bool-cases (c == b',')) [
      | inl comma ↦ rw (other, comma) (refl, refl)
      | inr neither ↦ rw (other, neither) (refl, refl)
    ]
  ]

  after_content-keeps :
      (p : Parser) (at before : ℕ) (r : ContentScan)
      → ((after_content p at before r).1.elementc ≡ p.elementc)
        × ((after_content p at before r).1.elementv ≡ p.elementv)
  unfolding after_content
  after_content-keeps p at before (pause v used) = (refl, refl)
  after_content-keeps p at before (terminator c offset used) =
      end_element-keeps p c (at + offset) (before + used)

  -- A call that takes no bytes and leaves the arrays.
  failed-IsSafe :
      (p : Parser) (size : ℕ)
      → p.elementc ≤ max_elements
      → InRange lo hi p.elementc p.elementv
      → IsSafe lo hi p size (fail p)
  failed-IsSafe p size k h = record {
    consumed = omega arith;
    buffer = refl;
    vector = refl;
    added = inl (refl, refl);
    count = k;
    elements = h;
    named = tt;
    progress = inr (inl refl);
    start = refl;
    stop = refl;
  }

  unchanged-IsSafe :
      (p : Parser) (size : ℕ)
      → p.elementc ≤ max_elements
      → InRange lo hi p.elementc p.elementv
      → IsNamed p
      → (is_complete p.state ≡ false) ⊎ (p.state ≡ parse_complete)
      → IsSafe lo hi p size (0, p)
  unchanged-IsSafe p size k h n e = record {
    consumed = omega arith;
    buffer = refl;
    vector = refl;
    added = inl (refl, refl);
    count = k;
    elements = h;
    named = n;
    progress = inr e;
    start = refl;
    stop = refl;
  }

  after_length-IsSafe :
      (p : Parser) (at : ℕ) (window : List ℕ) (r : LengthScan)
      → lo ≤ at
      → at + length window ≤ hi
      → at + length window ≤ length p.instructionbuf
      → p.state ≡ parse_length
      → p.elementc < max_elements
      → InRange lo hi p.elementc p.elementv
      → LengthWithin 0 (length window) r
      → IsSafe lo hi p (length window) (after_length p at window r)
  unfolding after_length append_content
  after_length-IsSafe p at window bad l u b q k h w =
      failed-IsSafe p (length window) (omega (arith, k)) h
  after_length-IsSafe p at window (more v) l u b q k h w = elim (Bool-cases (too_long v)) [
    | inl long ↦ rw long (failed-IsSafe p (length window) (omega (arith, k)) h)
    | inr short ↦ rw short (record {
      consumed = omega arith;
      buffer = refl;
      vector = refl;
      added = inl (refl, refl);
      count = omega (arith, k);
      elements = h;
      named = rw q tt;
      progress = inr (inl (rw q refl));
      start = refl;
      stop = refl;
    })
  ]
  after_length-IsSafe p at window (period v used) l u b q k h w =
      let v' = at + used in
      let inside : (lo ≤ v') × (v' ≤ hi) = (omega (arith, l), omega (arith, u, w)) in
      let es =
        InRange-set lo hi p.elementc (p.elementc + 1) v' p.elementv refl inside.0 inside.1 h in
      let p' : Parser = record p {
        state = parse_content;
        elementv = set p.elementv p.elementc v';
        elementc = p.elementc + 1;
      } in
      elim (Bool-cases (too_long v)) [
        | inl long ↦ rw long (record {
          consumed = omega arith;
          buffer = refl;
          vector = length-set p.elementv p.elementc v';
          added = inr (v', inside.0, inside.1, k, refl, refl);
          count = omega (arith, k);
          elements = es;
          named = tt;
          progress = inr (inl refl);
          start = refl;
          stop = refl;
        })
        | inr short ↦
            let p'' : Parser = record p' { element_length = v } in
            let rest = drop used window in
            let scan = scan_content (length rest) rest v 0 in
            let fits = length-drop used window in
            let keeps = after_content-keeps p'' v' used scan in
            rw short (
              stored-IsSafe p v v' (length window) (after_content p'' v' used scan) inside.0
                inside.1 k
                (append_content-IsSafe p'' v' used (length window) rest (omega (arith, fits, w))
                  (omega (arith, fits, w, b)) refl (omega (arith, k)) es)
                keeps.0 keeps.1)
      ]

  by_state-IsSafe :
      (q : State) (p : Parser) (at : ℕ) (window : List ℕ)
      → p.state ≡ q
      → lo ≤ at
      → at + length window ≤ hi
      → at + length window ≤ length p.instructionbuf
      → (q ≡ parse_length → p.elementc < max_elements)
      → p.elementc ≤ max_elements
      → InRange lo hi p.elementc p.elementv
      → IsNamed p
      → IsSafe lo hi p (length window) (by_state q p at window)
  unfolding by_state append_length
  by_state-IsSafe parse_length p at window e l u b m k h n =
      after_length-IsSafe p at window _ l u b e (m refl) h
        (scan_length-Within window p.element_length 0)
  by_state-IsSafe parse_content p at window e l u b m k h n =
      append_content-IsSafe p at 0 (length window) window (omega arith) b e k h
  by_state-IsSafe parse_complete p at window e l u b m k h n =
      unchanged-IsSafe p (length window) k h n (inr e)
  by_state-IsSafe parse_error p at window e l u b m k h n =
      unchanged-IsSafe p (length window) k h n (inl (rw e refl))

  -- At bytes inside the buffer, from `at` on, which lie between `lo` and `hi`, a call of
  -- `guac_parser_append` takes at most the bytes that it is given, and its stores stay inside the
  -- buffer, whose size a store behind its end would change. Where the parser holds at most 128 element
  -- pointers, from `lo` to `hi`, both included, and the opcode of a complete instruction is the pointer
  -- of its first element, the same holds afterwards; at most one pointer is stored, behind the others
  -- and below index 128. The bounds of the unparsed bytes are kept, and an instruction is completed only by taking
  -- a byte.
  pub append-IsSafe :
      (p : Parser) (at size : ℕ)
      → lo ≤ at
      → at + size ≤ hi
      → hi ≤ length p.instructionbuf
      → p.elementc ≤ max_elements
      → InRange lo hi p.elementc p.elementv
      → IsNamed p
      → IsSafe lo hi p size (append p at size)
  unfolding append
  append-IsSafe p at size l u b k h n =
      let window = take size (drop at p.instructionbuf) in
      let fits : length window ≡ size =
        omega
          (arith, length-take size (drop at p.instructionbuf), length-drop at p.instructionbuf) in
      elim (Bool-cases (p.elementc == max_elements && not (is_complete p.state))) [
        | inl full ↦ rw full (failed-IsSafe p size k h)
        | inr room ↦ rw room (
            rw fits at (
              by_state-IsSafe p.state p at window refl l (omega arith) (omega arith)
                (λ e. below p.state p.elementc e k room) k h n))
      ]
    where
      below :
          (q : State) (n : ℕ)
          → q ≡ parse_length
          → n ≤ max_elements
          → (n == max_elements && not (is_complete q)) ≡ false
          → n < max_elements
      below q n e le room = ground arith
