-- ===== src/Strings.antt =====
-- Strings in buffers of a fixed size: src/libguac/string.c, as it is where the C library has no strlcpy;
-- and src/common/string.c. A destination is the list of the bytes from the pointer to the end of the
-- array, and a string the list of its bytes without the NUL.
pub mod Joining
pub mod Splitting
use guacenc.Base.{
  ℕ, zero, suc, ◌+◌, ◌-◌, ◌*◌, ◌/◌, ◌%◌, ◌^◌, ◌≤◌, ◌<◌, min, ◌≡◌, refl, sym, ap, ◌∙◌, ◌≢◌, ◌↔◌, ◌⊎◌,
  inl, inr, Bool, true, false, not, ◌&&◌, ◌||◌, Option, none, some, List, [], ◌∷◌, ◌++◌, map,
  append-nil, append_assoc, arith, ltb, leb, ◌==◌, if◌then◌else◌, Bool-cases, Option-cases, tests,
  ltb→lt, lt→ltb, leb→le, ==_iff, length, get_elem?, set, get_or, take, drop, replicate,
  length-append, length-set, length-take, length-drop, length-replicate, length-map,
  get_elem?-set_self, get_elem?-set_ne, take-append-drop, take_left, drop_left, set_middle,
  get_elem?-none,
}

-- `REMAINING(n, length)`
unfoldable pub remaining : ℕ → ℕ → ℕ
remaining n written = if ltb n written then 0 else n - written

-- `copy_length` in `guac_strlcpy`.
unfoldable pub copy_length : ℕ → ℕ → ℕ
copy_length written n = if leb n written then n - 1 else written

-- `guac_strlcpy`: what it returns, and the destination after it.
unfoldable pub strlcpy : List ℕ → List ℕ → ℕ → ℕ × List ℕ
unfolding copy_length
strlcpy dest src n =
    let k = copy_length (length src) n in
    if n == 0 then (length src, dest) else (length src, take k src ++ (0 ∷ drop (suc k) dest))

-- `strnlen`
unfoldable pub strnlen : List ℕ → ℕ → ℕ
strnlen s zero = 0
strnlen [] (suc n) = 0
strnlen (c ∷ s) (suc n) = if c == 0 then 0 else suc (strnlen s n)

-- A call on `dest + offset`: the bytes before it stay.
unfoldable pub at_offset : List ℕ → ℕ → ℕ × List ℕ → ℕ × List ℕ
at_offset dest offset (count, rest) = (offset + count, take offset dest ++ rest)

-- `guac_strlcat`
unfoldable pub strlcat : List ℕ → List ℕ → ℕ → ℕ × List ℕ
unfolding strlcpy strnlen remaining at_offset
strlcat dest src n =
    let written = strnlen dest n in
    at_offset dest written (strlcpy (drop written dest) src (remaining n written))

-- `length += guac_strlcat(dest + length, src, REMAINING(n, length))`
unfoldable pub add_string : ℕ → List ℕ → ℕ × List ℕ → ℕ × List ℕ
unfolding strlcat remaining at_offset
add_string n src (written, dest) =
    at_offset dest written (strlcat (drop written dest) src (remaining n written))

-- The loop of `guac_strljoin` over the elements after the first.
unfoldable pub join_loop : List ℕ → ℕ → List (List ℕ) → ℕ × List ℕ → ℕ × List ℕ
unfolding add_string
join_loop delim n [] state = state
join_loop delim n (element ∷ elements) state =
    join_loop delim n elements (add_string n element (add_string n delim state))

-- `guac_strljoin`, of as many elements as the list has.
unfoldable pub strljoin : List ℕ → List (List ℕ) → List ℕ → ℕ → ℕ × List ℕ
unfolding strlcpy join_loop
strljoin dest [] delim n = strlcpy dest [] n
strljoin dest (element ∷ elements) delim n = join_loop delim n elements (strlcpy dest element n)

-- `guac_count_occurrences`
unfoldable pub count_occurrences : List ℕ → ℕ → ℕ
count_occurrences [] c = 0
count_occurrences (byte ∷ string) c =
    let rest = count_occurrences string c in if byte == c then suc rest else rest

-- The inner loop of `guac_split`: the token, and the string from the delimiter or the NUL on.
unfoldable pub token : ℕ → List ℕ → List ℕ × List ℕ
token delim [] = ([], [])
token delim (byte ∷ string) =
    let (rest, end) = token delim string in
    if byte == delim then ([], byte ∷ string) else (byte ∷ rest, end)

-- The outer loop, of at most as many rounds as there is space for tokens.
unfoldable pub split_loop : ℕ → ℕ → List ℕ → List (List ℕ)
unfolding token
split_loop delim zero string = []
split_loop delim (suc space) string =
    let (first, end) = token delim string in
    elim end [ [] ↦ first ∷ [] | c ∷ rest ↦ first ∷ split_loop delim space rest ]

-- `guac_split`: the tokens before the NULL.
unfoldable pub split : List ℕ → ℕ → List (List ℕ)
unfolding count_occurrences split_loop
split string delim = split_loop delim (count_occurrences string delim + 1) string
