-- ===== src/Strings/Joining.antt =====
-- What src/libguac/string.c leaves in a buffer.
use guacenc.Base.{
  ℕ, zero, suc, ◌+◌, ◌-◌, ◌≤◌, ◌<◌, ◌≡◌, refl, sym, ap, ◌∙◌, ◌≢◌, false, List, [], ◌∷◌, ◌++◌,
  append-nil, append_assoc, arith, ◌==◌, if◌then◌else◌, length, take, drop, length-append,
  take-append-drop,
}
use mathlib.Core.Path.{subst}
use guacenc.Strings.{
  remaining, copy_length, strlcpy, strnlen, at_offset, strlcat, add_string, join_loop, strljoin,
}

-- The first `n` bytes of a destination after a string was put there, with what fits and a NUL.
abbrev put : List ℕ → List ℕ → ℕ → List ℕ
put dest s zero = dest
put dest [] (suc n) = 0 ∷ drop 1 dest
put dest (c ∷ s) (suc zero) = 0 ∷ drop 1 dest
put dest (c ∷ s) (suc (suc n)) = c ∷ put (drop 1 dest) s (suc n)

drop_one : {A : Type 0} (k : ℕ) (xs : List A) → drop k (drop 1 xs) ≡ drop (suc k) xs
drop_one zero [] = refl
drop_one (suc k) [] = refl
drop_one k (x ∷ xs) = refl

-- The steps of the copy, for the length that is copied.
copied :
    (dest s : List ℕ) (n k : ℕ)
    → k ≡ copy_length (length s) (suc n)
    → take k s ++ (0 ∷ drop (suc k) dest) ≡ put dest s (suc n)
unfolding copy_length
copied dest [] n k h =
    let e : k ≡ 0 = ground (arith, h) in
    subst (λ j. take j [] ++ (0 ∷ drop (suc j) dest) ≡ 0 ∷ drop 1 dest) (sym e) refl
copied dest (c ∷ s) zero k h =
    let e : k ≡ 0 = ground (arith, h) in
    subst (λ j. take j (c ∷ s) ++ (0 ∷ drop (suc j) dest) ≡ 0 ∷ drop 1 dest) (sym e) refl
copied dest (c ∷ s) (suc n) k h =
    let j = copy_length (length s) (suc n) in
    let e : k ≡ suc j = ground (arith, h) in
    subst (λ i. take i (c ∷ s) ++ (0 ∷ drop (suc i) dest) ≡ c ∷ put (drop 1 dest) s (suc n)) (sym e)
      (ap (λ d. c ∷ d)
        (ap (λ d. take j s ++ (0 ∷ d)) (sym (drop_one (suc j) dest))
          ∙ copied (drop 1 dest) s n j refl))

strlcpy-put : (dest s : List ℕ) (n : ℕ) → strlcpy dest s n ≡ (length s, put dest s n)
unfolding strlcpy
strlcpy-put dest s zero = refl
strlcpy-put dest s (suc n) =
    let j = copy_length (length s) (suc n) in
    let e : (suc n == 0) ≡ false = ground arith in
    ap (λ b. if b then (length s, dest) else (length s, take j s ++ (0 ∷ drop (suc j) dest))) e
    ∙ ap (λ d. (length s, d)) (copied dest s n j refl)

remaining_sub : (n w : ℕ) → remaining n w ≡ n - w
unfolding remaining
remaining_sub n w = ground arith

-- Behind the string there is a NUL, where there is room.
strnlen-put :
    (dest s : List ℕ) (n m : ℕ) → m ≡ n - length s → strnlen (drop (length s) (put dest s n)) m ≡ 0
unfolding strnlen
strnlen-put dest s zero m h =
    let e : m ≡ 0 = omega (arith, h) in
    subst (λ k. strnlen (drop (length s) dest) k ≡ 0) (sym e) refl
strnlen-put dest [] (suc n) zero h = refl
strnlen-put dest [] (suc n) (suc m) h = refl
strnlen-put dest (c ∷ s) (suc zero) m h =
    let e : m ≡ 0 = omega (arith, h) in
    subst (λ k. strnlen (drop (length s) (drop 1 dest)) k ≡ 0) (sym e) refl
strnlen-put dest (c ∷ s) (suc (suc n)) m h =
    strnlen-put (drop 1 dest) s (suc n) m (omega (arith, h))

put_twice : (dest t : List ℕ) (n : ℕ) → put (put dest [] n) t n ≡ put dest t n
put_twice dest t zero = refl
put_twice dest [] (suc n) = refl
put_twice dest (c ∷ t) (suc zero) = refl
put_twice dest (c ∷ t) (suc (suc n)) = refl

-- Putting another string behind the first is putting both at once.
put_behind :
    (dest s t : List ℕ) (n m : ℕ)
    → m ≡ n - length s
    → take (length s) (put dest s n) ++ put (drop (length s) (put dest s n)) t m
      ≡ put dest (s ++ t) n
put_behind dest [] t n m h =
    let e : m ≡ n = omega (arith, h) in ap (λ k. put (put dest [] n) t k) e ∙ put_twice dest t n
put_behind dest (c ∷ s) t zero m h =
    let e : m ≡ 0 = omega (arith, h) in
    let d = drop (suc (length s)) dest in
    ap (λ k. take (suc (length s)) dest ++ put d t k) e ∙ take-append-drop (suc (length s)) dest
put_behind dest (c ∷ s) t (suc zero) m h =
    let e : m ≡ 0 = omega (arith, h) in
    let d = 0 ∷ drop 1 dest in
    let n = suc (length s) in ap (λ k. take n d ++ put (drop n d) t k) e ∙ take-append-drop n d
put_behind dest (c ∷ s) t (suc (suc n)) m h =
    ap (λ d. c ∷ d) (put_behind (drop 1 dest) s t (suc n) m (omega (arith, h)))

-- The destination after a string and its length.
abbrev after : List ℕ → ℕ → List ℕ → ℕ × List ℕ
after dest n s = (length s, put dest s n)

strlcat-end : (d t : List ℕ) (m : ℕ) → strnlen d m ≡ 0 → strlcat d t m ≡ (length t, put d t m)
unfolding strlcat at_offset
strlcat-end d t m h =
    let e : remaining m 0 ≡ m = remaining_sub m 0 ∙ omega arith in
    ap (λ w. at_offset d w (strlcpy (drop w d) t (remaining m w))) h
    ∙ ap (λ k. at_offset d 0 (strlcpy d t k)) e
    ∙ ap (λ x. at_offset d 0 x) (strlcpy-put d t m)
    ∙ ap (λ k. (k, put d t m)) (omega arith)

add_string_lem :
    (dest s t : List ℕ) (n : ℕ) → add_string n t (after dest n s) ≡ after dest n (s ++ t)
unfolding add_string at_offset
add_string_lem dest s t n =
    let k = length s in
    let d = put dest s n in
    let m = remaining n k in
    ap (λ x. at_offset d k x)
      (strlcat-end (drop k d) t m (strnlen-put dest s n m (remaining_sub n k)))
    ∙ ap (λ x. (k + length t, x)) (put_behind dest s t n m (remaining_sub n k))
    ∙ ap (λ x. (x, put dest (s ++ t) n)) (sym (length-append s t))

-- The elements with the delimiter between them.
abbrev pub tail_of : List ℕ → List (List ℕ) → List ℕ
tail_of delim [] = []
tail_of delim (element ∷ elements) = delim ++ (element ++ tail_of delim elements)

abbrev pub join : List ℕ → List (List ℕ) → List ℕ
join delim [] = []
join delim (element ∷ elements) = element ++ tail_of delim elements

join_loop_lem :
    (dest delim s : List ℕ) (elements : List (List ℕ)) (n : ℕ)
    → join_loop delim n elements (after dest n s) ≡ after dest n (s ++ tail_of delim elements)
unfolding join_loop
join_loop_lem dest delim s [] n = ap (λ x. after dest n x) (sym (append-nil s))
join_loop_lem dest delim s (e ∷ es) n =
    ap (λ x. join_loop delim n es (add_string n e x)) (add_string_lem dest s delim n)
    ∙ ap (λ x. join_loop delim n es x) (add_string_lem dest (s ++ delim) e n)
    ∙ join_loop_lem dest delim ((s ++ delim) ++ e) es n
    ∙ ap (λ x. after dest n x)
        (append_assoc (s ++ delim) e (tail_of delim es)
          ∙ append_assoc s delim (e ++ tail_of delim es))

-- Joining strings in a buffer is one copy of the joined string, for a buffer of any size: the same
-- length is returned, also where the buffer is too small, and the same bytes are left.
pub strljoin-strlcpy :
    (dest delim : List ℕ) (elements : List (List ℕ)) (n : ℕ)
    → strljoin dest elements delim n ≡ strlcpy dest (join delim elements) n
unfolding strljoin
strljoin-strlcpy dest delim [] n = refl
strljoin-strlcpy dest delim (e ∷ es) n =
    ap (λ x. join_loop delim n es x) (strlcpy-put dest e n)
    ∙ join_loop_lem dest delim e es n
    ∙ sym (strlcpy-put dest (e ++ tail_of delim es) n)

-- The C string at the start of an array.
abbrev pub c_string : List ℕ → List ℕ
c_string d = take (strnlen d (length d)) d

-- A string without a certain byte.
abbrev pub Without : ℕ → List ℕ → Type 0
Without byte [] = Unit
Without byte (c ∷ s) = (c ≢ byte) × Without byte s

-- What a copy of up to `n` bytes leaves.
abbrev pub IsCopied : List ℕ → List ℕ → ℕ → List ℕ → Type 0
IsCopied dest src n d =
    (c_string d ≡ take (n - 1) src) × ((length d ≡ length dest) × (drop n d ≡ drop n dest))

c_string-cons : (c : ℕ) (d s : List ℕ) → c ≢ 0 → c_string d ≡ s → c_string (c ∷ d) ≡ c ∷ s
unfolding strnlen
c_string-cons c d s h k =
    let e : (c == 0) ≡ false = ground (arith, h) in
    ap (λ b. take (if b then 0 else suc (strnlen d (length d))) (c ∷ d)) e ∙ ap (λ x. c ∷ x) k

put-string :
    (dest s : List ℕ) (n : ℕ)
    → Without 0 s
    → suc n ≤ length dest
    → c_string (put dest s (suc n)) ≡ take n s
unfolding strnlen
put-string dest [] zero h k = refl
put-string dest [] (suc n) h k = refl
put-string dest (c ∷ s) zero h k = refl
put-string (b ∷ dest) (c ∷ s) (suc n) h k =
    c_string-cons c (put dest s (suc n)) (take n s) h.0 (put-string dest s n h.1 (omega (arith, k)))
put-string [] (c ∷ s) (suc n) h k = absurd (omega (arith, k))

put-kept :
    (dest s : List ℕ) (n : ℕ)
    → n ≤ length dest
    → (length (put dest s n) ≡ length dest) × (drop n (put dest s n) ≡ drop n dest)
put-kept dest s zero k = (refl, refl)
put-kept (b ∷ dest) [] (suc n) k = (refl, refl)
put-kept (b ∷ dest) (c ∷ s) (suc zero) k = (refl, refl)
put-kept (b ∷ dest) (c ∷ s) (suc (suc n)) k =
    let r = put-kept dest s (suc n) (omega (arith, k)) in (ap suc r.0, r.1)
put-kept [] [] (suc n) k = absurd (omega (arith, k))
put-kept [] (c ∷ s) (suc zero) k = absurd (omega (arith, k))
put-kept [] (c ∷ s) (suc (suc n)) k = absurd (omega (arith, k))

-- For a buffer of at least `n` bytes and `n` at least 1, the array holds as much of the string as fits in `n - 1`
-- bytes and a NUL behind it, no byte from the `n`-th on is written, and the length of the whole string is returned.
pub strlcpy_lem :
    (dest src : List ℕ) (n : ℕ)
    → Without 0 src
    → 0 < n
    → n ≤ length dest
    → IsCopied dest src n (strlcpy dest src n).1 × ((strlcpy dest src n).0 ≡ length src)
strlcpy_lem dest src zero h k m = absurd (omega (arith, k))
strlcpy_lem dest src (suc n) h k m =
    subst (λ o. IsCopied dest src (suc n) o.1 × (o.0 ≡ length src))
      (sym (strlcpy-put dest src (suc n)))
      (
        (
          put-string dest src n h m ∙ ap (λ j. take j src) (omega arith),
          put-kept dest src (suc n) m,
        ),
        refl,
      )
