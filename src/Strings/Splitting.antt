-- ===== src/Strings/Splitting.antt =====
-- The tokens of src/common/string.c.
use guacenc.Base.{
  ℕ, zero, suc, ◌+◌, ◌<◌, ◌≡◌, refl, sym, ap, ◌∙◌, ◌≢◌, true, false, List, [], ◌∷◌, ◌++◌,
  append-nil, arith, ◌==◌, if◌then◌else◌, length, drop,
}
use mathlib.Core.Path.{subst}
use guacenc.Base.Tests.{branches}
use guacenc.Strings.{count_occurrences, token, split_loop, split}
use guacenc.Strings.Joining.{Without, join, tail_of}

-- No token holds the delimiter.
abbrev pub AllWithout : ℕ → List (List ℕ) → Type 0
AllWithout delim [] = Unit
AllWithout delim (s ∷ ss) = Without delim s × AllWithout delim ss

-- What a token and the string behind it are.
abbrev IsToken : ℕ → List ℕ → List ℕ × List ℕ → Type 0
IsToken delim string (first, []) =
    (string ≡ first) × (Without delim first × (count_occurrences string delim ≡ 0))
IsToken delim string (first, c ∷ rest) =
    (string ≡ first ++ (delim ∷ rest))
    × (Without delim first × (count_occurrences string delim ≡ suc (count_occurrences rest delim)))

count_hit :
    (delim byte : ℕ) (s : List ℕ)
    → (byte == delim) ≡ true
    → count_occurrences (byte ∷ s) delim ≡ suc (count_occurrences s delim)
unfolding count_occurrences
count_hit delim byte s h =
    ap (λ b. if b then suc (count_occurrences s delim) else count_occurrences s delim) h

count_miss :
    (delim byte : ℕ) (s : List ℕ)
    → (byte == delim) ≡ false
    → count_occurrences (byte ∷ s) delim ≡ count_occurrences s delim
unfolding count_occurrences
count_miss delim byte s h =
    ap (λ b. if b then suc (count_occurrences s delim) else count_occurrences s delim) h

different : (byte delim : ℕ) → (byte == delim) ≡ false → byte ≢ delim
different byte delim h = ground (arith, h)

same : (byte delim : ℕ) → (byte == delim) ≡ true → byte ≡ delim
same byte delim h = ground (arith, h)

longer :
    (delim byte : ℕ) (string first end : List ℕ)
    → (byte == delim) ≡ false
    → IsToken delim string (first, end)
    → IsToken delim (byte ∷ string) (byte ∷ first, end)
longer delim byte string first [] a (e, (w, n)) =
    (ap (λ s. byte ∷ s) e, ((different byte delim a, w), count_miss delim byte string a ∙ n))
longer delim byte string first (c ∷ rest) a (e, (w, n)) =
    (ap (λ s. byte ∷ s) e, ((different byte delim a, w), count_miss delim byte string a ∙ n))

count_none : (delim : ℕ) → count_occurrences [] delim ≡ 0
unfolding count_occurrences
count_none delim = refl

token-IsToken : (delim : ℕ) (string : List ℕ) → IsToken delim string (token delim string)
unfolding token
token-IsToken delim [] = (refl, (tt, count_none delim))
token-IsToken delim (byte ∷ string) =
    let o = token delim string in
    branches (IsToken delim (byte ∷ string)) (byte == delim)
      (λ a. (ap (λ b. b ∷ string) (same byte delim a), (tt, count_hit delim byte string a)))
      (λ a. longer delim byte string o.0 o.1 a (token-IsToken delim string))

-- What the tokens are: with the delimiter between them they are the string, none holds the delimiter,
-- and there is one more of them than delimiters.
abbrev IsSplit : ℕ → List ℕ → List (List ℕ) → Type 0
IsSplit delim string tokens =
    (tail_of (delim ∷ []) tokens ≡ delim ∷ string)
    × (AllWithout delim tokens × (length tokens ≡ suc (count_occurrences string delim)))

first_token :
    (delim : ℕ) (string first end : List ℕ) (rest : List ℕ → List (List ℕ))
    → IsToken delim string (first, end)
    → ((c : ℕ) (s : List ℕ) → end ≡ c ∷ s → IsSplit delim s (rest s))
    → IsSplit delim string (elim end [ [] ↦ first ∷ [] | c ∷ s ↦ first ∷ rest s ])
first_token delim string first [] rest (e, (w, n)) h =
    (ap (λ s. delim ∷ s) (append-nil first ∙ sym e), ((w, tt), ap suc (sym n)))
first_token delim string first (c ∷ s) rest (e, (w, n)) h =
    let r = h c s refl in
    (ap (λ x. delim ∷ x) (ap (λ x. first ++ x) r.0 ∙ sym e), ((w, r.1.0), ap suc (r.1.1 ∙ sym n)))

fewer :
    (delim : ℕ) (string s : List ℕ) (o : List ℕ × List ℕ) (c space : ℕ)
    → o.1 ≡ c ∷ s
    → IsToken delim string o
    → count_occurrences string delim < suc space
    → count_occurrences s delim < space
fewer delim string s (first, end) c space e t h =
    let k = (subst (λ x. IsToken delim string (first, x)) e t).1.1 in omega (arith, h, k)

-- With enough rounds.
split_loop-IsSplit :
    (delim space : ℕ) (string : List ℕ)
    → count_occurrences string delim < space
    → IsSplit delim string (split_loop delim space string)
unfolding split_loop
split_loop-IsSplit delim zero string h = absurd (omega (arith, h))
split_loop-IsSplit delim (suc space) string h =
    let o = token delim string in
    let t = token-IsToken delim string in
    first_token delim string o.0 o.1 (split_loop delim space) t
      (λ c s e. split_loop-IsSplit delim space s (fewer delim string s o c space e t h))

join-tail :
    (delim : ℕ) (tokens : List (List ℕ))
    → join (delim ∷ []) tokens ≡ drop 1 (tail_of (delim ∷ []) tokens)
join-tail delim [] = refl
join-tail delim (x ∷ xs) = refl

-- The tokens of a string, joined with the delimiter, are the string; no token holds the delimiter; and there is one token
-- more than the string has delimiters, which is what the array has space for.
pub join-split :
    (string : List ℕ) (delim : ℕ)
    → (join (delim ∷ []) (split string delim) ≡ string)
      × (AllWithout delim (split string delim)
          × (length (split string delim) ≡ suc (count_occurrences string delim)))
unfolding split
join-split string delim =
    let space = count_occurrences string delim + 1 in
    let r = split_loop-IsSplit delim space string (omega arith) in
    (join-tail delim (split_loop delim space string) ∙ ap (λ x. drop 1 x) r.0, r.1)
