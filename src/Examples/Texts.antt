-- ===== src/Examples/Texts.antt =====
-- Strings of a few bytes in small buffers.
use guacenc.Base.{ℕ, suc, ◌≡◌, refl, List, [], ◌∷◌, arith, length, replicate}
use guacenc.Strings.{
  strlcpy, strljoin, strlcat, add_string, join_loop, at_offset, strnlen, remaining, copy_length,
  split, split_loop, token, count_occurrences,
}
use guacenc.Strings.Joining.{join, IsCopied, strlcpy_lem, strljoin-strlcpy}
use guacenc.Strings.Splitting.{AllWithout, join-split}

abbrev buffer : List ℕ
buffer = replicate 6 7

abbrev words : List (List ℕ)
words = (97 ∷ 98 ∷ []) ∷ (99 ∷ []) ∷ (100 ∷ 101 ∷ []) ∷ []

abbrev comma : ℕ
comma = 44

-- The last byte of the buffer is left for the NUL, and the whole length is returned.
join_words : strljoin buffer words (comma ∷ []) 6 ≡ (7, 97 ∷ 98 ∷ comma ∷ 99 ∷ comma ∷ 0 ∷ [])
unfolding strljoin join_loop add_string strlcat strlcpy at_offset strnlen remaining copy_length
join_words = refl

split_words : split (97 ∷ comma ∷ comma ∷ 98 ∷ []) comma ≡ (97 ∷ []) ∷ [] ∷ (98 ∷ []) ∷ []
unfolding split split_loop token count_occurrences
split_words = refl

strljoin-strlcpy_example :
    strljoin buffer words (comma ∷ []) 6 ≡ strlcpy buffer (join (comma ∷ []) words) 6
strljoin-strlcpy_example = strljoin-strlcpy buffer (comma ∷ []) words 6

strlcpy_lem_example :
    IsCopied buffer (97 ∷ 98 ∷ 99 ∷ []) 3 (strlcpy buffer (97 ∷ 98 ∷ 99 ∷ []) 3).1
    × ((strlcpy buffer (97 ∷ 98 ∷ 99 ∷ []) 3).0 ≡ 3)
strlcpy_lem_example =
    strlcpy_lem buffer (97 ∷ 98 ∷ 99 ∷ []) 3 (ground arith, (ground arith, (ground arith, tt)))
      (omega arith) (omega arith)

join-split_example :
    (join (comma ∷ []) (split (97 ∷ comma ∷ 98 ∷ []) comma) ≡ 97 ∷ comma ∷ 98 ∷ [])
    × (AllWithout comma (split (97 ∷ comma ∷ 98 ∷ []) comma)
        × (length (split (97 ∷ comma ∷ 98 ∷ []) comma)
            ≡ suc (count_occurrences (97 ∷ comma ∷ 98 ∷ []) comma)))
join-split_example = join-split (97 ∷ comma ∷ 98 ∷ []) comma
