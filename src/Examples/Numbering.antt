-- ===== src/Examples/Numbering.antt =====
-- A pool of at least two integers.
use guacenc.Base.{◌≡◌, refl, [], ◌∷◌}
use guacenc.Pool.{Pool, pool_alloc, next_from, next_int, free_int}
use guacenc.Pool.Fresh.{Reachable, start, taken, given, count, next_int-fresh}

abbrev empty : Pool
empty = pool_alloc 2

first : Reachable 2 (next_int empty).1 ((next_int empty).0 ∷ [])
first = taken empty [] start

freed : Reachable 2 (free_int (next_int empty).1 (next_int empty).0) []
freed = given (next_int empty).1 [] [] (next_int empty).0 first

next_int-fresh_example : count (next_int (next_int empty).1).0 ((next_int empty).0 ∷ []) ≡ 0
next_int-fresh_example = next_int-fresh first

-- The integer that was freed is not given at once: the pool grows to its minimal size first.
grows : (next_int (free_int (next_int empty).1 0)).0 ≡ 1
unfolding next_int next_from free_int pool_alloc
grows = refl
