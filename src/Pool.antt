-- ===== src/Pool.antt =====
-- The pool of integers: src/libguac/pool.c, each operation run under its lock. Allocations succeed.
pub mod Fresh
use guacenc.Base.Int.{ℤ, pos, ◌+ℤ◌, ◌-ℤ◌}
use guacenc.Base.{ℕ, ◌+◌, List, [], ◌∷◌, ◌++◌, ltb, if◌then◌else◌}

-- `guac_pool`: the list from `__head` to `__tail`, and the numbers.
pub record Pool : Type 0 where
  pub min_size : ℕ
  pub active : ℤ
  pub next_value : ℕ
  pub free : List ℕ

-- `guac_pool_alloc`
unfoldable pub pool_alloc : ℕ → Pool
pool_alloc size = record { min_size = size; active = pos 0; next_value = 0; free = [] }

abbrev new_value : Pool → ℕ × Pool
new_value pool = (pool.next_value, record pool { next_value = pool.next_value + 1 })

-- `guac_pool_next_int` at the list of free integers.
unfoldable pub next_from : List ℕ → Pool → ℕ × Pool
next_from [] pool = new_value pool
next_from (head ∷ rest) pool =
    if ltb pool.next_value pool.min_size
    then new_value pool
    else (head, record pool { free = rest })

-- `guac_pool_next_int`
unfoldable pub next_int : Pool → ℕ × Pool
next_int pool = next_from pool.free (record pool { active = pool.active +ℤ pos 1 })

-- `guac_pool_free_int`
unfoldable pub free_int : Pool → ℕ → Pool
free_int pool value = record pool {
  active = pool.active -ℤ pos 1;
  free = pool.free ++ (value ∷ []);
}
