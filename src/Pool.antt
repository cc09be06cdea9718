-- ===== src/Pool.antt =====
-- utils/pool/pool.go: the allocator of message buffers. A slice is named by its backing array (the
-- arrays are counted in the order of their `make`), its first index and its size.
pub mod Disjoint
use yoshiera_huang_livego.Prelude.{ℕ, ◌+◌, ◌*◌, Option, none, some, ltb, if◌then◌else◌}

-- maxpoolsize
abbrev pub max_pool_size : ℕ
max_pool_size = 500 * 1024

-- `array` stands for the pointer in `buf`.
pub record Pool : Type 0 where
  pub pos : ℕ
  pub array : ℕ

pub record Slice : Type 0 where
  pub array : ℕ
  pub start : ℕ
  pub size : ℕ

-- NewPool
unfoldable pub new_pool : Pool
new_pool = record { pos = 0; array = 0 }

-- `pool.buf[pos : pos + size]`, which panics past the capacity; then `pool.pos += size`.
unfoldable pub carve : ℕ → Pool → Option (Slice × Pool)
carve size pool =
    if ltb max_pool_size (pool.pos + size)
    then none
    else some (
      record { array = pool.array; start = pool.pos; size = size },
      record pool { pos = pool.pos + size },
    )

-- Get: `maxpoolsize-pool.pos < size`, over the integers, and a fresh array where it holds.
unfoldable pub get : ℕ → Pool → Option (Slice × Pool)
get size pool =
    if ltb max_pool_size (pool.pos + size)
    then carve size (record { pos = 0; array = pool.array + 1 })
    else carve size pool
