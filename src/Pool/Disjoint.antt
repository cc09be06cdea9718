-- ===== src/Pool/Disjoint.antt =====
-- The slices that a pool hands out lie in its arrays and do not overlap.
use yoshiera_huang_livego.Prelude.{ℕ, ◌+◌, ◌≤◌, ◌<◌, ◌≡◌, ◌⊎◌, inl, inr, refl, arith}
use yoshiera_huang_livego.Prelude.{
  Option, some, ◌>>=◌, List, [], ◌∷◌, map, All, ltb, le→not_ltb, Bool-cases,
}
use yoshiera_huang_livego.Pool.{Pool, Slice, max_pool_size, new_pool, carve, get}

-- Get for each size.
pub get_each : List ℕ → Pool → Option (List Slice × Pool)
get_each [] pool = some ([], pool)
get_each (n ∷ sizes) pool = do
  (s, pool) ← get n pool
  (l, pool) ← get_each sizes pool
  some (s ∷ l, pool)

-- `s` was handed out before `t`: in another array, or in front of it.
pub record IsApart (s t : Slice) : Type 0 where
  pub apart : s.array < t.array ⊎ (s.array ≡ t.array) × (s.start + s.size ≤ t.start)

pub record IsInside (s : Slice) : Type 0 where
  pub inside : s.start + s.size ≤ max_pool_size

abbrev pub Disjoint : List Slice → Type 0
Disjoint [] = Unit
Disjoint (s ∷ l) = All (IsApart s) l × Disjoint l

abbrev pub size_of : Slice → ℕ
size_of s = s.size

-- What a pool still hands out lies behind what it has handed out.
record IsBehind (pool : Pool) (s : Slice) : Type 0 where
  behind : pool.array < s.array ⊎ (pool.array ≡ s.array) × (pool.pos ≤ s.start)

-- One Get: the slice is behind the pool, and the pool then is behind the slice.
record IsServed (n : ℕ) (pool : Pool) (s : Slice) (pool' : Pool) : Type 0 where
  of_size : s.size ≡ n
  within : IsInside s
  from : IsBehind pool s
  then_at : (t : Slice) → IsBehind pool' t → IsApart s t × IsBehind pool t

IsBehind-fresh :
    (array n : ℕ) (pool : Pool) (t : Slice)
    → pool.array < array
    → IsBehind (record { pos = 0 + n; array = array }) t
    → IsApart (record { array = array; start = 0; size = n }) t × IsBehind pool t
IsBehind-fresh array n pool t h b = elim b.behind [
  | inl lt ↦ (record { apart = inl lt }, record { behind = inl (omega arith) })
  | inr (e, le) ↦ (record { apart = inr (e, le) }, record { behind = inl (omega arith) })
]

IsBehind-same :
    (pool : Pool) (n : ℕ) (t : Slice)
    → IsBehind (record pool { pos = pool.pos + n }) t
    → IsApart (record { array = pool.array; start = pool.pos; size = n }) t × IsBehind pool t
IsBehind-same pool n t b = elim b.behind [
  | inl lt ↦ (record { apart = inl lt }, record { behind = inl lt })
  | inr (e, le) ↦ (record { apart = inr (e, le) }, record { behind = inr (e, omega arith) })
]

get_lem :
    (n : ℕ) (pool : Pool)
    → n ≤ max_pool_size
    → (s : Slice) × (pool' : Pool) × (get n pool ≡ some (s, pool')) × IsServed n pool s pool'
unfolding get carve
get_lem n pool h = elim (Bool-cases (ltb max_pool_size (pool.pos + n))) [
  | inl e ↦ (
    record { array = pool.array + 1; start = 0; size = n },
    record { pos = 0 + n; array = pool.array + 1 },
    rw (e, le→not_ltb max_pool_size (0 + n) (omega arith)) refl,
    record {
      of_size = refl;
      within = record { inside = omega arith };
      from = record { behind = inl (omega arith) };
      then_at = λ t b. IsBehind-fresh (pool.array + 1) n pool t (omega arith) b;
    },
  )
  | inr e ↦ (
    record { array = pool.array; start = pool.pos; size = n },
    record { pos = pool.pos + n; array = pool.array },
    rw e refl,
    record {
      of_size = refl;
      within = record { inside = ground arith };
      from = record { behind = inr (refl, omega arith) };
      then_at = λ t b. IsBehind-same pool n t b;
    },
  )
]

All-map {ℓ κ μ} :
    {A : Type ℓ} {P : A → Type κ} {Q : A → Type μ}
    → ((a : A) → P a → Q a)
    → (l : List A) → All P l
    → All Q l
All-map f [] h = tt
All-map f (a ∷ l) (h, hs) = (f a h, All-map f l hs)

get_each_lem :
    (sizes : List ℕ) (pool : Pool)
    → All (λ n. n ≤ max_pool_size) sizes
    → (l : List Slice) × (pool' : Pool) × (get_each sizes pool ≡ some (l, pool'))
      × (map size_of l ≡ sizes)
      × All IsInside l
      × Disjoint l
      × All (IsBehind pool) l
unfolding get_each
get_each_lem [] pool h = ([], pool, refl, refl, tt, tt, tt)
get_each_lem (n ∷ sizes) pool (h, hs) =
    let (s, p, e, ok) = get_lem n pool h in
    let (l, q, e', sizes', inside, apart, behind) = get_each_lem sizes p hs in
    (
      s ∷ l,
      q,
      rw (e, e') refl,
      (λ i. ok.of_size i ∷ sizes' i),
      (ok.within, inside),
      (All-map (λ t b. (ok.then_at t b).0) l behind, apart),
      (ok.from, All-map (λ t b. (ok.then_at t b).1) l behind),
    )

-- A new pool serves any sequence of sizes up to that of its array: each Get hands out a slice of
-- its size inside an array, and no two of the slices share a byte.
pub get_each-Disjoint :
    (sizes : List ℕ)
    → All (λ n. n ≤ max_pool_size) sizes
    → (l : List Slice) × (pool : Pool) × (get_each sizes new_pool ≡ some (l, pool))
      × (map size_of l ≡ sizes)
      × All IsInside l
      × Disjoint l
get_each-Disjoint sizes h =
    let (l, pool, e, of_size, inside, apart, _) = get_each_lem sizes new_pool h in
    (l, pool, e, of_size, inside, apart)
