-- ===== src/Tests/Pools.antt =====
-- book/pool.hpp: a pool that grows by two nodes.
use itchbook.Base.{refl, [], ◌∷◌, arith}
use itchbook.Book.Order.{null, Heap}
use itchbook.Book.Pool.{Pool, allocate, deallocate}
use itchbook.Book.Pool.FreeList.{Owns, Allocated, SameNodes, allocate-Owns, deallocate-Owns}

-- 2 is the last free node.
abbrev memory : Heap
memory p = record {
  ref = 0;
  next = 0;
  prev = 0;
  shares = 0;
  price = 0;
  level_idx = 0;
  locate = 0;
  side = 0;
}

abbrev small_pool : Pool
small_pool = record {
  chunk_size = 2;
  max_chunk = 8;
  chunks = [];
  free = null;
  live = 0;
  capacity = 0;
}

small_pool-Owns : Owns memory small_pool [] []
small_pool-Owns = record {
  chain = refl;
  distinct = tt;
  live = refl;
  capacity = refl;
  chunk = omega arith;
}

allocate-Owns_example : Allocated memory small_pool 10 [] [] (allocate memory small_pool 10)
allocate-Owns_example = allocate-Owns memory small_pool 10 [] [] small_pool-Owns (omega arith) tt

-- 1 is out; 2 is free.
abbrev used_pool : Pool
used_pool = record {
  chunk_size = 4;
  max_chunk = 8;
  chunks = 1 ∷ [];
  free = 2;
  live = 1;
  capacity = 2;
}

used_pool-Owns : Owns memory used_pool (2 ∷ []) (1 ∷ [])
used_pool-Owns = record {
  chain = (refl, omega arith, refl);
  distinct = omega arith;
  live = refl;
  capacity = refl;
  chunk = omega arith;
}

deallocate-Owns_example :
    Owns (deallocate memory used_pool 1).0 (deallocate memory used_pool 1).1 (1 ∷ 2 ∷ []) []
    × SameNodes (deallocate memory used_pool 1).0 memory []
deallocate-Owns_example =
    deallocate-Owns memory used_pool 1 (2 ∷ []) [] [] used_pool-Owns (omega arith)
