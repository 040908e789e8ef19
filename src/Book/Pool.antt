-- ===== src/Book/Pool.antt =====
-- book/pool.hpp: the slab allocator of order nodes. The addresses of a new chunk come from the
-- system's allocator and are an argument: node `i` of the chunk is at address `chunk + i`.
pub mod FreeList
use itchbook.Base.{
  ℕ, zero, suc, ◌+◌, ◌-◌, ◌*◌, ◌/◌, ◌%◌, ◌^◌, ◌≤◌, ◌<◌, min, ◌≡◌, refl, sym, ap, subst, ◌∙◌, ◌≢◌,
  ◌↔◌, ◌⊎◌, inl, inr, Bool, true, false, not, ◌&&◌, ◌||◌, Option, none, some, List, [], ◌∷◌, ◌++◌,
  map, arith, ltb, leb, ◌==◌, if◌then◌else◌, Bool-cases, length, length-append,
}
use itchbook.Book.Order.{Ptr, null, Order, Heap, set_next, set_prev}

pub record Pool : Type 0 where
  pub chunk_size : ℕ
  pub max_chunk : ℕ
  pub chunks : List Ptr
  pub free : Ptr
  pub live : ℕ
  pub capacity : ℕ

unfoldable pub make_pool : ℕ → ℕ → Pool
make_pool first_chunk max_chunk = record {
  chunk_size = if first_chunk == 0 then 1 else first_chunk;
  max_chunk = if ltb max_chunk first_chunk then first_chunk else max_chunk;
  chunks = [];
  free = null;
  live = 0;
  capacity = 0;
}

-- The loop of `grow`: `i` nodes of the chunk are still to be put in front of the free list, the
-- last of them first.
unfoldable pub thread : ℕ → Heap → Ptr → Ptr → Heap × Ptr
thread zero h chunk free = (h, free)
thread (suc i) h chunk free = thread i (set_next h (chunk + i) free) chunk (chunk + i)

unfoldable pub grow : Heap → Pool → Ptr → Heap × Pool
unfolding thread
grow h p chunk =
    let (h1, free) = thread p.chunk_size h chunk p.free in
    (
      h1,
      record p {
        free = free;
        capacity = p.capacity + p.chunk_size;
        chunks = chunk ∷ p.chunks;
        chunk_size =
            if ltb p.chunk_size p.max_chunk
            then min (p.chunk_size * 2) p.max_chunk
            else p.chunk_size;
      },
    )

-- The second half of `allocate`: the first free node is handed out.
unfoldable pub take_free : Heap → Pool → Ptr × Heap × Pool
take_free h p =
    let o = p.free in
    (o, set_prev (set_next h o null) o null, record p { free = (h o).next; live = p.live + 1 })

unfoldable pub allocate : Heap → Pool → Ptr → Ptr × Heap × Pool
unfolding grow take_free
allocate h p chunk =
    if p.free == null then (let (h1, p1) = grow h p chunk in take_free h1 p1) else take_free h p

unfoldable pub deallocate : Heap → Pool → Ptr → Heap × Pool
deallocate h p o = (set_next h o p.free, record p { free = o; live = p.live - 1 })
