-- ===== src/Tests/Buffers.antt =====
-- A pool of two buffers, of which one is taken, written to and given back.
use mini_fs.Base.{
  ℕ, ◌+◌, ◌*◌, ◌≤◌, ◌<◌, ◌≡◌, refl, true, Option, none, some, [], ◌∷◌, arith, ltb, if◌then◌else◌,
  u64_mod,
}
use mini_fs.Format.Bytes.{zeros}
use mini_fs.DmaChain.{set_next-SameOutside}
use mini_fs.DmaPool.{
  Pool, align_up, aligned_size, set_next, link_buffers, pool_create, pool_get, pool_put,
}
use mini_fs.DmaSteps.{Step, Steps, none_yet, then_one, got, put, wrote, first, Shares}
use mini_fs.DmaLaws.{Steps-Shares}

-- Memory from address 8192 on, for at most 65536 bytes.
abbrev allocate : ℕ → ℕ
allocate k = if ltb 65536 k then 0 else 8192

abbrev no_pool : Pool
no_pool = record {
  dma_base = 0;
  free_head = 0;
  n_bufs = 0;
  buf_size = 0;
  available = 0;
  memory = zeros;
}

abbrev pool_or_none : Option Pool → Pool
pool_or_none none = no_pool
pool_or_none (some p) = p

abbrev two_buffers : Pool
two_buffers = pool_or_none (pool_create allocate true zeros 2 100)

abbrev pool_after : Option (ℕ × Pool) → Pool
pool_after none = no_pool
pool_after (some (b, p)) = p

abbrev one_left : Pool
one_left = pool_after (pool_get two_buffers)

-- The holder writes into the first eight bytes, where the link was.
abbrev scribbled : Pool
scribbled = record one_left { memory = set_next one_left.memory 12288 99 }

made_two : pool_create allocate true zeros 2 100 ≡ some two_buffers
unfolding pool_create aligned_size align_up link_buffers
made_two = refl

-- The buffer at the higher address is first.
got_one : pool_get two_buffers ≡ some (12288, one_left)
unfolding pool_get pool_create aligned_size align_up link_buffers
got_one = refl

get_step : Step (two_buffers, []) (one_left, 12288 ∷ [])
get_step = got 12288 got_one

write_step : Step (one_left, 12288 ∷ []) (scribbled, 12288 ∷ [])
unfolding pool_create pool_get aligned_size align_up
write_step =
    wrote 12288 (set_next one_left.memory 12288 99) first
      (set_next-SameOutside 4096 12288 99 one_left.memory (omega arith))

taken_and_returned : Steps (two_buffers, []) (pool_put scribbled 12288, [])
taken_and_returned = then_one (then_one (then_one none_yet get_step) write_step) (put 12288 first)

enough : 2 * aligned_size 100 < u64_mod
unfolding aligned_size align_up
enough = omega arith

allocate-inside : (k : ℕ) → k < u64_mod → allocate k + k ≤ u64_mod
allocate-inside k h = ground arith

Steps-Shares_example :
    (two_buffers.dma_base ≡ allocate (2 * two_buffers.buf_size))
    × (100 ≤ two_buffers.buf_size)
    × Shares 2 two_buffers.dma_base two_buffers.buf_size (pool_put scribbled 12288, [])
Steps-Shares_example =
    Steps-Shares allocate true zeros 2 100 (omega arith) enough allocate-inside two_buffers
      (pool_put scribbled 12288, []) (omega arith) made_two taken_and_returned
