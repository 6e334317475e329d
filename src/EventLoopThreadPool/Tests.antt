-- ===== src/EventLoopThreadPool/Tests.antt =====
-- A run of `getNextLoop`, and the theorem about it at a concrete pool.
use mtnet.Prelude.{
  ℕ, ◌+◌, ◌*◌, ◌%◌, ◌≡◌, ◌<◌, refl, true, List, [], ◌∷◌, length, get_elem?, ok, arith,
}
use mtnet.EventLoopThreadPool.{EventLoopThreadPool, init, set_thread_num, start}
use mtnet.EventLoopThreadPool.RoundRobin.{IsDealing, deal, deal_lem}

-- The loops 10, 20 and 30, of which the last is next.
abbrev three : EventLoopThreadPool
three = record {
  base_loop = 1;
  started = true;
  num_threads = 3;
  next = 2;
  loops = 10 ∷ 20 ∷ 30 ∷ [];
}

start_run : start (λ i. 10 * (i + 1)) (set_thread_num 3 (init 1)) ≡ ok (record three { next = 0 })
unfolding start set_thread_num init
start_run = refl

deal_lem_example :
    (ls : List ℕ) × (q : EventLoopThreadPool) × (deal 4 three ≡ ok (ls, q))
    × IsDealing q
    × (length ls ≡ 4)
    × ((i : ℕ) → i < 4 → get_elem? ls i ≡ get_elem? three.loops ((2 + i) % 3))
deal_lem_example = deal_lem 4 three (record { threads = omega arith; inside = omega arith })
