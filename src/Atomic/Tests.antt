-- ===== src/Atomic/Tests.antt =====
-- A counter that wraps round.
use mtnet.Prelude.{◌≡◌, refl, [], ◌∷◌}
use mtnet.Atomic.{init, increment, decrement}
use mtnet.Atomic.Sum.{perform_all, increments, decrements, adds}

counts : perform_all (increments ∷ decrements ∷ decrements ∷ adds 6 ∷ []) init ≡ 5
unfolding init increment decrement mtnet.Atomic.add
counts = refl
