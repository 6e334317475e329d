-- ===== src/Poller/Swap.antt =====
-- The vector operations at the end of `removeChannel` of mtnet/Poller.cc: `iter_swap`, `pop_back`.
use mtnet.Prelude.{
  ℕ, ◌-◌, ◌<◌, ◌≡◌, ◌≢◌, ◌∙◌, List, some, length, get_elem?, set, arith, length-set, length-take,
  get_elem?-take, get_elem?-set_self, get_elem?-set_ne,
}
use mtnet.Poller.Defs.{PollFd, pop_back}

-- Of a list whose last element `back` is swapped to `i` and dropped.
module _ (fds : List PollFd) (i : ℕ) (back pfd : PollFd) where
  abbrev pub swapped : List PollFd
  swapped = pop_back (set (set fds i back) (length fds - 1) pfd)

  pub length-swapped : length swapped ≡ length fds - 1
  length-swapped = omega (
    arith,
    length-set (set fds i back) (length fds - 1) pfd,
    length-set fds i back,
    length-take (length (set (set fds i back) (length fds - 1) pfd) - 1)
        (set (set fds i back) (length fds - 1) pfd),
  )

  get-swapped : (j : ℕ) → j < length fds - 1 → get_elem? swapped j ≡ get_elem? (set fds i back) j
  get-swapped j h =
      get_elem?-take _ (set (set fds i back) (length fds - 1) pfd) j
        (omega (arith, length-set (set fds i back) (length fds - 1) pfd, length-set fds i back))
      ∙ get_elem?-set_ne (set fds i back) (length fds - 1) j pfd (omega arith)

  pub get-swapped_self : i < length fds - 1 → get_elem? swapped i ≡ some back
  get-swapped_self h = get-swapped i h ∙ get_elem?-set_self fds i back (omega arith)

  pub get-swapped_ne : (j : ℕ) → j < length fds - 1 → i ≢ j → get_elem? swapped j ≡ get_elem? fds j
  get-swapped_ne j h ne = get-swapped j h ∙ get_elem?-set_ne fds i j back ne
