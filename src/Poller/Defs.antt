-- ===== src/Poller/Defs.antt =====
-- The operations of mtnet/Poller.cc, and the calls in mtnet/Channel.h that reach them.
use mtnet.Prelude.{
  ℕ, ◌+◌, ◌-◌, ◌%◌, ◌^◌, List, [], ◌∷◌, ◌++◌, Bool, true, false, not, ◌&&◌, ◌||◌, ltb, ◌==◌,
  if◌then◌else◌, Option, none, some, length, get_elem?, set, take, Result, ok, err, guard, ◌>>=◌,
  ◌>>◌, assertion, out_of_bounds,
}
use mtnet.Prelude.Int.{ℤ, pos, negsuc, eqb_ℤ}
use mtnet.Prelude.Maps.{update, update_ℤ}
use mtnet.Channel.{Channel, Interest, change, is_none_event}

-- `struct pollfd`; the two `short`s are bit patterns.
pub record PollFd : Type 0 where
  pub fd : ℤ
  pub events : ℕ
  pub revents : ℕ

-- `pollfds_` and `channels_`; `channel_at` is the memory that holds the channels.
pub record Poller : Type 0 where
  pub pollfds : List PollFd
  pub channels : ℤ → Option ℕ
  pub channel_at : ℕ → Channel

-- `Poller(loop)`.
unfoldable pub init : (ℕ → Channel) → Poller
init heap = record { pollfds = []; channels = λ fd. none; channel_at = heap }

-- -fd - 1
abbrev pub flip : ℤ → ℤ
flip (pos n) = negsuc n
flip (negsuc n) = pos n

abbrev pub is_negative : ℤ → Bool
is_negative (pos n) = false
is_negative (negsuc n) = true

-- `static_cast<short>` of an `int`, and the `int` that a `short` is promoted to.
abbrev pub to_short : ℕ → ℕ
to_short e = e % 2 ^ 16

abbrev pub to_int : ℕ → ℕ
to_int s = if ltb s (2 ^ 15) then s else s + (2 ^ 32 - 2 ^ 16)

abbrev pub is_positive_short : ℕ → Bool
is_positive_short s = ltb 0 s && ltb s (2 ^ 15)

abbrev pub is_some {ℓ} : {A : Type ℓ} → Option A → Bool
is_some none = false
is_some (some a) = true

abbrev pub is_address : Option ℕ → ℕ → Bool
is_address none c = false
is_address (some d) c = d == c

abbrev pub or_out_of_bounds {ℓ} : {A : Type ℓ} → Option A → Result A
or_out_of_bounds none = err out_of_bounds
or_out_of_bounds (some a) = ok a

-- `0 <= index && index < size`.
abbrev pub in_range : ℤ → ℕ → Bool
in_range (negsuc i) size = false
in_range (pos i) size = ltb i size

abbrev pub to_index : ℤ → ℕ
to_index (pos i) = i
to_index (negsuc i) = 0

-- The first branch of `updateChannel`: a channel that is not yet registered.
unfoldable pub add_channel : Poller → ℕ → Result Poller
add_channel s c = do
  let ch = s.channel_at c
  guard (not (is_some (s.channels ch.fd))) assertion
  let fds = s.pollfds ++ record { fd = ch.fd; events = to_short ch.events; revents = 0 } ∷ []
  ok (record {
    pollfds = fds;
    channels = update_ℤ s.channels ch.fd (some c);
    channel_at = update s.channel_at c (record ch { index = pos (length fds - 1) });
  })

-- The second branch: its entry is brought up to date. `pfd.fd` changes only to ignore the entry.
unfoldable pub modify_channel : Poller → ℕ → Result Poller
modify_channel s c = do
  let ch = s.channel_at c
  guard (is_some (s.channels ch.fd)) assertion
  guard (is_address (s.channels ch.fd) c) assertion
  guard (in_range ch.index (length s.pollfds)) assertion
  pfd ← or_out_of_bounds (get_elem? s.pollfds (to_index ch.index))
  guard (eqb_ℤ pfd.fd ch.fd || eqb_ℤ pfd.fd (flip ch.fd)) assertion
  ok (record s {
    pollfds = set s.pollfds (to_index ch.index) (record {
      fd = if is_none_event ch then flip ch.fd else pfd.fd;
      events = to_short ch.events;
      revents = 0;
    });
  })

unfoldable pub update_channel : Poller → ℕ → Result Poller
update_channel s c =
    if is_negative (s.channel_at c).index then add_channel s c else modify_channel s c

-- enableReading, enableWriting, disableWriting and disableAll of a channel: the new events, then
-- `update()`. (`EventLoop::updateChannel`, on the way, asserts that the loop is the channel's own;
-- `update()` calls it on that loop.)
unfoldable pub set_interest : Interest → Poller → ℕ → Result Poller
set_interest i s c =
    let ch = s.channel_at c in
    update_channel
      (record s { channel_at = update s.channel_at c (record ch { events = change i ch.events }) })
      c

-- `pop_back` and `iter_swap` of an element with the last one.
abbrev pub pop_back {ℓ} : {A : Type ℓ} → List A → List A
pop_back xs = take (length xs - 1) xs

-- The end of `removeChannel`: the last entry takes the place of the removed one.
unfoldable pub fill_gap : Poller → ℕ → PollFd → Result Poller
fill_gap s idx pfd =
    if idx == length s.pollfds - 1 then ok (record s { pollfds = pop_back s.pollfds }) else do
      back ← or_out_of_bounds (get_elem? s.pollfds (length s.pollfds - 1))
      let swapped = set (set s.pollfds idx back) (length s.pollfds - 1) pfd
      let channel_at_end = if is_negative back.fd then flip back.fd else back.fd
      d ← or_out_of_bounds (s.channels channel_at_end)
      ok (record s {
        pollfds = pop_back swapped;
        channel_at = update s.channel_at d (record (s.channel_at d) { index = pos idx });
      })

unfoldable pub remove_channel : Poller → ℕ → Result Poller
remove_channel s c = do
  let ch = s.channel_at c
  guard (is_some (s.channels ch.fd)) assertion
  guard (is_address (s.channels ch.fd) c) assertion
  guard (is_none_event ch) assertion
  guard (in_range ch.index (length s.pollfds)) assertion
  pfd ← or_out_of_bounds (get_elem? s.pollfds (to_index ch.index))
  guard (eqb_ℤ pfd.fd (flip ch.fd) && to_int pfd.events == ch.events) assertion
  fill_gap (record s { channels = update_ℤ s.channels ch.fd none }) (to_index ch.index) pfd

abbrev pub or_assertion {ℓ} : {A : Type ℓ} → Option A → Result A
or_assertion none = err assertion
or_assertion (some a) = ok a

-- One round of the loop in `fillActiveChannels`, at an entry of `pollfds_` with events: what is left
-- of `numEvents`, the channels, and the active channels.
unfoldable pub activate : PollFd → ℕ → Poller → List ℕ → Result (ℕ × Poller × List ℕ)
activate pfd num_events s active = do
  c ← or_assertion (s.channels pfd.fd)
  guard (eqb_ℤ (s.channel_at c).fd pfd.fd) assertion
  ok (
    num_events - 1,
    record s {
      channel_at = update s.channel_at c (record (s.channel_at c) { revents = pfd.revents });
    },
    active ++ c ∷ [],
  )

unfoldable pub visit : PollFd → ℕ → Poller → List ℕ → Result (ℕ × Poller × List ℕ)
unfolding activate
visit pfd num_events s active =
    if is_positive_short pfd.revents
    then activate pfd num_events s active
    else ok (num_events, s, active)

unfoldable pub fill_active_channels : List PollFd → ℕ → Poller → List ℕ → Result (Poller × List ℕ)
fill_active_channels [] num_events s active = ok (s, active)
fill_active_channels (pfd ∷ rest) num_events s active =
    if num_events == 0
    then ok (s, active)
    else visit pfd num_events s active >>= (λ v. fill_active_channels rest v.0 v.1 v.2)

-- What poll(2) does: its return value, and the `revents` that it stores in the entries in order
-- (none of them when it fails).
pub record Polled : Type 0 where
  pub num_events : ℤ
  pub revents : List ℕ

abbrev pub store_revents : List PollFd → List ℕ → List PollFd
store_revents [] rs = []
store_revents (p ∷ ps) [] = p ∷ ps
store_revents (p ∷ ps) (r ∷ rs) = record p { revents = r } ∷ store_revents ps rs

unfoldable pub poll_result : ℤ → Poller → Result (Poller × List ℕ)
unfolding fill_active_channels
poll_result (negsuc n) s = ok (s, [])
poll_result (pos n) s = if n == 0 then ok (s, []) else fill_active_channels s.pollfds n s []

-- `poll`, but for the time that it returns.
unfoldable pub poll : Polled → Poller → Result (Poller × List ℕ)
unfolding poll_result
poll r s = poll_result r.num_events (record s { pollfds = store_revents s.pollfds r.revents })
