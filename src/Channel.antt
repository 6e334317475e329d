-- ===== src/Channel.antt =====
-- mtnet/Channel.h and mtnet/Channel.cc: a file descriptor with the events that its owner wants, the
-- events that happened, its place in the poller, and the callbacks. An `int` or `short` of event
-- bits is its bit pattern; the bits are those of Linux's <poll.h>. A callback is named by a number;
-- what it does is an argument of `handel_event`. `update()` is in `Poller`, which holds the channels.
pub mod Events
pub mod Dispatch
pub mod Setters
mod Tests
use Prim.Native.Nat.{bit_and, bit_or}
use mtnet.Prelude.{
  ℕ, ◌-◌, ◌^◌, Bool, true, false, not, ◌&&◌, ◌==◌, if◌then◌else◌, Option, none, some,
}
use mtnet.Prelude.Int.{ℤ, negsuc}

abbrev pub pollin : ℕ
pollin = 0x001

abbrev pub pollpri : ℕ
pollpri = 0x002

abbrev pub pollout : ℕ
pollout = 0x004

abbrev pub pollerr : ℕ
pollerr = 0x008

abbrev pub pollhup : ℕ
pollhup = 0x010

abbrev pub pollnval : ℕ
pollnval = 0x020

abbrev pub pollrdhup : ℕ
pollrdhup = 0x2000

abbrev pub none_event : ℕ
none_event = 0

abbrev pub read_event : ℕ
read_event = bit_or pollin pollpri

abbrev pub write_event : ℕ
write_event = pollout

-- `events & mask` as a condition, and `~mask` of an `int`.
abbrev pub any_bit : ℕ → ℕ → Bool
any_bit events mask = not (bit_and events mask == 0)

abbrev pub complement : ℕ → ℕ
complement mask = 2 ^ 32 - 1 - mask

pub record Channel : Type 0 where
  pub loop : ℕ
  pub fd : ℤ
  pub events : ℕ
  pub revents : ℕ
  pub index : ℤ
  pub event_handling : Bool
  pub read_callback : Option ℕ
  pub write_callback : Option ℕ
  pub error_callback : Option ℕ
  pub close_callback : Option ℕ

-- `Channel(loop, fd)`.
unfoldable pub init : ℕ → ℤ → Channel
init loop fd = record {
  loop = loop;
  fd = fd;
  events = 0;
  revents = 0;
  index = negsuc 0;
  event_handling = false;
  read_callback = none;
  write_callback = none;
  error_callback = none;
  close_callback = none;
}

abbrev pub is_none_event : Channel → Bool
is_none_event c = c.events == none_event

abbrev pub is_writing : Channel → Bool
is_writing c = any_bit c.events write_event

-- The four ways to change the wanted events; each is followed by `update()` in the source.
pub data Interest : Type 0 where
  enable_reading enable_writing disable_writing disable_all : Interest

unfoldable pub change : Interest → ℕ → ℕ
change enable_reading events = bit_or events read_event
change enable_writing events = bit_or events write_event
change disable_writing events = bit_and events (complement write_event)
change disable_all events = none_event

-- `handelEvent`. The state `S` holds the channel (`self`, `store`); the callbacks may change all of
-- it, and each test reads `revents_` and the callbacks anew.
module _ {S : Type 0} (self : S → Channel) (store : Channel → S → S) (call : ℕ → S → S)
    (call_read : ℕ → ℤ → S → S) where
  abbrev pub run_if : Bool → Option ℕ → (ℕ → S → S) → S → S
  run_if false callback run s = s
  run_if true none run s = s
  run_if true (some f) run s = run f s

  abbrev pub set_event_handling : Bool → S → S
  set_event_handling b s = store (record (self s) { event_handling = b }) s

  abbrev pub on_error : S → S
  on_error s =
      run_if (any_bit (self s).revents (bit_or pollerr pollnval)) (self s).error_callback call s

  abbrev pub on_close : S → S
  on_close s =
      run_if (any_bit (self s).revents pollhup && not (any_bit (self s).revents pollin))
        (self s).close_callback call s

  abbrev pub on_read : ℤ → S → S
  on_read receive_time s =
      run_if (any_bit (self s).revents (bit_or (bit_or pollin pollpri) pollrdhup))
        (self s).read_callback (λ f. call_read f receive_time) s

  abbrev pub on_write : S → S
  on_write s = run_if (any_bit (self s).revents pollout) (self s).write_callback call s

  unfoldable pub handel_event : ℤ → S → S
  handel_event receive_time s =
      set_event_handling false
        (on_write (on_read receive_time (on_close (on_error (set_event_handling true s)))))
