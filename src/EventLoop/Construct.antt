-- ===== src/EventLoop/Construct.antt =====
-- `EventLoop()` and `~EventLoop()` of mtnet/EventLoop.cc: the loop with its poller, and the channels of the
-- eventfd and, by `TimerQueue()` of mtnet/TimerQueue.cc, of the timerfd.
use mtnet.Prelude.{
  ℕ, not, ◌==◌, Option, none, some, Result, ok, err, guard, ◌>>=◌, ◌>>◌, assertion, aborted,
}
use mtnet.Prelude.Int.{ℤ, pos}
use mtnet.Prelude.Maps.{update}
use mtnet.Channel
use mtnet.Channel.{Channel, Interest, change, enable_reading, read_event}
use mtnet.Poller.Defs
use mtnet.Poller.Defs.{Poller, PollFd, is_negative, set_interest}
use mtnet.Sockets.Defs.{SysCall, failed, returned, int_of}
use mtnet.EventLoop.Defs.{EventLoop, init}

-- `createEventfd` and `createTimerfd`; the second only logs that it failed.
unfoldable pub create_eventfd : SysCall → Result ℤ
create_eventfd (failed errno) = err aborted
create_eventfd (returned fd) = ok (pos fd)

unfoldable pub create_timerfd : SysCall → ℤ
create_timerfd r = int_of r

-- `EventLoop::updateChannel` of the loop `self`. (`assertInLoopThread` only logs.)
unfoldable pub update_channel : (self : ℕ) → Poller → ℕ → Result Poller
update_channel self s c = guard ((s.channel_at c).loop == self) assertion >> Defs.update_channel s c

-- `EventLoop::removeChannel`.
unfoldable pub remove_channel : (self : ℕ) → Poller → ℕ → Result Poller
remove_channel self s c = guard ((s.channel_at c).loop == self) assertion >> Defs.remove_channel s c

-- `Channel::enableReading` on the way through the channel's loop.
unfoldable pub enable_reading_of : Poller → ℕ → Result Poller
unfolding update_channel
enable_reading_of s c =
    let ch = s.channel_at c in
    update_channel ch.loop
      (record s {
        channel_at = update s.channel_at c (record ch { events = change enable_reading ch.events });
      })
      c

-- A new channel with a read callback.
unfoldable pub new_channel : (loop : ℕ) → ℤ → (callback : ℕ) → Channel
new_channel loop fd callback = record (Channel.init loop fd) { read_callback = some callback }

-- What the constructor makes: the loop, its poller, and what it leaves in `t_loopInThisThread`.
pub record Constructed : Type 0 where
  pub loop : EventLoop
  pub poller : Poller
  pub loop_in_this_thread : Option ℕ

abbrev pub or_self : Option ℕ → ℕ → Option ℕ
or_self none self = some self
or_self (some other) self = some other

-- The addresses of the loop and of the two channels, and the callbacks of the channels.
pub record Addresses : Type 0 where
  pub self : ℕ
  pub timerfd_channel : ℕ
  pub wakeup_channel : ℕ
  pub timer_callback : ℕ
  pub wakeup_callback : ℕ

-- The end of `TimerQueue(loop)`, and `EventLoop()` in the thread `tid`.
unfoldable pub init_timerfd_channel : Addresses → SysCall → Poller → Result Poller
unfolding new_channel create_timerfd enable_reading_of
init_timerfd_channel a timerfd s =
    enable_reading_of
      (record s {
        channel_at =
            update s.channel_at a.timerfd_channel
              (new_channel a.self (create_timerfd timerfd) a.timer_callback);
      })
      a.timerfd_channel

unfoldable pub construct :
    Addresses
    → (tid : ℕ) → (timerfd eventfd : SysCall) → (ℕ → Channel)
    → Option ℕ
    → Result Constructed
unfolding new_channel create_eventfd enable_reading_of init_timerfd_channel
construct a tid timerfd eventfd heap current = do
  with_timer ← init_timerfd_channel a timerfd (Defs.init heap)
  wakeup_fd ← create_eventfd eventfd
  with_wakeup ←
      enable_reading_of
        (record with_timer {
          channel_at =
              update with_timer.channel_at a.wakeup_channel
                (new_channel a.self wakeup_fd a.wakeup_callback);
        })
        a.wakeup_channel
  ok (record {
    loop = init tid;
    poller = with_wakeup;
    loop_in_this_thread = or_self current a.self;
  })

-- `~EventLoop()`: what it leaves in `t_loopInThisThread`.
unfoldable pub destroy : EventLoop → Result (Option ℕ)
destroy s = guard (not s.looping) assertion >> ok none
