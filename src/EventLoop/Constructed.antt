-- ===== src/EventLoop/Constructed.antt =====
-- What `EventLoop()` leaves in the poller.
use mtnet.Prelude.{
  some_injective, none-ne-some, ℕ, ◌≡◌, ◌≢◌, refl, sym, ap, ◌∙◌, inl, inr, [], ◌∷◌, ◌++◌, true,
  ◌==◌, ==_iff, Option, none, some, ok, err, aborted,
}
use mtnet.Prelude.Int.{pos_injective, ℤ, pos}
use mtnet.Prelude.Maps.{update, update_self, update_ℤ, update_ℤ_self, update_ℤ_ne, ℤ-cases}
use mtnet.Channel
use mtnet.Channel.{Channel, Interest, change, enable_reading, read_event}
use mtnet.Poller.Defs
use mtnet.Poller.Defs.{Poller, PollFd, is_negative, set_interest}
use mtnet.Poller.Invariant.{IsConsistent, init-IsConsistent, fresh-IsConsistent}
use mtnet.Poller.Interests.{set_interest-new, changed, new_entry}
use mtnet.Sockets.Defs.{failed, returned}
use mtnet.EventLoop.Defs.{init}
use mtnet.EventLoop.Construct.{
  create_eventfd, create_timerfd, update_channel, enable_reading_of, new_channel, Constructed,
  or_self, Addresses, init_timerfd_channel, construct,
}

enable_reading_of-set_interest :
    (s : Poller) (c : ℕ) → enable_reading_of s c ≡ set_interest enable_reading s c
unfolding enable_reading_of update_channel set_interest
enable_reading_of-set_interest s c =
    let ch = s.channel_at c in
    let e = update_self s.channel_at c (record ch { events = change enable_reading ch.events }) in
    let own : ((update s.channel_at c (record ch { events = change enable_reading ch.events })
            c).loop
          == ch.loop)
        ≡ true =
      ap (λ (x : Channel). x.loop == ch.loop) e ∙ (==_iff ch.loop ch.loop).1 refl in
    rw own

new_channel-fd : (loop : ℕ) (fd : ℤ) (callback : ℕ) → (new_channel loop fd callback).fd ≡ fd
unfolding new_channel Channel.init
new_channel-fd loop fd callback = refl

new_channel-index :
    (loop : ℕ) (fd : ℤ) (callback : ℕ) → is_negative (new_channel loop fd callback).index ≡ true
unfolding new_channel Channel.init
new_channel-index loop fd callback = refl

-- The entry of a channel that reads.
abbrev pub reading : ℤ → PollFd
reading fd = record { fd = fd; events = read_event; revents = 0 }

new_entry-reading :
    (loop : ℕ) (fd : ℤ) (callback : ℕ)
    → new_entry (changed enable_reading (new_channel loop fd callback)) ≡ reading fd
unfolding new_channel Channel.init change
new_entry-reading loop fd callback = refl

-- Registering the channel of a descriptor that no registered channel has.
record Registered (s t : Poller) (c fd : ℕ) : Type 0 where
  pub consistent : IsConsistent t
  pub pollfds : t.pollfds ≡ s.pollfds ++ reading (pos fd) ∷ []
  pub channels : t.channels ≡ update_ℤ s.channels (pos fd) (some c)

module _ (s : Poller) (c loop fd callback : ℕ) (v : IsConsistent s)
    (free : s.channels (pos fd) ≡ none) (fresh : (d : ℤ) → s.channels d ≢ some c) where
  abbrev ready : Poller
  ready = record s { channel_at = update s.channel_at c (new_channel loop (pos fd) callback) }

  registers : (t : Poller) × (enable_reading_of ready c ≡ ok t) × Registered s t c fd
  registers =
      let ch = new_channel loop (pos fd) callback in
      let e : ready.channel_at c ≡ ch = update_self s.channel_at c ch in
      let (t, done, valid, pollfds, channels, memory) =
        set_interest-new enable_reading ready c (fresh-IsConsistent c ch fresh v)
          (ap (λ (x : Channel). is_negative x.index) e ∙ new_channel-index loop (pos fd) callback)
          (ap (λ (x : Channel). is_negative x.fd) e
            ∙ ap is_negative (new_channel-fd loop (pos fd) callback))
          (ap (λ (x : Channel). s.channels x.fd) e
            ∙ ap s.channels (new_channel-fd loop (pos fd) callback)
            ∙ free) in
      (
        t,
        enable_reading_of-set_interest ready c ∙ done,
        record {
          consistent = valid;
          pollfds =
              pollfds
              ∙ ap (λ (x : Channel). s.pollfds ++ new_entry (changed enable_reading x) ∷ []) e
              ∙ ap (λ (p : PollFd). s.pollfds ++ p ∷ []) (new_entry-reading loop (pos fd) callback);
          channels =
              channels
              ∙ ap (λ (x : Channel). update_ℤ s.channels x.fd (some c)) e
              ∙ ap (λ d. update_ℤ s.channels d (some c)) (new_channel-fd loop (pos fd) callback);
        },
      )

Registered-found : (s t : Poller) (c fd : ℕ) → Registered s t c fd → t.channels (pos fd) ≡ some c
Registered-found s t c fd r =
    ap (λ f. f (pos fd)) r.channels ∙ update_ℤ_self s.channels (pos fd) (some c)

Registered-kept :
    (s t : Poller) (c fd d : ℕ)
    → Registered s t c fd
    → d ≢ fd
    → t.channels (pos d) ≡ s.channels (pos d)
Registered-kept s t c fd d r apart =
    ap (λ f. f (pos d)) r.channels
    ∙ update_ℤ_ne s.channels (pos fd) (some c) (pos d) (λ e. apart (pos_injective e))

-- If the kernel returns two descriptors and `new` two addresses: `EventLoop()` fails at no assertion; its
-- poller is consistent and watches for input exactly on the timerfd and on the eventfd, with the
-- channels of the timer queue and of the wakeups; and the loop is not running, with an empty queue. If
-- the kernel returns no eventfd, the program aborts.
pub construct_lem :
    (a : Addresses) (tid timerfd eventfd errno : ℕ) (heap : ℕ → Channel) (current : Option ℕ)
    → a.timerfd_channel ≢ a.wakeup_channel
    → timerfd ≢ eventfd
    → (r : Constructed) × (construct a tid (returned timerfd) (returned eventfd) heap current
        ≡ ok r)
      × (construct a tid (returned timerfd) (failed errno) heap current ≡ err aborted)
      × IsConsistent r.poller
      × (r.poller.pollfds ≡ reading (pos timerfd) ∷ reading (pos eventfd) ∷ [])
      × (r.poller.channels (pos timerfd) ≡ some a.timerfd_channel)
      × (r.poller.channels (pos eventfd) ≡ some a.wakeup_channel)
      × (r.loop ≡ init tid)
unfolding construct init_timerfd_channel create_timerfd create_eventfd Defs.init
construct_lem a tid timerfd eventfd errno heap current apart apart_fds =
    let s = Defs.init heap in
    let (t, done, one) =
      registers s a.timerfd_channel a.self timerfd a.timer_callback (init-IsConsistent heap) refl
        (λ d e. none-ne-some refl e) in
    let (u, done', two) =
      registers t a.wakeup_channel a.self eventfd a.wakeup_callback one.consistent
        (Registered-kept s t a.timerfd_channel timerfd eventfd one (λ e. apart_fds (sym e)))
        (λ d e. other_channel d (ap (λ f. f d) (sym one.channels) ∙ e)) in
    (
      record { loop = init tid; poller = u; loop_in_this_thread = or_self current a.self },
      rw (done, done') refl,
      rw done refl,
      two.consistent,
      two.pollfds ∙ ap (λ ps. ps ++ reading (pos eventfd) ∷ []) one.pollfds,
      Registered-kept t u a.wakeup_channel eventfd timerfd two apart_fds
          ∙ Registered-found s t a.timerfd_channel timerfd one,
      Registered-found t u a.wakeup_channel eventfd two,
      refl,
    )
  where
    other_channel :
        (d : ℤ)
        → update_ℤ (λ fd. none) (pos timerfd) (some a.timerfd_channel) d ≢ some a.wakeup_channel
    other_channel d e = elim (ℤ-cases d (pos timerfd)) [
      | inl same ↦ apart (
          some_injective (
            sym (
              ap (update_ℤ (λ fd. none) (pos timerfd) (some a.timerfd_channel)) same
              ∙ update_ℤ_self (λ fd. none) (pos timerfd) (some a.timerfd_channel))
            ∙ e))
      | inr other ↦
          none-ne-some refl
            (sym (update_ℤ_ne (λ fd. none) (pos timerfd) (some a.timerfd_channel) d other) ∙ e)
    ]
