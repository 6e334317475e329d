-- ===== src/Poller/Unregister.antt =====
-- The end of a channel: `disableAll` and then `EventLoop::removeChannel`, as mtnet/TcpConnection.cc
-- ends a connection.
use mtnet.Prelude.{ℕ, ◌≡◌, sym, ap, ◌∙◌, Option, none, some, ok, err, assertion}
use mtnet.Prelude.Int.{ℤ, pos}
use mtnet.Prelude.Maps.{update_self, update_ℤ_self}
use mtnet.Channel.{Channel, Interest, disable_all, change}
use mtnet.Poller.Defs.{Poller, update_channel, modify_channel, set_interest, remove_channel}
use mtnet.Poller.Invariant.{IsConsistent}
use mtnet.Poller.Interests.{changed, with_channel, set_interest-registered}
use mtnet.Poller.Remove.{Removed, remove_channel_lem}

-- The two calls, and the index that the channel had before and has still.
unregister_at :
    (s : Poller) (c : ℕ)
    → IsConsistent s
    → s.channels (s.channel_at c).fd ≡ some c
    → (t u : Poller) × (set_interest disable_all s c ≡ ok t)
      × (remove_channel t c ≡ ok u)
      × (u.channels (s.channel_at c).fd ≡ none)
      × Removed t c u
      × (k : ℕ) × ((t.channel_at c).index ≡ pos k)
unfolding change
unregister_at s c v reg =
    let (k, pfd, nonneg, own, at, here, same) = v.place (s.channel_at c).fd c reg in
    let (t, done, valid, same_map, heap, new) =
      set_interest-registered disable_all s c k pfd v reg at here in
    let mine : t.channel_at c ≡ changed disable_all (s.channel_at c) =
      ap (λ (f : ℕ → Channel). f c) heap ∙ update_self s.channel_at c _ in
    let fd_same = ap (λ (x : Channel). x.fd) mine in
    let quiet : (t.channel_at c).events ≡ 0 = ap (λ (x : Channel). x.events) mine in
    let at' : (t.channel_at c).index ≡ pos k = ap (λ (x : Channel). x.index) mine ∙ at in
    let reg' : t.channels (t.channel_at c).fd ≡ some c =
      ap t.channels fd_same ∙ ap (λ (f : ℤ → Option ℕ). f (s.channel_at c).fd) same_map ∙ reg in
    let (u, removed, r) =
      remove_channel_lem valid c k _ reg' at' new (rw quiet) (rw fd_same) (rw quiet) in
    (
      t,
      u,
      done,
      removed,
      ap u.channels (sym fd_same)
          ∙ ap (λ (f : ℤ → Option ℕ). f (t.channel_at c).fd) r.map
          ∙ update_ℤ_self t.channels (t.channel_at c).fd none,
      r,
      k,
      at',
    )

-- In a consistent poller, `disableAll` on a registered channel and then `removeChannel` both
-- succeed, whatever the channel wanted before: every assertion of `removeChannel` holds. The poller
-- stays consistent, the channel's descriptor is free, the array is one entry shorter, and each
-- other channel keeps its own entry, at an index that it knows.
pub unregister :
    (s : Poller) (c : ℕ)
    → IsConsistent s
    → s.channels (s.channel_at c).fd ≡ some c
    → (t u : Poller) × (set_interest disable_all s c ≡ ok t)
      × (remove_channel t c ≡ ok u)
      × (u.channels (s.channel_at c).fd ≡ none)
      × Removed t c u
unregister s c v reg =
    let (t, u, done, removed, free, r, k, kept) = unregister_at s c v reg in
    (t, u, done, removed, free, r)

update_channel-refused :
    (u : Poller) (c k : ℕ)
    → u.channels (u.channel_at c).fd ≡ none
    → (u.channel_at c).index ≡ pos k
    → update_channel u c ≡ err assertion
unfolding update_channel modify_channel
update_channel-refused u c k gone known = rw (known, gone)

-- A channel that `disableAll` and `removeChannel` have taken out of a consistent poller cannot be
-- registered again: `removeChannel` leaves its index, so that whichever of the four calls comes
-- next, `updateChannel` takes the channel for a registered one and stops at its first assertion.
pub set_interest-remove_channel :
    (i : Interest) (s : Poller) (c : ℕ)
    → IsConsistent s
    → s.channels (s.channel_at c).fd ≡ some c
    → (t u : Poller) × (set_interest disable_all s c ≡ ok t)
      × (remove_channel t c ≡ ok u)
      × (set_interest i u c ≡ err assertion)
unfolding set_interest
set_interest-remove_channel i s c v reg =
    let (t, u, done, removed, free, r, k, at) = unregister_at s c v reg in
    let mine : (with_channel u c (changed i (u.channel_at c))).channel_at c
        ≡ changed i (u.channel_at c) =
      update_self u.channel_at c (changed i (u.channel_at c)) in
    (
      t,
      u,
      done,
      removed,
      update_channel-refused (with_channel u c (changed i (u.channel_at c))) c k
          (ap (λ (x : Channel). u.channels x.fd) (mine ∙ ap (changed i) r.unchanged)
            ∙ ap (λ (f : ℤ → Option ℕ). f (t.channel_at c).fd) r.map
            ∙ update_ℤ_self t.channels (t.channel_at c).fd none)
          (ap (λ (x : Channel). x.index) (mine ∙ ap (changed i) r.unchanged) ∙ at),
    )
