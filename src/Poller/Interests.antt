-- ===== src/Poller/Interests.antt =====
-- enableReading, enableWriting, disableWriting and disableAll of mtnet/Channel.h on the poller.
use mtnet.Prelude.{
  ℕ, ◌≡◌, refl, ap, ◌∙◌, List, [], ◌∷◌, ◌++◌, length, true, false, Option, none, some, get_elem?,
  ok, Result, ◌>>=◌, Bool-cases, inl, inr,
}
use mtnet.Prelude.Int.{ℤ, pos, negsuc}
use mtnet.Prelude.Maps.{update, update_ℤ, update_self, update-update}
use mtnet.Channel.{Channel, is_none_event, Interest, change}
use mtnet.Poller.Defs.{to_short, PollFd, Poller, flip, is_negative, set_interest}
use mtnet.Poller.Invariant.{IsConsistent, channel-IsConsistent}
use mtnet.Poller.Update.{update_channel-add, update_channel-modify, modified}

-- The channel with its new wants.
abbrev pub changed : Interest → Channel → Channel
changed i ch = record ch { events = change i ch.events }

abbrev pub with_channel : Poller → ℕ → Channel → Poller
with_channel s c ch = record s { channel_at = update s.channel_at c ch }

changed_self :
    (i : Interest) (s : Poller) (c : ℕ)
    → (with_channel s c (changed i (s.channel_at c))).channel_at c ≡ changed i (s.channel_at c)
changed_self i s c = update_self s.channel_at c (changed i (s.channel_at c))

changed-IsConsistent :
    (i : Interest) {s : Poller} (c : ℕ)
    → IsConsistent s
    → IsConsistent (with_channel s c (changed i (s.channel_at c)))
changed-IsConsistent i {s} c v = channel-IsConsistent c (changed i (s.channel_at c)) refl refl v

-- The entry of a new channel.
abbrev pub new_entry : Channel → PollFd
new_entry ch = record { fd = ch.fd; events = to_short ch.events; revents = 0 }

-- In a consistent poller, a channel that was never registered, on a descriptor that is not negative
-- and that no registered channel has, is registered by any of the four calls: no assertion fails,
-- and the poller stays consistent. An entry with the channel's new events is added at the end of the
-- array, the map gets the channel under its descriptor and nothing else, and of the channels only this
-- one changes, in its events and its index, which is that of the entry.
pub set_interest-new :
    (i : Interest) (s : Poller) (c : ℕ)
    → IsConsistent s
    → is_negative (s.channel_at c).index ≡ true
    → is_negative (s.channel_at c).fd ≡ false
    → s.channels (s.channel_at c).fd ≡ none
    → let ch = changed i (s.channel_at c) in
      (t : Poller) × (set_interest i s c ≡ ok t)
      × IsConsistent t
      × (t.pollfds ≡ s.pollfds ++ new_entry ch ∷ [])
      × (t.channels ≡ update_ℤ s.channels ch.fd (some c))
      × (t.channel_at ≡ update s.channel_at c (record ch { index = pos (length s.pollfds) }))
unfolding set_interest
set_interest-new i s c v new nonneg absent =
    let e = changed_self i s c in
    let ch = changed i (s.channel_at c) in
    let (t, done, valid, form) =
      update_channel-add (changed-IsConsistent i c v) c
        (ap (λ (x : Channel). is_negative x.index) e ∙ new)
        (ap (λ (x : Channel). is_negative x.fd) e ∙ nonneg)
        (ap (λ (x : Channel). s.channels x.fd) e ∙ absent) in
    let of_channel = λ (x : Channel).
      update (update s.channel_at c ch) c (record x { index = pos (length s.pollfds) }) in
    (
      t,
      done,
      valid,
      ap (λ (u : Poller). u.pollfds) form ∙ ap (λ (x : Channel). s.pollfds ++ new_entry x ∷ []) e,
      ap (λ (u : Poller). u.channels) form
          ∙ ap (λ (x : Channel). update_ℤ s.channels x.fd (some c)) e,
      ap (λ (u : Poller). u.channel_at) form
          ∙ ap of_channel e
          ∙ update-update s.channel_at c ch (record ch { index = pos (length s.pollfds) }),
    )

-- In a consistent poller any of the four calls on a registered channel succeeds: no assertion
-- fails, the poller stays consistent, the same channels stay registered, no other channel changes,
-- and the channel's entry holds its new events, no old `revents`, and the descriptor -fd - 1 if the
-- channel now wants no event, else the one that it held before.
pub set_interest-registered :
    (i : Interest) (s : Poller) (c k : ℕ) (pfd : PollFd)
    → IsConsistent s
    → s.channels (s.channel_at c).fd ≡ some c
    → (s.channel_at c).index ≡ pos k
    → get_elem? s.pollfds k ≡ some pfd
    → (t : Poller) × (set_interest i s c ≡ ok t)
      × IsConsistent t
      × (t.channels ≡ s.channels)
      × (t.channel_at ≡ update s.channel_at c (changed i (s.channel_at c)))
      × (get_elem? t.pollfds k ≡ some (modified (changed i (s.channel_at c)) pfd))
unfolding set_interest
set_interest-registered i s c k pfd v reg at here =
    let e = changed_self i s c in
    let (t, done, valid, same, heap, new) =
      update_channel-modify (changed-IsConsistent i c v) c k pfd
        (ap (λ (x : Channel). s.channels x.fd) e ∙ reg) (ap (λ (x : Channel). x.index) e ∙ at)
        here in
    (t, done, valid, same, heap, new ∙ ap (λ (x : Channel). some (modified x pfd)) e)

-- Several of the calls, one after the other.
pub set_interests : List Interest → Poller → ℕ → Result Poller
set_interests [] s c = ok s
set_interests (i ∷ is) s c = set_interest i s c >>= (λ t. set_interests is t c)

modified-negative :
    (ch : Channel) (pfd : PollFd)
    → is_negative ch.fd ≡ false
    → is_negative pfd.fd ≡ true
    → is_negative (modified ch pfd).fd ≡ true
modified-negative ch pfd nonneg neg = elim (Bool-cases (is_none_event ch)) [
  | inl quiet ↦ rw quiet (flip-negative ch.fd nonneg)
  | inr busy ↦ rw busy neg
]
  where
    flip-negative : (x : ℤ) → is_negative x ≡ false → is_negative (flip x) ≡ true
    flip-negative (pos n) h = refl
    flip-negative (negsuc n) h = cc

-- A registered channel whose entry is ignored, as it is after disableAll, stays ignored through
-- every later sequence of the four calls, also if these enable reading or writing again: they
-- succeed and leave the descriptor of its entry negative, so that poll(2) never reports it.
pub set_interests-ignored :
    (is : List Interest) (s : Poller) (c k : ℕ) (pfd : PollFd)
    → IsConsistent s
    → s.channels (s.channel_at c).fd ≡ some c
    → (s.channel_at c).index ≡ pos k
    → get_elem? s.pollfds k ≡ some pfd
    → is_negative pfd.fd ≡ true
    → (t : Poller) × (q : PollFd) × (set_interests is s c ≡ ok t)
      × (get_elem? t.pollfds k ≡ some q)
      × (is_negative q.fd ≡ true)
unfolding set_interests
set_interests-ignored [] s c k pfd v reg at here neg = (s, pfd, refl, here, neg)
set_interests-ignored (i ∷ is) s c k pfd v reg at here neg =
    let (t, done, valid, same, heap, new) = set_interest-registered i s c k pfd v reg at here in
    let mine : t.channel_at c ≡ changed i (s.channel_at c) =
      ap (λ (f : ℕ → Channel). f c) heap ∙ changed_self i s c in
    let nonneg = (v.place (s.channel_at c).fd c reg).2 in
    let (u, q, rest, there, neg') =
      set_interests-ignored is t c k (modified (changed i (s.channel_at c)) pfd) valid
        (ap (λ (x : Channel). t.channels x.fd) mine
          ∙ ap (λ (f : ℤ → Option ℕ). f (s.channel_at c).fd) same
          ∙ reg)
        (ap (λ (x : Channel). x.index) mine ∙ at) new
        (modified-negative (changed i (s.channel_at c)) pfd nonneg neg) in
    (u, q, rw (done, set_interests) rest, there, neg')
