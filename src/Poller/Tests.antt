-- ===== src/Poller/Tests.antt =====
-- A poller with two channels, and the theorems about it.
use mtnet.Prelude.{
  some_injective, false, ℕ, ◌≡◌, refl, ap, ◌∙◌, [], ◌∷◌, true, none, some, ok, err, assertion,
  get_elem?, ◌>>=◌, zero, suc,
}
use mtnet.Prelude.Int.{pos}
use mtnet.Prelude.Maps.{update}
use mtnet.Poller.Samples.{
  heap, reader, entry, ignored_entry, one, silenced, one-IsConsistent, silenced-IsConsistent,
}
use mtnet.Channel
use mtnet.Channel.{Channel, enable_reading, enable_writing, disable_all, change}
use mtnet.EventLoop.Iterate.{asked, iterate, iterate_lem}
use mtnet.Poller.Defs.{
  PollFd, Poller, Polled, is_positive_short, store_revents, init, is_negative, set_interest,
  add_channel, modify_channel, update_channel, remove_channel, fill_gap,
}
use mtnet.Poller.Invariant.{IsConsistent}
use mtnet.Poller.Active.{active_entries}
use mtnet.Poller.Polling.{Answers}
use mtnet.Poller.Remove.{Removed}
use mtnet.Poller.Interests.{set_interest-registered, set_interests, set_interests-ignored, changed}
use mtnet.Poller.Update.{modified}
use mtnet.Poller.Unregister.{unregister, set_interest-remove_channel}

both_registered :
    (set_interest enable_reading (init heap) 0 >>= λ s.
    set_interest enable_writing s 1 >>= λ t. ok t.pollfds)
    ≡ ok (
        record { fd = pos 3; events = 3; revents = 0 }
        ∷ record { fd = pos 4; events = 4; revents = 0 }
        ∷ [])
unfolding init set_interest update_channel add_channel change Channel.init
both_registered = refl

-- The last entry takes the place of the removed one.
removed_first :
    (set_interest enable_reading (init heap) 0 >>= λ s. set_interest enable_writing s 1 >>= λ t.
    set_interest disable_all t 0 >>= λ u. remove_channel u 0 >>= λ v. ok v.pollfds)
    ≡ ok (record { fd = pos 4; events = 4; revents = 0 } ∷ [])
unfolding init set_interest update_channel add_channel modify_channel remove_channel fill_gap change
    Channel.init
removed_first = refl

set_interest-registered_example :
    (t : Poller) × (set_interest enable_writing one 0 ≡ ok t)
    × IsConsistent t
    × (t.channels ≡ one.channels)
    × (t.channel_at ≡ update one.channel_at 0 (changed enable_writing reader))
    × (get_elem? t.pollfds 0 ≡ some (modified (changed enable_writing reader) entry))
unfolding Channel.init
set_interest-registered_example =
    set_interest-registered enable_writing one 0 0 entry one-IsConsistent refl refl refl

set_interests-ignored_example :
    (t : Poller) × (q : PollFd) × (set_interests (enable_reading ∷ enable_writing ∷ []) silenced 0
      ≡ ok t)
    × (get_elem? t.pollfds 0 ≡ some q)
    × (is_negative q.fd ≡ true)
unfolding Channel.init
set_interests-ignored_example =
    set_interests-ignored (enable_reading ∷ enable_writing ∷ []) silenced 0 0 ignored_entry
      silenced-IsConsistent refl refl refl refl

unregister_example :
    (t u : Poller) × (set_interest disable_all one 0 ≡ ok t)
    × (remove_channel t 0 ≡ ok u)
    × (u.channels (pos 3) ≡ none)
    × Removed t 0 u
unfolding Channel.init
unregister_example = unregister one 0 one-IsConsistent refl

set_interest-remove_channel_example :
    (t u : Poller) × (set_interest disable_all one 0 ≡ ok t)
    × (remove_channel t 0 ≡ ok u)
    × (set_interest enable_writing u 0 ≡ err assertion)
unfolding Channel.init
set_interest-remove_channel_example =
    set_interest-remove_channel enable_writing one 0 one-IsConsistent refl

-- POLLIN on the only entry.
abbrev readable : Polled
readable = record { num_events = pos 1; revents = 1 ∷ [] }

readable-Answers : Answers readable one
readable-Answers = record { counted = refl; ignored = ignored }
  where
    ignored :
        (i : ℕ) (p : PollFd)
        → get_elem? (store_revents one.pollfds readable.revents) i ≡ some p
        → is_negative p.fd ≡ true
        → is_positive_short p.revents ≡ false
    ignored zero p h neg =
        let e : record entry { revents = 1 } ≡ p = some_injective h in
        let clash : false ≡ true = ap (λ (x : PollFd). is_negative x.fd) e ∙ neg in cc
    ignored (suc i) p h neg = cc

-- What one round of the loop calls.
iterate_lem_example :
    (q : Poller) × (iterate readable (pos 9) one
      ≡ ok (q, asked one (pos 9) (active_entries (store_revents one.pollfds readable.revents))))
    × (q.channels ≡ one.channels)
    × (q.pollfds ≡ store_revents one.pollfds readable.revents)
iterate_lem_example = iterate_lem readable (pos 9) one one-IsConsistent readable-Answers
