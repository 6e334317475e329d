-- ===== src/Poller/Remove.antt =====
-- `removeChannel` of mtnet/Poller.cc: the last entry fills the gap, and its channel is told.
use mtnet.Prelude.{
  some_injective, none-ne-some, ℕ, ◌+◌, ◌-◌, ◌<◌, ◌≡◌, ◌≢◌, refl, sym, ap, ◌∙◌, inl, inr, true,
  false, Option, none, some, length, get_elem?, arith, ok, length-take, lt→ltb, get_elem?-take,
  get_elem?_bound, get_elem?-some, if◌then◌else◌, ==_iff, ◌==◌,
}
use mtnet.Prelude.Int.{pos_injective, ℤ, pos, negsuc, eqb_ℤ_iff}
use mtnet.Prelude.Maps.{
  update, update_self, update_ne, update_ℤ, update_ℤ_self, update_ℤ_ne, ℕ-cases,
}
use mtnet.Channel.{Channel, is_none_event}
use mtnet.Poller.Defs.{
  PollFd, Poller, flip, is_negative, to_int, pop_back, fill_gap, remove_channel, or_out_of_bounds,
}
use mtnet.Poller.Swap.{swapped, length-swapped, get-swapped_self, get-swapped_ne}
use mtnet.Poller.Invariant.{IsConsistent, Owned, Placed, abs_fd, owner-at}

-- The entry `p` is channel `d`'s.
abbrev pub Entry : Poller → ℕ → PollFd → Type 0
Entry s d p = (j : ℕ) × ((s.channel_at d).index ≡ pos j) × (get_elem? s.pollfds j ≡ some p)

-- What `removeChannel` leaves: a consistent poller with every entry but the channel's, each
-- remaining channel knowing its own, and the channel itself as it was, its index included.
pub record Removed (s : Poller) (c : ℕ) (t : Poller) : Type 0 where
  pub valid : IsConsistent t
  pub map : t.channels ≡ update_ℤ s.channels (s.channel_at c).fd none
  pub shorter : length t.pollfds + 1 ≡ length s.pollfds
  pub unchanged : t.channel_at c ≡ s.channel_at c
  pub kept : (fd : ℤ) (d : ℕ) (p : PollFd) → t.channels fd ≡ some d → Entry s d p → Entry t d p

module _ {s : Poller} (v : IsConsistent s) (c i : ℕ) (pfd : PollFd)
    (reg : s.channels (s.channel_at c).fd ≡ some c) (at : (s.channel_at c).index ≡ pos i)
    (here : get_elem? s.pollfds i ≡ some pfd) where
  abbrev erased : ℤ → Option ℕ
  erased = update_ℤ s.channels (s.channel_at c).fd none

  -- An entry at another place belongs to another descriptor.
  other-fd :
      (j : ℕ) (p : PollFd)
      → get_elem? s.pollfds j ≡ some p
      → j ≢ i
      → abs_fd p.fd ≢ (s.channel_at c).fd
  other-fd j p h ne e =
      let (d, reg', at') = v.owner j p h in
      let same : d ≡ c = some_injective (sym reg' ∙ ap s.channels e ∙ reg) in
      ne (pos_injective (sym at' ∙ ap (λ k. (s.channel_at k).index) same ∙ at))

  -- A descriptor other than the removed one has its entry at another place.
  other-place :
      (fd : ℤ) (d j : ℕ) (p : PollFd)
      → fd ≢ (s.channel_at c).fd
      → get_elem? s.pollfds j ≡ some p
      → abs_fd p.fd ≡ fd
      → j ≢ i
  other-place fd d j p ne h same e =
      let q : p ≡ pfd = some_injective (sym h ∙ ap (get_elem? s.pollfds) e ∙ here) in
      ne (sym same ∙ ap (λ (x : PollFd). abs_fd x.fd) q ∙ owner-at v _ c i pfd reg at here)

  abbrev last : ℕ
  last = length s.pollfds - 1

  abbrev popped : Poller
  popped = record s { pollfds = pop_back s.pollfds; channels = erased }

  length-popped : length (pop_back s.pollfds) ≡ last
  length-popped = omega (arith, length-take last s.pollfds)

  erased-ne : (fd : ℤ) (d : ℕ) → erased fd ≡ some d → fd ≢ (s.channel_at c).fd
  erased-ne fd d h gone =
      none-ne-some (ap erased gone ∙ update_ℤ_self s.channels (s.channel_at c).fd none) h

  erased-old : (fd : ℤ) (d : ℕ) → erased fd ≡ some d → s.channels fd ≡ some d
  erased-old fd d h =
      sym (update_ℤ_ne s.channels (s.channel_at c).fd none fd (erased-ne fd d h)) ∙ h

  popped-entry :
      i ≡ last
      → (fd : ℤ) (d j : ℕ) (p : PollFd) → fd ≢ (s.channel_at c).fd
      → (s.channel_at d).index ≡ pos j
      → get_elem? s.pollfds j ≡ some p
      → abs_fd p.fd ≡ fd
      → Entry popped d p
  popped-entry e fd d j p ne at' old same =
      let apart : j ≢ i = other-place fd d j p ne old same in
      let bound : j < last = omega (arith, get_elem?_bound _ j old) in
      (j, at', get_elem?-take last s.pollfds j bound ∙ old)

  popped-place : i ≡ last → (fd : ℤ) (d : ℕ) → erased fd ≡ some d → Placed popped fd d
  popped-place e fd d h =
      let (j, p, nonneg, own, at', old, same) = v.place fd d (erased-old fd d h) in
      let (j', new_index, new) = popped-entry e fd d j p (erased-ne fd d h) at' old same in
      (j', p, nonneg, own, new_index, new, same)

  popped-IsConsistent : i ≡ last → IsConsistent popped
  popped-IsConsistent e = record {
    owner = λ j p h.
        let bound : j < last = omega (arith, get_elem?_bound _ j h, length-popped) in
        let old : get_elem? s.pollfds j ≡ some p =
          sym (get_elem?-take last s.pollfds j bound) ∙ h in
        let (d, reg', at') = v.owner j p old in
        let apart : j ≢ i = omega arith in
        (
          d,
          update_ℤ_ne s.channels (s.channel_at c).fd none (abs_fd p.fd) (other-fd j p old apart)
              ∙ reg',
          at',
        );
    place = popped-place e;
  }

  -- The last entry, of channel `d`, takes the place of the removed one.
  module _ (inner : i ≢ last) (back : PollFd) (d : ℕ)
      (back_at : get_elem? s.pollfds last ≡ some back)
      (back_reg : s.channels (abs_fd back.fd) ≡ some d)
      (back_index : (s.channel_at d).index ≡ pos last) where
    abbrev filled : Poller
    filled = record {
      pollfds = swapped s.pollfds i back pfd;
      channels = erased;
      channel_at = update s.channel_at d (record (s.channel_at d) { index = pos i });
    }

    before_last : i < last
    before_last = omega (arith, get_elem?_bound _ i here)

    filled-index_self : (filled.channel_at d).index ≡ pos i
    filled-index_self = ap (λ (x : Channel). x.index) (update_self s.channel_at d _)

    -- A channel whose entry is not the last keeps its index.
    filled-index_ne :
        (e j : ℕ) → j ≢ last → (s.channel_at e).index ≡ pos j → (filled.channel_at e).index ≡ pos j
    filled-index_ne e j ne at' =
        ap (λ (x : Channel). x.index)
          (update_ne s.channel_at d _ e (λ same.
            ne (pos_injective (sym at' ∙ ap (λ k. (s.channel_at k).index) same ∙ back_index))))
        ∙ at'

    filled-fd : (e : ℕ) → (filled.channel_at e).fd ≡ (s.channel_at e).fd
    filled-fd e = elim (ℕ-cases e d) [
      | inl same ↦ rw same (ap (λ (x : Channel). x.fd) (update_self s.channel_at d _))
      | inr ne ↦ ap (λ (x : Channel). x.fd) (update_ne s.channel_at d _ e ne)
    ]

    filled-owner : (j : ℕ) (p : PollFd) → get_elem? filled.pollfds j ≡ some p → Owned filled j p
    filled-owner j p h =
        let bound : j < last =
          omega (arith, get_elem?_bound _ j h, length-swapped s.pollfds i back pfd) in
        elim (ℕ-cases i j) [
          | inl e ↦
              let b : back ≡ p = some_injective (
                sym (get-swapped_self s.pollfds i back pfd before_last)
                ∙ ap (get_elem? filled.pollfds) e
                ∙ h) in
              (
                d,
                ap (λ (x : PollFd). erased (abs_fd x.fd)) (sym b)
                    ∙ update_ℤ_ne s.channels (s.channel_at c).fd none (abs_fd back.fd)
                        (other-fd last back back_at (λ e'. inner (sym e')))
                    ∙ back_reg,
                filled-index_self ∙ ap pos e,
              )
          | inr ne ↦
              let old : get_elem? s.pollfds j ≡ some p =
                sym (get-swapped_ne s.pollfds i back pfd j bound ne) ∙ h in
              let (e, reg', at') = v.owner j p old in
              (
                e,
                update_ℤ_ne s.channels (s.channel_at c).fd none (abs_fd p.fd)
                      (other-fd j p old (λ e'. ne (sym e')))
                    ∙ reg',
                filled-index_ne e j (omega arith) at',
              )
        ]

    -- Each remaining channel keeps its entry, the last one at its new place.
    filled-entry :
        (fd : ℤ) (e j : ℕ) (p : PollFd)
        → fd ≢ (s.channel_at c).fd
        → s.channels fd ≡ some e
        → (s.channel_at e).index ≡ pos j
        → get_elem? s.pollfds j ≡ some p
        → abs_fd p.fd ≡ fd
        → Entry filled e p
    filled-entry fd e j p ne reg' at' old same =
        let apart : j ≢ i = other-place fd e j p ne old same in
        elim (ℕ-cases j last) [
          | inl is_last ↦
              let b : back ≡ p =
                some_injective (sym back_at ∙ ap (get_elem? s.pollfds) (sym is_last) ∙ old) in
              let fd_back : abs_fd back.fd ≡ fd = ap (λ (x : PollFd). abs_fd x.fd) b ∙ same in
              let is_d : d ≡ e = some_injective (sym back_reg ∙ ap s.channels fd_back ∙ reg') in
              (
                i,
                ap (λ k. (filled.channel_at k).index) (sym is_d) ∙ filled-index_self,
                get-swapped_self s.pollfds i back pfd before_last ∙ ap some b,
              )
          | inr ne_last ↦
              let bound : j < last = omega (arith, get_elem?_bound _ j old) in
              (
                j,
                filled-index_ne e j ne_last at',
                get-swapped_ne s.pollfds i back pfd j bound (λ e'. apart (sym e')) ∙ old,
              )
        ]

    filled-place : (fd : ℤ) (e : ℕ) → erased fd ≡ some e → Placed filled fd e
    filled-place fd e h =
        let ne = erased-ne fd e h in
        let reg' = erased-old fd e h in
        let (j, p, nonneg, own, at', old, same) = v.place fd e reg' in
        let (j', new_index, new) = filled-entry fd e j p ne reg' at' old same in
        (j', p, nonneg, filled-fd e ∙ own, new_index, new, same)

    filled-IsConsistent : IsConsistent filled
    filled-IsConsistent = record { owner = filled-owner; place = filled-place }

  -- `removeChannel` of an ignored entry, to the end.
  remove_channel-fill_gap :
      is_none_event (s.channel_at c) ≡ true
      → pfd.fd ≡ flip (s.channel_at c).fd
      → (to_int pfd.events == (s.channel_at c).events) ≡ true
      → remove_channel s c ≡ fill_gap (record s { channels = erased }) i pfd
  unfolding remove_channel
  remove_channel-fill_gap quiet ignored_fd synced = rw (
    reg,
    (==_iff c c).1 refl,
    quiet,
    at,
    lt→ltb i (length s.pollfds) (get_elem?_bound _ i here),
    here,
    (eqb_ℤ_iff pfd.fd (flip (s.channel_at c).fd)).1 ignored_fd,
    synced,
  )

  fill_gap-last :
      i ≡ last
      → (t : Poller) × (fill_gap (record s { channels = erased }) i pfd ≡ ok t) × Removed s c t
  unfolding fill_gap
  fill_gap-last e = (
    popped,
    rw ((==_iff i last).1 e),
    record {
      valid = popped-IsConsistent e;
      map = refl;
      shorter = omega (arith, length-popped, get_elem?_bound _ i here);
      unchanged = refl;
      kept = λ fd d p h en.
          popped-entry e fd d en.0 p (erased-ne fd d h) en.1 en.2
            (owner-at v fd d en.0 p (erased-old fd d h) en.1 en.2);
    },
  )

  fill_gap-inner :
      i ≢ last
      → (t : Poller) × (fill_gap (record s { channels = erased }) i pfd ≡ ok t) × Removed s c t
  unfolding fill_gap
  fill_gap-inner inner =
      let bound = get_elem?_bound _ i here in
      let (back, back_at) = get_elem?-some s.pollfds last (omega (arith, bound)) in
      let (d, back_reg, back_index) = v.owner last back back_at in
      let other : (i == last) ≡ false = ground (arith, inner) in
      let apart : last ≢ i = λ e. inner (sym e) in
      let lookup : or_out_of_bounds (erased (abs_fd back.fd)) ≡ ok d = ap or_out_of_bounds (
        update_ℤ_ne s.channels (s.channel_at c).fd none (abs_fd back.fd)
          (other-fd last back back_at apart)
        ∙ back_reg) in
      let c_ne : c ≢ d =
        λ e. inner (pos_injective (sym at ∙ ap (λ k. (s.channel_at k).index) e ∙ back_index)) in
      (
        filled inner back d back_at back_reg back_index,
        rw (other, back_at, channel_at_end back.fd, lookup),
        record {
          valid = filled-IsConsistent inner back d back_at back_reg back_index;
          map = refl;
          shorter = omega (arith, length-swapped s.pollfds i back pfd, bound);
          unchanged = update_ne s.channel_at d _ c c_ne;
          kept = λ fd k p h en.
              filled-entry inner back d back_at back_reg back_index fd k en.0 p (erased-ne fd k h)
                (erased-old fd k h) en.1 en.2
                (owner-at v fd k en.0 p (erased-old fd k h) en.1 en.2);
        },
      )
    where
      channel_at_end : (x : ℤ) → (if is_negative x then flip x else x) ≡ abs_fd x
      channel_at_end (pos n) = refl
      channel_at_end (negsuc n) = refl

  pub remove_channel_lem :
      is_none_event (s.channel_at c) ≡ true
      → pfd.fd ≡ flip (s.channel_at c).fd
      → (to_int pfd.events == (s.channel_at c).events) ≡ true
      → (t : Poller) × (remove_channel s c ≡ ok t) × Removed s c t
  remove_channel_lem quiet ignored_fd synced =
      let done = remove_channel-fill_gap quiet ignored_fd synced in
      elim (ℕ-cases i last) [
        | inl e ↦ let (t, filled_up, r) = fill_gap-last e in (t, done ∙ filled_up, r)
        | inr ne ↦ let (t, filled_up, r) = fill_gap-inner ne in (t, done ∙ filled_up, r)
      ]
