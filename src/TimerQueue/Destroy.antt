-- ===== src/TimerQueue/Destroy.antt =====
-- `~TimerQueue()` of mtnet/TimerQueue.cc.
use mtnet.Prelude.{ℕ, ◌≡◌, refl, sym, ◌∙◌, List, [], ◌∷◌, Option, none, ok}
use mtnet.Prelude.Maps.{update, update_self, update_ne}
use mtnet.TimerQueue.Defs.{Timer, Entry, TimerQueue, delete_all, destroy}
use mtnet.TimerQueue.Order.{All, Sorted, Apart}
use mtnet.TimerQueue.Queue.{Live, IsValid}
use mtnet.TimerQueue.Handle.{first-Apart}

module _ {D : Type 0} where
  -- The others stay when one is deleted.
  update-Live :
      (h : ℕ → Option (Timer D)) (p : ℕ) (xs : List Entry)
      → All (Apart p) xs
      → All (Live h) xs
      → All (Live (update h p none)) xs
  update-Live h p [] a l = tt
  update-Live h p (x ∷ xs) (a, apart) ((small, (t, at, time)), ls) =
      ((small, (t, update_ne h p none x.timer a ∙ at, time)), update-Live h p xs apart ls)

  -- What `delete_all` leaves.
  record Deleted (es : List Entry) (h h' : ℕ → Option (Timer D)) : Type 0 where
    pub gone : All (λ e. h' e.timer ≡ none) es
    pub others : (p : ℕ) → All (Apart p) es → h' p ≡ h p

  delete_all_lem :
      (es : List Entry) (h : ℕ → Option (Timer D))
      → Sorted es
      → All (Live h) es
      → (h' : ℕ → Option (Timer D)) × (delete_all es h ≡ ok h') × Deleted es h h'
  unfolding delete_all
  delete_all_lem [] h s l = (h, refl, record { gone = tt; others = λ p a. refl })
  delete_all_lem (e ∷ es) h (b, s) ((small, (t, at, time)), ls) =
      let apart = first-Apart h e es b (small, (t, at, time)) ls in
      let (h', done, d) =
        delete_all_lem es (update h e.timer none) s (update-Live h e.timer es apart ls) in
      (
        h',
        rw at done,
        record {
          gone = (d.others e.timer apart ∙ update_self h e.timer none, d.gone);
          others = λ p a. d.others p a.1 ∙ update_ne h e.timer none p (λ same. a.0 (sym same));
        },
      )

  -- The destructor of a valid queue deletes every timer of the set, each one once, and no other.
  pub destroy_lem :
      (q : TimerQueue D)
      → IsValid q
      → (h : ℕ → Option (Timer D)) × (destroy q ≡ ok h)
        × All (λ e. h e.timer ≡ none) q.timers
        × ((p : ℕ) → All (Apart p) q.timers → h p ≡ q.timer_at p)
  unfolding destroy
  destroy_lem q v =
      let (h, done, d) = delete_all_lem q.timers q.timer_at v.sorted v.live in
      (h, done, d.gone, d.others)
