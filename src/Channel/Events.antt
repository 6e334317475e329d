-- ===== src/Channel/Events.antt =====
-- The wanted events of a channel, whatever the sequence of changes.
use mtnet.Prelude.{
  ℕ, ◌≡◌, refl, ap, ◌∙◌, not, ◌||◌, ◌==◌, ◌<◌, ◌^◌, arith, Bool, true, false, List, [], ◌∷◌,
}
use mtnet.Channel.{
  Interest, enable_reading, enable_writing, disable_writing, disable_all, change, any_bit,
  read_event, write_event, none_event,
}

-- What a channel wants, seen as two switches.
pub record Wants : Type 0 where
  pub reading : Bool
  pub writing : Bool

abbrev pub want : Interest → Wants → Wants
want enable_reading w = record w { reading = true }
want enable_writing w = record w { writing = true }
want disable_writing w = record w { writing = false }
want disable_all w = record { reading = false; writing = false }

-- The event bits of two switches.
abbrev pub bits : Bool → Bool → ℕ
bits false false = 0
bits true false = 3
bits false true = 4
bits true true = 7

abbrev pub change_all : List Interest → ℕ → ℕ
change_all [] e = e
change_all (i ∷ is) e = change_all is (change i e)

abbrev pub want_all : List Interest → Wants → Wants
want_all [] w = w
want_all (i ∷ is) w = want_all is (want i w)

pub change-bits :
    (i : Interest) (r w : Bool)
    → let v = want i (record { reading = r; writing = w }) in
      change i (bits r w) ≡ bits v.reading v.writing
unfolding change
change-bits enable_reading false false = refl
change-bits enable_reading false true = refl
change-bits enable_reading true false = refl
change-bits enable_reading true true = refl
change-bits enable_writing false false = refl
change-bits enable_writing false true = refl
change-bits enable_writing true false = refl
change-bits enable_writing true true = refl
change-bits disable_writing false false = refl
change-bits disable_writing false true = refl
change-bits disable_writing true false = refl
change-bits disable_writing true true = refl
change-bits disable_all r w = refl

change_all-bits :
    (is : List Interest) (r w : Bool)
    → let v = want_all is (record { reading = r; writing = w }) in
      change_all is (bits r w) ≡ bits v.reading v.writing
change_all-bits [] r w = refl
change_all-bits (i ∷ is) r w =
    let v = want i (record { reading = r; writing = w }) in
    ap (change_all is) (change-bits i r w) ∙ change_all-bits is v.reading v.writing

-- What the bits of two switches say.
pub bits_tests :
    (r w : Bool)
    → (any_bit (bits r w) read_event ≡ r)
      × (any_bit (bits r w) write_event ≡ w)
      × ((bits r w == none_event) ≡ not (r || w))
      × (bits r w < 2 ^ 15)
bits_tests false false = (refl, refl, refl, omega arith)
bits_tests false true = (refl, refl, refl, omega arith)
bits_tests true false = (refl, refl, refl, omega arith)
bits_tests true true = (refl, refl, refl, omega arith)

-- After any sequence of enableReading, enableWriting, disableWriting and disableAll on a new
-- channel, the event bits are those of two switches that the calls set and reset: the masking with
-- `~KwriteEvent` and the unions never mix them up. `isWriting` is the writing switch,
-- `isNoneEvent` holds exactly when both are off, and the bits fit the `short` of a pollfd.
pub change_all_lem :
    (is : List Interest)
    → let e = change_all is none_event in
      let v = want_all is (record { reading = false; writing = false }) in
      (e ≡ bits v.reading v.writing)
      × (any_bit e read_event ≡ v.reading)
      × (any_bit e write_event ≡ v.writing)
      × ((e == none_event) ≡ not (v.reading || v.writing))
      × (e < 2 ^ 15)
change_all_lem is =
    let v = want_all is (record { reading = false; writing = false }) in
    let e = change_all-bits is false false in
    let t = bits_tests v.reading v.writing in (e, rw e (t.0), rw e (t.1), rw e (t.2), rw e (t.3))
