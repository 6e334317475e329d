-- ===== src/TcpConnection/Balance.antt =====
-- What the moves of a `Pipe` keep: no byte is lost, doubled or reordered.
use mtnet.Prelude.{
  ℕ, ◌+◌, ◌≡◌, refl, sym, ap, ◌∙◌, List, [], ◌∷◌, ◌++◌, length, append-nil, append_assoc,
  length-append, Bool, true, false, ◌||◌, arith,
}
use mtnet.TcpConnection.Pipe.{
  Pipe, Label, accept, receive, close, consume, Move, accepts, delivers, closes, shuts, receives,
  consumes, Moves, here, next, accepted, received, consumed, has_close,
}

accepted-append : (ls ms : List Label) → accepted (ls ++ ms) ≡ accepted ls ++ accepted ms
accepted-append [] ms = refl
accepted-append (accept m ∷ ls) ms =
    ap (◌++◌ m) (accepted-append ls ms) ∙ sym (append_assoc m (accepted ls) (accepted ms))
accepted-append (receive m ∷ ls) ms = accepted-append ls ms
accepted-append (close ∷ ls) ms = accepted-append ls ms
accepted-append (consume n ∷ ls) ms = accepted-append ls ms

received-append : (ls ms : List Label) → received (ls ++ ms) ≡ received ls ++ received ms
received-append [] ms = refl
received-append (receive m ∷ ls) ms =
    ap (◌++◌ m) (received-append ls ms) ∙ sym (append_assoc m (received ls) (received ms))
received-append (accept m ∷ ls) ms = received-append ls ms
received-append (close ∷ ls) ms = received-append ls ms
received-append (consume n ∷ ls) ms = received-append ls ms

consumed-append : (ls ms : List Label) → consumed (ls ++ ms) ≡ consumed ls + consumed ms
consumed-append [] ms = omega arith
consumed-append (consume n ∷ ls) ms = omega (arith, consumed-append ls ms)
consumed-append (accept m ∷ ls) ms = consumed-append ls ms
consumed-append (close ∷ ls) ms = consumed-append ls ms
consumed-append (receive m ∷ ls) ms = consumed-append ls ms

has_close-append : (ls ms : List Label) → has_close (ls ++ ms) ≡ (has_close ls || has_close ms)
has_close-append [] ms = refl
has_close-append (close ∷ ls) ms = refl
has_close-append (accept m ∷ ls) ms = has_close-append ls ms
has_close-append (receive m ∷ ls) ms = has_close-append ls ms
has_close-append (consume n ∷ ls) ms = has_close-append ls ms

or_false : (b : Bool) → b ≡ (b || false)
or_false true = refl
or_false false = refl

or_true : (b : Bool) → true ≡ (b || true)
or_true true = refl
or_true false = refl

or_assoc : (a b c : Bool) → ((a || b) || c) ≡ (a || (b || c))
or_assoc true b c = refl
or_assoc false b c = refl

Move-closing :
    {p q : Pipe} {ls : List Label} → Move p ls q → q.closing ≡ (p.closing || has_close ls)
Move-closing {p} (accepts m e) = or_false p.closing
Move-closing {p} (delivers bytes rest e f) = or_false p.closing
Move-closing {p} closes = or_true p.closing
Move-closing {p} (shuts e f) = or_false p.closing
Move-closing {p} (receives bytes) = or_false p.closing
Move-closing {p} (consumes bytes rest e) = or_false p.closing

pub Moves-closing :
    {p q : Pipe} {ls : List Label} → Moves p ls q → q.closing ≡ (p.closing || has_close ls)
Moves-closing {p} here = or_false p.closing
Moves-closing {p} (next {ls = ls} {ms = ms} more m) =
    Move-closing m
    ∙ ap (λ b. b || has_close ms) (Moves-closing more)
    ∙ or_assoc p.closing (has_close ls) (has_close ms)
    ∙ ap (λ b. p.closing || b) (sym (has_close-append ls ms))

-- All bytes that a pipe has ever accepted.
abbrev outward : Pipe → List ℕ
outward p = p.delivered ++ p.queued

Move-outward : {p q : Pipe} {ls : List Label} → Move p ls q → outward q ≡ outward p ++ accepted ls
Move-outward {p} (accepts m e) =
    sym (append_assoc p.delivered p.queued m) ∙ ap (◌++◌ (outward p)) (sym (append-nil m))
Move-outward {p} (delivers bytes rest e f) =
    append_assoc p.delivered bytes rest
    ∙ ap (◌++◌ p.delivered) (sym f)
    ∙ sym (append-nil (outward p))
Move-outward {p} closes = sym (append-nil (outward p))
Move-outward {p} (shuts e f) = sym (append-nil (outward p))
Move-outward {p} (receives bytes) = sym (append-nil (outward p))
Move-outward {p} (consumes bytes rest e) = sym (append-nil (outward p))

-- The bytes delivered and those still queued are those from before and the accepted ones after them.
pub Moves-outward :
    {p q : Pipe} {ls : List Label}
    → Moves p ls q
    → q.delivered ++ q.queued ≡ (p.delivered ++ p.queued) ++ accepted ls
Moves-outward {p} here = sym (append-nil (outward p))
Moves-outward {p} (next {ls = ls} {ms = ms} more m) =
    Move-outward m
    ∙ ap (λ x. x ++ accepted ms) (Moves-outward more)
    ∙ append_assoc (outward p) (accepted ls) (accepted ms)
    ∙ ap (◌++◌ (outward p)) (sym (accepted-append ls ms))

abbrev Inward : Pipe → List Label → Pipe → Type 0
Inward p ls q =
    (taken : List ℕ) × (length taken ≡ consumed ls)
    × (taken ++ q.incoming ≡ p.incoming ++ received ls)

Move-Inward : {p q : Pipe} {ls : List Label} → Move p ls q → Inward p ls q
Move-Inward {p} (accepts m e) = ([], refl, sym (append-nil p.incoming))
Move-Inward {p} (delivers bytes rest e f) = ([], refl, sym (append-nil p.incoming))
Move-Inward {p} closes = ([], refl, sym (append-nil p.incoming))
Move-Inward {p} (shuts e f) = ([], refl, sym (append-nil p.incoming))
Move-Inward {p} (receives bytes) = ([], refl, ap (◌++◌ p.incoming) (sym (append-nil bytes)))
Move-Inward {p} (consumes bytes rest e) = (bytes, omega arith, sym e ∙ sym (append-nil p.incoming))

-- The bytes given out and those still there are those from before and the ones that came in after them.
pub Moves-Inward :
    {p q : Pipe} {ls : List Label}
    → Moves p ls q
    → (taken : List ℕ) × (length taken ≡ consumed ls)
      × (taken ++ q.incoming ≡ p.incoming ++ received ls)
Moves-Inward {p} here = ([], refl, sym (append-nil p.incoming))
Moves-Inward {p} (next {q} {r} {ls = ls} {ms = ms} more m) =
    let (first, many, kept) = Moves-Inward more in
    let (second, some, left) = Move-Inward m in
    (
      first ++ second,
      omega (arith, length-append first second, many, some, consumed-append ls ms),
      append_assoc first second r.incoming
          ∙ ap (◌++◌ first) left
          ∙ sym (append_assoc first q.incoming (received ms))
          ∙ ap (λ x. x ++ received ms) kept
          ∙ append_assoc p.incoming (received ls) (received ms)
          ∙ ap (◌++◌ p.incoming) (sym (received-append ls ms)),
    )
