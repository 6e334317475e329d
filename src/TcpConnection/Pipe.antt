-- ===== src/TcpConnection/Pipe.antt =====
-- What a connection promises, with no buffers and no events: two queues of bytes, and a half-close that
-- comes last.
use mtnet.Prelude.{
  ℕ, ◌+◌, ◌≡◌, sym, subst, List, [], ◌∷◌, ◌++◌, length, append-nil, append_assoc, Bool, true, false,
}

-- Bytes accepted and not yet delivered, bytes delivered, bytes received and not yet consumed, whether
-- no more may be accepted, and whether the peer was told so.
pub record Pipe : Type 0 where
  pub queued : List ℕ
  pub delivered : List ℕ
  pub incoming : List ℕ
  pub closing : Bool
  pub shut : Bool

-- What is asked of a pipe: to accept bytes, to close, to take bytes that came in, and to give some of
-- them out.
pub data Label : Type 0 where
  accept receive : List ℕ → Label
  close : Label
  consume : ℕ → Label

-- A move, with what it was asked for; deliveries and the half-close are not asked for.
pub data Move (p : Pipe) : List Label → Pipe → Type 0 where
  accepts :
      (m : List ℕ)
      → p.closing ≡ false
      → Move p (accept m ∷ []) (record p { queued = p.queued ++ m })
  delivers :
      (bytes rest : List ℕ)
      → p.shut ≡ false
      → p.queued ≡ bytes ++ rest
      → Move p [] (record p { queued = rest; delivered = p.delivered ++ bytes })
  closes : Move p (close ∷ []) (record p { closing = true })
  shuts : p.closing ≡ true → p.queued ≡ [] → Move p [] (record p { shut = true })
  receives :
      (bytes : List ℕ) → Move p (receive bytes ∷ []) (record p { incoming = p.incoming ++ bytes })
  consumes :
      (bytes rest : List ℕ)
      → p.incoming ≡ bytes ++ rest
      → Move p (consume (length bytes) ∷ []) (record p { incoming = rest })

pub data Moves (p : Pipe) : List Label → Pipe → Type 0 where
  here : Moves p [] p
  next : {q r : Pipe} {ls ms : List Label} → Moves p ls q → Move q ms r → Moves p (ls ++ ms) r

pub Moves-trans :
    {p q r : Pipe} {ls ms : List Label} → Moves p ls q → Moves q ms r → Moves p (ls ++ ms) r
Moves-trans {p} {q} {r} {ls} ms here = subst (λ l. Moves p l q) (sym (append-nil ls)) ms
Moves-trans {p} {q} {r} {ls} ms (next {ls = ks} {ms = js} ns n) =
    subst (λ l. Moves p l r) (append_assoc ls ks js) (next (Moves-trans ms ns) n)

-- The bytes that were to be accepted, those that came in, how many were to be given out, and whether
-- the pipe was to close.
abbrev pub accepted : List Label → List ℕ
accepted [] = []
accepted (accept m ∷ ls) = m ++ accepted ls
accepted (receive m ∷ ls) = accepted ls
accepted (close ∷ ls) = accepted ls
accepted (consume n ∷ ls) = accepted ls

abbrev pub received : List Label → List ℕ
received [] = []
received (accept m ∷ ls) = received ls
received (receive m ∷ ls) = m ++ received ls
received (close ∷ ls) = received ls
received (consume n ∷ ls) = received ls

abbrev pub consumed : List Label → ℕ
consumed [] = 0
consumed (accept m ∷ ls) = consumed ls
consumed (receive m ∷ ls) = consumed ls
consumed (close ∷ ls) = consumed ls
consumed (consume n ∷ ls) = n + consumed ls

abbrev pub has_close : List Label → Bool
has_close [] = false
has_close (accept m ∷ ls) = has_close ls
has_close (receive m ∷ ls) = has_close ls
has_close (close ∷ ls) = true
has_close (consume n ∷ ls) = has_close ls

-- Pipes with equal parts are equal.
pub Pipe_eq :
    {p q : Pipe}
    → p.queued ≡ q.queued
    → p.delivered ≡ q.delivered
    → p.incoming ≡ q.incoming
    → p.closing ≡ q.closing
    → p.shut ≡ q.shut
    → p ≡ q
Pipe_eq a b c d e =
    λ i. record { queued = a i; delivered = b i; incoming = c i; closing = d i; shut = e i }
