-- ===== src/TcpServer/Life/Effects.antt =====
-- The effects of mtnet/TcpConnection.cc that make up the life of a connection, and what leaves it alone.
use mtnet.Prelude.{
  ℕ, ◌+◌, ◌≡◌, refl, sym, ap, ◌∙◌, subst, List, [], ◌∷◌, ◌++◌, Bool, true, false, if◌then◌else◌,
  append-nil, Bool-cases, inl, inr, ok, ok_injective, arith,
}
use mtnet.Prelude.Bags.{bit, count, count-append}
use mtnet.Buffer.{Buffer}
use mtnet.Channel.{Interest}
use mtnet.TcpConnection.Defs.{
  TcpConnection, State, connecting, connected, disconnecting, disconnected, Effect, sent,
  shut_write, write_complete, connection_callback, message_callback, close_callback, remove_channel,
  write_error, handle_error, emit, emit_if, want,
}
use mtnet.TcpServer.Life.Defs.{is_close, closes}

-- The effects that belong to the life of a connection.
abbrev pub is_life : Effect → Bool
is_life connection_callback = true
is_life close_callback = true
is_life remove_channel = true
is_life _ = false

abbrev pub life : List Effect → List Effect
life [] = []
life (e ∷ es) = if is_life e then e ∷ life es else life es

pub life-append : (xs ys : List Effect) → life (xs ++ ys) ≡ life xs ++ life ys
life-append [] ys = refl
life-append (x ∷ xs) ys = elim (Bool-cases (is_life x)) [
  | inl e ↦ rw (e, life-append xs ys) refl
  | inr e ↦ rw (e, life-append xs ys) refl
]

close-life :
    (e : Effect) (es : List Effect)
    → count is_close (life (e ∷ es)) ≡ bit (is_close e) + count is_close (life es)
close-life connection_callback es = refl
close-life close_callback es = refl
close-life remove_channel es = refl
close-life (sent m) es = omega arith
close-life shut_write es = omega arith
close-life write_complete es = omega arith
close-life message_callback es = omega arith
close-life write_error es = omega arith
close-life handle_error es = omega arith

pub count-life : (es : List Effect) → count is_close (life es) ≡ count is_close es
count-life [] = refl
count-life (e ∷ es) = close-life e es ∙ ap (λ n. bit (is_close e) + n) (count-life es)

-- Before, during and after the time in which `connectEstablished` has run and `connectDestroyed` has
-- not.
abbrev pub stage : State → ℕ
stage connecting = 0
stage connected = 1
stage disconnecting = 1
stage disconnected = 2

pub record IsSame (c d : TcpConnection) : Type 0 where
  pub stage_same : stage d.state ≡ stage c.state
  pub life_same : life d.effects ≡ life c.effects

pub record IsClosing (c d : TcpConnection) : Type 0 where
  pub was : stage c.state ≡ 1
  pub stays : stage d.state ≡ 1
  pub life_closed : life d.effects ≡ life c.effects ++ close_callback ∷ []
  pub wants_none : d.events ≡ 0

pub IsSame-refl : (c : TcpConnection) → IsSame c c
IsSame-refl c = record { stage_same = refl; life_same = refl }

pub IsSame-trans : (a b c : TcpConnection) → IsSame a b → IsSame b c → IsSame a c
IsSame-trans a b c p q = record {
  stage_same = q.stage_same ∙ p.stage_same;
  life_same = q.life_same ∙ p.life_same;
}

-- An effect that is not one of the life.
pub emit-IsSame : (e : Effect) (c : TcpConnection) → is_life e ≡ false → IsSame c (emit e c)
emit-IsSame e c h = record {
  stage_same = refl;
  life_same =
      life-append c.effects (e ∷ [])
      ∙ ap (λ l. life c.effects ++ l) (quiet (is_life e) h)
      ∙ append-nil (life c.effects);
}
  where
    quiet : (b : Bool) → b ≡ false → (if b then e ∷ [] else []) ≡ []
    quiet true p = cc
    quiet false p = refl

pub emit_if-IsSame :
    (b : Bool) (e : Effect) (c : TcpConnection) → is_life e ≡ false → IsSame c (emit_if b e c)
emit_if-IsSame true e c h = emit-IsSame e c h
emit_if-IsSame false e c h = IsSame-refl c

pub want-IsSame : (i : Interest) (c : TcpConnection) → IsSame c (want i c)
want-IsSame i c = record { stage_same = refl; life_same = refl }

pub if-IsSame :
    (b : Bool) (c d e : TcpConnection) → IsSame c d → IsSame c e → IsSame c (if b then d else e)
if-IsSame true c d e p q = p
if-IsSame false c d e p q = q

pub buffer-IsSame : (b : Buffer) (c : TcpConnection) → IsSame c (record c { output_buffer = b })
buffer-IsSame b c = record { stage_same = refl; life_same = refl }

pub ok-IsSame : (b c d : TcpConnection) → IsSame b c → ok c ≡ ok d → IsSame b d
ok-IsSame b c d p e = subst (λ x. IsSame b x) (ok_injective e) p

-- How often `closeCallback_` is called meanwhile.
pub closes-IsSame : (c d : TcpConnection) → IsSame c d → closes d ≡ closes c
closes-IsSame c d s =
    sym (count-life d.effects) ∙ ap (count is_close) s.life_same ∙ count-life c.effects

pub closes-IsClosing : (c d : TcpConnection) → IsClosing c d → closes d ≡ closes c + 1
closes-IsClosing c d s =
    sym (count-life d.effects)
    ∙ ap (count is_close) s.life_closed
    ∙ count-append is_close (life c.effects) (close_callback ∷ [])
    ∙ ap (λ n. n + 1) (count-life c.effects)

pub IsSame-IsClosing : (a b c : TcpConnection) → IsSame a b → IsClosing b c → IsClosing a c
IsSame-IsClosing a b c s k = record {
  was = sym s.stage_same ∙ k.was;
  stays = k.stays;
  life_closed = k.life_closed ∙ ap (λ l. l ++ close_callback ∷ []) s.life_same;
  wants_none = k.wants_none;
}
