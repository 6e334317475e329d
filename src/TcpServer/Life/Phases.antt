-- ===== src/TcpServer/Life/Phases.antt =====
-- The phases in the life of a connection of mtnet/TcpServer.cc, and what each says of the server, the
-- connection and what waits for the loops.
use mtnet.Prelude.{
  ℕ, ◌+◌, ◌≡◌, ◌≢◌, refl, sym, subst, List, [], ◌∷◌, ◌++◌, Bool, true, false, ◌==◌, ==_iff, Option,
  none, some, Bool-cases, inl, inr, arith,
}
use mtnet.Prelude.Maps.{update, update_self, update_ne, ℕ-cases}
use mtnet.Prelude.Bags.{bit, count, count-append}
use mtnet.TcpConnection.Defs.{Effect, connection_callback, close_callback, remove_channel}
use mtnet.TcpServer.Defs.{TcpServer, Connection, Request, connect_established, connect_destroyed}
use mtnet.TcpServer.Connections.{IsValid}
use mtnet.TcpServer.Life.Defs.{World, Polled}
use mtnet.TcpServer.Life.Effects.{stage, life}

-- `accepted`: `connectEstablished` waits; `closed`: `removeConnectionInLoop` waits; `removed`:
-- `connectDestroyed` waits.
pub data Phase : Type 0 where
  unused accepted live closed removed gone : Phase

abbrev pub is_used : Phase → Bool
is_used unused = false
is_used _ = true

abbrev pub is_registered : Phase → Bool
is_registered accepted = true
is_registered live = true
is_registered closed = true
is_registered _ = false

abbrev pub to_establish : Phase → ℕ
to_establish accepted = 1
to_establish _ = 0

abbrev pub to_remove : Phase → ℕ
to_remove closed = 1
to_remove _ = 0

abbrev pub to_destroy : Phase → ℕ
to_destroy removed = 1
to_destroy _ = 0

abbrev pub stage_of : Phase → ℕ
stage_of unused = 0
stage_of accepted = 0
stage_of gone = 2
stage_of _ = 1

abbrev pub history : Phase → List Effect
history unused = []
history accepted = []
history live = connection_callback ∷ []
history closed = connection_callback ∷ close_callback ∷ []
history removed = connection_callback ∷ close_callback ∷ []
history gone = connection_callback ∷ close_callback ∷ connection_callback ∷ remove_channel ∷ []

-- poll(2) looks at the channel of a live connection only.
abbrev pub PollFits : Phase → Bool → Type 0
PollFits live polled = Unit
PollFits _ polled = polled ≡ false

abbrev pub is_known : Option Connection → Bool
is_known none = false
is_known (some c) = true

abbrev pub is_establish : ℕ → Request → Bool
is_establish a (connect_established l b) = b == a
is_establish a (connect_destroyed l b) = false

abbrev pub is_destroy : ℕ → Request → Bool
is_destroy a (connect_established l b) = false
is_destroy a (connect_destroyed l b) = b == a

abbrev pub is_at : ℕ → ℕ → Bool
is_at a b = b == a

abbrev pub Listed : TcpServer → ℕ → Type 0
Listed s a = (c : Connection) × (s.connection_at a ≡ some c) × (s.connections c.name ≡ some a)

pub record InPhase (p : Phase) (c : Polled) : Type 0 where
  pub stage_fits : stage c.tcp.state ≡ stage_of p
  pub life_fits : life c.tcp.effects ≡ history p
  pub poll_fits : PollFits p c.polled

pub record Fits (s : TcpServer) (c : Polled) (removals : List ℕ) (a : ℕ) (p : Phase) : Type 0 where
  pub establishes : count (is_establish a) s.requests ≡ to_establish p
  pub destroys : count (is_destroy a) s.requests ≡ to_destroy p
  pub removes : count (is_at a) removals ≡ to_remove p
  pub known : is_known (s.connection_at a) ≡ is_used p
  pub listed : is_registered p ≡ true → Listed s a
  pub in_phase : InPhase p c

pub record IsSound (format : ℕ → List ℕ) (w : World) (phase : ℕ → Phase) : Type 0 where
  pub valid : IsValid format w.server
  pub fits : (a : ℕ) → Fits w.server (w.connection a) w.removals a (phase a)

-- One address changes its phase.
pub update-all :
    (P : ℕ → Phase → Type 0) (phase : ℕ → Phase) (a : ℕ) (p : Phase)
    → P a p
    → ((b : ℕ) → b ≢ a → P b (phase b))
    → (b : ℕ) → P b (update phase a p b)
update-all P phase a p here there b = elim (ℕ-cases b a) [
  | inl e ↦
      subst (λ x. P x (update phase a p x)) (sym e)
        (subst (λ q. P a q) (sym (update_self phase a p)) here)
  | inr n ↦ subst (λ q. P b q) (sym (update_ne phase a p b n)) (there b n)
]

pub ==-self : (a : ℕ) → (a == a) ≡ true
==-self a = (==_iff a a).1 refl

pub ==-ne : (a b : ℕ) → a ≢ b → (a == b) ≡ false
==-ne a b n = elim (Bool-cases (a == b)) [ inl e ↦ absurd (n ((==_iff a b).0 e)) | inr e ↦ e ]

-- One more at the end.
pub count_last {ℓ} :
    {A : Type ℓ} (f : A → Bool) (xs : List A) (x : A)
    → count f (xs ++ x ∷ []) ≡ count f xs + bit (f x)
count_last f xs x = let e = count-append f xs (x ∷ []) in omega (arith, e)

-- The life of one connection, as a machine.
pub data Next : Phase → Phase → Type 0 where
  accepts : Next unused accepted
  establishes : Next accepted live
  closes : Next live closed
  removes : Next closed removed
  destroys : Next removed gone

-- One connection moves on, or one stays where it is.
pub data Advance (q : ℕ → Phase) : (ℕ → Phase) → Type 0 where
  stays : (a : ℕ) → Advance q (update q a (q a))
  moves : (a : ℕ) (p : Phase) → Next (q a) p → Advance q (update q a p)

pub data Lives (q : ℕ → Phase) : (ℕ → Phase) → Type 0 where
  here : Lives q q
  next : {r t : ℕ → Phase} → Lives q r → Advance r t → Lives q t

pub Next-from :
    (a : ℕ) (q : ℕ → Phase) (p r : Phase) → q a ≡ p → Next p r → Advance q (update q a r)
Next-from a q p r e n = moves a r (subst (λ x. Next x r) (sym e) n)
