-- ===== src/TcpServer/Life/Apart.antt =====
-- A turn in the life of one connection of mtnet/TcpServer.cc leaves the others alone.
use mtnet.Prelude.{
  ℕ, ◌+◌, ◌≡◌, refl, sym, ap, ◌∙◌, subst, List, [], ◌∷◌, ◌++◌, Bool, false, some, arith,
}
use mtnet.Prelude.Bags.{bit, count, take_at, count-take_at}
use mtnet.TcpServer.Defs.{TcpServer, Request}
use mtnet.TcpServer.Life.Defs.{Polled}
use mtnet.TcpServer.Life.Phases.{
  Phase, unused, accepted, live, closed, removed, gone, is_used, to_establish, to_remove,
  to_destroy, is_known, is_establish, is_destroy, is_at, InPhase, Fits, count_last,
}

-- What the turn of another connection leaves alone.
pub record IsApart (s t : TcpServer) (c d : Polled) (rs ss : List ℕ) (b : ℕ) : Type 0 where
  pub establishes : count (is_establish b) t.requests ≡ count (is_establish b) s.requests
  pub destroys : count (is_destroy b) t.requests ≡ count (is_destroy b) s.requests
  pub removes : count (is_at b) ss ≡ count (is_at b) rs
  pub known : t.connection_at b ≡ s.connection_at b
  pub listed : (n : List ℕ) → s.connections n ≡ some b → t.connections n ≡ some b
  pub connection : d ≡ c

pub IsApart-Fits :
    (s t : TcpServer) (c d : Polled) (rs ss : List ℕ) (b : ℕ) (p : Phase)
    → IsApart s t c d rs ss b
    → Fits s c rs b p
    → Fits t d ss b p
IsApart-Fits s t c d rs ss b p a f = record {
  establishes = a.establishes ∙ f.establishes;
  destroys = a.destroys ∙ f.destroys;
  removes = a.removes ∙ f.removes;
  known = ap is_known a.known ∙ f.known;
  listed = λ r. let (x, at, reg) = f.listed r in (x, a.known ∙ at, a.listed x.name reg);
  in_phase = subst (λ x. InPhase p x) (sym a.connection) f.in_phase;
}

pub unused-of : (p : Phase) → is_used p ≡ false → p ≡ unused
unused-of unused h = refl
unused-of accepted h = cc
unused-of live h = cc
unused-of closed h = cc
unused-of removed h = cc
unused-of gone h = cc

pub accepted-of : (p : Phase) (k : ℕ) → to_establish p ≡ 1 + k → (p ≡ accepted) × (k ≡ 0)
accepted-of accepted k h = (refl, omega (arith, h))
accepted-of unused k h = absurd (omega (arith, h))
accepted-of live k h = absurd (omega (arith, h))
accepted-of closed k h = absurd (omega (arith, h))
accepted-of removed k h = absurd (omega (arith, h))
accepted-of gone k h = absurd (omega (arith, h))

pub removed-of : (p : Phase) (k : ℕ) → to_destroy p ≡ 1 + k → (p ≡ removed) × (k ≡ 0)
removed-of removed k h = (refl, omega (arith, h))
removed-of unused k h = absurd (omega (arith, h))
removed-of live k h = absurd (omega (arith, h))
removed-of closed k h = absurd (omega (arith, h))
removed-of accepted k h = absurd (omega (arith, h))
removed-of gone k h = absurd (omega (arith, h))

pub closed-of : (p : Phase) (k : ℕ) → to_remove p ≡ 1 + k → (p ≡ closed) × (k ≡ 0)
closed-of closed k h = (refl, omega (arith, h))
closed-of unused k h = absurd (omega (arith, h))
closed-of live k h = absurd (omega (arith, h))
closed-of accepted k h = absurd (omega (arith, h))
closed-of removed k h = absurd (omega (arith, h))
closed-of gone k h = absurd (omega (arith, h))

-- A request for `a` is none of `b`'s.
pub last-apart :
    (f : Request → Bool) (rs ss : List Request) (r : Request)
    → ss ≡ rs ++ r ∷ []
    → f r ≡ false
    → count f ss ≡ count f rs
last-apart f rs ss r e n =
    let c = count_last f rs r in
    let z : bit (f r) ≡ 0 = ap bit n in ap (count f) e ∙ omega (arith, c, z)

-- Nor is one that is taken out.
pub request-apart :
    (f : Request → Bool) (i : ℕ) (rs : List Request) (r : Request) (rest : List Request)
    → take_at i rs ≡ some (r, rest)
    → f r ≡ false
    → count f rest ≡ count f rs
request-apart f i rs r rest h n =
    let e = count-take_at f i rs r rest h in let z : bit (f r) ≡ 0 = ap bit n in omega (arith, e, z)
