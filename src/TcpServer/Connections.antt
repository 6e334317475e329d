-- ===== src/TcpServer/Connections.antt =====
-- No connection is overwritten, and each is forgotten once.
use mtnet.Prelude.{
  append_cancel, ℕ, ◌+◌, ◌≡◌, ◌≢◌, ◌<◌, ◌⊎◌, refl, sym, ap, ◌∙◌, inl, inr, true, List, [], ◌∷◌,
  ◌++◌, Option, none, some, ok, err, assertion, arith, Bool-cases,
}
use mtnet.Prelude.Maps.{update, update_self, update_ne}
use mtnet.EventLoopThreadPool.{EventLoopThreadPool, get_next_loop, is_empty}
use mtnet.EventLoopThreadPool.RoundRobin.{
  IsDealing, advanced, advanced-IsDealing, get_next_loop_lem,
}
use mtnet.TcpServer.Defs.{
  TcpServer, Connection, connect_established, connect_destroyed, conn_name, new_connection,
  remove_connection_in_loop, update_name, eqb_name,
}
use mtnet.TcpServer.Names.{eqb_name_iff, update_name_self, update_name_ne}

-- `getNextLoop` can be called: there are no threads, or the next loop is one of them.
abbrev pub IsReady : EventLoopThreadPool → Type 0
IsReady p = (is_empty p.loops ≡ true) ⊎ IsDealing p

get_next_loop-IsReady :
    (p : EventLoopThreadPool)
    → IsReady p
    → (l : ℕ) × (q : EventLoopThreadPool) × (get_next_loop p ≡ ok (l, q)) × IsReady q
unfolding get_next_loop
get_next_loop-IsReady p (inl e) = (p.base_loop, p, rw e, inl e)
get_next_loop-IsReady p (inr v) =
    let (l, here, done) = get_next_loop_lem p v in
    (l, advanced p, done, inr (advanced-IsDealing p v))

-- "#%d" prints different numbers differently.
abbrev pub IsInjective : (ℕ → List ℕ) → Type 0
IsInjective format = (a b : ℕ) → format a ≡ format b → a ≡ b

-- A registered name is that of the connection that it leads to, and was made from a number that was
-- used.
abbrev pub Registered : (ℕ → List ℕ) → TcpServer → List ℕ → ℕ → Type 0
Registered format s n a =
    (c : Connection) × (k : ℕ) × (s.connection_at a ≡ some c)
    × (c.name ≡ n)
    × (k < s.next_conn_id)
    × (n ≡ s.name ++ format k)

pub record IsValid (format : ℕ → List ℕ) (s : TcpServer) : Type 0 where
  pub ready : IsReady s.thread_pool
  pub registered : (n : List ℕ) (a : ℕ) → s.connections n ≡ some a → Registered format s n a

module _ (format : ℕ → List ℕ) (injective : IsInjective format) where
  -- The next name is not in use.
  conn_name-fresh : (s : TcpServer) → IsValid format s → s.connections (conn_name format s) ≡ none
  conn_name-fresh s v = go (s.connections (conn_name format s)) refl
    where
      go : (o : Option ℕ) → s.connections (conn_name format s) ≡ o → o ≡ none
      go none e = refl
      go (some a) e =
          let (c, k, at, name, used, made) = v.registered (conn_name format s) a e in
          let same : s.next_conn_id ≡ k =
            injective s.next_conn_id k
              (append_cancel s.name (format s.next_conn_id) (format k) made) in
          absurd (omega (arith, same, used))

  pub new_connection-Registered :
      (s t : TcpServer) (c : Connection) (address : ℕ)
      → IsValid format s
      → s.connection_at address ≡ none
      → t.name ≡ s.name
      → t.next_conn_id ≡ s.next_conn_id + 1
      → t.connections ≡ update_name s.connections (conn_name format s) (some address)
      → t.connection_at ≡ update s.connection_at address (some c)
      → c.name ≡ conn_name format s
      → (n : List ℕ) (a : ℕ) → t.connections n ≡ some a
      → Registered format t n a
  new_connection-Registered s t c address v free name_same id map heap named n a reg =
      elim (Bool-cases (eqb_name n (conn_name format s))) [
        | inl e ↦
            let is_new : n ≡ conn_name format s = (eqb_name_iff n (conn_name format s)).0 e in
            let found : some address ≡ some a =
              sym (rw e refl) ∙ ap (λ (f : List ℕ → Option ℕ). f n) (sym map) ∙ reg in
            let own : address ≡ a = cc in
            (
              c,
              s.next_conn_id,
              ap t.connection_at (sym own)
                  ∙ ap (λ (f : ℕ → Option Connection). f address) heap
                  ∙ update_self s.connection_at address (some c),
              named ∙ sym is_new,
              omega (arith, id),
              is_new ∙ ap (λ m. m ++ format s.next_conn_id) (sym name_same),
            )
        | inr e ↦
            let old : s.connections n ≡ some a =
              sym (update_name_ne s.connections (conn_name format s) (some address) n e)
              ∙ ap (λ (f : List ℕ → Option ℕ). f n) (sym map)
              ∙ reg in
            let (d, k, at, dn, used, made) = v.registered n a old in
            let other : a ≢ address =
              λ same. some-none d (sym at ∙ ap s.connection_at same ∙ free) in
            (
              d,
              k,
              ap (λ (f : ℕ → Option Connection). f a) heap
                  ∙ update_ne s.connection_at address (some c) a other
                  ∙ at,
              dn,
              omega (arith, id, used),
              made ∙ ap (λ m. m ++ format k) (sym name_same),
            )
      ]
    where
      some-none : (d : Connection) → some d ≡ none → ⊥
      some-none d h = cc

  -- A new connection on a valid server, where the numbers are printed differently and `new` returned an
  -- unused address: the
  -- name that it gets is not in use, so that no connection is dropped from the map; it is entered
  -- under that name, all other entries stay, and `connectEstablished` is handed to the loop that the
  -- connection belongs to.
  pub new_connection_lem :
      (s : TcpServer) (address sockfd : ℕ)
      → IsValid format s
      → s.connection_at address ≡ none
      → (c : Connection) × (t : TcpServer) × (new_connection format address sockfd s ≡ ok t)
        × IsValid format t
        × (s.connections c.name ≡ none)
        × (t.connections ≡ update_name s.connections c.name (some address))
        × (t.connection_at ≡ update s.connection_at address (some c))
        × (t.requests ≡ s.requests ++ connect_established c.loop address ∷ [])
  unfolding new_connection
  new_connection_lem s address sockfd v free =
      let (l, q, dealt, ready) = get_next_loop-IsReady s.thread_pool v.ready in
      let c : Connection = record { name = conn_name format s; loop = l; sockfd = sockfd } in
      let t : TcpServer = record s {
        next_conn_id = s.next_conn_id + 1;
        thread_pool = q;
        connections = update_name s.connections (conn_name format s) (some address);
        connection_at = update s.connection_at address (some c);
        requests = s.requests ++ connect_established l address ∷ [];
      } in
      (
        c,
        t,
        rw dealt,
        record {
          ready = ready;
          registered = new_connection-Registered s t c address v free refl refl refl refl refl;
        },
        conn_name-fresh s v,
        refl,
        refl,
        refl,
      )

-- The removal of a registered connection from a valid server succeeds: its assertion holds.
-- Its name is free afterwards, all other entries and the connection itself stay, and
-- `connectDestroyed` is handed to the loop that the connection belongs to.
pub remove_connection_in_loop_lem :
    (format : ℕ → List ℕ) (s : TcpServer) (n : List ℕ) (a : ℕ)
    → IsValid format s
    → s.connections n ≡ some a
    → (c : Connection) × (t : TcpServer) × (s.connection_at a ≡ some c)
      × (c.name ≡ n)
      × (remove_connection_in_loop a s ≡ ok t)
      × IsValid format t
      × (t.connections ≡ update_name s.connections n none)
      × (t.connection_at ≡ s.connection_at)
      × (t.requests ≡ s.requests ++ connect_destroyed c.loop a ∷ [])
unfolding remove_connection_in_loop
remove_connection_in_loop_lem format s n a v reg =
    let (c, k, at, named, used, made) = v.registered n a reg in
    let t : TcpServer = record s {
      connections = update_name s.connections n none;
      requests = s.requests ++ connect_destroyed c.loop a ∷ [];
    } in
    (
      c,
      t,
      at,
      named,
      rw (at, named, reg),
      record { ready = v.ready; registered = left },
      refl,
      refl,
      refl,
    )
  where
    left :
        (m : List ℕ) (b : ℕ) → update_name s.connections n none m ≡ some b → Registered format s m b
    left m b h = elim (Bool-cases (eqb_name m n)) [
      | inl e ↦ let gone : none ≡ some b = sym (rw e refl) ∙ h in absurd (none-some b gone)
      | inr e ↦ v.registered m b (sym (update_name_ne s.connections n none m e) ∙ h)
    ]
      where
        none-some : (d : ℕ) → none ≡ some d → ⊥
        none-some d p = cc

-- On a valid server, a second removal of the same connection stops at its assertion, which
-- is the case if a connection is closed twice.
pub remove_connection_in_loop-twice :
    (format : ℕ → List ℕ) (s : TcpServer) (n : List ℕ) (a : ℕ)
    → IsValid format s
    → s.connections n ≡ some a
    → (t : TcpServer) × (remove_connection_in_loop a s ≡ ok t)
      × (remove_connection_in_loop a t ≡ err assertion)
unfolding remove_connection_in_loop
remove_connection_in_loop-twice format s n a v reg =
    let (c, t, at, named, done, valid, map, heap, asked) =
      remove_connection_in_loop_lem format s n a v reg in
    let still : t.connection_at a ≡ some c = ap (λ (f : ℕ → Option Connection). f a) heap ∙ at in
    let gone : t.connections c.name ≡ none =
      ap t.connections named
      ∙ ap (λ (f : List ℕ → Option ℕ). f n) map
      ∙ update_name_self s.connections n none in
    (t, done, rw (still, gone))
