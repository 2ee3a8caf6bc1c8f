-- ===== src/Net/TcpServer/Listed.antt =====
-- The map of the connections in src/net/tcp_server.cpp against the connections themselves.
use rpc_framework.Base.{
  ℕ, ◌+◌, ◌<◌, ◌≤◌, ◌≡◌, ◌≢◌, refl, sym, ap, ◌∙◌, inl, inr, Bool, true, false, List, [], ◌∷◌,
  Option, none, some, length, get_elem?, size_mod, if◌then◌else◌, arith, length-append, ◌==◌,
  ==_iff, Bool-cases,
}
use rpc_framework.Base.Map.{
  find, erase, nat_eq, find-put, find-erase, find-put_ne, find-erase_ne, beq_refl,
}
use rpc_framework.Base.Update.{
  modify, length-modify, get_elem?-modify_inv, get_elem?-append_inv, get_elem?-lt,
}
use rpc_framework.Net.Connection
use rpc_framework.Net.Connection.{Connection, is_disconnected, connection_established}
use rpc_framework.Net.Connection.Closing
use rpc_framework.Net.Connection.Closing.{Op}
use rpc_framework.Net.Connection.Closing.Fate.{
  goes_on, ends, closed_now, step-Fate, connection_established_open,
}
use rpc_framework.Net.TcpServer
use rpc_framework.Net.TcpServer.{
  TcpServer, Event, starts, accepts, on, start, new_connection, handle_accept, remove_connection,
  on_object, on_connection, step, run,
}

-- What the map has under the id of the object at place `k`.
abbrev pub entry : ℕ → Connection → Option ℕ
entry k c = if is_disconnected c.state then none else some k

pub record IsPlaced (m : List (ℕ × ℕ)) (k i : ℕ) (c : Connection) : Type 0 where
  pub numbered : i ≡ k + 1
  pub entered : find i m ≡ entry k c
  pub unregistered : is_disconnected c.state ≡ true → c.removed ≡ true

-- The ids count the connections in the order of their making, the map has the open ones and no
-- other, and a closed one is out of the poller.
pub record IsListed (s : TcpServer) : Type 0 where
  pub next : s.next_conn_id ≡ length s.objects + 1
  pub placed :
      (k : ℕ) {i : ℕ} {c : Connection}
      → get_elem? s.objects k ≡ some (i, c)
      → IsPlaced s.connections k i c
  pub known : (i k : ℕ) → find i s.connections ≡ some k → (i ≡ k + 1) × (k < length s.objects)

entry-some : (k : ℕ) (c : Connection) {l : ℕ} → entry k c ≡ some l → k ≡ l
entry-some k c h = ground (arith, h)

new_connection-IsListed :
    (s : TcpServer) → IsListed s → s.next_conn_id + 1 < size_mod → IsListed (new_connection s)
unfolding new_connection
new_connection-IsListed s p fits =
    let n : ℕ = length s.objects in
    let c : Connection = connection_established Connection.init in
    let alive = connection_established_open Connection.init in
    let more = length-append s.objects ((s.next_conn_id, c) ∷ []) in
    record {
      next = omega (arith, p.next, more);
      placed = λ k h. elim (get_elem?-append_inv s.objects (s.next_conn_id, c) k h) [
        | inl old ↦
            let q = p.placed k old in
            record {
              numbered = q.numbered;
              entered =
                  find-put_ne s.next_conn_id _ n s.connections
                    (omega (arith, p.next, q.numbered, get_elem?-lt s.objects k _ old))
                  ∙ q.entered;
              unregistered = q.unregistered;
            }
        | inr (at, e) ↦
            rw (at, ap (λ (x : ℕ × Connection). x.0) e, ap (λ (x : ℕ × Connection). x.1) e)
              (record {
                numbered = p.next;
                entered =
                    rw
                      (
                        find-put s.next_conn_id s.next_conn_id n s.connections,
                        beq_refl s.next_conn_id,
                        alive,
                      )
                      refl;
                unregistered = λ dead. cc;
              })
      ];
      known = λ i k h. ground (
        arith,
        p.next,
        more,
        ==_iff s.next_conn_id i,
        find-put s.next_conn_id i n s.connections,
        p.known i k,
      );
    }

-- The object at place `k` is changed to `d`, and the map to `m`.
changed-IsListed :
    (s : TcpServer) (k i : ℕ) (c d : Connection) (m : List (ℕ × ℕ))
    → IsListed s
    → get_elem? s.objects k ≡ some (i, c)
    → find i m ≡ entry k d
    → ((j : ℕ) → i ≢ j → find j m ≡ find j s.connections)
    → (is_disconnected d.state ≡ true → d.removed ≡ true)
    → IsListed (record s { connections = m; objects = modify k (λ x. (i, d)) s.objects })
changed-IsListed s k i c d m p at own others gone =
    let same = length-modify k (λ (x : ℕ × Connection). (i, d)) s.objects in
    record {
      next = omega (arith, p.next, same);
      placed = λ j {i = l} {c = b} h.
          let (x, e, from) = get_elem?-modify_inv k j (λ x. (i, d)) s.objects h in
          elim from [
            | inl (here, y) ↦
                let q = p.placed k at in
                rw
                  (sym here, ap (λ (x : ℕ × Connection). x.0) y, ap (λ (x : ℕ × Connection). x.1) y)
                  (record { numbered = q.numbered; entered = own; unregistered = gone })
            | inr (there, y) ↦
                let q = p.placed j (e ∙ ap some (sym y)) in
                record {
                  numbered = q.numbered;
                  entered =
                      others l (omega (arith, (p.placed k at).numbered, q.numbered, there))
                      ∙ q.entered;
                  unregistered = q.unregistered;
                }
          ];
      known = λ j l h. elim (Bool-cases (i == j)) [
        | inl eq ↦
            let l_k = entry-some k d (sym own ∙ ap (λ (x : ℕ). find x m) ((==_iff i j).0 eq) ∙ h) in
            omega (
              arith,
              same,
              l_k,
              (==_iff i j).0 eq,
              (p.placed k at).numbered,
              get_elem?-lt s.objects k _ at,
            )
        | inr ne ↦
            let (n, b) =
              p.known j l (sym (others j (λ e. ground (arith, ==_iff i j, ne, e))) ∙ h) in
            (n, omega (arith, b, same))
      ];
    }

on_connection-IsListed :
    (k : ℕ) (o : Op) (s : TcpServer) → IsListed s → IsListed (on_connection k o s)
unfolding on_connection remove_connection
on_connection-IsListed k o s p = go (get_elem? s.objects k) refl
  where
    go : (x : Option (ℕ × Connection)) → get_elem? s.objects k ≡ x → IsListed (on_object k o x s)
    go none e = p
    go (some (i, c)) e =
        let q = p.placed k e in
        elim (step-Fate o c) [
          | goes_on same kept quiet ↦ rw quiet (
              changed-IsListed s k i c (Closing.step o c) s.connections p e (rw same q.entered)
                (λ j n. refl) (λ d. kept ∙ q.unregistered (sym same ∙ d)))
          | ends dead out told ↦ rw told (
              changed-IsListed s k i c (Closing.step o c) (erase i s.connections) p e
                (rw (dead, find-erase i i s.connections, beq_refl i) refl)
                (λ j n. find-erase_ne i j s.connections n) (λ d. out))
        ]

branch : (b : Bool) {t e : TcpServer} → IsListed t → IsListed e → IsListed (if b then t else e)
branch true y n = y
branch false y n = n

step-IsListed :
    (e : Event) (s : TcpServer) → IsListed s → s.next_conn_id + 1 < size_mod → IsListed (step e s)
unfolding step start handle_accept
step-IsListed starts s p fits =
    let t : TcpServer = record s { started = true; accepting = true } in
    branch s.started {e = t} p (record { next = p.next; placed = p.placed; known = p.known })
step-IsListed (accepts true) s p fits = branch s.accepting (new_connection-IsListed s p fits) p
step-IsListed (accepts false) s p fits = branch s.accepting p p
step-IsListed (on k o) s p fits = on_connection-IsListed k o s p

step-next : (e : Event) (s : TcpServer) → (step e s).next_conn_id ≤ s.next_conn_id + 1
unfolding step start handle_accept new_connection on_connection remove_connection
step-next starts s = ground arith
step-next (accepts taken) s = ground arith
step-next (on k o) s = go (get_elem? s.objects k)
  where
    go : (x : Option (ℕ × Connection)) → (on_object k o x s).next_conn_id ≤ s.next_conn_id + 1
    go none = omega arith
    go (some (i, c)) = elim (Bool-cases (closed_now c (Closing.step o c))) [
      | inl y ↦ rw y (omega arith)
      | inr n ↦ rw n (omega arith)
    ]

pub nothing : {A : Type 0} {x : A} → none ≡ some x → ⊥
nothing h = cc

init-IsListed : IsListed TcpServer.init
unfolding TcpServer.init find
init-IsListed = record { next = refl; placed = λ k h. cc; known = λ i k h. absurd (nothing h) }

init_next : TcpServer.init.next_conn_id ≡ 1
unfolding TcpServer.init
init_next = refl

listed :
    (es : List Event) (s : TcpServer)
    → IsListed s
    → s.next_conn_id + length es < size_mod
    → IsListed (run es s)
listed [] s p fits = p
listed (e ∷ es) s p fits =
    listed es (step e s) (step-IsListed e s p (omega (arith, fits)))
      (omega (arith, fits, step-next e s))

-- Whatever happens to a server in fewer than 2^64 - 1 events, its map has exactly the connections
-- that are not closed, each under the id that counts it, and a closed connection is out of the
-- poller.
pub run-IsListed : (es : List Event) → length es + 1 < size_mod → IsListed (run es TcpServer.init)
run-IsListed es fits = listed es TcpServer.init init-IsListed (omega (arith, fits, init_next))
