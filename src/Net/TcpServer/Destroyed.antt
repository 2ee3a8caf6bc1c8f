-- ===== src/Net/TcpServer/Destroyed.antt =====
-- The destructor of src/net/tcp_server.cpp.
use rpc_framework.Base.{
  ℕ, ◌+◌, ◌<◌, ◌≡◌, ◌≢◌, ◌⊎◌, refl, sym, ap, ◌∙◌, inl, inr, true, List, [], ◌∷◌, Option, none, some,
  length, get_elem?, size_mod, arith, ◌==◌, Bool-cases,
}
use rpc_framework.Base.Map.{find, nat_eq}
use rpc_framework.Base.Update.{modify, get_elem?-modify_inv}
use rpc_framework.Net.Connection.{Connection, is_disconnected, connection_destroyed}
use rpc_framework.Net.Connection.Closing.Fate.{connection_destroyed_removed}
use rpc_framework.Net.TcpServer
use rpc_framework.Net.TcpServer.{TcpServer, Event, run, destroy, destroy_all}
use rpc_framework.Net.TcpServer.Listed.{IsListed, nothing, run-IsListed}

-- The object at place `k`, if there is one, is out of the poller.
abbrev IsOut : ℕ → List (ℕ × Connection) → Type 0
IsOut k os = (x : ℕ × Connection) → get_elem? os k ≡ some x → x.1.removed ≡ true

destroyed-IsOut :
    (j k : ℕ) (os : List (ℕ × Connection))
    → (j ≡ k) ⊎ IsOut k os
    → IsOut k (modify j (λ x. (x.0, connection_destroyed x.1)) os)
destroyed-IsOut j k os why x h =
    let (y, e, from) = get_elem?-modify_inv j k (λ x. (x.0, connection_destroyed x.1)) os h in
    elim from [
      | inl (here, e') ↦
          ap (λ (z : ℕ × Connection). z.1.removed) e' ∙ connection_destroyed_removed y.1
      | inr (there, e') ↦ still why there y e e'
    ]
  where
    still :
        (j ≡ k) ⊎ IsOut k os
        → j ≢ k
        → (y : ℕ × Connection) → get_elem? os k ≡ some y
        → x ≡ y
        → x.1.removed ≡ true
    still (inl here) there y e e' = absurd (there here)
    still (inr p) there y e e' = ap (λ (z : ℕ × Connection). z.1.removed) e' ∙ p y e

kept-IsOut :
    (m : List (ℕ × ℕ)) (k : ℕ) (os : List (ℕ × Connection))
    → IsOut k os
    → IsOut k (destroy_all m os)
kept-IsOut [] k os p = p
kept-IsOut ((i, j) ∷ m) k os p = kept-IsOut m k _ (destroyed-IsOut j k os (inr p))

found-IsOut :
    (m : List (ℕ × ℕ)) (i k : ℕ) (os : List (ℕ × Connection))
    → find i m ≡ some k
    → IsOut k (destroy_all m os)
unfolding find
found-IsOut [] i k os h = absurd (nothing h)
found-IsOut ((j, l) ∷ m) i k os h = elim (Bool-cases (j == i)) [
  | inl y ↦ kept-IsOut m k _ (destroyed-IsOut l k os (inl (ground (arith, h, y))))
  | inr n ↦ found-IsOut m i k _ (ground (arith, h, n))
]

listed-IsOut :
    (s : TcpServer) → IsListed s → (k : ℕ) → IsOut k (destroy_all s.connections s.objects)
listed-IsOut s p k = go (get_elem? s.objects k) refl
  where
    go :
        (x : Option (ℕ × Connection))
        → get_elem? s.objects k ≡ x
        → IsOut k (destroy_all s.connections s.objects)
    go none e = kept-IsOut s.connections k s.objects (λ y h. absurd (nothing (sym e ∙ h)))
    go (some (i, c)) e = elim (Bool-cases (is_disconnected c.state)) [
      | inl dead ↦
          kept-IsOut s.connections k s.objects
            (λ y h. out y (sym e ∙ h) ((p.placed k e).unregistered dead))
      | inr alive ↦
          found-IsOut s.connections i k s.objects ((p.placed k e).entered ∙ (rw alive refl))
    ]
      where
        out : (y : ℕ × Connection) → some (i, c) ≡ some y → c.removed ≡ true → y.1.removed ≡ true
        out y h r = cc

-- When the server is destroyed no connection that it has made is left in the poller.
pub destroy_removed :
    (es : List Event) (k : ℕ) {i : ℕ} {c : Connection}
    → length es + 1 < size_mod
    → get_elem? (destroy (run es TcpServer.init)).objects k ≡ some (i, c)
    → c.removed ≡ true
unfolding destroy
destroy_removed es k {i} {c} fits =
    listed-IsOut (run es TcpServer.init) (run-IsListed es fits) k (i, c)
