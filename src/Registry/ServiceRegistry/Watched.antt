-- ===== src/Registry/ServiceRegistry/Watched.antt =====
-- What follows in src/registry/service_registry.cpp once a service has been looked up.
use rpc_framework.Base.{
  ℕ, ◌≡◌, refl, sym, ap, ◌∙◌, true, false, List, [], ◌∷◌, ◌++◌, Option, none, some, Byte, length,
  append-nil, drop,
}
use rpc_framework.Base.Map.{find, put, bytes_eq, find-put, beq_refl}
use rpc_framework.Base.Int.{ℤ}
use rpc_framework.Base.Text.{codes}
use rpc_framework.Base.Decimal.{to_string}
use rpc_framework.Registry.LoadBalancer.{ServiceEndpoint, LoadBalancer, select}
use rpc_framework.Registry.ZooKeeper.{Stub, has, create, watch_children, rfind, get, get_children}
use rpc_framework.Registry.ZooKeeper.Paths.{split_path_child}
use rpc_framework.Registry.ZooKeeper.Creating.{create_listed, create_new}
use rpc_framework.Registry.ServiceRegistry.{
  ServiceRegistry, Outcome, done, thrown, deadlock, zk_create, run_watchers, refresh_in,
  register_service, unregister_service, refresh, discover, chosen, root_path, cached,
  parse_children, service_path, address, node_path,
}

-- The value that a call returns with.
abbrev pub value : {A : Type 0} → Outcome A → Option A
value (done a r) = some a
value (thrown r) = none
value deadlock = none

-- The endpoint that a balancer selects.
abbrev pub selected : Option (ServiceEndpoint × LoadBalancer) → Option ServiceEndpoint
selected none = none
selected (some (e, lb)) = some e

pub value-chosen :
    (o : Option (ServiceEndpoint × LoadBalancer)) (r : ServiceRegistry)
    → value (chosen o r) ≡ selected o
value-chosen none r = refl
value-chosen (some (e, lb)) r = refl

-- While the list of a service is cached, every lookup draws from that list, also behind an
-- `unregister_service`: an endpoint that has been taken out is still handed out.
pub discover-unregister_service :
    (draw port : ℕ) (name host : List Byte) (e : ServiceEndpoint) (es : List ServiceEndpoint)
    (r : ServiceRegistry)
    → find name r.cache ≡ some (e ∷ es)
    → value (discover draw name (unregister_service name host port r))
      ≡ selected (select draw r.lb (e ∷ es))
unfolding discover unregister_service
discover-unregister_service draw port name host e es r h =
    rw h (value-chosen (select draw r.lb (e ∷ es)) _)

drop_prefix {ℓ} : {A : Type ℓ} (xs ys : List A) → drop (length xs) (xs ++ ys) ≡ ys
drop_prefix [] ys = refl
drop_prefix (x ∷ xs) ys = drop_prefix xs ys

pub zk_create_quiet :
    (path data_ : List Byte) (r : ServiceRegistry)
    → (create path data_ r.zk).fired ≡ r.zk.fired
    → zk_create path data_ r ≡ done tt (record r { zk = create path data_ r.zk })
unfolding zk_create run_watchers
zk_create_quiet path data_ r e =
    ap (λ fired. run_watchers fired (record r { zk = create path data_ r.zk }))
      (ap (drop (length r.zk.fired)) (e ∙ sym (append-nil r.zk.fired)) ∙ drop_prefix r.zk.fired [])

-- A watcher that `create` calls locks the mutex that `create` holds.
zk_create_deadlock :
    (path data_ : List Byte) (r : ServiceRegistry) (x : ℕ × List Byte)
    → (create path data_ r.zk).fired ≡ r.zk.fired ++ (x ∷ [])
    → zk_create path data_ r ≡ deadlock
unfolding zk_create run_watchers refresh_in
zk_create_deadlock path data_ r x e =
    ap (λ fired. run_watchers fired (record r { zk = create path data_ r.zk }))
      (ap (drop (length r.zk.fired)) e ∙ drop_prefix r.zk.fired (x ∷ []))

-- `refresh` leaves its watcher at the service.
refresh-watchers :
    (name : List Byte) (r s : ServiceRegistry)
    → refresh name r ≡ done tt s
    → find (service_path name) s.zk.watchers ≡ some 0
unfolding refresh watch_children
refresh-watchers name r s h =
    go (parse_children name (get_children (service_path name) z) (λ path. get path z)) h
  where
    z : Stub
    z = watch_children (service_path name) 0 r.zk

    go :
        (o : Option (List ServiceEndpoint))
        → cached name o (record r { zk = z }) ≡ done tt s
        → find (service_path name) s.zk.watchers ≡ some 0
    go none h = cc
    go (some es) h =
        let e : record r { zk = z; cache = put name es r.cache } ≡ s = cc in
        ap (λ (t : ServiceRegistry). find (service_path name) t.zk.watchers) (sym e)
        ∙ find-put (service_path name) (service_path name) 0 r.zk.watchers
        ∙ rw (beq_refl (service_path name)) refl

-- When `refresh` of a service has returned, and directly afterwards a new endpoint of it is registered, then
-- `register_service` never returns: the stub calls the watcher that `refresh` has set in its critical
-- section, and that locks the same mutex. Name and address have no slash, the service is listed under
-- "/rpc", and the address is not yet listed under the service.
pub register_service-refresh :
    (name host : List Byte) (port : ℕ) (weight : ℤ) (r s : ServiceRegistry)
    → rfind 47 name ≡ none
    → rfind 47 (address host port) ≡ none
    → refresh name r ≡ done tt s
    → has name (get_children root_path s.zk) ≡ true
    → has (address host port) (get_children (service_path name) s.zk) ≡ false
    → register_service name host port weight s ≡ deadlock
unfolding register_service
register_service-refresh name host port weight r s plain plain' looked listed new =
    let (f, w, n, c) =
      create_listed (service_path name) [] root_path name s.zk
        (split_path_child 47 (codes "rpc") name plain) listed in
    let t : ServiceRegistry = record s { zk = create (service_path name) [] s.zk } in
    let at = split_path_child 47 (codes "rpc/" ++ name) (address host port) plain' in
    let (f', w', n', c') =
      create_new (node_path name host port) (to_string weight) (service_path name)
        (address host port) t.zk at (rw (c (service_path name)) new) in
    let watched : find (service_path name) t.zk.watchers ≡ some 0 =
      rw w (refresh-watchers name r s looked) in
    rw (zk_create_quiet (service_path name) [] s f) (
      zk_create_deadlock (node_path name host port) (to_string weight) t (0, service_path name)
        (f' ∙ rw watched refl))
