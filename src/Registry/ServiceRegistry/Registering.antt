-- ===== src/Registry/ServiceRegistry/Registering.antt =====
-- Registration in src/registry/service_registry.cpp.
use rpc_framework.Base.{
  ◌≡◌, refl, sym, ap, ◌∙◌, inl, inr, Bool, false, List, [], ◌∷◌, ◌++◌, none, some, Byte,
  if◌then◌else◌, map, append-nil, append_assoc, subst, Bool-cases,
}
use mathlib.Core.List.{map-append}
use rpc_framework.Base.Map.{find, put, bytes_beq, bytes_eq, find-put, beq_refl}
use rpc_framework.Base.Text.{codes}
use rpc_framework.Base.Decimal.{to_string}
use rpc_framework.Registry.LoadBalancer.{ServiceEndpoint}
use rpc_framework.Registry.ZooKeeper.{Stub, or_else, has, create, rfind, split_path, get_children}
use rpc_framework.Registry.ZooKeeper.Paths.{split_path_child}
use rpc_framework.Registry.ZooKeeper.Creating.{create_listed, create_new}
use rpc_framework.Registry.ServiceRegistry.{
  ServiceRegistry, Outcome, done, ◌>>=◌, register_service, root_path, service_path, node_path,
}
use rpc_framework.Registry.ServiceRegistry.Watched.{zk_create_quiet}
use rpc_framework.Registry.ServiceRegistry.Addresses.{
  address_of, Plain, Distinct, plain_address, Weighed, Weighed-append, Weighed-put,
  service_path-Apart, node_path-Apart, differ, longer,
}

-- The endpoints are registered one after the other.
pub register_all : List Byte → List ServiceEndpoint → ServiceRegistry → Outcome (Unit {0})
register_all name [] r = done tt r
register_all name (e ∷ es) r =
    register_service name e.host e.port e.weight r >>= λ u s. register_all name es s

-- What the registry holds after it has registered `es`.
pub record Holds (name : List Byte) (es : List ServiceEndpoint) (z : Stub) : Type 0 where
  pub unwatched : z.watchers ≡ []
  pub listed : get_children (service_path name) z ≡ map address_of es
  pub weighed : Weighed name z.nodes es

no_watcher : (path : List Byte) (z : Stub) → z.watchers ≡ [] → find path z.watchers ≡ none
unfolding find
no_watcher path z h = rw h refl

-- `create` of the node of the service, which may be there already.
service-Holds :
    (name : List Byte) (es : List ServiceEndpoint) (z : Stub)
    → rfind 47 name ≡ none
    → Holds name es z
    → Holds name es (create (service_path name) [] z)
      × ((create (service_path name) [] z).fired ≡ z.fired)
service-Holds name es z plain h = elim (Bool-cases (has name (get_children root_path z))) [
  | inl old ↦
      let (f, w, n, c) = create_listed (service_path name) [] root_path name z at old in
      (
        record {
          unwatched = w ∙ h.unwatched;
          listed = c (service_path name) ∙ h.listed;
          weighed = rw n kept;
        },
        f,
      )
  | inr new ↦
      let (f, w, n, c) = create_new (service_path name) [] root_path name z at new in
      (
        record {
          unwatched = w ∙ h.unwatched;
          listed =
              c (service_path name)
              ∙ ap
                  (λ (t : Bool).
                    if t
                    then get_children root_path z ++ (name ∷ [])
                    else get_children (service_path name) z)
                  other
              ∙ h.listed;
          weighed = rw n kept;
        },
        f ∙ rw (no_watcher root_path z h.unwatched) (append-nil z.fired),
      )
]
  where
    at : split_path (service_path name) ≡ some (root_path, name)
    at = split_path_child 47 (codes "rpc") name plain

    other : bytes_beq root_path (service_path name) ≡ false
    other = differ root_path (service_path name) (longer root_path name 47)

    kept : Weighed name (put (service_path name) [] z.nodes) es
    kept = Weighed-put name (service_path name) [] z.nodes es (service_path-Apart name es) h.weighed

-- `create` of the node of an endpoint with a new address.
endpoint-Holds :
    (name : List Byte) (es : List ServiceEndpoint) (e : ServiceEndpoint) (z : Stub)
    → rfind 47 (address_of e) ≡ none
    → has (address_of e) (map address_of es) ≡ false
    → Holds name es z
    → let y = create (node_path name e.host e.port) (to_string e.weight) z in
      Holds name (es ++ (e ∷ [])) y × (y.fired ≡ z.fired)
endpoint-Holds name es e z plain fresh h =
    let at = split_path_child 47 (codes "rpc/" ++ name) (address_of e) plain in
    let new : has (address_of e) (get_children (service_path name) z) ≡ false =
      rw (h.listed) fresh in
    let (f, w, n, c) =
      create_new (node_path name e.host e.port) (to_string e.weight) (service_path name)
        (address_of e) z at new in
    let nodes = put (node_path name e.host e.port) (to_string e.weight) z.nodes in
    let kept : Weighed name nodes es =
      Weighed-put name (node_path name e.host e.port) (to_string e.weight) z.nodes es
        (node_path-Apart name e es fresh) h.weighed in
    let own : or_else [] (find (node_path name e.host e.port) nodes) ≡ to_string e.weight =
      rw
        (
          find-put (node_path name e.host e.port) (node_path name e.host e.port)
              (to_string e.weight) z.nodes,
          beq_refl (node_path name e.host e.port),
        )
        refl in
    (
      record {
        unwatched = w ∙ h.unwatched;
        listed =
            c (service_path name)
            ∙ rw (beq_refl (service_path name)) (
                ap (λ (x : List (List Byte)). x ++ (address_of e ∷ [])) h.listed
                ∙ sym (map-append address_of es (e ∷ [])));
        weighed = rw n (Weighed-append name nodes es e kept own);
      },
      f ∙ rw (no_watcher (service_path name) z h.unwatched) (append-nil z.fired),
    )

register_service-Holds :
    (name : List Byte) (es : List ServiceEndpoint) (e : ServiceEndpoint) (r : ServiceRegistry)
    → rfind 47 name ≡ none
    → rfind 47 (address_of e) ≡ none
    → has (address_of e) (map address_of es) ≡ false
    → Holds name es r.zk
    → (s : ServiceRegistry) × (register_service name e.host e.port e.weight r ≡ done tt s)
      × Holds name (es ++ (e ∷ [])) s.zk
      × (s.lb ≡ r.lb)
      × (s.cache ≡ r.cache)
unfolding register_service
register_service-Holds name es e r plain plain' fresh h =
    let (k, f) = service-Holds name es r.zk plain h in
    let z : Stub = create (service_path name) [] r.zk in
    let (k', f') = endpoint-Holds name es e z plain' fresh k in
    (
      record r { zk = create (node_path name e.host e.port) (to_string e.weight) z },
      rw (zk_create_quiet (service_path name) [] r f) (
          zk_create_quiet (node_path name e.host e.port) (to_string e.weight) (record r { zk = z })
            f'),
      k',
      refl,
      refl,
    )

pub register_all-Holds :
    (name : List Byte) (es fs : List ServiceEndpoint) (r : ServiceRegistry)
    → rfind 47 name ≡ none
    → Plain fs
    → Distinct (map address_of es) fs
    → Holds name es r.zk
    → (s : ServiceRegistry) × (register_all name fs r ≡ done tt s)
      × Holds name (es ++ fs) s.zk
      × (s.lb ≡ r.lb)
      × (s.cache ≡ r.cache)
unfolding register_all
register_all-Holds name es [] r plain p d h = (
  r,
  refl,
  subst (λ (x : List ServiceEndpoint). Holds name x r.zk) (sym (append-nil es)) h,
  refl,
  refl,
)
register_all-Holds name es (e ∷ fs) r plain ((no_slash, port, int), p) (fresh, d) h =
    let (s, run, k, lb, cache) =
      register_service-Holds name es e r plain (plain_address e.host e.port no_slash port) fresh
        h in
    let d' =
      subst (λ (x : List (List Byte)). Distinct x fs) (sym (map-append address_of es (e ∷ []))) d in
    let (t, run', k', lb', cache') = register_all-Holds name (es ++ (e ∷ [])) fs s plain p d' k in
    (
      t,
      rw run run',
      subst (λ (x : List ServiceEndpoint). Holds name x t.zk) (append_assoc es (e ∷ []) fs) k',
      lb' ∙ lb,
      cache' ∙ cache,
    )
