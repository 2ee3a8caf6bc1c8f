-- ===== src/Registry/ZooKeeper/Paths.antt =====
-- Paths and their parents in the stub of src/registry/zookeeper_client.cpp.
use rpc_framework.Base.{
  ◌≡◌, refl, sym, ap, ◌∙◌, inl, inr, Bool, true, false, List, [], ◌∷◌, ◌++◌, Option, none, some,
  Byte, ◌==◌, if◌then◌else◌, arith, Bool-cases, ==_iff,
}
use rpc_framework.Base.Map.{bytes_beq, bytes_beq_iff, bytes_eq}
use rpc_framework.Registry.ZooKeeper.{in_front, rfind, behind_root, split_path}

rfind-append : (path a b : List Byte) → rfind 47 path ≡ some (a, b) → path ≡ a ++ (47 ∷ b)
rfind-append [] a b h = cc
rfind-append (c ∷ cs) a b h = go (rfind 47 cs) refl h (rfind-append cs)
  where
    go :
        (r : Option (List Byte × List Byte))
        → rfind 47 cs ≡ r
        → in_front c r 47 cs ≡ some (a, b)
        → ((d e : List Byte) → rfind 47 cs ≡ some (d, e) → cs ≡ d ++ (47 ∷ e))
        → c ∷ cs ≡ a ++ (47 ∷ b)
    go (some (d, e)) s h ih =
        let front : a ≡ c ∷ d = cc in
        let back : b ≡ e = cc in rw (front, back) (ap (◌∷◌ c) (ih d e s))
    go none s h ih = slash (c == 47) refl h
      where
        first_part : Bool → Option (List Byte × List Byte)
        first_part t = if t then some ([], cs) else none

        slash : (t : Bool) → (c == 47) ≡ t → first_part t ≡ some (a, b) → c ∷ cs ≡ a ++ (47 ∷ b)
        slash false t h = cc
        slash true t h =
            let front : a ≡ [] = cc in
            let back : b ≡ cs = cc in
            let code : c ≡ 47 = ground arith in rw (front, back, code) refl

pub split_path-append :
    (path a b : List Byte) → split_path path ≡ some (a, b) → path ≡ a ++ (47 ∷ b)
split_path-append path a b h = rfind-append path a b (go (rfind 47 path) h)
  where
    go : (r : Option (List Byte × List Byte)) → behind_root r ≡ some (a, b) → r ≡ some (a, b)
    go none h = cc
    go (some ([], e)) h = cc
    go (some (c ∷ d, e)) h = h

-- A path is the one with this parent and this name exactly if both are its own.
pub same_path :
    (path p a b q x : List Byte) (v w : Bool)
    → split_path path ≡ some (a, b)
    → split_path p ≡ some (q, x)
    → (if bytes_beq a q then if bytes_beq b x then v else w else w)
      ≡ (if bytes_beq path p then v else w)
same_path path p a b q x v w h k = elim (Bool-cases (bytes_beq path p)) [
  | inl y ↦
      let e : path ≡ p = (bytes_beq_iff path p).0 y in
      let both : some (a, b) ≡ some (q, x) = sym h ∙ ap split_path e ∙ k in
      let front : a ≡ q = cc in
      let back : b ≡ x = cc in rw (y, (bytes_beq_iff a q).1 front, (bytes_beq_iff b x).1 back) refl
  | inr n ↦ elim (Bool-cases (bytes_beq a q)) [
    | inr m ↦ rw (n, m) refl
    | inl y ↦ elim (Bool-cases (bytes_beq b x)) [
      | inr m ↦ rw (n, y, m) refl
      | inl y' ↦
          let front : a ≡ q = (bytes_beq_iff a q).0 y in
          let back : b ≡ x = (bytes_beq_iff b x).0 y' in
          let same : path ≡ p =
            split_path-append path a b h ∙ rw (front, back) (sym (split_path-append p q x k)) in
          let yes = (bytes_beq_iff path p).1 same in absurd cc
    ]
  ]
]

-- A path without a parent is not one with a parent.
pub rootless :
    (path p q x : List Byte)
    → split_path path ≡ none
    → split_path p ≡ some (q, x)
    → bytes_beq path p ≡ false
rootless path p q x h k = elim (Bool-cases (bytes_beq path p)) [
  | inr n ↦ n
  | inl y ↦
      let e : path ≡ p = (bytes_beq_iff path p).0 y in
      let both : none ≡ some (q, x) = sym h ∙ ap split_path e ∙ k in absurd cc
]

-- The last `d` stands in front of what has none.
pub rfind_last :
    (d : Byte) (a b : List Byte) → rfind d b ≡ none → rfind d (a ++ (d ∷ b)) ≡ some (a, b)
rfind_last d [] b h = rw h (ground (arith, ==_iff d d))
rfind_last d (c ∷ a) b h = rw (rfind_last d a b h) refl

pub rfind_absent :
    (d : Byte) (a b : List Byte) → rfind d a ≡ none → rfind d b ≡ none → rfind d (a ++ b) ≡ none
rfind_absent d [] b h k = k
rfind_absent d (c ∷ a) b h k = go (rfind d a) refl h (λ r. rfind_absent d a b r k)
  where
    first_part : Bool → List Byte → Option (List Byte × List Byte)
    first_part t cs = if t then some ([], cs) else none

    first_absent : (t : Bool) (cs ds : List Byte) → first_part t cs ≡ none → first_part t ds ≡ none
    first_absent true cs ds h = cc
    first_absent false cs ds h = refl

    go :
        (r : Option (List Byte × List Byte))
        → rfind d a ≡ r
        → in_front c r d a ≡ none
        → (rfind d a ≡ none → rfind d (a ++ b) ≡ none)
        → in_front c (rfind d (a ++ b)) d (a ++ b) ≡ none
    go (some (x, y)) e h ih = cc
    go none e h ih = rw (ih e) (first_absent (c == d) a (a ++ b) h)

-- A name below a parent.
pub split_path_child :
    (c : Byte) (a b : List Byte)
    → rfind 47 b ≡ none
    → split_path ((c ∷ a) ++ (47 ∷ b)) ≡ some (c ∷ a, b)
split_path_child c a b h = ap behind_root (rfind_last 47 (c ∷ a) b h)

pub append_cancel : (a b c : List Byte) → a ++ b ≡ a ++ c → b ≡ c
append_cancel [] b c h = h
append_cancel (x ∷ a) b c h = append_cancel a b c (cc)
