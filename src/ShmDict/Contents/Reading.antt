-- ===== src/ShmDict/Contents/Reading.antt =====
-- What ngx_shm_dict_get returns.
use nginx_modules.Base.{
  ℕ, ◌≤◌, ◌<◌, ◌≡◌, refl, sym, subst, ◌∙◌, ap, Bool-cases, Option-cases, inl, inr, true, false,
  none, some, List, count, arith,
}
use mathlib.Core.Option.{some-injective}
use nginx_modules.ShmDict.Platform.{Platform, IsPlatform}
use nginx_modules.ShmDict.Node.{
  Node, Time, now_ms, is_kept, is_expired, remaining, value_bytes, sort_key,
}
use nginx_modules.ShmDict.Zone.{Dict, Found, hit, done, declined, crc32, lock, touch, lookup}
use nginx_modules.ShmDict.Expire.{expire}
use nginx_modules.ShmDict.Access.{Reply, bad_key, enter, get_found, get}
use nginx_modules.ShmDict.Rbtree.{find_node}
use nginx_modules.ShmDict.Rbtree.Search.{find_node-some}
use nginx_modules.ShmDict.Valid.{IsValid}
use nginx_modules.ShmDict.Valid.Steps.{count-touch}
use nginx_modules.ShmDict.Valid.Parts.{expire-IsValid}
use nginx_modules.ShmDict.Valid.Operations.{locked-IsValid, Holds, Enters, enter-Enters}
use nginx_modules.ShmDict.Contents.Eviction.{
  not_expired_of_kept, expire-Due, expire_keeps, expire_monotone,
}

module _ {P : Type 0} (p : Platform P) where
  -- At most one node has the key.
  abbrev pub AtMostOne : Dict P → List ℕ → Type 0
  AtMostOne d key = (a b : ℕ) → Holds p d key a → Holds p d key b → a ≡ b

  -- The reply that describes a node.
  abbrev pub reply_of : (ℕ → Node) → ℕ → ℕ → Reply
  reply_of heap now a =
      let sd = heap a in
      record {
        node = a;
        value = value_bytes sd;
        value_type = sd.value_type;
        exptime = remaining now sd;
        user_flags = sd.user_flags;
      }

module _ {P : Type 0} (p : Platform P) (laws : IsPlatform p) where
  lookup-heap :
      (d : Dict P) (hash : ℕ) (key : List ℕ) (now : ℕ) → (lookup p d hash key now).0.heap ≡ d.heap
  unfolding lookup touch
  lookup-heap d hash key now = ground arith

  pub enter-heap :
      (d : Dict P) (key : List ℕ) (now : ℕ) → IsValid p d → (enter p d key now).0.heap ≡ d.heap
  unfolding enter
  enter-heap d key now v =
      lookup-heap _ (crc32 p key) key now
      ∙ (expire-Due p laws (lock p d) now (locked-IsValid p d true v)).4

  lookup-count :
      (d : Dict P) (hash : ℕ) (key : List ℕ) (now b : ℕ)
      → IsValid p d
      → count b (lookup p d hash key now).0.queue ≡ count b d.queue
  unfolding lookup
  lookup-count d hash key now b v = elim (Option-cases (find_node p d.heap hash key d.root)) [
    | inl e ↦ rw (e, lookup) refl
    | inr (a, e) ↦
        let c : 0 < count a d.queue =
          omega (arith, (find_node-some p laws d.heap hash key d.root a e).0, v.same a) in
        rw (e, lookup) (count-touch p laws d a b c (v.once a))
  ]

  -- The nodes that the lookup works on: none but those that were there, and all that are kept.
  pub enter-count-le :
      (d : Dict P) (key : List ℕ) (now b : ℕ)
      → IsValid p d
      → count b (enter p d key now).0.queue ≤ count b d.queue
  unfolding enter
  enter-count-le d key now b v =
      let v' = locked-IsValid p d true v in
      omega (
        arith,
        lookup-count (expire p (lock p d) 1 now).0 (crc32 p key) key now b
            (expire-IsValid p laws (lock p d) 1 now v'),
        expire_monotone p laws (lock p d) now b v',
      )

  pub enter-kept :
      (d : Dict P) (key : List ℕ) (now a : ℕ)
      → IsValid p d
      → 0 < count a d.queue
      → is_kept now (d.heap a) ≡ true
      → 0 < count a (enter p d key now).0.queue
  unfolding enter
  enter-kept d key now a v c k =
      let v' = locked-IsValid p d true v in
      omega (
        arith,
        lookup-count (expire p (lock p d) 1 now).0 (crc32 p key) key now a
            (expire-IsValid p laws (lock p d) 1 now v'),
        expire_keeps p laws (lock p d) now a v' c k,
      )

  -- A node that holds the key behind the lookup held it before.
  pub Holds-enter :
      (d : Dict P) (key : List ℕ) (now a : ℕ) (key' : List ℕ)
      → IsValid p d
      → Holds p (enter p d key now).0 key' a
      → Holds p d key' a
  Holds-enter d key now a key' v h = (
    omega (arith, enter-count-le d key now a v, h.0),
    sym (ap (λ (f : ℕ → Node). sort_key (f a)) (enter-heap d key now v)) ∙ h.1,
  )

  pub Holds-kept :
      (d : Dict P) (key : List ℕ) (now a : ℕ) (key' : List ℕ)
      → IsValid p d
      → Holds p d key' a
      → is_kept now (d.heap a) ≡ true
      → Holds p (enter p d key now).0 key' a
  Holds-kept d key now a key' v h k = (
    enter-kept d key now a v h.0 k,
    ap (λ (f : ℕ → Node). sort_key (f a)) (enter-heap d key now v) ∙ h.1,
  )

  -- The three results of the lookup, told apart by the nodes that hold the key.
  pub get_found-hit :
      (d : Dict P) (key : List ℕ) (now a : ℕ) (r : Dict P × Found)
      → Enters p key now r
      → r.0.heap ≡ d.heap
      → Holds p r.0 key a
      → ((b : ℕ) → Holds p r.0 key b → b ≡ a)
      → is_expired now (d.heap a) ≡ false
      → (get_found p now r).1 ≡ some (reply_of p d.heap now a)
  unfolding get_found
  get_found-hit d key now a (d', declined) e h holds only x = absurd (e.1 a holds.0 holds.1)
  get_found-hit d key now a (d', done b) e h holds only x =
      absurd (cc (e.2, only b e.1, ap (λ (f : ℕ → Node). is_expired now (f a)) h, x))
  get_found-hit d key now a (d', hit b) e h holds only x = rw (only b e.1, h)

  -- In a valid zone, a key of a length that is allowed and that a single node holds, before its
  -- expiry time, reads back as that node's value, type, flags and time left.
  pub get-Holds :
      (d : Dict P) (key : List ℕ) (a : ℕ) (tp : Time)
      → IsValid p d
      → bad_key key ≡ false
      → AtMostOne p d key
      → Holds p d key a
      → is_kept (now_ms tp) (d.heap a) ≡ true
      → (get p d key tp).1 ≡ some (reply_of p d.heap (now_ms tp) a)
  unfolding get
  get-Holds d key a tp v g one h k = rw g (
      get_found-hit d key (now_ms tp) a (enter p d key (now_ms tp))
        (enter-Enters p laws d key (now_ms tp) v) (enter-heap d key (now_ms tp) v)
        (Holds-kept d key (now_ms tp) a key v h k)
        (λ b hb. one b a (Holds-enter d key (now_ms tp) b key v hb) h)
        (not_expired_of_kept (now_ms tp) (d.heap a) k))

  get_found-Lacks :
      (d : Dict P) (key : List ℕ) (now : ℕ) (r : Dict P × Found)
      → Enters p key now r
      → ((a : ℕ) → Holds p r.0 key a → is_expired now (r.0.heap a) ≡ true)
      → (get_found p now r).1 ≡ none
  unfolding get_found
  get_found-Lacks d key now (d', declined) e l = refl
  get_found-Lacks d key now (d', done b) e l = refl
  get_found-Lacks d key now (d', hit b) e l = absurd (cc (l b e.1, e.2))

  -- In a valid zone, a key that no node holds, or only expired nodes, is an error.
  pub get_absent :
      (d : Dict P) (key : List ℕ) (tp : Time)
      → IsValid p d
      → ((a : ℕ) → Holds p d key a → is_expired (now_ms tp) (d.heap a) ≡ true)
      → (get p d key tp).1 ≡ none
  unfolding get
  get_absent d key tp v l = ground (
    arith,
    get_found-Lacks d key (now_ms tp) (enter p d key (now_ms tp))
        (enter-Enters p laws d key (now_ms tp) v)
        (λ a h.
          ap (λ (f : ℕ → Node). is_expired (now_ms tp) (f a)) (enter-heap d key (now_ms tp) v)
          ∙ l a (Holds-enter d key (now_ms tp) a key v h)),
  )

  get_found-some :
      (d : Dict P) (key : List ℕ) (now : ℕ) (r : Dict P × Found) (x : Reply)
      → Enters p key now r
      → r.0.heap ≡ d.heap
      → (get_found p now r).1 ≡ some x
      → Holds p r.0 key x.node
        × (is_expired now (d.heap x.node) ≡ false)
        × (x ≡ reply_of p d.heap now x.node)
  unfolding get_found
  get_found-some d key now (d', declined) x e h s = cc
  get_found-some d key now (d', done b) x e h s = cc
  get_found-some d key now (d', hit b) x e h s =
      subst
        (λ (y : Reply).
          Holds p d' key y.node
          × (is_expired now (d.heap y.node) ≡ false)
          × (y ≡ reply_of p d.heap now y.node))
        (ap (λ (f : ℕ → Node). reply_of p f now b) (sym h)
          ∙ some-injective (reply_of p d'.heap now b) x s)
        (e.1, ap (λ (f : ℕ → Node). is_expired now (f b)) (sym h) ∙ e.2, refl)

  -- What `get` returns in a valid zone is the value, type, flags and time left of a node that
  -- holds the key and has not expired, and the key's length is allowed.
  pub get-some :
      (d : Dict P) (key : List ℕ) (tp : Time) (x : Reply)
      → IsValid p d
      → (get p d key tp).1 ≡ some x
      → (bad_key key ≡ false)
        × Holds p d key x.node
        × (is_expired (now_ms tp) (d.heap x.node) ≡ false)
        × (x ≡ reply_of p d.heap (now_ms tp) x.node)
  unfolding get
  get-some d key tp x v s = elim (Bool-cases (bad_key key)) [
    | inl e ↦ absurd (ground arith)
    | inr e ↦
        let (h, f, w) =
          get_found-some d key (now_ms tp) (enter p d key (now_ms tp)) x
            (enter-Enters p laws d key (now_ms tp) v) (enter-heap d key (now_ms tp) v)
            (ground arith) in
        (e, Holds-enter d key (now_ms tp) x.node key v h, f, w)
  ]
