-- ===== src/ShmDict/Valid/Parts.antt =====
-- The parts of the operations and the invariant: the lookup, the expiry, the allocation.
use nginx_modules.Base.{
  ℕ, zero, suc, ◌+◌, ◌-◌, ◌%◌, ◌^◌, ◌≤◌, ◌<◌, ◌≡◌, refl, sym, subst, ◌∙◌, ap, not, ◌&&◌, Bool-cases,
  Option-cases, inl, inr, true, Option, none, some, List, [], ◌∷◌, ◌++◌, length, length-append,
  take, drop, take-append, drop-append, take-length, count, ◌==◌, arith,
}
use nginx_modules.ShmDict.Platform.{Platform, IsPlatform}
use nginx_modules.ShmDict.Node.{Node, Str, Time, now_ms, is_kept, sort_key}
use nginx_modules.ShmDict.Rbtree.{find_node}
use nginx_modules.ShmDict.Rbtree.Search.{find_node-some}
use nginx_modules.ShmDict.Zone.{Dict, crc32, touch, unlink, lookup}
use nginx_modules.ShmDict.Expire.{expire_loop, expire, flush_loop}
use nginx_modules.ShmDict.Access.{alloc_loop, alloc_node, insert_at, new_node, insert, overwrite}
use nginx_modules.ShmDict.Valid.{IsFilled, IsValid}
use nginx_modules.ShmDict.Valid.Steps.{touch-IsValid, unlink-IsValid, store-IsValid, link-IsValid}

module _ {P : Type 0} (p : Platform P) (laws : IsPlatform p) where
  pub lookup-IsValid :
      (d : Dict P) (hash : ℕ) (kdata : List ℕ) (now : ℕ)
      → IsValid p d
      → IsValid p (lookup p d hash kdata now).0
  unfolding lookup
  lookup-IsValid d hash kdata now v = elim (Option-cases (find_node p d.heap hash kdata d.root)) [
    | inl e ↦ rw (e, lookup) v
    | inr (a, e) ↦
        rw (e, lookup)
          (touch-IsValid p laws d a
            (ground (arith, find_node-some p laws d.heap hash kdata d.root a, v.same a)) v)
  ]

  pub expire_loop-IsValid :
      (rounds n now : ℕ) (d : Dict P) (freed : ℕ)
      → IsValid p d
      → IsValid p (expire_loop p rounds n now d freed).0
  unfolding expire_loop
  expire_loop-IsValid zero n now d freed v = v
  expire_loop-IsValid (suc rounds) n now d freed v = elim (Option-cases (p.queue_last d.queue)) [
    | inl e ↦ rw (e, expire_loop) v
    | inr (a, e) ↦ elim (Bool-cases (not (n == 0) && is_kept now (d.heap a))) [
      | inl k ↦ rw (e, expire_loop, k) v
      | inr k ↦
          rw (e, expire_loop, k)
            (expire_loop-IsValid rounds (n + 1) now (unlink p d a) (freed + 1)
              (unlink-IsValid p laws d a v))
    ]
  ]

  pub expire-IsValid : (d : Dict P) (n now : ℕ) → IsValid p d → IsValid p (expire p d n now).0
  unfolding expire
  expire-IsValid d n now v = expire_loop-IsValid (3 - n) n now d 0 v

  -- A block that is handed out: nothing that is linked changes, and it is in use.
  abbrev pub Allocates : Dict P × Option ℕ → Type 0
  Allocates (d, none) = IsValid p d
  Allocates (d, some a) = IsValid p d × (count a d.queue ≡ 0) × (p.is_live d.shpool a ≡ true)

  slab_alloc-Allocates :
      (d : Dict P) (size a : ℕ) (s : P)
      → p.slab_alloc d.shpool size ≡ some (a, s)
      → IsValid p d
      → Allocates (record d { shpool = s }, some a)
  slab_alloc-Allocates d size a s e v = (
    record {
      same = v.same;
      once = v.once;
      live = λ b c. ground (arith, laws.alloc_live d.shpool s size a b e, v.live b c);
      filled = v.filled;
      sorted = v.sorted;
    },
    ground (arith, laws.alloc_fresh d.shpool s size a e, v.live a),
    ground (arith, laws.alloc_live d.shpool s size a a e),
  )

  alloc_loop-Allocates :
      (rounds size now : ℕ) (d : Dict P) → IsValid p d → Allocates (alloc_loop p rounds size now d)
  unfolding alloc_loop
  alloc_loop-Allocates zero size now d v = v
  alloc_loop-Allocates (suc rounds) size now d v =
      let v' = expire-IsValid d 0 now v in
      let d' = (expire p d 0 now).0 in
      elim (Bool-cases ((expire p d 0 now).1 == 0)) [
        | inl none_freed ↦ rw none_freed v'
        | inr freed ↦ elim (Option-cases (p.slab_alloc d'.shpool size)) [
          | inl e ↦ rw (freed, e) (alloc_loop-Allocates rounds size now d' v')
          | inr (r, e) ↦ rw (freed, e) (slab_alloc-Allocates d' size r.0 r.1 e v')
        ]
      ]

  pub alloc_node-none :
      (d : Dict P) (size now : ℕ)
      → p.slab_alloc d.shpool size ≡ none
      → alloc_node p d size now ≡ alloc_loop p 30 size now d
  unfolding alloc_node
  alloc_node-none d size now e = rw (e, alloc_node)

  pub alloc_node-some :
      (d : Dict P) (size now a : ℕ) (s : P)
      → p.slab_alloc d.shpool size ≡ some (a, s)
      → alloc_node p d size now ≡ (record d { shpool = s }, some a)
  unfolding alloc_node
  alloc_node-some d size now a s e = rw (e, alloc_node)

  pub alloc_node-Allocates :
      (d : Dict P) (size now : ℕ) → IsValid p d → Allocates (alloc_node p d size now)
  alloc_node-Allocates d size now v = elim (Option-cases (p.slab_alloc d.shpool size)) [
    | inl e ↦
        subst Allocates (sym (alloc_node-none d size now e)) (alloc_loop-Allocates 30 size now d v)
    | inr (r, e) ↦
        subst Allocates (sym (alloc_node-some d size now r.0 r.1 e))
          (slab_alloc-Allocates d size r.0 r.1 e v)
  ]

-- The node that is written for a key and a value.
abbrev pub FitsKey : List ℕ → Type 0
FitsKey key = length key ≤ 65535

abbrev pub FitsValue : Str → Type 0
FitsValue value = length value.bytes < 2 ^ 32

module _ {P : Type 0} (p : Platform P) (laws : IsPlatform p) where
  -- A node that is written with a key and a value that fit holds them.
  pub written_key :
      (key value : List ℕ) → FitsKey key → take (length key % 2 ^ 16) (key ++ value) ≡ key
  written_key key value h =
      rw (let e : length key % 2 ^ 16 ≡ length key = omega arith in e) (take-append key value)

  pub written_value :
      (key : List ℕ) (value : Str)
      → FitsKey key
      → FitsValue value
      → take (length value.bytes % 2 ^ 32) (drop (length key % 2 ^ 16) (key ++ value.bytes))
        ≡ value.bytes
  written_value key value h k =
      let e : length key % 2 ^ 16 ≡ length key = omega arith in
      let f : length value.bytes % 2 ^ 32 ≡ length value.bytes = omega arith in
      rw (e, f, drop-append key value.bytes) (take-length value.bytes)

  pub written-IsFilled :
      (key : List ℕ) (value : Str) (sd : Node)
      → FitsKey key
      → FitsValue value
      → sd.key ≡ crc32 p key
      → sd.key_len ≡ length key % 2 ^ 16
      → sd.value_len ≡ length value.bytes % 2 ^ 32
      → sd.bytes ≡ key ++ value.bytes
      → IsFilled p sd
  written-IsFilled key value sd fk fv hk hl hv hb = record {
    hashed = rw (hl, hb, written_key key value.bytes fk) hk;
    sized = rw (hb, hl, hv) (omega (arith, length-append key value.bytes));
    short = omega arith;
  }

  pub insert_at-IsValid :
      (r : Dict P × Option ℕ) (sd : Node)
      → IsFilled p sd
      → Allocates p laws r
      → IsValid p (insert_at p r sd).0
  unfolding insert_at
  insert_at-IsValid (d, none) sd f v = v
  insert_at-IsValid (d, some a) sd f (v, new, l) = link-IsValid p laws d a sd new l f v

  pub new_node-IsFilled :
      (key : List ℕ) (value : Str) (value_type exptime user_flags : ℕ) (tp : Time)
      → FitsKey key
      → FitsValue value
      → IsFilled p (new_node key value value_type exptime user_flags (crc32 p key) tp)
  unfolding new_node
  new_node-IsFilled key value value_type exptime user_flags tp fk fv =
      written-IsFilled key value _ fk fv refl refl refl refl

  -- ngx_shm_dict_insert keeps the invariant, also where it fails.
  pub insert-IsValid :
      (d : Dict P) (key : List ℕ) (value : Str) (value_type exptime user_flags : ℕ) (tp : Time)
      → FitsKey key
      → FitsValue value
      → IsValid p d
      → IsValid p (insert p d key value value_type exptime user_flags (crc32 p key) tp).0
  unfolding insert
  insert-IsValid d key value value_type exptime user_flags tp fk fv v =
      insert_at-IsValid _ _ (new_node-IsFilled key value value_type exptime user_flags tp fk fv)
        (alloc_node-Allocates p laws d _ (now_ms tp) v)

  -- The value of a node that stays is written over.
  pub overwrite-IsValid :
      (d : Dict P) (a : ℕ) (key : List ℕ) (value : Str) (value_type exptime user_flags : ℕ)
      (tp : Time)
      → FitsKey key
      → FitsValue value
      → 0 < count a d.queue
      → sort_key (d.heap a) ≡ (crc32 p key, key)
      → IsValid p d
      → IsValid p (overwrite p d a key value value_type exptime user_flags tp)
  unfolding overwrite
  overwrite-IsValid d a key value value_type exptime user_flags tp fk fv h e v =
      store-IsValid p laws (touch p d a) a _
        (ap (λ (bs : List ℕ). ((d.heap a).key, bs))
          (written_key key value.bytes fk ∙ sym (ap (λ (x : ℕ × List ℕ). x.1) e)))
        (written-IsFilled key value _ fk fv (ap (λ (x : ℕ × List ℕ). x.0) e) refl refl refl)
        (touch-IsValid p laws d a h v)

  -- The queue's walk of ngx_shm_dict_flush_expired.
  pub flush_loop-IsValid :
      (qs : List ℕ) (attempts now : ℕ) (d : Dict P) (freed : ℕ)
      → IsValid p d
      → IsValid p (flush_loop p qs attempts now d freed).0
  unfolding flush_loop
  flush_loop-IsValid [] attempts now d freed v = v
  flush_loop-IsValid (q ∷ prev) attempts now d freed v =
      let v' = unlink-IsValid p laws d q v in
      ground (
        arith,
        flush_loop-IsValid prev attempts now (unlink p d q) (freed + 1) v',
        flush_loop-IsValid prev attempts now d freed v,
        v',
      )
