-- ===== src/ShmDict/Valid/Operations.antt =====
-- The operations of the dictionary and the invariant, and what the lookup says of the zone.
use nginx_modules.Base.{
  ℕ, ◌<◌, ◌≡◌, ◌≢◌, refl, ltb, Bool, Bool-cases, Option-cases, inl, inr, true, false, List, [], ◌∷◌,
  All-at, count, if◌then◌else◌, arith,
}
use nginx_modules.ShmDict.Platform.{Platform, IsPlatform, inorder}
use nginx_modules.ShmDict.Node.{Node, Str, Time, now_ms, is_expired, sort_key, update}
use nginx_modules.ShmDict.Order.{IsSorted-agree}
use nginx_modules.ShmDict.Rbtree.{find_node}
use nginx_modules.ShmDict.Rbtree.Search.{find_node-some, find_node-none}
use nginx_modules.ShmDict.Zone.{Dict, Found, hit, done, declined, crc32, touch, unlink, lookup}
use nginx_modules.ShmDict.Expire.{flush_queue, flush_expired, set_expired, flush_all}
use nginx_modules.ShmDict.Access.{
  bad_key, enter, get_found, get, delete_found, delete, set_exptime_found, set_exptime,
  insert_unlock, set_found, set,
}
use nginx_modules.ShmDict.Valid.{IsFilled, IsValid}
use nginx_modules.ShmDict.Valid.Steps.{count-touch, touch-IsValid, unlink-IsValid, store-IsValid}
use nginx_modules.ShmDict.Valid.Parts.{
  FitsKey, FitsValue, expire-IsValid, insert-IsValid, overwrite-IsValid, flush_loop-IsValid,
}

module _ {P : Type 0} (p : Platform P) where
  -- The mutex is no part of the invariant.
  pub locked-IsValid : (d : Dict P) (b : Bool) → IsValid p d → IsValid p (record d { locked = b })
  locked-IsValid d b v = record {
    same = v.same;
    once = v.once;
    live = v.live;
    filled = v.filled;
    sorted = v.sorted;
  }

  -- A linked node with the key that is sought.
  abbrev pub Holds : Dict P → List ℕ → ℕ → Type 0
  Holds d key a = (0 < count a d.queue) × (sort_key (d.heap a) ≡ (crc32 p key, key))

  -- No node has the key.
  abbrev pub Lacks : Dict P → List ℕ → Type 0
  Lacks d key = (a : ℕ) → 0 < count a d.queue → sort_key (d.heap a) ≢ (crc32 p key, key)

  -- What the lookup says of the state that it leaves.
  abbrev pub Enters : List ℕ → ℕ → Dict P × Found → Type 0
  Enters key now (d, hit a) = IsValid p d × Holds d key a × (is_expired now (d.heap a) ≡ false)
  Enters key now (d, done a) = IsValid p d × Holds d key a × (is_expired now (d.heap a) ≡ true)
  Enters key now (d, declined) = IsValid p d × Lacks d key

module _ {P : Type 0} (p : Platform P) (laws : IsPlatform p) where
  pub lookup-Enters :
      (d : Dict P) (key : List ℕ) (now : ℕ)
      → IsValid p d
      → Enters p key now (lookup p d (crc32 p key) key now)
  unfolding lookup
  lookup-Enters d key now v = elim (Option-cases (find_node p d.heap (crc32 p key) key d.root)) [
    | inl e ↦
        rw (e, lookup)
          (
            v,
            (λ a c.
                All-at (λ b. sort_key (d.heap b) ≢ (crc32 p key, key)) a (inorder d.root)
                  (find_node-none p laws d.heap (crc32 p key) key d.root v.sorted e)
                  (ground (arith, v.same a))),
          )
    | inr (a, e) ↦
        let found = find_node-some p laws d.heap (crc32 p key) key d.root a e in
        let c : 0 < count a d.queue = omega (arith, found.0, v.same a) in
        let v' = touch-IsValid p laws d a c v in
        let h : Holds p (touch p d a) key a =
          (omega (arith, count-touch p laws d a a c (v.once a)), unfold touch in found.1) in
        elim (Bool-cases (is_expired now (d.heap a))) [
          | inl x ↦ rw (e, lookup, x) (v', h, unfold touch in x)
          | inr x ↦ rw (e, lookup, x) (v', h, unfold touch in x)
        ]
  ]

  pub enter-Enters :
      (d : Dict P) (key : List ℕ) (now : ℕ) → IsValid p d → Enters p key now (enter p d key now)
  unfolding enter
  enter-Enters d key now v =
      lookup-Enters _ key now (expire-IsValid p laws _ 1 now (locked-IsValid p d true v))

  pub get_found-IsValid :
      (key : List ℕ) (now : ℕ) (r : Dict P × Found)
      → Enters p key now r
      → IsValid p (get_found p now r).0
  unfolding get_found
  get_found-IsValid key now (d, declined) h = locked-IsValid p d false h.0
  get_found-IsValid key now (d, done a) h = locked-IsValid p d false h.0
  get_found-IsValid key now (d, hit a) h = locked-IsValid p d false h.0

  -- ngx_shm_dict_get keeps the invariant of a zone.
  pub get-IsValid :
      (d : Dict P) (key : List ℕ) (tp : Time) → IsValid p d → IsValid p (get p d key tp).0
  unfolding get
  get-IsValid d key tp v =
      ground (arith, get_found-IsValid key (now_ms tp) _ (enter-Enters d key (now_ms tp) v))

  pub delete_found-IsValid :
      (key : List ℕ) (now : ℕ) (r : Dict P × Found)
      → Enters p key now r
      → IsValid p (delete_found p r).0
  unfolding delete_found
  delete_found-IsValid key now (d, declined) h = locked-IsValid p d false h.0
  delete_found-IsValid key now (d, done a) h = locked-IsValid p d false h.0
  delete_found-IsValid key now (d, hit a) h =
      locked-IsValid p _ false (unlink-IsValid p laws d a h.0)

  -- ngx_shm_dict_delete keeps the invariant of a zone.
  pub delete-IsValid :
      (d : Dict P) (key : List ℕ) (tp : Time) → IsValid p d → IsValid p (delete p d key tp).0
  unfolding delete
  delete-IsValid d key tp v =
      delete_found-IsValid key (now_ms tp) _ (enter-Enters d key (now_ms tp) v)

  pub set_exptime_found-IsValid :
      (key : List ℕ) (exptime : ℕ) (tp : Time) (now : ℕ) (r : Dict P × Found)
      → Enters p key now r
      → IsValid p (set_exptime_found p exptime tp r).0
  unfolding set_exptime_found
  set_exptime_found-IsValid key exptime tp now (d, declined) h = locked-IsValid p d false h.0
  set_exptime_found-IsValid key exptime tp now (d, done a) h = locked-IsValid p d false h.0
  set_exptime_found-IsValid key exptime tp now (d, hit a) h =
      let f = h.0.filled a h.1.0 in
      locked-IsValid p _ false (
        store-IsValid p laws (touch p d a) a _ (unfold touch in refl)
          (unfold touch in record { hashed = f.hashed; sized = f.sized; short = f.short })
          (touch-IsValid p laws d a h.1.0 h.0))

  -- ngx_shm_dict_set_exptime keeps the invariant of a zone.
  pub set_exptime-IsValid :
      (d : Dict P) (key : List ℕ) (exptime : ℕ) (tp : Time)
      → IsValid p d
      → IsValid p (set_exptime p d key exptime tp).0
  unfolding set_exptime
  set_exptime-IsValid d key exptime tp v = ground (
    arith,
    set_exptime_found-IsValid key exptime tp (now_ms tp) _ (enter-Enters d key (now_ms tp) v),
  )

  pub insert_unlock-IsValid :
      (d : Dict P) (key : List ℕ) (value : Str) (value_type exptime user_flags : ℕ) (tp : Time)
      → FitsKey key
      → FitsValue value
      → IsValid p d
      → IsValid p (insert_unlock p d key value value_type exptime user_flags tp).0
  unfolding insert_unlock
  insert_unlock-IsValid d key value value_type exptime user_flags tp fk fv v =
      locked-IsValid p _ false
        (insert-IsValid p laws d key value value_type exptime user_flags tp fk fv v)

  pub set_found-IsValid :
      (key : List ℕ) (value : Str) (value_type exptime user_flags : ℕ) (tp : Time) (now : ℕ)
      (r : Dict P × Found)
      → FitsKey key
      → FitsValue value
      → Enters p key now r
      → IsValid p (set_found p key value value_type exptime user_flags tp r).0
  unfolding set_found
  set_found-IsValid key value value_type exptime user_flags tp now (d, declined) fk fv h =
      insert_unlock-IsValid d key value value_type exptime user_flags tp fk fv h.0
  set_found-IsValid key value value_type exptime user_flags tp now (d, done a) fk fv h =
      insert_unlock-IsValid d key value value_type exptime user_flags tp fk fv h.0
  set_found-IsValid key value value_type exptime user_flags tp now (d, hit a) fk fv h =
      let over = locked-IsValid p _ false (
        overwrite-IsValid p laws d a key value value_type exptime user_flags tp fk fv h.1.0 h.1.1
          h.0) in
      let moved =
        insert_unlock-IsValid (unlink p d a) key value value_type exptime user_flags tp fk fv
          (unlink-IsValid p laws d a h.0) in
      ground (arith, over, moved)

  -- For a value shorter than 2^32 bytes ngx_shm_dict_set keeps the invariant of a zone on every
  -- path: a bad key, an insertion, a value written over, a replaced node, and a pool that has
  -- no room.
  pub set-IsValid :
      (d : Dict P) (key : List ℕ) (value : Str) (value_type exptime user_flags : ℕ) (tp : Time)
      → FitsValue value
      → IsValid p d
      → IsValid p (set p d key value value_type exptime user_flags tp).0
  unfolding set
  set-IsValid d key value value_type exptime user_flags tp fv v = elim (Bool-cases (bad_key key)) [
    | inl e ↦ rw e v
    | inr e ↦ rw e (
        set_found-IsValid key value value_type exptime user_flags tp (now_ms tp) _ (ground arith) fv
          (enter-Enters d key (now_ms tp) v))
  ]

  flush_queue-IsValid :
      (qs : List ℕ) (attempts now : ℕ) (d : Dict P)
      → IsValid p d
      → IsValid p (flush_queue p qs attempts now d).0
  unfolding flush_queue
  flush_queue-IsValid [] attempts now d v = locked-IsValid p d false v
  flush_queue-IsValid (q ∷ next) attempts now d v =
      locked-IsValid p _ false (flush_loop-IsValid p laws _ attempts now d 0 v)

  -- ngx_shm_dict_flush_expired keeps the invariant of a zone.
  pub flush_expired-IsValid :
      (d : Dict P) (attempts : ℕ) (tp : Time)
      → IsValid p d
      → IsValid p (flush_expired p d attempts tp).0
  unfolding flush_expired
  flush_expired-IsValid d attempts tp v =
      flush_queue-IsValid d.queue attempts (now_ms tp) _ (locked-IsValid p d true v)

  -- The loop of ngx_shm_dict_flush_all changes the expiry of the nodes that it visits, no more.
  pub set_expired_lem :
      (qs : List ℕ) (heap : ℕ → Node) (a : ℕ)
      → set_expired p qs heap a
        ≡ (if ltb 0 (count a qs) then record (heap a) { expires = 1 } else heap a)
  unfolding set_expired
  set_expired_lem [] heap a = refl
  set_expired_lem (q ∷ next) heap a =
      ground (arith, set_expired_lem next (update heap q (record (heap q) { expires = 1 })) a)

  -- A change of the heap that leaves the keys and the bytes.
  rewritten-IsValid :
      (d : Dict P) (heap : ℕ → Node)
      → ((a : ℕ) → sort_key (heap a) ≡ sort_key (d.heap a))
      → ((a : ℕ) → IsFilled p (d.heap a) → IsFilled p (heap a))
      → IsValid p d
      → IsValid p (record d { heap = heap })
  rewritten-IsValid d heap e f v = record {
    same = v.same;
    once = v.once;
    live = v.live;
    filled = λ a c. f a (v.filled a c);
    sorted =
        IsSorted-agree p (λ b. sort_key (d.heap b)) (λ b. sort_key (heap b)) (inorder d.root)
          (λ b c. e b) v.sorted;
  }

  pub set_expired-IsValid :
      (d : Dict P) → IsValid p d → IsValid p (record d { heap = set_expired p d.queue d.heap })
  set_expired-IsValid d v =
      rewritten-IsValid d (set_expired p d.queue d.heap)
        (λ a. rw (set_expired_lem d.queue d.heap a) (ground arith))
        (λ a f. rw (set_expired_lem d.queue d.heap a) (elim (Bool-cases (ltb 0 (count a d.queue))) [
          | inl e ↦ rw e (record { hashed = f.hashed; sized = f.sized; short = f.short })
          | inr e ↦ rw e f
        ]))
        v

  -- ngx_shm_dict_flush_all keeps the invariant of a zone.
  pub flush_all-IsValid : (d : Dict P) (tp : Time) → IsValid p d → IsValid p (flush_all p d tp).0
  unfolding flush_all
  flush_all-IsValid d tp v =
      locked-IsValid p _ false
        (expire-IsValid p laws _ 0 (now_ms tp) (locked-IsValid p _ true (set_expired-IsValid d v)))
