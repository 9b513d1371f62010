-- ===== src/ShmDict/Contents/Room.antt =====
-- When ngx_shm_dict_set finds no room: what has been evicted by then.
use nginx_modules.Base.{
  ℕ, zero, suc, ◌+◌, ◌≤◌, ◌<◌, ◌≡◌, ◌≢◌, ◌⊎◌, refl, sym, ◌∙◌, ap, Bool-cases, Option-cases, inl,
  inr, true, false, not, ◌&&◌, Option, none, some, List, [], ◌∷◌, ◌++◌, append-nil, length,
  length-append, length-erase, count, ◌==◌, arith,
}
use nginx_modules.ShmDict.Platform.{Platform, IsPlatform}
use nginx_modules.ShmDict.Node.{Node, Str, Time, now_ms}
use nginx_modules.ShmDict.Zone.{
  Dict, shm_error, Found, hit, done, declined, crc32, lock, touch, unlink, lookup,
}
use nginx_modules.ShmDict.Expire.{expire}
use nginx_modules.ShmDict.Access.{
  bad_key, enter, int_size, alloc_loop, alloc_node, insert_at, insert, insert_unlock, set_found,
  set,
}
use nginx_modules.ShmDict.Rbtree.{find_node}
use nginx_modules.ShmDict.Rbtree.Search.{find_node-some}
use nginx_modules.ShmDict.Valid.{IsValid}
use nginx_modules.ShmDict.Valid.Steps.{touch-queue, unlink-queue, unlink-IsValid}
use nginx_modules.ShmDict.Valid.Parts.{expire-IsValid, alloc_node-none, alloc_node-some}
use nginx_modules.ShmDict.Valid.Operations.{locked-IsValid, Enters, enter-Enters}
use nginx_modules.ShmDict.Contents.Eviction.{expire-Due, expire_forced}

module _ {P : Type 0} (p : Platform P) where
  -- No node is left, or at least so many have been evicted.
  abbrev pub Exhausted : ℕ → Dict P → Dict P → Type 0
  Exhausted n d d' = (d'.queue ≡ []) ⊎ (length d'.queue + n ≤ length d.queue)

module _ {P : Type 0} (p : Platform P) (laws : IsPlatform p) where
  -- A forced round of expiry frees a node, unless there is none.
  forced-frees :
      (d : Dict P) (now : ℕ)
      → IsValid p d
      → let (d', freed) = expire p d 0 now in
        (length d.queue ≡ length d'.queue + freed) × (((freed == 0) ≡ false) ⊎ (d'.queue ≡ []))
  forced-frees d now v =
      let (out, q, f, n, h, o) = expire_forced p laws d now v in
      let d' = (expire p d 0 now).0 in
      (
        omega (arith, ap (λ (xs : List ℕ). length xs) q, length-append d'.queue out, f),
        elim o [
          | inl (e, empty) ↦ inr (
              sym (append-nil d'.queue)
              ∙ ap (λ (xs : List ℕ). d'.queue ++ xs) (sym e)
              ∙ sym q
              ∙ empty)
          | inr (a, older, e, due) ↦
              inl
                (ground (arith, ap (λ (xs : List ℕ). length xs) e, length-append older (a ∷ []), f))
        ],
      )

  alloc_loop-Exhausted :
      (rounds size now : ℕ) (d : Dict P)
      → IsValid p d
      → (alloc_loop p rounds size now d).1 ≡ none
      → Exhausted p rounds d (alloc_loop p rounds size now d).0
  unfolding alloc_loop
  alloc_loop-Exhausted zero size now d v e = inr (omega arith)
  alloc_loop-Exhausted (suc rounds) size now d v e =
      let d' = (expire p d 0 now).0 in
      let (n, o) = forced-frees d now v in
      elim (Bool-cases ((expire p d 0 now).1 == 0)) [
        | inl z ↦ rw z (elim o [ inl w ↦ absurd (cc (z, w)) | inr w ↦ inl w ])
        | inr z ↦ elim (Option-cases (p.slab_alloc d'.shpool size)) [
          | inr (m, s) ↦ absurd (ground (arith, e, z, s))
          | inl s ↦
              let rest =
                alloc_loop-Exhausted rounds size now d' (expire-IsValid p laws d 0 now v)
                  (ground (arith, e, z, s)) in
              rw (z, s) (elim rest [ inl w ↦ inl w | inr w ↦ inr (ground (arith, n, w, z)) ])
        ]
      ]

  node_none :
      (d : Dict P) (size now : ℕ)
      → p.slab_alloc d.shpool size ≡ none
      → (alloc_node p d size now).1 ≡ none
      → (alloc_loop p 30 size now d).1 ≡ none
  node_none d size now s e =
      sym (ap (λ (r : Dict P × Option ℕ). r.1) (alloc_node-none p laws d size now s)) ∙ e

  node_some :
      (d : Dict P) (size now : ℕ) (m : ℕ × P)
      → p.slab_alloc d.shpool size ≡ some m
      → (alloc_node p d size now).1 ≢ none
  node_some d size now m s e = absurd (cc (alloc_node-some p laws d size now m.0 m.1 s, e))

  alloc_node-Exhausted :
      (d : Dict P) (size now : ℕ)
      → IsValid p d
      → (alloc_node p d size now).1 ≡ none
      → Exhausted p 30 d (alloc_node p d size now).0
  unfolding alloc_node
  alloc_node-Exhausted d size now v e = elim (Option-cases (p.slab_alloc d.shpool size)) [
    | inl s ↦ rw (s, alloc_node) (alloc_loop-Exhausted 30 size now d v (node_none d size now s e))
    | inr (m, s) ↦ absurd (node_some d size now m s e)
  ]

  insert_at-error :
      (r : Dict P × Option ℕ) (sd : Node)
      → (insert_at p r sd).1 ≡ shm_error
      → (r.1 ≡ none) × ((insert_at p r sd).0.queue ≡ r.0.queue)
  unfolding insert_at
  insert_at-error (d, none) sd e = (refl, refl)
  insert_at-error (d, some a) sd e = absurd (cc e)

  insert_unlock-Exhausted :
      (d : Dict P) (key : List ℕ) (value : Str) (value_type exptime user_flags : ℕ) (tp : Time)
      → IsValid p d
      → (insert_unlock p d key value value_type exptime user_flags tp).1 ≡ shm_error
      → Exhausted p 30 d (insert_unlock p d key value value_type exptime user_flags tp).0
  unfolding insert_unlock insert
  insert_unlock-Exhausted d key value value_type exptime user_flags tp v e =
      let size = int_size (p.header_size + length key + length value.bytes) in
      let (n, q) = insert_at-error (alloc_node p d size (now_ms tp)) _ e in
      let ex = alloc_node-Exhausted d size (now_ms tp) v n in
      elim ex [
        | inl w ↦ inl (q ∙ w)
        | inr w ↦ inr (omega (arith, w, ap (λ (xs : List ℕ). length xs) q))
      ]

  set_found-Exhausted :
      (key : List ℕ) (value : Str) (value_type exptime user_flags : ℕ) (tp : Time) (now : ℕ)
      (r : Dict P × Found)
      → Enters p key now r
      → (set_found p key value value_type exptime user_flags tp r).1 ≡ shm_error
      → Exhausted p 30 r.0 (set_found p key value value_type exptime user_flags tp r).0
  unfolding set_found
  set_found-Exhausted key value value_type exptime user_flags tp now (d, declined) h e =
      insert_unlock-Exhausted d key value value_type exptime user_flags tp h.0 e
  set_found-Exhausted key value value_type exptime user_flags tp now (d, done a) h e =
      insert_unlock-Exhausted d key value value_type exptime user_flags tp h.0 e
  set_found-Exhausted key value value_type exptime user_flags tp now (d, hit a) h e =
      elim (Bool-cases (not value.is_null && length value.bytes == (d.heap a).value_len)) [
        | inl t ↦ absurd (ground (arith, e, t))
        | inr t ↦
            let ex =
              insert_unlock-Exhausted (unlink p d a) key value value_type exptime user_flags tp
                (unlink-IsValid p laws d a h.0) (ground (arith, e, t)) in
            let n : length (unlink p d a).queue + 1 ≡ length d.queue =
              ap (λ (xs : List ℕ). length xs + 1) (unlink-queue p laws d a)
              ∙ length-erase a d.queue h.1.0 in
            rw t (elim ex [ inl w ↦ inl w | inr w ↦ inr (omega (arith, n, w)) ])
      ]

  touch-length :
      (d : Dict P) (a : ℕ) → 0 < count a d.queue → length (touch p d a).queue ≡ length d.queue
  touch-length d a c =
      omega
        (arith, ap (λ (xs : List ℕ). length xs) (touch-queue p laws d a), length-erase a d.queue c)

  lookup-length :
      (d : Dict P) (key : List ℕ) (now : ℕ)
      → IsValid p d
      → length (lookup p d (crc32 p key) key now).0.queue ≡ length d.queue
  unfolding lookup
  lookup-length d key now v = elim (Option-cases (find_node p d.heap (crc32 p key) key d.root)) [
    | inl e ↦ rw (e, lookup) refl
    | inr (a, e) ↦
        let c : 0 < count a d.queue =
          omega (arith, (find_node-some p laws d.heap (crc32 p key) key d.root a e).0, v.same a) in
        rw (e, lookup) (touch-length d a c)
  ]

  enter-length :
      (d : Dict P) (key : List ℕ) (now : ℕ)
      → IsValid p d
      → length (enter p d key now).0.queue ≤ length d.queue
  unfolding enter
  enter-length d key now v =
      let v' = locked-IsValid p d true v in
      let (out, q, f, n, h, due) = expire-Due p laws (lock p d) now v' in
      omega (
        arith,
        lookup-length (expire p (lock p d) 1 now).0 key now
            (expire-IsValid p laws (lock p d) 1 now v'),
        ap (λ (xs : List ℕ). length xs) q,
        length-append (expire p (lock p d) 1 now).0.queue out,
      )

  -- In a valid zone, ngx_shm_dict_set fails only for a key that is empty or longer than 65535 bytes,
  -- or where it has evicted every node, or at least thirty.
  pub set-Exhausted :
      (d : Dict P) (key : List ℕ) (value : Str) (value_type exptime user_flags : ℕ) (tp : Time)
      → IsValid p d
      → (set p d key value value_type exptime user_flags tp).1 ≡ shm_error
      → (bad_key key ≡ true)
        ⊎ Exhausted p 30 d (set p d key value value_type exptime user_flags tp).0
  unfolding set
  set-Exhausted d key value value_type exptime user_flags tp v e = elim (Bool-cases (bad_key key)) [
    | inl b ↦ inl b
    | inr b ↦
        let now = now_ms tp in
        let ex =
          set_found-Exhausted key value value_type exptime user_flags tp now (enter p d key now)
            (enter-Enters p laws d key now v) (ground (arith, e, b)) in
        inr (
          rw b
            (elim ex [ inl w ↦ inl w | inr w ↦ inr (omega (arith, w, enter-length d key now v)) ]))
  ]
