-- ===== src/ShmDict/Contents/Inserting.antt =====
-- What ngx_shm_dict_insert leaves: the new node alone holds its key.
use nginx_modules.Base.{
  ℕ, zero, suc, ◌+◌, ◌≤◌, ◌≡◌, refl, sym, ◌∙◌, ap, Bool-cases, Option-cases, inl, inr, Option, none,
  some, List, length, count, count-append, ◌==◌, ℕ_discrete, arith,
}
use nginx_modules.ShmDict.Platform.{Platform, IsPlatform}
use nginx_modules.ShmDict.Node.{Node, Str, Time, now_ms, sort_key}
use nginx_modules.ShmDict.Zone.{Dict, shm_ok, crc32, store}
use nginx_modules.ShmDict.Expire.{expire}
use nginx_modules.ShmDict.Access.{
  new_node, alloc_loop, alloc_node, link, insert_at, int_size, insert, insert_unlock,
}
use nginx_modules.ShmDict.Valid.{IsValid}
use nginx_modules.ShmDict.Valid.Steps.{update_self, update-ne, link-queue}
use nginx_modules.ShmDict.Valid.Parts.{
  FitsKey, expire-IsValid, Allocates, alloc_node-Allocates, written_key,
}
use nginx_modules.ShmDict.Valid.Operations.{Holds, Lacks}
use nginx_modules.ShmDict.Contents.Eviction.{expire_forced}

module _ {P : Type 0} (p : Platform P) where
  -- One node alone holds the key, and it is this one.
  abbrev pub Binds : Dict P → List ℕ → Node → Type 0
  Binds d key sd = (a : ℕ) × Holds p d key a × (d.heap a ≡ sd) × ((b : ℕ) → Holds p d key b → b ≡ a)

  -- Nothing is added to the nodes that hold the key, and the heap stays as it is.
  abbrev pub Shrinks : Dict P → Dict P → Type 0
  Shrinks d d' = (d'.heap ≡ d.heap) × ((a : ℕ) → count a d'.queue ≤ count a d.queue)

module _ {P : Type 0} (p : Platform P) (laws : IsPlatform p) where
  pub expire-Shrinks : (d : Dict P) (now : ℕ) → IsValid p d → Shrinks p d (expire p d 0 now).0
  expire-Shrinks d now v =
      let (out, q, f, n, h, due) = expire_forced p laws d now v in
      (h, λ a. omega (arith, ap (count a) q, count-append a (expire p d 0 now).0.queue out))

  alloc_loop-Shrinks :
      (rounds size now : ℕ) (d : Dict P)
      → IsValid p d
      → Shrinks p d (alloc_loop p rounds size now d).0
  unfolding alloc_loop
  alloc_loop-Shrinks zero size now d v = (refl, λ a. omega arith)
  alloc_loop-Shrinks (suc rounds) size now d v =
      let d' = (expire p d 0 now).0 in
      let s = expire-Shrinks d now v in
      elim (Bool-cases ((expire p d 0 now).1 == 0)) [
        | inl e ↦ rw e s
        | inr e ↦ elim (Option-cases (p.slab_alloc d'.shpool size)) [
          | inl n ↦
              let r = alloc_loop-Shrinks rounds size now d' (expire-IsValid p laws d 0 now v) in
              rw (e, n) (r.0 ∙ s.0, λ a. omega (arith, r.1 a, s.1 a))
          | inr (m, n) ↦ rw (e, n) s
        ]
      ]

  pub alloc_node-Shrinks :
      (d : Dict P) (size now : ℕ) → IsValid p d → Shrinks p d (alloc_node p d size now).0
  unfolding alloc_node
  alloc_node-Shrinks d size now v = elim (Option-cases (p.slab_alloc d.shpool size)) [
    | inl n ↦ rw (n, alloc_node) (alloc_loop-Shrinks 30 size now d v)
    | inr (m, n) ↦ rw (n, alloc_node) (refl, λ a. omega arith)
  ]

  -- An insertion of a key that no node holds binds the key to the new node.
  insert_at-Binds :
      (r : Dict P × Option ℕ) (key : List ℕ) (sd : Node)
      → Allocates p laws r
      → Lacks p r.0 key
      → sort_key sd ≡ (crc32 p key, key)
      → (insert_at p r sd).1 ≡ shm_ok
      → Binds p (insert_at p r sd).0 key sd
  unfolding insert_at link store
  insert_at-Binds (d, none) key sd al l k e = cc
  insert_at-Binds (d, some a) key sd al l k e = (
    a,
    (ground (arith, link-queue p laws d a sd), rw (update_self d.heap a sd) k),
    update_self d.heap a sd,
    λ b h. elim (ℕ_discrete b a) [
      | yes w ↦ w
      | no n ↦ absurd (
          l b (ground (arith, link-queue p laws d a sd, h.0))
            (sym (ap (λ (x : Node). sort_key x) (update-ne d.heap a sd b (λ w. n (sym w)))) ∙ h.1))
    ],
  )

  pub insert-Binds :
      (d : Dict P) (key : List ℕ) (value : Str) (value_type exptime user_flags : ℕ) (tp : Time)
      → IsValid p d
      → FitsKey key
      → Lacks p d key
      → (insert_unlock p d key value value_type exptime user_flags tp).1 ≡ shm_ok
      → Binds p
          (insert_unlock p d key value value_type exptime user_flags tp).0
          key
          (new_node key value value_type exptime user_flags (crc32 p key) tp)
  unfolding insert_unlock insert new_node
  insert-Binds d key value value_type exptime user_flags tp v fk l e =
      let size = int_size (p.header_size + length key + length value.bytes) in
      let s = alloc_node-Shrinks d size (now_ms tp) v in
      insert_at-Binds (alloc_node p d size (now_ms tp)) key _
        (alloc_node-Allocates p laws d size (now_ms tp) v)
        (λ a c w. l a (omega (arith, s.1 a)) (sym (ap (λ (f : ℕ → Node). sort_key (f a)) s.0) ∙ w))
        (ap (λ (bs : List ℕ). (crc32 p key, bs)) (written_key p laws key value.bytes fk)) e
