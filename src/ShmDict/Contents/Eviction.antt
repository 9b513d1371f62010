-- ===== src/ShmDict/Contents/Eviction.antt =====
-- What ngx_shm_dict_expire removes, and what it keeps.
use nginx_modules.Base.{
  ℕ, zero, suc, ◌+◌, ◌≤◌, ◌<◌, ◌≡◌, ◌⊎◌, refl, sym, subst, ◌∙◌, ltb, Bool-cases, Option-cases, inl,
  inr, true, false, none, some, List, [], ◌∷◌, ◌++◌, append-nil, append_assoc, ap, All, All-append,
  All-at, count-append, length, length-append, get_last?, count-get_last?, count, erase, ◌==◌,
  arith,
}
use nginx_modules.ShmDict.Platform.{Platform, IsPlatform}
use nginx_modules.ShmDict.Node.{Node, is_kept, is_expired}
use nginx_modules.ShmDict.Zone.{Dict, unlink}
use nginx_modules.ShmDict.Expire.{expire_loop, expire}
use nginx_modules.ShmDict.Valid.{IsValid}
use nginx_modules.ShmDict.Valid.Steps.{unlink-queue, unlink-IsValid}

-- A node that the expiry keeps is not expired for a lookup.
pub not_expired_of_kept : (now : ℕ) (sd : Node) → is_kept now sd ≡ true → is_expired now sd ≡ false
unfolding is_kept is_expired
not_expired_of_kept now sd h = ground arith

-- A list without its last element, which it holds once.
pub erase_last :
    (xs : List ℕ) (a : ℕ) → get_last? xs ≡ some a → count a xs ≤ 1 → erase a xs ++ a ∷ [] ≡ xs
erase_last [] a h o = cc
erase_last (x ∷ []) a h o = ground arith
erase_last (x ∷ y ∷ xs) a h o =
    ground (arith, erase_last (y ∷ xs) a h, count-get_last? (y ∷ xs) a h)

get_last?-none : (xs : List ℕ) → get_last? xs ≡ none → xs ≡ []
get_last?-none [] h = refl
get_last?-none (x ∷ []) h = cc
get_last?-none (x ∷ y ∷ xs) h = absurd (ground (arith, get_last?-none (y ∷ xs) h))

module _ {P : Type 0} (p : Platform P) (laws : IsPlatform p) where
  pub unlink-heap : (d : Dict P) (a : ℕ) → (unlink p d a).heap ≡ d.heap
  unfolding unlink
  unlink-heap d a = refl

  -- The nodes that were removed stand at the tail of the queue, and their number is counted.
  abbrev pub Evicts : ℕ → Dict P → ℕ → Dict P × ℕ → (List ℕ → Type 0) → Type 0
  Evicts rounds d freed r Out =
      (out : List ℕ) × (d.queue ≡ r.0.queue ++ out)
      × (r.1 ≡ freed + length out)
      × (length out ≤ rounds)
      × (r.0.heap ≡ d.heap)
      × Out out

  abbrev pub Due : ℕ → Dict P → List ℕ → Type 0
  Due now d out = All (λ a. is_kept now (d.heap a) ≡ false) out

  -- One round, and the rounds behind it.
  evict_one :
      (rounds now : ℕ) (d : Dict P) (a freed : ℕ) (r : Dict P × ℕ)
      → get_last? d.queue ≡ some a
      → count a d.queue ≤ 1
      → Evicts rounds (unlink p d a) (freed + 1) r (Due now d)
      → Evicts
          (suc rounds)
          d
          freed
          r
          (λ out. (older : List ℕ) × (out ≡ older ++ a ∷ []) × Due now d older)
  evict_one rounds now d a freed (d', freed') e o (out, q, f, n, h, due) = (
    out ++ a ∷ [],
    sym (erase_last d.queue a e o)
        ∙ ap (λ (xs : List ℕ). xs ++ a ∷ []) (sym (unlink-queue p laws d a) ∙ q)
        ∙ append_assoc d'.queue out (a ∷ []),
    omega (arith, length-append out (a ∷ [])),
    omega (arith, length-append out (a ∷ [])),
    h ∙ unlink-heap d a,
    (out, refl, due),
  )

  evict-Due :
      (rounds now : ℕ) (d : Dict P) (a freed : ℕ) (r : Dict P × ℕ)
      → is_kept now (d.heap a) ≡ false
      → Evicts rounds d freed r
          (λ out. (older : List ℕ) × (out ≡ older ++ a ∷ []) × Due now d older)
      → Evicts rounds d freed r (Due now d)
  evict-Due rounds now d a freed r k (out, q, f, n, h, (older, w, due)) = (
    out,
    q,
    f,
    n,
    h,
    subst (Due now d) (sym w)
        (All-append (λ b. is_kept now (d.heap b) ≡ false) older (a ∷ []) due (k, tt)),
  )

  pub expire_loop-Evicts :
      (rounds n now : ℕ) (d : Dict P) (freed : ℕ)
      → (n == 0) ≡ false
      → IsValid p d
      → Evicts rounds d freed (expire_loop p rounds n now d freed) (Due now d)
  unfolding expire_loop
  expire_loop-Evicts zero n now d freed z v =
      ([], sym (append-nil d.queue), omega arith, omega arith, refl, tt)
  expire_loop-Evicts (suc rounds) n now d freed z v = elim (Option-cases (p.queue_last d.queue)) [
    | inl e ↦ rw (e, expire_loop) ([], sym (append-nil d.queue), omega arith, omega arith, refl, tt)
    | inr (a, e) ↦ elim (Bool-cases (is_kept now (d.heap a))) [
      | inl k ↦
          rw (e, expire_loop, z, k)
            ([], sym (append-nil d.queue), omega arith, omega arith, refl, tt)
      | inr k ↦
          rw (e, expire_loop, z, k)
            (evict-Due (suc rounds) now d a freed
              (expire_loop p rounds (n + 1) now (unlink p d a) (freed + 1)) k
              (evict_one rounds now d a freed
                (expire_loop p rounds (n + 1) now (unlink p d a) (freed + 1))
                (sym (laws.last_lem d.queue) ∙ e) (v.once a)
                (expire_loop-Evicts rounds (n + 1) now (unlink p d a) (freed + 1) (ground arith)
                  (unlink-IsValid p laws d a v))))
    ]
  ]

  -- In a valid zone, `expire(ctx, 1)` removes at most two nodes from the tail of the queue, all
  -- of them due, and counts them.
  pub expire-Due :
      (d : Dict P) (now : ℕ) → IsValid p d → Evicts 2 d 0 (expire p d 1 now) (Due now d)
  unfolding expire
  expire-Due d now v = expire_loop-Evicts 2 1 now d 0 refl v

  -- In a valid zone, `expire(ctx, 0)` removes at most three nodes from the tail of the queue
  -- and counts them: the last whatever its expiry, and due ones in front of it; it removes
  -- nothing only where the queue is empty.
  pub expire_forced :
      (d : Dict P) (now : ℕ)
      → IsValid p d
      → Evicts 3 d 0 (expire p d 0 now) (λ out.
        ((out ≡ []) × (d.queue ≡ []))
        ⊎ ((a : ℕ) × (older : List ℕ) × (out ≡ older ++ a ∷ []) × Due now d older))
  unfolding expire expire_loop
  expire_forced d now v = elim (Option-cases (p.queue_last d.queue)) [
    | inl e ↦
        rw (e, expire_loop)
          (
            [],
            sym (append-nil d.queue),
            omega arith,
            omega arith,
            refl,
            inl (refl, get_last?-none d.queue (sym (laws.last_lem d.queue) ∙ e)),
          )
    | inr (a, e) ↦
        let (out, q, f, n, h, o) =
          evict_one 2 now d a 0 (expire_loop p 2 1 now (unlink p d a) 1)
            (sym (laws.last_lem d.queue) ∙ e) (v.once a)
            (expire_loop-Evicts 2 1 now (unlink p d a) 1 refl (unlink-IsValid p laws d a v)) in
        rw (e, expire_loop) (out, q, f, n, h, inr (a, o.0, o.1, o.2))
  ]

  -- A node that is not due stays linked when `expire(ctx, 1)` runs, and no node is added.
  pub expire_keeps :
      (d : Dict P) (now a : ℕ)
      → IsValid p d
      → 0 < count a d.queue
      → is_kept now (d.heap a) ≡ true
      → 0 < count a (expire p d 1 now).0.queue
  expire_keeps d now a v c k =
      let (out, q, f, n, h, due) = expire-Due d now v in
      elim (Bool-cases (ltb 0 (count a out))) [
        | inl e ↦
            absurd (cc (k, All-at (λ b. is_kept now (d.heap b) ≡ false) a out due (ground arith)))
        | inr e ↦ ground (arith, ap (count a) q, count-append a (expire p d 1 now).0.queue out)
      ]

  pub expire_monotone :
      (d : Dict P) (now a : ℕ) → IsValid p d → count a (expire p d 1 now).0.queue ≤ count a d.queue
  expire_monotone d now a v =
      let (out, q, f, n, h, due) = expire-Due d now v in
      omega (arith, ap (count a) q, count-append a (expire p d 1 now).0.queue out)
