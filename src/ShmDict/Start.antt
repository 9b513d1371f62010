-- ===== src/ShmDict/Start.antt =====
-- ngx_shm_dict_init_zone: the dictionary of a zone when nginx starts or loads its configuration again.
use nginx_modules.Base.{
  ℕ, ◌+◌, ◌≡◌, subst, Option-cases, inl, inr, refl, false, Option, none, some, List, [], length,
  arith,
}
use nginx_modules.ShmDict.Platform.{Platform, sentinel}
use nginx_modules.ShmDict.Node.{Node}
use nginx_modules.ShmDict.Zone.{Dict}
use nginx_modules.ShmDict.Valid.{IsValid}
use nginx_modules.ShmDict.Contents.Locks.{IsFree}

-- sizeof(" in ngx_shared_map zone \"\"")
abbrev pub log_ctx_size : ℕ
log_ctx_size = 27

module _ {P : Type 0} (p : Platform P) where
  -- The empty tree and the empty queue, and the memory for the text that the allocator logs with.
  -- `heap` is what stands in the shared memory.
  unfoldable pub fresh_zone : (ℕ → Node) → List ℕ → Option (ℕ × P) → Option (Dict P)
  fresh_zone heap name none = none
  fresh_zone heap name (some (sh, pool)) = elim (p.slab_alloc pool (log_ctx_size + length name)) [
    | none ↦ none
    | some (log_ctx, pool') ↦
        some (record { heap = heap; root = sentinel; queue = []; shpool = pool'; locked = false })
  ]

  -- ngx_shm_dict_init_zone: `old` is the dictionary of the cycle before, `there` the one that the
  -- shared memory holds already; `none` is NGX_ERROR.
  unfoldable pub init_zone :
      (ℕ → Node) → ℕ → List ℕ → P → (old there : Option (Dict P)) → Option (Dict P)
  unfolding fresh_zone
  init_zone heap shctx_size name pool (some d) there = some d
  init_zone heap shctx_size name pool none (some d) = some d
  init_zone heap shctx_size name pool none none =
      fresh_zone heap name (p.slab_alloc pool shctx_size)

  pub fresh_zone_lem :
      (heap : ℕ → Node) (name : List ℕ) (o : Option (ℕ × P)) (d : Dict P)
      → fresh_zone heap name o ≡ some d
      → (d.root ≡ sentinel) × (d.queue ≡ [])
  unfolding fresh_zone
  fresh_zone_lem heap name none d e = cc
  fresh_zone_lem heap name (some (sh, pool)) d e =
      elim (Option-cases (p.slab_alloc pool (log_ctx_size + length name))) [
        | inl n ↦ absurd (ground (arith, e, n))
        | inr (r, n) ↦ ground (arith, e, n)
      ]

  pub fresh_zone-IsValid :
      (heap : ℕ → Node) (name : List ℕ) (o : Option (ℕ × P)) (d : Dict P)
      → fresh_zone heap name o ≡ some d
      → IsValid p d × IsFree p d
  unfolding fresh_zone
  fresh_zone-IsValid heap name none d e = cc
  fresh_zone-IsValid heap name (some (sh, pool)) d e =
      elim (Option-cases (p.slab_alloc pool (log_ctx_size + length name))) [
        | inl n ↦ absurd (ground (arith, e, n))
        | inr ((log_ctx, pool'), n) ↦
            let fresh : Dict P = record {
              heap = heap;
              root = sentinel;
              queue = [];
              shpool = pool';
              locked = false;
            } in
            let is_fresh : fresh ≡ d = ground (arith, e, n) in
            subst (λ (q : Dict P). IsValid p q × IsFree p q) is_fresh
              (
                record {
                  same = λ a. refl;
                  once = λ a. omega arith;
                  live = λ a h. absurd (omega arith);
                  filled = λ a h. absurd (omega arith);
                  sorted = tt;
                },
                refl,
              )
      ]
