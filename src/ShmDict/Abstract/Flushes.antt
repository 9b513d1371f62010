-- ===== src/ShmDict/Abstract/Flushes.antt =====
-- ngx_shm_dict_flush_expired and ngx_shm_dict_flush_all as changes of the map.
use mathlib.Core.List.{reverse}
use nginx_modules.Base.{
  ℕ, zero, suc, ◌+◌, ◌≤◌, ◌<◌, ◌≡◌, ◌⊎◌, refl, sym, subst, ◌∙◌, ap, lt→ltb, ℕ_discrete, Bool-cases,
  Option-cases, inl, inr, true, not, ◌&&◌, ◌==◌, some, List, [], ◌∷◌, count, if◌then◌else◌, arith,
}
use nginx_modules.ShmDict.Platform.{Platform, IsPlatform}
use nginx_modules.ShmDict.Node.{Node, Time, now_ms, sort_key, is_due}
use nginx_modules.ShmDict.Zone.{Dict, shm_ok, lock, unlink}
use nginx_modules.ShmDict.Expire.{
  flush_loop, flush_queue, flush_expired, set_expired, flush_all, expire,
}
use nginx_modules.ShmDict.Valid.{IsValid}
use nginx_modules.ShmDict.Valid.Steps.{count-unlink}
use nginx_modules.ShmDict.Valid.Parts.{expire-IsValid}
use nginx_modules.ShmDict.Valid.Operations.{
  locked-IsValid, Holds, Lacks, set_expired_lem, set_expired-IsValid, flush_expired-IsValid,
}
use nginx_modules.ShmDict.Contents.Inserting.{Shrinks, expire-Shrinks}
use nginx_modules.ShmDict.Contents.Flush.{flush_expired_all}
use nginx_modules.ShmDict.Abstract.{
  entry_of, stored, is_past, flushed, outdated, Flushes, FlushesAll,
}
use nginx_modules.ShmDict.Abstract.Views.{
  IsSingle, Shows, Shrinks-IsSingle, Shrinks-Holds, stored-Shows, stored-Shrinks, stored-Lacks,
  stored-Holds,
}

is_past_lem : (now : ℕ) (sd : Node) → is_due now sd ≡ is_past now (entry_of sd)
unfolding is_due
is_past_lem now sd = refl

module _ {P : Type 0} (p : Platform P) (laws : IsPlatform p) where
  -- The walk takes nodes away that are due, and leaves the contents.
  abbrev DueGone : ℕ → Dict P → Dict P → Type 0
  DueGone now d d' =
      (d'.heap ≡ d.heap)
      × ((a : ℕ)
          → (count a d'.queue ≤ count a d.queue)
            × ((is_due now (d.heap a) ≡ true) ⊎ (count a d'.queue ≡ count a d.queue)))

  unlink-DueGone :
      (now : ℕ) (d : Dict P) (q : ℕ) → is_due now (d.heap q) ≡ true → DueGone now d (unlink p d q)
  unlink-DueGone now d q e = (
    unfold unlink in refl,
    λ a. (
      ground (arith, count-unlink p laws d q a),
      elim (ℕ_discrete q a) [
        | yes w ↦ inl (subst (λ (x : ℕ). is_due now (d.heap x) ≡ true) w e)
        | no n ↦ inr (ground (arith, count-unlink p laws d q a))
      ],
    ),
  )

  DueGone-trans :
      (now : ℕ) (d d1 d2 : Dict P) → DueGone now d d1 → DueGone now d1 d2 → DueGone now d d2
  DueGone-trans now d d1 d2 g h = (
    h.0 ∙ g.0,
    λ a. (
      omega (arith, (g.1 a).0, (h.1 a).0),
      elim (h.1 a).1 [
        | inl e ↦ inl (ap (λ (f : ℕ → Node). is_due now (f a)) (sym g.0) ∙ e)
        | inr e ↦ elim (g.1 a).1 [ inl x ↦ inl x | inr x ↦ inr (e ∙ x) ]
      ],
    ),
  )

  flush_loop-DueGone :
      (qs : List ℕ) (attempts now : ℕ) (d : Dict P) (freed : ℕ)
      → DueGone now d (flush_loop p qs attempts now d freed).0
  unfolding flush_loop
  flush_loop-DueGone [] attempts now d freed = (refl, λ a. (omega arith, inr refl))
  flush_loop-DueGone (q ∷ prev) attempts now d freed = elim (Bool-cases (is_due now (d.heap q))) [
    | inl e ↦
        let one = unlink-DueGone now d q e in
        elim (Bool-cases (not (attempts == 0) && freed + 1 == attempts)) [
          | inl f ↦ rw (e, f) one
          | inr f ↦
              rw (e, f)
                (DueGone-trans now d (unlink p d q)
                  (flush_loop p prev attempts now (unlink p d q) (freed + 1)).0 one
                  (flush_loop-DueGone prev attempts now (unlink p d q) (freed + 1)))
        ]
    | inr e ↦ rw e (flush_loop-DueGone prev attempts now d freed)
  ]

  flush_queue-DueGone :
      (qs : List ℕ) (attempts now : ℕ) (d : Dict P)
      → DueGone now d (flush_queue p qs attempts now d).0
  unfolding flush_queue
  flush_queue-DueGone [] attempts now d = (refl, λ a. (omega arith, inr refl))
  flush_queue-DueGone (q ∷ next) attempts now d =
      flush_loop-DueGone (reverse (q ∷ next)) attempts now d 0

  flush_expired-DueGone :
      (d : Dict P) (attempts : ℕ) (tp : Time)
      → DueGone (now_ms tp) d (flush_expired p d attempts tp).0
  unfolding flush_expired
  flush_expired-DueGone d attempts tp = flush_queue-DueGone d.queue attempts (now_ms tp) (lock p d)

  pub flush_expired-Shrinks :
      (d : Dict P) (attempts : ℕ) (tp : Time) → Shrinks p d (flush_expired p d attempts tp).0
  flush_expired-Shrinks d attempts tp =
      let g = flush_expired-DueGone d attempts tp in (g.0, λ a. (g.1 a).0)

  -- A key's entry where the due nodes are gone, and no other.
  flushed_lem :
      (now : ℕ) (d d' : Dict P) (key : List ℕ)
      → IsValid p d
      → IsValid p d'
      → IsSingle p d
      → Shrinks p d d'
      → ((a : ℕ) → count a d'.queue ≡ (if is_due now (d.heap a) then 0 else count a d.queue))
      → stored p d' key ≡ flushed now (stored p d key)
  flushed_lem now d d' key v v' one s c =
      let one' = Shrinks-IsSingle p laws d d' s one in
      elim (Option-cases (stored p d key)) [
        | inl e ↦
            let l : Lacks p d key = subst (Shows p d key) e (stored-Shows p laws d key v) in
            stored-Lacks p laws d' key v' one'
              (λ a h w. let x = Shrinks-Holds p laws d d' key a s (h, w) in l a x.0 x.1)
            ∙ sym (ap (flushed now) e)
        | inr (x, e) ↦
            let (a, h, w) : Shows p d key (some x) =
              subst (Shows p d key) e (stored-Shows p laws d key v) in
            let same = stored-Holds p laws d key a v one h in
            elim (Bool-cases (is_due now (d.heap a))) [
              | inl t ↦
                  stored-Lacks p laws d' key v' one' (λ b hb wb.
                    let q : b ≡ a = one key b a (Shrinks-Holds p laws d d' key b s (hb, wb)) h in
                    absurd (ground (arith, c a, hb, q, t)))
                  ∙ sym (ap (flushed now) same ∙ rw (sym (is_past_lem now (d.heap a)) ∙ t) refl)
              | inr t ↦
                  stored-Holds p laws d' key a v' one'
                    (ground (arith, c a, h.0, t), ap (λ (f : ℕ → Node). sort_key (f a)) s.0 ∙ h.1)
                  ∙ ap (λ (f : ℕ → Node). some (entry_of (f a))) s.0
                  ∙ sym (ap (flushed now) same ∙ rw (sym (is_past_lem now (d.heap a)) ∙ t) refl)
            ]
      ]

  -- The same where some of the due nodes are gone.
  some_flushed :
      (now : ℕ) (d d' : Dict P) (key : List ℕ)
      → IsValid p d
      → IsValid p d'
      → IsSingle p d
      → DueGone now d d'
      → (stored p d' key ≡ stored p d key) ⊎ (stored p d' key ≡ flushed now (stored p d key))
  some_flushed now d d' key v v' one g =
      elim (stored-Shrinks p laws d d' key v v' one (g.0, λ a. (g.1 a).0)) [
        | inl e ↦ inl e
        | inr (e, (a, h, w, c)) ↦ elim (g.1 a).1 [
          | inl t ↦
              inr (e ∙ sym (ap (flushed now) w ∙ rw (sym (is_past_lem now (d.heap a)) ∙ t) refl))
          | inr t ↦ absurd (ground (arith, h.0, t, c))
        ]
      ]

  -- In a valid zone where no key has two nodes, ngx_shm_dict_flush_expired does to the map what its
  -- contract says, and no key gets a second node.
  pub flush_expired-Flushes :
      (d : Dict P) (attempts : ℕ) (tp : Time)
      → IsValid p d
      → IsSingle p d
      → let (d', freed) = flush_expired p d attempts tp in
        Flushes attempts (now_ms tp) (stored p d) (stored p d') × IsSingle p d'
  flush_expired-Flushes d zero tp v one =
      let g = flush_expired-DueGone d 0 tp in
      let d' = (flush_expired p d 0 tp).0 in
      let s : Shrinks p d d' = (g.0, λ a. (g.1 a).0) in
      (
        λ k.
            flushed_lem (now_ms tp) d d' k v (flush_expired-IsValid p laws d 0 tp v) one s
              (λ a. (flush_expired_all p laws d tp a).0),
        Shrinks-IsSingle p laws d d' s one,
      )
  flush_expired-Flushes d (suc n) tp v one =
      let g = flush_expired-DueGone d (suc n) tp in
      let d' = (flush_expired p d (suc n) tp).0 in
      (
        λ k. some_flushed (now_ms tp) d d' k v (flush_expired-IsValid p laws d (suc n) tp v) one g,
        Shrinks-IsSingle p laws d d' (g.0, λ a. (g.1 a).0) one,
      )

  -- The keys stay where the loop of ngx_shm_dict_flush_all has been.
  outdated_key :
      (d : Dict P) (a : ℕ) → sort_key (set_expired p d.queue d.heap a) ≡ sort_key (d.heap a)
  outdated_key d a = rw (set_expired_lem p laws d.queue d.heap a) (ground arith)

  outdated_lem :
      (d d1 : Dict P) (key : List ℕ)
      → IsValid p d
      → IsValid p d1
      → IsSingle p d
      → d1.heap ≡ set_expired p d.queue d.heap
      → d1.queue ≡ d.queue
      → (stored p d1 key ≡ outdated (stored p d key)) × IsSingle p d1
  outdated_lem d d1 key v v1 one e q =
      let key_of : (a : ℕ) → sort_key (d1.heap a) ≡ sort_key (d.heap a) =
        λ a. ap (λ (f : ℕ → Node). sort_key (f a)) e ∙ outdated_key d a in
      let back : (k : List ℕ) (a : ℕ) → Holds p d1 k a → Holds p d k a =
        λ k a h. (subst (λ (xs : List ℕ). 0 < count a xs) q h.0, sym (key_of a) ∙ h.1) in
      let one1 : IsSingle p d1 = λ k a b ha hb. one k a b (back k a ha) (back k b hb) in
      (
        elim (Option-cases (stored p d key)) [
          | inl w ↦
              let l : Lacks p d key = subst (Shows p d key) w (stored-Shows p laws d key v) in
              stored-Lacks p laws d1 key v1 one1 (λ a c x. let h = back key a (c, x) in l a h.0 h.1)
              ∙ sym (ap outdated w)
          | inr (x, w) ↦
              let (a, h, y) : Shows p d key (some x) =
                subst (Shows p d key) w (stored-Shows p laws d key v) in
              stored-Holds p laws d1 key a v1 one1
                (subst (λ (xs : List ℕ). 0 < count a xs) (sym q) h.0, key_of a ∙ h.1)
              ∙ ap (λ (f : ℕ → Node). some (entry_of (f a))) e
              ∙ rw (set_expired_lem p laws d.queue d.heap a, lt→ltb 0 (count a d.queue) h.0) refl
              ∙ sym (ap outdated (stored-Holds p laws d key a v one h))
        ],
        one1,
      )

  -- In a valid zone where no key has two nodes, ngx_shm_dict_flush_all does to the map what its
  -- contract says, and no key gets a second node.
  pub flush_all-FlushesAll :
      (d : Dict P) (tp : Time)
      → IsValid p d
      → IsSingle p d
      → let (d', rc) = flush_all p d tp in
        FlushesAll (stored p d) (stored p d') × IsSingle p d' × (rc ≡ shm_ok)
  unfolding flush_all
  flush_all-FlushesAll d tp v one =
      let heap = set_expired p d.queue d.heap in
      let d1 : Dict P = record (lock p d) { heap = heap } in
      let v1 = locked-IsValid p (record d { heap = heap }) true (set_expired-IsValid p laws d v) in
      let one1 = (outdated_lem d d1 [] v v1 one refl refl).1 in
      let d2 = (expire p d1 0 (now_ms tp)).0 in
      let s = expire-Shrinks p laws d1 (now_ms tp) v1 in
      (
        λ k.
            elim (stored-Shrinks p laws d1 d2 k v1 (expire-IsValid p laws d1 0 (now_ms tp) v1) one1
              s) [
                | inl e ↦ inl (e ∙ (outdated_lem d d1 k v v1 one refl refl).0)
                | inr (e, x) ↦ inr e
              ],
        Shrinks-IsSingle p laws d1 d2 s one1,
        refl,
      )
