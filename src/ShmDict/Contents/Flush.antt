-- ===== src/ShmDict/Contents/Flush.antt =====
-- What ngx_shm_dict_flush_expired removes, and what is read after ngx_shm_dict_flush_all.
use mathlib.Core.List.{reverse, reverse-cons}
use nginx_modules.Base.{
  ℕ, suc, ◌+◌, ◌-◌, ◌^◌, ◌≤◌, ◌<◌, ◌≡◌, refl, ◌∙◌, ap, lt→ltb, Bool-cases, inl, inr, true, none,
  List, [], ◌∷◌, ◌++◌, count, count-append, if◌then◌else◌, arith,
}
use nginx_modules.ShmDict.Platform.{Platform, IsPlatform}
use nginx_modules.ShmDict.Node.{Node, Time, now_ms, is_due, is_expired}
use nginx_modules.ShmDict.Zone.{Dict, lock, unlink}
use nginx_modules.ShmDict.Expire.{
  flush_loop, flush_queue, flush_expired, set_expired, flush_all, expire,
}
use nginx_modules.ShmDict.Access.{get}
use nginx_modules.ShmDict.Valid.{IsValid}
use nginx_modules.ShmDict.Valid.Steps.{count-unlink}
use nginx_modules.ShmDict.Valid.Operations.{
  locked-IsValid, set_expired_lem, set_expired-IsValid, flush_all-IsValid,
}
use nginx_modules.ShmDict.Contents.Eviction.{expire_forced}
use nginx_modules.ShmDict.Contents.Reading.{get_absent}

count-reverse : (a : ℕ) (xs : List ℕ) → count a (reverse xs) ≡ count a xs
count-reverse a [] = refl
count-reverse a (x ∷ xs) = ground (
  arith,
  ap (count a) (reverse-cons x xs),
  count-append a (reverse xs) (x ∷ []),
  count-reverse a xs,
)

-- How many nodes of a list are due.
abbrev pub due_count : (ℕ → Node) → ℕ → List ℕ → ℕ
due_count heap now [] = 0
due_count heap now (q ∷ qs) =
    let rest = due_count heap now qs in if is_due now (heap q) then suc rest else rest

due_count-append :
    (heap : ℕ → Node) (now : ℕ) (xs ys : List ℕ)
    → due_count heap now (xs ++ ys) ≡ due_count heap now xs + due_count heap now ys
due_count-append heap now [] ys = omega arith
due_count-append heap now (x ∷ xs) ys = ground (arith, due_count-append heap now xs ys)

due_count-reverse :
    (heap : ℕ → Node) (now : ℕ) (xs : List ℕ)
    → due_count heap now (reverse xs) ≡ due_count heap now xs
due_count-reverse heap now [] = refl
due_count-reverse heap now (x ∷ xs) = ground (
  arith,
  ap (due_count heap now) (reverse-cons x xs),
  due_count-append heap now (reverse xs) (x ∷ []),
  due_count-reverse heap now xs,
)

module _ {P : Type 0} (p : Platform P) (laws : IsPlatform p) where
  -- With no limit the walk removes the due nodes of the list, and counts them.
  flush_loop_all :
      (qs : List ℕ) (now : ℕ) (d : Dict P) (freed a : ℕ)
      → let (d', freed') = flush_loop p qs 0 now d freed in
        (count a d'.queue
          ≡ (if is_due now (d.heap a) then count a d.queue - count a qs else count a d.queue))
        × (freed' ≡ freed + due_count d.heap now qs)
        × (d'.heap a ≡ d.heap a)
  unfolding flush_loop
  flush_loop_all [] now d freed a = ground arith
  flush_loop_all (q ∷ prev) now d freed a = elim (Bool-cases (is_due now (d.heap q))) [
    | inl e ↦ rw e (
        ground (
          arith,
          flush_loop_all prev now (unlink p d q) (freed + 1) a,
          count-unlink p laws d q a,
          e,
        ))
    | inr e ↦ rw e (ground (arith, flush_loop_all prev now d freed a, e))
  ]

  -- With a limit it never counts past the limit.
  flush_loop_limit :
      (qs : List ℕ) (attempts now : ℕ) (d : Dict P) (freed : ℕ)
      → freed < attempts
      → (flush_loop p qs attempts now d freed).1 ≤ attempts
  unfolding flush_loop
  flush_loop_limit [] attempts now d freed h = omega arith
  flush_loop_limit (q ∷ prev) attempts now d freed h = ground (
    arith,
    flush_loop_limit prev attempts now (unlink p d q) (freed + 1),
    flush_loop_limit prev attempts now d freed h,
  )

  flush_queue_all :
      (qs : List ℕ) (now : ℕ) (d : Dict P) (a : ℕ)
      → let (d', freed') = flush_queue p qs 0 now d in
        (count a d'.queue
          ≡ (if is_due now (d.heap a) then count a d.queue - count a qs else count a d.queue))
        × (freed' ≡ due_count d.heap now qs)
        × (d'.heap a ≡ d.heap a)
  unfolding flush_queue
  flush_queue_all [] now d a = ground arith
  flush_queue_all (q ∷ next) now d a =
      let (c, f, h) = flush_loop_all (reverse (q ∷ next)) now d 0 a in
      (
        rw (← count-reverse a (q ∷ next)) c,
        omega (arith, f, due_count-reverse d.heap now (q ∷ next)),
        h,
      )

  -- Without a limit, `flush_expired` takes the nodes whose expiry time has come out of the
  -- queue and no other, leaves all contents as they are, and returns the number of those nodes.
  pub flush_expired_all :
      (d : Dict P) (tp : Time) (a : ℕ)
      → let (d', freed) = flush_expired p d 0 tp in
        (count a d'.queue ≡ (if is_due (now_ms tp) (d.heap a) then 0 else count a d.queue))
        × (d'.heap a ≡ d.heap a)
        × (freed ≡ due_count d.heap (now_ms tp) d.queue)
  unfolding flush_expired
  flush_expired_all d tp a =
      let all = flush_queue_all d.queue (now_ms tp) (lock p d) a in ground (arith, all)

  flush_queue_limit :
      (qs : List ℕ) (attempts now : ℕ) (d : Dict P)
      → 0 < attempts
      → (flush_queue p qs attempts now d).1 ≤ attempts
  unfolding flush_queue
  flush_queue_limit [] attempts now d h = omega arith
  flush_queue_limit (q ∷ next) attempts now d h =
      flush_loop_limit (reverse (q ∷ next)) attempts now d 0 h

  -- With a positive limit, `flush_expired` frees no more nodes than that.
  pub flush_expired_limit :
      (d : Dict P) (attempts : ℕ) (tp : Time)
      → 0 < attempts
      → (flush_expired p d attempts tp).1 ≤ attempts
  unfolding flush_expired
  flush_expired_limit d attempts tp h = flush_queue_limit d.queue attempts (now_ms tp) _ h

  expired_one :
      (now : ℕ) (sd : Node)
      → 1 < now
      → now < 2 ^ 63
      → is_expired now (record sd { expires = 1 }) ≡ true
  unfolding is_expired
  expired_one now sd a b = ground arith

  -- After `flush_all` in a valid zone no key reads back, at a time past the first two
  -- milliseconds of the epoch and below 2^63 milliseconds.
  pub get-flush_all :
      (d : Dict P) (key : List ℕ) (tp tp' : Time)
      → IsValid p d
      → 1 < now_ms tp'
      → now_ms tp' < 2 ^ 63
      → (get p (flush_all p d tp).0 key tp').1 ≡ none
  unfolding flush_all
  get-flush_all d key tp tp' v lo hi =
      let heap = set_expired p d.queue d.heap in
      let d1 : Dict P = record (lock p d) { heap = heap } in
      let v1 = locked-IsValid p (record d { heap = heap }) true (set_expired-IsValid p laws d v) in
      let (out, q, f, n, h, o) = expire_forced p laws d1 (now_ms tp) v1 in
      get_absent p laws (flush_all p d tp).0 key tp' (flush_all-IsValid p laws d tp v) λ a w.
        let c : 0 < count a d.queue =
          omega
            (arith, w.0, ap (count a) q, count-append a (expire p d1 0 (now_ms tp)).0.queue out) in
        ap (λ (g : ℕ → Node). is_expired (now_ms tp') (g a)) h
        ∙ rw (set_expired_lem p laws d.queue d.heap a, lt→ltb 0 (count a d.queue) c)
            (expired_one (now_ms tp') (d.heap a) lo hi)
