-- ===== src/ShmDict/Expire.antt =====
-- ngx_shm_dict_expire, ngx_shm_dict_flush_expired and ngx_shm_dict_flush_all.
use mathlib.Core.List.{reverse}
use nginx_modules.Base.{
  ℕ, zero, suc, ◌+◌, ◌-◌, ◌==◌, if◌then◌else◌, not, ◌&&◌, none, some, List, [], ◌∷◌,
}
use nginx_modules.ShmDict.Platform.{Platform}
use nginx_modules.ShmDict.Node.{Node, Time, now_ms, update, is_kept, is_due}
use nginx_modules.ShmDict.Zone.{Dict, Rc, shm_ok, lock, unlock, unlink}

module _ {P : Type 0} (p : Platform P) where
  -- The loop `while (n < 3)`, by the rounds left, 3 - n.
  unfoldable pub expire_loop : ℕ → ℕ → ℕ → Dict P → ℕ → Dict P × ℕ
  unfolding unlink
  expire_loop zero n now d freed = (d, freed)
  expire_loop (suc rounds) n now d freed = elim (p.queue_last d.queue) [
    | none ↦ (d, freed)
    | some a ↦
        let rest = expire_loop rounds (n + 1) now (unlink p d a) (freed + 1) in
        if not (n == 0) && is_kept now (d.heap a) then (d, freed) else rest
  ]

  unfoldable pub expire : Dict P → ℕ → ℕ → Dict P × ℕ
  unfolding expire_loop
  expire d n now = expire_loop (3 - n) n now d 0

  -- The walk from the tail: the addresses that are still to come, and what was freed.
  unfoldable pub flush_loop : List ℕ → ℕ → ℕ → Dict P → ℕ → Dict P × ℕ
  unfolding unlink
  flush_loop [] attempts now d freed = (d, freed)
  flush_loop (q ∷ prev) attempts now d freed =
      let after = flush_loop prev attempts now (unlink p d q) (freed + 1) in
      let past = flush_loop prev attempts now d freed in
      if is_due now (d.heap q)
      then (if not (attempts == 0) && freed + 1 == attempts
          then (unlink p d q, freed + 1)
          else after)
      else past

  unfoldable pub flush_queue : List ℕ → ℕ → ℕ → Dict P → Dict P × ℕ
  unfolding flush_loop
  flush_queue [] attempts now d = (unlock p d, 0)
  flush_queue (q ∷ next) attempts now d =
      let (d', freed) = flush_loop (reverse (q ∷ next)) attempts now d 0 in (unlock p d', freed)

  -- A negative number of attempts is never reached: like 0 it sets no limit.
  unfoldable pub flush_expired : Dict P → ℕ → Time → Dict P × ℕ
  unfolding flush_queue
  flush_expired d attempts tp = flush_queue d.queue attempts (now_ms tp) (lock p d)

  -- The loop of ngx_shm_dict_flush_all.
  unfoldable pub set_expired : List ℕ → (ℕ → Node) → ℕ → Node
  set_expired [] heap = heap
  set_expired (q ∷ next) heap = set_expired next (update heap q (record (heap q) { expires = 1 }))

  unfoldable pub flush_all : Dict P → Time → Dict P × Rc
  unfolding set_expired expire
  flush_all d tp =
      let d1 : Dict P = record (lock p d) { heap = set_expired d.queue d.heap } in
      (unlock p (expire d1 0 (now_ms tp)).0, shm_ok)
