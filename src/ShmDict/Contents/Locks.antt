-- ===== src/ShmDict/Contents/Locks.antt =====
-- The mutex of the zone through the operations.
use nginx_modules.Base.{
  ℕ, ◌≡◌, refl, Bool-cases, inl, inr, false, not, ◌&&◌, Option, none, some, List, [], ◌∷◌, length,
  ◌==◌, arith,
}
use nginx_modules.ShmDict.Platform.{Platform}
use nginx_modules.ShmDict.Node.{Str, Time, now_ms, shm_int64}
use nginx_modules.ShmDict.Zone.{Dict, Found, hit, done, declined}
use nginx_modules.ShmDict.Expire.{flush_queue, flush_expired, flush_all}
use nginx_modules.ShmDict.Access.{
  Reply, enter, get_found, get, delete_found, delete, set_exptime_found, set_exptime, insert_unlock,
  set_found, set, to_bytes, add_and_fetch, inc_found, inc_int,
}

module _ {P : Type 0} (p : Platform P) where
  abbrev pub IsFree : Dict P → Type 0
  IsFree d = d.locked ≡ false

  get_found-IsFree : (now : ℕ) (r : Dict P × Found) → IsFree (get_found p now r).0
  unfolding get_found
  get_found-IsFree now (d, hit a) = refl
  get_found-IsFree now (d, done a) = refl
  get_found-IsFree now (d, declined) = refl

  get-IsFree : (d : Dict P) (key : List ℕ) (tp : Time) → IsFree d → IsFree (get p d key tp).0
  unfolding get
  get-IsFree d key tp h = ground (arith, get_found-IsFree (now_ms tp) (enter p d key (now_ms tp)))

  delete_found-IsFree : (r : Dict P × Found) → IsFree (delete_found p r).0
  unfolding delete_found
  delete_found-IsFree (d, hit a) = refl
  delete_found-IsFree (d, done a) = refl
  delete_found-IsFree (d, declined) = refl

  set_exptime_found-IsFree :
      (exptime : ℕ) (tp : Time) (r : Dict P × Found) → IsFree (set_exptime_found p exptime tp r).0
  unfolding set_exptime_found
  set_exptime_found-IsFree exptime tp (d, hit a) = refl
  set_exptime_found-IsFree exptime tp (d, done a) = refl
  set_exptime_found-IsFree exptime tp (d, declined) = refl

  set_found-IsFree :
      (key : List ℕ) (value : Str) (value_type exptime user_flags : ℕ) (tp : Time)
      (r : Dict P × Found)
      → IsFree (set_found p key value value_type exptime user_flags tp r).0
  unfolding set_found
  set_found-IsFree key value value_type exptime user_flags tp (d, declined) =
      unfold insert_unlock in refl
  set_found-IsFree key value value_type exptime user_flags tp (d, done a) =
      unfold insert_unlock in refl
  set_found-IsFree key value value_type exptime user_flags tp (d, hit a) =
      elim (Bool-cases (not value.is_null && length value.bytes == (d.heap a).value_len)) [
        | inl e ↦ rw e refl
        | inr e ↦ rw e (unfold insert_unlock in refl)
      ]

  set-IsFree :
      (d : Dict P) (key : List ℕ) (value : Str) (value_type exptime user_flags : ℕ) (tp : Time)
      → IsFree d
      → IsFree (set p d key value value_type exptime user_flags tp).0
  unfolding set
  set-IsFree d key value value_type exptime user_flags tp h = ground (
    arith,
    set_found-IsFree key value value_type exptime user_flags tp (enter p d key (now_ms tp)),
  )

  inc_found-IsFree :
      (key : List ℕ) (i exptime : ℕ) (tp : Time) (r : Dict P × Option Reply)
      → IsFree r.0
      → IsFree (inc_found p key i exptime tp r).0
  unfolding inc_found
  inc_found-IsFree key i exptime tp (d, some r) h = unfold add_and_fetch in ground arith
  inc_found-IsFree key i exptime tp (d, none) h =
      set-IsFree d key (record { is_null = false; bytes = to_bytes 8 i }) shm_int64 exptime 0 tp h

  flush_queue-IsFree :
      (qs : List ℕ) (attempts now : ℕ) (d : Dict P) → IsFree (flush_queue p qs attempts now d).0
  unfolding flush_queue
  flush_queue-IsFree [] attempts now d = refl
  flush_queue-IsFree (q ∷ next) attempts now d = refl

  -- A zone whose mutex is free has it free again after each of get, set, set_exptime, delete,
  -- inc_int, flush_expired and flush_all, whatever they return.
  pub operations-IsFree :
      (d : Dict P) (key : List ℕ) (value : Str) (value_type exptime user_flags i attempts : ℕ)
      (tp : Time)
      → IsFree d
      → IsFree (get p d key tp).0
        × IsFree (set p d key value value_type exptime user_flags tp).0
        × IsFree (set_exptime p d key exptime tp).0
        × IsFree (delete p d key tp).0
        × IsFree (inc_int p d key i exptime tp).0
        × IsFree (flush_expired p d attempts tp).0
        × IsFree (flush_all p d tp).0
  operations-IsFree d key value value_type exptime user_flags i attempts tp h = (
    get-IsFree d key tp h,
    set-IsFree d key value value_type exptime user_flags tp h,
    (unfold set_exptime in
        (ground (arith, set_exptime_found-IsFree exptime tp (enter p d key (now_ms tp))))),
    (unfold delete in (delete_found-IsFree (enter p d key (now_ms tp)))),
    (unfold inc_int in
        (inc_found-IsFree key i exptime tp (get p d key tp) (get-IsFree d key tp h))),
    (unfold flush_expired in (flush_queue-IsFree d.queue attempts (now_ms tp) _)),
    (unfold flush_all in refl),
  )
