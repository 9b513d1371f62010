-- ===== src/ShmDict/Contents/Integers.antt =====
-- The entries of the integer type: each operation leaves them the eight bytes of an `int64_t`, where
-- those that are set have them.
use nginx_modules.Base.{
  ℕ, ◌<◌, ◌≤◌, ◌≡◌, refl, sym, subst, Bool-cases, inl, inr, ltb, true, false, ◌+◌, not, ◌&&◌, ◌==◌,
  Option, none, some, List, count, length, ℕ_discrete, arith,
}
use nginx_modules.ShmDict.Platform.{Platform, IsPlatform}
use nginx_modules.ShmDict.Node.{Node, Str, Time, now_ms, shm_int64}
use nginx_modules.ShmDict.Zone.{Dict, Found, hit, done, declined, crc32, touch, unlink, store, lock}
use nginx_modules.ShmDict.Expire.{expire, set_expired, flush_expired, flush_all}
use nginx_modules.ShmDict.Access.{
  Reply, bad_key, to_bytes, enter, get_found, get, delete_found, delete, set_exptime_found,
  set_exptime, new_node, alloc_node, link, insert_at, insert, int_size, overwrite, insert_unlock,
  set_found, set, add_and_fetch, inc_found, inc_int,
}
use nginx_modules.ShmDict.Valid.{IsValid, IsWhole, IsCounted}
use nginx_modules.ShmDict.Valid.Steps.{
  update-elim, link-queue, count-touch, count-unlink, unlink-IsValid,
}
use nginx_modules.ShmDict.Valid.Parts.{FitsValue}
use nginx_modules.ShmDict.Valid.Operations.{
  Enters, enter-Enters, get-IsValid, locked-IsValid, set_expired_lem, set_expired-IsValid,
}
use nginx_modules.ShmDict.Valid.Counter.{
  length-to_bytes, add_and_fetch_lem, over, sum_in, get-reply,
}
use nginx_modules.ShmDict.Contents.Reading.{enter-heap, enter-count-le}
use nginx_modules.ShmDict.Contents.Inserting.{Shrinks, expire-Shrinks, alloc_node-Shrinks}
use nginx_modules.ShmDict.Abstract.Flushes.{flush_expired-Shrinks}

-- A value of the integer type that is set has eight bytes, or more.
abbrev pub FitsType : ℕ → Str → Type 0
FitsType value_type value = value_type ≡ shm_int64 → 8 ≤ length value.bytes

module _ {P : Type 0} (p : Platform P) where
  Shrinks-IsCounted : (d d' : Dict P) → Shrinks p d d' → IsCounted d → IsCounted d'
  Shrinks-IsCounted d d' s w a c =
      subst (λ (f : ℕ → Node). IsWhole (f a)) (sym s.0) (w a (omega (arith, s.1 a, c)))

  store-IsCounted :
      (d : Dict P) (a : ℕ) (sd : Node) → IsCounted d → IsWhole sd → IsCounted (store p d a sd)
  unfolding store
  store-IsCounted d a sd w h b c = update-elim IsWhole d.heap a sd b (λ e. h) (λ n. w b c)

module _ {P : Type 0} (p : Platform P) (laws : IsPlatform p) where
  enter-IsCounted :
      (d : Dict P) (key : List ℕ) (now : ℕ)
      → IsValid p d
      → IsCounted d
      → IsCounted (enter p d key now).0
  enter-IsCounted d key now v =
      Shrinks-IsCounted p d (enter p d key now).0
        (enter-heap p laws d key now v, λ a. enter-count-le p laws d key now a v)

  unlink-IsCounted : (d : Dict P) (a : ℕ) → IsCounted d → IsCounted (unlink p d a)
  unlink-IsCounted d a =
      Shrinks-IsCounted p d (unlink p d a)
        (unfold unlink in refl, λ b. ground (arith, count-unlink p laws d a b))

  touch-IsCounted :
      (d : Dict P) (a : ℕ)
      → IsValid p d
      → 0 < count a d.queue
      → IsCounted d
      → IsCounted (touch p d a)
  touch-IsCounted d a v c =
      Shrinks-IsCounted p d (touch p d a)
        (unfold touch in refl, λ b. omega (arith, count-touch p laws d a b c (v.once a)))

  get_found-IsCounted :
      (now : ℕ) (r : Dict P × Found) → IsCounted r.0 → IsCounted (get_found p now r).0
  unfolding get_found
  get_found-IsCounted now (d, hit a) w = w
  get_found-IsCounted now (d, done a) w = w
  get_found-IsCounted now (d, declined) w = w

  pub get-IsCounted :
      (d : Dict P) (key : List ℕ) (tp : Time)
      → IsValid p d
      → IsCounted d
      → IsCounted (get p d key tp).0
  unfolding get
  get-IsCounted d key tp v w = elim (Bool-cases (bad_key key)) [
    | inl e ↦ rw e w
    | inr e ↦ rw e (
        get_found-IsCounted (now_ms tp) (enter p d key (now_ms tp))
          (enter-IsCounted d key (now_ms tp) v w))
  ]

  delete_found-IsCounted : (r : Dict P × Found) → IsCounted r.0 → IsCounted (delete_found p r).0
  unfolding delete_found
  delete_found-IsCounted (d, hit a) w = unlink-IsCounted d a w
  delete_found-IsCounted (d, done a) w = w
  delete_found-IsCounted (d, declined) w = w

  pub delete-IsCounted :
      (d : Dict P) (key : List ℕ) (tp : Time)
      → IsValid p d
      → IsCounted d
      → IsCounted (delete p d key tp).0
  unfolding delete
  delete-IsCounted d key tp v w =
      delete_found-IsCounted (enter p d key (now_ms tp)) (enter-IsCounted d key (now_ms tp) v w)

  set_exptime_found-IsCounted :
      (key : List ℕ) (exptime : ℕ) (tp : Time) (now : ℕ) (r : Dict P × Found)
      → Enters p key now r
      → IsCounted r.0
      → IsCounted (set_exptime_found p exptime tp r).0
  unfolding set_exptime_found
  set_exptime_found-IsCounted key exptime tp now (d, declined) h w = w
  set_exptime_found-IsCounted key exptime tp now (d, done a) h w = w
  set_exptime_found-IsCounted key exptime tp now (d, hit a) h w =
      store-IsCounted p (touch p d a) a _ (touch-IsCounted d a h.0 h.1.0 w)
        (unfold touch in (w a h.1.0))

  pub set_exptime-IsCounted :
      (d : Dict P) (key : List ℕ) (exptime : ℕ) (tp : Time)
      → IsValid p d
      → IsCounted d
      → IsCounted (set_exptime p d key exptime tp).0
  unfolding set_exptime
  set_exptime-IsCounted d key exptime tp v w = elim (Bool-cases (bad_key key)) [
    | inl e ↦ rw e w
    | inr e ↦ rw e (
        set_exptime_found-IsCounted key exptime tp (now_ms tp) (enter p d key (now_ms tp))
          (enter-Enters p laws d key (now_ms tp) v) (enter-IsCounted d key (now_ms tp) v w))
  ]

  link-IsCounted :
      (d : Dict P) (a : ℕ) (sd : Node) → IsCounted d → IsWhole sd → IsCounted (link p d a sd)
  link-IsCounted d a sd w h b c = elim (ℕ_discrete a b) [
    | yes e ↦ unfold link store in (update-elim IsWhole d.heap a sd b (λ q. h) (λ n. absurd (n e)))
    | no n ↦
        unfold link store in
        (update-elim IsWhole d.heap a sd b (λ q. h)
          (λ m. w b (ground (arith, n, link-queue p laws d a sd, c))))
  ]

  insert_at-IsCounted :
      (r : Dict P × Option ℕ) (sd : Node)
      → IsCounted r.0
      → IsWhole sd
      → IsCounted (insert_at p r sd).0
  unfolding insert_at
  insert_at-IsCounted (d, none) sd w h = w
  insert_at-IsCounted (d, some a) sd w h = link-IsCounted d a sd w h

  new_node-IsWhole :
      (key : List ℕ) (value : Str) (value_type exptime user_flags hash : ℕ) (tp : Time)
      → FitsValue value
      → FitsType value_type value
      → IsWhole (new_node key value value_type exptime user_flags hash tp)
  unfolding new_node
  new_node-IsWhole key value value_type exptime user_flags hash tp f g t = omega (arith, f, g t)

  insert_unlock-IsCounted :
      (d : Dict P) (key : List ℕ) (value : Str) (value_type exptime user_flags : ℕ) (tp : Time)
      → FitsValue value
      → FitsType value_type value
      → IsValid p d
      → IsCounted d
      → IsCounted (insert_unlock p d key value value_type exptime user_flags tp).0
  unfolding insert_unlock insert
  insert_unlock-IsCounted d key value value_type exptime user_flags tp f g v w =
      let size = int_size (p.header_size + length key + length value.bytes) in
      insert_at-IsCounted (alloc_node p d size (now_ms tp))
        (new_node key value value_type exptime user_flags (crc32 p key) tp)
        (Shrinks-IsCounted p d (alloc_node p d size (now_ms tp)).0
          (alloc_node-Shrinks p laws d size (now_ms tp) v) w)
        (new_node-IsWhole key value value_type exptime user_flags (crc32 p key) tp f g)

  set_found-IsCounted :
      (key : List ℕ) (value : Str) (value_type exptime user_flags : ℕ) (tp : Time) (now : ℕ)
      (r : Dict P × Found)
      → FitsValue value
      → FitsType value_type value
      → Enters p key now r
      → IsCounted r.0
      → IsCounted (set_found p key value value_type exptime user_flags tp r).0
  unfolding set_found
  set_found-IsCounted key value value_type exptime user_flags tp now (d, declined) f g h w =
      insert_unlock-IsCounted d key value value_type exptime user_flags tp f g h.0 w
  set_found-IsCounted key value value_type exptime user_flags tp now (d, done a) f g h w =
      insert_unlock-IsCounted d key value value_type exptime user_flags tp f g h.0 w
  set_found-IsCounted key value value_type exptime user_flags tp now (d, hit a) f g h w =
      elim (Bool-cases (not value.is_null && length value.bytes == (d.heap a).value_len)) [
        | inl e ↦ rw e (
            unfold overwrite in
            (store-IsCounted p (touch p d a) a _ (touch-IsCounted d a h.0 h.1.0 w)
              (λ t. omega (arith, f, g t))))
        | inr e ↦ rw e (
            insert_unlock-IsCounted (unlink p d a) key value value_type exptime user_flags tp f g
              (unlink-IsValid p laws d a h.0) (unlink-IsCounted d a w))
      ]

  pub set-IsCounted :
      (d : Dict P) (key : List ℕ) (value : Str) (value_type exptime user_flags : ℕ) (tp : Time)
      → FitsValue value
      → FitsType value_type value
      → IsValid p d
      → IsCounted d
      → IsCounted (set p d key value value_type exptime user_flags tp).0
  unfolding set
  set-IsCounted d key value value_type exptime user_flags tp f g v w =
      elim (Bool-cases (bad_key key)) [
        | inl e ↦ rw e w
        | inr e ↦ rw e (
            set_found-IsCounted key value value_type exptime user_flags tp (now_ms tp)
              (enter p d key (now_ms tp)) f g (enter-Enters p laws d key (now_ms tp) v)
              (enter-IsCounted d key (now_ms tp) v w))
      ]

  add_and_fetch-IsCounted :
      (d : Dict P) (a i : ℕ)
      → IsValid p d
      → 0 < count a d.queue
      → 8 ≤ (d.heap a).value_len
      → IsCounted d
      → IsCounted (add_and_fetch p d a i).0
  add_and_fetch-IsCounted d a i v c h w =
      let f = v.filled a c in
      subst (λ (r : Dict P × ℕ). IsCounted r.0)
        (sym (add_and_fetch_lem p laws d a i (omega (arith, f.sized, h))))
        (store-IsCounted p d a (record (d.heap a) { bytes = over (d.heap a) (sum_in i (d.heap a)) })
          w (w a c))

  inc_found-IsCounted :
      (key : List ℕ) (i exptime : ℕ) (tp : Time) (r : Dict P × Option Reply)
      → IsValid p r.0
      → ((x : Reply)
          → r.1 ≡ some x
          → (0 < count x.node r.0.queue) × (x.value_type ≡ (r.0.heap x.node).value_type))
      → IsCounted r.0
      → IsCounted (inc_found p key i exptime tp r).0
  unfolding inc_found
  inc_found-IsCounted key i exptime tp (d, none) v l w =
      set-IsCounted d key (record { is_null = false; bytes = to_bytes 8 i }) shm_int64 exptime 0 tp
        (omega (arith, length-to_bytes 8 i)) (λ t. omega (arith, length-to_bytes 8 i)) v w
  inc_found-IsCounted key i exptime tp (d, some x) v l w =
      let (c, t) = l x refl in
      elim (Bool-cases (x.value_type == shm_int64)) [
        | inl e ↦
            rw e (add_and_fetch-IsCounted d x.node i v c (w x.node c (ground (arith, t, e))) w)
        | inr e ↦ rw e w
      ]

  pub inc_int-IsCounted :
      (d : Dict P) (key : List ℕ) (i exptime : ℕ) (tp : Time)
      → IsValid p d
      → IsCounted d
      → IsCounted (inc_int p d key i exptime tp).0
  unfolding inc_int
  inc_int-IsCounted d key i exptime tp v w =
      inc_found-IsCounted key i exptime tp (get p d key tp) (get-IsValid p laws d key tp v)
        (λ x e. get-reply p laws d key tp x v e) (get-IsCounted d key tp v w)

  pub flush_expired-IsCounted :
      (d : Dict P) (attempts : ℕ) (tp : Time)
      → IsCounted d
      → IsCounted (flush_expired p d attempts tp).0
  flush_expired-IsCounted d attempts tp =
      Shrinks-IsCounted p d (flush_expired p d attempts tp).0
        (flush_expired-Shrinks p laws d attempts tp)

  pub flush_all-IsCounted :
      (d : Dict P) (tp : Time) → IsValid p d → IsCounted d → IsCounted (flush_all p d tp).0
  unfolding flush_all
  flush_all-IsCounted d tp v w =
      let heap = set_expired p d.queue d.heap in
      let d1 : Dict P = record (lock p d) { heap = heap } in
      let v1 = locked-IsValid p (record d { heap = heap }) true (set_expired-IsValid p laws d v) in
      Shrinks-IsCounted p d1 (expire p d1 0 (now_ms tp)).0 (expire-Shrinks p laws d1 (now_ms tp) v1)
        (λ a c.
          subst IsWhole (sym (set_expired_lem p laws d.queue d.heap a))
            (elim (Bool-cases (ltb 0 (count a d.queue))) [
              | inl e ↦ rw e (w a c)
              | inr e ↦ rw e (w a c)
            ]))
