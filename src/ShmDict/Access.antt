-- ===== src/ShmDict/Access.antt =====
-- ngx_shm_dict_insert, _get, _set, _set_exptime, _delete, _inc_int and _foreach. Each operation is
-- one critical section; the time is read once in it.
use nginx_modules.Base.{
  ℕ, zero, suc, ◌+◌, ◌-◌, ◌*◌, ◌/◌, ◌%◌, ◌^◌, ltb, leb, ◌==◌, if◌then◌else◌, false, Bool, not, ◌&&◌,
  ◌||◌, Option, none, some, List, [], ◌∷◌, ◌++◌, length, take, drop,
}
use nginx_modules.ShmDict.Platform.{Platform, Memory}
use nginx_modules.ShmDict.Node.{
  Node, Str, Time, now_ms, deadline, remaining, shm_int64, value_bytes,
}
use nginx_modules.ShmDict.Rbtree.{insert_value}
use nginx_modules.ShmDict.Zone.{
  Dict, Rc, shm_ok, shm_error, Found, hit, done, declined, crc32, lock, unlock, touch, unlink,
  store, lookup,
}
use nginx_modules.ShmDict.Expire.{expire}

-- What ngx_shm_dict_get writes through its pointers: `data` points behind the key in the node.
pub record Reply : Type 0 where
  pub node : ℕ
  pub value : List ℕ
  pub value_type : ℕ
  pub exptime : ℕ
  pub user_flags : ℕ

abbrev pub bad_key : List ℕ → Bool
bad_key key = length key == 0 || ltb 65535 (length key)

-- `int size`, as slab_alloc's `size_t` reads it.
unfoldable pub int_size : ℕ → ℕ
int_size n = let w = n % 2 ^ 32 in if ltb w (2 ^ 31) then w else w + 2 ^ 64 - 2 ^ 32

-- The eight bytes of an `int64_t`, and the `int64_t` of eight bytes, as a 64-bit pattern.
unfoldable pub to_bytes : ℕ → ℕ → List ℕ
to_bytes zero x = []
to_bytes (suc n) x = (x % 256) ∷ to_bytes n (x / 256)

unfoldable pub of_bytes : List ℕ → ℕ
of_bytes [] = 0
of_bytes (b ∷ bs) = b + 256 * of_bytes bs

-- The strings that point at a variable, by the bytes that the variable has when they are read: an
-- `int32_t`, an `int64_t`, and a double, as the pattern of 64 bits that it is.
unfoldable pub str_set_int32 : ℕ → Str
unfolding to_bytes
str_set_int32 x = record { is_null = false; bytes = to_bytes 4 x }

unfoldable pub str_set_int64 : ℕ → Str
unfolding to_bytes
str_set_int64 x = record { is_null = false; bytes = to_bytes 8 x }

unfoldable pub str_set_double : ℕ → Str
unfolding to_bytes
str_set_double x = record { is_null = false; bytes = to_bytes 8 x }

-- The fields that ngx_shm_dict_insert writes.
unfoldable pub new_node : List ℕ → Str → ℕ → ℕ → ℕ → ℕ → Time → Node
unfolding deadline
new_node key value value_type exptime user_flags hash tp = record {
  key = hash;
  key_len = length key % 2 ^ 16;
  expires = deadline tp exptime;
  value_len = length value.bytes % 2 ^ 32;
  user_flags = user_flags;
  value_type = value_type;
  bytes = key ++ value.bytes;
}

module _ {P : Type 0} (p : Platform P) where
  -- The loop of ngx_shm_dict_insert that evicts until the pool has room.
  unfoldable pub alloc_loop : ℕ → ℕ → ℕ → Dict P → Dict P × Option ℕ
  unfolding expire
  alloc_loop zero size now d = (d, none)
  alloc_loop (suc rounds) size now d =
      let (d', freed) = expire p d 0 now in
      let retry : Dict P × Option ℕ = elim (p.slab_alloc d'.shpool size) [
        | none ↦ alloc_loop rounds size now d'
        | some (a, s) ↦ (record d' { shpool = s }, some a)
      ] in
      if freed == 0 then (d', none) else retry

  -- The node's memory, with at most NGX_SHM_DICT_MAX_EXPIRE_COUNT rounds.
  unfoldable pub alloc_node : Dict P → ℕ → ℕ → Dict P × Option ℕ
  unfolding alloc_loop
  alloc_node d size now = elim (p.slab_alloc d.shpool size) [
    | none ↦ alloc_loop 30 size now d
    | some (a, s) ↦ (record d { shpool = s }, some a)
  ]

  -- Fills the new node, and links it into the tree and at the head of the queue.
  unfoldable pub link : Dict P → ℕ → Node → Dict P
  unfolding store
  link d a sd =
      let d' = store p d a sd in
      record d' {
        root = p.rbtree_insert (insert_value p d'.heap) d.root a;
        queue = p.queue_insert_head d.queue a;
      }

  -- ngx_shm_dict_insert once the memory is there, or is not.
  unfoldable pub insert_at : Dict P × Option ℕ → Node → Dict P × Rc
  unfolding link
  insert_at (d, none) sd = (d, shm_error)
  insert_at (d, some a) sd = (link d a sd, shm_ok)

  -- ngx_shm_dict_insert
  unfoldable pub insert : Dict P → List ℕ → Str → ℕ → ℕ → ℕ → ℕ → Time → Dict P × Rc
  unfolding alloc_node insert_at int_size new_node
  insert d key value value_type exptime user_flags hash tp =
      insert_at
        (alloc_node d (int_size (p.header_size + length key + length value.bytes)) (now_ms tp))
        (new_node key value value_type exptime user_flags hash tp)

  -- How get, delete, set_exptime and set begin: the lock, one round of expiry, and the lookup.
  unfoldable pub enter : Dict P → List ℕ → ℕ → Dict P × Found
  unfolding crc32 expire lookup
  enter d key now = lookup p (expire p (lock p d) 1 now).0 (crc32 p key) key now

  -- ngx_shm_dict_get from the lookup's result on.
  unfoldable pub get_found : ℕ → Dict P × Found → Dict P × Option Reply
  unfolding remaining
  get_found now (d, declined) = (unlock p d, none)
  get_found now (d, done a) = (unlock p d, none)
  get_found now (d, hit a) =
      let sd = d.heap a in
      (
        unlock p d,
        some (record {
          node = a;
          value = value_bytes sd;
          value_type = sd.value_type;
          exptime = remaining now sd;
          user_flags = sd.user_flags;
        }),
      )

  -- ngx_shm_dict_get
  unfoldable pub get : Dict P → List ℕ → Time → Dict P × Option Reply
  unfolding enter get_found
  get d key tp = if bad_key key then (d, none) else get_found (now_ms tp) (enter d key (now_ms tp))

  -- ngx_shm_dict_delete from the lookup's result on: an absent or expired key is no error.
  unfoldable pub delete_found : Dict P × Found → Dict P × Rc
  unfolding unlink
  delete_found (d, declined) = (unlock p d, shm_ok)
  delete_found (d, done a) = (unlock p d, shm_ok)
  delete_found (d, hit a) = (unlock p (unlink p d a), shm_ok)

  -- ngx_shm_dict_delete, which does not test the key's length
  unfoldable pub delete : Dict P → List ℕ → Time → Dict P × Rc
  unfolding enter delete_found
  delete d key tp = delete_found (enter d key (now_ms tp))

  -- ngx_shm_dict_set_exptime from the lookup's result on.
  unfoldable pub set_exptime_found : ℕ → Time → Dict P × Found → Dict P × Rc
  unfolding touch store deadline
  set_exptime_found exptime tp (d, declined) = (unlock p d, shm_error)
  set_exptime_found exptime tp (d, done a) = (unlock p d, shm_error)
  set_exptime_found exptime tp (d, hit a) =
      let d' = touch p d a in
      (unlock p (store p d' a (record (d'.heap a) { expires = deadline tp exptime })), shm_ok)

  -- ngx_shm_dict_set_exptime
  unfoldable pub set_exptime : Dict P → List ℕ → ℕ → Time → Dict P × Rc
  unfolding enter set_exptime_found
  set_exptime d key exptime tp =
      if bad_key key then (d, shm_error) else set_exptime_found exptime tp (enter d key (now_ms tp))

  -- ngx_shm_dict_set with a key that is there and a value of the same length.
  unfoldable pub overwrite : Dict P → ℕ → List ℕ → Str → ℕ → ℕ → ℕ → Time → Dict P
  unfolding touch store deadline
  overwrite d a key value value_type exptime user_flags tp =
      let d' = touch p d a in
      store p d' a (record (d'.heap a) {
        key_len = length key % 2 ^ 16;
        expires = deadline tp exptime;
        user_flags = user_flags;
        value_len = length value.bytes % 2 ^ 32;
        value_type = value_type;
        bytes = key ++ value.bytes;
      })

  -- ngx_shm_dict_insert, and the unlock behind it.
  unfoldable pub insert_unlock : Dict P → List ℕ → Str → ℕ → ℕ → ℕ → Time → Dict P × Rc
  unfolding insert
  insert_unlock d key value value_type exptime user_flags tp =
      let (d', rc) = insert d key value value_type exptime user_flags (crc32 p key) tp in
      (unlock p d', rc)

  -- ngx_shm_dict_set from the lookup's result on. A value of another length takes the place of
  -- the node; an expired node stays where it is.
  unfoldable pub set_found : List ℕ → Str → ℕ → ℕ → ℕ → Time → Dict P × Found → Dict P × Rc
  unfolding unlink overwrite insert_unlock
  set_found key value value_type exptime user_flags tp (d, declined) =
      insert_unlock d key value value_type exptime user_flags tp
  set_found key value value_type exptime user_flags tp (d, done a) =
      insert_unlock d key value value_type exptime user_flags tp
  set_found key value value_type exptime user_flags tp (d, hit a) =
      if not value.is_null && length value.bytes == (d.heap a).value_len
      then (unlock p (overwrite d a key value value_type exptime user_flags tp), shm_ok)
      else insert_unlock (unlink p d a) key value value_type exptime user_flags tp

  -- ngx_shm_dict_set
  unfoldable pub set : Dict P → List ℕ → Str → ℕ → ℕ → ℕ → Time → Dict P × Rc
  unfolding enter set_found
  set d key value value_type exptime user_flags tp =
      if bad_key key
      then (d, shm_error)
      else set_found key value value_type exptime user_flags tp (enter d key (now_ms tp))

  -- `__sync_add_and_fetch` on the eight bytes behind the key, where the node holds so many; a shorter
  -- value is read and written past its end.
  unfoldable pub add_and_fetch : Dict P → ℕ → ℕ → Dict P × ℕ
  unfolding store to_bytes of_bytes
  add_and_fetch d a i =
      let sd = d.heap a in
      let text = drop sd.key_len sd.bytes in
      let sum = (of_bytes (take 8 text) + i) % 2 ^ 64 in
      let m : Memory P = record {
        heap = d.heap;
        root = d.root;
        queue = d.queue;
        shpool = d.shpool;
      } in
      let (m', past) = p.add_past_end m a i in
      if leb 8 (length text)
      then (
        store p d a
            (record sd { bytes = take sd.key_len sd.bytes ++ (to_bytes 8 sum ++ drop 8 text) }),
        sum,
      )
      else (record d { heap = m'.heap; root = m'.root; queue = m'.queue; shpool = m'.shpool }, past)

  -- ngx_shm_dict_inc_int from the result of ngx_shm_dict_get on.
  unfoldable pub inc_found : List ℕ → ℕ → ℕ → Time → Dict P × Option Reply → Dict P × Option ℕ
  unfolding set add_and_fetch
  inc_found key i exptime tp (d, some r) =
      let (d', sum) = add_and_fetch d r.node i in
      if r.value_type == shm_int64 then (d', some sum) else (d, none)
  inc_found key i exptime tp (d, none) =
      let (d', rc) =
        set d key (record { is_null = false; bytes = to_bytes 8 i }) shm_int64 exptime 0 tp in
      (d', elim rc [ shm_ok ↦ some i | shm_error ↦ none ])

  -- ngx_shm_dict_inc_int: `*ret` where the call is a success. The addition is made after the lock
  -- is released.
  unfoldable pub inc_int : Dict P → List ℕ → ℕ → ℕ → Time → Dict P × Option ℕ
  unfolding get inc_found
  inc_int d key i exptime tp = inc_found key i exptime tp (get d key tp)

  -- The loop of ngx_shm_dict_foreach: the callback gets the node and its own state.
  unfoldable pub foreach_loop {ℓ} : {X : Type ℓ} → (Node → X → X) → (ℕ → Node) → List ℕ → X → X
  foreach_loop func heap [] x = x
  foreach_loop func heap (q ∷ next) x = foreach_loop func heap next (func (heap q) x)

  -- ngx_shm_dict_foreach over a callback that reads the node: `none` where the mutex is held.
  unfoldable pub foreach {ℓ} : {X : Type ℓ} → Dict P → (Node → X → X) → X → Option X
  unfolding foreach_loop
  foreach d func x = if d.locked then none else some (foreach_loop func d.heap d.queue x)
