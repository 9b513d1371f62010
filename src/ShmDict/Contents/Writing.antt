-- ===== src/ShmDict/Contents/Writing.antt =====
-- What ngx_shm_dict_set and ngx_shm_dict_delete leave, as ngx_shm_dict_get reads it.
use nginx_modules.Base.{
  ℕ, ◌≡◌, refl, sym, ◌∙◌, ap, Bool-cases, inl, inr, true, false, not, ◌&&◌, none, some, List,
  length, ◌==◌, ℕ_discrete, arith,
}
use nginx_modules.ShmDict.Platform.{Platform, IsPlatform}
use nginx_modules.ShmDict.Node.{Node, Str, Time, now_ms, is_kept, is_expired, value_bytes, sort_key}
use nginx_modules.ShmDict.Zone.{
  Dict, shm_ok, Found, hit, done, declined, crc32, touch, unlink, store,
}
use nginx_modules.ShmDict.Access.{
  Reply, bad_key, enter, get, new_node, overwrite, set_found, set, delete_found, delete,
}
use nginx_modules.ShmDict.Valid.{IsValid}
use nginx_modules.ShmDict.Valid.Steps.{
  update_self, update-ne, count-unlink, count-touch, unlink-IsValid,
}
use nginx_modules.ShmDict.Valid.Parts.{FitsKey, FitsValue, written_key, written_value}
use nginx_modules.ShmDict.Valid.Operations.{
  Holds, Lacks, Enters, enter-Enters, set-IsValid, delete-IsValid,
}
use nginx_modules.ShmDict.Contents.Reading.{
  AtMostOne, reply_of, enter-heap, Holds-enter, get-Holds, get_absent,
}
use nginx_modules.ShmDict.Contents.Inserting.{Binds, insert-Binds}

module _ {P : Type 0} (p : Platform P) (laws : IsPlatform p) where
  -- The lookup's state without the node that it found holds the key no more.
  pub unlink-Lacks :
      (d : Dict P) (key : List ℕ) (a : ℕ)
      → IsValid p d
      → ((b : ℕ) → Holds p d key b → b ≡ a)
      → Lacks p (unlink p d a) key
  unlink-Lacks d key a v only b c w =
      let e : b ≡ a = only b (ground (arith, count-unlink p laws d a b), unfold unlink in w) in
      ground (arith, count-unlink p laws d a b, v.once b)

  store-Binds :
      (d : Dict P) (a : ℕ) (key : List ℕ) (sd : Node)
      → IsValid p d
      → Holds p d key a
      → ((b : ℕ) → Holds p d key b → b ≡ a)
      → sort_key sd ≡ (crc32 p key, key)
      → Binds p (store p (touch p d a) a sd) key sd
  unfolding store
  store-Binds d a key sd v h only k =
      let c = λ (b : ℕ). count-touch p laws d a b h.0 (v.once a) in
      (
        a,
        (omega (arith, c a), unfold touch in (rw (update_self d.heap a sd) k)),
        unfold touch in (update_self d.heap a sd),
        λ b hb. elim (ℕ_discrete b a) [
          | yes w ↦ w
          | no n ↦ only b (
            omega (arith, c b, hb.0),
            unfold touch in
                (sym (ap (λ (x : Node). sort_key x) (update-ne d.heap a sd b (λ w. n (sym w))))
                  ∙ hb.1),
          )
        ],
      )

  with_key : (sd : Node) (k : ℕ) → sd.key ≡ k → sd ≡ record sd { key = k }
  with_key sd k e = ground arith

  overwrite-Binds :
      (d : Dict P) (a : ℕ) (key : List ℕ) (value : Str) (value_type exptime user_flags : ℕ)
      (tp : Time)
      → IsValid p d
      → FitsKey key
      → Holds p d key a
      → ((b : ℕ) → Holds p d key b → b ≡ a)
      → Binds p
          (overwrite p d a key value value_type exptime user_flags tp)
          key
          (new_node key value value_type exptime user_flags (crc32 p key) tp)
  unfolding overwrite new_node
  overwrite-Binds d a key value value_type exptime user_flags tp v fk h only =
      let hash : (d.heap a).key ≡ crc32 p key = ap (λ (x : ℕ × List ℕ). x.0) h.1 in
      let (x, hx, e, o) = store-Binds d a key _ v h only (
        ap (λ (bs : List ℕ). ((d.heap a).key, bs)) (written_key p laws key value.bytes fk)
        ∙ ap (λ (k : ℕ). (k, key)) hash) in
      (x, hx, e ∙ with_key _ (crc32 p key) (unfold touch in hash), o)

  -- No node that holds the key has expired.
  abbrev pub Current : Dict P → List ℕ → ℕ → Type 0
  Current d key now = (a : ℕ) → Holds p d key a → is_expired now (d.heap a) ≡ false

  set_found-Binds :
      (key : List ℕ) (value : Str) (value_type exptime user_flags : ℕ) (tp : Time) (now : ℕ)
      (r : Dict P × Found)
      → FitsKey key
      → Enters p key now r
      → AtMostOne p r.0 key
      → Current r.0 key now
      → (set_found p key value value_type exptime user_flags tp r).1 ≡ shm_ok
      → Binds p
          (set_found p key value value_type exptime user_flags tp r).0
          key
          (new_node key value value_type exptime user_flags (crc32 p key) tp)
  unfolding set_found
  set_found-Binds key value value_type exptime user_flags tp now (d, declined) fk h one cur e =
      insert-Binds p laws d key value value_type exptime user_flags tp h.0 fk (λ a c w. h.1 a c w) e
  set_found-Binds key value value_type exptime user_flags tp now (d, done a) fk h one cur e =
      absurd (cc (h.2, cur a h.1))
  set_found-Binds key value value_type exptime user_flags tp now (d, hit a) fk h one cur e =
      let only = λ (b : ℕ) (hb : Holds p d key b). one b a hb h.1 in
      elim (Bool-cases (not value.is_null && length value.bytes == (d.heap a).value_len)) [
        | inl t ↦
            rw t (overwrite-Binds d a key value value_type exptime user_flags tp h.0 fk h.1 only)
        | inr t ↦ rw t (
            insert-Binds p laws (unlink p d a) key value value_type exptime user_flags tp
              (unlink-IsValid p laws d a h.0) fk (unlink-Lacks d key a h.0 only) (ground arith))
      ]

  pub set-Binds :
      (d : Dict P) (key : List ℕ) (value : Str) (value_type exptime user_flags : ℕ) (tp : Time)
      → IsValid p d
      → AtMostOne p d key
      → Current d key (now_ms tp)
      → (set p d key value value_type exptime user_flags tp).1 ≡ shm_ok
      → (bad_key key ≡ false)
        × Binds p
            (set p d key value value_type exptime user_flags tp).0
            key
            (new_node key value value_type exptime user_flags (crc32 p key) tp)
  unfolding set
  set-Binds d key value value_type exptime user_flags tp v one cur e =
      elim (Bool-cases (bad_key key)) [
        | inl t ↦ absurd (ground arith)
        | inr t ↦
            let now = now_ms tp in
            let back = λ (a : ℕ) (h : Holds p (enter p d key now).0 key a).
              Holds-enter p laws d key now a key v h in
            rw t (
              refl,
              set_found-Binds key value value_type exptime user_flags tp now (enter p d key now)
                  (ground arith) (enter-Enters p laws d key now v)
                  (λ a b ha hb. one a b (back a ha) (back b hb))
                  (λ a h.
                    ap (λ (f : ℕ → Node). is_expired now (f a)) (enter-heap p laws d key now v)
                    ∙ cur a (back a h))
                  (ground arith),
            )
      ]

  pub get-set :
      (d : Dict P) (key : List ℕ) (value : Str) (value_type exptime user_flags : ℕ) (tp tp' : Time)
      → IsValid p d
      → AtMostOne p d key
      → Current d key (now_ms tp)
      → FitsValue value
      → (set p d key value value_type exptime user_flags tp).1 ≡ shm_ok
      → is_kept (now_ms tp') (new_node key value value_type exptime user_flags (crc32 p key) tp)
        ≡ true
      → (r : Reply) × ((get p (set p d key value value_type exptime user_flags tp).0 key tp').1
          ≡ some r)
        × (r.value ≡ value.bytes)
        × (r.value_type ≡ value_type)
        × (r.user_flags ≡ user_flags)
  get-set d key value value_type exptime user_flags tp tp' v one cur fv e k =
      let (g, binds) = set-Binds d key value value_type exptime user_flags tp v one cur e in
      let (a, h, w, only) = binds in
      let d' = (set p d key value value_type exptime user_flags tp).0 in
      (
        reply_of p d'.heap (now_ms tp') a,
        get-Holds p laws d' key a tp'
            (set-IsValid p laws d key value value_type exptime user_flags tp fv v) g
            (λ x y hx hy. only x hx ∙ sym (only y hy)) h (ap (is_kept (now_ms tp')) w ∙ k),
        ap (λ (sd : Node). value_bytes sd) w
            ∙ unfold new_node in written_value p laws key value (ground arith) fv,
        ap (λ (sd : Node). sd.value_type) w ∙ unfold new_node in refl,
        ap (λ (sd : Node). sd.user_flags) w ∙ unfold new_node in refl,
      )

  delete_found-Lacks :
      (key : List ℕ) (now : ℕ) (r : Dict P × Found)
      → Enters p key now r
      → AtMostOne p r.0 key
      → Current r.0 key now
      → Lacks p (delete_found p r).0 key
  unfolding delete_found
  delete_found-Lacks key now (d, declined) h one cur = λ a c w. h.1 a c w
  delete_found-Lacks key now (d, done a) h one cur = absurd (cc (h.2, cur a h.1))
  delete_found-Lacks key now (d, hit a) h one cur =
      λ b c w. unlink-Lacks d key a h.0 (λ x hx. one x a hx h.1) b c w

  -- In a valid zone with at most one node for the key, and no expired one, a key that was
  -- deleted is gone for a later `get`, at whatever time.
  pub get-delete :
      (d : Dict P) (key : List ℕ) (tp tp' : Time)
      → IsValid p d
      → AtMostOne p d key
      → Current d key (now_ms tp)
      → (get p (delete p d key tp).0 key tp').1 ≡ none
  get-delete d key tp tp' v one cur =
      let now = now_ms tp in
      let back = λ (a : ℕ) (h : Holds p (enter p d key now).0 key a).
        Holds-enter p laws d key now a key v h in
      let lacks =
        delete_found-Lacks key now (enter p d key now) (enter-Enters p laws d key now v)
          (λ a b ha hb. one a b (back a ha) (back b hb))
          (λ a h.
            ap (λ (f : ℕ → Node). is_expired now (f a)) (enter-heap p laws d key now v)
            ∙ cur a (back a h)) in
      get_absent p laws (delete p d key tp).0 key tp' (delete-IsValid p laws d key tp v)
        (λ a h. absurd (unfold delete in (lacks a h.0 h.1)))
