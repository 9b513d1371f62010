-- ===== src/ShmDict/Abstract/Writes.antt =====
-- ngx_shm_dict_set as a change of the map.
use nginx_modules.Base.{
  ℕ, ◌%◌, ◌^◌, ◌++◌, ◌≡◌, refl, sym, subst, ◌∙◌, ap, Bool-cases, inl, inr, false, not, ◌&&◌, ◌==◌,
  Option, none, some, List, length, arith,
}
use nginx_modules.ShmDict.Platform.{Platform, IsPlatform}
use nginx_modules.ShmDict.Node.{Str, Time, now_ms, deadline, sort_key}
use nginx_modules.ShmDict.Zone.{Dict, Rc, Found, hit, done, declined, touch, unlink}
use nginx_modules.ShmDict.Access.{bad_key, enter, overwrite, set_found, set}
use nginx_modules.ShmDict.Valid.{IsValid}
use nginx_modules.ShmDict.Valid.Steps.{touch-IsValid, unlink-IsValid}
use nginx_modules.ShmDict.Valid.Parts.{
  FitsKey, FitsValue, overwrite-IsValid, written_key, written_value,
}
use nginx_modules.ShmDict.Valid.Operations.{Holds, Enters, enter-Enters}
use nginx_modules.ShmDict.Contents.Writing.{unlink-Lacks}
use nginx_modules.ShmDict.Abstract.{
  Entry, Map, stored, IsTimely, Fades, Fading, Replaces, Sets, refused, bound, no_room,
}
use nginx_modules.ShmDict.Abstract.Views.{IsSingle, enter-Fading}
use nginx_modules.ShmDict.Abstract.Changes.{unlink-Replaces, store-Replaces}
use nginx_modules.ShmDict.Abstract.Reads.{touch-Holds, touch-IsSingle, Enters-IsValid, Enters-Finds}
use nginx_modules.ShmDict.Abstract.Inserts.{
  new_entry, BindsOrNot, Evicting-Replaces, then_bind, insert_unlock-Evicting,
}

module _ {P : Type 0} (p : Platform P) (laws : IsPlatform p) where
  overwrite-Replaces :
      (d : Dict P) (a : ℕ) (key : List ℕ) (value : Str) (value_type exptime user_flags : ℕ)
      (tp : Time)
      → FitsKey key
      → FitsValue value
      → IsValid p d
      → IsSingle p d
      → Holds p d key a
      → Replaces key
          (some (new_entry value value_type exptime user_flags tp))
          (stored p d)
          (stored p (overwrite p d a key value value_type exptime user_flags tp))
        × IsSingle p (overwrite p d a key value value_type exptime user_flags tp)
  unfolding overwrite
  overwrite-Replaces d a key value value_type exptime user_flags tp fk fv v one h =
      let d1 = touch p d a in
      let sd = record (d1.heap a) {
        key_len = length key % 2 ^ 16;
        expires = deadline tp exptime;
        user_flags = user_flags;
        value_len = length value.bytes % 2 ^ 32;
        value_type = value_type;
        bytes = key ++ value.bytes;
      } in
      let same : sort_key sd ≡ sort_key (d1.heap a) =
        unfold touch in
        (ap (λ (bs : List ℕ). ((d.heap a).key, bs))
          (written_key p laws key value.bytes fk ∙ sym (ap (λ (x : ℕ × List ℕ). x.1) h.1))) in
      let ((at, others), one') =
        store-Replaces p laws d1 key a sd (touch-IsValid p laws d a h.0 v)
          (overwrite-IsValid p laws d a key value value_type exptime user_flags tp fk fv h.0 h.1 v)
          (touch-IsSingle p laws d a v h.0 one) ((touch-Holds p laws d a key a v h.0).1 h) same in
      (
        (
          at
              ∙ ap
                  (λ (bs : List ℕ). some (
                    new_entry (record { is_null = false; bytes = bs }) value_type exptime user_flags
                      tp))
                  (written_value p laws key value fk fv),
          λ k n. others k n ∙ unfold touch in refl,
        ),
        one',
      )

  set_found-Evicting :
      (key : List ℕ) (value : Str) (value_type exptime user_flags : ℕ) (tp : Time) (now : ℕ)
      (r : Dict P × Found)
      → FitsKey key
      → FitsValue value
      → Enters p key now r
      → IsSingle p r.0
      → IsTimely now (stored p r.0 key)
      → let (d', rc) = set_found p key value value_type exptime user_flags tp r in
        BindsOrNot key
          (new_entry value value_type exptime user_flags tp)
          (stored p r.0)
          (stored p d')
          rc
        × IsSingle p d'
  unfolding set_found
  set_found-Evicting key value value_type exptime user_flags tp now (d, declined) fk fv h one t =
      insert_unlock-Evicting p laws d key value value_type exptime user_flags tp fk fv h.0 one
        (λ a c w. h.1 a c w)
  set_found-Evicting key value value_type exptime user_flags tp now (d, done a) fk fv h one t =
      let f = Enters-Finds p laws key now (d, done a) h one in
      absurd (cc (subst (IsTimely now) f.0 t, f.1))
  set_found-Evicting key value value_type exptime user_flags tp now (d, hit a) fk fv h one t =
      elim (Bool-cases (not value.is_null && length value.bytes == (d.heap a).value_len)) [
        | inl e ↦
            let (r, one') =
              overwrite-Replaces d a key value value_type exptime user_flags tp fk fv h.0 one h.1 in
            rw e (inl (refl, Evicting-Replaces key _ (stored p d) _ r), one')
        | inr e ↦
            let v1 = unlink-IsValid p laws d a h.0 in
            let (r, one1) = unlink-Replaces p laws d key a h.0 v1 one h.1 in
            let (b, one') =
              insert_unlock-Evicting p laws (unlink p d a) key value value_type exptime user_flags
                tp fk fv v1 one1
                (λ b c w. unlink-Lacks p laws d key a h.0 (λ x hx. one key x a hx h.1) b c w) in
            rw e (then_bind key none _ (stored p d) (stored p (unlink p d a)) _ _ r b, one')
      ]

  pub Fades-IsTimely :
      (now : ℕ) (o o' : Option Entry) → Fades now o o' → IsTimely now o → IsTimely now o'
  Fades-IsTimely now o o' (inl e) t = subst (IsTimely now) (sym e) t
  Fades-IsTimely now o o' (inr (e, x)) t = subst (IsTimely now) (sym e) tt

  sets :
      (now : ℕ) (key : List ℕ) (e : Entry) (m m1 m' : Map) (rc : Rc)
      → Fading now m m1
      → BindsOrNot key e m1 m' rc
      → Sets now key e m m' rc
  sets now key e m m1 m' rc f (inl (x, b)) = subst (Sets now key e m m') (sym x) (bound m1 f b)
  sets now key e m m1 m' rc f (inr (x, b)) = subst (Sets now key e m m') (sym x) (no_room m1 f b)

  pub set-Sets :
      (d : Dict P) (key : List ℕ) (value : Str) (value_type exptime user_flags : ℕ) (tp : Time)
      → FitsValue value
      → IsValid p d
      → IsSingle p d
      → IsTimely (now_ms tp) (stored p d key)
      → let (d', rc) = set p d key value value_type exptime user_flags tp in
        Sets
          (now_ms tp)
          key
          (new_entry value value_type exptime user_flags tp)
          (stored p d)
          (stored p d')
          rc
        × IsSingle p d'
  unfolding set
  set-Sets d key value value_type exptime user_flags tp fv v one t =
      elim (Bool-cases (bad_key key)) [
        | inl e ↦ rw e (refused e (λ k. refl), one)
        | inr e ↦
            let now = now_ms tp in
            let r = enter p d key now in
            let h = enter-Enters p laws d key now v in
            let (fades, one') =
              enter-Fading p laws d key now v (Enters-IsValid p laws key now r h) one in
            let (b, one2) =
              set_found-Evicting key value value_type exptime user_flags tp now r (ground arith) fv
                h one' (Fades-IsTimely now (stored p d key) (stored p r.0 key) (fades key) t) in
            rw e (
              sets now key (new_entry value value_type exptime user_flags tp) (stored p d)
                  (stored p r.0) _ _ fades b,
              one2,
            )
      ]
