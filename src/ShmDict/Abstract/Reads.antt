-- ===== src/ShmDict/Abstract/Reads.antt =====
-- ngx_shm_dict_get, ngx_shm_dict_delete and ngx_shm_dict_set_exptime as changes of the map.
use nginx_modules.Base.{
  ℕ, ◌<◌, ◌≡◌, ◌↔◌, refl, sym, subst, ◌∙◌, ap, Bool-cases, inl, inr, true, false, none, some, List,
  count, arith,
}
use nginx_modules.ShmDict.Platform.{Platform, IsPlatform}
use nginx_modules.ShmDict.Node.{Time, now_ms, deadline, remaining}
use nginx_modules.ShmDict.Zone.{Dict, shm_ok, Found, hit, done, declined, touch}
use nginx_modules.ShmDict.Access.{
  bad_key, enter, get_found, get, delete_found, delete, set_exptime_found, set_exptime,
}
use nginx_modules.ShmDict.Valid.{IsValid}
use nginx_modules.ShmDict.Valid.Steps.{count-touch, touch-IsValid, unlink-IsValid}
use nginx_modules.ShmDict.Valid.Operations.{
  locked-IsValid, Holds, Enters, enter-Enters, set_exptime_found-IsValid,
}
use nginx_modules.ShmDict.Abstract.{
  Map, entry_of, stored, is_over, current, answered, answer_of, deleted, extended, Fading, Replaces,
  Gets, Deletes, Extends,
}
use nginx_modules.ShmDict.Abstract.Views.{
  is_over_lem, IsSingle, stored-Lacks, stored-Holds, enter-Fading,
}
use nginx_modules.ShmDict.Abstract.Changes.{unlink-Replaces, store-Replaces}

module _ {P : Type 0} (p : Platform P) (laws : IsPlatform p) where
  -- What the map has for the key behind the lookup, by the lookup's result.
  abbrev pub Finds : List ℕ → ℕ → Dict P × Found → Type 0
  Finds key now (d, declined) = stored p d key ≡ none
  Finds key now (d, done a) =
      (stored p d key ≡ some (entry_of (d.heap a))) × (is_over now (entry_of (d.heap a)) ≡ true)
  Finds key now (d, hit a) =
      (stored p d key ≡ some (entry_of (d.heap a))) × (is_over now (entry_of (d.heap a)) ≡ false)

  pub Enters-IsValid :
      (key : List ℕ) (now : ℕ) (r : Dict P × Found) → Enters p key now r → IsValid p r.0
  Enters-IsValid key now (d, declined) h = h.0
  Enters-IsValid key now (d, done a) h = h.0
  Enters-IsValid key now (d, hit a) h = h.0

  pub touch-Holds :
      (d : Dict P) (a : ℕ) (k : List ℕ) (b : ℕ)
      → IsValid p d
      → 0 < count a d.queue
      → Holds p (touch p d a) k b ↔ Holds p d k b
  touch-Holds d a k b v c = (
    λ h. (omega (arith, count-touch p laws d a b c (v.once a), h.0), unfold touch in h.1),
    λ h. (omega (arith, count-touch p laws d a b c (v.once a), h.0), unfold touch in h.1),
  )

  pub touch-IsSingle :
      (d : Dict P) (a : ℕ)
      → IsValid p d
      → 0 < count a d.queue
      → IsSingle p d
      → IsSingle p (touch p d a)
  touch-IsSingle d a v c one k b b' h h' =
      one k b b' ((touch-Holds d a k b v c).0 h) ((touch-Holds d a k b' v c).0 h')

  pub Enters-Finds :
      (key : List ℕ) (now : ℕ) (r : Dict P × Found)
      → Enters p key now r
      → IsSingle p r.0
      → Finds key now r
  Enters-Finds key now (d, declined) h one = stored-Lacks p laws d key h.0 one (λ a c w. h.1 a c w)
  Enters-Finds key now (d, done a) h one =
      (stored-Holds p laws d key a h.0 one h.1, sym (is_over_lem now (d.heap a)) ∙ h.2)
  Enters-Finds key now (d, hit a) h one =
      (stored-Holds p laws d key a h.0 one h.1, sym (is_over_lem now (d.heap a)) ∙ h.2)

  get_found-stored :
      (now : ℕ) (r : Dict P × Found)
      → IsSingle p r.0
      → (stored p (get_found p now r).0 ≡ stored p r.0) × IsSingle p (get_found p now r).0
  unfolding get_found
  get_found-stored now (d, declined) one = (refl, one)
  get_found-stored now (d, done a) one = (refl, one)
  get_found-stored now (d, hit a) one = (refl, one)

  get_found-answer_of :
      (key : List ℕ) (now : ℕ) (r : Dict P × Found)
      → Finds key now r
      → answered (get_found p now r).1 ≡ answer_of now (current now (stored p r.0 key))
  unfolding get_found remaining
  get_found-answer_of key now (d, declined) f = ground (arith, f)
  get_found-answer_of key now (d, done a) f = ground (arith, f.0, f.1)
  get_found-answer_of key now (d, hit a) f = ground (arith, f.0, f.1)

  -- In a valid zone where no key has two nodes, ngx_shm_dict_get does to the map what its contract
  -- says, and no key gets a second node.
  pub get-Gets :
      (d : Dict P) (key : List ℕ) (tp : Time)
      → IsValid p d
      → IsSingle p d
      → let (d', o) = get p d key tp in
        Gets (now_ms tp) key (stored p d) (stored p d') o × IsSingle p d'
  unfolding get
  get-Gets d key tp v one = elim (Bool-cases (bad_key key)) [
    | inl e ↦ rw e (record { fades = λ k. inl refl; answers = rw e refl }, one)
    | inr e ↦
        let r = enter p d key (now_ms tp) in
        let h = enter-Enters p laws d key (now_ms tp) v in
        let (fades, one') =
          enter-Fading p laws d key (now_ms tp) v (Enters-IsValid key (now_ms tp) r h) one in
        let (same, one2) = get_found-stored (now_ms tp) r one' in
        rw e (
          record {
            fades = subst (Fading (now_ms tp) (stored p d)) (sym same) fades;
            answers = rw e (
                get_found-answer_of key (now_ms tp) r (Enters-Finds key (now_ms tp) r h one')
                ∙ ap (λ (m : Map). answer_of (now_ms tp) (current (now_ms tp) (m key))) (sym same));
          },
          one2,
        )
  ]

  delete_found-Replaces :
      (key : List ℕ) (now : ℕ) (r : Dict P × Found)
      → Enters p key now r
      → IsSingle p r.0
      → Replaces key (deleted now (stored p r.0 key)) (stored p r.0) (stored p (delete_found p r).0)
        × IsSingle p (delete_found p r).0
        × ((delete_found p r).1 ≡ shm_ok)
  unfolding delete_found
  delete_found-Replaces key now (d, declined) h one =
      let f = Enters-Finds key now (d, declined) h one in
      ((f ∙ ap (deleted now) (sym f), λ k n. refl), one, refl)
  delete_found-Replaces key now (d, done a) h one =
      let f = Enters-Finds key now (d, done a) h one in
      ((ground (arith, f.0, f.1), λ k n. refl), one, refl)
  delete_found-Replaces key now (d, hit a) h one =
      let f = Enters-Finds key now (d, hit a) h one in
      let ((at, others), one') =
        unlink-Replaces p laws d key a h.0 (unlink-IsValid p laws d a h.0) one h.1 in
      ((at ∙ ground (arith, f.0, f.1), others), one', refl)

  -- In a valid zone where no key has two nodes, ngx_shm_dict_delete does to the map what its
  -- contract says, and no key gets a second node.
  pub delete-Deletes :
      (d : Dict P) (key : List ℕ) (tp : Time)
      → IsValid p d
      → IsSingle p d
      → let (d', rc) = delete p d key tp in
        Deletes (now_ms tp) key (stored p d) (stored p d') rc × IsSingle p d'
  unfolding delete
  delete-Deletes d key tp v one =
      let now = now_ms tp in
      let r = enter p d key now in
      let h = enter-Enters p laws d key now v in
      let (fades, one') = enter-Fading p laws d key now v (Enters-IsValid key now r h) one in
      let (replaces, one2, rc) = delete_found-Replaces key now r h one' in
      (record { faded = stored p r.0; fades = fades; replaces = replaces; succeeds = rc }, one2)

  set_exptime_found-Replaces :
      (key : List ℕ) (exptime : ℕ) (tp : Time) (now : ℕ) (r : Dict P × Found)
      → Enters p key now r
      → IsSingle p r.0
      → let (o, rc) = extended false now (deadline tp exptime) (stored p r.0 key) in
        Replaces key o (stored p r.0) (stored p (set_exptime_found p exptime tp r).0)
        × IsSingle p (set_exptime_found p exptime tp r).0
        × ((set_exptime_found p exptime tp r).1 ≡ rc)
  unfolding set_exptime_found
  set_exptime_found-Replaces key exptime tp now (d, declined) h one =
      let f = Enters-Finds key now (d, declined) h one in
      ((ground (arith, f), λ k n. refl), one, ground (arith, f))
  set_exptime_found-Replaces key exptime tp now (d, done a) h one =
      let f = Enters-Finds key now (d, done a) h one in
      ((ground (arith, f.0, f.1), λ k n. refl), one, ground (arith, f.0, f.1))
  set_exptime_found-Replaces key exptime tp now (d, hit a) h one =
      let f = Enters-Finds key now (d, hit a) h one in
      let d1 = touch p d a in
      let v' = set_exptime_found-IsValid p laws key exptime tp now (d, hit a) h in
      let sd = record (d1.heap a) { expires = deadline tp exptime } in
      let ((at, others), one') =
        store-Replaces p laws d1 key a sd (touch-IsValid p laws d a h.1.0 h.0)
          (locked-IsValid p (set_exptime_found p exptime tp (d, hit a)).0 d.locked v')
          (touch-IsSingle d a h.0 h.1.0 one) ((touch-Holds d a key a h.0 h.1.0).1 h.1) refl in
      (
        (at ∙ ground (arith, f.0, f.1), λ k n. others k n ∙ unfold touch in refl),
        one',
        ground (arith, f.0, f.1),
      )

  -- In a valid zone where no key has two nodes, ngx_shm_dict_set_exptime does to the map what its
  -- contract says, and no key gets a second node.
  pub set_exptime-Extends :
      (d : Dict P) (key : List ℕ) (exptime : ℕ) (tp : Time)
      → IsValid p d
      → IsSingle p d
      → let (d', rc) = set_exptime p d key exptime tp in
        Extends (now_ms tp) (deadline tp exptime) key (stored p d) (stored p d') rc × IsSingle p d'
  unfolding set_exptime
  set_exptime-Extends d key exptime tp v one = elim (Bool-cases (bad_key key)) [
    | inl e ↦ rw e (
      record {
        faded = stored p d;
        fades = λ k. inl refl;
        replaces = (rw e refl, λ k n. refl);
        returns = rw e refl;
      },
      one,
    )
    | inr e ↦
        let now = now_ms tp in
        let r = enter p d key now in
        let h = enter-Enters p laws d key now v in
        let (fades, one') = enter-Fading p laws d key now v (Enters-IsValid key now r h) one in
        let (replaces, one2, rc) = set_exptime_found-Replaces key exptime tp now r h one' in
        rw e (
          record {
            faded = stored p r.0;
            fades = fades;
            replaces = rw e replaces;
            returns = rw e rc;
          },
          one2,
        )
  ]
