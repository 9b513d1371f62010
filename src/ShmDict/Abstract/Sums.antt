-- ===== src/ShmDict/Abstract/Sums.antt =====
-- ngx_shm_dict_inc_int as a change of the map.
use nginx_modules.Base.{
  ℕ, ◌≤◌, length-append, ◌+◌, ◌%◌, ◌^◌, ◌++◌, ◌≡◌, refl, sym, subst, ◌∙◌, ap, Bool-cases, inl, inr,
  false, ◌==◌, Option, none, some, List, length, length-take, length-drop, take, drop, drop-append,
  take-length, arith,
}
use nginx_modules.ShmDict.Platform.{Platform, IsPlatform}
use nginx_modules.ShmDict.Node.{Node, Str, Time, now_ms, shm_int64, value_bytes}
use nginx_modules.ShmDict.Zone.{Dict, Rc, shm_ok, shm_error, Found, hit, done, declined}
use nginx_modules.ShmDict.Access.{
  Reply, bad_key, enter, get_found, get, set, to_bytes, of_bytes, add_and_fetch, inc_found, inc_int,
}
use nginx_modules.ShmDict.Valid.{IsValid, IsCounted}
use nginx_modules.ShmDict.Valid.Counter.{
  over, sum_in, take-over, length-to_bytes, add_and_fetch_lem, add_and_fetch-IsValid,
}
use nginx_modules.ShmDict.Valid.Operations.{Holds, Enters, enter-Enters, get-IsValid}
use nginx_modules.ShmDict.Abstract.{
  Entry, Map, entry_of, stored, IsTimely, looked_up, sum_of, summed, Fading, Replaces, Sets, Incs,
  added, other_type, first, first_failed,
}
use nginx_modules.ShmDict.Contents.Integers.{get-IsCounted}
use nginx_modules.ShmDict.Abstract.Views.{IsSingle, enter-Fading}
use nginx_modules.ShmDict.Abstract.Changes.{store-Replaces}
use nginx_modules.ShmDict.Abstract.Reads.{Enters-IsValid, Enters-Finds, get-Gets}
use nginx_modules.ShmDict.Abstract.Inserts.{new_entry}
use nginx_modules.ShmDict.Abstract.Writes.{Fades-IsTimely, set-Sets}

-- The value behind the key, where the node is filled.
value_lem :
    (sd : Node)
    → length sd.bytes ≡ sd.key_len + sd.value_len
    → value_bytes sd ≡ drop sd.key_len sd.bytes
value_lem sd s =
    let n : sd.value_len ≡ length (drop sd.key_len sd.bytes) =
      omega (arith, s, length-drop sd.key_len sd.bytes (omega (arith, s))) in
    ap (λ (k : ℕ). take k (drop sd.key_len sd.bytes)) n ∙ take-length (drop sd.key_len sd.bytes)

-- The node that the addition writes.
abbrev pub summed_node : ℕ → Node → Node
summed_node i sd = record sd { bytes = over sd (sum_in i sd) }

summed_node_lem :
    (i : ℕ) (sd : Node)
    → length sd.bytes ≡ sd.key_len + sd.value_len
    → 8 ≤ sd.value_len
    → entry_of (summed_node i sd) ≡ summed i (entry_of sd)
summed_node_lem i sd s w =
    let text = drop sd.key_len sd.bytes in
    let spliced : List ℕ → List ℕ =
      λ v. to_bytes 8 ((of_bytes (take 8 v) + i) % 2 ^ 64) ++ drop 8 v in
    let n : length (take sd.key_len sd.bytes) ≡ sd.key_len =
      length-take sd.key_len sd.bytes (omega (arith, s)) in
    let behind : drop sd.key_len (take sd.key_len sd.bytes ++ spliced text) ≡ spliced text =
      subst (λ (k : ℕ). drop k (take sd.key_len sd.bytes ++ spliced text) ≡ spliced text) n
        (drop-append (take sd.key_len sd.bytes) (spliced text)) in
    let t : length text ≡ sd.value_len =
      omega (arith, s, length-drop sd.key_len sd.bytes (omega (arith, s))) in
    let m : sd.value_len ≡ length (spliced text) = omega (
      arith,
      t,
      w,
      length-append (to_bytes 8 (sum_in i sd)) (drop 8 text),
      length-to_bytes 8 (sum_in i sd),
      length-drop 8 text (omega (arith, t, w)),
    ) in
    let whole : value_bytes (summed_node i sd) ≡ spliced (value_bytes sd) =
      ap (λ (xs : List ℕ). take sd.value_len xs) behind
      ∙ ap (λ (k : ℕ). take k (spliced text)) m
      ∙ take-length (spliced text)
      ∙ ap spliced (sym (value_lem sd s)) in
    ap (λ (v : List ℕ). record (entry_of sd) { value = v }) whole

module _ {P : Type 0} (p : Platform P) (laws : IsPlatform p) where
  -- What is known of the state and the reply of ngx_shm_dict_get.
  abbrev Got : ℕ → List ℕ → Dict P × Option Reply → Type 0
  Got now key (d, none) = looked_up now key (stored p d) ≡ none
  Got now key (d, some x) =
      Holds p d key x.node
      × (looked_up now key (stored p d) ≡ some (entry_of (d.heap x.node)))
      × (x.value_type ≡ (d.heap x.node).value_type)

  get_found-Got :
      (key : List ℕ) (now : ℕ) (r : Dict P × Found)
      → bad_key key ≡ false
      → Enters p key now r
      → IsSingle p r.0
      → Got now key (get_found p now r)
  unfolding get_found
  get_found-Got key now (d, declined) g h one =
      let f = Enters-Finds p laws key now (d, declined) h one in ground (arith, f)
  get_found-Got key now (d, done a) g h one =
      let f = Enters-Finds p laws key now (d, done a) h one in ground (arith, f.0, f.1)
  get_found-Got key now (d, hit a) g h one =
      let f = Enters-Finds p laws key now (d, hit a) h one in (h.1, ground (arith, f.0, f.1), refl)

  get-Got :
      (d : Dict P) (key : List ℕ) (tp : Time)
      → IsValid p d
      → IsSingle p d
      → Got (now_ms tp) key (get p d key tp)
  unfolding get
  get-Got d key tp v one = elim (Bool-cases (bad_key key)) [
    | inl e ↦ rw e (rw e refl)
    | inr e ↦
        let h = enter-Enters p laws d key (now_ms tp) v in
        rw e (
          get_found-Got key (now_ms tp) (enter p d key (now_ms tp)) e h
            (enter-Fading p laws d key (now_ms tp) v
              (Enters-IsValid p laws key (now_ms tp) (enter p d key (now_ms tp)) h) one).1)
  ]

  -- The end of the call where the key had no entry.
  by_rc :
      (now i : ℕ) (key : List ℕ) (e : Entry) (m m1 m' : Map) (rc : Rc)
      → Fading now m m1
      → looked_up now key m1 ≡ none
      → Sets now key e m1 m' rc
      → Incs now i key e m m' (elim rc [ shm_ok ↦ some i | shm_error ↦ none ])
  by_rc now i key e m m1 m' shm_ok f l s = first m1 f l s
  by_rc now i key e m m1 m' shm_error f l s = first_failed m1 f l s

  -- The addition to a node.
  add_and_fetch-Replaces :
      (d : Dict P) (key : List ℕ) (a i : ℕ)
      → IsValid p d
      → IsSingle p d
      → Holds p d key a
      → 8 ≤ (d.heap a).value_len
      → let (d', sum) = add_and_fetch p d a i in
        let e = entry_of (d.heap a) in
        Replaces key (some (summed i e)) (stored p d) (stored p d')
        × IsSingle p d'
        × (sum ≡ sum_of i e)
  add_and_fetch-Replaces d key a i v one h w =
      let sd = d.heap a in
      let f = v.filled a h.0 in
      let lem = add_and_fetch_lem p laws d a i (omega (arith, f.sized, w)) in
      let ((at, others), one') =
        store-Replaces p laws d key a (summed_node i sd) v
          (subst (λ (r : Dict P × ℕ). IsValid p r.0) lem
            (add_and_fetch-IsValid p laws d a i v h.0 w))
          one h
          (ap (λ (k : List ℕ). (sd.key, k))
            (take-over sd (sum_in i sd) (omega (arith, f.sized)))) in
      subst
        (λ (r : Dict P × ℕ).
          Replaces key (some (summed i (entry_of sd))) (stored p d) (stored p r.0)
          × IsSingle p r.0
          × (r.1 ≡ sum_of i (entry_of sd)))
        (sym lem)
        (
          (at ∙ ap (λ (e : Entry). some e) (summed_node_lem i sd f.sized w), others),
          one',
          ap (λ (v : List ℕ). (of_bytes (take 8 v) + i) % 2 ^ 64) (sym (value_lem sd f.sized)),
        )

  inc_found-Incs :
      (key : List ℕ) (i exptime : ℕ) (tp : Time) (m : Map) (r : Dict P × Option Reply)
      → IsValid p r.0
      → IsSingle p r.0
      → Fading (now_ms tp) m (stored p r.0)
      → IsTimely (now_ms tp) (stored p r.0 key)
      → Got (now_ms tp) key r
      → IsCounted r.0
      → let e =
          new_entry (record { is_null = false; bytes = to_bytes 8 i }) shm_int64 exptime 0 tp in
        let (d', o) = inc_found p key i exptime tp r in
        Incs (now_ms tp) i key e m (stored p d') o × IsSingle p d'
  unfolding inc_found
  inc_found-Incs key i exptime tp m (d, none) v one f t g w =
      let value : Str = record { is_null = false; bytes = to_bytes 8 i } in
      let (s, one') =
        set-Sets p laws d key value shm_int64 exptime 0 tp (omega (arith, length-to_bytes 8 i)) v
          one t in
      (
        by_rc (now_ms tp) i key (new_entry value shm_int64 exptime 0 tp) m (stored p d)
            (stored p (set p d key value shm_int64 exptime 0 tp).0)
            (set p d key value shm_int64 exptime 0 tp).1 f g s,
        one',
      )
  inc_found-Incs key i exptime tp m (d, some x) v one f t g w =
      elim (Bool-cases (x.value_type == shm_int64)) [
        | inl e ↦
            let (r, one', sum) =
              add_and_fetch-Replaces d key x.node i v one g.0
                (w x.node g.0.0 (ground (arith, g.2, e))) in
            rw e (
              subst
                  (λ (n : ℕ).
                    Incs (now_ms tp) i key
                      (new_entry (record { is_null = false; bytes = to_bytes 8 i }) shm_int64
                        exptime 0 tp)
                      m (stored p (add_and_fetch p d x.node i).0) (some n))
                  (sym sum)
                  (added (stored p d) (entry_of (d.heap x.node)) f g.1 (ground (arith, g.2, e)) r),
              one',
            )
        | inr e ↦
            rw e (other_type (entry_of (d.heap x.node)) f g.1 (λ w. ground (arith, g.2, e, w)), one)
      ]

  -- In a valid zone where no key has two nodes and each entry of the integer type has eight bytes or
  -- more, ngx_shm_dict_inc_int on a key that has no entry whose expiry time is over does to the map
  -- what its contract says, and no key gets a second node.
  pub inc_int-Incs :
      (d : Dict P) (key : List ℕ) (i exptime : ℕ) (tp : Time)
      → IsValid p d
      → IsCounted d
      → IsSingle p d
      → IsTimely (now_ms tp) (stored p d key)
      → let e =
          new_entry (record { is_null = false; bytes = to_bytes 8 i }) shm_int64 exptime 0 tp in
        let (d', o) = inc_int p d key i exptime tp in
        Incs (now_ms tp) i key e (stored p d) (stored p d') o × IsSingle p d'
  unfolding inc_int
  inc_int-Incs d key i exptime tp v w one t =
      let (g, one') = get-Gets p laws d key tp v one in
      inc_found-Incs key i exptime tp (stored p d) (get p d key tp) (get-IsValid p laws d key tp v)
        one' g.fades
        (Fades-IsTimely p laws (now_ms tp) (stored p d key) (stored p (get p d key tp).0 key)
          (g.fades key) t)
        (get-Got d key tp v one) (get-IsCounted p laws d key tp v w)
