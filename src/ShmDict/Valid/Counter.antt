-- ===== src/ShmDict/Valid/Counter.antt =====
-- ngx_shm_dict_inc_int and the invariant.
use nginx_modules.Base.{
  ℕ, zero, suc, ◌+◌, ◌/◌, ◌%◌, ◌^◌, ◌≤◌, ◌<◌, ◌≡◌, refl, subst, sym, ◌∙◌, ap, ◌==◌, Bool-cases, inl,
  inr, true, false, leb, Option, none, some, List, ◌++◌, length, length-take, length-drop,
  length-append, take, take-append, drop, count, arith,
}
use nginx_modules.ShmDict.Platform.{Platform, IsPlatform}
use nginx_modules.ShmDict.Node.{Node, Time, now_ms, shm_int64}
use nginx_modules.ShmDict.Zone.{Dict, store, Found, hit, done, declined, crc32}
use nginx_modules.ShmDict.Access.{
  Reply, bad_key, enter, to_bytes, of_bytes, add_and_fetch, get_found, get, inc_found, inc_int,
}
use nginx_modules.ShmDict.Valid.{IsValid, IsCounted}
use nginx_modules.ShmDict.Valid.Steps.{store-IsValid}
use nginx_modules.ShmDict.Valid.Operations.{Enters, enter-Enters, get-IsValid, set-IsValid}

-- Bytes that are written over the first ones leave the length.
pub length_splice :
    (ys zs : List ℕ) → length zs ≤ length ys → length (zs ++ drop (length zs) ys) ≡ length ys
length_splice ys zs h =
    omega (arith, h, length-append zs (drop (length zs) ys), length-drop (length zs) ys h)

pub length-to_bytes : (n x : ℕ) → length (to_bytes n x) ≡ n
unfolding to_bytes
length-to_bytes zero x = refl
length-to_bytes (suc n) x = ground (arith, length-to_bytes n (x / 256))

-- The sum that the addition makes of a node's number, and the node with it.
abbrev pub sum_in : ℕ → Node → ℕ
sum_in i sd = (of_bytes (take 8 (drop sd.key_len sd.bytes)) + i) % 2 ^ 64

-- The bytes of the key stay in front.
abbrev pub over : Node → ℕ → List ℕ
over sd sum = take sd.key_len sd.bytes ++ (to_bytes 8 sum ++ drop 8 (drop sd.key_len sd.bytes))

pub take-over :
    (sd : Node) (sum : ℕ)
    → sd.key_len ≤ length sd.bytes
    → take sd.key_len (over sd sum) ≡ take sd.key_len sd.bytes
take-over sd sum h =
    subst (λ (n : ℕ). take n (over sd sum) ≡ take sd.key_len sd.bytes)
      (length-take sd.key_len sd.bytes h) (take-append (take sd.key_len sd.bytes) _)

length-over :
    (sd : Node) (sum : ℕ)
    → sd.key_len + 8 ≤ length sd.bytes
    → length (over sd sum) ≡ length sd.bytes
length-over sd sum h =
    let text = drop sd.key_len sd.bytes in
    let n = length-drop sd.key_len sd.bytes (omega (arith, h)) in
    omega (
      arith,
      h,
      n,
      length-append (take sd.key_len sd.bytes) (to_bytes 8 sum ++ drop 8 text),
      length-take sd.key_len sd.bytes (omega (arith, h)),
      length-append (to_bytes 8 sum) (drop 8 text),
      length-to_bytes 8 sum,
      length-drop 8 text (omega (arith, h, n)),
    )

module _ {P : Type 0} (p : Platform P) (laws : IsPlatform p) where
  -- The addition to a node that holds eight bytes behind its key.
  pub add_and_fetch_lem :
      (d : Dict P) (a i : ℕ)
      → let sd = d.heap a in
        sd.key_len + 8 ≤ length sd.bytes
        → add_and_fetch p d a i
          ≡ (store p d a (record sd { bytes = over sd (sum_in i sd) }), sum_in i sd)
  unfolding add_and_fetch
  add_and_fetch_lem d a i h =
      let sd = d.heap a in
      let n = length-drop sd.key_len sd.bytes (omega (arith, h)) in
      let whole : leb 8 (length (drop sd.key_len sd.bytes)) ≡ true = ground (arith, n, h) in
      rw whole refl

  pub add_and_fetch-IsValid :
      (d : Dict P) (a i : ℕ)
      → IsValid p d
      → 0 < count a d.queue
      → 8 ≤ (d.heap a).value_len
      → IsValid p (add_and_fetch p d a i).0
  add_and_fetch-IsValid d a i v c w =
      let sd = d.heap a in
      let f = v.filled a c in
      let long : sd.key_len + 8 ≤ length sd.bytes = omega (arith, f.sized, w) in
      let h : sd.key_len ≤ length sd.bytes = omega (arith, f.sized) in
      subst (λ (r : Dict P × ℕ). IsValid p r.0) (sym (add_and_fetch_lem d a i long))
        (store-IsValid p laws d a (record sd { bytes = over sd (sum_in i sd) })
          (ap (λ (k : List ℕ). (sd.key, k)) (take-over sd (sum_in i sd) h))
          (record {
            hashed = f.hashed ∙ ap (crc32 p) (sym (take-over sd (sum_in i sd) h));
            sized = length-over sd (sum_in i sd) long ∙ f.sized;
            short = f.short;
          })
          v)

  -- What is known of the node of a reply.
  get_found-reply :
      (key : List ℕ) (now : ℕ) (r : Dict P × Found) (x : Reply)
      → Enters p key now r
      → (get_found p now r).1 ≡ some x
      → let d = (get_found p now r).0 in
        (0 < count x.node d.queue) × (x.value_type ≡ (d.heap x.node).value_type)
  unfolding get_found
  get_found-reply key now (d, declined) x h e = cc
  get_found-reply key now (d, done a) x h e = cc
  get_found-reply key now (d, hit a) x h e =
      let same : a ≡ x.node = ground (arith, e) in
      (ground (arith, h.1.0, e), ground (arith, e, same))

  pub get-reply :
      (d : Dict P) (key : List ℕ) (tp : Time) (x : Reply)
      → IsValid p d
      → (get p d key tp).1 ≡ some x
      → let d' = (get p d key tp).0 in
        (0 < count x.node d'.queue) × (x.value_type ≡ (d'.heap x.node).value_type)
  unfolding get
  get-reply d key tp x v e = elim (Bool-cases (bad_key key)) [
    | inl b ↦ absurd (ground (arith, e, b))
    | inr b ↦ rw b (
        get_found-reply key (now_ms tp) (enter p d key (now_ms tp)) x
          (enter-Enters p laws d key (now_ms tp) v) (ground (arith, e, b)))
  ]

  inc_found-IsValid :
      (key : List ℕ) (i exptime : ℕ) (tp : Time) (r : Dict P × Option Reply)
      → IsValid p r.0
      → ((x : Reply)
          → r.1 ≡ some x
          → (0 < count x.node r.0.queue) × (x.value_type ≡ (r.0.heap x.node).value_type))
      → IsCounted r.0
      → IsValid p (inc_found p key i exptime tp r).0
  unfolding inc_found
  inc_found-IsValid key i exptime tp (d, none) v l w =
      set-IsValid p laws d key (record { is_null = false; bytes = to_bytes 8 i }) shm_int64 exptime
        0 tp (omega (arith, length-to_bytes 8 i)) v
  inc_found-IsValid key i exptime tp (d, some x) v l w =
      let (c, t) = l x refl in
      elim (Bool-cases (x.value_type == shm_int64)) [
        | inl e ↦ rw e (add_and_fetch-IsValid d x.node i v c (w x.node c (ground (arith, t, e))))
        | inr e ↦ rw e v
      ]

  -- ngx_shm_dict_inc_int keeps the invariant of a zone, where each integer has its eight bytes.
  pub inc_int-IsValid :
      (d : Dict P) (key : List ℕ) (i exptime : ℕ) (tp : Time)
      → IsValid p d
      → IsCounted (get p d key tp).0
      → IsValid p (inc_int p d key i exptime tp).0
  unfolding inc_int
  inc_int-IsValid d key i exptime tp v w =
      inc_found-IsValid key i exptime tp (get p d key tp) (get-IsValid p laws d key tp v)
        (λ x e. get-reply d key tp x v e) w
