-- ===== src/ShmDict/Abstract/Races.antt =====
-- The addition of ngx_shm_dict_inc_int is made after the lock is released: another process that
-- deletes the key before it.
use nginx_modules.Base.{
  length, ◌≤◌, ◌+◌, ℕ, ◌<◌, ◌≡◌, refl, sym, subst, ◌∙◌, ap, Bool-cases, Option-cases, inl, inr,
  true, false, none, some, List, ◌∷◌, count, count-append, arith,
}
use nginx_modules.ShmDict.Platform.{Platform, IsPlatform, Tree, sentinel, branch, inorder}
use nginx_modules.ShmDict.Node.{shm_int64, Node, Time, now_ms, update, is_kept, is_expired}
use nginx_modules.ShmDict.Rbtree.{find_node}
use nginx_modules.ShmDict.Rbtree.Search.{find_node-some}
use nginx_modules.ShmDict.Zone.{Dict, Found, hit, done, declined, crc32, unlink, store}
use nginx_modules.ShmDict.Access.{
  Reply, bad_key, enter, get_found, get, delete_found, delete, add_and_fetch,
}
use nginx_modules.ShmDict.Valid.{IsValid, IsCounted}
use nginx_modules.ShmDict.Valid.Steps.{update_self, update-ne, count-unlink}
use nginx_modules.ShmDict.Valid.Operations.{
  Holds, Lacks, Enters, enter-Enters, get-IsValid, delete-IsValid,
}
use nginx_modules.ShmDict.Contents.Reading.{AtMostOne, Holds-enter, Holds-kept, enter-heap}
use nginx_modules.ShmDict.Contents.Writing.{unlink-Lacks}
use nginx_modules.ShmDict.Contents.Eviction.{not_expired_of_kept}
use nginx_modules.ShmDict.Abstract.{stored, entry_of}
use nginx_modules.ShmDict.Abstract.Views.{IsSingle, stored-none, stored-some, stored_lem}
use nginx_modules.ShmDict.Abstract.Reads.{get-Gets}
use nginx_modules.ShmDict.Abstract.Sums.{summed_node}
use nginx_modules.ShmDict.Valid.Counter.{add_and_fetch_lem, get-reply}
use nginx_modules.ShmDict.Contents.Integers.{get-IsCounted}

module _ {P : Type 0} (p : Platform P) (laws : IsPlatform p) where
  -- The walk reads the nodes of the tree alone.
  find_node-agree :
      (heap heap' : ℕ → Node) (hash : ℕ) (kdata : List ℕ) (t : Tree)
      → ((b : ℕ) → 0 < count b (inorder t) → heap' b ≡ heap b)
      → find_node p heap' hash kdata t ≡ find_node p heap hash kdata t
  unfolding find_node
  find_node-agree heap heap' hash kdata sentinel h = refl
  find_node-agree heap heap' hash kdata (branch l a r) h =
      let at = λ (b : ℕ). count-append b (inorder l) (a ∷ inorder r) in
      let here : heap' a ≡ heap a = h a (ground (arith, at a)) in
      let left = find_node-agree heap heap' hash kdata l (λ b c. h b (ground (arith, at b, c))) in
      let right = find_node-agree heap heap' hash kdata r (λ b c. h b (ground (arith, at b, c))) in
      ground (arith, here, left, right)

  -- A write to a node that is not linked is seen by no lookup.
  store_unlinked :
      (d : Dict P) (a : ℕ) (sd : Node) (key : List ℕ)
      → IsValid p d
      → count a d.queue ≡ 0
      → stored p (store p d a sd) key ≡ stored p d key
  unfolding store
  store_unlinked d a sd key v c =
      let d' = store p d a sd in
      let apart : (b : ℕ) → 0 < count b (inorder d.root) → update d.heap a sd b ≡ d.heap b =
        λ b h. update-ne d.heap a sd b (λ e. absurd (ground (arith, c, h, v.same b, e))) in
      let walk = find_node-agree d.heap (update d.heap a sd) (crc32 p key) key d.root apart in
      elim (Option-cases (find_node p d.heap (crc32 p key) key d.root)) [
        | inl e ↦ stored-none p laws d' key (walk ∙ e) ∙ sym (stored-none p laws d key e)
        | inr (b, e) ↦
            let found = find_node-some p laws d.heap (crc32 p key) key d.root b e in
            stored-some p laws d' key b (walk ∙ e)
            ∙ ap (λ (x : Node). some (entry_of x)) (apart b found.0)
            ∙ sym (stored-some p laws d key b e)
      ]

  -- The node of a reply holds the key.
  get_found-Holds :
      (key : List ℕ) (now : ℕ) (r : Dict P × Found) (x : Reply)
      → Enters p key now r
      → (get_found p now r).1 ≡ some x
      → Holds p (get_found p now r).0 key x.node
  unfolding get_found
  get_found-Holds key now (d, declined) x h e = cc
  get_found-Holds key now (d, done a) x h e = cc
  get_found-Holds key now (d, hit a) x h e =
      let same : a ≡ x.node = ground (arith, e) in subst (λ (b : ℕ). Holds p d key b) same h.1

  get-Holds_node :
      (d : Dict P) (key : List ℕ) (tp : Time) (x : Reply)
      → IsValid p d
      → (get p d key tp).1 ≡ some x
      → Holds p (get p d key tp).0 key x.node
  unfolding get
  get-Holds_node d key tp x v e = elim (Bool-cases (bad_key key)) [
    | inl b ↦ absurd (ground (arith, e, b))
    | inr b ↦ rw b (
        get_found-Holds key (now_ms tp) (enter p d key (now_ms tp)) x
          (enter-Enters p laws d key (now_ms tp) v) (ground (arith, e, b)))
  ]

  -- A lookup that finds the one node of the key, where it is not to expire: a deletion gives its
  -- memory back.
  delete_found-freed :
      (key : List ℕ) (now a : ℕ) (r : Dict P × Found)
      → Enters p key now r
      → AtMostOne p r.0 key
      → Holds p r.0 key a
      → is_expired now (r.0.heap a) ≡ false
      → let d = (delete_found p r).0 in
        (p.is_live d.shpool a ≡ false) × (count a d.queue ≡ 0) × Lacks p d key
  unfolding delete_found
  delete_found-freed key now a (d, declined) h one hold k = absurd (h.1 a hold.0 hold.1)
  delete_found-freed key now a (d, done b) h one hold k =
      absurd (ground (arith, one b a h.1 hold, h.2, k))
  delete_found-freed key now a (d, hit b) h one hold k =
      let same : b ≡ a = one b a h.1 hold in
      (
        unfold unlink in (ground (arith, laws.free_live d.shpool b a)),
        ground (arith, count-unlink p laws d b a, h.0.once a),
        λ c x w. unlink-Lacks p laws d key b h.0 (λ y hy. one y b hy h.1) c x w,
      )

  delete-freed :
      (d : Dict P) (key : List ℕ) (a : ℕ) (tp : Time)
      → IsValid p d
      → IsSingle p d
      → Holds p d key a
      → is_kept (now_ms tp) (d.heap a) ≡ true
      → let d' = (delete p d key tp).0 in
        (p.is_live d'.shpool a ≡ false) × (count a d'.queue ≡ 0) × Lacks p d' key
  unfolding delete
  delete-freed d key a tp v one h k =
      let now = now_ms tp in
      let back = λ (b : ℕ) (g : Holds p (enter p d key now).0 key b).
        Holds-enter p laws d key now b key v g in
      delete_found-freed key now a (enter p d key now) (enter-Enters p laws d key now v)
        (λ b c hb hc. one key b c (back b hb) (back c hc)) (Holds-kept p laws d key now a key v h k)
        (ap (λ (f : ℕ → Node). is_expired now (f a)) (enter-heap p laws d key now v)
          ∙ not_expired_of_kept now (d.heap a) k)

  delete_found-heap : (r : Dict P × Found) → (delete_found p r).0.heap ≡ r.0.heap
  unfolding delete_found unlink
  delete_found-heap (d, hit a) = refl
  delete_found-heap (d, done a) = refl
  delete_found-heap (d, declined) = refl

  delete-heap :
      (d : Dict P) (key : List ℕ) (tp : Time) → IsValid p d → (delete p d key tp).0.heap ≡ d.heap
  unfolding delete
  delete-heap d key tp v =
      delete_found-heap (enter p d key (now_ms tp)) ∙ enter-heap p laws d key (now_ms tp) v

  -- Between the two parts of ngx_shm_dict_inc_int in a valid zone where no key has two nodes and each
  -- entry of the integer type has eight bytes or more, the `get` that finds the key's node, of the
  -- integer type, and the addition to the bytes in it, another process deletes the key, whose expiry
  -- time has not come: the node's memory has then been given back to the pool, the addition writes the
  -- sum into it all the same, and is seen in the map nowhere; the key has no entry.
  pub add_and_fetch-delete :
      (d : Dict P) (key : List ℕ) (i : ℕ) (tp tp' : Time) (x : Reply)
      → IsValid p d
      → IsCounted d
      → IsSingle p d
      → (get p d key tp).1 ≡ some x
      → x.value_type ≡ shm_int64
      → is_kept (now_ms tp') ((get p d key tp).0.heap x.node) ≡ true
      → let d1 = (get p d key tp).0 in
        let d2 = (delete p d1 key tp').0 in
        let d3 = (add_and_fetch p d2 x.node i).0 in
        (p.is_live d2.shpool x.node ≡ false)
        × (d3.heap x.node ≡ summed_node i (d1.heap x.node))
        × ((k : List ℕ) → stored p d3 k ≡ stored p d2 k)
        × (stored p d3 key ≡ none)
  add_and_fetch-delete d key i tp tp' x v w one e t k =
      let d1 = (get p d key tp).0 in
      let d2 = (delete p d1 key tp').0 in
      let d3 = (add_and_fetch p d2 x.node i).0 in
      let v1 = get-IsValid p laws d key tp v in
      let v2 = delete-IsValid p laws d1 key tp' v1 in
      let (c, ty) = get-reply p laws d key tp x v e in
      let (freed, gone, lacks) =
        delete-freed d1 key x.node tp' v1 (get-Gets p laws d key tp v one).1
          (get-Holds_node d key tp x v e) k in
      let whole = get-IsCounted p laws d key tp v w x.node c (sym ty ∙ t) in
      let same = ap (λ (f : ℕ → Node). f x.node) (delete-heap d1 key tp' v1) in
      let long : (d2.heap x.node).key_len + 8 ≤ length (d2.heap x.node).bytes =
        subst (λ (sd : Node). sd.key_len + 8 ≤ length sd.bytes) (sym same)
          (let f = v1.filled x.node c in omega (arith, f.sized, whole)) in
      let sum : d3 ≡ store p d2 x.node (summed_node i (d2.heap x.node)) =
        ap (λ (r : Dict P × ℕ). r.0) (add_and_fetch_lem p laws d2 x.node i long) in
      let unseen : (q : List ℕ) → stored p d3 q ≡ stored p d2 q = λ q.
        ap (λ (z : Dict P). stored p z q) sum
        ∙ store_unlinked d2 x.node (summed_node i (d2.heap x.node)) q v2 gone in
      (
        freed,
        ap (λ (z : Dict P). z.heap x.node) sum
            ∙ unfold store in
              (update_self d2.heap x.node (summed_node i (d2.heap x.node)))
              ∙ ap (summed_node i) same,
        unseen,
        unseen key
            ∙ stored_lem p laws d2 key none v2 (λ a b ha hb. absurd (lacks a ha.0 ha.1))
                (λ a c w. lacks a c w),
      )
