-- ===== src/ShmDict/Rbtree/Search.antt =====
-- What the walk of the lookup finds, and what the insert callback makes of a sorted tree.
use nginx_modules.Base.{
  ℕ, ◌+◌, ◌<◌, ◌≡◌, ◌≢◌, refl, sym, subst, Ordering, none, some, List, ◌∷◌, All, All-append,
  All-of_count, All-at, ℕ_discrete, count, count-append, if◌then◌else◌, ◌==◌, arith,
}
use nginx_modules.ShmDict.Platform.{Platform, IsPlatform, Tree, sentinel, branch, inorder}
use nginx_modules.ShmDict.Node.{Node, sort_key}
use nginx_modules.ShmDict.Order.{
  Key, key_cmp, Le, IsSorted, eq_of_key_cmp, key_cmp_refl, key_cmp-swap, ne_of_lt, ne_of_gt,
  All-imp, IsSorted-split, IsSorted-join,
}
use nginx_modules.ShmDict.Rbtree.{insert_value, find_node}

module _ {P : Type 0} (p : Platform P) (laws : IsPlatform p) (heap : ℕ → Node) where
  abbrev pub node_key : ℕ → Key
  node_key a = sort_key (heap a)

  -- The walk compares by `key_cmp`.
  find_node-branch :
      (hash : ℕ) (kdata : List ℕ) (l r : Tree) (a : ℕ)
      → find_node p heap hash kdata (branch l a r) ≡ elim (key_cmp p (hash, kdata) (node_key a)) [
        | Ordering.lt ↦ find_node p heap hash kdata l
        | Ordering.gt ↦ find_node p heap hash kdata r
        | Ordering.eq ↦ some a
      ]
  unfolding find_node key_cmp
  find_node-branch hash kdata l r a = ground arith

  insert_value-branch :
      (a : ℕ) (l r : Tree) (b : ℕ)
      → insert_value p heap (branch l b r) a ≡ elim (key_cmp p (node_key a) (node_key b)) [
        | Ordering.lt ↦ branch (insert_value p heap l a) b r
        | _ ↦ branch l b (insert_value p heap r a)
      ]
  unfolding insert_value key_cmp
  insert_value-branch a l r b = ground arith

  insert_left :
      (a : ℕ) (l r : Tree) (b : ℕ)
      → key_cmp p (node_key a) (node_key b) ≡ Ordering.lt
      → insert_value p heap (branch l b r) a ≡ branch (insert_value p heap l a) b r
  insert_left a l r b e = ground (arith, insert_value-branch a l r b)

  insert_right :
      (a : ℕ) (l r : Tree) (b : ℕ)
      → key_cmp p (node_key a) (node_key b) ≢ Ordering.lt
      → insert_value p heap (branch l b r) a ≡ branch l b (insert_value p heap r a)
  insert_right a l r b e = ground (arith, insert_value-branch a l r b)

  -- What is found is a node of the tree with the key that was sought.
  pub find_node-some :
      (hash : ℕ) (kdata : List ℕ) (t : Tree) (a : ℕ)
      → find_node p heap hash kdata t ≡ some a
      → (0 < count a (inorder t)) × (node_key a ≡ (hash, kdata))
  unfolding find_node
  find_node-some hash kdata sentinel a h = cc
  find_node-some hash kdata (branch l b r) a h = ground (
    arith,
    find_node-branch hash kdata l r b,
    find_node-some hash kdata l a,
    find_node-some hash kdata r a,
    count-append a (inorder l) (b ∷ inorder r),
    eq_of_key_cmp p laws (hash, kdata) (node_key b),
  )

  -- Where nothing is found in a sorted tree, no node has the key.
  pub find_node-none :
      (hash : ℕ) (kdata : List ℕ) (t : Tree)
      → IsSorted p node_key (inorder t)
      → find_node p heap hash kdata t ≡ none
      → All (λ b. node_key b ≢ (hash, kdata)) (inorder t)
  find_node-none hash kdata sentinel s h = tt
  find_node-none hash kdata (branch l a r) s h =
      let (below, above, left, right) =
        IsSorted-split p laws node_key (inorder l) a (inorder r) s in
      let Ne : ℕ → Type 0 = λ b. node_key b ≢ (hash, kdata) in
      let k : Key = (hash, kdata) in
      let self : key_cmp p k (node_key a) ≢ Ordering.eq → Ne a =
        λ n e. n (subst (λ x. key_cmp p k x ≡ Ordering.eq) (sym e) (key_cmp_refl p laws k)) in
      elim (key_cmp p k (node_key a))
          as (λ o. key_cmp p k (node_key a) ≡ o → All Ne (inorder (branch l a r))) [
            | Ordering.lt ↦ λ e.
                All-append Ne (inorder l) (a ∷ inorder r)
                  (find_node-none hash kdata l left
                    (ground (arith, find_node-branch hash kdata l r a)))
                  (
                    self (ground arith),
                    All-imp p laws node_key (λ b. Le p (node_key a) (node_key b)) Ne
                        (λ b. ne_of_lt p laws k (node_key a) (node_key b) e) (inorder r) above,
                  )
            | Ordering.gt ↦ λ e.
                All-append Ne (inorder l) (a ∷ inorder r)
                  (All-imp p laws node_key (λ b. Le p (node_key b) (node_key a)) Ne
                    (λ b. ne_of_gt p laws k (node_key a) (node_key b) e) (inorder l) below)
                  (
                    self (ground arith),
                    find_node-none hash kdata r right
                        (ground (arith, find_node-branch hash kdata l r a)),
                  )
            | Ordering.eq ↦ λ e. absurd (ground (arith, find_node-branch hash kdata l r a))
          ]
        refl

  -- The callback adds the node, once.
  pub count-insert_value :
      (t : Tree) (a b : ℕ)
      → count b (inorder (insert_value p heap t a))
        ≡ (if a == b then count b (inorder t) + 1 else count b (inorder t))
  unfolding insert_value
  count-insert_value sentinel a b = ground arith
  count-insert_value (branch l c r) a b = ground (
    arith,
    insert_value-branch a l r c,
    count-insert_value l a b,
    count-insert_value r a b,
    count-append b (inorder l) (c ∷ inorder r),
    count-append b (inorder (insert_value p heap l a)) (c ∷ inorder r),
    count-append b (inorder l) (c ∷ inorder (insert_value p heap r a)),
  )

  All-insert_value :
      (Q : ℕ → Type 0) (t : Tree) (a : ℕ)
      → Q a
      → All Q (inorder t)
      → All Q (inorder (insert_value p heap t a))
  All-insert_value Q t a qa h = All-of_count Q (inorder (insert_value p heap t a)) λ b c.
      elim (ℕ_discrete a b) [
        | yes e ↦ subst Q e qa
        | no n ↦ All-at Q b (inorder t) h (ground (arith, count-insert_value t a b))
      ]

  -- It keeps the tree sorted, equal keys included.
  pub insert_value-IsSorted :
      (t : Tree) (a : ℕ)
      → IsSorted p node_key (inorder t)
      → IsSorted p node_key (inorder (insert_value p heap t a))
  insert_value-IsSorted sentinel a s = unfold insert_value in (tt, tt)
  insert_value-IsSorted (branch l b r) a s =
      let (below, above, left, right) =
        IsSorted-split p laws node_key (inorder l) b (inorder r) s in
      let Sorted : Tree → Type 0 = λ t. IsSorted p node_key (inorder t) in
      let to_right : Le p (node_key b) (node_key a)
          → Sorted (branch l b (insert_value p heap r a)) =
        λ le.
          IsSorted-join p laws node_key (inorder l) b (inorder (insert_value p heap r a)) below
            (All-insert_value (λ x. Le p (node_key b) (node_key x)) r a le above) left
            (insert_value-IsSorted r a right) in
      elim (key_cmp p (node_key a) (node_key b))
          as (λ o.
            key_cmp p (node_key a) (node_key b) ≡ o
            → Sorted (insert_value p heap (branch l b r) a)) [
              | Ordering.lt ↦ λ e. subst Sorted (sym (insert_left a l r b e)) (
                  IsSorted-join p laws node_key (inorder (insert_value p heap l a)) b (inorder r)
                    (All-insert_value (λ x. Le p (node_key x) (node_key b)) l a (ground arith)
                      below)
                    above (insert_value-IsSorted l a left) right)
              | Ordering.eq ↦ λ e.
                  subst Sorted (sym (insert_right a l r b (ground arith)))
                    (to_right (ground (arith, key_cmp-swap p laws (node_key a) (node_key b))))
              | Ordering.gt ↦ λ e.
                  subst Sorted (sym (insert_right a l r b (ground arith)))
                    (to_right (ground (arith, key_cmp-swap p laws (node_key a) (node_key b))))
            ]
        refl
