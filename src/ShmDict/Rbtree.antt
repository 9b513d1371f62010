-- ===== src/ShmDict/Rbtree.antt =====
-- ngx_shm_dict_rbtree_insert_value, the walk of ngx_shm_dict_lookup and ngx_shm_dict_count.
pub mod Search
pub mod Counting
use nginx_modules.Base.{ℕ, zero, suc, ◌+◌, compare, Ordering, Option, none, some, List, [], ◌∷◌}
use nginx_modules.ShmDict.Platform.{Platform, Tree, sentinel, branch}
use nginx_modules.ShmDict.Node.{Node, key_bytes}

module _ {P : Type 0} (p : Platform P) (heap : ℕ → Node) where
  -- The loop goes down to a free place: right of what is not above the new node.
  unfoldable pub insert_value : Tree → ℕ → Tree
  insert_value sentinel a = branch sentinel a sentinel
  insert_value (branch l b r) a = elim (compare (heap a).key (heap b).key) [
    | Ordering.lt ↦ branch (insert_value l a) b r
    | Ordering.gt ↦ branch l b (insert_value r a)
    | Ordering.eq ↦ elim (p.memn2cmp (key_bytes (heap a)) (key_bytes (heap b))) [
      | Ordering.lt ↦ branch (insert_value l a) b r
      | _ ↦ branch l b (insert_value r a)
    ]
  ]

  -- The `while` loop of the lookup.
  unfoldable pub find_node : ℕ → List ℕ → Tree → Option ℕ
  find_node hash kdata sentinel = none
  find_node hash kdata (branch l a r) = elim (compare hash (heap a).key) [
    | Ordering.lt ↦ find_node hash kdata l
    | Ordering.gt ↦ find_node hash kdata r
    | Ordering.eq ↦ elim (p.memn2cmp kdata (key_bytes (heap a))) [
      | Ordering.eq ↦ some a
      | Ordering.lt ↦ find_node hash kdata l
      | Ordering.gt ↦ find_node hash kdata r
    ]
  ]

-- The node that the loop of ngx_shm_dict_count is at next: at a node with no child it stays.
unfoldable pub count_next : Tree → Tree
count_next sentinel = sentinel
count_next (branch sentinel a sentinel) = branch sentinel a sentinel
count_next (branch sentinel a (branch l b r)) = branch l b r
count_next (branch (branch l b r) a t) = branch l b r

-- ngx_shm_dict_count on fuel; `none` means that the fuel ran out.
unfoldable pub count_loop : ℕ → Tree → ℕ → Option ℕ
unfolding count_next
count_loop zero node count = none
count_loop (suc fuel) node count = elim node [
  | sentinel ↦ some count
  | branch l a r ↦ count_loop fuel (count_next (branch l a r)) (count + 1)
]
