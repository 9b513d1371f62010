-- ===== src/ShmDict/Platform.antt =====
-- What ngx_shm_dict.c calls of nginx itself: the slab pool, the red-black tree, the queue, the
-- byte comparison and the checksum. They are parameters; the laws are their documented behaviour.
use nginx_modules.Base.{
  ℕ, ◌≡◌, ◌≢◌, swap, Ordering, Bool, true, false, Option, some, List, [], ◌∷◌, ◌++◌, get_last?,
  erase, ◌==◌, if◌then◌else◌,
}
use nginx_modules.ShmDict.Node.{Node}

-- `ngx_rbtree_t` over nodes named by their addresses; `sentinel` is the shared leaf.
pub data Tree : Type 0 where
  sentinel : Tree
  branch : Tree → ℕ → Tree → Tree

abbrev pub inorder : Tree → List ℕ
inorder sentinel = []
inorder (branch l a r) = inorder l ++ a ∷ inorder r

-- What lies behind a node in the shared memory: the nodes, the links of the tree and of the queue,
-- and the pool.
pub record Memory (P : Type 0) : Type 0 where
  pub heap : ℕ → Node
  pub root : Tree
  pub queue : List ℕ
  pub shpool : P

-- A pool of the type `P` is the slab allocator's own state.
pub record Platform (P : Type 0) : Type 0 where
  -- ngx_slab_alloc_locked and ngx_slab_free_locked
  pub slab_alloc : P → ℕ → Option (ℕ × P)
  pub slab_free : P → ℕ → P
  pub is_live : P → ℕ → Bool
  -- ngx_rbtree_insert with the tree's insert callback, and ngx_rbtree_delete
  pub rbtree_insert : (Tree → ℕ → Tree) → Tree → ℕ → Tree
  pub rbtree_delete : Tree → ℕ → Tree
  -- ngx_queue_insert_head, ngx_queue_remove and ngx_queue_last; a queue from its head to its tail
  pub queue_insert_head : List ℕ → ℕ → List ℕ
  pub queue_remove : List ℕ → ℕ → List ℕ
  pub queue_last : List ℕ → Option ℕ
  -- ngx_memn2cmp, whose sign is used, and ngx_crc32_short
  pub memn2cmp : List ℕ → List ℕ → Ordering
  pub crc32_short : List ℕ → ℕ
  -- offsetof(ngx_rbtree_node_t, color) + offsetof(ngx_shm_dict_node_t, data)
  pub header_size : ℕ
  -- `__sync_add_and_fetch` on eight bytes behind a node's key of which the node does not hold all: what
  -- it leaves of the memory, and the sum. C does not define it, and no law says anything of it.
  pub add_past_end : Memory P → ℕ → ℕ → Memory P × ℕ

pub record IsPlatform {P : Type 0} (p : Platform P) : Type 0 where
  -- A block is handed out that was not in use, and it alone becomes live.
  pub alloc_fresh : (s s' : P) (n a : ℕ) → p.slab_alloc s n ≡ some (a, s') → p.is_live s a ≡ false
  pub alloc_live :
      (s s' : P) (n a b : ℕ)
      → p.slab_alloc s n ≡ some (a, s')
      → p.is_live s' b ≡ (if a == b then true else p.is_live s b)
  pub free_live :
      (s : P) (a b : ℕ) → p.is_live (p.slab_free s a) b ≡ (if a == b then false else p.is_live s b)
  -- The callback places a node in a tree that has nodes; rotations keep the order.
  pub insert_inorder :
      (f : Tree → ℕ → Tree) (l r : Tree) (b a : ℕ)
      → inorder (p.rbtree_insert f (branch l b r) a) ≡ inorder (f (branch l b r) a)
  pub insert_empty : (f : Tree → ℕ → Tree) (a : ℕ) → inorder (p.rbtree_insert f sentinel a) ≡ a ∷ []
  pub delete_inorder : (t : Tree) (a : ℕ) → inorder (p.rbtree_delete t a) ≡ erase a (inorder t)
  pub insert_head_lem : (q : List ℕ) (a : ℕ) → p.queue_insert_head q a ≡ a ∷ q
  pub remove_lem : (q : List ℕ) (a : ℕ) → p.queue_remove q a ≡ erase a q
  pub last_lem : (q : List ℕ) → p.queue_last q ≡ get_last? q
  -- ngx_memn2cmp orders the strings of bytes.
  pub memn2cmp_eq : (x y : List ℕ) → p.memn2cmp x y ≡ Ordering.eq → x ≡ y
  pub memn2cmp_refl : (x : List ℕ) → p.memn2cmp x x ≡ Ordering.eq
  pub memn2cmp_swap : (x y : List ℕ) → p.memn2cmp y x ≡ swap (p.memn2cmp x y)
  pub memn2cmp_trans :
      (x y z : List ℕ)
      → p.memn2cmp x y ≢ Ordering.gt
      → p.memn2cmp y z ≢ Ordering.gt
      → p.memn2cmp x z ≢ Ordering.gt
