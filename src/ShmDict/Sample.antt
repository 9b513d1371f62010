-- ===== src/ShmDict/Sample.antt =====
-- A platform that meets the laws: a pool with a limit, a tree that is not balanced, and the
-- lexicographic order of bytes. It shows that the hypotheses can hold, and runs the tests.
use nginx_modules.Base.{
  ℕ, suc, ◌+◌, ◌-◌, ◌≡◌, refl, ap, memcmp, memcmp-eq, memcmp_refl, memcmp-swap, memcmp_trans, Bool,
  false, ◌&&◌, Option, none, some, List, [], ◌∷◌, get_last?, count, erase, ltb, if◌then◌else◌, ◌==◌,
  arith,
}
use nginx_modules.ShmDict.Platform.{Platform, IsPlatform, Tree, sentinel, branch, inorder}
use nginx_modules.ShmDict.Node.{Node}
use nginx_modules.ShmDict.Zone.{Dict}

-- The blocks that are left, the next address, and the addresses in use.
pub record Pool : Type 0 where
  pub left : ℕ
  pub next : ℕ
  pub used : List ℕ

abbrev pub drop_all : ℕ → List ℕ → List ℕ
drop_all a [] = []
drop_all a (x ∷ xs) = let rest = drop_all a xs in if x == a then rest else x ∷ rest

count-drop_all :
    (a b : ℕ) (xs : List ℕ) → count b (drop_all a xs) ≡ (if a == b then 0 else count b xs)
count-drop_all a b [] = ground arith
count-drop_all a b (x ∷ xs) = ground (arith, count-drop_all a b xs)

abbrev pub in_use : Pool → ℕ → Bool
in_use s a = ltb a s.next && ltb 0 (count a s.used)

abbrev pub take_block : Pool → ℕ → Option (ℕ × Pool)
take_block s n =
    if s.left == 0
    then none
    else some (s.next, record { left = s.left - 1; next = suc s.next; used = s.next ∷ s.used })

abbrev pub give_back : Pool → ℕ → Pool
give_back s a = record s { left = s.left + 1; used = drop_all a s.used }

abbrev pub place : (Tree → ℕ → Tree) → Tree → ℕ → Tree
place f sentinel a = branch sentinel a sentinel
place f (branch l b r) a = f (branch l b r) a

abbrev pub spine : List ℕ → Tree
spine [] = sentinel
spine (a ∷ rest) = branch sentinel a (spine rest)

inorder-spine : (xs : List ℕ) → inorder (spine xs) ≡ xs
inorder-spine [] = refl
inorder-spine (a ∷ rest) = ap (◌∷◌ a) (inorder-spine rest)

abbrev pub checksum : List ℕ → ℕ
checksum [] = 0
checksum (x ∷ xs) = x + checksum xs

abbrev pub platform : Platform Pool
platform = record {
  slab_alloc = take_block;
  slab_free = give_back;
  is_live = in_use;
  rbtree_insert = place;
  rbtree_delete = λ t a. spine (erase a (inorder t));
  queue_insert_head = λ q a. a ∷ q;
  queue_remove = λ q a. erase a q;
  queue_last = get_last?;
  memn2cmp = memcmp;
  crc32_short = checksum;
  header_size = 69;
  add_past_end = λ m a i. (m, i);
}

pub platform-IsPlatform : IsPlatform platform
platform-IsPlatform = record {
  alloc_fresh = λ s s' n a e. ground arith;
  alloc_live = λ s s' n a b e. ground arith;
  free_live = λ s a b. ground (arith, count-drop_all a b s.used);
  insert_inorder = λ f l r b a. refl;
  insert_empty = λ f a. refl;
  delete_inorder = λ t a. inorder-spine (erase a (inorder t));
  insert_head_lem = λ q a. refl;
  remove_lem = λ q a. refl;
  last_lem = λ q. refl;
  memn2cmp_eq = memcmp-eq;
  memn2cmp_refl = memcmp_refl;
  memn2cmp_swap = memcmp-swap;
  memn2cmp_trans = memcmp_trans;
}

-- A zone with room for some nodes, as ngx_shm_dict_init_zone leaves it.
abbrev pub blank : Node
blank = record {
  key = 0;
  key_len = 0;
  expires = 0;
  value_len = 0;
  user_flags = 0;
  value_type = 0;
  bytes = [];
}

abbrev pub zone_of : ℕ → Dict Pool
zone_of n = record {
  heap = λ a. blank;
  root = sentinel;
  queue = [];
  shpool = record { left = n; next = 1; used = [] };
  locked = false;
}
