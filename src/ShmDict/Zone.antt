-- ===== src/ShmDict/Zone.antt =====
-- The shared state of a zone (ngx_shm_dict_shctx_t with the pool behind it), ngx_shm_dict_crc32,
-- and the steps that the operations of ngx_shm_dict.c share.
use nginx_modules.Base.{
  ℕ, ◌+◌, ◌*◌, ◌==◌, if◌then◌else◌, Bool, true, false, none, some, List, ◌∷◌, length,
}
use nginx_modules.ShmDict.Platform.{Platform, Tree}
use nginx_modules.ShmDict.Node.{Node, update, is_expired}
use nginx_modules.ShmDict.Rbtree.{find_node}

-- The nodes by address, the root of the tree, the queue from its head, the pool, and whether the
-- pool's mutex is held.
pub record Dict (P : Type 0) : Type 0 where
  pub heap : ℕ → Node
  pub root : Tree
  pub queue : List ℕ
  pub shpool : P
  pub locked : Bool

-- `SHM_OK` and `SHM_ERROR`
pub data Rc : Type 0 where
  shm_ok shm_error : Rc

-- `NGX_OK` and `NGX_DONE` with the node in `*sdp`, and `NGX_DECLINED`
pub data Found : Type 0 where
  hit : ℕ → Found
  done : ℕ → Found
  declined : Found

-- `*(uint32_t *) p`, on a little-endian machine
unfoldable pub first_word : List ℕ → ℕ
first_word (a ∷ b ∷ c ∷ d ∷ rest) = a + 256 * (b + 256 * (c + 256 * d))
first_word _ = 0

module _ {P : Type 0} (p : Platform P) where
  -- `sizeof(ngx_int_t)` is 8.
  unfoldable pub crc32 : List ℕ → ℕ
  unfolding first_word
  crc32 key = if length key == 8 then first_word key else p.crc32_short key

  abbrev pub lock : Dict P → Dict P
  lock d = record d { locked = true }

  abbrev pub unlock : Dict P → Dict P
  unlock d = record d { locked = false }

  -- ngx_queue_remove and ngx_queue_insert_head
  unfoldable pub touch : Dict P → ℕ → Dict P
  touch d a = record d { queue = p.queue_insert_head (p.queue_remove d.queue a) a }

  -- ngx_queue_remove, ngx_rbtree_delete and ngx_slab_free_locked
  unfoldable pub unlink : Dict P → ℕ → Dict P
  unlink d a = record d {
    queue = p.queue_remove d.queue a;
    root = p.rbtree_delete d.root a;
    shpool = p.slab_free d.shpool a;
  }

  -- A write to the node at an address.
  unfoldable pub store : Dict P → ℕ → Node → Dict P
  store d a sd = record d { heap = update d.heap a sd }

  -- ngx_shm_dict_lookup
  unfoldable pub lookup : Dict P → ℕ → List ℕ → ℕ → Dict P × Found
  unfolding touch
  lookup d hash kdata now = elim (find_node p d.heap hash kdata d.root) [
    | none ↦ (d, declined)
    | some a ↦ (touch d a, if is_expired now (d.heap a) then done a else hit a)
  ]
