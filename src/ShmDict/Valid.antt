-- ===== src/ShmDict/Valid.antt =====
-- The invariant of a zone.
pub mod Steps
pub mod Parts
pub mod Operations
pub mod Counter
use nginx_modules.Base.{ℕ, ◌+◌, ◌≤◌, ◌<◌, ◌≡◌, true, length, count}
use nginx_modules.ShmDict.Platform.{Platform, inorder}
use nginx_modules.ShmDict.Node.{Node, sort_key, key_bytes, shm_int64}
use nginx_modules.ShmDict.Order.{IsSorted}
use nginx_modules.ShmDict.Zone.{Dict, crc32}

module _ {P : Type 0} (p : Platform P) where
  -- A node holds the bytes of its key and its value, and is filed under the hash of its key.
  pub record IsFilled (sd : Node) : Type 0 where
    pub hashed : sd.key ≡ crc32 p (key_bytes sd)
    pub sized : length sd.bytes ≡ sd.key_len + sd.value_len
    pub short : sd.key_len ≤ 65535

  -- The queue and the tree hold the same nodes, each once; they are in use in the pool, filled,
  -- and the tree is sorted by their keys.
  pub record IsValid (d : Dict P) : Type 0 where
    pub same : (a : ℕ) → count a d.queue ≡ count a (inorder d.root)
    pub once : (a : ℕ) → count a d.queue ≤ 1
    pub live : (a : ℕ) → 0 < count a d.queue → p.is_live d.shpool a ≡ true
    pub filled : (a : ℕ) → 0 < count a d.queue → IsFilled (d.heap a)
    pub sorted : IsSorted p (λ a. sort_key (d.heap a)) (inorder d.root)

-- An entry of the integer type has the eight bytes of an `int64_t`.
abbrev pub IsWhole : Node → Type 0
IsWhole sd = sd.value_type ≡ shm_int64 → 8 ≤ sd.value_len

abbrev pub IsCounted : {P : Type 0} → Dict P → Type 0
IsCounted d = (a : ℕ) → 0 < count a d.queue → IsWhole (d.heap a)
