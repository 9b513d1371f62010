-- ===== src/ShmDict/Node.antt =====
-- The node of the dictionary and the arithmetic of its expiry time (ngx_shm_dict.h and
-- ngx_shm_dict.c): 64-bit and 32-bit unsigned numbers with their wrap-around written out.
use nginx_modules.Base.{
  ℕ, ◌+◌, ◌-◌, ◌*◌, ◌/◌, ◌%◌, ◌^◌, Bool, true, false, not, ◌&&◌, List, take, drop, ltb, leb, ◌==◌,
  if◌then◌else◌,
}

-- `ngx_str_t`; a value may have a null `data`.
pub record Str : Type 0 where
  pub is_null : Bool
  pub bytes : List ℕ

-- `ngx_shm_dict_node_t` with the `key` of its tree node; `bytes` is `data`, the key and the value.
pub record Node : Type 0 where
  pub key : ℕ
  pub key_len : ℕ
  pub expires : ℕ
  pub value_len : ℕ
  pub user_flags : ℕ
  pub value_type : ℕ
  pub bytes : List ℕ

-- `ngx_time_t`
pub record Time : Type 0 where
  pub sec : ℕ
  pub msec : ℕ

abbrev pub shm_binary : ℕ
shm_binary = 0

abbrev pub shm_int64 : ℕ
shm_int64 = 2

abbrev pub shm_string : ℕ
shm_string = 4

-- `(uint64_t) tp->sec * 1000 + tp->msec`
unfoldable pub now_ms : Time → ℕ
now_ms tp = (tp.sec * 1000 + tp.msec) % 2 ^ 64

-- The expiry time that is stored: `exptime * 1000` is a product of 32-bit numbers.
unfoldable pub deadline : Time → ℕ → ℕ
unfolding now_ms
deadline tp exptime = if ltb 0 exptime then (now_ms tp + (exptime * 1000) % 2 ^ 32) % 2 ^ 64 else 0

-- `ms = sd->expires - now` as an `int64_t`: the tests `ms < 0` and `ms > 0`.
unfoldable pub ms_negative : ℕ → ℕ → Bool
ms_negative expires now = leb (2 ^ 63) ((expires + 2 ^ 64 - now) % 2 ^ 64)

unfoldable pub ms_positive : ℕ → ℕ → Bool
ms_positive expires now = let ms = (expires + 2 ^ 64 - now) % 2 ^ 64 in ltb 0 ms && ltb ms (2 ^ 63)

-- What a lookup reports as expired (`NGX_DONE`).
unfoldable pub is_expired : ℕ → Node → Bool
unfolding ms_negative
is_expired now sd = if sd.expires == 0 then false else ms_negative sd.expires now

-- What `ngx_shm_dict_expire` keeps at the tail of the queue.
unfoldable pub is_kept : ℕ → Node → Bool
unfolding ms_positive
is_kept now sd = if sd.expires == 0 then true else ms_positive sd.expires now

-- What `ngx_shm_dict_flush_expired` removes.
unfoldable pub is_due : ℕ → Node → Bool
is_due now sd = not (sd.expires == 0) && leb sd.expires now

-- The seconds left: `(sd->expires - now) / 1000` as a `uint32_t`, and 0 for no expiry.
unfoldable pub remaining : ℕ → Node → ℕ
remaining now sd =
    if sd.expires == 0 then 0 else ((sd.expires + 2 ^ 64 - now) % 2 ^ 64 / 1000) % 2 ^ 32

-- The key's bytes, and what the tree is ordered by.
abbrev pub key_bytes : Node → List ℕ
key_bytes sd = take sd.key_len sd.bytes

abbrev pub sort_key : Node → ℕ × List ℕ
sort_key sd = (sd.key, key_bytes sd)

-- `data->data = sd->data + sd->key_len` and `data->len = sd->value_len`
abbrev pub value_bytes : Node → List ℕ
value_bytes sd = take sd.value_len (drop sd.key_len sd.bytes)

-- A heap of nodes by address.
abbrev pub update : (ℕ → Node) → ℕ → Node → ℕ → Node
update heap a sd b = if a == b then sd else heap b
