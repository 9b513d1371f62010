-- ===== src/ShmDict/Handlers.antt =====
-- module_shm_dict/ngx_shm_dict_handler.c: the dictionary as the plugins' interface calls it, and the
-- zones by name.
use nginx_modules.Base.{
  ℕ, suc, ◌+◌, ◌-◌, ◌^◌, ◌≡◌, ◌⊎◌, inl, inr, refl, ap, ltb, ◌==◌, ◌&&◌, if◌then◌else◌, Bool, true,
  false, Bool-cases, Option, none, some, List, [], ◌∷◌, ◌++◌, length, All, arith,
}
use nginx_modules.ShmDict.Platform.{Platform, IsPlatform}
use nginx_modules.ShmDict.Node.{Str, Time, now_ms, shm_string, is_kept}
use nginx_modules.ShmDict.Zone.{Dict, Rc, shm_ok, crc32}
use nginx_modules.ShmDict.Expire.{flush_all}
use nginx_modules.ShmDict.Access.{
  Reply, str_set_int32, str_set_int64, str_set_double, new_node, get, set, set_exptime, delete,
  inc_int,
}
use nginx_modules.ShmDict.Valid.{IsValid}
use nginx_modules.ShmDict.Valid.Parts.{FitsValue}
use nginx_modules.ShmDict.Contents.Reading.{AtMostOne}
use nginx_modules.ShmDict.Contents.Writing.{Current, get-set}

-- An `int` where an `int64_t` is expected, as a 64-bit pattern.
unfoldable pub int64_of_int : ℕ → ℕ
int64_of_int n = if ltb n (2 ^ 31) then n else n + 2 ^ 64 - 2 ^ 32

-- The value and the time left, where ngx_shm_dict_get is a success.
unfoldable pub read_reply : Option Reply → Option (List ℕ × ℕ)
read_reply none = none
read_reply (some r) = some (r.value, r.exptime)

module _ {P : Type 0} (p : Platform P) where
  unfoldable pub handler_set : Dict P → List ℕ → Str → ℕ → Time → Dict P × Rc
  handler_set d key value exptime tp = set p d key value shm_string exptime 0 tp

  unfoldable pub handler_set_exptime : Dict P → List ℕ → ℕ → Time → Dict P × Rc
  handler_set_exptime d key exptime tp = set_exptime p d key exptime tp

  -- Where ngx_shm_dict_get fails the time that is handed out is not initialised.
  unfoldable pub handler_get : Dict P → List ℕ → Time → Dict P × Option (List ℕ × ℕ)
  unfolding read_reply
  handler_get d key tp = let (d', r) = get p d key tp in (d', read_reply r)

  unfoldable pub handler_delete : Dict P → List ℕ → Time → Dict P × Rc
  handler_delete d key tp = delete p d key tp

  -- The expiry time is an argument that is only logged.
  unfoldable pub handler_incr_int : Dict P → List ℕ → ℕ → ℕ → Time → Dict P × Option ℕ
  unfolding int64_of_int
  handler_incr_int d key count exptime tp = inc_int p d key (int64_of_int count) 0 tp

  -- ngx_shm_dict_handler_crc32
  unfoldable pub handler_crc32 : List ℕ → ℕ
  unfolding crc32
  handler_crc32 key = crc32 p key

  unfoldable pub handler_flush_all : Dict P → Time → Dict P × Rc
  handler_flush_all d tp = flush_all p d tp

-- ngx_str_handler_set_int32, ngx_str_handler_set_int64 and ngx_str_handler_set_double
unfoldable pub handler_set_int32 : ℕ → Str
unfolding str_set_int32
handler_set_int32 x = str_set_int32 x

unfoldable pub handler_set_int64 : ℕ → Str
unfolding str_set_int64
handler_set_int64 x = str_set_int64 x

unfoldable pub handler_set_double : ℕ → Str
unfolding str_set_double
handler_set_double x = str_set_double x

-- The loop of ngx_http_get_shm_zone, where `same` tells whether ngx_strcmp is 0.
unfoldable pub zone_loop {ℓ} :
    {Z : Type ℓ} → (List ℕ → List ℕ → Bool) → ℕ → List ℕ → List (List ℕ × Z) → Option Z
zone_loop same i name [] = none
zone_loop same i name ((n, zone) ∷ next) =
    let rest = zone_loop same (suc i) name next in
    if length name == 0 && i == 0 then some zone else (if same name n then some zone else rest)

-- ngx_http_get_shm_zone; g_shm_dict_list may be null.
unfoldable pub get_shm_zone {ℓ} :
    {Z : Type ℓ} → (List ℕ → List ℕ → Bool) → List ℕ → Option (List (List ℕ × Z)) → Option Z
unfolding zone_loop
get_shm_zone same name none = none
get_shm_zone same name (some zones) = zone_loop same 0 name zones

module _ {P : Type 0} (p : Platform P) (laws : IsPlatform p) where
  reply-value :
      (o : Option Reply) (value : List ℕ)
      → (r : Reply) × (o ≡ some r) × (r.value ≡ value)
      → (left : ℕ) × (read_reply o ≡ some (value, left))
  unfolding read_reply
  reply-value o value (r, e, v) = (r.exptime, rw (e, v) refl)

  -- In a valid zone with at most one node for the key, and no expired one, a value that
  -- handler_set stored with success is what handler_get returns until its expiry time has come; the
  -- value is shorter than 2^32 bytes.
  pub handler_get-handler_set :
      (d : Dict P) (key : List ℕ) (value : Str) (exptime : ℕ) (tp tp' : Time)
      → IsValid p d
      → AtMostOne p d key
      → Current p laws d key (now_ms tp)
      → FitsValue value
      → (handler_set p d key value exptime tp).1 ≡ shm_ok
      → is_kept (now_ms tp') (new_node key value shm_string exptime 0 (crc32 p key) tp) ≡ true
      → (left : ℕ) × ((handler_get p (handler_set p d key value exptime tp).0 key tp').1
          ≡ some (value.bytes, left))
  unfolding handler_get handler_set
  handler_get-handler_set d key value exptime tp tp' v o c f h k =
      let (r, e, w, t, u) = get-set p laws d key value shm_string exptime 0 tp tp' v o c f h k in
      reply-value (get p (set p d key value shm_string exptime 0 tp).0 key tp').1 value.bytes
        (r, e, w)

-- The zones that the loop passed over have another name.
zone_loop-some {ℓ} :
    {Z : Type ℓ} (same : List ℕ → List ℕ → Bool) (i : ℕ) (name : List ℕ) (zones : List (List ℕ × Z))
    (z : Z)
    → ((length name == 0) && (i == 0)) ≡ false
    → zone_loop same i name zones ≡ some z
    → (before after : List (List ℕ × Z)) × (n : List ℕ) × (zones ≡ before ++ (n, z) ∷ after)
      × (same name n ≡ true)
      × All (λ b. same name b.0 ≡ false) before
unfolding zone_loop
zone_loop-some same i name [] z k h = cc
zone_loop-some same i name ((n, zone) ∷ next) z k h = elim (Bool-cases (same name n)) [
  | inl e ↦ ([], next, n, ground (arith, e, h, k), e, tt)
  | inr e ↦
      let (before, after, n', f, g, a) =
        zone_loop-some same (suc i) name next z (ground arith) (ground (arith, e, h, k)) in
      ((n, zone) ∷ before, after, n', ap (◌∷◌ (n, zone)) f, g, (e, a))
]

-- What ngx_http_get_shm_zone returns is the first zone where the name is empty, and else the first
-- zone for whose name ngx_strcmp is 0.
pub get_shm_zone-some {ℓ} :
    {Z : Type ℓ} (same : List ℕ → List ℕ → Bool) (name : List ℕ) (zones : List (List ℕ × Z)) (z : Z)
    → get_shm_zone same name (some zones) ≡ some z
    → (before after : List (List ℕ × Z)) × (n : List ℕ) × (zones ≡ before ++ (n, z) ∷ after)
      × (((name ≡ []) × (before ≡ []))
          ⊎ ((same name n ≡ true) × All (λ b. same name b.0 ≡ false) before))
unfolding get_shm_zone zone_loop
get_shm_zone-some same [] [] z h = cc
get_shm_zone-some same [] ((n, zone) ∷ next) z h =
    ([], next, n, ground (arith, h), inl (refl, refl))
get_shm_zone-some same (x ∷ name) zones z h =
    let (before, after, n, f, g, a) = zone_loop-some same 0 (x ∷ name) zones z (ground arith) h in
    (before, after, n, f, inr (g, a))
