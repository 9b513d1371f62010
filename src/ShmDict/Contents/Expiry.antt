-- ===== src/ShmDict/Contents/Expiry.antt =====
-- When a stored node expires: the arithmetic of ngx_shm_dict_insert, ngx_shm_dict_lookup and
-- ngx_shm_dict_expire.
use nginx_modules.Base.{ℕ, ◌+◌, ◌-◌, ◌*◌, ◌^◌, ◌≤◌, ◌<◌, ◌≡◌, ◌↔◌, true, arith}
use nginx_modules.ShmDict.Node.{Node, Time, now_ms, deadline, is_expired, remaining}

-- Where the product `exptime * 1000` fits 32 bits and the times 62, a lookup takes a node that
-- was stored for `exptime` seconds as expired exactly after that time has passed, and never if
-- `exptime` is 0.
pub is_expired-deadline :
    (sd : Node) (tp tp' : Time) (exptime : ℕ)
    → sd.expires ≡ deadline tp exptime
    → exptime * 1000 < 2 ^ 32
    → now_ms tp < 2 ^ 62
    → now_ms tp' < 2 ^ 62
    → (is_expired (now_ms tp') sd ≡ true)
      ↔ ((0 < exptime) × (now_ms tp + exptime * 1000 < now_ms tp'))
unfolding deadline is_expired
is_expired-deadline sd tp tp' exptime e f g h = ground arith

-- Where the product `exptime * 1000` does not fit 32 bits, and the time fits 62, the expiry time
-- that is stored lies before the one that was asked for.
pub deadline_wraps :
    (tp : Time) (exptime : ℕ)
    → exptime < 2 ^ 32
    → 2 ^ 32 ≤ exptime * 1000
    → now_ms tp < 2 ^ 62
    → deadline tp exptime < now_ms tp + exptime * 1000
unfolding deadline
deadline_wraps tp exptime f g h = ground arith

-- Until a node that was stored for `exptime` seconds expires, `get` reports the whole seconds
-- that are left, rounded down, and no more than `exptime`; the product `exptime * 1000` fits 32
-- bits and the time of storing 62.
pub remaining-deadline :
    (sd : Node) (tp tp' : Time) (exptime : ℕ)
    → sd.expires ≡ deadline tp exptime
    → 0 < exptime
    → exptime * 1000 < 2 ^ 32
    → now_ms tp < 2 ^ 62
    → now_ms tp ≤ now_ms tp'
    → now_ms tp' ≤ now_ms tp + exptime * 1000
    → (remaining (now_ms tp') sd * 1000 ≤ now_ms tp + exptime * 1000 - now_ms tp')
      × (now_ms tp + exptime * 1000 - now_ms tp' < remaining (now_ms tp') sd * 1000 + 1000)
      × (remaining (now_ms tp') sd ≤ exptime)
unfolding deadline remaining
remaining-deadline sd tp tp' exptime e p f g lo hi = ground arith
