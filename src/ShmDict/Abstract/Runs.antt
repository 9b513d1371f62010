-- ===== src/ShmDict/Abstract/Runs.antt =====
-- Sequences of calls of the dictionary's operations as runs of the map: the zone implements the
-- contract.
use nginx_modules.Base.{ℕ, ◌≡◌, refl, ap, false, Option, List, [], ◌∷◌}
use nginx_modules.ShmDict.Platform.{Platform, IsPlatform}
use nginx_modules.ShmDict.Node.{Time, now_ms, deadline, shm_int64}
use nginx_modules.ShmDict.Zone.{Dict, Rc, shm_ok}
use nginx_modules.ShmDict.Access.{Reply, to_bytes, get, delete, set_exptime, set, inc_int}
use nginx_modules.ShmDict.Expire.{flush_expired}
use nginx_modules.ShmDict.Valid.{IsValid, IsCounted}
use nginx_modules.ShmDict.Traces.{
  Call, getting, deleting, setting, setting_exptime, incrementing, flushing, flushing_all, FitsCall,
  Result, found, returned, number, freed, result, called,
}
use nginx_modules.ShmDict.Abstract.{
  Entry, Map, stored, IsTimely, Gets, Deletes, Extends, Sets, Incs, Flushes, FlushesAll,
}
use nginx_modules.ShmDict.Abstract.Views.{IsSingle}
use nginx_modules.ShmDict.Abstract.Reads.{get-Gets, delete-Deletes, set_exptime-Extends}
use nginx_modules.ShmDict.Abstract.Inserts.{new_entry}
use nginx_modules.ShmDict.Abstract.Writes.{set-Sets}
use nginx_modules.ShmDict.Abstract.Sums.{inc_int-Incs}
use nginx_modules.ShmDict.Abstract.Flushes.{flush_expired-Flushes, flush_all-FlushesAll}

-- The entry that ngx_shm_dict_inc_int sets.
abbrev pub first_entry : ℕ → ℕ → Time → Entry
first_entry i exptime tp =
    new_entry (record { is_null = false; bytes = to_bytes 8 i }) shm_int64 exptime 0 tp

-- What a call may do to the map, and return.
abbrev pub Allows : Map → Call → Time → Result → Map → Type 0
Allows m (getting key) tp r m' = (o : Option Reply) × (r ≡ found o) × Gets (now_ms tp) key m m' o
Allows m (deleting key) tp r m' = (rc : Rc) × (r ≡ returned rc) × Deletes (now_ms tp) key m m' rc
Allows m (setting key value value_type exptime user_flags) tp r m' =
    (rc : Rc) × (r ≡ returned rc)
    × Sets (now_ms tp) key (new_entry value value_type exptime user_flags tp) m m' rc
Allows m (setting_exptime key exptime) tp r m' =
    (rc : Rc) × (r ≡ returned rc) × Extends (now_ms tp) (deadline tp exptime) key m m' rc
Allows m (incrementing key i exptime) tp r m' =
    (o : Option ℕ) × (r ≡ number o) × Incs (now_ms tp) i key (first_entry i exptime tp) m m' o
Allows m (flushing attempts) tp r m' = (n : ℕ) × (r ≡ freed n) × Flushes attempts (now_ms tp) m m'
Allows m flushing_all tp r m' = (r ≡ returned shm_ok) × FlushesAll m m'

-- The map through a sequence of calls, with what each of them returns.
pub data Runs : Map → List (Call × Time) → List Result → Map → Type 0 where
  idle : {m : Map} → Runs m [] [] m
  step :
      {m m1 m' : Map} {c : Call} {tp : Time} {r : Result} {cs : List (Call × Time)}
      {rs : List Result}
      → Allows m c tp r m1
      → Runs m1 cs rs m'
      → Runs m ((c, tp) ∷ cs) (r ∷ rs) m'

module _ {P : Type 0} (p : Platform P) where
  -- A call that writes a key finds no entry whose expiry time is over.
  abbrev pub TimelyCall : Dict P → Call → Time → Type 0
  TimelyCall d (setting key value value_type exptime user_flags) tp =
      IsTimely (now_ms tp) (stored p d key)
  TimelyCall d (incrementing key i exptime) tp = IsTimely (now_ms tp) (stored p d key)
  TimelyCall d _ tp = Unit {0}

  abbrev pub TimelyCalls : Dict P → List (Call × Time) → Type 0
  TimelyCalls d [] = Unit {0}
  TimelyCalls d ((c, tp) ∷ cs) = TimelyCall d c tp × TimelyCalls (called p d c tp) cs

  module _ (laws : IsPlatform p) where
    pub called-Allows :
        (d : Dict P) (c : Call) (tp : Time)
        → FitsCall c
        → IsValid p d
        → IsCounted d
        → IsSingle p d
        → TimelyCall d c tp
        → Allows (stored p d) c tp (result p d c tp) (stored p (called p d c tp))
          × IsSingle p (called p d c tp)
    called-Allows d (getting key) tp f v w one t =
        let (s, one') = get-Gets p laws d key tp v one in (((get p d key tp).1, refl, s), one')
    called-Allows d (deleting key) tp f v w one t =
        let (s, one') = delete-Deletes p laws d key tp v one in
        (((delete p d key tp).1, refl, s), one')
    called-Allows d (setting key value value_type exptime user_flags) tp f v w one t =
        let (s, one') = set-Sets p laws d key value value_type exptime user_flags tp f.0 v one t in
        (((set p d key value value_type exptime user_flags tp).1, refl, s), one')
    called-Allows d (setting_exptime key exptime) tp f v w one t =
        let (s, one') = set_exptime-Extends p laws d key exptime tp v one in
        (((set_exptime p d key exptime tp).1, refl, s), one')
    called-Allows d (incrementing key i exptime) tp f v w one t =
        let (s, one') = inc_int-Incs p laws d key i exptime tp v w one t in
        (((inc_int p d key i exptime tp).1, refl, s), one')
    called-Allows d (flushing attempts) tp f v w one t =
        let (s, one') = flush_expired-Flushes p laws d attempts tp v one in
        (((flush_expired p d attempts tp).1, refl, s), one')
    called-Allows d flushing_all tp f v w one t =
        let (s, one', rc) = flush_all-FlushesAll p laws d tp v one in ((ap returned rc, s), one')
