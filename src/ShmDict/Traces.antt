-- ===== src/ShmDict/Traces.antt =====
-- Sequences of calls of the dictionary's operations, by any of the processes that share the zone.
use nginx_modules.Base.{ℕ, Option, List, [], ◌∷◌}
use nginx_modules.ShmDict.Platform.{Platform, IsPlatform}
use nginx_modules.ShmDict.Node.{Str, Time}
use nginx_modules.ShmDict.Zone.{Dict, Rc}
use nginx_modules.ShmDict.Access.{Reply, get, delete, set_exptime, set, inc_int}
use nginx_modules.ShmDict.Expire.{flush_expired, flush_all}
use nginx_modules.ShmDict.Valid.{IsValid, IsCounted}
use nginx_modules.ShmDict.Valid.Parts.{FitsValue}
use nginx_modules.ShmDict.Valid.Operations.{
  get-IsValid, set-IsValid, delete-IsValid, set_exptime-IsValid, flush_expired-IsValid,
  flush_all-IsValid,
}
use nginx_modules.ShmDict.Valid.Counter.{inc_int-IsValid}
use nginx_modules.ShmDict.Contents.Integers.{
  FitsType, get-IsCounted, delete-IsCounted, set-IsCounted, set_exptime-IsCounted,
  inc_int-IsCounted, flush_expired-IsCounted, flush_all-IsCounted,
}

-- A call of an operation with its arguments but the time.
pub data Call : Type 0 where
  getting deleting : (key : List ℕ) → Call
  setting : (key : List ℕ) (value : Str) (value_type exptime user_flags : ℕ) → Call
  setting_exptime : (key : List ℕ) (exptime : ℕ) → Call
  incrementing : (key : List ℕ) (i exptime : ℕ) → Call
  flushing : (attempts : ℕ) → Call
  flushing_all : Call

-- What a call returns: the reply of get, a code, the number of inc_int, or how many nodes
-- flush_expired has freed.
pub data Result : Type 0 where
  found : Option Reply → Result
  returned : Rc → Result
  number : Option ℕ → Result
  freed : ℕ → Result

-- The values that are set are shorter than 2^32 bytes, and those of the integer type have eight bytes
-- or more.
abbrev pub FitsCall : Call → Type 0
FitsCall (setting key value value_type exptime user_flags) =
    FitsValue value × FitsType value_type value
FitsCall _ = Unit {0}

abbrev pub FitCalls : List (Call × Time) → Type 0
FitCalls [] = Unit {0}
FitCalls ((c, tp) ∷ cs) = FitsCall c × FitCalls cs

module _ {P : Type 0} (p : Platform P) where
  abbrev pub called : Dict P → Call → Time → Dict P
  called d (getting key) tp = (get p d key tp).0
  called d (deleting key) tp = (delete p d key tp).0
  called d (setting key value value_type exptime user_flags) tp =
      (set p d key value value_type exptime user_flags tp).0
  called d (setting_exptime key exptime) tp = (set_exptime p d key exptime tp).0
  called d (incrementing key i exptime) tp = (inc_int p d key i exptime tp).0
  called d (flushing attempts) tp = (flush_expired p d attempts tp).0
  called d flushing_all tp = (flush_all p d tp).0

  -- The calls one after another, each with the time at which it is made.
  abbrev pub all_called : Dict P → List (Call × Time) → Dict P
  all_called d [] = d
  all_called d ((c, tp) ∷ cs) = all_called (called d c tp) cs

  abbrev pub result : Dict P → Call → Time → Result
  result d (getting key) tp = found (get p d key tp).1
  result d (deleting key) tp = returned (delete p d key tp).1
  result d (setting key value value_type exptime user_flags) tp =
      returned (set p d key value value_type exptime user_flags tp).1
  result d (setting_exptime key exptime) tp = returned (set_exptime p d key exptime tp).1
  result d (incrementing key i exptime) tp = number (inc_int p d key i exptime tp).1
  result d (flushing attempts) tp = freed (flush_expired p d attempts tp).1
  result d flushing_all tp = returned (flush_all p d tp).1

  abbrev pub results : Dict P → List (Call × Time) → List Result
  results d [] = []
  results d ((c, tp) ∷ cs) = result d c tp ∷ results (called d c tp) cs

  module _ (laws : IsPlatform p) where
    -- Each integer of the zone keeps its eight bytes.
    pub called-IsValid :
        (d : Dict P) (c : Call) (tp : Time)
        → FitsCall c
        → IsValid p d
        → IsCounted d
        → IsValid p (called d c tp) × IsCounted (called d c tp)
    called-IsValid d (getting key) tp f v w =
        (get-IsValid p laws d key tp v, λ a h. get-IsCounted p laws d key tp v w a h)
    called-IsValid d (deleting key) tp f v w =
        (delete-IsValid p laws d key tp v, λ a h. delete-IsCounted p laws d key tp v w a h)
    called-IsValid d (setting key value value_type exptime user_flags) tp f v w = (
      set-IsValid p laws d key value value_type exptime user_flags tp f.0 v,
      λ a h. set-IsCounted p laws d key value value_type exptime user_flags tp f.0 f.1 v w a h,
    )
    called-IsValid d (setting_exptime key exptime) tp f v w = (
      set_exptime-IsValid p laws d key exptime tp v,
      λ a h. set_exptime-IsCounted p laws d key exptime tp v w a h,
    )
    called-IsValid d (incrementing key i exptime) tp f v w = (
      inc_int-IsValid p laws d key i exptime tp v (get-IsCounted p laws d key tp v w),
      λ a h. inc_int-IsCounted p laws d key i exptime tp v w a h,
    )
    called-IsValid d (flushing attempts) tp f v w = (
      flush_expired-IsValid p laws d attempts tp v,
      λ a h. flush_expired-IsCounted p laws d attempts tp w a h,
    )
    called-IsValid d flushing_all tp f v w =
        (flush_all-IsValid p laws d tp v, λ a h. flush_all-IsCounted p laws d tp v w a h)
