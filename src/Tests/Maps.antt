-- ===== src/Tests/Maps.antt =====
-- The dictionary as a map at work on a small pool, and the theorems about it at concrete inputs.
use nginx_modules.Base.{ℕ, ◌≡◌, ◌⊎◌, refl, true, false, some, none, List, [], ◌∷◌, arith}
use nginx_modules.ShmDict.Node.{
  Str, Time, now_ms, deadline, ms_negative, ms_positive, is_expired, is_kept, is_due, remaining,
}
use nginx_modules.ShmDict.Rbtree.{insert_value, find_node}
use nginx_modules.ShmDict.Zone.{Dict, first_word, crc32, touch, unlink, store, lookup}
use nginx_modules.ShmDict.Expire.{
  expire_loop, expire, flush_loop, flush_queue, flush_expired, set_expired, flush_all,
}
use nginx_modules.ShmDict.Access.{
  Reply, bad_key, int_size, to_bytes, of_bytes, new_node, alloc_loop, alloc_node, link, insert_at,
  insert, enter, get_found, get, delete_found, delete, set_exptime_found, set_exptime, overwrite,
  insert_unlock, set_found, set, add_and_fetch, inc_found, inc_int,
}
use nginx_modules.ShmDict.Valid.{IsValid, IsCounted}
use nginx_modules.ShmDict.Valid.Operations.{set-IsValid}
use nginx_modules.ShmDict.Valid.Counter.{inc_int-IsValid}
use nginx_modules.ShmDict.Traces.{Call, deleting, setting, incrementing, flushing, flushing_all}
use nginx_modules.ShmDict.Abstract.{stored, Gets, Incs, Flushes}
use nginx_modules.ShmDict.Abstract.Views.{IsSingle}
use nginx_modules.ShmDict.Abstract.Reads.{get-Gets}
use nginx_modules.ShmDict.Abstract.Inserts.{new_entry}
use nginx_modules.ShmDict.Abstract.Writes.{set-Sets}
use nginx_modules.ShmDict.Contents.Integers.{set-IsCounted, get-IsCounted, inc_int-IsCounted}
use nginx_modules.ShmDict.Abstract.Sums.{summed_node, inc_int-Incs}
use nginx_modules.ShmDict.Abstract.Flushes.{flush_expired-Flushes}
use nginx_modules.ShmDict.Abstract.Runs.{first_entry, Runs}
use nginx_modules.ShmDict.Abstract.Races.{add_and_fetch-delete}
use nginx_modules.ShmDict.Contents.Room.{Exhausted, set-Exhausted}
use nginx_modules.ShmDict.Sample.{Pool, platform, platform-IsPlatform, zone_of}

zone : Unit {0}
unfolding now_ms deadline ms_negative ms_positive is_expired is_kept is_due remaining insert_value
    find_node first_word crc32 touch unlink store lookup expire_loop expire flush_loop flush_queue
    flush_expired set_expired flush_all int_size to_bytes of_bytes new_node alloc_loop alloc_node
    link insert_at insert enter get_found get delete_found delete set_exptime_found set_exptime
    overwrite insert_unlock set_found set add_and_fetch inc_found inc_int
zone = tt

abbrev at : ℕ → Time
at n = record { sec = n; msec = 0 }

abbrev text : List ℕ → Str
text bytes = record { is_null = false; bytes = bytes }

abbrev color : List ℕ
color = 99 ∷ 111 ∷ []

abbrev hits : List ℕ
hits = 104 ∷ 105 ∷ []

abbrev red : List ℕ
red = 114 ∷ 101 ∷ 100 ∷ []

-- A zone with an entry that lasts ten seconds.
abbrev painted : Dict Pool
painted = (set platform (zone_of 2) color (text red) 4 10 7 (at 100)).0

empty-IsValid : (n : ℕ) → IsValid platform (zone_of n)
empty-IsValid n = record {
  same = λ a. refl;
  once = λ a. omega arith;
  live = λ a h. absurd (omega arith);
  filled = λ a h. absurd (omega arith);
  sorted = tt;
}

empty-IsSingle : (n : ℕ) → IsSingle platform (zone_of n)
empty-IsSingle n key a b h k = absurd (omega (arith, h.0))

painted-IsValid : IsValid platform painted
painted-IsValid =
    set-IsValid platform platform-IsPlatform (zone_of 2) color (text red) 4 10 7 (at 100)
      (omega arith) (empty-IsValid 2)

painted-IsSingle : IsSingle platform painted
painted-IsSingle =
    (set-Sets platform platform-IsPlatform (zone_of 2) color (text red) 4 10 7 (at 100)
      (omega arith) (empty-IsValid 2) (empty-IsSingle 2) (unfold zone in tt)).1

empty-IsCounted : (n : ℕ) → IsCounted (zone_of n)
empty-IsCounted n a h = absurd (omega (arith, h))

painted-IsCounted : IsCounted painted
painted-IsCounted =
    set-IsCounted platform platform-IsPlatform (zone_of 2) color (text red) 4 10 7 (at 100)
      (omega arith) (λ t. omega (arith, t)) (empty-IsValid 2) (empty-IsCounted 2)

painted_lem : stored platform painted color ≡ some (new_entry (text red) 4 10 7 (at 100))
unfolding zone
painted_lem = refl

get-Gets_example :
    let (d, o) = get platform painted color (at 105) in
    Gets (now_ms (at 105)) color (stored platform painted) (stored platform d) o
    × IsSingle platform d
get-Gets_example =
    get-Gets platform platform-IsPlatform painted color (at 105) painted-IsValid painted-IsSingle

inc_int-Incs_example :
    let (d, o) = inc_int platform painted hits 3 0 (at 105) in
    Incs
      (now_ms (at 105))
      3
      hits
      (first_entry 3 0 (at 105))
      (stored platform painted)
      (stored platform d)
      o
    × IsSingle platform d
inc_int-Incs_example =
    inc_int-Incs platform platform-IsPlatform painted hits 3 0 (at 105) painted-IsValid
      painted-IsCounted painted-IsSingle (unfold zone in tt)

flush_expired-Flushes_example :
    let (d, freed) = flush_expired platform painted 0 (at 111) in
    Flushes 0 (now_ms (at 111)) (stored platform painted) (stored platform d) × IsSingle platform d
flush_expired-Flushes_example =
    flush_expired-Flushes platform platform-IsPlatform painted 0 (at 111) painted-IsValid
      painted-IsSingle

abbrev visits : List (Call × Time)
visits =
    (setting color (text red) 4 10 7, at 100)
    ∷ (incrementing hits 1 0, at 101)
    ∷ (deleting color, at 102)
    ∷ (setting color (text red) 4 10 7, at 103)
    ∷ (flushing_all, at 104)
    ∷ []

abbrev started : Dict Pool
started = record (zone_of 1) { shpool = record { left = 1; next = 3; used = 2 ∷ 1 ∷ [] } }

-- There is room for one node only: the second key evicts the first one.
abbrev two_keys : List (Call × Time)
two_keys =
    (setting color (text red) 4 0 7, at 100)
    ∷ (incrementing hits 1 0, at 101)
    ∷ (incrementing hits 2 0, at 102)
    ∷ (flushing 0, at 103)
    ∷ []

-- A pool with no block at all.
set-Exhausted_example :
    (bad_key color ≡ true)
    ⊎ Exhausted platform 30
        (zone_of 0)
        (set platform (zone_of 0) color (text red) 4 10 7 (at 100)).0
set-Exhausted_example =
    set-Exhausted platform platform-IsPlatform (zone_of 0) color (text red) 4 10 7 (at 100)
      (empty-IsValid 0) (unfold zone in refl)

-- A zone with a counter that stands at 3.
abbrev counted : Dict Pool
counted = (inc_int platform (zone_of 2) hits 3 0 (at 105)).0

abbrev reply : Reply
reply = record {
  node = 1;
  value = 3 ∷ 0 ∷ 0 ∷ 0 ∷ 0 ∷ 0 ∷ 0 ∷ 0 ∷ [];
  value_type = 2;
  exptime = 0;
  user_flags = 0;
}

counted-IsValid : IsValid platform counted
counted-IsValid =
    inc_int-IsValid platform platform-IsPlatform (zone_of 2) hits 3 0 (at 105) (empty-IsValid 2) (
      get-IsCounted platform platform-IsPlatform (zone_of 2) hits (at 105) (empty-IsValid 2)
        (empty-IsCounted 2))

counted-IsSingle : IsSingle platform counted
counted-IsSingle =
    (inc_int-Incs platform platform-IsPlatform (zone_of 2) hits 3 0 (at 105) (empty-IsValid 2)
      (empty-IsCounted 2) (empty-IsSingle 2) (unfold zone in tt)).1

counted-IsCounted : IsCounted counted
counted-IsCounted =
    inc_int-IsCounted platform platform-IsPlatform (zone_of 2) hits 3 0 (at 105) (empty-IsValid 2)
      (empty-IsCounted 2)

-- The second addition comes when the key has gone.
add_and_fetch-delete_example :
    let d1 = (get platform counted hits (at 106)).0 in
    let d2 = (delete platform d1 hits (at 107)).0 in
    let d3 = (add_and_fetch platform d2 1 4).0 in
    (platform.is_live d2.shpool 1 ≡ false)
    × (d3.heap 1 ≡ summed_node 4 (d1.heap 1))
    × ((k : List ℕ) → stored platform d3 k ≡ stored platform d2 k)
    × (stored platform d3 hits ≡ none)
add_and_fetch-delete_example =
    add_and_fetch-delete platform platform-IsPlatform counted hits 4 (at 106) (at 107) reply
      counted-IsValid counted-IsCounted counted-IsSingle (unfold zone in refl) refl
      (unfold zone in refl)
