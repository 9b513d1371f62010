-- ===== src/Tests/Zones.antt =====
-- The zone at work on a small pool, and the theorems about it at concrete inputs.
use nginx_modules.Base.{
  behind, ℕ, ◌+◌, ◌*◌, ◌<◌, ◌≡◌, refl, ◌∙◌, ◌↔◌, ◌++◌, sym, true, false, none, some, List, [], ◌∷◌,
  arith,
}
use nginx_modules.ShmDict.Platform.{sentinel, branch}
use nginx_modules.ShmDict.Node.{
  Str, Time, now_ms, deadline, ms_negative, ms_positive, is_expired, is_kept, is_due, remaining,
}
use nginx_modules.ShmDict.Rbtree.{insert_value, find_node}
use nginx_modules.ShmDict.Rbtree.{count_loop}
use nginx_modules.ShmDict.Rbtree.Counting.{count_loop_ends}
use nginx_modules.ShmDict.Order.{key_cmp}
use nginx_modules.ShmDict.Zone.{
  Dict, Rc, shm_ok, done, first_word, crc32, touch, unlink, store, lookup,
}
use nginx_modules.ShmDict.Expire.{
  expire_loop, expire, flush_loop, flush_queue, flush_expired, set_expired, flush_all,
}
use nginx_modules.ShmDict.Access.{
  int_size, to_bytes, of_bytes, new_node, alloc_loop, alloc_node, link, insert_at, insert, enter,
  get_found, get, delete_found, delete, set_exptime_found, set_exptime, overwrite, insert_unlock,
  set_found, set, add_and_fetch, inc_found, inc_int,
}
use nginx_modules.ShmDict.Valid.{IsValid}
use nginx_modules.ShmDict.Contents.Reading.{AtMostOne}
use nginx_modules.ShmDict.Contents.Inserting.{Binds}
use nginx_modules.ShmDict.Contents.Writing.{Current, set-Binds}
use nginx_modules.ShmDict.Valid.Operations.{Holds}
use nginx_modules.ShmDict.Contents.Expiry.{is_expired-deadline}
use nginx_modules.ShmDict.Handlers.{handler_set, zone_loop, get_shm_zone}
use nginx_modules.ShmDict.Traces.{Call, getting, setting, incrementing, flushing, flushing_all}
use nginx_modules.ShmDict.Strtok.{is_delim, skip_delims, scan_token, first_token, strtok_r}
use nginx_modules.ShmDict.Interface.{
  Interface, keep_zone, interface_zone, on_zone, interface_set, interface_get,
}
use nginx_modules.ShmDict.Directive.{
  Nginx, conf_error, null, zone_key, max_size_key, read_words, list_init, is_repeated, set_data,
  dict_init, list_push, register, shm_zone, shm_zone_again,
}
use nginx_modules.Uri.Params.{bytes_eq}
use nginx_modules.ShmDict.Sample.{Pool, platform, platform-IsPlatform, zone_of}

program : Unit {0}
unfolding now_ms deadline ms_negative ms_positive is_expired is_kept is_due remaining insert_value
    find_node key_cmp first_word crc32 touch unlink store lookup expire_loop expire flush_loop
    flush_queue flush_expired set_expired flush_all int_size to_bytes of_bytes new_node alloc_loop
    alloc_node link insert_at insert enter get_found get delete_found delete set_exptime_found
    set_exptime overwrite insert_unlock set_found set add_and_fetch inc_found inc_int
program = tt

abbrev at : ℕ → Time
at n = record { sec = n; msec = 0 }

abbrev text : List ℕ → Str
text bytes = record { is_null = false; bytes = bytes }

abbrev color : List ℕ
color = 99 ∷ 111 ∷ []

abbrev red : List ℕ
red = 114 ∷ 101 ∷ 100 ∷ []

abbrev stored : Dict Pool
stored = (set platform (zone_of 4) color (text red) 4 10 7 (at 100)).0

set-color : (set platform (zone_of 4) color (text red) 4 10 7 (at 100)).1 ≡ shm_ok
unfolding program
set-color = refl

blank-IsValid : (n : ℕ) → IsValid platform (zone_of n)
blank-IsValid n = record {
  same = λ a. refl;
  once = λ a. omega arith;
  live = λ a h. absurd (omega arith);
  filled = λ a h. absurd (omega arith);
  sorted = tt;
}

blank-AtMostOne : (n : ℕ) (key : List ℕ) → AtMostOne platform (zone_of n) key
blank-AtMostOne n key a b h k = absurd (omega (arith, h.0))

blank-Current :
    (n : ℕ) (key : List ℕ) (now : ℕ) → Current platform platform-IsPlatform (zone_of n) key now
blank-Current n key now a h = absurd (omega (arith, h.0))

read_back :
    (get platform stored color (at 105)).1
    ≡ some (record { node = 1; value = red; value_type = 4; exptime = 5; user_flags = 7 })
unfolding program
read_back = refl

stored-Binds :
    Binds platform stored color (new_node color (text red) 4 10 7 (crc32 platform color) (at 100))
stored-Binds =
    (set-Binds platform platform-IsPlatform (zone_of 4) color (text red) 4 10 7 (at 100)
      (blank-IsValid 4) (blank-AtMostOne 4 color) (blank-Current 4 color (now_ms (at 100)))
      set-color).1

stored-Holds : Holds platform stored color 1
unfolding program
stored-Holds = (omega arith, refl)

stored-AtMostOne : AtMostOne platform stored color
stored-AtMostOne a b h k = stored-Binds.3 a h ∙ sym (stored-Binds.3 b k)

stored_heap : stored.heap 1 ≡ new_node color (text red) 4 10 7 (crc32 platform color) (at 100)
unfolding program
stored_heap = refl

is_expired-deadline_example :
    (is_expired (now_ms (at 105)) (stored.heap 1) ≡ true)
    ↔ ((0 < 10) × (now_ms (at 100) + 10 * 1000 < now_ms (at 105)))
is_expired-deadline_example =
    is_expired-deadline (stored.heap 1) (at 100) (at 105) 10 (unfold program in refl) (omega arith)
      (unfold program in omega arith) (unfold program in omega arith)

abbrev full : Dict Pool
full = (set platform (zone_of 1) color (text red) 4 10 7 (at 100)).0

-- Two nodes: the round of expiry ends at the first, which is kept, and the lookup finds the other,
-- which has expired.
abbrev two : Dict Pool
two =
    (set platform (set platform (zone_of 4) (1 ∷ []) (text red) 4 0 0 (at 99)).0 color (text red) 4
      10 7 (at 100)).0

enter-two : (enter platform two color (now_ms (at 111))).1 ≡ done 2
unfolding program
enter-two = refl

abbrev again : Dict Pool × Rc
again = set platform two color (text red) 4 10 7 (at 111)

count_loop_ends_example :
    (count_loop 3 sentinel 0 ≡ some 0)
    × ((n : ℕ)
        → count_loop 2 (branch sentinel 1 sentinel) 0 ≡ some n
        → branch sentinel 1 sentinel ≡ sentinel)
count_loop_ends_example = count_loop_ends 2 (branch sentinel 1 sentinel)

abbrev zones : List (List ℕ × ℕ)
zones = (color, 0) ∷ (red, 1) ∷ []

bindings : Unit {0}
unfolding handler_set zone_loop get_shm_zone keep_zone interface_zone on_zone interface_set
    interface_get read_words list_init is_repeated set_data dict_init list_push register shm_zone
    is_delim skip_delims scan_token first_token strtok_r behind
bindings = tt

-- Calls of all kinds on a new zone.
abbrev trace : List (Call × Time)
trace =
    (setting color (text red) 4 10 7, at 100)
    ∷ (incrementing red 3 0, at 101)
    ∷ (getting color, at 102)
    ∷ (flushing 0, at 120)
    ∷ (flushing_all, at 121)
    ∷ []

abbrev door : Interface Pool
door = record { zone_name = []; zone = none; dicts = λ n. zone_of 4 }

-- A directive, the first time and again.
abbrev host : Nginx
host = record {
  pagesize = 0;
  palloc = true;
  array_init = true;
  parse_size = λ text. some 8;
  pcalloc = true;
  shared_memory_add = λ name size. some (record { name = name; size = size; context = none });
  array_push = true;
  same = bytes_eq;
}

abbrev directive : List (List ℕ)
directive = (zone_key ++ red) ∷ (max_size_key ++ b'1' ∷ []) ∷ []

shm_zone_again_example : (shm_zone host directive (shm_zone host directive null).0).1 ≡ conf_error
shm_zone_again_example =
    shm_zone_again host host directive null 114 8 8 (101 ∷ 100 ∷ [])
      (record { name = red; size = 8; context = some red }) (unfold bindings in refl)
      (unfold bindings in refl) (unfold bindings in refl) refl refl (unfold bindings in refl)
