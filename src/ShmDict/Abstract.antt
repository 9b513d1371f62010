-- ===== src/ShmDict/Abstract.antt =====
-- The dictionary as a map from keys to entries, and what each operation may do to that map: the
-- contract of ngx_shm_dict.h, with no tree, queue, pool or address in it.
pub mod Views
pub mod Changes
pub mod Reads
pub mod Inserts
pub mod Writes
pub mod Flushes
pub mod Sums
pub mod Runs
pub mod Permanent
pub mod Fresh
pub mod Races
use nginx_modules.Base.{
  ℕ, zero, suc, leb, length, take, drop, ◌++◌, ◌+◌, ◌-◌, ◌*◌, ◌/◌, ◌%◌, ◌^◌, ◌≡◌, ◌≢◌, ◌⊎◌, ◌==◌,
  if◌then◌else◌, not, ◌&&◌, ◌||◌, Bool, true, false, Option, none, some, List,
}
use nginx_modules.ShmDict.Platform.{Platform}
use nginx_modules.ShmDict.Node.{Node, ms_negative, ms_positive, shm_int64, value_bytes}
use nginx_modules.ShmDict.Rbtree.{find_node}
use nginx_modules.ShmDict.Zone.{Dict, Rc, shm_ok, shm_error, crc32}
use nginx_modules.ShmDict.Access.{Reply, bad_key, to_bytes, of_bytes}

-- What a client stores under a key.
pub record Entry : Type 0 where
  pub value : List ℕ
  pub value_type : ℕ
  pub user_flags : ℕ
  pub expires : ℕ

abbrev pub Map : Type 0
Map = List ℕ → Option Entry

abbrev pub entry_of : Node → Entry
entry_of sd = record {
  value = value_bytes sd;
  value_type = sd.value_type;
  user_flags = sd.user_flags;
  expires = sd.expires;
}

-- The entry of a key: that of the node at which the walk through the tree ends.
abbrev pub stored : {P : Type 0} → Platform P → Dict P → Map
stored p d key = elim (find_node p d.heap (crc32 p key) key d.root) [
  | none ↦ none
  | some a ↦ some (entry_of (d.heap a))
]

-- The expiry time is over, or is still to come: at the millisecond itself it is neither.
abbrev pub is_over : ℕ → Entry → Bool
is_over now e = not (e.expires == 0) && ms_negative e.expires now

abbrev pub is_ahead : ℕ → Entry → Bool
is_ahead now e = e.expires == 0 || ms_positive e.expires now

-- No entry, or one whose expiry time is not over.
abbrev pub IsTimely : ℕ → Option Entry → Type 0
IsTimely now none = Unit {0}
IsTimely now (some e) = is_over now e ≡ false

-- What a lookup says of an entry.
abbrev pub current : ℕ → Option Entry → Option Entry
current now none = none
current now (some e) = if is_over now e then none else some e

-- What ngx_shm_dict_get writes through its pointers, without the address.
pub record Answer : Type 0 where
  pub value : List ℕ
  pub value_type : ℕ
  pub user_flags : ℕ
  pub exptime : ℕ

abbrev pub answered : Option Reply → Option Answer
answered none = none
answered (some r) = some (record {
  value = r.value;
  value_type = r.value_type;
  user_flags = r.user_flags;
  exptime = r.exptime;
})

-- The seconds left of an entry.
abbrev pub seconds_left : ℕ → Entry → ℕ
seconds_left now e =
    if e.expires == 0 then 0 else ((e.expires + 2 ^ 64 - now) % 2 ^ 64 / 1000) % 2 ^ 32

abbrev pub answer_of : ℕ → Option Entry → Option Answer
answer_of now none = none
answer_of now (some e) = some (record {
  value = e.value;
  value_type = e.value_type;
  user_flags = e.user_flags;
  exptime = seconds_left now e;
})

-- What a deletion leaves of an entry: one whose time is over stays.
abbrev pub deleted : ℕ → Option Entry → Option Entry
deleted now none = none
deleted now (some e) = if is_over now e then some e else none

-- What a new expiry time makes of an entry, and the result of the call.
abbrev pub extended : Bool → ℕ → ℕ → Option Entry → Option Entry × Rc
extended true now expires o = (o, shm_error)
extended false now expires none = (none, shm_error)
extended false now expires (some e) =
    if is_over now e then (some e, shm_error) else (some (record e { expires = expires }), shm_ok)

-- A key's entry may be gone where its expiry time is not ahead; nothing else happens.
abbrev pub Fades : ℕ → Option Entry → Option Entry → Type 0
Fades now o o' = (o' ≡ o) ⊎ ((o' ≡ none) × ((e : Entry) × (o ≡ some e) × (is_ahead now e ≡ false)))

abbrev pub Fading : ℕ → Map → Map → Type 0
Fading now m m' = (key : List ℕ) → Fades now (m key) (m' key)

-- A key's entry is replaced, and every other key has what it had.
abbrev pub Replaces : List ℕ → Option Entry → Map → Map → Type 0
Replaces key o m m' = (m' key ≡ o) × ((k : List ℕ) → k ≢ key → m' k ≡ m k)

-- The same, where other keys may be evicted.
abbrev pub Evicting : List ℕ → Option Entry → Map → Map → Type 0
Evicting key o m m' = (m' key ≡ o) × ((k : List ℕ) → k ≢ key → (m' k ≡ m k) ⊎ (m' k ≡ none))

-- What a lookup of a key says of the map.
abbrev pub looked_up : ℕ → List ℕ → Map → Option Entry
looked_up now key m = if bad_key key then none else current now (m key)

-- The contract of ngx_shm_dict_get: it changes the map by nothing but fading, and its answer is the
-- entry that is then there.
pub record Gets (now : ℕ) (key : List ℕ) (m m' : Map) (o : Option Reply) : Type 0 where
  pub fades : Fading now m m'
  pub answers : answered o ≡ answer_of now (looked_up now key m')

-- The contract of ngx_shm_dict_delete, which is a success whatever there was.
pub record Deletes (now : ℕ) (key : List ℕ) (m m' : Map) (rc : Rc) : Type 0 where
  pub faded : Map
  pub fades : Fading now m faded
  pub replaces : Replaces key (deleted now (faded key)) faded m'
  pub succeeds : rc ≡ shm_ok

-- The contract of ngx_shm_dict_set_exptime.
pub record Extends (now expires : ℕ) (key : List ℕ) (m m' : Map) (rc : Rc) : Type 0 where
  pub faded : Map
  pub fades : Fading now m faded
  pub replaces : Replaces key (extended (bad_key key) now expires (faded key)).0 faded m'
  pub returns : rc ≡ (extended (bad_key key) now expires (faded key)).1

-- The contract of ngx_shm_dict_set: it refuses a key of a bad length; it binds the key; or there is no
-- room, and the key has no entry, not even the one that it had. Other entries may be evicted.
pub data Sets (now : ℕ) (key : List ℕ) (e : Entry) (m m' : Map) : Rc → Type 0 where
  refused : bad_key key ≡ true → ((k : List ℕ) → m' k ≡ m k) → Sets now key e m m' shm_error
  bound :
      (faded : Map)
      → Fading now m faded
      → Evicting key (some e) faded m'
      → Sets now key e m m' shm_ok
  no_room :
      (faded : Map)
      → Fading now m faded
      → Evicting key none faded m'
      → Sets now key e m m' shm_error

-- What ngx_shm_dict_flush_expired takes away.
abbrev pub is_past : ℕ → Entry → Bool
is_past now e = not (e.expires == 0) && leb e.expires now

abbrev pub flushed : ℕ → Option Entry → Option Entry
flushed now none = none
flushed now (some e) = if is_past now e then none else some e

-- The contract of ngx_shm_dict_flush_expired: without a limit the entries whose expiry time has come
-- are gone, with a limit some of them may be; the others stay.
abbrev pub Flushes : ℕ → ℕ → Map → Map → Type 0
Flushes zero now m m' = (key : List ℕ) → m' key ≡ flushed now (m key)
Flushes (suc n) now m m' = (key : List ℕ) → (m' key ≡ m key) ⊎ (m' key ≡ flushed now (m key))

-- The contract of ngx_shm_dict_flush_all: an entry is gone, or is left with the first millisecond of
-- the epoch as its expiry time.
abbrev pub outdated : Option Entry → Option Entry
outdated none = none
outdated (some e) = some (record e { expires = 1 })

abbrev pub FlushesAll : Map → Map → Type 0
FlushesAll m m' = (key : List ℕ) → (m' key ≡ outdated (m key)) ⊎ (m' key ≡ none)

-- The number that an entry holds with an increment, modulo 2^64, and the entry with that number.
abbrev pub sum_of : ℕ → Entry → ℕ
sum_of i e = (of_bytes (take 8 e.value) + i) % 2 ^ 64

abbrev pub summed : ℕ → Entry → Entry
summed i e = record e { value = to_bytes 8 (sum_of i e) ++ drop 8 e.value }

-- The contract of ngx_shm_dict_inc_int: a number is added to; an entry of another type is left; a key
-- with no entry is set to the increment.
pub data Incs (now i : ℕ) (key : List ℕ) (e : Entry) (m m' : Map) : Option ℕ → Type 0 where
  added :
      (faded : Map) (x : Entry)
      → Fading now m faded
      → looked_up now key faded ≡ some x
      → x.value_type ≡ shm_int64
      → Replaces key (some (summed i x)) faded m'
      → Incs now i key e m m' (some (sum_of i x))
  other_type :
      (x : Entry)
      → Fading now m m'
      → looked_up now key m' ≡ some x
      → x.value_type ≢ shm_int64
      → Incs now i key e m m' none
  first :
      (faded : Map)
      → Fading now m faded
      → looked_up now key faded ≡ none
      → Sets now key e faded m' shm_ok
      → Incs now i key e m m' (some i)
  first_failed :
      (faded : Map)
      → Fading now m faded
      → looked_up now key faded ≡ none
      → Sets now key e faded m' shm_error
      → Incs now i key e m m' none
