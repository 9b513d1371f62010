-- ===== src/ShmDict/Interface.antt =====
-- CNgxDictInterface of ngx_shm_dict_interface.cc: the dictionary as a plugin sees it. A text and a
-- shm_str_t with the same bytes are one, so the two forms of a method are one definition.
use Prim.Native.String.{String}
use nginx_modules.Base.{ℕ, Bool, false, Option, none, some, List, [], ◌∷◌, ◌==◌, if◌then◌else◌}
use nginx_modules.ShmDict.Platform.{Platform}
use nginx_modules.ShmDict.Node.{Time}
use nginx_modules.ShmDict.Zone.{Dict, Rc, shm_ok, shm_error}
use nginx_modules.ShmDict.Handlers.{
  handler_get, handler_set, handler_set_exptime, handler_delete, handler_incr_int,
  handler_flush_all, get_shm_zone,
}

-- What a method returns: SHM_DICT_KEY_LEN_ZERO, SHM_DICT_VALUE_LEN_ZERO, SHM_DICT_ZONE_NULL, or what
-- the handler returns.
pub data Code : Type 0 where
  key_len_zero value_len_zero zone_null : Code
  handled : Rc → Code

-- GetError of the number of a code, and of any other number, `none`.
unfoldable pub get_error : Option Code → String
get_error none = "not found"
get_error (some key_len_zero) = "shm dict key len zero"
get_error (some value_len_zero) = "shm dict value len zero"
get_error (some zone_null) = "shm dict zone null"
get_error (some (handled shm_ok)) = "shm dict response success"
get_error (some (handled shm_error)) = "shm dict response fail"

-- The members, with the dictionaries of all zones by their number.
pub record Interface (P : Type 0) : Type 0 where
  pub zone_name : List ℕ
  pub zone : Option ℕ
  pub dicts : ℕ → Dict P

-- GetZoneName
unfoldable pub get_zone_name : {P : Type 0} → Interface P → List ℕ
get_zone_name i = i.zone_name

module _ {P : Type 0} (p : Platform P) (same : List ℕ → List ℕ → Bool)
    (zones : Option (List (List ℕ × ℕ))) where
  unfoldable pub keep_zone : Interface P → List ℕ → Option ℕ → Interface P × Option ℕ
  keep_zone i name none = (i, none)
  keep_zone i name (some z) = (record i { zone_name = name; zone = some z }, some z)

  -- GetShmZone: the zone of an empty name is the one that was used last.
  unfoldable pub interface_zone : Interface P → List ℕ → Interface P × Option ℕ
  unfolding keep_zone
  interface_zone i [] = elim i.zone [
    | some z ↦ (i, some z)
    | none ↦ keep_zone i [] (get_shm_zone same [] zones)
  ]
  interface_zone i (c ∷ name) = keep_zone i (c ∷ name) (get_shm_zone same (c ∷ name) zones)

  -- The constructor: it asks for the zone of the empty name, where m_zone is what the memory of the
  -- object held before.
  unfoldable pub new_interface : Option ℕ → (ℕ → Dict P) → Interface P
  unfolding interface_zone
  new_interface held dicts =
      (interface_zone (record { zone_name = []; zone = held; dicts = dicts }) []).0

  -- SetZoneName; `none` is the empty name.
  unfoldable pub set_zone_name : Interface P → List ℕ → Interface P × Code
  unfolding keep_zone
  set_zone_name i [] = (i, zone_null)
  set_zone_name i (c ∷ name) =
      let (i', z) = keep_zone i (c ∷ name) (get_shm_zone same (c ∷ name) zones) in
      (i', elim z [ none ↦ handled shm_error | some z' ↦ handled shm_ok ])

  abbrev pub with_dict : Interface P → ℕ → Dict P → Interface P
  with_dict i z d = record i { dicts = λ n. if n == z then d else i.dicts n }

  -- A handler on the zone that was found.
  unfoldable pub on_zone : (Dict P → Dict P × Rc) → Interface P × Option ℕ → Interface P × Code
  on_zone f (i, none) = (i, zone_null)
  on_zone f (i, some z) = let (d, rc) = f (i.dicts z) in (with_dict i z d, handled rc)

  unfoldable pub on_key :
      (Dict P → Dict P × Rc) → Interface P → List ℕ → List ℕ → Interface P × Code
  unfolding interface_zone on_zone
  on_key f i [] name = (i, key_len_zero)
  on_key f i (c ∷ key) name = on_zone f (interface_zone i name)

  -- Set
  unfoldable pub interface_set :
      Interface P → List ℕ → List ℕ → ℕ → List ℕ → Time → Interface P × Code
  unfolding on_zone interface_zone
  interface_set i [] value exptime name tp = (i, key_len_zero)
  interface_set i (c ∷ key) [] exptime name tp = (i, value_len_zero)
  interface_set i (c ∷ key) (b ∷ value) exptime name tp =
      on_zone
        (λ d. handler_set p d (c ∷ key) (record { is_null = false; bytes = b ∷ value }) exptime tp)
        (interface_zone i name)

  -- SetExptime
  unfoldable pub interface_set_exptime :
      Interface P → List ℕ → ℕ → List ℕ → Time → Interface P × Code
  unfolding on_key
  interface_set_exptime i key exptime name tp =
      on_key (λ d. handler_set_exptime p d key exptime tp) i key name

  -- Del
  unfoldable pub interface_delete : Interface P → List ℕ → List ℕ → Time → Interface P × Code
  unfolding on_key
  interface_delete i key name tp = on_key (λ d. handler_delete p d key tp) i key name

  -- FlushAll
  unfoldable pub interface_flush_all : Interface P → List ℕ → Time → Interface P × Code
  unfolding on_zone interface_zone
  interface_flush_all i name tp = on_zone (λ d. handler_flush_all p d tp) (interface_zone i name)

  -- Get: a code, or the value with its time, where a failure of the handler is `none`.
  unfoldable pub get_on_zone :
      List ℕ → Time → Interface P × Option ℕ → Interface P × Code × Option (List ℕ × ℕ)
  get_on_zone key tp (i, none) = (i, zone_null, none)
  get_on_zone key tp (i, some z) =
      let (d, r) = handler_get p (i.dicts z) key tp in
      (with_dict i z d, elim r [ none ↦ handled shm_error | some v ↦ handled shm_ok ], r)

  unfoldable pub interface_get :
      Interface P → List ℕ → List ℕ → Time → Interface P × Code × Option (List ℕ × ℕ)
  unfolding get_on_zone interface_zone
  interface_get i [] name tp = (i, key_len_zero, none)
  interface_get i (c ∷ key) name tp = get_on_zone (c ∷ key) tp (interface_zone i name)

  -- Incr
  unfoldable pub incr_on_zone :
      List ℕ → ℕ → ℕ → Time → Interface P × Option ℕ → Interface P × Code × Option ℕ
  incr_on_zone key count exptime tp (i, none) = (i, zone_null, none)
  incr_on_zone key count exptime tp (i, some z) =
      let (d, r) = handler_incr_int p (i.dicts z) key count exptime tp in
      (with_dict i z d, elim r [ none ↦ handled shm_error | some v ↦ handled shm_ok ], r)

  unfoldable pub interface_incr :
      Interface P → List ℕ → ℕ → ℕ → List ℕ → Time → Interface P × Code × Option ℕ
  unfolding incr_on_zone interface_zone
  interface_incr i [] count exptime name tp = (i, key_len_zero, none)
  interface_incr i (c ∷ key) count exptime name tp =
      incr_on_zone (c ∷ key) count exptime tp (interface_zone i name)
