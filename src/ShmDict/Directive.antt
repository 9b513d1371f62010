-- ===== src/ShmDict/Directive.antt =====
-- The directive _shm_dict_zone of ngx_shm_dict_module.c, with ngx_shm_dict_init.
use nginx_modules.Base.{
  ℕ, ◌*◌, ◌≡◌, refl, ap, ◌∙◌, sym, behind, ltb, ◌||◌, if◌then◌else◌, not, Bool, true, false, Option,
  none, some, List, [], ◌∷◌, ◌++◌, arith,
}

-- ngx_shm_zone_t: `context` is the name in the context that ngx_shm_dict_init sets.
pub record ShmZone : Type 0 where
  pub name : List ℕ
  pub size : ℕ
  pub context : Option (List ℕ)

-- g_shm_dict_list: no array, an array that could not be initialised, and the zones of an array.
pub data ZoneList : Type 0 where
  null uninitialised : ZoneList
  zones : List ShmZone → ZoneList

-- What nginx answers: memory, ngx_array_init, ngx_parse_size, ngx_shared_memory_add, ngx_array_push,
-- and whether ngx_strcmp is 0.
pub record Nginx : Type 0 where
  pub pagesize : ℕ
  pub palloc : Bool
  pub array_init : Bool
  pub parse_size : List ℕ → Option ℕ
  pub pcalloc : Bool
  pub shared_memory_add : List ℕ → ℕ → Option ShmZone
  pub array_push : Bool
  pub same : List ℕ → List ℕ → Bool

pub data Rc : Type 0 where
  conf_ok conf_error : Rc

abbrev pub zone_key : List ℕ
zone_key = b'z' ∷ b'o' ∷ b'n' ∷ b'e' ∷ b'=' ∷ []

abbrev pub max_size_key : List ℕ
max_size_key = b'm' ∷ b'a' ∷ b'x' ∷ b'_' ∷ b's' ∷ b'i' ∷ b'z' ∷ b'e' ∷ b'=' ∷ []

module _ (nginx : Nginx) where
  -- The loop over the words of the directive, with the name and the size so far.
  unfoldable pub read_words : List (List ℕ) → List ℕ → ℕ → Option (List ℕ × ℕ)
  unfolding behind
  read_words [] name size = some (name, size)
  read_words (word ∷ words) name size = elim (behind zone_key word) [
    | some name' ↦ read_words words name' size
    | none ↦ elim (behind max_size_key word) [
      | none ↦ none
      | some text ↦ elim (nginx.parse_size text) [
        | none ↦ none
        | some size' ↦
            if ltb size' (200 * nginx.pagesize) then none else read_words words name size'
      ]
    ]
  ]

  -- ngx_shm_dict_list_init
  unfoldable pub list_init : ZoneList → ZoneList × Rc
  list_init null =
      if not nginx.palloc
      then (null, conf_error)
      else (if nginx.array_init then (zones [], conf_ok) else (uninitialised, conf_error))
  list_init uninitialised = (uninitialised, conf_ok)
  list_init (zones zs) = (zones zs, conf_ok)

  -- The loop of ngx_shm_dict_list_repeat_loading.
  unfoldable pub is_repeated : List ℕ → List ShmZone → Bool
  is_repeated name [] = false
  is_repeated name (z ∷ zs) = nginx.same name z.name || is_repeated name zs

  -- ngx_shm_dict_init on what ngx_shared_memory_add returns: a zone that has a context is refused.
  unfoldable pub set_data : List ℕ → Option ShmZone → Option ShmZone
  set_data name none = none
  set_data name (some z) = elim z.context [
    | some ctx ↦ none
    | none ↦ some (record z { context = some name })
  ]

  -- ngx_shm_dict_init
  unfoldable pub dict_init : List ℕ → ℕ → Option ShmZone
  unfolding set_data
  dict_init name size =
      if nginx.pcalloc then set_data name (nginx.shared_memory_add name size) else none

  -- ngx_shm_dict_list_push, whose result the directive does not test.
  unfoldable pub list_push : List ShmZone → Option ShmZone → List ShmZone
  list_push zs none = zs
  list_push zs (some z) = if nginx.array_push then zs ++ z ∷ [] else zs

  -- ngx_http__shm_zone from ngx_shm_dict_list_init on.
  unfoldable pub register : List ℕ → ℕ → ZoneList × Rc → ZoneList × Rc
  unfolding is_repeated dict_init list_push
  register name size (l, conf_error) = (l, conf_error)
  register name size (null, conf_ok) = (null, conf_error)
  register name size (uninitialised, conf_ok) = (uninitialised, conf_error)
  register name size (zones zs, conf_ok) =
      if is_repeated name zs
      then (zones zs, conf_error)
      else (zones (list_push zs (dict_init name size)), conf_ok)

  -- ngx_http__shm_zone
  unfoldable pub shm_zone : List (List ℕ) → ZoneList → ZoneList × Rc
  unfolding read_words list_init register
  shm_zone words l = elim (read_words words [] 0) [
    | none ↦ (l, conf_error)
    | some (name, size) ↦ elim name [
      | [] ↦ (l, conf_error)
      | x ∷ rest ↦ register (x ∷ rest) size (list_init l)
    ]
  ]

  is_repeated-append :
      (name : List ℕ) (zs : List ShmZone) (z : ShmZone)
      → nginx.same name z.name ≡ true
      → is_repeated name (zs ++ z ∷ []) ≡ true
  unfolding is_repeated
  is_repeated-append name [] z e = rw e refl
  is_repeated-append name (y ∷ zs) z e = ground (arith, is_repeated-append name zs z e)

  -- A directive with a name.
  shm_zone_named :
      (words : List (List ℕ)) (l : ZoneList) (x size : ℕ) (name : List ℕ)
      → read_words words [] 0 ≡ some (x ∷ name, size)
      → shm_zone words l ≡ register (x ∷ name) size (list_init l)
  unfolding shm_zone
  shm_zone_named words l x size name e = rw (e, shm_zone) refl

  -- A name that is in the list is refused.
  register_repeated :
      (name : List ℕ) (size : ℕ) (zs : List ShmZone)
      → is_repeated name zs ≡ true
      → (register name size (zones zs, conf_ok)).1 ≡ conf_error
  unfolding register
  register_repeated name size zs e = rw e refl

  -- Where it is a success the zone is in the list.
  register-zones :
      (name : List ℕ) (size : ℕ) (o : ZoneList × Rc) (z : ShmZone)
      → dict_init name size ≡ some z
      → nginx.array_push ≡ true
      → (register name size o).1 ≡ conf_ok
      → (zs : List ShmZone) × ((register name size o).0 ≡ zones (zs ++ z ∷ []))
  unfolding register list_push
  register-zones name size (l, conf_error) z e h k = cc
  register-zones name size (null, conf_ok) z e h k = cc
  register-zones name size (uninitialised, conf_ok) z e h k = cc
  register-zones name size (zones zs, conf_ok) z e h k = (zs, ground (arith, e, h, k))

-- A directive that was a success and has registered its zone, under a name that ngx_strcmp finds
-- the same, is refused when it is read again with the same name, as it is when the configuration
-- is loaded again: the list of the zones is still there.
pub shm_zone_again :
    (nginx nginx' : Nginx) (words : List (List ℕ)) (l : ZoneList) (x size size' : ℕ) (name : List ℕ)
    (z : ShmZone)
    → read_words nginx words [] 0 ≡ some (x ∷ name, size)
    → read_words nginx' words [] 0 ≡ some (x ∷ name, size')
    → dict_init nginx (x ∷ name) size ≡ some z
    → nginx.array_push ≡ true
    → nginx'.same (x ∷ name) z.name ≡ true
    → (shm_zone nginx words l).1 ≡ conf_ok
    → (shm_zone nginx' words (shm_zone nginx words l).0).1 ≡ conf_error
unfolding list_init
shm_zone_again nginx nginx' words l x size size' name z e e' d h s k =
    let first = shm_zone_named nginx words l x size name e in
    let (zs, f) =
      register-zones nginx (x ∷ name) size (list_init nginx l) z d h
        (ap (λ (o : ZoneList × Rc). o.1) (sym first) ∙ k) in
    let list : (shm_zone nginx words l).0 ≡ zones (zs ++ z ∷ []) =
      ap (λ (o : ZoneList × Rc). o.0) first ∙ f in
    ap (λ (q : ZoneList). (shm_zone nginx' words q).1) list
    ∙ ap (λ (o : ZoneList × Rc). o.1)
        (shm_zone_named nginx' words (zones (zs ++ z ∷ [])) x size' name e')
    ∙ register_repeated nginx' (x ∷ name) size' (zs ++ z ∷ [])
        (is_repeated-append nginx' (x ∷ name) zs z s)
