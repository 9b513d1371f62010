-- ===== src/Plugins/Names.antt =====
-- The map from names to plugins: GetPlugin on what plugin_create_manager has made.
use nginx_modules.Base.{
  ℕ, ◌≡◌, refl, sym, memcmp, memcmp-eq, memcmp_refl, memcmp-swap, memcmp_lt_trans, Ordering, Option,
  none, some, List, [], ◌∷◌, arith,
}
use nginx_modules.Plugins.{
  success, PluginConf, PluginInfo, Manager, Loader, insert_info, find_info, get_plugin, add_plugin,
  new_info, after_create, after_open, load_plugin, load_loop, create_manager,
}

-- Every name of a list comes after a name, and the names ascend.
abbrev Above : List ℕ → List PluginInfo → Type 0
Above name [] = Unit {0}
Above name (y ∷ ys) = (memcmp name y.plugin_name ≡ Ordering.lt) × Above name ys

abbrev pub IsAscending : List PluginInfo → Type 0
IsAscending [] = Unit {0}
IsAscending (y ∷ ys) = Above y.plugin_name ys × IsAscending ys

-- The first of two answers.
abbrev pub or_else : Option ℕ → Option ℕ → Option ℕ
or_else none o = o
or_else (some x) o = some x

abbrev pub if_named : List ℕ → List ℕ → Option ℕ → Option ℕ
if_named name other x = elim (memcmp name other) [
  | Ordering.lt ↦ none
  | Ordering.eq ↦ x
  | Ordering.gt ↦ none
]

-- The instance of the first line with a name.
abbrev pub first_line : List ℕ → List (PluginConf × Loader) → Option ℕ
first_line name [] = none
first_line name ((conf, a) ∷ rest) =
    or_else (if_named name conf.name a.create_instance) (first_line name rest)

Above-find_info : (name : List ℕ) (ys : List PluginInfo) → Above name ys → find_info name ys ≡ none
unfolding find_info
Above-find_info name [] h = refl
Above-find_info name (y ∷ ys) h = ground (arith, h.0, Above-find_info name ys h.1)

Above-trans :
    (n m : List ℕ) (ys : List PluginInfo) → memcmp n m ≡ Ordering.lt → Above m ys → Above n ys
Above-trans n m [] h a = tt
Above-trans n m (y ∷ ys) h a = (memcmp_lt_trans n m y.plugin_name h a.0, Above-trans n m ys h a.1)

insert_info-Above :
    (n : List ℕ) (x : PluginInfo) (ys : List PluginInfo)
    → memcmp n x.plugin_name ≡ Ordering.lt
    → Above n ys
    → Above n (insert_info x ys).0
unfolding insert_info
insert_info-Above n x [] h a = (h, tt)
insert_info-Above n x (y ∷ ys) h a = ground (arith, insert_info-Above n x ys h a.1)

insert_info-IsAscending :
    (x : PluginInfo) (ys : List PluginInfo) → IsAscending ys → IsAscending (insert_info x ys).0
unfolding insert_info
insert_info-IsAscending x [] a = (tt, tt)
insert_info-IsAscending x (y ∷ ys) a = ground (
  arith,
  memcmp-swap x.plugin_name y.plugin_name,
  a.0,
  a.1,
  insert_info-IsAscending x ys a.1,
  insert_info-Above y.plugin_name x ys,
  Above-trans x.plugin_name y.plugin_name ys,
)

or_else-none : (o : Option ℕ) → or_else o none ≡ o
or_else-none none = refl
or_else-none (some x) = refl

find_info-insert_info :
    (name : List ℕ) (x : PluginInfo) (ys : List PluginInfo)
    → IsAscending ys
    → find_info name (insert_info x ys).0 ≡ or_else (find_info name ys) (find_info name (x ∷ []))
unfolding find_info insert_info
find_info-insert_info name x [] a = refl
find_info-insert_info name x (y ∷ ys) a = ground (
  arith,
  or_else-none (find_info name ys),
  Above-find_info x.plugin_name ys,
  Above-trans x.plugin_name y.plugin_name ys,
  a.0,
  memcmp-eq name x.plugin_name,
  memcmp-eq x.plugin_name y.plugin_name,
  memcmp_refl name,
  find_info-insert_info name x ys a.1,
)

or_else_assoc : (a b c : Option ℕ) → or_else (or_else a b) c ≡ or_else a (or_else b c)
or_else_assoc none b c = refl
or_else_assoc (some x) b c = refl

after_create_lem :
    (m : Manager) (conf : PluginConf) (h : ℕ) (x : Option ℕ) (name : List ℕ)
    → IsAscending m.plugins_info_map
    → (after_create m conf h x).1 ≡ success
    → find_info name (after_create m conf h x).0.plugins_info_map
      ≡ or_else (find_info name m.plugins_info_map) (if_named name conf.name x)
unfolding after_create add_plugin find_info
after_create_lem m conf h none name v e = absurd (ground (arith, e))
after_create_lem m conf h (some x) name v e =
    find_info-insert_info name (new_info conf h x) m.plugins_info_map v

after_open_lem :
    (m : Manager) (conf : PluginConf) (a : Loader) (h : Option ℕ) (name : List ℕ)
    → IsAscending m.plugins_info_map
    → (after_open m conf a h).1 ≡ success
    → find_info name (after_open m conf a h).0.plugins_info_map
      ≡ or_else (find_info name m.plugins_info_map) (if_named name conf.name a.create_instance)
unfolding after_open
after_open_lem m conf a none name v e = absurd (ground (arith, e))
after_open_lem m conf a (some h) name v e =
    ground (arith, e, after_create_lem m conf h a.create_instance name v)

-- A call that is a success adds its line behind the lines that are there.
load_plugin_lem :
    (m : Manager) (conf : PluginConf) (a : Loader) (name : List ℕ)
    → IsAscending m.plugins_info_map
    → (load_plugin m conf a).1 ≡ success
    → find_info name (load_plugin m conf a).0.plugins_info_map
      ≡ or_else (find_info name m.plugins_info_map) (if_named name conf.name a.create_instance)
unfolding load_plugin
load_plugin_lem m conf a name v e = after_open_lem m conf a a.dlopen name v e

after_create-IsAscending :
    (m : Manager) (conf : PluginConf) (h : ℕ) (x : Option ℕ)
    → IsAscending m.plugins_info_map
    → IsAscending (after_create m conf h x).0.plugins_info_map
unfolding after_create add_plugin
after_create-IsAscending m conf h none v = v
after_create-IsAscending m conf h (some x) v =
    insert_info-IsAscending (new_info conf h x) m.plugins_info_map v

after_open-IsAscending :
    (m : Manager) (conf : PluginConf) (a : Loader) (h : Option ℕ)
    → IsAscending m.plugins_info_map
    → IsAscending (after_open m conf a h).0.plugins_info_map
unfolding after_open
after_open-IsAscending m conf a none v = v
after_open-IsAscending m conf a (some h) v =
    ground (arith, after_create-IsAscending m conf h a.create_instance v)

load_plugin-IsAscending :
    (m : Manager) (conf : PluginConf) (a : Loader)
    → IsAscending m.plugins_info_map
    → IsAscending (load_plugin m conf a).0.plugins_info_map
unfolding load_plugin
load_plugin-IsAscending m conf a v = after_open-IsAscending m conf a a.dlopen v

load_loop_lem :
    (m : Manager) (confs : List (PluginConf × Loader)) (name : List ℕ)
    → IsAscending m.plugins_info_map
    → (load_loop m confs).1 ≡ success
    → find_info name (load_loop m confs).0.plugins_info_map
      ≡ or_else (find_info name m.plugins_info_map) (first_line name confs)
unfolding load_loop
load_loop_lem m [] name v e = sym (or_else-none (find_info name m.plugins_info_map))
load_loop_lem m ((conf, a) ∷ rest) name v e = ground (
  arith,
  load_plugin_lem m conf a name v,
  load_loop_lem (load_plugin m conf a).0 rest name (load_plugin-IsAscending m conf a v),
  or_else_assoc (find_info name m.plugins_info_map) (if_named name conf.name a.create_instance)
      (first_line name rest),
)

-- When plugin_create_manager is a success, GetPlugin finds for every name the instance of the first
-- line of the configuration with that name, and none where no line has it.
pub get_plugin-create_manager :
    (confs : List (PluginConf × Loader)) (name : List ℕ)
    → (create_manager confs).1 ≡ success
    → get_plugin (create_manager confs).0 name ≡ first_line name confs
unfolding create_manager get_plugin find_info
get_plugin-create_manager confs name e =
    load_loop_lem (record { plugins_info_map = []; log = [] }) confs name tt e
