-- ===== src/Plugins.antt =====
-- module_plugin: the manager that loads the plugins of the configuration, calls them and unloads
-- them (plugin_manager.h, plugin_manager.cc, and the functions of utils.cc that call it).
pub mod Names
pub mod Lifetimes
pub mod Lines
use nginx_modules.Base.{
  ℕ, zero, suc, memcmp, Ordering, Bool, true, false, not, if◌then◌else◌, Option, none, some, List,
  [], ◌∷◌,
}

-- What is done with a shared object and with an instance of a plugin, by the number of each.
pub data Event : Type 0 where
  opened closed created deleted : ℕ → Event
  init_master init_process : ℕ → List ℕ → Event
  exit_process exit_master : ℕ → Event

-- 0 and -1.
pub data Rc : Type 0 where
  success error : Rc

-- plugin_conf_t
pub record PluginConf : Type 0 where
  pub name : List ℕ
  pub so_path : List ℕ
  pub so_conf : List ℕ

-- CPluginInfo
pub record PluginInfo : Type 0 where
  pub plugin_name : List ℕ
  pub so_path : List ℕ
  pub so_conf : List ℕ
  pub plugin_ptr : ℕ
  pub so_handler : ℕ

-- CPluginManager: the map in the order of its keys. With the events, the last one first.
pub record Manager : Type 0 where
  pub plugins_info_map : List PluginInfo
  pub log : List Event

-- What the loader answers during one call: dlopen, dlsym, and create_instance.
pub record Loader : Type 0 where
  pub dlopen : Option ℕ
  pub dlsym : Bool
  pub create_instance : Option ℕ

-- `insert` of a `std::map`, which leaves the entry of a key that is there, and whether it is new.
unfoldable pub insert_info : PluginInfo → List PluginInfo → List PluginInfo × Bool
insert_info x [] = (x ∷ [], true)
insert_info x (y ∷ ys) =
    let (zs, is_new) = insert_info x ys in
    elim (memcmp x.plugin_name y.plugin_name) [
      | Ordering.lt ↦ (x ∷ y ∷ ys, true)
      | Ordering.eq ↦ (y ∷ ys, false)
      | Ordering.gt ↦ (y ∷ zs, is_new)
    ]

-- CPluginManager::GetPlugin
unfoldable pub find_info : List ℕ → List PluginInfo → Option ℕ
find_info name [] = none
find_info name (y ∷ ys) =
    let rest = find_info name ys in
    elim (memcmp name y.plugin_name) [
      | Ordering.lt ↦ rest
      | Ordering.eq ↦ some y.plugin_ptr
      | Ordering.gt ↦ rest
    ]

unfoldable pub get_plugin : Manager → List ℕ → Option ℕ
unfolding find_info
get_plugin m name = find_info name m.plugins_info_map

-- ~CPluginInfo
unfoldable pub destroy_info : PluginInfo → List Event → List Event
destroy_info x log = closed x.so_handler ∷ deleted x.plugin_ptr ∷ log

-- The end of LoadPlugin: an entry that is not taken into the map goes with its last pointer.
unfoldable pub add_plugin : Manager → PluginInfo → Manager
unfolding insert_info destroy_info
add_plugin m x =
    let (infos, is_new) = insert_info x m.plugins_info_map in
    record { plugins_info_map = infos; log = if is_new then m.log else destroy_info x m.log }

abbrev pub new_info : PluginConf → ℕ → ℕ → PluginInfo
new_info conf h x = record {
  plugin_name = conf.name;
  so_path = conf.so_path;
  so_conf = conf.so_conf;
  plugin_ptr = x;
  so_handler = h;
}

-- LoadPlugin from create_instance on.
unfoldable pub after_create : Manager → PluginConf → ℕ → Option ℕ → Manager × Rc
unfolding add_plugin
after_create m conf h none = (record m { log = closed h ∷ opened h ∷ m.log }, error)
after_create m conf h (some x) =
    (add_plugin (record m { log = created x ∷ opened h ∷ m.log }) (new_info conf h x), success)

-- LoadPlugin from dlsym on.
unfoldable pub after_open : Manager → PluginConf → Loader → Option ℕ → Manager × Rc
unfolding after_create
after_open m conf a none = (m, error)
after_open m conf a (some h) =
    if a.dlsym
    then after_create m conf h a.create_instance
    else (record m { log = closed h ∷ opened h ∷ m.log }, error)

-- CPluginManager::LoadPlugin
unfoldable pub load_plugin : Manager → PluginConf → Loader → Manager × Rc
unfolding after_open
load_plugin m conf a = after_open m conf a a.dlopen

-- The loop of plugin_create_manager.
unfoldable pub load_loop : Manager → List (PluginConf × Loader) → Manager × Rc
unfolding load_plugin
load_loop m [] = (m, success)
load_loop m ((conf, a) ∷ rest) =
    let r = load_loop (load_plugin m conf a).0 rest in
    elim (load_plugin m conf a).1 [ success ↦ r | error ↦ ((load_plugin m conf a).0, error) ]

-- plugin_create_manager
unfoldable pub create_manager : List (PluginConf × Loader) → Manager × Rc
unfolding load_loop
create_manager confs = load_loop (record { plugins_info_map = []; log = [] }) confs

-- The loops of PluginInitMaster and PluginInitProcess. `answer` is what the function of a plugin
-- returns.
unfoldable pub init_loop :
    (ℕ → List ℕ → Event) → (ℕ → List ℕ → ℕ) → List PluginInfo → List Event → List Event × Rc
init_loop event answer [] log = (log, success)
init_loop event answer (x ∷ xs) log =
    let log' : List Event = event x.plugin_ptr x.so_conf ∷ log in
    let r = init_loop event answer xs log' in
    elim (answer x.plugin_ptr x.so_conf) [ zero ↦ r | suc n ↦ (log', error) ]

-- CPluginManager::PluginInitMaster
unfoldable pub plugin_init_master : (ℕ → List ℕ → ℕ) → Manager → Manager × Rc
unfolding init_loop
plugin_init_master answer m =
    let (log, rc) = init_loop init_master answer m.plugins_info_map m.log in
    (record m { log = log }, rc)

-- CPluginManager::PluginInitProcess
unfoldable pub plugin_init_process : (ℕ → List ℕ → ℕ) → Manager → Manager × Rc
unfolding init_loop
plugin_init_process answer m =
    let (log, rc) = init_loop init_process answer m.plugins_info_map m.log in
    (record m { log = log }, rc)

-- The loops of PluginExitProcess and PluginExitMaster.
unfoldable pub exit_loop : (ℕ → Event) → List PluginInfo → List Event → List Event
exit_loop event [] log = log
exit_loop event (x ∷ xs) log = exit_loop event xs (event x.plugin_ptr ∷ log)

-- CPluginManager::PluginExitProcess
unfoldable pub plugin_exit_process : Manager → Manager
unfolding exit_loop
plugin_exit_process m = record m { log = exit_loop exit_process m.plugins_info_map m.log }

-- The entries of the map as it goes.
unfoldable pub destroy_loop : List PluginInfo → List Event → List Event
unfolding destroy_info
destroy_loop [] log = log
destroy_loop (x ∷ xs) log = destroy_loop xs (destroy_info x log)

-- plugin_exit_master of utils.cc, with the manager's destructor.
unfoldable pub plugin_exit_master : Manager → List Event
unfolding exit_loop destroy_loop
plugin_exit_master m =
    destroy_loop m.plugins_info_map (exit_loop exit_master m.plugins_info_map m.log)

-- ngx_http_plugin_init_module
unfoldable pub init_module : (ℕ → List ℕ → ℕ) → List (PluginConf × Loader) → Manager × Rc
unfolding create_manager plugin_init_master
init_module answer confs = elim (create_manager confs).1 [
  | error ↦ ((create_manager confs).0, error)
  | success ↦ plugin_init_master answer (create_manager confs).0
]

-- The functions of ngx_plugin_module.c that nginx calls while it reads the configuration: the list of
-- lines is empty at first, where there is memory, and nothing is done at the end.
unfoldable pub create_main_conf : Bool → Option (List PluginConf)
create_main_conf true = some []
create_main_conf false = none

unfoldable pub init_main_conf : List PluginConf → List PluginConf × Rc
init_main_conf confs = (confs, success)

-- ngx_http_plugin_init_process, in a worker with its copy of the manager
unfoldable pub worker_init_process : (ℕ → List ℕ → ℕ) → Manager → Manager × Rc
unfolding plugin_init_process
worker_init_process answer m = plugin_init_process answer m

-- ngx_http_plugin_exit_process and ngx_http_plugin_exit_master
unfoldable pub worker_exit_process : Manager → Manager
unfolding plugin_exit_process
worker_exit_process m = plugin_exit_process m

unfoldable pub module_exit_master : Manager → List Event
unfolding plugin_exit_master
module_exit_master m = plugin_exit_master m
