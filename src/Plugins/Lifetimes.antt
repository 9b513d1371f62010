-- ===== src/Plugins/Lifetimes.antt =====
-- The instances and the shared objects over the life of the manager.
use nginx_modules.Base.{
  ℕ, ◌+◌, ◌≡◌, refl, Bool, ◌==◌, if◌then◌else◌, Option, none, some, List, [], ◌∷◌, arith,
}
use nginx_modules.Plugins.{
  Event, opened, closed, created, deleted, init_master, exit_master, PluginConf, PluginInfo,
  Manager, Loader, insert_info, destroy_info, add_plugin, new_info, after_create, after_open,
  load_plugin, load_loop, create_manager, init_loop, plugin_init_master, exit_loop, destroy_loop,
  plugin_exit_master, init_module,
}

abbrev one_if : Bool → ℕ
one_if b = if b then 1 else 0

-- How often the events are the creation of instance `n` less the deletions, and so on.
abbrev pub creations : ℕ → List Event → ℕ
creations n [] = 0
creations n (created x ∷ log) = one_if (n == x) + creations n log
creations n (_ ∷ log) = creations n log

abbrev pub deletions : ℕ → List Event → ℕ
deletions n [] = 0
deletions n (deleted x ∷ log) = one_if (n == x) + deletions n log
deletions n (_ ∷ log) = deletions n log

abbrev pub openings : ℕ → List Event → ℕ
openings n [] = 0
openings n (opened x ∷ log) = one_if (n == x) + openings n log
openings n (_ ∷ log) = openings n log

abbrev pub closings : ℕ → List Event → ℕ
closings n [] = 0
closings n (closed x ∷ log) = one_if (n == x) + closings n log
closings n (_ ∷ log) = closings n log

-- How often the map holds an instance and a shared object.
abbrev instances : ℕ → List PluginInfo → ℕ
instances n [] = 0
instances n (x ∷ xs) = one_if (n == x.plugin_ptr) + instances n xs

abbrev objects : ℕ → List PluginInfo → ℕ
objects n [] = 0
objects n (x ∷ xs) = one_if (n == x.so_handler) + objects n xs

-- What has been made and not been given back is in the map.
record Holds (n : ℕ) (infos : List PluginInfo) (log : List Event) : Type 0 where
  pub instances_lem : creations n log ≡ deletions n log + instances n infos
  pub objects_lem : openings n log ≡ closings n log + objects n infos

module _ (n : ℕ) where
  insert_info_lem :
      (x : PluginInfo) (ys : List PluginInfo)
      → let r = insert_info x ys in
        (instances n r.0 ≡ (if r.1 then one_if (n == x.plugin_ptr) else 0) + instances n ys)
        × (objects n r.0 ≡ (if r.1 then one_if (n == x.so_handler) else 0) + objects n ys)
  unfolding insert_info
  insert_info_lem x [] = (refl, refl)
  insert_info_lem x (y ∷ ys) = ground (arith, insert_info_lem x ys)

  add_plugin-Holds :
      (m : Manager) (conf : PluginConf) (h x : ℕ)
      → Holds n m.plugins_info_map m.log
      → let m' = add_plugin (record m { log = created x ∷ opened h ∷ m.log }) (new_info conf h x) in
        Holds n m'.plugins_info_map m'.log
  unfolding add_plugin destroy_info
  add_plugin-Holds m conf h x v =
      ground (arith, insert_info_lem (new_info conf h x) m.plugins_info_map)

  after_create-Holds :
      (m : Manager) (conf : PluginConf) (h : ℕ) (x : Option ℕ)
      → Holds n m.plugins_info_map m.log
      → let m' = (after_create m conf h x).0 in Holds n m'.plugins_info_map m'.log
  unfolding after_create
  after_create-Holds m conf h none v = ground arith
  after_create-Holds m conf h (some x) v = add_plugin-Holds m conf h x v

  after_open-Holds :
      (m : Manager) (conf : PluginConf) (a : Loader) (h : Option ℕ)
      → Holds n m.plugins_info_map m.log
      → let m' = (after_open m conf a h).0 in Holds n m'.plugins_info_map m'.log
  unfolding after_open
  after_open-Holds m conf a none v = v
  after_open-Holds m conf a (some h) v =
      ground (arith, after_create-Holds m conf h a.create_instance v)

  load_loop-Holds :
      (m : Manager) (confs : List (PluginConf × Loader))
      → Holds n m.plugins_info_map m.log
      → let m' = (load_loop m confs).0 in Holds n m'.plugins_info_map m'.log
  unfolding load_loop load_plugin
  load_loop-Holds m [] v = v
  load_loop-Holds m ((conf, a) ∷ rest) v =
      let w = after_open-Holds m conf a a.dlopen v in
      ground (arith, w, load_loop-Holds (load_plugin m conf a).0 rest w)

  init_loop-Holds :
      (answer : ℕ → List ℕ → ℕ) (xs infos : List PluginInfo) (log : List Event)
      → Holds n infos log
      → Holds n infos (init_loop init_master answer xs log).0
  unfolding init_loop
  init_loop-Holds answer [] infos log v = v
  init_loop-Holds answer (x ∷ xs) infos log v =
      let w : Holds n infos (init_master x.plugin_ptr x.so_conf ∷ log) = record {
        instances_lem = v.instances_lem;
        objects_lem = v.objects_lem;
      } in
      ground (arith, w, init_loop-Holds answer xs infos _ w)

  exit_loop-Holds :
      (xs infos : List PluginInfo) (log : List Event)
      → Holds n infos log
      → Holds n infos (exit_loop exit_master xs log)
  unfolding exit_loop
  exit_loop-Holds [] infos log v = v
  exit_loop-Holds (x ∷ xs) infos log v =
      exit_loop-Holds xs infos _
        (record { instances_lem = v.instances_lem; objects_lem = v.objects_lem })

  destroy_loop-Holds :
      (infos : List PluginInfo) (log : List Event)
      → Holds n infos log
      → Holds n [] (destroy_loop infos log)
  unfolding destroy_loop destroy_info
  destroy_loop-Holds [] log v = v
  destroy_loop-Holds (x ∷ infos) log v = destroy_loop-Holds infos _ (ground arith)

  init_module-Holds :
      (answer : ℕ → List ℕ → ℕ) (confs : List (PluginConf × Loader))
      → let m = (init_module answer confs).0 in Holds n m.plugins_info_map m.log
  unfolding init_module create_manager plugin_init_master
  init_module-Holds answer confs =
      let m : Manager = record { plugins_info_map = []; log = [] } in
      let v = load_loop-Holds m confs (record { instances_lem = refl; objects_lem = refl }) in
      ground (arith, v, init_loop-Holds answer (create_manager confs).0.plugins_info_map _ _ v)

-- Whatever the loader answers and the plugins return, also where a line fails, and where two lines
-- have one name: once plugin_exit_master has run, every instance has been deleted as often as it
-- was created, and every shared object closed as often as it was opened.
pub plugin_exit_master-init_module :
    (answer : ℕ → List ℕ → ℕ) (confs : List (PluginConf × Loader)) (n : ℕ)
    → let log = plugin_exit_master (init_module answer confs).0 in
      (deletions n log ≡ creations n log) × (closings n log ≡ openings n log)
unfolding plugin_exit_master
plugin_exit_master-init_module answer confs n =
    let m = (init_module answer confs).0 in
    let v = destroy_loop-Holds n m.plugins_info_map _ (
      exit_loop-Holds n m.plugins_info_map m.plugins_info_map m.log
        (init_module-Holds n answer confs)) in
    omega (arith, v.instances_lem, v.objects_lem)
