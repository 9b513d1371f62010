-- ===== src/Subrequest/Start.antt =====
-- init_plugin and subrequest_post_handler of ngx_subrequest_interface.cc, with the plugin manager and
-- the conversion of the request behind init_plugin.
use nginx_modules.Base.{ℕ, ◌≡◌, ◌≢◌, ◌⊎◌, inl, inr, ap, ◌∙◌, Option, none, some, List, [], ◌∷◌}
use nginx_modules.Request.{new_request}
use nginx_modules.Request
use nginx_modules.Plugins
use nginx_modules.Plugins.{Manager, PluginConf, Loader, get_plugin, create_manager}
use nginx_modules.Plugins.Names.{first_line, get_plugin-create_manager}
use nginx_modules.Intake.{Reads, Outcome, endless, failed, completed}
use nginx_modules.Intake.Conversion.{HttpRequestIn, ngxr_to_crequest}
use nginx_modules.Subrequest.{Rc, ngx_ok, PluginRc, plugin_again, CRequest, Plugin, Ctx, Nginx}
use nginx_modules.Subrequest.Handler.{fresh, init_request, run}
use nginx_modules.Subrequest.Runs.Answers.{answered, run-answered}

-- What a call of init_plugin reads: the variable plugin_name, the plugins that are loaded with what
-- each instance does, and the client's request with the file of its body. `context` is what a new
-- CRequest holds for the plugin.
pub record World (X : Type 0) : Type 0 where
  pub plugin_name : Option (List ℕ)
  pub manager : Manager
  pub instance_of : ℕ → Plugin (Request.CRequest X)
  pub request : HttpRequestIn
  pub reads : Reads
  pub garbage : ℕ → List ℕ
  pub fuel : ℕ
  pub context : X

-- How init_plugin ends: never, with NGX_ERROR, or with the plugin and the request in the context.
pub data Init (X : Type 0) : Type 0 where
  unending refused : Init X
  ready : Plugin (Request.CRequest X) → CRequest (Request.CRequest X) → Init X

-- The handler that nginx calls for a request when its connection can be written to.
pub data WriteHandler : Type 0 where
  core_run_phases another : WriteHandler

-- subrequest_post_handler on the parent's handler; the subrequest's result is not read.
unfoldable pub subrequest_post_handler : WriteHandler → Rc → WriteHandler × Rc
subrequest_post_handler parent rc = (core_run_phases, ngx_ok)

module _ {X : Type 0} where
  -- ngxr_to_crequest on a new CRequest.
  abbrev pub converted : World X → Outcome (Request.CRequest X)
  converted w = (ngxr_to_crequest w.reads w.garbage w.fuel w.request (new_request w.context)).1

  -- The end of init_plugin: what ngxr_to_crequest returns is not tested.
  unfoldable pub after_convert : Plugin (Request.CRequest X) → Outcome (Request.CRequest X) → Init X
  after_convert plugin endless = unending
  after_convert plugin (failed c) = ready plugin (record { subrequest = []; content = c })
  after_convert plugin (completed c) = ready plugin (record { subrequest = []; content = c })

  unfoldable pub after_getbyname : World X → Option ℕ → Init X
  unfolding after_convert
  after_getbyname w none = refused
  after_getbyname w (some x) = after_convert (w.instance_of x) (converted w)

  unfoldable pub after_variable : World X → Option (List ℕ) → Init X
  unfolding after_getbyname
  after_variable w none = refused
  after_variable w (some []) = refused
  after_variable w (some (x ∷ name)) = after_getbyname w (get_plugin w.manager (x ∷ name))

  -- init_plugin
  unfoldable pub init_plugin : World X → Init X
  unfolding after_variable
  init_plugin w = after_variable w w.plugin_name

  -- ngx_http_subrequest_handler with what init_plugin puts into the context. `none` never ends.
  unfoldable pub run_after :
      Nginx (Request.CRequest X)
      → Ctx (Request.CRequest X)
      → Init X
      → Option (Ctx (Request.CRequest X) × Rc)
  unfolding run
  run_after n c unending = none
  run_after n c refused = some (run (record n { plugin = none }) c)
  run_after n c (ready plugin request) =
      some (run (record n { plugin = some plugin; request = request }) c)

  unfoldable pub run_named :
      World X
      → Nginx (Request.CRequest X)
      → Ctx (Request.CRequest X)
      → Option (Ctx (Request.CRequest X) × Rc)
  unfolding run_after init_plugin
  run_named w n c = run_after n c (init_plugin w)

  -- The conversion ends, well or with an error, with this request.
  abbrev pub EndsWith : Outcome (Request.CRequest X) → Request.CRequest X → Type 0
  EndsWith o c = (o ≡ failed c) ⊎ (o ≡ completed c)

  after_convert_lem :
      (plugin : Plugin (Request.CRequest X)) (o : Outcome (Request.CRequest X))
      (c : Request.CRequest X)
      → EndsWith o c
      → after_convert plugin o ≡ ready plugin (record { subrequest = []; content = c })
  unfolding after_convert
  after_convert_lem plugin o c (inl e) = ap (after_convert plugin) e
  after_convert_lem plugin o c (inr e) = ap (after_convert plugin) e

  init_plugin_lem :
      (w : World X) (x k : ℕ) (name : List ℕ) (c : Request.CRequest X)
      → w.plugin_name ≡ some (x ∷ name)
      → get_plugin w.manager (x ∷ name) ≡ some k
      → EndsWith (converted w) c
      → init_plugin w ≡ ready (w.instance_of k) (record { subrequest = []; content = c })
  unfolding init_plugin
  init_plugin_lem w x k name c e g h =
      ap (after_variable w) e
      ∙ ap (after_getbyname w) g
      ∙ after_convert_lem (w.instance_of k) (converted w) c h

  -- Where the manager was made from the configuration with success, the variable plugin_name is the name
  -- of one of its lines, the body is there and the conversion of the request ends, well or with an
  -- error: where the plugin of the first line with the name answers without subrequests to what the
  -- conversion has made, the first call of the handler sends that answer to the client, and the
  -- plugin's request has been made once and destroyed once; also where the conversion has failed.
  pub run_named-create_manager :
      (w : World X) (n : Nginx (Request.CRequest X)) (x k : ℕ) (name : List ℕ)
      (confs : List (PluginConf × Loader)) (r : Request.CRequest X)
      (request : CRequest (Request.CRequest X)) (a : PluginRc)
      → w.plugin_name ≡ some (x ∷ name)
      → (create_manager confs).1 ≡ Plugins.success
      → w.manager ≡ (create_manager confs).0
      → first_line (x ∷ name) confs ≡ some k
      → init_request n.method n.reading ≡ ngx_ok
      → EndsWith (converted w) r
      → (w.instance_of k).handle (record { subrequest = []; content = r }) ≡ (request, a)
      → a ≢ plugin_again
      → run_named w n fresh
        ≡ some (
          answered (record fresh { plugin = some (w.instance_of k); created = 1 }) request,
          n.crequest_to_ngxr request,
        )
  unfolding run_named
  run_named-create_manager w n x k name confs r request a e f m g i h t q =
      let found : get_plugin w.manager (x ∷ name) ≡ some k =
        ap (λ (m : Manager). get_plugin m (x ∷ name)) m
        ∙ get_plugin-create_manager confs (x ∷ name) f
        ∙ g in
      ap (run_after n fresh) (init_plugin_lem w x k name r e found h)
      ∙ unfold run_after in
        (ap (λ (z : Ctx (Request.CRequest X) × Rc). some z)
          (run-answered n (w.instance_of k) (record { subrequest = []; content = r }) request a i t
            q))
