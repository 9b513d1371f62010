-- ===== src/Handle.antt =====
-- module_handle: a location whose requests a plugin answers (ngx_handle_interface.cc and
-- ngx_handle_module.c).
use nginx_modules.Base.{ℕ, false, Option, none, some, List, [], ◌∷◌}
use nginx_modules.Request.{CRequest, Ret, success, nosend, failure, Plugin, new_request}
use nginx_modules.Upstream.{Rc, ngx_ok, ngx_error, http}
use nginx_modules.Response.{HttpRequest, Nginx, crequest_to_ngxr_impl}
use nginx_modules.Plugins.{Manager, get_plugin}
use nginx_modules.Intake.{Reads, Outcome, endless, failed, completed}
use nginx_modules.Intake.Conversion.{HttpRequestIn, ngxr_to_crequest}

-- What the handler asks for: the variable plugin_name, the plugins that are loaded with what each
-- instance does, the client's request with the file of its body, and what nginx answers to the
-- response. `context` is what a new CRequest holds for the plugin.
pub record World (X : Type 0) : Type 0 where
  pub plugin_name : Option (List ℕ)
  pub manager : Manager
  pub instance_of : ℕ → Plugin X
  pub request : HttpRequestIn
  pub reads : Reads
  pub garbage : ℕ → List ℕ
  pub fuel : ℕ
  pub context : X
  pub nginx : Nginx

pub data Method : Type 0 where
  get head post other : Method

abbrev pub internal_error : HttpRequest → HttpRequest
internal_error r = record r { status = 500; content_length_n = 0 }

module _ {X : Type 0} where
  -- plugin_getbyname
  unfoldable pub plugin_getbyname : World X → List ℕ → Option (Plugin X)
  plugin_getbyname w name = elim (get_plugin w.manager name) [
    | none ↦ none
    | some x ↦ some (w.instance_of x)
  ]

  -- ngx_http_handler_init once the variable has been read.
  unfoldable pub init_named : World X → Option (Plugin X) → Option (List ℕ) → Option (Plugin X) × Rc
  unfolding plugin_getbyname
  init_named w plugin none = (plugin, ngx_error)
  init_named w plugin (some []) = (plugin, ngx_error)
  init_named w plugin (some (x ∷ name)) =
      let found = plugin_getbyname w (x ∷ name) in
      (found, elim found [ none ↦ ngx_error | some p ↦ ngx_ok ])

  -- ngx_http_handler_init on the global `handle_plugin`.
  unfoldable pub handler_init : World X → Option (Plugin X) → Option (Plugin X) × Rc
  unfolding init_named
  handler_init w plugin = init_named w plugin w.plugin_name

  -- The end of ngx_http_handler_process, with what Handle has returned.
  unfoldable pub after_handle : World X → HttpRequest → CRequest X × Ret → HttpRequest × Rc
  after_handle w r (c, success) = crequest_to_ngxr_impl w.nginx c false r
  after_handle w r (c, nosend) = crequest_to_ngxr_impl w.nginx c false (internal_error r)
  after_handle w r (c, failure n) = crequest_to_ngxr_impl w.nginx c false (internal_error r)

  -- ngx_http_handler_process from the request on. `none` is a conversion that never ends.
  unfoldable pub after_init :
      World X → Plugin X → HttpRequest → Outcome (CRequest X) → Option (HttpRequest × Rc)
  unfolding after_handle
  after_init w plugin r endless = none
  after_init w plugin r (failed c) = some (internal_error r, http 500)
  after_init w plugin r (completed c) = some (after_handle w r (plugin.handle c))

  -- ngxr_to_crequest on a new CRequest.
  abbrev pub new_crequest : World X → Outcome (CRequest X)
  new_crequest w = (ngxr_to_crequest w.reads w.garbage w.fuel w.request (new_request w.context)).1

  unfoldable pub after_lookup :
      World X → HttpRequest → Option (Plugin X) × Rc → Option (HttpRequest × Rc)
  unfolding after_init
  after_lookup w r (some plugin, ngx_ok) = after_init w plugin r (new_crequest w)
  after_lookup w r (plugin, rc) = some (internal_error r, http 500)

  -- ngx_http_handler_process; the global keeps what was looked up.
  unfoldable pub handler_process :
      World X → Option (Plugin X) → HttpRequest → Option (Plugin X) × Option (HttpRequest × Rc)
  unfolding handler_init after_lookup
  handler_process w plugin r = let o = handler_init w plugin in (o.0, after_lookup w r o)

  -- ngx_http_handle_handler: `read` is what ngx_http_read_client_request_body returns, after which
  -- nginx calls ngx_http_handle_post_handler once the body is there.
  unfoldable pub handle_handler :
      World X
      → Option (Plugin X)
      → Rc
      → HttpRequest
      → Method
      → Option (Plugin X) × Option (HttpRequest × Rc)
  unfolding handler_process
  handle_handler w plugin read r get = handler_process w plugin r
  handle_handler w plugin read r head = handler_process w plugin r
  handle_handler w plugin read r post = (plugin, some (r, read))
  handle_handler w plugin read r other = (plugin, some (r, http 405))

  -- ngx_http_handle_post_handler: the code is what ngx_http_finalize_request gets.
  unfoldable pub handle_post_handler :
      World X → Option (Plugin X) → HttpRequest → Option (Plugin X) × Option (HttpRequest × Rc)
  unfolding handler_process
  handle_post_handler w plugin r = handler_process w plugin r
