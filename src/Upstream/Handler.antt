-- ===== src/Upstream/Handler.antt =====
-- ngx_http_proto_upstream_handler with ngx_http_proto_upstream_init_plugin.
use nginx_modules.Base.{ℕ, suc, if◌then◌else◌, not, Bool, false, Option, none, some, List, [], ◌∷◌}
use nginx_modules.Request.{CRequest, Ret, success, Plugin}
use nginx_modules.Upstream.{
  Rc, ngx_ok, ngx_error, ngx_done, http, Conf, Req, null, live, answered, add_event,
  destroy_crequest, upstream_create_request,
}

-- What nginx and the functions of module_plugin answer during the call: the method, the results of
-- ngx_http_discard_request_body, ngx_http_set_content_type and ngx_http_upstream_create, the variable
-- plugin_name, the plugin of a name, room for the context, and ngxr_to_crequest.
pub record Arrival (X : Type 0) : Type 0 where
  pub get_or_head : Bool
  pub discarded : Rc
  pub typed : Bool
  pub made : Bool
  pub plugin_name : Option (List ℕ)
  pub getbyname : List ℕ → Option (Plugin X)
  pub room : Bool
  pub crequest : CRequest X
  pub converted : Bool

-- A request with the upstream that ngx_http_upstream_create makes.
abbrev pub fresh : {X : Type 0} → Req X
fresh = record {
  message = [];
  has_processed = false;
  status_code = 0;
  crequest = null;
  buffer = [];
  content_length_n = none;
  length_left = none;
  keepalive = false;
  request_bufs = none;
  out_bufs = [];
  status_n = 0;
  content_type = [];
  count = 0;
  log = [];
}

module _ {X : Type 0} where
  -- ngx_http_proto_upstream_init_plugin: a plugin that is not found is written to the location too.
  unfoldable pub init_plugin : Arrival X → Conf X → Conf X × Rc
  init_plugin a conf = elim a.plugin_name [
    | none ↦ (conf, ngx_error)
    | some [] ↦ (conf, ngx_error)
    | some (x ∷ name) ↦ (
      record { plugin = a.getbyname (x ∷ name) },
      elim (a.getbyname (x ∷ name)) [ none ↦ ngx_error | some plugin ↦ ngx_ok ],
    )
  ]

  -- The end of the handler: with a request that is not to be sent, or is not made, the response is
  -- sent at once; else nginx starts the upstream.
  unfoldable pub after_create : Conf X → Req X × Ret → Req X × Rc
  unfolding destroy_crequest
  after_create conf (r, success) = (record r { count = suc r.count }, ngx_done)
  after_create conf (r, ret) = (destroy_crequest conf.plugin (add_event r answered), ngx_done)

  -- The handler from the context on.
  unfoldable pub start : Arrival X → Conf X → Req X × Rc
  unfolding destroy_crequest upstream_create_request after_create
  start a conf =
      if not a.room
      then (fresh, http 500)
      else (if not a.converted
          then (
            destroy_crequest conf.plugin (record fresh { crequest = live a.crequest }),
            ngx_error,
          )
          else after_create conf (upstream_create_request conf.plugin a.crequest fresh))

  -- The handler once the plugin is looked up.
  unfoldable pub after_plugin : Arrival X → Conf X × Rc → Conf X × Req X × Rc
  unfolding start
  after_plugin a (conf, ngx_ok) = let (r, rc) = start a conf in (conf, r, rc)
  after_plugin a (conf, rc) = (conf, fresh, ngx_error)

  unfoldable pub after_discard : Arrival X → Conf X → Rc → Conf X × Req X × Rc
  unfolding init_plugin after_plugin
  after_discard a conf ngx_ok =
      if not a.typed
      then (conf, fresh, http 500)
      else (if not a.made then (conf, fresh, http 500) else after_plugin a (init_plugin a conf))
  after_discard a conf rc = (conf, fresh, rc)

  -- ngx_http_proto_upstream_handler
  unfoldable pub handler : Arrival X → Conf X → Conf X × Req X × Rc
  unfolding after_discard
  handler a conf =
      if not a.get_or_head then (conf, fresh, http 405) else after_discard a conf a.discarded
