-- ===== src/Upstream/Passing.antt =====
-- The upstream module's handler with the plugin manager and the conversion of the request behind it,
-- up to the frame that goes to the backend.
use nginx_modules.Base.{
  ℕ, ◌+◌, ◌<◌, ◌^◌, ◌≡◌, refl, ap, ◌∙◌, Option-cases, inl, inr, if◌then◌else◌, not, Bool, true,
  false, Option, none, some, List, [], ◌∷◌, ◌++◌, length, arith,
}
use nginx_modules.Request.{CRequest, success, Plugin, new_request, no_params, new_headers_in}
use nginx_modules.Plugins.{Manager, PluginConf, Loader, get_plugin, create_manager}
use nginx_modules.Plugins
use nginx_modules.Plugins.Names.{first_line, get_plugin-create_manager}
use nginx_modules.Intake.{Reads, Outcome, endless, failed, completed, Buf, get_post_body}
use nginx_modules.Intake.Conversion.{
  HttpRequestIn, ngxr_to_crequest, split_args, tabs_to_spaces, read_headers, with_body,
}
use nginx_modules.Protocol.{header_length, body, encode, decode}
use nginx_modules.Protocol.Frames.{decode-encode}
use nginx_modules.Upstream.{
  Rc, ngx_ok, ngx_done, http, handled, Conf, Req, live, upstream_create_request, after_handle,
}
use nginx_modules.Upstream.Handler.{
  Arrival, fresh, init_plugin, after_create, start, after_discard, handler,
}
use nginx_modules.Upstream.Callbacks.{create_request}

-- What the handler reads and is answered: as in Arrival, with the plugins that are loaded and what
-- each instance does, and the client's request with the file of its body.
pub record World (X : Type 0) : Type 0 where
  pub get_or_head : Bool
  pub discarded : Rc
  pub typed : Bool
  pub made : Bool
  pub plugin_name : Option (List ℕ)
  pub room : Bool
  pub manager : Manager
  pub instance_of : ℕ → Plugin X
  pub request : HttpRequestIn
  pub reads : Reads
  pub garbage : ℕ → List ℕ
  pub fuel : ℕ
  pub context : X

no_body :
    (reads : Reads) (garbage : ℕ → List ℕ) (fuel : ℕ) (bufs : Option (List Buf))
    → get_post_body reads garbage fuel false bufs [] ≡ completed []
unfolding get_post_body
no_body reads garbage fuel none = refl
no_body reads garbage fuel (some bufs) = refl

encode_room :
    (alloc : ℕ → Bool) (text : List ℕ)
    → ((n : ℕ) → alloc n ≡ true)
    → (frame : List ℕ) × (encode alloc text ≡ some frame)
unfolding encode
encode_room alloc text room = elim (Option-cases (encode alloc text)) [
  | inl e ↦ absurd (ground (arith, e, room (header_length + length text)))
  | inr x ↦ x
]

module _ {X : Type 0} where
  -- plugin_getbyname
  unfoldable pub plugin_getbyname : World X → List ℕ → Option (Plugin X)
  plugin_getbyname w name = elim (get_plugin w.manager name) [
    | none ↦ none
    | some x ↦ some (w.instance_of x)
  ]

  abbrev pub arrival_of : World X → CRequest X → Bool → Arrival X
  arrival_of w c b = record {
    get_or_head = w.get_or_head;
    discarded = w.discarded;
    typed = w.typed;
    made = w.made;
    plugin_name = w.plugin_name;
    getbyname = plugin_getbyname w;
    room = w.room;
    crequest = c;
    converted = b;
  }

  unfoldable pub handle_converted :
      World X → Conf X → Outcome (CRequest X) → Option (Conf X × Req X × Rc)
  unfolding handler
  handle_converted w conf endless = none
  handle_converted w conf (failed c) = some (handler (arrival_of w c false) conf)
  handle_converted w conf (completed c) = some (handler (arrival_of w c true) conf)

  -- ngxr_to_crequest on a new CRequest.
  abbrev pub converted : World X → Outcome (CRequest X)
  converted w = (ngxr_to_crequest w.reads w.garbage w.fuel w.request (new_request w.context)).1

  -- ngx_http_proto_upstream_handler. `none` would be a conversion that never ends: that of a POST, which
  -- is refused before it.
  unfoldable pub named_handler : World X → Conf X → Option (Conf X × Req X × Rc)
  unfolding handle_converted
  named_handler w conf =
      if not w.get_or_head
      then some (conf, fresh, http 405)
      else handle_converted w conf (converted w)

  -- What the plugin gets of a request with no body: the path, the arguments and the headers.
  abbrev pub bodyless : World X → CRequest X
  bodyless w = record (new_request w.context) {
    uri = w.request.uri;
    param = split_args no_params (tabs_to_spaces w.request.args);
    headers_in = read_headers w.request new_headers_in;
  }

  converted_lem : (w : World X) → w.request.is_post ≡ false → converted w ≡ completed (bodyless w)
  unfolding ngxr_to_crequest with_body get_post_body
  converted_lem w e =
      ap
        (λ (b : Bool).
          with_body (bodyless w) (get_post_body w.reads w.garbage w.fuel b w.request.bufs []))
        e
      ∙ ap (with_body (bodyless w)) (no_body w.reads w.garbage w.fuel w.request.bufs)

  -- A GET or HEAD request that nothing stops before the plugin is looked up.
  pub record Passes (w : World X) (name : List ℕ) : Type 0 where
    pub method_lem : w.get_or_head ≡ true
    pub not_post : w.request.is_post ≡ false
    pub discarded_lem : w.discarded ≡ ngx_ok
    pub typed_lem : w.typed ≡ true
    pub made_lem : w.made ≡ true
    pub room_lem : w.room ≡ true
    pub name_lem : w.plugin_name ≡ some name

  plugin_getbyname_lem :
      (w : World X) (name : List ℕ) (k : ℕ)
      → get_plugin w.manager name ≡ some k
      → plugin_getbyname w name ≡ some (w.instance_of k)
  unfolding plugin_getbyname
  plugin_getbyname_lem w name k e =
      ap (λ (o : Option ℕ). elim o [ none ↦ none | some x ↦ some (w.instance_of x) ]) e

  init_plugin_lem :
      (w : World X) (conf : Conf X) (x k : ℕ) (name : List ℕ)
      → w.plugin_name ≡ some (x ∷ name)
      → get_plugin w.manager (x ∷ name) ≡ some k
      → init_plugin (arrival_of w (bodyless w) true) conf
        ≡ (record { plugin = some (w.instance_of k) }, ngx_ok)
  unfolding init_plugin
  init_plugin_lem w conf x k name e g =
      rw (e, init_plugin, plugin_getbyname_lem w (x ∷ name) k g) refl

  -- The request behind a call of Handle that is a success.
  abbrev asked : Plugin X → CRequest X → Req X
  asked plugin c = record fresh {
    crequest = live c;
    message = c.response_body;
    count = 1;
    log = handled plugin.name ∷ [];
  }

  start_lem :
      (w : World X) (plugin : Plugin X) (c : CRequest X)
      → w.room ≡ true
      → plugin.handle (bodyless w) ≡ (c, success)
      → start (arrival_of w (bodyless w) true) (record { plugin = some plugin })
        ≡ (asked plugin c, ngx_done)
  unfolding start upstream_create_request after_create after_handle
  start_lem w plugin c m h = rw (m, h) refl

  -- The handler on a request that reaches the plugin.
  handler_lem :
      (w : World X) (conf : Conf X) (x k : ℕ) (name : List ℕ) (c : CRequest X)
      → Passes w (x ∷ name)
      → get_plugin w.manager (x ∷ name) ≡ some k
      → (w.instance_of k).handle (bodyless w) ≡ (c, success)
      → (r : Req X) × (handler (arrival_of w (bodyless w) true) conf
          ≡ (record { plugin = some (w.instance_of k) }, r, ngx_done))
        × (r.message ≡ c.response_body)
  unfolding handler after_discard
  handler_lem w conf x k name c p g h =
      let plugin = w.instance_of k in
      (
        asked plugin c,
        ground (
          arith,
          p.method_lem,
          p.discarded_lem,
          p.typed_lem,
          p.made_lem,
          init_plugin_lem w conf x k name p.name_lem g,
          start_lem w plugin c p.room_lem h,
        ),
        refl,
      )

  -- A GET or HEAD request whose plugin_name is the name of a line of the configuration, where the
  -- manager was made from that configuration with success, and the body is discarded, the content type
  -- set, the upstream made and the context allocated. Where the Handle of the plugin of the first line
  -- with the name, called with a CRequest of the path, the arguments and the headers, is a success
  -- with a text of fewer than 2^32 bytes: the handler returns NGX_DONE with that plugin in the
  -- location's settings, and where there is memory create_request gives the upstream a frame that
  -- ngx_http_protocol_decode, this module's own decoder, reads as that text, also with bytes behind it.
  pub named_handler-decode :
      (w : World X) (conf : Conf X) (x k : ℕ) (name : List ℕ) (c : CRequest X)
      (confs : List (PluginConf × Loader)) (alloc : ℕ → Bool) (rest : List ℕ)
      → Passes w (x ∷ name)
      → (create_manager confs).1 ≡ Plugins.success
      → w.manager ≡ (create_manager confs).0
      → first_line (x ∷ name) confs ≡ some k
      → (w.instance_of k).handle (bodyless w) ≡ (c, success)
      → length c.response_body < 2 ^ 32
      → ((n : ℕ) → alloc n ≡ true)
      → (r : Req X) × (frame : List ℕ) × (named_handler w conf
          ≡ some (record { plugin = some (w.instance_of k) }, r, ngx_done))
        × ((create_request alloc true r).0.request_bufs ≡ some (some frame))
        × (decode (frame ++ rest) ≡ body (length c.response_body) (c.response_body ++ rest))
  unfolding named_handler handle_converted create_request
  named_handler-decode w conf x k name c confs alloc rest p e m f h s room =
      let g : get_plugin w.manager (x ∷ name) ≡ some k =
        ap (λ (m : Manager). get_plugin m (x ∷ name)) m
        ∙ get_plugin-create_manager confs (x ∷ name) e
        ∙ f in
      let (r, q, t) = handler_lem w conf x k name c p g h in
      let (frame, enc) = encode_room alloc c.response_body room in
      (
        r,
        frame,
        ap
              (λ (b : Bool).
                if not b
                then some (conf, fresh, http 405)
                else handle_converted w conf (converted w))
              p.method_lem
            ∙ ap (handle_converted w conf) (converted_lem w p.not_post)
            ∙ ap (λ (o : Conf X × Req X × Rc). some o) q,
        ap (λ (text : List ℕ). some (encode alloc text)) t
            ∙ ap (λ (o : Option (List ℕ)). some o) enc,
        decode-encode alloc c.response_body rest frame s enc,
      )
