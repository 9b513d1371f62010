-- ===== src/Upstream/Sharing.antt =====
-- The plugin of a location, which every request of the location looks up and writes anew.
use nginx_modules.Base.{
  ℕ, ◌^◌, ◌<◌, ◌≡◌, ◌≢◌, refl, sym, subst, true, Option, none, some, List, [], ◌∷◌, length, arith,
}
use nginx_modules.Request.{CRequest, Ret, success, nosend, failure, Plugin}
use nginx_modules.Protocol.{body, decode}
use nginx_modules.Upstream.{
  Rc, ngx_ok, Event, processed, Pointer, live, Conf, Req, after_process, upstream_process_body,
  received,
}
use nginx_modules.Upstream.Handler.{Arrival, after_plugin, after_discard, init_plugin, handler}
use nginx_modules.Upstream.Callbacks.{process, process_header, after_decode-body}

-- A request that gets as far as the look-up of the plugin.
pub record LooksUp {X : Type 0} (a : Arrival X) (name : List ℕ) : Type 0 where
  pub method_lem : a.get_or_head ≡ true
  pub discarded_lem : a.discarded ≡ ngx_ok
  pub typed_lem : a.typed ≡ true
  pub made_lem : a.made ≡ true
  pub name_lem : a.plugin_name ≡ some name
  pub not_empty : length name ≢ 0

-- The events with a call of the plugin that is there.
abbrev pub with_processed : {X : Type 0} → Option (Plugin X) → List Event → List Event
with_processed none log = log
with_processed (some plugin) log = processed plugin.name ∷ log

module _ {X : Type 0} where
  init_plugin_lem :
      (a : Arrival X) (conf : Conf X) (name : List ℕ)
      → a.plugin_name ≡ some name
      → length name ≢ 0
      → (init_plugin a conf).0 ≡ record { plugin = a.getbyname name }
  unfolding init_plugin
  init_plugin_lem a conf [] e n = absurd (n refl)
  init_plugin_lem a conf (x ∷ name) e n = rw (e, init_plugin)

  after_plugin_lem : (a : Arrival X) (o : Conf X × Rc) → (after_plugin a o).0 ≡ o.0
  unfolding after_plugin
  after_plugin_lem a (conf, ngx_ok) = refl
  after_plugin_lem a (conf, rc) = ground arith

  handler-plugin :
      (a : Arrival X) (conf : Conf X) (name : List ℕ)
      → LooksUp a name
      → (handler a conf).0 ≡ record { plugin = a.getbyname name }
  unfolding handler after_discard
  handler-plugin a conf name l = ground (
    arith,
    l.method_lem,
    l.discarded_lem,
    l.typed_lem,
    l.made_lem,
    after_plugin_lem a (init_plugin a conf),
    init_plugin_lem a conf name l.name_lem l.not_empty,
  )

  after_process-log : (r : Req X) (o : CRequest X × Ret) → (after_process r o).0.log ≡ r.log
  unfolding after_process
  after_process-log r (c, success) = refl
  after_process-log r (c, nosend) = refl
  after_process-log r (c, failure n) = refl

  process_body-log :
      (plugin : Option (Plugin X)) (r : Req X) (c : CRequest X)
      → (upstream_process_body plugin (live c) r).0.log ≡ with_processed plugin r.log
  unfolding upstream_process_body
  process_body-log none r c = refl
  process_body-log (some plugin) r c =
      after_process-log (record r { log = processed plugin.name ∷ r.log })
        (plugin.process_body (received r c))

  process-log :
      (conf : Conf X) (r : Req X) (c : CRequest X)
      → r.crequest ≡ live c
      → (process conf r).log ≡ with_processed conf.plugin r.log
  unfolding process
  process-log conf r c e =
      subst
        (λ (q : Pointer X).
          (upstream_process_body conf.plugin q r).0.log ≡ with_processed conf.plugin r.log)
        (sym e) (process_body-log conf.plugin r c)

  -- When a whole frame shorter than 2^31 bytes arrives for a request that is there, after another
  -- request of the location has looked up its plugin, the response goes to the other request's
  -- plugin, and to none where that one was not found.
  pub process_header_shared :
      (b : Arrival X) (conf : Conf X) (name : List ℕ) (r : Req X) (c : CRequest X) (n : ℕ)
      (rest : List ℕ)
      → LooksUp b name
      → r.crequest ≡ live c
      → decode r.buffer ≡ body n rest
      → n < 2 ^ 31
      → (process_header (handler b conf).0 r).0.log ≡ with_processed (b.getbyname name) r.log
  unfolding process_header
  process_header_shared b conf name r c n rest l e d h =
      let k : Conf X = (handler b conf).0 in
      rw
        (
          d,
          after_decode-body k r n rest h,
          process-log k (record r { buffer = rest }) c e,
          handler-plugin b conf name l,
        )
        refl
