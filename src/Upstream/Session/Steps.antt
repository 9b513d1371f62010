-- ===== src/Upstream/Session/Steps.antt =====
-- What each callback adds to the events, and the events of a whole session.
use nginx_modules.Base.{
  ℕ, suc, ◌≡◌, ◌≢◌, refl, ap, sym, subst, Bool-cases, inl, inr, ltb, ◌%◌, ◌^◌, if◌then◌else◌, Bool,
  true, false, some, List, ◌∷◌, arith,
}
use nginx_modules.Request.{CRequest, Ret, success, nosend, failure, Plugin}
use nginx_modules.Protocol.{Decoded, more_data, flag_error, body, decode}
use nginx_modules.Upstream.{
  ngx_ok, processed, Pointer, null, dangling, live, Conf, Req, after_process, upstream_process_body,
  upstream_create_request, after_handle, destroy_crequest, destroy_event, received,
}
use nginx_modules.Upstream.Handler.{
  Arrival, start, after_create, after_plugin, after_discard, init_plugin, handler,
}
use nginx_modules.Upstream.Callbacks.{
  process, after_decode, process_header, filter_init, filter, process_once, note_status,
  abort_request, finalize_request,
}
use nginx_modules.Upstream.Session.{
  Session, starts, waits, heads, readies, filters, aborts, finalizes, Phase, waiting, streaming,
  closed, processings, destructions, faults, if_processed, if_closed, conf_of, is_live, Counts,
  Expected,
}

module _ {X : Type 0} (plugin : Plugin X) where
  after_process_lem :
      (r : Req X) (o : CRequest X × Ret)
      → processings r.log ≡ 1
      → destructions r.log ≡ 0
      → faults r.log ≡ 0
      → Counts (record (after_process r o).0 { has_processed = true }) true true 1 0
  unfolding after_process
  after_process_lem r (c, success) p d f = ground arith
  after_process_lem r (c, nosend) p d f = ground arith
  after_process_lem r (c, failure n) p d f = ground arith

  process_at :
      (r : Req X) (c : Pointer X)
      → is_live c ≡ true
      → Counts r true false 0 0
      → Counts
          (record (upstream_process_body (some plugin) c r).0 { has_processed = true })
          true
          true
          1
          0
  unfolding upstream_process_body
  process_at r (live c) l k =
      after_process_lem (record r { log = processed plugin.name ∷ r.log })
        (plugin.process_body (received r c)) (ap suc k.processings_lem) k.destructions_lem
        k.faults_lem
  process_at r null l k = cc
  process_at r dangling l k = cc

  process_lem :
      (r : Req X) → Counts r true false 0 0 → Counts (process (conf_of plugin) r) true true 1 0
  unfolding process
  process_lem r k = process_at r r.crequest k.alive_lem k

  start_lem :
      (a : Arrival X) (conf : Conf X)
      → (start a conf).0.count ≡ 1
      → Counts (start a conf).0 true false 0 0
  unfolding start after_create upstream_create_request after_handle destroy_crequest destroy_event
  start_lem a conf e = ground arith

  handler_lem :
      (a : Arrival X) (conf : Conf X)
      → (handler a conf).1.count ≡ 1
      → Counts (handler a conf).1 true false 0 0
  unfolding handler after_discard init_plugin after_plugin
  handler_lem a conf e = ground (arith, start_lem a conf)

  buffer_lem :
      (r : Req X) (bytes : List ℕ) (alive done : Bool) (m k : ℕ)
      → Counts r alive done m k
      → Counts (record r { buffer = bytes }) alive done m k
  buffer_lem r bytes alive done m k c = ground arith

  decode_lem :
      (d : Decoded) (r : Req X)
      → Counts r true false 0 0
      → let o = after_decode (conf_of plugin) r d in
        ((o.1 ≡ ngx_ok) → Counts o.0 true true 1 0) × ((o.1 ≢ ngx_ok) → Counts o.0 true false 0 0)
  unfolding after_decode
  decode_lem more_data r c = (λ e. absurd (ground (arith, e)), λ n. c)
  decode_lem flag_error r c = (λ e. absurd (ground (arith, e)), λ n. c)
  decode_lem (body n rest) r c = elim (Bool-cases (ltb (n % 2 ^ 32) (2 ^ 31))) [
    | inl e ↦ rw e (
      λ _. process_lem (record r { buffer = rest }) (buffer_lem r rest true false 0 0 c),
      λ k. absurd (k refl),
    )
    | inr e ↦ rw e (λ k. absurd (ground (arith, k)), λ _. buffer_lem r rest true false 0 0 c)
  ]

  header_lem :
      (r : Req X) (bytes : List ℕ)
      → Counts r true false 0 0
      → let o = process_header (conf_of plugin) (record r { buffer = bytes }) in
        ((o.1 ≡ ngx_ok) → Counts o.0 true true 1 0) × ((o.1 ≢ ngx_ok) → Counts o.0 true false 0 0)
  unfolding process_header
  header_lem r bytes c =
      decode_lem (decode bytes) (record r { buffer = bytes }) (buffer_lem r bytes true false 0 0 c)

  filter_lem :
      (r : Req X) (room : Bool) (bytes : List ℕ)
      → Counts r true true 1 0
      → Counts (filter room r bytes).0 true true 1 0
  unfolding filter
  filter_lem r room bytes c = ground arith

  ready_lem :
      (r : Req X) (bytes : List ℕ)
      → Counts r true true 1 0
      → Counts (filter_init (record r { buffer = bytes })) true true 1 0
  unfolding filter_init
  ready_lem r bytes c = ground arith

  status_lem :
      (r : Req X) (rc : ℕ) (alive done : Bool) (m k : ℕ)
      → Counts r alive done m k
      → Counts (note_status r rc) alive done m k
  unfolding note_status
  status_lem r rc alive done m k c = ground arith

  once_lem :
      (r : Req X) (phase : Phase)
      → phase ≢ closed
      → Expected phase r
      → Counts (process_once (conf_of plugin) r) true true 1 0
  unfolding process_once
  once_lem r waiting n c =
      subst (λ (b : Bool). Counts (if b then r else process (conf_of plugin) r) true true 1 0)
        (sym c.done_lem) (process_lem r c)
  once_lem r streaming n c =
      subst (λ (b : Bool). Counts (if b then r else process (conf_of plugin) r) true true 1 0)
        (sym c.done_lem) c
  once_lem r closed n c = absurd (n refl)

  destroy_at :
      (r : Req X) (c : Pointer X)
      → is_live c ≡ true
      → Counts r true true 1 0
      → Counts (record (destroy_event (some plugin) c r) { crequest = null }) false true 1 1
  unfolding destroy_event
  destroy_at r (live c) l k = ground arith
  destroy_at r null l k = cc
  destroy_at r dangling l k = cc

  destroy_lem :
      (r : Req X)
      → Counts r true true 1 0
      → Counts (record (destroy_crequest (some plugin) r) { crequest = null }) false true 1 1
  unfolding destroy_crequest
  destroy_lem r k = destroy_at r r.crequest k.alive_lem k

  finalize_lem :
      (r : Req X) (phase : Phase) (rc : ℕ)
      → phase ≢ closed
      → Expected phase r
      → Counts (finalize_request (conf_of plugin) r rc) false true 1 1
  unfolding finalize_request
  finalize_lem r waiting rc n c =
      destroy_lem (process_once (conf_of plugin) (note_status r rc))
        (once_lem (note_status r rc) waiting n (status_lem r rc true false 0 0 c))
  finalize_lem r streaming rc n c =
      destroy_lem (process_once (conf_of plugin) (note_status r rc))
        (once_lem (note_status r rc) streaming n (status_lem r rc true true 1 0 c))
  finalize_lem r closed rc n c = absurd (n refl)

  abort_lem :
      (r : Req X) (phase : Phase)
      → phase ≢ closed
      → Expected phase r
      → Counts (abort_request (conf_of plugin) r) false true 1 1
  unfolding abort_request
  abort_lem r phase n c = destroy_lem (process_once (conf_of plugin) r) (once_lem r phase n c)

  Session-Expected : {r : Req X} {phase : Phase} → Session plugin r phase → Expected phase r
  Session-Expected (starts a conf e n) = handler_lem a conf n
  Session-Expected (waits r bytes s n) = (header_lem r bytes (Session-Expected s)).1 n
  Session-Expected (heads r bytes s e) = (header_lem r bytes (Session-Expected s)).0 e
  Session-Expected (readies r bytes s) = ready_lem r bytes (Session-Expected s)
  Session-Expected (filters r room bytes s) = filter_lem r room bytes (Session-Expected s)
  Session-Expected (aborts r phase n s) = abort_lem r phase n (Session-Expected s)
  Session-Expected (finalizes r phase rc n s) = finalize_lem r phase rc n (Session-Expected s)

  -- In every order of the calls that nginx makes, while the location keeps the request's plugin:
  -- ProcessBody has been called once when the header has been accepted or the request is over,
  -- and not before, Destroy once when the request is over, and not before, and neither is ever
  -- called with a request that is not there.
  pub Session-processings :
      (r : Req X) (phase : Phase)
      → Session plugin r phase
      → (faults r.log ≡ 0)
        × (processings r.log ≡ (if_processed phase))
        × (destructions r.log ≡ (if_closed phase))
  Session-processings r waiting s =
      let c = Session-Expected s in (c.faults_lem, c.processings_lem, c.destructions_lem)
  Session-processings r streaming s =
      let c = Session-Expected s in (c.faults_lem, c.processings_lem, c.destructions_lem)
  Session-processings r closed s =
      let c = Session-Expected s in (c.faults_lem, c.processings_lem, c.destructions_lem)
