-- ===== src/Upstream/Session.antt =====
-- The life of a request in the upstream module: the callbacks in the orders that nginx makes them.
pub mod Steps
use nginx_modules.Base.{
  ℕ, suc, ◌≡◌, ◌≢◌, refl, ap, sym, subst, Bool-cases, inl, inr, ltb, ◌%◌, ◌^◌, if◌then◌else◌, Bool,
  true, false, some, List, [], ◌∷◌, arith,
}
use nginx_modules.Request.{CRequest, Ret, success, nosend, failure, Plugin}
use nginx_modules.Protocol.{Decoded, more_data, flag_error, body, decode}
use nginx_modules.Upstream.{
  ngx_ok, Event, processed, destroyed, fault, Pointer, null, dangling, live, Conf, Req,
  after_process, upstream_process_body, upstream_create_request, after_handle, destroy_crequest,
  destroy_event, received,
}
use nginx_modules.Upstream.Handler.{
  Arrival, start, after_create, after_plugin, after_discard, init_plugin, handler,
}
use nginx_modules.Upstream.Callbacks.{
  process, after_decode, process_header, filter_init, filter, process_once, note_status,
  abort_request, finalize_request,
}

-- How often ProcessBody and Destroy were called, and how often with no request.
abbrev pub processings : List Event → ℕ
processings [] = 0
processings (processed n ∷ log) = suc (processings log)
processings (_ ∷ log) = processings log

abbrev pub destructions : List Event → ℕ
destructions [] = 0
destructions (destroyed n ∷ log) = suc (destructions log)
destructions (_ ∷ log) = destructions log

abbrev pub faults : List Event → ℕ
faults [] = 0
faults (fault ∷ log) = suc (faults log)
faults (_ ∷ log) = faults log

-- The header is awaited, the body goes through the filter, or the request is over.
pub data Phase : Type 0 where
  waiting streaming closed : Phase

abbrev pub if_processed : Phase → ℕ
if_processed waiting = 0
if_processed streaming = 1
if_processed closed = 1

abbrev pub if_closed : Phase → ℕ
if_closed waiting = 0
if_closed streaming = 0
if_closed closed = 1

abbrev pub conf_of : {X : Type 0} → Plugin X → Conf X
conf_of plugin = record { plugin = some plugin }

-- The requests that nginx's calls lead to while the location keeps its plugin: the handler that starts
-- the upstream; process_header on what the buffer holds then, until it returns NGX_OK; filter_init and
-- the filter; and at last finalize_request or abort_request.
pub data Session {X : Type 0} (plugin : Plugin X) : Req X → Phase → Type 0 where
  starts :
      (a : Arrival X) (conf : Conf X)
      → (handler a conf).0 ≡ conf_of plugin
      → (handler a conf).1.count ≡ 1
      → Session plugin (handler a conf).1 waiting
  waits :
      (r : Req X) (bytes : List ℕ)
      → Session plugin r waiting
      → (process_header (conf_of plugin) (record r { buffer = bytes })).1 ≢ ngx_ok
      → Session plugin (process_header (conf_of plugin) (record r { buffer = bytes })).0 waiting
  heads :
      (r : Req X) (bytes : List ℕ)
      → Session plugin r waiting
      → (process_header (conf_of plugin) (record r { buffer = bytes })).1 ≡ ngx_ok
      → Session plugin (process_header (conf_of plugin) (record r { buffer = bytes })).0 streaming
  readies :
      (r : Req X) (bytes : List ℕ)
      → Session plugin r streaming
      → Session plugin (filter_init (record r { buffer = bytes })) streaming
  filters :
      (r : Req X) (room : Bool) (bytes : List ℕ)
      → Session plugin r streaming
      → Session plugin (filter room r bytes).0 streaming
  aborts :
      (r : Req X) (phase : Phase)
      → phase ≢ closed
      → Session plugin r phase
      → Session plugin (abort_request (conf_of plugin) r) closed
  finalizes :
      (r : Req X) (phase : Phase) (rc : ℕ)
      → phase ≢ closed
      → Session plugin r phase
      → Session plugin (finalize_request (conf_of plugin) r rc) closed

abbrev pub is_live : {X : Type 0} → Pointer X → Bool
is_live (live c) = true
is_live _ = false

-- What the events have been by the phase.
pub record Counts {X : Type 0} (r : Req X) (alive done : Bool) (p d : ℕ) : Type 0 where
  pub alive_lem : is_live r.crequest ≡ alive
  pub done_lem : r.has_processed ≡ done
  pub processings_lem : processings r.log ≡ p
  pub destructions_lem : destructions r.log ≡ d
  pub faults_lem : faults r.log ≡ 0

abbrev pub Expected : {X : Type 0} → Phase → Req X → Type 0
Expected waiting r = Counts r true false 0 0
Expected streaming r = Counts r true true 1 0
Expected closed r = Counts r false true 1 1
