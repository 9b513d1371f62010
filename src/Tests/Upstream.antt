-- ===== src/Tests/Upstream.antt =====
-- A location with a backend: one request at work, and the theorems at concrete inputs.
use nginx_modules.Base.{ℕ, ◌≤◌, ◌≡◌, refl, true, none, some, List, [], ◌∷◌, ◌++◌, arith}
use nginx_modules.Request.{CRequest, success, Plugin, new_request}
use nginx_modules.Protocol.{int_bytes, htonl_bytes, encode, head_flag, ntohl_length, decode}
use nginx_modules.Upstream.{
  ngx_ok, processed, live, Conf, Req, destroy_event, after_delete, destroy_crequest, after_handle,
  upstream_create_request, received, after_process, upstream_process_body,
}
use nginx_modules.Upstream.Handler.{
  Arrival, fresh, init_plugin, after_create, start, after_plugin, after_discard, handler,
}
use nginx_modules.Upstream.Callbacks.{
  process, after_decode, process_header, filter_init, filter, process_once, note_status,
  finalize_request,
}
use nginx_modules.Upstream.Filter.{total, feed, feed_bounds, feed_all}
use nginx_modules.Upstream.Session.{
  waiting, closed, Session, starts, finalizes, processings, destructions, faults, conf_of,
}
use nginx_modules.Upstream.Session.Steps.{Session-processings}
use nginx_modules.Upstream.Sharing.{LooksUp, process_header_shared}
use nginx_modules.Upstream.Reply.{process_header-reply}

program : Unit {0}
unfolding int_bytes htonl_bytes encode head_flag ntohl_length decode destroy_event after_delete
    destroy_crequest after_handle upstream_create_request received after_process
    upstream_process_body init_plugin after_create start after_plugin after_discard handler process
    after_decode process_header filter_init filter process_once note_status finalize_request
program = tt

abbrev first : List ℕ
first = b'a' ∷ []

abbrev second : List ℕ
second = b'b' ∷ []

-- A plugin that asks for a word and answers with the backend's text and a mark.
abbrev marking : List ℕ → Plugin ℕ
marking name = record {
  name = name;
  handle = λ c. (record c { response_body = b'?' ∷ [] }, success);
  process_body = λ c. (record c { response_body = c.response_body ++ name }, success);
}

abbrev arrival : Arrival ℕ
arrival = record {
  get_or_head = true;
  discarded = ngx_ok;
  typed = true;
  made = true;
  plugin_name = some second;
  getbyname = λ name. some (marking name);
  room = true;
  crequest = new_request 0;
  converted = true;
}

abbrev location : Conf ℕ
location = record { plugin = none }

abbrev hi : List ℕ
hi = 104 ∷ 105 ∷ []

abbrev hello : List ℕ
hello = 0xe8 ∷ 0 ∷ 0 ∷ 0 ∷ 0 ∷ 0 ∷ 0 ∷ 2 ∷ hi

abbrev request : Req ℕ
request = record fresh { crequest = live (new_request 0); buffer = hello }

feed_bounds_example :
    total
      (feed
        (record (fresh {X = ℕ}) { length_left = some 3 })
        ((true, hi) ∷ (true, hi) ∷ [])).out_bufs
    ≤ 3
feed_bounds_example =
    feed_bounds (record fresh { length_left = some 3 }) ((true, hi) ∷ (true, hi) ∷ [])

feed_all_example :
    let r' =
      feed (record (fresh {X = ℕ}) { length_left = some 4 }) ((true, hi) ∷ (true, hi) ∷ []) in
    (r'.out_bufs ≡ hi ∷ hi ∷ []) × (r'.length_left ≡ some 0) × (r'.keepalive ≡ true)
feed_all_example = feed_all (record fresh { length_left = some 4 }) hi (hi ∷ []) refl

arrival-LooksUp : LooksUp arrival second
arrival-LooksUp = record {
  method_lem = refl;
  discarded_lem = refl;
  typed_lem = refl;
  made_lem = refl;
  name_lem = refl;
  not_empty = omega arith;
}

process_header_shared_example :
    (process_header (handler arrival (record { plugin = some (marking first) })).0 request).0.log
    ≡ processed second ∷ []
process_header_shared_example =
    process_header_shared arrival (record { plugin = some (marking first) }) second request
      (new_request 0) 2 hi arrival-LooksUp refl (unfold program in refl) (omega arith)

abbrev replied : CRequest ℕ
replied = record (new_request 0) { response_body = hi ++ first }

process_header-reply_example :
    let o = process_header (record { plugin = some (marking first) }) request in
    let r' = feed (record (filter_init o.0) { buffer = [] }) ((true, o.0.buffer) ∷ []) in
    (o.1 ≡ ngx_ok)
    × (r'.out_bufs ≡ (hi ++ first) ∷ [])
    × (r'.length_left ≡ some 0)
    × (r'.keepalive ≡ true)
process_header-reply_example =
    process_header-reply (marking first) (λ n. true) hi hello request (new_request 0) replied
      (omega arith) (unfold program in refl) refl refl refl (unfold program in refl)

arrived : Session (marking second) (handler arrival location).1 waiting
arrived = starts arrival location (unfold program in refl) (unfold program in refl)

Session-processings_example :
    let r = finalize_request (conf_of (marking second)) (handler arrival location).1 0 in
    (faults r.log ≡ 0) × (processings r.log ≡ 1) × (destructions r.log ≡ 1)
Session-processings_example =
    Session-processings (marking second)
      (finalize_request (conf_of (marking second)) (handler arrival location).1 0) closed
      (finalizes (handler arrival location).1 waiting 0 (ground arith) arrived)
