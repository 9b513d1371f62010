-- ===== src/Upstream.antt =====
-- module_upstream: a location that passes a request through a plugin to a backend. The state that
-- the callbacks share, and the functions of ngx_upstream_interface.cc.
pub mod Handler
pub mod Passing
pub mod Callbacks
pub mod Filter
pub mod Session
pub mod Sharing
pub mod Reply
use nginx_modules.Base.{
  ℕ, ◌==◌, if◌then◌else◌, Bool, Option, none, some, List, [], ◌∷◌, ◌++◌, length,
}
use nginx_modules.Request.{CRequest, Ret, success, nosend, failure, Plugin}

-- The return codes of nginx. `http` is a status of the protocol.
pub data Rc : Type 0 where
  ngx_ok ngx_error ngx_again ngx_done : Rc
  http : ℕ → Rc

-- What happens to a plugin, by its name: its functions are called, or are called with a request that
-- is not there. `answered` is the call of crequest_to_ngxr.
pub data Event : Type 0 where
  handled processed destroyed : List ℕ → Event
  answered fault : Event

-- A pointer to a CRequest.
pub data Pointer (X : Type 0) : Type 0 where
  null dangling : Pointer X
  live : CRequest X → Pointer X

-- ngx_http_proto_upstream_loc_conf_t: one for all requests of the location.
pub record Conf (X : Type 0) : Type 0 where
  pub plugin : Option (Plugin X)

-- ngx_http_proto_upstream_ctx_t with the fields of `r` and `r->upstream` that the module reads or
-- writes: the bytes between `buffer.pos` and `buffer.last`, the lengths (`none` is -1), the chains of
-- buffers to the backend and to the client; and the events.
pub record Req (X : Type 0) : Type 0 where
  pub message : List ℕ
  pub has_processed : Bool
  pub status_code : ℕ
  pub crequest : Pointer X
  pub buffer : List ℕ
  pub content_length_n : Option ℕ
  pub length_left : Option ℕ
  pub keepalive : Bool
  pub request_bufs : Option (Option (List ℕ))
  pub out_bufs : List (List ℕ)
  pub status_n : ℕ
  pub content_type : List ℕ
  pub count : ℕ
  pub log : List Event

abbrev pub text_html : List ℕ
text_html = b't' ∷ b'e' ∷ b'x' ∷ b't' ∷ b'/' ∷ b'h' ∷ b't' ∷ b'm' ∷ b'l' ∷ []

module _ {X : Type 0} where
  abbrev pub add_event : Req X → Event → Req X
  add_event r e = record r { log = e ∷ r.log }

  -- The call of Destroy in ngx_upstream_destroy_crequest goes through the pointer before it is
  -- tested.
  unfoldable pub destroy_event : Option (Plugin X) → Pointer X → Req X → Req X
  destroy_event none c r = r
  destroy_event (some plugin) (live c) r = add_event r (destroyed plugin.name)
  destroy_event (some plugin) null r = add_event r fault
  destroy_event (some plugin) dangling r = add_event r fault

  unfoldable pub after_delete : Pointer X → Pointer X
  after_delete null = null
  after_delete c = dangling

  -- ngx_upstream_destroy_crequest
  unfoldable pub destroy_crequest : Option (Plugin X) → Req X → Req X
  unfolding destroy_event after_delete
  destroy_crequest plugin r = record (destroy_event plugin r.crequest r) {
    crequest = after_delete r.crequest;
  }

  -- ngx_upstream_create_request where Handle has returned.
  unfoldable pub after_handle : Req X → CRequest X × Ret → Req X × Ret
  after_handle r (c, success) = (record r { crequest = live c; message = c.response_body }, success)
  after_handle r (c, ret) = (record r { crequest = live c }, ret)

  -- ngx_upstream_create_request
  unfoldable pub upstream_create_request : Option (Plugin X) → CRequest X → Req X → Req X × Ret
  unfolding after_handle
  upstream_create_request none c r = (record r { crequest = live c }, failure 1)
  upstream_create_request (some plugin) c r =
      after_handle (add_event r (handled plugin.name)) (plugin.handle c)

  -- What the plugin gets: the bytes of the buffer, and the status of a failure.
  unfoldable pub received : Req X → CRequest X → CRequest X
  received r c = record c {
    response_body = r.buffer;
    headers_out =
        if r.status_code == 0
        then c.headers_out
        else record (c.headers_out) { status = r.status_code };
  }

  -- ngx_upstream_process_body where ProcessBody has returned: the buffer is the plugin's text.
  unfoldable pub after_process : Req X → CRequest X × Ret → Req X × Rc
  after_process r (c, success) = (
    record r {
      crequest = live c;
      buffer = c.response_body;
      status_n = 200;
      content_length_n = some (length c.response_body);
      content_type =
          if length c.headers_out.content_type == 0 then text_html else c.headers_out.content_type;
    },
    ngx_ok,
  )
  after_process r (c, ret) = (record r { crequest = live c; buffer = c.response_body }, ngx_error)

  -- ngx_upstream_process_body
  unfoldable pub upstream_process_body : Option (Plugin X) → Pointer X → Req X → Req X × Rc
  unfolding received after_process
  upstream_process_body none c r = (r, ngx_error)
  upstream_process_body (some plugin) (live c) r =
      after_process (add_event r (processed plugin.name)) (plugin.process_body (received r c))
  upstream_process_body (some plugin) null r = (add_event r fault, ngx_error)
  upstream_process_body (some plugin) dangling r = (add_event r fault, ngx_error)
