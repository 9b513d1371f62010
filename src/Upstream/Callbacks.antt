-- ===== src/Upstream/Callbacks.antt =====
-- The callbacks of ngx_upstream_module.c.
use nginx_modules.Base.{
  ℕ, ◌-◌, ◌%◌, ◌^◌, ◌<◌, ◌≡◌, refl, arith, ltb, ◌==◌, if◌then◌else◌, ◌||◌, Bool, true, none, some,
  List, [], ◌∷◌, ◌++◌, length,
}
use nginx_modules.Protocol.{Decoded, more_data, flag_error, body, encode, decode}
use nginx_modules.Upstream.{
  Rc, ngx_ok, ngx_error, ngx_again, Conf, Req, null, upstream_process_body, destroy_crequest,
}

module _ {X : Type 0} where
  -- ngx_http_proto_upstream_create_request: the result of the encoding is not tested. `link` tells
  -- whether there is memory for the chain.
  unfoldable pub create_request : (ℕ → Bool) → Bool → Req X → Req X × Rc
  create_request alloc link r =
      if link
      then (record r { request_bufs = some (encode alloc r.message) }, ngx_ok)
      else (r, ngx_error)

  -- ngx_http_proto_upstream_reinit_request
  unfoldable pub reinit_request : Req X → Req X × Rc
  reinit_request r = (r, ngx_ok)

  -- The rest of ngx_http_proto_upstream_process_header, where the length is not negative.
  unfoldable pub process : Conf X → Req X → Req X
  unfolding upstream_process_body
  process conf r = record (upstream_process_body conf.plugin r.crequest r).0 {
    has_processed = true;
  }

  -- `int length` by the length of the body: a number of 2^31 or more is negative, and one of them is
  -- NGX_ADPROTOCOL_eMOREDATA.
  unfoldable pub after_decode : Conf X → Req X → Decoded → Req X × Rc
  unfolding process
  after_decode conf r more_data = (r, ngx_again)
  after_decode conf r flag_error = (r, ngx_error)
  after_decode conf r (body n rest) =
      let length = n % 2 ^ 32 in
      let r' : Req X = record r { buffer = rest } in
      if ltb length (2 ^ 31)
      then (process conf r', ngx_ok)
      else (r', if length == 2 ^ 32 - 102 then ngx_again else ngx_error)

  -- ngx_http_proto_upstream_process_header
  unfoldable pub process_header : Conf X → Req X → Req X × Rc
  unfolding after_decode
  process_header conf r = after_decode conf r (decode r.buffer)

  -- ngx_http_proto_upstream_filter_init
  unfoldable pub filter_init : Req X → Req X
  filter_init r = record r { length_left = r.content_length_n }

  -- ngx_http_proto_upstream_filter on the bytes that lie behind `buffer.last`; `room` tells whether
  -- there is a free buffer.
  unfoldable pub filter : Bool → Req X → List ℕ → Req X × Rc
  filter room r bytes = elim r.length_left [
    | none ↦ (record r { length_left = some 0 }, ngx_ok)
    | some left ↦
        if ltb left (length bytes)
        then (record r { length_left = some 0 }, ngx_ok)
        else (if room
            then (
              record r {
                out_bufs = r.out_bufs ++ bytes ∷ [];
                buffer = r.buffer ++ bytes;
                length_left = some (left - length bytes);
                keepalive = if left - length bytes == 0 then true else r.keepalive;
              },
              ngx_ok,
            )
            else (r, ngx_error))
  ]

  unfoldable pub process_once : Conf X → Req X → Req X
  unfolding process
  process_once conf r = if r.has_processed then r else process conf r

  -- ngx_http_proto_upstream_abort_request
  unfoldable pub abort_request : Conf X → Req X → Req X
  unfolding process_once destroy_crequest
  abort_request conf r = record (destroy_crequest conf.plugin (process_once conf r)) {
    crequest = null;
  }

  -- The status is written where the body has not been processed and `rc` is not 0.
  unfoldable pub note_status : Req X → ℕ → Req X
  note_status r rc = if r.has_processed || rc == 0 then r else record r { status_code = rc }

  -- ngx_http_proto_upstream_finalize_request
  unfoldable pub finalize_request : Conf X → Req X → ℕ → Req X
  unfolding note_status process_once destroy_crequest
  finalize_request conf r rc =
      record (destroy_crequest conf.plugin (process_once conf (note_status r rc))) {
        crequest = null;
      }

  -- A length that an `int` holds.
  pub after_decode-body :
      (conf : Conf X) (r : Req X) (n : ℕ) (rest : List ℕ)
      → n < 2 ^ 31
      → after_decode conf r (body n rest) ≡ (process conf (record r { buffer = rest }), ngx_ok)
  unfolding after_decode
  after_decode-body conf r n rest h =
      let e : ltb (n % 2 ^ 32) (2 ^ 31) ≡ true = ground arith in rw e refl
