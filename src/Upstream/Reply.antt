-- ===== src/Upstream/Reply.antt =====
-- A backend's response on its way through the callbacks to the client.
use nginx_modules.Base.{
  ℕ, ◌^◌, ◌<◌, ◌≡◌, refl, ap, sym, subst, ◌∙◌, Bool, true, some, List, [], ◌∷◌, ◌++◌, append-nil,
  length, arith,
}
use nginx_modules.Request.{CRequest, success, Plugin}
use nginx_modules.Protocol.{body, encode, decode}
use nginx_modules.Protocol.Frames.{decode-encode}
use nginx_modules.Upstream.{
  ngx_ok, Pointer, live, Conf, Req, after_process, upstream_process_body, received,
}
use nginx_modules.Upstream.Callbacks.{
  process, after_decode, process_header, after_decode-body, filter_init,
}
use nginx_modules.Upstream.Filter.{feed, feed_all}

module _ {X : Type 0} (plugin : Plugin X) where
  abbrev conf : Conf X
  conf = record { plugin = some plugin }

  process_lem :
      (r : Req X) (c c' : CRequest X)
      → r.crequest ≡ live c
      → plugin.process_body (received r c) ≡ (c', success)
      → ((process conf r).buffer ≡ c'.response_body)
        × ((process conf r).content_length_n ≡ some (length c'.response_body))
        × ((process conf r).out_bufs ≡ r.out_bufs)
  unfolding process upstream_process_body after_process
  process_lem r c c' e p =
      subst
        (λ (q : Pointer X).
          ((upstream_process_body (some plugin) q r).0.buffer ≡ c'.response_body)
          × ((upstream_process_body (some plugin) q r).0.content_length_n
              ≡ some (length c'.response_body))
          × ((upstream_process_body (some plugin) q r).0.out_bufs ≡ r.out_bufs))
        (sym e) (rw p (refl, refl, refl))

  -- What process_header leaves goes through the filter in one piece.
  feed_text :
      (s : Req X) (text : List ℕ)
      → s.buffer ≡ text
      → s.content_length_n ≡ some (length text)
      → s.out_bufs ≡ []
      → let r' = feed (record (filter_init s) { buffer = [] }) ((true, s.buffer) ∷ []) in
        (r'.out_bufs ≡ text ∷ []) × (r'.length_left ≡ some 0) × (r'.keepalive ≡ true)
  unfolding filter_init
  feed_text s text x y z =
      let (o, l, k) =
        feed_all (record (filter_init s) { buffer = [] }) s.buffer []
          (y ∙ ap some (ap length (sym x) ∙ ground arith)) in
      (o ∙ ap (λ (b : List (List ℕ)). b ++ s.buffer ∷ []) z ∙ ap (λ (t : List ℕ). t ∷ []) x, l, k)

  -- The frame of a text shorter than 2^31 bytes that a backend has sent, for a request that is
  -- there and has passed nothing on: the plugin gets the text, and where it accepts it,
  -- process_header is a success, and what the filter passes on, with a free buffer, is the
  -- plugin's own text and nothing else, as long as was declared, after which the connection is
  -- kept. The filter gets the bytes that process_header left.
  pub process_header-reply :
      (alloc : ℕ → Bool) (bytes frame : List ℕ) (r : Req X) (c c' : CRequest X)
      → length bytes < 2 ^ 31
      → encode alloc bytes ≡ some frame
      → r.buffer ≡ frame
      → r.crequest ≡ live c
      → r.out_bufs ≡ []
      → plugin.process_body (received (record r { buffer = bytes }) c) ≡ (c', success)
      → let o = process_header conf r in
        let r' = feed (record (filter_init o.0) { buffer = [] }) ((true, o.0.buffer) ∷ []) in
        (o.1 ≡ ngx_ok)
        × (r'.out_bufs ≡ c'.response_body ∷ [])
        × (r'.length_left ≡ some 0)
        × (r'.keepalive ≡ true)
  unfolding process_header
  process_header-reply alloc bytes frame r c c' h e b l o p =
      let d : decode r.buffer ≡ body (length bytes) bytes =
        ap decode (b ∙ sym (append-nil frame))
        ∙ decode-encode alloc bytes [] frame (omega (arith, h)) e
        ∙ ap (body (length bytes)) (append-nil bytes) in
      let q : process_header conf r ≡ (process conf (record r { buffer = bytes }), ngx_ok) =
        ap (after_decode conf r) d ∙ after_decode-body conf r (length bytes) bytes h in
      let s : Req X = process conf (record r { buffer = bytes }) in
      let (x, y, z) = process_lem (record r { buffer = bytes }) c c' l p in
      let t = feed_text s c'.response_body x y (z ∙ o) in rw q (refl, t.0, t.1, t.2)
