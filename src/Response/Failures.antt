-- ===== src/Response/Failures.antt =====
-- crequest_to_ngxr_nosend whatever memory there is.
use nginx_modules.Base.{
  ℕ, ◌%◌, ◌^◌, ◌≡◌, ◌⊎◌, refl, ◌∙◌, Bool-cases, inl, inr, true, List, [], ◌∷◌, length,
}
use nginx_modules.Request.{CRequest}
use nginx_modules.Upstream.{ngx_ok, ngx_error}
use nginx_modules.Response.{
  HttpRequest, Nginx, Result, continue, return, Action, ◌>>◌, modify, push_field, write_key,
  write_value, write_status_line, write_content_type, write_charset, write_length, location_key,
  ah_assert, add_field, add_fields, choose_status, fill, respond, returned, crequest_to_ngxr_impl,
}

-- A step that fails answers with status 500 and no body; no step that is not a sending one sends.
abbrev Safe : HttpRequest → Result Unit × HttpRequest → Type 0
Safe r (continue _, r') = r'.sent ≡ r.sent
Safe r (return rc, r') =
    (rc ≡ ngx_error) × (r'.status ≡ 500) × (r'.content_length_n ≡ 0) × (r'.sent ≡ r.sent)

abbrev AreSafe : Action Unit → Type 0
AreSafe m = (r : HttpRequest) → Safe r (m r)

Safe-sent :
    (r r' : HttpRequest) (o : Result Unit × HttpRequest) → r'.sent ≡ r.sent → Safe r' o → Safe r o
Safe-sent r r' (continue _, s) e h = h ∙ e
Safe-sent r r' (return rc, s) e (a, b, c, d) = (a, b, c, d ∙ e)

Safe-chain :
    (k : Action Unit) (r : HttpRequest) (x : Result Unit) (r' : HttpRequest)
    → Safe r (x, r')
    → AreSafe k
    → Safe r (elim x [ continue a ↦ k r' | return rc ↦ (return rc, r') ])
Safe-chain k r (continue a) r' h t = Safe-sent r r' (k r') h (t r')
Safe-chain k r (return rc) r' h t = h

>>-AreSafe : (m k : Action Unit) → AreSafe m → AreSafe k → AreSafe (m >> k)
>>-AreSafe m k s t r = Safe-chain k r (m r).0 (m r).1 (s r) t

-- A change of the response that sends nothing.
modify-AreSafe :
    (f : HttpRequest → HttpRequest) → ((r : HttpRequest) → (f r).sent ≡ r.sent) → AreSafe (modify f)
modify-AreSafe f h r = h r

module _ (nginx : Nginx) where
  ah_assert-AreSafe : AreSafe (ah_assert nginx)
  unfolding ah_assert
  ah_assert-AreSafe r = elim (Bool-cases (nginx.alloc r.calls)) [
    | inl e ↦ rw e refl
    | inr e ↦ rw e (refl, refl, refl, refl)
  ]

  -- A change with the memory that it needs.
  with_memory-AreSafe :
      (f : HttpRequest → HttpRequest)
      → ((r : HttpRequest) → (f r).sent ≡ r.sent)
      → AreSafe (ah_assert nginx >> modify f)
  with_memory-AreSafe f h =
      >>-AreSafe (ah_assert nginx) (modify f) ah_assert-AreSafe (modify-AreSafe f h)

  with_memory_then-AreSafe :
      (f : HttpRequest → HttpRequest) (k : Action Unit)
      → ((r : HttpRequest) → (f r).sent ≡ r.sent)
      → AreSafe k
      → AreSafe (ah_assert nginx >> (modify f >> k))
  with_memory_then-AreSafe f k h t =
      >>-AreSafe (ah_assert nginx) (modify f >> k) ah_assert-AreSafe
        (>>-AreSafe (modify f) k (modify-AreSafe f h) t)

  add_field-AreSafe : (key value : List ℕ) → AreSafe (add_field nginx key value)
  unfolding add_field
  add_field-AreSafe key value =
      with_memory_then-AreSafe push_field _ (λ r. refl)
        (with_memory_then-AreSafe (write_key key) _ (λ r. refl)
          (with_memory-AreSafe (write_value value) (λ r. refl)))

  add_fields-AreSafe : (fields : List (List ℕ × List ℕ)) → AreSafe (add_fields nginx fields)
  unfolding add_fields
  add_fields-AreSafe [] = modify-AreSafe (λ r. r) (λ r. refl)
  add_fields-AreSafe ((key, value) ∷ fields) =
      >>-AreSafe (add_field nginx key value) (add_fields nginx fields) (add_field-AreSafe key value)
        (add_fields-AreSafe fields)

  fill-AreSafe : {X : Type 0} (request : CRequest X) → AreSafe (fill nginx request)
  unfolding fill
  fill-AreSafe request =
      let out = request.headers_out in
      let n = length request.response_body % 2 ^ 32 in
      let last : Action Unit = modify (write_length n (choose_status n out.status)) in
      >>-AreSafe (add_fields nginx (out.headers)) _ (add_fields-AreSafe (out.headers)) (
        with_memory_then-AreSafe (write_status_line (out.status_line)) _ (λ r. refl)
          (>>-AreSafe (add_field nginx location_key (out.location)) _
            (add_field-AreSafe location_key (out.location))
            (with_memory_then-AreSafe (write_content_type (out.content_type)) _ (λ r. refl)
              (with_memory_then-AreSafe (write_charset (out.charset)) last (λ r. refl)
                (modify-AreSafe (write_length n (choose_status n out.status)) (λ r. refl))))))

  nosend_lem :
      (r : HttpRequest) (x : Result Unit) (r' : HttpRequest)
      → Safe r (x, r')
      → let o =
          returned nginx
            (elim x [ continue a ↦ (return ngx_ok, r') | return rc ↦ (return rc, r') ]) in
        (o.0.sent ≡ r.sent)
        × ((o.1 ≡ ngx_ok) ⊎ ((o.1 ≡ ngx_error) × (o.0.status ≡ 500) × (o.0.content_length_n ≡ 0)))
  unfolding returned
  nosend_lem r (continue a) r' h = (h, inl refl)
  nosend_lem r (return rc) r' (a, b, c, d) = (d, inr (a, b, c))

  -- crequest_to_ngxr_nosend, whatever the allocator answers: nothing is sent, and it is a
  -- success, or else NGX_ERROR with status 500 and a length of 0.
  pub crequest_to_ngxr_impl_nosend :
      {X : Type 0} (request : CRequest X) (r : HttpRequest)
      → let o = crequest_to_ngxr_impl nginx request true r in
        (o.0.sent ≡ r.sent)
        × ((o.1 ≡ ngx_ok) ⊎ ((o.1 ≡ ngx_error) × (o.0.status ≡ 500) × (o.0.content_length_n ≡ 0)))
  unfolding crequest_to_ngxr_impl respond
  crequest_to_ngxr_impl_nosend request r =
      nosend_lem r (fill nginx request r).0 (fill nginx request r).1 (fill-AreSafe request r)
