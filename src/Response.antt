-- ===== src/Response.antt =====
-- crequest_to_ngxr of module_plugin/utils.cc: what a plugin answered becomes nginx's response.
pub mod Failures
pub mod Sending
use nginx_modules.Base.{
  ℕ, suc, ◌%◌, ◌^◌, ltb, ◌==◌, ◌||◌, if◌then◌else◌, Bool, true, false, Option, none, some, List, [],
  ◌∷◌, ◌++◌, length,
}
use nginx_modules.Request.{HeadersOut, CRequest}
use nginx_modules.Upstream.{Rc, ngx_ok, ngx_error, ngx_again, ngx_done, http}

-- A header of the response: `none` is a text that has not been written yet.
pub record Field : Type 0 where
  pub key : Option (List ℕ)
  pub value : Option (List ℕ)

-- What goes to the client: the header with the status and the length in it, and the body.
pub data Sent : Type 0 where
  header : ℕ → ℕ → Sent
  body : List ℕ → Sent

-- `r->headers_out`, how often memory has been asked for, and what has been sent, the last first.
pub record HttpRequest : Type 0 where
  pub headers : List Field
  pub status_line : List ℕ
  pub content_type : List ℕ
  pub content_type_len : ℕ
  pub charset : List ℕ
  pub content_length_n : ℕ
  pub status : ℕ
  pub calls : ℕ
  pub sent : List Sent

-- What nginx answers: whether there is memory at each call, and the filters.
pub record Nginx : Type 0 where
  pub alloc : ℕ → Bool
  pub header_only : Bool
  pub send_header : Rc
  pub output_filter : Rc

-- A step of the function: it goes on with a value, or returns.
pub data Result (A : Type 0) : Type 0 where
  continue : A → Result A
  return : Rc → Result A

abbrev pub Action : Type 0 → Type 0
Action A = HttpRequest → Result A × HttpRequest

infixl 5 ◌>>=◌ ◌>>◌
abbrev pub ◌>>=◌ : {A B : Type 0} → Action A → (A → Action B) → Action B
◌>>=◌ m f r = let (x, r') = m r in elim x [ continue a ↦ f a r' | return rc ↦ (return rc, r') ]

abbrev pub ◌>>◌ : {A B : Type 0} → Action A → Action B → Action B
m >> k = m >>= λ _. k

abbrev pub modify : (HttpRequest → HttpRequest) → Action Unit
modify f r = (continue tt, f r)

abbrev pub on_last : (Field → Field) → List Field → List Field
on_last f [] = []
on_last f (x ∷ []) = f x ∷ []
on_last f (x ∷ y ∷ xs) = x ∷ on_last f (y ∷ xs)

abbrev pub location_key : List ℕ
location_key = b'L' ∷ b'o' ∷ b'c' ∷ b'a' ∷ b't' ∷ b'i' ∷ b'o' ∷ b'n' ∷ []

-- What is written between the calls that ask for memory.
abbrev pub push_field : HttpRequest → HttpRequest
push_field r = record r { headers = r.headers ++ record { key = none; value = none } ∷ [] }

abbrev pub write_key : List ℕ → HttpRequest → HttpRequest
write_key key r = record r { headers = on_last (λ f. record f { key = some key }) (r.headers) }

abbrev pub write_value : List ℕ → HttpRequest → HttpRequest
write_value value r = record r {
  headers = on_last (λ f. record f { value = some value }) (r.headers);
}

abbrev pub write_status_line : List ℕ → HttpRequest → HttpRequest
write_status_line text r = record r { status_line = text }

abbrev pub write_content_type : List ℕ → HttpRequest → HttpRequest
write_content_type text r = record r { content_type = text; content_type_len = length text }

abbrev pub write_charset : List ℕ → HttpRequest → HttpRequest
write_charset text r = record r { charset = text }

abbrev pub write_length : ℕ → ℕ → HttpRequest → HttpRequest
write_length body_size status r = record r { content_length_n = body_size; status = status }

-- The status by what the plugin has set and by the length of the body.
unfoldable pub choose_status : ℕ → ℕ → ℕ
choose_status body_size set_status =
    if set_status == 0 then (if body_size == 0 then 500 else 200) else set_status

module _ (nginx : Nginx) where
  -- A call that asks for memory, with ahAssert on what it returns.
  unfoldable pub ah_assert : Action Unit
  ah_assert r =
      let r' : HttpRequest = record r { calls = suc r.calls } in
      if nginx.alloc r.calls
      then (continue tt, r')
      else (return ngx_error, record r' { content_length_n = 0; status = 500 })

  -- A new header with a key and a value.
  unfoldable pub add_field : List ℕ → List ℕ → Action Unit
  unfolding ah_assert
  add_field key value = do
    ah_assert
    modify push_field
    ah_assert
    modify (write_key key)
    ah_assert
    modify (write_value value)

  -- The loop over `headers_out.headers`.
  unfoldable pub add_fields : List (List ℕ × List ℕ) → Action Unit
  unfolding add_field
  add_fields [] = modify (λ r. r)
  add_fields ((key, value) ∷ fields) = do add_field key value; add_fields fields

  -- The headers, the texts, the length and the status.
  unfoldable pub fill : {X : Type 0} → CRequest X → Action Unit
  unfolding ah_assert add_field add_fields choose_status
  fill request = do
    let out = request.headers_out
    let body_size = length request.response_body % 2 ^ 32
    add_fields (out.headers)
    ah_assert
    modify (write_status_line (out.status_line))
    add_field location_key (out.location)
    ah_assert
    modify (write_content_type (out.content_type))
    ah_assert
    modify (write_charset (out.charset))
    modify (write_length body_size (choose_status body_size out.status))

  -- ngx_http_send_header, and the return after it.
  unfoldable pub send_header : Action Unit
  send_header r =
      let r' : HttpRequest = record r { sent = header r.status r.content_length_n ∷ r.sent } in
      if nginx.header_only then (return nginx.send_header, r') else elim nginx.send_header [
        | ngx_error ↦ (return ngx_error, r')
        | http n ↦ (return (http n), r')
        | ngx_ok ↦ (continue tt, r')
        | ngx_again ↦ (continue tt, r')
        | ngx_done ↦ (continue tt, r')
      ]

  -- The buffer and ngx_http_output_filter.
  unfoldable pub send_body : List ℕ → Action Unit
  unfolding ah_assert
  send_body bytes = do
    ah_assert
    modify
        (λ r. record r { sent = body (if length bytes % 2 ^ 32 == 0 then [] else bytes) ∷ r.sent })
    λ r. (return nginx.output_filter, r)

  unfoldable pub respond : {X : Type 0} → CRequest X → Bool → Action Unit
  unfolding fill send_header send_body
  respond request nosend = do
    fill request
    if nosend then (λ r. (return ngx_ok, r)) else (send_header >> send_body (request.response_body))

  unfoldable pub returned : Result Unit × HttpRequest → HttpRequest × Rc
  returned (continue _, r) = (r, ngx_ok)
  returned (return rc, r) = (r, rc)

  -- crequest_to_ngxr_impl
  unfoldable pub crequest_to_ngxr_impl :
      {X : Type 0} → CRequest X → Bool → HttpRequest → HttpRequest × Rc
  unfolding respond returned
  crequest_to_ngxr_impl request nosend r = returned (respond request nosend r)
