-- ===== src/Response/Sending.antt =====
-- crequest_to_ngxr where there is memory for everything.
use nginx_modules.Base.{ℕ, suc, ◌%◌, ◌^◌, ◌≡◌, true, some, List, [], ◌∷◌, ◌++◌, length}
use nginx_modules.Request.{CRequest}
use nginx_modules.Response.{
  Field, header, body, HttpRequest, Nginx, write_status_line, write_content_type, write_charset,
  write_length, location_key, choose_status,
}

-- A header that has been written.
abbrev pub written : List ℕ × List ℕ → Field
written (key, value) = record { key = some key; value = some value }

module _ (nginx : Nginx) (memory : (n : ℕ) → nginx.alloc n ≡ true) where
  -- What add_field leaves.
  abbrev with_field : List ℕ → List ℕ → HttpRequest → HttpRequest
  with_field key value r = record r {
    headers = r.headers ++ written (key, value) ∷ [];
    calls = suc (suc (suc r.calls));
  }

  abbrev with_fields : List (List ℕ × List ℕ) → HttpRequest → HttpRequest
  with_fields [] r = r
  with_fields ((key, value) ∷ fields) r = with_fields fields (with_field key value r)

  abbrev counted : HttpRequest → HttpRequest
  counted r = record r { calls = suc r.calls }

  -- What `fill` leaves.
  abbrev filled : {X : Type 0} → CRequest X → HttpRequest → HttpRequest
  filled request r =
      let out = request.headers_out in
      let n = length request.response_body % 2 ^ 32 in
      let with_location =
        with_field location_key (out.location)
          (write_status_line (out.status_line) (counted (with_fields (out.headers) r))) in
      write_length n (choose_status n out.status) (
        write_charset (out.charset)
          (counted (write_content_type (out.content_type) (counted with_location))))

  -- What the request is where everything has been sent.
  abbrev finished : {X : Type 0} → CRequest X → HttpRequest → HttpRequest
  finished request r =
      let r' = filled request r in
      record (counted r') {
        sent = body (request.response_body) ∷ header r'.status r'.content_length_n ∷ r'.sent;
      }
