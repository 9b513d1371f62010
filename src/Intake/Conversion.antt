-- ===== src/Intake/Conversion.antt =====
-- ngxr_to_crequest: the parts of a client's request, each read into its place.
use nginx_modules.Base.{
  ℕ, suc, ◌≡◌, ◌≢◌, refl, ap, ◌∙◌, ◌==◌, if◌then◌else◌, Bool, true, Option, none, some, List, [],
  ◌∷◌, ◌++◌, length, All, arith,
}
use nginx_modules.Request.{HeadersIn, CRequest}
use nginx_modules.Uri.{is_safe}
use nginx_modules.Uri.Params.{Params, split_string, split_loop, skip_spaces}
use nginx_modules.Uri.Params.Query.{
  ArePairs, IsDelimiter, write_query, insert_all, split_string-write_query,
}
use nginx_modules.Intake.{Buf, Reads, Outcome, endless, failed, completed, get_post_body}
use nginx_modules.Intake.Body.{GivesAll, Grow, all_contents, get_post_body_whole}

-- What the code reads of an ngx_http_request_t: a header that is not there is `none`, and the list of
-- all headers is in parts, none of them empty but perhaps the first.
pub record HttpRequestIn : Type 0 where
  pub uri : List ℕ
  pub args : List ℕ
  pub headers : List (List (List ℕ × List ℕ))
  pub host : Option (List ℕ)
  pub user_agent : Option (List ℕ)
  pub referer : Option (List ℕ)
  pub x_real_ip : Option (List ℕ)
  pub x_forwarded_for : List (List ℕ)
  pub cookies : List (List ℕ)
  pub addr_text : List ℕ
  pub is_post : Bool
  pub bufs : Option (List Buf)

-- `replace` of tabs by spaces.
abbrev pub tabs_to_spaces : List ℕ → List ℕ
tabs_to_spaces [] = []
tabs_to_spaces (c ∷ s) = (if c == 9 then 32 else c) ∷ tabs_to_spaces s

abbrev pub without_tabs : Option (List ℕ) → Option (List ℕ)
without_tabs none = none
without_tabs (some s) = some (tabs_to_spaces s)

-- A header's value where it is there and not empty, and else another text.
unfoldable pub value_or : List ℕ → Option (List ℕ) → List ℕ
value_or other none = other
value_or other (some []) = other
value_or other (some (c ∷ s)) = c ∷ s

-- split_string into a map that is there; its fuel never ends.
unfoldable pub split_into : Params → List ℕ → ℕ → Params
split_into kv s d = elim (split_string kv s d) [ some kv' ↦ kv' | none ↦ kv ]

-- The loop over the parts of the headers.
unfoldable pub all_parts : List (List (List ℕ × List ℕ)) → List (List ℕ × List ℕ)
all_parts [] = []
all_parts (part ∷ parts) = part ++ all_parts parts

unfoldable pub split_cookies : Params → List (List ℕ) → Params
unfolding split_into
split_cookies kv [] = kv
split_cookies kv (cookie ∷ cookies) = split_cookies (split_into kv cookie b';') cookies

unfoldable pub split_args : Params → List ℕ → Params
unfolding split_into
split_args kv [] = kv
split_args kv (c ∷ s) = split_into kv (c ∷ s) b'&'

unfoldable pub read_headers : HttpRequestIn → HeadersIn → HeadersIn
unfolding value_or all_parts split_cookies
read_headers r h = record {
  headers = h.headers ++ all_parts r.headers;
  host = value_or h.host r.host;
  user_agent = value_or h.user_agent (without_tabs r.user_agent);
  referer = value_or h.referer r.referer;
  x_forwarded_for = h.x_forwarded_for ++ r.x_forwarded_for;
  x_real_ip = value_or r.addr_text r.x_real_ip;
  cookies = split_cookies h.cookies r.cookies;
}

module _ {X : Type 0} where
  unfoldable pub with_body : CRequest X → Outcome (List ℕ) → Outcome (CRequest X)
  with_body c endless = endless
  with_body c (failed body) = failed (record c { request_body = body })
  with_body c (completed body) = completed (record c { request_body = body })

  -- ngxr_to_crequest, which also writes over the request's own arguments.
  unfoldable pub ngxr_to_crequest :
      Reads → (ℕ → List ℕ) → ℕ → HttpRequestIn → CRequest X → HttpRequestIn × Outcome (CRequest X)
  unfolding split_args read_headers with_body
  ngxr_to_crequest reads garbage fuel r c =
      let args = tabs_to_spaces r.args in
      (
        record r { args = args },
        with_body
            (record c {
              uri = c.uri ++ r.uri;
              param = split_args c.param args;
              headers_in = read_headers r c.headers_in;
            })
            (get_post_body reads garbage fuel r.is_post r.bufs (c.request_body)),
      )

tabs_lem : (s : List ℕ) → All (λ c. c ≢ 9) s → tabs_to_spaces s ≡ s
tabs_lem [] a = refl
tabs_lem (c ∷ s) (n, a) = ground (arith, n, tabs_lem s a)

split_args_lem :
    (kv kv' : Params) (s : List ℕ) → split_string kv s b'&' ≡ some kv' → split_args kv s ≡ kv'
unfolding split_args split_into
split_args_lem kv kv' [] e =
    unfold split_string in (unfold split_loop in (unfold skip_spaces in (ground (arith, e))))
split_args_lem kv kv' (c ∷ s) e = rw (e, split_into) refl

is_ampersand : IsDelimiter b'&'
unfolding is_safe
is_ampersand = record { not_safe = refl; not_percent = omega arith; not_equal = omega arith }

-- A POST request whose arguments were written from pairs, as a query that split_string reads
-- back, without a tab, and whose body lies in memory and in parts of the file, each shorter than
-- 2^31 bytes and none shorter than one before it, where every call of ngx_read_file gives all
-- that it is asked for and `new char[n]` has n bytes: the plugin's request gets the path, the
-- pairs of the arguments, and the bytes of the body's buffers in their order.
pub ngxr_to_crequest_whole :
    {X : Type 0} (file : List ℕ) (reads : Reads) (garbage : ℕ → List ℕ) (fuel : ℕ)
    (r : HttpRequestIn) (c : CRequest X) (bufs : List Buf) (pairs : List (List ℕ × List ℕ))
    → ((k : ℕ) → length (garbage k) ≡ k)
    → GivesAll file reads
    → Grow file 0 bufs
    → r.bufs ≡ some bufs
    → r.is_post ≡ true
    → r.args ≡ write_query b'&' pairs
    → ArePairs b'&' pairs
    → All (λ c. c ≢ 9) r.args
    → (c' : CRequest X) × ((ngxr_to_crequest reads garbage (suc fuel) r c).1 ≡ completed c')
      × (c'.uri ≡ c.uri ++ r.uri)
      × (c'.param ≡ insert_all c.param pairs)
      × (c'.request_body ≡ c.request_body ++ all_contents file bufs)
unfolding ngxr_to_crequest
ngxr_to_crequest_whole {X = X} file reads garbage fuel r c bufs pairs g a h b p q w t =
    let args : tabs_to_spaces r.args ≡ write_query b'&' pairs = tabs_lem (r.args) t ∙ q in
    let param : split_args c.param (tabs_to_spaces r.args) ≡ insert_all c.param pairs =
      ap (split_args c.param) args
      ∙ split_args_lem (c.param) _ _
          (split_string-write_query b'&' is_ampersand (c.param) pairs w) in
    let whole : get_post_body reads garbage (suc fuel) r.is_post r.bufs (c.request_body)
        ≡ completed (c.request_body ++ all_contents file bufs) =
      rw (b, p) (get_post_body_whole file reads garbage fuel bufs (c.request_body) g a h) in
    let made : CRequest X = record c {
      uri = c.uri ++ r.uri;
      param = split_args c.param (tabs_to_spaces r.args);
      headers_in = read_headers r c.headers_in;
    } in
    (
      record made { request_body = c.request_body ++ all_contents file bufs },
      ap (with_body made) whole,
      refl,
      param,
      refl,
    )
