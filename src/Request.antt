-- ===== src/Request.antt =====
-- include/plugin.h: the request that a plugin works on, and the plugin itself.
use nginx_modules.Base.{ℕ, none, List, []}
use nginx_modules.Uri.Params.{Params}

-- CHeadersIn
pub record HeadersIn : Type 0 where
  pub headers : List (List ℕ × List ℕ)
  pub host : List ℕ
  pub user_agent : List ℕ
  pub referer : List ℕ
  pub x_forwarded_for : List (List ℕ)
  pub x_real_ip : List ℕ
  pub cookies : Params

-- CHeadersOut
pub record HeadersOut : Type 0 where
  pub headers : List (List ℕ × List ℕ)
  pub status : ℕ
  pub status_line : List ℕ
  pub location : List ℕ
  pub content_encoding : List ℕ
  pub content_type : List ℕ
  pub charset : List ℕ

-- CRequest: what the modules read and write of it. `context` is the rest, which is the plugin's.
pub record CRequest (X : Type 0) : Type 0 where
  pub headers_in : HeadersIn
  pub headers_out : HeadersOut
  pub request_body : List ℕ
  pub response_body : List ℕ
  pub uri : List ℕ
  pub param : Params
  pub context : X

-- What a plugin's functions return: 0, NGX_UPSTREAM_NOSEND, or another number.
pub data Ret : Type 0 where
  success nosend : Ret
  failure : ℕ → Ret

-- CPlugin, by the name that it was found under. Destroy changes nothing that the modules read.
pub record Plugin (X : Type 0) : Type 0 where
  pub name : List ℕ
  pub handle : CRequest X → CRequest X × Ret
  pub process_body : CRequest X → CRequest X × Ret

-- A CRequest as it is constructed: the status is 200, the texts and lists are empty.
abbrev pub no_params : Params
no_params key = none

abbrev pub new_headers_in : HeadersIn
new_headers_in = record {
  headers = [];
  host = [];
  user_agent = [];
  referer = [];
  x_forwarded_for = [];
  x_real_ip = [];
  cookies = no_params;
}

abbrev pub new_headers_out : HeadersOut
new_headers_out = record {
  headers = [];
  status = 200;
  status_line = [];
  location = [];
  content_encoding = [];
  content_type = [];
  charset = [];
}

abbrev pub new_request : {X : Type 0} → X → CRequest X
new_request x = record {
  headers_in = new_headers_in;
  headers_out = new_headers_out;
  request_body = [];
  response_body = [];
  uri = [];
  param = no_params;
  context = x;
}
