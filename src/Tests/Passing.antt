-- ===== src/Tests/Passing.antt =====
-- A request through the plugin manager, the conversion and a module, at concrete inputs.
use nginx_modules.Base.{ℕ, ◌≡◌, inl, refl, true, false, none, some, List, [], ◌∷◌, ◌++◌, arith}
use nginx_modules.Request.{CRequest, Plugin, new_request}
use nginx_modules.Request
use nginx_modules.Plugins.{
  PluginConf, Loader, insert_info, find_info, get_plugin, add_plugin, after_create, after_open,
  load_plugin, load_loop, create_manager,
}
use nginx_modules.Intake.{
  get_post_body, body_loop, add_buf, part_size, larger, read_loop, after_read, in_file, failed,
}
use nginx_modules.Intake.Conversion.{with_body, HttpRequestIn, ngxr_to_crequest}
use nginx_modules.Protocol.{body, decode}
use nginx_modules.Upstream.{ngx_ok, ngx_done, Req}
use nginx_modules.Upstream.Callbacks.{create_request}
use nginx_modules.Upstream.Passing.{World, named_handler, bodyless, named_handler-decode}
use nginx_modules.Subrequest
use nginx_modules.Subrequest.Handler
use nginx_modules.Subrequest.Start
use nginx_modules.Subrequest.Runs.Answers.{answered}

program : Unit {0}
unfolding insert_info find_info get_plugin add_plugin after_create after_open load_plugin load_loop
    create_manager
program = tt

abbrev a_text : List ℕ
a_text = b'a' ∷ []

abbrev line : PluginConf
line = record { name = a_text; so_path = b'/' ∷ []; so_conf = [] }

abbrev confs : List (PluginConf × Loader)
confs = (line, record { dlopen = some 1; dlsym = true; create_instance = some 1 }) ∷ []

-- A plugin that asks the backend for the path.
abbrev asking : Plugin ℕ
asking = record {
  name = a_text;
  handle = λ c. (record c { response_body = c.uri }, Request.success);
  process_body = λ c. (c, Request.success);
}

abbrev request : HttpRequestIn
request = record {
  uri = b'/' ∷ b'x' ∷ [];
  args = [];
  headers = [];
  host = none;
  user_agent = none;
  referer = none;
  x_real_ip = none;
  x_forwarded_for = [];
  cookies = [];
  addr_text = [];
  is_post = false;
  bufs = none;
}

abbrev world : World ℕ
world = record {
  get_or_head = true;
  discarded = ngx_ok;
  typed = true;
  made = true;
  plugin_name = some a_text;
  room = true;
  manager = (create_manager confs).0;
  instance_of = λ k. asking;
  request = request;
  reads = λ k size pos. none;
  garbage = λ n. [];
  fuel = 0;
  context = 0;
}

named_handler-decode_example :
    (r : Req ℕ) × (frame : List ℕ) × (named_handler world (record { plugin = none })
      ≡ some (record { plugin = some asking }, r, ngx_done))
    × ((create_request (λ n. true) true r).0.request_bufs ≡ some (some frame))
    × (decode (frame ++ 7 ∷ []) ≡ body 2 (b'/' ∷ b'x' ∷ 7 ∷ []))
named_handler-decode_example =
    named_handler-decode world (record { plugin = none }) b'a' 1 []
      (record (bodyless world) { response_body = b'/' ∷ b'x' ∷ [] }) confs (λ n. true) (7 ∷ [])
      (record {
        method_lem = refl;
        not_post = refl;
        discarded_lem = refl;
        typed_lem = refl;
        made_lem = refl;
        room_lem = refl;
        name_lem = refl;
      })
      (unfold program in refl) refl refl refl (omega arith) (λ n. refl)

-- A plugin of the subrequest module, whose answer is the error 1.
abbrev telling : Subrequest.Plugin (CRequest ℕ)
telling = record {
  handle = λ r. (r, Subrequest.plugin_error);
  process_body = λ r. (r, Subrequest.plugin_ok);
}

-- The body lies in a file that cannot be read.
abbrev broken : Subrequest.Start.World ℕ
broken = record {
  plugin_name = some a_text;
  manager = (create_manager confs).0;
  instance_of = λ k. telling;
  request = record request { is_post = true; bufs = some (in_file 0 3 ∷ []) };
  reads = λ k size pos. none;
  garbage = λ n. [];
  fuel = 1;
  context = 0;
}

abbrev nginx : Subrequest.Nginx (CRequest ℕ)
nginx = record {
  method = Subrequest.Method.post;
  reading = Subrequest.read_whole;
  plugin = none;
  request = record { subrequest = []; content = new_request 0 };
  array_room = true;
  array_push = λ i. true;
  uri_room = λ i. true;
  args_room = λ i. true;
  psr_room = λ i. true;
  http_subrequest = λ i uri args. none;
  is_done = λ r. true;
  upstream = λ r. none;
  crequest_to_ngxr = λ r. Subrequest.ngx_ok;
  output_filter = Subrequest.ngx_ok;
}

is_failed :
    (c : CRequest ℕ) × ((ngxr_to_crequest
        (broken.reads)
        (broken.garbage)
        1
        (broken.request)
        (new_request 0)).1
      ≡ failed c)
unfolding ngxr_to_crequest get_post_body body_loop add_buf part_size larger read_loop after_read
    with_body
is_failed = (_, refl)

run_named-create_manager_example :
    let made : Subrequest.CRequest (CRequest ℕ) = record {
      subrequest = [];
      content = is_failed.0;
    } in
    Subrequest.Start.run_named broken nginx Subrequest.Handler.fresh
    ≡ some (
      answered (record Subrequest.Handler.fresh { plugin = some telling; created = 1 }) made,
      Subrequest.ngx_ok,
    )
run_named-create_manager_example =
    Subrequest.Start.run_named-create_manager broken nginx b'a' 1 [] confs is_failed.0
      (record { subrequest = []; content = is_failed.0 }) Subrequest.plugin_error refl
      (unfold program in refl) refl refl (unfold Subrequest.Handler.init_request in refl)
      (inl (is_failed.1)) refl (ground arith)
