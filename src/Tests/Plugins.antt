-- ===== src/Tests/Plugins.antt =====
-- The plugins of a configuration, a request for one of them and its response, at concrete inputs.
use nginx_modules.Base.{
  ℕ, ◌≡◌, ◌==◌, zero, suc, ◌⊎◌, ◌↔◌, refl, true, false, Bool, none, some, List, [], ◌∷◌, ◌++◌,
  length, take, drop, arith,
}
use nginx_modules.Request.{CRequest, failure, Plugin, no_params, new_request}
use nginx_modules.Upstream.{ngx_ok, ngx_error}
use nginx_modules.Plugins.{
  PluginConf, Loader, success, insert_info, find_info, get_plugin, destroy_info, add_plugin,
  after_create, after_open, load_plugin, load_loop, create_manager, plugin_exit_master, init_module,
}
use nginx_modules.Plugins.Names.{first_line, get_plugin-create_manager}
use nginx_modules.Plugins.Lifetimes.{
  creations, deletions, openings, closings, plugin_exit_master-init_module,
}
use nginx_modules.Plugins.Lines.{
  name_key, so_path_key, so_conf_key, Spells, HasRoom, set_conf, set_conf_iff,
}
use nginx_modules.Response.{HttpRequest, Nginx, crequest_to_ngxr_impl}
use nginx_modules.Response.Failures.{crequest_to_ngxr_impl_nosend}
use nginx_modules.Uri.{uri_encode}
use nginx_modules.Uri.Params.Query.{write_query, insert_all}
use nginx_modules.Intake.{Buf, in_memory, in_file, Reads, completed}
use nginx_modules.Intake.Conversion.{HttpRequestIn, ngxr_to_crequest, ngxr_to_crequest_whole}
use nginx_modules.Handle.{World}

program : Unit {0}
unfolding insert_info find_info get_plugin destroy_info add_plugin after_create after_open
    load_plugin load_loop create_manager
program = tt

abbrev a_text : List ℕ
a_text = b'a' ∷ []

-- Two lines with one name.
abbrev line : List ℕ → PluginConf
line name = record { name = name; so_path = b'/' ∷ []; so_conf = [] }

abbrev loads : ℕ → Loader
loads n = record { dlopen = some n; dlsym = true; create_instance = some n }

abbrev confs : List (PluginConf × Loader)
confs = (line a_text, loads 1) ∷ (line a_text, loads 2) ∷ (line [], loads 3) ∷ []

get_plugin-create_manager_example :
    get_plugin (create_manager confs).0 a_text ≡ first_line a_text confs
get_plugin-create_manager_example = get_plugin-create_manager confs a_text (unfold program in refl)

plugin_exit_master-init_module_example :
    let log = plugin_exit_master (init_module (λ x conf. 0) confs).0 in
    (deletions 2 log ≡ creations 2 log) × (closings 2 log ≡ openings 2 log)
plugin_exit_master-init_module_example = plugin_exit_master-init_module (λ x conf. 0) confs 2

set_conf_iff_example :
    (Spells (line a_text) (name_key ++ a_text) (so_path_key ++ b'/' ∷ []) so_conf_key
      × HasRoom true (some (line [])) none)
    ↔ (set_conf true
          (some (line []))
          none
          (name_key ++ a_text)
          (so_path_key ++ b'/' ∷ [])
          so_conf_key
        ≡ (some (line a_text ∷ []), some success))
set_conf_iff_example =
    set_conf_iff true (some (line [])) none (line a_text) (name_key ++ a_text)
      (so_path_key ++ b'/' ∷ []) so_conf_key

abbrev response : HttpRequest
response = record {
  headers = [];
  status_line = [];
  content_type = [];
  content_type_len = 0;
  charset = [];
  content_length_n = 0;
  status = 0;
  calls = 0;
  sent = [];
}

abbrev server : (ℕ → Bool) → Nginx
server alloc = record {
  alloc = alloc;
  header_only = false;
  send_header = ngx_ok;
  output_filter = ngx_ok;
}

abbrev greeting : CRequest ℕ
greeting = record (new_request 0) { response_body = b'o' ∷ b'k' ∷ [] }

crequest_to_ngxr_impl_nosend_example :
    let o = crequest_to_ngxr_impl (server (λ n. n == 0)) greeting true response in
    (o.0.sent ≡ [])
    × ((o.1 ≡ ngx_ok) ⊎ ((o.1 ≡ ngx_error) × (o.0.status ≡ 500) × (o.0.content_length_n ≡ 0)))
crequest_to_ngxr_impl_nosend_example =
    crequest_to_ngxr_impl_nosend (server (λ n. n == 0)) greeting response

abbrev failing : Plugin ℕ
failing = record {
  name = a_text;
  handle = λ c. (greeting, failure 1);
  process_body = λ c. (c, failure 1);
}

abbrev file : List ℕ
file = 1 ∷ 2 ∷ 3 ∷ 4 ∷ []

abbrev reads : Reads
reads k size pos = some (take size (drop pos file))

abbrev garbage : ℕ → List ℕ
garbage zero = []
garbage (suc n) = 0 ∷ garbage n

length-garbage : (n : ℕ) → length (garbage n) ≡ n
length-garbage zero = refl
length-garbage (suc n) = ground (arith, length-garbage n)

abbrev bufs : List Buf
bufs = in_memory (9 ∷ []) ∷ in_file 1 3 ∷ []

abbrev pairs : List (List ℕ × List ℕ)
pairs = (b'k' ∷ [], []) ∷ []

abbrev request : HttpRequestIn
request = record {
  uri = b'/' ∷ [];
  args = write_query b'&' pairs;
  headers = [];
  host = none;
  user_agent = none;
  referer = none;
  x_real_ip = none;
  x_forwarded_for = [];
  cookies = [];
  addr_text = [];
  is_post = true;
  bufs = some bufs;
}

abbrev plain : CRequest ℕ
plain = new_request 0

ngxr_to_crequest_whole_example :
    (c' : CRequest ℕ) × ((ngxr_to_crequest reads garbage 1 request plain).1 ≡ completed c')
    × (c'.uri ≡ b'/' ∷ [])
    × (c'.param ≡ insert_all no_params pairs)
    × (c'.request_body ≡ 9 ∷ 2 ∷ 3 ∷ [])
ngxr_to_crequest_whole_example =
    ngxr_to_crequest_whole file reads garbage 0 request plain bufs pairs length-garbage
      (λ k size pos. refl) (omega arith, omega arith, omega arith, omega arith, tt) refl refl refl
      ((((omega arith), ((omega arith, omega arith), tt)), tt), tt)
      (unfold uri_encode in (omega arith, (omega arith, tt)))

abbrev world : World ℕ
world = record {
  plugin_name = some a_text;
  manager = (create_manager confs).0;
  instance_of = λ k. failing;
  request = request;
  reads = reads;
  garbage = garbage;
  fuel = 1;
  context = 0;
  nginx = server (λ n. true);
}
