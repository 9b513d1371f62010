-- ===== src/Configuration.antt =====
-- The settings of a location: the functions of ngx_upstream_module.c that nginx calls while it reads
-- its configuration, and the directives of the modules that set a location's handler.
pub mod Levels
pub mod Directives
use nginx_modules.Base.{
  ℕ, zero, suc, ◌+◌, ◌*◌, ◌≡◌, ◌≢◌, ◌==◌, if◌then◌else◌, Bool, true, false, Option, none, some,
  List, [], ◌∷◌, get_last?,
}

-- nginx's macros that merge two levels of the configuration, its marks for what is not set, the bits
-- of `next_upstream` with the operations on them, and the size of a page.
pub record Macros : Type 0 where
  pub unset_msec : ℕ
  pub unset_size : ℕ
  pub unset_ptr : ℕ
  pub merge_msec : ℕ → ℕ → ℕ → ℕ
  pub merge_size : ℕ → ℕ → ℕ → ℕ
  pub merge_ptr : ℕ → ℕ → ℕ → ℕ
  pub merge_bitmask : ℕ → ℕ → ℕ → ℕ
  pub bit_and : ℕ → ℕ → ℕ
  pub bit_or : ℕ → ℕ → ℕ
  pub bitmask_set : ℕ
  pub ft_error : ℕ
  pub ft_timeout : ℕ
  pub ft_off : ℕ
  pub pagesize : ℕ

-- A macro gives what this level has, or else what the level around it has, or else the default.
pub record Merges (unset : ℕ) (merge : ℕ → ℕ → ℕ → ℕ) : Type 0 where
  pub own : (c prev d : ℕ) → c ≢ unset → merge c prev d ≡ c
  pub outer : (prev d : ℕ) → prev ≢ unset → merge unset prev d ≡ prev
  pub default : (d : ℕ) → merge unset unset d ≡ d

-- What the code relies on: the macros merge, the mark is no time and no size that the code writes, and
-- the bit of `off` is read from where it was put in, with the mark of a mask that is set.
pub record IsMacros (m : Macros) : Type 0 where
  pub msec_lem : Merges m.unset_msec m.merge_msec
  pub size_lem : Merges m.unset_size m.merge_size
  pub bitmask_lem : Merges 0 m.merge_bitmask
  pub msec_mark : m.unset_msec ≢ 60000
  pub size_mark : m.unset_size ≢ 8096
  pub off_lem : m.bit_and (m.bit_or m.bitmask_set m.ft_off) m.ft_off ≢ 0
  pub off_set : m.bit_or m.bitmask_set m.ft_off ≢ 0
  pub default_set : m.bit_or (m.bit_or m.bitmask_set m.ft_error) m.ft_timeout ≢ 0

-- ngx_http_proto_upstream_loc_conf_t: the fields that the module writes. The upstream is an address.
pub record LocConf : Type 0 where
  pub local : ℕ
  pub connect_timeout : ℕ
  pub send_timeout : ℕ
  pub read_timeout : ℕ
  pub buffer_size : ℕ
  pub next_upstream : ℕ
  pub upstream : Option ℕ
  pub store_access : ℕ
  pub buffering : ℕ
  pub bufs_num : ℕ
  pub bufs_size : ℕ
  pub busy_buffers_size : ℕ
  pub temp_file_write_size : ℕ
  pub max_temp_file_size : ℕ
  pub hide_headers : ℕ
  pub pass_headers : ℕ
  pub plugin : Option ℕ

module _ (m : Macros) where
  -- ngx_http_proto_upstream_create_loc_conf: what is not written is 0 by ngx_pcalloc. `room` tells
  -- whether there is memory.
  unfoldable pub create_loc_conf : Bool → Option LocConf
  create_loc_conf false = none
  create_loc_conf true = some (record {
    local = 0;
    connect_timeout = m.unset_msec;
    send_timeout = m.unset_msec;
    read_timeout = m.unset_msec;
    buffer_size = m.unset_size;
    next_upstream = 0;
    upstream = none;
    store_access = 384;
    buffering = 0;
    bufs_num = 8;
    bufs_size = m.pagesize;
    busy_buffers_size = 2 * m.pagesize;
    temp_file_write_size = 2 * m.pagesize;
    max_temp_file_size = 1024 * 1024 * 1024;
    hide_headers = m.unset_ptr;
    pass_headers = m.unset_ptr;
    plugin = none;
  })

  -- `off` takes the other bits away.
  unfoldable pub alone_if_off : ℕ → ℕ
  alone_if_off n = if m.bit_and n m.ft_off == 0 then n else m.bit_or m.bitmask_set m.ft_off

  -- ngx_http_proto_upstream_merge_loc_conf: `prev` is the level around `conf`.
  unfoldable pub merge_loc_conf : LocConf → LocConf → LocConf
  unfolding alone_if_off
  merge_loc_conf prev conf =
      let timeout = m.merge_msec conf.connect_timeout prev.connect_timeout 60000 in
      record conf {
        local = m.merge_ptr conf.local prev.local 0;
        connect_timeout = timeout;
        send_timeout = timeout;
        read_timeout = timeout;
        buffer_size = m.merge_size conf.buffer_size prev.buffer_size 8096;
        next_upstream = alone_if_off (
            m.merge_bitmask conf.next_upstream prev.next_upstream
              (m.bit_or (m.bit_or m.bitmask_set m.ft_error) m.ft_timeout));
        upstream = elim conf.upstream [ none ↦ prev.upstream | some u ↦ some u ];
      }

-- The functions of the modules that a location's requests are handed to.
pub data Handler : Type 0 where
  proto_upstream_handler subrequest_handler handle_handler : Handler

-- What the directives read and write of ngx_http_core_loc_conf_t.
pub record CoreLocConf : Type 0 where
  pub name : List ℕ
  pub handler : Option Handler
  pub auto_redirect : Bool

-- NGX_CONF_OK, NGX_CONF_ERROR and a message. `overrun` stands for the read in front of an empty name.
pub data ConfResult : Type 0 where
  conf_ok conf_error is_duplicate overrun : ConfResult

-- The end of ngx_http_proto_upstream_pass, by the last character of the location's name.
unfoldable pub set_redirect : CoreLocConf → Option ℕ → CoreLocConf × ConfResult
set_redirect clcf none = (clcf, overrun)
set_redirect clcf (some c) =
    (if c == b'/' then record clcf { auto_redirect = true } else clcf, conf_ok)

-- ngx_http_proto_upstream_pass once ngx_http_upstream_add has answered.
unfoldable pub after_add : LocConf → CoreLocConf → Option ℕ → LocConf × CoreLocConf × ConfResult
unfolding set_redirect
after_add mlcf clcf none = (mlcf, clcf, conf_error)
after_add mlcf clcf (some u) =
    let (clcf', rc) =
      set_redirect (record clcf { handler = some proto_upstream_handler }) (get_last? clcf.name) in
    (record mlcf { upstream = some u }, clcf', rc)

-- ngx_http_proto_upstream_pass, by the upstream that the location has already.
unfoldable pub after_test :
    (List ℕ → Option ℕ)
    → List ℕ
    → LocConf
    → CoreLocConf
    → Option ℕ
    → LocConf × CoreLocConf × ConfResult
unfolding after_add
after_test add url mlcf clcf none = after_add mlcf clcf (add url)
after_test add url mlcf clcf (some u) = (mlcf, clcf, is_duplicate)

-- ngx_http_proto_upstream_pass: `add` is ngx_http_upstream_add on the directive's word.
unfoldable pub upstream_pass :
    (List ℕ → Option ℕ) → List ℕ → LocConf → CoreLocConf → LocConf × CoreLocConf × ConfResult
unfolding after_test
upstream_pass add url mlcf clcf = after_test add url mlcf clcf mlcf.upstream

-- ngx_http_subrequest_cb, which returns NGX_OK, that is NGX_CONF_OK
unfoldable pub subrequest_cb : CoreLocConf → CoreLocConf × ConfResult
subrequest_cb clcf = (record clcf { handler = some subrequest_handler }, conf_ok)

-- ngx_http_handle
unfoldable pub http_handle : CoreLocConf → CoreLocConf × ConfResult
http_handle clcf = (record clcf { handler = some handle_handler }, conf_ok)
