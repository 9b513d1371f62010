-- ===== src/Tests/Configuration.antt =====
-- The settings of a location at concrete levels.
use Prim.Native.Nat.{bit_and, bit_or}
use nginx_modules.Base.{ℕ, ◌≡◌, ◌==◌, refl, if◌then◌else◌, true, false, none, some, [], ◌∷◌, arith}
use nginx_modules.Configuration.{
  Macros, Merges, IsMacros, LocConf, CoreLocConf, create_loc_conf, alone_if_off, merge_loc_conf,
  set_redirect, after_add, after_test, upstream_pass, subrequest_cb, http_handle,
}
use nginx_modules.Configuration.Levels.{latest, merged, Effective, merged-Effective}
use nginx_modules.Configuration.Directives.{obey, after_obey, configure}

program : Unit {0}
unfolding alone_if_off merge_loc_conf set_redirect after_add after_test upstream_pass subrequest_cb
    http_handle latest merged obey after_obey configure
program = tt

abbrev unset : ℕ
unset = 18446744073709551615

abbrev merge : ℕ → ℕ → ℕ → ℕ → ℕ
merge mark c prev d = if c == mark then (if prev == mark then d else prev) else c

merge-Merges : (mark : ℕ) → Merges mark (merge mark)
merge-Merges mark = record {
  own = λ c prev d n. ground (arith, n);
  outer = λ prev d n. ground (arith, n);
  default = λ d. ground arith;
}

abbrev macros : Macros
macros = record {
  unset_msec = unset;
  unset_size = unset;
  unset_ptr = unset;
  merge_msec = merge unset;
  merge_size = merge unset;
  merge_ptr = merge unset;
  merge_bitmask = merge 0;
  bit_and = bit_and;
  bit_or = bit_or;
  bitmask_set = 1;
  ft_error = 2;
  ft_timeout = 4;
  ft_off = 1024;
  pagesize = 4096;
}

macros-IsMacros : IsMacros macros
macros-IsMacros = record {
  msec_lem = merge-Merges unset;
  size_lem = merge-Merges unset;
  bitmask_lem = merge-Merges 0;
  msec_mark = λ e. absurd (omega (arith, e));
  size_mark = λ e. absurd (omega (arith, e));
  off_lem = λ e. absurd (omega (arith, e));
  off_set = λ e. absurd (omega (arith, e));
  default_set = λ e. absurd (omega (arith, e));
}

abbrev level : LocConf
level = record {
  local = 0;
  connect_timeout = unset;
  send_timeout = unset;
  read_timeout = unset;
  buffer_size = unset;
  next_upstream = 0;
  upstream = none;
  store_access = 384;
  buffering = 0;
  bufs_num = 8;
  bufs_size = 4096;
  busy_buffers_size = 8192;
  temp_file_write_size = 8192;
  max_temp_file_size = 1073741824;
  hide_headers = unset;
  pass_headers = unset;
  plugin = none;
}

a_level : create_loc_conf macros true ≡ some level
unfolding create_loc_conf
a_level = refl

-- A timeout on the outer level, `off` beside another condition on the inner one.
abbrev outer : LocConf
outer = record level { connect_timeout = 500; upstream = some 3 }

abbrev inner : LocConf
inner = record level { next_upstream = 1027 }

off_alone : (merged macros outer (inner ∷ [])).next_upstream ≡ 1025
unfolding program
off_alone = refl

merged-Effective_example :
    Effective macros outer (level ∷ inner ∷ []) (merged macros outer (level ∷ inner ∷ []))
merged-Effective_example = merged-Effective macros outer level (inner ∷ []) macros-IsMacros

abbrev root : CoreLocConf
root = record { name = b'/' ∷ []; handler = none; auto_redirect = false }
