-- ===== src/Configuration/Directives.antt =====
-- The directives of one location, in the order of the file.
use nginx_modules.Base.{
  ℕ, ◌+◌, ◌≡◌, refl, ap, ◌∙◌, Option, none, some, List, [], ◌∷◌, get_last?, arith,
}
use nginx_modules.Configuration.{
  LocConf, Handler, proto_upstream_handler, subrequest_handler, handle_handler, CoreLocConf,
  ConfResult, conf_ok, conf_error, is_duplicate, overrun, set_redirect, after_add, after_test,
  upstream_pass, subrequest_cb, http_handle,
}

-- `upstream_pass` with its word, `nginx_subrequest` and `nginx_handle`.
pub data Directive : Type 0 where
  passing : List ℕ → Directive
  subrequests handling : Directive

-- A directive that calls no function of the location's own settings.
abbrev pub with_core : LocConf → CoreLocConf × ConfResult → LocConf × CoreLocConf × ConfResult
with_core mlcf (clcf, rc) = (mlcf, clcf, rc)

module _ (add : List ℕ → Option ℕ) where
  unfoldable pub obey : Directive → LocConf → CoreLocConf → LocConf × CoreLocConf × ConfResult
  unfolding upstream_pass subrequest_cb http_handle
  obey (passing url) mlcf clcf = upstream_pass add url mlcf clcf
  obey subrequests mlcf clcf = with_core mlcf (subrequest_cb clcf)
  obey handling mlcf clcf = with_core mlcf (http_handle clcf)

  -- The rest of the directives, by the result of one.
  unfoldable pub after_obey :
      (LocConf → CoreLocConf → LocConf × CoreLocConf × ConfResult)
      → LocConf × CoreLocConf × ConfResult
      → LocConf × CoreLocConf × ConfResult
  after_obey rest (mlcf, clcf, conf_ok) = rest mlcf clcf
  after_obey rest (mlcf, clcf, rc) = (mlcf, clcf, rc)

  -- nginx stops at the first directive that is not NGX_CONF_OK.
  unfoldable pub configure :
      List Directive → LocConf → CoreLocConf → LocConf × CoreLocConf × ConfResult
  unfolding obey after_obey
  configure [] mlcf clcf = (mlcf, clcf, conf_ok)
  configure (x ∷ xs) mlcf clcf = after_obey (λ m c. configure xs m c) (obey x mlcf clcf)

  abbrev pub handler_of : Directive → Handler
  handler_of (passing url) = proto_upstream_handler
  handler_of subrequests = subrequest_handler
  handler_of handling = handle_handler

  abbrev pub last_handler : Option Handler → List Directive → Option Handler
  last_handler h [] = h
  last_handler h (x ∷ xs) = last_handler (some (handler_of x)) xs

  -- How many of the directives are upstream_pass, and whether there is an upstream.
  abbrev pub passings : List Directive → ℕ
  passings [] = 0
  passings (passing url ∷ xs) = passings xs + 1
  passings (_ ∷ xs) = passings xs

  abbrev pub one_if_some : Option ℕ → ℕ
  one_if_some none = 0
  one_if_some (some u) = 1

  set_redirect_lem :
      (clcf : CoreLocConf) (o : Option ℕ) → (set_redirect clcf o).0.handler ≡ clcf.handler
  unfolding set_redirect
  set_redirect_lem clcf none = refl
  set_redirect_lem clcf (some c) = ground arith

  after_add_lem :
      (mlcf : LocConf) (clcf : CoreLocConf) (o : Option ℕ)
      → let r = after_add mlcf clcf o in
        r.2 ≡ conf_ok → (r.1.handler ≡ some proto_upstream_handler) × (one_if_some r.0.upstream ≡ 1)
  unfolding after_add
  after_add_lem mlcf clcf none e = absurd (cc e)
  after_add_lem mlcf clcf (some u) e = (
    set_redirect_lem (record clcf { handler = some proto_upstream_handler }) (get_last? clcf.name),
    refl,
  )

  after_test_lem :
      (url : List ℕ) (mlcf : LocConf) (clcf : CoreLocConf) (o : Option ℕ)
      → (after_test add url mlcf clcf o).2 ≡ conf_ok
      → ((after_test add url mlcf clcf o).1.handler ≡ some proto_upstream_handler)
        × (one_if_some (after_test add url mlcf clcf o).0.upstream ≡ 1 + one_if_some o)
  unfolding after_test
  after_test_lem url mlcf clcf (some u) e = absurd (cc e)
  after_test_lem url mlcf clcf none e = after_add_lem mlcf clcf (add url) e

  obey_lem :
      (x : Directive) (mlcf : LocConf) (clcf : CoreLocConf)
      → (obey x mlcf clcf).2 ≡ conf_ok
      → ((obey x mlcf clcf).1.handler ≡ some (handler_of x))
        × (one_if_some (obey x mlcf clcf).0.upstream
            ≡ passings (x ∷ []) + one_if_some mlcf.upstream)
  unfolding obey upstream_pass subrequest_cb http_handle
  obey_lem (passing url) mlcf clcf e = after_test_lem url mlcf clcf mlcf.upstream e
  obey_lem subrequests mlcf clcf e = (refl, omega arith)
  obey_lem handling mlcf clcf e = (refl, omega arith)

  passings-cons :
      (x : Directive) (xs : List Directive) → passings (x ∷ xs) ≡ passings xs + passings (x ∷ [])
  passings-cons (passing url) xs = omega arith
  passings-cons subrequests xs = omega arith
  passings-cons handling xs = omega arith

  accepted :
      (rest : LocConf → CoreLocConf → LocConf × CoreLocConf × ConfResult)
      (r : LocConf × CoreLocConf × ConfResult) (mlcf' : LocConf) (clcf' : CoreLocConf)
      → after_obey rest r ≡ (mlcf', clcf', conf_ok)
      → (r.2 ≡ conf_ok) × (rest r.0 r.1 ≡ (mlcf', clcf', conf_ok))
  unfolding after_obey
  accepted rest (mlcf, clcf, conf_ok) mlcf' clcf' e = (refl, e)
  accepted rest (mlcf, clcf, conf_error) mlcf' clcf' e = absurd (cc e)
  accepted rest (mlcf, clcf, is_duplicate) mlcf' clcf' e = absurd (cc e)
  accepted rest (mlcf, clcf, overrun) mlcf' clcf' e = absurd (cc e)

  -- Where all directives of a location are accepted, its requests go to the module of the last one,
  -- or where they went where there is none; and as often as upstream_pass stands there the location
  -- got an upstream, so at most once, and not where it had one.
  pub configure_lem :
      (xs : List Directive) (mlcf mlcf' : LocConf) (clcf clcf' : CoreLocConf)
      → configure xs mlcf clcf ≡ (mlcf', clcf', conf_ok)
      → (clcf'.handler ≡ last_handler clcf.handler xs)
        × (one_if_some mlcf'.upstream ≡ passings xs + one_if_some mlcf.upstream)
  unfolding configure
  configure_lem [] mlcf mlcf' clcf clcf' e =
      let m : mlcf' ≡ mlcf = cc e in
      let c : clcf' ≡ clcf = cc e in
      (
        ap (λ (x : CoreLocConf). x.handler) c,
        ground (arith, ap (λ (x : LocConf). one_if_some x.upstream) m),
      )
  configure_lem (x ∷ xs) mlcf mlcf' clcf clcf' e =
      let r = obey x mlcf clcf in
      let (ok, rest) = accepted (λ m c. configure xs m c) r mlcf' clcf' e in
      let (h, u) = obey_lem x mlcf clcf ok in
      let (h', u') = configure_lem xs r.0 mlcf' r.1 clcf' rest in
      (
        h' ∙ ap (λ (o : Option Handler). last_handler o xs) h,
        omega (arith, u, u', passings-cons x xs),
      )
