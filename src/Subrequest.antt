-- ===== src/Subrequest.antt =====
-- module_subrequest: the request's context and the functions of ngx_subrequest_interface.cc that
-- start subrequests and collect what they return.
pub mod Handler
pub mod Start
pub mod Collecting
pub mod Runs
use nginx_modules.Base.{
  ℕ, suc, ◌+◌, if◌then◌else◌, not, ◌&&◌, Bool, Option, none, some, List, [], ◌∷◌, ◌++◌,
}

-- MODULE_STATE_*
pub data State : Type 0 where
  state_init state_process state_wait_subrequest state_post_subrequest : State
  state_final state_done state_error : State

-- The return codes of nginx. `overrun` is none of them: it stands for a read or write through a
-- null pointer, or outside the array of subrequests or the plugin's vector.
pub data Rc : Type 0 where
  ngx_ok ngx_again ngx_error ngx_done : Rc
  ngx_other : ℕ → Rc
  overrun : Rc

-- CPlugin::PLUGIN_*
pub data PluginRc : Type 0 where
  plugin_ok plugin_again plugin_error : PluginRc

-- CSubrequest
pub record CSubrequest : Type 0 where
  pub uri : List ℕ
  pub args : List ℕ
  pub status : ℕ
  pub sec : ℕ
  pub usec : ℕ
  pub response : List ℕ

-- CRequest: its vector of subrequests, and the rest, which only the plugin reads.
pub record CRequest (C : Type 0) : Type 0 where
  pub subrequest : List CSubrequest
  pub content : C

-- CPlugin, less Destroy, which the contexts count.
pub record Plugin (C : Type 0) : Type 0 where
  pub handle : CRequest C → CRequest C × PluginRc
  pub process_body : CRequest C → CRequest C × PluginRc

-- subrequest_t: `subr` is set once ngx_http_subrequest has made the request.
pub record Subrequest : Type 0 where
  pub uri : List ℕ
  pub args : List ℕ
  pub subr : Option ℕ

-- What the code reads of an upstream: its state, and the bytes of its buffer.
pub record Upstream : Type 0 where
  pub status : ℕ
  pub response_sec : ℕ
  pub response_msec : ℕ
  pub buffer : List ℕ

-- ngx_http_subrequest_ctx_t, with what the module does outside it: how often it raised
-- `r->main->count`, and how many CRequests it made and destroyed.
pub record Ctx (C : Type 0) : Type 0 where
  pub state : State
  pub subrequests : Option (List Subrequest)
  pub request : Option (CRequest C)
  pub plugin : Option (Plugin C)
  pub count : ℕ
  pub created : ℕ
  pub destroyed : ℕ

-- `r->method`
pub data Method : Type 0 where
  get head post other : Method

-- ngx_http_read_client_request_body: it calls the handler it is given before it returns NGX_OK, or
-- returns NGX_AGAIN and calls it later, or fails.
pub data Reading : Type 0 where
  read_whole read_later : Reading
  read_failed : Rc → Reading

-- What nginx and the plugins answer during one call of the handler: room in the pool for each
-- element of the array and its texts, the request that ngx_http_subrequest makes, whether a request
-- is done and its upstream, the plugin by the name in the configuration, the CRequest that
-- ngxr_to_crequest fills, crequest_to_ngxr and ngx_http_output_filter.
pub record Nginx (C : Type 0) : Type 0 where
  pub method : Method
  pub reading : Reading
  pub plugin : Option (Plugin C)
  pub request : CRequest C
  pub array_room : Bool
  pub array_push : ℕ → Bool
  pub uri_room : ℕ → Bool
  pub args_room : ℕ → Bool
  pub psr_room : ℕ → Bool
  pub http_subrequest : ℕ → List ℕ → List ℕ → Option ℕ
  pub is_done : ℕ → Bool
  pub upstream : ℕ → Option Upstream
  pub crequest_to_ngxr : CRequest C → Rc
  pub output_filter : Rc

module _ {C : Type 0} (w : Nginx C) where
  -- The first loop of start_subrequest: the array so far, and the vector that is still to come.
  -- An element whose texts find no room is not read again.
  unfoldable pub push_loop : ℕ → List CSubrequest → List Subrequest → List Subrequest × Rc
  push_loop i [] st = (st, ngx_ok)
  push_loop i (ups ∷ next) st =
      let element : Subrequest = record { uri = ups.uri; args = ups.args; subr = none } in
      let rest = push_loop (suc i) next (st ++ element ∷ []) in
      if not (w.array_push i)
      then (st, ngx_error)
      else (if w.uri_room i && w.args_room i then rest else (st ++ element ∷ [], ngx_error))

  -- The second loop.
  unfoldable pub launch_loop : ℕ → List Subrequest → List Subrequest × Rc
  launch_loop i [] = ([], ngx_ok)
  launch_loop i (st ∷ next) =
      let (next', rc) = launch_loop (suc i) next in
      if not (w.psr_room i)
      then (st ∷ next, ngx_error)
      else elim (w.http_subrequest i st.uri st.args) [
        | none ↦ (st ∷ next, ngx_error)
        | some r ↦ (record st { subr = some r } ∷ next', rc)
      ]

  -- The second loop runs where the first is a success.
  unfoldable pub launch : List Subrequest × Rc → List Subrequest × Rc
  unfolding launch_loop
  launch (st, ngx_ok) = launch_loop 0 st
  launch (st, rc) = (st, rc)

  -- start_subrequest: an array of an earlier round is emptied first; the result of
  -- ngx_array_create is not tested.
  unfoldable pub start_subrequest : Ctx C → CRequest C → Ctx C × Rc
  unfolding push_loop launch
  start_subrequest c request =
      let (st, rc) = launch (push_loop 0 request.subrequest []) in
      if w.array_room
      then (record c { subrequests = some st }, rc)
      else (c, elim c.subrequests [ some old ↦ ngx_error | none ↦ overrun ])

  -- The first loop of plugin_check_subrequest.
  unfoldable pub check_loop : List Subrequest → Rc
  check_loop [] = ngx_ok
  check_loop (st ∷ next) =
      let rest = check_loop next in
      elim st.subr [ none ↦ overrun | some r ↦ if w.is_done r then rest else ngx_again ]

  -- The second loop: the array and the vector side by side.
  unfoldable pub collect_loop : List Subrequest → List CSubrequest → List CSubrequest × Rc
  collect_loop [] it = (it, ngx_ok)
  collect_loop (st ∷ next) [] = ([], overrun)
  collect_loop (st ∷ next) (x ∷ it) =
      let (it', rc) = collect_loop next it in
      elim st.subr [
        | none ↦ (x ∷ it, overrun)
        | some r ↦ elim (w.upstream r) [
          | none ↦ (x ∷ it, ngx_error)
          | some up ↦ (
            record x {
              status = up.status;
              sec = up.response_sec;
              usec = up.response_msec;
              response = up.buffer;
            }
                ∷ it',
            rc,
          )
        ]
      ]

  unfoldable pub collect : Rc → List Subrequest → List CSubrequest → List CSubrequest × Rc
  unfolding collect_loop
  collect ngx_ok st it = collect_loop st it
  collect rc st it = (it, rc)

  -- plugin_check_subrequest
  unfoldable pub check_subrequest : List Subrequest → List CSubrequest → List CSubrequest × Rc
  unfolding check_loop collect
  check_subrequest st it = collect (check_loop st) st it
