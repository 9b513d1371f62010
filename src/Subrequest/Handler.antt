-- ===== src/Subrequest/Handler.antt =====
-- The stages of ngx_http_subrequest_handler with the plugin_* functions that they call, and
-- post_body.
use nginx_modules.Base.{suc, if◌then◌else◌, Bool, Option, none, some}
use nginx_modules.Subrequest.{
  State, state_init, state_process, state_wait_subrequest, state_post_subrequest, state_final,
  state_done, state_error, Rc, ngx_ok, ngx_again, ngx_error, ngx_done, overrun, PluginRc,
  plugin_again, CRequest, Ctx, Method, Reading, read_whole, read_later, read_failed, Nginx,
  start_subrequest, check_subrequest,
}

-- A stage goes on to the next test of the state, or returns from the handler.
pub data Stage (C : Type 0) : Type 0 where
  go : Ctx C → Stage C
  ret : Ctx C → Rc → Stage C

module _ {C : Type 0} where
  unfoldable pub then_do : Stage C → (Ctx C → Stage C) → Stage C
  then_do (go c) f = f c
  then_do (ret c rc) f = ret c rc

  unfoldable pub enter_state : Ctx C → State → Ctx C
  enter_state c s = record c { state = s }

  -- `r->main->count++; return NGX_DONE;` in MODULE_STATE_WAIT_SUBREQUEST
  unfoldable pub wait : Ctx C → Stage C
  wait c = ret (record c { state = state_wait_subrequest; count = suc c.count }) ngx_done

  -- The context as ngx_pcalloc leaves it, with its first state.
  unfoldable pub fresh : Ctx C
  fresh = record {
    state = state_init;
    subrequests = none;
    request = none;
    plugin = none;
    count = 0;
    created = 0;
    destroyed = 0;
  }

  -- What a plugin's answer leads to in plugin_process_request and plugin_post_subrequest; `overrun`
  -- stays what it is.
  unfoldable pub answer : Nginx C → Ctx C → CRequest C × PluginRc → Ctx C × Rc
  unfolding start_subrequest
  answer w c (request, plugin_again) =
      let (c', rc) = start_subrequest w (record c { request = some request }) request in
      (c', elim rc [ ngx_ok ↦ ngx_again | overrun ↦ overrun | _ ↦ ngx_error ])
  answer w c (request, rc) = (record c { request = some request }, ngx_ok)

  -- `plugin->Destroy(*request); delete request;` where there is a request; the context's pointer
  -- stays.
  unfoldable pub destroy_request : Ctx C → Ctx C
  destroy_request c = elim c.request [
    | none ↦ c
    | some request ↦ record c { destroyed = suc c.destroyed }
  ]

-- plugin_init_request
unfoldable pub init_request : Method → Reading → Rc
init_request Method.get reading = ngx_ok
init_request Method.head reading = ngx_ok
init_request Method.post read_whole = ngx_ok
init_request Method.post read_later = ngx_again
init_request Method.post (read_failed rc) = rc
init_request Method.other reading = ngx_error

module _ {C : Type 0} (w : Nginx C) where
  -- plugin_process_request, with init_plugin
  unfoldable pub process_request : Ctx C → Ctx C × Rc
  unfolding answer
  process_request c = elim w.plugin [
    | none ↦ (c, ngx_error)
    | some plugin ↦
        answer w
          (record c { plugin = some plugin; request = some w.request; created = suc c.created })
          (plugin.handle w.request)
  ]

  -- plugin_check_subrequest on the context
  unfoldable pub check : Ctx C → Ctx C × Rc
  unfolding check_subrequest
  check c = elim c.subrequests [
    | none ↦ (c, overrun)
    | some st ↦ elim c.request [
      | none ↦ (c, overrun)
      | some request ↦
          let (it, rc) = check_subrequest w st request.subrequest in
          (record c { request = some (record request { subrequest = it }) }, rc)
    ]
  ]

  -- plugin_post_subrequest
  unfoldable pub post_request : Ctx C → Ctx C × Rc
  unfolding answer
  post_request c = elim c.plugin [
    | none ↦ (c, overrun)
    | some plugin ↦ elim c.request [
      | none ↦ (c, overrun)
      | some request ↦ answer w c (plugin.process_body request)
    ]
  ]

  -- plugin_final_request
  unfoldable pub final_request : Ctx C → Ctx C × Rc
  unfolding destroy_request
  final_request c = (
    destroy_request c,
    elim c.request [ none ↦ overrun | some request ↦ w.crequest_to_ngxr request ],
  )

  -- What each stage does with the code that its function returns. At `overrun` the call is over: the
  -- function has not returned.
  unfoldable pub after_init : Ctx C → Rc → Stage C
  unfolding enter_state
  after_init c ngx_ok = go (enter_state c state_process)
  after_init c ngx_again = ret c ngx_done
  after_init c rc = go (enter_state c state_error)

  unfoldable pub after_process : Ctx C × Rc → Stage C
  unfolding enter_state wait
  after_process (c, ngx_ok) = go (enter_state c state_final)
  after_process (c, ngx_again) = wait c
  after_process (c, overrun) = ret c overrun
  after_process (c, rc) = go (enter_state c state_error)

  unfoldable pub after_check : Ctx C × Rc → Stage C
  unfolding enter_state wait
  after_check (c, ngx_ok) = go (enter_state c state_post_subrequest)
  after_check (c, ngx_again) = wait c
  after_check (c, overrun) = ret c overrun
  after_check (c, rc) = go (enter_state c state_error)

  unfoldable pub init_stage : Ctx C → Stage C
  unfolding init_request after_init
  init_stage c = elim c.state [
    | state_init ↦ after_init c (init_request w.method w.reading)
    | _ ↦ go c
  ]

  unfoldable pub process_stage : Ctx C → Stage C
  unfolding process_request after_process
  process_stage c = elim c.state [ state_process ↦ after_process (process_request c) | _ ↦ go c ]

  unfoldable pub wait_stage : Ctx C → Stage C
  unfolding check after_check
  wait_stage c = elim c.state [ state_wait_subrequest ↦ after_check (check c) | _ ↦ go c ]

  unfoldable pub post_stage : Ctx C → Stage C
  unfolding post_request after_process
  post_stage c = elim c.state [ state_post_subrequest ↦ after_process (post_request c) | _ ↦ go c ]

  -- The last three states each return.
  unfoldable pub finish : Ctx C → Ctx C × Rc
  unfolding enter_state final_request destroy_request
  finish c = elim c.state [
    | state_final ↦ final_request (enter_state c state_done)
    | state_done ↦ (c, w.output_filter)
    | state_error ↦ (destroy_request c, ngx_error)
    | _ ↦ (c, ngx_ok)
  ]

  unfoldable pub finish_stage : Stage C → Ctx C × Rc
  unfolding finish
  finish_stage (go c) = finish c
  finish_stage (ret c rc) = (c, rc)

  -- ngx_http_subrequest_handler with a context
  unfoldable pub run : Ctx C → Ctx C × Rc
  unfolding finish_stage then_do init_stage process_stage wait_stage post_stage
  run c =
      finish_stage (then_do (then_do (then_do (init_stage c) process_stage) wait_stage) post_stage)

  -- ngx_http_subrequest_handler: the first call makes the context, if there is room for it.
  unfoldable pub handler : Bool → Option (Ctx C) → Option (Ctx C) × Rc
  unfolding run fresh
  handler room (some c) = let (c', rc) = run c in (some c', rc)
  handler room none = let (c', rc) = run fresh in if room then (some c', rc) else (none, ngx_error)

  -- post_body: the context with what ngx_http_finalize_request is called with.
  unfoldable pub post_body : Ctx C → Ctx C × Rc
  unfolding enter_state run
  post_body c = elim c.state [ state_init ↦ (c, ngx_done) | _ ↦ run (enter_state c state_process) ]
