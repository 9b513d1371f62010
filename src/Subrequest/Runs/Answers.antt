-- ===== src/Subrequest/Runs/Answers.antt =====
-- Calls of the handler that end with the plugin's response: the plugin's answer to the request, and
-- to the responses of its subrequests.
use nginx_modules.Base.{suc, ◌≡◌, ◌≢◌, refl, ap, ◌∙◌, some, List, length}
use nginx_modules.Subrequest.{
  state_process, state_wait_subrequest, state_post_subrequest, state_done, Rc, ngx_ok, PluginRc,
  plugin_ok, plugin_again, plugin_error, CRequest, Plugin, Subrequest, Ctx, Nginx, check_subrequest,
}
use nginx_modules.Subrequest.Handler.{
  fresh, then_do, enter_state, answer, destroy_request, init_request, process_request, check,
  post_request, final_request, after_init, after_process, after_check, init_stage, process_stage,
  wait_stage, post_stage, finish, finish_stage, run,
}
use nginx_modules.Subrequest.Collecting.{AreCollected, check_subrequest-AreCollected}

module _ {C : Type 0} where
  -- The context once the plugin's response has been sent.
  abbrev pub answered : Ctx C → CRequest C → Ctx C
  answered c request = record c {
    state = state_done;
    request = some request;
    destroyed = suc c.destroyed;
  }

  -- A plugin that asks for no subrequests is answered for at once.
  after_process_lem :
      (w : Nginx C) (c : Ctx C) (request : CRequest C) (a : PluginRc)
      → a ≢ plugin_again
      → finish_stage w (
          then_do
            (then_do (after_process w (answer w c (request, a))) (wait_stage w))
            (post_stage w))
        ≡ (answered c request, w.crequest_to_ngxr request)
  unfolding finish_stage then_do after_process answer wait_stage post_stage enter_state finish
      final_request destroy_request
  after_process_lem w c request plugin_ok n = refl
  after_process_lem w c request plugin_error n = refl
  after_process_lem w c request plugin_again n = absurd (n refl)

  after_post_lem :
      (w : Nginx C) (c : Ctx C) (request : CRequest C) (a : PluginRc)
      → a ≢ plugin_again
      → finish_stage w (after_process w (answer w c (request, a)))
        ≡ (answered c request, w.crequest_to_ngxr request)
  unfolding finish_stage after_process answer enter_state finish final_request destroy_request
  after_post_lem w c request plugin_ok n = refl
  after_post_lem w c request plugin_error n = refl
  after_post_lem w c request plugin_again n = absurd (n refl)

  -- The first call, where the body is there and the plugin asks for no subrequests.
  pub run-answered :
      (n : Nginx C) (plugin : Plugin C) (request request' : CRequest C) (a : PluginRc)
      → init_request n.method n.reading ≡ ngx_ok
      → plugin.handle request ≡ (request', a)
      → a ≢ plugin_again
      → run (record n { plugin = some plugin; request = request }) fresh ≡ (
        answered (record fresh { plugin = some plugin; created = 1 }) request',
        n.crequest_to_ngxr request',
      )
  unfolding run init_stage process_stage process_request then_do after_init enter_state fresh
  run-answered n plugin request request' a e h k =
      let w : Nginx C = record n { plugin = some plugin; request = request } in
      let c : Ctx C = record fresh {
        state = state_process;
        plugin = some plugin;
        request = some request;
        created = 1;
      } in
      ap
        (λ (rc : Rc). finish_stage w (
          then_do (then_do (then_do (after_init w fresh rc) (process_stage w)) (wait_stage w))
            (post_stage w)))
        e
      ∙ ap
          (λ (r : CRequest C × PluginRc).
            finish_stage w
              (then_do (then_do (after_process w (answer w c r)) (wait_stage w)) (post_stage w)))
          h
      ∙ after_process_lem w c request' a k

  -- A call in MODULE_STATE_WAIT_SUBREQUEST on a vector as long as the array, where
  -- plugin_check_subrequest is a success: every request of the array is done, and each element of the
  -- vector has got the response of the request at its place. Where the plugin's ProcessBody, called
  -- with that vector, asks for no more subrequests, the handler sends the plugin's response and returns
  -- what that returns, in MODULE_STATE_DONE, with the plugin's request destroyed once more and
  -- `r->main->count` as it was.
  pub run-collected :
      (w : Nginx C) (c : Ctx C) (st : List Subrequest) (plugin : Plugin C)
      (request request' : CRequest C) (a : PluginRc)
      → let it = (check_subrequest w st request.subrequest).0 in
        let c' : Ctx C = record c {
          state = state_wait_subrequest;
          subrequests = some st;
          request = some request;
          plugin = some plugin;
        } in
        length st ≡ length request.subrequest
        → (check_subrequest w st request.subrequest).1 ≡ ngx_ok
        → plugin.process_body (record request { subrequest = it }) ≡ (request', a)
        → a ≢ plugin_again
        → AreCollected w st request.subrequest it
          × (run w c' ≡ (answered c' request', w.crequest_to_ngxr request'))
  unfolding run init_stage process_stage wait_stage post_stage then_do after_check enter_state check
      post_request
  run-collected w c st plugin request request' a n e h k =
      let it = (check_subrequest w st request.subrequest).0 in
      let c1 : Ctx C = record c {
        state = state_wait_subrequest;
        subrequests = some st;
        request = some (record request { subrequest = it });
        plugin = some plugin;
      } in
      let c2 : Ctx C = record c1 { state = state_post_subrequest } in
      (
        check_subrequest-AreCollected w st request.subrequest n e,
        ap (λ (rc : Rc). finish_stage w (then_do (after_check w (c1, rc)) (post_stage w))) e
            ∙ ap (λ (r : CRequest C × PluginRc). finish_stage w (after_process w (answer w c2 r))) h
            ∙ after_post_lem w c2 request' a k,
      )
