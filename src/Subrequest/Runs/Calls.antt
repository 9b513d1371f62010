-- ===== src/Subrequest/Runs/Calls.antt =====
-- Sequences of calls of the handler, and the body that arrives late.
use nginx_modules.Base.{◌+◌, ◌≤◌, ◌≡◌, ◌≢◌, refl, ap, ◌⊎◌, inl, inr, Option, arith}
use nginx_modules.Subrequest.{
  State, state_init, state_process, state_wait_subrequest, state_post_subrequest, state_final,
  state_done, state_error, Rc, ngx_again, ngx_done, overrun, CRequest, Ctx, Method, Nginx,
  read_later,
}
use nginx_modules.Subrequest.Handler.{
  then_do, enter_state, init_request, after_init, init_stage, process_stage, wait_stage, post_stage,
  finish_stage, run, post_body, fresh,
}
use nginx_modules.Subrequest.Runs.Diagram.{held, IsBalanced, run-IsBalanced}

module _ {C : Type 0} (w : Nginx C) where
  init_request_later :
      w.method ≡ Method.post → w.reading ≡ read_later → init_request w.method w.reading ≡ ngx_again
  unfolding init_request
  init_request_later m l = rw (m, l) refl

  unread_from :
      (w' : Nginx C) (s : State) (c : Ctx C)
      → s ≡ state_init
      → init_request w.method w.reading ≡ ngx_again
      → (run w (enter_state c s) ≡ (enter_state c s, ngx_done))
        × (post_body w' (enter_state c s) ≡ (enter_state c s, ngx_done))
  unfolding run init_stage process_stage wait_stage post_stage then_do finish_stage enter_state
      after_init post_body
  unread_from w' state_init c e h = (
    ap
        (λ (rc : Rc). finish_stage w (
          then_do
            (then_do (then_do (after_init w (enter_state c state_init) rc) (process_stage w))
              (wait_stage w))
            (post_stage w)))
        h,
    refl,
  )
  unread_from w' state_process c e h = absurd (ground arith)
  unread_from w' state_wait_subrequest c e h = absurd (ground arith)
  unread_from w' state_post_subrequest c e h = absurd (ground arith)
  unread_from w' state_final c e h = absurd (ground arith)
  unread_from w' state_done c e h = absurd (ground arith)
  unread_from w' state_error c e h = absurd (ground arith)

  -- A POST whose body does not arrive at once: the handler returns to wait for it, and post_body
  -- then only finalizes the request; the context is as it was, and no plugin has run.
  pub post_body_unread :
      (w' : Nginx C) (c : Ctx C)
      → c.state ≡ state_init
      → w.method ≡ Method.post
      → w.reading ≡ read_later
      → (run w c ≡ (c, ngx_done)) × (post_body w' c ≡ (c, ngx_done))
  unfolding enter_state
  post_body_unread w' c e m l = unread_from w' c.state c e (init_request_later m l)

held-le : {C : Type 0} (s : State) (r : Option (CRequest C)) → held s r ≤ 1
held-le state_init r = ground arith
held-le state_process r = ground arith
held-le state_wait_subrequest r = ground arith
held-le state_post_subrequest r = ground arith
held-le state_final r = ground arith
held-le state_done r = ground arith
held-le state_error r = ground arith

held_none :
    {C : Type 0} (s : State) (r : Option (CRequest C))
    → (s ≡ state_done) ⊎ (s ≡ state_error)
    → held s r ≡ 0
held_none s r (inl e) = rw e refl
held_none s r (inr e) = rw e refl

-- The contexts that calls of the handler lead to, each of which returns, with whatever nginx and the
-- plugins answer; a call that returned NGX_ERROR in MODULE_STATE_ERROR is the last.
pub data Reachable {C : Type 0} : Ctx C → Type 0 where
  begins : Reachable fresh
  calls :
      (c : Ctx C) (w : Nginx C)
      → c.state ≢ state_error
      → (run w c).1 ≢ overrun
      → Reachable c
      → Reachable (run w c).0

fresh-IsBalanced : {C : Type 0} → IsBalanced (fresh {C = C})
unfolding fresh
fresh-IsBalanced = record { even = refl; unset = λ h. refl }

pub Reachable-IsBalanced : {C : Type 0} (c : Ctx C) → Reachable c → IsBalanced c
Reachable-IsBalanced _ begins = fresh-IsBalanced
Reachable-IsBalanced _ (calls c w n y r) = run-IsBalanced w c (Reachable-IsBalanced c r) n y

-- After any calls from the first one on that each return, the requests that were made for the plugin and not
-- destroyed are none where the handler is done or has failed, and at most one in the other states.
pub Reachable-destroyed :
    {C : Type 0} (c : Ctx C)
    → Reachable c
    → (((c.state ≡ state_done) ⊎ (c.state ≡ state_error)) → c.created ≡ c.destroyed)
      × (c.destroyed ≤ c.created)
      × (c.created ≤ c.destroyed + 1)
Reachable-destroyed c r =
    let b = Reachable-IsBalanced c r in
    let n = held-le c.state c.request in
    (
      λ h. omega (arith, b.even, held_none c.state c.request h),
      omega (arith, b.even),
      omega (arith, b.even, n),
    )
