-- ===== src/Subrequest/Runs.antt =====
-- How a call of the handler ends, by the code that each stage gets: the states, the references it
-- takes and the requests of the plugin that it destroys.
pub mod Diagram
pub mod Calls
pub mod Answers
use nginx_modules.Base.{
  ℕ, suc, ◌+◌, ◌≡◌, ◌≢◌, refl, sym, ap, ◌∙◌, Option-cases, ◌⊎◌, inl, inr, Option, none, some, List,
  arith, Bool, true, false, if◌then◌else◌,
}
use nginx_modules.Subrequest.{
  State, state_init, state_process, state_wait_subrequest, state_post_subrequest, state_final,
  state_done, state_error, Rc, ngx_ok, ngx_again, ngx_error, ngx_done, ngx_other, overrun, PluginRc,
  plugin_ok, plugin_again, plugin_error, CRequest, Plugin, Subrequest, Ctx, Method, Nginx,
  read_later, push_loop, launch, start_subrequest, check_subrequest,
}
use nginx_modules.Subrequest.Handler.{
  go, ret, then_do, enter_state, wait, answer, destroy_request, init_request, process_request,
  check, post_request, final_request, after_init, after_process, after_check, init_stage,
  process_stage, wait_stage, post_stage, finish, finish_stage, run, post_body, fresh,
}

module _ {C : Type 0} where
  abbrev pub size : Option (CRequest C) → ℕ
  size none = 0
  size (some request) = 1

  -- While a request is at work, its CRequest is the only one that is not destroyed.
  abbrev pub Open : Ctx C → Type 0
  Open c = c.created ≡ c.destroyed + size c.request

  abbrev pub Closed : Ctx C → Type 0
  Closed c = c.created ≡ c.destroyed

  -- The ways in which a call that is past the reading of the body ends; the last one follows a null
  -- pointer or leaves an array.
  abbrev pub Ends : ℕ → Ctx C × Rc → Type 0
  Ends k r =
      ((r.0.state ≡ state_wait_subrequest) × (r.1 ≡ ngx_done) × (r.0.count ≡ suc k) × Open r.0)
      ⊎ (((r.0.state ≡ state_done) × (r.0.count ≡ k) × Closed r.0)
          ⊎ (((r.0.state ≡ state_error) × (r.1 ≡ ngx_error) × (r.0.count ≡ k) × Closed r.0)
              ⊎ ((r.1 ≡ overrun) × (r.0.count ≡ k))))

  -- What the functions of the plugin interface leave.
  abbrev Keeps : ℕ → Ctx C × Rc → Type 0
  Keeps k r = (r.0.count ≡ k) × Open r.0

  destroy-Closed :
      (c : Ctx C)
      → Open c
      → ((destroy_request c).state ≡ c.state)
        × ((destroy_request c).count ≡ c.count)
        × Closed (destroy_request c)
  unfolding destroy_request
  destroy-Closed c o = ground arith

module _ {C : Type 0} (w : Nginx C) where
  fail-Ends :
      (k : ℕ) (c : Ctx C) → c.count ≡ k → Open c → Ends k (finish w (enter_state c state_error))
  unfolding finish enter_state
  fail-Ends k c e o =
      let (s, n, z) = destroy-Closed (enter_state c state_error) o in
      inr (inr (inl (s, refl, n ∙ e, z)))

  pub final-Ends :
      (k : ℕ) (c : Ctx C) → c.count ≡ k → Open c → Ends k (finish w (enter_state c state_final))
  unfolding finish enter_state final_request
  final-Ends k c e o =
      let (s, n, z) = destroy-Closed (enter_state c state_done) o in inr (inl (s, n ∙ e, z))

  start-Keeps :
      (c : Ctx C) (request : CRequest C) → Open c → Keeps c.count (start_subrequest w c request)
  unfolding start_subrequest
  start-Keeps c request o = ground arith

  answer-Keeps :
      (c : Ctx C) (r : CRequest C × PluginRc)
      → c.created ≡ c.destroyed + 1
      → Keeps c.count (answer w c r)
  unfolding answer
  answer-Keeps c (request, plugin_ok) o = (refl, o)
  answer-Keeps c (request, plugin_error) o = (refl, o)
  answer-Keeps c (request, plugin_again) o =
      start-Keeps (record c { request = some request }) request o

  process-Keeps : (c : Ctx C) → Open c → c.request ≡ none → Keeps c.count (process_request w c)
  unfolding process_request
  process-Keeps c o e = elim (Option-cases w.plugin) [
    | inl h ↦ rw (h, process_request) (refl, o)
    | inr (plugin, h) ↦
        rw (h, process_request)
          (answer-Keeps
            (record c { plugin = some plugin; request = some w.request; created = suc c.created })
            (plugin.handle w.request) (ground (arith, o, e)))
  ]

  check-Keeps : (c : Ctx C) → Open c → Keeps c.count (check w c)
  unfolding check
  check-Keeps c o = elim (Option-cases c.subrequests) [
    | inl h ↦ rw (h, check) (refl, o)
    | inr (st, h) ↦ elim (Option-cases c.request) [
      | inl g ↦ rw (h, check, g) (refl, o)
      | inr (request, g) ↦ rw (h, check, g) (refl, ground (arith, o, g))
    ]
  ]

  post-Keeps : (c : Ctx C) → Open c → Keeps c.count (post_request w c)
  unfolding post_request
  post-Keeps c o = elim (Option-cases c.plugin) [
    | inl h ↦ rw (h, post_request) (refl, o)
    | inr (plugin, h) ↦ elim (Option-cases c.request) [
      | inl g ↦ rw (h, post_request, g) (refl, o)
      | inr (request, g) ↦
          rw (h, post_request, g)
            (answer-Keeps c (plugin.process_body request) (ground (arith, o, g)))
    ]
  ]

  wait-Ends : (k : ℕ) (c : Ctx C) → Keeps k (c, ngx_again) → Ends k (finish_stage w (wait c))
  unfolding finish_stage wait
  wait-Ends k c (e, o) = inl (refl, refl, ground (arith, e), o)

  -- The last stage, the one before it, and the stage before both.
  after_process-Ends :
      (k : ℕ) (r : Ctx C × Rc)
      → Keeps k r
      → Ends k
          (finish_stage w (then_do (then_do (after_process w r) (wait_stage w)) (post_stage w)))
  unfolding finish_stage then_do after_process wait_stage post_stage
  after_process-Ends k (c, ngx_ok) (e, o) = final-Ends k c e o
  after_process-Ends k (c, ngx_again) (e, o) = wait-Ends k c (e, o)
  after_process-Ends k (c, ngx_error) (e, o) = fail-Ends k c e o
  after_process-Ends k (c, ngx_done) (e, o) = fail-Ends k c e o
  after_process-Ends k (c, ngx_other n) (e, o) = fail-Ends k c e o
  after_process-Ends k (c, overrun) (e, o) = inr (inr (inr (refl, e)))

  after_post-Ends :
      (k : ℕ) (r : Ctx C × Rc) → Keeps k r → Ends k (finish_stage w (after_process w r))
  unfolding finish_stage after_process
  after_post-Ends k (c, ngx_ok) (e, o) = final-Ends k c e o
  after_post-Ends k (c, ngx_again) (e, o) = wait-Ends k c (e, o)
  after_post-Ends k (c, ngx_error) (e, o) = fail-Ends k c e o
  after_post-Ends k (c, ngx_done) (e, o) = fail-Ends k c e o
  after_post-Ends k (c, ngx_other n) (e, o) = fail-Ends k c e o
  after_post-Ends k (c, overrun) (e, o) = inr (inr (inr (refl, e)))

  pub post-Ends :
      (k : ℕ) (c : Ctx C)
      → c.count ≡ k
      → Open c
      → Ends k
          (finish_stage w (after_process w (post_request w (enter_state c state_post_subrequest))))
  unfolding enter_state
  post-Ends k c e o =
      let (e', o') = post-Keeps (enter_state c state_post_subrequest) o in
      after_post-Ends k (post_request w (enter_state c state_post_subrequest)) (e' ∙ e, o')

  after_check-Ends :
      (k : ℕ) (r : Ctx C × Rc)
      → Keeps k r
      → Ends k (finish_stage w (then_do (after_check w r) (post_stage w)))
  unfolding finish_stage then_do after_check post_stage
  after_check-Ends k (c, ngx_ok) (e, o) = post-Ends k c e o
  after_check-Ends k (c, ngx_again) (e, o) = wait-Ends k c (e, o)
  after_check-Ends k (c, ngx_error) (e, o) = fail-Ends k c e o
  after_check-Ends k (c, ngx_done) (e, o) = fail-Ends k c e o
  after_check-Ends k (c, ngx_other n) (e, o) = fail-Ends k c e o
  after_check-Ends k (c, overrun) (e, o) = inr (inr (inr (refl, e)))

  pub process-Ends :
      (k : ℕ) (c : Ctx C)
      → c.count ≡ k
      → Open c
      → c.request ≡ none
      → Ends k (
          finish_stage w (
            then_do
              (then_do
                (after_process w (process_request w (enter_state c state_process)))
                (wait_stage w))
              (post_stage w)))
  unfolding enter_state
  process-Ends k c e o u =
      let (e', o') = process-Keeps (enter_state c state_process) o u in
      after_process-Ends k (process_request w (enter_state c state_process)) (e' ∙ e, o')

  pub check-Ends :
      (c : Ctx C)
      → Open c
      → Ends c.count (finish_stage w (then_do (after_check w (check w c)) (post_stage w)))
  check-Ends c o = after_check-Ends c.count (check w c) (check-Keeps c o)

  -- A call that waits for the body leaves the context as it is.
  pub after_init-Ends :
      (c : Ctx C) (rc : Rc)
      → c.state ≡ state_init
      → Open c
      → c.request ≡ none
      → let r = finish_stage w (
          then_do
            (then_do (then_do (after_init w c rc) (process_stage w)) (wait_stage w))
            (post_stage w)) in
        ((rc ≡ ngx_again) × (r ≡ (c, ngx_done))) ⊎ Ends c.count r
  unfolding finish_stage then_do after_init process_stage wait_stage post_stage
  after_init-Ends c ngx_ok s o u = inr (process-Ends c.count c refl o u)
  after_init-Ends c ngx_again s o u = inl (refl, refl)
  after_init-Ends c ngx_error s o u = inr (fail-Ends c.count c refl o)
  after_init-Ends c ngx_done s o u = inr (fail-Ends c.count c refl o)
  after_init-Ends c (ngx_other n) s o u = inr (fail-Ends c.count c refl o)
  after_init-Ends c overrun s o u = inr (fail-Ends c.count c refl o)
