-- ===== src/Subrequest/Runs/Diagram.antt =====
-- How the handler leaves its context: the references that it takes, and the balance of the plugin's requests.
use nginx_modules.Base.{
  ℕ, suc, ◌+◌, ◌≡◌, ◌≢◌, refl, sym, ap, ◌∙◌, ◌⊎◌, inl, inr, Option, none, some, arith, Bool, true,
  false,
}
use nginx_modules.Subrequest.{
  State, state_init, state_process, state_wait_subrequest, state_post_subrequest, state_final,
  state_done, state_error, Rc, ngx_done, overrun, CRequest, Ctx, Nginx,
}
use nginx_modules.Subrequest.Handler.{
  then_do, enter_state, init_request, init_stage, process_stage, wait_stage, post_stage, finish,
  finish_stage, run,
}
use nginx_modules.Subrequest.Runs.{
  size, Open, Ends, final-Ends, process-Ends, post-Ends, check-Ends, after_init-Ends,
}

-- The plugin's request that is not destroyed yet, by the state.
abbrev pub held : {C : Type 0} → State → Option (CRequest C) → ℕ
held state_done r = 0
held state_error r = 0
held s none = 0
held s (some request) = 1

abbrev pub is_before : State → Bool
is_before state_init = true
is_before state_process = true
is_before _ = false

-- The plugin's request is made after the first two states and destroyed before the last two, once.
pub record IsBalanced {C : Type 0} (c : Ctx C) : Type 0 where
  pub even : c.created ≡ c.destroyed + held c.state c.request
  pub unset : is_before c.state ≡ true → c.request ≡ none

module _ {C : Type 0} (w : Nginx C) where
  -- How a run goes from each of the states that have not returned yet.
  abbrev Goes : Ctx C → Type 0
  Goes c = ((c.state ≡ state_init) × (run w c ≡ (c, ngx_done))) ⊎ Ends c.count (run w c)

  held-size :
      (s : State) (r : Option (CRequest C)) → s ≢ state_done → s ≢ state_error → held s r ≡ size r
  held-size state_init r x y = ground arith
  held-size state_process r x y = ground arith
  held-size state_wait_subrequest r x y = ground arith
  held-size state_post_subrequest r x y = ground arith
  held-size state_final r x y = ground arith
  held-size state_done r x y = absurd (x refl)
  held-size state_error r x y = absurd (y refl)

  IsBalanced-Open :
      (c : Ctx C) → IsBalanced c → c.state ≢ state_done → c.state ≢ state_error → Open c
  IsBalanced-Open c b x y =
      b.even ∙ ap (λ (n : ℕ). c.destroyed + n) (held-size c.state c.request x y)

  run-Goes_at :
      (s : State) (c : Ctx C)
      → IsBalanced (enter_state c s)
      → s ≢ state_done
      → s ≢ state_error
      → Goes (enter_state c s)
  unfolding run init_stage process_stage wait_stage post_stage then_do finish_stage enter_state
  run-Goes_at state_init c b x y =
      elim (after_init-Ends w (enter_state c state_init) (init_request w.method w.reading) refl
        (IsBalanced-Open (enter_state c state_init) b x y) (b.unset refl)) [
          | inl (g, h) ↦ inl (refl, h)
          | inr e ↦ inr e
        ]
  run-Goes_at state_process c b x y = inr (
      process-Ends w c.count c refl (IsBalanced-Open (enter_state c state_process) b x y)
        (b.unset refl))
  run-Goes_at state_wait_subrequest c b x y = inr (
      check-Ends w (enter_state c state_wait_subrequest)
        (IsBalanced-Open (enter_state c state_wait_subrequest) b x y))
  run-Goes_at state_post_subrequest c b x y =
      inr (post-Ends w c.count c refl (IsBalanced-Open (enter_state c state_post_subrequest) b x y))
  run-Goes_at state_final c b x y =
      inr (final-Ends w c.count c refl (IsBalanced-Open (enter_state c state_final) b x y))
  run-Goes_at state_done c b x y = absurd (x refl)
  run-Goes_at state_error c b x y = absurd (y refl)

  run-Goes : (c : Ctx C) → IsBalanced c → c.state ≢ state_done → c.state ≢ state_error → Goes c
  unfolding enter_state
  run-Goes c b x y = run-Goes_at c.state c b x y

  done_from :
      (s : State) (c : Ctx C)
      → s ≡ state_done
      → run w (enter_state c s) ≡ (enter_state c s, w.output_filter)
  unfolding run init_stage process_stage wait_stage post_stage then_do finish_stage finish
      enter_state
  done_from state_done c e = refl
  done_from state_init c e = absurd (ground arith)
  done_from state_process c e = absurd (ground arith)
  done_from state_wait_subrequest c e = absurd (ground arith)
  done_from state_post_subrequest c e = absurd (ground arith)
  done_from state_final c e = absurd (ground arith)
  done_from state_error c e = absurd (ground arith)

  run-done : (c : Ctx C) → c.state ≡ state_done → run w c ≡ (c, w.output_filter)
  unfolding enter_state
  run-done c e = done_from c.state c e

  done-cases : (s : State) → (s ≡ state_done) ⊎ (s ≢ state_done)
  done-cases state_done = inl refl
  done-cases state_init = inr (ground arith)
  done-cases state_process = inr (ground arith)
  done-cases state_wait_subrequest = inr (ground arith)
  done-cases state_post_subrequest = inr (ground arith)
  done-cases state_final = inr (ground arith)
  done-cases state_error = inr (ground arith)

  Ends-IsBalanced : (k : ℕ) (r : Ctx C × Rc) → Ends k r → r.1 ≢ overrun → IsBalanced r.0
  Ends-IsBalanced k (c, rc) (inl (e, f, n, o)) x = record {
    even =
        o
        ∙ ap (λ (m : ℕ). c.destroyed + m)
            (sym (held-size c.state c.request (ground (arith, e)) (ground (arith, e))));
    unset = λ h. absurd (ground (arith, e, h));
  }
  Ends-IsBalanced k (c, rc) (inr (inl (e, n, o))) x = record {
    even = rw e (ground (arith, o));
    unset = λ h. absurd (ground (arith, e, h));
  }
  Ends-IsBalanced k (c, rc) (inr (inr (inl (e, f, n, o)))) x = record {
    even = rw e (ground (arith, o));
    unset = λ h. absurd (ground (arith, e, h));
  }
  Ends-IsBalanced k (c, rc) (inr (inr (inr (f, n)))) x = absurd (x f)

  -- A call of the handler that returns, in any state but MODULE_STATE_ERROR, keeps the context
  -- balanced: what the plugin's request took is given back when the request is answered or fails, and
  -- not before.
  pub run-IsBalanced :
      (c : Ctx C)
      → IsBalanced c
      → c.state ≢ state_error
      → (run w c).1 ≢ overrun
      → IsBalanced (run w c).0
  run-IsBalanced c b x y = elim (done-cases c.state) [
    | inl e ↦ rw (run-done c e) b
    | inr n ↦ elim (run-Goes c b n x) [
      | inl (e, h) ↦ rw h b
      | inr h ↦ Ends-IsBalanced c.count (run w c) h y
    ]
  ]

  -- From a balanced context in any state but MODULE_STATE_ERROR, `r->main->count` is raised once
  -- where the handler returns to wait for subrequests, and is not raised where it returns in
  -- another state, nor where it follows a null pointer or leaves an array.
  pub run-count :
      (c : Ctx C)
      → IsBalanced c
      → c.state ≢ state_error
      → (((run w c).0.state ≡ state_wait_subrequest) × ((run w c).0.count ≡ suc c.count))
        ⊎ ((((run w c).0.state ≢ state_wait_subrequest) ⊎ ((run w c).1 ≡ overrun))
            × ((run w c).0.count ≡ c.count))
  run-count c b x = elim (done-cases c.state) [
    | inl e ↦ rw (run-done c e) (inr (inl (ground (arith, e)), refl))
    | inr n ↦ elim (run-Goes c b n x) [
      | inl (e, h) ↦ rw h (inr (inl (ground (arith, e)), refl))
      | inr (inl (e, f, m, o)) ↦ inl (e, m)
      | inr (inr (inl (e, m, o))) ↦ inr (inl (ground (arith, e)), m)
      | inr (inr (inr (inl (e, f, m, o)))) ↦ inr (inl (ground (arith, e)), m)
      | inr (inr (inr (inr (f, m)))) ↦ inr (inr f, m)
    ]
  ]
