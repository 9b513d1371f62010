-- ===== src/Subrequest/Collecting.antt =====
-- The array of subrequests beside the plugin's vector: when they are started, and when they are
-- collected.
use nginx_modules.Base.{
  ℕ, suc, length, ◌≡◌, ◌≢◌, refl, sym, ◌∙◌, ap, inl, inr, Bool-cases, Option-cases, true, none,
  some, List, [], ◌∷◌, ◌++◌, append_assoc, append-nil, arith, subst,
}
use nginx_modules.Subrequest.{
  Rc, ngx_ok, ngx_again, ngx_error, ngx_done, ngx_other, overrun, CSubrequest, CRequest, Subrequest,
  Upstream, Ctx, Nginx, push_loop, launch_loop, launch, start_subrequest, check_loop, collect_loop,
  collect, check_subrequest,
}

-- The array holds the uris and arguments of the vector, in its order.
abbrev pub Matches : List Subrequest → List CSubrequest → Type 0
Matches [] [] = Unit
Matches [] (x ∷ it) = ⊥
Matches (st ∷ next) [] = ⊥
Matches (st ∷ next) (x ∷ it) = (st.uri ≡ x.uri) × (st.args ≡ x.args) × Matches next it

abbrev filled : CSubrequest → Upstream → CSubrequest
filled x up = record x {
  status = up.status;
  sec = up.response_sec;
  usec = up.response_msec;
  response = up.buffer;
}

-- Each element holds a request.
abbrev pub HaveRequests : List Subrequest → Type 0
HaveRequests [] = Unit
HaveRequests (st ∷ next) = ((r : ℕ) × (st.subr ≡ some r)) × HaveRequests next

module _ {C : Type 0} (w : Nginx C) where
  -- Each element, from the one with the number on, holds the request that ngx_http_subrequest has made
  -- in its round for its uri and arguments.
  abbrev pub AreLaunched : ℕ → List Subrequest → Type 0
  AreLaunched i [] = Unit
  AreLaunched i (st ∷ next) =
      ((r : ℕ) × (st.subr ≡ some r) × (w.http_subrequest i st.uri st.args ≡ some r))
      × AreLaunched (suc i) next

  -- Each element of the vector got the response of its own request, which is done.
  abbrev pub AreCollected : List Subrequest → List CSubrequest → List CSubrequest → Type 0
  AreCollected [] [] it' = it' ≡ []
  AreCollected [] (x ∷ it) it' = ⊥
  AreCollected (st ∷ next) [] it' = ⊥
  AreCollected (st ∷ next) (x ∷ it) [] = ⊥
  AreCollected (st ∷ next) (x ∷ it) (x' ∷ it') =
      (r : ℕ) × (up : Upstream) × (st.subr ≡ some r)
      × (w.is_done r ≡ true)
      × (w.upstream r ≡ some up)
      × (x' ≡ filled x up)
      × AreCollected next it it'

  Matches-append :
      (st : List Subrequest) (it : List CSubrequest) (e : Subrequest) (x : CSubrequest)
      → Matches st it
      → e.uri ≡ x.uri
      → e.args ≡ x.args
      → Matches (st ++ e ∷ []) (it ++ x ∷ [])
  Matches-append [] [] e x m u a = (u, a, tt)
  Matches-append [] (y ∷ it) e x m u a = absurd m
  Matches-append (s ∷ st) [] e x m u a = absurd m
  Matches-append (s ∷ st) (y ∷ it) e x m u a = (m.0, m.1, Matches-append st it e x m.2 u a)

  -- One round of each loop, where the loop is a success.
  push_step :
      (i : ℕ) (x : CSubrequest) (next : List CSubrequest) (st : List Subrequest)
      → (push_loop w i (x ∷ next) st).1 ≡ ngx_ok
      → push_loop w i (x ∷ next) st
        ≡ push_loop w (suc i) next (st ++ record { uri = x.uri; args = x.args; subr = none } ∷ [])
  unfolding push_loop
  push_step i x next st h = ground arith

  launch_step :
      (i : ℕ) (s : Subrequest) (st : List Subrequest)
      → (launch_loop w i (s ∷ st)).1 ≡ ngx_ok
      → (r : ℕ) × (w.http_subrequest i s.uri s.args ≡ some r)
        × ((launch_loop w i (s ∷ st)).0 ≡ record s { subr = some r } ∷ (launch_loop w (suc i) st).0)
        × ((launch_loop w (suc i) st).1 ≡ ngx_ok)
  unfolding launch_loop
  launch_step i s st h = elim (Option-cases (w.http_subrequest i s.uri s.args)) [
    | inl e ↦ absurd (ground (arith, h, e))
    | inr (r, e) ↦ (r, e, ground (arith, h, e), ground (arith, h, e))
  ]

  push_loop-Matches :
      (i : ℕ) (next it : List CSubrequest) (st : List Subrequest)
      → Matches st it
      → (push_loop w i next st).1 ≡ ngx_ok
      → Matches (push_loop w i next st).0 (it ++ next)
  unfolding push_loop
  push_loop-Matches i [] it st m h = rw (append-nil it) m
  push_loop-Matches i (x ∷ next) it st m h =
      let e : Subrequest = record { uri = x.uri; args = x.args; subr = none } in
      let step = push_step i x next st h in
      subst (λ (r : List Subrequest × Rc). Matches r.0 (it ++ x ∷ next)) (sym step)
        (subst (λ (xs : List CSubrequest). Matches (push_loop w (suc i) next (st ++ e ∷ [])).0 xs)
          (append_assoc it (x ∷ []) next)
          (push_loop-Matches (suc i) next (it ++ x ∷ []) (st ++ e ∷ [])
            (Matches-append st it e x m refl refl)
            (sym (ap (λ (r : List Subrequest × Rc). r.1) step) ∙ h)))

  launch_loop-Matches :
      (i : ℕ) (st : List Subrequest) (it : List CSubrequest)
      → Matches st it
      → (launch_loop w i st).1 ≡ ngx_ok
      → Matches (launch_loop w i st).0 it × AreLaunched i (launch_loop w i st).0
  unfolding launch_loop
  launch_loop-Matches i [] [] m h = (tt, tt)
  launch_loop-Matches i [] (x ∷ it) m h = absurd m
  launch_loop-Matches i (s ∷ st) [] m h = absurd m
  launch_loop-Matches i (s ∷ st) (x ∷ it) m h =
      let (r, g, e, h') = launch_step i s st h in
      let rest = launch_loop-Matches (suc i) st it m.2 h' in
      subst (λ (xs : List Subrequest). Matches xs (x ∷ it) × AreLaunched i xs) (sym e)
        ((m.0, m.1, rest.0), ((r, refl, g), rest.1))

  launch-Matches :
      (r : List Subrequest × Rc) (it : List CSubrequest)
      → (r.1 ≡ ngx_ok → Matches r.0 it)
      → (launch w r).1 ≡ ngx_ok
      → Matches (launch w r).0 it × AreLaunched 0 (launch w r).0
  unfolding launch
  launch-Matches (st, ngx_ok) it m h = launch_loop-Matches 0 st it (m refl) h
  launch-Matches (st, ngx_again) it m h = cc
  launch-Matches (st, ngx_error) it m h = cc
  launch-Matches (st, ngx_done) it m h = cc
  launch-Matches (st, ngx_other n) it m h = cc
  launch-Matches (st, overrun) it m h = cc

  -- Where start_subrequest is a success, the array has an element for each element of the plugin's
  -- vector, with its uri and arguments, in its order, and holds in it the request that
  -- ngx_http_subrequest has made, in the element's own round, for that uri and those arguments.
  pub start_subrequest-Matches :
      (c : Ctx C) (request : CRequest C)
      → (start_subrequest w c request).1 ≡ ngx_ok
      → (st : List Subrequest) × ((start_subrequest w c request).0.subrequests ≡ some st)
        × Matches st request.subrequest
        × AreLaunched 0 st
  unfolding start_subrequest
  start_subrequest-Matches c request h = elim (Bool-cases w.array_room) [
    | inl e ↦
        let made =
          launch-Matches (push_loop w 0 request.subrequest []) request.subrequest
            (push_loop-Matches 0 request.subrequest [] [] tt) (ground (arith, h, e)) in
        ((launch w (push_loop w 0 request.subrequest [])).0, ground (arith, e), made.0, made.1)
    | inr e ↦ absurd (ground (arith, h, e))
  ]

  check_loop-ne : (st : List Subrequest) → HaveRequests st → check_loop w st ≢ overrun
  unfolding check_loop
  check_loop-ne [] l = ground arith
  check_loop-ne (s ∷ st) ((r, e), l) = ground (arith, e, check_loop-ne st l)

  collect_loop-ne :
      (st : List Subrequest) (it : List CSubrequest)
      → Matches st it
      → HaveRequests st
      → (collect_loop w st it).1 ≢ overrun
  unfolding collect_loop
  collect_loop-ne [] it m l = ground arith
  collect_loop-ne (s ∷ st) [] m l = absurd m
  collect_loop-ne (s ∷ st) (x ∷ it) m ((r, e), l) = ground (arith, e, collect_loop-ne st it m.2 l)

  collect-ne :
      (rc : Rc) (st : List Subrequest) (it : List CSubrequest)
      → Matches st it
      → HaveRequests st
      → rc ≢ overrun
      → (collect w rc st it).1 ≢ overrun
  unfolding collect
  collect-ne ngx_ok st it m l n = collect_loop-ne st it m l
  collect-ne ngx_again st it m l n = n
  collect-ne ngx_error st it m l n = n
  collect-ne ngx_done st it m l n = n
  collect-ne (ngx_other k) st it m l n = n
  collect-ne overrun st it m l n = n

  -- On an array that start_subrequest left for a vector, plugin_check_subrequest follows no null
  -- pointer and does not leave the vector.
  pub check_subrequest-ne :
      (st : List Subrequest) (it : List CSubrequest)
      → Matches st it
      → HaveRequests st
      → (check_subrequest w st it).1 ≢ overrun
  unfolding check_subrequest
  check_subrequest-ne st it m l = collect-ne (check_loop w st) st it m l (check_loop-ne st l)

  collect_loop-AreCollected :
      (st : List Subrequest) (it : List CSubrequest)
      → length st ≡ length it
      → check_loop w st ≡ ngx_ok
      → (collect_loop w st it).1 ≡ ngx_ok
      → AreCollected st it (collect_loop w st it).0
  unfolding collect_loop check_loop
  collect_loop-AreCollected [] [] n k h = refl
  collect_loop-AreCollected [] (x ∷ it) n k h = absurd (omega (arith, n))
  collect_loop-AreCollected (s ∷ st) [] n k h = cc
  collect_loop-AreCollected (s ∷ st) (x ∷ it) n k h = elim (Option-cases s.subr) [
    | inl e ↦ absurd (ground (arith, e, h))
    | inr (r, e) ↦ elim (Option-cases (w.upstream r)) [
      | inl f ↦ absurd (ground (arith, e, f, h))
      | inr (up, f) ↦
          rw (e, collect_loop, f)
            (
              r,
              up,
              refl,
              ground (arith, e, k),
              f,
              refl,
              collect_loop-AreCollected st it (omega (arith, n)) (ground (arith, e, k))
                  (ground (arith, e, f, h)),
            )
    ]
  ]

  collect-AreCollected :
      (rc : Rc) (st : List Subrequest) (it : List CSubrequest)
      → length st ≡ length it
      → check_loop w st ≡ rc
      → (collect w rc st it).1 ≡ ngx_ok
      → AreCollected st it (collect w rc st it).0
  unfolding collect
  collect-AreCollected ngx_ok st it n e h = collect_loop-AreCollected st it n e h
  collect-AreCollected ngx_again st it l e h = absurd (ground (arith, h))
  collect-AreCollected ngx_error st it l e h = absurd (ground (arith, h))
  collect-AreCollected ngx_done st it l e h = absurd (ground (arith, h))
  collect-AreCollected (ngx_other n) st it l e h = absurd (ground (arith, h))
  collect-AreCollected overrun st it l e h = absurd (ground (arith, h))

  -- Where plugin_check_subrequest is a success on a vector as long as the array, every request of the
  -- array is done, and each element of the vector has got the status, the times and the response of
  -- the request at its place.
  pub check_subrequest-AreCollected :
      (st : List Subrequest) (it : List CSubrequest)
      → length st ≡ length it
      → (check_subrequest w st it).1 ≡ ngx_ok
      → AreCollected st it (check_subrequest w st it).0
  unfolding check_subrequest
  check_subrequest-AreCollected st it n h = collect-AreCollected (check_loop w st) st it n refl h
