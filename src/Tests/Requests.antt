-- ===== src/Tests/Requests.antt =====
-- A request whose plugin asks for one subrequest and then answers.
use nginx_modules.Base.{ℕ, suc, ◌+◌, ◌≤◌, ◌≡◌, ◌≢◌, ◌⊎◌, refl, true, some, List, [], ◌∷◌, arith}
use nginx_modules.Subrequest.{
  overrun, state_wait_subrequest, state_done, state_error, ngx_ok, ngx_done, plugin_ok,
  plugin_again, CSubrequest, CRequest, Plugin, Subrequest, Ctx, Method, read_later, read_whole,
  Nginx, push_loop, launch_loop, launch, start_subrequest, check_loop, collect_loop, collect,
  check_subrequest,
}
use nginx_modules.Subrequest.Handler.{
  then_do, enter_state, wait, fresh, answer, destroy_request, init_request, process_request, check,
  post_request, final_request, after_init, after_process, after_check, init_stage, process_stage,
  wait_stage, post_stage, finish, finish_stage, run, post_body,
}
use nginx_modules.Subrequest.Runs.Answers
use nginx_modules.Subrequest.Runs.Answers.{run-collected}
use nginx_modules.Subrequest.Collecting.{
  Matches, AreLaunched, AreCollected, start_subrequest-Matches, check_subrequest-AreCollected,
}
use nginx_modules.Subrequest.Runs.Diagram.{IsBalanced, run-count}
use nginx_modules.Subrequest.Runs.Calls.{
  Reachable, begins, calls, post_body_unread, Reachable-IsBalanced, Reachable-destroyed,
}

program : Unit {0}
unfolding push_loop launch_loop launch start_subrequest check_loop collect_loop collect
    check_subrequest then_do enter_state wait fresh answer destroy_request init_request
    process_request check post_request final_request after_init after_process after_check init_stage
    process_stage wait_stage post_stage finish finish_stage run post_body
program = tt

abbrev ask : CSubrequest
ask = record { uri = b'/' ∷ []; args = []; status = 0; sec = 0; usec = 0; response = [] }

abbrev answered : CSubrequest
answered = record ask { status = 200; usec = 3; response = b'o' ∷ b'k' ∷ [] }

abbrev asking : CRequest ℕ
asking = record { subrequest = ask ∷ []; content = 1 }

abbrev plain : CRequest ℕ
plain = record { subrequest = []; content = 0 }

abbrev plugin : Plugin ℕ
plugin = record { handle = λ r. (asking, plugin_again); process_body = λ r. (r, plugin_ok) }

abbrev world : Nginx ℕ
world = record {
  method = Method.get;
  reading = read_whole;
  plugin = some plugin;
  request = plain;
  array_room = true;
  array_push = λ i. true;
  uri_room = λ i. true;
  args_room = λ i. true;
  psr_room = λ i. true;
  http_subrequest = λ i uri args. some 7;
  is_done = λ r. true;
  upstream = λ r.
      some
        (record { status = 200; response_sec = 0; response_msec = 3; buffer = b'o' ∷ b'k' ∷ [] });
  crequest_to_ngxr = λ r. ngx_ok;
  output_filter = ngx_ok;
}

abbrev waiting : Ctx ℕ
waiting = (run world fresh).0

first_call : (run world fresh).1 ≡ ngx_done
unfolding program
first_call = refl

waiting-state : waiting.state ≡ state_wait_subrequest
unfolding program
waiting-state = refl

fresh_ne : (fresh {C = ℕ}).state ≢ state_error
unfolding fresh
fresh_ne = ground arith

waiting_ne : waiting.state ≢ state_error
waiting_ne = ground (arith, waiting-state)

waiting-Reachable : Reachable waiting
waiting-Reachable = calls fresh world fresh_ne (ground (arith, first_call)) begins

waiting-IsBalanced : IsBalanced waiting
waiting-IsBalanced = Reachable-IsBalanced waiting waiting-Reachable

second_call : ((run world waiting).0.state ≡ state_done) × ((run world waiting).1 ≡ ngx_ok)
unfolding program
second_call = (refl, refl)

run-count_example :
    (((run world waiting).0.state ≡ state_wait_subrequest)
      × ((run world waiting).0.count ≡ suc waiting.count))
    ⊎ ((((run world waiting).0.state ≢ state_wait_subrequest) ⊎ ((run world waiting).1 ≡ overrun))
        × ((run world waiting).0.count ≡ waiting.count))
run-count_example = run-count world waiting waiting-IsBalanced waiting_ne

Reachable-destroyed_example :
    (((waiting.state ≡ state_done) ⊎ (waiting.state ≡ state_error))
      → waiting.created ≡ waiting.destroyed)
    × (waiting.destroyed ≤ waiting.created)
    × (waiting.created ≤ waiting.destroyed + 1)
Reachable-destroyed_example = Reachable-destroyed waiting waiting-Reachable

abbrev posting : Nginx ℕ
posting = record world { method = Method.post; reading = read_later }

post_body_unread_example :
    (run posting fresh ≡ (fresh, ngx_done)) × (post_body world fresh ≡ (fresh, ngx_done))
post_body_unread_example = post_body_unread posting world fresh (unfold fresh in refl) refl refl

abbrev launched : List Subrequest
launched = record { uri = b'/' ∷ []; args = []; subr = some 7 } ∷ []

start_subrequest-Matches_example :
    (st : List Subrequest) × ((start_subrequest world fresh asking).0.subrequests ≡ some st)
    × Matches st (ask ∷ [])
    × AreLaunched world 0 st
start_subrequest-Matches_example =
    start_subrequest-Matches world fresh asking (unfold program in refl)

check_launched : check_subrequest world launched (ask ∷ []) ≡ (answered ∷ [], ngx_ok)
unfolding program
check_launched = refl

check_subrequest-AreCollected_example :
    AreCollected world launched (ask ∷ []) (check_subrequest world launched (ask ∷ [])).0
check_subrequest-AreCollected_example =
    check_subrequest-AreCollected world launched (ask ∷ []) refl (unfold program in refl)

abbrev resumed : Ctx ℕ
resumed = record (fresh {C = ℕ}) {
  state = state_wait_subrequest;
  subrequests = some launched;
  request = some asking;
  plugin = some plugin;
}

run-collected_example :
    let it = (check_subrequest world launched (ask ∷ [])).0 in
    AreCollected world launched (ask ∷ []) it
    × (run world resumed ≡ (
      nginx_modules.Subrequest.Runs.Answers.answered resumed
          (record { subrequest = answered ∷ []; content = 1 }),
      ngx_ok,
    ))
run-collected_example =
    run-collected world (fresh {C = ℕ}) launched plugin asking
      (record { subrequest = answered ∷ []; content = 1 }) plugin_ok refl (unfold program in refl)
      (unfold program in refl) (ground arith)
