-- ===== src/Handler/Ends.antt =====
-- src/picket/execution/handler.py and src/picket/runtime/daemon.py: what an execution does to the
-- ledger, on every path.
use mathlib.Core.Path.{subst}
use picket_mcp.Prelude.{
  ℕ, suc, sym, Text, ◌≡◌, refl, inl, inr, Bool, true, false, ◌&&◌, Option, none, some, List, [],
  ◌∷◌, ◌++◌, Bool-cases, All, exists_where, count_where, arith, codes, count_where-update_where,
}
use picket_mcp.Core.Json.{Json}
use picket_mcp.Core.Models.{WatchState}
use picket_mcp.Store.Fire.{Fire, FireStatus, failed, is_active}
use picket_mcp.Store.Ledger.{
  Finish, has_id, delivery_row, pid_row, finish_fire, set_delivery, set_running_pid,
}
use picket_mcp.Store.Trace.{Transaction, finish, deliver, set_pid, apply, history}
use picket_mcp.Handler.Types.{Runbook, HandlerResult, Launch, ran, os_error, World}
use picket_mcp.Handler.Attempts.{Outcome, aborted, ended, attempt_status, run_attempts, outcome_of}
use picket_mcp.Handler.Retries.{run_attempts-IsRetry}
use picket_mcp.Handler.Deliver.{Execution, only_error, text_or, deliver_fire, finalize}
use picket_mcp.Handler.Run.{
  finish_args, raises, blocks, dead_letter, conclude, after_attempts, started, execute_with,
  run_checked, run_found, run_fire,
}
use picket_mcp.Handler.Worker.{value_of, guarded, execute}

dead_letter-terminal :
    (n : ℕ) (st : FireStatus) → is_active st ≡ false → is_active (dead_letter n st) ≡ false
dead_letter-terminal n st h = ground arith

-- The loop's end is no status in flight.
abbrev IsTerminal : Outcome → Type 0
IsTerminal (aborted message) = Unit
IsTerminal (ended st res) = is_active st ≡ false

module _ {N : Type 0} where
  -- A transaction that finishes the fire with a terminal status, or records its delivery or its pid.
  abbrev pub About : Text → Transaction (Json N) → Type 0
  About x (finish _ id st _) = (id ≡ x) × (is_active st ≡ false)
  About x (deliver _ id _) = id ≡ x
  About x (set_pid id _) = id ≡ x
  About x _ = true ≡ false

  abbrev pub is_finish : Transaction (Json N) → Bool
  is_finish (finish _ _ _ _) = true
  is_finish _ = false

  -- The rows of a fire that are pending or running.
  abbrev pub in_flight : Text → Fire (Json N) → Bool
  in_flight x row = has_id x row && is_active row.status

  -- What an execution does is about its fire, and it finishes the fire unless an exception leaves it.
  pub record IsSound (x : Text) (e : Execution N) : Type 0 where
    pub about : All (About x) e.writes
    pub done : e.raised ≡ false → exists_where is_finish e.writes ≡ true

  finish_fire-in_flight :
      (now : ℕ) (x : Text) (st : FireStatus) (args : Finish) (fires : List (Fire (Json N)))
      → is_active st ≡ false
      → count_where (in_flight x) (finish_fire now x st args fires) ≡ 0
  unfolding finish_fire
  finish_fire-in_flight now x st args [] h = refl
  finish_fire-in_flight now x st args (row ∷ fires) h =
      ground (arith, finish_fire-in_flight now x st args fires h)

  apply-in_flight :
      (x : Text) (t : Transaction (Json N)) (fires : List (Fire (Json N)))
      → About x t
      → count_where (in_flight x) fires ≡ 0
      → count_where (in_flight x) (apply t fires) ≡ 0
  unfolding apply set_delivery set_running_pid
  apply-in_flight x (finish now id st args) fires a h =
      rw a.0 (finish_fire-in_flight now x st args fires a.1)
  apply-in_flight x (deliver now id st) fires a h =
      rw
        (count_where-update_where (in_flight x) (has_id id) (delivery_row now st) fires
          (λ row _. refl))
        h
  apply-in_flight x (set_pid id pid) fires a h =
      rw (count_where-update_where (in_flight x) (has_id id) (pid_row pid) fires (λ row _. refl)) h
  apply-in_flight x _ fires a h = absurd (ground (arith, a))

  history-in_flight :
      (x : Text) (ts : List (Transaction (Json N))) (fires : List (Fire (Json N)))
      → All (About x) ts
      → count_where (in_flight x) fires ≡ 0
      → count_where (in_flight x) (history ts fires) ≡ 0
  unfolding history
  history-in_flight x [] fires a h = h
  history-in_flight x (t ∷ ts) fires a h =
      history-in_flight x ts (apply t fires) a.1 (apply-in_flight x t fires a.0 h)

  pub history-finished :
      (x : Text) (ts : List (Transaction (Json N))) (fires : List (Fire (Json N)))
      → All (About x) ts
      → exists_where is_finish ts ≡ true
      → count_where (in_flight x) (history ts fires) ≡ 0
  unfolding history apply
  history-finished x [] fires a h = absurd (ground arith)
  history-finished x (finish now id st args ∷ ts) fires a h =
      history-in_flight x ts (finish_fire now id st args fires) a.1
        (rw a.0.0 (finish_fire-in_flight now x st args fires a.0.1))
  history-finished x (t ∷ ts) fires a h = history-finished x ts (apply t fires) a.1 (ground arith)

  raises-IsSound : (x : Text) → IsSound x raises
  unfolding raises
  raises-IsSound x = record { about = tt; done = λ h. absurd (ground arith) }

  deliver_fire-About :
      (world : World N) (state : WatchState N) (x : Text) (st : FireStatus) (summary : Text)
      → All (About x) (deliver_fire world state x st summary).writes
  unfolding deliver_fire
  deliver_fire-About world state x st summary = ground arith

  finalize-IsSound :
      (world : World N) (state : WatchState N) (x : Text) (st : FireStatus) (args : Finish)
      → is_active st ≡ false
      → IsSound x (finalize world state x st args)
  unfolding finalize
  finalize-IsSound world state x st args h = record {
    about = ((refl, h), deliver_fire-About world state x st (text_or args.error (codes "ok")));
    done = λ _. refl;
  }

  attempt_status-terminal :
      (world : World N) (rb : Runbook) (res : HandlerResult)
      → is_active (attempt_status world rb res) ≡ false
  unfolding attempt_status
  attempt_status-terminal world rb res = ground arith

  outcome_of-IsTerminal :
      (world : World N) (rb : Runbook) (l : Launch) → IsTerminal (outcome_of world rb l)
  outcome_of-IsTerminal world rb (ran res) = attempt_status-terminal world rb res
  outcome_of-IsTerminal world rb (os_error message) = tt

  run_attempts-IsTerminal :
      (world : World N) (rb : Runbook) (launch : ℕ → Launch) (left : ℕ)
      → IsTerminal (run_attempts world rb launch 0 (suc left) failed none).outcome
  run_attempts-IsTerminal world rb launch left =
      let retry = run_attempts-IsRetry world rb launch 0 left failed none in
      subst (λ o. IsTerminal o) (sym retry.outcome) (outcome_of-IsTerminal world rb _)

  conclude-IsSound :
      (world : World N) (state : WatchState N) (value : Json N) (x : Text) (timeout : ℕ)
      (st : FireStatus) (res : Option HandlerResult) (path : Option Text)
      → is_active st ≡ false
      → IsSound x (conclude world state value x timeout st res path)
  unfolding conclude
  conclude-IsSound world state value x timeout st res none h = record {
    about = tt;
    done = λ h. absurd (ground arith);
  }
  conclude-IsSound world state value x timeout st res (some path) h =
      let sound = finalize-IsSound world state x st (finish_args world st res timeout path) h in
      record { about = sound.about; done = sound.done }

  after_attempts-IsSound :
      (world : World N) (state : WatchState N) (value : Json N) (x : Text) (timeout : ℕ)
      (o : Outcome)
      → IsTerminal o
      → IsSound x (after_attempts world state value x timeout o)
  unfolding after_attempts
  after_attempts-IsSound world state value x timeout (aborted message) h =
      finalize-IsSound world state x failed (only_error message) refl
  after_attempts-IsSound world state value x timeout (ended st res) h =
      conclude-IsSound world state value x timeout _ res _
        (dead_letter-terminal state.max_retries st h)

  started-About :
      (x : Text) (pids : List ℕ) (ts : List (Transaction (Json N)))
      → All (About x) ts
      → All (About x) (started x pids ++ ts)
  unfolding started
  started-About x [] ts h = h
  started-About x (pid ∷ pids) ts h = (refl, started-About x pids ts h)

  started-finish :
      (x : Text) (pids : List ℕ) (ts : List (Transaction (Json N)))
      → exists_where is_finish (started x pids ++ ts) ≡ exists_where is_finish ts
  unfolding started
  started-finish x [] ts = refl
  started-finish x (pid ∷ pids) ts = started-finish x pids ts

  execute_with-IsSound :
      (world : World N) (state : WatchState N) (value : Json N) (x : Text) (timeout : ℕ)
      (rb : Runbook) (prepared : Option (List Text × List (Text × Text)))
      → IsSound x (execute_with world state value x timeout rb prepared)
  unfolding execute_with
  execute_with-IsSound world state value x timeout rb none = raises-IsSound x
  execute_with-IsSound world state value x timeout rb (some (cmd, env)) =
      let launch : ℕ → Launch = λ k. world.launch k cmd timeout env in
      let attempts = run_attempts world rb launch 0 (suc state.max_retries) failed none in
      let sound =
        after_attempts-IsSound world state value x timeout attempts.outcome
          (run_attempts-IsTerminal world rb launch state.max_retries) in
      record {
        about = started-About x attempts.pids _ sound.about;
        done = λ h. rw (started-finish x attempts.pids) (sound.done h);
      }

  run_checked-IsSound :
      (world : World N) (state : WatchState N) (value : Json N) (x : Text) (timeout : ℕ)
      (extra : Option (Json N)) (rb : Runbook) (drift : Option Bool)
      → IsSound x (run_checked world state value x timeout extra rb drift)
  unfolding run_checked
  run_checked-IsSound world state value x timeout extra rb none = raises-IsSound x
  run_checked-IsSound world state value x timeout extra rb (some drifted) =
      elim (Bool-cases (blocks state.drift_policy drifted)) [
        | inl stop ↦ rw stop (
            finalize-IsSound world state x failed
              (only_error (codes "RUNBOOK_DRIFT: entry changed since arm")) refl)
        | inr go ↦ rw go (execute_with-IsSound world state value x timeout rb _)
      ]

  run_found-IsSound :
      (world : World N) (state : WatchState N) (value : Json N) (x : Text) (timeout : ℕ)
      (extra : Option (Json N)) (found : Option (Option Runbook))
      → IsSound x (run_found world state value x timeout extra found)
  unfolding run_found
  run_found-IsSound world state value x timeout extra none = raises-IsSound x
  run_found-IsSound world state value x timeout extra (some none) =
      finalize-IsSound world state x failed
        (only_error (codes "runbook " ++ world.repr state.runbook_id ++ codes " not found")) refl
  run_found-IsSound world state value x timeout extra (some (some rb)) =
      run_checked-IsSound world state value x timeout extra rb _

  pub run_fire-IsSound :
      (world : World N) (state : WatchState N) (value : Json N) (x : Text) (timeout : ℕ)
      (extra : Option (Json N))
      → IsSound x (run_fire world state value x timeout extra)
  unfolding run_fire
  run_fire-IsSound world state value x timeout extra =
      run_found-IsSound world state value x timeout extra _

  All-snoc :
      (x : Text) (ts : List (Transaction (Json N))) (t : Transaction (Json N))
      → All (About x) ts
      → About x t
      → All (About x) (ts ++ t ∷ [])
  All-snoc x [] t h last = (last, tt)
  All-snoc x (u ∷ ts) t h last = (h.0, All-snoc x ts t h.1 last)

  exists_where-snoc :
      (ts : List (Transaction (Json N))) (t : Transaction (Json N))
      → is_finish t ≡ true
      → exists_where is_finish (ts ++ t ∷ []) ≡ true
  exists_where-snoc [] t h = rw h
  exists_where-snoc (u ∷ ts) t h = ground (arith, exists_where-snoc ts t h)

  execute_sound :
      (world : World N) (cancelled : Bool) (err : Text) (state : WatchState N)
      (claimed : Fire (Json N))
      → All (About claimed.fire_id) (execute world cancelled err state claimed)
        × (exists_where is_finish (execute world cancelled err state claimed) ≡ true)
  unfolding execute guarded
  execute_sound world true err state claimed = (((refl, refl), tt), refl)
  execute_sound world false err state claimed =
      let x = claimed.fire_id in
      let e =
        run_fire world state (value_of claimed.value) x state.handler_timeout_seconds
          claimed.payload in
      let sound =
        run_fire-IsSound world state (value_of claimed.value) x state.handler_timeout_seconds
          claimed.payload in
      elim (Bool-cases e.raised) [
        | inl up ↦
            rw up
              (All-snoc x e.writes _ sound.about (refl, refl), exists_where-snoc e.writes _ refl)
        | inr down ↦ rw down (sound.about, sound.done down)
      ]

  -- Whatever a worker's execution of a claimed fire meets (a cancelled worker, a missing or drifted
  -- runbook, an OSError, a timeout, a delivery or another call that raises), each of its transactions
  -- finishes this fire with a terminal status or records its delivery or its pid, and after them no
  -- row with the fire's id is pending or running.
  pub execute-finishes :
      (world : World N) (cancelled : Bool) (err : Text) (state : WatchState N)
      (claimed : Fire (Json N)) (fires : List (Fire (Json N)))
      → All (About claimed.fire_id) (execute world cancelled err state claimed)
        × (count_where
              (in_flight claimed.fire_id)
              (history (execute world cancelled err state claimed) fires)
            ≡ 0)
  execute-finishes world cancelled err state claimed fires =
      let sound = execute_sound world cancelled err state claimed in
      (sound.0, history-finished claimed.fire_id _ fires sound.0 sound.1)
