-- ===== src/Gdb/Handling.antt =====
-- The loop over the stops of a program (`_handle_bps` in src/mw/gdb/process.cpp) without fuel: a
-- relation between the first stop, the state before the loop and its result, one rule for each way
-- that a round can go.
use mw_dbg_runner.Common.{
  ℕ, zero, suc, ◌≡◌, ◌≢◌, ◌↔◌, refl, sym, subst, ◌∙◌, ap, Bool, true, false, Bool-cases, inl, inr,
  Bytes, lit, bytes_eq, List,
}
use mw_dbg_runner.Error.{Error, Result, ok, err, out_of_fuel}
use mw_dbg_runner.Output.Boost.{Boost}
use mw_dbg_runner.Output.Pegtl.{Pegtl}
use mw_dbg_runner.Interpreter.Session.{Listeners, Pipes}
use mw_dbg_runner.Interpreter.Stop.{AsyncResult}
use mw_dbg_runner.Interpreter.Exec.{exec_continue}
use mw_dbg_runner.Debug.Act.{outcome_cases}
use mw_dbg_runner.Debug.BreakPoint.{BreakPoint}
use mw_dbg_runner.Gdb.State.{World, Host, host_of, on_session}
use mw_dbg_runner.Gdb.Stops.{
  ArgNames, handle_stop, handle_stops, finish, next_stop, on_handled, unless_exited, on_resumed,
  on_next,
}

module _ (p : Pegtl) (b : Boost) (what : Error → Bytes) (io : Pipes) {S : Type 0} (l : Listeners S)
    (stale : Bytes → Bytes → Bytes) (M : Type 0) (bps : List (BreakPoint (World io S M))) where
  abbrev pub W : Type 0
  W = World io S M

  abbrev pub Outcome : Type 0
  Outcome = Result (Unit {0}) × W

  abbrev pub is_hit : AsyncResult → Bool
  is_hit val = bytes_eq val.reason (lit "breakpoint-hit")

  abbrev pub resume : W → Result (Unit {0}) × W
  resume = on_session p b what io l (exec_continue p b what io l false false)

  abbrev pub await_stop : W → Result AsyncResult × W
  await_stop = next_stop p b what io l stale M

  abbrev pub stop_handled : ArgNames → AsyncResult → W → Result ArgNames × W
  stop_handled = handle_stop p b what io l stale M bps

  pub data Handles : ArgNames → AsyncResult → W → Outcome → Type 0 where
    -- any other stop ends the loop
    ended :
        {names : ArgNames} {val : AsyncResult} {w : W}
        → is_hit val ≡ false
        → Handles names val w (finish p b what io l stale M val w)
    -- the break point throws
    thrown :
        {names : ArgNames} {val : AsyncResult} {w w' : W} {e : Error}
        → is_hit val ≡ true
        → stop_handled names val w ≡ (err e, w')
        → Handles names val w (err e, w')
    -- the break point says that the program has exited
    exited :
        {names known : ArgNames} {val : AsyncResult} {w w' : W}
        → is_hit val ≡ true
        → stop_handled names val w ≡ (ok known, w')
        → Host.exited (host_of io S M w') ≡ true
        → Handles names val w (ok tt, w')
    -- gdb does not go on
    stuck :
        {names known : ArgNames} {val : AsyncResult} {w w' w'' : W} {e : Error}
        → is_hit val ≡ true
        → stop_handled names val w ≡ (ok known, w')
        → Host.exited (host_of io S M w') ≡ false
        → resume w' ≡ (err e, w'')
        → Handles names val w (err e, w'')
    -- no further stop is reported
    lost :
        {names known : ArgNames} {val : AsyncResult} {w w' w'' w₃ : W} {e : Error}
        → is_hit val ≡ true
        → stop_handled names val w ≡ (ok known, w')
        → Host.exited (host_of io S M w') ≡ false
        → resume w' ≡ (ok tt, w'')
        → await_stop w'' ≡ (err e, w₃)
        → Handles names val w (err e, w₃)
    -- the program runs to its next stop
    again :
        {names known : ArgNames} {val val' : AsyncResult} {w w' w'' w₃ : W} {o : Outcome}
        → is_hit val ≡ true
        → stop_handled names val w ≡ (ok known, w')
        → Host.exited (host_of io S M w') ≡ false
        → resume w' ≡ (ok tt, w'')
        → await_stop w'' ≡ (ok val', w₃)
        → Handles known val' w₃ o
        → Handles names val w o

  abbrev loop : ℕ → ArgNames → AsyncResult → W → Outcome
  loop fuel = handle_stops p b what io l stale M fuel bps

  abbrev handled : ℕ → Result ArgNames × W → Outcome
  handled fuel = on_handled p b what io l stale M (loop fuel)

  abbrev unless : ℕ → ArgNames → W → Bool → Outcome
  unless fuel = unless_exited p b what io l stale M (loop fuel)

  abbrev resumed : ℕ → ArgNames → Result (Unit {0}) × W → Outcome
  resumed fuel = on_resumed p b what io l stale M (loop fuel)

  abbrev next : ℕ → ArgNames → Result AsyncResult × W → Outcome
  next fuel = on_next p b what io l stale M (loop fuel)

  -- How a round goes on, from what its steps gave.
  module _ (fuel : ℕ) (names : ArgNames) (val : AsyncResult) (w : W) where
    round_ended :
        is_hit val ≡ false → loop (suc fuel) names val w ≡ finish p b what io l stale M val w
    unfolding handle_stops
    round_ended hit = rw (handle_stops, hit) refl

    round_handled :
        {r : Result ArgNames × W}
        → is_hit val ≡ true
        → stop_handled names val w ≡ r
        → loop (suc fuel) names val w ≡ handled fuel r
    unfolding handle_stops
    round_handled hit h = rw (handle_stops, hit) (ap (handled fuel) h)

    module _ (known : ArgNames) (w' : W) (hit : is_hit val ≡ true)
        (h : stop_handled names val w ≡ (ok known, w')) where
      round_unless :
          {x : Bool}
          → Host.exited (host_of io S M w') ≡ x
          → loop (suc fuel) names val w ≡ unless fuel known w' x
      round_unless e = round_handled hit h ∙ ap (unless fuel known w') e

      round_resumed :
          {r : Result (Unit {0}) × W}
          → Host.exited (host_of io S M w') ≡ false
          → resume w' ≡ r
          → loop (suc fuel) names val w ≡ resumed fuel known r
      round_resumed e r = round_unless e ∙ ap (resumed fuel known) r

      round_next :
          {w'' : W} {n : Result AsyncResult × W}
          → Host.exited (host_of io S M w') ≡ false
          → resume w' ≡ (ok tt, w'')
          → await_stop w'' ≡ n
          → loop (suc fuel) names val w ≡ next fuel known n
      round_next e r n = round_resumed e r ∙ ap (next fuel known) n

  -- Whatever the relation says, the loop does with enough fuel.
  handle_stops-enough :
      {names : ArgNames} {val : AsyncResult} {w : W} {o : Outcome}
      → Handles names val w o
      → (enough : ℕ) × (loop enough names val w ≡ o)
  handle_stops-enough (ended hit) = (1, round_ended 0 _ _ _ hit)
  handle_stops-enough (thrown hit h) = (1, round_handled 0 _ _ _ hit h)
  handle_stops-enough (exited hit h x) = (1, round_unless 0 _ _ _ _ _ hit h x)
  handle_stops-enough (stuck hit h x r) = (1, round_resumed 0 _ _ _ _ _ hit h x r)
  handle_stops-enough (lost hit h x r n) = (1, round_next 0 _ _ _ _ _ hit h x r n)
  handle_stops-enough (again hit h x r n later) =
      let (enough, e) = handle_stops-enough later in
      (suc enough, round_next enough _ _ _ _ _ hit h x r n ∙ e)

  back :
      {names : ArgNames} {val : AsyncResult} {w : W} {o o' : Outcome}
      → o ≡ o'
      → Handles names val w o'
      → Handles names val w o
  back {names} {val} {w} e t = subst (Handles names val w) (sym e) t

  out_of :
      (names : ArgNames) (val : AsyncResult) (w : W) → loop 0 names val w ≡ (err out_of_fuel, w)
  unfolding handle_stops
  out_of names val w = refl

  -- Whatever the loop does before its fuel is used up, the relation says.
  Handles-handle_stops :
      (fuel : ℕ) (names : ArgNames) (val : AsyncResult) (w : W)
      → (loop fuel names val w).0 ≢ err out_of_fuel
      → Handles names val w (loop fuel names val w)
  Handles-handle_stops zero names val w h =
      absurd (h (ap (λ (o : Outcome). o.0) (out_of names val w)))
  Handles-handle_stops (suc fuel) names val w h = elim (Bool-cases (is_hit val)) [
    | inr hit ↦ back (round_ended fuel names val w hit) (ended hit)
    | inl hit ↦ elim (outcome_cases (stop_handled names val w)) [
      | inr (e, w', s) ↦ back (round_handled fuel names val w hit s) (thrown hit s)
      | inl (known, w', s) ↦ elim (Bool-cases (Host.exited (host_of io S M w'))) [
        | inl x ↦ back (round_unless fuel names val w known w' hit s x) (exited hit s x)
        | inr x ↦ elim (outcome_cases (resume w')) [
          | inr (e, w'', r) ↦
              back (round_resumed fuel names val w known w' hit s x r) (stuck hit s x r)
          | inl (_, w'', r) ↦ elim (outcome_cases (await_stop w'')) [
            | inr (e, w₃, n) ↦
                back (round_next fuel names val w known w' hit s x r n) (lost hit s x r n)
            | inl (val', w₃, n) ↦
                let same = round_next fuel names val w known w' hit s x r n in
                back same (
                  again hit s x r n (
                    Handles-handle_stops fuel known val' w₃
                      (λ q. h (ap (λ (o : Outcome). o.0) same ∙ q))))
          ]
        ]
      ]
    ]
  ]

  -- The loop with fuel does what the relation says: a result other than for want of fuel is one that
  -- the relation allows exactly if the loop has it on some fuel.
  pub handle_stops_iff :
      (names : ArgNames) (val : AsyncResult) (w : W) (o : Outcome)
      → o.0 ≢ err out_of_fuel
      → Handles names val w o
        ↔ ((fuel : ℕ) × (handle_stops p b what io l stale M fuel bps names val w ≡ o))
  handle_stops_iff names val w o h = (
    handle_stops-enough,
    λ (fuel, e).
        subst (Handles names val w) e
          (Handles-handle_stops fuel names val w (λ q. h (ap (λ (o : Outcome). o.0) (sym e) ∙ q))),
  )
