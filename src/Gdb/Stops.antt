-- ===== src/Gdb/Stops.antt =====
-- The stops of a run and the break points that they are handed to (`_handle_bps` in
-- src/mw/gdb/process.cpp).
use mw_dbg_runner.Common.{
  Bool, ℕ, zero, suc, true, false, Bytes, lit, bytes_eq, List, [], ◌∷◌, Option, none, some, ◌==◌,
  map, if◌then◌else◌, ℤ, pos,
}
use mw_dbg_runner.Error.{Result, Error, ok, err, crashed, out_of_fuel}
use mw_dbg_runner.Numbers.{decimal, octal, stoi}
use mw_dbg_runner.Output.{as_tuple}
use mw_dbg_runner.Output.Boost.{Boost}
use mw_dbg_runner.Output.Pegtl.{Pegtl}
use mw_dbg_runner.Types.{find}
use mw_dbg_runner.Types.Access.{string_at, or_empty}
use mw_dbg_runner.Types.Frames.{Arg, Frame, parse_frame}
use mw_dbg_runner.Interpreter.Session.{Listeners, Pipes}
use mw_dbg_runner.Interpreter.Stop.{AsyncResult, wait_for_stop}
use mw_dbg_runner.Interpreter.Options.{PrintValues}
use mw_dbg_runner.Interpreter.Exec.{exec_continue}
use mw_dbg_runner.Interpreter.Frames.{stack_list_arguments}
use mw_dbg_runner.Debug.Act.{Act, give, throw, from, for_all, ◌>>=◌}
use mw_dbg_runner.Debug.Frame.{at, DebugArg, FrameOps}
use mw_dbg_runner.Debug.BreakPoint.{BreakPoint}
use mw_dbg_runner.Gdb.Values.{blank_var}
use mw_dbg_runner.Gdb.Numbering.{lookup}
use mw_dbg_runner.Gdb.Setup.{or_minus_one}
use mw_dbg_runner.Gdb.State.{World, Host, host_of, with_host, set_exit_code, on_session}
use mw_dbg_runner.Gdb.Frames.{
  regs, set, set_element, return_, set_exit, select, backtrace, addr2line, disable, enable,
  read_memory, write_memory,
}
use mw_dbg_runner.Gdb.Printing.{call, print, parse_var}

-- The argument of a name, if gdb listed it.
unfoldable pub arg_named : Bytes → List Arg → Option Arg
arg_named a [] = none
arg_named a (x ∷ xs) = if bytes_eq (Arg.name x) a then some x else arg_named a xs

abbrev pub ArgNames : Type 0
ArgNames = List (ℕ × List Bytes)

-- `arg_name_map`, from the address of a function to the names of its arguments.
unfoldable pub names_at : ℕ → ArgNames → Option (List Bytes)
names_at addr [] = none
names_at addr ((k, names) ∷ rest) = if k == addr then some names else names_at addr rest

abbrev known_names : Option ℕ → ArgNames → Option (List Bytes)
known_names none arg_name_map = none
known_names (some addr) arg_name_map = names_at addr arg_name_map

abbrev remember : Option ℕ → List Bytes → ArgNames → ArgNames
remember none names arg_name_map = arg_name_map
remember (some addr) names arg_name_map = (addr, names) ∷ arg_name_map

abbrev blank_arg : DebugArg
blank_arg = record { base = blank_var; id = [] }

module _ (p : Pegtl) (b : Boost) (what : Error → Bytes) (io : Pipes) {S : Type 0} (l : Listeners S)
    (stale : Bytes → Bytes → Bytes) (M : Type 0) where
  abbrev W : Type 0
  W = World io S M

  abbrev Doing : Type 0 → Type 0
  Doing A = Act W A

  -- The virtual functions of `frame_impl`.
  unfoldable pub frame_of : Bytes → List DebugArg → FrameOps W
  frame_of id args = record {
    id = id;
    args = args;
    regs = regs p b what io l M;
    set = set p b what io l M;
    set_element = set_element p b what io l M;
    call = call p b what io l stale M;
    print = print p b what io l stale M;
    return_ = return_ p b what io l M;
    set_exit = set_exit p b what io l M;
    select = select p b what io l M;
    backtrace = backtrace p b what io l M;
    addr2line = addr2line p b what io l M;
    disable = disable p b what io l M;
    enable = enable p b what io l M;
    read_memory = read_memory p b what io l M;
    write_memory = write_memory p b what io l M;
  }

  -- The names of the arguments, from the first frame that gdb lists.
  abbrev ask_names : Doing (List Bytes)
  ask_names = do
    frames ←
        on_session p b what io l
          (stack_list_arguments p b what io l PrintValues.no_values (some (0, 0)) false false)
    f ← from (at 0 frames)
    give (map (λ (a : Arg). a.name) (or_empty f.args))

  abbrev arg_names : Option ℕ → ArgNames → Option (List Bytes) → Doing (List Bytes × ArgNames)
  arg_names addr arg_name_map (some names) = give (names, arg_name_map)
  arg_names addr arg_name_map none = do
    names ← ask_names
    give (names, remember addr names arg_name_map)

  abbrev arg_of : Option Arg → Doing DebugArg
  arg_of none = give blank_arg
  arg_of (some a) = do
    v ← parse_var p b what io l stale M a.name a.value
    give (record { base = v; id = a.name })

  abbrev frame_args : Frame → ArgNames → Option (List Arg) → Doing (List DebugArg × ArgNames)
  frame_args frame arg_name_map none = give ([], arg_name_map)
  frame_args frame arg_name_map (some args_in) = do
    (names, known) ← arg_names frame.addr arg_name_map (known_names frame.addr arg_name_map)
    args ← for_all (λ a. arg_of (arg_named a args_in)) names
    give (args, known)

  -- `_break_point_map[num]->invoke(fi, file, line)`, where a number that is missing gives a null
  -- pointer.
  abbrev invoke_at : List (BreakPoint W) → Option ℕ → FrameOps W → Bytes → ℤ → Doing (Unit {0})
  invoke_at bps none fi file line = throw crashed
  invoke_at bps (some index) fi file line = elim (at index bps) [
    | ok bp ↦ BreakPoint.invoke bp fi file line
    | err e ↦ throw crashed
  ]

  abbrev current_host : Doing (Host M)
  current_host w = give (host_of io S M w) w

  -- A stop at a break point, up to the return of `invoke`.
  unfoldable pub handle_stop : List (BreakPoint W) → ArgNames → AsyncResult → Doing ArgNames
  handle_stop bps arg_name_map val = do
    bkptno ← from (string_at val.content (lit "bkptno"))
    num ← from (stoi decimal bkptno)
    v ← from (find val.content (lit "frame"))
    r ← from (as_tuple v)
    frame ← from (parse_frame r)
    (args, known) ← frame_args frame arg_name_map frame.args
    host ← current_host
    _ ←
        invoke_at bps (lookup num host.break_point_map) (frame_of (or_empty frame.func) args)
          (or_empty frame.file) (or_minus_one frame.line)
    give known

  abbrev exit_with : ℤ → Doing (Unit {0})
  exit_with code w = give tt (with_host io S M (set_exit_code code (host_of io S M w)) w)

  -- What follows the loop.
  unfoldable pub finish : AsyncResult → Doing (Unit {0})
  finish val = elim (bytes_eq val.reason (lit "exited-normally")) [
    | true ↦ exit_with (pos 0)
    | false ↦ elim (bytes_eq val.reason (lit "exited")) [
      | true ↦ do
        s ← from (string_at val.content (lit "exit-code"))
        exit_code ← from (stoi octal s)
        exit_with exit_code
      | false ↦ give tt
    ]
  ]

  abbrev pub next_stop : Doing AsyncResult
  next_stop = on_session p b what io l (wait_for_stop p b what io l)

  abbrev pub resume : Doing (Unit {0})
  resume = on_session p b what io l (exec_continue p b what io l false false)

  -- The steps of a round, from what the step before it gave; `go` is the next round.
  module _ (go : ArgNames → AsyncResult → Doing (Unit {0})) (known : ArgNames) where
    abbrev pub on_next : Result AsyncResult × W → Result (Unit {0}) × W
    on_next (ok val, w) = go known val w
    on_next (err e, w) = (err e, w)

    abbrev pub on_resumed : Result (Unit {0}) × W → Result (Unit {0}) × W
    on_resumed (ok _, w) = on_next (next_stop w)
    on_resumed (err e, w) = (err e, w)

    -- A break point may have said that the program has exited.
    abbrev pub unless_exited : W → Bool → Result (Unit {0}) × W
    unless_exited w true = (ok tt, w)
    unless_exited w false = on_resumed (resume w)

  abbrev pub on_handled :
      (ArgNames → AsyncResult → Doing (Unit {0})) → Result ArgNames × W → Result (Unit {0}) × W
  on_handled go (ok known, w) = unless_exited go known w (Host.exited (host_of io S M w))
  on_handled go (err e, w) = (err e, w)

  -- The loop over the stops, on fuel: the program may stop without end.
  unfoldable pub handle_stops : ℕ → List (BreakPoint W) → ArgNames → AsyncResult → Doing (Unit {0})
  handle_stops zero bps arg_name_map val = throw out_of_fuel
  handle_stops (suc fuel) bps arg_name_map val = elim (bytes_eq val.reason (lit "breakpoint-hit")) [
    | false ↦ finish val
    | true ↦ λ w. on_handled (handle_stops fuel bps) (handle_stop bps arg_name_map val w)
  ]

  unfoldable pub handle_bps : ℕ → List (BreakPoint W) → Doing (Unit {0})
  handle_bps fuel bps = do val ← next_stop; handle_stops fuel bps [] val
