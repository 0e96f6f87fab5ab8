-- ===== src/Gdb/Setup.antt =====
-- The start of a run (`_init_bps` and `_start` in src/mw/gdb/process.cpp). The log and the timer are
-- not part of the state.
use mw_dbg_runner.Common.{
  ℕ, ◌+◌, ◌-◌, Bool, true, false, Bytes, codes, List, [], ◌∷◌, Option, none, some, length, ℤ, pos,
  negsuc,
}
use mw_dbg_runner.Error.{error, Error, Result, ok, err, crashed, unexpected_result_class}
use mw_dbg_runner.Output.Boost.{Boost}
use mw_dbg_runner.Output.Pegtl.{Pegtl}
use mw_dbg_runner.Types.Access.{or_empty}
use mw_dbg_runner.Types.Breakpoints.{Breakpoint}
use mw_dbg_runner.Interpreter.Session.{Listeners, Pipes}
use mw_dbg_runner.Interpreter.Checks.{same_class}
use mw_dbg_runner.Interpreter.Breaks.{BreakOptions, break_insert}
use mw_dbg_runner.Interpreter.Exec.{exec_run, exec_continue}
use mw_dbg_runner.Interpreter.Info.{interpreter_exec}
use mw_dbg_runner.Debug.Act.{Act, give, throw, from, catching, for_each, ◌>>=◌}
use mw_dbg_runner.Debug.BreakPoint.{BreakPoint}
use mw_dbg_runner.Gdb.Numbering.{insert}
use mw_dbg_runner.Gdb.State.{World, host_of, with_host, on_session}

-- The members that `run` reads and nothing changes.
pub record Settings : Type 0 where
  pub program : Bytes
  pub args : List Bytes
  pub remote : Bytes
  pub init_scripts : List Bytes

-- The option of `break_insert` in `_init_bps`: only a condition.
abbrev pub with_condition : Option Bytes → BreakOptions
with_condition c = record {
  temporary = false;
  hardware = false;
  pending = false;
  disabled = false;
  tracepoint = false;
  condition = c;
  ignore_count = none;
  thread_id = none;
}

-- `bpv[0]`: on an empty vector the behaviour is undefined.
abbrev first : List Breakpoint → Result Breakpoint
first [] = err crashed
first (b ∷ bs) = ok b

abbrev pub or_minus_one : Option ℤ → ℤ
or_minus_one none = negsuc 0
or_minus_one (some n) = n

-- `catch (mi2::unexpected_result_class & ie)`, where an error of gdb is ignored.
unfoldable pub is_refusal : Error → Bool
is_refusal (unexpected_result_class _ got _) = same_class got error
is_refusal _ = false

abbrev pub is_empty : {A : Type 0} → List A → Bool
is_empty [] = true
is_empty (x ∷ xs) = false

module _ (p : Pegtl) (b : Boost) (what : Error → Bytes) (io : Pipes) {S : Type 0} (l : Listeners S)
    (M : Type 0) where
  abbrev W : Type 0
  W = World io S M

  abbrev Doing : Type 0 → Type 0
  Doing A = Act W A

  abbrev add_number : ℤ → ℕ → Doing (Unit {0})
  add_number num index w =
      let host = host_of io S M w in
      give tt (
        with_host io S M (record host { break_point_map = insert num index host.break_point_map })
          w)

  abbrev tell : BreakPoint W → Breakpoint → List Breakpoint → Doing (Unit {0})
  tell bp found (_ ∷ []) = bp.set_at found.addr (or_empty found.filename) (or_minus_one found.line)
  tell bp found bpv =
      bp.set_multiple found.addr (or_empty found.original_location) (pos (length bpv - 1))

  -- One round of `_init_bps`.
  unfoldable pub init_bp : ℕ → BreakPoint W → Doing (Unit {0})
  init_bp index bp =
      catching
        (do
          bpv ←
              on_session p b what io l
                (break_insert p b what io l bp.identifier (with_condition bp.condition))
          found ← from (first bpv)
          _ ← add_number found.number index
          tell bp found bpv)
        (λ e. elim (is_refusal e) [ true ↦ give tt | false ↦ throw e ])

  unfoldable pub init_bps : ℕ → List (BreakPoint W) → Doing (Unit {0})
  init_bps index [] = give tt
  init_bps index (bp ∷ bps) = do _ ← init_bp index bp; init_bps (index + 1) bps

  abbrev launch : Settings → Doing (Unit {0})
  launch s = elim (is_empty s.init_scripts) [
    | false ↦ give tt
    | true ↦ elim (is_empty s.remote) [
      | true ↦ on_session p b what io l (exec_run p b what io l false false)
      | false ↦ on_session p b what io l (exec_continue p b what io l false false)
    ]
  ]

  -- The program is run, or continued where the target is remote, unless scripts do that.
  unfoldable pub start : Settings → Doing (Unit {0})
  start s = do
    _ ← launch s
    for_each
        (λ init. on_session p b what io l (interpreter_exec p b what io l (codes "console") init))
        s.init_scripts
