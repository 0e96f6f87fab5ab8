-- ===== src/Gdb/Tests.antt =====
-- The theorems on a run under gdb at concrete inputs.
use mw_dbg_runner.Common.{
  ◌↔◌, ◌⊎◌, ℕ, ◌≤◌, ◌≡◌, refl, true, Bytes, codes, List, [], ◌∷◌, All, length, pos,
}
use mw_dbg_runner.Error.{ok, err, crashed}
use mw_dbg_runner.Output.{string}
use mw_dbg_runner.Types.Find.{entry}
use mw_dbg_runner.Output.Boost.{boost}
use mw_dbg_runner.Output.Pegtl.Engine.{engine}
use mw_dbg_runner.Interpreter.Stop.{AsyncResult}
use mw_dbg_runner.Types.Access.{to_size}
use mw_dbg_runner.Types.Memory.{ReadMemoryBytes, RegisterValue}
use mw_dbg_runner.Gdb.Memory.{read_blocks}
use mw_dbg_runner.Gdb.Blocks.{FollowFrom, all_contents, read_blocks-all}
use mw_dbg_runner.Gdb.Frames.{named_registers}
use mw_dbg_runner.Gdb.Registers.{OneOutside, named_registers_lem}
use mw_dbg_runner.Gdb.State.{World, host_of, with_host}
use mw_dbg_runner.Gdb.Stops.{handle_stops}
use mw_dbg_runner.Gdb.Handling.{Handles, handle_stops_iff}
use mw_dbg_runner.Gdb.Samples.{silent, closed, no_text, as_is, world}

abbrev block : ℕ → List ℕ → ReadMemoryBytes
block offset contents = record { begin = 64; offset = offset; end = 72; contents = contents }

abbrev blocks : List ReadMemoryBytes
blocks = block 0 (1 ∷ 2 ∷ []) ∷ block 2 (3 ∷ []) ∷ []

blocks-FollowFrom : FollowFrom 0 blocks
unfolding FollowFrom
blocks-FollowFrom = (refl, (refl, tt))

read_blocks-all_example : read_blocks blocks [] ≡ 1 ∷ 2 ∷ 3 ∷ []
unfolding all_contents
read_blocks-all_example = read_blocks-all blocks blocks-FollowFrom

abbrev register : RegisterValue
register = record { number = pos 1; value = codes "0x2a" }

abbrev names : List Bytes
names = codes "r0" ∷ codes "r1" ∷ []

named_registers_lem_example :
    (All (λ r. to_size (RegisterValue.number r) ≤ length names) (register ∷ [])
      × (named_registers names (register ∷ []) ≡ ok []))
    ⊎ (OneOutside names (register ∷ []) × (named_registers names (register ∷ []) ≡ err crashed))
named_registers_lem_example = named_registers_lem names (register ∷ [])

abbrev exit_stop : AsyncResult
exit_stop = record {
  reason = codes "exited";
  content = entry (codes "exit-code") (string (codes "03")) ∷ [];
}

abbrev exited_world : World closed (Unit {0}) (Unit {0})
exited_world =
    with_host closed (Unit {0}) (Unit {0})
      (record (host_of closed (Unit {0}) (Unit {0}) world) { exited = true; exit_code = pos 3 })
      world

handle_stops_iff_example :
    Handles engine boost no_text closed silent as_is
      (Unit {0})
      []
      []
      exit_stop
      world
      (ok tt, exited_world)
    ↔ ((fuel : ℕ) × (handle_stops engine boost no_text closed silent as_is
            (Unit {0})
            fuel
            []
            []
            exit_stop
            world
          ≡ (ok tt, exited_world)))
handle_stops_iff_example =
    handle_stops_iff engine boost no_text closed silent as_is (Unit {0}) [] [] exit_stop world
      (ok tt, exited_world) (λ q. cc)
