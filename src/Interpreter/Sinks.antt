-- ===== src/Interpreter/Sinks.antt =====
-- What the interpreter does with stream output and asynchronous output (`_handle_stream_output` in
-- interpreter2.cpp, `_handle_async_output` in interpreter.cpp).
use mw_dbg_runner.Common.{
  ℕ, zero, suc, Bool, false, Bytes, List, [], ◌∷◌, Option, none, some, if◌then◌else◌, ◌==◌,
}
use mw_dbg_runner.Error.{Result, ok, err, unexpected_async_record, crashed}
use mw_dbg_runner.Output.{StreamType, console, target, log, StreamRecord, AsyncOutput}
use mw_dbg_runner.Interpreter.Session.{Pending, Session, Listeners, forward, set_listener}

-- The loop behind the first pending function: those of the token are called with the output, and the
-- finished ones erased. The first result is how many there were.
unfoldable pub deliver_rest : ℕ → AsyncOutput → List Pending → ℕ × List Pending
deliver_rest tk ao [] = (0, [])
deliver_rest tk ao ((t, f) ∷ ps) =
    let (cnt, rest) = deliver_rest tk ao ps in
    if t == tk then (suc cnt, (if f ao then rest else (t, f) ∷ rest)) else (cnt, (t, f) ∷ rest)

-- Where the first member is erased the iterator steps before the beginning of the vector, which is
-- undefined.
unfoldable pub deliver : ℕ → AsyncOutput → List Pending → Result (ℕ × List Pending)
deliver tk ao [] = ok (0, [])
deliver tk ao ((t, f) ∷ ps) =
    let (cnt, rest) = deliver_rest tk ao ps in
    if t == tk
    then (if f ao then err crashed else ok (suc cnt, (t, f) ∷ rest))
    else ok (cnt, (t, f) ∷ rest)

module _ {S : Type 0} where
  -- The end of a step: it says whether a record was received.
  abbrev pub settle : Bool → Session S → Result S → Result Bool × Session S
  settle received st (ok s) = (ok received, set_listener s st)
  settle received st (err e) = (err e, st)

  module _ (l : Listeners S) where
    abbrev pub stream_to : StreamType → Bytes → Session S → Result Bool × Session S
    stream_to console s st = settle false st (l.on_console s st.listener)
    stream_to log s st = settle false st (l.on_log s st.listener)
    stream_to target s st = (ok false, forward s st)

    unfoldable pub handle_stream_output : StreamRecord → Session S → Result Bool × Session S
    handle_stream_output sr st = stream_to sr.type sr.content st

    -- Output that no function waits for is not expected.
    abbrev pub delivered :
        Bytes → ℕ → Session S → Result (ℕ × List Pending) → Result Bool × Session S
    delivered line tk st (ok (zero, rest)) =
        (err (unexpected_async_record tk line), record st { pending_asyncs = rest })
    delivered line tk st (ok (suc cnt, rest)) = (ok false, record st { pending_asyncs = rest })
    delivered line tk st (err e) = (err e, st)

    -- Without a token the output goes to the signal; with one, to the functions that wait for it.
    unfoldable pub handle_async_output :
        Bytes → Option ℕ → AsyncOutput → Session S → Result Bool × Session S
    handle_async_output line none ao st = settle false st (l.on_async ao st.listener)
    handle_async_output line (some tk) ao st =
        delivered line tk st (deliver tk ao st.pending_asyncs)
