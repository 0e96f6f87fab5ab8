-- ===== src/Interpreter/Tokens.antt =====
-- The tokens of successive commands (interpreter.cpp: `_token_gen`).
use mw_dbg_runner.Common.{◌+◌, ◌%◌, ◌^◌, ◌<◌, ◌≡◌, ◌≢◌, arith, Bytes, List, [], ◌∷◌, length}
use mw_dbg_runner.Interpreter.Session.{Session}
use mw_dbg_runner.Interpreter.Commands.{next_token, prepare}

-- The session after the commands with these texts, the last first.
unfoldable pub prepare_all : {S : Type 0} → List Bytes → Session S → Session S
prepare_all [] st = st
prepare_all (text ∷ texts) st = prepare text (prepare_all texts st)

prepare_all-token :
    {S : Type 0} (texts : List Bytes) (st : Session S)
    → st.token_gen < 2 ^ 32
    → Session.token_gen (prepare_all texts st) ≡ (st.token_gen + length texts) % 2 ^ 32
unfolding prepare_all prepare next_token
prepare_all-token [] st h = omega arith
prepare_all-token (text ∷ texts) st h = omega (arith, prepare_all-token texts st h)

-- After fewer than 2^32 further commands, and at least one, the counter does not stand at the token
-- that it had: the next command has another token.
pub prepare_all-fresh :
    {S : Type 0} (texts : List Bytes) (st : Session S)
    → st.token_gen < 2 ^ 32
    → 0 < length texts
    → length texts < 2 ^ 32
    → Session.token_gen (prepare_all texts st) ≢ st.token_gen
prepare_all-fresh texts st h some few e = omega (arith, prepare_all-token texts st h, e)
