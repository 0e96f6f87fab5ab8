-- ===== src/Output/Grammar/Records.antt =====
-- The rules for whole lines, and the parse functions (src/mw/gdb/mi2/output.cpp).
use mw_dbg_runner.Common.{
  ℕ, ◌+◌, ◌-◌, Bool, true, false, Option, none, some, Bytes, codes, List, [], ◌∷◌, length, take,
  ◌==◌, if◌then◌else◌,
}
use mw_dbg_runner.Error.{Result, ok, err, ResultClass, done, running, connected, error, exit}
use mw_dbg_runner.Numbers.{decimal, my_stoull}
use mw_dbg_runner.Output.{
  Entry, Value, empty_entry, StreamType, console, target, log, StreamRecord, AsyncType, exec,
  status, AsyncOutput, ResultOutput,
}
use mw_dbg_runner.Output.Boost.{Boost}
use mw_dbg_runner.Output.Pegtl.{Pegtl, Outcome, matched, failed, raised}
use mw_dbg_runner.Output.Grammar.{State, Rule, member, push_back}
use mw_dbg_runner.Output.Grammar.Values.{cstring, result_rule, anonym_result_rule, value_rule}

-- The switch on the first character.
abbrev pub stream_type : Bytes → StreamType → StreamType
stream_type [] d = d
stream_type (c ∷ _) d =
    if c == b'~' then console else if c == b'@' then target else if c == b'&' then log else d

abbrev pub async_type : Bytes → AsyncType → AsyncType
async_type [] d = d
async_type (c ∷ _) d =
    if c == b'*' then exec else if c == b'+' then status else if c == b'=' then status else d

abbrev pub digits : List (ℕ × ℕ)
digits = (b'0', b'9') ∷ []

-- What a token rule does with the number that it read.
abbrev pub token_outcome :
    {T : Type 0} → (ℕ → T → T × Bool) → Result ℕ → State T → Bytes → Outcome (State T)
token_outcome g (ok v) (t, n) r =
    if (g v t).1 then matched ((g v t).0, n) r else failed ((g v t).0, n)
token_outcome g (err e) s r = raised e

-- The digits that it matched are read by `my_stoull`, which may throw.
abbrev pub take_token :
    {T : Type 0} → (ℕ → T → T × Bool) → Bytes → Outcome (State T) → Outcome (State T)
take_token g i (matched s r) =
    token_outcome g (my_stoull decimal (take (length i - length r) i)) s r
take_token g i (failed s) = failed s
take_token g i (raised e) = raised e

-- A line's object and its token.
pub record Line (T : Type 0) : Type 0 where
  pub token : Option ℕ
  pub object : T

abbrev pub set_token : {T : Type 0} → ℕ → Line T → Line T × Bool
set_token v l = (record l { token = some v }, true)

abbrev set_class : ResultClass → ResultOutput → ResultOutput
set_class k o = record o { class_ = k }

abbrev set_results : List Entry → ResultOutput → ResultOutput
set_results es o = record o { results = es }

abbrev set_type : AsyncType → AsyncOutput → AsyncOutput
set_type k o = record o { type = k }

abbrev set_async_class : Bytes → AsyncOutput → AsyncOutput
set_async_class k o = record o { class_ = k }

abbrev set_async_results : List Entry → AsyncOutput → AsyncOutput
set_async_results es o = record o { results = es }

module _ (p : Pegtl) (b : Boost) where
  abbrev pub keyword : Bytes → ResultClass → Rule ResultClass
  keyword word k = p.act _ (λ _ (_, n). (k, n)) (p.string _ word)

  unfoldable pub result_class : Rule ResultClass
  result_class = p.sor _ (keyword (codes "done") done) (
      p.sor _ (keyword (codes "running") running) (
        p.sor _ (keyword (codes "connected") connected)
          (p.sor _ (keyword (codes "error") error) (keyword (codes "exit") exit))))

  unfoldable pub async_class_rule : Rule Bytes
  async_class_rule =
      p.act _ (λ t (_, n). (t, n))
        (p.plus _ (p.ranges _ ((b'A', b'Z') ∷ (b'a', b'z') ∷ (b'0', b'9') ∷ (b'-', b'-') ∷ [])))

  unfoldable pub stream_record_type : Rule StreamType
  stream_record_type = p.act _ (λ t (d, n). (stream_type t d, n)) (p.one _ (codes "~@&"))

  unfoldable pub async_output_type : Rule AsyncType
  async_output_type = p.act _ (λ t (d, n). (async_type t d, n)) (p.one _ (codes "*+="))

  unfoldable pub stream_output : Rule StreamRecord
  stream_output =
      p.seq _ (member StreamRecord.type (λ k r. record r { type = k }) stream_record_type) (
        p.seq _ (member StreamRecord.content (λ c r. record r { content = c }) (cstring p b))
          (p.opt _ (p.seq _ (p.one _ (13 ∷ [])) (p.eof _))))

  unfoldable pub end_of_line : {T : Type 0} → Rule T
  end_of_line = p.seq _ (p.opt _ (p.one _ (13 ∷ []))) (p.eof _)

  module _ (value : Rule Value) where
    unfoldable pub async_results : Rule (List Entry)
    async_results =
        p.star _ (p.seq _ (p.one _ (b',' ∷ [])) (push_back empty_entry (result_rule p b value)))

    unfoldable pub async_output_rule : Rule AsyncOutput
    async_output_rule = p.seq _ (member AsyncOutput.type set_type async_output_type) (
        p.seq _ (member AsyncOutput.class_ set_async_class async_class_rule)
          (p.seq _ (member AsyncOutput.results set_async_results async_results) end_of_line))

    -- A named result, and after it any number without a name.
    unfoldable pub record_round : Rule (List Entry)
    record_round = p.seq _ (p.one _ (b',' ∷ [])) (
        p.seq _ (push_back empty_entry (result_rule p b value)) (
          p.star _
            (p.seq _ (p.one _ (b',' ∷ [])) (push_back empty_entry (anonym_result_rule p b value)))))

    unfoldable pub record_results : Rule (List Entry)
    record_results = p.star _ record_round

    unfoldable pub result_record_rule : Rule ResultOutput
    result_record_rule = p.seq _ (p.one _ (b'^' ∷ [])) (
        p.seq _ (member ResultOutput.class_ set_class result_class)
          (p.seq _ (member ResultOutput.results set_results record_results) end_of_line))

  module _ {T : Type 0} where
    -- `control<token>` with an expected token, and with an optional one that it fills.
    unfoldable pub expect_token : ℕ → Rule T
    expect_token tk s i = take_token (λ v t. (t, v == tk)) i (p.plus _ (p.ranges _ digits) s i)

    unfoldable pub read_token : Rule (Line T)
    read_token s i = take_token set_token i (p.plus _ (p.ranges _ digits) s i)

    unfoldable pub with_token : Rule T → Rule (Line T)
    with_token a =
        p.seq _ (p.opt _ read_token) (member Line.object (λ o l. record l { object = o }) a)

  -- The result of a parse function, and the new `last_var_name`. Only a token can throw, and it
  -- stands before the first variable.
  abbrev pub finish :
      {T A : Type 0} → (T → A) → Bytes → Outcome (State T) → Result (Option A) × Bytes
  finish get n (matched (t, n') r) = (ok (some (get t)), n')
  finish get n (failed (t, n')) = (ok none, n')
  finish get n (raised e) = (err e, n)

  abbrev pub fresh_async : AsyncOutput
  fresh_async = record { type = exec; class_ = []; results = [] }

  abbrev pub fresh_output : ResultOutput
  fresh_output = record { class_ = done; results = [] }

  -- Enough fuel for the values of a text.
  abbrev pub value_of : Bytes → Rule Value
  value_of i = value_rule p b (length i + 1)

  unfoldable pub parse_stream_output : Bytes → Bytes → Result (Option StreamRecord) × Bytes
  parse_stream_output n i =
      finish (λ r. r) n (stream_output (record { type = console; content = [] }, n) i)

  unfoldable pub parse_async_output_for : ℕ → Bytes → Bytes → Result (Option AsyncOutput) × Bytes
  parse_async_output_for tk n i =
      finish (λ r. r) n
        (p.seq _ (expect_token tk) (async_output_rule (value_of i)) (fresh_async, n) i)

  unfoldable pub parse_async_output : Bytes → Bytes → Result (Option (Line AsyncOutput)) × Bytes
  parse_async_output n i =
      finish (λ r. r) n
        (with_token (async_output_rule (value_of i))
          (record { token = none; object = fresh_async }, n) i)

  -- The text looked for is `(gbd)`.
  unfoldable pub is_gdb_end : Bytes → Bool
  is_gdb_end i =
      elim (p.seq (Unit {0}) (p.string _ (codes "(gbd)")) (p.opt _ (p.one _ (13 ∷ []))) tt i) [
        | matched _ _ ↦ true
        | _ ↦ false
      ]

  unfoldable pub parse_record_for : ℕ → Bytes → Bytes → Result (Option ResultOutput) × Bytes
  parse_record_for tk n i =
      finish (λ r. r) n
        (p.seq _ (expect_token tk) (result_record_rule (value_of i)) (fresh_output, n) i)

  unfoldable pub parse_record : Bytes → Bytes → Result (Option (Line ResultOutput)) × Bytes
  parse_record n i =
      finish (λ r. r) n
        (with_token (result_record_rule (value_of i))
          (record { token = none; object = fresh_output }, n) i)
