-- ===== src/Output/Tests.antt =====
-- Runs of the parser, and the theorems at concrete input.
use mw_dbg_runner.Common.{
  true, negsuc, Bytes, arith, ◌++◌, has_prefix, ◌≡◌, refl, some, [], ◌∷◌, codes,
}
use mw_dbg_runner.Error.{ok, err, out_of_fuel, done}
use mw_dbg_runner.Output.Display.{record_to_string, record_to_string-endless}
use mw_dbg_runner.Numbers.{
  decimal, stoi, int_to_string, my_stoull, stoull, strto, digit_value, skip_space, skip_sign,
  skip_prefix, starts_digit, scan,
}
use mw_dbg_runner.Output.{
  exec, entries, Value, Results, string, tuple, list, values, no_values, no_results, value, result,
  target, status,
}
use mw_dbg_runner.Output.Boost.{boost}
use mw_dbg_runner.Output.Pegtl.Engine.{engine}
use mw_dbg_runner.Output.Grammar.{member, variant_elem, push_back, unquote}
use mw_dbg_runner.Output.Grammar.Values.{
  cstring_body, cstring, variable, inherited_name, result_rule, anonym_result_rule, result_list,
  value_list, tuple_rule, list_rule, value_alternatives, value_rule,
}
use mw_dbg_runner.Output.Grammar.Records.{
  result_class, async_class_rule, stream_record_type, async_output_type, stream_output, end_of_line,
  async_results, async_output_rule, record_round, record_results, result_record_rule, expect_token,
  read_token, with_token, parse_stream_output, parse_async_output, parse_record, parse_record_for,
  parse_async_output_for,
}
use mw_dbg_runner.Numbers.RoundTrip.{stoi-int_to_string}
use mw_dbg_runner.Output.Pegtl.{matched}
use mw_dbg_runner.Output.Syntax.{IsName, IsPlain, ArePlain, show_value, quoted}
use mw_dbg_runner.Output.Grammar.Errors.{ThrowsParserError, parse_throws}
use mw_dbg_runner.Output.RoundTrip.Strings.{cstring-quoted}
use mw_dbg_runner.Output.RoundTrip.Nested.{value_rule-show_value}
use mw_dbg_runner.Output.RoundTrip.Lines.{IsClass, show_async}
use mw_dbg_runner.Output.RoundTrip.Answers.{show_answer, parse_record-show_answer}
use mw_dbg_runner.Output.RoundTrip.Reports.{show_report, parse_record-show_report}
use mw_dbg_runner.Output.RoundTrip.Async.{star_exec, show_token, parse_async_output-show_async}

-- The line `unfolding running` opens the grammar.
running : Unit {0}
unfolding engine boost has_prefix cstring_body cstring unquote member variant_elem push_back
    variable inherited_name result_rule anonym_result_rule result_list value_list tuple_rule
    list_rule value_alternatives value_rule async_class_rule async_output_type stream_record_type
    stream_output end_of_line async_results async_output_rule result_class record_round
    record_results result_record_rule expect_token read_token with_token my_stoull stoull strto
    digit_value skip_space skip_sign skip_prefix starts_digit scan
running = tt

stream_test :
    parse_stream_output engine boost [] (codes "@\"other stuff\"")
    ≡ (ok (some (record { type = target; content = codes "other stuff" })), [])
unfolding running parse_stream_output
stream_test = refl

async_test : parse_async_output engine boost [] (codes "4321=stopped,id=\"i\",g=[\"x\"]") ≡ (
  ok (
      some (record {
        token = some 4321;
        object = record {
          type = status;
          class_ = codes "stopped";
          results =
              record { variable = codes "id"; value_ = string (codes "i") }
              ∷ record {
                variable = codes "g";
                value_ = list (values (value (string (codes "x")) no_values));
              }
              ∷ [];
        };
      })),
  codes "\"x\"]",
)
unfolding running parse_async_output
async_test = refl

two_results : parse_record engine boost [] (codes "1^done,a=\"1\",b=\"2\"") ≡ (
  ok (
      some (record {
        token = some 1;
        object = record {
          class_ = done;
          results =
              record { variable = codes "a"; value_ = string (codes "1") }
              ∷ record { variable = codes "a"; value_ = list (values no_values) }
              ∷ record { variable = codes "b"; value_ = string (codes "2") }
              ∷ [];
        };
      })),
  codes "b",
)
unfolding running parse_record
two_results = refl

unnamed_tuple :
    parse_record engine boost [] (codes "1^done,bkpt={number=\"1\"},{number=\"1.1\"}") ≡ (
      ok (
          some (record {
            token = some 1;
            object = record {
              class_ = done;
              results =
                  record {
                    variable = codes "bkpt";
                    value_ = tuple (result (codes "number") (string (codes "1")) no_results);
                  }
                  ∷ record {
                    variable = codes "number";
                    value_ = tuple (result (codes "number") (string (codes "1.1")) no_results);
                  }
                  ∷ [];
            };
          })),
      codes "number",
    )
unfolding running parse_record
unnamed_tuple = refl

-- `{id="i",x=[]}`
abbrev sample : Value
sample = tuple (
    result (codes "id") (string (codes "i"))
      (result (codes "x") (list (values no_values)) no_results))

IsPlain-sample : IsPlain sample
unfolding IsPlain
IsPlain-sample = (
  tt,
  (
    ((omega arith, omega arith), ((omega arith, omega arith), tt)),
    (omega arith, tt),
    (((omega arith, omega arith), tt), tt, tt),
  ),
)

value_rule-show_value_example :
    (n' : Bytes) × (value_rule engine boost 20 (string [], []) (show_value sample ++ codes ",y")
      ≡ matched (sample, n') (codes ",y"))
unfolding show_value
value_rule-show_value_example =
    value_rule-show_value engine boost sample 20 (string []) [] (codes ",y") IsPlain-sample
      (omega arith)

cstring-quoted_example :
    cstring engine boost ([], codes "a") (quoted (codes "x\"y") ++ codes ",z")
    ≡ matched (codes "x\"y", codes "a") (codes ",z")
cstring-quoted_example =
    cstring-quoted engine boost (codes "x\"y") [] (codes "a") (codes ",z")
      (omega arith, (omega arith, (omega arith, tt)))

IsClass-stopped : IsClass engine boost (codes "stopped")
IsClass-stopped = (refl, (refl, (refl, (refl, (refl, (refl, (refl, tt)))))))

abbrev one_result : Results
one_result = result (codes "frame") sample no_results

IsName-frame : IsName (codes "frame")
IsName-frame = (
  (omega arith, omega arith),
  (
    (omega arith, omega arith),
    ((omega arith, omega arith), ((omega arith, omega arith), ((omega arith, omega arith), tt))),
  ),
)

ArePlain-one_result : ArePlain one_result
unfolding ArePlain
ArePlain-one_result = (IsName-frame, IsPlain-sample, tt)

parse_async_output-show_async_example :
    (n' : Bytes) × (parse_async_output engine boost []
        (show_token (some 42) ++ show_async engine boost b'*' (codes "stopped") one_result true)
      ≡ (
        ok (
            some (record {
              token = some 42;
              object = record {
                type = exec;
                class_ = codes "stopped";
                results = entries one_result;
              };
            })),
        n',
      ))
parse_async_output-show_async_example =
    parse_async_output-show_async engine boost (some 42) b'*' exec (codes "stopped") one_result true
      [] (omega arith) star_exec IsClass-stopped ArePlain-one_result

parse_throws_example :
    ThrowsParserError (parse_record engine boost [] (codes "99999999999999999999^done")).0
    × ThrowsParserError (parse_record_for engine boost 7 [] (codes "99999999999999999999^done")).0
    × ThrowsParserError (parse_async_output engine boost [] (codes "99999999999999999999^done")).0
    × ThrowsParserError
        (parse_async_output_for engine boost 7 [] (codes "99999999999999999999^done")).0
parse_throws_example = parse_throws engine boost [] (codes "99999999999999999999^done") 7

stoi-int_to_string_example : stoi decimal (int_to_string (negsuc 41)) ≡ ok (negsuc 41)
stoi-int_to_string_example = stoi-int_to_string (negsuc 41) (omega arith)

parse_record-show_answer_example :
    parse_record engine boost (codes "x") (show_answer engine boost (some 7) done true) ≡ (
      ok (some (record { token = some 7; object = record { class_ = done; results = [] } })),
      codes "x",
    )
parse_record-show_answer_example =
    parse_record-show_answer engine boost (some 7) done true (codes "x") (omega arith)

record_to_string-endless_example :
    record_to_string 3 (record { class_ = done; results = [] }) ≡ err out_of_fuel
record_to_string-endless_example =
    record_to_string-endless 3 (record { class_ = done; results = [] })

parse_record-show_report_example :
    (n' : Bytes) × (parse_record engine boost []
        (show_report engine boost (some 7) done (codes "frame") sample true)
      ≡ (
        ok (
            some (record {
              token = some 7;
              object = record {
                class_ = done;
                results = record { variable = codes "frame"; value_ = sample } ∷ [];
              };
            })),
        n',
      ))
parse_record-show_report_example =
    parse_record-show_report engine boost (some 7) done (codes "frame") sample true [] (omega arith)
      IsName-frame IsPlain-sample
