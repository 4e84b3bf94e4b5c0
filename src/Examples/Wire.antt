-- ===== src/Examples/Wire.antt =====
-- Examples of the protocol: requests as bytes, and the replies of the database.
use skiffdb.Prelude.{some, List, [], ◌∷◌, ◌++◌, ◌≡◌, refl, arith, Bytes, codes, All}
use skiffdb.Prelude.Int.{negsuc}
use skiffdb.Go.Strconv.{itoa}
use skiffdb.Resp.Build.{separator, build_array, build_elements, build_bulk_string}
use skiffdb.Resp.Context.{ParserContext, init_parser_context, ok, err, panicked, too_short}
use skiffdb.Resp.Parser.{parse_resp_command}
use skiffdb.Resp.Parser.Line.{at_input}
use skiffdb.Resp.Parser.RoundTrip.{IsArgument, parse_resp_command-build_array}
use skiffdb.Resp.Parser.Progress.{Within, parse_resp_command-Within}
use skiffdb.Resp.Parser.Faults.{parse-empty_last, parse-empty_inner, parse-negative_length}

abbrev get_k : List Bytes
get_k = codes "GET" ∷ codes "k" ∷ []

get_k-IsArgument : All IsArgument get_k
get_k-IsArgument = (((λ h. cc), omega arith), (((λ h. cc), omega arith), tt))

-- What `GET k` is on the wire.
build_get_k : build_array (some get_k) ≡ codes "*2\r\n$3\r\nGET\r\n$1\r\nk\r\n"
unfolding build_array itoa build_elements build_bulk_string
build_get_k = refl

parse_resp_command-build_array_example :
    (c' : ParserContext) × (parse_resp_command
        (at_input (build_array (some get_k) ++ codes "*1\r\n") init_parser_context)
      ≡ (ok tt, at_input (codes "*1\r\n") c'))
    × (c'.cmd_args ≡ some get_k)
parse_resp_command-build_array_example =
    parse_resp_command-build_array get_k (codes "*1\r\n") init_parser_context refl (omega arith)
      get_k-IsArgument

parse_resp_command-Within_example :
    Within 4 (parse_resp_command (at_input (codes "*1\r\n$") init_parser_context))
parse_resp_command-Within_example =
    parse_resp_command-Within 4 (at_input (codes "*1\r\n$") init_parser_context) refl (omega arith)

parse-empty_last_example :
    (c' : ParserContext) × (parse_resp_command
        (at_input (build_array (some (get_k ++ [] ∷ [])) ++ codes "+") init_parser_context)
      ≡ (ok tt, at_input (13 ∷ 10 ∷ codes "+") c'))
    × (c'.cmd_args ≡ some (get_k ++ [] ∷ []))
parse-empty_last_example =
    parse-empty_last get_k (codes "+") init_parser_context refl (omega arith) get_k-IsArgument

parse-empty_inner_example :
    (c' : ParserContext) × (parse_resp_command
        (at_input (build_array (some (get_k ++ [] ∷ codes "v" ∷ [])) ++ []) init_parser_context)
      ≡ (err too_short, at_input (build_elements (codes "v" ∷ []) ++ []) c'))
parse-empty_inner_example =
    parse-empty_inner get_k [] (codes "v") [] init_parser_context refl (omega arith)
      get_k-IsArgument

parse-negative_length_example :
    (c' : ParserContext) × (parse_resp_command
        (at_input (codes "$" ++ (itoa (negsuc 2) ++ (separator ++ []))) init_parser_context)
      ≡ (panicked, at_input [] c'))
parse-negative_length_example =
    parse-negative_length 2 [] init_parser_context refl (omega arith) (omega arith)
