-- ===== src/Json/Tests.antt =====
-- Runs of the writer and of the reader on small texts.
use code_scope.Prelude.{
  ℕ, true, Option, none, some, List, [], ◌∷◌, if◌then◌else◌, ltb, false, ◌/◌, ◌%◌, ◌++◌, Bytes,
  arith, length, codes, ◌≡◌, refl, ◌≤◌, ◌+◌, ◌*◌, ◌-◌,
}
use code_scope.Json.Value.{
  Value, null, boolean, number, array, object, nil, cons, end, field, add_item, add_field, print,
  depth,
}
use code_scope.Json.Escape.{quote, json_escape_string}
use code_scope.Json.Writer.{Writer, fresh, is_ok, key_outside_object}
use code_scope.Json.Builder.{
  empty, complete, Call, put_number, put_key, open_array, open_object, close_array, close_object,
  build_all,
}
use code_scope.Json.Refine.{writer_of, perform, perform_all}
use code_scope.Json.Refine.Steps.{Refines}
use code_scope.Json.Refine.Runs.{perform_all-Refines, text-IsJson}
use code_scope.Json.Envelope.{envelope, envelope_value, trace_prefix, envelope-print}
use code_scope.Json.Serial.{calls, perform_all-calls}
use code_scope.Json.RoundTrip.Strings.{read_string-escape}
use code_scope.Json.RoundTrip.Values.{HasReadable}
use code_scope.Json.RoundTrip.Trees.{read-print}
use code_scope.Json.Consume.Values.{IsAnswer, read-IsAnswer}
use code_scope.Json.Reader.Strings.{
  read_string, Read, ok, fail, expected_array_end, trailing_characters,
}
use code_scope.Json.Reader.Values.{
  read, read_value, start_value, read_object, fields_loop, fields_value, fields_next, read_array,
  items_loop, items_next, read_bool, read_null, read_number, number_run, is_number_byte, is_digit,
  skip_whitespace, is_blank, max_depth,
}

-- Decimal numbers stand in for the numbers.
abbrev decimal_run : ℕ → Bytes → ℕ
decimal_run acc [] = acc
decimal_run acc (c ∷ s) = decimal_run (acc * 10 + (c - b'0')) s

abbrev decimal_stod : Bytes → Option (ℕ × ℕ)
decimal_stod [] = none
decimal_stod (c ∷ s) = some (decimal_run 0 (c ∷ s), length (c ∷ s))

read_decimal : Bytes → Read (Value ℕ)
unfolding read read_value start_value read_object fields_loop fields_value fields_next read_array
    items_loop items_next read_string read_bool read_null read_number number_run is_number_byte
    is_digit skip_whitespace is_blank add_item add_field
read_decimal = read decimal_stod

abbrev decimal_show : ℕ → Bytes
decimal_show n = if ltb n 10 then (b'0' + n) ∷ [] else (b'0' + n / 10) ∷ (b'0' + n % 10) ∷ []

abbrev sample_text : Bytes
sample_text = codes " { \"a\" : [1, 23 ,true] , \"b\\n\\u0041\" : null } "

abbrev sample_value : Value ℕ
sample_value = object (
    field (codes "a") (array (cons (number 1) (cons (number 23) (cons (boolean true) nil))))
      (field (codes "b" ++ 10 ∷ b'A' ∷ []) null end))

read_sample : read_decimal sample_text ≡ ok sample_value []
unfolding read_decimal
read_sample = refl

read_trailing : read_decimal (codes "[] x") ≡ fail trailing_characters (codes "x")
unfolding read_decimal
read_trailing = refl

read_unclosed : read_decimal (codes "[1 2") ≡ fail expected_array_end (codes "2")
unfolding read_decimal
read_unclosed = refl

-- `{"a":[1],"b":` and a misuse: an end where a value is due.
abbrev sample_calls : List (Call ℕ)
sample_calls =
    open_object
    ∷ put_key (codes "a")
    ∷ open_array
    ∷ put_number 1
    ∷ close_array
    ∷ put_key (codes "b")
    ∷ []

abbrev failed : Writer
failed = record fresh { error = some key_outside_object }

perform_all-Refines_example :
    Refines decimal_show
      (build_all sample_calls empty)
      (perform_all decimal_show sample_calls (writer_of decimal_show empty))
perform_all-Refines_example = perform_all-Refines decimal_show sample_calls empty

sample_misuse : build_all (sample_calls ++ close_object ∷ []) empty ≡ none
unfolding build_all
sample_misuse = refl

closed_calls : is_ok (perform_all decimal_show (open_array ∷ close_array ∷ []) fresh) ≡ true
unfolding perform_all perform
closed_calls = refl

closed_stack : (perform_all decimal_show (open_array ∷ close_array ∷ []) fresh).stack ≡ []
unfolding perform_all perform
closed_stack = refl

closed_started : (perform_all decimal_show (open_array ∷ close_array ∷ []) fresh).started ≡ true
unfolding perform_all perform
closed_started = refl

text-IsJson_example :
    (v : Value ℕ) × (build_all (open_array ∷ close_array ∷ []) empty ≡ some (complete v))
    × ((perform_all decimal_show (open_array ∷ close_array ∷ []) fresh).out ≡ print decimal_show v)
text-IsJson_example =
    text-IsJson decimal_show (open_array ∷ close_array ∷ []) closed_calls closed_stack
      closed_started

perform_all-calls_example : perform_all decimal_show (calls sample_value) fresh ≡ record {
  out = print decimal_show sample_value;
  error = none;
  stack = [];
  awaiting_value = false;
  started = true;
}
perform_all-calls_example = perform_all-calls decimal_show sample_value

read_string-escape_example :
    read_string (json_escape_string (codes "a\"b\n") ++ quote ∷ codes "]")
    ≡ ok (codes "a\"b\n") (codes "]")
read_string-escape_example = read_string-escape (codes "a\"b\n") (codes "]")

sample-HasReadable : HasReadable decimal_stod decimal_show sample_value
unfolding HasReadable is_number_byte is_digit
sample-HasReadable =
    (((refl, (refl, tt), refl), ((refl, (refl, (refl, tt)), refl), (tt, tt))), (tt, tt))

sample-shallow : depth sample_value ≤ max_depth
unfolding depth
sample-shallow = omega arith

read-print_example : read decimal_stod (print decimal_show sample_value) ≡ ok sample_value []
read-print_example =
    read-print decimal_stod decimal_show sample_value sample-HasReadable sample-shallow

read-IsAnswer_example : IsAnswer decimal_stod (read decimal_stod sample_text)
read-IsAnswer_example = read-IsAnswer decimal_stod sample_text

envelope-print_example :
    envelope true (some (codes "store")) none (codes "no \"db\"")
    ≡ print decimal_show
        (envelope_value true (trace_prefix (some (codes "store")) none (codes "no \"db\"")))
envelope-print_example =
    envelope-print decimal_show true (some (codes "store")) none (codes "no \"db\"")
