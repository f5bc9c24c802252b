-- ===== src/Json/Writer.antt =====
-- `JsonWriter` of engine/src/util/json_writer.cpp. The stack's top frame is the head of the list,
-- and `error_` is `none` while it is the empty string.
use code_scope.Prelude.{
  Bool, true, false, Option, none, some, List, [], ◌∷◌, ◌++◌, Bytes, codes, not, ◌&&◌,
  if◌then◌else◌,
}
use code_scope.Json.Escape.{quoted}
use code_scope.Json.Value.{bool_text}

pub data WriterError : Type 0 where
  multiple_top_level value_without_key : WriterError
  end_object_without_begin end_array_without_begin : WriterError
  key_without_value key_outside_object key_after_key : WriterError

pub record Frame : Type 0 where
  pub is_object : Bool
  pub has_items : Bool

pub record Writer : Type 0 where
  pub out : Bytes
  pub error : Option WriterError
  pub stack : List Frame
  pub awaiting_value : Bool
  pub started : Bool

-- The state after the constructor.
abbrev pub fresh : Writer
fresh = record { out = []; error = none; stack = []; awaiting_value = false; started = false }

abbrev pub is_ok : Writer → Bool
is_ok w = elim w.error [ none ↦ true | some e ↦ false ]

abbrev pub reset : Writer → Writer
reset w = record w { out = []; error = none; stack = []; awaiting_value = false; started = false }

-- `take`: the text, and the writer with what a move leaves of it, which is up to the library.
abbrev pub take : Bytes → Writer → Bytes × Writer
take moved w = (w.out, record w { out = moved })

abbrev append_out : Bytes → Writer → Writer
append_out text w = record w { out = w.out ++ text }

-- Only the first error is kept.
unfoldable pub set_error : WriterError → Writer → Writer
set_error e w = elim w.error [ none ↦ record w { error = some e } | some first ↦ w ]

unfoldable pub before_value : Writer → Writer
unfolding set_error
before_value w = elim w.stack [
  | [] ↦ if w.started then set_error multiple_top_level w else w
  | f ∷ rest ↦
      if f.is_object
      then (if w.awaiting_value then w else set_error value_without_key w)
      else if f.has_items
      then append_out (b',' ∷ []) w
      else w
]

unfoldable pub mark_value_done : Writer → Writer
mark_value_done w = elim w.stack [
  | [] ↦ record w { started = true }
  | f ∷ rest ↦ record w {
    awaiting_value = if f.is_object then false else w.awaiting_value;
    stack = record f { has_items = true } ∷ rest;
  }
]

-- An operation does nothing once an error is recorded.
abbrev unless_error : Writer → (Writer → Writer) → Writer
unless_error w f = elim w.error [ none ↦ f w | some e ↦ w ]

unfoldable pub begin_container : Bytes → Bool → Writer → Writer
unfolding before_value mark_value_done
begin_container open_text object w = unless_error w λ w1. unless_error (before_value w1) λ w2.
    let w3 = mark_value_done (append_out open_text w2) in
    record w3 {
      stack = record { is_object = object; has_items = false } ∷ w3.stack;
      awaiting_value = false;
    }

abbrev end_error : Bool → WriterError
end_error true = end_object_without_begin
end_error false = end_array_without_begin

abbrev same_kind : Bool → Bool → Bool
same_kind true b = b
same_kind false b = not b

unfoldable pub end_container : Bytes → Bool → Writer → Writer
unfolding set_error
end_container close object w = unless_error w λ w1. elim w1.stack [
  | [] ↦ set_error (end_error object) w1
  | f ∷ rest ↦
      if same_kind f.is_object object
      then (if object && w1.awaiting_value
          then set_error key_without_value w1
          else record w1 { out = w1.out ++ close; stack = rest; awaiting_value = false })
      else set_error (end_error object) w1
]

unfoldable pub begin_object : Writer → Writer
unfolding begin_container
begin_object = begin_container (b'{' ∷ []) true

unfoldable pub end_object : Writer → Writer
unfolding end_container
end_object = end_container (b'}' ∷ []) true

unfoldable pub begin_array : Writer → Writer
unfolding begin_container
begin_array = begin_container (b'[' ∷ []) false

unfoldable pub end_array : Writer → Writer
unfolding end_container
end_array = end_container (b']' ∷ []) false

unfoldable pub key : Bytes → Writer → Writer
unfolding set_error
key k w = unless_error w λ w1. elim w1.stack [
  | [] ↦ set_error key_outside_object w1
  | f ∷ rest ↦
      if f.is_object
      then (if w1.awaiting_value
          then set_error key_after_key w1
          else (let comma : Bytes = if f.has_items then b',' ∷ [] else [] in
              record w1 {
                out = (w1.out ++ comma) ++ quoted k ++ b':' ∷ [];
                awaiting_value = true;
              }))
      else set_error key_outside_object w1
]

-- What the overloads for a `const char *` make of a null pointer.
abbrev pub text_or_empty : Option Bytes → Bytes
text_or_empty none = []
text_or_empty (some text) = text

unfoldable pub key_pointer : Option Bytes → Writer → Writer
unfolding key
key_pointer k = key (text_or_empty k)

-- The common body of the `value` overloads, `nullValue` and `raw`.
unfoldable pub emit : Bytes → Writer → Writer
unfolding before_value mark_value_done
emit text w =
    unless_error w λ w1. unless_error (before_value w1) λ w2. mark_value_done (append_out text w2)

unfoldable pub value_string : Bytes → Writer → Writer
unfolding emit
value_string v = emit (quoted v)

unfoldable pub value_pointer : Option Bytes → Writer → Writer
unfolding value_string
value_pointer v = value_string (text_or_empty v)

unfoldable pub value_bool : Bool → Writer → Writer
unfolding emit
value_bool v = emit (bool_text v)

unfoldable pub null_value : Writer → Writer
unfolding emit
null_value = emit (codes "null")

unfoldable pub raw : Bytes → Writer → Writer
unfolding emit
raw json = emit json

-- `value` of an integral type, given the text of `std::to_string`.
unfoldable pub value_integral : Bytes → Writer → Writer
unfolding emit
value_integral text = emit text

-- `value(double)`, given the stream's text of the number; `none` for NaN and the infinities.
unfoldable pub value_double : Option Bytes → Writer → Writer
unfolding null_value emit
value_double none = null_value
value_double (some text) = emit text
