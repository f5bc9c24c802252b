-- ===== src/Json/Envelope.antt =====
-- `errorEnvelope` and `okFalseEnvelope` of engine/src/util/json_writer.cpp.
use code_scope.Prelude.{
  Bool, true, false, Option, none, some, ◌++◌, Bytes, codes, ◌≡◌, ap, if◌then◌else◌,
}
use code_scope.Json.Value.{Value, boolean, string, object, Fields, end, field, print}
use code_scope.Json.Writer.{Writer, fresh, begin_object, end_object, key, value_string, value_bool}
use code_scope.Json.Refine.{perform, perform_all}
use code_scope.Json.Serial.{calls, perform_all-calls}

-- A null pointer is written as `unknown`.
abbrev pub or_unknown : Option Bytes → Bytes
or_unknown none = codes "unknown"
or_unknown (some s) = s

abbrev pub trace_prefix : Option Bytes → Option Bytes → Bytes → Bytes
trace_prefix module_name method message =
    codes "[module="
    ++ or_unknown module_name
    ++ codes ", method="
    ++ or_unknown method
    ++ codes "] "
    ++ message

unfoldable pub envelope : Bool → Option Bytes → Option Bytes → Bytes → Bytes
unfolding begin_object end_object key value_string value_bool
envelope with_ok_flag module_name method message =
    let opened = begin_object fresh in
    let flagged = if with_ok_flag then value_bool false (key (codes "ok") opened) else opened in
    (end_object
      (value_string (trace_prefix module_name method message) (key (codes "error") flagged))).out

unfoldable pub error_envelope : Option Bytes → Option Bytes → Bytes → Bytes
unfolding envelope
error_envelope module_name method message = envelope false module_name method message

unfoldable pub ok_false_envelope : Option Bytes → Option Bytes → Bytes → Bytes
unfolding envelope
ok_false_envelope module_name method message = envelope true module_name method message

module _ {N : Type 0} where
  abbrev error_fields : Bytes → Fields N
  error_fields text = field (codes "error") (string text) end

  abbrev pub envelope_value : Bool → Bytes → Value N
  envelope_value true text = object (field (codes "ok") (boolean false) (error_fields text))
  envelope_value false text = object (error_fields text)

-- Whatever the module, the method and the message are, an envelope is the text of one JSON object,
-- with the trace and the message as the string under `error`, behind `ok` with false or alone.
pub envelope-print :
    {N : Type 0} (show : N → Bytes) (with_ok_flag : Bool) (module_name method : Option Bytes)
    (message : Bytes)
    → envelope with_ok_flag module_name method message
      ≡ print show (envelope_value with_ok_flag (trace_prefix module_name method message))
unfolding envelope perform_all perform calls
envelope-print show true module_name method message =
    ap (λ (w : Writer). w.out)
      (perform_all-calls show (envelope_value true (trace_prefix module_name method message)))
envelope-print show false module_name method message =
    ap (λ (w : Writer). w.out)
      (perform_all-calls show (envelope_value false (trace_prefix module_name method message)))
