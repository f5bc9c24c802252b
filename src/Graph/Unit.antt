-- ===== src/Graph/Unit.antt =====
-- `SemanticUnit`, ir/semantic_unit.h and ir/semantic_unit.cpp: the flat records of one source file
-- and the index from ids to their positions.
pub mod Lookup
pub mod Setters
use mathlib.Core.Option
use code_scope.Prelude.{
  ℕ, ◌+◌, ◌%◌, ◌^◌, Bool, true, false, Option, none, some, List, [], ◌∷◌, ◌++◌, Bytes, bytes_eq,
  length, find, get_elem?, modify_at, ltb, ◌==◌, if◌then◌else◌,
}

pub record SourceRange : Type 0 where
  pub start_row : ℕ
  pub start_col : ℕ
  pub end_row : ℕ
  pub end_col : ℕ

pub data RecordKind : Type 0 where
  function method class interface enum type_alias variable field_kind parameter call_expr
        member_expr import_kind export literal comment translation_unit type_decl type_ref
        type_assign route interface_impl import_binding :
      RecordKind

-- The enumerators' values.
unfoldable pub kind_value : RecordKind → ℕ
kind_value RecordKind.function = 0
kind_value RecordKind.method = 1
kind_value RecordKind.class = 2
kind_value RecordKind.interface = 3
kind_value RecordKind.enum = 4
kind_value RecordKind.type_alias = 5
kind_value RecordKind.variable = 6
kind_value RecordKind.field_kind = 7
kind_value RecordKind.parameter = 8
kind_value RecordKind.call_expr = 9
kind_value RecordKind.member_expr = 10
kind_value RecordKind.import_kind = 11
kind_value RecordKind.export = 12
kind_value RecordKind.literal = 13
kind_value RecordKind.comment = 14
kind_value RecordKind.translation_unit = 15
kind_value RecordKind.type_decl = 16
kind_value RecordKind.type_ref = 17
kind_value RecordKind.type_assign = 18
kind_value RecordKind.route = 19
kind_value RecordKind.interface_impl = 20
kind_value RecordKind.import_binding = 21

unfoldable pub is_kind : RecordKind → RecordKind → Bool
unfolding kind_value
is_kind k j = kind_value k == kind_value j

-- A `CallKind` is the value of its enumerator, in a byte. Counts are natural numbers.
pub record Record : Type 0 where
  pub id : ℕ
  pub original_id : ℕ
  pub kind : RecordKind
  pub name : Bytes
  pub qualified_name : Bytes
  pub type_name : Bytes
  pub parent_id : ℕ
  pub ref_original_id : ℕ
  pub resolve_strategy : Bytes
  pub loc : SourceRange
  pub file_path : Bytes
  pub language : Bytes
  pub arity : ℕ
  pub is_static : Bool
  pub call_kind : ℕ
  pub visibility : ℕ
  pub qualified_target : Bytes
  pub receiver_text : Bytes
  pub receiver_type : Bytes
  pub import_alias : Bytes

pub record SemanticUnit : Type 0 where
  pub records : List Record
  pub id_to_index : List (ℕ × ℕ)
  pub file_path : Bytes
  pub language : Bytes
  pub next_id : ℕ

abbrev pub empty_unit : SemanticUnit
empty_unit = record { records = []; id_to_index = []; file_path = []; language = []; next_id = 1 }

unfoldable pub set_file_path : SemanticUnit → Bytes → SemanticUnit
set_file_path u path = record u { file_path = path }

unfoldable pub set_language : SemanticUnit → Bytes → SemanticUnit
set_language u lang = record u { language = lang }

-- The members of a `Record` before an `add` operation assigns its own.
unfoldable pub fresh_record : SemanticUnit → RecordKind → Bytes → ℕ → SourceRange → Record
fresh_record u kind name parent_id loc = record {
  id = u.next_id;
  original_id = 0;
  kind = kind;
  name = name;
  qualified_name = [];
  type_name = [];
  parent_id = parent_id;
  ref_original_id = 0;
  resolve_strategy = [];
  loc = loc;
  file_path = u.file_path;
  language = u.language;
  arity = 0;
  is_static = false;
  call_kind = 0;
  visibility = 0;
  qualified_target = [];
  receiver_text = [];
  receiver_type = [];
  import_alias = [];
}

-- The tail of every `add` operation: the index entry, the push and the id that is returned.
unfoldable pub push_record : SemanticUnit → Record → ℕ × SemanticUnit
push_record u r = (
  r.id,
  record u {
    records = u.records ++ r ∷ [];
    id_to_index = (r.id, length u.records) ∷ u.id_to_index;
    next_id = (u.next_id + 1) % 2 ^ 64;
  },
)

unfoldable pub add_record :
    SemanticUnit → RecordKind → Bytes → ℕ → SourceRange → ℕ → Bool → ℕ → ℕ × SemanticUnit
unfolding fresh_record push_record
add_record u kind name parent_id loc arity is_static visibility =
    push_record u (record (fresh_record u kind name parent_id loc) {
      arity = arity;
      is_static = is_static;
      visibility = visibility;
    })

unfoldable pub add_typed_record :
    SemanticUnit → RecordKind → Bytes → Bytes → ℕ → SourceRange → ℕ → ℕ × SemanticUnit
unfolding fresh_record push_record
add_typed_record u kind name type_name parent_id loc visibility =
    push_record u (record (fresh_record u kind name parent_id loc) {
      type_name = type_name;
      visibility = visibility;
    })

-- The overload for a rebuild from the store: the original id gets an index entry of its own.
unfoldable pub add_original :
    SemanticUnit → RecordKind → Bytes → Bytes → ℕ → ℕ → SourceRange → ℕ × SemanticUnit
unfolding fresh_record push_record
add_original u kind name qualified_name original_id parent_id loc =
    let r = record (fresh_record u kind name parent_id loc) { qualified_name = qualified_name } in
    let (id, v) = push_record u r in
    (
      id,
      if ltb 0 original_id
          then record v { id_to_index = (original_id, length u.records) ∷ v.id_to_index }
          else v,
    )

unfoldable pub get_record : SemanticUnit → ℕ → Option Record
get_record u id = elim (find id u.id_to_index) [ none ↦ none | some i ↦ get_elem? u.records i ]

-- The body that the five setters share: false for an unknown id, otherwise one record is written.
unfoldable pub set_record : SemanticUnit → ℕ → (Record → Record) → Bool × SemanticUnit
set_record u id f = elim (find id u.id_to_index) [
  | none ↦ (false, u)
  | some i ↦ (true, record u { records = modify_at i f u.records })
]

unfoldable pub set_call_reference : SemanticUnit → ℕ → ℕ → Bool × SemanticUnit
unfolding set_record
set_call_reference u id ref = set_record u id (λ r. record r { ref_original_id = ref })

unfoldable pub set_call_kind : SemanticUnit → ℕ → ℕ → Bool × SemanticUnit
unfolding set_record
set_call_kind u id kind = set_record u id (λ r. record r { call_kind = kind % 2 ^ 8 })

unfoldable pub set_call_strategy : SemanticUnit → ℕ → Bytes → Bool × SemanticUnit
unfolding set_record
set_call_strategy u id strategy = set_record u id (λ r. record r { resolve_strategy = strategy })

unfoldable pub set_call_facts :
    SemanticUnit → ℕ → Bytes → Bytes → Bytes → Bytes → Bool × SemanticUnit
unfolding set_record
set_call_facts u id target text type alias = set_record u id (λ r. record r {
  qualified_target = target;
  receiver_text = text;
  receiver_type = type;
  import_alias = alias;
})

unfoldable pub set_qualified_name : SemanticUnit → ℕ → Bytes → Bool × SemanticUnit
unfolding set_record
set_qualified_name u id name = set_record u id (λ r. record r { qualified_name = name })

-- The positions at which a test holds, in order, counted from `i`.
unfoldable pub indices_where : (Record → Bool) → ℕ → List Record → List ℕ
indices_where t i [] = []
indices_where t i (r ∷ rs) = let rest = indices_where t (i + 1) rs in if t r then i ∷ rest else rest

unfoldable pub find_records_by_kind : SemanticUnit → RecordKind → List ℕ
unfolding indices_where is_kind
find_records_by_kind u kind = indices_where (λ r. is_kind r.kind kind) 0 u.records

unfoldable pub get_children : SemanticUnit → ℕ → List ℕ
unfolding indices_where
get_children u parent_id = indices_where (λ r. r.parent_id == parent_id) 0 u.records

-- The first position with the name; `none` stands for `SIZE_MAX`.
unfoldable pub first_named : Bytes → ℕ → List Record → Option ℕ
first_named name i [] = none
first_named name i (r ∷ rs) =
    let rest = first_named name (i + 1) rs in if bytes_eq r.name name then some i else rest

unfoldable pub find_record_by_name : SemanticUnit → Bytes → Option ℕ
unfolding first_named
find_record_by_name u name = first_named name 0 u.records
