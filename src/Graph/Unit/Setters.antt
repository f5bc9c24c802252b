-- ===== src/Graph/Unit/Setters.antt =====
-- What the setters of a `SemanticUnit` change.
use mathlib.Core.Option
use code_scope.Prelude.{
  ℕ, suc, ◌+◌, ◌%◌, ◌^◌, ◌<◌, Bool, Bytes, true, false, none, some, length, find, get_elem?_inside,
  modify_at, modify_at_here, modify_at_past, ◌≡◌, sym, ap, ◌∙◌, ◌≢◌, inl, inr, arith,
}
use code_scope.Graph.Unit.{
  Record, SemanticUnit, get_record, set_record, set_call_reference, set_call_kind,
  set_call_strategy, set_call_facts, set_qualified_name,
}
use code_scope.Graph.Unit.Lookup.{
  Built, IsIndexed, Built-IsIndexed, index_cases, get_record_known, get_record_unknown,
  set_record_unknown, set_record_known,
}

-- After a write to the record at a position, `getRecord` finds the new record for its id.
modified_here :
    (u : SemanticUnit) (i id : ℕ) (f : Record → Record) (r : Record)
    → find id u.id_to_index ≡ some i
    → get_record u id ≡ some r
    → get_record (record u { records = modify_at i f u.records }) id ≡ some (f r)
unfolding Option.map
modified_here u i id f r e g =
    get_record_known (record u { records = modify_at i f u.records }) id i e
    ∙ modify_at_here i f u.records
    ∙ ap (Option.map f) (sym (get_record_known u id i e) ∙ g)

modified_past :
    (u : SemanticUnit) (i k : ℕ) (f : Record → Record)
    → IsIndexed u
    → k ≢ suc i
    → get_record (record u { records = modify_at i f u.records }) k ≡ get_record u k
modified_past u i k f h d =
    let v = record u { records = modify_at i f u.records } in
    elim (index_cases u k h) [
      | inl e ↦ get_record_unknown v k e ∙ sym (get_record_unknown u k e)
      | inr (j, e, l, at_j) ↦
          get_record_known v k j at_j
          ∙ modify_at_past i j f u.records (λ q. d (e ∙ ap suc (sym q)))
          ∙ sym (get_record_known u k j at_j)
    ]

-- What a call of a setter has to give: false and the same unit for an unknown id; for a known id true,
-- and a unit in which the record of the id is the changed one and those of other ids are as before.
abbrev pub Sets : SemanticUnit → ℕ → (Record → Record) → Bool × SemanticUnit → Type 0
Sets u id f p =
    (get_record u id ≡ none → p ≡ (false, u))
    × ((r : Record)
        → get_record u id ≡ some r
        → (p.0 ≡ true)
          × (get_record p.1 id ≡ some (f r))
          × ((k : ℕ) → k ≢ id → get_record p.1 k ≡ get_record u k))

set_record-Sets :
    {u : SemanticUnit} (id : ℕ) (f : Record → Record)
    → Built u
    → length u.records + 1 < 2 ^ 64
    → Sets u id f (set_record u id f)
set_record-Sets {u} id f b small =
    let h = Built-IsIndexed b small in
    elim (index_cases u id h) [
      | inl e ↦ (
        λ _. set_record_unknown u id f e,
        λ r g. absurd (ground (arith, g, get_record_unknown u id e)),
      )
      | inr (i, e, l, found) ↦
          let known = set_record_known u id i f found in
          let (q, inside) = get_elem?_inside u.records i l in
          (
            λ n. absurd (ground (arith, n, get_record_known u id i found, inside)),
            λ r g. (
              ap (λ p. p.0) known,
              ap (λ p. get_record p.1 id) known ∙ modified_here u i id f r found g,
              λ k d.
                  ap (λ p. get_record p.1 k) known ∙ modified_past u i k f h (λ q. d (q ∙ sym e)),
            ),
          )
    ]

-- The five setters on a unit that the visitors build, with fewer than 2^64 - 1 records: for an unknown
-- id each returns false and leaves the unit as it was; for a known id it returns true, the record that
-- `getRecord` finds for the id is the old one with the reference, the kind of call in a byte, the
-- strategy, the four facts of the call or the qualified name set and nothing else changed, and what
-- `getRecord` finds for other ids does not change.
pub setters_lem :
    {u : SemanticUnit} (id : ℕ)
    → Built u
    → length u.records + 1 < 2 ^ 64
    → ((ref : ℕ)
        → Sets u id (λ r. record r { ref_original_id = ref }) (set_call_reference u id ref))
      × ((kind : ℕ)
          → Sets u id (λ r. record r { call_kind = kind % 256 }) (set_call_kind u id kind))
      × ((s : Bytes)
          → Sets u id (λ r. record r { resolve_strategy = s }) (set_call_strategy u id s))
      × ((target text type alias : Bytes)
          → Sets u id
              (λ r. record r {
                qualified_target = target;
                receiver_text = text;
                receiver_type = type;
                import_alias = alias;
              })
              (set_call_facts u id target text type alias))
      × ((name : Bytes)
          → Sets u id (λ r. record r { qualified_name = name }) (set_qualified_name u id name))
unfolding set_call_reference set_call_kind set_call_strategy set_call_facts set_qualified_name
setters_lem id b small = (
  λ ref. set_record-Sets id _ b small,
  λ kind. set_record-Sets id _ b small,
  λ s. set_record-Sets id _ b small,
  λ target text type alias. set_record-Sets id _ b small,
  λ name. set_record-Sets id _ b small,
)
