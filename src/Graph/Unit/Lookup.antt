-- ===== src/Graph/Unit/Lookup.antt =====
-- Ids, positions and the index of a `SemanticUnit` that the visitors fill.
use mathlib.Core.Option
use code_scope.Prelude.{
  ℕ, zero, suc, ◌+◌, ◌^◌, ◌≤◌, ◌<◌, Bool, true, false, none, some, List, [], ◌∷◌, Bytes, length,
  length-append, find, find_past, get_elem?, get_elem?-push, some_inj, modify_at, modify_at_here,
  modify_at_past, length-modify_at, ltb, ◌==◌, ◌≡◌, refl, sym, ap, ◌∙◌, subst, ◌⊎◌, inl, inr,
  Option-cases, Bool-cases, ==→≡, ==→≢, arith,
}
use code_scope.Graph.Unit.{
  SourceRange, RecordKind, Record, SemanticUnit, empty_unit, set_file_path, set_language,
  push_record, fresh_record, add_record, add_typed_record, get_record, set_record,
  set_call_reference, set_call_kind, set_call_strategy, set_call_facts, set_qualified_name,
}

-- The units that the visitors build: records are added, and facts are set on them.
pub data Built : SemanticUnit → Type 0 where
  empty : Built empty_unit
  located : {u : SemanticUnit} (path : Bytes) → Built u → Built (set_file_path u path)
  labelled : {u : SemanticUnit} (lang : Bytes) → Built u → Built (set_language u lang)
  added :
      {u : SemanticUnit} (kind : RecordKind) (name : Bytes) (parent_id : ℕ) (loc : SourceRange)
      (arity : ℕ) (is_static : Bool) (visibility : ℕ)
      → Built u
      → Built (add_record u kind name parent_id loc arity is_static visibility).1
  typed :
      {u : SemanticUnit} (kind : RecordKind) (name type_name : Bytes) (parent_id : ℕ)
      (loc : SourceRange) (visibility : ℕ)
      → Built u
      → Built (add_typed_record u kind name type_name parent_id loc visibility).1
  referenced : {u : SemanticUnit} (id ref : ℕ) → Built u → Built (set_call_reference u id ref).1
  classified : {u : SemanticUnit} (id kind : ℕ) → Built u → Built (set_call_kind u id kind).1
  decided : {u : SemanticUnit} (id : ℕ) (s : Bytes) → Built u → Built (set_call_strategy u id s).1
  described :
      {u : SemanticUnit} (id : ℕ) (a b c d : Bytes)
      → Built u
      → Built (set_call_facts u id a b c d).1
  qualified :
      {u : SemanticUnit} (id : ℕ) (s : Bytes) → Built u → Built (set_qualified_name u id s).1

-- Ids count the records from 1, and the index finds exactly them.
pub record IsIndexed (u : SemanticUnit) : Type 0 where
  pub next : u.next_id ≡ length u.records + 1
  pub no_zero : find 0 u.id_to_index ≡ none
  pub found : (i : ℕ) → i < length u.records → find (suc i) u.id_to_index ≡ some i
  pub beyond : (i : ℕ) → length u.records ≤ i → find (suc i) u.id_to_index ≡ none
  pub named : (i : ℕ) (r : Record) → get_elem? u.records i ≡ some r → r.id ≡ suc i
  pub no_original : (i : ℕ) (r : Record) → get_elem? u.records i ≡ some r → r.original_id ≡ 0

push_record-IsIndexed :
    (u : SemanticUnit) (r : Record)
    → IsIndexed u
    → r.id ≡ u.next_id
    → r.original_id ≡ 0
    → length u.records + 2 < 2 ^ 64
    → IsIndexed (push_record u r).1
unfolding push_record
push_record-IsIndexed u r h e o small =
    let len = length-append u.records (r ∷ []) in
    let here = h.next in
    record {
      next = omega (arith, len, here, small);
      no_zero =
          find_past 0 r.id (length u.records) u.id_to_index (omega (arith, e, here)) ∙ h.no_zero;
      found = λ i l. elim (Bool-cases (r.id == suc i)) [
        | inl y ↦ rw y (ap some (omega (arith, ==→≡ r.id (suc i) y, e, here)))
        | inr n ↦ rw n (h.found i (omega (arith, ==→≢ r.id (suc i) n, e, here, l, len)))
      ];
      beyond = λ i l.
          find_past (suc i) r.id (length u.records) u.id_to_index (omega (arith, e, here, l, len))
          ∙ h.beyond i (omega (arith, l, len));
      named = get_elem?-push (λ i q. q.id ≡ suc i) u.records r h.named (omega (arith, e, here));
      no_original = get_elem?-push (λ i q. q.original_id ≡ 0) u.records r h.no_original o;
    }

-- A setter leaves the ids.
abbrev IsSetter : (Record → Record) → Type 0
IsSetter f = (r : Record) → ((f r).id ≡ r.id) × ((f r).original_id ≡ r.original_id)

-- After a write to one element, every element is an old one at its place, or the written one.
written_cases :
    (rs : List Record) (i : ℕ) (f : Record → Record) (j : ℕ) (r : Record)
    → get_elem? (modify_at i f rs) j ≡ some r
    → (get_elem? rs j ≡ some r) ⊎ ((q : Record) × (get_elem? rs j ≡ some q) × (f q ≡ r))
written_cases rs i f j r g = elim (Bool-cases (i == j)) [
  | inr n ↦ inl (sym (modify_at_past i j f rs (==→≢ i j n)) ∙ g)
  | inl y ↦
      let at_j =
        subst (λ k. get_elem? (modify_at k f rs) j ≡ Option.map f (get_elem? rs j))
          (sym (==→≡ i j y)) (modify_at_here j f rs) in
      elim (Option-cases (get_elem? rs j)) [
        | inl e ↦ absurd (ground (arith, at_j, e, g))
        | inr (q, e) ↦ inr (q, e, some_inj (f q) r (sym (at_j ∙ ap (Option.map f) e) ∙ g))
      ]
]

modify_at-IsIndexed :
    (u : SemanticUnit) (i : ℕ) (f : Record → Record)
    → IsSetter f
    → IsIndexed u
    → IsIndexed (record u { records = modify_at i f u.records })
modify_at-IsIndexed u i f keeps h =
    let len = length-modify_at i f u.records in
    record {
      next = omega (arith, len, h.next);
      no_zero = h.no_zero;
      found = λ j l. h.found j (omega (arith, len, l));
      beyond = λ j l. h.beyond j (omega (arith, len, l));
      named = λ j r g. elim (written_cases u.records i f j r g) [
        | inl old ↦ h.named j r old
        | inr (q, e, w) ↦ ap (λ p. p.id) (sym w) ∙ (keeps q).0 ∙ h.named j q e
      ];
      no_original = λ j r g. elim (written_cases u.records i f j r g) [
        | inl old ↦ h.no_original j r old
        | inr (q, e, w) ↦ ap (λ p. p.original_id) (sym w) ∙ (keeps q).1 ∙ h.no_original j q e
      ];
    }

pub set_record_unknown :
    (u : SemanticUnit) (id : ℕ) (f : Record → Record)
    → find id u.id_to_index ≡ none
    → set_record u id f ≡ (false, u)
unfolding set_record
set_record_unknown u id f e = rw (e, set_record) refl

pub set_record_known :
    (u : SemanticUnit) (id i : ℕ) (f : Record → Record)
    → find id u.id_to_index ≡ some i
    → set_record u id f ≡ (true, record u { records = modify_at i f u.records })
unfolding set_record
set_record_known u id i f e = rw (e, set_record) refl

set_record-IsIndexed :
    (u : SemanticUnit) (id : ℕ) (f : Record → Record)
    → IsSetter f
    → IsIndexed u
    → IsIndexed (set_record u id f).1
set_record-IsIndexed u id f keeps h = elim (Option-cases (find id u.id_to_index)) [
  | inl e ↦ rw (set_record_unknown u id f e) h
  | inr (i, e) ↦ rw (set_record_known u id i f e) (modify_at-IsIndexed u i f keeps h)
]

set_record-length :
    (u : SemanticUnit) (id : ℕ) (f : Record → Record)
    → length (set_record u id f).1.records ≡ length u.records
set_record-length u id f = elim (Option-cases (find id u.id_to_index)) [
  | inl e ↦ rw (set_record_unknown u id f e) refl
  | inr (i, e) ↦ rw (set_record_known u id i f e) (length-modify_at i f u.records)
]

push_record-small :
    (u : SemanticUnit) (r : Record)
    → length (push_record u r).1.records + 1 < 2 ^ 64
    → length u.records + 2 < 2 ^ 64
unfolding push_record
push_record-small u r h = omega (arith, h, length-append u.records (r ∷ []))

push-Built :
    (u : SemanticUnit) (r : Record)
    → r.id ≡ u.next_id
    → r.original_id ≡ 0
    → (length u.records + 1 < 2 ^ 64 → IsIndexed u)
    → length (push_record u r).1.records + 1 < 2 ^ 64
    → IsIndexed (push_record u r).1
push-Built u r e o h small =
    let below = push_record-small u r small in
    push_record-IsIndexed u r (h (omega (arith, below))) e o below

set-Built :
    (u : SemanticUnit) (id : ℕ) (f : Record → Record)
    → IsSetter f
    → (length u.records + 1 < 2 ^ 64 → IsIndexed u)
    → length (set_record u id f).1.records + 1 < 2 ^ 64
    → IsIndexed (set_record u id f).1
set-Built u id f keeps h small =
    set_record-IsIndexed u id f keeps (h (omega (arith, small, set_record-length u id f)))

-- Every unit that the visitors build, with fewer than 2^64 - 1 records, has the ids 1, 2, 3, … in
-- the order of its records, and its index holds each of them at its position and nothing else.
pub Built-IsIndexed : {u : SemanticUnit} → Built u → length u.records + 1 < 2 ^ 64 → IsIndexed u
unfolding set_file_path set_language fresh_record add_record add_typed_record set_call_reference
    set_call_kind set_call_strategy set_call_facts set_qualified_name
Built-IsIndexed Built.empty small = record {
  next = refl;
  no_zero = refl;
  found = λ i l. absurd (omega (arith, l));
  beyond = λ i l. refl;
  named = λ i r g. absurd (ground (arith, g));
  no_original = λ i r g. absurd (ground (arith, g));
}
Built-IsIndexed (Built.located path b) small =
    let h = Built-IsIndexed b small in
    record {
      next = h.next;
      no_zero = h.no_zero;
      found = h.found;
      beyond = h.beyond;
      named = h.named;
      no_original = h.no_original;
    }
Built-IsIndexed (Built.labelled lang b) small =
    let h = Built-IsIndexed b small in
    record {
      next = h.next;
      no_zero = h.no_zero;
      found = h.found;
      beyond = h.beyond;
      named = h.named;
      no_original = h.no_original;
    }
Built-IsIndexed (Built.added kind name parent_id loc arity is_static visibility b) small =
    push-Built _ _ refl refl (Built-IsIndexed b) small
Built-IsIndexed (Built.typed kind name type_name parent_id loc visibility b) small =
    push-Built _ _ refl refl (Built-IsIndexed b) small
Built-IsIndexed (Built.referenced id ref b) small =
    set-Built _ id _ (λ r. (refl, refl)) (Built-IsIndexed b) small
Built-IsIndexed (Built.classified id kind b) small =
    set-Built _ id _ (λ r. (refl, refl)) (Built-IsIndexed b) small
Built-IsIndexed (Built.decided id s b) small =
    set-Built _ id _ (λ r. (refl, refl)) (Built-IsIndexed b) small
Built-IsIndexed (Built.described id a t c d b) small =
    set-Built _ id _ (λ r. (refl, refl)) (Built-IsIndexed b) small
Built-IsIndexed (Built.qualified id s b) small =
    set-Built _ id _ (λ r. (refl, refl)) (Built-IsIndexed b) small

pub get_record_known :
    (u : SemanticUnit) (k i : ℕ)
    → find k u.id_to_index ≡ some i
    → get_record u k ≡ get_elem? u.records i
unfolding get_record
get_record_known u k i e = rw (e, get_record) refl

pub get_record_unknown :
    (u : SemanticUnit) (k : ℕ) → find k u.id_to_index ≡ none → get_record u k ≡ none
unfolding get_record
get_record_unknown u k e = rw (e, get_record) refl

-- Which ids a unit has.
pub index_cases :
    (u : SemanticUnit) (k : ℕ)
    → IsIndexed u
    → (find k u.id_to_index ≡ none)
      ⊎ ((i : ℕ) × (k ≡ suc i) × (i < length u.records) × (find k u.id_to_index ≡ some i))
index_cases u zero h = inl h.no_zero
index_cases u (suc i) h = elim (Bool-cases (ltb i (length u.records))) [
  | inl y ↦ inr (i, refl, ground arith, h.found i (ground arith))
  | inr n ↦ inl (h.beyond i (ground arith))
]

-- In a unit that the visitors build, with fewer than 2^64 - 1 records, `getRecord` finds every id
-- from 1 to the number of records, at the position that is one less, in a record with that id; and
-- it returns no record that has another id than the one asked for.
pub get_record_lem :
    {u : SemanticUnit}
    → Built u
    → length u.records + 1 < 2 ^ 64
    → ((i : ℕ) → i < length u.records → get_record u (suc i) ≡ get_elem? u.records i)
      × ((k : ℕ) (r : Record) → get_record u k ≡ some r → r.id ≡ k)
get_record_lem {u} b small =
    let h = Built-IsIndexed b small in
    (
      λ i l. get_record_known u (suc i) i (h.found i l),
      λ k r g. elim (index_cases u k h) [
        | inl e ↦ absurd (ground (arith, g, get_record_unknown u k e))
        | inr (i, e, l, f) ↦ h.named i r (sym (get_record_known u k i f) ∙ g) ∙ sym e
      ],
    )
