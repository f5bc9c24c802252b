-- ===== src/Resolver/Fuzzy/Scan.antt =====
-- The binary search of an index against the linear scan with LIKE.
use code_scope.Prelude.{
  ℕ, zero, suc, ◌+◌, ◌≤◌, ◌<◌, true, false, some, List, [], ◌∷◌, ◌++◌, Bytes, take, length, map,
  ltb, leb, if◌then◌else◌, All, ◌≡◌, refl, sym, ap, ◌∙◌, subst, inl, inr, Bool-cases, arith,
}
use code_scope.Resolver.Text.{starts_with}
use code_scope.Resolver.Like.{percent, sqlite_like_match}
use code_scope.Resolver.Fuzzy.{
  EntityName, Entry, fold_name, backwards, insert_id, sort_ids, sort_entries, load_rows,
  prefix_entry, suffix_entry, load_entities, has_wildcard, scan_like, search_index, resolve_prefix,
  resolve_suffix,
}
use code_scope.Resolver.Fuzzy.Sorted.{
  starting, sort_entries-IsSorted, lower_bound-starting, starting-sort_entries,
}
use code_scope.Resolver.Fuzzy.Matches.{
  has_wildcard-IsPlain, sqlite_like_match-prefix, sqlite_like_match-suffix,
}

-- The rows come in the order of their ids.
abbrev pub IsAscending : List (ℕ × Bytes) → Type 0
IsAscending [] = Unit
IsAscending (r ∷ rows) = All (λ q. r.0 < q.0) rows × IsAscending rows

abbrev AreAscending : List Entry → Type 0
AreAscending [] = Unit
AreAscending (e ∷ es) = All (λ d. e.1 < d.1) es × AreAscending es

insert_id_below : (a : ℕ) (bs : List ℕ) → All (λ b. a < b) bs → insert_id a bs ≡ a ∷ bs
unfolding insert_id
insert_id_below a [] h = refl
insert_id_below a (b ∷ bs) h = ground (arith, h.0)

All-starting :
    (a : ℕ) (p : Bytes) (es : List Entry) → All (λ d. a < d.1) es → All (λ b. a < b) (starting p es)
unfolding starting
All-starting a p [] h = tt
All-starting a p (e ∷ es) h = elim (Bool-cases (starts_with p e.0)) [
  | inl y ↦ rw y (h.0, All-starting a p es h.1)
  | inr n ↦ rw n (All-starting a p es h.1)
]

-- Ids that ascend are sorted already.
sort_ids-starting :
    (p : Bytes) (es : List Entry) → AreAscending es → sort_ids (starting p es) ≡ starting p es
unfolding starting sort_ids
sort_ids-starting p [] h = refl
sort_ids-starting p (e ∷ es) h = elim (Bool-cases (starts_with p e.0)) [
  | inr n ↦ rw n (sort_ids-starting p es h.1)
  | inl y ↦ rw y (
      ap (insert_id e.1) (sort_ids-starting p es h.1)
      ∙ insert_id_below e.1 (starting p es) (All-starting e.1 p es h.0))
]

search_index-starting :
    (p : Bytes) (limit : ℕ) (es : List Entry)
    → AreAscending es
    → search_index p limit (sort_entries es) ≡ take limit (starting p es)
unfolding search_index
search_index-starting p limit es h =
    ap (λ ids. take limit (sort_ids ids))
      (lower_bound-starting p (sort_entries es) (sort_entries-IsSorted es))
    ∙ ap (take limit) (starting-sort_entries p es ∙ sort_ids-starting p es h)

at_limit : (limit found : ℕ) → limit ≡ found + 1 → leb limit (found + 1) ≡ true
at_limit limit found h = ground (arith, h)

below_limit :
    (limit found room : ℕ) → limit ≡ found + suc (suc room) → leb limit (found + 1) ≡ false
below_limit limit found room h = ground (arith, h)

-- After a match: the end at the limit, or the scan of the rest.
scan_tail :
    (limit found room : ℕ) (rest ids : List ℕ)
    → ((r : ℕ) → limit ≡ (found + 1) + suc r → rest ≡ take (suc r) ids)
    → limit ≡ found + suc room
    → (if leb limit (found + 1) then [] else rest) ≡ take room ids
scan_tail limit found zero rest ids more h = rw (at_limit limit found h) refl
scan_tail limit found (suc room) rest ids more h =
    rw (below_limit limit found room h) (more room (omega (arith, h)))

-- The scan with a pattern that compares the names of the entries.
scan_like-starting :
    (pattern p : Bytes) (entry : EntityName → Entry) (limit found room : ℕ) (es : List EntityName)
    → ((e : EntityName) → sqlite_like_match pattern e.raw ≡ some (starts_with p (entry e).0))
    → ((e : EntityName) → (entry e).1 ≡ e.id)
    → limit ≡ found + suc room
    → scan_like pattern limit found es ≡ take (suc room) (starting p (map entry es))
unfolding scan_like starting
scan_like-starting pattern p entry limit found room [] m i h = refl
scan_like-starting pattern p entry limit found room (e ∷ es) m i h =
    elim (Bool-cases (starts_with p (entry e).0)) [
      | inr n ↦
          rw (m e ∙ ap some n, n, scan_like)
            (scan_like-starting pattern p entry limit found room es m i h)
      | inl y ↦
          rw (m e ∙ ap some y, y, i e, scan_like)
            (ap (λ r. e.id ∷ r)
              (scan_tail limit found room (scan_like pattern limit (found + 1) es)
                (starting p (map entry es))
                (λ r q. scan_like-starting pattern p entry limit (found + 1) r es m i q) h))
    ]

All-load_rows :
    (f : EntityName → Entry) (a : ℕ) (rows : List (ℕ × Bytes))
    → ((e : EntityName) → (f e).1 ≡ e.id)
    → All (λ q. a < q.0) rows
    → All (λ d. a < d.1) (map f (load_rows rows))
unfolding load_rows
All-load_rows f a [] i h = tt
All-load_rows f a ((id, []) ∷ rows) i h = All-load_rows f a rows i h.1
All-load_rows f a ((id, c ∷ s) ∷ rows) i h = (
  subst (λ k. a < k) (sym (i (record { id = id; raw = c ∷ s }))) h.0,
  All-load_rows f a rows i h.1,
)

load_rows-AreAscending :
    (f : EntityName → Entry) (rows : List (ℕ × Bytes))
    → ((e : EntityName) → (f e).1 ≡ e.id)
    → IsAscending rows
    → AreAscending (map f (load_rows rows))
unfolding load_rows
load_rows-AreAscending f [] i h = tt
load_rows-AreAscending f ((id, []) ∷ rows) i h = load_rows-AreAscending f rows i h.1
load_rows-AreAscending f ((id, c ∷ s) ∷ rows) i h = (
  subst (λ k. All (λ d. k < d.1) (map f (load_rows rows)))
      (sym (i (record { id = id; raw = c ∷ s }))) (All-load_rows f id rows i h.0),
  load_rows-AreAscending f rows i h.1,
)

-- One index: the search finds what the scan finds.
search_index-scan_like :
    (pattern p : Bytes) (f : EntityName → Entry) (limit : ℕ) (rows : List (ℕ × Bytes))
    → ((e : EntityName) → sqlite_like_match pattern e.raw ≡ some (starts_with p (f e).0))
    → ((e : EntityName) → (f e).1 ≡ e.id)
    → IsAscending rows
    → 1 ≤ limit
    → search_index p limit (sort_entries (map f (load_rows rows)))
      ≡ scan_like pattern limit 0 (load_rows rows)
search_index-scan_like pattern p f zero rows m i h l = absurd (omega (arith, l))
search_index-scan_like pattern p f (suc room) rows m i h l =
    search_index-starting p (suc room) (map f (load_rows rows)) (load_rows-AreAscending f rows i h)
    ∙ sym (scan_like-starting pattern p f (suc room) 0 room (load_rows rows) m i (omega arith))

-- For names of at least three bytes, a limit of at least 1 and rows in the order of their ids:
-- `resolvePrefix` and `resolveSuffix`, which search a sorted index if the name has no wildcard, give
-- what the scan of the rows with LIKE gives, a `%` behind or in front of the name, up to the limit.
pub resolve_prefix-scan_like :
    (rows : List (ℕ × Bytes)) (name : Bytes) (limit : ℕ)
    → IsAscending rows
    → 3 ≤ length name
    → 1 ≤ limit
    → (resolve_prefix (load_entities rows) name limit
        ≡ scan_like (name ++ percent ∷ []) limit 0 (load_rows rows))
      × (resolve_suffix (load_entities rows) name limit
          ≡ scan_like (percent ∷ name) limit 0 (load_rows rows))
unfolding resolve_prefix resolve_suffix load_entities prefix_entry suffix_entry
resolve_prefix-scan_like rows name limit h three l =
    let long : ltb (length name) 3 ≡ false = ground (arith, three) in
    elim (Bool-cases (has_wildcard name)) [
      | inl y ↦ (rw (long, y) refl, rw (long, y) refl)
      | inr n ↦
          let plain = has_wildcard-IsPlain name n in
          (
            rw (long, n)
                (search_index-scan_like (name ++ percent ∷ []) (fold_name name) prefix_entry limit
                  rows (λ e. sqlite_like_match-prefix name e.raw plain) (λ e. refl) h l),
            rw (long, n)
                (search_index-scan_like (percent ∷ name) (backwards (fold_name name)) suffix_entry
                  limit rows (λ e. sqlite_like_match-suffix name e.raw plain) (λ e. refl) h l),
          )
    ]
