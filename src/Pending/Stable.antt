-- ===== src/Pending/Stable.antt =====
-- node/pendingBlocksManager.js: which block of a path is stable, and what merging patches gathers.
use cil_core.Base.{
  ℕ, ◌≤◌, ◌<◌, ◌≡◌, refl, sym, ap, ◌∙◌, ◌⊎◌, inl, inr, false, Option, none, some, List, [], ◌∷◌,
  ◌++◌, arith, leb, Bool-cases, Option-cases, length, contains, contains-append, unique,
  unique_after, append_assoc, append_nil, ok, Result-cases, >>=-eq-ok,
}
use cil_core.Patch
use cil_core.Patch.{PatchDb, Codec}
use cil_core.Patch.Merge
use cil_core.Pending.Types.{Entry}
use cil_core.Pending.{
  concilia_on, add_to_set, top_stable_from, find_top_stable_for_path, merge_strict, merge_gathering,
  merge_patches,
}

-- The concilia seen after a path, from those seen before.
seen_after : (ℕ → Option Entry) → List ℕ → List ℕ → List ℕ
seen_after read [] seen = seen
seen_after read (v ∷ vs) seen =
    seen_after read vs
      (elim (read v) [ none ↦ seen | some e ↦ add_to_set seen e.block_header.concilium_id ])

-- A search that starts with too few concilia stops where there are enough, and only there.
search :
    (read : ℕ → Option Entry) (need : ℕ) (path seen : List ℕ)
    → length seen < need
    → ((top_stable_from read need path seen ≡ none) × (length (seen_after read path seen) < need))
      ⊎ ((above rest : List ℕ) × (v : ℕ) × (top_stable_from read need path seen ≡ some v)
          × (path ≡ above ++ v ∷ rest)
          × (length (seen_after read above seen) < need)
          × (need ≤ length (seen_after read (above ++ v ∷ []) seen)))
unfolding top_stable_from seen_after
search read need [] seen few = inl (refl, few)
search read need (v ∷ vs) seen few = elim (Option-cases (read v)) [
  | inl e ↦ elim (search read need vs seen few) [
    | inl (none_found, less) ↦ inl (rw (e, top_stable_from) none_found, rw (e, seen_after) less)
    | inr (above, rest, w, found, split, less, enough) ↦ inr (
      v ∷ above,
      rest,
      w,
      rw (e, top_stable_from) found,
      ap (λ l. v ∷ l) split,
      rw (e, seen_after) less,
      rw (e, seen_after) enough,
    )
  ]
  | inr (b, e) ↦
      elim (Bool-cases (leb need (length (add_to_set seen b.block_header.concilium_id)))) [
        | inl f ↦ inr (
          [],
          vs,
          v,
          rw (e, f, top_stable_from) refl,
          refl,
          few,
          rw (e, seen_after) (ground (arith, f)),
        )
        | inr f ↦
            elim (search read need vs (add_to_set seen b.block_header.concilium_id)
              (ground (arith, f))) [
                | inl (none_found, less) ↦
                    inl (rw (e, f, top_stable_from) none_found, rw (e, seen_after) less)
                | inr (above, rest, w, found, split, less, enough) ↦ inr (
                  v ∷ above,
                  rest,
                  w,
                  rw (e, f, top_stable_from) found,
                  ap (λ l. v ∷ l) split,
                  rw (e, seen_after) less,
                  rw (e, seen_after) enough,
                )
              ]
      ]
]

unique_after-cong :
    (s t xs : List ℕ)
    → ((a : ℕ) → contains s a ≡ contains t a)
    → unique_after s xs ≡ unique_after t xs
unique_after-cong s t [] same = refl
unique_after-cong s t (x ∷ xs) same = ground (
  arith,
  same x,
  unique_after-cong s t xs same,
  unique_after-cong (x ∷ s) (x ∷ t) xs (λ a. ground (arith, same a)),
)

-- The loop's set is that of the concilia of the path.
seen_after_unique :
    (read : ℕ → Option Entry) (path seen : List ℕ)
    → seen_after read path seen ≡ seen ++ unique_after seen (concilia_on read path)
unfolding seen_after concilia_on add_to_set
seen_after_unique read [] seen = sym (append_nil seen)
seen_after_unique read (v ∷ vs) seen = elim (Option-cases (read v)) [
  | inl e ↦ rw (e, seen_after, concilia_on) (seen_after_unique read vs seen)
  | inr (b, e) ↦ elim (Bool-cases (contains seen b.block_header.concilium_id)) [
    | inl f ↦ rw (e, f, seen_after, concilia_on) (seen_after_unique read vs seen)
    | inr f ↦
        let x = b.block_header.concilium_id in
        let swap =
          unique_after-cong (seen ++ x ∷ []) (x ∷ seen) (concilia_on read vs)
            (λ a. ground (arith, contains-append seen (x ∷ []) a)) in
        rw (e, f, seen_after, concilia_on)
          (seen_after_unique read vs (seen ++ x ∷ [])
            ∙ append_assoc seen (x ∷ []) _
            ∙ ap (λ l. seen ++ x ∷ l) swap)
  ]
]

-- How many different concilia have a block on a path.
unfoldable pub witnesses_on : (ℕ → Option Entry) → List ℕ → ℕ
witnesses_on read path = length (unique (concilia_on read path))

-- On a path, a needed number of concilia, at least one, is reached at the block that the search gives: with that block there are enough different ones, with those above it alone there are too few; and the search gives none exactly where the whole path has too few.
pub find_top_stable_for_path-witnesses_on :
    (read : ℕ → Option Entry) (need : ℕ) (path : List ℕ)
    → 0 < need
    → ((find_top_stable_for_path read need path ≡ none) × (witnesses_on read path < need))
      ⊎ ((above rest : List ℕ) × (v : ℕ) × (find_top_stable_for_path read need path ≡ some v)
          × (path ≡ above ++ v ∷ rest)
          × (witnesses_on read above < need)
          × (need ≤ witnesses_on read (above ++ v ∷ [])))
unfolding find_top_stable_for_path witnesses_on
find_top_stable_for_path-witnesses_on read need path some_needed =
    elim (search read need path [] some_needed) [
      | inl (none_found, less) ↦ inl (none_found, rw (seen_after_unique read path []) at less)
      | inr (above, rest, v, found, split, less, enough) ↦ inr (
        above,
        rest,
        v,
        found,
        split,
        rw (seen_after_unique read above []) at less,
        rw (seen_after_unique read (above ++ v ∷ []) []) at enough,
      )
    ]

merge_strict-append :
    (codec : Codec) (read : ℕ → Option Entry) (vs : List ℕ) (w : ℕ) (b : Entry)
    (start merged merged' : PatchDb)
    → merge_strict codec read vs start ≡ ok merged
    → read w ≡ some b
    → Patch.Merge.merge codec b.patch merged false ≡ ok merged'
    → merge_strict codec read (vs ++ w ∷ []) start ≡ ok merged'
unfolding merge_strict
merge_strict-append codec read [] w b start merged merged' e held run =
    let same : start ≡ merged = ground (arith, e) in rw (held, merge_strict) (rw (same, run) refl)
merge_strict-append codec read (v ∷ vs) w b start merged merged' e held run =
    elim (Option-cases (read v)) [
      | inl f ↦
          rw (f, merge_strict)
            (merge_strict-append codec read vs w b start merged merged' (rw (f, merge_strict) at e)
              held run)
      | inr (c, f) ↦
          let (between, e1, e2) =
            >>=-eq-ok (Patch.Merge.merge codec c.patch start false) (merge_strict codec read vs)
              (rw (f, merge_strict) at e) in
          rw (f, e1, merge_strict)
            (merge_strict-append codec read vs w b between merged merged' e2 held run)
    ]

gathered :
    (codec : Codec) (read : ℕ → Option Entry) (vs done : List ℕ) (start merged : PatchDb)
    → merge_strict codec read done start ≡ ok merged
    → merge_strict codec read (merge_gathering codec read vs merged done).1 start
      ≡ ok (merge_gathering codec read vs merged done).0
unfolding merge_gathering
gathered codec read [] done start merged e = e
gathered codec read (v ∷ vs) done start merged e = elim (Option-cases (read v)) [
  | inl f ↦ rw (f, merge_gathering) (gathered codec read vs done start merged e)
  | inr (b, f) ↦ elim (Result-cases (Patch.Merge.merge codec b.patch merged false)) [
    | inr (_, g) ↦ rw (f, g, merge_gathering) (gathered codec read vs done start merged e)
    | inl (merged', g) ↦
        rw (f, g, merge_gathering)
          (gathered codec read vs (done ++ v ∷ []) start merged'
            (merge_strict-append codec read done v b start merged merged' e f g))
  ]
]

-- Whatever tips are gathered as parents, the merge that validates a block with exactly those parents, in that order, succeeds, and gives the very patch that was gathered.
pub merge_gathering-merge_patches :
    (codec : Codec) (read : ℕ → Option Entry) (tips : List ℕ)
    → let gathered = merge_gathering codec read tips Patch.empty [] in
      merge_patches codec read gathered.1 ≡ ok gathered.0
unfolding merge_patches merge_strict
merge_gathering-merge_patches codec read tips =
    gathered codec read tips [] Patch.empty Patch.empty refl
