-- ===== src/Struc/Merge/Flat.antt =====
-- Merging a structure that points to no structure ends, and merges its fields one by one.
use restruc.Base.{
  ℕ, zero, suc, ◌<◌, ◌≡◌, refl, ap, ◌∙◌, arith, true, false, none, some, List, [], ◌∷◌, ◌==◌,
  ==_refl,
}
use restruc.Base.Run.{done}
use restruc.Struc.{Field, Struc, merge_fields}
use restruc.Struc.Iterator.{Entry, iterator_at, locate, first_of, next, at_entry, moved}
use restruc.Struc.Iterator.Laws.{whole, locate-iterator_at}
use restruc.Struc.Merge.{
  Merging, merge, merge_loop, perform, on_target, points_to, write, merge_entry, report,
}

abbrev pub AllFlat : List Entry → Type 0
AllFlat [] = Unit
AllFlat (e ∷ es) = (points_to e.1 ≡ none) × AllFlat es

unfoldable pub entries_count : List Entry → ℕ
entries_count [] = 0
entries_count (e ∷ es) = suc (entries_count es)

module _ (size_of : ℕ → ℕ) where
  -- `merge_fields` of each entry in turn.
  merge_entries : ℕ → List Entry → Merging → Merging
  merge_entries dst [] m = m
  merge_entries dst (e ∷ es) m = merge_entries dst es (merge_entry size_of dst e m)

  merge_entry-other :
      (dst src : ℕ) (e : Entry) (m : Merging)
      → (src == dst) ≡ false
      → (merge_entry size_of dst e m).store src ≡ m.store src
  unfolding merge_entry write
  merge_entry-other dst src (o, f) m h = rw h refl

  -- From a place among the fields of the source on.
  merge_loop-entries :
      (fuel dst src : ℕ) (before rest : List Entry) (m : Merging)
      → entries_count rest < fuel
      → (src == dst) ≡ false
      → AllFlat rest
      → (m.store src).fields ≡ whole (before, rest)
      → perform size_of fuel (merge_loop dst src (iterator_at (before, rest))) m
        ≡ report size_of dst src (merge_entries dst rest m)
  unfolding perform entries_count merge_entries at_entry on_target moved next whole
  merge_loop-entries zero dst src before rest m enough other flat fields = absurd (omega arith)
  merge_loop-entries (suc fuel) dst src before [] m enough other flat fields =
      let here : locate (iterator_at (before, [])) (m.store src).fields ≡ some (before, []) =
        ap (locate (iterator_at (before, []))) fields ∙ locate-iterator_at (before, []) in
      rw (here, perform) refl
  merge_loop-entries (suc fuel) dst src before (e ∷ rest) m enough other flat fields =
      let it = iterator_at (before, e ∷ rest) in
      let here : locate it (m.store src).fields ≡ some (before, e ∷ rest) =
        ap (locate it) fields ∙ locate-iterator_at (before, e ∷ rest) in
      let m' = merge_entry size_of dst e m in
      let kept : (m'.store src).fields ≡ (m.store src).fields =
        ap Struc.fields (merge_entry-other dst src e m other) in
      let still : locate it (m'.store src).fields ≡ some (before, e ∷ rest) =
        ap (locate it) kept ∙ here in
      rw (here, perform)
        (rw (flat.0, perform)
          (rw (still, perform)
            (merge_loop-entries fuel dst src (e ∷ before) rest m' (omega arith) other flat.1
              (kept ∙ fields))))

  pub enter-merge :
      (fuel dst src : ℕ) (m : Merging)
      → (dst == src) ≡ false
      → perform size_of (suc fuel) (merge dst src) m
        ≡ perform size_of fuel (merge_loop dst src (iterator_at ([], (m.store src).fields))) m
  unfolding perform first_of
  enter-merge fuel dst src m other = rw other refl

  -- The fields go into a structure one after the other.
  unfoldable pub merge_all : List Entry → Struc → Struc
  merge_all [] s = s
  merge_all ((o, f) ∷ es) s = merge_all es (merge_fields size_of o f s)

  merge_entry-own :
      (dst : ℕ) (o : ℕ) (f : Field) (m : Merging)
      → (merge_entry size_of dst (o, f) m).store dst ≡ merge_fields size_of o f (m.store dst)
  unfolding merge_entry write
  merge_entry-own dst o f m = rw (==_refl dst) refl

  merge_entries-own :
      (dst : ℕ) (es : List Entry) (m : Merging)
      → (merge_entries dst es m).store dst ≡ merge_all es (m.store dst)
  unfolding merge_entries merge_all
  merge_entries-own dst [] m = refl
  merge_entries-own dst ((o, f) ∷ es) m =
      merge_entries-own dst es (merge_entry size_of dst (o, f) m)
      ∙ ap (merge_all es) (merge_entry-own dst o f m)

  merge_entries-others :
      (dst i : ℕ) (es : List Entry) (m : Merging)
      → (i == dst) ≡ false
      → (merge_entries dst es m).store i ≡ m.store i
  unfolding merge_entries
  merge_entries-others dst i [] m h = refl
  merge_entries-others dst i (e ∷ es) m h =
      merge_entries-others dst i es (merge_entry size_of dst e m) h ∙ merge_entry-other dst i e m h

  merge_entries-merged :
      (dst : ℕ) (es : List Entry) (m : Merging) → (merge_entries dst es m).merged ≡ m.merged
  unfolding merge_entries merge_entry
  merge_entries-merged dst [] m = refl
  merge_entries-merged dst ((o, f) ∷ es) m =
      merge_entries-merged dst es (merge_entry size_of dst (o, f) m)

  -- What a merge leaves behind: the fields of the source went through `merge_fields` of the destination
  -- in their order, no other structure changed, and the callback was called for the two.
  unfoldable pub Merged : ℕ → ℕ → Merging → Merging → Type 0
  Merged dst src m m' =
      (m'.store dst ≡ merge_all (m.store src).fields (m.store dst))
      × ((i : ℕ) → (i == dst) ≡ false → m'.store i ≡ m.store i)
      × (m'.merged ≡ (dst, src) ∷ m.merged)

  -- The loop of `merge` over fields none of which points to a structure.
  pub merge_loop-flat :
      (fuel dst src : ℕ) (before rest : List Entry) (m : Merging)
      → entries_count rest < fuel
      → (src == dst) ≡ false
      → AllFlat rest
      → (m.store src).fields ≡ whole (before, rest)
      → (m' : Merging) × (perform size_of fuel (merge_loop dst src (iterator_at (before, rest))) m
          ≡ done (true, m'))
        × (m'.store dst ≡ merge_all rest (m.store dst))
        × ((i : ℕ) → (i == dst) ≡ false → m'.store i ≡ m.store i)
        × (m'.merged ≡ (dst, src) ∷ m.merged)
  unfolding report
  merge_loop-flat fuel dst src before rest m enough other flat fields =
      let m' = merge_entries dst rest m in
      (
        record m' { merged = (dst, src) ∷ m'.merged },
        merge_loop-entries fuel dst src before rest m enough other flat fields,
        merge_entries-own dst rest m,
        λ i h. merge_entries-others dst i rest m h,
        ap (λ l. (dst, src) ∷ l) (merge_entries-merged dst rest m),
      )

  -- With any number of steps that is enough.
  pub merge-flat_within :
      (fuel dst src : ℕ) (m : Merging)
      → entries_count (m.store src).fields < fuel
      → (dst == src) ≡ false
      → (src == dst) ≡ false
      → AllFlat (m.store src).fields
      → (m' : Merging) × (perform size_of (suc fuel) (merge dst src) m ≡ done (true, m'))
        × Merged dst src m m'
  unfolding Merged whole
  merge-flat_within fuel dst src m enough other other' flat =
      let l = merge_loop-flat fuel dst src [] (m.store src).fields m enough other' flat refl in
      (l.0, enter-merge fuel dst src m other ∙ l.1, (l.2, l.3, l.4))

  -- A structure none of whose fields points to a structure is merged into another one in as many
  -- steps as it has fields and two: each of its fields goes through `merge_fields` of the destination
  -- once, in order, no other structure changes, and the callback is called once.
  pub merge-flat :
      (dst src : ℕ) (m : Merging)
      → (dst == src) ≡ false
      → (src == dst) ≡ false
      → AllFlat (m.store src).fields
      → (m' : Merging) × (perform size_of
            (suc (suc (entries_count (m.store src).fields)))
            (merge dst src)
            m
          ≡ done (true, m'))
        × Merged dst src m m'
  merge-flat dst src m other other' flat =
      merge-flat_within (suc (entries_count (m.store src).fields)) dst src m (omega arith) other
        other' flat
