-- ===== src/Struc/Merge/Linked.antt =====
-- Merging two structures that point to others merges those.
use restruc.Hash.{word}
use restruc.Base.{
  ◌≤◌, ◌%◌, ◌+◌, ◌*◌, ℕ, suc, ◌<◌, ◌≡◌, refl, ap, ◌∙◌, arith, Bool, true, false, some, List, [],
  ◌∷◌, ◌==◌,
}
use restruc.Base.Run.{done}
use restruc.Struc.{pointer, type_is, offset_end, field_size, Field, Struc, backwards}
use restruc.Struc.Iterator.{
  Entry, Iterator, iterator_at, locate, upper_bound, upper_view, next, previous, at_entry,
  before_entry, moved,
}
use restruc.Struc.Iterator.Laws.{whole, locate-iterator_at, locate-upper_bound, upper_bound-whole}
use restruc.Struc.Merge.{
  Merging, merge, merge_loop, pointer_loop, perform, on_target, points_to, is_passed, fits, report,
}
use restruc.Struc.Merge.Flat.{
  AllFlat, entries_count, Merged, merge_all, enter-merge, merge_loop-flat, merge-flat_within,
}

==-false_sym : (a b : ℕ) → (a == b) ≡ false → (b == a) ≡ false
==-false_sym a b h = ground arith

-- The field is a pointer to structure `i`.
unfoldable pub PointsTo : Field → ℕ → Type 0
PointsTo f i = (f.type ≡ pointer) × (f.target ≡ some i)

-- The first of the entries, and with it all of them, is behind the offset.
unfoldable pub StartsBehind : ℕ → List Entry → Type 0
StartsBehind offset [] = Unit
StartsBehind offset ((o, f) ∷ l) = offset < o

points_to-some : (f : Field) (i : ℕ) → PointsTo f i → points_to f ≡ some i
unfolding PointsTo points_to type_is
points_to-some f i (is_pointer, target) = rw (is_pointer) target

backwards-first :
    (offset o : ℕ) (f : Field) (l : List Entry)
    → o ≤ offset
    → StartsBehind offset l
    → backwards offset ((o, f) ∷ l) [] ≡ (o, f) ∷ []
unfolding backwards StartsBehind
backwards-first offset o f [] le h = ground arith
backwards-first offset o f ((p, g) ∷ l) le h = ground arith

module _ (size_of : ℕ → ℕ) where
  reaches-not_passed :
      (offset o s : ℕ) (g : Field)
      → PointsTo g s
      → offset < (o + g.count * g.own_size) % word
      → is_passed size_of offset (o, g) ≡ false
  unfolding PointsTo is_passed offset_end field_size type_is
  reaches-not_passed offset o s g (is_pointer, target) h = rw (is_pointer) (ground arith)

  aligned-fits :
      (offset o s : ℕ) (g : Field)
      → o % 8 ≡ offset % 8
      → PointsTo g s
      → fits size_of offset (o, g) ≡ some s
  unfolding fits
  aligned-fits offset o s g h link = ground (arith, points_to-some g s link)

  loop_ends :
      (fuel dst src : ℕ) (it : Iterator) (before : List Entry) (m : Merging)
      → locate it (m.store src).fields ≡ some (before, [])
      → perform size_of (suc fuel) (merge_loop dst src it) m ≡ report size_of dst src m
  unfolding perform at_entry
  loop_ends fuel dst src it before m here = rw (here, perform) refl

  -- A field of the source is done with once the targets are merged; the loop goes on behind it.
  loop_goes_on :
      (fuel dst src t : ℕ) (it : Iterator) (e e' : Entry) (before from before' from' : List Entry)
      (m m' : Merging)
      → locate it (m.store src).fields ≡ some (before, e ∷ from)
      → points_to e.1 ≡ some t
      → perform size_of fuel (pointer_loop dst e.0 t (upper_bound e.0 (m.store dst).fields) false) m
        ≡ done (true, m')
      → locate it (m'.store src).fields ≡ some (before', e' ∷ from')
      → perform size_of (suc fuel) (merge_loop dst src it) m
        ≡ perform size_of fuel (merge_loop dst src (iterator_at (e' ∷ before', from'))) m'
  unfolding perform at_entry on_target next moved
  loop_goes_on fuel dst src t it e e' before from before' from' m m' here target merged still =
      rw (here, perform) (rw (target, perform) (rw (merged, perform) (rw (still, perform) refl)))

  targets_end :
      (fuel dst offset t : ℕ) (it : Iterator) (was_merged : Bool) (from : List Entry) (m : Merging)
      → locate it (m.store dst).fields ≡ some ([], from)
      → perform size_of (suc fuel) (pointer_loop dst offset t it was_merged) m
        ≡ done (was_merged, m)
  unfolding perform before_entry
  targets_end fuel dst offset t it was_merged from m here = rw (here, perform) refl

  -- The target of a field of the destination is merged; the loop goes on before that field.
  targets_go_on :
      (fuel dst offset s t : ℕ) (it : Iterator) (was_merged b : Bool) (e e' : Entry)
      (before from before' from' : List Entry) (m m' : Merging)
      → locate it (m.store dst).fields ≡ some (e ∷ before, from)
      → is_passed size_of offset e ≡ false
      → fits size_of offset e ≡ some s
      → perform size_of fuel (merge s t) m ≡ done (b, m')
      → locate it (m'.store dst).fields ≡ some (e' ∷ before', from')
      → perform size_of (suc fuel) (pointer_loop dst offset t it was_merged) m
        ≡ perform size_of fuel
            (pointer_loop dst offset t (iterator_at (before', e' ∷ from')) true)
            m'
  unfolding perform before_entry on_target previous moved
  targets_go_on fuel dst offset s t it was_merged b e e' before from before' from' m m' here
        open_end fit merged still =
      rw (here, perform)
        (rw (open_end, perform)
          (rw (fit, perform) (rw (merged, perform) (rw (still, perform) refl))))

  -- Two structures that point to others, with what the tests of the code say of them.
  merge-linked_tested :
      (fuel dst src s t offset : ℕ) (f : Field) (e : Entry) (rest : List Entry) (m : Merging)
      → (dst == src) ≡ false
      → (src == dst) ≡ false
      → (s == t) ≡ false
      → (t == s) ≡ false
      → (dst == s) ≡ false
      → (src == s) ≡ false
      → (m.store src).fields ≡ (offset, f) ∷ rest
      → points_to f ≡ some t
      → AllFlat rest
      → AllFlat (m.store t).fields
      → backwards offset (m.store dst).fields [] ≡ e ∷ []
      → is_passed size_of offset e ≡ false
      → fits size_of offset e ≡ some s
      → entries_count rest < fuel
      → entries_count (m.store t).fields < fuel
      → (m' : Merging) × (perform size_of (suc (suc (suc (suc fuel)))) (merge dst src) m
          ≡ done (true, m'))
        × (m'.store s ≡ merge_all size_of (m.store t).fields (m.store s))
        × (m'.store dst ≡ merge_all size_of rest (m.store dst))
        × ((i : ℕ) → (i == dst) ≡ false → (i == s) ≡ false → m'.store i ≡ m.store i)
        × (m'.merged ≡ (dst, src) ∷ (s, t) ∷ m.merged)
  unfolding whole Merged
  merge-linked_tested fuel dst src s t offset f e rest m other other' apart apart' dst_apart
        src_apart fields target flat flat_target back open_end fit enough enough_target =
      let source = iterator_at ([], (offset, f) ∷ rest) in
      let targets = upper_bound offset (m.store dst).fields in
      let behind = (upper_view offset [] (m.store dst).fields).1 in
      let inner = merge-flat_within size_of fuel s t m enough_target apart apart' flat_target in
      let m₁ = inner.0 in
      let src_kept : (m₁.store src).fields ≡ (offset, f) ∷ rest =
        ap Struc.fields (inner.2.1 src src_apart) ∙ fields in
      let dst_kept : (m₁.store dst).fields ≡ (m.store dst).fields =
        ap Struc.fields (inner.2.1 dst dst_apart) in
      let at_source : locate source ((offset, f) ∷ rest) ≡ some ([], (offset, f) ∷ rest) =
        locate-iterator_at ([], (offset, f) ∷ rest) in
      let at_target : locate targets (m.store dst).fields ≡ some (e ∷ [], behind) =
        locate-upper_bound offset (m.store dst).fields ∙ ap (λ b. some (b, behind)) back in
      let listed : (m₁.store dst).fields ≡ e ∷ behind =
        dst_kept ∙ upper_bound-whole offset (m.store dst).fields (e ∷ []) back in
      let at_first : locate (iterator_at ([], e ∷ behind)) (m₁.store dst).fields
          ≡ some ([], e ∷ behind) =
        ap (locate (iterator_at ([], e ∷ behind))) listed ∙ locate-iterator_at ([], e ∷ behind) in
      let pointers =
        targets_go_on (suc fuel) dst offset s t targets false true e e [] behind [] behind m m₁
          at_target open_end fit inner.1 (ap (locate targets) dst_kept ∙ at_target)
        ∙ targets_end fuel dst offset t (iterator_at ([], e ∷ behind)) true (e ∷ behind) m₁
            at_first in
      let last =
        merge_loop-flat size_of (suc (suc fuel)) dst src ((offset, f) ∷ []) rest m₁ (omega arith)
          other' flat src_kept in
      (
        last.0,
        enter-merge size_of (suc (suc (suc fuel))) dst src m other
            ∙ ap
                (λ l.
                  perform size_of (suc (suc (suc fuel))) (merge_loop dst src (iterator_at ([], l)))
                    m)
                fields
            ∙ loop_goes_on (suc (suc fuel)) dst src t source (offset, f) (offset, f) [] rest [] rest
                m m₁ (ap (locate source) fields ∙ at_source) target pointers
                (ap (locate source) src_kept ∙ at_source)
            ∙ last.1,
        last.3 s (==-false_sym dst s dst_apart) ∙ inner.2.0,
        last.2 ∙ ap (merge_all size_of rest) (inner.2.1 dst dst_apart),
        λ i h k. last.3 i h ∙ inner.2.1 i k,
        last.4 ∙ ap (λ l. (dst, src) ∷ l) inner.2.2,
      )

  -- One structure is merged into a different one. The first field of the source points to `t`, and its
  -- others to no structure. The first field of the destination is at or before that offset, ends behind
  -- it, has the same offset modulo 8 and points to `s`, which is none of `t` and the two that are merged;
  -- the next one is behind that offset. Where `t` points to no structure, the merge returns, with four
  -- steps more than any number greater than the fields of `t` and than the source's others: `t` is merged
  -- into `s`, the pointer itself is not added to the destination, the other fields of the source are,
  -- nothing else changes, and the callback is called for `s` and `t` first.
  pub merge-linked :
      (fuel dst src s t offset o : ℕ) (f g : Field) (rest behind : List Entry) (m : Merging)
      → (dst == src) ≡ false
      → (s == t) ≡ false
      → (dst == s) ≡ false
      → (src == s) ≡ false
      → (m.store src).fields ≡ (offset, f) ∷ rest
      → PointsTo f t
      → AllFlat rest
      → AllFlat (m.store t).fields
      → (m.store dst).fields ≡ (o, g) ∷ behind
      → StartsBehind offset behind
      → PointsTo g s
      → o ≤ offset
      → offset < (o + g.count * g.own_size) % word
      → o % 8 ≡ offset % 8
      → entries_count rest < fuel
      → entries_count (m.store t).fields < fuel
      → (m' : Merging) × (perform size_of (suc (suc (suc (suc fuel)))) (merge dst src) m
          ≡ done (true, m'))
        × (m'.store s ≡ merge_all size_of (m.store t).fields (m.store s))
        × (m'.store dst ≡ merge_all size_of rest (m.store dst))
        × ((i : ℕ) → (i == dst) ≡ false → (i == s) ≡ false → m'.store i ≡ m.store i)
        × (m'.merged ≡ (dst, src) ∷ (s, t) ∷ m.merged)
  merge-linked fuel dst src s t offset o f g rest behind m other apart dst_apart src_apart fields
        target flat flat_target listed starts link before reaches aligned enough enough_target =
      merge-linked_tested fuel dst src s t offset f (o, g) rest m other (==-false_sym dst src other)
        apart (==-false_sym s t apart) dst_apart src_apart fields (points_to-some f t target) flat
        flat_target
        (ap (λ l. backwards offset l []) listed ∙ backwards-first offset o g behind before starts)
        (reaches-not_passed offset o s g link reaches) (aligned-fits offset o s g aligned link)
        enough enough_target
