-- ===== src/Struc/Merge.antt =====
-- struc.cxx, `merge` and `try_merge_struc_field_at_offset`: a structure is merged into another, and
-- with it the structures that both point to. Pointers to structures are numbers; the store says what
-- each number stands for. No code adds a field of structure type, so `size_of` is never asked here.
pub mod Keeps
pub mod Endless
pub mod Flat
pub mod Linked
use restruc.Base.{
  ℕ, zero, suc, ◌%◌, Bool, true, false, not, ◌&&◌, ◌||◌, Option, none, some, List, [], ◌∷◌, ◌++◌,
  if◌then◌else◌, leb, ◌==◌,
}
use restruc.Base.Run.{Run, done, fault, out_of_fuel, ◌>>=◌}
use restruc.Struc.Iterator.{
  Entry, Iterator, locate, first_of, upper_bound, next, previous, at_entry, before_entry, moved,
}
use restruc.Struc.{
  Field, Struc, pointer, type_is, same_target, has_target, backwards, offset_end, merge_fields,
}

abbrev pub Store : Type 0
Store = ℕ → Struc

unfoldable pub write : ℕ → Struc → Store → Store
write i s store j = if j == i then s else store j

-- The structures, and the calls of `merge_callback`, the last one first.
pub record Merging : Type 0 where
  pub store : Store
  pub merged : List (ℕ × ℕ)

-- A pointer to a structure.
unfoldable pub points_to : Field → Option ℕ
points_to f = if type_is f.type pointer then f.target else none

-- The calls that are going on: of `merge`, of its loop, and of the loop of
-- `try_merge_struc_field_at_offset`, whose reverse iterator stands behind the entry at which it looks.
pub data Task : Type 0 where
  merge : ℕ → ℕ → Task
  merge_loop : ℕ → ℕ → Iterator → Task
  pointer_loop : ℕ → ℕ → ℕ → Iterator → Bool → Task

abbrev pub Outcome : Type 0
Outcome = Run (Bool × Merging)

unfoldable pub on_target : Option ℕ → Outcome → (ℕ → Outcome) → Outcome
on_target none otherwise k = otherwise
on_target (some t) otherwise k = k t

module _ (size_of : ℕ → ℕ) where
  -- The field of the source goes to the destination as a field.
  unfoldable pub merge_entry : ℕ → Entry → Merging → Merging
  merge_entry dst (offset, field) m = record m {
    store = write dst (merge_fields size_of offset field (m.store dst)) m.store;
  }

  -- The end of a call of `merge`.
  unfoldable pub report : ℕ → ℕ → Merging → Outcome
  report dst src m = done (true, record m { merged = (dst, src) ∷ m.merged })

  -- `dst_field` of the loop is looked at.
  unfoldable pub is_passed : ℕ → Entry → Bool
  is_passed offset (o, g) = leb (offset_end size_of o g) offset

  unfoldable pub fits : ℕ → Entry → Option ℕ
  fits offset (o, g) = if o % 8 == offset % 8 then points_to g else none

  -- One task, with the tasks that it waits for. The flag is the answer `merged` of the pointer loop. An
  -- iterator moves on over the entries as they are after the body of the loop.
  unfoldable pub perform : ℕ → Task → Merging → Outcome
  perform zero task m = out_of_fuel
  perform (suc fuel) (merge dst src) m =
      if dst == src
      then done (true, m)
      else perform fuel (merge_loop dst src (first_of (m.store src).fields)) m
  perform (suc fuel) (merge_loop dst src it) m =
      at_entry (locate it (m.store src).fields) (report dst src m) (λ e.
        on_target (points_to e.1)
          (moved (next (locate it ((merge_entry dst e m).store src).fields))
            (λ it'. perform fuel (merge_loop dst src it') (merge_entry dst e m)))
          (λ target.
            perform fuel (pointer_loop dst e.0 target (upper_bound e.0 (m.store dst).fields) false)
              m
            >>= λ (was_merged, m').
                moved
                  (next (
                    locate it ((if was_merged then m' else merge_entry dst e m').store src).fields))
                  (λ it'.
                    perform fuel (merge_loop dst src it')
                      (if was_merged then m' else merge_entry dst e m'))))
  perform (suc fuel) (pointer_loop dst offset target it was_merged) m =
      before_entry (locate it (m.store dst).fields) (done (was_merged, m)) (λ e.
        if is_passed offset e
        then done (was_merged, m)
        else on_target (fits offset e)
            (moved (previous (locate it (m.store dst).fields))
              (λ it'. perform fuel (pointer_loop dst offset target it' was_merged) m))
            (λ t. perform fuel (merge t target) m >>= λ (_, m').
              moved (previous (locate it (m'.store dst).fields))
                (λ it'. perform fuel (pointer_loop dst offset target it' true) m')))
