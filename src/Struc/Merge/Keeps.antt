-- ===== src/Struc/Merge/Keeps.antt =====
-- Merging keeps the structures of the store covered.
use restruc.Base.{
  ℕ, zero, suc, Bool, true, false, Option, none, some, [], ◌∷◌, ◌==◌, if◌then◌else◌, Bool-cases,
  inl, inr,
}
use restruc.Base.Run.{done, fault, out_of_fuel, ◌>>=◌}
use restruc.Struc.{Struc}
use restruc.Struc.Cover.{IsCovered, merge_fields-IsCovered}
use restruc.Struc.Iterator.{
  Entry, Iterator, View, locate, first_of, upper_bound, next, previous, at_entry, before_entry,
  moved,
}
use restruc.Struc.Merge.{
  Store, Merging, Task, merge, merge_loop, pointer_loop, perform, on_target, points_to, is_passed,
  fits, write, merge_entry, report, Outcome,
}

module _ (size_of : ℕ → ℕ) where
  abbrev pub AllCovered : Store → Type 0
  AllCovered store = (i : ℕ) → IsCovered size_of (store i)

  -- A result with covered structures, if there is one.
  unfoldable pub KeepsCovered : Outcome → Type 0
  KeepsCovered (done (b, m)) = AllCovered m.store
  KeepsCovered fault = Unit
  KeepsCovered out_of_fuel = Unit

  done-KeepsCovered : (b : Bool) (m : Merging) → AllCovered m.store → KeepsCovered (done (b, m))
  unfolding KeepsCovered
  done-KeepsCovered b m h = h

  KeepsCovered-bind :
      (o : Outcome) (k : Bool × Merging → Outcome)
      → KeepsCovered o
      → ((b : Bool) (m : Merging) → AllCovered m.store → KeepsCovered (k (b, m)))
      → KeepsCovered (o >>= k)
  unfolding KeepsCovered
  KeepsCovered-bind (done (b, m)) k h g = g b m h
  KeepsCovered-bind fault k h g = tt
  KeepsCovered-bind out_of_fuel k h g = tt

  pub write-AllCovered :
      (i : ℕ) (s : Struc) (store : Store)
      → IsCovered size_of s
      → AllCovered store
      → AllCovered (write i s store)
  unfolding write
  write-AllCovered i s store h k j = elim (Bool-cases (j == i)) [
    | inl e ↦ rw e h
    | inr e ↦ rw e (k j)
  ]

  merge_entry-AllCovered :
      (dst : ℕ) (e : Entry) (m : Merging)
      → AllCovered m.store
      → AllCovered (merge_entry size_of dst e m).store
  unfolding merge_entry
  merge_entry-AllCovered dst (o, f) m h =
      write-AllCovered dst _ m.store (merge_fields-IsCovered size_of o f (m.store dst) (h dst)) h

  AllCovered-if :
      (b : Bool) (m n : Merging)
      → AllCovered m.store
      → AllCovered n.store
      → AllCovered (if b then m else n).store
  AllCovered-if true m n h k = h
  AllCovered-if false m n h k = k

  report-KeepsCovered :
      (dst src : ℕ) (m : Merging) → AllCovered m.store → KeepsCovered (report size_of dst src m)
  unfolding report
  report-KeepsCovered dst src m h = done-KeepsCovered true _ h

  out-KeepsCovered : KeepsCovered out_of_fuel
  unfolding KeepsCovered
  out-KeepsCovered = tt

  fault-KeepsCovered : KeepsCovered fault
  unfolding KeepsCovered
  fault-KeepsCovered = tt

  KeepsCovered-if :
      (b : Bool) (o p : Outcome)
      → KeepsCovered o
      → KeepsCovered p
      → KeepsCovered (if b then o else p)
  KeepsCovered-if true o p h k = h
  KeepsCovered-if false o p h k = k

  at_entry-KeepsCovered :
      (v : Option View) (o : Outcome) (k : Entry → Outcome)
      → KeepsCovered o
      → ((e : Entry) → KeepsCovered (k e))
      → KeepsCovered (at_entry v o k)
  unfolding at_entry
  at_entry-KeepsCovered none o k h g = fault-KeepsCovered
  at_entry-KeepsCovered (some (before, [])) o k h g = h
  at_entry-KeepsCovered (some (before, e ∷ from)) o k h g = g e

  before_entry-KeepsCovered :
      (v : Option View) (o : Outcome) (k : Entry → Outcome)
      → KeepsCovered o
      → ((e : Entry) → KeepsCovered (k e))
      → KeepsCovered (before_entry v o k)
  unfolding before_entry
  before_entry-KeepsCovered none o k h g = fault-KeepsCovered
  before_entry-KeepsCovered (some ([], from)) o k h g = h
  before_entry-KeepsCovered (some (e ∷ before, from)) o k h g = g e

  moved-KeepsCovered :
      (i : Option Iterator) (k : Iterator → Outcome)
      → ((j : Iterator) → KeepsCovered (k j))
      → KeepsCovered (moved i k)
  unfolding moved
  moved-KeepsCovered none k g = fault-KeepsCovered
  moved-KeepsCovered (some i) k g = g i

  on_target-KeepsCovered :
      (t : Option ℕ) (o : Outcome) (k : ℕ → Outcome)
      → KeepsCovered o
      → ((i : ℕ) → KeepsCovered (k i))
      → KeepsCovered (on_target t o k)
  unfolding on_target
  on_target-KeepsCovered none o k h g = h
  on_target-KeepsCovered (some i) o k h g = g i

  -- Merging, whatever the structures point to, leaves all structures covered where it returns, if all were
  -- covered before.
  pub perform-KeepsCovered :
      (fuel : ℕ) (task : Task) (m : Merging)
      → AllCovered m.store
      → KeepsCovered (perform size_of fuel task m)
  unfolding perform
  perform-KeepsCovered zero task m h = out-KeepsCovered
  perform-KeepsCovered (suc fuel) (merge dst src) m h =
      KeepsCovered-if (dst == src) _ _ (done-KeepsCovered true m h)
        (perform-KeepsCovered fuel (merge_loop dst src (first_of (m.store src).fields)) m h)
  perform-KeepsCovered (suc fuel) (merge_loop dst src it) m h =
      at_entry-KeepsCovered (locate it (m.store src).fields) _ _ (report-KeepsCovered dst src m h)
        (λ e.
          let onward = λ (n : Merging) (k : AllCovered n.store).
            moved-KeepsCovered (next (locate it (n.store src).fields)) _
              (λ it'. perform-KeepsCovered fuel (merge_loop dst src it') n k) in
          let entry = merge_entry-AllCovered dst e in
          let targets = upper_bound e.0 (m.store dst).fields in
          on_target-KeepsCovered (points_to e.1) _ _
            (onward (merge_entry size_of dst e m) (entry m h))
            (λ target.
              KeepsCovered-bind (perform size_of fuel (pointer_loop dst e.0 target targets false) m)
                _ (perform-KeepsCovered fuel (pointer_loop dst e.0 target targets false) m h)
                (λ b m' h'.
                  onward (if b then m' else merge_entry size_of dst e m')
                    (AllCovered-if b m' (merge_entry size_of dst e m') h' (entry m' h')))))
  perform-KeepsCovered (suc fuel) (pointer_loop dst offset target it was_merged) m h =
      before_entry-KeepsCovered (locate it (m.store dst).fields) _ _
        (done-KeepsCovered was_merged m h)
        (λ e.
          let onward = λ (b : Bool) (n : Merging) (k : AllCovered n.store).
            moved-KeepsCovered (previous (locate it (n.store dst).fields)) _
              (λ it'. perform-KeepsCovered fuel (pointer_loop dst offset target it' b) n k) in
          KeepsCovered-if (is_passed size_of offset e) _ _ (done-KeepsCovered was_merged m h) (
            on_target-KeepsCovered (fits size_of offset e) _ _ (onward was_merged m h) (λ t.
              KeepsCovered-bind (perform size_of fuel (merge t target) m) _
                (perform-KeepsCovered fuel (merge t target) m h) (λ b m' h'. onward true m' h'))))
