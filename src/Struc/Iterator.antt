-- ===== src/Struc/Iterator.antt =====
-- The iterators over the fields of a structure, as `merge`, `try_merge_struc_field_at_offset` and their
-- callers use them (struc.cxx, restruc.cxx). An iterator of a `std::multimap` stays valid when entries
-- are inserted, and is invalid when its own entry is erased. An iterator is the entry at which it stands,
-- with the number of entries before it that look the same; an entry that was erased and inserted again
-- counts as the same.
pub mod Laws
use restruc.Base.{
  ℕ, zero, suc, Bool, true, false, ◌&&◌, Option, none, some, List, [], ◌∷◌, if◌then◌else◌, leb,
  ◌==◌,
}
use restruc.Base.Run.{Run, done, fault}
use restruc.Struc.{Field, type_is, same_target}

abbrev pub Entry : Type 0
Entry = ℕ × Field

-- Two entries that no code can tell apart.
unfoldable pub same_entry : Entry → Entry → Bool
same_entry (o, f) (p, g) =
    o == p
    && (type_is f.type g.type
        && (f.own_size == g.own_size && (f.count == g.count && same_target f.target g.target)))

pub data Iterator : Type 0 where
  at : Entry → ℕ → Iterator
  end : Iterator

-- The entries before a place, the last one first, and those from there on.
abbrev pub View : Type 0
View = List Entry × List Entry

unfoldable pub occurrences : Entry → List Entry → ℕ
occurrences e [] = 0
occurrences e (d ∷ l) = let rest = occurrences e l in if same_entry e d then suc rest else rest

unfoldable pub iterator_at : View → Iterator
iterator_at (before, []) = end
iterator_at (before, e ∷ from) = at e (occurrences e before)

unfoldable pub locate_from : List Entry → Iterator → List Entry → Option View
locate_from before end [] = some (before, [])
locate_from before end (d ∷ l) = locate_from (d ∷ before) end l
locate_from before (at e k) [] = none
locate_from before (at e zero) (d ∷ l) =
    let further = locate_from (d ∷ before) (at e zero) l in
    if same_entry e d then some (before, d ∷ l) else further
locate_from before (at e (suc k)) (d ∷ l) =
    let next_same = locate_from (d ∷ before) (at e k) l in
    let further = locate_from (d ∷ before) (at e (suc k)) l in
    if same_entry e d then next_same else further

-- Where the iterator stands among the entries now; `none` where its entry was erased.
unfoldable pub locate : Iterator → List Entry → Option View
locate i l = locate_from [] i l

-- `begin()`.
unfoldable pub first_of : List Entry → Iterator
first_of l = iterator_at ([], l)

-- `upper_bound(offset)`.
unfoldable pub upper_view : ℕ → List Entry → List Entry → View
upper_view offset before [] = (before, [])
upper_view offset before ((o, f) ∷ l) =
    let further = upper_view offset ((o, f) ∷ before) l in
    if leb o offset then further else (before, (o, f) ∷ l)

unfoldable pub upper_bound : ℕ → List Entry → Iterator
upper_bound offset l = iterator_at (upper_view offset [] l)

-- `++it` and `--it`; before the first entry and behind the end there is nothing.
unfoldable pub next : Option View → Option Iterator
next none = none
next (some (before, [])) = none
next (some (before, e ∷ from)) = some (iterator_at (e ∷ before, from))

unfoldable pub previous : Option View → Option Iterator
previous none = none
previous (some ([], from)) = none
previous (some (e ∷ before, from)) = some (iterator_at (before, e ∷ from))

module _ {A : Type 0} where
  -- The head of a loop: the iterator is invalid, at the end, or at an entry.
  unfoldable pub at_entry : Option View → Run A → (Entry → Run A) → Run A
  at_entry none at_end k = fault
  at_entry (some (before, [])) at_end k = at_end
  at_entry (some (before, e ∷ from)) at_end k = k e

  -- The same for a `std::reverse_iterator`, which stands behind its entry.
  unfoldable pub before_entry : Option View → Run A → (Entry → Run A) → Run A
  before_entry none at_end k = fault
  before_entry (some ([], from)) at_end k = at_end
  before_entry (some (e ∷ before, from)) at_end k = k e

  -- The rest of a loop, with the iterator moved.
  unfoldable pub moved : Option Iterator → (Iterator → Run A) → Run A
  moved none k = fault
  moved (some i) k = k i
