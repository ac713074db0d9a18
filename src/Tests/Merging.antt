-- ===== src/Tests/Merging.antt =====
-- The theorems on merging and printing structures, applied.
use restruc.Base.{
  ℕ, ◌≤◌, ◌<◌, suc, ◌≡◌, refl, arith, true, false, none, some, [], ◌∷◌, if◌then◌else◌, ◌==◌,
}
use restruc.Base.Assoc
use restruc.Base.Run.{done}
use restruc.Struc.{
  Field, int, pointer, backwards, offset_end, field_size, type_is, merge_fields,
  has_field_at_offset, is_duplicate, same_target, member, duplicate_before, add_field,
}
use restruc.Struc.Iterator.{
  at_entry, before_entry, next, previous, moved, locate, locate_from, iterator_at, occurrences,
  same_entry, first_of, upper_bound, upper_view,
}
use restruc.Struc.Merge.{
  on_target, merge_entry, write, report, Merging, merge, perform, points_to, is_passed, fits,
}
use restruc.Struc.Merge.Flat.{AllFlat, Merged, entries_count, merge-flat, merge_all}
use restruc.Struc.Merge.Linked.{PointsTo, StartsBehind, merge-linked}
use restruc.Struc.Print.{groups, entries, union_members}
use restruc.Struc.Print.Groups.{printed, AreSeparated, groups-AreSeparated}

abbrev no_size : ℕ → ℕ
no_size i = 0

abbrev pointer_to : ℕ → Field
pointer_to i = record { type = pointer; own_size = 8; count = 1; target = some i }

-- Each structure points to itself at offset 8, as the nodes of a list do.
abbrev self_pointing : Merging
self_pointing = record {
  store = λ i. record { fields = (8, pointer_to i) ∷ []; field_set = 8 ∷ [] };
  merged = [];
}

abbrev number : ℕ → Field
number size = record { type = int; own_size = size; count = 1; target = none }

abbrev flat : Merging
flat = record {
  store = λ i.
      if i == 1
      then record {
        fields = (0, number 8) ∷ (4, number 4) ∷ (16, number 4) ∷ [];
        field_set = 0 ∷ 4 ∷ 16 ∷ [];
      }
      else record { fields = []; field_set = [] };
  merged = [];
}

flat-AllFlat : AllFlat (flat.store 1).fields
unfolding points_to type_is
flat-AllFlat = (refl, (refl, (refl, tt)))

merge-flat_example :
    (m : Merging) × (perform no_size
        (suc (suc (entries_count (flat.store 1).fields)))
        (merge 0 1)
        flat
      ≡ done (true, m))
    × Merged no_size 0 1 flat m
merge-flat_example = merge-flat no_size 0 1 flat refl refl flat-AllFlat

-- Structure 0 points to 2 and structure 1 to 3, each at offset 8.
abbrev linked : Merging
linked = record {
  store = λ i.
      if i == 0
      then record { fields = (8, pointer_to 2) ∷ []; field_set = 8 ∷ [] }
      else if i == 1
      then record { fields = (8, pointer_to 3) ∷ (16, number 4) ∷ []; field_set = 8 ∷ 16 ∷ [] }
      else if i == 2
      then record { fields = []; field_set = [] }
      else record { fields = (0, number 4) ∷ []; field_set = 0 ∷ [] };
  merged = [];
}

linked-flat : AllFlat ((16, number 4) ∷ []) × AllFlat (linked.store 3).fields
unfolding points_to type_is
linked-flat = ((refl, tt), (refl, tt))

linked-points : PointsTo (pointer_to 3) 3 × PointsTo (pointer_to 2) 2
unfolding PointsTo
linked-points = ((refl, refl), (refl, refl))

linked-starts : StartsBehind 8 []
unfolding StartsBehind
linked-starts = tt

linked-enough :
    (entries_count ((16, number 4) ∷ []) < 2) × (entries_count (linked.store 3).fields < 2)
unfolding entries_count
linked-enough = (omega arith, omega arith)

merge-linked_example :
    (m : Merging) × (perform no_size 6 (merge 0 1) linked ≡ done (true, m))
    × (m.store 2 ≡ merge_all no_size (linked.store 3).fields (linked.store 2))
    × (m.store 0 ≡ merge_all no_size ((16, number 4) ∷ []) (linked.store 0))
    × ((i : ℕ) → (i == 0) ≡ false → (i == 2) ≡ false → m.store i ≡ linked.store i)
    × (m.merged ≡ (0, 1) ∷ (2, 3) ∷ [])
merge-linked_example =
    merge-linked no_size 2 0 1 2 3 8 8 (pointer_to 3) (pointer_to 2) ((16, number 4) ∷ []) [] linked
      refl refl refl refl refl linked-points.0 linked-flat.0 linked-flat.1 refl linked-starts
      linked-points.1 (omega arith) (omega arith) refl linked-enough.0 linked-enough.1

-- Structure 0 points to 1, which points to 2, each at offset 8; structure 2 has one number.
abbrev chained : Merging
chained = record {
  store = λ i.
      if i == 0
      then record { fields = (8, pointer_to 1) ∷ []; field_set = 8 ∷ [] }
      else if i == 1
      then record { fields = (8, pointer_to 2) ∷ []; field_set = 8 ∷ [] }
      else record { fields = (0, number 4) ∷ []; field_set = 0 ∷ [] };
  merged = [];
}

-- The merge of 2 into 1 puts a field before the iterator of the loop over 1.
chained-merge :
    (m : Merging) × (perform no_size 9 (merge 0 1) chained ≡ done (true, m))
    × ((m.store 1).fields ≡ (0, number 4) ∷ (8, pointer_to 2) ∷ [])
unfolding perform at_entry before_entry on_target next previous moved locate locate_from iterator_at
    occurrences same_entry first_of upper_bound upper_view is_passed fits points_to type_is
    offset_end field_size merge_entry write merge_fields report same_target has_field_at_offset
    member add_field is_duplicate duplicate_before backwards Assoc.emplace
chained-merge = (_, refl, refl)

flat-enough : entries (flat.store 1).fields ≤ 3
unfolding entries
flat-enough = omega arith

groups-AreSeparated_example :
    (printed no_size (groups no_size 3 (flat.store 1).fields) ≡ (flat.store 1).fields)
    × AreSeparated no_size (groups no_size 3 (flat.store 1).fields)
groups-AreSeparated_example = groups-AreSeparated no_size 3 (flat.store 1).fields flat-enough

-- The union of the first two fields reaches up to 12; the padding behind it is counted from 8.
overlapping-groups :
    groups no_size 3 ((0, number 8) ∷ (4, number 8) ∷ (16, number 4) ∷ [])
    ≡ record { base_offset = 0; members = (0, number 8) ∷ (4, number 8) ∷ []; next_offset = 8 }
      ∷ record { base_offset = 16; members = (16, number 4) ∷ []; next_offset = 20 }
      ∷ []
unfolding groups union_members offset_end field_size type_is
overlapping-groups = refl
