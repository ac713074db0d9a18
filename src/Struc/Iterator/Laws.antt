-- ===== src/Struc/Iterator/Laws.antt =====
-- An iterator is found where it was made.
use restruc.Base.{
  ℕ, zero, suc, ◌+◌, ◌≡◌, refl, sym, ap, ◌∙◌, inl, inr, arith, Bool, true, false, Option, none,
  some, List, [], ◌∷◌, leb, if◌then◌else◌, ==_refl, Bool-cases,
}
use restruc.Base.Run.{Run}
use restruc.Base.Holds.{Holds, fault-Holds}
use restruc.Struc.{FieldType, type_is, rank, same_target, backwards}
use restruc.Struc.Iterator.{
  Entry, same_entry, Iterator, at, end, View, occurrences, iterator_at, locate_from, locate,
  first_of, upper_view, upper_bound, at_entry, before_entry, moved,
}

type_is_refl : (t : FieldType) → type_is t t ≡ true
unfolding type_is
type_is_refl t = ==_refl (rank t)

same_target_refl : (t : Option ℕ) → same_target t t ≡ true
unfolding same_target
same_target_refl none = refl
same_target_refl (some i) = ==_refl i

same_entry_refl : (e : Entry) → same_entry e e ≡ true
unfolding same_entry
same_entry_refl (o, f) = rw (==_refl o) (
    rw (type_is_refl f.type)
      (rw (==_refl f.own_size) (rw (==_refl f.count) (same_target_refl f.target))))

-- The entries before a place, in front of those from there on.
unfoldable pub whole : View → List Entry
whole ([], from) = from
whole (e ∷ before, from) = whole (before, e ∷ from)

-- The search for an entry goes over the entries before it.
locate-own :
    (b : List Entry) (e : Entry) (from : List Entry)
    → locate_from b (at e 0) (e ∷ from) ≡ some (b, e ∷ from)
unfolding locate_from
locate-own b e from = rw (same_entry_refl e) refl

pass_same :
    (e d : Entry) (k : ℕ) (b l : List Entry)
    → same_entry e d ≡ true
    → locate_from b (at e (suc k)) (d ∷ l) ≡ locate_from (d ∷ b) (at e k) l
unfolding locate_from
pass_same e d k b l h = rw h refl

pass_other :
    (e d : Entry) (k : ℕ) (b l : List Entry)
    → same_entry e d ≡ false
    → locate_from b (at e k) (d ∷ l) ≡ locate_from (d ∷ b) (at e k) l
unfolding locate_from
pass_other e d zero b l h = rw h refl
pass_other e d (suc k) b l h = rw h refl

-- An entry that looks the same is passed where one more of them is wanted.
locate-passed :
    (e d : Entry) (k : ℕ) (b l : List Entry)
    → locate_from b (at e (if same_entry e d then suc k else k)) (d ∷ l)
      ≡ locate_from (d ∷ b) (at e k) l
locate-passed e d k b l = elim (Bool-cases (same_entry e d)) [
  | inl h ↦
      ap (λ c. locate_from b (at e (if c then suc k else k)) (d ∷ l)) h ∙ pass_same e d k b l h
  | inr h ↦
      ap (λ c. locate_from b (at e (if c then suc k else k)) (d ∷ l)) h ∙ pass_other e d k b l h
]

locate-before :
    (e : Entry) (before l : List Entry) (k : ℕ)
    → locate_from [] (at e (k + occurrences e before)) (whole (before, l))
      ≡ locate_from before (at e k) l
unfolding whole occurrences
locate-before e [] l k = ap (λ n. locate_from [] (at e n) l) (omega arith)
locate-before e (d ∷ before) l k =
    let more : ℕ = if same_entry e d then suc k else k in
    let same : k + (if same_entry e d then suc (occurrences e before) else occurrences e before)
        ≡ more + occurrences e before =
      shift (same_entry e d) k (occurrences e before) in
    ap (λ n. locate_from [] (at e n) (whole (before, d ∷ l))) same
    ∙ locate-before e before (d ∷ l) more
    ∙ locate-passed e d k before l
  where
    shift : (b : Bool) (i j : ℕ) → i + (if b then suc j else j) ≡ (if b then suc i else i) + j
    shift true i j = omega arith
    shift false i j = omega arith

locate-end :
    (before l : List Entry) → locate_from [] end (whole (before, l)) ≡ locate_from before end l
unfolding whole locate_from
locate-end [] l = refl
locate-end (d ∷ before) l = locate-end before (d ∷ l)

-- An iterator that was made at a place is found there.
pub locate-iterator_at : (v : View) → locate (iterator_at v) (whole v) ≡ some v
unfolding locate iterator_at locate_from
locate-iterator_at (before, []) = locate-end before []
locate-iterator_at (before, e ∷ from) =
    ap (λ n. locate_from [] (at e n) (whole (before, e ∷ from))) (omega arith)
    ∙ locate-before e before (e ∷ from) 0
    ∙ locate-own before e from

-- The upper bound of an offset divides the entries; those before it are the ones that `backwards` gives.
upper_view-whole :
    (offset : ℕ) (before l : List Entry) → whole (upper_view offset before l) ≡ whole (before, l)
unfolding upper_view whole
upper_view-whole offset before [] = refl
upper_view-whole offset before ((o, f) ∷ l) = elim (Bool-cases (leb o offset)) [
  | inl h ↦ rw h (upper_view-whole offset ((o, f) ∷ before) l)
  | inr h ↦ rw h refl
]

upper_view-backwards :
    (offset : ℕ) (before l : List Entry)
    → (upper_view offset before l).0 ≡ backwards offset l before
unfolding upper_view backwards
upper_view-backwards offset before [] = refl
upper_view-backwards offset before ((o, f) ∷ l) = elim (Bool-cases (leb o offset)) [
  | inl h ↦ rw h (upper_view-backwards offset ((o, f) ∷ before) l)
  | inr h ↦ rw h refl
]

pub locate-upper_bound :
    (offset : ℕ) (l : List Entry)
    → locate (upper_bound offset l) l ≡ some (backwards offset l [], (upper_view offset [] l).1)
unfolding upper_bound whole
locate-upper_bound offset l =
    let v = upper_view offset [] l in
    ap (locate (iterator_at v)) (sym (upper_view-whole offset [] l))
    ∙ locate-iterator_at v
    ∙ ap (λ b. some (b, v.1)) (upper_view-backwards offset [] l)

pub upper_bound-whole :
    (offset : ℕ) (l b : List Entry)
    → backwards offset l [] ≡ b
    → l ≡ whole (b, (upper_view offset [] l).1)
unfolding whole
upper_bound-whole offset l b back =
    sym (upper_view-whole offset [] l)
    ∙ ap (λ v. whole (v, (upper_view offset [] l).1)) (upper_view-backwards offset [] l ∙ back)

pub locate-first_of : (l : List Entry) → locate (first_of l) l ≡ some ([], l)
unfolding first_of whole
locate-first_of l = locate-iterator_at ([], l)

-- The heads of loops keep what holds of their continuations.
module _ {A : Type 0} (P : A → Type 0) where
  pub at_entry-Holds :
      (v : Option View) (o : Run A) (k : Entry → Run A)
      → Holds P o
      → ((e : Entry) → Holds P (k e))
      → Holds P (at_entry v o k)
  unfolding at_entry
  at_entry-Holds none o k h g = fault-Holds P
  at_entry-Holds (some (before, [])) o k h g = h
  at_entry-Holds (some (before, e ∷ from)) o k h g = g e

  pub before_entry-Holds :
      (v : Option View) (o : Run A) (k : Entry → Run A)
      → Holds P o
      → ((e : Entry) → Holds P (k e))
      → Holds P (before_entry v o k)
  unfolding before_entry
  before_entry-Holds none o k h g = fault-Holds P
  before_entry-Holds (some ([], from)) o k h g = h
  before_entry-Holds (some (e ∷ before, from)) o k h g = g e

  pub moved-Holds :
      (i : Option Iterator) (k : Iterator → Run A)
      → ((j : Iterator) → Holds P (k j))
      → Holds P (moved i k)
  unfolding moved
  moved-Holds none k g = fault-Holds P
  moved-Holds (some i) k g = g i
