-- ===== src/Base/Lookup.antt =====
-- `std::sort` by a number, and `std::prev(std::upper_bound(...))` on what is sorted by it: the last
-- entry whose number is at most the one looked for. Where numbers are equal `std::sort` may choose
-- any order; here the entry that came first stays first.
use Prim.Native.Nat.{ℕ, ◌≤◌, ◌<◌}
use mathlib.Core.Path.{◌≡◌, refl, ap}
use mathlib.Core.Logic.{◌⊎◌, inl, inr}
use mathlib.Core.Option.{Option, none, some}
use mathlib.Core.List.{List, [], ◌∷◌}
use native.Mathlib.Omega.{arith}
use restruc.Base.Tests.{if◌then◌else◌, ltb, Bool-cases, ltb→lt, ltb_false→le}

-- The places at which an entry stands in a list.
pub data Among {ℓ} {A : Type ℓ} (a : A) : List A → Type ℓ where
  here : {b : A} {l : List A} → a ≡ b → Among a (b ∷ l)
  there : {b : A} {l : List A} → Among a l → Among a (b ∷ l)

pub Among-cases {ℓ} : {A : Type ℓ} {a b : A} {l : List A} → Among a (b ∷ l) → (a ≡ b) ⊎ Among a l
Among-cases (Among.here e) = inl e
Among-cases (Among.there m) = inr m

pub nothing-Among {ℓ} : {A : Type ℓ} {a : A} → Among a [] → ⊥
nothing-Among m = elim m [ ]

module _ {ℓ} {A : Type ℓ} (key : A → ℕ) where
  -- From the back, so that what came first goes before its equals: it is inserted last.
  insert_before : A → List A → List A
  insert_before a [] = a ∷ []
  insert_before a (b ∷ l) =
      let rest = insert_before a l in if ltb (key b) (key a) then b ∷ rest else a ∷ b ∷ l

  unfoldable pub sort_by : List A → List A
  unfolding insert_before
  sort_by [] = []
  sort_by (a ∷ l) = insert_before a (sort_by l)

  -- `none` where `upper_bound` returns `begin()`.
  unfoldable pub before_upper_bound : ℕ → List A → Option A
  before_upper_bound x [] = none
  before_upper_bound x (a ∷ l) =
      let rest = before_upper_bound x l in
      if ltb x (key a) then none else elim rest [ none ↦ some a | some b ↦ some b ]

  abbrev pub IsSorted : ℕ → List A → Type 0
  IsSorted low [] = Unit
  IsSorted low (a ∷ l) = (low ≤ key a) × IsSorted (key a) l

  insert_before-IsSorted :
      (a : A) (low : ℕ) (l : List A)
      → low ≤ key a
      → IsSorted low l
      → IsSorted low (insert_before a l)
  unfolding insert_before
  insert_before-IsSorted a low [] h s = (h, tt)
  insert_before-IsSorted a low (b ∷ l) h s = elim (Bool-cases (ltb (key b) (key a))) [
    | inl e ↦
        let less = ltb→lt (key b) (key a) e in
        rw e (s.0, insert_before-IsSorted a (key b) l (omega arith) s.1)
    | inr e ↦ rw e (h, (ltb_false→le (key b) (key a) e, s.1))
  ]

  pub sort_by-IsSorted : (l : List A) → IsSorted 0 (sort_by l)
  unfolding sort_by
  sort_by-IsSorted [] = tt
  sort_by-IsSorted (a ∷ l) =
      insert_before-IsSorted a 0 (sort_by l) (omega arith) (sort_by-IsSorted l)

  -- An entry of the longer list is the new one or one of the old, and the other way round.
  insert_before-Among : (a b : A) (l : List A) → Among b (insert_before a l) → Among b (a ∷ l)
  unfolding insert_before
  insert_before-Among a b [] m = m
  insert_before-Among a b (c ∷ l) m = elim (Bool-cases (ltb (key c) (key a))) [
    | inl e ↦
        let m' : Among b (c ∷ insert_before a l) = rw e at m in
        elim (Among-cases m') [
          | inl same ↦ Among.there (Among.here same)
          | inr later ↦ elim (Among-cases (insert_before-Among a b l later)) [
            | inl same ↦ Among.here same
            | inr old ↦ Among.there (Among.there old)
          ]
        ]
    | inr e ↦ rw e at m
  ]

  Among-insert_before : (a b : A) (l : List A) → Among b (a ∷ l) → Among b (insert_before a l)
  unfolding insert_before
  Among-insert_before a b [] m = m
  Among-insert_before a b (c ∷ l) m = elim (Bool-cases (ltb (key c) (key a))) [
    | inl e ↦ rw e (elim (Among-cases m) [
      | inl same ↦ Among.there (Among-insert_before a b l (Among.here same))
      | inr old ↦ elim (Among-cases old) [
        | inl same ↦ Among.here same
        | inr later ↦ Among.there (Among-insert_before a b l (Among.there later))
      ]
    ])
    | inr e ↦ rw e m
  ]

  sort_by-Among : (b : A) (l : List A) → Among b (sort_by l) → Among b l
  unfolding sort_by
  sort_by-Among b [] m = m
  sort_by-Among b (a ∷ l) m = elim (Among-cases (insert_before-Among a b (sort_by l) m)) [
    | inl same ↦ Among.here same
    | inr old ↦ Among.there (sort_by-Among b l old)
  ]

  Among-sort_by : (b : A) (l : List A) → Among b l → Among b (sort_by l)
  unfolding sort_by
  Among-sort_by b [] m = m
  Among-sort_by b (a ∷ l) m = Among-insert_before a b (sort_by l) (elim (Among-cases m) [
    | inl same ↦ Among.here same
    | inr old ↦ Among.there (Among-sort_by b l old)
  ])

  -- The answer of a lookup of the last entry at or before `x`, said of the entries in any order.
  unfoldable pub LastAtMost : ℕ → List A → Option A → Type ℓ
  LastAtMost x l none = (t : A) → Among t l → x < key t
  LastAtMost x l (some s) =
      Among s l × (key s ≤ x) × ((t : A) → Among t l → key t ≤ x → key t ≤ key s)

  low-le : (low : ℕ) (l : List A) (t : A) → IsSorted low l → Among t l → low ≤ key t
  low-le low [] t s m = absurd (nothing-Among m)
  low-le low (a ∷ l) t s m = elim (Among-cases m) [
    | inl same ↦ let e = ap key same in omega arith
    | inr later ↦ let ih = low-le (key a) l t s.1 later in omega arith
  ]

  pub before_upper_bound-LastAtMost :
      (x low : ℕ) (l : List A) → IsSorted low l → LastAtMost x l (before_upper_bound x l)
  unfolding before_upper_bound LastAtMost
  before_upper_bound-LastAtMost x low [] s = λ t m. absurd (nothing-Among m)
  before_upper_bound-LastAtMost x low (a ∷ l) s = elim (Bool-cases (ltb x (key a))) [
    | inl e ↦ rw e (λ t m.
        let first = low-le (key a) (a ∷ l) t (omega arith, s.1) m in
        let less = ltb→lt x (key a) e in omega arith)
    | inr e ↦
        let at_most = ltb_false→le x (key a) e in
        rw e (
          from_rest (before_upper_bound x l) at_most
            (before_upper_bound-LastAtMost x (key a) l s.1))
  ]
    where
      from_rest :
          (o : Option A)
          → key a ≤ x
          → LastAtMost x l o
          → LastAtMost x (a ∷ l) (elim o [ none ↦ some a | some b ↦ some b ])
      from_rest none h above = (
        Among.here refl,
        h,
        λ t m le. elim (Among-cases m) [
          | inl same ↦ let e = ap key same in omega arith
          | inr later ↦ let beyond = above t later in absurd (omega arith)
        ],
      )
      from_rest (some b) h (m₀, below, last) = (
        Among.there m₀,
        below,
        λ t m le. elim (Among-cases m) [
          | inl same ↦ let e = ap key same in let first = low-le (key a) l b s.1 m₀ in omega arith
          | inr later ↦ last t later le
        ],
      )

  -- The lookup in the sorted list answers for the unsorted one.
  pub lookup-LastAtMost : (x : ℕ) (l : List A) → LastAtMost x l (before_upper_bound x (sort_by l))
  unfolding LastAtMost
  lookup-LastAtMost x l =
      transfer (before_upper_bound x (sort_by l))
        (before_upper_bound-LastAtMost x 0 (sort_by l) (sort_by-IsSorted l))
    where
      transfer : (o : Option A) → LastAtMost x (sort_by l) o → LastAtMost x l o
      transfer none above = λ t m. above t (Among-sort_by t l m)
      transfer (some s) (m, below, last) =
          (sort_by-Among s l m, below, λ t n le. last t (Among-sort_by t l n) le)

  -- The answer is `s`, if no other entry between `s` and `x` is as late as `s`.
  pub LastAtMost-unique :
      (x : ℕ) (l : List A) (s : A) (o : Option A)
      → LastAtMost x l o
      → Among s l
      → key s ≤ x
      → ((t : A) → Among t l → key s ≤ key t → key t ≤ x → t ≡ s)
      → o ≡ some s
  unfolding LastAtMost
  LastAtMost-unique x l s none above m h only = let beyond = above s m in absurd (omega arith)
  LastAtMost-unique x l s (some t) (n, below, last) m h only = ap some (only t n (last s m h) below)
