-- ===== src/Memory/Sparse.antt =====
-- The trees that memory is made of: as those of the registers, but a part may be missing. The loops
-- that read and write one byte meet no wrongly cast pointer on them, and 64 rounds are enough.
use restruc.Base.{
  ℕ, zero, suc, ◌+◌, ◌-◌, ◌^◌, ◌≤◌, ◌<◌, ◌≡◌, refl, inl, inr, arith, if◌then◌else◌, ltb, ◌==◌, true,
  false, Option, none, some, Bool-cases, ltb→lt, ltb_false→le, lt→ltb, le→ltb_false, ne→==_false,
  ==_refl,
}
use native.Mathlib.Nat.{pow-suc}
use restruc.Base.Run.{Run, done}
use restruc.Hash.{word}
use restruc.Trie.{Tree, null, node, leaf, middle_of, decrement}
use restruc.Memory.{get_value, set_value, read_byte, children}

module _ {ℓ} {A : Type ℓ} where
  abbrev pub IsSparse : ℕ → ℕ → Tree A → Type 0
  IsSparse begin end null = Unit {0}
  IsSparse begin end (leaf a) = end ≡ begin + 1
  IsSparse begin end (node l r) =
      (begin + 2 ≤ end)
      × IsSparse begin (middle_of begin end) l
      × IsSparse (middle_of begin end) end r

  -- The child of a node over [begin, end), as the two loops go on with it.
  get_child : Tree A → ℕ → ℕ → ℕ → Run (Option A)
  get_child t begin end i =
      if ltb begin (decrement end) then get_value t begin end i else read_byte t

  set_child : ℕ → Tree A → ℕ → ℕ → ℕ → A → Run (Tree A)
  set_child fuel t begin end i v =
      if ltb begin (decrement end) then set_value fuel t begin end i v else done (leaf v)

-- The test of the loops: two or more numbers have a node, a single one a leaf.
pub several : (begin end : ℕ) → begin + 2 ≤ end → end < word → ltb begin (decrement end) ≡ true
several begin end h w = lt→ltb begin (decrement end) (omega arith)

one : (begin end : ℕ) → end ≡ begin + 1 → end < word → ltb begin (decrement end) ≡ false
one begin end h w = le→ltb_false begin (decrement end) (omega arith)

module _ {ℓ} {A : Type ℓ} where
  pub Answers : Run (Option A) → Type ℓ
  Answers m = (o : Option A) × (m ≡ done o)

  get_child-Answers :
      (t : Tree A) (begin end i : ℕ)
      → IsSparse begin end t
      → begin < end
      → end < word
      → (begin + 2 ≤ end → Answers (get_value t begin end i))
      → Answers (get_child t begin end i)
  unfolding Answers get_child read_byte get_value
  get_child-Answers null begin end i c h w ih = elim (Bool-cases (ltb begin (decrement end))) [
    | inl e ↦ (none, rw e)
    | inr e ↦ (none, rw e)
  ]
  get_child-Answers (leaf a) begin end i c h w ih = (some a, rw (one begin end c w))
  get_child-Answers (node l r) begin end i c h w ih =
      let found = ih c.0 in (found.0, rw (several begin end c.0 w) found.1)

  pub get_value-Answers :
      (t : Tree A) (begin end i : ℕ)
      → IsSparse begin end t
      → begin + 2 ≤ end
      → end < word
      → Answers (get_value t begin end i)
  unfolding Answers get_value get_child read_byte
  get_value-Answers null begin end i c h w = (none, refl)
  get_value-Answers (leaf a) begin end i c h w = absurd (omega arith)
  get_value-Answers (node l r) begin end i c h w =
      let m = middle_of begin end in
      let left =
        get_child-Answers l begin m i c.1 (omega arith) (omega arith)
          (λ h'. get_value-Answers l begin m i c.1 h' (omega arith)) in
      let right =
        get_child-Answers r m end i c.2 (omega arith) w
          (λ h'. get_value-Answers r m end i c.2 h' w) in
      elim (Bool-cases (ltb i m)) [
        | inl e ↦ (left.0, rw e left.1)
        | inr e ↦ (right.0, rw e right.1)
      ]

module _ {ℓ} {A : Type ℓ} where
  abbrev pub Overwrites : (ℕ → Run (Option A)) → (ℕ → Run (Option A)) → ℕ → ℕ → ℕ → A → Type ℓ
  Overwrites after before begin end i v =
      (j : ℕ) → begin ≤ j → j < end → after j ≡ (if j == i then done (some v) else before j)

  -- What a write at `i` leaves: a sparse tree that reads `v` at `i` and elsewhere as before.
  unfoldable pub Written : Run (Tree A) → Tree A → ℕ → ℕ → ℕ → A → Type ℓ
  Written m t begin end i v =
      (t' : Tree A) × (m ≡ done t')
      × IsSparse begin end t'
      × Overwrites (get_value t' begin end) (get_value t begin end) begin end i v

  WrittenChild : Run (Tree A) → Tree A → ℕ → ℕ → ℕ → A → Type ℓ
  WrittenChild m t begin end i v =
      (t' : Tree A) × (m ≡ done t')
      × IsSparse begin end t'
      × Overwrites (get_child t' begin end) (get_child t begin end) begin end i v

  set_child-Written :
      (fuel : ℕ) (t : Tree A) (begin end i : ℕ) (v : A)
      → IsSparse begin end t
      → end < word
      → begin ≤ i
      → i < end
      → (begin + 2 ≤ end → Written (set_value fuel t begin end i v) t begin end i v)
      → WrittenChild (set_child fuel t begin end i v) t begin end i v
  unfolding Written WrittenChild set_child get_child read_byte
  set_child-Written fuel t begin end i v c w lo hi ih =
      elim (Bool-cases (ltb begin (decrement end))) [
        | inl e ↦
            let s = ih (let deep = ltb→lt begin (decrement end) e in omega arith) in
            (s.0, rw e s.1, s.2, λ j p q. rw e (s.3 j p q))
        | inr e ↦
            let single = ltb_false→le begin (decrement end) e in
            (
              leaf v,
              rw e,
              omega arith,
              λ j p q. let same : j ≡ i = omega arith in rw (e, same, ==_refl i),
            )
      ]

  set_node-Written :
      (fuel : ℕ) (l r : Tree A) (begin end i : ℕ) (v : A)
      → IsSparse begin end (node l r)
      → end < word
      → begin ≤ i
      → i < end
      → ((h : begin + 2 ≤ middle_of begin end)
          → i < middle_of begin end
          → Written
              (set_value fuel l begin (middle_of begin end) i v)
              l
              begin
              (middle_of begin end)
              i
              v)
      → ((h : middle_of begin end + 2 ≤ end)
          → middle_of begin end ≤ i
          → Written
              (set_value fuel r (middle_of begin end) end i v)
              r
              (middle_of begin end)
              end
              i
              v)
      → Written (set_value (suc fuel) (node l r) begin end i v) (node l r) begin end i v
  unfolding Written WrittenChild set_child get_child set_value get_value children
  set_node-Written fuel l r begin end i v c w lo hi left right =
      let m = middle_of begin end in
      elim (Bool-cases (ltb i m)) [
        | inl e ↦
            let below = ltb→lt i m e in
            let s =
              set_child-Written fuel l begin m i v c.1 (omega arith) lo below (λ h. left h below) in
            (
              node s.0 r,
              rw (e, s.1),
              (c.0, s.2, c.2),
              λ j p q. elim (Bool-cases (ltb j m)) [
                | inl g ↦ rw g (s.3 j p (ltb→lt j m g))
                | inr g ↦ let far = ltb_false→le j m g in rw (g, ne→==_false j i (omega arith))
              ],
            )
        | inr e ↦
            let above = ltb_false→le i m e in
            let s = set_child-Written fuel r m end i v c.2 w above hi (λ h. right h above) in
            (
              node l s.0,
              rw (e, s.1),
              (c.0, c.1, s.2),
              λ j p q. elim (Bool-cases (ltb j m)) [
                | inl g ↦ let near = ltb→lt j m g in rw (g, ne→==_false j i (omega arith))
                | inr g ↦ rw g (s.3 j (ltb_false→le j m g) q)
              ],
            )
      ]

  -- A missing node reads as a node with no children.
  pub empty_node :
      (begin end j : ℕ)
      → get_value {A = A} (node null null) begin end j ≡ get_value null begin end j
  unfolding get_value read_byte
  empty_node begin end j = elim (Bool-cases (ltb j (middle_of begin end))) [
    | inl e ↦ elim (Bool-cases (ltb begin (decrement (middle_of begin end)))) [
      | inl g ↦ rw (e, g)
      | inr g ↦ rw (e, g)
    ]
    | inr e ↦ elim (Bool-cases (ltb (middle_of begin end) (decrement end))) [
      | inl g ↦ rw (e, g)
      | inr g ↦ rw (e, g)
    ]
  ]

  pub set_value-Written :
      (fuel : ℕ) (t : Tree A) (begin end i : ℕ) (v : A)
      → IsSparse begin end t
      → begin + 2 ≤ end
      → end < word
      → end - begin ≤ 2 ^ fuel
      → begin ≤ i
      → i < end
      → Written (set_value fuel t begin end i v) t begin end i v
  unfolding Written set_value children
  set_value-Written zero t begin end i v c h w enough lo hi = absurd (omega arith)
  set_value-Written (suc fuel) null begin end i v c h w enough lo hi =
      let m = middle_of begin end in
      let half = pow-suc 2 fuel in
      let s =
        set_node-Written fuel null null begin end i v (h, tt, tt) w lo hi
          (λ h' q. set_value-Written fuel null begin m i v tt h' (omega arith) (omega arith) lo q)
          (λ h' q. set_value-Written fuel null m end i v tt h' w (omega arith) q hi) in
      (s.0, s.1, s.2, λ j p q. rw (← empty_node begin end j) (s.3 j p q))
  set_value-Written (suc fuel) (leaf a) begin end i v c h w enough lo hi = absurd (omega arith)
  set_value-Written (suc fuel) (node l r) begin end i v c h w enough lo hi =
      let m = middle_of begin end in
      let half = pow-suc 2 fuel in
      set_node-Written fuel l r begin end i v c w lo hi
        (λ h' q. set_value-Written fuel l begin m i v c.1 h' (omega arith) (omega arith) lo q)
        (λ h' q. set_value-Written fuel r m end i v c.2 h' w (omega arith) q hi)
