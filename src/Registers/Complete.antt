-- ===== src/Registers/Complete.antt =====
-- The trees that the register file is made of: every path from the root over [begin, end) halves
-- the range down to one leaf for each number. On such a tree the loops of `get` and `set` meet no
-- null or wrongly cast pointer.
use restruc.Base.{
  ℕ, ◌+◌, ◌≤◌, ◌<◌, ◌≡◌, inl, inr, arith, if◌then◌else◌, ltb, ◌==◌, Bool-cases, true, false, ltb→lt,
  ltb_false→le, lt→ltb, le→ltb_false, ne→==_false,
}
use restruc.Base.Run.{Run, done}
use restruc.Hash.{word}
use restruc.Trie.{Tree, null, node, leaf, middle_of, decrement, read_leaf}
use restruc.Registers.{find_value, store_value}

module _ {ℓ} {A : Type ℓ} where
  abbrev pub IsComplete : ℕ → ℕ → Tree A → Type 0
  IsComplete begin end null = ⊥
  IsComplete begin end (leaf a) = end ≡ begin + 1
  IsComplete begin end (node l r) =
      (begin + 2 ≤ end)
      × IsComplete begin (middle_of begin end) l
      × IsComplete (middle_of begin end) end r

  -- The child of a node over [begin, end), as the loop of `get` goes on with it.
  abbrev find_child : Tree A → ℕ → ℕ → ℕ → Run A
  find_child t begin end i =
      if ltb begin (decrement end) then find_value t begin end i else read_leaf t

  abbrev store_child : Tree A → ℕ → ℕ → ℕ → A → Run (Tree A)
  store_child t begin end i v =
      if ltb begin (decrement end) then store_value t begin end i v else done (leaf v)

-- The test of the loops: a range of two or more numbers has a node below it, a single one a leaf.
deep : (begin end : ℕ) → begin + 2 ≤ end → end < word → ltb begin (decrement end) ≡ true
deep begin end h w = lt→ltb begin (decrement end) (omega arith)

single : (begin end : ℕ) → end ≡ begin + 1 → end < word → ltb begin (decrement end) ≡ false
single begin end h w = le→ltb_false begin (decrement end) (omega arith)

module _ {ℓ} {A : Type ℓ} where
  unfoldable pub Found : Run A → Type ℓ
  Found m = (v : A) × (m ≡ done v)

  find_child-Found :
      (t : Tree A) (begin end i : ℕ)
      → IsComplete begin end t
      → end < word
      → (begin + 2 ≤ end → Found (find_value t begin end i))
      → Found (find_child t begin end i)
  unfolding Found
  find_child-Found null begin end i c h ih = absurd c
  find_child-Found (leaf a) begin end i c h ih = (a, rw (single begin end c h))
  find_child-Found (node l r) begin end i c h ih =
      let found = ih c.0 in (found.0, rw (deep begin end c.0 h) found.1)

  pub find_value-Found :
      (t : Tree A) (begin end i : ℕ)
      → IsComplete begin end t
      → begin + 2 ≤ end
      → end < word
      → Found (find_value t begin end i)
  unfolding Found find_value
  find_value-Found null begin end i c h w = absurd c
  find_value-Found (leaf a) begin end i c h w = absurd (omega arith)
  find_value-Found (node l r) begin end i c h w =
      let m = middle_of begin end in
      let left =
        find_child-Found l begin m i c.1 (omega arith)
          (λ h'. find_value-Found l begin m i c.1 h' (omega arith)) in
      let right = find_child-Found r m end i c.2 w (λ h'. find_value-Found r m end i c.2 h' w) in
      elim (Bool-cases (ltb i m)) [
        | inl e ↦ (left.0, rw e left.1)
        | inr e ↦ (right.0, rw e right.1)
      ]

module _ {ℓ} {A : Type ℓ} where
  -- What a store at `i` leaves: a complete tree, that reads `v` at `i` and the old value elsewhere.
  abbrev pub Reads : (ℕ → Run A) → (ℕ → Run A) → ℕ → ℕ → ℕ → A → Type ℓ
  Reads after before begin end i v =
      (j : ℕ) → begin ≤ j → j < end → after j ≡ (if j == i then done v else before j)

  unfoldable pub Stored : Run (Tree A) → Tree A → ℕ → ℕ → ℕ → A → Type ℓ
  Stored m t begin end i v =
      (t' : Tree A) × (m ≡ done t')
      × IsComplete begin end t'
      × Reads (find_value t' begin end) (find_value t begin end) begin end i v

  StoredChild : Run (Tree A) → Tree A → ℕ → ℕ → ℕ → A → Type ℓ
  StoredChild m t begin end i v =
      (t' : Tree A) × (m ≡ done t')
      × IsComplete begin end t'
      × Reads (find_child t' begin end) (find_child t begin end) begin end i v

  store_child-Stored :
      (t : Tree A) (begin end i : ℕ) (v : A)
      → IsComplete begin end t
      → end < word
      → begin ≤ i
      → i < end
      → (begin + 2 ≤ end → Stored (store_value t begin end i v) t begin end i v)
      → StoredChild (store_child t begin end i v) t begin end i v
  unfolding Stored StoredChild
  store_child-Stored null begin end i v c w lo hi ih = absurd c
  store_child-Stored (leaf a) begin end i v c w lo hi ih =
      (leaf v, rw (single begin end c w), c, λ j p q. ground arith)
  store_child-Stored (node l r) begin end i v c w lo hi ih =
      let stored = ih c.0 in
      (
        stored.0,
        rw (deep begin end c.0 w) stored.1,
        stored.2,
        λ j p q. rw (deep begin end c.0 w) (stored.3 j p q),
      )

  pub store_value-Stored :
      (t : Tree A) (begin end i : ℕ) (v : A)
      → IsComplete begin end t
      → begin + 2 ≤ end
      → end < word
      → begin ≤ i
      → i < end
      → Stored (store_value t begin end i v) t begin end i v
  unfolding Stored StoredChild store_value find_value
  store_value-Stored null begin end i v c h w lo hi = absurd c
  store_value-Stored (leaf a) begin end i v c h w lo hi = absurd (omega arith)
  store_value-Stored (node l r) begin end i v c h w lo hi =
      let m = middle_of begin end in
      elim (Bool-cases (ltb i m)) [
        | inl e ↦
            let s =
              store_child-Stored l begin m i v c.1 (omega arith) lo (ltb→lt i m e)
                (λ h'. store_value-Stored l begin m i v c.1 h' (omega arith) lo (ltb→lt i m e)) in
            (
              node s.0 r,
              rw (e, s.1),
              (h, s.2, c.2),
              λ j p q. elim (Bool-cases (ltb j m)) [
                | inl g ↦ rw g (s.3 j p (ltb→lt j m g))
                | inr g ↦
                    let far = ltb_false→le j m g in
                    let near = ltb→lt i m e in rw (g, ne→==_false j i (omega arith))
              ],
            )
        | inr e ↦
            let s =
              store_child-Stored r m end i v c.2 w (ltb_false→le i m e) hi
                (λ h'. store_value-Stored r m end i v c.2 h' w (ltb_false→le i m e) hi) in
            (
              node l s.0,
              rw (e, s.1),
              (h, c.1, s.2),
              λ j p q. elim (Bool-cases (ltb j m)) [
                | inl g ↦
                    let near = ltb→lt j m g in
                    let far = ltb_false→le i m e in rw (g, ne→==_false j i (omega arith))
                | inr g ↦ rw g (s.3 j (ltb_false→le j m g) q)
              ],
            )
      ]
