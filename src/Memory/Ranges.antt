-- ===== src/Memory/Ranges.antt =====
-- Runs of bytes: the writing loops of `set` and the first loop of `get`.
use restruc.Base.{
  ℕ, ◌+◌, ◌-◌, ◌%◌, ◌^◌, ◌≤◌, ◌<◌, ◌≡◌, refl, sym, ◌∙◌, inl, inr, arith, if◌then◌else◌, ltb, ◌==◌,
  Option, some, List, [], ◌∷◌, Bool-cases, ltb→lt, ltb_false→le, ne→==_false, ==→eq,
}
use restruc.Base.Run.{Run, done}
use restruc.Hash.{word}
use restruc.Trie.{Tree, null, node, leaf, middle_of}
use restruc.Memory.{get_value, set_value, set_each, children, length}
use restruc.Memory.Sparse.{IsSparse, Written, set_value-Written, several, empty_node}

module _ {ℓ} {A : Type ℓ} where
  -- What is read when the bytes `vs` lie at `i` over what was there before.
  abbrev pub overlay : (ℕ → Run (Option A)) → ℕ → List A → ℕ → Run (Option A)
  overlay before i [] j = before j
  overlay before i (v ∷ vs) j = if j == i then done (some v) else overlay before (i + 1) vs j

  pub overlay-outside :
      (before : ℕ → Run (Option A)) (i : ℕ) (vs : List A) (j : ℕ)
      → (j < i → overlay before i vs j ≡ before j)
        × (i + length vs ≤ j → overlay before i vs j ≡ before j)
  overlay-outside before i [] j = ((λ h. refl), λ h. refl)
  overlay-outside before i (v ∷ vs) j = (
    (λ h.
        rw (ne→==_false j i (omega arith)) ((overlay-outside before (i + 1) vs j).0 (omega arith))),
    λ h. rw (ne→==_false j i (omega arith)) ((overlay-outside before (i + 1) vs j).1 (omega arith)),
  )

  -- Only what was at the address itself matters.
  pub overlay-congruent :
      (f g : ℕ → Run (Option A)) (i : ℕ) (vs : List A) (j : ℕ)
      → f j ≡ g j
      → overlay f i vs j ≡ overlay g i vs j
  overlay-congruent f g i [] j h = h
  overlay-congruent f g i (v ∷ vs) j h = elim (Bool-cases (j == i)) [
    | inl e ↦ rw e
    | inr e ↦ rw e (overlay-congruent f g (i + 1) vs j h)
  ]

  unfoldable pub WrittenAll : Run (Tree A) → Tree A → ℕ → ℕ → ℕ → List A → Type ℓ
  WrittenAll m t begin end i vs =
      (t' : Tree A) × (m ≡ done t')
      × IsSparse begin end t'
      × ((j : ℕ)
          → begin ≤ j
          → j < end
          → get_value t' begin end j ≡ overlay (get_value t begin end) i vs j)

  set_each-cons :
      (fuel : ℕ) (t t' : Tree A) (begin end i : ℕ) (v : A) (vs : List A)
      → i + 1 < word
      → set_value fuel t begin end i v ≡ done t'
      → set_each fuel t begin end i (v ∷ vs) ≡ set_each fuel t' begin end (i + 1) vs
  unfolding set_each
  set_each-cons fuel t t' begin end i v vs h e =
      let next : (i + 1) % word ≡ i + 1 = omega arith in rw (e, next)

  pub set_each-Written :
      (fuel : ℕ) (t : Tree A) (begin end i : ℕ) (vs : List A)
      → IsSparse begin end t
      → begin + 2 ≤ end
      → end < word
      → end - begin ≤ 2 ^ fuel
      → begin ≤ i
      → i + length vs ≤ end
      → WrittenAll (set_each fuel t begin end i vs) t begin end i vs
  unfolding WrittenAll Written set_each
  set_each-Written fuel t begin end i [] c h w enough lo hi = (t, refl, c, λ j p q. refl)
  set_each-Written fuel t begin end i (v ∷ vs) c h w enough lo hi =
      let s = set_value-Written fuel t begin end i v c h w enough lo (omega arith) in
      let rest =
        set_each-Written fuel s.0 begin end (i + 1) vs s.2 h w enough (omega arith) (omega arith) in
      (
        rest.0,
        set_each-cons fuel t s.0 begin end i v vs (omega arith) s.1 ∙ rest.1,
        rest.2,
        λ j p q. rest.3 j p q ∙ elim (Bool-cases (j == i)) [
          | inl e ↦
              let same = ==→eq j i e in
              rw e (
                (overlay-outside (get_value s.0 begin end) (i + 1) vs j).0 (omega arith)
                ∙ s.3 j p q
                ∙ rw e)
          | inr e ↦ rw e (
              overlay-congruent (get_value s.0 begin end) (get_value t begin end) (i + 1) vs j
                (s.3 j p q ∙ rw e))
        ],
      )

module _ {ℓ} {A : Type ℓ} where
  -- A range of four or more numbers has nodes on both sides.
  pub wide_child :
      (t : Tree A) (begin end j : ℕ) (l r : Tree A)
      → t ≡ node l r
      → begin + 4 ≤ end
      → end < word
      → get_value t begin end j ≡ (
          if ltb j (middle_of begin end)
          then get_value l begin (middle_of begin end) j
          else get_value r (middle_of begin end) end j)
  unfolding get_value
  wide_child t begin end j l r e h w = rw (
    e,
    several begin (middle_of begin end) (omega arith) (omega arith),
    several (middle_of begin end) end (omega arith) w,
  )

  -- A tree that is no leaf, seen as a node.
  unfoldable pub AsNode : Tree A → ℕ → ℕ → Type ℓ
  AsNode t begin end =
      (l : Tree A) × (r : Tree A) × (children t ≡ done (l, r))
      × IsSparse begin end (node l r)
      × ((j : ℕ) → get_value t begin end j ≡ get_value (node l r) begin end j)

  pub as_node :
      (t : Tree A) (begin end : ℕ) → IsSparse begin end t → begin + 2 ≤ end → AsNode t begin end
  unfolding AsNode children
  as_node null begin end c h = (null, null, refl, (h, tt, tt), λ j. sym (empty_node begin end j))
  as_node (leaf a) begin end c h = absurd (omega arith)
  as_node (node l r) begin end c h = (l, r, refl, c, λ j. refl)

  -- Writing below one child of a node writes below the node.
  pub join_left :
      (l r l' : Tree A) (begin end a : ℕ) (vs : List A)
      → IsSparse begin end (node l r)
      → begin + 4 ≤ end
      → end < word
      → a + length vs ≤ middle_of begin end
      → IsSparse begin (middle_of begin end) l'
      → ((j : ℕ)
          → begin ≤ j
          → j < middle_of begin end
          → get_value l' begin (middle_of begin end) j
            ≡ overlay (get_value l begin (middle_of begin end)) a vs j)
      → IsSparse begin end (node l' r)
        × ((j : ℕ)
            → begin ≤ j
            → j < end
            → get_value (node l' r) begin end j ≡ overlay (get_value (node l r) begin end) a vs j)
  join_left l r l' begin end a vs c h w below c' reads =
      let m = middle_of begin end in
      let old = get_value (node l r) begin end in
      (
        (c.0, c', c.2),
        λ j p q.
            let now = wide_child (node l' r) begin end j l' r refl h w in
            let then' = wide_child (node l r) begin end j l r refl h w in
            elim (Bool-cases (ltb j m)) [
              | inl e ↦
                  now
                  ∙ rw e (
                      reads j p (ltb→lt j m e)
                      ∙ overlay-congruent (get_value l begin m) old a vs j (sym (then' ∙ rw e)))
              | inr e ↦
                  let far = ltb_false→le j m e in
                  now ∙ rw e (sym ((overlay-outside old a vs j).1 (omega arith) ∙ then' ∙ rw e))
            ],
      )

  pub join_right :
      (l r r' : Tree A) (begin end a : ℕ) (vs : List A)
      → IsSparse begin end (node l r)
      → begin + 4 ≤ end
      → end < word
      → middle_of begin end ≤ a
      → IsSparse (middle_of begin end) end r'
      → ((j : ℕ)
          → middle_of begin end ≤ j
          → j < end
          → get_value r' (middle_of begin end) end j
            ≡ overlay (get_value r (middle_of begin end) end) a vs j)
      → IsSparse begin end (node l r')
        × ((j : ℕ)
            → begin ≤ j
            → j < end
            → get_value (node l r') begin end j ≡ overlay (get_value (node l r) begin end) a vs j)
  join_right l r r' begin end a vs c h w above c' reads =
      let m = middle_of begin end in
      let old = get_value (node l r) begin end in
      (
        (c.0, c.1, c'),
        λ j p q.
            let now = wide_child (node l r') begin end j l r' refl h w in
            let then' = wide_child (node l r) begin end j l r refl h w in
            elim (Bool-cases (ltb j m)) [
              | inl e ↦
                  let near = ltb→lt j m e in
                  now ∙ rw e (sym ((overlay-outside old a vs j).0 (omega arith) ∙ then' ∙ rw e))
              | inr e ↦
                  now
                  ∙ rw e (
                      reads j (ltb_false→le j m e) q
                      ∙ overlay-congruent (get_value r m end) old a vs j (sym (then' ∙ rw e)))
            ],
      )
