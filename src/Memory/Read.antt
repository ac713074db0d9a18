-- ===== src/Memory/Read.antt =====
-- `get` on a sparse tree: where its first loop stops, and the bytes that it returns.
use restruc.Base.{
  ℕ, ◌+◌, ◌%◌, ◌≤◌, ◌<◌, ◌≡◌, refl, ◌∙◌, inl, inr, arith, ltb, leb, ◌&&◌, Option, some, List, [],
  ◌∷◌, Bool-cases, ltb→lt, leb→le, lt→ltb, le→ltb_false,
}
use restruc.Base.Run.{Run, done}
use restruc.Hash.{word}
use restruc.Value.{Value}
use restruc.Trie.{Tree, null, node, leaf, middle_of}
use restruc.Memory.{get_value, get_each, descend, length}
use restruc.Memory.Sparse.{IsSparse, several}
use restruc.Memory.Write.{and_true}

module _ {ℓ} {A : Type ℓ} where
  -- The loop stops at a part of the tree that answers for all the bytes asked for.
  unfoldable pub Stops : Run (Tree A × ℕ × ℕ) → (ℕ → Run (Option A)) → ℕ → ℕ → Type ℓ
  Stops m before a last =
      (t : Tree A) × (begin : ℕ) × (end : ℕ) × (m ≡ done (t, begin, end))
      × ((j : ℕ) → a ≤ j → j < last → get_value t begin end j ≡ before j)

  at_left :
      (l r : Tree A) (begin end j : ℕ)
      → begin + 2 ≤ middle_of begin end
      → end < word
      → j < middle_of begin end
      → get_value l begin (middle_of begin end) j ≡ get_value (node l r) begin end j
  unfolding get_value
  at_left l r begin end j h w below =
      let m = middle_of begin end in rw (lt→ltb j m below, several begin m h (omega arith))

  at_right :
      (l r : Tree A) (begin end j : ℕ)
      → middle_of begin end + 2 ≤ end
      → end < word
      → middle_of begin end ≤ j
      → get_value r (middle_of begin end) end j ≡ get_value (node l r) begin end j
  unfolding get_value
  at_right l r begin end j h w above =
      let m = middle_of begin end in rw (le→ltb_false j m above, several m end h w)

  pub descend-Stops :
      (t : Tree A) (begin end a last : ℕ)
      → IsSparse begin end t
      → end < word
      → begin ≤ a
      → a < last
      → last < end
      → Stops (descend t begin end a last) (get_value t begin end) a last
  unfolding Stops descend
  descend-Stops null begin end a last c w lo some_bytes hi = (null, begin, end, refl, λ j p q. refl)
  descend-Stops (leaf v) begin end a last c w lo some_bytes hi = absurd (omega arith)
  descend-Stops (node l r) begin end a last c w lo some_bytes hi =
      let m = middle_of begin end in
      elim (Bool-cases (ltb a m && ltb last m)) [
        | inl below ↦
            let b = and_true (ltb a m) (ltb last m) below in
            let last_below = ltb→lt last m b.1 in
            let ih = descend-Stops l begin m a last c.1 (omega arith) lo some_bytes last_below in
            (
              ih.0,
              ih.1,
              ih.2,
              rw below ih.3,
              λ j p q. ih.4 j p q ∙ at_left l r begin end j (omega arith) w (omega arith),
            )
        | inr other ↦ elim (Bool-cases (leb m a && leb m last)) [
          | inl above ↦
              let b = and_true (leb m a) (leb m last) above in
              let a_above = leb→le m a b.0 in
              let ih = descend-Stops r m end a last c.2 w a_above some_bytes hi in
              (
                ih.0,
                ih.1,
                ih.2,
                rw (other, above) ih.3,
                λ j p q. ih.4 j p q ∙ at_right l r begin end j (omega arith) w (omega arith),
              )
          | inr across ↦ (node l r, begin, end, rw (other, across), λ j p q. refl)
        ]
      ]

module _ {ℓ} {A : Type ℓ} where
  -- The bytes `vs` lie at `i`.
  abbrev pub Holds : (ℕ → Run (Option A)) → ℕ → List A → Type ℓ
  Holds read i [] = Unit
  Holds read i (v ∷ vs) = (read i ≡ done (some v)) × Holds read (i + 1) vs

  pub Holds-congruent :
      (f g : ℕ → Run (Option A)) (i : ℕ) (vs : List A)
      → ((j : ℕ) → i ≤ j → j < i + length vs → f j ≡ g j)
      → Holds g i vs
      → Holds f i vs
  Holds-congruent f g i [] same h = tt
  Holds-congruent f g i (v ∷ vs) same h = (
    same i (omega arith) (omega arith) ∙ h.0,
    Holds-congruent f g (i + 1) vs (λ j p q. same j (omega arith) (omega arith)) h.1,
  )

pub get_each-Holds :
    (default_source : ℕ) (t : Tree Value) (begin end i : ℕ) (vs : List Value) (next_id : ℕ)
    → i + length vs < word
    → Holds (get_value t begin end) i vs
    → get_each default_source t begin end i (length vs) next_id ≡ done (vs, next_id)
unfolding get_each
get_each-Holds s t begin end i [] next_id w h = refl
get_each-Holds s t begin end i (v ∷ vs) next_id w h =
    let next : (i + 1) % word ≡ i + 1 = omega arith in
    rw (h.0, next, get_each-Holds s t begin end (i + 1) vs next_id (omega arith) h.1)
