-- ===== src/Memory/Write.antt =====
-- `set(address, values)` on a sparse tree, when the bytes end below the end of the address range.
use restruc.Base.{
  ℕ, zero, suc, ◌+◌, ◌-◌, ◌%◌, ◌^◌, ◌≤◌, ◌<◌, ◌≡◌, refl, sym, ◌∙◌, inl, inr, arith, ltb, leb, ◌&&◌,
  Bool, true, List, Bool-cases, ltb→lt, leb→le,
}
use native.Mathlib.Nat.{pow-suc}
use restruc.Hash.{word}
use restruc.Trie.{Tree, node, middle_of}
use restruc.Memory.{get_value, set_range, length}
use restruc.Memory.Sparse.{IsSparse}
use restruc.Memory.Ranges.{
  WrittenAll, AsNode, overlay-congruent, as_node, join_left, join_right, set_each-Written,
}

-- The ranges that halving [0, 2^fuel - 1) gives: only those at 0 have to be looked at.
abbrev pub OnGrid : ℕ → ℕ → ℕ → Type 0
OnGrid fuel begin end = begin ≡ 0 → end + 1 ≡ 2 ^ fuel

left_grid :
    (fuel begin end : ℕ)
    → begin + 2 ≤ end
    → OnGrid (suc fuel) begin end
    → OnGrid fuel begin (middle_of begin end)
left_grid fuel begin end h g z = let e = g z in omega (arith, pow-suc 2 fuel)

right_grid : (fuel begin end : ℕ) → begin + 2 ≤ end → OnGrid fuel (middle_of begin end) end
right_grid fuel begin end h z = absurd (omega arith)

-- The loop's test: `end - 3` does not wrap.
room :
    (fuel begin end : ℕ)
    → begin + 2 ≤ end
    → end < word
    → OnGrid (suc fuel) begin end
    → ltb begin ((end + word - 3) % word) ≡ true
    → begin + 4 ≤ end
room fuel zero end h w g t =
    let e = g refl in let half = pow-suc 2 fuel in let t' = ltb→lt 0 _ t in omega arith
room fuel (suc b) end h w g t = let t' = ltb→lt (suc b) _ t in omega arith

pub and_true : (a b : Bool) → a && b ≡ true → (a ≡ true) × (b ≡ true)
and_true a b h = ground arith

module _ {ℓ} {A : Type ℓ} where
  pub set_range-Written :
      (fuel : ℕ) (t : Tree A) (begin end a : ℕ) (vs : List A)
      → IsSparse begin end t
      → begin + 2 ≤ end
      → end < word
      → end - begin ≤ 2 ^ fuel
      → OnGrid fuel begin end
      → begin ≤ a
      → a + length vs ≤ end
      → WrittenAll (set_range fuel t begin end a (a + length vs) vs) t begin end a vs
  unfolding WrittenAll AsNode set_range
  set_range-Written zero t begin end a vs c h w enough g lo hi = absurd (omega arith)
  set_range-Written (suc fuel) t begin end a vs c h w enough g lo hi =
      let m = middle_of begin end in
      let last = a + length vs in
      let half = pow-suc 2 fuel in
      let here = set_each-Written (suc fuel) t begin end a vs c h w enough lo hi in
      let n = as_node t begin end c h in
      let l = n.0 in
      let r = n.1 in
      elim (Bool-cases (ltb begin ((end + word - 3) % word))) [
        | inr e ↦ (here.0, rw e here.1, here.2, here.3)
        | inl e ↦
            let wide = room fuel begin end h w g e in
            elim (Bool-cases (ltb a m && ltb last m)) [
              | inl below ↦
                  let b = and_true (ltb a m) (ltb last m) below in
                  let a_below = ltb→lt a m b.0 in
                  let last_below = ltb→lt last m b.1 in
                  let ih =
                    set_range-Written fuel l begin m a vs n.3.1 (omega arith) (omega arith)
                      (omega arith) (left_grid fuel begin end h g) lo (omega arith) in
                  let joined =
                    join_left l r ih.0 begin end a vs n.3 wide w (omega arith) ih.2 ih.3 in
                  (
                    node ih.0 r,
                    rw (e, below, n.2, ih.1),
                    joined.0,
                    λ j p q.
                        joined.1 j p q
                        ∙ overlay-congruent (get_value (node l r) begin end) (get_value t begin end)
                            a vs j (sym (n.4 j)),
                  )
              | inr other ↦ elim (Bool-cases (leb m a && leb m last)) [
                | inl above ↦
                    let b = and_true (leb m a) (leb m last) above in
                    let a_above = leb→le m a b.0 in
                    let ih =
                      set_range-Written fuel r m end a vs n.3.2 (omega arith) w (omega arith)
                        (right_grid fuel begin end h) a_above hi in
                    let joined = join_right l r ih.0 begin end a vs n.3 wide w a_above ih.2 ih.3 in
                    (
                      node l ih.0,
                      rw (e, other, above, n.2, ih.1),
                      joined.0,
                      λ j p q.
                          joined.1 j p q
                          ∙ overlay-congruent (get_value (node l r) begin end)
                              (get_value t begin end) a vs j (sym (n.4 j)),
                    )
                | inr across ↦ (here.0, rw (e, other, across) here.1, here.2, here.3)
              ]
            ]
      ]
