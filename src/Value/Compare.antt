-- ===== src/Value/Compare.antt =====
-- What the comparison of values sees.
use restruc.Base.{
  ℕ, ◌+◌, ◌*◌, ◌%◌, ◌^◌, ◌≡◌, ◌↔◌, true, arith, bit_and, bit_or, ==→eq, ==_refl, ne→==_false, ◌≢◌,
}
use restruc.Base.Masks.{low_mask, disjoint_fields}
use restruc.Hash.{word}
use restruc.Value.{Value, ValueContainer, same_value, make_value, make_symbolic_value}

-- The two fields of a symbol's raw value, as a number.
symbol_fields :
    (id offset : ℕ)
    → bit_or (id * 2 ^ 32 % word) (bit_and offset 0xFFFFFFFF)
      ≡ id % 2 ^ 32 * 2 ^ 32 + offset % 2 ^ 32
symbol_fields id offset =
    let wrapped : id * 2 ^ 32 % word ≡ id % 2 ^ 32 * 2 ^ 32 = omega arith in
    rw (low_mask 32 offset, wrapped)
      (disjoint_fields 32 (id % 2 ^ 32) (offset % 2 ^ 32) (omega arith))

abbrev pub symbol_value : ℕ → ℕ → ℕ → ℕ → Value
symbol_value source size id offset = record {
  source = source;
  container = ValueContainer.symbolic (record { id = id; offset = offset });
  size = size;
}

-- Two symbols are the same value exactly when the low halves of their identifiers and of their
-- offsets are: sources and sizes are not compared.
pub same_value-symbolic :
    (s₁ n₁ i o s₂ n₂ j p : ℕ)
    → (same_value (symbol_value s₁ n₁ i o) (symbol_value s₂ n₂ j p) ≡ true)
      ↔ ((i % 2 ^ 32 ≡ j % 2 ^ 32) × (o % 2 ^ 32 ≡ p % 2 ^ 32))
unfolding same_value
same_value-symbolic s₁ n₁ i o s₂ n₂ j p = (
  (λ e. let h = ==→eq _ _ e in omega (arith, h, symbol_fields i o, symbol_fields j p)),
  λ h. rw (symbol_fields i o, symbol_fields j p, h.0, h.1) (==_refl _),
)

-- A symbol is told apart from no number: its raw value is one.
pub same_value-concrete :
    (s n i o : ℕ)
    → same_value (symbol_value s n i o) (make_value s (i % 2 ^ 32 * 2 ^ 32 + o % 2 ^ 32) n) ≡ true
unfolding same_value make_value
same_value-concrete s n i o = rw (symbol_fields i o) (==_refl (i % 2 ^ 32 * 2 ^ 32 + o % 2 ^ 32))

-- An identifier that is given is kept, and no fresh one is taken.
pub make_symbolic_value-named :
    (next_id source size offset id : ℕ)
    → id ≢ 0
    → make_symbolic_value next_id source size offset id
      ≡ (symbol_value source size id offset, next_id)
unfolding make_symbolic_value
make_symbolic_value-named next_id source size offset id h = rw (ne→==_false id 0 h)
