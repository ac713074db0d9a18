-- ===== src/Registers/Laws.antt =====
-- `get` after `set`: the register file behaves as a map from tracked registers to values.
use restruc.Base.{
  ℕ, ◌≡◌, inl, inr, arith, if◌then◌else◌, ◌==◌, ==_refl, Bool-cases, Option-cases, sym, true, false,
  Option, none, some, Bool, ◌∙◌,
}
use restruc.Base.Run.{done, ◌>>=◌}
use restruc.Trie.{Tree}
use restruc.Value.{Value}
use restruc.Zydis.{Register}
use restruc.Registers.{
  get, set, promote, from_zydis, register_map, registers_count, find_value, store_value,
  merged_value, is_narrow,
}
use restruc.Registers.Names.{promote-promote, from_zydis-lt}
use restruc.Registers.Complete.{IsComplete, find_value-Found, store_value-Stored, Found, Stored}

abbrev pub IsFile : Tree Value → Type 0
IsFile t = IsComplete 0 registers_count t

-- What `get` and `set` do at a register whose number is known.
get-tracked :
    (t : Tree Value) (r : Register) (i : ℕ)
    → from_zydis r ≡ some i
    → get t r ≡ (find_value t 0 registers_count i >>= λ v. done (some v))
unfolding get from_zydis
get-tracked t r i e = let e' : register_map (promote r) ≡ some i = e in rw (e', get)

pub get-untracked : (t : Tree Value) (r : Register) → from_zydis r ≡ none → get t r ≡ done none
unfolding get from_zydis
get-untracked t r e = let e' : register_map (promote r) ≡ none = e in rw (e', get)

pub get-Found :
    (t : Tree Value) (r : Register) (i : ℕ)
    → IsFile t
    → from_zydis r ≡ some i
    → (v : Value) × (get t r ≡ done (some v))
unfolding Found
get-Found t r i c e =
    let found = find_value-Found t 0 registers_count i c (omega arith) (omega arith) in
    (found.0, get-tracked t r i e ∙ rw found.1)

-- Promoting first changes nothing.
pub get-promote : (t : Tree Value) (r : Register) → get t (promote r) ≡ get t r
unfolding get
get-promote t r = rw (get, promote-promote r)

-- The old value that `set` merges with.
abbrev pub old_value : Value → Value → Option Value
old_value v old = if is_narrow v then some old else none

set-tracked :
    (t : Tree Value) (r : Register) (i : ℕ) (v old : Value)
    → from_zydis r ≡ some i
    → get t r ≡ done (some old)
    → set t r v ≡ store_value t 0 registers_count i (merged_value (promote r) v (old_value v old))
unfolding set from_zydis
set-tracked t r i v old e g =
    let e' : register_map (promote r) ≡ some i = e in
    elim (Bool-cases (is_narrow v)) [
      | inl n ↦ rw (e', set, n, get-promote t r, g)
      | inr n ↦ rw (e', set, n)
    ]

-- Whether a register is, or is part of, the one with the number `i`.
unfoldable pub is_part : Register → ℕ → Bool
is_part q i = elim (from_zydis q) [ none ↦ false | some j ↦ j == i ]

is_part-tracked : (q : Register) (i j : ℕ) → from_zydis q ≡ some j → is_part q i ≡ (j == i)
unfolding is_part from_zydis
is_part-tracked q i j e = let e' : register_map (promote q) ≡ some j = e in rw (e', is_part)

is_part-untracked : (q : Register) (i : ℕ) → from_zydis q ≡ none → is_part q i ≡ false
unfolding is_part from_zydis
is_part-untracked q i e = let e' : register_map (promote q) ≡ none = e in rw (e', is_part)

pub is_part-same : (q : Register) (i : ℕ) → from_zydis q ≡ some i → is_part q i ≡ true
is_part-same q i e = is_part-tracked q i i e ∙ ==_refl i

-- In a complete tree a tracked register can be read and written; after the write it reads the merged value, as do its parts, every
-- other register reads what it did, and the tree is complete again.
pub get-set :
    (t : Tree Value) (r : Register) (i : ℕ) (v : Value)
    → IsFile t
    → from_zydis r ≡ some i
    → (old : Value) × (t' : Tree Value) × (get t r ≡ done (some old))
      × (set t r v ≡ done t')
      × IsFile t'
      × ((q : Register)
          → get t' q ≡ (
              if is_part q i
              then done (some (merged_value (promote r) v (old_value v old)))
              else get t q))
unfolding Stored
get-set t r i v c e =
    let found = get-Found t r i c e in
    let old = found.0 in
    let new = merged_value (promote r) v (old_value v old) in
    let stored =
      store_value-Stored t 0 registers_count i new c (omega arith) (omega arith) (omega arith)
        (from_zydis-lt r i e) in
    (
      old,
      stored.0,
      found.1,
      set-tracked t r i v old e found.1 ∙ stored.1,
      stored.2,
      λ q. elim (Option-cases (from_zydis q)) [
        | inl e' ↦
            rw (is_part-untracked q i e') (get-untracked stored.0 q e' ∙ sym (get-untracked t q e'))
        | inr (j, e') ↦ rw (is_part-tracked q i j e') (elim (Bool-cases (j == i)) [
          | inl s ↦
              rw (get-tracked stored.0 q j e', stored.3 j (omega arith) (from_zydis-lt q j e'), s)
          | inr s ↦ rw (
            get-tracked stored.0 q j e',
            stored.3 j (omega arith) (from_zydis-lt q j e'),
            s,
            get-tracked t q j e',
          )
        ])
      ],
    )

-- A register that is not tracked is not stored.
pub set-untracked :
    (t : Tree Value) (r : Register) (v : Value) → from_zydis r ≡ none → set t r v ≡ done t
unfolding set from_zydis
set-untracked t r v e = let e' : register_map (promote r) ≡ none = e in rw (e', set)
