-- ===== src/Trie.antt =====
-- The `Holder` of virtual/registers.hxx and of virtual/memory.hxx: a node of two untyped shared
-- pointers, each null, to another node or to a value. The code never changes a node that it has
-- published: `set` builds new nodes and shares the others, so a tree is a value of the model, and
-- parents keep theirs.
use restruc.Base.{ℕ, ◌+◌, ◌-◌, ◌/◌, ◌%◌}
use restruc.Base.Run.{Run, done, fault}
use restruc.Hash.{word}

pub data Tree {ℓ} (A : Type ℓ) : Type ℓ where
  null : Tree A
  node : Tree A → Tree A → Tree A
  leaf : A → Tree A

-- `begin + (end - begin) / 2`, where `begin` is at most `end`.
abbrev pub middle_of : ℕ → ℕ → ℕ
middle_of begin end = begin + (end - begin) / 2

-- `n - 1` on an unsigned 64-bit number.
abbrev pub decrement : ℕ → ℕ
decrement n = (n + word - 1) % word

-- `*std::static_pointer_cast<Value>(tree)`.
abbrev pub read_leaf {ℓ} : {A : Type ℓ} → Tree A → Run A
read_leaf null = fault
read_leaf (node l r) = fault
read_leaf (leaf a) = done a
