-- ===== src/Memory.antt =====
-- virtual/memory.hxx and virtual/memory.cxx: the emulated memory, a byte to a leaf, as a persistent
-- binary tree over [0, 2^64 - 1) in which a missing child is null. `next_id_` is threaded, since
-- reading unknown memory makes symbols. The loops of `set` halve the range at each round: 64 rounds
-- are enough, so the fuel is 64.
pub mod Sparse
pub mod Ranges
pub mod Write
pub mod Read
pub mod Laws
pub mod Convert
pub mod RoundTrip
pub mod ReadBack
use restruc.Base.{
  ℕ, zero, suc, ◌+◌, ◌-◌, ◌*◌, ◌/◌, ◌%◌, ◌^◌, Bool, true, false, not, ◌&&◌, Option, none, some,
  List, [], ◌∷◌, bit_or, if◌then◌else◌, ltb, leb,
}
use restruc.Base.Run.{Run, done, fault, out_of_fuel, ◌>>=◌}
use restruc.Hash.{word, combine, reverse}
use restruc.Trie.{Tree, null, node, leaf, middle_of, decrement}
use restruc.Value.{Value, ValueContainer, concrete, symbolic, make_value, make_symbolic_value}

-- `Memory::Values`.
pub record Values : Type 0 where
  pub address : ℕ
  pub container : List Value

pub record Memory : Type 0 where
  pub default_source : ℕ
  pub holder : Tree Value

-- `~0`, the end of the root's range.
abbrev pub top : ℕ
top = 2 ^ 64 - 1

-- `Memory(nullptr)`; a child starts as its parent.
unfoldable pub new_memory : Memory
new_memory = record { default_source = 0; holder = node null null }

-- The two children that the code reads through `tree`, if it is not null.
unfoldable pub children {ℓ} : {A : Type ℓ} → Tree A → Run (Tree A × Tree A)
children null = done (null, null)
children (node l r) = done (l, r)
children (leaf a) = fault

-- `set_value`: the tree with a new path to the leaf of `address`.
unfoldable pub set_value {ℓ} : {A : Type ℓ} → ℕ → Tree A → ℕ → ℕ → ℕ → A → Run (Tree A)
unfolding children
set_value zero tree begin end address v = out_of_fuel
set_value (suc fuel) tree begin end address v =
    let middle = middle_of begin end in
    children tree >>= λ (l, r).
    let left = set_value fuel l begin middle address v in
    let right = set_value fuel r middle end address v in
    if ltb address middle
    then ((if ltb begin (decrement middle) then left else done (leaf v)) >>= λ new_l.
        done (node new_l r))
    else ((if ltb middle (decrement end) then right else done (leaf v)) >>= λ new_r.
        done (node l new_r))

-- The last loop of `set`: one `set_value` for each byte, each on the tree that the last one left.
unfoldable pub set_each {ℓ} : {A : Type ℓ} → ℕ → Tree A → ℕ → ℕ → ℕ → List A → Run (Tree A)
set_each fuel tree begin end i [] = done tree
set_each fuel tree begin end i (v ∷ vs) = do
  tree' ← set_value fuel tree begin end i v
  set_each fuel tree' begin end ((i + 1) % word) vs

-- Both loops of `set(address, values)`: down to the node whose range holds all bytes, then the bytes.
unfoldable pub set_range {ℓ} : {A : Type ℓ} → ℕ → Tree A → ℕ → ℕ → ℕ → ℕ → List A → Run (Tree A)
unfolding children set_each
set_range zero tree begin end address address_end vs = out_of_fuel
set_range (suc fuel) tree begin end address address_end vs =
    let middle = middle_of begin end in
    let here = set_each (suc fuel) tree begin end address vs in
    let left = children tree >>= λ (l, r).
    set_range fuel l begin middle address address_end vs >>= λ new_l. done (node new_l r) in
    let right = children tree >>= λ (l, r).
    set_range fuel r middle end address address_end vs >>= λ new_r. done (node l new_r) in
    if ltb begin ((end + word - 3) % word)
    then (if ltb address middle && ltb address_end middle
        then left
        else if leb middle address && leb middle address_end
        then right
        else here)
    else here

abbrev pub length {ℓ} : {A : Type ℓ} → List A → ℕ
length [] = 0
length (x ∷ xs) = suc (length xs)

-- `set(address, values)`.
unfoldable pub set_bytes : Memory → ℕ → List Value → Run Memory
set_bytes m address [] = done m
set_bytes m address (v ∷ vs) = do
  holder ← set_range 64 m.holder 0 top address ((address + length (v ∷ vs)) % word) (v ∷ vs)
  done (record m { holder = holder })

-- `std::static_pointer_cast<Value>(value)`, where the pointer may be null.
unfoldable pub read_byte {ℓ} : {A : Type ℓ} → Tree A → Run (Option A)
read_byte null = done none
read_byte (leaf a) = done (some a)
read_byte (node l r) = fault

-- The loop of `get_value`; `none` where the code ends with a null pointer.
unfoldable pub get_value {ℓ} : {A : Type ℓ} → Tree A → ℕ → ℕ → ℕ → Run (Option A)
unfolding read_byte
get_value null begin end address = done none
get_value (leaf a) begin end address = fault
get_value (node l r) begin end address =
    let middle = middle_of begin end in
    let left = get_value l begin middle address in
    let right = get_value r middle end address in
    if ltb address middle
    then if ltb begin (decrement middle) then left else read_byte l
    else if ltb middle (decrement end)
    then right
    else read_byte r

-- The first loop of `get`, which goes down while all bytes lie on one side. A leaf there would be
-- used as a node.
unfoldable pub descend {ℓ} : {A : Type ℓ} → Tree A → ℕ → ℕ → ℕ → ℕ → Run (Tree A × ℕ × ℕ)
descend null begin end address address_end = done (null, begin, end)
descend (leaf a) begin end address address_end = fault
descend (node l r) begin end address address_end =
    let middle = middle_of begin end in
    let left = descend l begin middle address address_end in
    let right = descend r middle end address address_end in
    if ltb address middle && ltb address_end middle
    then left
    else if leb middle address && leb middle address_end
    then right
    else done (node l r, begin, end)

unfoldable pub is_null {ℓ} : {A : Type ℓ} → Tree A → Bool
is_null null = true
is_null _ = false

-- The value that `get_value` returns: the byte, or a fresh symbol.
unfoldable pub known_or_fresh : ℕ → ℕ → Option Value → Value × ℕ
known_or_fresh default_source next_id (some v) = (v, next_id)
known_or_fresh default_source next_id none = make_symbolic_value next_id default_source 1 0 0

-- The last loop of `get`.
unfoldable pub get_each : ℕ → Tree Value → ℕ → ℕ → ℕ → ℕ → ℕ → Run (List Value × ℕ)
unfolding known_or_fresh
get_each default_source tree begin end i zero next_id = done ([], next_id)
get_each default_source tree begin end i (suc count) next_id = do
  byte ← get_value tree begin end i
  let (v, next_id') = known_or_fresh default_source next_id byte
  (vs, last_id) ← get_each default_source tree begin end ((i + 1) % word) count next_id'
  done (v ∷ vs, last_id)

-- The `size` bytes of a number, the low one first.
unfoldable pub number_bytes : ℕ → ℕ → ℕ → List Value
number_bytes source zero n = []
number_bytes source (suc size) n =
    make_value source (n % 256) 1 ∷ number_bytes source size (n / 256)

-- `std::hash` of the two integer types.
module _ (hash_uint hash_int : ℕ → ℕ) where
  -- Bytes of one symbol: each takes the hash of the one before it, combined with the address.
  unfoldable pub symbol_bytes : ℕ → ℕ → ℕ → ℕ → ℕ → ℕ → List Value × ℕ
  symbol_bytes source offset address zero id next_id = ([], next_id)
  symbol_bytes source offset address (suc count) id next_id =
      let id' = combine hash_uint id address in
      let (v, next_id') = make_symbolic_value next_id source 1 offset id' in
      let (vs, last_id) = symbol_bytes source offset address count id' next_id' in (v ∷ vs, last_id)

  -- `Values::Values`: what memory holds that nothing was written to.
  unfoldable pub default_values : ℕ → ℕ → ℕ → ℕ → List Value × ℕ
  unfolding symbol_bytes
  default_values address size default_source next_id =
      symbol_bytes default_source 0 address size (combine hash_int address 0) next_id

  unfoldable pub value_bytes : ℕ → Value → ValueContainer → ℕ → Run (List Value × ℕ)
  unfolding symbol_bytes number_bytes
  value_bytes address v (concrete n) next_id =
      if leb v.size 8 then done (number_bytes v.source v.size n, next_id) else fault
  value_bytes address v (symbolic s) next_id =
      done (symbol_bytes v.source s.offset address v.size (combine hash_int s.id s.offset) next_id)

  -- `set(address, value)`.
  unfoldable pub set : Memory → ℕ → Value → ℕ → Run (Memory × ℕ)
  unfolding value_bytes
  set m address v next_id = do
    (bytes, next_id') ← value_bytes address v v.container next_id
    m' ← set_bytes m address bytes
    done (m', next_id')

  -- `get(address, size)`.
  unfoldable pub get : Memory → ℕ → ℕ → ℕ → Run (Values × ℕ)
  unfolding default_values get_each is_null
  get m address size next_id = do
    let (defaults, next_id') = default_values address size m.default_source next_id
    (tree, begin, end) ← descend m.holder 0 top address ((address + size) % word)
    (bytes, last_id) ←
        if is_null tree
        then done (defaults, next_id')
        else get_each m.default_source tree begin end address size next_id'
    done (record { address = address; container = bytes }, last_id)
