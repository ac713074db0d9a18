-- ===== src/Reflo/Search.antt =====
-- reflo.cxx, the set of functions: lookups, the candidates for ends, and the search from the entry
-- point. An analysis runs on a thread of its own; here each one is a single step that is complete when
-- the next begins.
use restruc.Base.{
  ℕ, zero, suc, ◌+◌, ◌%◌, Bool, true, false, not, ◌&&◌, ◌||◌, Option, none, some, List, [], ◌∷◌,
  ◌++◌, if◌then◌else◌, leb, ◌==◌,
}
use restruc.Base.Run.{Run, done, fault, out_of_fuel, ◌>>=◌}
use restruc.Base.Assoc
use restruc.Base.Lookup.{before_upper_bound}
use restruc.Hash.{word}
use restruc.Zydis.{Instruction}
use restruc.Pe.{
  Pe, RuntimeFunction, virtual_to_raw_address, raw_to_virtual_address, get_runtime_function,
  get_entry_point,
}
use restruc.Flo.{Flo, Jump, Jumps, inner, outer, Call, new_flo, add_reference}
use restruc.Flo.Jumps.{promote_where}
use restruc.Reflo.Fill.{filled, decoder_error, fill_flo, post_fill_flo, from_back}

abbrev pub Flos : Type 0
Flos = List (ℕ × Flo)

-- The parts of `Reflo` that are not there for the threads.
pub record Reflo : Type 0 where
  pub pe : Pe
  pub created_flos : List ℕ
  pub flos : Flos
  pub unprocessed_flos : List ℕ

unfoldable pub new_reflo : Pe → Reflo
new_reflo pe = record { pe = pe; created_flos = []; flos = []; unprocessed_flos = [] }

flo_of : Option (ℕ × Flo) → Option Flo
flo_of none = none
flo_of (some (k, f)) = some f

-- `get_flo_by_address`; the test for an empty map is part of the lookup.
unfoldable pub get_flo_by_address : Reflo → ℕ → Option Flo
unfolding flo_of
get_flo_by_address r address = flo_of (before_upper_bound (λ e. e.0) address r.flos)

unfoldable pub get_entry_flo : Reflo → Option Flo
get_entry_flo r = elim (get_entry_point r.pe) [
  | none ↦ get_flo_by_address r 0
  | some address ↦ get_flo_by_address r address
]

last_end : List (ℕ × Instruction) → Run ℕ
last_end [] = fault
last_end ((address, ins) ∷ rest) = done ((address + ins.length) % word)

bounds_from : List (ℕ × Flo) → ℕ → Run (ℕ × ℕ)
unfolding last_end
bounds_from [] first = fault
bounds_from ((k, f) ∷ rest) first =
    last_end (from_back f.disassembly []) >>= λ last. done (first, last)

-- `get_analyzed_bounds`, which reads the last instruction of the last function.
unfoldable pub get_analyzed_bounds : Reflo → Run (ℕ × ℕ)
unfolding bounds_from
get_analyzed_bounds r = elim r.flos [
  | [] ↦ done (0, 0)
  | (first, f) ∷ rest ↦ bounds_from (from_back r.flos []) first
]

unfoldable pub get_analyzed_va_bounds : Reflo → Run (ℕ × ℕ)
get_analyzed_va_bounds r = get_analyzed_bounds r >>= λ (first, last).
    if first == 0 || last == 0
    then done (0, 0)
    else (raw_to_virtual_address r.pe first >>= λ a.
        raw_to_virtual_address r.pe last >>= λ b. done (a, b))

-- The loop of `get_possible_flo_ends`.
unfoldable pub ends_from : ℕ → Pe → ℕ → Option RuntimeFunction → Run (List ℕ)
ends_from zero pe va found = out_of_fuel
ends_from (suc fuel) pe va none = done []
ends_from (suc fuel) pe va (some f) =
    let rest = ends_from fuel pe f.end_address (get_runtime_function pe f.end_address) in
    if f.begin_address == va && not (f.end_address == 0)
    then (rest >>= λ ends. elim (virtual_to_raw_address pe f.end_address) [
      | none ↦ done ends
      | some raw_addr ↦ if raw_addr == 0 then done ends else done (raw_addr ∷ ends)
    ])
    else done []

unfoldable pub get_possible_flo_ends : ℕ → Pe → ℕ → Run (List ℕ)
get_possible_flo_ends fuel pe entry_point = raw_to_virtual_address pe entry_point >>= λ va.
    ends_from fuel pe va (get_runtime_function pe va)

-- `cannot_split`, for one jump.
unfoldable pub crosses : ℕ → Jump → Bool
crosses split jump =
    (leb jump.src split && leb split jump.dst) || (leb split jump.src && leb jump.dst split)

unfoldable pub any_crosses : ℕ → Jumps → Bool
any_crosses split [] = false
any_crosses split ((k, jump) ∷ rest) = crosses split jump || any_crosses split rest

-- `possible_split >= flo.end()`: a function without an end is less than every address.
unfoldable pub at_end : ℕ → Option ℕ → Bool
at_end split none = true
at_end split (some e) = leb e split

unfoldable pub can_split_flo : Flo → List ℕ → Bool
unfolding crosses any_crosses at_end
can_split_flo f [] = false
can_split_flo f (split ∷ splits) =
    let rest = can_split_flo f splits in
    if at_end split f.last
    then false
    else if any_crosses split f.inner_jumps
        || any_crosses split f.unknown_jumps
        || any_crosses split f.outer_jumps
    then rest
    else true

unfoldable pub was_created : ℕ → List ℕ → Bool
was_created k [] = false
was_created k (j ∷ l) = j == k || was_created k l

unfoldable pub last_of : List ℕ → Option ℕ
last_of [] = none
last_of (k ∷ []) = some k
last_of (k ∷ j ∷ l) = last_of (j ∷ l)

-- `flos_[k] = change(flos_[k])`, where the function is known.
unfoldable pub at_key : ℕ → (Flo → Flo) → Flos → Flos
at_key k change [] = []
at_key k change ((j, f) ∷ m) = if j == k then (j, change f) ∷ m else (j, f) ∷ at_key k change m

-- `add_flo`; `emplace` keeps a function that is already there.
unfoldable pub add_flo : Flo → Reflo → Reflo
add_flo f r = record r {
  flos =
      if Assoc.contains f.entry_point r.flos then r.flos else Assoc.emplace f.entry_point f r.flos;
  unprocessed_flos = r.unprocessed_flos ++ f.entry_point ∷ [];
}

-- `pop_unprocessed_flo`, of a queue that is not empty.
unfoldable pub pop_unprocessed_flo : Reflo → Run (ℕ × Reflo)
pop_unprocessed_flo r = elim r.unprocessed_flos [
  | [] ↦ fault
  | address ∷ rest ↦ done (address, record r { unprocessed_flos = rest })
]

unfoldable pub unknown_jumps_exist : Flos → Bool
unknown_jumps_exist [] = false
unknown_jumps_exist ((k, f) ∷ m) = elim f.unknown_jumps [
  | [] ↦ unknown_jumps_exist m
  | j ∷ js ↦ true
]

promote_outer : Flos → Flos → Flos
promote_outer all [] = []
promote_outer all ((k, f) ∷ m) =
    (k, promote_where outer (λ dst. Assoc.contains dst all) f) ∷ promote_outer all m

unfoldable pub promote_jumps_to_outer : Reflo → Reflo
unfolding promote_outer
promote_jumps_to_outer r = record r { flos = promote_outer r.flos r.flos }

unfoldable pub promote_inner : Flos → Flos
promote_inner [] = []
promote_inner ((k, f) ∷ m) = (k, promote_where inner (λ dst. true) f) ∷ promote_inner m

needs_post_analysis : Flos → List ℕ
needs_post_analysis [] = []
needs_post_analysis ((k, f) ∷ m) = elim f.unknown_jumps [
  | [] ↦ needs_post_analysis m
  | j ∷ js ↦ k ∷ needs_post_analysis m
]

unfoldable pub promote_jumps_to_inner : Reflo → Reflo
unfolding promote_inner needs_post_analysis
promote_jumps_to_inner r = record r {
  flos = promote_inner r.flos;
  unprocessed_flos = r.unprocessed_flos ++ needs_post_analysis r.flos;
}

module _ (decode : ℕ → ℕ → Option Instruction) (fuel : ℕ) where
  -- `run_flo_analysis`. A second request waits until the function is in the map; where it never
  -- gets there, because its analysis failed, the request waits for ever: `out_of_fuel`.
  unfoldable pub run_flo_analysis : ℕ → ℕ → Reflo → Run Reflo
  unfolding last_of
  run_flo_analysis entry_point reference r =
      let created = record r { created_flos = entry_point ∷ r.created_flos } in
      if was_created entry_point r.created_flos
      then if Assoc.contains entry_point r.flos
        then done (record r { flos = at_key entry_point (add_reference reference) r.flos })
        else out_of_fuel
      else (get_possible_flo_ends fuel r.pe entry_point >>= λ ends.
          fill_flo decode fuel r.pe (new_flo entry_point reference (last_of ends)) >>= λ o. elim o [
            | decoder_error f ↦ done created
            | filled f ↦ done (add_flo f created)
          ])

  analyze_calls : List (ℕ × Call) → Reflo → Run Reflo
  analyze_calls [] r = done r
  analyze_calls ((k, call) ∷ calls) r =
      run_flo_analysis call.dst call.src r >>= λ r'. analyze_calls calls r'

  analyze_jumps : Jumps → Reflo → Run Reflo
  analyze_jumps [] r = done r
  analyze_jumps ((k, jump) ∷ jumps) r =
      run_flo_analysis jump.dst jump.src r >>= λ r'. analyze_jumps jumps r'

  -- The loop of `find_and_analyze_flos`. `flos_[k]` of an unknown key is a null pointer.
  unfoldable pub search_loop : ℕ → Reflo → Run Reflo
  unfolding analyze_calls analyze_jumps
  search_loop zero r = out_of_fuel
  search_loop (suc rounds) r = elim r.unprocessed_flos [
    | [] ↦ done r
    | k ∷ rest ↦
        let popped = record r { unprocessed_flos = rest } in
        elim (Assoc.find k r.flos) [
          | none ↦ fault
          | some f ↦ analyze_calls f.calls popped >>= λ r₁.
              analyze_jumps f.outer_jumps r₁ >>= λ r₂. search_loop rounds r₂
        ]
  ]

  unfoldable pub find_and_analyze_flos : ℕ → Reflo → Run Reflo
  find_and_analyze_flos rounds r =
      let entry : ℕ = elim (get_entry_point r.pe) [ none ↦ 0 | some address ↦ address ] in
      run_flo_analysis entry 0 r >>= λ r'. search_loop rounds r'

  -- `post_analyze_flos`: the post analysis of each function in the queue.
  unfoldable pub post_analyze_flos : List ℕ → Reflo → Run Reflo
  post_analyze_flos [] r = done (record r { unprocessed_flos = [] })
  post_analyze_flos (k ∷ ks) r = elim (Assoc.find k r.flos) [
    | none ↦ fault
    | some f ↦ post_fill_flo decode fuel r.pe f >>= λ posted. elim posted [
      | decoder_error f' ↦ post_analyze_flos ks (record r { flos = at_key k (λ _. f') r.flos })
      | filled f' ↦ post_analyze_flos ks (record r { flos = at_key k (λ _. f') r.flos })
    ]
  ]

  -- The loop of `analyze`.
  unfoldable pub settle_loop : ℕ → Reflo → Run Reflo
  settle_loop zero r = out_of_fuel
  settle_loop (suc rounds) r =
      let promoted = promote_jumps_to_inner (promote_jumps_to_outer r) in
      if unknown_jumps_exist r.flos
      then (post_analyze_flos promoted.unprocessed_flos promoted >>= λ r'. settle_loop rounds r')
      else done r

  unfoldable pub analyze : ℕ → Reflo → Run Reflo
  analyze rounds r = find_and_analyze_flos rounds r >>= λ found. settle_loop rounds found
