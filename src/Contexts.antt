-- ===== src/Contexts.antt =====
-- contexts.hxx: a `std::set` of contexts, which compares them by their hashes alone.
use restruc.Base.{Bool, true, false, List, [], ◌∷◌, if◌then◌else◌}
use restruc.Base.Run.{Run, done, fault}
use restruc.Context.{Context, less}

abbrev pub Contexts : Type 0
Contexts = List Context

-- `insert` and `emplace`: a context with the hash of one in the set is dropped. The answer says
-- whether it was inserted.
unfoldable pub insert : Context → Contexts → Contexts × Bool
insert c [] = (c ∷ [], true)
insert c (d ∷ cs) =
    let (rest, inserted) = insert c cs in
    if less c d
    then (c ∷ d ∷ cs, true)
    else if less d c
    then (d ∷ rest, inserted)
    else (d ∷ cs, false)

-- `pop`: the last context, of a set that is not empty.
unfoldable pub pop : Contexts → Run (Context × Contexts)
pop [] = fault
pop (c ∷ []) = done (c, [])
pop (c ∷ d ∷ cs) = elim (pop (d ∷ cs)) [
  | Run.done (last, rest) ↦ done (last, c ∷ rest)
  | Run.fault ↦ fault
  | Run.out_of_fuel ↦ Run.out_of_fuel
]
