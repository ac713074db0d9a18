-- ===== src/Reflo/Settle.antt =====
-- After the unknown jumps were promoted to inner jumps, none is left.
use restruc.Base.{ℕ, ◌≡◌, ◌≢◌, ◌∙◌, refl, arith, true, false, ◌||◌, [], ◌∷◌, ◌==◌, ==_refl}
use restruc.Base.Assoc
use restruc.Flo.{Jumps, unknown, inner}
use restruc.Flo.Jumps.{promote_where}
use restruc.Flo.Promote.{jumps_count}
use restruc.Flo.Sweep.{table, IsKeyed, promote_where-Swept}
use restruc.Reflo.Search.{Reflo, Flos, unknown_jumps_exist, promote_inner, promote_jumps_to_inner}

-- In every function the unknown jumps stand under their destinations.
abbrev pub AreKeyed : Flos → Type 0
AreKeyed [] = Unit
AreKeyed ((k, f) ∷ m) = IsKeyed f.unknown_jumps × AreKeyed m

nothing_left : (js : Jumps) → ((q : ℕ) → Assoc.contains q js ≡ false) → js ≡ []
unfolding Assoc.contains
nothing_left [] h = refl
nothing_left ((k, jump) ∷ js) h =
    let own : (k == k || Assoc.contains k js) ≡ false = h k in
    let other : (k == k) ≡ true = ==_refl k in absurd (ground arith)

inner-unknown : inner ≢ unknown
inner-unknown e = cc

-- What the pass makes of each function: it has no unknown jump, an inner one to every destination that
-- had an inner or an unknown one, and as many jumps as before.
abbrev pub AreSettled : Flos → Flos → Type 0
AreSettled [] [] = Unit
AreSettled [] (e ∷ m') = ⊥
AreSettled (e ∷ m) [] = ⊥
AreSettled ((k, f) ∷ m) ((k', f') ∷ m') =
    ((k' ≡ k)
      × (f'.unknown_jumps ≡ [])
      × ((q : ℕ)
          → Assoc.contains q f'.inner_jumps
            ≡ (Assoc.contains q f.inner_jumps || Assoc.contains q f.unknown_jumps))
      × (jumps_count f' ≡ jumps_count f))
    × AreSettled m m'

promote_inner-AreSettled : (m : Flos) → AreKeyed m → AreSettled m (promote_inner m)
unfolding promote_inner table
promote_inner-AreSettled [] h = tt
promote_inner-AreSettled ((k, f) ∷ m) h =
    let s = promote_where-Swept inner (λ dst. true) f inner-unknown h.0 in
    (
      (
        refl,
        nothing_left (promote_where inner (λ dst. true) f).unknown_jumps
            (λ q. s.0 q ∙ ground arith),
        λ q. s.1 q ∙ ground arith,
        s.2,
      ),
      promote_inner-AreSettled m h.1,
    )

promote_inner-settled : (m : Flos) → AreKeyed m → unknown_jumps_exist (promote_inner m) ≡ false
unfolding unknown_jumps_exist promote_inner
promote_inner-settled [] h = refl
promote_inner-settled ((k, f) ∷ m) h =
    let settled = promote_inner-AreSettled ((k, f) ∷ m) h in
    rw settled.0.1 (promote_inner-settled m h.1)

-- Where the unknown jumps of every function stand under their destinations, `promote_jumps_to_inner`
-- leaves no unknown jump, so that `unknown_jumps_exist` answers no. In each function every destination
-- of an unknown jump becomes one of an inner jump, the others stay, and no jump is lost.
pub promote_jumps_to_inner-AreSettled :
    (r : Reflo)
    → AreKeyed r.flos
    → AreSettled r.flos (promote_jumps_to_inner r).flos
      × (unknown_jumps_exist (promote_jumps_to_inner r).flos ≡ false)
unfolding promote_jumps_to_inner
promote_jumps_to_inner-AreSettled r h =
    (promote_inner-AreSettled r.flos h, promote_inner-settled r.flos h)
