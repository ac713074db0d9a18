-- ===== src/Flo/Sweep.antt =====
-- Promotion of all unknown jumps that pass a test: `promote_unknown_jumps(type, predicate)`.
use restruc.Base.{
  ℕ, suc, ◌+◌, ◌≡◌, ◌≢◌, refl, sym, ap, ◌∙◌, ◌⊎◌, inl, inr, arith, Bool, true, false, not, ◌&&◌,
  ◌||◌, [], ◌∷◌, ◌==◌, Bool-cases, ==→eq,
}
use restruc.Base.Assoc
use restruc.Base.Assoc.{contains-emplace, size-emplace}
use restruc.Zydis.{Instruction}
use restruc.Flo.{Flo, Jump, JumpType, Jumps, unknown, inner, outer}
use restruc.Flo.Jumps.{add_jump, promote_each, promote_where}
use restruc.Flo.Promote.{jumps_count}

-- The table of a type of jumps.
unfoldable pub table : JumpType → Flo → Jumps
table unknown f = f.unknown_jumps
table inner f = f.inner_jumps
table outer f = f.outer_jumps

-- A jump stands under its destination.
abbrev pub IsKeyed : Jumps → Type 0
IsKeyed [] = Unit {0}
IsKeyed ((key, jump) ∷ m) = (key ≡ jump.dst) × IsKeyed m

-- A jump that is added to another table than the unknown jumps'.
Added : JumpType → ℕ → Flo → Flo → Type 0
Added type dst f f' =
    (f'.unknown_jumps ≡ f.unknown_jumps)
    × ((q : ℕ) → Assoc.contains q (table type f') ≡ (dst == q || Assoc.contains q (table type f)))
    × (jumps_count f' ≡ suc (jumps_count f))

add_jump-Added :
    (type : JumpType) (ins : Instruction) (dst src : ℕ) (f : Flo)
    → type ≢ unknown
    → Added type dst f (add_jump type ins dst src f)
unfolding add_jump Added table jumps_count
add_jump-Added unknown ins dst src f h = elim (h refl) [ ]
add_jump-Added inner ins dst src f h = (
  refl,
  λ q. contains-emplace dst q _ f.inner_jumps,
  omega (arith, size-emplace dst _ f.inner_jumps),
)
add_jump-Added outer ins dst src f h = (
  refl,
  λ q. contains-emplace dst q _ f.outer_jumps,
  omega (arith, size-emplace dst _ f.outer_jumps),
)

-- Those entries of `m` that pass the test are in the table of the type, the others are unknown.
unfoldable pub Swept : JumpType → (ℕ → Bool) → Jumps → Flo → Flo → Type 0
Swept type predicate m f f' =
    ((q : ℕ)
      → Assoc.contains q f'.unknown_jumps
        ≡ ((Assoc.contains q m && not (predicate q)) || Assoc.contains q f.unknown_jumps))
    × ((q : ℕ)
        → Assoc.contains q (table type f')
          ≡ (Assoc.contains q (table type f) || (Assoc.contains q m && predicate q)))
    × (jumps_count f' ≡ jumps_count f + Assoc.size m)

-- The test of the jump in front, which is a jump to `q` only if `q` is its key.
agree :
    (predicate : ℕ → Bool) (key dst q : ℕ) (b : Bool)
    → key ≡ dst
    → predicate dst ≡ b
    → ((key == q) ≡ false) ⊎ (((key == q) ≡ true) × (predicate q ≡ b))
agree predicate key dst q b k e = elim (Bool-cases (key == q)) [
  | inl t ↦ inr (t, ap predicate (sym (==→eq key q t) ∙ k) ∙ e)
  | inr t ↦ inl t
]

front_taken :
    (type : JumpType) (predicate : ℕ → Bool) (key : ℕ) (jump : Jump) (m : Jumps) (f f1 f' : Flo)
    → key ≡ jump.dst
    → predicate jump.dst ≡ true
    → Added type jump.dst f f1
    → Swept type predicate m f1 f'
    → Swept type predicate ((key, jump) ∷ m) f f'
unfolding Swept Added Assoc.contains
front_taken type predicate key jump m f f1 f' k e (au, at_, an) (su, st, sn) = (
  λ q. elim (agree predicate key jump.dst q true k e) [
    | inl t ↦ su q ∙ rw (au, t) refl
    | inr (t, p) ↦ su q ∙ rw (au, t, p) (swallow (Assoc.contains q m) _)
  ],
  λ q. elim (agree predicate key jump.dst q true k e) [
    | inl t ↦ st q ∙ rw (at_ q, sym k, t) refl
    | inr (t, p) ↦ st q ∙ rw (at_ q, sym k, t, p) (absorbed (Assoc.contains q (table type f)))
  ],
  sn ∙ omega (arith, an),
)
  where
    swallow : (a b : Bool) → ((a && false) || b) ≡ b
    swallow a b = ground arith

    absorbed : (a : Bool) → true ≡ (a || true)
    absorbed a = ground arith

front_kept :
    (type : JumpType) (predicate : ℕ → Bool) (key : ℕ) (jump : Jump) (m : Jumps) (f f' : Flo)
    → type ≢ unknown
    → key ≡ jump.dst
    → predicate jump.dst ≡ false
    → Swept type predicate m f f'
    → Swept type predicate
        ((key, jump) ∷ m)
        f
        (record f' { unknown_jumps = (key, jump) ∷ f'.unknown_jumps })
unfolding Swept Assoc.contains table jumps_count
front_kept unknown predicate key jump m f f' h k e s = elim (h refl) [ ]
front_kept inner predicate key jump m f f' h k e (su, st, sn) = (
  λ q. elim (agree predicate key jump.dst q false k e) [
    | inl t ↦ rw t (su q)
    | inr (t, p) ↦ rw (t, p) refl
  ],
  λ q. elim (agree predicate key jump.dst q false k e) [
    | inl t ↦ rw t (st q)
    | inr (t, p) ↦ st q ∙ rw (t, p) (ground arith)
  ],
  omega (arith, sn),
)
front_kept outer predicate key jump m f f' h k e (su, st, sn) = (
  λ q. elim (agree predicate key jump.dst q false k e) [
    | inl t ↦ rw t (su q)
    | inr (t, p) ↦ rw (t, p) refl
  ],
  λ q. elim (agree predicate key jump.dst q false k e) [
    | inl t ↦ rw t (st q)
    | inr (t, p) ↦ st q ∙ rw (t, p) (ground arith)
  ],
  omega (arith, sn),
)

promote_each-Swept :
    (type : JumpType) (predicate : ℕ → Bool) (m : Jumps) (f : Flo)
    → type ≢ unknown
    → IsKeyed m
    → Swept type predicate m f (promote_each type predicate m f)
unfolding promote_each Swept Assoc.contains
promote_each-Swept type predicate [] f h k = (λ q. refl, λ q. ground arith, omega arith)
promote_each-Swept type predicate ((key, jump) ∷ m) f h k = elim (Bool-cases (predicate jump.dst)) [
  | inl e ↦ rw e (
      front_taken type predicate key jump m f _ _ k.0 e
        (add_jump-Added type jump.ins jump.dst jump.src f h)
        (promote_each-Swept type predicate m (add_jump type jump.ins jump.dst jump.src f) h k.1))
  | inr e ↦ rw e (
      front_kept type predicate key jump m f _ h k.0 e
        (promote_each-Swept type predicate m f h k.1))
]

-- In a function whose unknown jumps stand under their destinations, those that pass the test, and no
-- others, move to the table of the type, which is not that of the unknown ones; no jump is lost.
pub promote_where-Swept :
    (type : JumpType) (predicate : ℕ → Bool) (f : Flo)
    → type ≢ unknown
    → IsKeyed f.unknown_jumps
    → (let f' = promote_where type predicate f in
        ((q : ℕ)
          → Assoc.contains q f'.unknown_jumps
            ≡ (Assoc.contains q f.unknown_jumps && not (predicate q)))
        × ((q : ℕ)
            → Assoc.contains q (table type f') ≡ (
                Assoc.contains q (table type f)
                || (Assoc.contains q f.unknown_jumps && predicate q)))
        × (jumps_count f' ≡ jumps_count f))
unfolding promote_where Swept table jumps_count Assoc.contains
promote_where-Swept unknown predicate f h k = elim (h refl) [ ]
promote_where-Swept inner predicate f h k =
    let s =
      promote_each-Swept inner predicate f.unknown_jumps (record f { unknown_jumps = [] }) h k in
    (λ q. s.0 q ∙ ground arith, s.1, s.2 ∙ omega arith)
promote_where-Swept outer predicate f h k =
    let s =
      promote_each-Swept outer predicate f.unknown_jumps (record f { unknown_jumps = [] }) h k in
    (λ q. s.0 q ∙ ground arith, s.1, s.2 ∙ omega arith)
