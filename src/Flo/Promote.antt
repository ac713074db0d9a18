-- ===== src/Flo/Promote.antt =====
-- Promotion of the unknown jumps to a destination: `promote_unknown_jumps(dst, JumpType::Inner)`.
use restruc.Base.{
  ℕ, zero, suc, ◌+◌, ◌<◌, ◌≡◌, ◌≢◌, refl, ◌∙◌, inl, inr, arith, Bool, true, false, not, ◌&&◌, ◌||◌,
  some, ◌==◌, Bool-cases, Option-cases, ==→eq,
}
use mathlib.Core.Path.{subst}
use restruc.Base.Assoc
use restruc.Base.Assoc.{contains-emplace, size-emplace}
use restruc.Base.Extract.{Extracted, extract-Extracted}
use restruc.Flo.{Flo, Jump, Jumps, inner}
use restruc.Flo.Jumps.{add_jump, promote_loop, promote_to}

-- The jumps in the three tables.
unfoldable pub jumps_count : Flo → ℕ
jumps_count f = Assoc.size f.inner_jumps + Assoc.size f.outer_jumps + Assoc.size f.unknown_jumps

-- What the loop leaves alone.
unfoldable pub SameOther : Flo → Flo → Type 0
SameOther f f' =
    (f'.entry_point ≡ f.entry_point)
    × (f'.last ≡ f.last)
    × (f'.disassembly ≡ f.disassembly)
    × (f'.outer_jumps ≡ f.outer_jumps)

-- Of the unknown jumps those to `dst`, and no others, are inner jumps now; `promoted` says whether
-- there was one, or one had been promoted before.
unfoldable pub Promoted : ℕ → Bool → Flo → Flo × Bool → Type 0
unfolding SameOther jumps_count
Promoted dst before f (f', promoted) =
    (Assoc.contains dst f'.unknown_jumps ≡ false)
    × ((q : ℕ) → q ≢ dst → Assoc.contains q f'.unknown_jumps ≡ Assoc.contains q f.unknown_jumps)
    × ((q : ℕ)
        → Assoc.contains q f'.inner_jumps
          ≡ (Assoc.contains q f.inner_jumps || (dst == q && Assoc.contains dst f.unknown_jumps)))
    × (promoted ≡ (before || Assoc.contains dst f.unknown_jumps))
    × (jumps_count f' ≡ jumps_count f)
    × SameOther f f'

-- No jump to `dst` is left.
none_left :
    (dst : ℕ) (before : Bool) (f : Flo)
    → Assoc.contains dst f.unknown_jumps ≡ false
    → Promoted dst before f (f, before)
unfolding Promoted SameOther
none_left dst before f e =
    (e, λ q ne. refl, λ q. ground arith, ground arith, refl, (refl, refl, refl, refl))

-- The round that moves one jump.
moved : ℕ → Jump → Jumps → Flo → Flo
moved dst jump rest f = add_jump inner jump.ins dst jump.src (record f { unknown_jumps = rest })

absorb : (a b c : Bool) → ((a || b) || (a && c)) ≡ (b || (a && true))
absorb a b c = ground arith

absorbed : (a : Bool) → true ≡ (a || true)
absorbed a = ground arith

one_moved :
    (dst : ℕ) (before : Bool) (f : Flo) (jump : Jump) (rest : Jumps) (r : Flo × Bool)
    → Extracted dst f.unknown_jumps (some (jump, rest))
    → Promoted dst true (moved dst jump rest f) r
    → Promoted dst before f r
unfolding Promoted SameOther moved add_jump Extracted jumps_count
one_moved dst before f jump rest (f', promoted) (hs, hc, ho) (u, v, w, p, n, l) =
    let c : (q : ℕ)
        → Assoc.contains q (moved dst jump rest f).inner_jumps
          ≡ (dst == q || Assoc.contains q f.inner_jumps) =
      λ q. contains-emplace dst q _ f.inner_jumps in
    let z : Assoc.size (moved dst jump rest f).inner_jumps ≡ suc (Assoc.size f.inner_jumps) =
      size-emplace dst _ f.inner_jumps in
    (
      u,
      λ q ne. v q ne ∙ ho q ne,
      λ q. rw (w q, c q, hc) (absorb (dst == q) _ _),
      p ∙ (rw hc (absorbed before)),
      n ∙ omega arith,
      l,
    )

no_less : {n : ℕ} → n < 0 → ⊥
no_less h = omega arith

pub promote_loop-Promoted :
    (fuel dst : ℕ) (before : Bool) (f : Flo)
    → Assoc.size f.unknown_jumps < fuel
    → Promoted dst before f (promote_loop fuel dst inner before f)
unfolding promote_loop moved Extracted add_jump
promote_loop-Promoted zero dst before f h = elim (no_less h) [ ]
promote_loop-Promoted (suc fuel) dst before f h =
    elim (Option-cases (Assoc.extract dst f.unknown_jumps)) [
      | inl e ↦
          rw (e, promote_loop)
            (none_left dst before f
              (subst (Extracted dst f.unknown_jumps) e (extract-Extracted dst f.unknown_jumps)))
      | inr (x, e) ↦
          let g : Extracted dst f.unknown_jumps (some x) =
            subst (Extracted dst f.unknown_jumps) e (extract-Extracted dst f.unknown_jumps) in
          rw (e, promote_loop)
            (one_moved dst before f x.0 x.1 _ g
              (promote_loop-Promoted fuel dst true (moved dst x.0 x.1 f) (omega arith)))
    ]

pub promote_to-Promoted : (dst : ℕ) (f : Flo) → Promoted dst false f (promote_to dst inner f)
unfolding promote_to
promote_to-Promoted dst f =
    promote_loop-Promoted (suc (Assoc.size f.unknown_jumps)) dst false f (omega arith)

-- Of the unknown jumps those to `dst`, and no others, become inner jumps, the answer says whether
-- there was one, no jump is lost, and entry, end, instructions and outer jumps stay.
pub promote_to-moves :
    (dst q : ℕ) (f : Flo)
    → (let (f', promoted) = promote_to dst inner f in
        (Assoc.contains q f'.unknown_jumps ≡ (not (dst == q) && Assoc.contains q f.unknown_jumps))
        × (Assoc.contains q f'.inner_jumps
            ≡ (Assoc.contains q f.inner_jumps || (dst == q && Assoc.contains dst f.unknown_jumps)))
        × (promoted ≡ Assoc.contains dst f.unknown_jumps)
        × (jumps_count f' ≡ jumps_count f)
        × SameOther f f')
unfolding Promoted
promote_to-moves dst q f =
    let (none_left, others, moved_in, answer, count, same) = promote_to-Promoted dst f in
    (
      elim (Bool-cases (dst == q)) [
        | inl e ↦ rw e (
            subst (λ z. Assoc.contains z (promote_to dst inner f).0.unknown_jumps ≡ false)
              (==→eq dst q e) none_left)
        | inr e ↦ rw e (others q (ground arith))
      ],
      moved_in q,
      answer,
      count,
      same,
    )
