-- ===== src/Recontex/Propagation.antt =====
-- Propagating a set of contexts ends, and stores each of them.
use restruc.Base.{
  ℕ, zero, suc, ◌+◌, ◌≤◌, ◌≡◌, refl, sym, ◌⊎◌, inl, inr, arith, some, [], ◌∷◌, Bool-cases, ltb,
  ◌==◌, ◌&&◌, ◌||◌,
}
use mathlib.Core.Path.{subst}
use restruc.Base.Run.{done}
use restruc.Base.Assoc
use restruc.Base.Lookup.{Among, Among-cases, nothing-Among}
use restruc.Zydis.{Instruction}
use restruc.Context.{Context, make_child}
use restruc.Context.Laws.{IsContext}
use restruc.Contexts.{Contexts, pop, insert}
use restruc.Flo.{Flo, get_instruction}
use restruc.Recontex.{Externals}
use restruc.Recontex.Emulate.{emulate}
use restruc.Recontex.Paths.{
  FloContexts, Walk, contexts_count, emplace_context, propagate_each, propagate_contexts,
}

abbrev pub AllContexts : Contexts → Type 0
AllContexts [] = Unit
AllContexts (c ∷ cs) = IsContext c × AllContexts cs

pop-AllContexts :
    (c : Context) (cs : Contexts)
    → AllContexts (c ∷ cs)
    → (last : Context) × (rest : Contexts) × (pop (c ∷ cs) ≡ done (last, rest))
      × IsContext last
      × AllContexts rest
      × (contexts_count rest ≡ contexts_count cs)
      × ((b : Context) → Among b (c ∷ cs) → (b ≡ last) ⊎ Among b rest)
unfolding pop
pop-AllContexts c [] h = (c, [], refl, h.0, tt, refl, λ b among. Among-cases among)
pop-AllContexts c (d ∷ cs) h =
    let ih = pop-AllContexts d cs h.1 in
    let shorter = ih.5 in
    (
      ih.0,
      c ∷ ih.1,
      rw ih.2,
      ih.3,
      (h.0, ih.4),
      omega arith,
      λ b among. elim (Among-cases among) [
        | inl first ↦ inr (Among.here first)
        | inr later ↦ elim (ih.6 b later) [
          | inl same ↦ inl same
          | inr kept ↦ inr (Among.there kept)
        ]
      ],
    )

-- A context that is stored at an address stands there, and what stood in the map stays.
emplace_context-Among :
    (address : ℕ) (c : Context) (m : FloContexts) → Among (address, c) (emplace_context address c m)
unfolding emplace_context
emplace_context-Among address c [] = Among.here refl
emplace_context-Among address c ((a, d) ∷ m) =
    elim (Bool-cases (ltb address a || (address == a && ltb c.hash d.hash))) [
      | inl e ↦ rw e (Among.here refl)
      | inr e ↦ rw e (Among.there (emplace_context-Among address c m))
    ]

Among-emplace_context :
    (address : ℕ) (c : Context) (m : FloContexts) (e : ℕ × Context)
    → Among e m
    → Among e (emplace_context address c m)
unfolding emplace_context
Among-emplace_context address c [] e among = absurd (nothing-Among among)
Among-emplace_context address c ((a, d) ∷ m) e among =
    elim (Bool-cases (ltb address a || (address == a && ltb c.hash d.hash))) [
      | inl first ↦ rw first (Among.there among)
      | inr behind ↦ rw behind (elim (Among-cases among) [
        | inl same ↦ Among.here same
        | inr later ↦ Among.there (Among-emplace_context address c m e later)
      ])
    ]

-- Every context of the set stands at the address, every entry of the map still stands there, and
-- there are as many more as the set has contexts.
unfoldable pub Stored : ℕ → Contexts → FloContexts → FloContexts → Type 0
Stored address cs m m' =
    ((c : Context) → Among c cs → Among (address, c) m')
    × ((e : ℕ × Context) → Among e m → Among e m')
    × (Assoc.size m' ≡ Assoc.size m + contexts_count cs)

size-emplace_context :
    (address : ℕ) (c : Context) (m : FloContexts)
    → Assoc.size (emplace_context address c m) ≡ suc (Assoc.size m)
unfolding emplace_context
size-emplace_context address c [] = refl
size-emplace_context address c ((a, d) ∷ m) =
    elim (Bool-cases (ltb address a || (address == a && ltb c.hash d.hash))) [
      | inl e ↦ rw e refl
      | inr e ↦ let ih = size-emplace_context address c m in rw e (omega arith)
    ]

-- The emulation of the instruction returns on the child of every well-formed context.
abbrev pub Emulates : Externals → ℕ → Instruction → Type 0
Emulates x address i =
    (c : Context) (n : ℕ)
    → IsContext c
    → (r : Context × ℕ) × (emulate x address i (make_child c) n ≡ done r)

module _ (x : Externals) where
  propagate_each-stores :
      (rounds address : ℕ) (i : Instruction) (cs new_contexts : Contexts) (w : Walk)
      → Emulates x address i
      → AllContexts cs
      → contexts_count cs ≤ rounds
      → (new : Contexts) × (w' : Walk) × (propagate_each x rounds address i cs new_contexts w
          ≡ done (new, w'))
        × Stored address cs w.flo_contexts w'.flo_contexts
  unfolding propagate_each Stored
  propagate_each-stores zero address i [] new_contexts w runs h enough = (
    new_contexts,
    w,
    refl,
    (λ c among. absurd (nothing-Among among), λ e among. among, omega arith),
  )
  propagate_each-stores (suc rounds) address i [] new_contexts w runs h enough = (
    new_contexts,
    w,
    refl,
    (λ c among. absurd (nothing-Among among), λ e among. among, omega arith),
  )
  propagate_each-stores zero address i (c ∷ cs) new_contexts w runs h enough = absurd (omega arith)
  propagate_each-stores (suc rounds) address i (c ∷ cs) new_contexts w runs h enough =
      let p = pop-AllContexts c cs h in
      let shorter = p.5 in
      let e = runs p.0 w.next_id p.3 in
      let m₁ = emplace_context address p.0 w.flo_contexts in
      let w₁ : Walk = record { flo_contexts = m₁; next_id = e.0.1 } in
      let longer = size-emplace_context address p.0 w.flo_contexts in
      let ih =
        propagate_each-stores rounds address i p.1 (insert e.0.0 new_contexts).0 w₁ runs p.4
          (omega arith) in
      let stored = ih.3 in
      let sizes = stored.2 in
      (
        ih.0,
        ih.1,
        rw p.2 (rw e.1 ih.2),
        (
          λ b among. elim (p.6 b among) [
            | inl same ↦
                stored.1 (address, b)
                  (subst (λ d. Among (address, d) m₁) (sym same)
                    (emplace_context-Among address p.0 w.flo_contexts))
            | inr kept ↦ stored.0 b kept
          ],
          λ q among. stored.1 q (Among-emplace_context address p.0 w.flo_contexts q among),
          omega arith,
        ),
      )

  -- At an instruction of the function whose emulation returns on every well-formed context, the
  -- propagation of a set of well-formed contexts returns. Every context of the set is stored at the
  -- address, every entry that was in the map stays, and the map has as many entries more as the set
  -- has contexts.
  pub propagate_contexts-stores :
      (f : Flo) (address : ℕ) (i : Instruction) (cs : Contexts) (w : Walk)
      → get_instruction f address ≡ some i
      → Emulates x address i
      → AllContexts cs
      → (new : Contexts) × (w' : Walk) × (propagate_contexts x f address cs w
          ≡ done (some i, new, w'))
        × Stored address cs w.flo_contexts w'.flo_contexts
  unfolding propagate_contexts
  propagate_contexts-stores f address i cs w found runs h =
      let p = propagate_each-stores (contexts_count cs) address i cs [] w runs h (omega arith) in
      (p.0, p.1, rw (found, propagate_contexts) (rw p.2), p.3)
