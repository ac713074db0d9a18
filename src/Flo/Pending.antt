-- ===== src/Flo/Pending.antt =====
-- The inner jumps whose destinations the analysis still has to visit.
use restruc.Base.{
  ℕ, ◌≡◌, ◌≢◌, refl, sym, ap, ◌∙◌, Bool, true, false, not, ◌||◌, [], ◌∷◌, arith, inl, inr,
  if◌then◌else◌, Bool-cases, ◌==◌, ==→eq, ==_refl,
}
use mathlib.Core.Path.{subst}
use restruc.Base.Assoc
use restruc.Flo.{Flo, Jump, Jumps}
use restruc.Flo.Jumps.{first_missing, get_unanalized_inner_jump_dst}

-- What the first missing destination says of the jumps.
Missing : Jumps → Flo → ℕ → Type 0
Missing m f d =
    (d ≢ 0 → (Assoc.contains d m ≡ true) × (Assoc.contains d f.disassembly ≡ false))
    × (d ≡ 0
        → Assoc.contains 0 m ≡ false
        → (q : ℕ) → Assoc.contains q m ≡ true
        → Assoc.contains q f.disassembly ≡ true)

skipped :
    (dst d : ℕ) (jump : Jump) (m : Jumps) (f : Flo)
    → Assoc.contains dst f.disassembly ≡ true
    → Missing m f d
    → Missing ((dst, jump) ∷ m) f d
unfolding Missing Assoc.contains
skipped dst d jump m f c (some_, none_) = (
  λ h. (rw ((some_ h).0) (or_true (dst == d)), (some_ h).1),
  λ e z q t. elim (Bool-cases (dst == q)) [
    | inl s ↦ ap (λ x. Assoc.contains x f.disassembly) (sym (==→eq dst q s)) ∙ c
    | inr s ↦ none_ e (second _ _ z) q (other _ _ s t)
  ],
)
  where
    or_true : (a : Bool) → (a || true) ≡ true
    or_true a = ground arith

    second : (a b : Bool) → (a || b) ≡ false → b ≡ false
    second a b h = ground arith

    other : (a b : Bool) → a ≡ false → (a || b) ≡ true → b ≡ true
    other a b h t = ground arith

found :
    (dst : ℕ) (jump : Jump) (m : Jumps) (f : Flo)
    → Assoc.contains dst f.disassembly ≡ false
    → Missing ((dst, jump) ∷ m) f dst
unfolding Missing Assoc.contains
found dst jump m f c =
    (λ h. (rw (==_refl dst) refl, c), λ e z q t. let n : dst ≢ 0 = ground arith in elim (n e) [ ])

none-Missing : (f : Flo) → Missing [] f 0
unfolding Missing Assoc.contains
none-Missing f = (λ h. elim (h refl) [ ], λ e n q c. ground arith)

first_missing-choice :
    (dst : ℕ) (jump : Jump) (m : Jumps) (f : Flo) (b : Bool)
    → Assoc.contains dst f.disassembly ≡ b
    → first_missing ((dst, jump) ∷ m) f ≡ (if not b then dst else first_missing m f)
unfolding first_missing
first_missing-choice dst jump m f b e = rw e refl

first_missing-Missing : (m : Jumps) (f : Flo) → Missing m f (first_missing m f)
first_missing-Missing [] f = unfold first_missing in none-Missing f
first_missing-Missing ((dst, jump) ∷ m) f = elim (Bool-cases (Assoc.contains dst f.disassembly)) [
  | inl c ↦
      subst (Missing ((dst, jump) ∷ m) f) (sym (first_missing-choice dst jump m f true c))
        (skipped dst _ jump m f c (first_missing-Missing m f))
  | inr c ↦
      subst (Missing ((dst, jump) ∷ m) f) (sym (first_missing-choice dst jump m f false c))
        (found dst jump m f c)
]

-- An answer other than 0 is the destination of an inner jump that is not disassembled.
pub get_unanalized_inner_jump_dst-open :
    (f : Flo)
    → get_unanalized_inner_jump_dst f ≢ 0
    → (Assoc.contains (get_unanalized_inner_jump_dst f) f.inner_jumps ≡ true)
      × (Assoc.contains (get_unanalized_inner_jump_dst f) f.disassembly ≡ false)
unfolding get_unanalized_inner_jump_dst Missing
get_unanalized_inner_jump_dst-open f h = (first_missing-Missing f.inner_jumps f).0 h

-- After the answer 0 all destinations of inner jumps are disassembled, if none of them is 0.
pub get_unanalized_inner_jump_dst-finished :
    (f : Flo) (q : ℕ)
    → get_unanalized_inner_jump_dst f ≡ 0
    → Assoc.contains 0 f.inner_jumps ≡ false
    → Assoc.contains q f.inner_jumps ≡ true
    → Assoc.contains q f.disassembly ≡ true
unfolding get_unanalized_inner_jump_dst Missing
get_unanalized_inner_jump_dst-finished f q e z c = (first_missing-Missing f.inner_jumps f).1 e z q c
