-- ===== src/Recontex/Splitting.antt =====
-- When the paths that `split_analyze_paths` returns are the ones that it took out.
use restruc.Base.{
  ◌≡◌, refl, ap, inl, inr, arith, Bool, true, false, ◌&&◌, [], ◌∷◌, if◌then◌else◌, Bool-cases,
}
use restruc.Recontex.Paths.{AnalyzePaths, skips, taken, skipped, behind, split_analyze_paths}

unfoldable pub all_skip : AnalyzePaths → Bool
all_skip [] = true
all_skip (p ∷ ps) = skips p && all_skip ps

-- The paths that take the jump stand before those that skip it.
unfoldable pub in_order : AnalyzePaths → Bool
in_order [] = true
in_order (p ∷ ps) = if skips p then all_skip ps else in_order ps

all_skip-taken : (ps : AnalyzePaths) → all_skip ps ≡ true → taken ps ≡ []
unfolding all_skip taken
all_skip-taken [] h = refl
all_skip-taken (p ∷ ps) h = elim (Bool-cases (skips p)) [
  | inl e ↦ let later : all_skip ps ≡ true = ground arith in rw e (all_skip-taken ps later)
  | inr e ↦ let never : false ≡ true = rw e at h in cc
]

all_skip-skipped : (ps : AnalyzePaths) → all_skip ps ≡ true → skipped ps ≡ ps
unfolding all_skip skipped
all_skip-skipped [] h = refl
all_skip-skipped (p ∷ ps) h = elim (Bool-cases (skips p)) [
  | inl e ↦ let later : all_skip ps ≡ true = ground arith in rw (e, all_skip-skipped ps later)
  | inr e ↦ let never : false ≡ true = rw e at h in cc
]

-- If the paths that take the jump stand before those that skip it, the split keeps the first and
-- returns the others. (Of a skipping path before a taking one it returns the taking one.)
pub split_analyze_paths-in_order :
    (ps : AnalyzePaths) → in_order ps ≡ true → split_analyze_paths ps ≡ (taken ps, skipped ps)
unfolding split_analyze_paths behind in_order taken skipped
split_analyze_paths-in_order [] h = refl
split_analyze_paths-in_order (p ∷ ps) h = elim (Bool-cases (skips p)) [
  | inl e ↦
      let later : all_skip ps ≡ true = rw e at h in
      rw (e, all_skip-taken ps later, all_skip-skipped ps later)
  | inr e ↦
      let ih = split_analyze_paths-in_order ps (rw e at h) in
      rw e (ap (λ s. (p ∷ taken ps, s.1)) ih)
]
