-- ===== src/Context/Total.antt =====
-- Reading and writing any register of a well-formed context, tracked or not: it returns, and keeps
-- the context well formed.
use restruc.Base.{
  ℕ, ◌≡◌, refl, sym, ◌∙◌, inl, inr, Bool, true, false, Option, none, some, Option-cases,
}
use restruc.Base.Run.{done}
use restruc.Value.{Value}
use restruc.Zydis.{Register}
use restruc.Registers.{from_zydis, is_narrow, promote}
use restruc.Registers.Widths.{merged_value-wide}
use restruc.Registers.Laws.{get-Found, get-untracked, is_part, is_part-same, old_value}
use restruc.Registers.Names.{is_tracked-none}
use restruc.Context.{Hashers, AreHashers, Context, get_register, set_register}
use restruc.Context.Laws.{IsContext, set_register-Updated}

-- Whether a write of `r` may change what `q` reads: both are parts of one tracked register.
unfoldable pub touches : Register → Register → Bool
touches r q = elim (from_zydis r) [ none ↦ false | some i ↦ is_part q i ]

touches-some : (r q : Register) (i : ℕ) → from_zydis r ≡ some i → touches r q ≡ is_part q i
unfolding touches is_part
touches-some r q i e = rw (e, touches)

touches-none : (r q : Register) → from_zydis r ≡ none → touches r q ≡ false
unfolding touches
touches-none r q e = rw (e, touches)

pub touches_self : (r : Register) (i : ℕ) → from_zydis r ≡ some i → touches r r ≡ true
touches_self r i e = touches-some r r i e ∙ is_part-same r i e

pub get_register_returns :
    (c : Context) (r : Register) → IsContext c → (o : Option Value) × (get_register c r ≡ done o)
unfolding get_register
get_register_returns c r k = elim (Option-cases (from_zydis r)) [
  | inl e ↦ (none, get-untracked c.registers r e)
  | inr (i, e) ↦ let found = get-Found c.registers r i k.file e in (some found.0, found.1)
]

module _ (h : Hashers) (good : AreHashers h) where
  -- What a write of any register leaves behind.
  abbrev pub Kept : Context → Register → Value → Type 0
  Kept c r v =
      (c' : Context) × (set_register h c r v ≡ done c')
      × IsContext c'
      × (c'.memory ≡ c.memory)
      × ((q : Register) → touches r q ≡ false → get_register c' q ≡ get_register c q)
      × ((q : Register)
          → touches r q ≡ true
          → is_narrow v ≡ false
          → get_register c' q ≡ done (some v))

  pub set_register-Kept : (c : Context) (r : Register) (v : Value) → IsContext c → Kept c r v
  unfolding set_register
  set_register-Kept c r v k = elim (Option-cases (from_zydis r)) [
    | inl e ↦ (
      c,
      rw (is_tracked-none r e),
      k,
      refl,
      λ q s. refl,
      λ q s n. let none_touched = touches-none r q e in cc,
    )
    | inr (i, e) ↦
        let u = set_register-Updated h c r i v good k e in
        (
          u.1,
          u.3,
          u.4,
          u.7,
          λ q s. let part : is_part q i ≡ false = sym (touches-some r q i e) ∙ s in u.6 q ∙ rw part,
          λ q s n.
              let part : is_part q i ≡ true = sym (touches-some r q i e) ∙ s in
              let wide = merged_value-wide (promote r) v (old_value v u.0) n in
              u.6 q ∙ rw (part, wide),
        )
  ]
