-- ===== src/Context/Laws.antt =====
-- Registers of a context, and what its hash remembers of the writes.
use restruc.Base.{
  ℕ, ◌<◌, ◌≡◌, refl, sym, ◌∙◌, inl, inr, true, false, some, if◌then◌else◌, Bool-cases,
}
use restruc.Base.Run.{done}
use restruc.Hash.{word}
use restruc.Value.{Value}
use restruc.Zydis.{Register}
use restruc.Registers.{from_zydis, is_tracked, is_narrow, merged_value, promote}
use restruc.Registers.Laws.{IsFile, get-set, old_value, is_part, is_part-same}
use restruc.Registers.Names.{is_tracked-some}
use restruc.Registers.Widths.{merged_value-wide}
use restruc.Context.{
  Hashers, AreHashers, Context, get_register, take_value, put_value, set_register,
}
use restruc.Context.Hash.{put_value-lt, take_value-lt, take_value-put_value, put_value-take_value}

-- The register trees are complete and the hash is a word.
pub record IsContext (c : Context) : Type 0 where
  pub file : IsFile c.registers
  pub hash_bound : c.hash < word

module _ (h : Hashers) where
  -- What a write of a tracked register leaves.
  abbrev pub Updated : Context → Register → ℕ → Value → Type 0
  Updated c r i v =
      (old : Value) × (c' : Context) × (get_register c r ≡ done (some old))
      × (set_register h c r v ≡ done c')
      × IsContext c'
      × (c'.hash ≡ put_value h (take_value h c.hash old) v)
      × ((q : Register)
          → get_register c' q ≡ (
              if is_part q i
              then done (some (merged_value (promote r) v (old_value v old)))
              else get_register c q))
      × (c'.memory ≡ c.memory)

  -- Writing a tracked register returns, and takes its old value out of the hash and puts the new one
  -- in; it reads the merged value then, other registers and memory are as before.
  pub set_register-Updated :
      (c : Context) (r : Register) (i : ℕ) (v : Value)
      → AreHashers h
      → IsContext c
      → from_zydis r ≡ some i
      → Updated c r i v
  unfolding set_register get_register
  set_register-Updated c r i v good k e =
      let s = get-set c.registers r i v k.file e in
      let new = put_value h (take_value h c.hash s.0) v in
      let c' : Context = record c { hash = new; registers = s.1 } in
      let tracked : is_tracked r ≡ true = is_tracked-some r i e in
      (
        s.0,
        c',
        s.2,
        rw (tracked, s.2, s.3),
        record { file = s.4; hash_bound = put_value-lt h good (take_value h c.hash s.0) v },
        refl,
        s.5,
        refl,
      )

  same_done : (a b : Value) → done (some a) ≡ done (some b) → a ≡ b
  same_done a b e = cc

  -- Reading the register that was just written.
  pub reads_back :
      (c : Context) (r : Register) (i : ℕ) (v : Value) (u : Updated c r i v)
      → from_zydis r ≡ some i
      → is_narrow v ≡ false
      → get_register u.1 r ≡ done (some v)
  reads_back c r i v u e wide =
      let merged = merged_value-wide (promote r) v (old_value v u.0) wide in
      u.6 r ∙ rw (is_part-same r i e, merged)

  -- The second write of a register replaces the first without a trace: hash and registers are as
  -- after the second write alone. Neither value is a one- or two-byte number.
  pub set_register_last :
      (c : Context) (r : Register) (i : ℕ) (v w : Value)
      → AreHashers h
      → IsContext c
      → from_zydis r ≡ some i
      → is_narrow v ≡ false
      → is_narrow w ≡ false
      → (c₁ : Context) × (c₂ : Context) × (d : Context) × (set_register h c r v ≡ done c₁)
        × (set_register h c₁ r w ≡ done c₂)
        × (set_register h c r w ≡ done d)
        × (c₂.hash ≡ d.hash)
        × ((q : Register) → get_register c₂ q ≡ get_register d q)
  set_register_last c r i v w good k e nv nw =
      let u = set_register-Updated c r i v good k e in
      let u₂ = set_register-Updated u.1 r i w good u.4 e in
      let d = set_register-Updated c r i w good k e in
      let stored = same_done u₂.0 v (sym u₂.2 ∙ reads_back c r i v u e nv) in
      let same_old = same_done u.0 d.0 (sym u.2 ∙ d.2) in
      let taken =
        take_value-put_value h good (take_value h c.hash u.0) v (take_value-lt h good c.hash u.0) in
      (
        u.1,
        u₂.1,
        d.1,
        u.3,
        u₂.3,
        d.3,
        u₂.5 ∙ rw (stored, u.5, taken, same_old) (sym d.5),
        λ q. elim (Bool-cases (is_part q i)) [
          | inl s ↦
              u₂.6 q
              ∙ rw (s, merged_value-wide (promote r) w (old_value w u₂.0) nw)
                  (sym (d.6 q ∙ rw (s, merged_value-wide (promote r) w (old_value w d.0) nw)))
          | inr s ↦ u₂.6 q ∙ rw s (u.6 q ∙ rw s (sym (d.6 q ∙ rw s)))
        ],
      )

  -- Writing a tracked register and then its old value restores the hash and every register. Neither
  -- value is a one- or two-byte number.
  pub set_register_restore :
      (c : Context) (r : Register) (i : ℕ) (v old : Value)
      → AreHashers h
      → IsContext c
      → from_zydis r ≡ some i
      → get_register c r ≡ done (some old)
      → is_narrow v ≡ false
      → is_narrow old ≡ false
      → (c₁ : Context) × (c₂ : Context) × (set_register h c r v ≡ done c₁)
        × (set_register h c₁ r old ≡ done c₂)
        × (c₂.hash ≡ c.hash)
        × ((q : Register)
            → get_register c₂ q ≡ (if is_part q i then done (some old) else get_register c q))
  set_register_restore c r i v old good k e g nv nold =
      let u = set_register-Updated c r i v good k e in
      let u₂ = set_register-Updated u.1 r i old good u.4 e in
      let stored = same_done u₂.0 v (sym u₂.2 ∙ reads_back c r i v u e nv) in
      let same_old = same_done u.0 old (sym u.2 ∙ g) in
      let taken =
        take_value-put_value h good (take_value h c.hash old) v (take_value-lt h good c.hash old) in
      (
        u.1,
        u₂.1,
        u.3,
        u₂.3,
        u₂.5
            ∙ rw (stored, u.5, same_old, taken)
                (put_value-take_value h good c.hash old k.hash_bound),
        λ q. elim (Bool-cases (is_part q i)) [
          | inl s ↦ u₂.6 q ∙ rw (s, merged_value-wide (promote r) old (old_value old u₂.0) nold)
          | inr s ↦ u₂.6 q ∙ rw s (u.6 q ∙ rw s)
        ],
      )
