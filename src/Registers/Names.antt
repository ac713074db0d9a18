-- ===== src/Registers/Names.antt =====
-- The two tables of register names.
use restruc.Base.{
  ℕ, zero, suc, ◌<◌, ◌≡◌, refl, arith, if◌then◌else◌, ltb, Bool, true, false, none, some, Option,
  ◌-◌, ◌==◌, ==→eq, ap, ◌&&◌, ◌↔◌, ◌∙◌,
}
use mathlib.Core.Path.{subst}
use restruc.Zydis.{
  Gpr, rax, rcx, rdx, rbx, rsp, rbp, rsi, rdi, r8, r9, r10, r11, r12, r13, r14, r15, Register, low8,
  qword64, x87_control, x87_status, x87_tag, st, mm, xmm, ymm, zmm, rflags,
}
use restruc.Registers.{
  register_map, gpr_number, promote, from_zydis, registers_count, is_legacy_ho_part, is_tracked,
}

-- Over a small range, check every number by evaluation.
every : (ℕ → Bool) → ℕ → Bool
every test zero = true
every test (suc count) = every test count && test count

every_holds : (test : ℕ → Bool) (i count : ℕ) → i < count → every test count ≡ true → test i ≡ true
unfolding every
every_holds test i zero below holds = absurd (omega arith)
every_holds test i (suc count) below holds = ground (arith, every_holds test i count)

-- Promoting twice is promoting once.
pub promote-promote : (r : Register) → promote (promote r) ≡ promote r
unfolding promote
promote-promote (low8 g) = refl
promote-promote (st n) = ground arith
promote-promote (xmm n) = ground arith
promote-promote (ymm n) = ground arith
promote-promote _ = refl

pub from_zydis-promote : (r : Register) → from_zydis (promote r) ≡ from_zydis r
unfolding from_zydis
from_zydis-promote r = rw (promote-promote r)

-- A promoted register is never one of AH, CH, DH, BH.
pub is_legacy_ho_part-promote : (r : Register) → is_legacy_ho_part (promote r) ≡ false
unfolding promote is_legacy_ho_part
is_legacy_ho_part-promote (low8 g) = refl
is_legacy_ho_part-promote (st n) = ground arith
is_legacy_ho_part-promote (xmm n) = ground arith
is_legacy_ho_part-promote (ymm n) = ground arith
is_legacy_ho_part-promote _ = refl

-- The map's numbers are below REGISTERS_COUNT.
pub register_map-lt : (r : Register) (i : ℕ) → register_map r ≡ some i → i < registers_count
unfolding register_map
register_map-lt (qword64 rax) i e = ground arith
register_map-lt (qword64 _) i e = ground arith
register_map-lt _ i e = ground arith

pub from_zydis-lt : (r : Register) (i : ℕ) → from_zydis r ≡ some i → i < registers_count
unfolding from_zydis
from_zydis-lt r i e = register_map-lt (promote r) i e

-- The register of each number, as the enumeration `Reg` lists them.
gpr_at : ℕ → Gpr
gpr_at zero = rax
gpr_at (suc zero) = rcx
gpr_at (suc (suc zero)) = rdx
gpr_at (suc (suc (suc zero))) = rbx
gpr_at (suc (suc (suc (suc zero)))) = rsp
gpr_at (suc (suc (suc (suc (suc zero))))) = rbp
gpr_at (suc (suc (suc (suc (suc (suc zero)))))) = rsi
gpr_at (suc (suc (suc (suc (suc (suc (suc zero))))))) = rdi
gpr_at (suc (suc (suc (suc (suc (suc (suc (suc zero)))))))) = r8
gpr_at (suc (suc (suc (suc (suc (suc (suc (suc (suc zero))))))))) = r9
gpr_at (suc (suc (suc (suc (suc (suc (suc (suc (suc (suc zero)))))))))) = r10
gpr_at (suc (suc (suc (suc (suc (suc (suc (suc (suc (suc (suc zero))))))))))) = r11
gpr_at (suc (suc (suc (suc (suc (suc (suc (suc (suc (suc (suc (suc zero)))))))))))) = r12
gpr_at (suc (suc (suc (suc (suc (suc (suc (suc (suc (suc (suc (suc (suc zero))))))))))))) = r13
gpr_at (suc (suc (suc (suc (suc (suc (suc (suc (suc (suc (suc (suc (suc (suc zero)))))))))))))) =
    r14
gpr_at _ = r15

unfoldable pub register_at : ℕ → Register
unfolding gpr_at
register_at n =
    if ltb n 16
    then qword64 (gpr_at n)
    else if ltb n 19
    then (if n == 16 then x87_control else if n == 17 then x87_status else x87_tag)
    else if ltb n 27
    then mm (n - 19)
    else if ltb n 59
    then zmm (n - 27)
    else rflags

abbrev maps_back : ℕ → Bool
maps_back i = elim (register_map (register_at i)) [ none ↦ false | some j ↦ j == i ]

maps_back_table : every maps_back registers_count ≡ true
unfolding every register_map register_at
maps_back_table = refl

register_map-register_at : (i : ℕ) → i < registers_count → register_map (register_at i) ≡ some i
register_map-register_at i h =
    let e = every_holds maps_back i registers_count h maps_back_table in
    found (register_map (register_at i)) e
  where
    found : (o : Option ℕ) → elim o [ none ↦ false | some j ↦ j == i ] ≡ true → o ≡ some i
    found none e = cc
    found (some j) e = ap some (==→eq j i e)

some_eq : {i j : ℕ} → some i ≡ some j → i ≡ j
some_eq e = ground arith

gpr_at-gpr_number : (g : Gpr) → qword64 g ≡ register_at (gpr_number g)
unfolding register_at gpr_number
gpr_at-gpr_number rax = refl
gpr_at-gpr_number _ = refl

register_at-register_map : (r : Register) (i : ℕ) → register_map r ≡ some i → r ≡ register_at i
unfolding register_map register_at
register_at-register_map (qword64 g) i e =
    subst (λ k. qword64 g ≡ register_at k) (some_eq e) (gpr_at-gpr_number g)
register_at-register_map (mm n) i e = ground arith
register_at-register_map (zmm n) i e = ground arith
register_at-register_map x87_control i e = subst (λ k. x87_control ≡ register_at k) (some_eq e) refl
register_at-register_map x87_status i e = subst (λ k. x87_status ≡ register_at k) (some_eq e) refl
register_at-register_map x87_tag i e = subst (λ k. x87_tag ≡ register_at k) (some_eq e) refl
register_at-register_map rflags i e = subst (λ k. rflags ≡ register_at k) (some_eq e) refl
register_at-register_map _ i e = cc

-- The tracked registers and the numbers below REGISTERS_COUNT correspond one to one.
pub register_map_iff :
    (r : Register) (i : ℕ)
    → (register_map r ≡ some i) ↔ ((i < registers_count) × (r ≡ register_at i))
register_map_iff r i = (
  (λ e. (register_map-lt r i e, register_at-register_map r i e)),
  λ h. ap register_map h.1 ∙ register_map-register_at i h.0,
)

pub is_tracked-some : (r : Register) (i : ℕ) → from_zydis r ≡ some i → is_tracked r ≡ true
unfolding is_tracked from_zydis
is_tracked-some r i e = let e' : register_map (promote r) ≡ some i = e in rw (e', is_tracked)

pub is_tracked-none : (r : Register) → from_zydis r ≡ none → is_tracked r ≡ false
unfolding is_tracked from_zydis
is_tracked-none r e = let e' : register_map (promote r) ≡ none = e in rw (e', is_tracked)
