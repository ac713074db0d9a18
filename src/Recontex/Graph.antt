-- ===== src/Recontex/Graph.antt =====
-- The graph of the jumps: what its branches lead to, and the instruction that it skips.
use restruc.Base.{
  ℕ, ◌+◌, ◌%◌, ◌≡◌, ◌∙◌, ◌⊎◌, refl, sym, ap, inl, inr, arith, Bool, true, false, ◌||◌, Option, none,
  some, List, [], ◌∷◌, if◌then◌else◌, ◌==◌, ltb, leb, Bool-cases, Option-cases,
}
use mathlib.Core.Path.{subst}
use restruc.Base.Assoc
use restruc.Hash.{word}
use restruc.Zydis.{Instruction}
use restruc.Flo.{
  Flo, Disassembly, is_any_jump, is_conditional_jump, is_jmp, is_inside, get_jump_destination,
}
use restruc.Recontex.Nodes.{
  conditional, next, Branch, Node, Nodes, Graph, Scan, scanning, collecting, Collected,
  emplace_node, add_node, add_end, with_next, collect, scan, scan_step, build_from, finish,
  build_nodes, lower_bound, normalize_branch, normalize_branches, normalize_each, normalize_nodes,
}

-- Each node stands under its own address.
abbrev pub AreNodes : Nodes → Type 0
AreNodes [] = Unit
AreNodes ((k, node) ∷ nodes) = (node.source ≡ k) × AreNodes nodes

emplace-AreNodes :
    (k : ℕ) (node : Node) (nodes : Nodes)
    → node.source ≡ k
    → AreNodes nodes
    → AreNodes (Assoc.emplace k node nodes)
unfolding Assoc.emplace
emplace-AreNodes k node [] e h = (e, tt)
emplace-AreNodes k node ((j, other) ∷ nodes) e h = elim (Bool-cases (ltb k j)) [
  | inl below ↦ rw below (e, h)
  | inr above ↦ rw above (h.0, emplace-AreNodes k node nodes e h.1)
]

emplace_node-AreNodes :
    (src : ℕ) (bs : List Branch) (nodes : Nodes)
    → AreNodes nodes
    → AreNodes (emplace_node src bs nodes)
unfolding emplace_node
emplace_node-AreNodes src bs nodes h = elim (Bool-cases (Assoc.contains src nodes)) [
  | inl known ↦ rw known h
  | inr new ↦ rw new (emplace-AreNodes src (record { source = src; branches = bs }) nodes refl h)
]

add_node-AreNodes :
    (src : ℕ) (bs : List Branch) (g : Graph) → AreNodes g.nodes → AreNodes (add_node src bs g).nodes
unfolding add_node
add_node-AreNodes src [] g h = h
add_node-AreNodes src (b ∷ bs) g h = emplace_node-AreNodes src (b ∷ bs) g.nodes h

add_end-AreNodes : (address : ℕ) (g : Graph) → AreNodes g.nodes → AreNodes (add_end address g).nodes
unfolding add_end
add_end-AreNodes address g h = emplace_node-AreNodes address [] g.nodes h

-- The graph of a step that does not fail.
unfoldable AfterStep : Option (Scan × Graph) → Type 0
AfterStep none = Unit
AfterStep (some (s, g)) = AreNodes g.nodes

none-AfterStep : AfterStep none
unfolding AfterStep
none-AfterStep = tt

some-AfterStep : (s : Scan) (g : Graph) → AreNodes g.nodes → AfterStep (some (s, g))
unfolding AfterStep
some-AfterStep s g h = h

some-AreNodes : (s : Scan) (g : Graph) → AfterStep (some (s, g)) → AreNodes g.nodes
unfolding AfterStep
some-AreNodes s g h = h

AfterStep-if :
    (b : Bool) (m k : Option (Scan × Graph))
    → AfterStep m
    → AfterStep k
    → AfterStep (if b then m else k)
AfterStep-if true m k h h' = h
AfterStep-if false m k h h' = h'

collect-AfterStep :
    (f : Flo) (address : ℕ) (ins : Instruction) (c : Collected) (g : Graph)
    → AreNodes g.nodes
    → AfterStep (collect f address ins c g)
unfolding collect
collect-AfterStep f address ins c g h =
    let added = λ (bs : List Branch).
      some-AfterStep scanning (add_node c.src bs g) (add_node-AreNodes c.src bs g h) in
    AfterStep-if (is_conditional_jump ins.mnemonic) _ _
      (AfterStep-if _ none _ none-AfterStep
        (AfterStep-if _ _ _ (some-AfterStep (collecting _) g h) (added (with_next c))))
      (AfterStep-if (is_jmp ins.mnemonic) _ _
        (AfterStep-if _ none _ none-AfterStep (AfterStep-if _ _ _ (added _) (added c.branches)))
        (added (with_next c)))

scan-AfterStep :
    (f : Flo) (address : ℕ) (ins : Instruction) (g : Graph)
    → AreNodes g.nodes
    → AfterStep (scan f address ins g)
unfolding scan
scan-AfterStep f address ins g h =
    let ended = some-AfterStep scanning (add_end address g) (add_end-AreNodes address g h) in
    AfterStep-if (is_any_jump ins.mnemonic) _ _
      (AfterStep-if _ none _ none-AfterStep
        (AfterStep-if _ _ _ (collect-AfterStep f address ins _ g h) ended))
      (AfterStep-if _ _ _ ended (some-AfterStep scanning g h))

scan_step-AfterStep :
    (f : Flo) (s : Scan) (address : ℕ) (ins : Instruction) (g : Graph)
    → AreNodes g.nodes
    → AfterStep (scan_step f s address ins g)
unfolding scan_step
scan_step-AfterStep f scanning address ins g h = scan-AfterStep f address ins g h
scan_step-AfterStep f (collecting c) address ins g h = collect-AfterStep f address ins c g h

-- What a branch leads to, after the normalization: nothing, a node, or a place behind all nodes.
unfoldable pub Resolved : Nodes → Branch → Type 0
Resolved nodes b =
    (b.branch ≡ 0) ⊎ ((Assoc.contains b.branch nodes ≡ true) ⊎ (lower_bound b.branch nodes ≡ none))

unfoldable pub AllResolved : Nodes → List Branch → Type 0
AllResolved nodes [] = Unit
AllResolved nodes (b ∷ bs) = Resolved nodes b × AllResolved nodes bs

unfoldable pub AreResolved : Nodes → Nodes → Type 0
AreResolved all [] = Unit
AreResolved all ((k, node) ∷ nodes) = AllResolved all node.branches × AreResolved all nodes

lower_bound-contains :
    (address : ℕ) (nodes : Nodes) (node : Node)
    → AreNodes nodes
    → lower_bound address nodes ≡ some node
    → Assoc.contains node.source nodes ≡ true
unfolding lower_bound Assoc.contains
lower_bound-contains address [] node h e = cc
lower_bound-contains address ((k, other) ∷ nodes) node h e = elim (Bool-cases (leb address k)) [
  | inl here ↦
      let found : some other ≡ some node = rw here at e in
      let same : other ≡ node = cc in
      let placed : node.source ≡ k = ap Node.source (sym same) ∙ h.0 in rw placed (ground arith)
  | inr there ↦
      let found : lower_bound address nodes ≡ some node = rw there at e in
      rw (lower_bound-contains address nodes node h.1 found) (ground arith)
]

Resolved-if :
    (nodes : Nodes) (c : Bool) (b b' : Branch)
    → (c ≡ true → Resolved nodes b)
    → Resolved nodes b'
    → Resolved nodes (if c then b else b')
Resolved-if nodes true b b' h h' = h refl
Resolved-if nodes false b b' h h' = h'

resolve :
    (nodes : Nodes) (b : Branch) (o : Option Node)
    → AreNodes nodes
    → lower_bound b.branch nodes ≡ o
    → Resolved nodes (elim o [
      | none ↦ b
      | some node ↦ if b.branch == 0 then b else record b { branch = node.source }
    ])
unfolding Resolved
resolve nodes b none h e = inr (inr e)
resolve nodes b (some node) h e =
    Resolved-if nodes (b.branch == 0) b (record b { branch = node.source })
      (λ null. inl (ground arith)) (inr (inl (lower_bound-contains b.branch nodes node h e)))

normalize_branch-Resolved :
    (nodes : Nodes) (b : Branch) → AreNodes nodes → Resolved nodes (normalize_branch nodes b)
unfolding normalize_branch
normalize_branch-Resolved nodes b h = resolve nodes b (lower_bound b.branch nodes) h refl

normalize_branches-AllResolved :
    (nodes : Nodes) (bs : List Branch)
    → AreNodes nodes
    → AllResolved nodes (normalize_branches nodes bs)
unfolding normalize_branches AllResolved
normalize_branches-AllResolved nodes [] h = tt
normalize_branches-AllResolved nodes (b ∷ bs) h =
    (normalize_branch-Resolved nodes b h, normalize_branches-AllResolved nodes bs h)

normalize_each-AreResolved :
    (all nodes : Nodes) → AreNodes all → AreResolved all (normalize_each all nodes)
unfolding normalize_each AreResolved
normalize_each-AreResolved all [] h = tt
normalize_each-AreResolved all ((k, node) ∷ nodes) h =
    (normalize_branches-AllResolved all node.branches h, normalize_each-AreResolved all nodes h)

finish-AreNodes : (s : Scan) (g : Graph) → AreNodes g.nodes → AreNodes (finish s g).nodes
unfolding finish
finish-AreNodes scanning g h = h
finish-AreNodes (collecting c) g h = add_node-AreNodes c.src c.branches g h

build_from-AreNodes :
    (f : Flo) (s : Scan) (d : Disassembly) (g g' : Graph)
    → AreNodes g.nodes
    → build_from f s d g ≡ some g'
    → AreNodes g'.nodes
unfolding build_from
build_from-AreNodes f s [] g g' h e =
    let reached : some (finish s g) ≡ some g' = e in
    let same : finish s g ≡ g' = cc in subst (λ x. AreNodes x.nodes) same (finish-AreNodes s g h)
build_from-AreNodes f s ((address, ins) ∷ rest) g g' h e =
    elim (Option-cases (scan_step f s address ins g)) [
      | inl failed ↦ let never : none ≡ some g' = rw (failed, build_from) at e in cc
      | inr ((s', g''), went) ↦
          let after = subst AfterStep went (scan_step-AfterStep f s address ins g h) in
          build_from-AreNodes f s' rest g'' g' (some-AreNodes s' g'' after)
            (rw (went, build_from) at e)
    ]

-- Where `build_nodes` succeeds, each node of the graph stands under its own address, and after the
-- normalization every branch is null, or leads to a node, or behind all nodes.
pub normalize_nodes-AreResolved :
    (f : Flo) (g : Graph)
    → build_nodes f ≡ some g
    → AreNodes g.nodes × AreResolved g.nodes (normalize_nodes g.nodes)
unfolding build_nodes normalize_nodes
normalize_nodes-AreResolved f g e =
    let h =
      build_from-AreNodes f scanning f.disassembly (record { ends = []; nodes = [] }) g tt e in
    (h, normalize_each-AreResolved g.nodes g.nodes h)

abbrev first_branch : ℕ → ℕ → Instruction → Collected
first_branch address dst jump = record {
  src = address;
  branches = record { source = address; branch = dst; type = conditional } ∷ [];
  next_address = (address + jump.length) % word;
  last = address;
}

scan-conditional :
    (f : Flo) (address dst : ℕ) (jump : Instruction) (g : Graph)
    → is_conditional_jump jump.mnemonic ≡ true
    → get_jump_destination address jump ≡ dst
    → (dst == 0) ≡ false
    → is_inside f dst ≡ true
    → scan f address jump g ≡ some (collecting (first_branch address dst jump), g)
unfolding scan collect is_any_jump
scan-conditional f address dst jump g c d some_dst inside =
    let any : (is_jmp jump.mnemonic || is_conditional_jump jump.mnemonic) ≡ true = ground arith in
    rw any (rw (d, some_dst, inside) (rw c refl))

collect-other :
    (f : Flo) (behind : ℕ) (ins : Instruction) (c : Collected) (g : Graph)
    → (c.next_address == 0) ≡ false
    → is_any_jump ins.mnemonic ≡ false
    → collect f behind ins c g
      ≡ some (
        scanning,
        add_node c.src
            (record { source = c.last; branch = c.next_address; type = next } ∷ c.branches)
            g,
      )
unfolding collect with_next is_any_jump
collect-other f behind ins c g some_next none_other =
    let no_jump : is_jmp ins.mnemonic ≡ false = ground arith in
    let no_branch : is_conditional_jump ins.mnemonic ≡ false = ground arith in
    rw no_branch (rw no_jump (rw some_next refl))

-- The instruction directly behind a conditional jump within the function is passed over: where it is
-- no jump itself, whatever it is, a RET included, it gets no node and is no end. (The address behind
-- the jump is not null.)
pub build_from-skips :
    (f : Flo) (address behind dst : ℕ) (jump ins : Instruction) (rest : Disassembly) (g : Graph)
    → is_conditional_jump jump.mnemonic ≡ true
    → get_jump_destination address jump ≡ dst
    → (dst == 0) ≡ false
    → is_inside f dst ≡ true
    → ((address + jump.length) % word == 0) ≡ false
    → is_any_jump ins.mnemonic ≡ false
    → build_from f scanning ((address, jump) ∷ (behind, ins) ∷ rest) g
      ≡ build_from f scanning rest (
          add_node address
            (record { source = address; branch = (address + jump.length) % word; type = next }
              ∷ record { source = address; branch = dst; type = conditional }
              ∷ [])
            g)
unfolding build_from scan_step
build_from-skips f address behind dst jump ins rest g c d some_dst inside some_next none_other =
    let c₁ = first_branch address dst jump in
    let start = scan-conditional f address dst jump g c d some_dst inside in
    let over = collect-other f behind ins c₁ g some_next none_other in
    rw (start, build_from) (rw (over, build_from) refl)
