-- ===== src/Recontex/Forward.antt =====
-- Without the edges that `find_loops` records, the graph of the jumps has only edges that lead forward
-- in the order of the nodes.
use restruc.Base.{
  ℕ, ◌<◌, ◌≡◌, ◌⊎◌, refl, inl, inr, arith, Bool, true, false, List, [], ◌∷◌, if◌then◌else◌, ==_refl,
  leb, Bool-cases,
}
use mathlib.Core.Path.{subst}
use restruc.Base.Run.{Run, done, fault, out_of_fuel, ◌>>=◌}
use restruc.Recontex.Nodes.{Branch, Node, Nodes, Edges, order_of, loops_of, find_loops}
use restruc.Recontex.Coverage.{same_edge, has_edge}

-- An edge that is recorded, or leads to a later place of the order.
unfoldable pub IsForward : List ℕ → Edges → ℕ → ℕ → Type 0
IsForward order loops source to =
    (has_edge (source, to) loops ≡ true)
    ⊎ ((from : ℕ) × (place : ℕ) × (order_of order source ≡ done from)
        × (order_of order to ≡ done place)
        × (from < place))

unfoldable pub AllForward : List ℕ → Edges → ℕ → List Branch → Type 0
AllForward order loops source [] = Unit
AllForward order loops source (b ∷ bs) =
    IsForward order loops source b.branch × AllForward order loops source bs

unfoldable pub AreForward : List ℕ → Edges → Nodes → Type 0
AreForward order loops [] = Unit
AreForward order loops ((k, node) ∷ nodes) =
    AllForward order loops node.source node.branches × AreForward order loops nodes

abbrev Larger : Edges → Edges → Type 0
Larger loops loops' = (e : ℕ × ℕ) → has_edge e loops ≡ true → has_edge e loops' ≡ true

IsForward-Larger :
    (order : List ℕ) (loops loops' : Edges) (source to : ℕ)
    → Larger loops loops'
    → IsForward order loops source to
    → IsForward order loops' source to
unfolding IsForward
IsForward-Larger order loops loops' source to l (inl h) = inl (l (source, to) h)
IsForward-Larger order loops loops' source to l (inr h) = inr h

AllForward-Larger :
    (order : List ℕ) (loops loops' : Edges) (source : ℕ) (bs : List Branch)
    → Larger loops loops'
    → AllForward order loops source bs
    → AllForward order loops' source bs
unfolding AllForward
AllForward-Larger order loops loops' source [] l h = tt
AllForward-Larger order loops loops' source (b ∷ bs) l h = (
  IsForward-Larger order loops loops' source b.branch l h.0,
  AllForward-Larger order loops loops' source bs l h.1,
)

-- What the visit of the branches of a node, or of a list of nodes, leaves.
unfoldable LoopsOf : List ℕ → ℕ → List Branch → Edges → Run Edges → Type 0
LoopsOf order source bs loops (done loops') =
    Larger loops loops' × AllForward order loops' source bs
LoopsOf order source bs loops fault = Unit
LoopsOf order source bs loops out_of_fuel = Unit

abbrev add_edge : Bool → ℕ × ℕ → Edges → Edges
add_edge b e loops = if b then e ∷ loops else loops

add_edge-Larger : (b : Bool) (e : ℕ × ℕ) (loops : Edges) → Larger loops (add_edge b e loops)
unfolding has_edge
add_edge-Larger true e loops f h = ground arith
add_edge-Larger false e loops f h = h

LoopsOf-cons :
    (order : List ℕ) (source : ℕ) (b : Branch) (bs : List Branch) (loops new : Edges)
    (r : Run Edges)
    → Larger loops new
    → IsForward order new source b.branch
    → LoopsOf order source bs new r
    → LoopsOf order source (b ∷ bs) loops r
unfolding LoopsOf AllForward
LoopsOf-cons order source b bs loops new (done loops') l f h =
    (λ e k. h.0 e (l e k), (IsForward-Larger order new loops' source b.branch h.0 f, h.1))
LoopsOf-cons order source b bs loops new fault l f h = tt
LoopsOf-cons order source b bs loops new out_of_fuel l f h = tt

add_edge-IsForward :
    (order : List ℕ) (source to : ℕ) (loops : Edges) (from place : ℕ)
    → order_of order source ≡ done from
    → order_of order to ≡ done place
    → IsForward order (add_edge (leb place from) (source, to) loops) source to
unfolding IsForward has_edge same_edge
add_edge-IsForward order source to loops from place e e' = elim (Bool-cases (leb place from)) [
  | inl back ↦ rw back (inl (rw (==_refl source, ==_refl to) refl))
  | inr forth ↦ inr (from, place, e, e', ground arith)
]

loops_step :
    (order : List ℕ) (source : ℕ) (b : Branch) (bs : List Branch) (loops : Edges) (o p : Run ℕ)
    → ((new : Edges) → LoopsOf order source bs new (loops_of order source bs new))
    → order_of order b.branch ≡ o
    → order_of order source ≡ p
    → LoopsOf order source (b ∷ bs) loops (
        o >>= λ to.
        p >>= λ from. loops_of order source bs (add_edge (leb to from) (source, b.branch) loops))
unfolding LoopsOf
loops_step order source b bs loops (done to) (done from) ih e e' =
    let new = add_edge (leb to from) (source, b.branch) loops in
    LoopsOf-cons order source b bs loops new (loops_of order source bs new)
      (add_edge-Larger (leb to from) (source, b.branch) loops)
      (add_edge-IsForward order source b.branch loops from to e' e) (ih new)
loops_step order source b bs loops (done to) fault ih e e' = tt
loops_step order source b bs loops (done to) out_of_fuel ih e e' = tt
loops_step order source b bs loops fault p ih e e' = tt
loops_step order source b bs loops out_of_fuel p ih e e' = tt

done-LoopsOf :
    (order : List ℕ) (source : ℕ) (loops : Edges) → LoopsOf order source [] loops (done loops)
unfolding LoopsOf AllForward
done-LoopsOf order source loops = (λ e h. h, tt)

loops_of-LoopsOf :
    (order : List ℕ) (source : ℕ) (bs : List Branch) (loops : Edges)
    → LoopsOf order source bs loops (loops_of order source bs loops)
unfolding loops_of
loops_of-LoopsOf order source [] loops = done-LoopsOf order source loops
loops_of-LoopsOf order source (b ∷ bs) loops =
    loops_step order source b bs loops (order_of order b.branch) (order_of order source)
      (loops_of-LoopsOf order source bs) refl refl

-- What is known of the edges where the run returns them.
unfoldable pub LoopsFound : List ℕ → Nodes → Edges → Run Edges → Type 0
LoopsFound order nodes loops (done loops') = Larger loops loops' × AreForward order loops' nodes
LoopsFound order nodes loops fault = Unit
LoopsFound order nodes loops out_of_fuel = Unit

found_cons :
    (order : List ℕ) (k : ℕ) (node : Node) (nodes : Nodes) (loops new : Edges) (r : Run Edges)
    → Larger loops new
    → AllForward order new node.source node.branches
    → LoopsFound order nodes new r
    → LoopsFound order ((k, node) ∷ nodes) loops r
unfolding LoopsFound AreForward
found_cons order k node nodes loops new (done loops') l f h = (
  λ e j. h.0 e (l e j),
  (AllForward-Larger order new loops' node.source node.branches h.0 f, h.1),
)
found_cons order k node nodes loops new fault l f h = tt
found_cons order k node nodes loops new out_of_fuel l f h = tt

found_step :
    (order : List ℕ) (k : ℕ) (node : Node) (nodes : Nodes) (loops : Edges) (o : Run Edges)
    → ((new : Edges) → LoopsFound order nodes new (find_loops order nodes new))
    → LoopsOf order node.source node.branches loops o
    → LoopsFound order ((k, node) ∷ nodes) loops (o >>= λ new. find_loops order nodes new)
unfolding LoopsOf LoopsFound
found_step order k node nodes loops (done new) ih h =
    found_cons order k node nodes loops new (find_loops order nodes new) h.0 h.1 (ih new)
found_step order k node nodes loops fault ih h = tt
found_step order k node nodes loops out_of_fuel ih h = tt

-- Where `find_loops` returns, it has kept the edges it had, and every branch of every node that it has
-- not recorded leads from the node to a later place of the order.
find_loops-LoopsFound :
    (order : List ℕ) (nodes : Nodes) (loops : Edges)
    → LoopsFound order nodes loops (find_loops order nodes loops)
unfolding find_loops LoopsFound AreForward
find_loops-LoopsFound order [] loops = (λ e h. h, tt)
find_loops-LoopsFound order ((k, node) ∷ nodes) loops =
    found_step order k node nodes loops (loops_of order node.source node.branches loops)
      (find_loops-LoopsFound order nodes) (loops_of-LoopsOf order node.source node.branches loops)

LoopsFound-AreForward :
    (order : List ℕ) (nodes : Nodes) (loops loops' : Edges)
    → LoopsFound order nodes loops (done loops')
    → AreForward order loops' nodes
unfolding LoopsFound
LoopsFound-AreForward order nodes loops loops' h = h.1

-- Where `find_loops` returns, every branch of every node is recorded as a loop or leads to a later
-- place of the order.
pub find_loops-AreForward :
    (order : List ℕ) (nodes : Nodes) (loops : Edges)
    → find_loops order nodes [] ≡ done loops
    → AreForward order loops nodes
find_loops-AreForward order nodes loops e =
    let found = find_loops-LoopsFound order nodes [] in
    LoopsFound-AreForward order nodes [] loops (subst (LoopsFound order nodes []) e found)
