-- ===== src/Dependencies/Totals.antt =====
-- What changes of a RuleDependencyGraph count.
use congress.Prelude.{ℕ, ◌+◌, ◌≡◌, true, List, [], ◌∷◌, ◌++◌, arith, ite}
use congress.Tablename.{Str, str_discrete}
use congress.BagGraph.{node_count, edge_count}
use congress.BagGraph.Laws
use congress.ModalIndex.Counts
use congress.Dependencies.{
  TableEdge, arrow_discrete, table_edge_discrete, RuleGraph, GraphChange, node_change, edge_change,
  modal_change,
}

-- The counts of a node, an edge, and a table under a modal.
abbrev pub nodes_at : Str → RuleGraph → ℕ
nodes_at v g = node_count str_discrete arrow_discrete v g.bag

abbrev pub edges_at : TableEdge → RuleGraph → ℕ
edges_at (v, (w, label)) g = edge_count str_discrete arrow_discrete v w label g.bag

abbrev pub modals_at : Str → Str → RuleGraph → ℕ
modals_at modal table g = Counts.count str_discrete str_discrete modal table g.modal_index

-- How often changes count a node: for itself, and as the source and the target of an edge.
abbrev pub node_total : List GraphChange → Str → ℕ
node_total [] v = 0
node_total (node_change node _ ∷ changes) v = ite (str_discrete v node) 1 0 + node_total changes v
node_total (edge_change (src, (dst, _)) _ ∷ changes) v =
    ite (str_discrete v src) 1 0 + ite (str_discrete v dst) 1 0 + node_total changes v
node_total (modal_change _ _ ∷ changes) v = node_total changes v

abbrev pub edge_total : List GraphChange → TableEdge → ℕ
edge_total [] e = 0
edge_total (node_change _ _ ∷ changes) e = edge_total changes e
edge_total (edge_change edge _ ∷ changes) e =
    ite (table_edge_discrete e edge) 1 0 + edge_total changes e
edge_total (modal_change _ _ ∷ changes) e = edge_total changes e

abbrev pub modal_total : List GraphChange → Str → Str → ℕ
modal_total [] modal table = 0
modal_total (node_change _ _ ∷ changes) modal table = modal_total changes modal table
modal_total (edge_change _ _ ∷ changes) modal table = modal_total changes modal table
modal_total (modal_change modals _ ∷ changes) modal table =
    Counts.count str_discrete str_discrete modal table modals + modal_total changes modal table

-- Insertions, of valid indices of modals.
abbrev pub AreInsertions : List GraphChange → Type 0
AreInsertions [] = Unit
AreInsertions (node_change _ inserts ∷ changes) = (inserts ≡ true) × AreInsertions changes
AreInsertions (edge_change _ inserts ∷ changes) = (inserts ≡ true) × AreInsertions changes
AreInsertions (modal_change modals inserts ∷ changes) =
    (inserts ≡ true) × (Counts.IsValid str_discrete str_discrete modals × AreInsertions changes)

-- `g'` has what `g` has and what the changes count.
abbrev pub IsRaised : List GraphChange → RuleGraph → RuleGraph → Type 0
IsRaised changes g g' =
    ((v : Str) → nodes_at v g' ≡ nodes_at v g + node_total changes v)
    × ((e : TableEdge) → edges_at e g' ≡ edges_at e g + edge_total changes e)
    × ((modal table : Str)
        → modals_at modal table g' ≡ modals_at modal table g + modal_total changes modal table)

abbrev pub IsGood : RuleGraph → Type 0
IsGood g =
    Laws.IsValid str_discrete arrow_discrete g.bag
    × Counts.IsValid str_discrete str_discrete g.modal_index

pub node_total-append :
    (xs ys : List GraphChange) (v : Str)
    → node_total (xs ++ ys) v ≡ node_total xs v + node_total ys v
node_total-append [] ys v = omega arith
node_total-append (node_change w b ∷ xs) ys v = ground (arith, node_total-append xs ys v)
node_total-append (edge_change e b ∷ xs) ys v = ground (arith, node_total-append xs ys v)
node_total-append (modal_change m b ∷ xs) ys v = node_total-append xs ys v

pub edge_total-append :
    (xs ys : List GraphChange) (e : TableEdge)
    → edge_total (xs ++ ys) e ≡ edge_total xs e + edge_total ys e
edge_total-append [] ys e = omega arith
edge_total-append (node_change w b ∷ xs) ys e = edge_total-append xs ys e
edge_total-append (edge_change f b ∷ xs) ys e = ground (arith, edge_total-append xs ys e)
edge_total-append (modal_change m b ∷ xs) ys e = edge_total-append xs ys e

pub modal_total-append :
    (xs ys : List GraphChange) (modal table : Str)
    → modal_total (xs ++ ys) modal table ≡ modal_total xs modal table + modal_total ys modal table
modal_total-append [] ys modal table = omega arith
modal_total-append (node_change w b ∷ xs) ys modal table = modal_total-append xs ys modal table
modal_total-append (edge_change f b ∷ xs) ys modal table = modal_total-append xs ys modal table
modal_total-append (modal_change m b ∷ xs) ys modal table =
    ground (arith, modal_total-append xs ys modal table)

pub IsRaised-append :
    (xs ys : List GraphChange) (g g' g'' : RuleGraph)
    → IsRaised xs g g'
    → IsRaised ys g' g''
    → IsRaised (xs ++ ys) g g''
IsRaised-append xs ys g g' g'' (n, e, m) (n', e', m') = (
  λ v. ground (arith, n v, n' v, node_total-append xs ys v),
  λ f. ground (arith, e f, e' f, edge_total-append xs ys f),
  λ i t. ground (arith, m i t, m' i t, modal_total-append xs ys i t),
)
