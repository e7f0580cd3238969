-- ===== src/Dependencies/Insertions.antt =====
-- Lists of insertions among the changes of a RuleDependencyGraph.
use congress.Prelude.{refl, true, List, [], ◌∷◌, ◌++◌}
use congress.Tablename.{Str, str_discrete}
use congress.ModalIndex.Counts
use congress.Dependencies.{
  TableEdge, Parts, GraphChange, node_change, edge_change, modal_change, changes_of, node_changes,
  edge_changes,
}
use congress.Dependencies.Totals.{AreInsertions}

pub first-AreInsertions :
    (change : GraphChange) (changes : List GraphChange)
    → AreInsertions (change ∷ changes)
    → AreInsertions (change ∷ []) × AreInsertions changes
first-AreInsertions (node_change v b) changes h = ((h.0, tt), h.1)
first-AreInsertions (edge_change e b) changes h = ((h.0, tt), h.1)
first-AreInsertions (modal_change m b) changes h = ((h.0, (h.1.0, tt)), h.1.1)

insertions-node_changes :
    (nodes : List Str) (changes : List GraphChange)
    → AreInsertions changes
    → AreInsertions (node_changes true nodes ++ changes)
insertions-node_changes [] changes h = h
insertions-node_changes (v ∷ nodes) changes h = (refl, insertions-node_changes nodes changes h)

insertions-edge_changes :
    (edges : List TableEdge) (changes : List GraphChange)
    → AreInsertions changes
    → AreInsertions (edge_changes true edges ++ changes)
insertions-edge_changes [] changes h = h
insertions-edge_changes (e ∷ edges) changes h = (refl, insertions-edge_changes edges changes h)

pub insertions-changes_of :
    (parts : Parts)
    → Counts.IsValid str_discrete str_discrete parts.modals
    → AreInsertions (changes_of true parts)
insertions-changes_of parts h =
    insertions-node_changes parts.nodes
      (edge_changes true parts.edges ++ modal_change parts.modals true ∷ [])
      (insertions-edge_changes parts.edges (modal_change parts.modals true ∷ []) (refl, (h, tt)))

pub insertions-append :
    (xs ys : List GraphChange) → AreInsertions xs → AreInsertions ys → AreInsertions (xs ++ ys)
insertions-append [] ys h k = k
insertions-append (node_change v b ∷ xs) ys h k = (h.0, insertions-append xs ys h.1 k)
insertions-append (edge_change e b ∷ xs) ys h k = (h.0, insertions-append xs ys h.1 k)
insertions-append (modal_change m b ∷ xs) ys h k = (h.0, (h.1.0, insertions-append xs ys h.1.1 k))
