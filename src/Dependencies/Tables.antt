-- ===== src/Dependencies/Tables.antt =====
-- The nodes, the edges and the modals that a rule gives to the dependency graph.
use congress.Prelude.{
  not, if◌then◌else◌, ◌≡◌, refl, Bool, true, false, ◌&&◌, ◌||◌, Option, List, [], ◌∷◌, ok, add,
  contains, contains-add, arith, ite, inl, inr, Bool-cases,
}
use congress.Tablename.{Str, str_discrete, global_tablename, name}
use congress.Literals.{Literal, Rule}
use congress.Dependencies.{
  TableEdge, table_edge_discrete, Parts, no_parts, selects, note_modal, edge_between, add_body,
  add_head, add_heads, formula_nodes_edges, is_atom_rule, of_rule,
}

abbrev pub is_any : {A : Type 0} → (A → Bool) → List A → Bool
is_any test [] = false
is_any test (x ∷ xs) = test x || is_any test xs

abbrev pub same_node : Str → Str → Bool
same_node v w = ite (str_discrete v w) true false

abbrev pub same_label : Bool → Bool → Bool
same_label true b = b
same_label false b = not b

abbrev pub same_edge : TableEdge → TableEdge → Bool
same_edge e f = ite (table_edge_discrete e f) true false

module _ {C : Type 0} (head_to_body : Bool) (theory : Option Str)
    (select_head select_body : Option (Literal C → Bool)) where
  abbrev pub head_name : Literal C → Str
  head_name head = global_tablename head.table theory

  abbrev pub body_of : Str → List (Literal C) → Parts → Parts
  body_of = add_body head_to_body theory select_head select_body

  abbrev pub with_literal : Str → Literal C → Parts → Parts
  with_literal head_table lit parts = record parts {
    nodes = add str_discrete (name lit.table theory) parts.nodes;
    edges =
        add table_edge_discrete
          (edge_between head_to_body theory select_head select_body head_table lit) parts.edges;
  }

  abbrev pub with_head : Literal C → Parts → Parts
  with_head head parts = record parts {
    nodes = add str_discrete (head_name head) parts.nodes;
    modals = note_modal head.table.modal (head_name head) parts.modals;
  }

  abbrev heads_of : List (Literal C) → List (Literal C) → Parts → Parts
  heads_of = add_heads head_to_body theory select_head select_body

  -- Whether a selected literal of the body is of this table.
  abbrev pub in_body : List (Literal C) → Str → Bool
  in_body body v =
      is_any (λ lit. selects select_body lit && same_node v (name lit.table theory)) body

  -- The edge runs from a head to a literal of its body, or the other way, with the label that says
  -- whether the literal is negated.
  abbrev pub runs_between : TableEdge → Literal C → Literal C → Bool
  runs_between (source, (target, label)) head lit =
      same_label label lit.negated
      && (if head_to_body
          then same_node source (head_name head) && same_node target (name lit.table theory)
          else same_node source (name lit.table theory) && same_node target (head_name head))

  same_edge-edge_between :
      (e : TableEdge) (head lit : Literal C)
      → same_edge e (
          edge_between head_to_body theory select_head select_body
            (global_tablename head.table theory)
            lit)
        ≡ runs_between e head lit
  unfolding edge_between
  same_edge-edge_between (source, (target, true)) head lit = ground arith
  same_edge-edge_between (source, (target, false)) head lit = ground arith

  -- Whether a selected literal of the body gives this edge.
  abbrev pub edge_from : List (Literal C) → TableEdge → Literal C → Bool
  edge_from body e head = is_any (λ lit. selects select_body lit && runs_between e head lit) body

  nodes-add_body :
      (v head_table : Str) (body : List (Literal C)) (parts : Parts)
      → contains str_discrete v (body_of head_table body parts).nodes
        ≡ (contains str_discrete v parts.nodes || in_body body v)
  unfolding add_body
  nodes-add_body v head_table [] parts = ground arith
  nodes-add_body v head_table (lit ∷ body) parts = elim (Bool-cases (selects select_body lit)) [
    | inl chosen ↦ ground (
      arith,
      chosen,
      nodes-add_body v head_table body (with_literal head_table lit parts),
      contains-add str_discrete v (name lit.table theory) parts.nodes,
    )
    | inr left ↦ ground (arith, left, nodes-add_body v head_table body parts)
  ]

  edges-add_body :
      (e : TableEdge) (head : Literal C) (body : List (Literal C)) (parts : Parts)
      → contains table_edge_discrete e
          (body_of (global_tablename head.table theory) body parts).edges
        ≡ (contains table_edge_discrete e parts.edges || edge_from body e head)
  unfolding add_body
  edges-add_body e head [] parts = ground arith
  edges-add_body e head (lit ∷ body) parts = elim (Bool-cases (selects select_body lit)) [
    | inl chosen ↦ ground (
      arith,
      chosen,
      edges-add_body e head body (with_literal (global_tablename head.table theory) lit parts),
      contains-add table_edge_discrete e
          (edge_between head_to_body theory select_head select_body
            (global_tablename head.table theory) lit)
          parts.edges,
      same_edge-edge_between e head lit,
    )
    | inr left ↦ ground (arith, left, edges-add_body e head body parts)
  ]

  pub modals-add_body :
      (head_table : Str) (body : List (Literal C)) (parts : Parts)
      → (body_of head_table body parts).modals ≡ parts.modals
  unfolding add_body
  modals-add_body head_table [] parts = refl
  modals-add_body head_table (lit ∷ body) parts = elim (Bool-cases (selects select_body lit)) [
    | inl chosen ↦
        ground (arith, chosen, modals-add_body head_table body (with_literal head_table lit parts))
    | inr left ↦ ground (arith, left, modals-add_body head_table body parts)
  ]

  nodes-add_head :
      (v : Str) (body : List (Literal C)) (head : Literal C) (parts : Parts)
      → contains str_discrete v
          (add_head head_to_body theory select_head select_body body head parts).nodes
        ≡ (contains str_discrete v parts.nodes
            || (selects select_head head && (same_node v (head_name head) || in_body body v)))
  unfolding add_head
  nodes-add_head v body head parts = elim (Bool-cases (selects select_head head)) [
    | inl chosen ↦ ground (
      arith,
      chosen,
      nodes-add_body v (head_name head) body (with_head head parts),
      contains-add str_discrete v (head_name head) parts.nodes,
    )
    | inr left ↦ ground (arith, left)
  ]

  edges-add_head :
      (e : TableEdge) (body : List (Literal C)) (head : Literal C) (parts : Parts)
      → contains table_edge_discrete e
          (add_head head_to_body theory select_head select_body body head parts).edges
        ≡ (contains table_edge_discrete e parts.edges
            || (selects select_head head && edge_from body e head))
  unfolding add_head
  edges-add_head e body head parts = elim (Bool-cases (selects select_head head)) [
    | inl chosen ↦ ground (arith, chosen, edges-add_body e head body (with_head head parts))
    | inr left ↦ ground (arith, left)
  ]

  nodes-add_heads :
      (v : Str) (body heads : List (Literal C)) (parts : Parts)
      → contains str_discrete v (heads_of body heads parts).nodes ≡ (
          contains str_discrete v parts.nodes
          || is_any
              (λ head. selects select_head head && (same_node v (head_name head) || in_body body v))
              heads)
  unfolding add_heads
  nodes-add_heads v body [] parts = ground arith
  nodes-add_heads v body (head ∷ heads) parts = ground (
    arith,
    nodes-add_heads v body heads
        (add_head head_to_body theory select_head select_body body head parts),
    nodes-add_head v body head parts,
  )

  edges-add_heads :
      (e : TableEdge) (body heads : List (Literal C)) (parts : Parts)
      → contains table_edge_discrete e (heads_of body heads parts).edges ≡ (
          contains table_edge_discrete e parts.edges
          || is_any (λ head. selects select_head head && edge_from body e head) heads)
  unfolding add_heads
  edges-add_heads e body [] parts = ground arith
  edges-add_heads e body (head ∷ heads) parts = ground (
    arith,
    edges-add_heads e body heads
        (add_head head_to_body theory select_head select_body body head parts),
    edges-add_head e body head parts,
  )

  -- The parts of a rule with a body, or with other than one head, are found without an
  -- exception. A table is a node just when it is that of a selected head, or of a selected literal
  -- of the body where there is a selected head. An edge is there just when it runs between a
  -- selected head and a selected literal of the body, from the head to the literal if
  -- `head_to_body` is True and else from the literal to the head, with the label True for a negated
  -- literal and False for another.
  pub formula_nodes_edges_lem :
      (include_atoms : Bool) (r : Rule C)
      → is_atom_rule r ≡ false
      → (parts : Parts) × (formula_nodes_edges head_to_body theory select_head select_body
            include_atoms
            (of_rule r)
          ≡ ok parts)
        × ((v : Str)
            → contains str_discrete v parts.nodes
              ≡ is_any
                  (λ head.
                    selects select_head head && (same_node v (head_name head) || in_body r.body v))
                  r.heads)
        × ((e : TableEdge)
            → contains table_edge_discrete e parts.edges
              ≡ is_any (λ head. selects select_head head && edge_from r.body e head) r.heads)
  unfolding formula_nodes_edges contains
  formula_nodes_edges_lem include_atoms r h = (
    heads_of r.body r.heads no_parts,
    rw h refl,
    λ v. nodes-add_heads v r.body r.heads no_parts,
    λ e. edges-add_heads e r.body r.heads no_parts,
  )
