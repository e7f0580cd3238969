-- ===== src/Dependencies/Modals.antt =====
-- The modals that a formula gives to the dependency graph.
use congress.Prelude.{
  sym, subst, Bool, true, false, none, some, Option, List, [], ◌∷◌, if◌then◌else◌, ok, raise,
  Result,
}
use congress.Tablename.{Str, str_discrete, global_tablename}
use congress.Literals.{Literal, is_atom}
use congress.ModalIndex.{ModalIndex}
use congress.ModalIndex.Counts
use congress.ModalIndex.Laws.{add_table-IsValid, empty-IsValid}
use congress.Dependencies.{
  Parts, no_parts, selects, note_modal, is_atom_rule, add_head, add_heads, Formula, of_literal,
  of_rule, formula_nodes_edges,
}
use congress.Dependencies.Tables.{with_head, modals-add_body}

if_both : {A : Type 0} (P : A → Type 0) {x y : A} (b : Bool) → P x → P y → P (if b then x else y)
if_both P true p q = p
if_both P false p q = q

note_modal-IsValid :
    (modal : Option Str) (table : Str) (modals : ModalIndex Str Str)
    → Counts.IsValid str_discrete str_discrete modals
    → Counts.IsValid str_discrete str_discrete (note_modal modal table modals)
unfolding note_modal
note_modal-IsValid none table modals h = h
note_modal-IsValid (some []) table modals h = h
note_modal-IsValid (some (c ∷ modal)) table modals h =
    add_table-IsValid str_discrete str_discrete (c ∷ modal) table modals h

-- The modals of a formula are a valid index.
abbrev pub WithValid : Result Parts → Type 0
WithValid (ok parts) = Counts.IsValid str_discrete str_discrete parts.modals
WithValid (raise e) = Unit

module _ {C : Type 0} (head_to_body : Bool) (theory : Option Str)
    (select_head select_body : Option (Literal C → Bool)) where
  add_heads-IsValid :
      (body heads : List (Literal C)) (parts : Parts)
      → Counts.IsValid str_discrete str_discrete parts.modals
      → Counts.IsValid str_discrete str_discrete
          (add_heads head_to_body theory select_head select_body body heads parts).modals
  unfolding add_heads add_head
  add_heads-IsValid body [] parts h = h
  add_heads-IsValid body (head ∷ heads) parts h =
      add_heads-IsValid body heads
        (add_head head_to_body theory select_head select_body body head parts)
        (if_both (λ (ps : Parts). Counts.IsValid str_discrete str_discrete ps.modals)
          (selects select_head head)
          (subst (Counts.IsValid str_discrete str_discrete)
            (sym (
              modals-add_body head_to_body theory select_head select_body
                (global_tablename head.table theory) body
                (with_head head_to_body theory select_head select_body head parts)))
            (note_modal-IsValid head.table.modal (global_tablename head.table theory) parts.modals
              h))
          h)

  pub formula_nodes_edges-WithValid :
      (include_atoms : Bool) (formula : Formula C)
      → WithValid
          (formula_nodes_edges head_to_body theory select_head select_body include_atoms formula)
  unfolding formula_nodes_edges
  formula_nodes_edges-WithValid include_atoms (of_literal lit) =
      if_both WithValid (is_atom lit)
        (if_both WithValid include_atoms
          (note_modal-IsValid lit.table.modal (global_tablename lit.table theory)
            (record { index = [] }) (empty-IsValid str_discrete str_discrete))
          (empty-IsValid str_discrete str_discrete))
        tt
  formula_nodes_edges-WithValid include_atoms (of_rule r) =
      if_both WithValid (is_atom_rule r)
        (if_both WithValid include_atoms tt (empty-IsValid str_discrete str_discrete))
        (add_heads-IsValid r.body r.heads no_parts (empty-IsValid str_discrete str_discrete))
