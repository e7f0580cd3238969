-- ===== src/RuleSet/Laws.antt =====
-- `add_rule`, `discard_rule` and `contains` of a RuleSet.
use congress.Prelude.{
  ◌≡◌, refl, sym, ◌∙◌, ap, Bool, true, false, ◌&&◌, ◌||◌, not, Option, none, some, arith,
  if◌then◌else◌, ok, Result,
}
use congress.Tablename.{Str, str_discrete}
use congress.FactSet.{Fact, fact_discrete}
use congress.RuleSet.{
  RuleSet, RuleItem, of_fact, of_atom, of_formula, add_rule, discard_rule, has_item, has_fact,
  has_rule, add_to_facts, add_to_rules, discard_from_facts, discard_from_rules,
}
use congress.RuleSet.Entries.{IsValid, IsWide, is_at, add_to_facts_lem, discard_from_facts_lem}
use congress.RuleSet.Rules.{add_to_rules_lem, discard_from_rules_lem}

-- What is stored under a key.
pub data Entry (V R : Type 0) : Type 0 where
  fact_entry : Fact V → Entry V R
  rule_entry : R → Entry V R

module _ {V R : Type 0} where
  -- What `add_rule` stores an item as: a rule without a body whose head is not negated is a fact.
  abbrev pub stored : RuleItem V R → Option (Entry V R)
  stored (of_fact fact) = some (fact_entry fact)
  stored (of_atom fact) = none
  stored (of_formula has_body negated_head fact rule) =
      if not has_body && not negated_head then some (fact_entry fact) else some (rule_entry rule)

  -- What `discard_rule` and `contains` look for: a rule without a body is a fact.
  abbrev pub sought : RuleItem V R → Entry V R
  sought (of_fact fact) = fact_entry fact
  sought (of_atom fact) = fact_entry fact
  sought (of_formula has_body negated_head fact rule) =
      if has_body then rule_entry rule else fact_entry fact

  abbrev pub is_atom_item : RuleItem V R → Bool
  is_atom_item (of_atom fact) = true
  is_atom_item _ = false

module _ {V R : Type 0} (dv : Discrete V) (dr : Discrete R) where
  abbrev pub has_entry : Str → Entry V R → RuleSet V R → Bool
  has_entry key (fact_entry fact) s = has_fact dv dr key fact s
  has_entry key (rule_entry rule) s = has_rule dv dr key rule s

  abbrev pub same_entry : Entry V R → Entry V R → Bool
  same_entry (fact_entry f) (fact_entry g) = is_at dv dr (fact_discrete dv) f g
  same_entry (rule_entry r) (rule_entry q) = is_at dv dr dr r q
  same_entry _ _ = false

  abbrev pub IsWideEntry : Str → Entry V R → RuleSet V R → Type 0
  IsWideEntry key (fact_entry fact) s = IsWide dv dr key fact s
  IsWideEntry key (rule_entry rule) s = Unit

  -- `s'` has what `s` has and this entry under this key.
  abbrev pub HasAdded : Str → Entry V R → RuleSet V R → RuleSet V R → Type 0
  HasAdded key entry s s' =
      (k : Str) (e : Entry V R)
      → has_entry k e s' ≡ (is_at dv dr str_discrete k key && same_entry e entry || has_entry k e s)

  abbrev pub HasDropped : Str → Entry V R → RuleSet V R → RuleSet V R → Type 0
  HasDropped key entry s s' =
      (k : Str) (e : Entry V R)
      → has_entry k e s'
        ≡ (not (is_at dv dr str_discrete k key && same_entry e entry) && has_entry k e s)

  has_rule-same :
      (k : Str) (r : R) (s s' : RuleSet V R)
      → s'.rules ≡ s.rules
      → has_rule dv dr k r s' ≡ has_rule dv dr k r s
  unfolding has_rule
  has_rule-same k r s s' e = ground (arith, e)

  has_fact-same :
      (k : Str) (f : Fact V) (s s' : RuleSet V R)
      → s'.facts ≡ s.facts
      → has_fact dv dr k f s' ≡ has_fact dv dr k f s
  unfolding has_fact
  has_fact-same k f s s' e = ground (arith, e)

  -- The part of the RuleSet that an entry is in.
  abbrev add_entry : Str → Entry V R → RuleSet V R → Result Bool × RuleSet V R
  add_entry key (fact_entry fact) s = add_to_facts dv dr key fact s
  add_entry key (rule_entry rule) s = add_to_rules dv dr key rule s

  abbrev discard_entry : Str → Entry V R → RuleSet V R → Result Bool × RuleSet V R
  discard_entry key (fact_entry fact) s = discard_from_facts dv dr key fact s
  discard_entry key (rule_entry rule) s = discard_from_rules dv dr key rule s

  add_entry_lem :
      (key : Str) (entry : Entry V R) (s : RuleSet V R)
      → IsValid dv dr s
      → IsWideEntry key entry s
      → (s' : RuleSet V R) × (add_entry key entry s ≡ (ok (not (has_entry key entry s)), s'))
        × IsValid dv dr s'
        × HasAdded key entry s s'
  add_entry_lem key (fact_entry fact) s v wide =
      let (s', run, valid, same, has) = add_to_facts_lem dv dr key fact s v wide in
      (s', run, valid, λ k e. go s' same has k e)
    where
      go :
          (s' : RuleSet V R)
          → s'.rules ≡ s.rules
          → ((k : Str) (f : Fact V)
              → has_fact dv dr k f s' ≡ (
                  is_at dv dr str_discrete k key && is_at dv dr (fact_discrete dv) f fact
                  || has_fact dv dr k f s))
          → HasAdded key (fact_entry fact) s s'
      go s' same has k (fact_entry f) = has k f
      go s' same has k (rule_entry r) = ground (arith, has_rule-same k r s s' same)
  add_entry_lem key (rule_entry rule) s v wide =
      let (s', run, valid, same, has) = add_to_rules_lem dv dr key rule s v in
      (s', run, valid, λ k e. go s' same has k e)
    where
      go :
          (s' : RuleSet V R)
          → s'.facts ≡ s.facts
          → ((k : Str) (r : R)
              → has_rule dv dr k r s'
                ≡ (is_at dv dr str_discrete k key && is_at dv dr dr r rule || has_rule dv dr k r s))
          → HasAdded key (rule_entry rule) s s'
      go s' same has k (rule_entry r) = has k r
      go s' same has k (fact_entry f) = ground (arith, has_fact-same k f s s' same)

  discard_entry_lem :
      (key : Str) (entry : Entry V R) (s : RuleSet V R)
      → IsValid dv dr s
      → (s' : RuleSet V R) × (discard_entry key entry s ≡ (ok (has_entry key entry s), s'))
        × IsValid dv dr s'
        × HasDropped key entry s s'
  discard_entry_lem key (fact_entry fact) s v =
      let (s', run, valid, same, has) = discard_from_facts_lem dv dr key fact s v in
      (s', run, valid, λ k e. go s' same has k e)
    where
      go :
          (s' : RuleSet V R)
          → s'.rules ≡ s.rules
          → ((k : Str) (f : Fact V)
              → has_fact dv dr k f s' ≡ (
                  not (is_at dv dr str_discrete k key && is_at dv dr (fact_discrete dv) f fact)
                  && has_fact dv dr k f s))
          → HasDropped key (fact_entry fact) s s'
      go s' same has k (fact_entry f) = has k f
      go s' same has k (rule_entry r) = ground (arith, has_rule-same k r s s' same)
  discard_entry_lem key (rule_entry rule) s v =
      let (s', run, valid, same, has) = discard_from_rules_lem dv dr key rule s v in
      (s', run, valid, λ k e. go s' same has k e)
    where
      go :
          (s' : RuleSet V R)
          → s'.facts ≡ s.facts
          → ((k : Str) (r : R)
              → has_rule dv dr k r s' ≡ (
                  not (is_at dv dr str_discrete k key && is_at dv dr dr r rule)
                  && has_rule dv dr k r s))
          → HasDropped key (rule_entry rule) s s'
      go s' same has k (rule_entry r) = has k r
      go s' same has k (fact_entry f) = ground (arith, has_fact-same k f s s' same)

  add_rule-add_entry :
      (key : Str) (item : RuleItem V R) (entry : Entry V R) (s : RuleSet V R)
      → stored item ≡ some entry
      → add_rule dv dr key item s ≡ add_entry key entry s
  unfolding add_rule
  add_rule-add_entry key (of_fact fact) entry s e = ground (arith, e)
  add_rule-add_entry key (of_atom fact) entry s e = cc
  add_rule-add_entry key (of_formula true negated_head fact rule) entry s e = ground (arith, e)
  add_rule-add_entry key (of_formula false true fact rule) entry s e = ground (arith, e)
  add_rule-add_entry key (of_formula false false fact rule) entry s e = ground (arith, e)

  discard_rule-discard_entry :
      (key : Str) (item : RuleItem V R) (s : RuleSet V R)
      → is_atom_item item ≡ false
      → discard_rule dv dr key item s ≡ discard_entry key (sought item) s
  unfolding discard_rule
  discard_rule-discard_entry key (of_fact fact) s h = refl
  discard_rule-discard_entry key (of_atom fact) s h = cc
  discard_rule-discard_entry key (of_formula true negated_head fact rule) s h = refl
  discard_rule-discard_entry key (of_formula false negated_head fact rule) s h = refl

  has_item-has_entry :
      (key : Str) (item : RuleItem V R) (s : RuleSet V R)
      → has_item dv dr key item s ≡ has_entry key (sought item) s
  unfolding has_item
  has_item-has_entry key (of_fact fact) s = refl
  has_item-has_entry key (of_atom fact) s = refl
  has_item-has_entry key (of_formula true negated_head fact rule) s = refl
  has_item-has_entry key (of_formula false negated_head fact rule) s = refl

  -- `add_rule` of a Fact or a Rule to a valid RuleSet, with a fact that is wide enough for the
  -- indices under the key, raises nothing, returns whether the entry that it stores is new, adds
  -- this entry under this key and nothing else, and keeps the RuleSet valid.
  pub add_rule_lem :
      (key : Str) (item : RuleItem V R) (entry : Entry V R) (s : RuleSet V R)
      → stored item ≡ some entry
      → IsValid dv dr s
      → IsWideEntry key entry s
      → (s' : RuleSet V R) × (add_rule dv dr key item s ≡ (ok (not (has_entry key entry s)), s'))
        × IsValid dv dr s'
        × HasAdded key entry s s'
  add_rule_lem key item entry s e v wide =
      let (s', run, valid, has) = add_entry_lem key entry s v wide in
      (s', add_rule-add_entry key item entry s e ∙ run, valid, has)

  -- `discard_rule` of a Fact or a Rule from a valid RuleSet raises nothing, returns whether the
  -- entry that it looks for is there, drops this entry under this key and nothing else, and keeps
  -- the RuleSet valid; `contains` says whether this entry is there.
  pub discard_rule_lem :
      (key : Str) (item : RuleItem V R) (s : RuleSet V R)
      → is_atom_item item ≡ false
      → IsValid dv dr s
      → (s' : RuleSet V R) × (discard_rule dv dr key item s ≡ (ok (has_item dv dr key item s), s'))
        × (has_item dv dr key item s ≡ has_entry key (sought item) s)
        × IsValid dv dr s'
        × HasDropped key (sought item) s s'
  discard_rule_lem key item s h v =
      let (s', run, valid, has) = discard_entry_lem key (sought item) s v in
      let same = has_item-has_entry key item s in
      (
        s',
        discard_rule-discard_entry key item s h ∙ run ∙ ap (λ b. (ok b, s')) (sym same),
        same,
        valid,
        has,
      )
