-- ===== src/RuleSet/Rules.antt =====
-- The rules of a RuleSet that are no facts.
use congress.Prelude.{
  ◌≡◌, refl, true, false, ◌&&◌, ◌||◌, not, List, [], ◌∷◌, arith, contains, contains-add,
  contains-discard, add, discard, is_empty, lookup, insert, erase, lookup-insert, lookup-erase, inl,
  inr, Option-cases, Bool-cases, ok,
}
use congress.Tablename.{Str, str_discrete}
use congress.OrderedSet.{OrderedSet, init, insert_key, discard_key, has}
use congress.OrderedSet.Refines.{
  Represents, init-Represents, insert_key-Represents, discard_key-Represents,
}
use congress.RuleSet.{RuleSet, add_to_rules, discard_from_rules, has_rule}
use congress.RuleSet.Entries.{IsValid, is_at, insert-rules-IsValid}

module _ {V R : Type 0} (dv : Discrete V) (dr : Discrete R) where
  has-Represents :
      (r : R) (own : OrderedSet R) (l : List R)
      → Represents dr own l
      → has dr r own ≡ contains dr r l
  unfolding has
  has-Represents r own l h = h.same r

  contains_nil : (r : R) → contains dr r [] ≡ false
  unfolding contains
  contains_nil r = refl

  has_of_is_empty : (r : R) (own : OrderedSet R) → is_empty own.keys ≡ true → has dr r own ≡ false
  unfolding has
  has_of_is_empty r own h = none_there own.keys h
    where
      none_there : (l : List R) → is_empty l ≡ true → contains dr r l ≡ false
      none_there [] h = contains_nil r
      none_there (q ∷ l) h = cc

  erase-rules-IsValid :
      (key : Str) (s : RuleSet V R)
      → IsValid dv dr s
      → IsValid dv dr (record s { rules = erase str_discrete key s.rules })
  erase-rules-IsValid key s v =
      (v.0, λ k own e. v.1 k own (ground (arith, e, lookup-erase str_discrete k key s.rules)))

  -- The set under a key that is not there is a new one.
  -- `add` under a key returns whether the rule is new, and adds this rule and nothing else.
  pub add_to_rules_lem :
      (key : Str) (rule : R) (s : RuleSet V R)
      → IsValid dv dr s
      → (s' : RuleSet V R) × (add_to_rules dv dr key rule s
          ≡ (ok (not (has_rule dv dr key rule s)), s'))
        × IsValid dv dr s'
        × (s'.facts ≡ s.facts)
        × ((k : Str) (r : R)
            → has_rule dv dr k r s'
              ≡ (is_at dv dr str_discrete k key && is_at dv dr dr r rule || has_rule dv dr k r s))
  unfolding add_to_rules has_rule
  add_to_rules_lem key rule s v = elim (Option-cases (lookup str_discrete key s.rules)) [
    | inl e ↦
        let (new, h) = insert_key-Represents dr rule init [] (init-Represents dr) in
        let own = (insert_key dr rule init).0 in
        (
          record s { rules = insert str_discrete key own s.rules },
          ground (arith, e),
          insert-rules-IsValid dv dr key own (add dr rule []) s v h,
          refl,
          λ k r. ground (
            arith,
            e,
            has-Represents r own (add dr rule []) h,
            contains-add dr r rule [],
            contains_nil r,
            lookup-insert str_discrete k key own s.rules,
          ),
        )
    | inr (own, e) ↦
        let (l, before) = v.1 key own e in
        let (new, h) = insert_key-Represents dr rule own l before in
        let own' = (insert_key dr rule own).0 in
        (
          record s { rules = insert str_discrete key own' s.rules },
          ground (arith, e, new, has-Represents rule own l before),
          insert-rules-IsValid dv dr key own' (add dr rule l) s v h,
          refl,
          λ k r. ground (
            arith,
            e,
            has-Represents r own' (add dr rule l) h,
            has-Represents r own l before,
            contains-add dr r rule l,
            lookup-insert str_discrete k key own' s.rules,
          ),
        )
  ]

  -- `discard` under a key returns whether the rule is there, and drops this rule and nothing else.
  pub discard_from_rules_lem :
      (key : Str) (rule : R) (s : RuleSet V R)
      → IsValid dv dr s
      → (s' : RuleSet V R) × (discard_from_rules dv dr key rule s
          ≡ (ok (has_rule dv dr key rule s), s'))
        × IsValid dv dr s'
        × (s'.facts ≡ s.facts)
        × ((k : Str) (r : R)
            → has_rule dv dr k r s' ≡ (
                not (is_at dv dr str_discrete k key && is_at dv dr dr r rule)
                && has_rule dv dr k r s))
  unfolding discard_from_rules has_rule
  discard_from_rules_lem key rule s v = elim (Option-cases (lookup str_discrete key s.rules)) [
    | inl e ↦ (s, ground (arith, e), v, refl, λ k r. ground (arith, e))
    | inr (own, e) ↦
        let (l, before) = v.1 key own e in
        let (there, h) = discard_key-Represents dr rule own l before in
        let own' = (discard_key dr rule own).0 in
        elim (Bool-cases (is_empty own'.keys)) [
          | inl last ↦ (
            record s { rules = erase str_discrete key (insert str_discrete key own' s.rules) },
            ground (arith, e, there, last, has-Represents rule own l before),
            erase-rules-IsValid key (record s { rules = insert str_discrete key own' s.rules })
                (insert-rules-IsValid dv dr key own' (discard dr rule l) s v h),
            refl,
            λ k r. ground (
              arith,
              e,
              has_of_is_empty r own' last,
              has-Represents r own' (discard dr rule l) h,
              has-Represents r own l before,
              contains-discard dr r rule l,
              lookup-insert str_discrete k key own' s.rules,
              lookup-erase str_discrete k key (insert str_discrete key own' s.rules),
            ),
          )
          | inr more ↦ (
            record s { rules = insert str_discrete key own' s.rules },
            ground (arith, e, there, more, has-Represents rule own l before),
            insert-rules-IsValid dv dr key own' (discard dr rule l) s v h,
            refl,
            λ k r. ground (
              arith,
              e,
              has-Represents r own' (discard dr rule l) h,
              has-Represents r own l before,
              contains-discard dr r rule l,
              lookup-insert str_discrete k key own' s.rules,
            ),
          )
        ]
  ]
