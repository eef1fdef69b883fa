-- ===== src/DepthFilter/Rules/Order.antt =====
-- What holds of the module rules that `ParseDepthFilterSpec` comes to.
use vd_trace.Base.{
  ◌≤◌, ◌≡◌, refl, true, false, List, [], ◌∷◌, Option, none, some, arith, ltb, Bool-cases, inl, inr,
  All, subst,
}
use vd_trace.Session.{Text, ModuleRange, ResolvedDepthFilterModuleRule, ResolvedDepthFilterSet}
use vd_trace.DepthFilter.{trim_depth_text, is_empty, split_depth_filter_tokens}
use vd_trace.DepthFilter.Rules.{
  Outcome, done, failed, TextDepthModuleRule, Progress, is_system_module_range, same_range,
  add_or_replace_module_rule, insert_rule, sort_rules, all_aligned, resolve_rules, resolved_rule,
  add_resolved, finish_rules, parse_tokens, parse_depth_filter_spec, and_then, no_filters,
}

abbrev Rule : Type 0
Rule = ResolvedDepthFilterModuleRule

-- Another range than that of the first.
abbrev pub Differs : Rule → Rule → Type 0
Differs a b = same_range b.range a.range ≡ false

abbrev pub IsDistinct : List Rule → Type 0
IsDistinct [] = Unit
IsDistinct (x ∷ xs) = All (Differs x) xs × IsDistinct xs

abbrev pub IsOrdered : List Rule → Type 0
IsOrdered [] = Unit
IsOrdered (x ∷ xs) = All (λ y. x.range.base ≤ y.range.base) xs × IsOrdered xs

All-map : {P Q : Rule → Type 0} (xs : List Rule) → ((x : Rule) → P x → Q x) → All P xs → All Q xs
All-map [] f a = tt
All-map (x ∷ xs) f a = (f x a.0, All-map xs f a.1)

add-All :
    (P : Rule → Type 0) (rules : List Rule) (rule : Rule)
    → P rule
    → All P rules
    → All P (add_or_replace_module_rule rules rule)
unfolding add_or_replace_module_rule
add-All P [] rule p a = (p, tt)
add-All P (x ∷ xs) rule p a = elim (Bool-cases (same_range x.range rule.range)) [
  | inl e ↦ rw e (p, a.1)
  | inr e ↦ rw e (a.0, add-All P xs rule p a.1)
]

add-IsDistinct :
    (rules : List Rule) (rule : Rule)
    → IsDistinct rules
    → IsDistinct (add_or_replace_module_rule rules rule)
unfolding add_or_replace_module_rule
add-IsDistinct [] rule d = (tt, tt)
add-IsDistinct (x ∷ xs) rule d = elim (Bool-cases (same_range x.range rule.range)) [
  | inl e ↦ rw e (All-map xs (λ y p. ground (arith, e)) d.0, d.1)
  | inr e ↦ rw e (add-All (Differs x) xs rule (ground (arith, e)) d.0, add-IsDistinct xs rule d.1)
]

insert-All :
    (P : Rule → Type 0) (rule : Rule) (rules : List Rule)
    → P rule
    → All P rules
    → All P (insert_rule rule rules)
unfolding insert_rule
insert-All P rule [] p a = (p, tt)
insert-All P rule (x ∷ xs) p a = elim (Bool-cases (ltb x.range.base rule.range.base)) [
  | inl e ↦ rw e (a.0, insert-All P rule xs p a.1)
  | inr e ↦ rw e (p, a)
]

insert-IsOrdered :
    (rule : Rule) (rules : List Rule) → IsOrdered rules → IsOrdered (insert_rule rule rules)
unfolding insert_rule
insert-IsOrdered rule [] o = (tt, tt)
insert-IsOrdered rule (x ∷ xs) o = elim (Bool-cases (ltb x.range.base rule.range.base)) [
  | inl e ↦ rw e (
    insert-All (λ y. x.range.base ≤ y.range.base) rule xs (ground arith) o.0,
    insert-IsOrdered rule xs o.1,
  )
  | inr e ↦
      let h : rule.range.base ≤ x.range.base = ground arith in
      rw e ((h, All-map xs (λ y p. omega (arith, h, p)) o.0), o)
]

insert-IsDistinct :
    (rule : Rule) (rules : List Rule)
    → All (Differs rule) rules
    → IsDistinct rules
    → IsDistinct (insert_rule rule rules)
unfolding insert_rule
insert-IsDistinct rule [] a d = (tt, tt)
insert-IsDistinct rule (x ∷ xs) a d = elim (Bool-cases (ltb x.range.base rule.range.base)) [
  | inl e ↦
      rw e (
        insert-All (Differs x) rule xs (ground (arith, a.0)) d.0,
        insert-IsDistinct rule xs a.1 d.1,
      )
  | inr e ↦ rw e (a, d)
]

sort-All : (P : Rule → Type 0) (rules : List Rule) → All P rules → All P (sort_rules rules)
unfolding sort_rules
sort-All P [] a = tt
sort-All P (x ∷ xs) a = insert-All P x (sort_rules xs) a.0 (sort-All P xs a.1)

sort-IsOrdered : (rules : List Rule) → IsOrdered (sort_rules rules)
unfolding sort_rules
sort-IsOrdered [] = tt
sort-IsOrdered (x ∷ xs) = insert-IsOrdered x (sort_rules xs) (sort-IsOrdered xs)

sort-IsDistinct : (rules : List Rule) → IsDistinct rules → IsDistinct (sort_rules rules)
unfolding sort_rules
sort-IsDistinct [] d = tt
sort-IsDistinct (x ∷ xs) d =
    insert-IsDistinct x (sort_rules xs) (sort-All (Differs x) xs d.0) (sort-IsDistinct xs d.1)

and_then-done :
    {A B : Type 0} (o : Outcome A) (next : A → Outcome B) (b : B)
    → and_then o next ≡ done b
    → (a : A) × (o ≡ done a) × (next a ≡ done b)
and_then-done (failed x) next b e = absurd (ground arith)
and_then-done (done a) next b e = (a, refl, e)

done-same : {A : Type 0} (a b : A) → done a ≡ done b → a ≡ b
done-same a b e = ground arith

module _ (resolve_module_range : Text → Option ModuleRange)
    (tracked_modules system_modules : List ModuleRange) where
  abbrev IsNotSystem : Rule → Type 0
  IsNotSystem r = is_system_module_range system_modules r.range ≡ false

  -- The rules of a filter: one for a range, in the order of the bases, none for a system module,
  -- and each at the base of the tracked module that it lies in, if there is one.
  pub record IsResolved (rules : List Rule) : Type 0 where
    pub distinct : IsDistinct rules
    pub ordered : IsOrdered rules
    pub not_system : All IsNotSystem rules
    pub aligned : all_aligned tracked_modules rules ≡ true

  Good : List Rule → Type 0
  Good rules = IsDistinct rules × All IsNotSystem rules

  add_resolved-Good :
      (rules : List Rule) (x : TextDepthModuleRule) (found : Option ModuleRange)
      (result : List Rule)
      → Good rules
      → add_resolved resolve_module_range tracked_modules system_modules rules x found ≡ done result
      → Good result
  unfolding Good
  add_resolved-Good rules x none result g e = absurd (ground arith)
  add_resolved-Good rules x (some range) result g e =
      elim (Bool-cases (is_system_module_range system_modules range)) [
        | inl bad ↦ absurd (ground (arith, rw bad at e))
        | inr fine ↦
            let rule = resolved_rule resolve_module_range tracked_modules system_modules range x in
            let same = done-same (add_or_replace_module_rule rules rule) result (rw fine at e) in
            subst Good same (add-IsDistinct rules rule g.0, add-All IsNotSystem rules rule fine g.1)
      ]

  resolve-Good :
      (rules : List Rule) (texts : List TextDepthModuleRule) (result : List Rule)
      → Good rules
      → resolve_rules resolve_module_range tracked_modules system_modules rules texts ≡ done result
      → Good result
  unfolding resolve_rules
  resolve-Good rules [] result g e = subst Good (done-same rules result e) g
  resolve-Good rules (x ∷ xs) result g e =
      let found = resolve_module_range x.module_name in
      let (next, added, rest) =
        and_then-done
          (add_resolved resolve_module_range tracked_modules system_modules rules x found)
          (λ next. resolve_rules resolve_module_range tracked_modules system_modules next xs) result
          e in
      resolve-Good next xs result (add_resolved-Good rules x found next g added) rest

  finish-IsResolved :
      (filters result : ResolvedDepthFilterSet) (rules : List Rule)
      → Good rules
      → finish_rules resolve_module_range tracked_modules system_modules filters (sort_rules rules)
        ≡ done result
      → IsResolved result.module_rules
  unfolding Good
  finish-IsResolved filters result rules g e =
      elim (Bool-cases (all_aligned tracked_modules (sort_rules rules))) [
        | inr bad ↦ absurd (ground (arith, rw bad at e))
        | inl fine ↦
            let same =
              done-same (record filters { module_rules = sort_rules rules }) result
                (rw fine at e) in
            subst (λ (f : ResolvedDepthFilterSet). IsResolved f.module_rules) same
              (record {
                distinct = sort-IsDistinct rules g.0;
                ordered = sort-IsOrdered rules;
                not_system = sort-All IsNotSystem rules g.1;
                aligned = fine;
              })
      ]

  parsed-IsResolved :
      (parsed : Outcome Progress) (filters : ResolvedDepthFilterSet)
      → and_then parsed (λ p.
        and_then
          (resolve_rules resolve_module_range tracked_modules system_modules [] p.1)
          (λ rules.
            finish_rules resolve_module_range tracked_modules system_modules p.0
              (sort_rules rules)))
        ≡ done filters
      → IsResolved filters.module_rules
  unfolding Good
  parsed-IsResolved parsed filters e =
      let (p, _, f) =
        and_then-done parsed
          (λ p.
            and_then (resolve_rules resolve_module_range tracked_modules system_modules [] p.1)
              (λ rules.
                finish_rules resolve_module_range tracked_modules system_modules p.0
                  (sort_rules rules)))
          filters e in
      let (rules, r, g) =
        and_then-done (resolve_rules resolve_module_range tracked_modules system_modules [] p.1)
          (λ rules.
            finish_rules resolve_module_range tracked_modules system_modules p.0 (sort_rules rules))
          filters f in
      finish-IsResolved p.0 filters rules (resolve-Good [] p.1 rules (tt, tt) r) g

  -- Where `ParseDepthFilterSpec` succeeds, whatever the text and the loaded modules, its module
  -- rules are `IsResolved`: no two are for one range, they are in the order of their bases as
  -- `FindDepthFilterModuleRule` wants them, none is for a system module, and each begins
  -- where the tracked module that holds its base begins.
  pub parse-IsResolved :
      (text : Text) (filters : ResolvedDepthFilterSet)
      → parse_depth_filter_spec resolve_module_range tracked_modules system_modules text
        ≡ done filters
      → IsResolved filters.module_rules
  unfolding parse_depth_filter_spec all_aligned
  parse-IsResolved text filters e = elim (Bool-cases (is_empty (trim_depth_text text))) [
    | inl blank ↦
        subst (λ (f : ResolvedDepthFilterSet). IsResolved f.module_rules)
          (done-same no_filters filters (rw blank at e))
          (record { distinct = tt; ordered = tt; not_system = tt; aligned = refl })
    | inr some' ↦
        parsed-IsResolved
          (parse_tokens (no_filters, []) (split_depth_filter_tokens (trim_depth_text text))) filters
          (rw some' at e)
  ]
