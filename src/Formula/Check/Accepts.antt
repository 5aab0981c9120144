-- ===== src/Formula/Check/Accepts.antt =====
-- The check of a function of packages/formula/src/check.ts lets through only arguments that the table of
-- parameters allows.
use salesmaker.Base.{◌≡◌, zero, suc, ◌≤◌, Bool, true, List, [], ◌∷◌, arith, length}
use salesmaker.Base.Text.{Text, codes}
use salesmaker.Formula.Syntax.{
  Span, ErrorCode, text_type, boolean_type, date_type, date_time_type, picklist_type,
  multi_picklist_type,
}
use salesmaker.Formula.Types.{TypedNode, type_of}
use salesmaker.Formula.Post.{Post, returns, throws, ◌⟫◌, weaken}
use salesmaker.Formula.Functions.{
  Function, if_fn, case_fn, and_fn, or_fn, not_fn, is_blank, blank_value, is_changed, prior_value,
  is_new, is_pick_val, includes_fn, text_fn, value_fn, len, left_fn, right_fn, mid, contains,
  begins, upper, lower, trim, substitute, regex, round, floor, ceiling, abs, min_fn, max_fn, mod_fn,
  today, now, date, date_value, year, month, day, weekday, add_months, date_diff, business_days,
  arity,
}
use salesmaker.Formula.Check.Parameters.{
  a_field, a_literal, among, exactly, but_not, a_text, a_number, accepts,
}
use salesmaker.Formula.Rules.{expect_numeric, literal_text}
use salesmaker.Formula.Signatures.{check_function}
use salesmaker.Formula.Check.Reads.{Post-if, arg-is}
use salesmaker.Formula.Check.Admits.{
  expect_type-Admits, expect_numeric-Admits, expect_field-Admits, expect_literal-Admits,
  expect_exactly-Admits, each_arg-Each, anything_stands, each_of-Each, each_numeric-Each, repeated,
  text_first-stands, one_stands, two_stand, unify_all-Done, check_case-stands, text_result-stands,
}

module _ (valid_regex : Text → Bool) where
  -- The arguments stand for the parameters of the function.
  abbrev Accepts : Function → List TypedNode → Type 0
  Accepts f ns = accepts f ns ≡ true

  pub check_function-Accepts :
      (f : Function) (ns : List TypedNode) (s : Span)
      → (arity f).0 ≤ length ns
      → Post (λ _. Accepts f ns) (check_function valid_regex f ns s)
  unfolding check_function arity accepts repeated
  check_function-Accepts if_fn ns s h = arg-is ns 0 (omega arith) ⟫ λ c e.
      expect_type-Admits (boolean_type ∷ []) c ⟫ λ _ k. arg-is ns 1 (omega arith) ⟫ λ a _.
      arg-is ns 2 (omega arith) ⟫ λ b _.
      weaken (λ _ _. one_stands (among (boolean_type ∷ [])) ns c e k)
        (unify_all-Done (a ∷ b ∷ []) s)
  check_function-Accepts case_fn ns s h = check_case-stands ns s (omega arith)
  check_function-Accepts and_fn ns s h = each_of-Each _ _ ns
  check_function-Accepts or_fn ns s h = each_of-Each _ _ ns
  check_function-Accepts not_fn ns s h = each_of-Each _ _ ns
  check_function-Accepts value_fn ns s h = each_of-Each _ _ ns
  check_function-Accepts date_value ns s h = each_of-Each _ _ ns
  check_function-Accepts year ns s h = each_of-Each _ _ ns
  check_function-Accepts month ns s h = each_of-Each _ _ ns
  check_function-Accepts day ns s h = each_of-Each _ _ ns
  check_function-Accepts weekday ns s h = each_of-Each _ _ ns
  check_function-Accepts date_diff ns s h = each_of-Each _ _ ns
  check_function-Accepts business_days ns s h = each_of-Each _ _ ns
  check_function-Accepts is_blank ns s h = returns (anything_stands ns)
  check_function-Accepts is_new ns s h = returns (anything_stands ns)
  check_function-Accepts today ns s h = returns (anything_stands ns)
  check_function-Accepts now ns s h = returns (anything_stands ns)
  check_function-Accepts blank_value ns s h = arg-is ns 0 (omega arith) ⟫ λ a _.
      arg-is ns 1 (omega arith) ⟫ λ b _.
      weaken (λ _ _. anything_stands ns) (unify_all-Done (a ∷ b ∷ []) s)
  check_function-Accepts is_changed ns s h = arg-is ns 0 (omega arith) ⟫ λ a e.
      expect_field-Admits (codes "ISCHANGED") a ⟫ λ _ k. returns (one_stands a_field ns a e k)
  check_function-Accepts prior_value ns s h = arg-is ns 0 (omega arith) ⟫ λ a e.
      expect_field-Admits (codes "PRIORVALUE") a ⟫ λ _ k. returns (one_stands a_field ns a e k)
  check_function-Accepts is_pick_val ns s h = arg-is ns 0 (omega arith) ⟫ λ f e.
      expect_exactly-Admits picklist_type (ErrorCode.expected_picklist (type_of f)) f ⟫ λ _ k.
      arg-is ns 1 (omega arith) ⟫ λ v g. expect_literal-Admits (codes "ISPICKVAL") v ⟫ λ _ l.
      returns (two_stand (exactly picklist_type) a_literal ns f v e g k l)
  check_function-Accepts includes_fn ns s h = arg-is ns 0 (omega arith) ⟫ λ f e.
      expect_exactly-Admits multi_picklist_type (ErrorCode.expected_multipicklist (type_of f)) f
      ⟫ λ _ k. arg-is ns 1 (omega arith) ⟫ λ v g.
          expect_literal-Admits (codes "INCLUDES") v ⟫ λ _ l.
          returns (two_stand (exactly multi_picklist_type) a_literal ns f v e g k l)
  check_function-Accepts text_fn ns s h = arg-is ns 0 (omega arith) ⟫ λ a e.
      weaken (λ _ k. one_stands (but_not multi_picklist_type) ns a e k) (text_result-stands a)
  check_function-Accepts len ns s h = text_first-stands zero _ ns (omega arith)
  check_function-Accepts left_fn ns s h = text_first-stands (suc zero) _ ns (omega arith)
  check_function-Accepts right_fn ns s h = text_first-stands (suc zero) _ ns (omega arith)
  check_function-Accepts mid ns s h = text_first-stands (suc (suc zero)) _ ns (omega arith)
  check_function-Accepts contains ns s h = text_first-stands zero _ ns (omega arith)
  check_function-Accepts begins ns s h = text_first-stands zero _ ns (omega arith)
  check_function-Accepts upper ns s h = text_first-stands zero _ ns (omega arith)
  check_function-Accepts lower ns s h = text_first-stands zero _ ns (omega arith)
  check_function-Accepts trim ns s h = text_first-stands zero _ ns (omega arith)
  check_function-Accepts substitute ns s h = text_first-stands zero _ ns (omega arith)
  check_function-Accepts regex ns s h = arg-is ns 0 (omega arith) ⟫ λ a e.
      expect_type-Admits (text_type ∷ []) a ⟫ λ _ k. arg-is ns 1 (omega arith) ⟫ λ p g.
      expect_literal-Admits (codes "REGEX") p ⟫ λ _ l.
      Post-if (valid_regex (literal_text p)) (returns (two_stand a_text a_literal ns a p e g k l))
        throws
  check_function-Accepts round ns s h = arg-is ns 0 (omega arith) ⟫ λ a e.
      expect_numeric-Admits a ⟫ λ _ k. arg-is ns 1 (omega arith) ⟫ λ d g.
      expect_numeric-Admits d ⟫ λ _ l. returns (two_stand a_number a_number ns a d e g k l)
  check_function-Accepts floor ns s h = each_numeric-Each _ ns
  check_function-Accepts ceiling ns s h = each_numeric-Each _ ns
  check_function-Accepts mod_fn ns s h = each_numeric-Each _ ns
  check_function-Accepts date ns s h = each_numeric-Each _ ns
  check_function-Accepts abs ns s h = arg-is ns 0 (omega arith) ⟫ λ a e.
      expect_numeric-Admits a ⟫ λ _ k. returns (one_stands a_number ns a e k)
  check_function-Accepts min_fn ns s h =
      each_arg-Each a_number expect_numeric ns expect_numeric-Admits ⟫ λ _ k.
      weaken (λ _ _. k) (unify_all-Done ns s)
  check_function-Accepts max_fn ns s h =
      each_arg-Each a_number expect_numeric ns expect_numeric-Admits ⟫ λ _ k.
      weaken (λ _ _. k) (unify_all-Done ns s)
  check_function-Accepts add_months ns s h = arg-is ns 0 (omega arith) ⟫ λ a e.
      expect_type-Admits (date_type ∷ date_time_type ∷ []) a ⟫ λ _ k.
      arg-is ns 1 (omega arith) ⟫ λ m g. expect_numeric-Admits m ⟫ λ _ l.
      returns (two_stand (among (date_type ∷ date_time_type ∷ [])) a_number ns a m e g k l)
