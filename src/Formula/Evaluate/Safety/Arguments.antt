-- ===== src/Formula/Evaluate/Safety/Arguments.antt =====
-- The arguments of a call in packages/formula/src/evaluate.ts, and stored values.
use salesmaker.Base.{ℕ, zero, suc, ◌<◌, ◌≤◌, ◌≡◌, true, false, List, [], ◌∷◌, arith, length, drop}
use salesmaker.Formula.Syntax.{FormulaType, null_type, Result, ok}
use salesmaker.Formula.Types.{type_eq, TypedNode, type_of}
use salesmaker.Formula.Post.{Runs, ◌▹◌}
use salesmaker.Formula.Runtime.{Decimals, Host}
use salesmaker.Formula.Values.{Value, Fits}
use salesmaker.Formula.Evaluate.Operators.{equal_values}
use salesmaker.Formula.Evaluate.Arguments.{nth, num, case_of, all_numbers}
use salesmaker.Formula.Evaluate.Outcome.{Yields, Ends, Yields-widens, ends}
use salesmaker.Formula.Evaluate.Safety.Dates.{Outcome-if}
use salesmaker.Formula.Evaluate.Safety.Operators.{AllEnd}
use salesmaker.Formula.Check.Results.{widens_at, results_widen}
use salesmaker.Formula.Check.Widening.{first_true, second_true}

-- A field has a type of its own; nothing that is stored is of the type null.
abbrev pub IsProper : TypedNode → Type 0
IsProper (TypedNode.field t path s) = type_eq t null_type ≡ false
IsProper n = Unit

module _ {dec : Decimals} (host : Host dec) where
  -- Every argument gives a value of its type.
  abbrev pub AllYield : List TypedNode → List (Result (Value dec host)) → Type 0
  AllYield [] [] = Unit
  AllYield (n ∷ ns) (r ∷ rs) = (IsProper n × Yields host (type_of n) r) × AllYield ns rs
  AllYield _ _ = ⊥

  pub AllYield-AllEnd :
      (ns : List TypedNode) (rs : List (Result (Value dec host))) → AllYield ns rs → AllEnd host rs
  AllYield-AllEnd [] [] h = tt
  AllYield-AllEnd [] (r ∷ rs) h = absurd h
  AllYield-AllEnd (n ∷ ns) [] h = absurd h
  AllYield-AllEnd (n ∷ ns) (r ∷ rs) h =
      (ends host {P = Fits (type_of n)} h.0.1, AllYield-AllEnd ns rs h.1)

  -- The argument at a place that widens to a type gives a value of that type.
  pub nth-widens :
      (t : FormulaType) (ns : List TypedNode) (rs : List (Result (Value dec host))) (i : ℕ)
      → AllYield ns rs
      → widens_at ns i t ≡ true
      → Yields host t (nth rs i)
  unfolding nth
  nth-widens t [] rs i h k = absurd cc
  nth-widens t (n ∷ ns) [] i h k = absurd h
  nth-widens t (n ∷ ns) (r ∷ rs) zero h k = Yields-widens host (type_of n) t k h.0.1
  nth-widens t (n ∷ ns) (r ∷ rs) (suc i) h k = nth-widens t ns rs i h.1 k

  -- The argument at a place that there is ends.
  pub nth-Ends :
      (ns : List TypedNode) (rs : List (Result (Value dec host))) (i : ℕ)
      → AllYield ns rs
      → i < length ns
      → Ends host (nth rs i)
  unfolding nth
  nth-Ends [] rs i h k = absurd (omega arith)
  nth-Ends (n ∷ ns) [] i h k = absurd h
  nth-Ends (n ∷ ns) (r ∷ rs) zero h k = ends host {P = Fits (type_of n)} h.0.1
  nth-Ends (n ∷ ns) (r ∷ rs) (suc i) h k = nth-Ends ns rs i h.1 (omega arith)

  pub num-Ends :
      (ns : List TypedNode) (rs : List (Result (Value dec host))) (i : ℕ)
      → AllYield ns rs
      → i < length ns
      → Ends host (num rs i)
  num-Ends ns rs i h k = nth-Ends ns rs i h k ▹ λ v _. Runs.returns tt

  pub all_numbers-Ends :
      (rs : List (Result (Value dec host))) → AllEnd host rs → Ends host (all_numbers rs)
  unfolding all_numbers
  all_numbers-Ends [] h = Runs.returns tt
  all_numbers-Ends (r ∷ rs) h = h.0 ▹ λ v _. all_numbers-Ends rs h.1 ▹ λ ds _. Runs.returns tt

  case_of-Yields :
      (t : FormulaType) (v : Value dec host) (last : Result (Value dec host)) (ns : List TypedNode)
      (rs : List (Result (Value dec host)))
      → Yields host t last
      → AllYield ns rs
      → results_widen ns t ≡ true
      → Yields host t (case_of v last rs)
  unfolding case_of
  case_of-Yields t v last [] [] l h k = l
  case_of-Yields t v last [] (r ∷ rs) l h k = absurd h
  case_of-Yields t v last (n ∷ ns) [] l h k = absurd h
  case_of-Yields t v last (n ∷ []) (r ∷ []) l h k = Yields-widens host (type_of n) t k h.0.1
  case_of-Yields t v last (n ∷ []) (r ∷ s ∷ rs) l h k = absurd h.1
  case_of-Yields t v last (n ∷ m ∷ ns) (r ∷ []) l h k = absurd h.1
  case_of-Yields t v last (n ∷ m ∷ ns) (r ∷ s ∷ rs) l h k =
      let hit : Yields host t s = Yields-widens host (type_of m) t (first_true _ _ k) h.1.0.1 in
      h.0.1 ▹ λ w _.
      Outcome-if host (Fits t) (equal_values host v w) hit
        (case_of-Yields t v s ns rs hit h.1.1 (second_true _ _ k))

  -- CASE, after its subject, which is not one of its results.
  pub case_rest-Yields :
      (t : FormulaType) (v : Value dec host) (ns : List TypedNode)
      (rs : List (Result (Value dec host)))
      → AllYield ns rs
      → 2 ≤ length ns
      → results_widen (drop 1 ns) t ≡ true
      → Yields host t (case_of v (ok v) (drop 1 rs))
  unfolding case_of
  case_rest-Yields t v [] rs h l k = absurd (omega arith)
  case_rest-Yields t v (n ∷ []) rs h l k = absurd (omega arith)
  case_rest-Yields t v (n ∷ m ∷ ns) [] h l k = absurd h
  case_rest-Yields t v (n ∷ m ∷ ns) (r ∷ []) h l k = absurd h.1
  case_rest-Yields t v (n ∷ m ∷ []) (r ∷ s ∷ []) h l k = Yields-widens host (type_of m) t k h.1.0.1
  case_rest-Yields t v (n ∷ m ∷ []) (r ∷ s ∷ q ∷ rs) h l k = absurd h.1.1
  case_rest-Yields t v (n ∷ m ∷ o ∷ ns) (r ∷ s ∷ []) h l k = absurd h.1.1
  case_rest-Yields t v (n ∷ m ∷ o ∷ ns) (r ∷ s ∷ q ∷ rs) h l k =
      let hit : Yields host t q = Yields-widens host (type_of o) t (first_true _ _ k) h.1.1.0.1 in
      h.1.0.1 ▹ λ w _.
      Outcome-if host (Fits t) (equal_values host v w) hit
        (case_of-Yields t v q ns rs hit h.1.1.1 (second_true _ _ k))
