-- ===== src/Formula/Tests.antt =====
-- The formula language on small sources and expressions.
use salesmaker.Base.{◌≡◌, Bool, true, false, none, some, length}
use salesmaker.Base.Text.{Text, codes}
use salesmaker.Formula.Syntax.{Node, boolean_type, number_type, currency_type, percent_type, ok}
use salesmaker.Formula.Types.{found, CheckEnvironment, type_of}
use salesmaker.Formula.Post.{Post}
use salesmaker.Formula.Lexer.{tokenize}
use salesmaker.Formula.Lexer.Spans.{Chain, tokenize-Chain}
use salesmaker.Formula.Parser.{parse}
use salesmaker.Formula.Parser.Returns.{parse-returns}
use salesmaker.Formula.Rules.{unify}
use salesmaker.Formula.Rules.Unify.{IsJoin, unify-IsJoin}
use salesmaker.Formula.Check.{check, check_formula}
use salesmaker.Formula.Check.Typed.{erase, IsTyped, Types}
use salesmaker.Formula.Check.Sound.{check-Types}
use salesmaker.Formula.Check.Expected.{IsExpected, check_formula-IsExpected}

abbrev source : Text
source = codes "amount > 10 && NOT(ISBLANK(name))"

abbrev fields : CheckEnvironment
fields = record {
  field = λ path. found number_type;
  global = λ scope name. none;
  allow_prior_values = false;
}

abbrev any_regex : Text → Bool
any_regex pattern = true

abbrev nothing : Node
nothing = Node.null (record { start = 0; end = 4 })

tokenize-Chain_example : Post (Chain (length source) 0) (tokenize source)
tokenize-Chain_example = tokenize-Chain source

parse-returns_example : Post (λ _. Unit {0}) (parse source)
parse-returns_example = parse-returns source

unify-IsJoin_example : IsJoin percent_type currency_type (unify percent_type currency_type)
unify-IsJoin_example = unify-IsJoin percent_type currency_type

check-Types_example : Post (Types fields nothing) (check any_regex fields nothing)
check-Types_example = check-Types any_regex fields nothing

check_formula-IsExpected_example :
    Post
      (λ t.
        (parse source ≡ ok (erase t))
        × IsTyped fields t
        × IsExpected (some boolean_type) (type_of t))
      (check_formula any_regex fields source (some boolean_type))
check_formula-IsExpected_example =
    check_formula-IsExpected any_regex fields source (some boolean_type)
