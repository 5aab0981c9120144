-- ===== src/Formula/Evaluate/Safety/TextCalls.antt =====
-- The functions on texts of packages/formula/src/evaluate.ts give values of their types.
use salesmaker.Base.{
  refl, true, false, Option, none, some, List, [], ◌∷◌, if◌then◌else◌, length, ltb,
}
use salesmaker.Base.Text.{Text}
use salesmaker.Formula.Syntax.{
  Span, text_type, number_type, boolean_type, Result, ok, ◌>>=◌, fail, ErrorCode,
}
use salesmaker.Formula.Post.{Runs, ◌▹◌}
use salesmaker.Formula.Runtime.{Decimals, Host}
use salesmaker.Formula.Values.{
  Value, null, text, boolean, number, instant, many, Fits, str, or_thrown,
}
use salesmaker.Formula.Evaluate.Texts.{is_number_text}
use salesmaker.Formula.Evaluate.Arguments.{nth}
use salesmaker.Formula.Evaluate.TextCalls.{
  max_regex_input, text_of, value_of, cut, cut_mid, on_text, substitute_in, substitute_of, regex_of,
  includes_of,
}
use salesmaker.Formula.Evaluate.Outcome.{HostThrows, Yields, Ends, or_thrown-Ends}
use salesmaker.Formula.Evaluate.Safety.Dates.{Outcome-if, iso_text-Ends}

module _ {dec : Decimals} (host : Host dec) where
  pub text_of-Yields : (v : Value dec host) → Yields host text_type (text_of host v)
  unfolding text_of
  text_of-Yields null = Runs.returns refl
  text_of-Yields (text t) = Runs.returns refl
  text_of-Yields (boolean true) = Runs.returns refl
  text_of-Yields (boolean false) = Runs.returns refl
  text_of-Yields (number d) = Runs.returns refl
  text_of-Yields (instant i) = iso_text-Ends host i ▹ λ t _. Runs.returns refl
  text_of-Yields (many ts) = Runs.returns refl

  given_value :
      (v : Value dec host) (s : Span)
      → Yields host number_type (
          if is_number_text (host.trim (str v))
          then (do d ← or_thrown (dec.parse (host.trim (str v))); ok (number d))
          else fail ErrorCode.invalid_number s)
  given_value v s =
      Outcome-if host (Fits number_type) (is_number_text (host.trim (str v)))
        (or_thrown-Ends host (dec.parse (host.trim (str v))) (λ e. HostThrows.parse _ e) ▹ λ d _.
          Runs.returns refl)
        (Runs.fails refl)

  pub value_of-Yields :
      (v : Value dec host) (s : Span) → Yields host number_type (value_of host v s)
  unfolding value_of
  value_of-Yields null s = Runs.returns refl
  value_of-Yields (text t) s = given_value (text t) s
  value_of-Yields (boolean b) s = given_value (boolean b) s
  value_of-Yields (number d) s = given_value (number d) s
  value_of-Yields (instant i) s = given_value (instant i) s
  value_of-Yields (many ts) s = given_value (many ts) s

  pub cut-Yields :
      (n : Option dec.Decimal) (by : Text → dec.Decimal → Text) {r : Result (Value dec host)}
      → Ends host r
      → Yields host text_type (cut host n by r)
  cut-Yields none by h = Runs.returns refl
  cut-Yields (some d) by h = h ▹ λ v _. Runs.returns refl

  pub cut_mid-Yields :
      (start count : Option dec.Decimal) {r : Result (Value dec host)}
      → Ends host r
      → Yields host text_type (cut_mid host start count r)
  cut_mid-Yields none none h = Runs.returns refl
  cut_mid-Yields none (some d) h = Runs.returns refl
  cut_mid-Yields (some d) none h = Runs.returns refl
  cut_mid-Yields (some d) (some e) h = h ▹ λ v _. Runs.returns refl

  pub on_text-Fits : (f : Text → Text) (v : Value dec host) → Fits text_type (on_text host f v)
  on_text-Fits f null = refl
  on_text-Fits f (text t) = refl
  on_text-Fits f (boolean b) = refl
  on_text-Fits f (number d) = refl
  on_text-Fits f (instant i) = refl
  on_text-Fits f (many ts) = refl

  substitute_in-Yields :
      (v : Value dec host) (find : Text) {r : Result (Value dec host)}
      → Ends host r
      → Yields host text_type (substitute_in host v find r)
  substitute_in-Yields v [] h = Runs.returns refl
  substitute_in-Yields v (c ∷ cs) h = h ▹ λ b _. Runs.returns refl

  pub substitute_of-Yields :
      (v : Value dec host) (rs : List (Result (Value dec host)))
      → Ends host (nth rs 1)
      → Ends host (nth rs 2)
      → Yields host text_type (substitute_of host v rs)
  unfolding substitute_of
  substitute_of-Yields null rs h k = Runs.returns refl
  substitute_of-Yields (text t) rs h k = h ▹ λ f _. substitute_in-Yields (text t) (str f) k
  substitute_of-Yields (boolean b) rs h k = h ▹ λ f _. substitute_in-Yields (boolean b) (str f) k
  substitute_of-Yields (number d) rs h k = h ▹ λ f _. substitute_in-Yields (number d) (str f) k
  substitute_of-Yields (instant i) rs h k = h ▹ λ f _. substitute_in-Yields (instant i) (str f) k
  substitute_of-Yields (many ts) rs h k = h ▹ λ f _. substitute_in-Yields (many ts) (str f) k

  pub regex_of-Yields :
      (t : Text) {r : Result (Value dec host)} (s : Span)
      → Ends host r
      → Yields host boolean_type (regex_of host t r s)
  unfolding regex_of
  regex_of-Yields t s h =
      Outcome-if host (Fits boolean_type) (ltb max_regex_input (length t)) (Runs.fails refl) (
        h ▹ λ p _. or_thrown-Ends host (host.matches _ t) (λ e. HostThrows.matches _ t e) ▹ λ b _.
        Runs.returns refl)

  pub includes_of-Yields :
      (v : Value dec host) {r : Result (Value dec host)}
      → Ends host r
      → Yields host boolean_type (includes_of host v r)
  includes_of-Yields null h = Runs.returns refl
  includes_of-Yields (text t) h = Runs.returns refl
  includes_of-Yields (boolean b) h = Runs.returns refl
  includes_of-Yields (number d) h = Runs.returns refl
  includes_of-Yields (instant i) h = Runs.returns refl
  includes_of-Yields (many ts) h = h ▹ λ v _. Runs.returns refl
