-- ===== src/Formula/Evaluate/Safety/Dates.antt =====
-- The helpers on dates of packages/formula/src/evaluate.ts end in a date, or with what the host throws.
use salesmaker.Base.{Bool, true, false, if◌then◌else◌}
use salesmaker.Base.Text.{Text}
use salesmaker.Formula.Syntax.{Result}
use salesmaker.Formula.Post.{Runs, ◌▹◌}
use salesmaker.Formula.Runtime.{Decimals, Host}
use salesmaker.Formula.Values.{iso_text}
use salesmaker.Formula.Evaluate.Dates.{DateParts, date_in, to_date, add_months_to, shifted}
use salesmaker.Formula.Evaluate.Outcome.{HostThrows, Outcome, Ends, or_thrown-Ends}

module _ {dec : Decimals} (host : Host dec) where
  pub Outcome-if {ℓ} :
      {A : Type ℓ} (P : A → Type 0) (b : Bool) {r s : Result A}
      → Outcome host P r
      → Outcome host P s
      → Outcome host P (if b then r else s)
  Outcome-if P true h k = h
  Outcome-if P false h k = k

  pub iso_text-Ends : (i : host.Instant) → Ends host (iso_text host i)
  iso_text-Ends i = or_thrown-Ends host (host.iso i) (λ e. HostThrows.iso i e)

  pub date_in-Ends : (i : host.Instant) (zone : Text) → Ends host (date_in host i zone)
  unfolding date_in
  date_in-Ends i zone =
      or_thrown-Ends host (host.day_parts i zone) (λ e. HostThrows.day_parts i zone e) ▹ λ parts _.
      Runs.returns tt

  pub to_date-Ends : (p : DateParts host) → Ends host (to_date host p)
  unfolding to_date
  to_date-Ends (y, m, d) =
      iso_text-Ends (host.utc y (host.sub m (host.number 1)) d) ▹ λ t _. Runs.returns tt

  pub add_months_to-Ends : (t : Text) (n : host.Number) → Ends host (add_months_to host t n)
  unfolding add_months_to
  add_months_to-Ends t n = to_date-Ends _

  pub shifted-Ends : (t : Text) (n : host.Number) → Ends host (shifted host t n)
  unfolding shifted
  shifted-Ends t n = to_date-Ends _
