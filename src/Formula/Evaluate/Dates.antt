-- ===== src/Formula/Evaluate/Dates.antt =====
-- packages/formula/src/evaluate.ts: arithmetic on dates, `YYYY-MM-DD`, through the host's dates.
use salesmaker.Base.{ℕ, zero, suc, not, ◌&&◌, List, [], ◌∷◌, ◌++◌, take, drop, if◌then◌else◌}
use salesmaker.Base.Text.{Text, codes, text_eq}
use salesmaker.Formula.Syntax.{Result, ok, ◌>>=◌}
use salesmaker.Formula.Runtime.{Decimals, Host}
use salesmaker.Formula.Values.{or_thrown, iso_text}

module _ {dec : Decimals} (host : Host dec) where
  abbrev pub DateParts : Type 0
  DateParts = host.Number × host.Number × host.Number

  abbrev pub n : ℕ → host.Number
  n = host.number

  -- `dateParts`
  unfoldable pub date_parts : Text → DateParts
  date_parts d =
      (host.of_text (take 4 d), host.of_text (take 2 (drop 5 d)), host.of_text (take 2 (drop 8 d)))

  -- `toDate`
  unfoldable pub to_date : DateParts → Result Text
  to_date (y, m, d) = do t ← iso_text host (host.utc y (host.sub m (n 1)) d); ok (take 10 t)

  -- `dateMs`
  unfoldable pub date_ms : Text → host.Number
  unfolding date_parts
  date_ms text = let (y, m, d) = date_parts text in host.time (host.utc y (host.sub m (n 1)) d)

  unfoldable pub days_in_month : host.Number → host.Number → host.Number
  days_in_month y m = host.utc_date (host.utc y m (n 0))

  abbrev least : host.Number → host.Number → host.Number
  least a b = if host.le a b then a else b

  -- `addMonths`
  unfoldable pub add_months_to : Text → host.Number → Result Text
  unfolding date_parts to_date days_in_month
  add_months_to date months =
      let (y, m, d) = date_parts date in
      let total = host.add (host.add (host.mul y (n 12)) (host.sub m (n 1))) months in
      let ty = host.floor_of (host.div total (n 12)) in
      let tm = host.add (host.rem total (n 12)) (n 1) in
      let last = days_in_month ty tm in
      to_date (ty, tm, if host.same_number d (days_in_month y m) then last else least d last)

  -- `get` of `dateIn`: the first part of a kind, or no text.
  abbrev part_named : Text → List (Text × Text) → Text
  part_named kind [] = []
  part_named kind ((k, t) ∷ parts) = if text_eq k kind then t else part_named kind parts

  abbrev joined_parts : List (Text × Text) → Text
  joined_parts parts =
      part_named (codes "year") parts
      ++ (b'-' ∷ (part_named (codes "month") parts ++ (b'-' ∷ part_named (codes "day") parts)))

  -- `dateIn`; it throws where Intl does.
  unfoldable pub date_in : host.Instant → Text → Result Text
  date_in i zone = do parts ← or_thrown (host.day_parts i zone); ok (joined_parts parts)

  abbrev pub day_ms : host.Number
  day_ms = n 86400000

  -- `shift` with `toDate`
  unfoldable pub shifted : Text → host.Number → Result Text
  unfolding date_parts to_date
  shifted text days =
      let (y, m, d) = date_parts text in
      let t =
        host.instant
          (host.add (host.time (host.utc y (host.sub m (n 1)) d)) (host.mul days day_ms)) in
      to_date (host.utc_year t, host.add (host.utc_month t) (n 1), host.utc_date t)

  -- The loop of `businessDays`, `left` rounds before its bound of seven: the count so far, and the day.
  unfoldable pub count_days :
      ℕ → host.Number → host.Number → host.Number → host.Number → host.Number
  count_days zero i days start count = count
  count_days (suc left) i days start count =
      let wd = host.rem (host.add start i) (n 7) in
      let works = not (host.same_number wd (n 0)) && not (host.same_number wd (n 6)) in
      let next =
        count_days left (host.add i (n 1)) days start
          (if works then host.add count (n 1) else count) in
      if host.lt i (host.rem days (n 7)) then next else count

  abbrev business_count : host.Number → host.Number → host.Number
  business_count from to =
      let days = host.round_of (host.div (host.sub to from) day_ms) in
      let weeks = host.floor_of (host.div days (n 7)) in
      count_days 7 (n 0) days (host.utc_day (host.instant from)) (host.mul weeks (n 5))

  -- `businessDays`
  unfoldable pub business_days_of : Text → Text → host.Number
  unfolding date_ms count_days
  business_days_of start end =
      let a = date_ms start in
      let b = date_ms end in
      if host.le a b then business_count a b else host.negate (business_count b a)
