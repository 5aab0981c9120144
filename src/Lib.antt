-- ===== src/Lib.antt =====
-- Verification library of the SalesMaker packages: the parts of the monorepo that decide who may see
-- what, which formulas are accepted, which records a filter holds for, and when work is due.
--
-- The program's parts and how they meet:
-- * packages/permissions (src/engine.ts, src/catalogue.ts) turns a profile, permission sets and
--   permission set groups into effective permissions; every read and write of a record asks it for
--   the access to an object and to a field. Permissions.Access models the flags and their dependency
--   rules (normaliseObjectAccess, restrictObjectAccess, orObject), Permissions.Engine the engine
--   (add, mute, merge, effectivePermissions, objectAccess, fieldAccess), Permissions.Profiles the
--   profiles that every organisation starts with. JavaScript objects used as
--   dictionaries are association lists. Permissions.Engine.Spec says what a user is granted on one
--   object without any dictionary, and Permissions.Engine.Objects proves that the engine agrees.
--   Permissions.Cache is VersionedCache and PermissionCache (src/cache.ts), with the form in which
--   permissions are stored.
-- * packages/formula is the formula language of validation rules, derived fields and scoring:
--   Formula.Lexer is tokenize (src/lexer.ts), Formula.Parser the parser (src/parser.ts), and
--   Formula.Functions, Formula.Rules, Formula.Signatures and Formula.Check the checker
--   (src/check.ts); Check.Operators and Check.Parameters say by tables what operators and functions take. Formula.Evaluate is the evaluator (src/evaluate.ts): its operators, and the
--   functions in Evaluate.TextCalls and Evaluate.DateCalls, on the values of Formula.Values. Formula.Environment is the environment of
--   the checker over a tenant's metadata (src/environment.ts). A source is the list of its UTF-16 code units (Base.Text). A thrown
--   FormulaSyntaxError, FormulaTypeError or FormulaRuntimeError is the result err, any other exception is thrown, and
--   out_of_fuel belongs to the model.
-- * packages/query-engine/src/filter.ts holds the filters of sharing rules, list views and SLA
--   policies: Filter models the tree, its limits, the fields it reads and its evaluation.
--   Sharing is src/sharing-rules.ts of the same package, which writes the shares of the rules into the table of
--   shares: ruleMatches, applyRule and the manual shares; Sharing.Recalculate is recalculateRule.
-- * packages/records/src/calendar.ts computes in business time: Calendar. packages/records/src/sla.ts
--   starts and stops clocks by it: Sla has the clock's row and the operations meetSlaTimers and
--   cancelSlaTimers, Sla.Start startSlaTimers and notify, Sla.Tick the worker's runSlaTick, Sla.Life
--   the operations on a row as steps of one clock.
-- * packages/records/src/assignment.ts gives records to users by rules: Assignment has the availability
--   of users, Assignment.Pick the methods, Assignment.Run the loops of assignRecords.
-- * packages/server-kit/src/rate-limit.ts limits the requests to the API: RateLimit is its script.
--
-- Bounds and fuel: the lexer runs on one more than the length of the source, the parser on three
-- times the number of tokens and two; both are proved to be enough for every source. The parser's own
-- limit of 100 nested expressions is in the model. Instants, minutes and counts are natural numbers;
-- the rate limiter counts thousandths of a token, so that a whole rate brings in whole numbers.
-- The batches of recalculateRule run on one more than the number of records, which is proved to be enough.
-- addBusinessMinutes looks at 1098 days, as the source does.
--
-- Parameters, which stand for what the runtime, libraries and the database do: decimal.js and the numbers and dates of the
-- runtime (the records Decimals and Host of Formula.Runtime, where an operation that may throw gives
-- an option), whether the runtime takes a text as a regular
-- expression, which names its objects inherit, the rollback of a transaction, numbers and their comparison in a
-- filter, JSON in the cache, and what the database holds (the calendars, users and managers that a tick reads, the rows
-- that it claims, the members of a principal and the records that the SQL of criteria holds for, the pools and counts of an assignment, the standard fields of the catalogue). The conversions between local dates and
-- instants in packages/records/src/calendar.ts (localParts, zonedInstant), which the repository builds on Intl, are
-- a parameter too, the record Clock of Calendar.
--
-- Not modelled: the SQL compilation of formulas, the building of SQL in the query
-- engine and in the records package, the zod schemas, and the applications under apps, which
-- are controllers, pages and queues over these packages.
pub mod Assignment
pub mod Base
pub mod Permissions
pub mod Formula
pub mod Filter
pub mod Calendar
pub mod Sla
pub mod RateLimit
pub mod Sharing
