-- ===== src/Sharing.antt =====
-- packages/query-engine/src/sharing-rules.ts: the shares that sharing rules write, and manual shares.
-- One tenant; the table of shares is a list, the table of records a list in the order of ids, and ids are
-- numbers.
pub mod Recalculate
pub mod Applied
mod Tests
use Prim.Native.String.{String}
use text.Mathlib.Text.{◌==◌ as str_eq}
use salesmaker.Base.{
  ℕ, ◌+◌, Bool, true, false, not, ◌&&◌, Option, none, some, List, [], ◌∷◌, ◌++◌, map, ◌==◌, any,
  if◌then◌else◌,
}

-- `SharePrincipalType`
pub data PrincipalType : Type 0 where
  user group queue org_unit org_unit_and_subordinates : PrincipalType

abbrev pub type_code : PrincipalType → ℕ
type_code user = 0
type_code group = 1
type_code queue = 2
type_code org_unit = 3
type_code org_unit_and_subordinates = 4

-- `PrincipalRef`
pub record Principal : Type 0 where
  pub kind : PrincipalType
  pub id : ℕ

-- The reasons that this file writes, and those of other parts.
pub data Reason : Type 0 where
  manual rule : Reason
  other : ℕ → Reason

abbrev pub reason_code : Reason → ℕ
reason_code manual = 0
reason_code rule = 1
reason_code (other n) = n + 2

-- A row of `record_share`.
pub record Share : Type 0 where
  pub object : String
  pub of_record : ℕ
  pub principal : Principal
  pub access : ℕ
  pub reason : Reason
  pub source : ℕ
  pub created_by : Option ℕ

-- `NIL_UUID`
abbrev pub nil_uuid : ℕ
nil_uuid = 0

abbrev pub same_principal : Principal → Principal → Bool
same_principal p q = (type_code p.kind == type_code q.kind) && (p.id == q.id)

-- The unique key of the table, which ON CONFLICT names.
unfoldable pub conflicts : Share → Share → Bool
conflicts s t =
    str_eq s.object t.object
    && (s.of_record == t.of_record)
    && same_principal s.principal t.principal
    && (reason_code s.reason == reason_code t.reason)
    && (s.source == t.source)

abbrev pub select {ℓ} : {A : Type ℓ} → (A → Bool) → List A → List A
select p [] = []
select p (x ∷ xs) = if p x then x ∷ select p xs else select p xs

abbrev pub member : ℕ → List ℕ → Bool
member n = any (λ m. m == n)

-- A row of the object's table.
pub record Row : Type 0 where
  pub id : ℕ
  pub owner : ℕ

pub data RuleKind : Type 0 where
  owner criteria : RuleKind

-- `SharingRuleDefinition`; `C` is the JSON of criteria.
pub record Rule (C : Type 0) : Type 0 where
  pub id : ℕ
  pub object : String
  pub kind : RuleKind
  pub source_type : Option PrincipalType
  pub source_id : Option ℕ
  pub criteria_json : C
  pub target : Principal
  pub access : ℕ
  pub active : Bool

-- `grantManualShare`
abbrev pub manual_share : String → ℕ → Principal → ℕ → Option ℕ → Share
manual_share object r principal access created_by = record {
  object = object;
  of_record = r;
  principal = principal;
  access = access;
  reason = manual;
  source = nil_uuid;
  created_by = created_by;
}

unfoldable pub upsert_access : Share → List Share → List Share
upsert_access s [] = s ∷ []
upsert_access s (t ∷ ts) =
    let rest = upsert_access s ts in
    if conflicts s t then record t { access = s.access } ∷ ts else t ∷ rest

unfoldable pub grant_manual_share : String → ℕ → Principal → ℕ → Option ℕ → List Share → List Share
grant_manual_share object r principal access created_by shares =
    upsert_access (manual_share object r principal access created_by) shares

unfoldable pub is_manual_share : String → ℕ → Principal → Share → Bool
is_manual_share object r principal s =
    str_eq object s.object
    && (r == s.of_record)
    && (reason_code s.reason == 0)
    && same_principal principal s.principal

-- `revokeManualShare`: the shares that stay, and whether any went.
unfoldable pub revoke_manual_share : String → ℕ → Principal → List Share → List Share × Bool
revoke_manual_share object r principal shares = (
  select (λ s. not (is_manual_share object r principal s)) shares,
  any (is_manual_share object r principal) shares,
)

-- What a statement leaves, and the rows that it returns.
pub record Written : Type 0 where
  pub shares : List Share
  pub count : ℕ

-- How a function in a transaction ends: it returns, or it throws, with the shares as its statements
-- before left them.
pub data Attempt : Type 0 where
  returned : Written → Attempt
  thrown : List Share → Attempt

-- One row of an INSERT with ON CONFLICT DO NOTHING.
unfoldable pub add_share : Share → Written → Written
add_share s w =
    if any (conflicts s) w.shares
    then w
    else record { shares = w.shares ++ (s ∷ []); count = w.count + 1 }

unfoldable pub add_shares : List Share → Written → Written
add_shares [] w = w
add_shares (s ∷ ss) w = add_shares ss (add_share s w)

module _ {C : Type 0} where
  -- The shares that a rule wrote.
  unfoldable pub by_rule : Rule C → Share → Bool
  by_rule r s = str_eq r.object s.object && (reason_code s.reason == 1) && (r.id == s.source)

  unfoldable pub rule_share : Rule C → Row → Share
  rule_share r row = record {
    object = r.object;
    of_record = row.id;
    principal = r.target;
    access = r.access;
    reason = rule;
    source = r.id;
    created_by = none;
  }

  abbrev pub without : Rule C → List ℕ → List Share → List Share
  without r ids shares = select (λ s. not (by_rule r s && member s.of_record ids)) shares

  abbrev pub insert_matches :
      Rule C → List Row → List ℕ → List Share → Option (Row → Bool) → Attempt
  insert_matches r table ids kept none = thrown kept
  insert_matches r table ids kept (some matches) = returned (
      add_shares (map (rule_share r) (select (λ row. member row.id ids && matches row) table))
        (record { shares = kept; count = 0 }))

  abbrev pub on_active :
      Rule C → List Row → List ℕ → List Share → Bool → Option (Row → Bool) → Attempt
  on_active r table ids shares false matches =
      returned (record { shares = without r ids shares; count = 0 })
  on_active r table ids shares true matches =
      insert_matches r table ids (without r ids shares) matches

  -- `removeRuleShares`
  unfoldable pub remove_rule_shares : Rule C → List Share → List Share
  remove_rule_shares r shares = select (λ s. not (by_rule r s)) shares

-- `users_of` is what the SELECT of `usersOf` holds; `criteria_of` what the SQL of a parsed filter
-- holds for, none where the parser throws.
module _ {C : Type 0} (users_of : Principal → ℕ → Bool)
    (criteria_of : C → Option (Row → Bool)) where
  abbrev pub owned_by : Option PrincipalType → Option ℕ → Option (Row → Bool)
  owned_by none id = none
  owned_by (some t) none = none
  owned_by (some t) (some i) = some (λ row. users_of (record { kind = t; id = i }) row.owner)

  abbrev pub matches_kind : RuleKind → Rule C → Option (Row → Bool)
  matches_kind owner r = owned_by r.source_type r.source_id
  matches_kind criteria r = criteria_of r.criteria_json

  -- `ruleMatches`; none where it throws.
  unfoldable pub rule_matches : Rule C → Option (Row → Bool)
  rule_matches r = matches_kind r.kind r

  -- `applyRule`: it deletes, and then it inserts, unless reading the conditions of the rule throws.
  unfoldable pub apply_rule : Rule C → List Row → List ℕ → List Share → Attempt
  apply_rule r table ids shares = on_active r table ids shares r.active (rule_matches r)
