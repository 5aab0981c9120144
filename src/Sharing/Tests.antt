-- ===== src/Sharing/Tests.antt =====
-- A rule that shares the records of user 7, over three records in batches of two.
use salesmaker.Base.{
  ℕ, ◌≡◌, refl, ◌<◌, Bool, true, ◌&&◌, Option, none, some, List, [], ◌∷◌, ◌==◌, if◌then◌else◌,
  length, arith,
}
use salesmaker.Sharing.{
  user, Principal, Share, Row, owner, Rule, member, rule_matches, apply_rule, rule_share,
  manual_share, grant_manual_share, revoke_manual_share, upsert_access, conflicts, is_manual_share,
}
use salesmaker.Sharing.Applied.{is_shared, is_matched, others}
use salesmaker.Sharing.Recalculate.{
  Progress, finished, failed, Rollback, batches, page, recalculate,
}
use salesmaker.Sharing.Recalculate.Pages.{IsFrom, ids_of}
use salesmaker.Sharing.Recalculate.Unreadable.{FailsBefore, recalculate-failed}
use salesmaker.Sharing.Recalculate.Exact.{recalculate-Exact}

abbrev users_of : Principal → ℕ → Bool
users_of p u = p.id == u

abbrev criteria_of : ℕ → Option (Row → Bool)
criteria_of c = none

-- A rollback.
abbrev undo : Rollback
undo before dirty = before

abbrev person : ℕ → Principal
person n = record { kind = user; id = n }

abbrev of_seven : Rule ℕ
of_seven = record {
  id = 5;
  object = "lead";
  kind = owner;
  source_type = some user;
  source_id = some 7;
  criteria_json = 0;
  target = person 9;
  access = 1;
  active = true;
}

abbrev row : ℕ → ℕ → Row
row id owner_id = record { id = id; owner = owner_id }

abbrev leads : List Row
leads = row 1 7 ∷ row 2 8 ∷ row 4 7 ∷ []

-- A share of the rule that no longer holds, one of a record that is gone, and a manual one.
abbrev shares_before : List Share
shares_before =
    rule_share of_seven (row 2 8)
    ∷ rule_share of_seven (row 3 7)
    ∷ manual_share "lead" 2 (person 6) 2 none
    ∷ []

abbrev owned_by_seven : Row → Bool
owned_by_seven r = 7 == r.owner

decides : of_seven.active ≡ true → rule_matches users_of criteria_of of_seven ≡ some owned_by_seven
unfolding rule_matches
decides h = refl

leads-IsFrom : IsFrom 0 leads
unfolding IsFrom
leads-IsFrom = (omega arith, (omega arith, (omega arith, tt)))

recalculate-Exact_example :
    (q : Progress) × (final : List Share) × (recalculate users_of criteria_of undo of_seven 2 leads
        shares_before
      ≡ finished q final)
    × (q.done ≡ length leads)
    × ((n : ℕ)
        → is_shared of_seven n final ≡ (
            of_seven.active
            && (if member n (ids_of leads)
                then is_matched of_seven owned_by_seven leads n
                else is_shared of_seven n shares_before)))
    × (others of_seven final ≡ others of_seven shares_before)
recalculate-Exact_example =
    recalculate-Exact users_of criteria_of undo of_seven leads owned_by_seven decides 2
      shares_before (omega arith) leads-IsFrom

-- A share is changed, not doubled, and revoked once.
granted_again :
    revoke_manual_share "lead" 2
      (person 6)
      (grant_manual_share "lead" 2 (person 6) 1 none (manual_share "lead" 2 (person 6) 2 none ∷ []))
    ≡ ([], true)
unfolding revoke_manual_share grant_manual_share upsert_access conflicts is_manual_share
granted_again = refl

-- An owner rule without a source.
abbrev of_nobody : Rule ℕ
of_nobody = record of_seven { source_id = none }

unreadable : rule_matches users_of criteria_of of_nobody ≡ none
unfolding rule_matches
unreadable = refl

recalculate-failed_example :
    FailsBefore users_of criteria_of undo of_nobody 2 leads shares_before
    × (true ≡ true
        → rule_matches users_of criteria_of of_nobody ≡ none
        → 0 < 3
        → (p : Progress) × (recalculate users_of criteria_of undo of_nobody 2 leads shares_before
            ≡ failed p shares_before))
recalculate-failed_example =
    recalculate-failed users_of criteria_of undo of_nobody 2 leads shares_before
      (λ before dirty. refl) (omega arith) leads-IsFrom

fails_for_nobody :
    recalculate users_of criteria_of undo of_nobody 2 leads shares_before
    ≡ failed (record { done = 0; total = 3; written = 0 }) shares_before
unfolding recalculate batches page rule_matches apply_rule
fails_for_nobody = refl
