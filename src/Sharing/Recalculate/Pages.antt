-- ===== src/Sharing/Recalculate/Pages.antt =====
-- The pages of ids that `recalculateRule` of packages/query-engine/src/sharing-rules.ts reads: each begins
-- behind the one before.
use salesmaker.Base.{
  ℕ, zero, suc, ◌+◌, ◌≤◌, ◌<◌, ◌≡◌, refl, sym, ap, ◌∙◌, Bool, true, false, ◌||◌, Option, none, some,
  List, [], ◌∷◌, map, ltb, arith, length, take, drop, Bool-cases, inl, inr,
}
use salesmaker.Sharing.{Row, select, member}
use salesmaker.Sharing.Recalculate.{after, last_id}

-- Ids that ascend, from `n` on.
unfoldable pub IsFrom : ℕ → List Row → Type 0
IsFrom n [] = Unit
IsFrom n (row ∷ rows) = (n ≤ row.id) × IsFrom (suc row.id) rows

abbrev pub ids_of : List Row → List ℕ
ids_of = map (λ row. row.id)

select_twice :
    (p q : Row → Bool)
    → ((row : Row) → p row ≡ true → q row ≡ true)
    → (rows : List Row) → select p (select q rows) ≡ select p rows
select_twice p q h [] = refl
select_twice p q h (row ∷ rows) = elim (Bool-cases (q row)) [
  | inl e ↦ rw e (rw (select_twice p q h rows) refl)
  | inr e ↦ elim (Bool-cases (p row)) [
    | inl f ↦ let clash : q row ≡ true = h row f in absurd (ground arith)
    | inr f ↦ rw (e, f) (select_twice p q h rows)
  ]
]

select_behind :
    (c n : ℕ) (rows : List Row) → c < n → IsFrom n rows → select (after (some c)) rows ≡ rows
unfolding IsFrom
select_behind c n [] h f = refl
select_behind c n (row ∷ rows) h (l, f) =
    let here : ltb c row.id ≡ true = ground (arith, l, h) in
    rw here (ap (λ rest. row ∷ rest) (select_behind c (suc row.id) rows (omega arith) f))

pub last_id-ge :
    (i k n : ℕ) (rows : List Row) → i ≤ n → IsFrom n rows → i ≤ last_id i (take k (ids_of rows))
unfolding last_id IsFrom
last_id-ge i zero n rows h f = omega arith
last_id-ge i (suc k) n [] h f = omega arith
last_id-ge i (suc k) n (row ∷ rows) h (l, f) =
    omega (arith, last_id-ge row.id k (suc row.id) rows (omega arith) f)

-- Behind the last id of a page stand the rows that the page left.
page_rest :
    (k : ℕ) (row : Row) (rows : List Row)
    → IsFrom (suc row.id) rows
    → select (after (some (last_id row.id (take k (ids_of rows))))) (row ∷ rows) ≡ drop k rows
unfolding last_id IsFrom
page_rest zero row rows f =
    let here : ltb row.id row.id ≡ false = ground arith in
    rw here (select_behind row.id (suc row.id) rows (omega arith) f)
page_rest (suc k) row [] f = let here : ltb row.id row.id ≡ false = ground arith in rw here refl
page_rest (suc k) row (next ∷ rows) (l, f) =
    let far : next.id ≤ last_id next.id (take k (ids_of rows)) =
      last_id-ge next.id k (suc next.id) rows (omega arith) f in
    let here : ltb (last_id next.id (take k (ids_of rows))) row.id ≡ false =
      ground (arith, far, l) in
    rw here (page_rest k next rows f)

pub member-split :
    (n k : ℕ) (xs : List ℕ) → member n xs ≡ (member n (take k xs) || member n (drop k xs))
member-split n zero xs = refl
member-split n (suc k) [] = refl
member-split n (suc k) (x ∷ xs) = ground (arith, member-split n k xs)

pub drop-ids : (k : ℕ) (rows : List Row) → ids_of (drop k rows) ≡ drop k (ids_of rows)
drop-ids zero rows = refl
drop-ids (suc k) [] = refl
drop-ids (suc k) (row ∷ rows) = drop-ids k rows

pub drop-IsFrom :
    (k : ℕ) (row : Row) (rows : List Row)
    → IsFrom (suc row.id) rows
    → IsFrom (suc (last_id row.id (take k (ids_of rows)))) (drop k rows)
unfolding last_id IsFrom
drop-IsFrom zero row rows f = f
drop-IsFrom (suc k) row [] f = tt
drop-IsFrom (suc k) row (next ∷ rows) (l, f) = drop-IsFrom k next rows f

pub take_all :
    (k : ℕ) (rows : List Row)
    → length (take k (ids_of rows)) < k
    → take k (ids_of rows) ≡ ids_of rows
take_all zero rows h = absurd (omega arith)
take_all (suc k) [] h = refl
take_all (suc k) (row ∷ rows) h = ap (λ rest. row.id ∷ rest) (take_all k rows (omega arith))

pub length-ids : (rows : List Row) → length (ids_of rows) ≡ length rows
length-ids [] = refl
length-ids (row ∷ rows) = omega (arith, length-ids rows)

pub length-split :
    (k : ℕ) (rows : List Row) → length (take k (ids_of rows)) + length (drop k rows) ≡ length rows
length-split zero rows = omega arith
length-split (suc k) [] = omega arith
length-split (suc k) (row ∷ rows) = omega (arith, length-split k rows)

-- From where on the rows behind a cursor stand.
abbrev pub start : Option ℕ → ℕ
start none = 0
start (some c) = suc c

after-start : (cursor : Option ℕ) (row : Row) → start cursor ≤ row.id → after cursor row ≡ true
after-start none row h = refl
after-start (some c) row h = ground arith

-- The next page reads on where the page before stopped.
pub next_rest :
    (cursor : Option ℕ) (k : ℕ) (table : List Row) (row : Row) (rows : List Row)
    → select (after cursor) table ≡ row ∷ rows
    → IsFrom (start cursor) (row ∷ rows)
    → select (after (some (last_id row.id (take k (ids_of rows))))) table ≡ drop k rows
unfolding IsFrom
next_rest cursor k table row rows e (l, f) =
    let far : row.id ≤ last_id row.id (take k (ids_of rows)) =
      last_id-ge row.id k (suc row.id) rows (omega arith) f in
    sym (
      select_twice (after (some (last_id row.id (take k (ids_of rows))))) (after cursor)
        (λ x h. after-start cursor x (ground (arith, far, l, h))) table)
    ∙ ap (select (after (some (last_id row.id (take k (ids_of rows)))))) e
    ∙ page_rest k row rows f
