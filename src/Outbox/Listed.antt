-- ===== src/Outbox/Listed.antt =====
-- The records that ListDue lists, of a table whose ids are distinct.
use flick_drop.Base.{
  ℕ, zero, suc, ◌≡◌, refl, String, Bool, true, false, not, ◌&&◌, ◌||◌, ◌∙◌, beq_self, [], ◌∷◌, ◌==◌,
  string_eq, arith, find, insert, find-insert, eq_iff,
}
use flick_drop.Sql.Order.{insert_ordered, sort_rows, take}
use flick_drop.Outbox.{OutboxRecord}
use flick_drop.Outbox.Publisher.{Rows, is_unpublished, is_due, comes_first, due_rows, listed}

abbrev pub is_in : String → Rows → Bool
is_in id [] = false
is_in id ((j, r) ∷ rows) = id == j || is_in id rows

-- No id stands twice: the table's primary key.
unfoldable pub distinct : Rows → Bool
distinct [] = true
distinct ((id, r) ∷ rows) = not (is_in id rows) && distinct rows

-- Every record's row is in the table and not published.
unfoldable pub all_open : Rows → Rows → Bool
all_open [] rows = true
all_open ((id, r) ∷ records) rows = is_unpublished (find id rows) && all_open records rows

pub all_open-insert :
    (id : String) (r : OutboxRecord) (records rows : Rows)
    → is_in id records ≡ false
    → all_open records rows ≡ true
    → all_open records (insert id r rows) ≡ true
unfolding all_open
all_open-insert id r [] rows n a = refl
all_open-insert id r ((j, q) ∷ records) rows n a =
    rw (find-insert id j r rows)
      (ground (arith, n, a, eq_iff id j, all_open-insert id r records rows))

module _ (le : String × OutboxRecord → String × OutboxRecord → Bool) where
  is_in-insert_ordered :
      (id j : String) (r : OutboxRecord) (rows : Rows)
      → is_in id (insert_ordered le (j, r) rows) ≡ (id == j || is_in id rows)
  is_in-insert_ordered id j r [] = refl
  is_in-insert_ordered id j r ((k, q) ∷ rows) = ground (arith, is_in-insert_ordered id j r rows)

  distinct-insert_ordered :
      (j : String) (r : OutboxRecord) (rows : Rows)
      → distinct ((j, r) ∷ rows) ≡ true
      → distinct (insert_ordered le (j, r) rows) ≡ true
  unfolding distinct
  distinct-insert_ordered j r [] d = refl
  distinct-insert_ordered j r ((k, q) ∷ rows) d = ground (
    arith,
    d,
    eq_iff j k,
    eq_iff k j,
    is_in-insert_ordered k j r rows,
    distinct-insert_ordered j r rows,
  )

  is_in-sort_rows : (id : String) (rows : Rows) → is_in id (sort_rows le rows) ≡ is_in id rows
  unfolding sort_rows
  is_in-sort_rows id [] = refl
  is_in-sort_rows id ((j, r) ∷ rows) =
      ground (arith, is_in-insert_ordered id j r (sort_rows le rows), is_in-sort_rows id rows)

  distinct-sort_rows : (rows : Rows) → distinct rows ≡ true → distinct (sort_rows le rows) ≡ true
  unfolding distinct sort_rows
  distinct-sort_rows [] d = refl
  distinct-sort_rows ((j, r) ∷ rows) d =
      distinct-insert_ordered j r (sort_rows le rows)
        (ground (arith, d, is_in-sort_rows j rows, distinct-sort_rows rows))

  all_open-insert_ordered :
      (j : String) (r : OutboxRecord) (records rows : Rows)
      → all_open (insert_ordered le (j, r) records) rows ≡ all_open ((j, r) ∷ records) rows
  unfolding all_open
  all_open-insert_ordered j r [] rows = refl
  all_open-insert_ordered j r ((k, q) ∷ records) rows =
      ground (arith, all_open-insert_ordered j r records rows)

  all_open-sort_rows :
      (records rows : Rows) → all_open (sort_rows le records) rows ≡ all_open records rows
  unfolding all_open sort_rows
  all_open-sort_rows [] rows = refl
  all_open-sort_rows ((j, r) ∷ records) rows = ground (
    arith,
    all_open-insert_ordered j r (sort_rows le records) rows,
    all_open-sort_rows records rows,
  )

is_in-take :
    (id : String) (n : ℕ) (rows : Rows) → is_in id rows ≡ false → is_in id (take n rows) ≡ false
unfolding take
is_in-take id zero rows n = refl
is_in-take id (suc k) [] n = refl
is_in-take id (suc k) ((j, r) ∷ rows) n = ground (arith, n, is_in-take id k rows)

distinct-take : (n : ℕ) (rows : Rows) → distinct rows ≡ true → distinct (take n rows) ≡ true
unfolding distinct take
distinct-take zero rows d = refl
distinct-take (suc k) [] d = refl
distinct-take (suc k) ((j, r) ∷ rows) d =
    ground (arith, d, is_in-take j k rows, distinct-take k rows)

all_open-take :
    (n : ℕ) (records rows : Rows)
    → all_open records rows ≡ true
    → all_open (take n records) rows ≡ true
unfolding all_open take
all_open-take zero records rows a = refl
all_open-take (suc k) [] rows a = refl
all_open-take (suc k) ((j, r) ∷ records) rows a = ground (arith, a, all_open-take k records rows)

module _ (no_later : ℕ → ℕ → Bool) (due : ℕ) where
  is_in-due_rows :
      (id : String) (rows : Rows)
      → is_in id rows ≡ false
      → is_in id (due_rows no_later due rows) ≡ false
  unfolding due_rows
  is_in-due_rows id [] n = refl
  is_in-due_rows id ((j, r) ∷ rows) n = ground (arith, n, is_in-due_rows id rows)

  distinct-due_rows :
      (rows : Rows) → distinct rows ≡ true → distinct (due_rows no_later due rows) ≡ true
  unfolding due_rows distinct
  distinct-due_rows [] d = refl
  distinct-due_rows ((j, r) ∷ rows) d =
      ground (arith, d, is_in-due_rows j rows, distinct-due_rows rows)

  -- A row more in front of the table, under an id that is not among the records.
  all_open-cons :
      (id : String) (r : OutboxRecord) (records rows : Rows)
      → is_in id records ≡ false
      → all_open records rows ≡ true
      → all_open records ((id, r) ∷ rows) ≡ true
  unfolding all_open find
  all_open-cons id r [] rows n a = refl
  all_open-cons id r ((j, q) ∷ records) rows n a =
      ground (arith, n, a, eq_iff id j, all_open-cons id r records rows)

  all_open-due_rows :
      (rows : Rows) → distinct rows ≡ true → all_open (due_rows no_later due rows) rows ≡ true
  unfolding due_rows distinct is_due all_open find
  all_open-due_rows [] d = refl
  all_open-due_rows ((j, r) ∷ rows) d = ground (
    arith,
    d,
    beq_self j,
    is_in-due_rows j rows,
    all_open-cons j r (due_rows no_later due rows) rows,
    all_open-due_rows rows,
  )

  -- The listed records are distinct, and none of them is published.
  pub listed-distinct :
      (limit : ℕ) (rows : Rows)
      → distinct rows ≡ true
      → distinct (listed no_later due limit rows) ≡ true
  unfolding listed
  listed-distinct limit rows d =
      distinct-take limit _ (distinct-sort_rows (comes_first no_later) _ (distinct-due_rows rows d))

  pub listed-open :
      (limit : ℕ) (rows : Rows)
      → distinct rows ≡ true
      → all_open (listed no_later due limit rows) rows ≡ true
  unfolding listed
  listed-open limit rows d =
      all_open-take limit (sort_rows (comes_first no_later) (due_rows no_later due rows)) rows (
        all_open-sort_rows (comes_first no_later) (due_rows no_later due rows) rows
        ∙ all_open-due_rows rows d)
