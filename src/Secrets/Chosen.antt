-- ===== src/Secrets/Chosen.antt =====
-- The rows that the reaper chooses, by their ids.
use flick_drop.Base.{
  ℕ, zero, suc, ◌≡◌, ◌∙◌, refl, String, Bool, true, false, not, ◌&&◌, ◌||◌, ltb, ◌-◌, List, [], ◌∷◌,
  ◌==◌, string_eq, arith,
}
use flick_drop.Secrets.Tables.{Db, SecretRow, is_pending}
use flick_drop.Sql.Order.{sort_rows, insert_ordered, take}
use flick_drop.Secrets.Reaper.{is_reclaimable, reclaimable_rows, claimable, since_no_later}

-- Whether a list of rows has one of an id.
unfoldable pub has_id {ℓ} : {A : Type ℓ} → String → List (String × A) → Bool
has_id id [] = false
has_id id ((j, r) ∷ rows) = j == id || has_id id rows

module _ {A : Type 0} (id : String) (le : String × A → String × A → Bool) where
  has_id-insert_ordered :
      (x : String × A) (rows : List (String × A))
      → has_id id (insert_ordered le x rows) ≡ has_id id (x ∷ rows)
  unfolding has_id
  has_id-insert_ordered (j, r) [] = refl
  has_id-insert_ordered (j, r) ((k, q) ∷ rows) = ground (arith, has_id-insert_ordered (j, r) rows)

  has_id-sort_rows : (rows : List (String × A)) → has_id id (sort_rows le rows) ≡ has_id id rows
  unfolding has_id sort_rows
  has_id-sort_rows [] = refl
  has_id-sort_rows ((j, r) ∷ rows) =
      ground (arith, has_id-insert_ordered (j, r) (sort_rows le rows), has_id-sort_rows rows)

has_id-take :
    {A : Type 0} (id : String) (n : ℕ) (rows : List (String × A))
    → has_id id rows ≡ false
    → has_id id (take n rows) ≡ false
unfolding has_id take
has_id-take id zero rows h = refl
has_id-take id (suc n) [] h = refl
has_id-take id (suc n) ((j, r) ∷ rows) h = ground (arith, h, has_id-take id n rows)

-- A row that has not expired and does not wait too long for its upload.
abbrev pub is_live : ℕ → ℕ → SecretRow → Bool
is_live now ttl r =
    ltb now r.expires_at && (not (is_pending r.state) || ltb (now - ttl) r.created_at)

-- Every row of an id is live.
unfoldable pub all_live : ℕ → ℕ → String → List (String × SecretRow) → Bool
all_live now ttl id [] = true
all_live now ttl id ((j, r) ∷ rows) =
    (not (j == id) || is_live now ttl r) && all_live now ttl id rows

live-not_reclaimable :
    (now ttl : ℕ) (r : SecretRow) → is_live now ttl r ≡ true → is_reclaimable now ttl r ≡ false
unfolding is_reclaimable
live-not_reclaimable now ttl r h = ground (arith, h)

has_id-reclaimable_rows :
    (now ttl : ℕ) (id : String) (rows : List (String × SecretRow))
    → all_live now ttl id rows ≡ true
    → has_id id (reclaimable_rows now ttl rows) ≡ false
unfolding all_live has_id reclaimable_rows
has_id-reclaimable_rows now ttl id [] h = refl
has_id-reclaimable_rows now ttl id ((j, r) ∷ rows) h =
    ground (arith, h, live-not_reclaimable now ttl r, has_id-reclaimable_rows now ttl id rows)

pub claimable-others :
    (now ttl batch : ℕ) (id : String) (d : Db)
    → all_live now ttl id d.secrets ≡ true
    → has_id id (claimable now ttl batch d) ≡ false
unfolding claimable
claimable-others now ttl batch id d n = has_id-take id batch _ (
    has_id-sort_rows id (since_no_later ttl) (reclaimable_rows now ttl d.secrets)
    ∙ has_id-reclaimable_rows now ttl id d.secrets n)
