-- ===== src/Relay/Pointers.antt =====
-- How writes through a pointer and removals from the map show in the heap and in the map.
use flick_drop.Base.{
  ℕ, zero, suc, ◌≤◌, ◌≡◌, refl, ap, ◌∙◌, inl, inr, Bool, false, Option, none, some, List, [], ◌∷◌,
  arith, length, get_elem?, set, nat_beq, if◌then◌else◌, find, erase, find-erase, length-erase-le,
  Option-cases, nat_eq,
}
use flick_drop.Relay.Rendezvous.{Session, Cause, close_session}
use flick_drop.Relay.{Coordinator, update, remove_locked}

abbrev pub map_option {ℓ κ} : {A : Type ℓ} {B : Type κ} → (A → B) → Option A → Option B
map_option f none = none
map_option f (some a) = some (f a)

pub get_elem?-set {ℓ} :
    {A : Type ℓ} (xs : List A) (i j : ℕ) (v : A)
    → get_elem? (set xs i v) j
      ≡ (if nat_beq i j then map_option (λ _. v) (get_elem? xs j) else get_elem? xs j)
get_elem?-set [] i j v = ground arith
get_elem?-set (x ∷ xs) zero zero v = refl
get_elem?-set (x ∷ xs) zero (suc j) v = ground arith
get_elem?-set (x ∷ xs) (suc i) zero v = ground arith
get_elem?-set (x ∷ xs) (suc i) (suc j) v = ground (arith, get_elem?-set xs i j v)

module _ (c : Coordinator) (sid : ℕ) (f : Session → Session) where
  pub sessions-update : (update c sid f).sessions ≡ c.sessions
  unfolding update
  sessions-update = ground arith

  pub max_concurrent-update : (update c sid f).max_concurrent ≡ c.max_concurrent
  unfolding update
  max_concurrent-update = ground arith

  pub stop_clean-update : (update c sid f).stop_clean ≡ c.stop_clean
  unfolding update
  stop_clean-update = ground arith

  pub heap-update :
      (j : ℕ)
      → get_elem? (update c sid f).heap j
        ≡ (if nat_beq sid j then map_option f (get_elem? c.heap j) else get_elem? c.heap j)
  unfolding update
  heap-update j = elim (Option-cases (get_elem? c.heap sid)) [
    | inl e ↦ rw (e, update) (ground (arith, e))
    | inr (s, e) ↦ rw (e, update) (ground (arith, get_elem?-set c.heap sid j (f s)))
  ]

-- The pointer that a removal closes, if the map has one under the hash.
abbrev pub is_at : ℕ → Option ℕ → Bool
is_at j none = false
is_at j (some sid) = nat_beq sid j

module _ (c : Coordinator) (hash : ℕ) (cause : Cause) where
  pub sessions-remove_locked :
      (j : ℕ)
      → find j (remove_locked c hash cause).sessions
        ≡ (if nat_beq hash j then none else find j c.sessions)
  unfolding remove_locked
  sessions-remove_locked j = elim (Option-cases (find hash c.sessions)) [
    | inl e ↦ rw (e, remove_locked) (ground (arith, e))
    | inr (sid, e) ↦
        rw (e, remove_locked)
          (ap (find j) (
              sessions-update (record c { sessions = erase hash c.sessions }) sid
                (close_session cause))
            ∙ find-erase hash j c.sessions)
  ]

  pub heap-remove_locked :
      (j : ℕ)
      → get_elem? (remove_locked c hash cause).heap j ≡ (
          if is_at j (find hash c.sessions)
          then map_option (close_session cause) (get_elem? c.heap j)
          else get_elem? c.heap j)
  unfolding remove_locked
  heap-remove_locked j = elim (Option-cases (find hash c.sessions)) [
    | inl e ↦ rw (e, remove_locked)
    | inr (sid, e) ↦
        rw (e, remove_locked)
          (heap-update (record c { sessions = erase hash c.sessions }) sid (close_session cause) j)
  ]

  pub length-remove_locked-le : length (remove_locked c hash cause).sessions ≤ length c.sessions
  unfolding remove_locked
  length-remove_locked-le = elim (Option-cases (find hash c.sessions)) [
    | inl e ↦ rw (e, remove_locked) (omega arith)
    | inr (sid, e) ↦
        rw (e, remove_locked)
          (rw
            (sessions-update (record c { sessions = erase hash c.sessions }) sid
              (close_session cause))
            (length-erase-le hash c.sessions))
  ]

  pub max_concurrent-remove_locked : (remove_locked c hash cause).max_concurrent ≡ c.max_concurrent
  unfolding remove_locked update
  max_concurrent-remove_locked = ground arith

  pub stop_clean-remove_locked : (remove_locked c hash cause).stop_clean ≡ c.stop_clean
  unfolding remove_locked update
  stop_clean-remove_locked = ground arith
