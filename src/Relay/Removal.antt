-- ===== src/Relay/Removal.antt =====
-- Removals from the map and admissions, against the well-formed coordinator.
use flick_drop.Base.{
  ℕ, ◌≡◌, ◌≢◌, refl, sym, ap, ◌∙◌, ◌⊎◌, inl, inr, Bool, true, false, Option, none, some, List, [],
  ◌∷◌, arith, get_elem?, nat_beq, if◌then◌else◌, find, nat_eq, Bool-cases,
}
use flick_drop.Relay.Rendezvous.{Session, Cause, by, session_closed, expired, close_session}
use flick_drop.Relay.Pointers.{
  map_option, is_at, sessions-remove_locked, heap-remove_locked, length-remove_locked-le,
  max_concurrent-remove_locked,
}
use flick_drop.Relay.Invariant.{
  IsSound, IsOpen, IsEntry, IsValidBut, IsValid, close_session-IsSound,
}
use flick_drop.Relay.{
  Coordinator, remove_locked, is_expired, target, keys, clean_entries, clean_expired, close_entries,
  close,
}

-- A coordinator with an exception more, or with more hashes that are about to be burned, is valid too.
pub IsValidBut-weaken :
    (except : Option ℕ) (busy more : ℕ → Bool) (c : Coordinator)
    → ((h : ℕ) → except ≢ some h → more h ≡ false → busy h ≡ false)
    → IsValid busy c
    → IsValidBut except more c
IsValidBut-weaken except busy more c sub v = record {
  sound = v.sound;
  entry = λ hash sid e.
      let n : IsEntry none busy c hash sid = v.entry hash sid e in
      record {
        target = n.target;
        stored = n.stored;
        named = n.named;
        open_target = λ other.
            let o : IsOpen (busy hash) n.target = n.open_target (λ x. cc) in
            record {
              still_open = λ m. o.still_open (sub hash other m);
              not_burned = o.not_burned;
              few_failures = o.few_failures;
            };
      };
  bounded = v.bounded;
}

remove-stored_inv :
    (c : Coordinator) (hash : ℕ) (cause : Cause) (j : ℕ) (t : Session)
    → get_elem? (remove_locked c hash cause).heap j ≡ some t
    → (s : Session) × (get_elem? c.heap j ≡ some s)
      × (t ≡ (if is_at j (find hash c.sessions) then close_session cause s else s))
remove-stored_inv c hash cause j t e =
    split (is_at j (find hash c.sessions)) (get_elem? c.heap j)
      (sym (heap-remove_locked c hash cause j) ∙ e)
  where
    split :
        (b : Bool) (o : Option Session)
        → (if b then map_option (close_session cause) o else o) ≡ some t
        → (s : Session) × (o ≡ some s) × (t ≡ (if b then close_session cause s else s))
    split true none h = absurd (cc h)
    split true (some s) h = (s, refl, cc h)
    split false none h = absurd (cc h)
    split false (some s) h = (s, refl, cc h)

is_at-true : (j : ℕ) (o : Option ℕ) → is_at j o ≡ true → o ≡ some j
is_at-true j none h = absurd (cc h)
is_at-true j (some sid) h = ground (arith, h)

module _ (busy : ℕ → Bool) (c : Coordinator) (hash : ℕ) (cause : Cause)
    (v : IsValidBut (some hash) busy c) where
  -- Two entries of the map never point to one session.
  other_target :
      (h j : ℕ) → hash ≢ h → IsEntry (some hash) busy c h j → is_at j (find hash c.sessions) ≡ false
  other_target h j ne n = elim (Bool-cases (is_at j (find hash c.sessions))) [
    | inr no_match ↦ no_match
    | inl same ↦
        let m : IsEntry (some hash) busy c hash j = v.entry hash j (is_at-true j _ same) in
        absurd (ne (sym m.named ∙ ap (λ (s : Session). s.code_hash) (targets m) ∙ n.named))
  ]
    where
      targets : (m : IsEntry (some hash) busy c hash j) → m.target ≡ n.target
      targets m = cc (m.stored, n.stored)

  remaining :
      (h j : ℕ)
      → find h (remove_locked c hash cause).sessions ≡ some j
      → (hash ≢ h) × (find h c.sessions ≡ some j)
  remaining h j e = split (Bool-cases (nat_beq hash h))
    where
      split :
          (nat_beq hash h ≡ true) ⊎ (nat_beq hash h ≡ false)
          → (hash ≢ h) × (find h c.sessions ≡ some j)
      split (inl b) = absurd (ground (arith, sessions-remove_locked c hash cause h, b, e))
      split (inr b) =
          (λ x. ground (arith, x, b), ground (arith, sessions-remove_locked c hash cause h, b, e))

  IsEntry-remaining :
      (h j : ℕ)
      → hash ≢ h
      → IsEntry (some hash) busy c h j
      → IsEntry none busy (remove_locked c hash cause) h j
  IsEntry-remaining h j ne n = record {
    target = n.target;
    stored = heap-remove_locked c hash cause j ∙ ground (arith, other_target h j ne n, n.stored);
    named = n.named;
    open_target = λ _. n.open_target (λ x. ne (cc x));
  }

  pub remove_locked-IsValid : IsValid busy (remove_locked c hash cause)
  remove_locked-IsValid = record {
    sound = λ j t e.
        let (s, p, q) = remove-stored_inv c hash cause j t e in
        rw q (closes (is_at j (find hash c.sessions)) s (v.sound j s p));
    entry = λ h j e. let (ne, f) = remaining h j e in IsEntry-remaining h j ne (v.entry h j f);
    bounded =
        rw (max_concurrent-remove_locked c hash cause)
          (omega (arith, length-remove_locked-le c hash cause, v.bounded));
  }
    where
      closes :
          (b : Bool) (s : Session) → IsSound s → IsSound (if b then close_session cause s else s)
      closes true s h = close_session-IsSound cause s h
      closes false s h = h

pub removed-IsValid :
    (busy : ℕ → Bool) (c : Coordinator) (hash : ℕ) (cause : Cause)
    → IsValid busy c
    → IsValid busy (remove_locked c hash cause)
removed-IsValid busy c hash cause v =
    remove_locked-IsValid busy c hash cause
      (IsValidBut-weaken (some hash) busy busy c (λ h _ m. m) v)

-- Once a hash is burned, no goroutine needs to be about to burn it.
pub burned-IsValid :
    (busy more : ℕ → Bool) (c : Coordinator) (hash : ℕ) (cause : Cause)
    → ((h : ℕ) → hash ≢ h → more h ≡ false → busy h ≡ false)
    → IsValid busy c
    → IsValid more (remove_locked c hash cause)
burned-IsValid busy more c hash cause sub v =
    remove_locked-IsValid more c hash cause
      (IsValidBut-weaken (some hash) busy more c (λ h other m. sub h (λ x. other (ap some x)) m) v)

IsValid-if :
    (busy : ℕ → Bool) (b : Bool) (c d : Coordinator)
    → IsValid busy c
    → IsValid busy d
    → IsValid busy (if b then c else d)
IsValid-if busy true c d v w = v
IsValid-if busy false c d v w = w

clean_entries-IsValid :
    (busy : ℕ → Bool) (now : ℕ) (es : List ℕ) (c : Coordinator)
    → IsValid busy c
    → IsValid busy (clean_entries now es c)
unfolding clean_entries
clean_entries-IsValid busy now [] c v = v
clean_entries-IsValid busy now (hash ∷ es) c v = clean_entries-IsValid busy now es _ (
    IsValid-if busy (is_expired now (target c hash)) _ _
      (removed-IsValid busy c hash (by expired) v) v)

pub clean_expired-IsValid :
    (busy : ℕ → Bool) (c : Coordinator) (now : ℕ)
    → IsValid busy c
    → IsValid busy (clean_expired c now)
unfolding clean_expired
clean_expired-IsValid busy c now = clean_entries-IsValid busy now (keys c.sessions) c

close_entries-IsValid :
    (busy : ℕ → Bool) (es : List ℕ) (c : Coordinator)
    → IsValid busy c
    → IsValid busy (close_entries es c)
unfolding close_entries
close_entries-IsValid busy [] c v = v
close_entries-IsValid busy (hash ∷ es) c v =
    close_entries-IsValid busy es _ (removed-IsValid busy c hash (by session_closed) v)

pub close-IsValid : (busy : ℕ → Bool) (c : Coordinator) → IsValid busy c → IsValid busy (close c)
unfolding close
close-IsValid busy c v = IsValid-if busy _ _ _ v (
    close_entries-IsValid busy (keys c.sessions) _ (record {
      sound = v.sound;
      entry = λ hash sid e.
          let n : IsEntry none busy c hash sid = v.entry hash sid e in
          record {
            target = n.target;
            stored = n.stored;
            named = n.named;
            open_target = n.open_target;
          };
      bounded = v.bounded;
    }))
