-- ===== src/Relay/Expiry.antt =====
-- What the cleaner and Close remove.
use flick_drop.Base.{
  ℕ, ◌≡◌, refl, sym, ap, subst, ◌∙◌, ◌⊎◌, inl, inr, Bool, true, false, Option, none, some, List, [],
  ◌∷◌, arith, length, get_elem?, nat_beq, nat_beq_iff, if◌then◌else◌, find, nat_eq, Bool-cases,
}
use flick_drop.Relay.Rendezvous.{
  Session, Cause, by, expired, close_session, session_closed, close_chan, is_closed,
}
use flick_drop.Relay.Pointers.{
  map_option, is_at, heap-remove_locked, sessions-remove_locked, stop_clean-remove_locked,
}
use flick_drop.Relay.{
  Coordinator, target, keys, is_expired, remove_locked, clean_entries, clean_expired, close_entries,
  close, active_sessions,
}

-- Whether a list of hashes has a hash.
abbrev has : ℕ → List ℕ → Bool
has h [] = false
has h (k ∷ ks) = if nat_beq k h then true else has h ks

has-keys : (h : ℕ) (m : List (ℕ × ℕ)) → find h m ≡ none ⊎ has h (keys m) ≡ true
unfolding find
has-keys h [] = inl refl
has-keys h ((k, v) ∷ m) = ground (arith, has-keys h m)

abbrev pub expired_entry : ℕ → Coordinator → ℕ → Bool
expired_entry now c h = is_expired now (target c h)

-- Closing a session does not move its expiry.
is_expired-close :
    (now : ℕ) (b : Bool) (cause : Cause) (o : Option Session)
    → is_expired now (if b then map_option (close_session cause) o else o) ≡ is_expired now o
unfolding close_session
is_expired-close now true cause none = refl
is_expired-close now true cause (some s) = ground arith
is_expired-close now false cause o = refl

abbrev pointee_of : List Session → Option ℕ → Option Session
pointee_of heap none = none
pointee_of heap (some sid) = get_elem? heap sid

target-pointee_of : (c : Coordinator) (h : ℕ) → target c h ≡ pointee_of c.heap (find h c.sessions)
target-pointee_of c h = ground arith

expired_entry-remove :
    (now : ℕ) (c : Coordinator) (k h : ℕ) (cause : Cause)
    → nat_beq k h ≡ false
    → expired_entry now (remove_locked c k cause) h ≡ expired_entry now c h
expired_entry-remove now c k h cause ne =
    ap (is_expired now) (target-pointee_of (remove_locked c k cause) h ∙ ap (pointee_of _) kept)
    ∙ cases (find h c.sessions)
    ∙ ap (is_expired now) (sym (target-pointee_of c h))
  where
    kept : find h (remove_locked c k cause).sessions ≡ find h c.sessions
    kept = ground (arith, sessions-remove_locked c k cause h, ne)

    cases :
        (o : Option ℕ)
        → is_expired now (pointee_of (remove_locked c k cause).heap o)
          ≡ is_expired now (pointee_of c.heap o)
    cases none = refl
    cases (some sid) =
        ap (is_expired now) (heap-remove_locked c k cause sid)
        ∙ is_expired-close now (is_at sid (find k c.sessions)) cause (get_elem? c.heap sid)

abbrev cleaned : ℕ → Coordinator → ℕ → Coordinator
cleaned now c k = if expired_entry now c k then remove_locked c k (by expired) else c

-- One round of the loop at another hash, and at the hash itself.
cleaned_other :
    (now : ℕ) (c : Coordinator) (k h : ℕ)
    → nat_beq k h ≡ false
    → (find h (cleaned now c k).sessions ≡ find h c.sessions)
      × (expired_entry now (cleaned now c k) h ≡ expired_entry now c h)
cleaned_other now c k h ne = elim (Bool-cases (expired_entry now c k)) [
  | inl b ↦ rw b (
    ground (arith, sessions-remove_locked c k (by expired) h, ne),
    expired_entry-remove now c k h (by expired) ne,
  )
  | inr b ↦ rw b (refl, refl)
]

cleaned_fresh :
    (now : ℕ) (c : Coordinator) (h k : ℕ)
    → expired_entry now c h ≡ false
    → (find h (cleaned now c k).sessions ≡ find h c.sessions)
      × (expired_entry now (cleaned now c k) h ≡ false)
cleaned_fresh now c h k e = elim (Bool-cases (nat_beq k h)) [
  | inr b ↦ let (p, q) = cleaned_other now c k h b in (p, q ∙ e)
  | inl b ↦
      let same : h ≡ k = sym ((nat_beq_iff k h).0 b) in
      let f : expired_entry now c k ≡ false = subst (λ i. expired_entry now c i ≡ false) same e in
      rw f (refl, e)
]

clean_entries-fresh :
    (now : ℕ) (ks : List ℕ) (c : Coordinator) (h : ℕ)
    → expired_entry now c h ≡ false
    → find h (clean_entries now ks c).sessions ≡ find h c.sessions
unfolding clean_entries
clean_entries-fresh now [] c h e = refl
clean_entries-fresh now (k ∷ ks) c h e =
    let (p, q) = cleaned_fresh now c h k e in clean_entries-fresh now ks (cleaned now c k) h q ∙ p

none-expired :
    (now : ℕ) (c : Coordinator) (h : ℕ) → find h c.sessions ≡ none → expired_entry now c h ≡ false
none-expired now c h e = ap (is_expired now) (target-pointee_of c h) ∙ ground (arith, e)

clean_entries-expired :
    (now : ℕ) (ks : List ℕ) (c : Coordinator) (h : ℕ)
    → expired_entry now c h ≡ true
    → has h ks ≡ true
    → find h (clean_entries now ks c).sessions ≡ none
unfolding clean_entries
clean_entries-expired now [] c h e m = absurd (cc m)
clean_entries-expired now (k ∷ ks) c h e m = elim (Bool-cases (nat_beq k h)) [
  | inr b ↦
      let (p, q) = cleaned_other now c k h b in
      clean_entries-expired now ks (cleaned now c k) h (q ∙ e) (ground (arith, m, b))
  | inl b ↦
      let same : k ≡ h = (nat_beq_iff k h).0 b in
      let f : expired_entry now c k ≡ true =
        subst (λ i. expired_entry now c i ≡ true) (sym same) e in
      let gone : find h (cleaned now c k).sessions ≡ none =
        rw f (ground (arith, sessions-remove_locked c k (by expired) h, b)) in
      clean_entries-fresh now ks (cleaned now c k) h (none-expired now (cleaned now c k) h gone)
      ∙ gone
]

-- The cleaner removes the entries of exactly the sessions that expired strictly before `now`; every
-- other hash leads where it did.
pub find-clean_expired :
    (c : Coordinator) (now h : ℕ)
    → find h (clean_expired c now).sessions
      ≡ (if expired_entry now c h then none else find h c.sessions)
unfolding clean_expired
find-clean_expired c now h = elim (Bool-cases (expired_entry now c h)) [
  | inr e ↦ rw e (clean_entries-fresh now (keys c.sessions) c h e)
  | inl e ↦ rw e (elim (has-keys h c.sessions) [
    | inl n ↦ absurd (cc (e, none-expired now c h n))
    | inr m ↦ clean_entries-expired now (keys c.sessions) c h e m
  ])
]

close_entries-none :
    (ks : List ℕ) (c : Coordinator) (h : ℕ)
    → (find h c.sessions ≡ none) ⊎ (has h ks ≡ true)
    → find h (close_entries ks c).sessions ≡ none
unfolding close_entries
close_entries-none [] c h (inl e) = e
close_entries-none [] c h (inr m) = absurd (cc m)
close_entries-none (k ∷ ks) c h p =
    close_entries-none ks _ h
      (split (Bool-cases (nat_beq k h)) p (sessions-remove_locked c k (by session_closed) h))
  where
    split :
        (nat_beq k h ≡ true) ⊎ (nat_beq k h ≡ false)
        → (find h c.sessions ≡ none) ⊎ (has h (k ∷ ks) ≡ true)
        → find h (remove_locked c k (by session_closed)).sessions
          ≡ (if nat_beq k h then none else find h c.sessions)
        → (find h (remove_locked c k (by session_closed)).sessions ≡ none) ⊎ (has h ks ≡ true)
    split (inl b) q law = inl (ground (arith, b, law))
    split (inr b) (inl e) law = inl (ground (arith, b, law, e))
    split (inr b) (inr m) law = inr (ground (arith, b, m))

close_entries-stop_clean :
    (ks : List ℕ) (c : Coordinator) → (close_entries ks c).stop_clean ≡ c.stop_clean
unfolding close_entries
close_entries-stop_clean [] c = refl
close_entries-stop_clean (k ∷ ks) c =
    close_entries-stop_clean ks _ ∙ stop_clean-remove_locked c k (by session_closed)

all_none-nil : (m : List (ℕ × ℕ)) → ((h : ℕ) → find h m ≡ none) → length m ≡ 0
unfolding find
all_none-nil [] f = refl
all_none-nil ((k, v) ∷ m) f = absurd (ground (arith, f k))

close_stopped : (c : Coordinator) → is_closed c.stop_clean ≡ true → close c ≡ c
unfolding close
close_stopped c e = rw e

-- The first Close leaves no session in the map, and a second Close changes nothing.
pub close_lem :
    (c : Coordinator)
    → is_closed c.stop_clean ≡ false
    → (active_sessions (close c) ≡ 0) × (close (close c) ≡ close c)
close_lem c e = (unfold active_sessions in rw closing (all_none-nil _ none_left), again)
  where
    d : Coordinator
    d = record c { stop_clean = close_chan c.stop_clean }

    closing : close c ≡ close_entries (keys c.sessions) d
    closing = unfold close in rw e

    none_left : (h : ℕ) → find h (close_entries (keys c.sessions) d).sessions ≡ none
    none_left h = close_entries-none (keys c.sessions) d h (has-keys h c.sessions)

    stopped : is_closed (close c).stop_clean ≡ true
    stopped = rw closing (rw (close_entries-stop_clean (keys c.sessions) d) (ground arith))

    again : close (close c) ≡ close c
    again = close_stopped (close c) stopped
