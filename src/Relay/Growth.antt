-- ===== src/Relay/Growth.antt =====
-- The identity of a session and its one-shot flags, through the operations.
use flick_drop.Base.{
  ℕ, zero, suc, ◌≡◌, refl, ◌∙◌, Bool, true, false, Option, none, some, List, [], ◌∷◌, ◌++◌, arith,
  get_elem?, nat_beq, if◌then◌else◌, find, nat_eq,
}
use flick_drop.Relay.Rendezvous.{
  Session, SessionMetadata, Cause, by, connect_receiver, connect_sender, set_metadata,
  close_session, close_writer, fail_attempt, session_closed, expired,
}
use flick_drop.Relay.Pointers.{
  map_option, heap-update, is_at, heap-remove_locked, max_concurrent-update,
  max_concurrent-remove_locked,
}
use flick_drop.Relay.{
  Coordinator, update, remove_locked, burn_session, is_expired, target, keys, clean_entries,
  clean_expired, close_entries, close, admit,
}

pub record Evolves (s t : Session) : Type 0 where
  pub same_hash : t.code_hash ≡ s.code_hash
  pub same_salt : t.salt ≡ s.salt
  pub same_expiry : t.expires_at ≡ s.expires_at
  pub still_received : s.receiver_once ≡ true → t.receiver_once ≡ true
  pub still_sent : s.sender_once ≡ true → t.sender_once ≡ true
  pub still_closed : s.close_once ≡ true → t.close_once ≡ true

Evolves-refl : (s : Session) → Evolves s s
Evolves-refl s = ground arith

Evolves-trans : (s t u : Session) → Evolves s t → Evolves t u → Evolves s u
Evolves-trans s t u p q = ground arith

-- The relation between the session under a pointer before and after.
abbrev pub Later : Option Session → Option Session → Type 0
Later none o = Unit {0}
Later (some s) none = ⊥
Later (some s) (some t) = Evolves s t

Later-refl : (o : Option Session) → Later o o
Later-refl none = tt
Later-refl (some s) = Evolves-refl s

Later-trans : (o p q : Option Session) → Later o p → Later p q → Later o q
Later-trans none p q h k = tt
Later-trans (some s) none q h k = absurd h
Later-trans (some s) (some t) none h k = absurd k
Later-trans (some s) (some t) (some u) h k = Evolves-trans s t u h k

-- Every session of `c` is still there in `d`, as it was or further on.
pub record Grows (c d : Coordinator) : Type 0 where
  pub at : (sid : ℕ) → Later (get_elem? c.heap sid) (get_elem? d.heap sid)
  pub same_capacity : d.max_concurrent ≡ c.max_concurrent

pub Grows-refl : (c : Coordinator) → Grows c c
Grows-refl c = record { at = λ sid. Later-refl (get_elem? c.heap sid); same_capacity = refl }

pub Grows-trans : (c d e : Coordinator) → Grows c d → Grows d e → Grows c e
Grows-trans c d e g h = record {
  at = λ sid. Later-trans _ _ _ (g.at sid) (h.at sid);
  same_capacity = h.same_capacity ∙ g.same_capacity;
}

Later-if :
    (b : Bool) (f : Session → Session) (o : Option Session)
    → ((s : Session) → Evolves s (f s))
    → Later o (if b then map_option f o else o)
Later-if true f none h = tt
Later-if true f (some s) h = h s
Later-if false f o h = Later-refl o

pub update-Grows :
    (c : Coordinator) (sid : ℕ) (f : Session → Session)
    → ((s : Session) → Evolves s (f s))
    → Grows c (update c sid f)
update-Grows c sid f h = record {
  at = λ j. rw (heap-update c sid f j) (Later-if (nat_beq sid j) f (get_elem? c.heap j) h);
  same_capacity = max_concurrent-update c sid f;
}

pub close_session-Evolves : (cause : Cause) (s : Session) → Evolves s (close_session cause s)
unfolding close_session
close_session-Evolves cause s = ground arith

pub close_writer-Evolves : (cause : Cause) (s : Session) → Evolves s (close_writer cause s)
unfolding close_writer
close_writer-Evolves cause s = ground arith

pub connect_receiver-Evolves : (s : Session) → Evolves s (connect_receiver s)
unfolding connect_receiver
connect_receiver-Evolves s = ground arith

pub set_metadata-Evolves : (m : SessionMetadata) (s : Session) → Evolves s (set_metadata m s)
unfolding set_metadata
set_metadata-Evolves m s = ground arith

pub connect_sender-Evolves :
    (m : SessionMetadata) (s : Session) → Evolves s (connect_sender (set_metadata m s))
unfolding set_metadata connect_sender
connect_sender-Evolves m s = ground arith

pub fail_attempt-Evolves : (s : Session) → Evolves s (fail_attempt s)
unfolding fail_attempt
fail_attempt-Evolves s = ground arith

pub remove_locked-Grows :
    (c : Coordinator) (hash : ℕ) (cause : Cause) → Grows c (remove_locked c hash cause)
remove_locked-Grows c hash cause = record {
  at = λ j.
      rw (heap-remove_locked c hash cause j)
        (Later-if (is_at j (find hash c.sessions)) _ _ (close_session-Evolves cause));
  same_capacity = max_concurrent-remove_locked c hash cause;
}

pub burn_session-Grows : (c : Coordinator) (hash : ℕ) → Grows c (burn_session c hash)
unfolding burn_session
burn_session-Grows c hash = remove_locked-Grows c hash (by session_closed)

Grows-if : (b : Bool) (c d e : Coordinator) → Grows c d → Grows c e → Grows c (if b then d else e)
Grows-if true c d e g h = g
Grows-if false c d e g h = h

clean_entries-Grows : (now : ℕ) (es : List ℕ) (c : Coordinator) → Grows c (clean_entries now es c)
unfolding clean_entries
clean_entries-Grows now [] c = Grows-refl c
clean_entries-Grows now (hash ∷ es) c =
    let b : Bool = is_expired now (target c hash) in
    Grows-trans c _ _ (Grows-if b c _ _ (remove_locked-Grows c hash (by expired)) (Grows-refl c))
      (clean_entries-Grows now es _)

pub clean_expired-Grows : (c : Coordinator) (now : ℕ) → Grows c (clean_expired c now)
unfolding clean_expired
clean_expired-Grows c now = clean_entries-Grows now (keys c.sessions) c

close_entries-Grows : (es : List ℕ) (c : Coordinator) → Grows c (close_entries es c)
unfolding close_entries
close_entries-Grows [] c = Grows-refl c
close_entries-Grows (hash ∷ es) c =
    Grows-trans c _ _ (remove_locked-Grows c hash (by session_closed)) (close_entries-Grows es _)

pub close-Grows : (c : Coordinator) → Grows c (close c)
unfolding close
close-Grows c = Grows-if _ c _ _ (Grows-refl c) (
    Grows-trans c _ _ (record { at = λ sid. Later-refl _; same_capacity = refl })
      (close_entries-Grows (keys c.sessions) _))

Later-append :
    (o : Session) (xs : List Session) (sid : ℕ)
    → Later (get_elem? xs sid) (get_elem? (xs ++ o ∷ []) sid)
Later-append o [] sid = tt
Later-append o (x ∷ xs) zero = Evolves-refl x
Later-append o (x ∷ xs) (suc sid) = Later-append o xs sid

module _ (sha256 : List ℕ → ℕ) where
  pub admit-Grows :
      (c : Coordinator) (code salt : List ℕ) (now : ℕ) → Grows c (admit sha256 c code salt now)
  unfolding admit
  admit-Grows c code salt now = record {
    at = λ sid. Later-append _ c.heap sid;
    same_capacity = refl;
  }
