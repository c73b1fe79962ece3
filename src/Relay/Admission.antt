-- ===== src/Relay/Admission.antt =====
-- Init: the coordinator after it, and what it gives to its caller.
use flick_drop.Base.{
  ℕ, ◌+◌, ◌/◌, ◌≡◌, refl, subst, ◌∙◌, inl, inr, Bool, false, none, some, List, [], ◌∷◌, ◌++◌, arith,
  length, get_elem?, nat_beq, nat_beq_iff, if◌then◌else◌, leb, find, find-insert, length-insert-le,
  nat_eq, Bool-cases, get_elem?-append_one, get_elem?-append_some, get_elem?-append_last,
}
use flick_drop.Relay.Code.{normalize_code}
use flick_drop.Relay.Spelling.{generate_code-accepted}
use flick_drop.Relay.Rendezvous.{Session, waiting, new_session}
use flick_drop.Relay.Resolve.{init_cases, ok-injective}
use flick_drop.Relay.Invariant.{IsSound, IsOpen, IsEntry, IsValid}
use flick_drop.Relay.{Coordinator, Random, ok, admit, init, lookup_session, resolve, second}

new_session-IsSound :
    (hash : ℕ) (salt : List ℕ) (now ttl : ℕ) → IsSound (new_session hash salt now ttl)
unfolding new_session
new_session-IsSound hash salt now ttl = ground arith

new_session-IsOpen :
    (busy : Bool) (hash : ℕ) (salt : List ℕ) (now ttl : ℕ)
    → IsOpen busy (new_session hash salt now ttl)
unfolding new_session
new_session-IsOpen busy hash salt now ttl = ground arith

module _ (sha256 : List ℕ → ℕ) (c : Coordinator) (code salt : List ℕ) (now : ℕ) where
  fresh : Session
  fresh = new_session (sha256 code) salt now c.ttl

  find-admit :
      (h : ℕ)
      → find h (admit sha256 c code salt now).sessions
        ≡ (if nat_beq (sha256 code) h then some (length c.heap) else find h c.sessions)
  unfolding admit
  find-admit h = find-insert (sha256 code) h (length c.heap) c.sessions

  admitted-IsEntry :
      (busy : ℕ → Bool) (h j : ℕ)
      → IsValid busy c
      → find h (admit sha256 c code salt now).sessions ≡ some j
      → IsEntry none busy (admit sha256 c code salt now) h j
  unfolding admit new_session fresh
  admitted-IsEntry busy h j v e = elim (Bool-cases (nat_beq (sha256 code) h)) [
    | inl b ↦
        let p : length c.heap ≡ j = ground (arith, find-admit h, b, e) in
        record {
          target = fresh;
          stored =
              subst (λ i. get_elem? (c.heap ++ fresh ∷ []) i ≡ some fresh) p
                (get_elem?-append_last c.heap fresh);
          named = (nat_beq_iff _ _).0 b;
          open_target = λ _. new_session-IsOpen _ _ salt now c.ttl;
        }
    | inr b ↦
        let n : IsEntry none busy c h j = v.entry h j (ground (arith, find-admit h, b, e)) in
        record {
          target = n.target;
          stored = get_elem?-append_some c.heap _ j n.target n.stored;
          named = n.named;
          open_target = n.open_target;
        }
  ]

  admit-IsValid :
      (busy : ℕ → Bool)
      → leb c.max_concurrent (length c.sessions) ≡ false
      → IsValid busy c
      → IsValid busy (admit sha256 c code salt now)
  unfolding admit fresh new_session
  admit-IsValid busy room v = record {
    sound = λ j s e. elim (get_elem?-append_one c.heap fresh j s e) [
      | inl p ↦ v.sound j s p
      | inr (_, p) ↦ subst IsSound p (new_session-IsSound (sha256 code) salt now c.ttl)
    ];
    entry = λ h j e. admitted-IsEntry busy h j v e;
    bounded = ground (arith, length-insert-le (sha256 code) (length c.heap) c.sessions, room);
  }

  resolve-admit :
      normalize_code code ≡ some code
      → resolve sha256 (admit sha256 c code salt now) code
        ≡ ok (sha256 code, length c.heap, new_session (sha256 code) salt now c.ttl)
  unfolding resolve lookup_session
  resolve-admit e = ground (arith, e, found, stored)
    where
      found : find (sha256 code) (admit sha256 c code salt now).sessions ≡ some (length c.heap)
      found = find-admit (sha256 code) ∙ ground arith

      stored :
          get_elem? (admit sha256 c code salt now).heap (length c.heap)
          ≡ some (new_session (sha256 code) salt now c.ttl)
      stored = unfold admit in get_elem?-append_last c.heap _

-- An open session that waits for both parties, without metadata or failed attempts.
abbrev pub waiting_session : ℕ → List ℕ → ℕ → ℕ → Session
waiting_session hash salt created_at expires_at = record {
  code_hash = hash;
  salt = salt;
  created_at = created_at;
  expires_at = expires_at;
  failed_attempts = 0;
  burned = false;
  metadata = record { kind = ""; encrypted_filename = "" };
  receiver_ready = waiting;
  sender_ready = waiting;
  done = waiting;
  pipe_reader = none;
  pipe_writer = none;
  receiver_once = false;
  sender_once = false;
  close_once = false;
}

pub record Admitted (sha256 : List ℕ → ℕ) (c d : Coordinator) (now : ℕ) (r : List ℕ × List ℕ × ℕ)
    : Type 0 where
  pub untaken : find (sha256 r.0) c.sessions ≡ none
  pub leads :
      resolve sha256 d r.0
      ≡ ok (sha256 r.0, length c.heap, waiting_session (sha256 r.0) r.1 now (now + c.ttl))
  pub seconds : r.2 ≡ c.ttl / second
  pub mapped :
      (h : ℕ)
      → find h d.sessions
        ≡ (if nat_beq (sha256 r.0) h then some (length c.heap) else find h c.sessions)

module _ (sha256 : List ℕ → ℕ) (c : Coordinator) (rand : Random) (now : ℕ) where
  pub init-IsValid : (busy : ℕ → Bool) → IsValid busy c → IsValid busy (init sha256 c rand now).0
  init-IsValid busy v =
      init_cases sha256 c rand now (λ r. IsValid busy r.0) (λ _. v)
        λ code salt room _ _. admit-IsValid sha256 c code salt now busy room v

  -- Where Init returns a code, no session had the code's hash before, the code as it is printed leads
  -- to a session with the returned salt that expires `ttl` later, is open, waits for both parties and has
  -- no failed attempt, the returned number is `ttl` in
  -- whole seconds, and every other hash leads where it did.
  pub init-Admitted :
      (code salt : List ℕ) (expires_in : ℕ)
      → (init sha256 c rand now).1 ≡ ok (code, salt, expires_in)
      → Admitted sha256 c (init sha256 c rand now).0 now (code, salt, expires_in)
  unfolding new_session
  init-Admitted code salt expires_in =
      init_cases sha256 c rand now
        (λ r.
          r.1 ≡ ok (code, salt, expires_in) → Admitted sha256 c r.0 now (code, salt, expires_in))
        (λ _ e. absurd (cc e))
        λ code' salt' room p _ e.
          subst (Admitted sha256 c (admit sha256 c code' salt' now) now) (ok-injective _ _ e)
            (record {
              untaken = p.untaken;
              leads =
                  resolve-admit sha256 c code' salt' now (generate_code-accepted _ code' p.printed);
              seconds = refl;
              mapped = find-admit sha256 c code' salt' now;
            })
