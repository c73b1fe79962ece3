-- ===== src/Relay/WrongCodes.antt =====
-- What guesses of wrong codes do to a session: each is a Receive and, as its handler in
-- internal/httpapi/piperelay.go does after an error, a RecordFailedAttempt with the same code.
use flick_drop.Base.{
  ℕ, ◌≡◌, ◌≢◌, sym, ap, ◌∙◌, Bool, true, not, ◌&&◌, Option, none, some, List, [], ◌∷◌, arith,
  get_elem?, nat_beq, find, nat_eq,
}
use flick_drop.Relay.Code.{normalize_code}
use flick_drop.Relay.Rendezvous.{Session, by, session_burned, connect_receiver, fail_attempt}
use flick_drop.Relay.Pointers.{
  heap-update, sessions-update, heap-remove_locked, sessions-remove_locked,
}
use flick_drop.Relay.Resolve.{Found, receive_cases, record_failed_attempt_cases}
use flick_drop.Relay.Invariant.{IsEntry, IsValid}
use flick_drop.Relay.Safety.{receive-IsValid, record_failed_attempt-IsValid}
use flick_drop.Relay.{Coordinator, update, remove_locked, receive, record_failed_attempt}

module _ (sha256 : List ℕ → ℕ) where
  unfoldable pub guess : Coordinator → List ℕ → Coordinator
  guess c raw = (record_failed_attempt sha256 (receive sha256 c raw).0 raw).0

  unfoldable pub guess_all : Coordinator → List (List ℕ) → Coordinator
  unfolding guess
  guess_all c [] = c
  guess_all c (raw ∷ raws) = guess_all (guess c raw) raws

  -- Whether no guess spells a code of a hash.
  abbrev pub misses : ℕ → Option (List ℕ) → Bool
  misses hash none = true
  misses hash (some code) = not (nat_beq (sha256 code) hash)

  unfoldable pub all_miss : ℕ → List (List ℕ) → Bool
  all_miss hash [] = true
  all_miss hash (raw ∷ raws) = misses hash (normalize_code raw) && all_miss hash raws

  -- The session that a hash leads to.
  abbrev LeadsTo : ℕ → ℕ → Session → Coordinator → Type 0
  LeadsTo hash sid s c = (find hash c.sessions ≡ some sid) × (get_elem? c.heap sid ≡ some s)

  module _ (busy : ℕ → Bool) (hash sid : ℕ) (s : Session) where
    -- Another hash leads to another session.
    other_hash :
        (c : Coordinator) (raw : List ℕ) (h j : ℕ) (t : Session)
        → misses hash (normalize_code raw) ≡ true
        → Found sha256 c raw h j t
        → h ≢ hash
    other_hash c raw h j t m f e = ground (arith, m, f.spelled, f.hashed, e)

    other_pointer :
        (c : Coordinator) (raw : List ℕ) (h j : ℕ) (t : Session)
        → IsValid busy c
        → LeadsTo hash sid s c
        → h ≢ hash
        → Found sha256 c raw h j t
        → j ≢ sid
    other_pointer c raw h j t v l ne f e =
        let x : IsEntry none busy c h j = v.entry h j f.mapped in
        let y : IsEntry none busy c hash sid = v.entry hash sid l.0 in
        let same : x.target ≡ y.target = cc (x.stored, y.stored, ap (get_elem? c.heap) e) in
        ne (sym x.named ∙ ap (λ (u : Session). u.code_hash) same ∙ y.named)

    update-LeadsTo :
        (c : Coordinator) (j : ℕ) (f : Session → Session)
        → j ≢ sid
        → LeadsTo hash sid s c
        → LeadsTo hash sid s (update c j f)
    update-LeadsTo c j f ne l =
        (rw (sessions-update c j f) l.0, heap-update c j f sid ∙ ground (arith, ne, l.1))

    removed-LeadsTo :
        (c : Coordinator) (h j : ℕ)
        → h ≢ hash
        → j ≢ sid
        → find h c.sessions ≡ some j
        → LeadsTo hash sid s c
        → LeadsTo hash sid s (remove_locked c h (by session_burned))
    removed-LeadsTo c h j ne p m l = (
      sessions-remove_locked c h (by session_burned) hash ∙ ground (arith, ne, l.0),
      heap-remove_locked c h (by session_burned) sid ∙ ground (arith, m, p, l.1),
    )

    receive-LeadsTo :
        (c : Coordinator) (raw : List ℕ)
        → misses hash (normalize_code raw) ≡ true
        → IsValid busy c
        → LeadsTo hash sid s c
        → LeadsTo hash sid s (receive sha256 c raw).0
    receive-LeadsTo c raw m v l =
        receive_cases sha256 c raw (λ r. LeadsTo hash sid s r.0) (λ _ _. l) (λ _ _ _ _ _. l)
          (λ h j t f _ _.
            update-LeadsTo c j connect_receiver
              (other_pointer c raw h j t v l (other_hash c raw h j t m f) f) l)

    record_failed_attempt-LeadsTo :
        (c : Coordinator) (raw : List ℕ)
        → misses hash (normalize_code raw) ≡ true
        → IsValid busy c
        → LeadsTo hash sid s c
        → LeadsTo hash sid s (record_failed_attempt sha256 c raw).0
    record_failed_attempt-LeadsTo c raw m v l =
        record_failed_attempt_cases sha256 c raw (λ r. LeadsTo hash sid s r.0) (λ _. l)
          (λ h j t f _.
            let ne = other_hash c raw h j t m f in
            let p = other_pointer c raw h j t v l ne f in
            removed-LeadsTo (update c j fail_attempt) h j ne p
              (rw (sessions-update c j fail_attempt) f.mapped)
              (update-LeadsTo c j fail_attempt p l))
          (λ h j t f _.
            update-LeadsTo c j fail_attempt
              (other_pointer c raw h j t v l (other_hash c raw h j t m f) f) l)

    -- Wrong codes count against no session: however many are guessed, also such as lead to other
    -- sessions and burn them, the session of a hash that none of them has stays as it was, with its
    -- number of failed attempts, and stays in the map of a well-formed coordinator.
    pub wrong_codes_uncounted :
        (raws : List (List ℕ)) (c : Coordinator)
        → IsValid busy c
        → find hash c.sessions ≡ some sid
        → get_elem? c.heap sid ≡ some s
        → all_miss hash raws ≡ true
        → (find hash (guess_all c raws).sessions ≡ some sid)
          × (get_elem? (guess_all c raws).heap sid ≡ some s)
    unfolding guess_all all_miss guess
    wrong_codes_uncounted [] c v e f m = (e, f)
    wrong_codes_uncounted (raw ∷ raws) c v e f m =
        let miss : misses hash (normalize_code raw) ≡ true = ground (arith, m) in
        let d = (receive sha256 c raw).0 in
        let vd = receive-IsValid sha256 busy c v raw in
        let l = record_failed_attempt-LeadsTo d raw miss vd (receive-LeadsTo c raw miss v (e, f)) in
        wrong_codes_uncounted raws (guess c raw)
          (record_failed_attempt-IsValid sha256 busy d vd raw) l.0 l.1 (ground (arith, m))
