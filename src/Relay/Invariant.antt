-- ===== src/Relay/Invariant.antt =====
-- When the coordinator is well formed, and its writes and removals.
use flick_drop.Base.{
  ℕ, ◌≤◌, ◌≡◌, ◌≢◌, refl, sym, ap, subst, ◌∙◌, Bool, true, false, Option, none, some, arith, length,
  get_elem?, nat_beq, nat_beq_iff, if◌then◌else◌, find, nat_eq,
}
use flick_drop.Relay.Rendezvous.{Session, Chan, waiting, closed, Cause, close_session}
use flick_drop.Relay.Pointers.{sessions-update, max_concurrent-update, heap-update}
use flick_drop.Relay.{Coordinator, update}

abbrev pub chan_of : Bool → Chan
chan_of false = waiting
chan_of true = closed

-- Each channel is closed exactly when its `sync.Once` has run, so none is closed twice.
pub record IsSound (s : Session) : Type 0 where
  pub receiver_closes : s.receiver_ready ≡ chan_of s.receiver_once
  pub sender_closes : s.sender_ready ≡ chan_of s.sender_once
  pub done_closes : s.done ≡ chan_of s.close_once

-- A session that can still be found: not burned, with fewer than three failed attempts, and open
-- unless some goroutine is about to burn its hash.
pub record IsOpen (busy : Bool) (s : Session) : Type 0 where
  pub still_open : busy ≡ false → s.close_once ≡ false
  pub not_burned : s.burned ≡ false
  pub few_failures : s.failed_attempts ≤ 2

-- The entry of the map under a hash points to a session of that hash, and to an open one unless the
-- hash is the one that is excepted. `busy` tells the hashes that a goroutine is about to burn.
pub record IsEntry (except : Option ℕ) (busy : ℕ → Bool) (c : Coordinator) (hash sid : ℕ)
    : Type 0 where
  pub target : Session
  pub stored : get_elem? c.heap sid ≡ some target
  pub named : target.code_hash ≡ hash
  pub open_target : except ≢ some hash → IsOpen (busy hash) target

pub record IsValidBut (except : Option ℕ) (busy : ℕ → Bool) (c : Coordinator) : Type 0 where
  pub sound : (sid : ℕ) (s : Session) → get_elem? c.heap sid ≡ some s → IsSound s
  pub entry : (hash sid : ℕ) → find hash c.sessions ≡ some sid → IsEntry except busy c hash sid
  pub bounded : length c.sessions ≤ c.max_concurrent

abbrev pub IsValid : (ℕ → Bool) → Coordinator → Type 0
IsValid = IsValidBut none

-- What a write does to the session that another pointer, or the same one, reads.
update-stored :
    (c : Coordinator) (sid : ℕ) (f : Session → Session) (j : ℕ) (s : Session)
    → get_elem? c.heap j ≡ some s
    → get_elem? (update c sid f).heap j ≡ some (if nat_beq sid j then f s else s)
update-stored c sid f j s e = heap-update c sid f j ∙ ground (arith, e)

update-stored_inv :
    (c : Coordinator) (sid : ℕ) (f : Session → Session) (j : ℕ) (t : Session)
    → get_elem? (update c sid f).heap j ≡ some t
    → (s : Session) × (get_elem? c.heap j ≡ some s) × (t ≡ (if nat_beq sid j then f s else s))
update-stored_inv c sid f j t e = ground (arith, heap-update c sid f j)

IsSound-if :
    (b : Bool) (f : Session → Session) (s : Session)
    → ((s : Session) → IsSound s → IsSound (f s))
    → IsSound s
    → IsSound (if b then f s else s)
IsSound-if true f s k h = k s h
IsSound-if false f s k h = h

named-if :
    (b : Bool) (f : Session → Session) (s : Session)
    → ((s : Session) → (f s).code_hash ≡ s.code_hash)
    → (if b then f s else s).code_hash ≡ s.code_hash
named-if true f s k = k s
named-if false f s k = refl

IsOpen-if :
    (busy b : Bool) (f : Session → Session) (s : Session)
    → (b ≡ true → IsOpen busy (f s))
    → IsOpen busy s
    → IsOpen busy (if b then f s else s)
IsOpen-if busy true f s k h = k refl
IsOpen-if busy false f s k h = h

module _ (busy : ℕ → Bool) (c : Coordinator) (sid : ℕ) (f : Session → Session) where
  -- A write keeps the coordinator valid, but for the excepted hash, if it keeps every session sound
  -- and named, and the session of every other hash open.
  pub update-IsValidBut :
      (except : Option ℕ)
      → ((s : Session) → IsSound s → IsSound (f s))
      → ((s : Session) → (f s).code_hash ≡ s.code_hash)
      → ((s : Session) (b : Bool)
          → get_elem? c.heap sid ≡ some s
          → except ≢ some s.code_hash
          → busy s.code_hash ≡ b
          → IsOpen b s
          → IsOpen b (f s))
      → IsValid busy c
      → IsValidBut except busy (update c sid f)
  update-IsValidBut except sounds names opens v = record {
    sound = λ j t e.
        let (s, p, q) = update-stored_inv c sid f j t e in
        rw q (IsSound-if (nat_beq sid j) f s sounds (v.sound j s p));
    entry = λ hash j e. entries hash j (v.entry hash j (rw (sessions-update c sid f) at e));
    bounded = rw (sessions-update c sid f, max_concurrent-update c sid f) v.bounded;
  }
    where
      entries :
          (hash j : ℕ) → IsEntry none busy c hash j → IsEntry except busy (update c sid f) hash j
      entries hash j n = record {
        target = if nat_beq sid j then f n.target else n.target;
        stored = update-stored c sid f j n.target n.stored;
        named = named-if (nat_beq sid j) f n.target names ∙ n.named;
        open_target = λ other.
            IsOpen-if (busy hash) (nat_beq sid j) f n.target
              (λ b.
                opens n.target (busy hash)
                  (subst (λ i. get_elem? c.heap i ≡ some n.target) (sym ((nat_beq_iff sid j).0 b))
                    n.stored)
                  (λ x. other (x ∙ ap some n.named)) (ap busy n.named) (n.open_target (λ x. cc)))
              (n.open_target (λ x. cc));
      }

  pub update-IsValid :
      ((s : Session) → IsSound s → IsSound (f s))
      → ((s : Session) → (f s).code_hash ≡ s.code_hash)
      → ((s : Session) (b : Bool)
          → get_elem? c.heap sid ≡ some s
          → busy s.code_hash ≡ b
          → IsOpen b s
          → IsOpen b (f s))
      → IsValid busy c
      → IsValid busy (update c sid f)
  update-IsValid sounds names opens =
      update-IsValidBut none sounds names (λ s b e _ y. opens s b e y)

pub close_session-IsSound :
    (cause : Cause) (s : Session) → IsSound s → IsSound (close_session cause s)
unfolding close_session
close_session-IsSound cause s v = ground arith
