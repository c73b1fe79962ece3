-- ===== src/Http.antt =====
-- internal/httpapi/ratelimit.go: the client's address that a rate limit is kept for. A text is the list
-- of its code points. net.ParseIP, net.SplitHostPort and the trusted networks are parameters.
mod Tests
pub mod Address
use flick_drop.Base.{
  ℕ, Bool, true, false, not, ◌&&◌, ◌||◌, Option, none, some, List, [], ◌∷◌, nat_beq, if◌then◌else◌,
}
use flick_drop.Relay.Code.{trim_space}

-- strings.Split(s, ",")
abbrev pub extend : ℕ → List (List ℕ) → List (List ℕ)
extend c [] = (c ∷ []) ∷ []
extend c (part ∷ parts) = (c ∷ part) ∷ parts

unfoldable pub split : List ℕ → List (List ℕ)
split [] = [] ∷ []
split (c ∷ s) = let rest = split s in if nat_beq c b',' then [] ∷ rest else extend c rest

abbrev pub is_empty : List ℕ → Bool
is_empty [] = true
is_empty (c ∷ s) = false

module _ {Ip : Type 0} (parse_ip : List ℕ → Option Ip) (trusted : List (Ip → Bool)) where
  -- The loop over the networks.
  unfoldable pub contains : List (Ip → Bool) → Ip → Bool
  contains [] ip = false
  contains (network ∷ networks) ip = if network ip then true else contains networks ip

  unfoldable pub is_trusted_ip : List ℕ → Bool
  unfolding contains
  is_trusted_ip ip = elim (parse_ip ip) [ none ↦ false | some parsed ↦ contains trusted parsed ]

  abbrev pub is_ip : List ℕ → Bool
  is_ip s = elim (parse_ip s) [ none ↦ false | some ip ↦ true ]

  -- One pass of the loop of rightmostUntrusted.
  unfoldable pub candidate : List ℕ → Option (List ℕ)
  unfolding is_trusted_ip trim_space
  candidate part =
      let c = trim_space part in
      if is_empty c || not (is_ip c) then none else if is_trusted_ip c then none else some c

  -- `for i := len(parts) - 1; i >= 0; i--`
  unfoldable pub last_candidate : List (List ℕ) → Option (List ℕ)
  last_candidate [] = none
  last_candidate (part ∷ parts) = elim (last_candidate parts) [
    | some c ↦ some c
    | none ↦ candidate part
  ]

  unfoldable pub rightmost_untrusted : List ℕ → Option (List ℕ)
  unfolding last_candidate split
  rightmost_untrusted xff = last_candidate (split xff)

  module _ (split_host_port : List ℕ → Option (List ℕ)) where
    unfoldable pub peer_of : List ℕ → List ℕ
    peer_of remote_addr = elim (split_host_port remote_addr) [
      | none ↦ remote_addr
      | some host ↦ host
    ]

    -- clientIP of a request with a remote address and an X-Forwarded-For header.
    unfoldable pub client_ip : List ℕ → List ℕ → List ℕ
    unfolding peer_of is_trusted_ip rightmost_untrusted
    client_ip remote_addr xff =
        let peer = peer_of remote_addr in
        if is_trusted_ip peer
        then (if is_empty xff
            then peer
            else elim (rightmost_untrusted xff) [ none ↦ peer | some ip ↦ ip ])
        else peer
