-- ===== src/Http/Address.antt =====
-- What a client can do to its address by the header that it sends.
use flick_drop.Base.{
  ℕ, ◌≡◌, refl, ap, ◌∙◌, ◌⊎◌, inl, inr, Bool, true, false, Option, some, List, [], ◌∷◌, ◌++◌,
  nat_beq, arith, Bool-cases, Option-cases,
}
use flick_drop.Http.{
  extend, split, is_empty, is_trusted_ip, candidate, last_candidate, rightmost_untrusted, peer_of,
  client_ip, is_ip,
}

abbrev has_parts : List (List ℕ) → Bool
has_parts [] = false
has_parts (part ∷ parts) = true

extend-append :
    (c : ℕ) (parts more : List (List ℕ))
    → has_parts parts ≡ true
    → extend c (parts ++ more) ≡ extend c parts ++ more
extend-append c [] more h = absurd (cc h)
extend-append c (part ∷ parts) more h = refl

split-has_parts : (s : List ℕ) → has_parts (split s) ≡ true
unfolding split
split-has_parts [] = refl
split-has_parts (c ∷ s) = elim (Bool-cases (nat_beq c b',')) [
  | inl comma ↦ rw comma refl
  | inr other ↦ rw other (extended (split s))
]
  where
    extended : (parts : List (List ℕ)) → has_parts (extend c parts) ≡ true
    extended [] = refl
    extended (part ∷ parts) = refl

split-append : (s t : List ℕ) → split (s ++ b',' ∷ t) ≡ split s ++ split t
unfolding split
split-append [] t = refl
split-append (c ∷ s) t = elim (Bool-cases (nat_beq c b',')) [
  | inl comma ↦ rw comma (ap (λ parts. [] ∷ parts) (split-append s t))
  | inr other ↦
      rw other
        (ap (extend c) (split-append s t) ∙ extend-append c (split s) (split t) (split-has_parts s))
]

module _ {Ip : Type 0} (parse_ip : List ℕ → Option Ip) (trusted : List (Ip → Bool))
    (split_host_port : List ℕ → Option (List ℕ)) where
  last_candidate-append :
      (parts more : List (List ℕ)) (ip : List ℕ)
      → last_candidate parse_ip trusted more ≡ some ip
      → last_candidate parse_ip trusted (parts ++ more) ≡ some ip
  unfolding last_candidate
  last_candidate-append [] more ip h = h
  last_candidate-append (part ∷ parts) more ip h = rw (last_candidate-append parts more ip h) refl

  rightmost_untrusted-append :
      (spoofed own ip : List ℕ)
      → rightmost_untrusted parse_ip trusted own ≡ some ip
      → rightmost_untrusted parse_ip trusted (spoofed ++ b',' ∷ own) ≡ some ip
  unfolding rightmost_untrusted
  rightmost_untrusted-append spoofed own ip h =
      rw (split-append spoofed own) (last_candidate-append (split spoofed) (split own) ip h)

  -- Behind a trusted peer, what stands in the header before the entries that the proxies appended does
  -- not change the client's address, as long as these name an address that is not trusted.
  pub client_ip-spoofed :
      (remote_addr spoofed own ip : List ℕ)
      → is_trusted_ip parse_ip trusted (peer_of parse_ip trusted split_host_port remote_addr) ≡ true
      → rightmost_untrusted parse_ip trusted own ≡ some ip
      → client_ip parse_ip trusted split_host_port remote_addr (spoofed ++ b',' ∷ own) ≡ ip
  unfolding client_ip
  client_ip-spoofed remote_addr spoofed own ip t h =
      rw (t, rightmost_untrusted-append spoofed own ip h, filled spoofed) refl
    where
      filled : (s : List ℕ) → is_empty (s ++ b',' ∷ own) ≡ false
      filled [] = refl
      filled (c ∷ s) = refl

  candidate-IsUntrusted :
      (part ip : List ℕ)
      → candidate parse_ip trusted part ≡ some ip
      → (is_ip parse_ip trusted ip ≡ true) × (is_trusted_ip parse_ip trusted ip ≡ false)
  unfolding candidate
  candidate-IsUntrusted part ip h = ground (arith, h)

  last_candidate-IsUntrusted :
      (parts : List (List ℕ)) (ip : List ℕ)
      → last_candidate parse_ip trusted parts ≡ some ip
      → (is_ip parse_ip trusted ip ≡ true) × (is_trusted_ip parse_ip trusted ip ≡ false)
  unfolding last_candidate
  last_candidate-IsUntrusted [] ip h = absurd (cc h)
  last_candidate-IsUntrusted (part ∷ parts) ip h =
      elim (Option-cases (last_candidate parse_ip trusted parts)) [
        | inl f ↦ candidate-IsUntrusted part ip (ground (arith, f, h))
        | inr (c, f) ↦ last_candidate-IsUntrusted parts ip (ground (arith, f, h))
      ]

  -- The client's address is the direct peer, or else the peer is trusted and the address is a valid one
  -- that is not: no header makes a bucket for a text that is no address.
  pub client_ip-IsUntrusted :
      (remote_addr xff : List ℕ)
      → let peer = peer_of parse_ip trusted split_host_port remote_addr in
        let ip = client_ip parse_ip trusted split_host_port remote_addr xff in
        (ip ≡ peer)
        ⊎ ((is_trusted_ip parse_ip trusted peer ≡ true)
            × (is_ip parse_ip trusted ip ≡ true)
            × (is_trusted_ip parse_ip trusted ip ≡ false))
  unfolding client_ip rightmost_untrusted
  client_ip-IsUntrusted remote_addr xff =
      elim (Option-cases (rightmost_untrusted parse_ip trusted xff)) [
        | inl f ↦ ground (arith, f)
        | inr (ip, f) ↦ ground (arith, f, last_candidate-IsUntrusted (split xff) ip f)
      ]
