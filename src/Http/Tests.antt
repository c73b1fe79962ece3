-- ===== src/Http/Tests.antt =====
-- The client's address on concrete headers, where an address is one digit and 9 is the proxy's.
use flick_drop.Base.{
  ℕ, ◌-◌, ◌≡◌, refl, Bool, Option, none, some, List, [], ◌∷◌, ◌++◌, nat_beq, if◌then◌else◌,
}
use flick_drop.Relay.Code.{is_digit}
use flick_drop.Http.{split, candidate, last_candidate, client_ip}
use flick_drop.Http.Address.{client_ip-spoofed}

abbrev toy_ip : List ℕ → Option ℕ
toy_ip [] = none
toy_ip (c ∷ []) = if is_digit c then some (c - b'0') else none
toy_ip (c ∷ d ∷ s) = none

abbrev toy_host : List ℕ → Option (List ℕ)
toy_host [] = none
toy_host (c ∷ s) = some (c ∷ [])

abbrev proxies : List (ℕ → Bool)
proxies = (λ n. nat_beq n 9) ∷ []

abbrev proxy : List ℕ
proxy = b'9' ∷ b':' ∷ b'1' ∷ []

-- " 2,9", behind a client's "1".
abbrev appended : List ℕ
appended = b' ' ∷ b'2' ∷ b',' ∷ b'9' ∷ []

client_ip-spoofed_example :
    client_ip toy_ip proxies toy_host proxy ((b'1' ∷ []) ++ b',' ∷ appended) ≡ b'2' ∷ []
unfolding client_ip split candidate last_candidate
client_ip-spoofed_example =
    client_ip-spoofed toy_ip proxies toy_host proxy (b'1' ∷ []) appended (b'2' ∷ []) refl refl
