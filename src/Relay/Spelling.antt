-- ===== src/Relay/Spelling.antt =====
-- What NormalizeCode accepts, and what GenerateCode prints.
use flick_drop.Base.{
  ℕ, ◌+◌, ◌<◌, ◌≡◌, ◌↔◌, refl, Bool, true, false, Option, none, some, List, [], ◌∷◌, arith, length,
  nat_beq, if◌then◌else◌, ap, subst, inl, inr, Bool-cases,
}
use flick_drop.Relay.Code.{
  is_space, trim_left, trim_right, trim_space, keep_unless_blank, remove, byte_length, is_digit,
  all_digits, normalize_code, format_code, generate_code, digit_at,
}

-- A text that shows the digits of a code in order, with blanks and dashes among them.
pub data Spelled : List ℕ → List ℕ → Type 0 where
  done : Spelled [] []
  digit : {d : ℕ} {r c : List ℕ} → is_digit d ≡ true → Spelled r c → Spelled (d ∷ r) (d ∷ c)
  blank : {d : ℕ} {r c : List ℕ} → d ≡ b' ' → Spelled r c → Spelled (d ∷ r) c
  dash : {d : ℕ} {r c : List ℕ} → d ≡ b'-' → Spelled r c → Spelled (d ∷ r) c

digit_not_space : (d : ℕ) → is_digit d ≡ true → is_space d ≡ false
unfolding is_space
digit_not_space d h = ground arith

dash_not_space : (d : ℕ) → d ≡ b'-' → is_space d ≡ false
unfolding is_space
dash_not_space d h = ground arith

trim_left-Spelled : {r c : List ℕ} → Spelled r c → Spelled (trim_left r) c
unfolding trim_left
trim_left-Spelled done = done
trim_left-Spelled (digit {d = d} h s) = rw (digit_not_space d h) (digit h s)
trim_left-Spelled (dash {d = d} h s) = rw (dash_not_space d h) (dash h s)
trim_left-Spelled (blank {d = d} h s) = elim (Bool-cases (is_space d)) [
  | inl e ↦ rw e (trim_left-Spelled s)
  | inr e ↦ rw e (blank h s)
]

keep-Spelled :
    {d : ℕ} {c : List ℕ} (b : Bool) (r : List ℕ)
    → d ≡ b' '
    → Spelled r c
    → Spelled (keep_unless_blank b d r) c
keep-Spelled true [] h s = s
keep-Spelled true (x ∷ r) h s = blank h s
keep-Spelled false r h s = blank h s

trim_right-Spelled : {r c : List ℕ} → Spelled r c → Spelled (trim_right r) c
unfolding trim_right
trim_right-Spelled done = done
trim_right-Spelled (digit {d = d} h s) = rw (digit_not_space d h) (digit h (trim_right-Spelled s))
trim_right-Spelled (dash {d = d} h s) = rw (dash_not_space d h) (dash h (trim_right-Spelled s))
trim_right-Spelled (blank {d = d} {r = r} h s) =
    keep-Spelled (is_space d) (trim_right r) h (trim_right-Spelled s)

remove-Spelled : {r c : List ℕ} → Spelled r c → remove b' ' (remove b'-' r) ≡ c
remove-Spelled done = refl
remove-Spelled (digit {d = d} h s) = ground (arith, remove-Spelled s)
remove-Spelled (blank h s) = ground (arith, remove-Spelled s)
remove-Spelled (dash h s) = ground (arith, remove-Spelled s)

Spelled-all_digits : {r c : List ℕ} → Spelled r c → all_digits c ≡ true
Spelled-all_digits done = refl
Spelled-all_digits (digit h s) = ground (arith, Spelled-all_digits s)
Spelled-all_digits (blank h s) = Spelled-all_digits s
Spelled-all_digits (dash h s) = Spelled-all_digits s

byte_length-digits : (c : List ℕ) → all_digits c ≡ true → byte_length c ≡ length c
byte_length-digits [] h = refl
byte_length-digits (d ∷ c) h = ground (arith, byte_length-digits c)

accepts :
    (n : List ℕ)
    → all_digits n ≡ true
    → length n ≡ 6
    → (if nat_beq (byte_length n) 6 then (if all_digits n then some n else none) else none) ≡ some n
accepts n h k = ground (arith, byte_length-digits n)

-- Every spelling of six digits with blanks and dashes anywhere among them is accepted, and its code
-- is the six digits.
pub normalize_code-Spelled :
    (raw code : List ℕ) → Spelled raw code → length code ≡ 6 → normalize_code raw ≡ some code
unfolding normalize_code
normalize_code-Spelled raw code s n =
    rw (remove-Spelled (trim_right-Spelled (trim_left-Spelled s)))
      (accepts code (Spelled-all_digits s) n)

digits-Spelled : (c : List ℕ) → all_digits c ≡ true → Spelled c c
digits-Spelled [] h = done
digits-Spelled (d ∷ c) h = digit (ground arith) (digits-Spelled c (ground arith))

accepted :
    (n code : List ℕ)
    → (if nat_beq (byte_length n) 6 then (if all_digits n then some n else none) else none)
      ≡ some code
    → (length code ≡ 6) × (all_digits code ≡ true)
accepted n code h = ground (arith, byte_length-digits n)

-- A text is accepted only with a code of exactly six digits, which is accepted as itself.
pub normalize_code-IsCode :
    (raw code : List ℕ)
    → normalize_code raw ≡ some code
    → (length code ≡ 6) × (all_digits code ≡ true) × (normalize_code code ≡ some code)
normalize_code-IsCode raw code h = (six.0, six.1, again)
  where
    six : (length code ≡ 6) × (all_digits code ≡ true)
    six = unfold normalize_code in accepted (remove b' ' (remove b'-' (trim_space raw))) code h

    again : normalize_code code ≡ some code
    again = normalize_code-Spelled code code (digits-Spelled code six.1) six.0

digit_at-is_digit : (v p : ℕ) → is_digit (digit_at v p) ≡ true
digit_at-is_digit v p = ground arith

format_code-all_digits : (v : ℕ) → all_digits (format_code v) ≡ true
unfolding format_code
format_code-all_digits v = ground (
  arith,
  digit_at-is_digit v 100000,
  digit_at-is_digit v 10000,
  digit_at-is_digit v 1000,
  digit_at-is_digit v 100,
  digit_at-is_digit v 10,
  digit_at-is_digit v 1,
)

some_injective {ℓ} : {A : Type ℓ} (a b : A) → some a ≡ some b → a ≡ b
some_injective a b h = cc

-- A generated code is accepted as it is printed.
pub generate_code-accepted :
    (o : Option ℕ) (code : List ℕ) → generate_code o ≡ some code → normalize_code code ≡ some code
unfolding generate_code
generate_code-accepted none code h = absurd (cc h)
generate_code-accepted (some n) code h =
    subst (λ c. normalize_code c ≡ some c) (some_injective _ _ h)
      (normalize_code-Spelled _ _ (digits-Spelled _ (format_code-all_digits (n + 100000)))
        (unfold format_code in refl))

head_or : List ℕ → ℕ
head_or [] = 0
head_or (x ∷ xs) = x

tail_of : List ℕ → List ℕ
tail_of [] = []
tail_of (x ∷ xs) = xs

format_code-injective :
    (v w : ℕ) → v < 1000000 → w < 1000000 → format_code v ≡ format_code w → v ≡ w
unfolding format_code head_or tail_of
format_code-injective v w hv hw e = omega (
  arith,
  ap head_or e,
  ap (λ (l : List ℕ). head_or (tail_of l)) e,
  ap (λ (l : List ℕ). head_or (tail_of (tail_of l))) e,
  ap (λ (l : List ℕ). head_or (tail_of (tail_of (tail_of l)))) e,
  ap (λ (l : List ℕ). head_or (tail_of (tail_of (tail_of (tail_of l))))) e,
  ap (λ (l : List ℕ). head_or (tail_of (tail_of (tail_of (tail_of (tail_of l)))))) e,
)

-- The codes of two draws below 900000 are accepted as they are printed, and they are the same code
-- only if the draws are the same number.
pub generate_code-normalize_code :
    (m n : ℕ)
    → m < 900000
    → n < 900000
    → (code : List ℕ) × (generate_code (some m) ≡ some code)
      × (normalize_code code ≡ some code)
      × ((generate_code (some n) ≡ some code) ↔ (m ≡ n))
generate_code-normalize_code m n hm hn = (
  format_code (m + 100000),
  unfold generate_code in refl,
  normalize_code-Spelled _ _ (digits-Spelled _ (format_code-all_digits _))
      (unfold format_code in refl),
  (same, λ e. rw (← e) (unfold generate_code in refl)),
)
  where
    same : generate_code (some n) ≡ some (format_code (m + 100000)) → m ≡ n
    same e = omega (
      arith,
      format_code-injective (n + 100000) (m + 100000) (omega arith) (omega arith)
          (some_injective _ _ (unfold generate_code in e)),
    )
