-- ===== src/Relay/Code.antt =====
-- internal/piperelay/coordinator.go: NormalizeCode and GenerateCode. A text is the list of its code
-- points; `len` and the index loop of the source read its UTF-8 bytes.
use flick_drop.Base.{
  ℕ, ◌+◌, ◌/◌, ◌%◌, Bool, true, false, not, ◌&&◌, ◌||◌, Option, none, some, List, [], ◌∷◌, leb, ltb,
  nat_beq, if◌then◌else◌, select,
}

-- unicode.IsSpace
unfoldable pub is_space : ℕ → Bool
is_space c =
    (leb 9 c && leb c 13)
    || nat_beq c 32
    || nat_beq c 0x85
    || nat_beq c 0xa0
    || nat_beq c 0x1680
    || (leb 0x2000 c && leb c 0x200a)
    || nat_beq c 0x2028
    || nat_beq c 0x2029
    || nat_beq c 0x202f
    || nat_beq c 0x205f
    || nat_beq c 0x3000

unfoldable pub trim_left : List ℕ → List ℕ
trim_left [] = []
trim_left (c ∷ cs) = if is_space c then trim_left cs else c ∷ cs

abbrev pub keep_unless_blank : Bool → ℕ → List ℕ → List ℕ
keep_unless_blank true c [] = []
keep_unless_blank true c (d ∷ ds) = c ∷ d ∷ ds
keep_unless_blank false c ds = c ∷ ds

unfoldable pub trim_right : List ℕ → List ℕ
trim_right [] = []
trim_right (c ∷ cs) = keep_unless_blank (is_space c) c (trim_right cs)

-- strings.TrimSpace
unfoldable pub trim_space : List ℕ → List ℕ
unfolding trim_left trim_right is_space
trim_space s = trim_right (trim_left s)

-- strings.ReplaceAll(s, c, "")
abbrev pub remove : ℕ → List ℕ → List ℕ
remove c = select (λ d. not (nat_beq d c))

abbrev pub rune_bytes : ℕ → ℕ
rune_bytes c = if ltb c 0x80 then 1 else if ltb c 0x800 then 2 else if ltb c 0x10000 then 3 else 4

abbrev pub byte_length : List ℕ → ℕ
byte_length [] = 0
byte_length (c ∷ cs) = rune_bytes c + byte_length cs

abbrev pub is_digit : ℕ → Bool
is_digit c = leb b'0' c && leb c b'9'

abbrev pub all_digits : List ℕ → Bool
all_digits [] = true
all_digits (c ∷ cs) = is_digit c && all_digits cs

-- `none` stands for ErrInvalidCode.
unfoldable pub normalize_code : List ℕ → Option (List ℕ)
unfolding trim_space
normalize_code raw =
    let normalized = remove b' ' (remove b'-' (trim_space raw)) in
    if nat_beq (byte_length normalized) 6
    then (if all_digits normalized then some normalized else none)
    else none

abbrev pub digit_at : ℕ → ℕ → ℕ
digit_at v p = b'0' + v / p % 10

-- `%06d` of a number below 1000000: six decimal digits.
unfoldable pub format_code : ℕ → List ℕ
format_code v =
    digit_at v 100000
    ∷ digit_at v 10000
    ∷ digit_at v 1000
    ∷ digit_at v 100
    ∷ digit_at v 10
    ∷ digit_at v 1
    ∷ []

-- The code for a number that `rand.Int` drew below 900000, or `none` where the source failed.
unfoldable pub generate_code : Option ℕ → Option (List ℕ)
unfolding format_code
generate_code none = none
generate_code (some n) = some (format_code (n + 100000))
