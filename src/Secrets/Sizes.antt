-- ===== src/Secrets/Sizes.antt =====
-- The sizes of internal/secrets/age.go.
use flick_drop.Base.{ℕ, zero, suc, ◌+◌, ◌≤◌, ◌<◌, ◌≡◌, arith, ◌↔◌, ◌⊎◌, inr}
use flick_drop.Secrets.Age.{max_ciphertext_bytes, step_up, plaintext_estimate, max_plaintext_bytes}

max_ciphertext_bytes-le : (n m : ℕ) → n ≤ m → max_ciphertext_bytes n ≤ max_ciphertext_bytes m
unfolding max_ciphertext_bytes
max_ciphertext_bytes-le n m h = ground arith

estimate-fits :
    (c : ℕ) → max_ciphertext_bytes 0 ≤ c → max_ciphertext_bytes (plaintext_estimate c) ≤ c
unfolding max_ciphertext_bytes plaintext_estimate
estimate-fits c h = ground arith

step_up-fits :
    (fuel c n : ℕ) → max_ciphertext_bytes n ≤ c → max_ciphertext_bytes (step_up fuel c n) ≤ c
unfolding step_up
step_up-fits zero c n h = h
step_up-fits (suc fuel) c n h = ground (arith, step_up-fits fuel c (suc n))

-- The loop has ended by itself, or has taken all its steps.
step_up-ends :
    (fuel c n : ℕ)
    → (c < max_ciphertext_bytes (suc (step_up fuel c n))) ⊎ (step_up fuel c n ≡ n + fuel)
unfolding step_up
step_up-ends zero c n = inr (omega arith)
step_up-ends (suc fuel) c n = ground (arith, step_up-ends fuel c (suc n))

ciphertext-gt : (c n : ℕ) → c ≤ n → c < max_ciphertext_bytes (suc n)
unfolding max_ciphertext_bytes
ciphertext-gt c n h = ground arith

-- Where an empty plaintext fits, MaxPlaintextBytes inverts MaxCiphertextBytes: the plaintexts whose
-- age file fits in c bytes are those of at most MaxPlaintextBytes(c) bytes.
pub max_plaintext_bytes-inverse :
    (c n : ℕ)
    → max_ciphertext_bytes 0 ≤ c
    → (n ≤ max_plaintext_bytes c) ↔ (max_ciphertext_bytes n ≤ c)
unfolding max_plaintext_bytes
max_plaintext_bytes-inverse c n h =
    let m = step_up c c (plaintext_estimate c) in
    let fits = step_up-fits c c (plaintext_estimate c) (estimate-fits c h) in
    ground (
      arith,
      h,
      fits,
      step_up-ends c c (plaintext_estimate c),
      max_ciphertext_bytes-le n m,
      max_ciphertext_bytes-le (suc m) n,
      ciphertext-gt c m,
    )

-- Where one more byte than the loop's result does not fit, the result is the only such size.
largest_unique :
    (c n m : ℕ)
    → max_ciphertext_bytes n ≤ c
    → c < max_ciphertext_bytes (suc n)
    → max_ciphertext_bytes m ≤ c
    → c < max_ciphertext_bytes (suc m)
    → n ≡ m
largest_unique c n m fn en fm em =
    ground
      (arith, fn, en, fm, em, max_ciphertext_bytes-le (suc n) m, max_ciphertext_bytes-le (suc m) n)

fits-near-estimate :
    (c m : ℕ)
    → c ≤ 268435456
    → max_ciphertext_bytes 0 ≤ c
    → max_ciphertext_bytes m ≤ c
    → m ≤ plaintext_estimate c + 32
unfolding max_ciphertext_bytes plaintext_estimate
fits-near-estimate c m k h f = ground arith

step_up-leaves :
    (fuel c : ℕ)
    → c ≤ 268435456
    → max_ciphertext_bytes 0 ≤ c
    → 33 ≤ fuel
    → c < max_ciphertext_bytes (suc (step_up fuel c (plaintext_estimate c)))
step_up-leaves fuel c k h l =
    let n = plaintext_estimate c in
    let m = step_up fuel c n in
    ground (
      arith,
      h,
      k,
      l,
      step_up-ends fuel c n,
      fits-near-estimate c m k h (step_up-fits fuel c n (estimate-fits c h)),
    )

-- Up to the limit of 256 MiB on a stored object, and where an empty plaintext fits, the loop of
-- MaxPlaintextBytes ends by itself within 33 steps up: any larger number of steps gives the same
-- result.
pub max_plaintext_bytes-terminates :
    (fuel c : ℕ)
    → c ≤ 268435456
    → max_ciphertext_bytes 0 ≤ c
    → 33 ≤ fuel
    → step_up fuel c (plaintext_estimate c) ≡ max_plaintext_bytes c
max_plaintext_bytes-terminates fuel c k h l =
    let n = plaintext_estimate c in
    largest_unique c (step_up fuel c n) (max_plaintext_bytes c)
      (step_up-fits fuel c n (estimate-fits c h)) (step_up-leaves fuel c k h l)
      ((max_plaintext_bytes-inverse c (max_plaintext_bytes c) h).0 (omega arith))
      (grind (arith, (max_plaintext_bytes-inverse c (suc (max_plaintext_bytes c)) h).1))
