-- ===== src/Secrets/Age.antt =====
-- internal/secrets/age.go: the sizes of age files, and the check of an age file in a base64 field.
-- An int64 is a natural number here: the sizes that the callers pass are not negative, and no sum
-- reaches the bound of an int64 for a size below 2 ^ 62.
use flick_drop.Base.{ℕ, zero, suc, ◌+◌, ◌-◌, ◌*◌, ◌/◌, ltb, leb, if◌then◌else◌}

abbrev pub age_header_allowance_bytes : ℕ
age_header_allowance_bytes = 4096

abbrev pub age_chunk_bytes : ℕ
age_chunk_bytes = 65536

abbrev pub age_tag_bytes : ℕ
age_tag_bytes = 16

abbrev pub age_payload_nonce_bytes : ℕ
age_payload_nonce_bytes = 16

abbrev pub max_wrapped_identity_bytes : ℕ
max_wrapped_identity_bytes = 1024

abbrev pub max_encrypted_filename_bytes : ℕ
max_encrypted_filename_bytes = 8192

abbrev pub max_content_type_bytes : ℕ
max_content_type_bytes = 255

-- The chunks of a text of n bytes, the last one started or full.
abbrev pub started_chunks : ℕ → ℕ
started_chunks n = (n + age_chunk_bytes - 1) / age_chunk_bytes

abbrev pub at_least_one : ℕ → ℕ
at_least_one n = if ltb n 1 then 1 else n

unfoldable pub max_ciphertext_bytes : ℕ → ℕ
max_ciphertext_bytes n =
    age_header_allowance_bytes
    + age_payload_nonce_bytes
    + n
    + age_tag_bytes * at_least_one (started_chunks n)

-- The loop steps up while one more byte fits, at most as often as the first argument says.
unfoldable pub step_up : ℕ → ℕ → ℕ → ℕ
step_up zero c n = n
step_up (suc fuel) c n =
    let rest = step_up fuel c (suc n) in if leb (max_ciphertext_bytes (suc n)) c then rest else n

-- Where the loop starts.
unfoldable pub plaintext_estimate : ℕ → ℕ
plaintext_estimate c =
    c - age_header_allowance_bytes - age_payload_nonce_bytes - age_tag_bytes * started_chunks c

-- No plaintext that fits in c bytes is longer than c, so that c steps are enough.
unfoldable pub max_plaintext_bytes : ℕ → ℕ
unfolding max_ciphertext_bytes plaintext_estimate step_up
max_plaintext_bytes c =
    if ltb c (max_ciphertext_bytes 0) then 0 else step_up c c (plaintext_estimate c)
