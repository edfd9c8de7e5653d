-- ===== src/Common/Ids.antt =====
-- Correlation identifiers: src/text_to_sql/common/ids.py. A fresh identifier (`uuid4().hex`) is a
-- parameter.
use Prim.Native.Char.{Char, code}
use build_your_own_text2sql.Base.{
  ℕ, zero, suc, ◌≤◌, String, Bool, true, false, ◌&&◌, ◌||◌, ◌≡◌, ◌⊎◌, inl, inr, refl, Option, none,
  some, arith, leb, ◌==◌, if◌then◌else◌, Bool-cases,
}
use build_your_own_text2sql.Base.Text.{◌+s◌, is_empty}

unfoldable pub new_request_id : String → String
new_request_id hex = "req_" +s hex

unfoldable pub new_correlation_id : String → String
new_correlation_id hex = "corr_" +s hex

-- `[A-Za-z0-9_.:-]`
abbrev pub is_safe : Char → Bool
is_safe c =
    leb b'A' (code c) && leb (code c) b'Z'
    || leb b'a' (code c) && leb (code c) b'z'
    || leb b'0' (code c) && leb (code c) b'9'
    || code c == b'_'
    || code c == b'.'
    || code c == b':'
    || code c == b'-'

-- `_SAFE_ID.sub("", value)`
keep_safe : String → String
keep_safe String.[] = String.[]
keep_safe (String.◌∷◌ c s) = if is_safe c then String.◌∷◌ c (keep_safe s) else keep_safe s

-- `s[:n]`
take_chars : ℕ → String → String
take_chars zero s = String.[]
take_chars (suc n) String.[] = String.[]
take_chars (suc n) (String.◌∷◌ c s) = String.◌∷◌ c (take_chars n s)

abbrev pub max_id_len : ℕ
max_id_len = 128

cleaned_or : String → String → String
cleaned_or hex cleaned = if is_empty cleaned then new_correlation_id hex else cleaned

pub sanitize_correlation_id : String → Option String → String
sanitize_correlation_id hex none = new_correlation_id hex
sanitize_correlation_id hex (some value) =
    if is_empty value
    then new_correlation_id hex
    else cleaned_or hex (take_chars max_id_len (keep_safe value))

sanitize_runs : sanitize_correlation_id "0" (some "a b\nc") ≡ "abc"
unfolding sanitize_correlation_id keep_safe take_chars cleaned_or
sanitize_runs = refl

-- Every character is in the allowlist.
abbrev pub all_safe : String → Bool
all_safe String.[] = true
all_safe (String.◌∷◌ c s) = is_safe c && all_safe s

abbrev pub char_count : String → ℕ
char_count String.[] = 0
char_count (String.◌∷◌ c s) = suc (char_count s)

all_safe-keep_safe : (s : String) → all_safe (keep_safe s) ≡ true
unfolding keep_safe
all_safe-keep_safe String.[] = refl
all_safe-keep_safe (String.◌∷◌ c s) = elim (Bool-cases (is_safe c)) [
  | inl safe ↦ rw safe (rw safe (all_safe-keep_safe s))
  | inr unsafe ↦ rw unsafe (all_safe-keep_safe s)
]

all_safe-take_chars : (n : ℕ) (s : String) → all_safe s ≡ true → all_safe (take_chars n s) ≡ true
unfolding take_chars
all_safe-take_chars zero s h = refl
all_safe-take_chars (suc n) String.[] h = refl
all_safe-take_chars (suc n) (String.◌∷◌ c s) h = elim (Bool-cases (is_safe c)) [
  | inl safe ↦ rw safe (all_safe-take_chars n s (rw safe at h))
  | inr unsafe ↦ cc (rw unsafe at h)
]

char_count-take_chars : (n : ℕ) (s : String) → char_count (take_chars n s) ≤ n
unfolding take_chars
char_count-take_chars zero s = omega arith
char_count-take_chars (suc n) String.[] = omega arith
char_count-take_chars (suc n) (String.◌∷◌ c s) = omega (arith, char_count-take_chars n s)

-- A sanitized identifier: a fresh one, or a text of allowed characters, 128 at most, not empty.
abbrev pub IsSanitized : String → String → Type 0
IsSanitized hex s =
    (s ≡ new_correlation_id hex)
    ⊎ ((all_safe s ≡ true) × (char_count s ≤ max_id_len) × (is_empty s ≡ false))

cleaned_or-IsSanitized :
    (hex cleaned : String)
    → all_safe cleaned ≡ true
    → char_count cleaned ≤ max_id_len
    → IsSanitized hex (cleaned_or hex cleaned)
unfolding cleaned_or
cleaned_or-IsSanitized hex cleaned safe short = elim (Bool-cases (is_empty cleaned)) [
  | inl empty ↦ rw empty (inl refl)
  | inr full ↦ rw full (inr (safe, short, full))
]

-- Whatever a client sends, the identifier that is used is a fresh one, or consists of allowed
-- characters, 128 at most, and is not empty.
pub sanitize_correlation_id-IsSanitized :
    (hex : String) (value : Option String) → IsSanitized hex (sanitize_correlation_id hex value)
unfolding sanitize_correlation_id
sanitize_correlation_id-IsSanitized hex none = inl refl
sanitize_correlation_id-IsSanitized hex (some value) = elim (Bool-cases (is_empty value)) [
  | inl empty ↦ rw empty (inl refl)
  | inr full ↦ rw full (
      cleaned_or-IsSanitized hex _
        (all_safe-take_chars max_id_len (keep_safe value) (all_safe-keep_safe value))
        (char_count-take_chars max_id_len (keep_safe value)))
]
