-- ===== src/Cmdline.antt =====
-- kernel/cmdline.c: the scan of the kernel's command line for a word. A string is the list of its
-- characters up to the NUL, none of which is 0; the end of the list is the NUL. strncmp is that of
-- kernel/string.c, of which the scan only uses whether the answer is 0.
pub mod Words
pub mod Tests
use aurora_os.Prelude.{
  ℕ, zero, suc, Bool, true, false, ◌&&◌, Option, none, some, List, [], ◌∷◌, length, take, drop, ltb,
  leb, ◌-◌, ◌==◌, if◌then◌else◌,
}

abbrev pub space : ℕ
space = 32

-- `strncmp(a, b, n) == 0`
unfoldable pub strncmp_equal : List ℕ → List ℕ → ℕ → Bool
strncmp_equal a b zero = true
strncmp_equal [] [] (suc n) = true
strncmp_equal [] (y ∷ b) (suc n) = false
strncmp_equal (x ∷ a) [] (suc n) = false
strncmp_equal (x ∷ a) (y ∷ b) (suc n) =
    let rest = strncmp_equal a b n in if x == y then rest else false

-- `while (*p == ' ') p++;`
unfoldable pub skip_spaces : List ℕ → List ℕ
skip_spaces [] = []
skip_spaces (c ∷ rest) = let later = skip_spaces rest in if c == space then later else c ∷ rest

-- `while (*end && *end != ' ') end++;`, and `end - p`.
unfoldable pub word_length : List ℕ → ℕ
word_length [] = 0
word_length (c ∷ rest) = let later = word_length rest in if c == space then 0 else suc later

-- `p = end; if (*p == ' ') p++;`
unfoldable pub next_word : List ℕ → List ℕ
next_word [] = []
next_word (c ∷ rest) = if c == space then rest else c ∷ rest

-- The loop of cmdline_has_flag, for up to `fuel` words; `none` says that it has not ended.
unfoldable pub cmdline_has_flag : ℕ → List ℕ → List ℕ → Option Bool
cmdline_has_flag fuel flag [] = some false
cmdline_has_flag zero flag (c ∷ rest) = none
cmdline_has_flag (suc fuel) flag (c ∷ rest) =
    let p = skip_spaces (c ∷ rest) in
    let wlen = word_length p in
    let later = cmdline_has_flag fuel flag (next_word (drop wlen p)) in
    if length p == 0
    then some false
    else if wlen == length flag && strncmp_equal p flag (length flag)
    then some true
    else later

-- `p[klen] == '='`
abbrev pub starts_value : List ℕ → Bool
starts_value [] = false
starts_value (c ∷ rest) = c == 61

-- The loop of cmdline_get_option: the rest of the line from the value on, `some none` for NULL.
unfoldable pub cmdline_get_option : ℕ → List ℕ → List ℕ → Option (Option (List ℕ))
cmdline_get_option fuel key [] = some none
cmdline_get_option zero key (c ∷ rest) = none
cmdline_get_option (suc fuel) key (c ∷ rest) =
    let p = skip_spaces (c ∷ rest) in
    let wlen = word_length p in
    let later = cmdline_get_option fuel key (next_word (drop wlen p)) in
    if length p == 0
    then some none
    else if ltb (length key) wlen
        && strncmp_equal p key (length key)
        && starts_value (drop (length key) p)
    then some (some (drop (suc (length key)) p))
    else later

abbrev pub cmdline_max_len : ℕ
cmdline_max_len = 256

-- cmdline_set(cmdline), on the stored line; `none` for NULL.
unfoldable pub cmdline_set : Option (List ℕ) → List ℕ → List ℕ
cmdline_set none stored = stored
cmdline_set (some cmdline) stored =
    let len = length cmdline in
    take (if leb cmdline_max_len len then cmdline_max_len - 1 else len) cmdline

unfoldable pub cmdline_init : Option (List ℕ) → List ℕ → List ℕ
unfolding cmdline_set
cmdline_init none stored = stored
cmdline_init (some default_cmdline) stored = cmdline_set (some default_cmdline) stored
