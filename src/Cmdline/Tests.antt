-- ===== src/Cmdline/Tests.antt =====
-- Runs of kernel/cmdline.c, and the theorem at one.
use aurora_os.Prelude.{ℕ, ◌≡◌, refl, true, false, some, List, [], ◌∷◌, arith}
use aurora_os.Cmdline.{
  cmdline_has_flag, cmdline_get_option, skip_spaces, word_length, next_word, strncmp_equal,
}
use aurora_os.Cmdline.Words.{split, mentions, cmdline_has_flag-mentions}

-- ` r=7  quiet`
abbrev line : List ℕ
line = 32 ∷ 114 ∷ 61 ∷ 55 ∷ 32 ∷ 32 ∷ 113 ∷ 117 ∷ 105 ∷ 101 ∷ 116 ∷ []

abbrev quiet : List ℕ
quiet = 113 ∷ 117 ∷ 105 ∷ 101 ∷ 116 ∷ []

flags :
    (cmdline_has_flag 11 quiet line ≡ some true)
    × (cmdline_has_flag 11 (113 ∷ []) line ≡ some false)
unfolding cmdline_has_flag skip_spaces word_length next_word strncmp_equal
flags = (refl, refl)

options : cmdline_get_option 11 (114 ∷ []) line ≡ some (some (55 ∷ 32 ∷ 32 ∷ quiet))
unfolding cmdline_get_option skip_spaces word_length next_word strncmp_equal
options = refl

cmdline_has_flag-mentions_example :
    cmdline_has_flag 11 quiet line ≡ some (mentions quiet (split line))
cmdline_has_flag-mentions_example = cmdline_has_flag-mentions 11 quiet line (omega arith)
