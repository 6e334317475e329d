-- ===== src/Logging/Tests.antt =====
-- Runs of the logger.
use mtnet.Prelude.{◌≡◌, ◌*◌, ◌≤◌, refl, List, [], ◌∷◌, length, arith}
use mtnet.Logging.{level_trace, level_info, level_error, default_log_level, log, log_debug}
use mtnet.Logging.Levels.{Call, print_all, print_all-at_least}

debug_is_silent : log_debug default_log_level (65 ∷ []) ≡ []
unfolding log_debug
debug_is_silent = refl

abbrev calls : List Call
calls = (level_trace, 65 ∷ []) ∷ (level_info, 66 ∷ []) ∷ (level_error, 67 ∷ 68 ∷ []) ∷ []

calls_printed : print_all default_log_level calls ≡ 66 ∷ 32 ∷ 10 ∷ 67 ∷ 68 ∷ 32 ∷ 10 ∷ []
unfolding log
calls_printed = refl

print_all-at_least_example :
    (print_all level_error calls ≡ print_all level_trace ((level_error, 67 ∷ 68 ∷ []) ∷ []))
    × (print_all level_error calls ≡ 67 ∷ 68 ∷ 32 ∷ 10 ∷ [])
    × (length (print_all level_error calls) ≤ 513 * 1)
print_all-at_least_example = print_all-at_least level_trace level_error calls (omega arith)
