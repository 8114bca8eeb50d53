-- ===== src/Logging/Tests.antt =====
-- The results on the logger of apps/create_logger at concrete inputs.
use communicate_between_proc.Prelude.{◌≡◌, refl, true, false, [], ◌∷◌, ◌++◌, codes}
use communicate_between_proc.Logging.{
  Log, debug, info, warn, log, format_log, format_first, find_next, seek, set_level, log_info,
}
use communicate_between_proc.Logging.Render.{lacks, plain, log-render}

abbrev at_start : Log
at_start = record { curr_level = debug; output = [] }

-- The last call of `main`.
log-render_example :
    log info (codes "first: {}, second: {}") (codes "10" ∷ codes "2.000000" ∷ []) at_start ≡ (
      true,
      record { curr_level = debug; output = codes "first: 10, second: 2.000000" ++ (10 ∷ []) },
    )
unfolding lacks plain
log-render_example =
    log-render info (codes "first: ") ([], codes ", second: ") (([], []) ∷ []) (codes "10")
      (codes "2.000000" ∷ []) at_start refl

-- A placeholder without an argument: the text up to it is written all the same, without an end of the line.
too_few_arguments :
    log info (codes "{} {}") (codes "1" ∷ []) at_start
    ≡ (false, record { curr_level = debug; output = codes "1 " })
unfolding log format_log format_first find_next seek
too_few_arguments = refl

-- A placeholder that does not end.
open_placeholder :
    log info (codes "a{") (codes "1" ∷ []) at_start
    ≡ (false, record { curr_level = debug; output = codes "a1" })
unfolding log format_log format_first find_next seek
open_placeholder = refl

below_level :
    log_info (codes "{}") (codes "1" ∷ []) (set_level warn at_start)
    ≡ (true, set_level warn at_start)
unfolding log_info log set_level
below_level = refl
