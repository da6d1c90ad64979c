-- ===== src/Startup/Logging.antt =====
-- NewLogger of backend/utils/logger.go, with the settings that depend on the level. The library's
-- parser of levels is a parameter.
use distributed_benchmark_pl.Base.{String, Bool, true, false, Option, none, some}
use distributed_benchmark_pl.Exec.{Exec, pure, call, ◌>>◌}
use distributed_benchmark_pl.Startup.Actions.{
  opened, logger, build_logger, Stop, panics, Process, Machine, act,
}

-- The levels of package zapcore.
pub data Level : Type 0 where
  debug_level info_level warn_level error_level dpanic_level panic_level fatal_level : Level

-- The fields of zap.Config that vary.
pub record ZapConfig : Type 0 where
  pub level : Level
  pub encoding : String
  pub development : Bool
  pub colored_levels : Bool

unfoldable pub level_of : (String → Option Level) → String → Level
level_of parse_level level = elim (parse_level level) [ none ↦ info_level | some l ↦ l ]

unfoldable pub zap_config : Level → ZapConfig
zap_config debug_level = record {
  level = debug_level;
  encoding = "console";
  development = true;
  colored_levels = true;
}
zap_config l = record { level = l; encoding = "json"; development = false; colored_levels = false }

-- A logger that cannot be built is a panic.
unfoldable pub new_logger : (String → Option Level) → Machine → String → Exec Process Stop ZapConfig
new_logger parse_level m level = do
  call (m.fault build_logger) panics (λ s. (tt, s))
  act (opened logger)
  pure (zap_config (level_of parse_level level))
