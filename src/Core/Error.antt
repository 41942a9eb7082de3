-- ===== src/Core/Error.antt =====
-- include/maxql/core/error.h.
use maxql.Prelude.{Bool, true, false}
use Prim.Native.String.{String}

pub data ErrorCode : Type 0 where
  err_ok err_internal err_lexer err_parser err_validator err_analyzer : ErrorCode
  err_planner err_executor err_storage err_memory err_index : ErrorCode

pub data ErrorSeverity : Type 0 where
  normal fatal : ErrorSeverity

-- The message without what `vsnprintf` puts in.
pub record Error : Type 0 where
  pub code : ErrorCode
  pub severity : ErrorSeverity
  pub msg : String

abbrev pub error_ok : Error
error_ok = record { code = err_ok; severity = normal; msg = "" }

abbrev pub error_fmt : ErrorCode → String → Error
error_fmt code msg = record { code = code; severity = normal; msg = msg }

abbrev pub error_fatal_fmt : ErrorCode → String → Error
error_fatal_fmt code msg = record { code = code; severity = fatal; msg = msg }

abbrev pub is_ok_code : ErrorCode → Bool
is_ok_code err_ok = true
is_ok_code _ = false

abbrev pub error_is_ok : Error → Bool
error_is_ok e = is_ok_code e.code

abbrev pub is_normal : ErrorSeverity → Bool
is_normal normal = true
is_normal fatal = false

abbrev pub error_is_fatal : Error → Bool
error_is_fatal e = elim (is_normal e.severity) [ true ↦ false | false ↦ true ]
