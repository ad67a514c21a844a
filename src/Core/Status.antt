-- ===== src/Core/Status.antt =====
-- d4np/core/d4np_status.h and d4np_status.c.
use egl_utils_c.Base.{ℕ, ◌==◌, if◌then◌else◌}
use Prim.Native.String.{String}

-- d4np_status_t
pub data Status : Type 0 where
  ok invalid_argument out_of_memory overflow not_found io again unsupported internal : Status

-- The value of an enumerator.
unfoldable pub code : Status → ℕ
code ok = 0
code invalid_argument = 1
code out_of_memory = 2
code overflow = 3
code not_found = 4
code io = 5
code again = 6
code unsupported = 7
code internal = 8

-- d4np_status_str: the switch is over the integer, and a value that is no enumerator leaves it.
unfoldable pub status_str : ℕ → String
status_str n =
    if n == 0
    then "D4NP_OK"
    else if n == 1
    then "D4NP_ERR_INVALID_ARGUMENT"
    else if n == 2
    then "D4NP_ERR_OUT_OF_MEMORY"
    else if n == 3
    then "D4NP_ERR_OVERFLOW"
    else if n == 4
    then "D4NP_ERR_NOT_FOUND"
    else if n == 5
    then "D4NP_ERR_IO"
    else if n == 6
    then "D4NP_ERR_AGAIN"
    else if n == 7
    then "D4NP_ERR_UNSUPPORTED"
    else if n == 8
    then "D4NP_ERR_INTERNAL"
    else "D4NP_ERR_UNKNOWN"
