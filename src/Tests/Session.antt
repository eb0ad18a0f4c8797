-- ===== src/Tests/Session.antt =====
-- The theorems on a session's changes and on strings with a length at concrete inputs.
use rust_mysql_common.Base.{◌≡◌, some, [], ◌∷◌, ◌++◌, arith}
use rust_mysql_common.Base.Bytes.{Bytes}
use rust_mysql_common.Base.Result.{ok}
use rust_mysql_common.Io.BufMut.{vec_buf_mut}
use rust_mysql_common.Constants.{session_track_system_variables}
use rust_mysql_common.Packets.SessionState.{
  SessionStateChange, system_variables, session_state_change, serialize_change,
}
use rust_mysql_common.Packets.SessionState.RoundTrip.{variables, session_state_change-reads}

-- `a = 1` and `b` without a value.
abbrev two_variables : SessionStateChange
two_variables =
    system_variables (
      record { name = b'a' ∷ []; value = b'1' ∷ [] } ∷ record { name = b'b' ∷ []; value = [] } ∷ [])

session_state_change-reads_example :
    (written : Bytes) × ((buf : Bytes)
      → serialize_change vec_buf_mut two_variables buf ≡ buf ++ written)
    × (session_state_change vec_buf_mut session_track_system_variables written
        ≡ some (ok (two_variables, [])))
session_state_change-reads_example =
    session_state_change-reads vec_buf_mut session_track_system_variables two_variables
      (variables _ ((omega arith, omega arith), ((omega arith, omega arith), tt)))
