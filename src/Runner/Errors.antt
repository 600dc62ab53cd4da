-- ===== src/Runner/Errors.antt =====
-- Results of commands, and the classes of their errors.
use fossilsafe_t.Prelude.{
  ℕ, String, Bool, not, ◌&&◌, ◌||◌, Option, none, some, if◌then◌else◌, ◌==◌, nat_eq, string_eq,
}
use fossilsafe_t.Prelude.Texts.{lower, has}
use Prim.Native.String.{◌++◌ as text_append}

pub data ErrorType : Type 0 where
  timeout : ErrorType
  permission_denied : ErrorType
  device_busy : ErrorType
  illegal_request : ErrorType
  transport : ErrorType
  not_ready : ErrorType
  unknown : ErrorType

abbrev pub error_name : ErrorType → String
error_name timeout = "timeout"
error_name permission_denied = "permission_denied"
error_name device_busy = "device_busy"
error_name illegal_request = "illegal_request"
error_name transport = "transport"
error_name not_ready = "not_ready"
error_name unknown = "unknown"

-- A code below zero, which a signal gives, is a number other than zero.
pub record CommandResult : Type 0 where
  pub stdout : String
  pub stderr : String
  pub returncode : ℕ
  pub timed_out : Bool
  pub error_type : Option ErrorType

abbrev pub class_of : String → ErrorType
class_of combined =
    if has "permission denied" combined
    then permission_denied
    else if has "device busy" combined || has "resource busy" combined
    then device_busy
    else if has "illegal request" combined || has "read element status" combined
    then illegal_request
    else if has "transport error" combined
        || (has "connection timed out" combined || has "timed out" combined)
    then transport
    else if has "not ready" combined || has "not present" combined
    then not_ready
    else unknown

unfoldable pub classify_error : String → String → ℕ → Bool → Option ErrorType
unfolding lower has
classify_error stdout stderr returncode timed_out =
    if timed_out
    then some timeout
    else if returncode == 0
    then none
    else some (class_of (lower (text_append stderr (text_append "\n" stdout))))

-- `returncode == 0 and not timed_out`
abbrev pub is_success : CommandResult → Bool
is_success r = r.returncode == 0 && not r.timed_out
