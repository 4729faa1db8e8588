-- ===== src/Status.antt =====
-- include/status.hpp: the result of an operation.
-- A status is a null `state_` or an array that holds a code and a message. The constructor that
-- lays this array out, `CopyState` and `ToString` are declared there and defined nowhere in the
-- repository, so the state is the record of the arguments the constructor is given.
use level_db.Prelude.{
  ℕ, ◌==◌, ◌+◌, ◌≤◌, ◌≡◌, ◌⊎◌, arith, if◌then◌else◌, Bool, true, false, Option, none, some, Bytes,
}

pub data Code : Type 0 where
  ok_code not_found_code corruption_code not_supported_code invalid_argument_code io_error_code :
      Code

pub record State : Type 0 where
  pub code : Code
  pub msg : Bytes
  pub msg2 : Bytes

pub record Status : Type 0 where
  pub state : Option State

-- `Status::Ok()` and the default constructor.
abbrev pub ok_status : Status
ok_status = record { state = none }

abbrev pub error : Code → Bytes → Bytes → Status
error c msg msg2 = record { state = some (record { code = c; msg = msg; msg2 = msg2 }) }

abbrev pub not_found : Bytes → Bytes → Status
not_found = error Code.not_found_code

abbrev pub corruption : Bytes → Bytes → Status
corruption = error Code.corruption_code

abbrev pub not_supported : Bytes → Bytes → Status
not_supported = error Code.not_supported_code

abbrev pub invalid_argument : Bytes → Bytes → Status
invalid_argument = error Code.invalid_argument_code

abbrev pub io_error : Bytes → Bytes → Status
io_error = error Code.io_error_code

abbrev pub is_null : Option State → Bool
is_null none = true
is_null (some _) = false

abbrev pub ok : Status → Bool
ok s = is_null s.state

abbrev code_of : Option State → Code
code_of none = Code.ok_code
code_of (some s) = s.code

abbrev pub code : Status → Code
code s = code_of s.state

-- The values of the enumeration.
abbrev number_of : Code → ℕ
number_of Code.ok_code = 0
number_of Code.not_found_code = 1
number_of Code.corruption_code = 2
number_of Code.not_supported_code = 3
number_of Code.invalid_argument_code = 4
number_of Code.io_error_code = 5

abbrev is_code : Code → Status → Bool
is_code c s = number_of (code s) == number_of c

is_not_found : Status → Bool
is_not_found = is_code Code.not_found_code

is_corruption : Status → Bool
is_corruption = is_code Code.corruption_code

is_io_error : Status → Bool
is_io_error = is_code Code.io_error_code

is_not_supported_error : Status → Bool
is_not_supported_error = is_code Code.not_supported_code

is_invalid_argument : Status → Bool
is_invalid_argument = is_code Code.invalid_argument_code

-- A copy shares nothing with the original, and an assignment of a status to itself keeps it.
abbrev pub assign : Status → Status → Status
assign this s = record this { state = s.state }

abbrev one : Bool → ℕ
one b = if b then 1 else 0

-- How many of the five tests for an error hold.
abbrev errors_of : Status → ℕ
errors_of s =
    one (is_not_found s)
    + one (is_corruption s)
    + one (is_io_error s)
    + one (is_not_supported_error s)
    + one (is_invalid_argument s)

-- A status that was not made with the code of a success is of exactly one kind: it is a success,
-- or one of the five tests for errors holds.
errors-ok :
    (s : Status) → (s.state ≡ none) ⊎ (1 ≤ number_of (code s)) → one (ok s) + errors_of s ≡ 1
unfolding is_not_found is_corruption is_io_error is_not_supported_error is_invalid_argument
errors-ok s h = ground arith
