-- ===== src/ErrorCode.antt =====
-- ecs/core/error_code.h and error_code.cpp: the error codes of the engine and their messages.
use Prim.Native.String.{String}
use engi_cs.Base.{ℕ, ◌≡◌, ◌==◌, if◌then◌else◌, arith}
use engi_cs.Base.Int.{ℤ, pos, negsuc}

pub data EcsErrc : Type 0 where
  success out_of_bounds buffer_overflow : EcsErrc
  invalid_encoding unsupported_encoding conversion_error : EcsErrc
  loop_stopped invalid_thread_token invalid_thread_type queue_full invalid_queue_type : EcsErrc
  not_available_window retry unsuppot_shader_type vertex_shader_not_found unknown_error : EcsErrc

-- The enumerators' values: `static_cast<int>`, as `make_error_code` stores it.
unfoldable pub make_error_code : EcsErrc → ℤ
make_error_code success = pos 0
make_error_code out_of_bounds = pos 1
make_error_code buffer_overflow = pos 2
make_error_code invalid_encoding = pos 3
make_error_code unsupported_encoding = pos 4
make_error_code conversion_error = pos 5
make_error_code loop_stopped = pos 6
make_error_code invalid_thread_token = pos 7
make_error_code invalid_thread_type = pos 8
make_error_code queue_full = pos 9
make_error_code invalid_queue_type = pos 10
make_error_code not_available_window = pos 11
make_error_code retry = pos 12
make_error_code unsuppot_shader_type = pos 13
make_error_code vertex_shader_not_found = pos 14
make_error_code unknown_error = negsuc 0

abbrev message_of : ℕ → String
message_of n =
    if n == 0
    then "Success"
    else if n == 1
    then "Out of bounds"
    else if n == 3
    then "Invalid encoding"
    else if n == 4
    then "The specified encoding is not supported"
    else if n == 5
    then "Character encoding/decoding failed"
    else if n == 6
    then "Loop is stopped"
    else if n == 7
    then "Invalid thread token"
    else if n == 8
    then "Invalid thread type"
    else if n == 9
    then "Task queue Full"
    else if n == 11
    then "Not available window"
    else if n == 12
    then "Retry"
    else if n == 13
    then "Shader type not suppot"
    else if n == 14
    then "Vertex shader not found"
    else if n == 10
    then "Invalid queue type"
    else "Unknown"

-- `EcsCategory::message`: the value of no enumerator, -1 and `BufferOverflow` take the default.
unfoldable pub message : ℤ → String
message (pos n) = message_of n
message (negsuc n) = "Unknown"

-- Two error codes are told apart by their values.
pub make_error_code-injective : (a b : EcsErrc) → make_error_code a ≡ make_error_code b → a ≡ b
unfolding make_error_code
make_error_code-injective a b h = ground arith
