-- ===== src/Resp/Build.antt =====
-- src/resp/util.go: the replies, and the form in which clients send commands.
use skiffdb.Prelude.{Option, none, some, List, [], ◌∷◌, ◌++◌, ◌≡◌, refl, Bytes, codes, length}
use skiffdb.Prelude.Int.{ℤ, pos}
use skiffdb.Go.Strconv.{itoa}

abbrev pub RedisErrorCode : Type 0
RedisErrorCode = Bytes

abbrev pub err_generic : RedisErrorCode
err_generic = codes "ERROR"

abbrev pub err_wrong_type : RedisErrorCode
err_wrong_type = codes "WRONGTYPE"

abbrev pub err_read_only : RedisErrorCode
err_read_only = codes "READONLY"

-- `Separator`.
abbrev pub separator : Bytes
separator = 13 ∷ 10 ∷ []

unfoldable pub build_simple_string : Bytes → Bytes
build_simple_string value = b'+' ∷ (value ++ separator)

unfoldable pub build_error_msg : RedisErrorCode → Bytes → Bytes
build_error_msg code msg = b'-' ∷ (code ++ (b' ' ∷ (msg ++ separator)))

unfoldable pub build_bulk_string : Option Bytes → Bytes
build_bulk_string none = codes "$-1\r\n"
build_bulk_string (some ret) = b'$' ∷ (itoa (pos (length ret)) ++ (separator ++ (ret ++ separator)))

unfoldable pub build_integer : ℤ → Bytes
build_integer value = b':' ∷ (itoa value ++ separator)

-- The loop of `BuildArray`.
unfoldable pub build_elements : List Bytes → Bytes
build_elements [] = []
build_elements (val ∷ vals) = build_bulk_string (some val) ++ build_elements vals

unfoldable pub build_array : Option (List Bytes) → Bytes
build_array none = codes "*-1\r\n"
build_array (some ret) = b'*' ∷ (itoa (pos (length ret)) ++ (separator ++ build_elements ret))

-- The replies that are variables of the package.
abbrev pub ok_reply : Bytes
ok_reply = build_simple_string (codes "OK")

abbrev pub pong : Bytes
pong = build_simple_string (codes "PONG")

abbrev pub err_no_command_specified : Bytes
err_no_command_specified = build_error_msg err_generic (codes "No command specified")

abbrev pub err_command_format_error : Bytes
err_command_format_error = build_error_msg err_generic (codes "Command format error")

abbrev pub err_wrong_data_type : Bytes
err_wrong_data_type = build_error_msg err_wrong_type (codes "Wrong data type")

abbrev pub err_command_unsupported : Bytes
err_command_unsupported = build_error_msg err_generic (codes "Command Unsupported")

abbrev pub err_internal : Bytes
err_internal = build_error_msg err_generic (codes "System error. Please try again.")

abbrev pub err_invalid_command : Bytes
err_invalid_command = build_error_msg err_generic (codes "Invalid command")

abbrev pub err_write_not_allowed : Bytes
err_write_not_allowed = build_error_msg err_read_only (codes "writes allowed only on leader")

array_example :
    build_array (some (codes "GET" ∷ codes "key" ∷ [])) ≡ codes "*2\r\n$3\r\nGET\r\n$3\r\nkey\r\n"
unfolding build_array build_elements build_bulk_string itoa
array_example = refl
