-- ===== src/Socks5/Messages.antt =====
-- socks5d/lib/socks5/socks5_messages.c. A builder is given the number of bytes that it may write,
-- and gives those that it writes from `buffer[0]` on; it returns how many they are.
use protos.Base.{ℕ, ◌-◌, ◌%◌, Bool, List, [], ◌∷◌, ltb, if◌then◌else◌}
use protos.Base.Int.{ℤ, pos, negsuc}

abbrev pub protocol_version : ℕ
protocol_version = 0x05

abbrev pub auth_negotiation_version : ℕ
auth_negotiation_version = 0x01

abbrev pub auth_success : ℕ
auth_success = 0x00

abbrev pub auth_failed : ℕ
auth_failed = 0xFF

-- `BuildHelloResponse`
unfoldable pub build_hello_response : ℕ → ℕ → List ℕ
build_hello_response length method =
    if ltb length 2 then [] else protocol_version ∷ (method % 256) ∷ []

-- `BuildAuthResponse`
unfoldable pub build_auth_response : ℕ → Bool → List ℕ
build_auth_response length succeeded =
    if ltb length 2
    then []
    else auth_negotiation_version ∷ (if succeeded then auth_success else auth_failed) ∷ []

-- The byte that an `int` is stored as.
unfoldable pub to_byte : ℤ → ℕ
to_byte (pos n) = n % 256
to_byte (negsuc n) = 255 - n % 256

-- `BuildRequestResponse`
unfoldable pub build_request_response : ℕ → ℤ → List ℕ
unfolding to_byte
build_request_response length reply =
    if ltb length 10
    then []
    else protocol_version ∷ to_byte reply ∷ 0 ∷ 0x01 ∷ 0 ∷ 0 ∷ 0 ∷ 0 ∷ 0 ∷ 0 ∷ []
