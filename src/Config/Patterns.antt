-- ===== src/Config/Patterns.antt =====
-- The regular expressions of internal/config/validate.go and store.go.
pub mod Hostname
pub mod Counted
use autodeploy_web.Base.{ℕ, Bool, Text, ◌&&◌, ◌||◌, leb, ◌==◌}
use autodeploy_web.Config.Regex.{Regex, matches, class, repeat, seq, opt}

unfoldable pub is_upper : ℕ → Bool
is_upper c = leb b'A' c && leb c b'Z'

unfoldable pub is_lower : ℕ → Bool
is_lower c = leb b'a' c && leb c b'z'

unfoldable pub is_digit : ℕ → Bool
is_digit c = leb b'0' c && leb c b'9'

unfoldable pub is_alnum : ℕ → Bool
unfolding is_lower is_upper is_digit
is_alnum c = is_lower c || is_upper c || is_digit c

unfoldable pub is_label : ℕ → Bool
unfolding is_alnum
is_label c = is_alnum c || c == b'-'

-- `^[a-zA-Z0-9]([a-zA-Z0-9-]{0,13}[a-zA-Z0-9])?$`
unfoldable pub hostname_re : Regex
hostname_re = seq (class is_alnum) (opt (seq (repeat 0 13 is_label) (class is_alnum)))

unfoldable pub is_base32 : ℕ → Bool
unfolding is_upper
is_base32 c = is_upper c || (leb b'2' c && leb c b'7')

-- `^[A-Z2-7]{16,32}$`
unfoldable pub base32_re : Regex
base32_re = repeat 16 16 is_base32

unfoldable pub is_hex : ℕ → Bool
unfolding is_digit
is_hex c = is_digit c || (leb b'a' c && leb c b'f') || (leb b'A' c && leb c b'F')

abbrev hyphen : Regex
hyphen = class (λ c. c == b'-')

-- `^[0-9a-fA-F]{8}-[0-9a-fA-F]{4}-[0-9a-fA-F]{4}-[0-9a-fA-F]{4}-[0-9a-fA-F]{12}$`
unfoldable pub guid_re : Regex
unfolding is_hex
guid_re = seq (repeat 8 0 is_hex) (
    seq hyphen (
      seq (repeat 4 0 is_hex) (
        seq hyphen (
          seq (repeat 4 0 is_hex)
            (seq hyphen (seq (repeat 4 0 is_hex) (seq hyphen (repeat 12 0 is_hex))))))))

unfoldable pub is_name_byte : ℕ → Bool
unfolding is_alnum
is_name_byte c = is_alnum c || c == b'_' || c == b'.' || c == b'-' || c == b' '

-- `^[A-Za-z0-9_.\- ]{1,64}$`, the names of presets and of deploy templates.
unfoldable pub name_re : Regex
name_re = repeat 1 63 is_name_byte
