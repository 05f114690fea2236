-- ===== src/Env.antt =====
-- What connection.js and transaction.js take from outside: the configuration, the host's name and
-- clock, and the packages haraka-utils, address-rfc2821, ipaddr.js and RegExp coercions of strings.
-- Also the interface to mailbody.js, as a function of the lines handed to it so far.
use haraka.Prelude.{ℕ, Bool, Option, List}
use haraka.Prelude.Text.{Text}

-- An `Address` of address-rfc2821, with its `format()`.
pub record Address : Type 0 where
  pub format : Text

pub record Env : Type 0 where
  -- utils.indexOfLF(buffer, maxlength); `none` is -1
  pub index_of_lf : List ℕ → ℕ → Option ℕ
  -- new Address(text); `none` is a throw
  pub parse_address : Text → Option Address
  -- ipaddr.IPv4.isValid, ipaddr.IPv6.isValid
  pub is_valid_ipv4 : Text → Bool
  pub is_valid_ipv6 : Text → Bool
  -- the language's `text > number` and parseInt(text, 10)
  pub exceeds : Text → ℕ → Bool
  pub parse_int : Text → ℕ
  -- the text of the exception for a MAIL or RCPT argument
  pub error_text : Text → Text
  -- utils.encode_qp(value).replace(/=\n/g, '')
  pub encode_qp : Text → Text
  -- the lines that mailbody.js has been given, the next line, and what parse_more returns
  pub body_line : List Text → Text → Text
  -- what its parse_end returns after these lines
  pub body_end : List Text → Text
  -- the language's String(n)
  pub show_number : ℕ → Text
  -- utils.date_to_str(new Date())
  pub date : Text
  pub hostname : Text
  pub version : Text
  -- config.get('me') and the rest of the configuration; 0 is an unset number
  pub me : Text
  pub smtp_greeting : List Text
  pub databytes : ℕ
  pub strict_rfc1869 : Bool
  pub max_received_count : ℕ
  pub max_header_lines : ℕ
  pub internalcmd_key : Text
