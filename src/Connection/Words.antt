-- ===== src/Connection/Words.antt =====
-- connection.js: a line of the client, and the word of its command.
use haraka.Prelude.{
  ℕ, Bool, true, false, Option, none, some, List, [], ◌∷◌, ◌&&◌, ◌||◌, take, if◌then◌else◌, ◌==◌,
}
use haraka.Prelude.Text.{Text, text, text_eq, to_upper, starts_with, break_space}
use haraka.Rfc1869.{has}
use haraka.Connection.Types.{State, pause, pause_smtp, is_data_mode, Connection}

-- The methods whose name begins with `cmd_`.
pub data Command : Type 0 where
  proxy internalcmd helo ehlo quit rset vrfy noop help mail rcpt data_word : Command

-- The words of the commands, in lower case.
unfoldable pub command_words : List (Text × Command)
unfolding text
command_words =
    (text "proxy", proxy)
    ∷ (text "internalcmd", internalcmd)
    ∷ (text "helo", helo)
    ∷ (text "ehlo", ehlo)
    ∷ (text "quit", quit)
    ∷ (text "rset", rset)
    ∷ (text "vrfy", vrfy)
    ∷ (text "noop", noop)
    ∷ (text "help", help)
    ∷ (text "mail", mail)
    ∷ (text "rcpt", rcpt)
    ∷ (text "data", data_word)
    ∷ []

unfoldable pub find_command : Text → List (Text × Command) → Option Command
unfolding text_eq
find_command word [] = none
find_command word ((w, k) ∷ ws) = if text_eq w word then some k else find_command word ws

-- `line.replace(/\r?\n/, '')`: the first line end is taken out.
unfoldable pub drop_line_end : Text → Text
drop_line_end [] = []
drop_line_end (c ∷ []) = if c == 10 then [] else c ∷ []
drop_line_end (c ∷ d ∷ t) =
    let rest = drop_line_end (d ∷ t) in
    if c == 10 then d ∷ t else if c == 13 && d == 10 then t else c ∷ rest

-- A TLS or SSLv3 handshake in place of a command.
unfoldable pub is_handshake : Text → Bool
is_handshake (a ∷ b ∷ c ∷ t) = a == 0x16 && b == 0x03 && (c == 0x00 || c == 0x01)
is_handshake t = false

abbrev pub skip_blanks : Text → Text
skip_blanks [] = []
skip_blanks (c ∷ t) = if c == 32 then skip_blanks t else c ∷ t

-- /^([^ ]*)( +(.*))?$/: the word and what remains, if that has no line terminator.
unfoldable pub split_command : Text → Option (Text × Text)
unfolding break_space has
split_command line =
    let (word, tail) = break_space line in
    let remaining = skip_blanks tail in
    if has (λ c. c == 10 || c == 13) remaining then none else some (word, remaining)

-- The commands that may stand anywhere in a pipelined group.
unfoldable pub is_group_command : Text → Bool
unfolding text_eq to_upper
is_group_command line =
    let w = to_upper (take 4 line) in
    text_eq w (text "RSET")
    || text_eq w (text "MAIL")
    || text_eq w (text "SEND")
    || text_eq w (text "SOML")
    || text_eq w (text "SAML")
    || text_eq w (text "RCPT")

-- /^(?:EH|HE)LO /i
unfoldable pub is_hello : Text → Bool
unfolding starts_with to_upper
is_hello line =
    let w = to_upper line in starts_with (text "EHLO ") w || starts_with (text "HELO ") w

abbrev pub max_length : Connection → ℕ
max_length c = if is_data_mode c.state then c.max_data_line_length else c.max_line_length

abbrev pub is_pause : State → Bool
is_pause pause = true
is_pause s = false

abbrev pub is_waiting : State → Bool
is_waiting pause = true
is_waiting pause_smtp = true
is_waiting s = false

-- How the loop of `_process_data` ends: by `return`, or by its test or `break`.
pub data Exit : Type 0 where
  returned left : Exit
