-- ===== src/Transaction/Data.antt =====
-- transaction.js: where the lines of DATA go.
use haraka.Prelude.{◌<◌, ◌≡◌, true, false, [], ◌∷◌, arith}
use haraka.Prelude.Text.{Text}
use haraka.Env.{Env}
use haraka.Transaction.{
  Transaction, add_data, is_separator, end_header, add_header_line, add_line, strip_dot, crlf_to_lf,
  ensure_body,
}

-- A message that begins with a blank line: the line behind it, which belongs to the body, is taken
-- as a line of the header all the same.
pub add_data-blank_first :
    (env : Env) (blank line : Text) (t : Transaction)
    → t.header_pos ≡ 0
    → t.header_lines ≡ []
    → is_separator blank ≡ true
    → is_separator line ≡ false
    → 0 < env.max_header_lines
    → (add_data env line (add_data env blank t)).header_lines ≡ crlf_to_lf (strip_dot line) ∷ []
unfolding add_data end_header add_header_line add_line ensure_body
add_data-blank_first env blank line t p e b l m = ground arith
