-- ===== src/Connection/Invariant/Data.antt =====
-- DATA and the lines of the message in connection.js keep the invariant.
use haraka.Prelude.{ℕ, ltb, ◌∙◌, ◌≡◌, refl, some, List, ◌∷◌, [], arith, is_empty, not, length}
use haraka.Prelude.Text.{Text, text, text_eq}
use haraka.Env.{Env}
use haraka.Header
use haraka.Transaction.{
  Transaction, add_data, add_header, remove_header, end_data, end_header, add_line, add_body_line,
  reset_if_parsed, add_header_line,
}
use haraka.Connection.Types
use haraka.Connection.Types.{Connection, Calls, Message, cmd}
use haraka.Connection.Reply.{nothing, respond, reset_transaction_then}
use haraka.Connection.Commands.Body.{
  data_ended, finish_message, message_done, data_done, accumulate_line, accumulate_data, begin_data,
  cmd_data, clean_auth_results, auth_results_clean, add_auth_results, over_limit, end_of_data,
  bare_end, add_bytes, count_error, received_data,
}
use haraka.Connection.Invariant.Core.{
  Inv, Keeps, CallsKeep, respond-Keeps, reset-Keeps, nothing-Keeps, pause_client-Keeps, if-Inv,
  Option-elim-Inv,
}
use haraka.Connection.Invariant.Envelope.{with_counts-Inv, with_transaction-Inv}

reset_if_parsed-counts : (t : Transaction) → (reset_if_parsed t).rcpt_count ≡ t.rcpt_count
unfolding reset_if_parsed
reset_if_parsed-counts t = ground arith

added-counts :
    (env : Env) (key value : Text) (t : Transaction)
    → (add_header env key value t).rcpt_count ≡ t.rcpt_count
unfolding add_header
added-counts env key value t = reset_if_parsed-counts _

removed-counts : (key : Text) (t : Transaction) → (remove_header key t).rcpt_count ≡ t.rcpt_count
unfolding remove_header
removed-counts key t = reset_if_parsed-counts _

clean-counts :
    (env : Env) (vs : List Text) (t : Transaction)
    → (clean_auth_results env vs t).rcpt_count ≡ t.rcpt_count
unfolding clean_auth_results
clean-counts env [] t = refl
clean-counts env (v ∷ vs) t = clean-counts env vs _ ∙ added-counts env _ v _ ∙ removed-counts v t

add_line-counts : (l : Text) (t : Transaction) → (add_line l t).rcpt_count ≡ t.rcpt_count
unfolding add_line
add_line-counts l t = ground arith

end_header-counts : (t : Transaction) → (end_header t).rcpt_count ≡ t.rcpt_count
unfolding end_header
end_header-counts t = ground arith

body_line-counts :
    (env : Env) (l : Text) (t : Transaction) → (add_body_line env l t).rcpt_count ≡ t.rcpt_count
unfolding add_body_line
body_line-counts env l t = ground arith

header_line-counts : (l : Text) (t : Transaction) → (add_header_line l t).rcpt_count ≡ t.rcpt_count
unfolding add_header_line
header_line-counts l t = refl

pub add_data-counts :
    (env : Env) (l : Text) (t : Transaction) → (add_data env l t).rcpt_count ≡ t.rcpt_count
unfolding add_data
add_data-counts env l t =
    grind (arith, add_line-counts, end_header-counts, body_line-counts, header_line-counts)

pub end_data-counts : (env : Env) (t : Transaction) → (end_data env t).rcpt_count ≡ t.rcpt_count
unfolding end_data
end_data-counts env t = ground arith

add_auth-counts :
    (env : Env) (field : Text) (t : Transaction)
    → (add_auth_results env field t).rcpt_count ≡ t.rcpt_count
add_auth-counts env field t = grind (arith, added-counts)

auth_clean-counts :
    (env : Env) (t : Transaction) → (auth_results_clean env t).rcpt_count ≡ t.rcpt_count
unfolding auth_results_clean
auth_clean-counts env t =
    clean-counts env (Header.get_all (text "Authentication-Results") t.header) t

to_cmd-Keeps : Keeps (λ c. record c { state = cmd })
to_cmd-Keeps c h = assumption

total-Keeps : (n : ℕ) → Keeps (λ c. record c { totalbytes = n })
total-Keeps n c h = assumption

error_count-Keeps : (env : Env) (calls : Calls) → Keeps (count_error env calls)
error_count-Keeps env calls c h = assumption

module _ (env : Env) {calls : Calls} (k : CallsKeep calls) where
  drop-Keeps : Keeps (reset_transaction_then calls nothing)
  drop-Keeps = reset-Keeps k nothing nothing-Keeps

  say-Keeps : (code : ℕ) (m : Message) → Keeps (respond calls code m nothing)
  say-Keeps code m = respond-Keeps k code m nothing nothing-Keeps

  data_ended-Keeps : Keeps (data_ended env calls)
  unfolding data_ended
  data_ended-Keeps c h = Option-elim-Inv c.transaction _ c h λ t e. k.hooks Types.data_post tt c h

  finish_message-Inv :
      (t : Transaction) (c : Connection)
      → c.transaction ≡ some t
      → Inv c
      → Inv (finish_message env calls t c)
  unfolding finish_message
  finish_message-Inv t c e h = data_ended-Keeps _ (
      with_counts-Inv c t _ h e
        (end_data-counts env _ ∙ add_auth-counts env _ _ ∙ auth_clean-counts env t))

  message_done-Inv :
      (t : Transaction) (c : Connection)
      → c.transaction ≡ some t
      → Inv c
      → Inv (message_done env calls t c)
  unfolding message_done
  message_done-Inv t c e h =
      if-Inv (over_limit c.max_bytes t.data_bytes) _ _ (k.hooks Types.max_data_exceeded tt c h) (
        if-Inv (ltb env.max_received_count (length (Header.get_all (text "received") t.header))) _ _
          (respond-Keeps k 550 _ _ drop-Keeps c h) (finish_message-Inv t c e h))

  data_done-Keeps : Keeps (data_done env calls)
  unfolding data_done
  data_done-Keeps c h =
      let h' = pause_client-Keeps _ (to_cmd-Keeps c h) in
      with_transaction-Inv _ _ h' λ t e. message_done-Inv t _ e (total-Keeps _ _ h')

  accumulate_line-Inv :
      (line : Text) (t : Transaction) (c : Connection)
      → c.transaction ≡ some t
      → Inv c
      → Inv (accumulate_line env calls line t c)
  unfolding accumulate_line
  accumulate_line-Inv line t c e h = if-Inv (text_eq line end_of_data) _ _ (data_done-Keeps c h) (
      if-Inv (text_eq line bare_end) _ _ (respond-Keeps k 451 _ _ drop-Keeps c h) (
        if-Inv (over_limit c.max_bytes t.data_bytes) _ _ h
          (with_counts-Inv c t _ h e (add_data-counts env line t))))

  pub accumulate_data-Keeps : (line : Text) → Keeps (accumulate_data env calls line)
  unfolding accumulate_data
  accumulate_data-Keeps line c h = with_transaction-Inv c _ h λ t e.
      accumulate_line-Inv line _ _ refl (with_counts-Inv c t (add_bytes (length line) t) h e refl)

  begin_data-Keeps : (t : Transaction) → Keeps (begin_data env calls t)
  unfolding begin_data
  begin_data-Keeps t c h =
      k.hooks Types.data_command tt _ (accumulate_data-Keeps (received_data env calls t c) c h)

  pub cmd_data-Keeps : (args : Text) → Keeps (cmd_data env calls args)
  unfolding cmd_data
  cmd_data-Keeps args c h =
      if-Inv (not (is_empty args)) _ _ (say-Keeps 501 _ _ (error_count-Keeps env calls c h)) (
        Option-elim-Inv c.transaction _ _ (say-Keeps 503 _ _ (error_count-Keeps env calls c h))
          λ t e.
            if-Inv (is_empty t.rcpt_to) _ _
              (if-Inv c.pipelining _ _ (say-Keeps 554 _ c h)
                (say-Keeps 503 _ _ (error_count-Keeps env calls c h)))
              (begin_data-Keeps t c h))
