-- ===== src/Tests/Relay.antt =====
-- A message that is forwarded to a backend, at concrete inputs.
use haraka.Prelude.{◌≡◌, refl, true, false, none, some, List, [], ◌∷◌, ◌++◌, map}
use haraka.Prelude.Text.{text}
use haraka.Connection.Types.{ok, deny}
use haraka.SmtpClient.State.{
  Client, new_client, wrote, piped, told, pool_released, pool_destroyed, ehlo, mail, rcpt,
  data_command, rset, starttls, auth,
}
use haraka.SmtpClient.Listeners.{Config}
use haraka.SmtpClient.Lines.{parse_reply, Event, line, errored, run, on_reply}
use haraka.SmtpClient.Once.{answers_once}
use haraka.SmtpClient.Once.Runs.{run-answers_once}
use haraka.SmtpClient.Delivery.{Accepts, announces, run-accepted}
use haraka.SmtpClient.Clear.{offers_tls, on_reply-in_clear}

abbrev to_backend : Config
to_backend = record {
  has_auth = false;
  auth_type = none;
  auth_user = [];
  auth_pass = [];
  enable_tls = false;
  in_no_tls_hosts = false;
  one_message_per_rcpt = false;
  me = text "me";
  hello_host = text "client";
  remote_ip = text "192.0.2.7";
  mail_from = text "<a@b>";
  rcpt_to = text "<c@d>" ∷ text "<e@f>" ∷ [];
  base64 = λ t. t;
}

abbrev events : List Event
events =
    line (text "220 hello")
    ∷ line (text "250 me")
    ∷ line (text "250 ok")
    ∷ line (text "550 no")
    ∷ line (text "250 reset")
    ∷ errored
    ∷ []

test_refused :
    (run to_backend false events new_client).out
    ≡ wrote ehlo (some (text "me"))
      ∷ wrote mail (some (text "FROM:<a@b>"))
      ∷ wrote rcpt (some (text "TO:<c@d>"))
      ∷ told (some deny) (text "no" ∷ [])
      ∷ wrote rset none
      ∷ pool_released
      ∷ pool_destroyed
      ∷ []
unfolding run
test_refused = refl

run-answers_once_example : answers_once false (run to_backend true events new_client).out ≡ true
unfolding haraka.SmtpClient.Once.Runs.none_late
run-answers_once_example = run-answers_once to_backend true events new_client refl refl refl

abbrev accepted : Accepts (text "250 ok")
unfolding parse_reply text
accepted = record { code = text "250"; msg = text "ok"; parsed = refl; no_refusal = refl }

run-accepted_example :
    (run to_backend false
      (line (text "250 ok")
        ∷ line (text "250 ok")
        ∷ (map line (text "250 ok" ∷ text "250 ok" ∷ text "250 ok" ∷ [])
            ++ (line (text "250 ok") ∷ line (text "250 ok") ∷ line (text "250 ok") ∷ [])))
      new_client).out
    ≡ wrote ehlo (some (text "me"))
      ∷ wrote mail (some (text "FROM:<a@b>"))
      ∷ wrote rcpt (some (text "TO:<c@d>"))
      ∷ wrote rcpt (some (text "TO:<e@f>"))
      ∷ wrote data_command none
      ∷ piped
      ∷ told (some ok) (text "ok" ∷ [])
      ∷ wrote rset none
      ∷ pool_released
      ∷ []
unfolding accepted announces
run-accepted_example =
    run-accepted to_backend false (text "250 ok") (text "250 ok") (text "250 ok") (text "250 ok")
      (text "250 ok") (text "250 ok" ∷ text "250 ok" ∷ text "250 ok" ∷ []) accepted accepted
      accepted accepted accepted (accepted, (accepted, (accepted, tt))) refl refl refl refl refl

abbrev with_auth : Config
with_auth = record to_backend {
  has_auth = true;
  auth_type = some (text "plain");
  auth_user = text "u";
  auth_pass = text "p";
  enable_tls = true;
}

abbrev greeted : Client
greeted = record new_client {
  connected = true;
  command = ehlo;
  response = text "me" ∷ text "STARTTLS" ∷ [];
}

on_reply-in_clear_example :
    (on_reply with_auth (text "250") greeted).out
    ≡ []
      ++ (wrote starttls none
          ∷ wrote auth (some (text "PLAIN " ++ (0 ∷ (text "u" ++ (0 ∷ text "p")))))
          ∷ [])
unfolding text offers_tls
on_reply-in_clear_example =
    on_reply-in_clear with_auth refl refl (text "250") greeted refl refl refl refl refl refl refl
