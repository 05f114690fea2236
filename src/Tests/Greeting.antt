-- ===== src/Tests/Greeting.antt =====
-- The conversation with a host up to MAIL, and as a whole, at concrete inputs.
use haraka.Prelude.{
  ℕ, ◌≡◌, refl, true, false, none, some, List, [], ◌∷◌, ◌++◌, ◌==◌, arith, if◌then◌else◌,
}
use mathlib.Core.Option.{map}
use haraka.Prelude.Text.{Text, text}
use haraka.Outbound.Extensions.{read_extensions}
use haraka.Outbound.Shake.{ehlo, mail, starttls, upgrade, wrote, auth, Config}
use haraka.Outbound.Handshake.{create, Event, line, secure, run}
use haraka.Outbound.Client.{sent}
use haraka.Outbound.Client
use haraka.Outbound.Recipients.{accepted, asked, deferred, ending, rejected, those}
use haraka.Outbound.Secrets.{free}
use haraka.Outbound.BehindTls.{run-no_secret}
use haraka.Outbound.Conversation.{start}
use haraka.Outbound.LateReply.{replied, recorded, late_reply-shifts}
use haraka.Outbound.Whole.{converse, converse-out}

abbrev host : Config
unfolding text
host = record {
  no_tls_domain = false;
  no_tls_host = false;
  enable_tls = true;
  using_lmtp = false;
  bind_helo = text "me";
  mail_from = text "<a@b>";
  auth_user = text "u";
  auth_pass = text "p";
  base64 = λ t. t;
  unbase64 = λ t. t;
  hmac_md5_hex = λ key t. t;
}

abbrev until_offer : List Event
until_offer =
    line true (some (220, true, text "hello"))
    ∷ line true (some (250, false, text "name"))
    ∷ line true (some (250, false, text "AUTH LOGIN"))
    ∷ line true (some (250, true, text "starttls"))
    ∷ []

abbrev go_ahead : List Event
go_ahead = line true (some (220, true, text "go")) ∷ []

abbrev login : List Event
login =
    secure true
    ∷ line true (some (250, true, text "AUTH PLAIN LOGIN"))
    ∷ line true (some (235, true, text "ok"))
    ∷ []

run_lem :
    (run host login (run host go_ahead (run host until_offer (create host true false none)))).out
    ≡ wrote ehlo (some (text "me"))
      ∷ wrote starttls none
      ∷ upgrade
      ∷ wrote ehlo (some (text "me"))
      ∷ wrote auth (some (text "PLAIN " ++ (117 ∷ 0 ∷ 117 ∷ 0 ∷ 112 ∷ [])))
      ∷ wrote mail (some (text "FROM:<a@b>"))
      ∷ []
unfolding run create text
run_lem = refl

run-no_secret_example :
    free (run host go_ahead (run host until_offer (create host true false none))).out ≡ true
unfolding run create text
run-no_secret_example = run-no_secret host refl refl refl none until_offer go_ahead refl refl refl

abbrev open_host : Config
open_host = record host { auth_user = [] }

abbrev code : ℕ → ℕ
code r = if r == 1 then 250 else 550

abbrev exts : List Text
exts = text "SIZE 100" ∷ []

converse-out_example :
    ((converse open_host (1 ∷ 2 ∷ []) code none (text "hello") (text "name" ∷ exts)).shake.out
      ≡ wrote ehlo (some (text "me")) ∷ wrote mail (some (text "FROM:" ++ text "<a@b>")) ∷ [])
    × (map
          (λ t. t.out)
          (converse open_host (1 ∷ 2 ∷ []) code none (text "hello") (text "name" ∷ exts)).talk
        ≡ some (
            sent Client.mail none
            ∷ (asked (1 ∷ 2 ∷ [])
                ++ ending
                    (those (λ q. accepted (code q)) (1 ∷ 2 ∷ []))
                    (those (λ q. deferred (code q)) (1 ∷ 2 ∷ []))
                    (those (λ q. rejected (code q)) (1 ∷ 2 ∷ [])))))
unfolding read_extensions text
converse-out_example =
    converse-out open_host code none (text "hello") (text "name") exts 1 (2 ∷ []) refl refl refl
      (λ r. ground arith)

late_reply-shifts_example :
    recorded {A = ℕ} open_host (
      replied open_host (1 ∷ 2 ∷ []) 550 (
        replied open_host
          (1 ∷ 2 ∷ [])
          250
          (replied open_host (1 ∷ 2 ∷ []) 250 (start open_host (1 ∷ 2 ∷ []) true none))))
    ≡ some (1 ∷ [], 2 ∷ [])
late_reply-shifts_example = late_reply-shifts open_host none 1 2 [] 550 refl
