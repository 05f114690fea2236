-- ===== src/Tests/Signatures.antt =====
-- The signatures of a message at concrete inputs.
use haraka.Prelude.{◌≡◌, refl, false, none, List, [], ◌∷◌, ◌++◌, map}
use haraka.Prelude.Text.{Text, text}
use haraka.ChunkEmitter.{concat}
use haraka.Dkim.Canon.{header_canon_relaxed}
use haraka.Dkim.Object.{Crypto, DkimObject, pass, fail, no_verdict, Answer}
use haraka.Dkim.Body.{add_lines, body_lines, wanted, is_known, add_lines-body}
use haraka.Dkim.Stream.{new_stream, write, on_answers}
use haraka.Dkim.Ending.{end_stream}
use haraka.Dkim.Cuts.{first_lf}
use haraka.Dkim.Writes.{write-append}
use haraka.Dkim.Verdicts.{on_answers-last}

abbrev crypto : Crypto
crypto = record {
  recode = λ t. t;
  md5 = λ t. t;
  body_hash = λ a t. t;
  is_later = λ t. false;
  is_past = λ t. false;
  is_before = λ x t. false;
}

abbrev crlf : Text
crlf = 13 ∷ 10 ∷ []

abbrev relaxed_object : DkimObject
relaxed_object = record {
  sig = text "DKIM-Signature: v=1";
  fields = [];
  identity = text "@b";
  headercanon = text "simple";
  bodycanon = text "relaxed";
  signed_headers = [];
  header_idx = [];
  line_buffer = [];
  hashed = [];
  run_cb = false;
  answers = [];
}

abbrev body : List Text
body = (text "a  b " ++ crlf) ∷ crlf ∷ (text "c" ++ crlf) ∷ crlf ∷ crlf ∷ []

test_body :
    concat (map (wanted crypto (text "relaxed")) (body_lines body))
    ≡ text "a b" ++ (crlf ++ (crlf ++ (text "c" ++ crlf)))
unfolding wanted body_lines text
test_body = refl

test_header :
    header_canon_relaxed (text "SubJect:  a" ++ (crlf ++ (text "  b" ++ crlf)))
    ≡ text "subject:a b" ++ crlf
unfolding header_canon_relaxed text
test_header = refl

add_lines-body_example :
    (add_lines crypto body relaxed_object).hashed
    ≡ [] ++ concat (map (wanted crypto (text "relaxed")) (body_lines body))
unfolding is_known
add_lines-body_example =
    add_lines-body crypto refl (λ c t l. refl) body relaxed_object refl refl refl

abbrev message_start : Text
message_start = text "From: a" ++ (13 ∷ [])

abbrev message_end : Text
message_end = (10 ∷ []) ++ (text "DKIM-Signature: v=1" ++ (crlf ++ (crlf ++ text "body")))

write-append_example :
    write crypto first_lf message_end (write crypto first_lf message_start ([], new_stream))
    ≡ write crypto first_lf (message_start ++ message_end) ([], new_stream)
write-append_example =
    write-append crypto first_lf (λ t. refl) message_start message_end [] new_stream refl

abbrev passed : Answer
passed = record { error = none; identity = text "@b"; verdict = pass }

abbrev failed : Answer
failed = record { error = none; identity = text "@c"; verdict = fail }

on_answers-last_example : (on_answers ((passed ∷ []) ++ (failed ∷ [])) new_stream).verdict ≡ fail
on_answers-last_example = on_answers-last (passed ∷ []) failed new_stream

-- A signature whose body hash is the body itself, as the hash here is.
abbrev signed : Text
signed =
    text "From: a"
    ++ (crlf
        ++ (text "DKIM-Signature: v=1; a=rsa-sha1; b=x; bh=c; d=e; h=from"
            ++ (crlf ++ (crlf ++ (text "f" ++ crlf)))))

test_unsigned :
    (end_stream crypto first_lf
      (write crypto first_lf (text "From: a" ++ (crlf ++ crlf)) ([], new_stream))).1.called
    ≡ (no_verdict, []) ∷ []
unfolding end_stream write first_lf text
test_unsigned = refl

test_wrong_hash :
    (end_stream crypto first_lf (write crypto first_lf signed ([], new_stream))).1.verdict ≡ fail
unfolding end_stream write first_lf text
test_wrong_hash = refl
