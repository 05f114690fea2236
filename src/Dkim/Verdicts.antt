-- ===== src/Dkim/Verdicts.antt =====
-- dkim.js: the overall result of several signatures.
use haraka.Prelude.{◌≡◌, refl, ◌∙◌, List, [], ◌∷◌, ◌++◌, if_all, arith, ◌==◌}
use haraka.Dkim.Object.{Verdict, pass, tempfail, fail, invalid, no_verdict, Answer}
use haraka.Dkim.Stream.{Parsed, overall, precedence, call, answered, on_answer, on_answers}

overall-last : (c v : Verdict) → overall precedence c v ≡ v
unfolding overall
overall-last c pass = ground arith
overall-last c tempfail = ground arith
overall-last c fail = ground arith
overall-last c invalid = ground arith
overall-last c no_verdict = ground arith

call-verdict : (s : Parsed) → (call s).verdict ≡ s.verdict
unfolding call
call-verdict s = if_all (λ (t : Parsed). t.verdict ≡ s.verdict) s.run_cb (λ e. refl) (λ e. refl)

on_answer-verdict : (a : Answer) (s : Parsed) → (on_answer a s).verdict ≡ a.verdict
unfolding on_answer answered
on_answer-verdict a s =
    if_all (λ (t : Parsed). t.verdict ≡ a.verdict) ((answered a s).pending == 0)
      (λ e. call-verdict (answered a s) ∙ overall-last s.verdict a.verdict)
      (λ e. overall-last s.verdict a.verdict)

-- However many signatures answered and whatever they gave, the overall result is that of the last.
pub on_answers-last :
    (l : List Answer) (a : Answer) (s : Parsed) → (on_answers (l ++ (a ∷ [])) s).verdict ≡ a.verdict
unfolding on_answers
on_answers-last [] a s = on_answer-verdict a s
on_answers-last (b ∷ l) a s = on_answers-last l a (on_answer b s)
