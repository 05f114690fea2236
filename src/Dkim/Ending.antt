-- ===== src/Dkim/Ending.antt =====
-- dkim.js: `end` of DKIMVerifyStream, and the answers to the queries of its objects.
use haraka.Prelude.{ℕ, zero, suc, Option, List, [], ◌∷◌, ◌++◌, ◌&&◌, not, ◌==◌, if◌then◌else◌}
use haraka.Prelude.Text.{Text}
use haraka.Dkim.Object.{Answer, Crypto, DkimObject}
use haraka.Dkim.Stream.{Parsed, on_answers, call, flush}
use haraka.Dkim.Key.{end_object, on_key, KeyAnswer, Verifier}

-- What an object answered in this step; it answers once.
abbrev pub new_answers : DkimObject → DkimObject → List Answer
new_answers o p = if o.run_cb then [] else p.answers

module _ (k : Crypto) where
  -- The objects in turn; what each is to verify is kept with it for its query.
  unfoldable pub end_objects : List DkimObject → Parsed → List (Option Text) × Parsed
  unfolding end_object on_answers
  end_objects [] s = ([], s)
  end_objects (o ∷ os) s =
      let r = end_object k o in
      let rest = end_objects os (
        on_answers (new_answers o r.0)
          (record s { dkim_objects = s.dkim_objects ++ (r.0 ∷ []) })) in
      (r.1 ∷ rest.0, rest.1)

  abbrev pub call_if_done : Parsed → Parsed
  unfolding call
  call_if_done s = if s.pending == 0 && not s.no_signatures then call s else s

  -- `end` without a last buffer.
  unfoldable pub end_stream : (Text → Option ℕ) → List Text × Parsed → List (Option Text) × Parsed
  unfolding flush end_objects call_if_done
  end_stream index_of_lf s =
      let f = flush k index_of_lf s in
      let e = end_objects f.1.dkim_objects (record f.1 { dkim_objects = [] }) in
      (e.0, call_if_done e.1)

abbrev pub change_at : {A : Type 0} → ℕ → A → List A → List A
change_at n x [] = []
change_at zero x (y ∷ ys) = x ∷ ys
change_at (suc n) x (y ∷ ys) = y ∷ change_at n x ys

-- The answer to the query of the object at a place, which is to verify a text.
unfoldable pub on_query : Verifier → Text → KeyAnswer → ℕ → DkimObject → Parsed → Parsed
unfolding on_key on_answers
on_query w signed a i o s =
    let p = on_key w signed a o in
    on_answers (new_answers o p) (record s { dkim_objects = change_at i p s.dkim_objects })
