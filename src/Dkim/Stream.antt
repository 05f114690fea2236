-- ===== src/Dkim/Stream.antt =====
-- dkim.js: DKIMVerifyStream: the lines of a message, cut as the writer of the stream likes.
use haraka.Prelude.{
  ℕ, zero, suc, ◌+◌, ◌-◌, Bool, true, false, Option, none, some, List, [], ◌∷◌, ◌++◌, ◌&&◌, ◌||◌,
  not, ◌==◌, is_empty, length, take, drop, map, if◌then◌else◌,
}
use haraka.Prelude.Text.{Text, text, text_eq, to_lower}
use haraka.Dkim.Canon.{pop, push, at_colon}
use haraka.Dkim.Object.{
  Verdict, pass, tempfail, fail, invalid, no_verdict, Answer, Crypto, DkimObject, new_object,
  add_body_line, is_blank_line,
}

-- The stream without its buffer; `called` is what its callback was told.
pub record Parsed : Type 0 where
  pub in_body : Bool
  pub no_signatures : Bool
  pub headers : List Text
  pub header_idx : List (Text × List Text)
  pub dkim_objects : List DkimObject
  pub results : List Answer
  pub verdict : Verdict
  pub pending : ℕ
  pub run_cb : Bool
  pub called : List (Verdict × List Answer)

abbrev pub is_verdict : Verdict → Verdict → Bool
is_verdict pass pass = true
is_verdict tempfail tempfail = true
is_verdict fail fail = true
is_verdict invalid invalid = true
is_verdict no_verdict no_verdict = true
is_verdict v r = false

-- The loop over the results in their order.
unfoldable pub overall : List Verdict → Verdict → Verdict → Verdict
overall [] current v = current
overall (r ∷ rs) current v =
    overall rs (if not (is_verdict current r) && is_verdict v r then r else current) v

abbrev pub precedence : List Verdict
precedence = pass ∷ tempfail ∷ fail ∷ invalid ∷ no_verdict ∷ []

-- The callback is called once.
unfoldable pub call : Parsed → Parsed
call s =
    if s.run_cb
    then s
    else record s { run_cb = true; called = s.called ++ ((s.verdict, s.results) ∷ []) }

-- The callback of an object.
unfoldable pub answered : Answer → Parsed → Parsed
unfolding overall
answered a s = record s {
  pending = s.pending - 1;
  results = s.results ++ (a ∷ []);
  verdict = overall precedence s.verdict a.verdict;
}

unfoldable pub on_answer : Answer → Parsed → Parsed
unfolding answered call
on_answer a s = if (answered a s).pending == 0 then call (answered a s) else answered a s

unfoldable pub on_answers : List Answer → Parsed → Parsed
unfolding on_answer
on_answers [] s = s
on_answers (a ∷ rest) s = on_answers rest (on_answer a s)

unfoldable pub add_header : Text → Text → List (Text × List Text) → List (Text × List Text)
unfolding text_eq
add_header name header [] = (name, header ∷ []) ∷ []
add_header name header ((n, hs) ∷ idx) =
    let rest = add_header name header idx in
    if text_eq n name then (n, hs ++ (header ∷ [])) ∷ idx else (n, hs) ∷ rest

abbrev pub has_blank : Text → Bool
has_blank [] = false
has_blank (c ∷ t) = c == b' ' || has_blank t

-- /^([^: ]+):/, in lower case
unfoldable pub name_of : Text → Option Text
unfolding at_colon to_lower
name_of header = elim (at_colon header) [
  | none ↦ none
  | some r ↦ if is_empty r.0 || has_blank r.0 then none else some (to_lower r.0)
]

-- No header has the name of a property that every object has, as `constructor`.
unfoldable pub index_headers : List Text → List (Text × List Text) → List (Text × List Text)
unfolding name_of add_header
index_headers [] idx = idx
index_headers (h ∷ hs) idx = elim (name_of h) [
  | none ↦ index_headers hs idx
  | some n ↦ index_headers hs (add_header n h idx)
]

unfoldable pub headers_at : Text → List (Text × List Text) → List Text
unfolding text_eq
headers_at name [] = []
headers_at name ((n, hs) ∷ idx) = if text_eq n name then hs else headers_at name idx

-- The header goes on.
unfoldable pub continue_last : Text → List Text → List Text
continue_last line [] = []
continue_last line (h ∷ []) = (h ++ line) ∷ []
continue_last line (h ∷ k ∷ hs) = h ∷ continue_last line (k ∷ hs)

abbrev pub is_continuation : Text → Bool
is_continuation [] = false
is_continuation (c ∷ t) = c == 32 || c == 9

-- A line that ends in LF alone gets CRLF.
unfoldable pub with_crlf : Text → Text
with_crlf [] = []
with_crlf (c ∷ []) = 13 ∷ c ∷ []
with_crlf (c ∷ d ∷ []) = if c == 13 then c ∷ d ∷ [] else c ∷ 13 ∷ d ∷ []
with_crlf (c ∷ d ∷ e ∷ t) = c ∷ with_crlf (d ∷ e ∷ t)

-- What the loop does behind a line: it returns, goes on at once, or comes to its end.
pub data After : Type 0 where
  returned continued handled : After

module _ (k : Crypto) where
  unfoldable pub new_objects : List Text → Parsed → Parsed
  unfolding new_object on_answers
  new_objects [] s = s
  new_objects (h ∷ hs) s =
      let o = new_object k h s.header_idx in
      new_objects hs (on_answers o.answers (record s { dkim_objects = s.dkim_objects ++ (o ∷ []) }))

  unfoldable pub indexed : Parsed → Parsed
  unfolding index_headers
  indexed s = record s { in_body = true; header_idx = index_headers s.headers s.header_idx }

  unfoldable pub signatures_of : Parsed → List Text
  unfolding headers_at text
  signatures_of s = headers_at (text "dkim-signature") s.header_idx

  -- The end of the headers.
  unfoldable pub start_body : Parsed → Parsed × After
  unfolding new_objects indexed signatures_of call
  start_body s =
      if is_empty (signatures_of (indexed s))
      then (call (record (indexed s) { no_signatures = true }), returned)
      else (
        new_objects (signatures_of (indexed s))
            (record (indexed s) { pending = length (signatures_of (indexed s)) }),
        continued,
      )

  unfoldable pub handle_line : Text → Parsed → Parsed × After
  unfolding start_body continue_last add_body_line
  handle_line line s =
      if s.in_body
      then (record s { dkim_objects = map (add_body_line k line) s.dkim_objects }, handled)
      else if is_blank_line line
      then start_body s
      else if is_continuation line
      then (record s { headers = continue_last line s.headers }, handled)
      else (record s { headers = s.headers ++ (line ∷ []) }, handled)

  -- `index_of_lf` is utils.indexOfLF.
  module _ (index_of_lf : Text → Option ℕ) where
    -- What is left for the buffer, and the stream. Each round takes a byte or more from the fuel.
    unfoldable pub read_lines : ℕ → Bool → Text → Parsed → List Text × Parsed
    unfolding handle_line with_crlf push
    read_lines zero once buf s = ([], s)
    read_lines (suc n) once buf s = elim (index_of_lf buf) [
      | none ↦ (push buf [], s)
      | some i ↦
          let rest = drop (i + 1) buf in
          let r = handle_line (with_crlf (take (i + 1) buf)) s in
          elim r.1 [
            | returned ↦ ([], r.0)
            | continued ↦ read_lines n once rest r.0
            | handled ↦ if once then (push rest [], r.0) else read_lines n once rest r.0
          ]
    ]

    -- `write`
    unfoldable pub write : Text → List Text × Parsed → List Text × Parsed
    unfolding read_lines pop
    write chunk (bar, s) =
        if s.in_body && s.no_signatures
        then (bar, s)
        else read_lines (length (pop chunk bar) + 1) false (pop chunk bar) s

    abbrev pub ends_crlf : Text → Bool
    ends_crlf [] = false
    ends_crlf (c ∷ []) = false
    ends_crlf (c ∷ d ∷ []) = c == 13 && d == 10
    ends_crlf (c ∷ d ∷ e ∷ t) = ends_crlf (d ∷ e ∷ t)

    -- handle_buf(null), of `end`: the buffer is taken all the same.
    unfoldable pub flush : List Text × Parsed → List Text × Parsed
    unfolding read_lines pop
    flush (bar, s) =
        if s.in_body && s.no_signatures
        then (bar, s)
        else (let buf = pop [] bar in
            if ends_crlf buf
            then ([], s)
            else read_lines (length buf + 5) true (buf ++ (13 ∷ 10 ∷ 13 ∷ 10 ∷ [])) s)

abbrev pub new_stream : Parsed
new_stream = record {
  in_body = false;
  no_signatures = false;
  headers = [];
  header_idx = [];
  dkim_objects = [];
  results = [];
  verdict = no_verdict;
  pending = 0;
  run_cb = false;
  called = [];
}
