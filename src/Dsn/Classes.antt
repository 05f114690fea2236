-- ===== src/Dsn/Classes.antt =====
-- dsn.js: the class of a status and its code.
use haraka.Prelude.{
  ℕ, ◌≡◌, refl, true, Option, none, some, List, [], ◌∷◌, Bool-cases, inl, inr, arith,
}
use haraka.Prelude.Text.{Text, text}
use haraka.Dsn.{
  is_code, Reason, nothing, one, many, choose_code, first_char, status_line, status_lines, reply_of,
  new_dsn, dsn, create, Dsn,
}
use haraka.Dsn.Statuses.{Status, spec}

-- The default code of each function is a code.
spec-is_code : (s : Status) → is_code (spec s).def ≡ true
unfolding spec is_code
spec-is_code s = ground arith

-- The class of an enhanced status begins its line, and is the first digit of the code.
abbrev pub AllBegin : ℕ → List Text → Type 0
AllBegin c [] = Unit
AllBegin c ([] ∷ ls) = ⊥
AllBegin c ((d ∷ l) ∷ ls) = (d ≡ c) × AllBegin c ls

chosen-is_code :
    (code : Option Text) (def : Text)
    → is_code def ≡ true
    → is_code (choose_code code (some def)) ≡ true
unfolding choose_code
chosen-is_code none def h = h
chosen-is_code (some c) def h = elim (Bool-cases (is_code c)) [
  | inl fits ↦ rw fits fits
  | inr other ↦ rw other h
]

status_lines-AllBegin :
    (show : ℕ → Text) (c sub det : ℕ) (ms : List Text)
    → AllBegin c (status_lines (status_line show (some c) sub det) ms)
unfolding status_lines status_line
status_lines-AllBegin show c sub det [] = tt
status_lines-AllBegin show c sub det ([] ∷ ms) = tt
status_lines-AllBegin show c sub det ((d ∷ m) ∷ ms) =
    (refl, status_lines-AllBegin show c sub det ms)

reply_of-AllBegin :
    (show : ℕ → Text) (c sub det : ℕ) (msg : Reason) (d : Text)
    → AllBegin c (reply_of (status_line show (some c) sub det) msg d)
unfolding status_line
reply_of-AllBegin show c sub det nothing d = (refl, tt)
reply_of-AllBegin show c sub det (one m) d = (refl, tt)
reply_of-AllBegin show c sub det (many ms) d = status_lines-AllBegin show c sub det ms

code-AllBegin :
    (show : ℕ → Text) (k : Text) (sub det : ℕ) (msg : Reason) (d : Text)
    → is_code k ≡ true
    → (c : ℕ) × (first_char k ≡ some c)
      × AllBegin c (reply_of (status_line show (first_char k) sub det) msg d)
unfolding is_code
code-AllBegin show [] sub det msg d h = cc
code-AllBegin show (c ∷ t) sub det msg d h = (c, refl, reply_of-AllBegin show c sub det msg d)

-- The code begins with 2, 4 or 5 and two digits, the class is its first digit, and each line of the reply
-- begins with it.
abbrev pub HasClass : Dsn → Type 0
HasClass d =
    (is_code d.code ≡ true)
    × ((c : ℕ) × (d.cls ≡ some c) × (first_char d.code ≡ some c) × AllBegin c d.reply)

new_dsn-HasClass :
    (show : ℕ → Text) (code : Option Text) (msg : Reason) (def : Option Text) (subject detail : ℕ)
    → is_code (choose_code code def) ≡ true
    → HasClass (new_dsn show code msg def subject detail)
unfolding new_dsn
new_dsn-HasClass show code msg def subject detail h =
    let (c, first, begins) = code-AllBegin show (choose_code code def) subject detail _ _ h in
    (h, (c, first, first, begins))

no_default-is_code : (code : Option Text) → is_code (choose_code code none) ≡ true
unfolding choose_code is_code text
no_default-is_code none = refl
no_default-is_code (some c) = elim (Bool-cases (is_code c)) [
  | inl fits ↦ rw fits fits
  | inr other ↦ rw other refl
]

-- Whatever function of dsn.js makes a status, one of a name or `create` with any subject and detail, with
-- whatever code and message: its code begins with 2, 4 or 5 and two digits, its class is the first digit of
-- its code, and each line of its reply begins with it.
pub dsn-is_code :
    (show : ℕ → Text) (s : Status) (msg : Reason) (code : Option Text) (subject detail : ℕ)
    → HasClass (dsn show s msg code) × HasClass (create show code msg subject detail)
unfolding dsn create
dsn-is_code show s msg code subject detail = (
  new_dsn-HasClass show code _ _ _ _ (chosen-is_code code (spec s).def (spec-is_code s)),
  new_dsn-HasClass show code msg none subject detail (no_default-is_code code),
)
