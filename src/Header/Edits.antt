-- ===== src/Header/Edits.antt =====
-- mailheader.js: what adding and removing a header changes.
use haraka.Prelude.{◌≡◌, ◌≢◌, refl, true, false, List, [], ◌∷◌, ◌++◌, Bool-cases, inl, inr}
use haraka.Prelude.Text.{Text, text_eq, text_eq_refl, text_eq-true, to_lower}
use haraka.Header.{
  Header, values, update, delete, get_all, push_header, unshift_header, remove, remove_more,
  begins_with_key, add, add_end, or_blank, stored_value, header_line, is_own,
}

text_eq-false : (s t : Text) → s ≢ t → text_eq s t ≡ false
text_eq-false s t h = elim (Bool-cases (text_eq s t)) [
  | inl same ↦ absurd (h (text_eq-true s t same))
  | inr other ↦ other
]

values-delete : (key : Text) (m : List (Text × List Text)) → values key (delete key m) ≡ []
unfolding values delete
values-delete key [] = refl
values-delete key ((k, vs) ∷ m) = elim (Bool-cases (text_eq k key)) [
  | inl same ↦ rw same (values-delete key m)
  | inr other ↦ rw (other, other) (values-delete key m)
]

values-delete_other :
    (key other : Text) (m : List (Text × List Text))
    → key ≢ other
    → values other (delete key m) ≡ values other m
unfolding values delete
values-delete_other key other [] h = refl
values-delete_other key other ((k, vs) ∷ m) h = elim (Bool-cases (text_eq k key)) [
  | inl same ↦
      rw (same, text_eq-true k key same, text_eq-false key other h)
        (values-delete_other key other m h)
  | inr apart ↦ elim (Bool-cases (text_eq k other)) [
    | inl found ↦ rw (apart, found)
    | inr missed ↦ rw (apart, missed) (values-delete_other key other m h)
  ]
]

values-update :
    (key : Text) (f : List Text → List Text) (m : List (Text × List Text))
    → values key (update key f m) ≡ f (values key m)
unfolding values update
values-update key f [] = rw (text_eq_refl key)
values-update key f ((k, vs) ∷ m) = elim (Bool-cases (text_eq k key)) [
  | inl same ↦ rw (same, same)
  | inr apart ↦ rw (apart, apart) (values-update key f m)
]

values-update_other :
    (key other : Text) (f : List Text → List Text) (m : List (Text × List Text))
    → key ≢ other
    → values other (update key f m) ≡ values other m
unfolding values update
values-update_other key other f [] h = rw (text_eq-false key other h)
values-update_other key other f ((k, vs) ∷ m) h = elim (Bool-cases (text_eq k key)) [
  | inl same ↦ rw (same, text_eq-true k key same, text_eq-false key other h)
  | inr apart ↦ elim (Bool-cases (text_eq k other)) [
    | inl found ↦ rw (apart, found)
    | inr missed ↦ rw (apart, missed) (values-update_other key other f m h)
  ]
]

-- No line of the list begins with the key.
abbrev pub NoneBegins : Text → List Text → Type 0
NoneBegins key [] = Unit
NoneBegins key (line ∷ rest) = (begins_with_key key line ≡ false) × NoneBegins key rest

remove_more-NoneBegins : (key : Text) (ls : List Text) → NoneBegins key (remove_more key ls)
unfolding remove_more
remove_more-NoneBegins key [] = tt
remove_more-NoneBegins key (line ∷ rest) = elim (Bool-cases (begins_with_key key line)) [
  | inl begins ↦ rw (NoneBegins, begins) (remove_more-NoneBegins key rest)
  | inr kept ↦ rw (NoneBegins, kept) (kept, remove_more-NoneBegins key rest)
]

-- After `remove`, a header has no value under the key, in any case of its letters, and no line that
-- begins with it; every other key has the values that it had. (The keys are ASCII, and none is
-- `constructor` or `__proto__`, which every object has.)
pub remove_lem :
    (key other : Text) (h : Header)
    → is_own key ≡ true
    → is_own other ≡ true
    → to_lower key ≢ to_lower other
    → (get_all key (remove key h) ≡ [])
      × NoneBegins (to_lower key) (remove key h).header_list
      × (get_all other (remove key h) ≡ get_all other h)
unfolding remove get_all
remove_lem key other h own own' n = (
  values-delete (to_lower key) h.headers,
  remove_more-NoneBegins (to_lower key) h.header_list,
  values-delete_other (to_lower key) (to_lower other) h.headers n,
)

-- `add` puts the value, as it is stored, before the others of its key, and `add_end` behind them; the
-- line that says so stands first, or last. Every other key has the values that it had. (The key is
-- not empty, or it is replaced.)
pub add-get_all :
    (encode : Text → Text) (key other value : Text) (h : Header)
    → to_lower (or_blank key) ≢ to_lower other
    → let k = or_blank key in
      let v = stored_value encode value in
      (get_all k (add encode key value h) ≡ v ∷ get_all k h)
      × (get_all k (add_end encode key value h) ≡ get_all k h ++ v ∷ [])
      × ((add encode key value h).header_list ≡ header_line k v ∷ h.header_list)
      × ((add_end encode key value h).header_list ≡ h.header_list ++ header_line k v ∷ [])
      × (get_all other (add encode key value h) ≡ get_all other h)
      × (get_all other (add_end encode key value h) ≡ get_all other h)
unfolding add add_end get_all push_header unshift_header
add-get_all encode key other value h n =
    let k = to_lower (or_blank key) in
    let o = to_lower other in
    let front : List Text → List Text = λ vs. stored_value encode value ∷ vs in
    let back : List Text → List Text = λ vs. vs ++ stored_value encode value ∷ [] in
    (
      values-update k front h.headers,
      values-update k back h.headers,
      refl,
      refl,
      values-update_other k o front h.headers n,
      values-update_other k o back h.headers n,
    )

remove_more-no_key : (ls : List Text) → remove_more [] ls ≡ []
unfolding remove_more begins_with_key text_eq to_lower
remove_more-no_key [] = refl
remove_more-no_key (line ∷ rest) = remove_more-no_key rest

-- With an empty key `remove` takes every line off the list.
pub remove-no_key : (h : Header) → (remove [] h).header_list ≡ []
unfolding remove to_lower
remove-no_key h = remove_more-no_key h.header_list
