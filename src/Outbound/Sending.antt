-- ===== src/Outbound/Sending.antt =====
-- outbound.js: `send_trans_email` behind its hook: the recipients by domain, and a file for each.
use haraka.Prelude.{
  ℕ, ◌+◌, ◌||◌, Bool, true, false, Option, none, some, List, [], ◌∷◌, ◌++◌, map, if◌then◌else◌,
}
use haraka.Prelude.Text.{Text, text_eq}
use haraka.Connection.Types.{Retval, ok, denysoft}

pub record DomainRcpts {ℓ} (A : Type ℓ) : Type ℓ where
  pub domain : Text
  pub rcpts : List A

-- The files' names, and the names that `delivery_queue` was given.
pub record Queue : Type 0 where
  pub files : List Text
  pub delivery_queue : List Text

unfoldable pub has_path : Text → List Text → Bool
unfolding text_eq
has_path f [] = false
has_path f (p ∷ ps) = text_eq f p || has_path f ps

-- fs.unlink of each path.
unfoldable pub unlink_all : List Text → List Text → List Text
unfolding has_path
unlink_all paths [] = []
unlink_all paths (f ∷ fs) =
    let rest = unlink_all paths fs in if has_path f paths then rest else f ∷ rest

-- The end of the series, of the paths and whether it failed.
unfoldable pub settle : List Text × Bool → Queue → Retval × Queue
unfolding unlink_all
settle (ok_paths, err) q =
    if err
    then (denysoft, record q { files = unlink_all ok_paths (q.files ++ ok_paths) })
    else (ok, record { files = q.files ++ ok_paths; delivery_queue = q.delivery_queue ++ ok_paths })

-- `inherited` tells the names that an empty object has from Object.prototype, where the push throws;
-- `key_order` is the order of Object.keys.
module _ {ℓ} {A : Type ℓ} (host : A → Text) (inherited : Text → Bool)
    (key_order : List (DomainRcpts A) → List (DomainRcpts A)) where
  abbrev pub single : A → DomainRcpts A
  single r = record { domain = host r; rcpts = r ∷ [] }

  -- `recips[domain].push(rcpt)`, and before it the empty list.
  unfoldable pub add_rcpt : A → List (DomainRcpts A) → List (DomainRcpts A)
  unfolding text_eq
  add_rcpt r [] = single r ∷ []
  add_rcpt r (d ∷ ds) =
      let rest = add_rcpt r ds in
      if text_eq d.domain (host r) then record d { rcpts = d.rcpts ++ (r ∷ []) } ∷ ds else d ∷ rest

  -- The loop over the recipients.
  unfoldable pub by_domain : List A → List (DomainRcpts A) → Option (List (DomainRcpts A))
  unfolding add_rcpt
  by_domain [] recips = some recips
  by_domain (r ∷ rs) recips =
      let rest = by_domain rs (add_rcpt r recips) in if inherited (host r) then none else rest

  unfoldable pub deliveries : Bool → List A → Option (List (DomainRcpts A))
  unfolding by_domain
  deliveries always_split rcpt_to =
      if always_split
      then some (map single rcpt_to)
      else (elim (by_domain rcpt_to []) [ none ↦ none | some ds ↦ some (key_order ds) ])

  -- async.forEachSeries over process_delivery: `written i` tells if the file of the delivery with the
  -- todo_index i is written and renamed, and `fname i` is its name. The paths, and whether it failed.
  unfoldable pub process_deliveries :
      (ℕ → Bool) → (ℕ → Text) → ℕ → List (DomainRcpts A) → List Text × Bool
  process_deliveries written fname i [] = ([], false)
  process_deliveries written fname i (d ∷ ds) =
      let rest = process_deliveries written fname (i + 1) ds in
      if written i then (fname i ∷ rest.0, rest.1) else ([], true)

  -- What `next` is told, and the queue; none for the exception.
  unfoldable pub send_trans_email :
      Bool → (ℕ → Bool) → (ℕ → Text) → List A → Queue → Option (Retval × Queue)
  unfolding deliveries process_deliveries settle
  send_trans_email always_split written fname rcpt_to q = elim (deliveries always_split rcpt_to) [
    | none ↦ none
    | some ds ↦ some (settle (process_deliveries written fname 1 ds) q)
  ]
