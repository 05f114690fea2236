-- ===== src/Outbound/Client.antt =====
-- outbound.js: `try_deliver_host_on_socket` from MAIL on: the commands, the replies, and the
-- recipients by the replies to them. What comes before (greeting, EHLO, STARTTLS, AUTH) has ended
-- with `send_command('MAIL', ...)`.
use haraka.Prelude.{
  ℕ, ◌+◌, ◌/◌, Bool, true, false, Option, none, some, List, [], ◌∷◌, ◌++◌, ◌&&◌, not, ◌==◌,
  is_empty, length, if◌then◌else◌,
}

pub data Command : Type 0 where
  mail rcpt data_command dot dot_lmtp rset : Command

abbrev pub is_data : Command → Bool
is_data data_command = true
is_data mail = false
is_data rcpt = false
is_data dot = false
is_data dot_lmtp = false
is_data rset = false

-- /^rcpt/.test(command) || command === 'dot_lmtp'
abbrev pub is_for_recipient : Command → Bool
is_for_recipient rcpt = true
is_for_recipient dot_lmtp = true
is_for_recipient mail = false
is_for_recipient data_command = false
is_for_recipient dot = false
is_for_recipient rset = false

-- What the conversation does to the others: a command on the socket, the message on it, the end of
-- the work with the three lists, and the calls for the whole mail.
pub data Action {ℓ} (A : Type ℓ) : Type ℓ where
  sent : Command → Option A → Action A
  stream : Action A
  finished : Bool → List A → List A → List A → Action A
  temp_fail bounce try_next_host threw : Action A

-- The variables of the function; `unsent` is `recipients` from `recip_index` on.
pub record Talk {ℓ} (A : Type ℓ) : Type ℓ where
  pub command : Command
  pub using_lmtp : Bool
  pub processing_mail : Bool
  pub fp_called : Bool
  pub unsent : List A
  pub last_recip : Option A
  pub lmtp_rcpt_idx : ℕ
  pub ok_recips : List A
  pub fail_recips : List A
  pub bounce_recips : List A
  pub out : List (Action A)

module _ {ℓ} {A : Type ℓ} where
  -- At `send_command('MAIL', ...)`.
  unfoldable pub create : Bool → List A → Talk A
  create lmtp recipients = record {
    command = mail;
    using_lmtp = lmtp;
    processing_mail = true;
    fp_called = false;
    unsent = recipients;
    last_recip = none;
    lmtp_rcpt_idx = 0;
    ok_recips = [];
    fail_recips = [];
    bounce_recips = [];
    out = sent mail none ∷ [];
  }

  abbrev pub act : Action A → Talk A → Talk A
  act a t = record t { out = t.out ++ (a ∷ []) }

  -- `send_command`, if the socket is writable or not
  unfoldable pub send_command : Bool → Command → Option A → Talk A → Talk A
  send_command writable cmd a t =
      if writable
      then record (act (sent cmd a) t) { command = cmd }
      else (if t.processing_mail
          then record (act try_next_host t) { processing_mail = false }
          else t)

  -- Without the splits it starts, which are told by the lists.
  unfoldable pub finish_processing_mail : Bool → Talk A → Talk A
  finish_processing_mail success t =
      if t.fp_called
      then t
      else (record (act (finished success t.ok_recips t.fail_recips t.bounce_recips) t) {
        fp_called = true;
        processing_mail = false;
      })

  -- RSET, and the whole mail is deferred or bounced.
  unfoldable pub give_up : Bool → Action A → Talk A → Talk A
  unfolding send_command
  give_up writable a t =
      act a (record (send_command writable rset none t) { processing_mail = false })

  unfoldable pub next_recipient : Bool → List A → Talk A → Talk A
  unfolding send_command
  next_recipient writable [] t = act threw t
  next_recipient writable (r ∷ rs) t =
      send_command writable rcpt (some r) (record t { last_recip = some r; unsent = rs })

  abbrev pub push_ok : ℕ → Option A → Talk A → Talk A
  push_ok code none t = t
  push_ok code (some r) t =
      if code == 250 then record t { ok_recips = t.ok_recips ++ (r ∷ []) } else t

  abbrev pub after_recipients : Bool → Talk A → Talk A
  unfolding send_command finish_processing_mail
  after_recipients writable t =
      if is_empty t.ok_recips
      then finish_processing_mail false (send_command writable rset none t)
      else send_command writable data_command none t

  unfoldable pub after_rcpt : Bool → Talk A → Talk A
  unfolding next_recipient
  after_rcpt writable t =
      if is_empty t.unsent then after_recipients writable t else next_recipient writable t.unsent t

  unfoldable pub after_dot_lmtp : ℕ → Talk A → Talk A
  unfolding finish_processing_mail
  after_dot_lmtp code t =
      let idx = if code / 100 == 2 then t.lmtp_rcpt_idx + 1 else t.lmtp_rcpt_idx in
      let t' = record t { lmtp_rcpt_idx = idx } in
      if idx == length t.ok_recips then finish_processing_mail true t' else t'

  -- switch (command)
  unfoldable pub proceed : Bool → ℕ → Command → Talk A → Talk A
  unfolding next_recipient after_rcpt finish_processing_mail send_command after_dot_lmtp
  proceed writable code mail t = next_recipient writable t.unsent t
  proceed writable code rcpt t = after_rcpt writable (push_ok code t.last_recip t)
  proceed writable code data_command t = act stream t
  proceed writable code dot t = send_command writable rset none (finish_processing_mail true t)
  proceed writable code dot_lmtp t = after_dot_lmtp code t
  proceed writable code rset t = t

  -- `fail_recips.push` of a code of the 400s, and else `bounce_recips.push`
  abbrev pub push_refused : Bool → A → Talk A → Talk A
  push_refused soft r t =
      if soft
      then record t { fail_recips = t.fail_recips ++ (r ∷ []) }
      else record t { bounce_recips = t.bounce_recips ++ (r ∷ []) }

  -- A recipient that is refused: the last one, and at the end of LMTP `ok_recips.shift()`.
  unfoldable pub refuse_lmtp : Bool → Bool → ℕ → List A → Talk A → Talk A
  unfolding proceed finish_processing_mail
  refuse_lmtp soft writable code [] t = act threw t
  refuse_lmtp soft writable code (r ∷ rs) t =
      let t' = push_refused soft r (record t { last_recip = some r; ok_recips = rs }) in
      if is_empty rs then finish_processing_mail true t' else proceed writable code dot_lmtp t'

  unfoldable pub refuse_rcpt : Bool → Bool → ℕ → Option A → Talk A → Talk A
  unfolding proceed
  refuse_rcpt soft writable code none t = act threw t
  refuse_rcpt soft writable code (some r) t = proceed writable code rcpt (push_refused soft r t)

  unfoldable pub refuse : Bool → Bool → ℕ → Command → Talk A → Talk A
  unfolding refuse_lmtp refuse_rcpt give_up
  refuse soft writable code dot_lmtp t = refuse_lmtp soft writable code t.ok_recips t
  refuse soft writable code rcpt t = refuse_rcpt soft writable code t.last_recip t
  refuse soft writable code mail t = give_up writable (if soft then temp_fail else bounce) t
  refuse soft writable code data_command t = give_up writable (if soft then temp_fail else bounce) t
  refuse soft writable code dot t = give_up writable (if soft then temp_fail else bounce) t
  refuse soft writable code rset t = give_up writable (if soft then temp_fail else bounce) t

  -- A last line of a reply, the `line` handler.
  unfoldable pub reply : Bool → ℕ → Talk A → Talk A
  unfolding refuse proceed give_up
  reply writable code t =
      if not t.processing_mail
      then t
      else (if code / 100 == 3 && not (is_data t.command)
          then give_up writable temp_fail t
          else (if code / 100 == 4
              then refuse true writable code t.command t
              else (if code / 100 == 5
                  then refuse false writable code t.command t
                  else proceed writable code t.command t)))

  -- The end of the message on the socket.
  unfoldable pub data_end : Bool → Talk A → Talk A
  unfolding send_command
  data_end writable t = send_command writable (if t.using_lmtp then dot_lmtp else dot) none t

  -- `error` or `close` of the socket
  unfoldable pub lost : Talk A → Talk A
  lost t = if t.processing_mail then record (act try_next_host t) { processing_mail = false } else t
