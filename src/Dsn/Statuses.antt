-- ===== src/Dsn/Statuses.antt =====
-- dsn.js: the texts of the status codes, and the functions that make a status.
use haraka.Prelude.{ℕ, List, [], ◌∷◌}
use haraka.Prelude.Text.{Text, text}

-- `enum_status_codes`
unfoldable pub enum_status_codes : List (List Text)
unfolding text
enum_status_codes =
    (text "Other undefined status" ∷ [])
    ∷ (text "Other address status"
        ∷ text "Bad destination mailbox address"
        ∷ text "Bad destination system address"
        ∷ text "Bad destination mailbox address syntax"
        ∷ text "Destination mailbox address ambiguous"
        ∷ text "Destination address valid"
        ∷ text "Destination mailbox has moved, No forwarding address"
        ∷ text "Bad sender's mailbox address syntax"
        ∷ text "Bad sender's system address"
        ∷ [])
    ∷ (text "Other or undefined mailbox status"
        ∷ text "Mailbox disabled, not accepting messages"
        ∷ text "Mailbox full"
        ∷ text "Message length exceeds administrative limit"
        ∷ text "Mailing list expansion problem"
        ∷ [])
    ∷ (text "Other or undefined mail system status"
        ∷ text "Mail system full"
        ∷ text "System not accepting network messages"
        ∷ text "System not capable of selected features"
        ∷ text "Message too big for system"
        ∷ text "System incorrectly configured"
        ∷ [])
    ∷ (text "Other or undefined network or routing status"
        ∷ text "No answer from host"
        ∷ text "Bad connection"
        ∷ text "Directory server failure"
        ∷ text "Unable to route"
        ∷ text "Mail system congestion"
        ∷ text "Routing loop detected"
        ∷ text "Delivery time expired"
        ∷ [])
    ∷ (text "Other or undefined protocol status"
        ∷ text "Invalid command"
        ∷ text "Syntax error"
        ∷ text "Too many recipients"
        ∷ text "Invalid command arguments"
        ∷ text "Wrong protocol version"
        ∷ text "Authentication Exchange line is too long"
        ∷ [])
    ∷ (text "Other or undefined media error"
        ∷ text "Media not supported"
        ∷ text "Conversion required and prohibited"
        ∷ text "Conversion required but not supported"
        ∷ text "Conversion with loss performed"
        ∷ text "Conversion failed"
        ∷ [])
    ∷ (text "Other or undefined security status"
        ∷ text "Delivery not authorized, message refused"
        ∷ text "Mailing list expansion prohibited"
        ∷ text "Security conversion required but not possible"
        ∷ text "Security features not supported"
        ∷ text "Cryptographic failure"
        ∷ text "Cryptographic algorithm not supported"
        ∷ text "Message integrity failure"
        ∷ text "Authentication credentials invalid"
        ∷ text "Authentication mechanism is too weak"
        ∷ text ""
        ∷ text "Encryption required for requested authentication mechanism"
        ∷ [])
    ∷ []

-- The functions that make a status of one kind.
pub data Status : Type 0 where
  unspecified addr_unspecified addr_bad_dest_mbox no_such_user addr_bad_dest_system : Status
  addr_bad_dest_syntax addr_dest_ambigous addr_rcpt_ok addr_mbox_moved : Status
  addr_bad_from_syntax addr_bad_from_system mbox_unspecified mbox_disabled mbox_full : Status
  mbox_msg_too_long mbox_list_expansion_problem sys_unspecified sys_disk_full : Status
  sys_not_accepting_mail sys_not_supported sys_msg_too_big sys_incorrectly_configured : Status
  net_unspecified net_no_answer net_bad_connection net_directory_server_failed : Status
  temp_resolver_failed net_unable_to_route net_system_congested net_routing_loop : Status
  too_many_hops net_delivery_time_expired proto_unspecified proto_invalid_command : Status
  proto_syntax_error proto_too_many_rcpts proto_invalid_cmd_args proto_wrong_version : Status
  media_unspecified media_unsupported media_conv_prohibited media_conv_unsupported : Status
  media_conv_lossy media_conv_failed sec_unspecified sec_unauthorized bad_sender_ip : Status
  relaying_denied sec_list_expn_prohibited sec_conv_failed sec_feature_unsupported : Status
  sec_crypto_failure sec_crypto_algo_unsupported sec_msg_integrity_failure auth_succeeded : Status
  auth_pass_transition_needed auth_temp_fail auth_too_weak auth_invalid auth_exch_too_long : Status
  auth_required auth_crypt_required : Status

-- The default code of each, its subject and its detail.
pub record Spec : Type 0 where
  pub def : Text
  pub subject : ℕ
  pub detail : ℕ

unfoldable pub spec : Status → Spec
unfolding text
spec unspecified = record { def = text "450"; subject = 0; detail = 0 }
spec addr_unspecified = record { def = text "450"; subject = 1; detail = 0 }
spec addr_bad_dest_mbox = record { def = text "550"; subject = 1; detail = 1 }
spec no_such_user = record { def = text "550"; subject = 1; detail = 1 }
spec addr_bad_dest_system = record { def = text "550"; subject = 1; detail = 2 }
spec addr_bad_dest_syntax = record { def = text "550"; subject = 1; detail = 3 }
spec addr_dest_ambigous = record { def = text "450"; subject = 1; detail = 4 }
spec addr_rcpt_ok = record { def = text "250"; subject = 1; detail = 5 }
spec addr_mbox_moved = record { def = text "550"; subject = 1; detail = 6 }
spec addr_bad_from_syntax = record { def = text "550"; subject = 1; detail = 7 }
spec addr_bad_from_system = record { def = text "550"; subject = 1; detail = 8 }
spec mbox_unspecified = record { def = text "450"; subject = 2; detail = 0 }
spec mbox_disabled = record { def = text "550"; subject = 2; detail = 1 }
spec mbox_full = record { def = text "450"; subject = 2; detail = 2 }
spec mbox_msg_too_long = record { def = text "550"; subject = 2; detail = 3 }
spec mbox_list_expansion_problem = record { def = text "450"; subject = 2; detail = 4 }
spec sys_unspecified = record { def = text "450"; subject = 3; detail = 0 }
spec sys_disk_full = record { def = text "450"; subject = 3; detail = 1 }
spec sys_not_accepting_mail = record { def = text "450"; subject = 3; detail = 2 }
spec sys_not_supported = record { def = text "450"; subject = 3; detail = 3 }
spec sys_msg_too_big = record { def = text "550"; subject = 3; detail = 4 }
spec sys_incorrectly_configured = record { def = text "450"; subject = 3; detail = 5 }
spec net_unspecified = record { def = text "450"; subject = 4; detail = 0 }
spec net_no_answer = record { def = text "450"; subject = 4; detail = 1 }
spec net_bad_connection = record { def = text "450"; subject = 4; detail = 2 }
spec net_directory_server_failed = record { def = text "450"; subject = 4; detail = 3 }
spec temp_resolver_failed = record { def = text "450"; subject = 4; detail = 3 }
spec net_unable_to_route = record { def = text "550"; subject = 4; detail = 4 }
spec net_system_congested = record { def = text "450"; subject = 4; detail = 5 }
spec net_routing_loop = record { def = text "550"; subject = 4; detail = 6 }
spec too_many_hops = record { def = text "550"; subject = 4; detail = 6 }
spec net_delivery_time_expired = record { def = text "550"; subject = 4; detail = 7 }
spec proto_unspecified = record { def = text "450"; subject = 5; detail = 0 }
spec proto_invalid_command = record { def = text "550"; subject = 5; detail = 1 }
spec proto_syntax_error = record { def = text "550"; subject = 5; detail = 2 }
spec proto_too_many_rcpts = record { def = text "450"; subject = 5; detail = 3 }
spec proto_invalid_cmd_args = record { def = text "550"; subject = 5; detail = 4 }
spec proto_wrong_version = record { def = text "450"; subject = 5; detail = 5 }
spec media_unspecified = record { def = text "450"; subject = 6; detail = 0 }
spec media_unsupported = record { def = text "550"; subject = 6; detail = 1 }
spec media_conv_prohibited = record { def = text "550"; subject = 6; detail = 2 }
spec media_conv_unsupported = record { def = text "450"; subject = 6; detail = 3 }
spec media_conv_lossy = record { def = text "450"; subject = 6; detail = 4 }
spec media_conv_failed = record { def = text "450"; subject = 6; detail = 5 }
spec sec_unspecified = record { def = text "450"; subject = 7; detail = 0 }
spec sec_unauthorized = record { def = text "550"; subject = 7; detail = 1 }
spec bad_sender_ip = record { def = text "550"; subject = 7; detail = 1 }
spec relaying_denied = record { def = text "550"; subject = 7; detail = 1 }
spec sec_list_expn_prohibited = record { def = text "550"; subject = 7; detail = 2 }
spec sec_conv_failed = record { def = text "550"; subject = 7; detail = 3 }
spec sec_feature_unsupported = record { def = text "550"; subject = 7; detail = 4 }
spec sec_crypto_failure = record { def = text "550"; subject = 7; detail = 5 }
spec sec_crypto_algo_unsupported = record { def = text "450"; subject = 7; detail = 6 }
spec sec_msg_integrity_failure = record { def = text "550"; subject = 7; detail = 7 }
spec auth_succeeded = record { def = text "235"; subject = 7; detail = 0 }
spec auth_pass_transition_needed = record { def = text "432"; subject = 7; detail = 12 }
spec auth_temp_fail = record { def = text "454"; subject = 7; detail = 0 }
spec auth_too_weak = record { def = text "534"; subject = 7; detail = 9 }
spec auth_invalid = record { def = text "535"; subject = 7; detail = 8 }
spec auth_exch_too_long = record { def = text "500"; subject = 5; detail = 6 }
spec auth_required = record { def = text "530"; subject = 7; detail = 0 }
spec auth_crypt_required = record { def = text "538"; subject = 7; detail = 11 }
