-- ===== src/Tests/Api.antt =====
-- The handlers on the store of one scan, and an exchange of an identity.
use shared_integration.Prelude.{
  ◌≡◌, refl, true, none, some, List, [], ◌∷◌, ◌++◌, length, take, drop, codes, any, partition,
  has_prefix, all_codes, find, text_eq, mem_text, select, update, count, sort_by,
}
use shared_integration.Jobs.Sqlite.{get, mark_running, list_events, next_sequence, transition}
use shared_integration.Jobs.Sqlite.Events.{Numbered, events_of}
use shared_integration.Jobs.Sqlite.Invariant.{claims, settles, run}
use shared_integration.Execution.{status_only}
use shared_integration.Jobs.{succeeded, Event}
use shared_integration.Api.{replied}
use shared_integration.Api.Scans.{Round, Streamed, scan_events, event_stream}
use shared_integration.Api.Scans.Stream.{sent, IsComplete, scan_events_lem}
use shared_integration.Auth.Limiter.{
  Limiter, check, get as bucket, admit_key, charge, drop_stale, evict, last_stale, put,
}
use shared_integration.Identity.Values.{
  key_token, session_mark, parse_key, strip, strip_left, verify_secret, is_session_token,
}
use shared_integration.Identity.Tables.{find_membership, get_client, get_tenant, get_user}
use shared_integration.Identity.Accounts.{upsert_user, check_profile, insert_user}
use shared_integration.Identity.Clients.{
  ClientPrincipal, client_principal, authenticate_identity_client,
}
use shared_integration.Identity.Sessions.{
  session_row, issue_user_session, add_session, answer_session, authenticate_user_session,
  check_session,
}
use shared_integration.Api.Exchange.{
  Setting, Exchange, Granted, new_session, exchange_rate_key, exchange_identity,
}
use shared_integration.Api.Exchange.Grants.{grant, client_look, IsIssued, exchange_identity_granted}
use shared_integration.Tests.Identity.{plain, draw, user, client, db}
use shared_integration.Tests.Jobs.{made, row, made-IsWellFormed, get-made}

abbrev rounds : List Round
rounds =
    record { before_list = []; before_get = [] }
    ∷ record { before_list = claims "acme" "j1" true 20 ∷ []; before_get = [] }
    ∷ record { before_list = settles "acme" "j1" (status_only succeeded) 30 ∷ []; before_get = [] }
    ∷ record { before_list = []; before_get = [] }
    ∷ []

scan_events_lem_example :
    (out : Streamed) × (scan_events (λ s. none) "r1" "acme" "j1" none rounds made ≡ replied 200 out)
    × (sent out.chunks
        ≡ take (length (sent out.chunks)) (drop 0 (events_of "acme" "j1" out.log.events)))
    × Numbered 1 (sent out.chunks)
    × ((more : List Event) × (events_of "acme" "j1" out.log.events
          ≡ events_of "acme" "j1" made.events ++ more))
    × IsComplete "acme" "j1" 0 out
scan_events_lem_example =
    scan_events_lem (λ s. none) "r1" "acme" "j1" none rounds made row 0 made-IsWellFormed get-made
      refl

abbrev setting : Setting
setting = record {
  hashing = plain;
  others = λ n tables. tables;
  draws = λ n. draw;
  spell = λ t. "prefix";
  has_repository = true;
}

abbrev asked : Exchange
asked = record {
  host = some "10.0.0.1";
  token = some (key_token client.key_prefix draw.secret);
  request_id = "r2";
  profile = record {
    issuer = codes "https://id";
    subject = codes "s1";
    email = none;
    display_name = none;
  };
  requested_tenant_id = "acme";
}

abbrev limiter : Limiter
limiter = record {
  max_attempts = 2;
  window_seconds = 60;
  max_keys = 10;
  attempts = ("overflow", []) ∷ [];
}

abbrev known : ClientPrincipal
known = client_principal client

abbrev given : Granted
given = record {
  issued = record {
    session =
        session_row plain (new_session setting asked known user) (session_mark ++ draw.secret)
          300000000 draw;
    token = session_mark ++ draw.secret;
  };
  role = "analyst";
}

is_given : grant (exchange_identity setting asked 5 (limiter, db)).0 ≡ some given
unfolding exchange_identity check bucket any partition has_prefix all_codes
    authenticate_identity_client parse_key find text_eq strip verify_secret mem_text upsert_user
    check_profile issue_user_session add_session admit_key charge drop_stale evict last_stale put
    insert_user answer_session authenticate_user_session check_session find_membership get_client
    get_tenant get_user is_session_token strip_left select update
is_given = refl

exchange_identity_granted_example :
    ((check (exchange_rate_key setting asked) 5 limiter).allowed ≡ true)
    × (c : ClientPrincipal) × ((client_look setting asked db).0 ≡ some c)
    × IsIssued setting asked c (client_look setting asked db).1 given
exchange_identity_granted_example =
    exchange_identity_granted setting asked 5 limiter db given is_given

-- A job that succeeds between the two looks of a round: the stream ends, and its last event is not sent.
abbrev overtaken : List Round
overtaken =
    record { before_list = claims "acme" "j1" true 20 ∷ []; before_get = [] }
    ∷ record { before_list = []; before_get = settles "acme" "j1" (status_only succeeded) 30 ∷ [] }
    ∷ record { before_list = []; before_get = [] }
    ∷ []

ended_early :
    let out = event_stream "acme" "j1" overtaken 0 0 made in
    (out.ended ≡ true) × (length (sent out.chunks) ≡ 2) × (length out.log.events ≡ 2)
unfolding event_stream get find run mark_running count update list_events sort_by select
    next_sequence transition
ended_early = (refl, refl, refl)

all_three :
    let after =
      run
        (run
          (run made (claims "acme" "j1" true 20 ∷ []))
          (settles "acme" "j1" (status_only succeeded) 30 ∷ []))
        [] in
    length after.events ≡ 3
unfolding run get find mark_running count update select next_sequence transition
all_three = refl
