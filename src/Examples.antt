-- ===== src/Examples.antt =====
-- Examples of the laws on pages, texts, versions, manifests, catalogs, clients and updates.
use mathlib.Core.List.{List, [], ◌∷◌, ◌++◌}
use spacechat.Prelude.{
  ℕ, zero, suc, ◌≡◌, ◌↔◌, refl, ◌≤◌, true, false, not, ◌&&◌, ◌||◌, length, Option, none, some,
  arith, Text, codes, text_eq, All, all, ltb, leb, ok,
}
use spacechat.Prelude.Int.{pos, negsuc}
use spacechat.Prelude.TextList.{contains}
use spacechat.Unicode.{Tables, is_space, is_control, trim_space, valid_string}
use spacechat.Protocol.Frames.{Message, at, Kind, page_size}
use spacechat.Protocol.Validate.{validate_name, is_plain, validate_name-ok}
use spacechat.Protocol.Mentions.{find_mentions, mention_text, mention_word}
use spacechat.Protocol.MentionLaws.{Mentioned, find_mentions-Mentioned, find_mentions-mention_text}
use spacechat.AccessKey.{validate_key, validate_key-ok}
use spacechat.Pages.{page_of, last_id, Ascending}
use spacechat.Pages.Bounds.{length-page_of}
use spacechat.Pages.Sync.{sync_rounds, pending, sync_rounds-pending}
use spacechat.Pages.History.{older, page_of-older}
use spacechat.Update.Version.{
  Version, parse_version, string, compare_version, decision_for, required, optional, current, ahead,
}
use spacechat.Update.Version.Order.{Older, compare_version-Older, decision_for_cases}
use spacechat.Update.Version.RoundTrip.{Fits, parse_version-string, string-parse_version}
use spacechat.Update.Runner.{Setting, Check, Outcome, Action, exit, skip, retry, continue, run}
use spacechat.Update.Runner.Safety.{run-not-continue}
use spacechat.Update.Runner.Ends.{run-ends}
use spacechat.Client.{Network, Incoming, receive, sync}
use spacechat.Client.Cursor.{receive-next}
use spacechat.Client.Reconnect.{Round, IsWait, other, reconnect, reconnect-IsWait}

abbrev said : ℕ → Message
said n = record {
  id = n;
  nickname = codes "ann";
  body = codes "hi";
  created_at = at n;
  mentions = [];
  recalled = false;
  can_recall = false;
  owner_id = codes "k";
}

abbrev three : List Message
three = said 1 ∷ said 2 ∷ said 4 ∷ []

three-Ascending : Ascending 0 three
three-Ascending = (omega arith, (omega arith, (omega arith, tt)))

length-page_of_example : length (page_of (pos 0) (pos 1) 4 three).messages ≤ page_size
length-page_of_example = length-page_of (pos 0) (pos 1) 4 three

sync_rounds-pending_example : sync_rounds 3 1 4 three ≡ pending 1 4 three
sync_rounds-pending_example = sync_rounds-pending 3 1 4 three three-Ascending (omega arith)

page_of-older_example :
    let p = page_of (pos 4) (pos 0) 4 three in
    (rest : List Message) × (older 4 4 three ≡ rest ++ p.messages)
    × (p.has_more ≡ ltb 0 (length rest))
page_of-older_example = page_of-older 4 4 three (omega arith)

validate_name-ok_example : (validate_name (codes "ann") ≡ ok tt) ↔ (
    (trim_space (codes "ann") ≡ codes "ann")
    × (1 ≤ length (codes "ann"))
    × (length (codes "ann") ≤ 20)
    × (all is_plain (codes "ann") ≡ true))
validate_name-ok_example = validate_name-ok (codes "ann")

validate_key-ok_example : (validate_key (codes "key") ≡ ok tt) ↔ (
    (all is_space (codes "key") ≡ false)
    × (length (codes "key") ≤ 256)
    × (valid_string (codes "key") ≡ true)
    × (all (λ c. not (is_control c)) (codes "key") ≡ true))
validate_key-ok_example = validate_key-ok (codes "key")

-- The letters and digits of ASCII.
abbrev ascii : Tables
ascii = record {
  is_letter = λ c. leb b'a' c && leb c b'z' || leb b'A' c && leb c b'Z';
  is_number = λ c. leb b'0' c && leb c b'9';
  at_plain = refl;
  bracket_plain = refl;
}

abbrev members : List Text
members = codes "ann" ∷ codes "bob" ∷ []

find_mentions-Mentioned_example :
    Mentioned members (find_mentions ascii (codes "hi @ann @ann") members)
find_mentions-Mentioned_example = find_mentions-Mentioned ascii members (codes "hi @ann @ann")

ann_words : all (mention_word ascii) (codes "ann") ≡ true
unfolding mention_word
ann_words = refl

ann_valid : valid_string (codes "ann") ≡ true
unfolding valid_string
ann_valid = ground arith

ann_member : contains members (codes "ann") ≡ true
unfolding text_eq
ann_member = refl

find_mentions-mention_text_example :
    find_mentions ascii (mention_text ascii (codes "ann")) members ≡ codes "ann" ∷ []
find_mentions-mention_text_example =
    find_mentions-mention_text ascii (codes "ann") members ann_words ann_valid ann_member

abbrev v1 : Version
v1 = record { major = 1; minor = 0; patch = 2 }

abbrev v2 : Version
v2 = record { major = 1; minor = 3; patch = 0 }

v1_parsed : parse_version (string v1) ≡ ok v1
v1_parsed =
    parse_version-string v1
      (record { major = omega arith; minor = omega arith; patch = omega arith })

parse_version-string_example : parse_version (string v2) ≡ ok v2
parse_version-string_example =
    parse_version-string v2
      (record { major = omega arith; minor = omega arith; patch = omega arith })

string-parse_version_example : (string v1 ≡ string v1) × Fits v1
string-parse_version_example = string-parse_version (string v1) v1 v1_parsed

compare_version-Older_example :
    ((compare_version v1 v2 ≡ negsuc 0) ↔ Older v1 v2)
    × ((compare_version v1 v2 ≡ pos 0) ↔ (v1 ≡ v2))
    × ((compare_version v1 v2 ≡ pos 1) ↔ Older v2 v1)
compare_version-Older_example = compare_version-Older v1 v2

v2_not-Older : ¬ Older v2 v1
v2_not-Older h = ground arith

decision_for_cases_example :
    ((decision_for v1 v2 v1 ≡ required) ↔ Older v1 v1)
    × ((decision_for v1 v2 v1 ≡ optional) ↔ ((¬ Older v1 v1) × Older v1 v2))
    × ((decision_for v1 v2 v1 ≡ current) ↔ (v1 ≡ v2))
    × ((decision_for v1 v2 v1 ≡ ahead) ↔ Older v2 v1)
decision_for_cases_example = decision_for_cases v1 v2 v1 v2_not-Older

-- The check fails once and then finds an update; its installation fails, and the user leaves.
abbrev second_check : ℕ → Option Check
second_check zero = none
second_check (suc n) = some (record { latest = v2; decision = optional })

abbrev later_exit : ℕ → Action
later_exit zero = retry
later_exit (suc n) = exit

abbrev setting : Setting
setting = record {
  known_incompatible = true;
  is_configured = true;
  has_installer = true;
  has_launch = true;
  check = second_check;
  choose_check = later_exit;
  choose = skip;
  install = λ n. none;
  launch = λ n path. false;
  rollback = λ n. true;
  choose_install = later_exit;
}

run-not-continue_example : ¬ (run 2 setting ≡ some continue)
run-not-continue_example = run-not-continue setting 2 refl

run-ends_example : (o : Outcome) × (run 2 setting ≡ some o)
run-ends_example = run-ends setting 2 1 1 refl (omega arith) refl (omega arith)

abbrev network : Network
network = record {
  instance = codes "i";
  cursor = 1;
  ever_connected = false;
  ready = false;
  alive = true;
  welcomed = true;
  outgoing = [];
  events = [];
}

abbrev sync_frame : Incoming
sync_frame = record {
  kind = Kind.sync;
  request_id = codes "initial";
  payload = record {
    as_welcome = none;
    as_page = some (record { messages = said 2 ∷ said 4 ∷ []; has_more = true; through_id = 9 });
    as_message = none;
    as_recalled = none;
    as_cleared = none;
    as_complete = none;
    as_failure = none;
    as_presence = none;
  };
}

receive-next_example :
    (after : Network) × (receive true true Kind.sync sync_frame network ≡ ok after)
    × (after.cursor ≡ last_id 1 (said 2 ∷ said 4 ∷ []))
    × (after.outgoing
        ≡ []
          ++ sync (record { before_id = pos 0; after_id = pos (last_id 1 (said 2 ∷ said 4 ∷ [])) })
            ∷ [])
receive-next_example =
    receive-next sync_frame
      (record { messages = said 2 ∷ said 4 ∷ []; has_more = true; through_id = 9 }) network refl
      (omega arith, (omega arith, tt)) refl (omega arith)

-- A connection that broke after a second.
abbrev broken : Round
broken = record {
  cancelled = false;
  ending = other;
  ever_connected = true;
  lasted = 1000000000;
  random = λ n. 0;
  random_lt = λ n h. h;
  interrupted = false;
}

reconnect-IsWait_example :
    All (IsWait 1000000000) (reconnect 1000000000 1000000000 (broken ∷ broken ∷ [])).0
reconnect-IsWait_example =
    reconnect-IsWait 1000000000 1000000000 (broken ∷ broken ∷ []) (omega arith) (omega arith)
