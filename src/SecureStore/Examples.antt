-- ===== src/SecureStore/Examples.antt =====
-- Examples of the encrypted store: one room with one message, under a toy cipher.
use spacechat.Prelude.{
  All, ℕ, ◌≡◌, refl, ◌⊎◌, ◌≢◌, ◌<◌, ◌≤◌, ◌+◌, true, false, List, [], ◌∷◌, ◌++◌, map, Option, none,
  some, arith, Text, codes, text_eq, text_eq_refl, if◌then◌else◌, ok,
}
use spacechat.Prelude.Int.{pos, negsuc}
use spacechat.Decimal.{print}
use spacechat.Unicode.{valid_string}
use spacechat.Protocol.Frames.{Message, Timestamp, at, unreadable, parse_time, recall_window}
use spacechat.Pages.{page_of}
use spacechat.SecureStore.Sealing.{Codec, Content, is_utf8}
use spacechat.SecureStore.{
  Row, Store, Fails, aad, message_of, recalled_message, append_chat, clear_all, insert_room,
  find_row, read_content, page, recall, erase, instance_id,
}
use spacechat.SecureStore.Reading.{Shows, page-Shows}
use spacechat.SecureStore.Append.{
  Rising, sealed_row, read_row-sealed, append_chat-Shows, append_chat-Rising, append_chat-clear_all,
}
use spacechat.Pages.{message_at}
use spacechat.SecureStore.Recall.{blank}
use spacechat.SecureStore.RecallResult.{recall-Shows}

abbrev toy_unseal : Content × Text → Text → Option Content
toy_unseal (c, a) aad = if text_eq a aad then some c else none

abbrev toy_time : Timestamp → Text
toy_time (at n) = print n
toy_time (unreadable t) = t

abbrev toy_read : Content → Option Content
toy_read c = if is_utf8 c then some c else none

pub toy_read-valid : (p : Content) {c : Content} → toy_read p ≡ some c → is_utf8 c ≡ true
toy_read-valid p {c = c} e = ground arith

-- The cipher text is the content beside its additional data.
abbrev pub toy : Codec
toy = record {
  Cipher = Content × Text;
  Nonce = Unit {0};
  Plain = Content;
  seal = λ n plain aad. (plain, aad);
  unseal = toy_unseal;
  marshal_content = λ c. c;
  unmarshal_content = toy_read;
  print_time = toy_time;
  unseal-seal = λ n plain aad. rw (text_eq_refl aad) refl;
  unmarshal-marshal = λ c h. rw h refl;
  unmarshal-valid = λ p {c} e. toy_read-valid p {c = c} e;
}

abbrev hello : Content
hello = record {
  nickname = codes "ann";
  body = codes "hello";
  owner_id = codes "k1";
  mentions = [];
  recalled = false;
}

hello_valid : is_utf8 hello ≡ true
unfolding valid_string
hello_valid = ground arith

abbrev room : Text
room = codes "r"

abbrev no_fails : Fails
no_fails k = false

abbrev empty_store : Store (Content × Text)
empty_store = record {
  tables = record {
    rooms = room ∷ [];
    messages = [];
    next_id = 1;
    instance_id = codes "i";
    epochs = [];
  };
  instance = codes "i";
  epochs = [];
}

abbrev stored : Row (Content × Text)
stored = sealed_row toy room 1 5 hello tt

abbrev said : Message
said = message_of 1 (at 5) hello

abbrev one_store : Store (Content × Text)
one_store = record {
  tables = record {
    rooms = room ∷ [];
    messages = stored ∷ [];
    next_id = 2;
    instance_id = codes "i";
    epochs = [];
  };
  instance = codes "i";
  epochs = [];
}

appended :
    append_chat toy room (codes "ann") (codes "hello") (codes "k1") [] 5 tt no_fails empty_store
    ≡ ok (said, one_store)
unfolding append_chat insert_room text_eq sealed_row
appended = refl

one_shown : Shows toy room one_store (said ∷ [])
unfolding sealed_row text_eq
one_shown = (read_row-sealed toy room 1 5 hello tt hello_valid, tt)

page-Shows_example :
    page toy room (negsuc 0) (pos 0) 9 no_fails one_store
    ≡ ok (page_of (negsuc 0) (pos 0) 9 (said ∷ []))
page-Shows_example =
    page-Shows toy room (negsuc 0) (pos 0) 9 no_fails one_store (said ∷ []) one_shown refl refl

append_chat-Shows_example :
    Shows toy room one_store ([] ++ (if text_eq room room then said ∷ [] else []))
append_chat-Shows_example =
    append_chat-Shows toy room (codes "ann") (codes "hello") (codes "k1") [] 5 tt no_fails
      empty_store said one_store appended hello_valid room [] tt

append_chat-Rising_example :
    Rising 0 one_store.tables.messages 2 × (said.id ≡ empty_store.tables.next_id) × (1 < 2)
unfolding sealed_row
append_chat-Rising_example =
    append_chat-Rising toy room (codes "ann") (codes "hello") (codes "k1") [] 5 tt no_fails
      empty_store said one_store appended (omega arith)

abbrev cleared_store : Store (Content × Text)
cleared_store = record {
  tables = record { rooms = []; messages = []; next_id = 2; instance_id = codes "j"; epochs = [] };
  instance = codes "j";
  epochs = [];
}

cleared : clear_all (codes "j") no_fails one_store ≡ ok (1, cleared_store)
unfolding clear_all
cleared = refl

one-Rising : Rising 0 one_store.tables.messages 2
unfolding sealed_row
one-Rising = (omega arith, omega arith)

abbrev said_again : Message
said_again = message_of 2 (at 5) hello

abbrev again_store : Store (Content × Text)
again_store = record {
  tables = record {
    rooms = room ∷ [];
    messages = sealed_row toy room 2 5 hello tt ∷ [];
    next_id = 3;
    instance_id = codes "j";
    epochs = [];
  };
  instance = codes "j";
  epochs = [];
}

appended_again :
    append_chat toy room (codes "ann") (codes "hello") (codes "k1") [] 5 tt no_fails cleared_store
    ≡ ok (said_again, again_store)
unfolding append_chat insert_room text_eq sealed_row
appended_again = refl

append_chat-clear_all_example :
    All (λ r. r.id < said_again.id) one_store.tables.messages
    × Shows toy room again_store (if text_eq room room then said_again ∷ [] else [])
append_chat-clear_all_example =
    append_chat-clear_all toy room (codes "ann") (codes "hello") (codes "k1") [] 5 tt (codes "j")
      no_fails no_fails one_store cleared_store again_store 1 said_again one-Rising cleared
      appended_again hello_valid room

abbrev after_recall : Store (Content × Text)
after_recall = erase toy room stored hello (codes "e") tt one_store

read_stored : read_content toy room stored ≡ ok hello
unfolding read_content sealed_row
read_stored = rw (text_eq_refl (aad toy room 1 (at 5)), hello_valid) refl

recalled_once :
    recall toy room (pos 1) (codes "k1") 7 (codes "e") tt no_fails one_store
    ≡ ok (recalled_message stored hello, after_recall)
unfolding recall find_row text_eq sealed_row parse_time
recalled_once = rw read_stored refl

recall-Shows_example :
    (old : Message) × (message_at 1 (said ∷ []) ≡ some old)
    × (codes "k1" ≢ [])
    × (old.owner_id ≡ codes "k1")
    × (((old.recalled ≡ true) × (after_recall ≡ one_store))
        ⊎ ((old.recalled ≡ false)
            × (created : ℕ) × (parse_time old.created_at ≡ some created)
            × (7 ≤ created + recall_window)
            × ((other : Text) (os : List Message)
                → Shows toy other one_store os
                → Shows toy other after_recall
                    (if text_eq room other then map (blank 1) os else os))
            × (instance_id room after_recall ≡ codes "i" ++ b':' ∷ (room ++ b':' ∷ codes "e"))))
recall-Shows_example =
    recall-Shows toy room 1 7 (codes "k1") (codes "e") tt no_fails one_store
      (recalled_message stored hello) after_recall recalled_once one-Rising (said ∷ []) one_shown
