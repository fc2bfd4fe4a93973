-- ===== src/Server/Examples.antt =====
-- Examples of the laws on a server: two connections in two rooms, under a toy cipher.
use spacechat.Prelude.{
  ℕ, ◌≡◌, refl, true, false, List, [], ◌∷◌, ◌++◌, none, some, arith, Text, codes, leb, ◌&&◌, ◌||◌,
}
use spacechat.Prelude.Int.{pos}
use spacechat.Unicode.{Tables}
use spacechat.Protocol.Frames.{Request, Join, Kind, encode, sync_complete, complete, presence}
use spacechat.SecureStore
use spacechat.SecureStore.Examples.{toy}
use spacechat.Server.Backend.{rooms}
use spacechat.Server.Session.{Session, finish_sync}
use spacechat.Server.State.{Server, Env, session_at}
use spacechat.Server.Handle.{handle}
use spacechat.Server.Sound.{IsSound}
use spacechat.Server.Run.{
  Event, joins, sends, leaves, writes, breaks, clears, closes, run, run-IsSound,
}
use spacechat.Server.Isolation.{outside, handle-outside}
use spacechat.Server.Order.{finish_sync-outgoing}

abbrev ascii : Tables
ascii = record {
  is_letter = λ c. leb b'a' c && leb c b'z' || leb b'A' c && leb c b'Z';
  is_number = λ c. leb b'0' c && leb c b'9';
  at_plain = refl;
  bracket_plain = refl;
}

abbrev env : Env toy.Nonce
env = record {
  now = 7;
  nonce = tt;
  epoch = codes "e";
  fails = λ n k. false;
  hash_key = λ key. key;
  hash_token = λ bytes. codes "owner";
  mac = λ key. key;
  tables = ascii;
}

abbrev store : SecureStore.Store toy.Cipher
store = record {
  tables = record { rooms = []; messages = []; next_id = 1; instance_id = codes "i"; epochs = [] };
  instance = codes "i";
  epochs = [];
}

abbrev member : ℕ → Text → Text → Session
member id name room = record {
  id = id;
  name = name;
  owner = codes "owner";
  room = room;
  syncing = false;
  through = 3;
  cursor = 0;
  deferred = [];
  outgoing = [];
  cancelled = false;
}

abbrev service_of : List Session → Server toy.Cipher
service_of sessions = record {
  backend = rooms store;
  sessions = sessions;
  closed = false;
  key_hash = none;
  minimum = none;
}

abbrev ann_joins : Join
ann_joins = record {
  access_key = codes "key";
  nickname = codes "ann";
  instance_id = [];
  after_id = pos 0;
  client_token = [];
  client_version = [];
  client_os = [];
  client_arch = [];
}

abbrev hello : Request
hello = record {
  kind = Kind.send;
  request_id = codes "1";
  payload = record {
    as_join = none;
    as_send = some (codes "hello");
    as_recall = none;
    as_query = none;
  };
}

abbrev events : List (Event toy.Nonce)
events =
    joins env 1 ann_joins
    ∷ joins env 2 ann_joins
    ∷ sends env 1 hello
    ∷ writes 1
    ∷ breaks 2
    ∷ clears env
    ∷ leaves 1
    ∷ closes
    ∷ []

run-IsSound_example : IsSound (run toy events (service_of [])).sessions
run-IsSound_example = run-IsSound toy events (service_of []) refl

abbrev two : Server toy.Cipher
two = service_of (member 1 (codes "ann") (codes "r") ∷ member 2 (codes "bob") (codes "q") ∷ [])

ann_found : session_at 1 two.sessions ≡ some (member 1 (codes "ann") (codes "r"))
unfolding session_at
ann_found = refl

handle-outside_example :
    outside (codes "r") (handle toy env 1 hello two).sessions ≡ outside (codes "r") two.sessions
handle-outside_example =
    handle-outside toy env 1 hello two (member 1 (codes "ann") (codes "r")) ann_found

-- A connection that holds a frame back while it synchronises.
abbrev waiting : Session
waiting = record (member 1 (codes "ann") (codes "r")) {
  syncing = true;
  deferred = encode Kind.presence [] (presence (codes "ann" ∷ [])) ∷ [];
}

finish_sync-outgoing_example :
    ((finish_sync waiting).outgoing ≡ [] ++ encode sync_complete [] (complete 3) ∷ waiting.deferred)
    × ((finish_sync waiting).deferred ≡ [])
    × ((finish_sync waiting).syncing ≡ false)
    × ((finish_sync waiting).cancelled ≡ false)
finish_sync-outgoing_example = finish_sync-outgoing waiting refl (omega arith)
