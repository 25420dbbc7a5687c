-- ===== src/LoadTest/Tests.antt =====
-- The scripts at concrete answers of the server.
use im_single.Base.{
  same_text, if◌then◌else◌, thrown, ℕ, suc, pos, ◌+◌, ◌++◌, [], ◌∷◌, ◌≡◌, refl, returned, none,
  some, true, false,
}
use im_single.Jspb.Sample.{Slots, Packed, sample, sample_meaning, empty, put, numeral, text, object}
use im_single.Jspb.Sample.Laws.{sample_objects, sample_writing, sample_reading}
use im_single.Proto.Schema.Plain.{plain, valid}
use im_single.Proto.Packet.{serialize_binary, to_object}
use im_single.LoadTest.Script.{
  Text, codes, script, script1, script2, url_of, NodeInfo, SetupData, socket_url, setup, setup_url,
  binary_message, failed, log, handle, status_is_101,
}
use im_single.LoadTest.Script.Query.{query, socket_url-query}
use im_single.LoadTest.Script.Session.{handle-serialize}

abbrev node : NodeInfo
node = record { protocol = codes "ws"; address = codes "10.0.0.7"; port = codes "8090" }

abbrev answer : SetupData
answer = record { token = codes "9f=0"; time = codes "1650000000"; node_info = node ∷ [] }

-- A packet with a message of two fields and a timestamp.
abbrev packet : Slots
packet =
    put 3 (object (put 1 (numeral (pos 1)) (put 2 (text (codes "hi")) empty)))
      (put 2 (numeral (pos 5)) empty)

abbrev show_nothing : Slots → Text
show_nothing o = []

setup_url-script :
    setup_url script ≡ codes "http://localhost:8180/channel/ch_00000001/init?userId=user_123"
unfolding setup_url
setup_url-script = refl

socket_url-script1 :
    socket_url script1 answer
    ≡ returned (codes "ws://10.0.0.7:8090/ws?cid=ch_00000001&uid=user_456&t=9f=0&tm=1650000000")
unfolding socket_url
socket_url-script1 = refl

-- A server that answers one request only.
setup-script2 :
    setup {Response = Text}
      (λ url. url)
      (λ r. if same_text r (setup_url script2) then returned answer else thrown)
      script2
    ≡ returned answer
unfolding setup setup_url
setup-script2 = refl

upgraded : status_is_101 (some 101) ≡ true
unfolding status_is_101
upgraded = refl

not_upgraded : (status_is_101 (some 403) ≡ false) × (status_is_101 none ≡ false)
unfolding status_is_101
not_upgraded = (refl, refl)

socket_url-query_example :
    (url : Text) × (socket_url script answer ≡ returned url)
    × (query url
        ≡ some (
            (codes "cid", codes "ch_00000001")
            ∷ (codes "uid", codes "user_123")
            ∷ (codes "t", codes "9f=0")
            ∷ (codes "tm", codes "1650000000")
            ∷ []))
socket_url-query_example =
    socket_url-query script answer node [] refl refl refl refl refl refl refl refl

handle-serialize_example :
    (bytes : Packed) × (o' : Slots) × (serialize_binary sample packet ≡ returned bytes)
    × ((extra : ℕ)
        → handle sample (suc (sample.byte_length bytes + extra)) show_nothing (binary_message bytes)
          ≡ returned (log ((codes "Received binaryMessage: " ++ show_nothing o') ∷ []) ∷ []))
    × (to_object sample false o' ≡ to_object sample false packet)
unfolding plain valid
handle-serialize_example =
    handle-serialize sample sample_meaning sample_objects sample_writing sample_reading show_nothing
      packet refl

-- The close that the server sends is not logged.
closes_quietly : handle sample 1 show_nothing (failed (codes "websocket: close sent")) ≡ returned []
unfolding handle
closes_quietly = refl

-- A token that a server would decode.
unreadable : query (url_of node script (record answer { token = codes "a+b" })) ≡ none
unreadable = refl
