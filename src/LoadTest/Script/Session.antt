-- ===== src/LoadTest/Script/Session.antt =====
-- The handlers of the websocket.
use im_single.Base.{ℕ, suc, ◌+◌, true, false, [], ◌∷◌, ◌++◌, ◌≡◌, ap, returned, ◌>>=◌}
use im_single.Jspb.Runtime.{Runtime}
use im_single.Jspb.Laws.{ObjectLaws}
use im_single.Jspb.Format.{Meaning, WriterLaws, ReaderLaws}
use im_single.Proto.Schema.{packet_schema}
use im_single.Proto.Schema.Plain.{plain, valid}
use im_single.Proto.Packet.{serialize_binary, to_object}
use im_single.Proto.Packet.Writing.{packet_round_trip}
use im_single.LoadTest.Script.{Text, codes, binary_message, log, handle}

-- The bytes of a packet whose numbers are in range and whose strings are well formed, when they arrive on
-- the socket, are read, given a round for each byte and one more, and a packet with the same `toObject()`
-- is logged.
pub handle-serialize :
    (j : Runtime) (m : Meaning j)
    → ObjectLaws j
    → WriterLaws j m
    → ReaderLaws j m
    → (show : j.Obj → Text) (o : j.Obj) → valid j m (plain j packet_schema o) ≡ true
    → (bytes : j.Bytes) × (o' : j.Obj) × (serialize_binary j o ≡ returned bytes)
      × ((extra : ℕ)
          → handle j (suc (j.byte_length bytes + extra)) show (binary_message bytes)
            ≡ returned (log ((codes "Received binaryMessage: " ++ show o') ∷ []) ∷ []))
      × (to_object j false o' ≡ to_object j false o)
unfolding handle
handle-serialize j m objects writing reading show o h =
    let (bytes, o', written, reads, same) = packet_round_trip j m objects writing reading o h in
    (
      bytes,
      o',
      written,
      λ extra.
          ap
            (λ r.
              r >>= λ p. returned (log ((codes "Received binaryMessage: " ++ show p) ∷ []) ∷ []))
            (reads extra),
      same,
    )
