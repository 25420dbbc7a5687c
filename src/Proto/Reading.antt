-- ===== src/Proto/Reading.antt =====
-- The loop that every `deserializeBinaryFromReader` of load-test/packet_pb.js is.
pub mod Merge
pub mod Fields
use im_single.Base.{ℕ, zero, suc, Outcome, returned, out_of_fuel, ◌>>=◌, if◌then◌else◌}
use im_single.Jspb.Runtime.{Runtime}

module _ (j : Runtime) where
  open j use {Obj, Reader, next_field, is_end_group, get_field_number}

  -- `while (reader.nextField()) { if (reader.isEndGroup()) break; ... switch (field) ... }`.
  -- `read_field` is the `switch`. So many rounds are run at most: the loop itself has no bound, and on
  -- malformed bytes a reader may go back.
  unfoldable pub read_fields :
      (ℕ → Obj → Reader → Outcome (Obj × Reader)) → ℕ → Obj → Reader → Outcome (Obj × Reader)
  read_fields read_field zero msg reader = out_of_fuel
  read_fields read_field (suc fuel) msg reader = next_field reader >>= λ (more, reader1).
      let rest = read_field (get_field_number reader1) msg reader1 >>= λ (msg', reader2).
      read_fields read_field fuel msg' reader2 in
      if more
      then (if is_end_group reader1 then returned (msg, reader1) else rest)
      else returned (msg, reader1)
