-- ===== src/Runtime/History.antt =====
-- core/runtime/history.py, but for `to_dict`. A time is a number of microseconds, in UTC, and a
-- duration is their difference, 0 where the end is before the start. A record that is returned is
-- not changed by its receiver.
pub mod Ledger
mod Examples
use core_host.Base.{
  ℕ, ◌+◌, ◌-◌, Bool, true, false, not, String, Option, none, some, List, [], ◌∷◌, ◌++◌, length,
  or_else, is_some, if◌then◌else◌, Result, ok, err, ◌==◌, select,
}
use core_host.Base.Dict.{Dict, lookup, insert, values}

pub data HistoryError : Type 0 where
  empty_entity_id : HistoryError
  key_error : String → HistoryError

pub record RuntimeRecord : Type 0 where
  pub entity_id : String
  pub entity_type : String
  pub start_time : ℕ
  pub end_time : Option ℕ
  pub duration : Option ℕ
  pub status : String
  pub metadata : Dict (Option String)

pub record RuntimeHistory : Type 0 where
  pub records : Dict RuntimeRecord
  pub completed : List RuntimeRecord

-- `RuntimeHistory()`
abbrev pub init : RuntimeHistory
init = record { records = []; completed = [] }

-- `merged.update(metadata)`
unfoldable pub update : Dict (Option String) → Dict (Option String) → Dict (Option String)
update d [] = d
update d ((k, v) ∷ more) = update (insert k v d) more

-- `finish` of a record, with the clock. An empty dict and None change the metadata alike.
unfoldable pub finish :
    ℕ → String → Option ℕ → Option (Dict (Option String)) → RuntimeRecord → RuntimeRecord
unfolding update
finish now status end_time metadata r = record r {
  end_time = some (or_else end_time now);
  status = status;
  metadata = update r.metadata (or_else metadata []);
  duration = some (or_else end_time now - r.start_time);
}

-- `record.end_time is None`
abbrev pub is_active : RuntimeRecord → Bool
is_active r = not (is_some r.end_time)

abbrev pub Call : Type 0
Call = Result HistoryError RuntimeRecord × RuntimeHistory

abbrev pub close_existing : ℕ → Bool → RuntimeRecord → RuntimeHistory → RuntimeHistory
close_existing now false r h = h
close_existing now true r h = record h {
  completed = h.completed ++ finish now "failed" none none r ∷ [];
}

-- The record of the entity, if it still runs, is completed as failed. The finished record stays in
-- `records` until the new one takes its place.
abbrev pub close_found : ℕ → Option RuntimeRecord → RuntimeHistory → RuntimeHistory
close_found now none h = h
close_found now (some r) h = close_existing now (is_active r) r h

abbrev pub put : RuntimeRecord → RuntimeHistory → RuntimeHistory
put r h = record h { records = insert r.entity_id r h.records }

abbrev pub new_record :
    ℕ → String → String → Option (Dict (Option String)) → Option ℕ → RuntimeRecord
new_record now entity_id entity_type metadata start_time = record {
  entity_id = entity_id;
  entity_type = entity_type;
  start_time = or_else start_time now;
  end_time = none;
  duration = none;
  status = "running";
  metadata = or_else metadata [];
}

-- `start`; `later` is the clock when a record that is there is finished.
unfoldable pub start :
    ℕ → ℕ → String → String → Option (Dict (Option String)) → Option ℕ → RuntimeHistory → Call
start now later entity_id entity_type metadata start_time h =
    if entity_id == "" then (err empty_entity_id, h) else (
      ok (new_record now entity_id entity_type metadata start_time),
      put (new_record now entity_id entity_type metadata start_time)
          (close_found later (lookup entity_id h.records) h),
    )

-- A record that is finished stays as it is.
abbrev pub end_active :
    ℕ
    → String
    → String
    → Option (Dict (Option String))
    → Option ℕ
    → Bool
    → RuntimeRecord
    → RuntimeHistory
    → Call
end_active now entity_id status metadata end_time false r h = (ok r, h)
end_active now entity_id status metadata end_time true r h =
    let done = finish now status end_time metadata r in
    (
      ok done,
      record { records = insert entity_id done h.records; completed = h.completed ++ done ∷ [] },
    )

abbrev pub end_found :
    ℕ
    → String
    → String
    → Option (Dict (Option String))
    → Option ℕ
    → Option RuntimeRecord
    → RuntimeHistory
    → Call
end_found now entity_id status metadata end_time none h = (err (key_error entity_id), h)
end_found now entity_id status metadata end_time (some r) h =
    end_active now entity_id status metadata end_time (is_active r) r h

unfoldable pub end :
    ℕ → String → String → Option (Dict (Option String)) → Option ℕ → RuntimeHistory → Call
end now entity_id status metadata end_time h =
    end_found now entity_id status metadata end_time (lookup entity_id h.records) h

unfoldable pub get : String → RuntimeHistory → Result HistoryError RuntimeRecord
get entity_id h = elim (lookup entity_id h.records) [
  | none ↦ err (key_error entity_id)
  | some r ↦ ok r
]

unfoldable pub list_active : RuntimeHistory → List RuntimeRecord
list_active h = select is_active (values h.records)

abbrev pub active_in : Dict RuntimeRecord → ℕ
active_in [] = 0
active_in ((k, r) ∷ d) = (if is_active r then 1 else 0) + active_in d

unfoldable pub active_count : RuntimeHistory → ℕ
active_count h = active_in h.records

unfoldable pub count : RuntimeHistory → ℕ
count h = length h.records

unfoldable pub clear : RuntimeHistory → RuntimeHistory
clear h = record { records = []; completed = [] }

-- The calls that change the history, but for `clear`; each has the clock.
pub data Op : Type 0 where
  starts : ℕ → ℕ → String → String → Option (Dict (Option String)) → Option ℕ → Op
  ends : ℕ → String → String → Option (Dict (Option String)) → Option ℕ → Op

unfoldable pub step : Op → RuntimeHistory → RuntimeHistory
step (starts now later id type metadata t) h = (start now later id type metadata t h).1
step (ends now id status metadata t) h = (end now id status metadata t h).1

unfoldable pub run : List Op → RuntimeHistory → RuntimeHistory
unfolding step
run [] h = h
run (op ∷ ops) h = run ops (step op h)
