-- ===== src/Runtime/History/Examples.antt =====
-- A device that is started twice and ended twice, and a service that is ended.
use core_host.Base.{◌+◌, ◌≡◌, refl, leb, none, List, [], ◌∷◌, length, ok}
use core_host.Base.Dict.{lookup, insert}
use core_host.Runtime.History.{
  RuntimeRecord, RuntimeHistory, Op, init, new_record, update, finish, start, end, starts, ends,
  run, step,
}
use core_host.Runtime.History.Ledger.{
  Test, begun, completed_in, running_in, AllFinished, intervals_kept, end_again,
}

abbrev script : List Op
script =
    starts 1 1 "esp-1" "device" none none
    ∷ starts 4 5 "esp-1" "device" none none
    ∷ starts 6 6 "" "device" none none
    ∷ ends 9 "esp-1" "stopped" none none
    ∷ ends 11 "esp-1" "failed" none none
    ∷ []

run-script : length (run script init).completed ≡ 2
unfolding run step start end lookup insert update finish
run-script = refl

-- The intervals of the device that start after time 1.
abbrev late : Test
late id type t = leb 2 t

intervals_kept_example :
    (completed_in late (run script init).completed + running_in late (run script init).records
      ≡ begun late script)
    × AllFinished (run script init).completed
intervals_kept_example = intervals_kept late script

abbrev running : RuntimeRecord
running = new_record 4 "esp-1" "device" none none

abbrev history : RuntimeHistory
history = record init { records = ("esp-1", running) ∷ [] }

ended : (end 9 "esp-1" "stopped" none none history).0 ≡ ok (finish 9 "stopped" none none running)
unfolding end lookup
ended = refl

end_again_example :
    end 11 "esp-1" "failed" none none (end 9 "esp-1" "stopped" none none history).1
    ≡ (ok (finish 9 "stopped" none none running), (end 9 "esp-1" "stopped" none none history).1)
end_again_example =
    end_again 9 11 "esp-1" "stopped" "failed" none none none none history
      (finish 9 "stopped" none none running) ended
